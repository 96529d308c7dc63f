-- ===== src/Main/Lre.antt =====
-- The library of regular expressions (libregexp.h): third-party code, so a parameter of the model.
-- A `uint8_t*` into the input is its offset, NULL is `none`. `Documented` lists what the code
-- relies on.
use c_pug.Common.{
  ℕ, ◌+◌, ◌*◌, ◌≤◌, ◌≡◌, Bool, false, not, ◌&&◌, Option, none, some, List, [], ◌∷◌, Bytes, ◌==◌,
  if◌then◌else◌, length, get_elem?,
}
use c_pug.Glib.{ℤ, pos}

-- NULL with the text left in `error_msg`, or the bytecode.
pub data Compiled : Type 0 where
  refused : Bytes → Compiled
  compiled : Bytes → Compiled

pub record Lre : Type 0 where
  -- the pattern and the flags
  pub lre_compile : Bytes → ℕ → Compiled
  pub lre_get_capture_count : Bytes → ℕ
  -- the bytecode, the input, the index to start at and the length; the array of captures is filled
  pub lre_exec : Bytes → Bytes → ℕ → ℕ → ℤ × List (Option ℕ)
  -- the value of the macro LRE_FLAG_IGNORECASE
  pub lre_flag_ignorecase : ℕ

-- Whether the next character is `?`, which makes a bracket one that captures nothing.
abbrev pub is_question : Bytes → Bool
is_question [] = false
is_question (c ∷ _) = c == b'?'

-- The groups of a pattern that has no named groups: the opening brackets that are neither escaped,
-- nor in a class, nor before `?`.
abbrev pub groups : Bool → Bool → Bytes → ℕ
groups escaped in_class [] = 0
groups escaped in_class (c ∷ s) =
    (if not escaped && (not in_class && (c == b'(' && not (is_question s))) then 1 else 0)
    + groups (not escaped && c == b'\\')
        (if escaped then in_class else if in_class then not (c == b']') else c == b'[') s

-- Two captures that stand side by side: both NULL, or a part of the input.
pub data IsPair (n : ℕ) (start end : Option ℕ) : Type 0 where
  unset : start ≡ none → end ≡ none → IsPair n start end
  set : (s e : ℕ) → start ≡ some s → end ≡ some e → s ≤ e → e ≤ n → IsPair n start end

-- A match from `from` on in an input of length `n`, with `count` captures of two places each.
pub record Matches (count from n : ℕ) (captures : List (Option ℕ)) : Type 0 where
  pub size : length captures ≡ 2 * count
  pub start : ℕ
  pub end : ℕ
  pub starts_at : get_elem? captures 0 ≡ some (some start)
  pub ends_at : get_elem? captures 1 ≡ some (some end)
  pub forward : from ≤ start
  pub ordered : start ≤ end
  pub inside : end ≤ n

pub record Documented (lre : Lre) : Type 0 where
  pub counted :
      (pattern : Bytes) (flags : ℕ) (bc : Bytes)
      → lre.lre_compile pattern flags ≡ compiled bc
      → lre.lre_get_capture_count bc ≡ groups false false pattern + 1
  pub matched :
      (bc input : Bytes) (from n : ℕ) (captures : List (Option ℕ))
      → lre.lre_exec bc input from n ≡ (pos 1, captures)
      → Matches (lre.lre_get_capture_count bc) from n captures
