-- ===== src/Glib.antt =====
-- The functions of GLib that the program calls (glib.h): third-party code, so a parameter of the
-- model. A `GString` stands for its contents. `Documented` lists what the code relies on.
pub mod Standin
use c_pug.Common.{
  ℕ, ◌≡◌, ◌↔◌, ◌≢◌, Bool, true, false, ◌&&◌, List, [], ◌∷◌, ◌++◌, Bytes, ◌==◌, All, leb, not, ◌||◌,
}

-- A `gint`; `negsuc n` is -(n + 1).
pub data ℤ : Type 0 where
  pos : ℕ → ℤ
  negsuc : ℕ → ℤ

-- Each function takes its arguments in the order of glib.h. A function that changes a string in
-- place returns the string afterwards.
pub record Glib : Type 0 where
  pub g_string_append_c : Bytes → ℕ → Bytes
  pub g_string_append : Bytes → Bytes → Bytes
  pub g_string_append_printf : Bytes → Bytes → List Bytes → Bytes
  pub g_string_truncate : Bytes → ℕ → Bytes
  pub g_str_has_prefix : Bytes → Bytes → Bool
  pub g_strsplit : Bytes → Bytes → ℤ → List Bytes
  pub g_strstrip : Bytes → Bytes
  pub g_strconcat : List Bytes → Bytes
  pub g_strcmp0 : Bytes → Bytes → ℤ

-- What a format with the directive `%s` alone prints.
abbrev pub format_s : Bytes → List Bytes → Bytes
format_s [] args = []
format_s (c ∷ []) args = c ∷ []
format_s (c ∷ d ∷ f) args = elim (c == b'%' && d == b's') [
  | true ↦ elim args [ [] ↦ format_s f [] | a ∷ rest ↦ a ++ format_s f rest ]
  | false ↦ c ∷ format_s (d ∷ f) args
]

-- Each `%` of the format stands before an `s`.
abbrev pub is_plain : Bytes → Bool
is_plain [] = true
is_plain (c ∷ []) = not (c == b'%')
is_plain (c ∷ d ∷ f) = elim (c == b'%') [
  | true ↦ d == b's' && is_plain f
  | false ↦ is_plain (d ∷ f)
]

-- The pieces with the separator between them.
abbrev pub join : Bytes → List Bytes → Bytes
join d [] = []
join d (p ∷ []) = p
join d (p ∷ q ∷ ps) = p ++ (d ++ join d (q ∷ ps))

abbrev pub concat : List Bytes → Bytes
concat [] = []
concat (p ∷ ps) = p ++ concat ps

-- `g_ascii_isspace`
abbrev pub is_white : ℕ → Bool
is_white c = c == b' ' || (leb 9 c && leb c 13)

-- No white space at the start, and at the end.
abbrev pub starts_tight : Bytes → Bool
starts_tight [] = true
starts_tight (c ∷ s) = not (is_white c)

abbrev pub ends_tight : Bytes → Bool
ends_tight [] = true
ends_tight (c ∷ []) = not (is_white c)
ends_tight (c ∷ d ∷ s) = ends_tight (d ∷ s)

abbrev pub IsBlank : Bytes → Type 0
IsBlank s = All (λ c. is_white c ≡ true) s

-- The byte does not stand in the string.
abbrev pub IsWithout : ℕ → Bytes → Type 0
IsWithout d s = All (λ c. (c == d) ≡ false) s

pub record Documented (g : Glib) : Type 0 where
  pub append_c : (s : Bytes) (c : ℕ) → g.g_string_append_c s c ≡ s ++ c ∷ []
  pub append : (s t : Bytes) → g.g_string_append s t ≡ s ++ t
  pub append_printf :
      (s f : Bytes) (args : List Bytes)
      → is_plain f ≡ true
      → g.g_string_append_printf s f args ≡ s ++ format_s f args
  pub truncate_zero : (s : Bytes) → g.g_string_truncate s 0 ≡ []
  pub strsplit_nil : (d : Bytes) (n : ℤ) → g.g_strsplit [] d n ≡ []
  pub join-strsplit : (s d : Bytes) → s ≢ [] → join d (g.g_strsplit s d (pos 0)) ≡ s
  -- a limit below 1 is none; with the limit 2 the rest of the string is the second piece
  pub strsplit-join :
      (d n : ℕ) (p : Bytes) (ps : List Bytes)
      → join (d ∷ []) (p ∷ ps) ≢ []
      → All (IsWithout d) (p ∷ ps)
      → g.g_strsplit (join (d ∷ []) (p ∷ ps)) (d ∷ []) (negsuc n) ≡ p ∷ ps
  pub strsplit_two :
      (d : ℕ) (p s : Bytes)
      → IsWithout d p
      → g.g_strsplit (p ++ d ∷ s) (d ∷ []) (pos 2) ≡ p ∷ s ∷ []
  pub strstrip_tight :
      (a s b : Bytes)
      → IsBlank a
      → IsBlank b
      → starts_tight s ≡ true
      → ends_tight s ≡ true
      → g.g_strstrip (a ++ (s ++ b)) ≡ s
  pub strconcat : (ps : List Bytes) → g.g_strconcat ps ≡ concat ps
  pub strcmp0_iff : (a b : Bytes) → (g.g_strcmp0 a b ≡ pos 0) ↔ (a ≡ b)
