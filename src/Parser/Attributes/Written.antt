-- ===== src/Parser/Attributes/Written.antt =====
-- Attributes as a template writes them, and what `parse_attributes` reads from them.
use c_pug.Common.{
  ℕ, ◌≡◌, refl, ◌∙◌, ap, Bool, true, false, ◌||◌, not, some, [], ◌∷◌, ◌++◌, Bytes, ◌==◌, arith, All,
  All-append, ◌⊎◌,
}
use c_pug.Glib.{is_white, IsBlank, IsWithout, starts_tight, ends_tight}
use c_pug.Parser.Attributes.{drop_last, last_byte, unquote}
use c_pug.Tokens.{attr_string, Attribute}

-- `initial ∷ others` is the name; the four blanks stand around the name and around the value.
pub record Written : Type 0 where
  pub initial : ℕ
  pub others : Bytes
  pub quote : ℕ
  pub value : Bytes
  pub before : Bytes
  pub behind : Bytes
  pub ahead : Bytes
  pub after : Bytes

abbrev pub quoted : ℕ → Bytes → Bytes
quoted q value = q ∷ (value ++ q ∷ [])

abbrev pub core : Written → Bytes
core w = ((w.initial ∷ w.others) ++ w.behind) ++ (b'=' ∷ (w.ahead ++ quoted w.quote w.value))

abbrev pub text : Written → Bytes
text w = w.before ++ (core w ++ w.after)

abbrev pub attribute : Written → Attribute
attribute w = record {
  name = some (w.initial ∷ w.others);
  value = some w.value;
  type = attr_string;
}

-- A byte of a name: no white space, no comma, no sign of equality.
abbrev pub is_name : ℕ → Bool
is_name c = not (is_white c || c == b',' || c == b'=')

pub record IsWritten (w : Written) : Type 0 where
  pub named : All (λ c. is_name c ≡ true) (w.initial ∷ w.others)
  pub whole : IsWithout (b',') w.value
  pub quotes : (w.quote ≡ b'"') ⊎ (w.quote ≡ 39)
  pub blanks : IsBlank w.before × IsBlank w.behind × IsBlank w.ahead × IsBlank w.after

ends_tight-append : (a : Bytes) (c : ℕ) (b : Bytes) → ends_tight (a ++ c ∷ b) ≡ ends_tight (c ∷ b)
ends_tight-append [] c b = refl
ends_tight-append (d ∷ []) c b = refl
ends_tight-append (d ∷ e ∷ a) c b = ends_tight-append (e ∷ a) c b

last_byte-snoc : (c : ℕ) (s : Bytes) (d : ℕ) → last_byte c (s ++ d ∷ []) ≡ d
last_byte-snoc c [] d = refl
last_byte-snoc c (e ∷ s) d = last_byte-snoc e s d

drop_last-snoc : (s : Bytes) (d : ℕ) → drop_last (s ++ d ∷ []) ≡ s
drop_last-snoc [] d = refl
drop_last-snoc (c ∷ []) d = refl
drop_last-snoc (c ∷ e ∷ s) d = ap (◌∷◌ c) (drop_last-snoc (e ∷ s) d)

pub unquote-quoted :
    (q : ℕ) (value : Bytes) → (q ≡ b'"') ⊎ (q ≡ 39) → unquote (quoted q value) ≡ value
unfolding unquote
unquote-quoted q value h = ground (arith, last_byte-snoc q value q, drop_last-snoc value q)

-- White space and the bytes of a name are other bytes than the separators.
pub IsBlank-IsWithout : (d : ℕ) (s : Bytes) → is_white d ≡ false → IsBlank s → IsWithout d s
IsBlank-IsWithout d [] dark h = tt
IsBlank-IsWithout d (c ∷ s) dark h = (ground (arith, h.0), IsBlank-IsWithout d s dark h.1)

pub names-IsWithout :
    (d : ℕ) (s : Bytes) → is_name d ≡ false → All (λ c. is_name c ≡ true) s → IsWithout d s
names-IsWithout d [] other h = tt
names-IsWithout d (c ∷ s) other h = (ground (arith, h.0), names-IsWithout d s other h.1)

pub names-ends_tight : (s : Bytes) → All (λ c. is_name c ≡ true) s → ends_tight s ≡ true
names-ends_tight [] h = refl
names-ends_tight (c ∷ []) h = ground (arith, h.0)
names-ends_tight (c ∷ d ∷ s) h = names-ends_tight (d ∷ s) h.1

dark_quote : (q : ℕ) → (q ≡ b'"') ⊎ (q ≡ 39) → (is_white q ≡ false) × ((q == b',') ≡ false)
dark_quote q h = ground arith

module _ (w : Written) (h : IsWritten w) where
  pub quoted-tight : ends_tight (quoted w.quote w.value) ≡ true
  quoted-tight =
      ends_tight-append (w.quote ∷ w.value) w.quote [] ∙ ap not (dark_quote w.quote h.quotes).0

  pub name_starts : starts_tight (w.initial ∷ w.others) ≡ true
  name_starts = ground (arith, h.named.0)

  pub quote_starts : starts_tight (quoted w.quote w.value) ≡ true
  quote_starts = ap not (dark_quote w.quote h.quotes).0

  pub core-starts : starts_tight (core w) ≡ true
  core-starts = ground (arith, h.named.0)

  pub core-ends : ends_tight (core w) ≡ true
  core-ends =
      ends_tight-append ((w.initial ∷ w.others) ++ w.behind) (b'=')
        (w.ahead ++ quoted w.quote w.value)
      ∙ ends_tight-append (b'=' ∷ w.ahead) w.quote (w.value ++ w.quote ∷ [])
      ∙ quoted-tight

  pub text-IsWithout : IsWithout (b',') (text w)
  text-IsWithout =
      let comma : ℕ → Type 0 = λ c. (c == b',') ≡ false in
      let (before, behind, ahead, after) = h.blanks in
      let quote = (dark_quote w.quote h.quotes).1 in
      All-append comma w.before (core w ++ w.after) (IsBlank-IsWithout (b',') w.before refl before)
        (All-append comma (core w) w.after
          (All-append comma ((w.initial ∷ w.others) ++ w.behind)
            (b'=' ∷ (w.ahead ++ quoted w.quote w.value))
            (All-append comma (w.initial ∷ w.others) w.behind
              (names-IsWithout (b',') (w.initial ∷ w.others) refl h.named)
              (IsBlank-IsWithout (b',') w.behind refl behind))
            (
              refl,
              All-append comma w.ahead (quoted w.quote w.value)
                  (IsBlank-IsWithout (b',') w.ahead refl ahead)
                  (quote, All-append comma w.value (w.quote ∷ []) h.whole (quote, tt)),
            ))
          (IsBlank-IsWithout (b',') w.after refl after))
