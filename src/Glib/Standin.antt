-- ===== src/Glib/Standin.antt =====
-- A GLib by functions that run, which shows that the assumptions can be met.
use c_pug.Common.{
  ℕ, zero, suc, ◌≡◌, refl, ◌≢◌, ◌↔◌, Bool, true, false, ◌&&◌, List, [], ◌∷◌, ◌++◌, Bytes, ◌==◌,
  if◌then◌else◌, length, arith, same, same_iff, ap, ◌∙◌, ==_iff, Bool-cases, inl, inr, All,
  length-append, ◌≤◌, sym, append-nil,
}
use c_pug.Glib.{
  ℤ, pos, negsuc, Glib, Documented, format_s, join, concat, is_white, IsBlank, IsWithout,
  starts_tight, ends_tight,
}

take_front : ℕ → Bytes → Bytes
take_front zero s = []
take_front (suc n) [] = []
take_front (suc n) (c ∷ s) = c ∷ take_front n s

has_prefix : Bytes → Bytes → Bool
has_prefix s [] = true
has_prefix [] (p ∷ ps) = false
has_prefix (c ∷ s) (p ∷ ps) = c == p && has_prefix s ps

onto_first : ℕ → List Bytes → List Bytes
onto_first c [] = (c ∷ []) ∷ []
onto_first c (p ∷ ps) = (c ∷ p) ∷ ps

-- At most `k` cuts at the byte `d`.
cut : ℕ → ℕ → Bytes → List Bytes
unfolding onto_first
cut d zero s = s ∷ []
cut d (suc k) [] = [] ∷ []
cut d (suc k) (c ∷ s) = if c == d then [] ∷ cut d k s else onto_first c (cut d (suc k) s)

abbrev cuts : ℤ → Bytes → ℕ
cuts (pos zero) s = length s
cuts (pos (suc n)) s = n
cuts (negsuc n) s = length s

-- The separator has one byte in every call; another is not cut at.
split : Bytes → Bytes → ℤ → List Bytes
unfolding cut
split [] d n = []
split (c ∷ s) (x ∷ []) n = cut x (cuts n (c ∷ s)) (c ∷ s)
split (c ∷ s) d n = (c ∷ s) ∷ []

strip_left : Bytes → Bytes
strip_left [] = []
strip_left (c ∷ s) = if is_white c then strip_left s else c ∷ s

strip_right : Bytes → Bytes
strip_right [] = []
strip_right (c ∷ s) = elim (strip_right s) [
  | [] ↦ if is_white c then [] else c ∷ []
  | d ∷ t ↦ c ∷ d ∷ t
]

abbrev compare_strings : Bytes → Bytes → ℤ
compare_strings a b = if same a b then pos 0 else pos 1

unfoldable pub standin : Glib
unfolding take_front has_prefix split strip_left strip_right same
standin = record {
  g_string_append_c = λ s c. s ++ c ∷ [];
  g_string_append = λ s t. s ++ t;
  g_string_append_printf = λ s f args. s ++ format_s f args;
  g_string_truncate = λ s n. take_front n s;
  g_str_has_prefix = has_prefix;
  g_strsplit = split;
  g_strstrip = λ s. strip_right (strip_left s);
  g_strconcat = concat;
  g_strcmp0 = compare_strings;
}

join-onto_first : (d : Bytes) (c : ℕ) (ps : List Bytes) → join d (onto_first c ps) ≡ c ∷ join d ps
unfolding onto_first
join-onto_first d c [] = refl
join-onto_first d c (p ∷ []) = refl
join-onto_first d c (p ∷ q ∷ ps) = refl

onto_first-cons :
    (c : ℕ) (ps : List Bytes) → (p : Bytes) × (qs : List Bytes) × (onto_first c ps ≡ p ∷ qs)
unfolding onto_first
onto_first-cons c [] = (c ∷ [], [], refl)
onto_first-cons c (p ∷ ps) = (c ∷ p, ps, refl)

cut-cons : (d k : ℕ) (s : Bytes) → (p : Bytes) × (ps : List Bytes) × (cut d k s ≡ p ∷ ps)
unfolding cut
cut-cons d zero s = (s, [], refl)
cut-cons d (suc k) [] = ([], [], refl)
cut-cons d (suc k) (c ∷ s) = elim (Bool-cases (c == d)) [
  | inl hit ↦ ([], cut d k s, rw hit)
  | inr miss ↦ rw miss (onto_first-cons c (cut d (suc k) s))
]

join-nil-cons :
    (d : ℕ) (ps qs : List Bytes) (p : Bytes)
    → ps ≡ p ∷ qs
    → join (d ∷ []) ([] ∷ ps) ≡ d ∷ join (d ∷ []) ps
join-nil-cons d ps qs p e = rw e

join-cut : (d k : ℕ) (s : Bytes) → join (d ∷ []) (cut d k s) ≡ s
unfolding cut
join-cut d zero s = refl
join-cut d (suc k) [] = refl
join-cut d (suc k) (c ∷ s) = elim (Bool-cases (c == d)) [
  | inl hit ↦
      let (p, ps, e) = cut-cons d k s in
      rw hit (join-nil-cons d (cut d k s) ps p e ∙ cc (join-cut d k s, (==_iff c d).0 hit))
  | inr miss ↦
      rw miss (join-onto_first (d ∷ []) c (cut d (suc k) s) ∙ ap (◌∷◌ c) (join-cut d (suc k) s))
]

join-split : (s d : Bytes) → s ≢ [] → join d (split s d (pos 0)) ≡ s
unfolding split
join-split [] d h = absurd (h refl)
join-split (c ∷ s) [] h = refl
join-split (c ∷ s) (x ∷ []) h = join-cut x (cuts (pos 0) (c ∷ s)) (c ∷ s)
join-split (c ∷ s) (x ∷ y ∷ d) h = refl

split-nil : (d : Bytes) (n : ℤ) → split [] d n ≡ []
unfolding split
split-nil d n = refl

compare_strings_iff : (a b : Bytes) → (compare_strings a b ≡ pos 0) ↔ (a ≡ b)
compare_strings_iff a b = ground (arith, same_iff a b)

-- A piece without the separator, with what stands behind it.
cut-append : (d k : ℕ) (p s : Bytes) → IsWithout d p → cut d (suc k) (p ++ d ∷ s) ≡ p ∷ cut d k s
unfolding cut onto_first
cut-append d k [] s h = ground arith
cut-append d k (c ∷ p) s h = rw (h.0, cut-append d k p s h.1) refl

cut-all : (d k : ℕ) (p : Bytes) → IsWithout d p → cut d k p ≡ p ∷ []
unfolding cut onto_first
cut-all d zero p h = refl
cut-all d (suc k) [] h = refl
cut-all d (suc k) (c ∷ p) h = rw (h.0, cut-all d (suc k) p h.1) refl

cut-join :
    (d k : ℕ) (p : Bytes) (ps : List Bytes)
    → length (join (d ∷ []) (p ∷ ps)) ≤ k
    → All (IsWithout d) (p ∷ ps)
    → cut d k (join (d ∷ []) (p ∷ ps)) ≡ p ∷ ps
cut-join d k p [] le h = cut-all d k p h.0
cut-join d zero p (q ∷ ps) le h =
    absurd (omega (arith, length-append p (d ∷ join (d ∷ []) (q ∷ ps))))
cut-join d (suc k) p (q ∷ ps) le h =
    let shorter : length (join (d ∷ []) (q ∷ ps)) ≤ k =
      omega (arith, length-append p (d ∷ join (d ∷ []) (q ∷ ps))) in
    cut-append d k p (join (d ∷ []) (q ∷ ps)) h.0 ∙ ap (◌∷◌ p) (cut-join d k q ps shorter h.1)

split-cut : (d n : ℕ) (s : Bytes) → s ≢ [] → split s (d ∷ []) (negsuc n) ≡ cut d (length s) s
unfolding split
split-cut d n [] h = absurd (h refl)
split-cut d n (c ∷ s) h = refl

split-join :
    (d n : ℕ) (p : Bytes) (ps : List Bytes)
    → join (d ∷ []) (p ∷ ps) ≢ []
    → All (IsWithout d) (p ∷ ps)
    → split (join (d ∷ []) (p ∷ ps)) (d ∷ []) (negsuc n) ≡ p ∷ ps
split-join d n p ps some h =
    split-cut d n (join (d ∷ []) (p ∷ ps)) some ∙ cut-join d _ p ps (omega arith) h

split_two : (d : ℕ) (p s : Bytes) → IsWithout d p → split (p ++ d ∷ s) (d ∷ []) (pos 2) ≡ p ∷ s ∷ []
unfolding split
split_two d [] s h = cut-append d 0 [] s h
split_two d (c ∷ p) s h = cut-append d 0 (c ∷ p) s h

strip_left-append : (a s : Bytes) → IsBlank a → strip_left (a ++ s) ≡ strip_left s
unfolding strip_left
strip_left-append [] s h = refl
strip_left-append (c ∷ a) s h = rw (h.0) (strip_left-append a s h.1)

strip_right-blank : (b : Bytes) → IsBlank b → strip_right b ≡ []
unfolding strip_right
strip_right-blank [] h = refl
strip_right-blank (c ∷ b) h = rw (strip_right-blank b h.1, h.0) refl

strip_right-append : (s b : Bytes) → IsBlank b → ends_tight s ≡ true → strip_right (s ++ b) ≡ s
unfolding strip_right
strip_right-append [] b h tight = strip_right-blank b h
strip_right-append (c ∷ []) b h tight = rw (strip_right-blank b h) (ground arith)
strip_right-append (c ∷ d ∷ s) b h tight = rw (strip_right-append (d ∷ s) b h tight) refl

strip_tight :
    (a s b : Bytes)
    → IsBlank a
    → IsBlank b
    → starts_tight s ≡ true
    → ends_tight s ≡ true
    → strip_right (strip_left (a ++ (s ++ b))) ≡ s
unfolding strip_left strip_right
strip_tight a [] b h k start end =
    rw (strip_left-append a b h, sym (append-nil b), strip_left-append b [] k) refl
strip_tight a (c ∷ s) b h k start end =
    rw (strip_left-append a (c ∷ s ++ b) h)
      (let dark : is_white c ≡ false = ground arith in rw dark (strip_right-append (c ∷ s) b k end))

pub standin-Documented : Documented standin
unfolding standin
standin-Documented = record {
  append_c = λ s c. refl;
  append = λ s t. refl;
  append_printf = λ s f args plain. refl;
  truncate_zero = λ s. refl;
  strsplit_nil = split-nil;
  join-strsplit = join-split;
  strsplit-join = split-join;
  strsplit_two = split_two;
  strstrip_tight = strip_tight;
  strconcat = λ ps. refl;
  strcmp0_iff = compare_strings_iff;
}
