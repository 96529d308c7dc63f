-- ===== src/HtmlTags/VoidTags.antt =====
-- The two functions named `is_void_tag`: that of include/c-pug-base.h, by the table of HTML tags,
-- and that of include/pug/pug_renderer.h, by a list of its own.
use c_pug.Common.{
  ℕ, ◌≡◌, refl, sym, Bool, true, ◌&&◌, ◌||◌, none, some, List, [], ◌∷◌, Bytes, same, same_iff, ◌==◌,
  arith, if◌then◌else◌, bool_ext, ◌↔◌, Bool-cases, inl, inr, map, codes,
}
use c_pug.Glib.{Glib, Documented, ℤ, pos, negsuc}
use c_pug.HtmlTags.Laws.{void_names, member, distinct, table-distinct}
use c_pug.HtmlTags.Queries.{info_in, get_html_tag_info, void_type, is_void_tag}
use c_pug.HtmlTags.Table.{html_tags}
use c_pug.HtmlTags.Types.{HtmlTag}
use c_pug.Renderer.Escape.{is_zero, find_tag, void_tags}
use c_pug.Renderer.Escape

abbrev names : List HtmlTag → List Bytes
names = map (λ (u : HtmlTag). u.name)

member-void_names :
    (n : Bytes) (ts : List HtmlTag) → member n (void_names ts) ≡ true → member n (names ts) ≡ true
unfolding void_names
member-void_names n [] h = h
member-void_names n (t ∷ ts) h = ground (arith, member-void_names n ts)

abbrev void_in : List HtmlTag → Bytes → ℕ
void_in ts n = elim (info_in ts n) [ none ↦ 0 | some t ↦ void_type t.type ]

void_in-member :
    (n : Bytes) (ts : List HtmlTag)
    → distinct ts ≡ true
    → void_in ts n ≡ (if member n (void_names ts) then 1 else 0)
unfolding void_names info_in void_type
void_in-member n [] h = refl
void_in-member n (t ∷ ts) h = elim (Bool-cases (same t.name n)) [
  | inl hit ↦ ground (arith, same_iff t.name n, member-void_names n ts)
  | inr miss ↦ ground (arith, void_in-member n ts)
]

-- Every item of the first list is in the second.
abbrev all_in : List Bytes → List Bytes → Bool
all_in [] ys = true
all_in (x ∷ xs) ys = member x ys && all_in xs ys

member-all_in :
    (n : Bytes) (xs ys : List Bytes) → all_in xs ys ≡ true → member n xs ≡ true → member n ys ≡ true
member-all_in n [] ys h k = cc
member-all_in n (x ∷ xs) ys h k = elim (Bool-cases (same x n)) [
  | inl hit ↦ ground (arith, same_iff x n)
  | inr miss ↦ member-all_in n xs ys (ground arith) (ground arith)
]

-- The list of the renderer holds the void names of the table, and `base`.
tables_agree :
    (all_in void_tags (codes "base" ∷ void_names html_tags) ≡ true)
    × (all_in (codes "base" ∷ void_names html_tags) void_tags ≡ true)
unfolding html_tags void_tags void_names void_type same
tables_agree = (refl, refl)

module _ (g : Glib) (doc : Documented g) where
  is_zero_iff : (z : ℤ) → (is_zero z ≡ true) ↔ (z ≡ pos 0)
  is_zero_iff (pos n) = ground arith
  is_zero_iff (negsuc n) = ground arith

  pub is_zero-strcmp0 : (a b : Bytes) → is_zero (g.g_strcmp0 a b) ≡ same b a
  is_zero-strcmp0 a b =
      bool_ext (is_zero (g.g_strcmp0 a b)) (same b a)
        (λ h.
          (same_iff b a).1 (sym ((doc.strcmp0_iff a b).0 ((is_zero_iff (g.g_strcmp0 a b)).0 h))))
        (λ h.
          (is_zero_iff (g.g_strcmp0 a b)).1 ((doc.strcmp0_iff a b).1 (sym ((same_iff b a).0 h))))

  pub find_tag-member : (n : Bytes) (ts : List Bytes) → find_tag g n ts ≡ member n ts
  unfolding find_tag
  find_tag-member n [] = refl
  find_tag-member n (t ∷ ts) = ground (arith, is_zero-strcmp0 n t, find_tag-member n ts)

  -- For every name, the renderer takes it for void if and only if it is void by the table of HTML
  -- tags or is `base`, given a `g_strcmp0` that returns 0 for equal strings only.
  pub is_void_tag-base :
      (n : Bytes)
      → Escape.is_void_tag g (some n) ≡ ((is_void_tag (some n) == 1) || same (codes "base") n)
  unfolding Escape.is_void_tag is_void_tag get_html_tag_info
  is_void_tag-base n =
      rw (void_in-member n html_tags table-distinct, find_tag-member n void_tags)
        (ground (
          arith,
          member-all_in n void_tags (codes "base" ∷ void_names html_tags) tables_agree.0,
          member-all_in n (codes "base" ∷ void_names html_tags) void_tags tables_agree.1,
        ))
