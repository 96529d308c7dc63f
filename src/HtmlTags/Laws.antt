-- ===== src/HtmlTags/Laws.antt =====
-- What the table guarantees of every tag, and what the functions find in it.
use c_pug.Common.{
  ◌≡◌, refl, ◌⊎◌, Bool, true, false, not, ◌&&◌, ◌||◌, Option, none, some, List, [], ◌∷◌, Bytes,
  same, same_iff, ◌==◌, arith, if◌then◌else◌, Bool-cases, inl, inr, Option-cases, map,
}
use c_pug.HtmlTags.Queries.{
  valid_in, is_valid_html_tag, info_in, get_html_tag_info, void_type, is_void_tag, can_tag_nest,
  can_tag_have_attributes, get_tag_type,
}
use c_pug.HtmlTags.Table.{html_tags}
use c_pug.HtmlTags.Types.{HtmlTag, tag_void}

abbrev all_tags : (HtmlTag → Bool) → List HtmlTag → Bool
all_tags test [] = true
all_tags test (t ∷ ts) = test t && all_tags test ts

-- What holds of every entry holds of the entry that is found.
info_in-all :
    (test : HtmlTag → Bool) (ts : List HtmlTag) (name : Bytes) (t : HtmlTag)
    → all_tags test ts ≡ true
    → info_in ts name ≡ some t
    → (test t ≡ true) × (t.name ≡ name)
unfolding info_in
info_in-all test [] name t h e = cc
info_in-all test (u ∷ ts) name t h e =
    ground (arith, info_in-all test ts name t, same_iff u.name name)

-- A void tag may have attributes and nests nothing; a tag that is found may have attributes.
consistent : HtmlTag → Bool
consistent t = t.has_attributes == 1 && (if void_type t.type == 1 then t.can_nest == 0 else true)

table-consistent : all_tags consistent html_tags ≡ true
unfolding html_tags consistent void_type
table-consistent = refl

consistent-info :
    (name : Option Bytes) (t : HtmlTag) → get_html_tag_info name ≡ some t → consistent t ≡ true
unfolding get_html_tag_info
consistent-info none t e = cc
consistent-info (some name) t e = (info_in-all consistent html_tags name t table-consistent e).0

valid_in-info_in :
    (ts : List HtmlTag) (name : Bytes)
    → ((valid_in ts name ≡ 0) × (info_in ts name ≡ none))
      ⊎ ((t : HtmlTag) × (valid_in ts name ≡ 1) × (info_in ts name ≡ some t) × (t.name ≡ name))
unfolding valid_in info_in
valid_in-info_in [] name = inl (refl, refl)
valid_in-info_in (t ∷ ts) name = elim (Bool-cases (same t.name name)) [
  | inl hit ↦ inr (t, rw hit, rw hit, (same_iff t.name name).0 hit)
  | inr miss ↦ rw miss (valid_in-info_in ts name)
]

-- Of every name, either `is_valid_html_tag` is 0 and `get_html_tag_info` finds nothing, or
-- `is_valid_html_tag` is 1 and the entry that `get_html_tag_info` finds has that name.
pub valid-info :
    (name : Bytes)
    → ((is_valid_html_tag (some name) ≡ 0) × (get_html_tag_info (some name) ≡ none))
      ⊎ ((t : HtmlTag) × (is_valid_html_tag (some name) ≡ 1)
          × (get_html_tag_info (some name) ≡ some t)
          × (t.name ≡ name))
unfolding is_valid_html_tag get_html_tag_info
valid-info name = valid_in-info_in html_tags name

-- A name for which `is_void_tag` is 1 nests no other tag, may have attributes, and has the type for
-- void tags.
pub void-nests_nothing :
    (name : Option Bytes)
    → is_void_tag name ≡ 1
    → (can_tag_nest name ≡ 0) × (can_tag_have_attributes name ≡ 1) × (get_tag_type name ≡ tag_void)
unfolding is_void_tag can_tag_nest can_tag_have_attributes get_tag_type consistent void_type
void-nests_nothing name h = elim (Option-cases (get_html_tag_info name)) [
  | inl e ↦ absurd (ground arith)
  | inr (t, e) ↦ ground (arith, consistent-info name t e)
]

-- The names of the void entries.
unfoldable pub void_names : List HtmlTag → List Bytes
void_names [] = []
void_names (t ∷ ts) = if void_type t.type == 1 then t.name ∷ void_names ts else void_names ts

abbrev pub member : Bytes → List Bytes → Bool
member x [] = false
member x (y ∷ ys) = same y x || member x ys

abbrev pub distinct : List HtmlTag → Bool
distinct [] = true
distinct (t ∷ ts) = not (member t.name (map (λ (u : HtmlTag). u.name) ts)) && distinct ts

-- No name stands twice in the table.
pub table-distinct : distinct html_tags ≡ true
unfolding html_tags same
table-distinct = refl
