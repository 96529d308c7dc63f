-- ===== src/HtmlTags/Queries.antt =====
-- The functions that look a tag up. A name that is NULL is `none`; an `int` that stands for a truth
-- value is a number.
use c_pug.Common.{ℕ, Option, none, some, List, [], ◌∷◌, Bytes, same, if◌then◌else◌}
use c_pug.HtmlTags.Table.{html_tags}
use c_pug.HtmlTags.Types.{
  HtmlTagType, tag_void, tag_normal, HtmlTagCategory, category_document, HtmlTag,
}

-- The loop of `is_valid_html_tag`.
unfoldable pub valid_in : List HtmlTag → Bytes → ℕ
valid_in [] tag_name = 0
valid_in (tag ∷ tags) tag_name = if same tag.name tag_name then 1 else valid_in tags tag_name

unfoldable pub is_valid_html_tag : Option Bytes → ℕ
is_valid_html_tag none = 0
is_valid_html_tag (some tag_name) = valid_in html_tags tag_name

-- The loop of `get_html_tag_info`.
unfoldable pub info_in : List HtmlTag → Bytes → Option HtmlTag
info_in [] tag_name = none
info_in (tag ∷ tags) tag_name = if same tag.name tag_name then some tag else info_in tags tag_name

unfoldable pub get_html_tag_info : Option Bytes → Option HtmlTag
get_html_tag_info none = none
get_html_tag_info (some tag_name) = info_in html_tags tag_name

-- `type == TAG_VOID`
unfoldable pub void_type : HtmlTagType → ℕ
void_type tag_void = 1
void_type _ = 0

unfoldable pub is_void_tag : Option Bytes → ℕ
is_void_tag tag_name = elim (get_html_tag_info tag_name) [
  | none ↦ 0
  | some tag ↦ void_type tag.type
]

unfoldable pub can_tag_nest : Option Bytes → ℕ
can_tag_nest tag_name = elim (get_html_tag_info tag_name) [ none ↦ 0 | some tag ↦ tag.can_nest ]

unfoldable pub can_tag_have_attributes : Option Bytes → ℕ
can_tag_have_attributes tag_name = elim (get_html_tag_info tag_name) [
  | none ↦ 0
  | some tag ↦ tag.has_attributes
]

unfoldable pub get_tag_category : Option Bytes → HtmlTagCategory
get_tag_category tag_name = elim (get_html_tag_info tag_name) [
  | none ↦ category_document
  | some tag ↦ tag.category
]

unfoldable pub get_tag_type : Option Bytes → HtmlTagType
get_tag_type tag_name = elim (get_html_tag_info tag_name) [
  | none ↦ tag_normal
  | some tag ↦ tag.type
]
