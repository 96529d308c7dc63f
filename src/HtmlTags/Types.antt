-- ===== src/HtmlTags/Types.antt =====
-- The types of the table of tags.
use c_pug.Common.{ℕ, Bytes}

pub data HtmlTagType : Type 0 where
  tag_void tag_normal tag_raw : HtmlTagType

pub data HtmlTagCategory : Type 0 where
  category_document category_metadata category_sections category_heading : HtmlTagCategory
  category_text category_lists category_tables category_forms : HtmlTagCategory
  category_media category_embedded category_scripting category_interactive : HtmlTagCategory

pub record HtmlTag : Type 0 where
  pub name : Bytes
  pub type : HtmlTagType
  pub category : HtmlTagCategory
  pub has_attributes : ℕ
  pub can_nest : ℕ
  pub description : Bytes
