-- ===== src/HtmlTags/Info.antt =====
-- `print_tag_info`: what the table holds of a tag, on the terminal.
use c_pug.Common.{ℕ, ◌++◌, none, some, List, [], ◌∷◌, Bytes, codes, truth, if◌then◌else◌}
use c_pug.Console.{Call, printf, text}
use c_pug.HtmlTags.Queries.{get_html_tag_info}
use c_pug.HtmlTags.Types.{
  HtmlTagType, tag_void, tag_raw, HtmlTag, HtmlTagCategory, category_metadata, category_sections,
  category_heading, category_text, category_lists, category_tables, category_forms, category_media,
  category_embedded, category_scripting, category_interactive,
}

unfoldable pub type_str : HtmlTagType → Bytes
type_str tag_void = codes "Void"
type_str tag_raw = codes "Raw"
type_str _ = codes "Normal"

unfoldable pub category_str : HtmlTagCategory → Bytes
category_str category_metadata = codes "Metadata"
category_str category_sections = codes "Sections"
category_str category_heading = codes "Heading"
category_str category_text = codes "Text"
category_str category_lists = codes "Lists"
category_str category_tables = codes "Tables"
category_str category_forms = codes "Forms"
category_str category_media = codes "Media"
category_str category_embedded = codes "Embedded"
category_str category_scripting = codes "Scripting"
category_str category_interactive = codes "Interactive"
category_str _ = codes "Document"

-- The variation selector behind the first emoji.
abbrev emoji_style : ℕ
emoji_style = 0xfe0f

-- The lines for a tag that is found.
unfoldable pub print_info : HtmlTag → List Call
unfolding type_str category_str
print_info tag =
    record { format = codes "🏷" ++ emoji_style ∷ codes "  Tag: %s\n"; args = text tag.name ∷ [] }
    ∷ printf "   📝 Tipo: %s\n" (text (type_str tag.type) ∷ [])
    ∷ printf "   📂 Categoría: %s\n" (text (category_str tag.category) ∷ [])
    ∷ printf "   🔧 Atributos: %s\n"
        (text (if truth tag.has_attributes then codes "Sí" else codes "No") ∷ [])
    ∷ printf "   🎯 Anidamiento: %s\n"
        (text (if truth tag.can_nest then codes "Sí" else codes "No") ∷ [])
    ∷ printf "   📖 Descripción: %s\n" (text tag.description ∷ [])
    ∷ []

-- The name is not NULL: the code prints it by `%s` when there is no such tag.
unfoldable pub print_tag_info : Bytes → List Call
print_tag_info tag_name = elim (get_html_tag_info (some tag_name)) [
  | none ↦ printf "❌ Tag '%s' no encontrado\n" (text tag_name ∷ []) ∷ []
  | some tag ↦ print_info tag
]
