-- ===== src/HtmlTags/Table.antt =====
-- `HTML_TAGS` of include/c-pug-base.h, without the entry NULL at its end, which `HTML_TAGS_COUNT`
-- does not count.
use Prim.Native.String.{String}
use c_pug.Common.{ℕ, List, [], ◌∷◌, codes}
use c_pug.HtmlTags.Types.{
  HtmlTagType, tag_normal, tag_raw, tag_void, HtmlTagCategory, category_document, category_metadata,
  category_sections, category_text, category_heading, category_lists, category_media,
  category_tables, category_forms, category_interactive, category_embedded, category_scripting,
  HtmlTag,
}

-- One entry of the table, in the order of the fields.
abbrev entry : String → HtmlTagType → HtmlTagCategory → ℕ → ℕ → String → HtmlTag
entry name type category has_attributes can_nest description = record {
  name = codes name;
  type = type;
  category = category;
  has_attributes = has_attributes;
  can_nest = can_nest;
  description = codes description;
}

unfoldable pub html_tags : List HtmlTag
html_tags =
    entry "html" tag_normal category_document 1 1 "Root element"
    ∷ entry "head" tag_normal category_document 1 1 "Document metadata"
    ∷ entry "body" tag_normal category_document 1 1 "Document body"
    ∷ entry "title" tag_normal category_metadata 1 0 "Document title"
    ∷ entry "meta" tag_void category_metadata 1 0 "Metadata"
    ∷ entry "link" tag_void category_metadata 1 0 "External resource link"
    ∷ entry "style" tag_normal category_metadata 1 0 "CSS styles"
    ∷ entry "div" tag_normal category_sections 1 1 "Content division"
    ∷ entry "span" tag_normal category_text 1 1 "Inline container"
    ∷ entry "header" tag_normal category_sections 1 1 "Header content"
    ∷ entry "footer" tag_normal category_sections 1 1 "Footer content"
    ∷ entry "main" tag_normal category_sections 1 1 "Main content"
    ∷ entry "section" tag_normal category_sections 1 1 "Thematic section"
    ∷ entry "article" tag_normal category_sections 1 1 "Self-contained content"
    ∷ entry "aside" tag_normal category_sections 1 1 "Aside content"
    ∷ entry "nav" tag_normal category_sections 1 1 "Navigation links"
    ∷ entry "h1" tag_normal category_heading 1 1 "Heading level 1"
    ∷ entry "h2" tag_normal category_heading 1 1 "Heading level 2"
    ∷ entry "h3" tag_normal category_heading 1 1 "Heading level 3"
    ∷ entry "h4" tag_normal category_heading 1 1 "Heading level 4"
    ∷ entry "h5" tag_normal category_heading 1 1 "Heading level 5"
    ∷ entry "h6" tag_normal category_heading 1 1 "Heading level 6"
    ∷ entry "p" tag_normal category_text 1 1 "Paragraph"
    ∷ entry "br" tag_void category_text 1 0 "Line break"
    ∷ entry "hr" tag_void category_text 1 0 "Horizontal rule"
    ∷ entry "pre" tag_raw category_text 1 1 "Preformatted text"
    ∷ entry "blockquote" tag_normal category_text 1 1 "Block quotation"
    ∷ entry "code" tag_normal category_text 1 1 "Code fragment"
    ∷ entry "em" tag_normal category_text 1 1 "Emphasized text"
    ∷ entry "strong" tag_normal category_text 1 1 "Important text"
    ∷ entry "i" tag_normal category_text 1 1 "Italic text"
    ∷ entry "b" tag_normal category_text 1 1 "Bold text"
    ∷ entry "u" tag_normal category_text 1 1 "Underlined text"
    ∷ entry "mark" tag_normal category_text 1 1 "Marked/highlighted text"
    ∷ entry "small" tag_normal category_text 1 1 "Small text"
    ∷ entry "sub" tag_normal category_text 1 1 "Subscript"
    ∷ entry "sup" tag_normal category_text 1 1 "Superscript"
    ∷ entry "ul" tag_normal category_lists 1 1 "Unordered list"
    ∷ entry "ol" tag_normal category_lists 1 1 "Ordered list"
    ∷ entry "li" tag_normal category_lists 1 1 "List item"
    ∷ entry "dl" tag_normal category_lists 1 1 "Description list"
    ∷ entry "dt" tag_normal category_lists 1 1 "Description term"
    ∷ entry "dd" tag_normal category_lists 1 1 "Description details"
    ∷ entry "a" tag_normal category_text 1 1 "Hyperlink"
    ∷ entry "img" tag_void category_media 1 0 "Image"
    ∷ entry "picture" tag_normal category_media 1 1 "Image container"
    ∷ entry "figure" tag_normal category_media 1 1 "Figure with caption"
    ∷ entry "figcaption" tag_normal category_media 1 1 "Figure caption"
    ∷ entry "audio" tag_normal category_media 1 1 "Audio content"
    ∷ entry "video" tag_normal category_media 1 1 "Video content"
    ∷ entry "source" tag_void category_media 1 0 "Media source"
    ∷ entry "track" tag_void category_media 1 0 "Text track"
    ∷ entry "table" tag_normal category_tables 1 1 "Table"
    ∷ entry "thead" tag_normal category_tables 1 1 "Table header"
    ∷ entry "tbody" tag_normal category_tables 1 1 "Table body"
    ∷ entry "tfoot" tag_normal category_tables 1 1 "Table footer"
    ∷ entry "tr" tag_normal category_tables 1 1 "Table row"
    ∷ entry "td" tag_normal category_tables 1 1 "Table cell"
    ∷ entry "th" tag_normal category_tables 1 1 "Table header cell"
    ∷ entry "caption" tag_normal category_tables 1 1 "Table caption"
    ∷ entry "col" tag_void category_tables 1 0 "Table column"
    ∷ entry "colgroup" tag_normal category_tables 1 1 "Table column group"
    ∷ entry "form" tag_normal category_forms 1 1 "Form"
    ∷ entry "input" tag_void category_forms 1 0 "Form input"
    ∷ entry "textarea" tag_normal category_forms 1 1 "Multiline text input"
    ∷ entry "button" tag_normal category_forms 1 1 "Button"
    ∷ entry "select" tag_normal category_forms 1 1 "Dropdown list"
    ∷ entry "option" tag_normal category_forms 1 0 "Dropdown option"
    ∷ entry "optgroup" tag_normal category_forms 1 1 "Option group"
    ∷ entry "label" tag_normal category_forms 1 1 "Form label"
    ∷ entry "fieldset" tag_normal category_forms 1 1 "Field set"
    ∷ entry "legend" tag_normal category_forms 1 1 "Field set caption"
    ∷ entry "datalist" tag_normal category_forms 1 1 "Predefined options"
    ∷ entry "output" tag_normal category_forms 1 1 "Calculation output"
    ∷ entry "progress" tag_normal category_forms 1 1 "Progress bar"
    ∷ entry "meter" tag_normal category_forms 1 1 "Scalar measurement"
    ∷ entry "details" tag_normal category_interactive 1 1 "Disclosure widget"
    ∷ entry "summary" tag_normal category_interactive 1 1 "Details summary"
    ∷ entry "dialog" tag_normal category_interactive 1 1 "Dialog box"
    ∷ entry "menu" tag_normal category_interactive 1 1 "Menu list"
    ∷ entry "iframe" tag_normal category_embedded 1 1 "Inline frame"
    ∷ entry "embed" tag_void category_embedded 1 0 "External content"
    ∷ entry "object" tag_normal category_embedded 1 1 "Embedded object"
    ∷ entry "param" tag_void category_embedded 1 0 "Object parameter"
    ∷ entry "script" tag_normal category_scripting 1 0 "JavaScript code"
    ∷ entry "canvas" tag_normal category_scripting 1 1 "Graphics canvas"
    ∷ entry "svg" tag_normal category_scripting 1 1 "SVG graphics"
    ∷ entry "math" tag_normal category_scripting 1 1 "MathML content"
    ∷ entry "time" tag_normal category_text 1 1 "Machine-readable time"
    ∷ entry "data" tag_normal category_text 1 1 "Machine-readable data"
    ∷ entry "var" tag_normal category_text 1 1 "Variable"
    ∷ entry "samp" tag_normal category_text 1 1 "Sample output"
    ∷ entry "kbd" tag_normal category_text 1 1 "Keyboard input"
    ∷ entry "s" tag_normal category_text 1 1 "Strikethrough"
    ∷ entry "wbr" tag_void category_text 1 0 "Word break opportunity"
    ∷ entry "ruby" tag_normal category_text 1 1 "Ruby annotation"
    ∷ entry "rt" tag_normal category_text 1 1 "Ruby text"
    ∷ entry "rp" tag_normal category_text 1 1 "Ruby parentheses"
    ∷ entry "map" tag_normal category_media 1 1 "Image map"
    ∷ entry "area" tag_void category_media 1 0 "Image map area"
    ∷ entry "noscript" tag_normal category_scripting 1 1 "Content for non-JS users"
    ∷ entry "template" tag_normal category_scripting 1 1 "Template content"
    ∷ entry "slot" tag_normal category_scripting 1 1 "Shadow DOM slot"
    ∷ []
