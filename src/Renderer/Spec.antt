-- ===== src/Renderer/Spec.antt =====
-- What the renderer promises: the HTML of a tree, by concatenation alone. No buffer, no heap, no
-- fuel and no GLib stand in it.
use c_pug.Common.{
  ℕ, ◌+◌, ◌*◌, ◌%◌, Bool, false, ◌||◌, Option, none, some, List, [], ◌∷◌, ◌++◌, Bytes, codes,
  text_or, ◌==◌, if◌then◌else◌, truth, take, replicate, map, same,
}
use c_pug.Debug.{token_type_to_string}
use c_pug.Glib.{join}
use c_pug.HtmlTags.Laws.{member}
use c_pug.Renderer.Escape.{void_tags}
use c_pug.Renderer.Escape.RoundTrip.{escaped}
use c_pug.Renderer.Node.{Style, is_tag_type}
use c_pug.Renderer.Pieces.{is_boolean}
use c_pug.Tokens.{
  TokenType, token_text, token_dot, token_pipe, token_comment, token_interpolation, token_code,
  token_doctype, token_include, token_extends, token_mixin, token_call, Attribute, AttributeList,
  AstNode, uint_mod,
}

-- A node with the trees of its children.
mutual
  pub data Tree : Type 0 where
    node : AstNode → Forest → Tree

  pub data Forest : Type 0 where
    no_trees : Forest
    tree : Tree → Forest → Forest

-- The text of a node, escaped.
abbrev pub text_html : Option Bytes → Bytes
text_html none = []
text_html (some text) = escaped text

abbrev pub value_html : Attribute → Bytes
value_html attr = elim attr.value [
  | none ↦ []
  | some value ↦ if is_boolean attr.type then [] else codes "=\"" ++ (value ++ codes "\"")
]

abbrev pub attribute_html : Attribute → Bytes
attribute_html attr = elim attr.name [ none ↦ [] | some name ↦ b' ' ∷ (name ++ value_html attr) ]

abbrev pub attribute_items_html : List Attribute → Bytes
attribute_items_html [] = []
attribute_items_html (attr ∷ attrs) = attribute_html attr ++ attribute_items_html attrs

abbrev pub attributes_html : Option AttributeList → Bytes
attributes_html none = []
attributes_html (some list) = attribute_items_html (take list.count list.attributes)

abbrev pub classes_html : Option (List Bytes) → ℕ → Bytes
classes_html classes count =
    if count == 0
    then []
    else codes " class=\""
      ++ (join (codes " ") (map escaped (take count (elim classes [ none ↦ [] | some cs ↦ cs ])))
          ++ codes "\"")

abbrev pub id_html : Option Bytes → Bytes
id_html none = []
id_html (some id) = codes " id=\"" ++ (escaped id ++ codes "\"")

abbrev pub open_html : AstNode → Bytes
open_html n =
    codes "<"
    ++ (text_or n.tag (codes "div")
        ++ (id_html n.id ++ (classes_html n.classes n.class_count ++ attributes_html n.attributes)))

-- A void tag has neither content nor an end.
abbrev pub has_void_tag : AstNode → Bool
has_void_tag n = truth n.is_void || (elim n.tag [ none ↦ false | some tag ↦ member tag void_tags ])

-- The artificial root, which a tag named `root` is taken for as well.
abbrev pub has_root_tag : AstNode → Bool
has_root_tag n = elim n.tag [ none ↦ false | some tag ↦ same (codes "root") tag ]

module _ (style : Style) where
  open style use {use_tabs, tab_size, minify}

  abbrev pub line_end : Bytes
  line_end = if truth minify then [] else b'\n' ∷ []

  abbrev pub indentation : ℕ → Bytes
  indentation depth =
      if truth use_tabs then replicate depth b'\t' else replicate (depth * tab_size) b' '

  abbrev pub margin : ℕ → Bytes
  margin depth = if truth minify then [] else indentation depth

  abbrev pub note_html : AstNode → Bytes
  note_html n =
      if minify == 0
      then codes "<!-- "
        ++ (token_type_to_string n.node_type
            ++ (codes ": " ++ (text_or n.text_content [] ++ codes " -->\n")))
      else []

  -- The nodes that are no tags.
  abbrev pub leaf_html : TokenType → AstNode → Bytes
  leaf_html token_doctype n =
      codes "<!DOCTYPE " ++ (text_or n.text_content (codes "html") ++ (codes ">" ++ line_end))
  leaf_html token_text n = text_html n.text_content ++ line_end
  leaf_html token_pipe n = text_html n.text_content ++ line_end
  leaf_html token_dot n = text_html n.text_content ++ line_end
  leaf_html token_interpolation n = elim n.text_content [
    | none ↦ line_end
    | some text ↦ codes "#{ " ++ (text ++ (codes " }" ++ line_end))
  ]
  leaf_html token_comment n =
      if minify == 0 then codes "<!-- " ++ (text_html n.text_content ++ codes " -->\n") else []
  leaf_html token_code n = note_html n
  leaf_html token_include n = note_html n
  leaf_html token_extends n = note_html n
  leaf_html token_mixin n = note_html n
  leaf_html token_call n = note_html n
  leaf_html _ n = []

  -- The text of a tag: inline, or on a line of its own, one level deeper.
  abbrev pub content_html : AstNode → Bytes
  content_html n = elim n.text_content [
    | none ↦ []
    | some text ↦
        if truth n.is_inline
        then escaped text
        else (if truth minify then [] else b'\n' ∷ indentation ((n.depth + 1) % uint_mod))
          ++ escaped text
  ]

  -- A block starts on a line of its own if the tag has no text, or has the text of a block.
  abbrev pub break_html : AstNode → Bytes
  break_html n = elim n.text_content [
    | none ↦ line_end
    | some _ ↦ if truth n.is_block then line_end else []
  ]

  abbrev pub end_margin : AstNode → Bytes
  end_margin n = if truth n.is_inline then [] else margin n.depth

  abbrev pub empty_html : AstNode → Bytes
  empty_html n = elim n.text_content [
    | none ↦ []
    | some _ ↦ if truth n.is_block then line_end ++ margin n.depth else []
  ]

  abbrev pub close_html : AstNode → Bytes
  close_html n = codes "</" ++ (text_or n.tag (codes "div") ++ (codes ">" ++ line_end))

  -- What stands behind the name, the classes and the attributes of a tag that is not void.
  abbrev pub inside_html : AstNode → Bytes → Bytes
  inside_html n inner =
      codes ">"
      ++ (content_html n
          ++ ((if truth n.children_count
                then break_html n ++ (inner ++ end_margin n)
                else empty_html n)
              ++ close_html n))

  -- A tag around the HTML of its children.
  abbrev pub tag_html : AstNode → Bytes → Bytes
  tag_html n inner =
      open_html n ++ (if has_void_tag n then codes " />" ++ line_end else inside_html n inner)

  abbrev pub node_html : AstNode → Bytes → Bytes
  node_html n inner =
      if has_root_tag n
      then inner
      else margin n.depth
        ++ (if is_tag_type n.node_type then tag_html n inner else leaf_html n.node_type n)

  -- The children stand in their order.
  unfoldable mutual
    pub html : Tree → Bytes
    html (node n f) = node_html n (html_all f)

    pub html_all : Forest → Bytes
    html_all no_trees = []
    html_all (tree t f) = html t ++ html_all f
