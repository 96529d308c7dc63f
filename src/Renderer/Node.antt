-- ===== src/Renderer/Node.antt =====
-- `render_node` and `render_ast`. The recursion over the tree is on fuel.
use c_pug.Common.{
  ℕ, zero, suc, ◌+◌, ◌%◌, Bool, true, false, not, ◌&&◌, ◌||◌, Option, none, some, List, [], ◌∷◌,
  Bytes, codes, text_or, ◌==◌, if◌then◌else◌, truth, take, get_elem?, length,
}
use c_pug.Ast.{Heap}
use c_pug.Common.Run.{Run, ok, fault, timeout, ◌>>=◌}
use c_pug.Debug.{token_type_to_string}
use c_pug.Glib.{Glib}
use c_pug.Renderer.Escape.{is_zero, is_void_tag, escape_html}
use c_pug.Renderer.Pieces.{append_indent, render_attributes, render_classes}
use c_pug.Tokens.{
  TokenType, token_tag, token_text, token_dot, token_pipe, token_comment, token_block_comment,
  token_interpolation, token_code, token_doctype, token_include, token_extends, token_mixin,
  token_call, Ptr, AstNode, uint_mod,
}

-- The options of a run.
pub record Style : Type 0 where
  pub use_tabs : ℕ
  pub tab_size : ℕ
  pub minify : ℕ

abbrev pub is_some {ℓ} : {A : Type ℓ} → Option A → Bool
is_some none = false
is_some (some _) = true

unfoldable pub is_tag_type : TokenType → Bool
is_tag_type token_tag = true
is_tag_type _ = false

module _ (g : Glib) (style : Style) where
  open g use {g_string_append, g_string_append_c, g_string_append_printf, g_strcmp0}
  open style use {use_tabs, tab_size, minify}

  -- `if (!minify) g_string_append_c(output, '\n')`
  unfoldable pub newline : Bytes → Bytes
  newline output = if truth minify then output else g_string_append_c output b'\n'

  -- The escaped text of a node, if it has one.
  unfoldable pub append_text : Bytes → Option Bytes → Bytes
  append_text output none = output
  append_text output (some text) = g_string_append output (escape_html g (some text))

  -- `CODE`, `INCLUDE`, `EXTENDS`, `MIXIN` and `CALL`: a comment, whose text is not escaped.
  unfoldable pub render_note : Bytes → AstNode → Bytes
  render_note output node =
      if minify == 0
      then g_string_append_printf output (codes "<!-- %s: %s -->\n")
          (token_type_to_string node.node_type ∷ text_or node.text_content [] ∷ [])
      else output

  -- The cases of the `switch` but `TOKEN_TAG`, which none of them shares code with.
  unfoldable pub render_leaf : TokenType → Bytes → AstNode → Bytes
  render_leaf token_doctype output node = newline (
      g_string_append_printf output (codes "<!DOCTYPE %s>")
        (text_or node.text_content (codes "html") ∷ []))
  render_leaf token_text output node = newline (append_text output node.text_content)
  render_leaf token_pipe output node = newline (append_text output node.text_content)
  render_leaf token_dot output node = newline (append_text output node.text_content)
  render_leaf token_interpolation output node = newline (elim node.text_content [
    | none ↦ output
    | some text ↦ g_string_append_printf output (codes "#{ %s }") (text ∷ [])
  ])
  render_leaf token_comment output node =
      if minify == 0
      then g_string_append (append_text (g_string_append output (codes "<!-- ")) node.text_content)
          (codes " -->\n")
      else output
  render_leaf token_block_comment output node = output
  render_leaf token_code output node = render_note output node
  render_leaf token_include output node = render_note output node
  render_leaf token_extends output node = render_note output node
  render_leaf token_mixin output node = render_note output node
  render_leaf token_call output node = render_note output node
  render_leaf _ output node = output

  -- `<%s`, the id, the classes and the attributes.
  unfoldable pub open_tag : Bytes → AstNode → Bytes
  open_tag output node =
      let named =
        g_string_append_printf output (codes "<%s") (text_or node.tag (codes "div") ∷ []) in
      let with_id : Bytes = elim node.id [
        | none ↦ named
        | some id ↦ g_string_append_printf named (codes " id=\"%s\"") (escape_html g (some id) ∷ [])
      ] in
      render_attributes g (render_classes g with_id node.classes node.class_count) node.attributes

  -- The text of a tag, inline or in a block.
  unfoldable pub tag_text : Bytes → AstNode → Bytes
  tag_text output node =
      let below =
        if truth minify
        then output
        else append_indent g (g_string_append_c output b'\n') ((node.depth + 1) % uint_mod) use_tabs
            tab_size in
      if is_some node.text_content && truth node.is_inline
      then append_text output node.text_content
      else if is_some node.text_content
      then append_text below node.text_content
      else output

  -- The line break before the children.
  unfoldable pub before_children : Bytes → AstNode → Bytes
  before_children output node =
      if not (truth minify) && (not (is_some node.text_content) || truth node.is_block)
      then g_string_append_c output b'\n'
      else output

  -- The indentation of the closing tag behind the children.
  unfoldable pub after_children : Bytes → AstNode → Bytes
  after_children output node =
      if not (truth minify) && not (truth node.is_inline)
      then append_indent g output node.depth use_tabs tab_size
      else output

  -- Where a tag has no children.
  unfoldable pub no_children : Bytes → AstNode → Bytes
  no_children output node =
      if not (truth minify) && (is_some node.text_content && truth node.is_block)
      then append_indent g (g_string_append_c output b'\n') node.depth use_tabs tab_size
      else output

  unfoldable pub close_tag : Bytes → AstNode → Bytes
  close_tag output node =
      newline (g_string_append_printf output (codes "</%s>") (text_or node.tag (codes "div") ∷ []))

  -- The loop over the children; `render` is the recursive call.
  unfoldable pub render_children : (Bytes → Ptr → Run Bytes) → Bytes → List Ptr → Run Bytes
  render_children render output [] = ok output
  render_children render output (p ∷ ps) =
      render output p >>= λ output'. render_children render output' ps

  -- The content of a tag and its end.
  unfoldable pub render_inside : (Bytes → Ptr → Run Bytes) → Bytes → AstNode → Run Bytes
  render_inside render output node =
      let text = tag_text (g_string_append_c output b'>') node in
      let children = take node.children_count node.children in
      let inside = render_children render (before_children text node) children >>= λ out.
      ok (after_children out node) in
      let content = if truth node.children_count then inside else ok (no_children text node) in
      content >>= λ out. ok (close_tag out node)

  unfoldable pub render_tag : (Bytes → Ptr → Run Bytes) → Bytes → AstNode → Run Bytes
  render_tag render output node =
      let opened = open_tag output node in
      if truth node.is_void || is_void_tag g node.tag
      then ok (newline (g_string_append opened (codes " />")))
      else render_inside render opened node

  -- `node->tag && g_strcmp0(node->tag, "root") == 0`
  unfoldable pub is_root : AstNode → Bool
  is_root node = elim node.tag [ none ↦ false | some tag ↦ is_zero (g_strcmp0 tag (codes "root")) ]

  -- A node that is not the root, at its indentation.
  unfoldable pub render_body : (Bytes → Ptr → Run Bytes) → Bytes → AstNode → Run Bytes
  render_body render output node =
      let indented =
        if truth minify then output else append_indent g output node.depth use_tabs tab_size in
      if is_tag_type node.node_type
      then render_tag render indented node
      else ok (render_leaf node.node_type indented node)

  -- A pointer to no node is a fault.
  unfoldable pub render_node : ℕ → Heap → Bytes → Ptr → Run Bytes
  render_node zero h output p = timeout
  render_node (suc fuel) h output p = elim (get_elem? h p) [
    | none ↦ fault
    | some node ↦
        if is_root node
        then render_children (render_node fuel h) output (take node.children_count node.children)
        else render_body (render_node fuel h) output node
  ]

  -- A result `none` is NULL. The depth of the tree is at most the number of nodes.
  unfoldable pub render_ast : Heap → Option Ptr → Run (Option Bytes)
  render_ast h none = ok none
  render_ast h (some root) = render_node (length h) h [] root >>= λ output. ok (some output)
