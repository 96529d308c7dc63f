-- ===== src/Parser/Node.antt =====
-- `parse_node`: a node from the current token and the tokens behind it that belong to it.
use mathlib.Core.Option
use c_pug.Common.{
  ℕ, zero, suc, Bool, true, false, Option, none, some, List, [], ◌∷◌, Bytes, codes, ◌==◌,
  if◌then◌else◌,
}
use c_pug.Ast.{ast_node_create}
use c_pug.Common.Run.{Run, ok, timeout, ◌>>=◌}
use c_pug.Glib.{Glib}
use c_pug.Parser.Attributes.{parse_attributes, parse_classes}
use c_pug.Parser.Context.{Memory, parser_get_current_token, parser_advance_token}
use c_pug.Tokens.{
  TokenType, token_tag, token_class, token_id, token_attribute, token_text, token_dot, token_pipe,
  token_comment, token_block_comment, token_interpolation, token_code, token_doctype, token_include,
  token_extends, token_mixin, token_call, token_eof, AstNode, ParserContext, Token,
}

-- `token->value ? token->value : default`
abbrev pub value_or : Token → Bytes → Bytes
value_or token default = Option.get_or token.value default

-- What the `switch` does: it ends the node, goes on with the tokens behind it, or refuses the
-- token.
pub data Case : Type 0 where
  finished : AstNode → Case
  goes_on : AstNode → Case
  refused : Case

module _ (g : Glib) (mem : Memory) where
  open g use {g_strstrip, g_strconcat}

  -- A node whose text is the stripped value.
  texted : AstNode → Token → Bytes → AstNode
  texted node token default = record node {
    text_content = some (g_strstrip (value_or token default));
  }

  -- A node with a fixed tag and the stripped value.
  tagged : AstNode → Bytes → Token → Bytes → AstNode
  tagged node tag token default = record (texted node token default) { tag = some tag }

  -- A piece of text; `block` is `token->type == TOKEN_DOT || token->type == TOKEN_PIPE`.
  text_case : AstNode → Token → ℕ → Case
  text_case node token block =
      finished (record (texted node token []) { node_type = token_text; is_block = block })

  unfoldable pub node_case : TokenType → Token → AstNode → Case
  unfolding texted tagged text_case
  node_case token_tag token node =
      goes_on (record node { tag = some (value_or token (codes "div")) })
  node_case token_text token node = text_case node token 0
  node_case token_pipe token node = text_case node token 1
  node_case token_dot token node = text_case node token 1
  node_case token_code token node = finished (texted node token [])
  node_case token_comment token node = finished (texted node token [])
  node_case token_block_comment token node = finished (texted node token [])
  node_case token_interpolation token node = finished (texted node token [])
  node_case token_doctype token node = finished (tagged node (codes "doctype") token (codes "html"))
  node_case token_include token node = finished (tagged node (codes "include") token [])
  node_case token_extends token node = finished (tagged node (codes "extends") token [])
  node_case token_mixin token node = finished (tagged node (codes "mixin") token [])
  node_case token_call token node = finished (tagged node (codes "call") token [])
  node_case _ token node = refused

  -- The text of an inline token joined to the node's; `g_strconcat` stops at a NULL.
  unfoldable pub join_text : AstNode → Token → AstNode
  join_text node token = elim node.text_content [
    | none ↦ record node { text_content = some (g_strstrip (value_or token [])); is_inline = 1 }
    | some text ↦
        let tail : List Bytes = elim token.value [ none ↦ [] | some value ↦ value ∷ [] ] in
        record node {
          text_content = some (g_strstrip (g_strconcat (text ∷ codes " " ∷ tail)));
          is_inline = 1;
        }
  ]

  -- One round of the inner loop, at a token of the node's depth; `none` is `break`.
  unfoldable pub absorb :
      TokenType → Token → AstNode → ParserContext → Option (Run (AstNode × ParserContext))
  absorb token_id token node ctx =
      some
        (ok (record node { id = some (g_strstrip (value_or token [])) }, parser_advance_token ctx))
  absorb token_class token node ctx = some (
      parse_classes g mem ctx.current_token node (value_or token []) >>= λ node'.
      ok (node', parser_advance_token ctx))
  absorb token_attribute token node ctx = some (ok (parse_attributes g mem ctx node))
  absorb token_text token node ctx = some (ok (join_text node token, parser_advance_token ctx))
  absorb token_interpolation token node ctx =
      some (ok (join_text node token, parser_advance_token ctx))
  absorb _ token node ctx = none

  -- `while (1)`, on fuel.
  unfoldable pub node_loop : ℕ → AstNode → ParserContext → Run (AstNode × ParserContext)
  node_loop zero node ctx = timeout
  node_loop (suc fuel) node ctx = elim (parser_get_current_token ctx) [
    | none ↦ ok (node, ctx)
    | some token ↦
        let round = absorb token.type token node ctx in
        let next : Run (AstNode × ParserContext) = elim round [
          | none ↦ ok (node, ctx)
          | some r ↦ r >>= λ (node', ctx'). node_loop fuel node' ctx'
        ] in
        if token.depth == node.depth then next else ok (node, ctx)
  ]

  unfoldable pub finish_case : ℕ → Case → ParserContext → Run (Option AstNode × ParserContext)
  finish_case fuel (finished node) ctx = ok (some node, parser_advance_token ctx)
  finish_case fuel (goes_on node) ctx =
      node_loop fuel node (parser_advance_token ctx) >>= λ (node', ctx'). ok (some node', ctx')
  finish_case fuel refused ctx = ok (none, parser_advance_token ctx)

  abbrev pub positioned : AstNode → Token → AstNode
  positioned node token = record node { line = token.line; column = token.column }

  -- A token that is not the end of the file.
  unfoldable pub start_node : ℕ → Token → ParserContext → Run (Option AstNode × ParserContext)
  unfolding finish_case
  start_node fuel token ctx =
      elim (ast_node_create (mem.node ctx.current_token) true token.type token.depth) [
        | none ↦ ok (none, ctx)
        | some node ↦ finish_case fuel (node_case token.type token (positioned node token)) ctx
      ]

  unfoldable pub is_eof : TokenType → Bool
  is_eof token_eof = true
  is_eof _ = false

  unfoldable pub parse_node : ℕ → ParserContext → Run (Option AstNode × ParserContext)
  unfolding start_node
  parse_node fuel ctx = elim (parser_get_current_token ctx) [
    | none ↦ ok (none, ctx)
    | some token ↦ if is_eof token.type then ok (none, ctx) else start_node fuel token ctx
  ]
