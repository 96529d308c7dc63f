-- ===== src/Parser/Tree.antt =====
-- `parse_pug`: the nodes are put on a heap and linked to their parents.
use c_pug.Common.{
  ℕ, zero, suc, ◌+◌, ◌-◌, Bool, true, false, Option, none, some, [], ◌∷◌, ◌++◌, codes, leb, ltb,
  if◌then◌else◌, length, get_elem?,
}
use c_pug.Ast.{Heap, ast_node_create, ast_node_add_child}
use c_pug.Common.Run.{Run, ok, fault, timeout, ◌>>=◌}
use c_pug.Glib.{Glib}
use c_pug.Parser.Context.{Memory, parser_get_current_token, parser_advance_token}
use c_pug.Parser.Node.{is_eof, parse_node}
use c_pug.Tokens.{token_tag, Ptr, AstNode, ParserContext, TokenList, uint_mod}

-- `while (p->parent && depth <= p->depth) p = p->parent`, on fuel; a dangling pointer is a fault.
unfoldable pub climb : ℕ → Heap → ℕ → Ptr → Run Ptr
climb zero h depth p = timeout
climb (suc fuel) h depth p = elim (get_elem? h p) [
  | none ↦ fault
  | some node ↦ elim node.parent [
    | none ↦ ok p
    | some q ↦ let up = climb fuel h depth q in if leb depth node.depth then up else ok p
  ]
]

-- The number of tokens bounds the turns of both loops.
abbrev pub fuel_for : TokenList → ℕ
fuel_for list = list.count + 1

module _ (g : Glib) (mem : Memory) where
  -- The node goes on the heap and under the parent that is found.
  unfoldable pub attach : Heap → AstNode → Ptr → Heap
  attach h node parent =
      ast_node_add_child (mem.grow_children (length h)) (h ++ node ∷ []) (some parent)
        (some (length h))

  -- `next_token && next_token->depth > node->depth`
  unfoldable pub opens_block : ParserContext → AstNode → Bool
  opens_block ctx node = elim (parser_get_current_token ctx) [
    | none ↦ false
    | some next_token ↦ ltb node.depth next_token.depth
  ]

  -- The part of the loop behind `parse_node`, with the node in hand.
  unfoldable pub place : Heap → AstNode → ParserContext → Run (ParserContext × Heap)
  place h node ctx = elim ctx.current_parent [
    | none ↦ fault
    | some current ↦ climb (length h) h node.depth current >>= λ parent. ok (
      record ctx {
        current_depth = node.depth;
        current_parent = some (if opens_block ctx node then length h else parent);
      },
      attach h node parent,
    )
  ]

  -- `parser_get_current_token(ctx) && parser_get_current_token(ctx)->type == TOKEN_EOF`
  unfoldable pub at_eof : ParserContext → Bool
  at_eof ctx = elim (parser_get_current_token ctx) [
    | none ↦ false
    | some token ↦ is_eof g mem token.type
  ]

  -- `while (1)`, on fuel.
  unfoldable pub pug_loop : ℕ → ℕ → ParserContext → Heap → Run (ParserContext × Heap)
  pug_loop node_fuel zero ctx h = timeout
  pug_loop node_fuel (suc fuel) ctx h = parse_node g mem node_fuel ctx >>= λ (found, ctx').
      elim found [
        | none ↦
            let rest = pug_loop node_fuel fuel (parser_advance_token ctx') h in
            if at_eof ctx' then ok (ctx', h) else rest
        | some node ↦ place h node ctx' >>= λ (ctx'', h'). pug_loop node_fuel fuel ctx'' h'
      ]

  -- A result `none` is NULL. The root is the first node of the heap.
  unfoldable pub parse_pug : Bool → ParserContext → Run (Option (ParserContext × Heap))
  parse_pug root_ok ctx = elim ctx.tokens [
    | none ↦ ok none
    | some list ↦ elim (ast_node_create root_ok true token_tag (uint_mod - 1)) [
      | none ↦ ok none
      | some root ↦
          pug_loop (fuel_for list) (fuel_for list)
            (record ctx {
              root_node = some 0;
              current_parent = some 0;
              current_depth = uint_mod - 1;
            })
            (record root { tag = some (codes "root") } ∷ [])
          >>= λ (ctx', h). ok (some (ctx', h))
    ]
  ]
