-- ===== src/Parser/Nodes.antt =====
-- `parse_node` returns.
use mathlib.Core.Path.{subst}
use c_pug.Common.{
  ℕ, ◌<◌, ◌≡◌, refl, sym, Bool, true, false, Option, none, some, arith, Bool-cases, Option-cases,
  inl, inr, ◌⊎◌, get_elem?,
}
use c_pug.Common.Run.{Run, ok}
use c_pug.Ast.{ast_node_create}
use c_pug.Glib.{Glib}
use c_pug.Parser.Context.{Memory, parser_get_current_token, parser_advance_token}
use c_pug.Parser.Node.{
  Case, finished, goes_on, refused, node_case, finish_case, start_node, positioned, is_eof,
  parse_node,
}
use c_pug.Tokens.{TokenType, token_tag, TokenList, Token, AstNode, ParserContext}
use c_pug.Parser.Moves.{
  Closed, StandsIn, Moves, IsFresh, current-token, advance-Moves, Moves-StandsIn, Moves-refl,
  Moves-trans, Moves-weaken,
}
use c_pug.Parser.Pieces.{node_loop-Returns}

module _ (g : Glib) (mem : Memory) {list : TokenList} {last : ℕ} (closed : Closed g mem list last)
    (granted : (i : ℕ) → mem.classes i ≡ true) where
  -- What the `switch` makes of a fresh node.
  abbrev CaseIsFresh : Case → Type 0
  CaseIsFresh (finished n) = IsFresh n
  CaseIsFresh (goes_on n) = IsFresh n
  CaseIsFresh refused = Unit {0}

  node_case-IsFresh :
      (type : TokenType) (t : Token) (n : AstNode)
      → IsFresh n
      → CaseIsFresh (node_case g mem type t n)
  unfolding node_case
  node_case-IsFresh token_tag t n f = record {
    no_parent = f.no_parent;
    no_children = f.no_children;
    no_count = f.no_count;
  }
  node_case-IsFresh _ t n f = ground arith

  -- `parse_node` returns: NULL, at the end of the file or a token further, or a fresh node.
  abbrev pub NodeReturns : ParserContext → Run (Option AstNode × ParserContext) → Type 0
  NodeReturns ctx r =
      ((ctx' : ParserContext) × (r ≡ ok (none, ctx')) × Moves last 0 ctx ctx')
      ⊎ ((n : AstNode) × (ctx' : ParserContext) × (r ≡ ok (some n, ctx'))
          × IsFresh n
          × Moves last 1 ctx ctx')

  finish_case-Returns :
      (fuel : ℕ) (c : Case) {ctx : ParserContext} (t : Token)
      → StandsIn list last ctx
      → get_elem? list.tokens ctx.current_token ≡ some t
      → is_eof g mem t.type ≡ false
      → last < fuel
      → CaseIsFresh c
      → NodeReturns ctx (finish_case g mem fuel c ctx)
  unfolding finish_case
  finish_case-Returns fuel (finished n) t s e x lt f =
      inr (n, _, refl, f, advance-Moves closed t s e x)
  finish_case-Returns fuel (goes_on n) {ctx} t s e x lt f =
      let m = advance-Moves closed t s e x in
      let (n', ctx', q, f', m') =
        node_loop-Returns g mem closed granted fuel n (parser_advance_token ctx)
          (Moves-StandsIn closed s m) (omega arith) f in
      inr (n', ctx', rw q, f', Moves-trans m m')
  finish_case-Returns fuel refused t s e x lt f =
      inl (_, refl, Moves-weaken (advance-Moves closed t s e x))

  create-IsFresh :
      (a b : Bool) (type : TokenType) (depth : ℕ) (n : AstNode)
      → ast_node_create a b type depth ≡ some n
      → IsFresh n
  unfolding ast_node_create
  create-IsFresh a b type depth n e = ground arith

  start_node-Returns :
      (fuel : ℕ) {ctx : ParserContext} (t : Token)
      → StandsIn list last ctx
      → get_elem? list.tokens ctx.current_token ≡ some t
      → is_eof g mem t.type ≡ false
      → last < fuel
      → NodeReturns ctx (start_node g mem fuel t ctx)
  unfolding start_node
  start_node-Returns fuel {ctx} t s e x lt =
      elim (Option-cases (ast_node_create (mem.node ctx.current_token) true t.type t.depth)) [
        | inl none_left ↦ inl (ctx, rw (none_left, start_node), Moves-refl s)
        | inr (n, made) ↦
            let placed = positioned g mem n t in
            let f = create-IsFresh _ _ _ _ n made in
            let fresh : IsFresh placed = record {
              no_parent = f.no_parent;
              no_children = f.no_children;
              no_count = f.no_count;
            } in
            let same : start_node g mem fuel t ctx
                ≡ finish_case g mem fuel (node_case g mem t.type t placed) ctx =
              rw (made, start_node) in
            subst (λ r. NodeReturns ctx r) (sym same)
              (finish_case-Returns fuel (node_case g mem t.type t placed) t s e x lt
                (node_case-IsFresh t.type t placed fresh))
      ]

  -- `parse_node` returns NULL at the end of the file, where it stays.
  parse_node_eof :
      (fuel : ℕ) (ctx : ParserContext) (t : Token)
      → parser_get_current_token ctx ≡ some t
      → is_eof g mem t.type ≡ true
      → parse_node g mem fuel ctx ≡ ok (none, ctx)
  unfolding parse_node
  parse_node_eof fuel ctx t e x = ground arith

  parse_node_start :
      (fuel : ℕ) (ctx : ParserContext) (t : Token)
      → parser_get_current_token ctx ≡ some t
      → is_eof g mem t.type ≡ false
      → parse_node g mem fuel ctx ≡ start_node g mem fuel t ctx
  unfolding parse_node
  parse_node_start fuel ctx t e x = rw (e, x, parse_node)

  -- Given a list of fewer than 2 ^ 32 tokens that holds the end of the file in its last place,
  -- whose tokens for attributes have values, a context that stands in it, the memory for the first
  -- classes, and more fuel than the number of the last place, `parse_node` returns: NULL, or a node
  -- without parent and children, and then at least one token further. It does not pass the last
  -- place, and keeps the tokens, the parent and the root of the context.
  pub parse_node-Returns :
      (fuel : ℕ) {ctx : ParserContext}
      → StandsIn list last ctx
      → last < fuel
      → NodeReturns ctx (parse_node g mem fuel ctx)
  parse_node-Returns fuel {ctx} s lt =
      let (t, e, current) = current-token closed s in
      elim (Bool-cases (is_eof g mem t.type)) [
        | inl x ↦ inl (ctx, parse_node_eof fuel ctx t current x, Moves-refl s)
        | inr x ↦
            subst (λ r. NodeReturns ctx r) (sym (parse_node_start fuel ctx t current x))
              (start_node-Returns fuel t s e x lt)
      ]
