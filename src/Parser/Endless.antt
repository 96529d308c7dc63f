-- ===== src/Parser/Endless.antt =====
-- Without the end of the file among the tokens the loop of `parse_pug` never ends.
use c_pug.Common.{
  ℕ, zero, suc, ◌≡◌, ◌≢◌, true, false, Option, none, some, length, [], arith, get_elem?,
  Option-cases, Bool-cases, inl, inr, leb, if◌then◌else◌, ◌==◌,
}
use mathlib.Core.Path.{subst}
use c_pug.Ast.{Heap, ast_node_create}
use c_pug.Common.Run.{Run, ok, ◌>>=◌, After, bind_After, any_After}
use c_pug.Glib.{Glib}
use c_pug.Parser.Context.{Memory, parser_get_current_token, parser_advance_token}
use c_pug.Parser.Attributes.{parse_attributes, parse_classes}
use c_pug.Parser.Node.{
  value_or, node_case, absorb, node_loop, Case, finished, goes_on, refused, finish_case, start_node,
  is_eof, parse_node,
}
use c_pug.Parser.Tree.{climb, place, at_eof, pug_loop}
use c_pug.Tokens.{
  TokenType, token_id, token_class, token_attribute, token_text, token_interpolation, Token,
  TokenList, AstNode, ParserContext,
}

-- The context still has the tokens.
abbrev Over {ℓ} : {A : Type ℓ} → TokenList → A × ParserContext → Type 0
Over list r = r.1.tokens ≡ some list

abbrev IfAny {ℓ} : {A : Type ℓ} → TokenList → Option (Run (A × ParserContext)) → Type 0
IfAny list none = Unit
IfAny list (some r) = After (Over list) r

module _ (g : Glib) (mem : Memory) (list : TokenList) where
  parse_attributes-Over :
      (ctx : ParserContext) (node : AstNode)
      → ctx.tokens ≡ some list
      → Over list (parse_attributes g mem ctx node)
  unfolding parse_attributes parser_advance_token
  parse_attributes-Over ctx node e = ground (arith, e)

  absorb-Over :
      (type : TokenType) (t : Token) (node : AstNode) (ctx : ParserContext)
      → ctx.tokens ≡ some list
      → IfAny list (absorb g mem type t node ctx)
  unfolding absorb parser_advance_token
  absorb-Over token_id t node ctx e = e
  absorb-Over token_class t node ctx e =
      bind_After (λ n. Unit) (Over list)
        (parse_classes g mem ctx.current_token node (value_or t [])) _
        (any_After (parse_classes g mem ctx.current_token node (value_or t []))) (λ n u. e)
  absorb-Over token_attribute t node ctx e = parse_attributes-Over ctx node e
  absorb-Over token_text t node ctx e = e
  absorb-Over token_interpolation t node ctx e = e
  absorb-Over _ t node ctx e = tt

  node_loop-Over :
      (fuel : ℕ) (node : AstNode) (ctx : ParserContext)
      → ctx.tokens ≡ some list
      → After (Over list) (node_loop g mem fuel node ctx)
  unfolding node_loop
  node_loop-Over zero node ctx e = tt
  node_loop-Over (suc fuel) node ctx e = elim (Option-cases (parser_get_current_token ctx)) [
    | inl out ↦ rw (out, node_loop) e
    | inr (t, at) ↦ elim (Bool-cases (t.depth == node.depth)) [
      | inr other ↦ rw (at, other, node_loop) e
      | inl same ↦
          let kept = absorb-Over t.type t node ctx e in
          elim (Option-cases (absorb g mem t.type t node ctx)) [
            | inl stop ↦ rw (at, same, stop, node_loop) e
            | inr (r, go) ↦
                let kept' : After (Over list) r = rw go at kept in
                rw (at, same, go, node_loop)
                  (bind_After (Over list) (Over list) r (λ (n, c). node_loop g mem fuel n c) kept'
                    (λ (n, c) q. node_loop-Over fuel n c q))
          ]
    ]
  ]

  finish_case-Over :
      (fuel : ℕ) (c : Case) (ctx : ParserContext)
      → ctx.tokens ≡ some list
      → After (Over list) (finish_case g mem fuel c ctx)
  unfolding finish_case parser_advance_token
  finish_case-Over fuel (finished node) ctx e = e
  finish_case-Over fuel (goes_on node) ctx e =
      bind_After (Over list) (Over list) (node_loop g mem fuel node (parser_advance_token ctx)) _
        (node_loop-Over fuel node (parser_advance_token ctx) e) (λ (n, c) q. q)
  finish_case-Over fuel refused ctx e = e

  start_node-Over :
      (fuel : ℕ) (t : Token) (ctx : ParserContext)
      → ctx.tokens ≡ some list
      → After (Over list) (start_node g mem fuel t ctx)
  unfolding start_node
  start_node-Over fuel t ctx e =
      elim (Option-cases (ast_node_create (mem.node ctx.current_token) true t.type t.depth)) [
        | inl lost ↦ rw (lost, start_node) e
        | inr (n, made) ↦
            rw (made, start_node)
              (finish_case-Over fuel
                (node_case g mem t.type t (record n { line = t.line; column = t.column })) ctx e)
      ]

  parse_node-Over :
      (fuel : ℕ) (ctx : ParserContext)
      → ctx.tokens ≡ some list
      → After (Over list) (parse_node g mem fuel ctx)
  unfolding parse_node
  parse_node-Over fuel ctx e = elim (Option-cases (parser_get_current_token ctx)) [
    | inl out ↦ rw (out, parse_node) e
    | inr (t, at) ↦ elim (Bool-cases (is_eof g mem t.type)) [
      | inl stop ↦ rw (at, stop, parse_node) e
      | inr more ↦ rw (at, more, parse_node) (start_node-Over fuel t ctx e)
    ]
  ]

  place-Over :
      (h : Heap) (node : AstNode) (ctx : ParserContext)
      → ctx.tokens ≡ some list
      → After (λ (r : ParserContext × Heap). r.0.tokens ≡ some list) (place g mem h node ctx)
  unfolding place
  place-Over h node ctx e = elim (Option-cases ctx.current_parent) [
    | inl top ↦ rw (top, place) tt
    | inr (p, up) ↦
        rw (up, place)
          (bind_After (λ q. Unit) (λ (r : ParserContext × Heap). r.0.tokens ≡ some list)
            (climb (length h) h node.depth p) _ (any_After (climb (length h) h node.depth p))
            (λ q u. e))
  ]

  module _
      (endless : (i : ℕ) (t : Token)
        → get_elem? list.tokens i ≡ some t
        → is_eof g mem t.type ≡ false) where
    not_at_eof : (ctx : ParserContext) → ctx.tokens ≡ some list → at_eof g mem ctx ≡ false
    unfolding at_eof parser_get_current_token
    not_at_eof ctx e = elim (Bool-cases (leb list.count ctx.current_token)) [
      | inl out ↦ rw (e, out, at_eof, parser_get_current_token)
      | inr in_list ↦ elim (Option-cases (get_elem? list.tokens ctx.current_token)) [
        | inl none_there ↦ rw (e, in_list, none_there, at_eof, parser_get_current_token)
        | inr (t, at) ↦
            rw (e, in_list, at, at_eof, parser_get_current_token) (endless ctx.current_token t at)
      ]
    ]

    -- A turn of the loop behind `parse_node`.
    turn_After :
        (node_fuel fuel : ℕ) (h : Heap) (o : Option AstNode) (c : ParserContext)
        → ((x : ParserContext) (k : Heap)
            → x.tokens ≡ some list
            → After (λ (r : ParserContext × Heap). ⊥) (pug_loop g mem node_fuel fuel x k))
        → c.tokens ≡ some list
        → After
            (λ (r : ParserContext × Heap). ⊥)
            (elim o [
              | none ↦
                  let rest = pug_loop g mem node_fuel fuel (parser_advance_token c) h in
                  if at_eof g mem c then ok (c, h) else rest
              | some node ↦ place g mem h node c >>= λ (c', h'). pug_loop g mem node_fuel fuel c' h'
            ])
    unfolding parser_advance_token
    turn_After node_fuel fuel h none c again q =
        rw (not_at_eof c q) (again (parser_advance_token c) h q)
    turn_After node_fuel fuel h (some node) c again q =
        bind_After (λ (r : ParserContext × Heap). r.0.tokens ≡ some list)
          (λ (r : ParserContext × Heap). ⊥) (place g mem h node c) _ (place-Over h node c q)
          (λ r kept. again r.0 r.1 kept)

    loop_After :
        (node_fuel fuel : ℕ) (ctx : ParserContext) (h : Heap)
        → ctx.tokens ≡ some list
        → After (λ (r : ParserContext × Heap). ⊥) (pug_loop g mem node_fuel fuel ctx h)
    unfolding pug_loop
    loop_After node_fuel zero ctx h e = tt
    loop_After node_fuel (suc fuel) ctx h e =
        bind_After (Over list) (λ (r : ParserContext × Heap). ⊥) (parse_node g mem node_fuel ctx) _
          (parse_node-Over node_fuel ctx e)
          (λ (o, c) q.
            turn_After node_fuel fuel h o c (λ x k e'. loop_After node_fuel fuel x k e') q)

    -- Where no token of the list is the end of the file, the loop of `parse_pug` never returns,
    -- with whatever fuel.
    pub pug_loop-endless :
        (node_fuel fuel : ℕ) (ctx : ParserContext) (h : Heap) (out : ParserContext × Heap)
        → ctx.tokens ≡ some list
        → pug_loop g mem node_fuel fuel ctx h ≢ ok out
    pug_loop-endless node_fuel fuel ctx h out e returns =
        subst (After (λ (r : ParserContext × Heap). ⊥)) returns (loop_After node_fuel fuel ctx h e)
