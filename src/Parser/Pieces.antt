-- ===== src/Parser/Pieces.antt =====
-- The pieces of `parse_node`: classes, attributes, and the loop over the tokens of a node.
use c_pug.Parser.Attributes.RoundTrip.{at_value}
use c_pug.Common.{
  ℕ, zero, suc, ◌+◌, ◌<◌, ◌≡◌, refl, sym, ap, true, false, none, some, [], ◌∷◌, Bytes, ◌==◌, arith,
  Bool-cases, Option-cases, inl, inr, ◌⊎◌, get_elem?, put_elem, ◌%◌,
}
use c_pug.Common.Run.{Run, ok}
use c_pug.Glib.{Glib}
use c_pug.Parser.Context.{Memory, parser_advance_token}
use c_pug.Parser.Attributes.{is_attribute, attributes_from, parse_attributes, parse_classes}
use c_pug.Parser.Node.{join_text, absorb, node_loop, is_eof, value_or}
use c_pug.Tokens.{
  TokenType, token_class, token_id, token_attribute, token_text, token_interpolation, token_eof,
  TokenList, Token, AstNode, ParserContext, uint_mod,
}
use c_pug.Parser.Moves.{
  Closed, StandsIn, IsFresh, current-token, current-is, advance-Moves, Moves-StandsIn, Moves-refl,
  Moves-trans, Moves-weaken, Returns,
}

module _ (g : Glib) (mem : Memory) {list : TokenList} {last : ℕ} (closed : Closed g mem list last)
    (granted : (i : ℕ) → mem.classes i ≡ true) where
  parse_classes-IsFresh :
      (i : ℕ) (n : AstNode) (name : Bytes)
      → IsFresh n
      → (n' : AstNode) × (parse_classes g mem i n name ≡ ok n') × IsFresh n'
  unfolding parse_classes
  parse_classes-IsFresh i n [] f = (n, refl, f)
  parse_classes-IsFresh i n (c ∷ name) f = elim (Option-cases n.classes) [
    | inl e ↦ (
      record n { classes = some ((c ∷ name) ∷ []); class_count = 1 },
      ground (arith, granted i),
      record { no_parent = f.no_parent; no_children = f.no_children; no_count = f.no_count },
    )
    | inr (cs, e) ↦
        let more = record n {
          classes = some (put_elem cs n.class_count (c ∷ name));
          class_count = (n.class_count + 1) % uint_mod;
        } in
        let more-IsFresh : IsFresh more = record {
          no_parent = f.no_parent;
          no_children = f.no_children;
          no_count = f.no_count;
        } in
        elim (Bool-cases (n.class_count % 5 == 0)) [
          | inl fifth ↦ elim (Bool-cases (mem.grow_classes i)) [
            | inl grown ↦ (more, ground arith, more-IsFresh)
            | inr full ↦ (n, ground arith, f)
          ]
          | inr room ↦ (more, ground arith, more-IsFresh)
        ]
  ]

  attribute-is_eof : (type : TokenType) → is_attribute type ≡ true → is_eof g mem type ≡ false
  unfolding is_attribute is_eof
  attribute-is_eof token_attribute h = refl
  attribute-is_eof token_eof h = sym h
  attribute-is_eof _ h = refl

  parse_attributes-IsFresh :
      (n : AstNode) {ctx : ParserContext} (t : Token)
      → StandsIn list last ctx
      → get_elem? list.tokens ctx.current_token ≡ some t
      → is_attribute t.type ≡ true
      → IsFresh n
      → Returns last 1 ctx (ok (parse_attributes g mem ctx n))
  unfolding attributes_from
  parse_attributes-IsFresh n {ctx} t s e a f =
      let (v, valued) = closed.valued ctx.current_token t e a in
      let from = attributes_from g mem ctx n v in
      (
        from.0,
        from.1,
        ap ok (at_value g mem ctx n t v (current-is closed t s e) a valued),
        record { no_parent = f.no_parent; no_children = f.no_children; no_count = f.no_count },
        advance-Moves closed t s e (attribute-is_eof t.type a),
      )

  join_text-IsFresh : (n : AstNode) (t : Token) → IsFresh n → IsFresh (join_text g mem n t)
  unfolding join_text
  join_text-IsFresh n t f = ground arith

  -- One round of the inner loop: it breaks, or takes the token into the node.
  absorb-Returns :
      (type : TokenType) (n : AstNode) {ctx : ParserContext} (t : Token)
      → t.type ≡ type
      → StandsIn list last ctx
      → get_elem? list.tokens ctx.current_token ≡ some t
      → IsFresh n
      → (absorb g mem type t n ctx ≡ none)
        ⊎ ((r : Run (AstNode × ParserContext)) × (absorb g mem type t n ctx ≡ some r)
            × Returns last 1 ctx r)
  unfolding absorb is_eof is_attribute
  absorb-Returns token_id n {ctx} t y s e f = inr (
    _,
    refl,
    (
      _,
      _,
      refl,
      record { no_parent = f.no_parent; no_children = f.no_children; no_count = f.no_count },
      advance-Moves closed t s e (rw y),
    ),
  )
  absorb-Returns token_class n {ctx} t y s e f =
      let (n', e', f') = parse_classes-IsFresh ctx.current_token n (value_or t []) f in
      inr (
        ok (n', parser_advance_token ctx),
        ap some (rw e'),
        (_, _, refl, f', advance-Moves closed t s e (rw y)),
      )
  absorb-Returns token_attribute n t y s e f =
      inr (_, refl, parse_attributes-IsFresh n t s e (rw y) f)
  absorb-Returns token_text n t y s e f =
      inr (_, refl, (_, _, refl, join_text-IsFresh n t f, advance-Moves closed t s e (rw y)))
  absorb-Returns token_interpolation n t y s e f =
      inr (_, refl, (_, _, refl, join_text-IsFresh n t f, advance-Moves closed t s e (rw y)))
  absorb-Returns _ n t y s e f = inl refl

  -- The inner loop ends within its fuel.
  pub node_loop-Returns :
      (fuel : ℕ) (n : AstNode) (ctx : ParserContext)
      → StandsIn list last ctx
      → last < ctx.current_token + fuel
      → IsFresh n
      → Returns last 0 ctx (node_loop g mem fuel n ctx)
  unfolding node_loop
  node_loop-Returns zero n ctx s lt f = absurd (omega (arith, s.inside))
  node_loop-Returns (suc fuel) n ctx s lt f =
      let (t, e, current) = current-token closed s in
      elim (Bool-cases (t.depth == n.depth)) [
        | inr other ↦ (n, ctx, ground arith, f, Moves-refl s)
        | inl same ↦ elim (absorb-Returns t.type n t refl s e f) [
          | inl stops ↦ (n, ctx, ground arith, f, Moves-refl s)
          | inr (r, taken, (n', ctx', q, f', m)) ↦
              let (n'', ctx'', q', f'', m') =
                node_loop-Returns fuel n' ctx' (Moves-StandsIn closed s m)
                  (omega (arith, m.forward)) f' in
              (n'', ctx'', ground arith, f'', Moves-weaken (Moves-trans m m'))
        ]
      ]
