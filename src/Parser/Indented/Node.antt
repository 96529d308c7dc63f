-- ===== src/Parser/Indented/Node.antt =====
-- `parse_node` at a token that begins a node: the node has the depth and the position of the token,
-- and the context stands where the next node begins.
use c_pug.Parser.Indented.Rounds.{IsRound, absorb-IsRound, IsBegun, node_case-IsBegun}
use c_pug.Parser.Indented.Heads.{
  spot, token_spot, joins, is_absorbed, open_tag, heads, joins-belongs, open_tag-none, rest_of,
  stop-heads, absorb-heads, begin-heads,
}
use mathlib.Core.Path.{subst}
use c_pug.Common.{
  ℕ, zero, suc, ◌^◌, ◌<◌, ◌≡◌, refl, sym, ap, ◌∙◌, true, false, Option, none, some, arith,
  Option-cases, Bool-cases, inl, inr, ◌⊎◌, ◌==◌, ==_iff, List, ◌∷◌,
}
use c_pug.Ast.{ast_node_create}
use c_pug.Common.Run.{Run, ok, After, bind_After, fault, timeout}
use c_pug.Glib.{Glib}
use c_pug.Parser.Context.{Memory, parser_get_current_token, parser_advance_token}
use c_pug.Parser.Indented.Tokens.{
  begins, Regular, AtStart, AtFit, Same, current-get_elem?, advance-Same, advance-AtFit,
  advance-AtStart,
}
use c_pug.Parser.Node.{
  Case, finished, goes_on, refused, node_case, node_loop, finish_case, positioned, start_node,
  is_eof, parse_node,
}
use c_pug.Tokens.{TokenType, token_tag, Token, TokenList, AstNode, ParserContext}

module _ (g : Glib) (mem : Memory) (list : TokenList) (regular : Regular g mem list) where
  abbrev rest : ParserContext → List Token
  rest = rest_of list

  -- The node stands at the place, the context in the list where the next node begins, and no token
  -- between begins a node if a tag of the depth is open.
  abbrev IsNode : ℕ × ℕ × ℕ → ParserContext → AstNode × ParserContext → Type 0
  IsNode place ctx (n, c) =
      (spot n ≡ place)
      × Same g mem list ctx c
      × AtStart g mem list c
      × (heads g mem (some place.0) (rest ctx) ≡ heads g mem none (rest c))

  not_absorbed :
      (t : Token) (depth : ℕ)
      → ((t.depth == depth) ≡ false) ⊎ (joins t.type ≡ false)
      → is_absorbed (some depth) t ≡ false
  not_absorbed t depth (inl other) = rw other refl
  not_absorbed t depth (inr foreign) = ground (arith, foreign)

  -- A token that stops the inner loop, since it is of another depth or of another kind.
  stop-IsNode :
      (node : AstNode) (ctx : ParserContext)
      → ctx.tokens ≡ some list
      → AtFit g mem list node.depth ctx
      → ((t : Token)
          → parser_get_current_token ctx ≡ some t
          → ((t.depth == node.depth) ≡ false) ⊎ (joins t.type ≡ false))
      → IsNode (spot node) ctx (node, ctx)
  stop-IsNode node ctx e fits stops = (
    refl,
    (refl, refl),
    λ u at. elim (fits u at) [
      | inl eof ↦ inl eof
      | inr (inl start) ↦ inr start
      | inr (inr (part, deep)) ↦ elim (stops u at) [
        | inl other ↦ absurd (ground (arith, other, deep))
        | inr none_here ↦ absurd (cc (joins-belongs u.type none_here))
      ]
    ],
    stop-heads g mem list regular ctx node.depth e (λ u at. not_absorbed u node.depth (stops u at)),
  )

  round-heads :
      (node n : AstNode) (ctx c : ParserContext) (t : Token)
      → ctx.tokens ≡ some list
      → parser_get_current_token ctx ≡ some t
      → (t.depth == node.depth) ≡ true
      → joins t.type ≡ true
      → IsRound g mem node ctx (n, c)
      → heads g mem (some node.depth) (rest ctx) ≡ heads g mem (some node.depth) (rest c)
  round-heads node n ctx c t e at same joined (deep, inl next) =
      rw next (absorb-heads g mem list regular ctx t node.depth e at same joined)
  round-heads node n ctx c t e at same joined (deep, inr stays) = rw stays refl

  round-AtFit :
      (node n : AstNode) (ctx c : ParserContext) (t : Token)
      → ctx.tokens ≡ some list
      → parser_get_current_token ctx ≡ some t
      → (t.depth == node.depth) ≡ true
      → AtFit g mem list node.depth ctx
      → IsRound g mem node ctx (n, c)
      → AtFit g mem list n.depth c × Same g mem list ctx c
  round-AtFit node n ctx c t e at same fits (deep, inl next) =
      rw (ap (λ (s : ℕ × ℕ × ℕ). s.0) deep, next)
        (
          advance-AtFit g mem list regular ctx t node.depth e at
              ((==_iff t.depth node.depth).0 same),
          advance-Same g mem list ctx,
        )
  round-AtFit node n ctx c t e at same fits (deep, inr stays) =
      rw (ap (λ (s : ℕ × ℕ × ℕ). s.0) deep, stays) (fits, (refl, refl))

  Same-trans :
      (a b c : ParserContext) → Same g mem list a b → Same g mem list b c → Same g mem list a c
  Same-trans a b c (s, p) (s', p') = (s' ∙ s, p' ∙ p)

  -- What holds from a later state of the node holds from the first.
  relabel :
      (node n : AstNode) (ctx c : ParserContext)
      → spot n ≡ spot node
      → Same g mem list ctx c
      → heads g mem (some node.depth) (rest ctx) ≡ heads g mem (some node.depth) (rest c)
      → (r : Run (AstNode × ParserContext)) → After (IsNode (spot n) c) r
      → After (IsNode (spot node) ctx) r
  relabel node n ctx c deep s read (ok (m, d)) (deep', s', start, read') = (
    deep' ∙ deep,
    Same-trans ctx c d s s',
    start,
    read ∙ ap (λ (p : ℕ × ℕ × ℕ). heads g mem (some p.0) (rest c)) (sym deep) ∙ read',
  )
  relabel node n ctx c deep s read fault q = tt
  relabel node n ctx c deep s read timeout q = tt

  node_loop-IsNode :
      (fuel : ℕ) (node : AstNode) (ctx : ParserContext)
      → ctx.tokens ≡ some list
      → AtFit g mem list node.depth ctx
      → After (IsNode (spot node) ctx) (node_loop g mem fuel node ctx)
  unfolding node_loop
  node_loop-IsNode zero node ctx e fits = tt
  node_loop-IsNode (suc fuel) node ctx e fits = elim (Option-cases (parser_get_current_token ctx)) [
    | inl out ↦ rw (out, node_loop) (stop-IsNode node ctx e fits (λ t at. absurd (cc)))
    | inr (t, at) ↦ elim (Bool-cases (t.depth == node.depth)) [
      | inr other ↦
          rw (at, other, node_loop)
            (stop-IsNode node ctx e fits (λ u here. inl (
              let same : t ≡ u = cc in
              ap (λ (v : Token). v.depth == node.depth) (sym same) ∙ other)))
      | inl same ↦ elim (absorb-IsRound g mem t.type t node ctx) [
        | inl (stop, foreign) ↦
            rw (at, same, stop, node_loop)
              (stop-IsNode node ctx e fits (λ u here.
                inr
                  (let same : t ≡ u = cc in ap (λ (v : Token). joins v.type) (sym same) ∙ foreign)))
        | inr (r, go, joined, round) ↦
            rw (at, same, go, node_loop)
              (bind_After (IsRound g mem node ctx) (IsNode (spot node) ctx) r
                (λ (n, c). node_loop g mem fuel n c) round
                (λ (n, c) q.
                  let (fits', s) = round-AtFit node n ctx c t e at same fits q in
                  relabel node n ctx c q.0 s (round-heads node n ctx c t e at same joined q)
                    (node_loop g mem fuel n c) (node_loop-IsNode fuel n c (s.0 ∙ e) fits')))
      ]
    ]
  ]

  -- `parse_node` makes a node of the token, and goes on to the next token that begins one.
  abbrev pub Makes : Token → ParserContext → Option AstNode × ParserContext → Type 0
  Makes t ctx (found, c) =
      (n : AstNode) × (found ≡ some n)
      × (spot n ≡ token_spot t)
      × Same g mem list ctx c
      × AtStart g mem list c
      × (heads g mem none (rest ctx) ≡ t ∷ heads g mem none (rest c))

  tag-heads :
      (ctx c : ParserContext) (t : Token) (n : AstNode)
      → ctx.tokens ≡ some list
      → parser_get_current_token ctx ≡ some t
      → is_eof g mem t.type ≡ false
      → spot n ≡ token_spot t
      → t.type ≡ token_tag
      → heads g mem (some n.depth) (rest (parser_advance_token ctx)) ≡ heads g mem none (rest c)
      → heads g mem none (rest ctx) ≡ t ∷ heads g mem none (rest c)
  tag-heads ctx c t n e at more deep is_tag read =
      let opened : open_tag t.type t.depth ≡ some n.depth =
        ap (λ (type : TokenType). open_tag type t.depth) is_tag
        ∙ ap (λ (p : ℕ × ℕ × ℕ). some p.0) (sym deep) in
      begin-heads g mem list regular ctx t e at more
      ∙ ap (λ (o : Option ℕ). t ∷ heads g mem o (rest (parser_advance_token ctx))) opened
      ∙ ap (◌∷◌ t) read

  finish_case-Makes :
      (fuel : ℕ) (case_of : Case) (ctx : ParserContext) (t : Token)
      → ctx.tokens ≡ some list
      → parser_get_current_token ctx ≡ some t
      → is_eof g mem t.type ≡ false
      → IsBegun g mem t.type (token_spot t) case_of
      → After (Makes t ctx) (finish_case g mem fuel case_of ctx)
  unfolding finish_case
  finish_case-Makes fuel (finished n) ctx t e at more (deep, shut) = (
    n,
    refl,
    deep,
    advance-Same g mem list ctx,
    advance-AtStart g mem list regular ctx t e at shut,
    begin-heads g mem list regular ctx t e at more
        ∙ ap (λ (o : Option ℕ). t ∷ heads g mem o (rest (parser_advance_token ctx)))
            (open_tag-none t.type t.depth shut),
  )
  finish_case-Makes fuel (goes_on n) ctx t e at more (deep, is_tag) =
      let s = advance-Same g mem list ctx in
      bind_After (IsNode (spot n) (parser_advance_token ctx)) (Makes t ctx)
        (node_loop g mem fuel n (parser_advance_token ctx)) (λ (m, c). ok (some m, c))
        (node_loop-IsNode fuel n (parser_advance_token ctx) (s.0 ∙ e) (
          advance-AtFit g mem list regular ctx t n.depth e at
            (sym (ap (λ (p : ℕ × ℕ × ℕ). p.0) deep))))
        (λ (m, c) (deep', s', start, read). (
          m,
          refl,
          deep' ∙ deep,
          Same-trans ctx (parser_advance_token ctx) c s s',
          start,
          tag-heads ctx c t n e at more deep is_tag read,
        ))
  finish_case-Makes fuel refused ctx t e at more none_here = elim none_here [ ]

  create-depth :
      (type : TokenType) (depth : ℕ)
      → depth < 2 ^ 32
      → (n : AstNode) × (ast_node_create true true type depth ≡ some n) × (n.depth ≡ depth)
  unfolding ast_node_create
  create-depth type depth lt = (_, refl, omega (arith, lt))

  -- Given nodes that can be made, `parse_node` makes a node of a token that begins one.
  pub parse_node-Makes :
      (fuel : ℕ) (ctx : ParserContext) (t : Token)
      → ((i : ℕ) → mem.node i ≡ true)
      → ctx.tokens ≡ some list
      → parser_get_current_token ctx ≡ some t
      → is_eof g mem t.type ≡ false
      → begins t.type ≡ true
      → After (Makes t ctx) (parse_node g mem fuel ctx)
  unfolding parse_node
  parse_node-Makes fuel ctx t granted e at more starts =
      let shallow = regular.shallow ctx.current_token t (current-get_elem? g mem list ctx t e at) in
      let (n, made, deep) = create-depth t.type t.depth shallow in
      let placed = positioned g mem n t in
      let begun : IsBegun g mem t.type (token_spot t) (node_case g mem t.type t placed) =
        subst (λ d. IsBegun g mem t.type (d, t.line, t.column) (node_case g mem t.type t placed))
          deep (node_case-IsBegun g mem t.type t placed starts) in
      rw (at, more, parse_node, start_node, granted ctx.current_token, made)
        (finish_case-Makes fuel (node_case g mem t.type t placed) ctx t e at more begun)
