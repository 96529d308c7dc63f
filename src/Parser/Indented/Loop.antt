-- ===== src/Parser/Indented/Loop.antt =====
-- The loop of `parse_pug` hangs each node under the nearest node before it that is less deep.
use c_pug.Parser.Indented.Added.{attach-Indented}
use c_pug.Parser.Indented.Open.{IsOpen, further-IsNearest, opened-IsOpen}
use c_pug.Parser.Indented.Heads.{
  spot, token_spot, heads, rest_of, rest_of-current, outline, outline-attach,
}
use c_pug.Common.{
  ℕ, zero, suc, ◌≤◌, ◌<◌, ◌≡◌, refl, sym, ap, ◌∙◌, true, Option, none, some, arith, length,
  if◌then◌else◌, ltb, Bool-cases, inl, inr, ◌⊎◌, get_elem?, get_elem?-lt, get_elem?-below, List, [],
  ◌∷◌, ◌++◌, map, append_assoc, append-nil,
}
use c_pug.Ast.{Heap}
use c_pug.Common.Run.{ok, After}
use c_pug.Glib.{Glib}
use c_pug.Parser.Context.{Memory, parser_get_current_token}
use c_pug.Parser.Indented.{AreDeep, Indented, climb-IsNearest}
use c_pug.Parser.Indented.Tokens.{begins, Regular}
use c_pug.Parser.Indented.Node.{Makes, parse_node-Makes}
use c_pug.Parser.Moves.{Closed, current-token}
use c_pug.Parser.Node.{is_eof, parse_node}
use c_pug.Parser.Nodes.{parse_node-Returns}
use c_pug.Parser.Total.{Ready, place-eq, place-Placed, loop-stop, loop-node, moved}
use c_pug.Parser.Tree.{opens_block, place, at_eof, pug_loop}
use c_pug.Tokens.{TokenList, Token, Ptr, AstNode, ParserContext}

module _ (g : Glib) (mem : Memory) (list : TokenList)
    (grown : (i : ℕ) → mem.grow_children i ≡ true) where
  -- The nodes behind the root stand at the spots of the tokens that begin nodes: of those before
  -- the current token, if some are still `left`.
  abbrev pub Covers : Heap → List (ℕ × ℕ × ℕ) → Type 0
  Covers h left = map token_spot (heads g mem none list.tokens) ≡ outline h ++ left

  -- Between two turns of the loop.
  pub record Standing (ctx : ParserContext) (h : Heap) : Type 0 where
    pub start :
        (u : Token)
        → parser_get_current_token ctx ≡ some u
        → (is_eof g mem u.type ≡ true) ⊎ (begins u.type ≡ true)
    pub indented : Indented h
    pub opened : IsOpen ctx h
    pub covers : Covers h (map token_spot (heads g mem none (rest_of list ctx)))

  not_open :
      (ctx : ParserContext) (node : AstNode) (t : Token)
      → parser_get_current_token ctx ≡ some t
      → (opens_block g mem ctx node ≡ true) ⊎ (t.depth ≤ node.depth)
  unfolding opens_block
  not_open ctx node t e = elim (Bool-cases (ltb node.depth t.depth)) [
    | inl deeper ↦ inl (rw (e, deeper, opens_block) refl)
    | inr shallow ↦ inr (ground arith)
  ]

  -- The current token does not depend on what `place` changes in the context.
  same-current :
      (ctx : ParserContext) (d : ℕ) (o : Option Ptr)
      → parser_get_current_token (record ctx { current_depth = d; current_parent = o })
        ≡ parser_get_current_token ctx
  unfolding parser_get_current_token
  same-current ctx d o = refl

  place-Standing :
      (h : Heap) (node m : AstNode) (ctx : ParserContext) (p : Ptr)
      → Indented h
      → ctx.current_parent ≡ some p
      → get_elem? h p ≡ some m
      → AreDeep h node.depth p (length h)
      → ((u : Token)
          → parser_get_current_token ctx ≡ some u
          → (is_eof g mem u.type ≡ true) ⊎ (begins u.type ≡ true))
      → Covers h (spot node ∷ map token_spot (heads g mem none (rest_of list ctx)))
      → After (λ (r : ParserContext × Heap). Standing r.0 r.1) (place g mem h node ctx)
  place-Standing h node m ctx p x at e deep start covers =
      let lt = get_elem?-lt h p m e in
      let (q, k, found, there, near) = climb-IsNearest (length h) h node.depth p m x lt e in
      let near' = further-IsNearest h p q node.depth lt deep near in
      let b = opens_block g mem ctx node in
      let o : Option Ptr = some (if b then length h else q) in
      let after : ParserContext = record ctx { current_depth = node.depth; current_parent = o } in
      let same = same-current ctx node.depth o in
      rw (place-eq g mem h node ctx p q at found) (record {
        start = λ u now. start u (sym same ∙ now);
        indented = attach-Indented g mem h node k q grown there x near';
        opened =
            opened-IsOpen g mem grown h node k q there x near' after b refl
              (λ t now. not_open ctx node t (sym same ∙ now));
        covers =
            covers
            ∙ sym (
                append_assoc (outline h) (spot node ∷ [])
                  (map token_spot (heads g mem none (rest_of list ctx))))
            ∙ ap
                (λ (o : List (ℕ × ℕ × ℕ)).
                  o ++ map token_spot (heads g mem none (rest_of list ctx)))
                (sym (outline-attach g mem h node q (omega (arith, lt))));
      })

module _ (g : Glib) (mem : Memory) {list : TokenList} {last : ℕ} (closed : Closed g mem list last)
    (granted : (i : ℕ) → mem.classes i ≡ true) (regular : Regular g mem list)
    (made : (i : ℕ) → mem.node i ≡ true) (grown : (i : ℕ) → mem.grow_children i ≡ true) where
  at_eof-eof :
      (ctx : ParserContext) (t : Token)
      → parser_get_current_token ctx ≡ some t
      → is_eof g mem t.type ≡ true
      → (at_eof g mem ctx ≡ true)
  unfolding at_eof
  at_eof-eof ctx t e eof = ground arith

  stop-eq :
      (node_fuel : ℕ) (ctx : ParserContext) (t : Token)
      → parser_get_current_token ctx ≡ some t
      → is_eof g mem t.type ≡ true
      → parse_node g mem node_fuel ctx ≡ ok (none, ctx)
  unfolding parse_node
  stop-eq node_fuel ctx t e eof = ground arith

  -- At the end of the file no token is left that begins a node.
  eof-heads :
      (ctx : ParserContext) (t : Token)
      → ctx.tokens ≡ some list
      → parser_get_current_token ctx ≡ some t
      → is_eof g mem t.type ≡ true
      → heads g mem none (rest_of list ctx) ≡ []
  eof-heads ctx t e at eof =
      rw (rest_of-current g mem list regular ctx t e at) (rw (heads, eof) refl)

  all_covered :
      (ctx : ParserContext) (t : Token) (h : Heap)
      → ctx.tokens ≡ some list
      → parser_get_current_token ctx ≡ some t
      → is_eof g mem t.type ≡ true
      → Standing g mem list grown ctx h
      → outline h ≡ map token_spot (heads g mem none list.tokens)
  all_covered ctx t h e at eof s =
      sym (append-nil (outline h))
      ∙ ap (λ (l : List Token). outline h ++ map token_spot l) (sym (eof-heads ctx t e at eof))
      ∙ sym s.covers

  -- What the loop leaves: the nodes hang as they are indented, and each stands for a token that
  -- begins a node.
  abbrev pub Leaves : ParserContext × Heap → Type 0
  Leaves r = Indented r.1 × (outline r.1 ≡ map token_spot (heads g mem none list.tokens))

  pub pug_loop-Indented :
      (node_fuel fuel : ℕ) (ctx : ParserContext) (h : Heap)
      → Ready g mem closed granted ctx h
      → Standing g mem list grown ctx h
      → last < node_fuel
      → After Leaves (pug_loop g mem node_fuel fuel ctx h)
  unfolding pug_loop
  pug_loop-Indented node_fuel zero ctx h r s lt = tt
  pug_loop-Indented node_fuel (suc fuel) ctx h r s lt =
      let (t, here, now) = current-token closed r.stands in
      elim (Bool-cases (is_eof g mem t.type)) [
        | inl eof ↦
            rw
              (loop-stop g mem closed granted node_fuel fuel ctx ctx h
                (stop-eq node_fuel ctx t now eof) (at_eof-eof ctx t now eof))
              (s.indented, all_covered ctx t h r.stands.over now eof s)
        | inr more ↦
            let begun : begins t.type ≡ true = elim (s.start t now) [
              | inl eof ↦ absurd (cc)
              | inr begun ↦ begun
            ] in
            let makes =
              parse_node-Makes g mem list regular node_fuel ctx t made r.stands.over now more
                begun in
            elim (parse_node-Returns g mem closed granted node_fuel r.stands lt) [
              | inl (ctx', e, m) ↦
                  let (n, found, deep, same, start, read) : Makes g mem list regular t ctx
                      (none, ctx') =
                    rw e at makes in
                  absurd (cc)
              | inr (n, ctx', e, f, m) ↦
                  let (n', found, deep, same, start, read) : Makes g mem list regular t ctx
                      (some n, ctx') =
                    rw e at makes in
                  let is : n' ≡ n = cc in
                  let placed : spot n ≡ token_spot t = sym (ap spot is) ∙ deep in
                  let deep' : n.depth ≡ t.depth = ap (λ (s : ℕ × ℕ × ℕ). s.0) placed in
                  let covers =
                    s.covers
                    ∙ ap (λ (l : List Token). outline h ++ map token_spot l) read
                    ∙ ap
                        (λ (d : ℕ × ℕ × ℕ).
                          outline h ++ (d ∷ map token_spot (heads g mem none (rest_of list ctx'))))
                        (sym placed) in
                  let (p, up, inside, behind) = s.opened in
                  let (k, at) = get_elem?-below h p inside in
                  let stands =
                    place-Standing g mem list grown h n k ctx' p s.indented (m.same_parent ∙ up) at
                      (rw deep' (behind t now)) start covers in
                  let (c, h', q, r', token, same_fixed) =
                    place-Placed g mem closed granted h n ctx' (moved g mem closed granted r m)
                      (omega (arith, r.many, m.forward)) f in
                  let s' : Standing g mem list grown c h' = rw q at stands in
                  rw (loop-node g mem closed granted node_fuel fuel ctx ctx' c h h' n e q)
                    (pug_loop-Indented node_fuel fuel c h' r' s' lt)
            ]
      ]
