-- ===== src/Parser/Total.antt =====
-- The outer loop of `parse_pug` ends, and leaves links between the nodes that are sound.
use c_pug.Parser.Listed.{Listed, attach-Listed}
use c_pug.Common.{
  ℕ, zero, suc, ◌+◌, ◌≤◌, ◌^◌, ◌<◌, ◌≡◌, refl, ◌∙◌, Bool, true, false, none, some, arith, length,
  if◌then◌else◌, leb, Bool-cases, Option-cases, inl, inr, ◌⊎◌, get_elem?, get_elem?-lt,
}
use c_pug.Ast.{Heap}
use c_pug.Common.Run.{Run, ok}
use c_pug.Glib.{Glib}
use c_pug.Parser.Context.{Memory, parser_get_current_token, parser_advance_token}
use c_pug.Parser.Links.{Links, UpOk, attach-Links, attach-new, attach-Keeps}
use c_pug.Parser.Order.{Ordered, attach-Ordered, length-attach}
use c_pug.Parser.Nodes.{parse_node-Returns}
use c_pug.Parser.Moves.{
  fixed, Closed, StandsIn, Moves, IsFresh, current-token, advance-Moves, Moves-StandsIn,
}
use c_pug.Parser.Node.{is_eof, parse_node}
use c_pug.Parser.Tree.{climb, attach, opens_block, place, at_eof, pug_loop}
use c_pug.Tokens.{TokenList, Token, Ptr, AstNode, ParserContext}

-- The parent that is found: it has no parent itself, or it is less deep than the node.
abbrev pub Found : Heap → ℕ → Run Ptr → Type 0
Found h depth r =
    (q : Ptr) × (k : AstNode) × (r ≡ ok q)
    × (get_elem? h q ≡ some k)
    × ((k.parent ≡ none) ⊎ (k.depth < depth))

climb-Found :
    (fuel : ℕ) (h : Heap) (depth p : ℕ) (m : AstNode)
    → Links h
    → p < fuel
    → get_elem? h p ≡ some m
    → Found h depth (climb fuel h depth p)
unfolding climb
climb-Found zero h depth p m links lt e = absurd (omega arith)
climb-Found (suc fuel) h depth p m links lt e = elim (Option-cases m.parent) [
  | inl top ↦ (p, m, ground arith, e, inl top)
  | inr (q, up) ↦
      let (k, e', before, _) : UpOk h p m.depth (some q) = rw up at (links.up p m e) in
      elim (Bool-cases (leb depth m.depth)) [
        | inl deeper ↦
            let (r, n, found, at, above) = climb-Found fuel h depth q k links (omega arith) e' in
            (r, n, ground arith, at, above)
        | inr less ↦ (p, m, ground arith, e, inr (ground arith))
      ]
]

pub place-eq :
    (g : Glib) (mem : Memory) (h : Heap) (node : AstNode) (ctx : ParserContext) (p q : Ptr)
    → ctx.current_parent ≡ some p
    → climb (length h) h node.depth p ≡ ok q
    → place g mem h node ctx
      ≡ ok (
        record ctx {
          current_depth = node.depth;
          current_parent = some (if opens_block g mem ctx node then length h else q);
        },
        attach g mem h node q,
      )
unfolding place
place-eq g mem h node ctx p q e f = ground arith

module _ (g : Glib) (mem : Memory) {list : TokenList} {last : ℕ} (closed : Closed g mem list last)
    (granted : (i : ℕ) → mem.classes i ≡ true) where
  -- What holds between two turns of the loop.
  pub record Ready (ctx : ParserContext) (h : Heap) : Type 0 where
    pub stands : StandsIn list last ctx
    pub links : Links h
    pub ordered : Ordered h
    pub listed : Listed h
    pub many : length h ≤ ctx.current_token + 1
    pub parent :
        (p : Ptr) × (m : AstNode) × (ctx.current_parent ≡ some p) × (get_elem? h p ≡ some m)

  abbrev pub Placed : ParserContext → Run (ParserContext × Heap) → Type 0
  Placed ctx r =
      (ctx' : ParserContext) × (h' : Heap) × (r ≡ ok (ctx', h'))
      × Ready ctx' h'
      × (ctx'.current_token ≡ ctx.current_token)
      × (fixed ctx' ≡ fixed ctx)

  opened :
      (h : Heap) (node k : AstNode) (q : Ptr) (b : Bool)
      → get_elem? h q ≡ some k
      → (m : AstNode) × (get_elem? (attach g mem h node q) (if b then length h else q) ≡ some m)
  opened h node k q true e = (_, attach-new g mem h node k q e)
  opened h node k q false e =
      let (m, at, _, _) = (attach-Keeps g mem h node k q e).at q k e in (m, at)

  pub place-Placed :
      (h : Heap) (node : AstNode) (ctx : ParserContext)
      → Ready ctx h
      → length h ≤ ctx.current_token
      → IsFresh node
      → Placed ctx (place g mem h node ctx)
  place-Placed h node ctx r few f =
      let (p, m, at, e) = r.parent in
      let (q, k, found, e', above) =
        climb-Found (length h) h node.depth p m r.links (get_elem?-lt h p m e) e in
      let room : length h + 1 ≤ 2 ^ 32 = omega (arith, few, r.stands.inside, closed.small) in
      let (n, now) = opened h node k q (opens_block g mem ctx node) e' in
      (
        _,
        _,
        place-eq g mem h node ctx p q at found,
        record {
          stands = record { over = r.stands.over; inside = r.stands.inside };
          links = attach-Links g mem h node k q e' r.links f.no_parent f.no_children above;
          ordered = attach-Ordered g mem h node k q e' r.ordered room f.no_children f.no_count;
          listed = attach-Listed g mem h node k q e' r.ordered room f.no_parent r.listed;
          many = rw (length-attach g mem h node q) (omega (arith, few));
          parent = (_, n, refl, now);
        },
        refl,
        refl,
      )

  -- The loop ends at the end of the file.
  abbrev pub Ends : ParserContext → Run (ParserContext × Heap) → Type 0
  Ends ctx r =
      (ctx' : ParserContext) × (h' : Heap) × (r ≡ ok (ctx', h'))
      × Links h'
      × Ordered h'
      × Listed h'
      × (0 < length h')
      × (at_eof g mem ctx' ≡ true)
      × (fixed ctx' ≡ fixed ctx)

  pub loop-stop :
      (node_fuel fuel : ℕ) (ctx ctx' : ParserContext) (h : Heap)
      → parse_node g mem node_fuel ctx ≡ ok (none, ctx')
      → at_eof g mem ctx' ≡ true
      → pug_loop g mem node_fuel (suc fuel) ctx h ≡ ok (ctx', h)
  unfolding pug_loop
  loop-stop node_fuel fuel ctx ctx' h e q = rw (e, q)

  loop-skip :
      (node_fuel fuel : ℕ) (ctx ctx' : ParserContext) (h : Heap)
      → parse_node g mem node_fuel ctx ≡ ok (none, ctx')
      → at_eof g mem ctx' ≡ false
      → pug_loop g mem node_fuel (suc fuel) ctx h
        ≡ pug_loop g mem node_fuel fuel (parser_advance_token ctx') h
  unfolding pug_loop
  loop-skip node_fuel fuel ctx ctx' h e q = rw (e, q)

  pub loop-node :
      (node_fuel fuel : ℕ) (ctx ctx' ctx'' : ParserContext) (h h' : Heap) (n : AstNode)
      → parse_node g mem node_fuel ctx ≡ ok (some n, ctx')
      → place g mem h n ctx' ≡ ok (ctx'', h')
      → pug_loop g mem node_fuel (suc fuel) ctx h ≡ pug_loop g mem node_fuel fuel ctx'' h'
  unfolding pug_loop
  loop-node node_fuel fuel ctx ctx' ctx'' h h' n e q = rw (e, q)

  some_node : {ctx : ParserContext} {h : Heap} → Ready ctx h → 0 < length h
  some_node {h} r = let (p, m, at, e) = r.parent in omega (arith, get_elem?-lt h p m e)

  pub moved :
      {k : ℕ} {ctx ctx' : ParserContext} {h : Heap}
      → Ready ctx h
      → Moves last k ctx ctx'
      → Ready ctx' h
  moved r m =
      let (p, n, at, e) = r.parent in
      record {
        stands = Moves-StandsIn closed r.stands m;
        links = r.links;
        ordered = r.ordered;
        listed = r.listed;
        many = omega (arith, r.many, m.forward);
        parent = (p, n, m.same_parent ∙ at, e);
      }

  not_eof :
      (ctx : ParserContext) (t : Token)
      → parser_get_current_token ctx ≡ some t
      → at_eof g mem ctx ≡ false
      → is_eof g mem t.type ≡ false
  unfolding at_eof
  not_eof ctx t e q = ground arith

  pub pug_loop-Ends :
      (node_fuel fuel : ℕ) (ctx : ParserContext) (h : Heap)
      → Ready ctx h
      → last < node_fuel
      → last < ctx.current_token + fuel
      → Ends ctx (pug_loop g mem node_fuel fuel ctx h)
  unfolding pug_loop
  pug_loop-Ends node_fuel zero ctx h r nf lt = absurd (omega (arith, r.stands.inside))
  pug_loop-Ends node_fuel (suc fuel) ctx h r nf lt =
      elim (parse_node-Returns g mem closed granted node_fuel r.stands nf) [
        | inl (ctx', e, m) ↦
            let r' = moved r m in
            elim (Bool-cases (at_eof g mem ctx')) [
              | inl stop ↦ (
                ctx',
                h,
                loop-stop node_fuel fuel ctx ctx' h e stop,
                r.links,
                r.ordered,
                r.listed,
                some_node r',
                stop,
                m.same_fixed,
              )
              | inr more ↦
                  let (t, at, now) = current-token closed r'.stands in
                  let step = advance-Moves closed t r'.stands at (not_eof ctx' t now more) in
                  let (c, h', q, links, ordered, listed, some_root, stop, root) =
                    pug_loop-Ends node_fuel fuel (parser_advance_token ctx') h (moved r' step) nf
                      (omega (arith, m.forward, step.forward)) in
                  (
                    c,
                    h',
                    loop-skip node_fuel fuel ctx ctx' h e more ∙ q,
                    links,
                    ordered,
                    listed,
                    some_root,
                    stop,
                    root ∙ step.same_fixed ∙ m.same_fixed,
                  )
            ]
        | inr (n, ctx', e, f, m) ↦
            let (ctx'', h'', q, r'', token, root) =
              place-Placed h n ctx' (moved r m) (omega (arith, r.many, m.forward)) f in
            let (c, h', q', links, ordered, listed, some_root, stop, root') =
              pug_loop-Ends node_fuel fuel ctx'' h'' r'' nf (omega (arith, m.forward, token)) in
            (
              c,
              h',
              loop-node node_fuel fuel ctx ctx' ctx'' h h'' n e q ∙ q',
              links,
              ordered,
              listed,
              some_root,
              stop,
              root' ∙ root ∙ m.same_fixed,
            )
      ]
