-- ===== src/Parser/Indented/Document.antt =====
-- `parse_pug` builds the tree that the indentation describes.
use c_pug.Parser.Indented.Heads.{token_spot, heads, outline}
use c_pug.Common.{
  ℕ, ◌≡◌, ◌⊎◌, refl, true, Option, none, some, [], ◌∷◌, codes, arith, map, sym, ap, drop,
}
use c_pug.Ast.{Heap}
use c_pug.Common.Run.{ok, After, bind_After}
use c_pug.Glib.{Glib}
use c_pug.Parser.Context.{Memory, parser_get_current_token}
use c_pug.Parser.Document.{create-root, started, start-Ready, IsParsed, parse_pug_lem}
use c_pug.Parser.Indented.{Indented, single-Indented}
use c_pug.Parser.Indented.Loop.{Standing, pug_loop-Indented, Leaves}
use c_pug.Parser.Indented.Tokens.{begins, Regular, current-get_elem?}
use c_pug.Parser.Moves.{Closed, StandsIn}
use c_pug.Parser.Node.{is_eof}
use c_pug.Parser.Tree.{pug_loop, fuel_for, parse_pug}
use c_pug.Tokens.{TokenList, Token, AstNode, ParserContext}

module _ (g : Glib) (mem : Memory) {list : TokenList} {last : ℕ} (closed : Closed g mem list last)
    (granted : (i : ℕ) → mem.classes i ≡ true) (regular : Regular g mem list)
    (made : (i : ℕ) → mem.node i ≡ true) (grown : (i : ℕ) → mem.grow_children i ≡ true) where
  abbrev IsIndented : Option (ParserContext × Heap) → Type 0
  IsIndented none = Unit
  IsIndented (some r) = Leaves g mem closed granted regular made grown r

  starts :
      (ctx : ParserContext) (u : Token)
      → ctx.tokens ≡ some list
      → ctx.current_token ≡ 0
      → parser_get_current_token ctx ≡ some u
      → (is_eof g mem u.type ≡ true) ⊎ (begins u.type ≡ true)
  starts ctx u over zero_there at =
      regular.first u (rw zero_there at (current-get_elem? g mem list ctx u over at))

  start-Standing :
      (ctx : ParserContext) (root : AstNode)
      → ctx.tokens ≡ some list
      → root.parent ≡ none
      → ctx.current_token ≡ 0
      → Standing g mem list grown (started ctx) (root ∷ [])
  unfolding parser_get_current_token
  start-Standing ctx root over top zero_there = record {
    start = λ u at. starts ctx u over zero_there at;
    indented = single-Indented root top;
    opened =
        (0, refl, omega arith, λ t now j n after before at. absurd (omega (arith, after, before)));
    covers =
        ap (λ (i : ℕ). map token_spot (heads g mem none (drop i list.tokens))) (sym zero_there);
  }

  parse_pug-IsIndented :
      (ctx : ParserContext)
      → StandsIn list last ctx
      → ctx.current_token ≡ 0
      → After IsIndented (parse_pug g mem true ctx)
  unfolding parse_pug
  parse_pug-IsIndented ctx s zero_there =
      let (node, at, top, leaf, countless) = create-root in
      let root = record node { tag = some (codes "root") } in
      rw (s.over, at, parse_pug)
        (bind_After (Leaves g mem closed granted regular made grown) IsIndented
          (pug_loop g mem (fuel_for list) (fuel_for list) (started ctx) (root ∷ [])) _
          (pug_loop-Indented g mem closed granted regular made grown (fuel_for list) (fuel_for list)
            (started ctx) (root ∷ [])
            (start-Ready g mem closed granted ctx root s top leaf countless)
            (start-Standing ctx root s.over top zero_there) (omega (arith, closed.counted)))
          (λ r x. x))

  -- Given a list of fewer than 2 ^ 32 tokens of depths below 2 ^ 32, whose `count` is their number,
  -- that holds the end of the file in its last place, whose tokens for attributes have values, and
  -- in which each token begins a node, or ends the file, or is a class, an id or attributes behind
  -- a tag, a class, an id or attributes of its depth; a context at the start of the list; and
  -- memory for the root, the nodes, their first classes and the growth of their children:
  -- `parse_pug` returns. The nodes behind the root are, in this order, at the depths, lines and
  -- columns of the tokens up to the end of the file, less those that an open tag of their depth
  -- takes in (classes, ids, attributes, text and interpolations). Each has for its parent the
  -- nearest of the nodes before it that is less deep, or the root if there is none. The links agree
  -- in both directions, and the children of each node stand in the order in which they were parsed.
  pub parse_pug-Indented :
      (ctx : ParserContext)
      → StandsIn list last ctx
      → ctx.current_token ≡ 0
      → (ctx' : ParserContext) × (h : Heap) × (parse_pug g mem true ctx ≡ ok (some (ctx', h)))
        × Indented h
        × (outline h ≡ map token_spot (heads g mem none list.tokens))
        × IsParsed g mem ctx ctx' h
  parse_pug-Indented ctx s zero_there =
      let (ctx', h, run, parsed) = parse_pug_lem g mem closed granted ctx s in
      let (indented, covered) : IsIndented (some (ctx', h)) =
        rw run at (parse_pug-IsIndented ctx s zero_there) in
      (ctx', h, run, indented, covered, parsed)
