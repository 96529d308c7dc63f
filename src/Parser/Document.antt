-- ===== src/Parser/Document.antt =====
-- `parse_pug` returns a tree.
use c_pug.Parser.Listed.{Listed, single-Listed}
use c_pug.Common.{
  Option, length, ◌<◌, ℕ, zero, suc, ◌-◌, ◌≡◌, refl, sym, ap, ◌∙◌, true, none, some, [], ◌∷◌, codes,
  arith, get_elem?, All,
}
use c_pug.Ast.{Heap, ast_node_create}
use c_pug.Common.Run.{ok}
use c_pug.Glib.{Glib}
use c_pug.Parser.Context.{Memory}
use c_pug.Parser.Links.{Links, UpOk, IsChild}
use c_pug.Parser.Order.{Ordered, single-Ordered}
use c_pug.Parser.Moves.{Closed, StandsIn}
use c_pug.Parser.Total.{Ready, pug_loop-Ends}
use c_pug.Parser.Tree.{at_eof, pug_loop, fuel_for, parse_pug}
use c_pug.Tokens.{Ptr, TokenList, token_tag, AstNode, ParserContext, uint_mod}

-- A heap of one node without parent and children.
root-up :
    (root : AstNode) (i : ℕ) (n : AstNode)
    → root.parent ≡ none
    → get_elem? (root ∷ []) i ≡ some n
    → UpOk (root ∷ []) i n.depth n.parent
root-up root zero n e at =
    let same : root ≡ n = cc in
    let top : n.parent ≡ none = sym (ap (λ (m : AstNode). m.parent) same) ∙ e in rw top tt
root-up root (suc i) n e at = cc

root-down :
    (root : AstNode) (i : ℕ) (n : AstNode)
    → root.children ≡ []
    → get_elem? (root ∷ []) i ≡ some n
    → All (IsChild (root ∷ []) i) n.children
root-down root zero n e at =
    let same : root ≡ n = cc in
    let leaf : n.children ≡ [] = sym (ap (λ (m : AstNode). m.children) same) ∙ e in rw leaf tt
root-down root (suc i) n e at = cc

pub single-Links : (root : AstNode) → root.parent ≡ none → root.children ≡ [] → Links (root ∷ [])
single-Links root top leaf = record {
  up = λ i n. root-up root i n top;
  down = λ i n. root-down root i n leaf;
}

pub create-root :
    (node : AstNode) × (ast_node_create true true token_tag (uint_mod - 1) ≡ some node)
    × (node.parent ≡ none)
    × (node.children ≡ [])
    × (node.children_count ≡ 0)
unfolding ast_node_create
create-root = (_, refl, refl, refl, refl)

-- The context that the loop starts in.
abbrev pub started : ParserContext → ParserContext
started ctx = record ctx {
  root_node = some 0;
  current_parent = some 0;
  current_depth = uint_mod - 1;
}

-- What `parse_pug` leaves: the context stands at the end of the file, with the options of the
-- output unchanged, and the root is the first node of a heap with sound links, whose children are
-- in order; a node that has a parent is one of its children.
pub record IsParsed (g : Glib) (mem : Memory) (ctx ctx' : ParserContext) (h : Heap) : Type 0 where
  pub links : Links h
  pub ordered : Ordered h
  pub listed : Listed h
  pub at_end : at_eof g mem ctx' ≡ true
  pub root_is : ctx'.root_node ≡ some 0
  pub some_root : 0 < length h
  pub same_use_tabs : ctx'.use_tabs ≡ ctx.use_tabs
  pub same_tab_size : ctx'.tab_size ≡ ctx.tab_size

module _ (g : Glib) (mem : Memory) {list : TokenList} {last : ℕ} (closed : Closed g mem list last)
    (granted : (i : ℕ) → mem.classes i ≡ true) where
  parse_pug-eq :
      (ctx ctx' : ParserContext) (node : AstNode) (h : Heap)
      → ctx.tokens ≡ some list
      → ast_node_create true true token_tag (uint_mod - 1) ≡ some node
      → pug_loop g mem
          (fuel_for list)
          (fuel_for list)
          (started ctx)
          (record node { tag = some (codes "root") } ∷ [])
        ≡ ok (ctx', h)
      → parse_pug g mem true ctx ≡ ok (some (ctx', h))
  unfolding parse_pug
  parse_pug-eq ctx ctx' node h e made run = cc

  -- The loop starts on a heap of the root.
  pub start-Ready :
      (ctx : ParserContext) (root : AstNode)
      → StandsIn list last ctx
      → root.parent ≡ none
      → root.children ≡ []
      → root.children_count ≡ 0
      → Ready g mem closed granted (started ctx) (root ∷ [])
  start-Ready ctx root s top leaf countless = record {
    stands = record { over = s.over; inside = s.inside };
    links = single-Links root top leaf;
    ordered = single-Ordered root leaf countless;
    listed = single-Listed root top;
    many = omega arith;
    parent = (0, root, refl, refl);
  }

  -- Given a list of fewer than 2 ^ 32 tokens that holds the end of the file in its last place and
  -- whose tokens for attributes have values, a context that stands in it, and the memory for the
  -- root and for the first classes of each node, `parse_pug` returns, whatever the other
  -- allocations do. The context then stands at the end of the file with the options of the output
  -- unchanged, the root is the first node of the heap, each node that has a parent stands behind it
  -- on the heap and is deeper than it, unless the parent has no parent itself, and each child of a
  -- node names the node for its parent. The children of each node stand in the order in which they
  -- were parsed, none of them twice, and `children_count` is their number; a node that has a parent
  -- is one of its children.
  pub parse_pug_lem :
      (ctx : ParserContext)
      → StandsIn list last ctx
      → (ctx' : ParserContext) × (h : Heap) × (parse_pug g mem true ctx ≡ ok (some (ctx', h)))
        × IsParsed g mem ctx ctx' h
  parse_pug_lem ctx s =
      let (node, made, top, leaf, countless) = create-root in
      let root = record node { tag = some (codes "root") } in
      let start = start-Ready ctx root s top leaf countless in
      let (ctx', h, run, links, ordered, listed, some_root, stop, same) =
        pug_loop-Ends g mem closed granted (fuel_for list) (fuel_for list) (started ctx) (root ∷ [])
          start (omega (arith, closed.counted)) (omega (arith, closed.counted)) in
      (
        ctx',
        h,
        parse_pug-eq ctx ctx' node h s.over made run,
        record {
          links = links;
          ordered = ordered;
          listed = listed;
          at_end = stop;
          root_is = ap (λ (f : Option Ptr × ℕ × ℕ). f.0) same;
          some_root = some_root;
          same_use_tabs = ap (λ (f : Option Ptr × ℕ × ℕ). f.1) same;
          same_tab_size = ap (λ (f : Option Ptr × ℕ × ℕ). f.2) same;
        },
      )
