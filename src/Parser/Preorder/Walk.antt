-- ===== src/Parser/Preorder/Walk.antt =====
-- The walk over a tree meets the nodes in the order of the heap.
use mathlib.Core.Path.{subst}
use c_pug.Common.{
  ℕ, suc, ◌≡◌, refl, sym, some, List, ◌∷◌, arith, length, inl, inr, get_elem?, get_elem?-lt, take,
  take_all,
}
use c_pug.Ast.{Heap}
use c_pug.Parser.Indented.{Indented}
use c_pug.Parser.Links.{Links}
use c_pug.Parser.Listed.{Listed}
use c_pug.Parser.Order.{Ordered}
use c_pug.Parser.Preorder.{
  nodes, nodes_all, Segment, empty, then_node, Segment-append, Segment-drop, IsEnd,
  Ascending-get_elem?,
}
use c_pug.Parser.Preorder.Rest.{IsRest, rest-IsEnd, first-place, next-IsRest}
use c_pug.Renderer.Refines.{Stands, AllStand, stands, done, next}
use c_pug.Renderer.Spec.{Tree, Forest, tree}
use c_pug.Tokens.{Ptr, AstNode}

module _ (h : Heap) (x : Indented h) (links : Links h) (ordered : Ordered h)
    (listed : Listed h) where
  -- All children of a node are still to come.
  start-IsRest :
      (i : ℕ) (n : AstNode)
      → get_elem? h i ≡ some n
      → IsRest h i (suc i) (take n.children_count n.children)
  start-IsRest i n e =
      let (count, rising) = ordered.rising i n e in
      let whole : take n.children_count n.children ≡ n.children =
        take_all n.children_count n.children (omega (arith, count)) in
      subst (λ cs. IsRest h i (suc i) cs) (sym whole)
        (record {
          after = omega arith;
          short = omega (arith, get_elem?-lt h i n e);
          inside = λ j k lt lt' at. absurd (omega arith);
          deep = λ k there j l lt lt' at. absurd (omega arith);
          all = λ j k le at up. from j (listed.listed j k i at up);
          children = links.down i n e;
          rising = (i, rising);
          least = λ k j at. Ascending-get_elem? i (length h) n.children k j rising at;
        })
    where
      from :
          (j : ℕ)
          → (k : AstNode) × (l : ℕ) × (get_elem? h i ≡ some k) × (get_elem? k.children l ≡ some j)
          → (l : ℕ) × (get_elem? n.children l ≡ some j)
      from j (k, l, at, child) =
          let same : k ≡ n = cc in
          (l, subst (λ (y : AstNode). get_elem? y.children l ≡ some j) same child)

  abbrev Walked : ℕ → ℕ → List AstNode → Type 0
  Walked i a ns = (e : ℕ) × Segment h a ns e × IsEnd h i e

  mutual
    node-Walked : {i : Ptr} {t : Tree} → Stands h i t → Walked i i (nodes t)
    node-Walked {i} (stands {n} {f} at below) =
        let (e, seg, end) = children-Walked i n (suc i) at (start-IsRest i n at) below in
        (e, then_node at seg, end)

    children-Walked :
        (i : ℕ) (n : AstNode) (a : ℕ) {cs : List Ptr} {f : Forest}
        → get_elem? h i ≡ some n
        → IsRest h i a cs
        → AllStand h cs f
        → Walked i a (nodes_all f)
    children-Walked i n a at r done = (a, empty, rest-IsEnd h x i n at a r)
    children-Walked i n a at r (next {p} {ps} {t} {f} s rest) =
        let here : a ≡ p = first-place h x i n at a p ps r in
        let (e, seg, end) = node-Walked s in
        let r' : IsRest h i p (p ∷ ps) = subst (λ b. IsRest h i b (p ∷ ps)) here r in
        let (e', seg', end') = children-Walked i n e at (next-IsRest h x i p e ps r' end) rest in
        (
          e',
          subst (λ b. Segment h b (nodes_all (tree t f)) e') (sym here) (Segment-append seg seg'),
          end',
        )

  -- The nodes of the tree at the root are those of the heap, in their order.
  pub root-nodes : (t : Tree) → Stands h 0 t → nodes t ≡ h
  root-nodes t s =
      let (e, seg, end) = node-Walked s in
      elim end.ends [
        | inl last ↦ Segment-drop seg (omega (arith, last))
        | inr (not_root, le) ↦ absurd (not_root refl)
      ]
