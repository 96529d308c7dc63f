-- ===== src/Parser/Preorder.antt =====
-- The tree that stands at the root holds each node of the heap once, in the order of the heap.
pub mod Rest
pub mod Walk
use c_pug.Common.{
  ℕ, zero, suc, ◌+◌, ◌≤◌, ◌<◌, ◌≡◌, ◌≢◌, refl, sym, ap, ◌∙◌, none, some, List, [], ◌∷◌, ◌++◌, arith,
  length, Bool-cases, inl, inr, ◌⊎◌, get_elem?, get_elem?-lt, get_elem?-below, drop, leb, ltb, ◌==◌,
  ==_iff, take_all, All, drop-get_elem?, drop_out,
}
use mathlib.Core.Path.{subst}
use c_pug.Ast.{Heap}
use c_pug.Parser.Indented.{IsNearest, AreDeep, Indented}
use c_pug.Parser.Links.{Links, IsChild}
use c_pug.Parser.Listed.{Listed}
use c_pug.Parser.Order.{Ordered, Ascending}
use c_pug.Renderer.Refines.{Stands, AllStand, stands, done, next}
use c_pug.Renderer.Spec.{Tree, Forest, node, no_trees, tree}
use c_pug.Tokens.{Ptr, AstNode}

-- The nodes of a tree, each before those below it.
abbrev mutual
  pub nodes : Tree → List AstNode
  nodes (node n f) = n ∷ nodes_all f

  pub nodes_all : Forest → List AstNode
  nodes_all no_trees = []
  nodes_all (tree t f) = nodes t ++ nodes_all f

-- The nodes from the place `a` up to the place `b`.
pub data Segment (h : Heap) : ℕ → List AstNode → ℕ → Type 0 where
  empty : {a : ℕ} → Segment h a [] a
  then_node :
      {a b : ℕ} {n : AstNode} {ns : List AstNode}
      → get_elem? h a ≡ some n
      → Segment h (suc a) ns b
      → Segment h a (n ∷ ns) b

pub Segment-append :
    {h : Heap} {a b c : ℕ} {ms ns : List AstNode}
    → Segment h a ms b
    → Segment h b ns c
    → Segment h a (ms ++ ns) c
Segment-append empty t = t
Segment-append (then_node e s) t = then_node e (Segment-append s t)

pub Segment-drop :
    {h : Heap} {a b : ℕ} {ns : List AstNode} → Segment h a ns b → length h ≤ b → ns ≡ drop a h
Segment-drop {h} {a} empty le = sym (drop_out h a le)
Segment-drop {h} {a} (then_node {n} e s) le =
    ap (◌∷◌ n) (Segment-drop s le) ∙ sym (drop-get_elem? h a n e)

-- Deeper than the node at `i`, or the root.
abbrev pub IsDeeper : Heap → ℕ → ℕ → Type 0
IsDeeper h i depth = (i ≡ 0) ⊎ ((m : AstNode) × (get_elem? h i ≡ some m) × (m.depth < depth))

-- The nodes between are deeper than the one at `i`, and the one at `e` is not, if there is one.
pub record IsEnd (h : Heap) (i e : ℕ) : Type 0 where
  pub after : i < e
  pub inside : (j : ℕ) (n : AstNode) → i < j → j < e → get_elem? h j ≡ some n → IsDeeper h i n.depth
  pub ends :
      (e ≡ length h)
      ⊎ ((i ≢ 0)
          × ((m x : AstNode) → get_elem? h i ≡ some m → get_elem? h e ≡ some x → x.depth ≤ m.depth))
  pub short : e ≤ length h

pub Ascending-get_elem? :
    (low high : ℕ) (cs : List Ptr) (k c : ℕ)
    → Ascending low cs high
    → get_elem? cs k ≡ some c
    → low < c
Ascending-get_elem? low high [] k c a e = absurd (cc)
Ascending-get_elem? low high (d ∷ cs) zero c (lt, a) e = ground (arith, lt, e)
Ascending-get_elem? low high (d ∷ cs) (suc k) c (lt, a) e =
    omega (arith, lt, Ascending-get_elem? d high cs k c a e)

pub All-IsChild :
    (h : Heap) (i : ℕ) (cs : List Ptr) (k c : ℕ)
    → All (IsChild h i) cs
    → get_elem? cs k ≡ some c
    → IsChild h i c
All-IsChild h i [] k c a e = absurd (cc)
All-IsChild h i (d ∷ cs) zero c (child, a) e =
    let same : d ≡ c = cc in subst (λ x. IsChild h i x) same child
All-IsChild h i (d ∷ cs) (suc k) c (child, a) e = All-IsChild h i cs k c a e

module _ (h : Heap) (x : Indented h) where
  -- A node deeper than the one at `i`, with no node between that is less deep, has it for parent.
  pub parent-is :
      (i a : ℕ) (m n : AstNode)
      → get_elem? h i ≡ some m
      → get_elem? h a ≡ some n
      → i < a
      → AreDeep h n.depth i a
      → IsDeeper h i n.depth
      → n.parent ≡ some i
  parent-is i a m n e f lt deep deeper =
      let (q, up, near) = x.nearest a n f (omega (arith, lt)) in
      let same : q ≡ i = elim (Bool-cases (ltb i q)) [
        | inl behind ↦ elim near.above [
          | inl zero_there ↦ absurd (ground (arith, zero_there))
          | inr (k, at, less) ↦
              absurd (let le = deep q k (ground arith) near.behind at in omega (arith, le, less))
        ]
        | inr not_behind ↦ elim (Bool-cases (ltb q i)) [
          | inl before ↦
              let le = near.between i m (ground arith) lt e in
              elim deeper [
                | inl zero_here ↦ absurd (ground (arith, zero_here))
                | inr (m', e', less) ↦
                    let is : m' ≡ m = cc in
                    let same_depth = ap (λ (y : AstNode). y.depth) is in
                    absurd (omega (arith, le, less, same_depth))
              ]
          | inr not_before ↦ ground arith
        ]
      ] in
      up ∙ ap some same
