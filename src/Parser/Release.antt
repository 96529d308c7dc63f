-- ===== src/Parser/Release.antt =====
-- The blocks that are freed below a node, on a heap with sound links.
pub mod Once
pub mod Context
use c_pug.Common.{
  ℕ, zero, suc, ◌+◌, ◌≤◌, ◌<◌, ◌≡◌, refl, sym, ap, ◌∙◌, Option, none, some, List, [], ◌∷◌, ◌++◌,
  arith, length, get_elem?, take, All, ◌==◌, ==_iff, times, times-append, if◌then◌else◌, Bool, true,
  false, Bool-cases, ltb, inl, inr, get_elem?-lt,
}
use mathlib.Core.Path.{subst}
use c_pug.Ast.{Heap}
use c_pug.Ast.Free.{
  Part, NodeBlock, of_node, list_block, array_block, child_array, itself, free_own, parts_of,
  free_children, free_node, ast_node_free,
}
use c_pug.Ast.Parts.{same_part, same_node, own-once, times-parts_of, no_list_part}
use c_pug.Common.Run.{Run, ok, ◌>>=◌}
use c_pug.Parser.Links.{Links, UpOk, IsChild, child-lt}
use c_pug.Tokens.{Ptr, AstNode}

-- The node at the pointer or one below it, by the links to the parents.
pub data Under (h : Heap) (p : Ptr) : Ptr → Type 0 where
  here : Under h p p
  step :
      {q r : Ptr} (n : AstNode)
      → get_elem? h q ≡ some n
      → n.parent ≡ some r
      → Under h p r
      → Under h p q

module _ (h : Heap) (links : Links h) where
  pub Under-le : {p q : Ptr} → Under h p q → p ≤ q
  Under-le here = omega arith
  Under-le (step {q} {r} n at up u) =
      let (m, e, lt, _) : UpOk h q n.depth (some r) = rw up at (links.up q n at) in
      omega (arith, Under-le u)

  -- A node stands under one child of a node at most.
  one_child : (p c d q : Ptr) → IsChild h p c → IsChild h p d → Under h c q → Under h d q → c ≡ d
  one_child p c d q a b here here = refl
  one_child p c d q (k, e, is) b here (step {r = r} n at up u) =
      let same : p ≡ r = cc in absurd (omega (arith, Under-le u, child-lt h links p d b))
  one_child p c d q a (k, e, is) (step {r = r} n at up u) here =
      let same : p ≡ r = cc in absurd (omega (arith, Under-le u, child-lt h links p c a))
  one_child p c d q a b (step {r = r} n at up u) (step {r = r'} n' at' up' u') =
      let same : r' ≡ r = cc in one_child p c d r a b u (subst (λ (x : Ptr). Under h d x) same u')

  pub Under-child : (p c q : Ptr) → IsChild h p c → Under h c q → Under h p q
  Under-child p c q (k, e, is) here = step k e is here
  Under-child p c q a (step n at up u) = step n at up (Under-child p c _ a u)

-- The freed blocks of a node at `p`: none occurs twice, and each is of a node under `p`.
pub record FreesOnce (h : Heap) (P : Ptr → Type 0) (blocks : List NodeBlock) : Type 0 where
  pub once : (c : NodeBlock) → times same_node c blocks ≤ 1
  pub under : (q : Ptr) (b : Part) → 0 < times same_node (of_node q b) blocks → P q
  pub no_list : times same_node list_block blocks + times same_node array_block blocks ≡ 0

-- No pointer occurs twice.
abbrev pub Distinct : List Ptr → Type 0
Distinct [] = Unit
Distinct (c ∷ cs) = (times ◌==◌ c cs ≡ 0) × Distinct cs

pub All-times : (P : Ptr → Type 0) (c : Ptr) (cs : List Ptr) → All P cs → 0 < times ◌==◌ c cs → P c
All-times P c [] a lt = absurd (omega arith)
All-times P c (d ∷ ds) a lt = elim (Bool-cases (c == d)) [
  | inl same ↦ subst P (sym ((==_iff c d).0 same)) a.0
  | inr other ↦ All-times P c ds a.1 (ground (arith, lt, other))
]

-- The node stands under one of the pointers.
abbrev pub UnderOne : Heap → List Ptr → Ptr → Type 0
UnderOne h cs q = (c : Ptr) × (0 < times ◌==◌ c cs) × Under h c q

module _ (h : Heap) (links : Links h) (p : Ptr) where
  -- The blocks of a child and those of the children behind it.
  next-once :
      (c : Ptr) (cs : List Ptr) (a b : List NodeBlock)
      → IsChild h p c
      → All (IsChild h p) cs
      → times ◌==◌ c cs ≡ 0
      → FreesOnce h (Under h c) a
      → FreesOnce h (UnderOne h cs) b
      → (q : Ptr) (x : Part) → times same_node (of_node q x) a + times same_node (of_node q x) b ≤ 1
  next-once c cs a b is all new f g q x =
      elim (Bool-cases (ltb 0 (times same_node (of_node q x) a))) [
        | inr none_here ↦ ground (arith, g.once (of_node q x))
        | inl some_here ↦ elim (Bool-cases (ltb 0 (times same_node (of_node q x) b))) [
          | inr none_there ↦ ground (arith, f.once (of_node q x))
          | inl some_there ↦
              let (d, among, u) = g.under q x (ground (arith, some_there)) in
              let same =
                one_child h links p c d q is (All-times (IsChild h p) d cs all among)
                  (f.under q x (ground (arith, some_here))) u in
              let among' : 0 < times ◌==◌ c cs =
                subst (λ (y : Ptr). 0 < times ◌==◌ y cs) (sym same) among in
              absurd (omega (arith, among', new))
        ]
      ]

  join-once :
      (c : Ptr) (cs : List Ptr) (a b : List NodeBlock)
      → IsChild h p c
      → All (IsChild h p) cs
      → times ◌==◌ c cs ≡ 0
      → FreesOnce h (Under h c) a
      → FreesOnce h (UnderOne h cs) b
      → FreesOnce h (UnderOne h (c ∷ cs)) (a ++ b)
  join-once c cs a b is all new f g = record {
    once = λ x. elim x as (λ y. times same_node y (a ++ b) ≤ 1) [
      | list_block ↦ omega (arith, times-append same_node list_block a b, f.no_list, g.no_list)
      | array_block ↦ omega (arith, times-append same_node array_block a b, f.no_list, g.no_list)
      | of_node q y ↦
          rw (times-append same_node (of_node q y) a b) (next-once c cs a b is all new f g q y)
    ];
    under = λ q x lt. elim (Bool-cases (ltb 0 (times same_node (of_node q x) a))) [
      | inl some_here ↦ (c, ground arith, f.under q x (ground (arith, some_here)))
      | inr none_here ↦
          let (d, among, u) =
            g.under q x (ground (arith, none_here, lt, times-append same_node (of_node q x) a b)) in
          (d, ground (arith, among), u)
    ];
    no_list = omega (
      arith,
      times-append same_node list_block a b,
      times-append same_node array_block a b,
      f.no_list,
      g.no_list,
    );
  }

-- A run that returns blocks none of which occurs twice.
abbrev pub Frees : Heap → (Ptr → Type 0) → Run (List NodeBlock) → Type 0
Frees h P r = (blocks : List NodeBlock) × (r ≡ ok blocks) × FreesOnce h P blocks

module _ (h : Heap) (links : Links h) (p : Ptr) (free : Ptr → Run (List NodeBlock))
    (each : (c : Ptr) → IsChild h p c → Frees h (Under h c) (free c)) where
  pub free_children-Frees :
      (cs : List Ptr)
      → All (IsChild h p) cs
      → Distinct cs
      → Frees h (UnderOne h cs) (free_children free cs)
  unfolding free_children
  free_children-Frees [] all d = (
    [],
    refl,
    record { once = λ c. omega arith; under = λ q b lt. absurd (omega arith); no_list = refl },
  )
  free_children-Frees (c ∷ cs) (is, all) (new, d) =
      let (a, e, f) = each c is in
      let (b, e', g) = free_children-Frees cs all d in
      (a ++ b, rw (e, e', free_children), join-once h links p c cs a b is all new f g)
