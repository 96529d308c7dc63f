-- ===== src/Parser/Release/Once.antt =====
-- `ast_node_free` frees no block twice.
use c_pug.Common.{
  ℕ, zero, suc, ◌+◌, ◌≤◌, ◌<◌, ◌≡◌, sym, ap, ◌∙◌, some, List, [], ◌∷◌, ◌++◌, arith, length,
  get_elem?, take, All, All-take, ◌==◌, ==_iff, times, times-append, Bool-cases, ltb, inl, inr,
  get_elem?-lt,
}
use mathlib.Core.Path.{subst}
use c_pug.Ast.{Heap}
use c_pug.Ast.Free.{
  Part, NodeBlock, of_node, list_block, array_block, child_array, itself, free_own, parts_of,
  free_node, ast_node_free,
}
use c_pug.Ast.Parts.{same_node, own-once, times-parts_of, no_list_part}
use c_pug.Common.Run.{ok}
use c_pug.Parser.Links.{Links, IsChild, child-lt}
use c_pug.Parser.Release.{
  Under, here, Under-le, Under-child, FreesOnce, Distinct, All-times, UnderOne, Frees,
  free_children-Frees,
}
use c_pug.Tokens.{Ptr, AstNode}

-- No node of the heap names a child twice.
abbrev pub ChildrenDistinct : Heap → Type 0
ChildrenDistinct h =
    (i : ℕ) (n : AstNode) → get_elem? h i ≡ some n → Distinct (take n.children_count n.children)

module _ (h : Heap) (links : Links h) where
  -- A node stands under none of its children.
  not_above : (p q : ℕ) (cs : List Ptr) → All (IsChild h p) cs → UnderOne h cs q → p < q
  not_above p q cs all (c, among, u) =
      omega
        (arith, child-lt h links p c (All-times (IsChild h p) c cs all among), Under-le h links u)

  -- A part of a node occurs once around the children or once below them.
  part-once :
      (p : Ptr) (n : AstNode) (cs : List Ptr) (below : List NodeBlock)
      → All (IsChild h p) cs
      → FreesOnce h (UnderOne h cs) below
      → (q : Ptr) (x : Part)
      → times same_node (of_node q x) (parts_of p (free_own n))
          + (times same_node (of_node q x) below
              + times same_node (of_node q x) (parts_of p (child_array ∷ itself ∷ [])))
        ≤ 1
  part-once p n cs below all f q x =
      let own = times-parts_of q p x (free_own n) in
      let end = times-parts_of q p x (child_array ∷ itself ∷ []) in
      elim (Bool-cases (q == p)) [
        | inr other ↦ rw (own, end, other) (omega (arith, f.once (of_node q x)))
        | inl same ↦ elim (Bool-cases (ltb 0 (times same_node (of_node q x) below))) [
          | inr none_below ↦
              let z : times same_node (of_node q x) below ≡ 0 = ground (arith, none_below) in
              rw (own, end, same, z) (omega (arith, own-once x n))
          | inl some_below ↦ absurd (
              omega (
                arith,
                not_above p q cs all (f.under q x (ground (arith, some_below))),
                (==_iff q p).0 same,
              ))
        ]
      ]

  part-Under :
      (p : Ptr) (n : AstNode) (cs : List Ptr) (below : List NodeBlock)
      → All (IsChild h p) cs
      → FreesOnce h (UnderOne h cs) below
      → (q : Ptr) (x : Part)
      → 0
        < times same_node (of_node q x) (parts_of p (free_own n))
          + (times same_node (of_node q x) below
              + times same_node (of_node q x) (parts_of p (child_array ∷ itself ∷ [])))
      → Under h p q
  part-Under p n cs below all f q x lt =
      let own = times-parts_of q p x (free_own n) in
      let end = times-parts_of q p x (child_array ∷ itself ∷ []) in
      elim (Bool-cases (q == p)) [
        | inl same ↦ subst (Under h p) (sym ((==_iff q p).0 same)) here
        | inr other ↦
            let own' : times same_node (of_node q x) (parts_of p (free_own n)) ≡ 0 =
              own ∙ (rw other) in
            let end' : times same_node (of_node q x) (parts_of p (child_array ∷ itself ∷ [])) ≡ 0 =
              end ∙ (rw other) in
            let (c, among, u) = f.under q x (omega (arith, lt, own', end')) in
            Under-child h links p c q (All-times (IsChild h p) c cs all among) u
      ]

  -- The blocks of a node around those of its children.
  around-once :
      (p : Ptr) (n : AstNode) (cs : List Ptr) (below : List NodeBlock)
      → All (IsChild h p) cs
      → FreesOnce h (UnderOne h cs) below
      → FreesOnce h
          (Under h p)
          (parts_of p (free_own n) ++ (below ++ parts_of p (child_array ∷ itself ∷ [])))
  around-once p n cs below all f =
      let own = parts_of p (free_own n) in
      let end = parts_of p (child_array ∷ itself ∷ []) in
      let sum = λ (c : NodeBlock).
        (times-append same_node c own (below ++ end)
          ∙ ap (λ (k : ℕ). times same_node c own + k) (times-append same_node c below end)) in
      record {
        once = λ c. elim c as (λ y. times same_node y (own ++ (below ++ end)) ≤ 1) [
          | list_block ↦
              rw (sum list_block) (omega (arith, f.no_list, (no_list_part p (free_own n)).0))
          | array_block ↦
              rw (sum array_block) (omega (arith, f.no_list, (no_list_part p (free_own n)).1))
          | of_node q x ↦ rw (sum (of_node q x)) (part-once p n cs below all f q x)
        ];
        under = λ q x lt. part-Under p n cs below all f q x (rw (sym (sum (of_node q x))) lt);
        no_list =
            rw (sum list_block, sum array_block)
              (omega (arith, f.no_list, no_list_part p (free_own n)));
      }

  free_node-Frees :
      (fuel : ℕ) (p : Ptr) (n : AstNode)
      → ChildrenDistinct h
      → get_elem? h p ≡ some n
      → length h ≤ p + fuel
      → Frees h (Under h p) (free_node fuel h p)
  unfolding free_node
  free_node-Frees zero p n d e le = absurd (omega (arith, get_elem?-lt h p n e))
  free_node-Frees (suc fuel) p n d e le =
      let cs = take n.children_count n.children in
      let all = All-take (IsChild h p) n.children_count n.children (links.down p n e) in
      let (below, r, f) =
        free_children-Frees h links p (free_node fuel h)
          (λ c is.
            let lt = child-lt h links p c is in
            let (k, at, _) = is in free_node-Frees fuel c k d at (omega (arith, le, lt)))
          cs all (d p n e) in
      (
        parts_of p (free_own n) ++ (below ++ parts_of p (child_array ∷ itself ∷ [])),
        rw (e, r, free_node),
        around-once p n cs below all f,
      )

  -- On a heap with sound links, on which no node names a child twice, `ast_node_free` returns from
  -- every node. It frees no block twice, and only blocks of the nodes under that one.
  pub ast_node_free-once :
      (p : Ptr) (n : AstNode)
      → ChildrenDistinct h
      → get_elem? h p ≡ some n
      → (blocks : List NodeBlock) × (ast_node_free h (some p) ≡ ok blocks)
        × ((c : NodeBlock) → times same_node c blocks ≤ 1)
        × ((q : Ptr) (b : Part) → 0 < times same_node (of_node q b) blocks → Under h p q)
  unfolding ast_node_free
  ast_node_free-once p n d e =
      let (blocks, r, f) = free_node-Frees (length h) p n d e (omega arith) in
      (blocks, r, f.once, f.under)
