-- ===== src/Parser/Preorder/Rest.antt =====
-- The children of a node that a walk has not yet met.
use c_pug.Common.{
  ℕ, zero, suc, ◌≤◌, ◌<◌, ◌≡◌, refl, ap, some, List, [], ◌∷◌, arith, length, Bool-cases, inl, inr,
  get_elem?, get_elem?-lt, get_elem?-below, ltb, All,
}
use c_pug.Ast.{Heap}
use c_pug.Parser.Indented.{IsNearest, AreDeep, Indented, child-IsNearest}
use c_pug.Parser.Links.{IsChild}
use c_pug.Parser.Order.{Ascending}
use c_pug.Parser.Preorder.{IsDeeper, IsEnd, Ascending-get_elem?, All-IsChild, parent-is}
use c_pug.Tokens.{Ptr, AstNode}

-- The children of the node at `i` from the place `a` on are `cs`, and `a` is the place where the
-- next of them can stand.
pub record IsRest (h : Heap) (i a : ℕ) (cs : List Ptr) : Type 0 where
  pub after : i < a
  pub short : a ≤ length h
  pub inside : (j : ℕ) (n : AstNode) → i < j → j < a → get_elem? h j ≡ some n → IsDeeper h i n.depth
  pub deep : (n : AstNode) → get_elem? h a ≡ some n → AreDeep h n.depth i a
  pub all :
      (j : ℕ) (n : AstNode)
      → a ≤ j
      → get_elem? h j ≡ some n
      → n.parent ≡ some i
      → (k : ℕ) × (get_elem? cs k ≡ some j)
  pub children : All (IsChild h i) cs
  pub rising : (low : ℕ) × Ascending low cs (length h)
  pub least : (k j : ℕ) → get_elem? cs k ≡ some j → a ≤ j

module _ (h : Heap) (x : Indented h) (i : ℕ) (m : AstNode) (here : get_elem? h i ≡ some m) where
  -- Without further children the nodes below `i` end.
  pub rest-IsEnd : (a : ℕ) → IsRest h i a [] → IsEnd h i a
  rest-IsEnd a r = record {
    after = r.after;
    inside = r.inside;
    short = r.short;
    ends = elim (Bool-cases (ltb a (length h))) [
      | inr out ↦ inl (ground (arith, r.short))
      | inl lt ↦
          let (n, at) = get_elem?-below h a (ground arith) in
          let not_deeper : IsDeeper h i n.depth → ⊥ = λ deeper.
            let up = parent-is h x i a m n here at r.after (r.deep n at) deeper in
            let (k, none_there) = r.all a n (omega arith) at up in cc in
          inr (
            λ is_root. not_deeper (inl is_root),
            λ m' n' e f. elim (Bool-cases (ltb m'.depth n'.depth)) [
              | inl deeper ↦
                  let same : n' ≡ n = cc in
                  absurd
                    (not_deeper (inr (m', e, ground (arith, ap (λ (y : AstNode). y.depth) same))))
              | inr shallow ↦ ground arith
            ],
          )
    ];
  }

  module _ (a : ℕ) (c : Ptr) (cs : List Ptr) (r : IsRest h i a (c ∷ cs)) where
    -- The first child stands at the next place.
    pub first-place : a ≡ c
    first-place =
        let (k, at, up) = r.children.0 in
        let le : a ≤ c = r.least 0 c refl in
        let near = child-IsNearest h c i k x at up in
        elim (Bool-cases (ltb a c)) [
          | inr not_less ↦ ground (arith, le)
          | inl less ↦
              let lt : a < c = ground arith in
              let (n, there) = get_elem?-below h a (omega (arith, lt, get_elem?-lt h c k at)) in
              let le' : k.depth ≤ n.depth = near.between a n r.after lt there in
              let deeper : IsDeeper h i n.depth = elim near.above [
                | inl is_root ↦ inl is_root
                | inr (q, e, above) ↦ inr (q, e, omega (arith, above, le'))
              ] in
              let up' = parent-is h x i a m n here there r.after (r.deep n there) deeper in
              let (j, listed) = r.all a n (omega arith) there up' in
              absurd (omega (arith, lt, first-least j a listed))
        ]
      where
        first-least : (j b : ℕ) → get_elem? (c ∷ cs) j ≡ some b → c ≤ b
        first-least zero b e = ground (arith, e)
        first-least (suc j) b e =
            omega (arith, Ascending-get_elem? c (length h) cs j b r.rising.1.1 e)

module _ (h : Heap) (x : Indented h) (i c e : ℕ) (cs : List Ptr) (r : IsRest h i c (c ∷ cs))
    (end : IsEnd h c e) where
  child : AstNode
  child = r.children.0.0

  child-at : get_elem? h c ≡ some child
  unfolding child
  child-at = r.children.0.1

  near_child : IsNearest h c child.depth i
  unfolding child
  near_child = child-IsNearest h c i child x child-at r.children.0.2

  -- What is deeper than the child at `c` is deeper by its depth.
  deeper-lt : (d : ℕ) → IsDeeper h c d → child.depth < d
  deeper-lt d (inl zero_here) = absurd (omega (arith, zero_here, r.after))
  deeper-lt d (inr (k, at, less)) =
      let same : k ≡ child = cc (child-at) in
      omega (arith, less, ap (λ (y : AstNode). y.depth) same)

  above-IsDeeper : (d : ℕ) → child.depth ≤ d → IsDeeper h i d
  above-IsDeeper d le = elim near_child.above [
    | inl is_root ↦ inl is_root
    | inr (q, at, above) ↦ inr (q, at, omega (arith, above, le))
  ]

  same-depth : (n : AstNode) (j : ℕ) → j ≡ c → get_elem? h j ≡ some n → n.depth ≡ child.depth
  same-depth n j is at = let same : n ≡ child = cc (child-at) in ap (λ (y : AstNode). y.depth) same

  end-le : (n : AstNode) → get_elem? h e ≡ some n → n.depth ≤ child.depth
  end-le n at = elim end.ends [
    | inl last ↦ absurd (omega (arith, last, get_elem?-lt h e n at))
    | inr (not_root, le) ↦ le child n child-at at
  ]

  -- A place before, at or behind the child.
  by_place : (P : ℕ → Type 0) (j : ℕ) → (j < c → P j) → (j ≡ c → P j) → (c < j → P j) → P j
  by_place P j before at behind = elim (Bool-cases (ltb j c)) [
    | inl lt ↦ before (ground arith)
    | inr not_lt ↦ elim (Bool-cases (ltb c j)) [
      | inl gt ↦ behind (ground arith)
      | inr not_gt ↦ at (ground arith)
    ]
  ]

  rest-inside :
      (j : ℕ) (n : AstNode) → i < j → j < e → get_elem? h j ≡ some n → IsDeeper h i n.depth
  rest-inside j n lt lt' at =
      by_place (λ p. IsDeeper h i n.depth) j (λ before. r.inside j n lt before at)
        (λ same. above-IsDeeper n.depth (omega (arith, same-depth n j same at)))
        (λ behind.
          above-IsDeeper n.depth (omega (arith, deeper-lt n.depth (end.inside j n behind lt' at))))

  rest-deep : (n : AstNode) → get_elem? h e ≡ some n → AreDeep h n.depth i e
  rest-deep n there j k lt lt' at =
      let le = end-le n there in
      by_place (λ p. n.depth ≤ k.depth) j
        (λ before. omega (arith, le, r.deep child child-at j k lt before at))
        (λ same. omega (arith, le, same-depth k j same at))
        (λ behind. omega (arith, le, deeper-lt k.depth (end.inside j k behind lt' at)))

  rest-all :
      (j : ℕ) (n : AstNode)
      → e ≤ j
      → get_elem? h j ≡ some n
      → n.parent ≡ some i
      → (k : ℕ) × (get_elem? cs k ≡ some j)
  rest-all j n le at up = from (r.all j n (omega (arith, le, end.after)) at up)
    where
      from : (k : ℕ) × (get_elem? (c ∷ cs) k ≡ some j) → (k : ℕ) × (get_elem? cs k ≡ some j)
      from (zero, first) = absurd (ground (arith, first, le, end.after))
      from (suc k, later) = (k, later)

  rest-least : (k j : ℕ) → get_elem? cs k ≡ some j → e ≤ j
  rest-least k j listed =
      let behind = Ascending-get_elem? c (length h) cs k j r.rising.1.1 listed in
      let (n, at, up) = All-IsChild h i cs k j r.children.1 listed in
      let near = child-IsNearest h j i n x at up in
      let le = near.between c child r.after behind child-at in
      elim (Bool-cases (ltb j e)) [
        | inr out ↦ ground arith
        | inl lt ↦
            let deeper = deeper-lt n.depth (end.inside j n behind (ground arith) at) in
            absurd (omega (arith, deeper, le))
      ]

  pub next-IsRest : IsRest h i e cs
  next-IsRest = record {
    after = omega (arith, r.after, end.after);
    short = end.short;
    inside = rest-inside;
    deep = rest-deep;
    all = rest-all;
    children = r.children.1;
    rising = (c, r.rising.1.1);
    least = rest-least;
  }
