-- ===== src/Parser/Indented.antt =====
-- The parent of each node is the nearest node before it that is less deep.
pub mod Tokens
pub mod Heads
pub mod Added
pub mod Rounds
pub mod Node
pub mod Open
pub mod Loop
pub mod Document
use mathlib.Core.Path.{subst}
use c_pug.Common.{
  ℕ, zero, suc, ◌+◌, ◌≤◌, ◌^◌, ◌<◌, ◌≡◌, refl, sym, ap, ◌∙◌, Bool, true, false, none, some, [], ◌∷◌,
  arith, length, if◌then◌else◌, leb, Bool-cases, Option-cases, inl, inr, ◌⊎◌, get_elem?,
  get_elem?-below, get_elem?-lt,
}
use c_pug.Ast.{Heap, set_parent, adopt}
use c_pug.Common.Run.{Run, ok}
use c_pug.Glib.{Glib}
use c_pug.Parser.Context.{Memory}
use c_pug.Parser.Places.{adopted}
use c_pug.Parser.Links.{Keeps, attach-Keeps, attach-new, attach-cases}
use c_pug.Parser.Tree.{climb, attach}
use c_pug.Tokens.{Ptr, AstNode}

-- The nodes behind `q` and before `i` have the depth at least.
abbrev pub AreDeep : Heap → ℕ → Ptr → ℕ → Type 0
AreDeep h depth q i =
    (j : ℕ) (n : AstNode) → q < j → j < i → get_elem? h j ≡ some n → depth ≤ n.depth

-- Of the nodes before `i` that are less deep, `q` is the last; it is the root if there is none.
pub record IsNearest (h : Heap) (i depth : ℕ) (q : Ptr) : Type 0 where
  pub behind : q < i
  pub between : AreDeep h depth q i
  pub above : (q ≡ 0) ⊎ ((k : AstNode) × (get_elem? h q ≡ some k) × (k.depth < depth))

-- The root is the first node and has no parent; each other node has the nearest for its parent.
pub record Indented (h : Heap) : Type 0 where
  pub root : (r : AstNode) × (get_elem? h 0 ≡ some r) × (r.parent ≡ none)
  pub nearest :
      (i : ℕ) (n : AstNode)
      → get_elem? h i ≡ some n
      → 0 < i
      → (q : Ptr) × (n.parent ≡ some q) × IsNearest h i n.depth q

pub single-Indented : (root : AstNode) → root.parent ≡ none → Indented (root ∷ [])
single-Indented root top = record {
  root = (root, refl, top);
  nearest = λ i n e lt. absurd (omega (arith, get_elem?-lt (root ∷ []) i n e));
}

-- A node without a parent is the root.
top-root :
    (h : Heap) (p : ℕ) (m : AstNode) → Indented h → get_elem? h p ≡ some m → m.parent ≡ none → p ≡ 0
top-root h zero m x e top = refl
top-root h (suc p) m x e top = let (q, up, _) = x.nearest (suc p) m e (omega arith) in cc

pub child-IsNearest :
    (h : Heap) (p q : ℕ) (m : AstNode)
    → Indented h
    → get_elem? h p ≡ some m
    → m.parent ≡ some q
    → IsNearest h p m.depth q
child-IsNearest h zero q m x e up = let (r, at, top) = x.root in cc
child-IsNearest h (suc p) q m x e up =
    let (q', up', near) = x.nearest (suc p) m e (omega arith) in
    let same : q' ≡ q = cc in subst (λ r. IsNearest h (suc p) m.depth r) same near

-- One step of the climb, from a node at least as deep to its parent.
step-IsNearest :
    (h : Heap) (p q r depth : ℕ) (m : AstNode)
    → get_elem? h p ≡ some m
    → depth ≤ m.depth
    → IsNearest h p m.depth q
    → IsNearest h (suc q) depth r
    → IsNearest h (suc p) depth r
step-IsNearest h p q r depth m e le near up = record {
  behind = omega (arith, near.behind, up.behind);
  between = λ j n lt lt' at. between j n lt lt' at;
  above = up.above;
}
  where
    between : AreDeep h depth r (suc p)
    between j n lt lt' at = elim (Bool-cases (leb j q)) [
      | inl inner ↦ up.between j n lt (ground arith) at
      | inr outer ↦ elim (Bool-cases (leb p j)) [
        | inl last ↦ ground arith
        | inr inside ↦
            let deep = near.between j n (ground arith) (ground arith) at in omega (arith, deep, le)
      ]
    ]

pub climb-IsNearest :
    (fuel : ℕ) (h : Heap) (depth p : ℕ) (m : AstNode)
    → Indented h
    → p < fuel
    → get_elem? h p ≡ some m
    → (q : Ptr) × (k : AstNode) × (climb fuel h depth p ≡ ok q)
      × (get_elem? h q ≡ some k)
      × IsNearest h (suc p) depth q
unfolding climb
climb-IsNearest zero h depth p m x lt e = absurd (omega arith)
climb-IsNearest (suc fuel) h depth p m x lt e = elim (Option-cases m.parent) [
  | inl top ↦ (
    p,
    m,
    ground arith,
    e,
    record {
      behind = omega arith;
      between = λ j n lt lt' at. absurd (omega arith);
      above = inl (top-root h p m x e top);
    },
  )
  | inr (q, up) ↦
      let near = child-IsNearest h p q m x e up in
      elim (Bool-cases (leb depth m.depth)) [
        | inl deeper ↦
            let (k, there) =
              get_elem?-below h q (omega (arith, near.behind, get_elem?-lt h p m e)) in
            let (r, n, found, at, up') =
              climb-IsNearest fuel h depth q k x (omega (arith, near.behind)) there in
            (r, n, ground arith, at, step-IsNearest h p q r depth m e (ground arith) near up')
        | inr less ↦ (
          p,
          m,
          ground arith,
          e,
          record {
            behind = omega arith;
            between = λ j n lt lt' at. absurd (omega arith);
            above = inr (m, e, ground arith);
          },
        )
      ]
]
