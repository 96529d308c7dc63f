-- ===== src/Parser/Listed.antt =====
-- A node that names a parent is one of its children.
use mathlib.Core.Path.{subst}
use c_pug.Common.{
  ℕ, zero, suc, ◌+◌, ◌≤◌, ◌^◌, ◌≡◌, refl, sym, ap, ◌∙◌, Bool, true, false, none, some, [], ◌∷◌,
  ◌++◌, ◌==◌, ==_iff, arith, length, if◌then◌else◌, Bool-cases, inl, inr, get_elem?, get_elem?-lt,
  get_elem?-append, get_elem?-append_length,
}
use c_pug.Ast.{Heap, set_parent}
use c_pug.Glib.{Glib}
use c_pug.Parser.Context.{Memory}
use c_pug.Parser.Links.{attach-cases, attach-parent, attach-other, adopt-keeps}
use c_pug.Parser.Order.{Ordered, Ascending-length, adopt-children}
use c_pug.Parser.Places.{adopted}
use c_pug.Parser.Tree.{attach}
use c_pug.Tokens.{Ptr, AstNode}

-- The node at `q` has the node at `i` for a child.
abbrev pub IsListed : Heap → Ptr → ℕ → Type 0
IsListed h q i =
    (k : AstNode) × (j : ℕ) × (get_elem? h q ≡ some k) × (get_elem? k.children j ≡ some i)

pub record Listed (h : Heap) : Type 0 where
  pub listed :
      (i : ℕ) (n : AstNode) (q : Ptr) → get_elem? h i ≡ some n → n.parent ≡ some q → IsListed h q i

pub single-Listed : (root : AstNode) → root.parent ≡ none → Listed (root ∷ [])
single-Listed root top = record { listed = λ i n q e up. single i n q e up }
  where
    single :
        (i : ℕ) (n : AstNode) (q : Ptr)
        → get_elem? (root ∷ []) i ≡ some n
        → n.parent ≡ some q
        → IsListed (root ∷ []) q i
    single zero n q e up = absurd (cc)
    single (suc i) n q e up = absurd (cc)

module _ (g : Glib) (mem : Memory) (h : Heap) (node m : AstNode) (p : ℕ)
    (e : get_elem? h p ≡ some m) (ordered : Ordered h) (small : length h + 1 ≤ 2 ^ 32) where
  -- The children of the parent behind the add.
  parent-children :
      (adopted mem h m).0.children
      ≡ (if (adopted mem h m).1 then m.children ++ length h ∷ [] else m.children)
  parent-children =
      let (count, a) = ordered.rising p m e in
      (adopt-children (mem.grow_children (length h)) (length h) m count
        (omega (arith, small, Ascending-length p (length h) m.children a))).0

  grown-children :
      (b : Bool) (j i : ℕ)
      → get_elem? m.children j ≡ some i
      → get_elem? (if b then m.children ++ length h ∷ [] else m.children) j ≡ some i
  grown-children true j i at =
      get_elem?-append m.children (length h ∷ []) j (get_elem?-lt m.children j i at) ∙ at
  grown-children false j i at = at

  -- The children of a node are still its children.
  still-IsListed : (q : Ptr) (i : ℕ) → IsListed h q i → IsListed (attach g mem h node p) q i
  still-IsListed q i (k, j, there, at) = elim (Bool-cases (q == p)) [
    | inl here ↦
        let is : q ≡ p = (==_iff q p).0 here in
        let same : k ≡ m = cc (is, there, e) in
        let at' : get_elem? m.children j ≡ some i = rw same at at in
        (
          (adopted mem h m).0,
          j,
          rw is (attach-parent g mem h node m p e),
          rw parent-children (grown-children (adopted mem h m).1 j i at'),
        )
    | inr other ↦
        (k, j, attach-other g mem h node m p e q other (get_elem?-lt h q k there) ∙ there, at)
  ]

  module _ (fresh : node.parent ≡ none) (x : Listed h) where
    new-IsListed :
        (b : Bool) (q : Ptr)
        → (adopted mem h m).1 ≡ b
        → (if b then set_parent p node else node).parent ≡ some q
        → IsListed (attach g mem h node p) q (length h)
    new-IsListed true q stored up =
        let is : q ≡ p = cc in
        (
          (adopted mem h m).0,
          length m.children,
          rw is (attach-parent g mem h node m p e),
          rw (parent-children, stored) (get_elem?-append_length m.children [] (length h)),
        )
    new-IsListed false q lost up = absurd (cc)

    pub attach-Listed : Listed (attach g mem h node p)
    attach-Listed = record {
      listed = λ i n q at up. elim (attach-cases g mem h node m p e i n at) [
        | inl (last, is) ↦
            subst (λ j. IsListed (attach g mem h node p) q j) (sym last)
              (new-IsListed (adopted mem h m).1 q refl (rw is at up))
        | inr (inl (here, is)) ↦
            let same : n.parent ≡ m.parent = ap (λ (k : AstNode). k.parent) is ∙ parent_kept in
            still-IsListed q i (x.listed i m q (rw here e) (sym same ∙ up))
        | inr (inr old) ↦ still-IsListed q i (x.listed i n q old up)
      ];
    }
      where
        parent_kept : (adopted mem h m).0.parent ≡ m.parent
        parent_kept = (adopt-keeps (mem.grow_children (length h)) (length h) m).0
