-- ===== src/Parser/Links.antt =====
-- The links between the nodes on the heap.
use mathlib.Core.Path.{subst}
use c_pug.Common.{
  ℕ, ◌<◌, ◌≡◌, refl, sym, ap, ◌∙◌, Bool, true, false, Option, none, some, List, [], ◌∷◌, ◌==◌,
  arith, length, if◌then◌else◌, Bool-cases, inl, inr, ◌⊎◌, All, ==_iff, get_elem?, put_elem,
  get_elem?-lt, All-put_elem,
}
use c_pug.Ast.{Heap, set_parent, adopt}
use c_pug.Glib.{Glib}
use c_pug.Parser.Context.{Memory}
use c_pug.Parser.Tree.{attach}
use c_pug.Tokens.{Ptr, AstNode}
use c_pug.Parser.Places.{get_elem?-attach, adopted}

-- A node at `i` of the given depth hangs under a node that stands before it on the heap and, unless
-- that one has no parent itself, is less deep.
abbrev pub UpOk : Heap → ℕ → ℕ → Option Ptr → Type 0
UpOk h i depth none = Unit {0}
UpOk h i depth (some q) =
    (m : AstNode) × (get_elem? h q ≡ some m) × (q < i) × ((m.parent ≡ none) ⊎ (m.depth < depth))

-- The child at `c` names `i` for its parent.
abbrev pub IsChild : Heap → ℕ → Ptr → Type 0
IsChild h i c = (k : AstNode) × (get_elem? h c ≡ some k) × (k.parent ≡ some i)

pub record Links (h : Heap) : Type 0 where
  pub up : (i : ℕ) (n : AstNode) → get_elem? h i ≡ some n → UpOk h i n.depth n.parent
  pub down : (i : ℕ) (n : AstNode) → get_elem? h i ≡ some n → All (IsChild h i) n.children

-- A child stands behind its parent.
pub child-lt : (h : Heap) (links : Links h) (p c : ℕ) → IsChild h p c → p < c
child-lt h links p c (k, e, is) =
    let (m, at, lt, _) : UpOk h c k.depth (some p) = rw is at (links.up c k e) in lt

-- The nodes are still there, with their depths and parents.
pub record Keeps (h h' : Heap) : Type 0 where
  pub at :
      (i : ℕ) (n : AstNode)
      → get_elem? h i ≡ some n
      → (n' : AstNode) × (get_elem? h' i ≡ some n') × (n'.parent ≡ n.parent) × (n'.depth ≡ n.depth)

UpOk-Keeps :
    {h h' : Heap} (i depth : ℕ) (o : Option Ptr) → Keeps h h' → UpOk h i depth o → UpOk h' i depth o
UpOk-Keeps i depth none k u = tt
UpOk-Keeps i depth (some q) k (m, e, lt, above) =
    let (m', e', same_parent, same_depth) = k.at q m e in (m', e', lt, ground arith)

All-Keeps :
    {h h' : Heap} (i : ℕ) (cs : List Ptr)
    → Keeps h h'
    → All (IsChild h i) cs
    → All (IsChild h' i) cs
All-Keeps i [] k a = tt
All-Keeps i (c ∷ cs) k ((n, e, is), a) =
    let (n', e', same_parent, same_depth) = k.at c n e in
    ((n', e', same_parent ∙ is), All-Keeps i cs k a)

pub adopt-keeps :
    (ok : Bool) (c : Ptr) (m : AstNode)
    → ((adopt ok c m).0.parent ≡ m.parent)
      × ((adopt ok c m).0.depth ≡ m.depth)
      × ((adopt ok c m).0.children
          ≡ (if (adopt ok c m).1 then put_elem m.children m.children_count c else m.children))
unfolding adopt
adopt-keeps ok c m = ground arith

module _ (g : Glib) (mem : Memory) (h : Heap) (node m : AstNode) (p : ℕ)
    (e : get_elem? h p ≡ some m) where
  -- The node at the place of the parent is the parent.
  at_parent : (i : ℕ) (n : AstNode) → (i == p) ≡ true → get_elem? h i ≡ some n → m ≡ n
  at_parent i n here q = ground arith

  pub attach-new :
      get_elem? (attach g mem h node p) (length h)
      ≡ some (if (adopted mem h m).1 then set_parent p node else node)
  attach-new = rw (get_elem?-attach g mem h node m p (length h) e) (ground arith)

  pub attach-parent : get_elem? (attach g mem h node p) p ≡ some (adopted mem h m).0
  attach-parent = rw (get_elem?-attach g mem h node m p p e) (ground (arith, get_elem?-lt h p m e))

  pub attach-other :
      (i : ℕ)
      → (i == p) ≡ false
      → i < length h
      → get_elem? (attach g mem h node p) i ≡ get_elem? h i
  attach-other i other lt = rw (get_elem?-attach g mem h node m p i e) (ground arith)

  pub attach-Keeps : Keeps h (attach g mem h node p)
  attach-Keeps = record {
    at = λ i n q. elim (Bool-cases (i == p)) [
      | inl here ↦
          let kept = adopt-keeps (mem.grow_children (length h)) (length h) m in
          let is = at_parent i n here q in
          (
            (adopted mem h m).0,
            subst (λ j. get_elem? (attach g mem h node p) j ≡ some (adopted mem h m).0)
                (sym ((==_iff i p).0 here)) attach-parent,
            kept.0 ∙ ap (λ (k : AstNode). k.parent) is,
            kept.1 ∙ ap (λ (k : AstNode). k.depth) is,
          )
      | inr other ↦ (n, attach-other i other (get_elem?-lt h i n q) ∙ q, refl, refl)
    ];
  }

  -- What stands at a place of the heap after the add.
  pub attach-cases :
      (i : ℕ) (n : AstNode)
      → get_elem? (attach g mem h node p) i ≡ some n
      → ((i ≡ length h) × (n ≡ (if (adopted mem h m).1 then set_parent p node else node)))
        ⊎ ((i ≡ p) × (n ≡ (adopted mem h m).0))
        ⊎ (get_elem? h i ≡ some n)
  attach-cases i n q =
      let q' = (rw (get_elem?-attach g mem h node m p i e) at q) in
      elim (Bool-cases (i == length h)) [
        | inl last ↦ inl ((==_iff i (length h)).0 last, ground arith)
        | inr inner ↦ elim (Bool-cases (i == p)) [
          | inl here ↦ inr (inl ((==_iff i p).0 here, ground arith))
          | inr other ↦ inr (inr (ground arith))
        ]
      ]

  module _ (links : Links h) (fresh : node.parent ≡ none) (childless : node.children ≡ [])
      (above : (m.parent ≡ none) ⊎ (m.depth < node.depth)) where
    new_up :
        (b : Bool)
        → UpOk
            (attach g mem h node p)
            (length h)
            (if b then set_parent p node else node).depth
            (if b then set_parent p node else node).parent
    new_up true =
        let kept = adopt-keeps (mem.grow_children (length h)) (length h) m in
        ((adopted mem h m).0, attach-parent, get_elem?-lt h p m e, ground arith)
    new_up false = rw fresh tt

    new_down :
        (b : Bool)
        → All
            (IsChild (attach g mem h node p) (length h))
            (if b then set_parent p node else node).children
    new_down true = rw childless tt
    new_down false = rw childless tt

    parent_up : UpOk (attach g mem h node p) p (adopted mem h m).0.depth (adopted mem h m).0.parent
    parent_up =
        let kept = adopt-keeps (mem.grow_children (length h)) (length h) m in
        rw (kept.0, kept.1) (UpOk-Keeps p m.depth m.parent attach-Keeps (links.up p m e))

    parent_down : All (IsChild (attach g mem h node p) p) (adopted mem h m).0.children
    parent_down =
        let kept = adopt-keeps (mem.grow_children (length h)) (length h) m in
        let old = All-Keeps p m.children attach-Keeps (links.down p m e) in
        rw kept.2 (elim (Bool-cases (adopted mem h m).1) [
          | inl stored ↦ rw stored (
              All-put_elem (IsChild (attach g mem h node p) p) m.children m.children_count
                (length h) (set_parent p node, attach-new ∙ (rw stored), refl) old)
          | inr lost ↦ rw lost old
        ])

    -- On a heap with sound links, the add of a node without parent and
    -- children below the node `m` at `p`, where `m` has no parent or is less deep than the new
    -- node, leaves the links sound.
    pub attach-Links : Links (attach g mem h node p)
    attach-Links = record {
      up = λ i n q. elim (attach-cases i n q) [
        | inl (last, is) ↦ rw (last, is) (new_up (adopted mem h m).1)
        | inr (inl (here, is)) ↦ rw (here, is) parent_up
        | inr (inr old) ↦ UpOk-Keeps i n.depth n.parent attach-Keeps (links.up i n old)
      ];
      down = λ i n q. elim (attach-cases i n q) [
        | inl (last, is) ↦ rw (last, is) (new_down (adopted mem h m).1)
        | inr (inl (here, is)) ↦ rw (here, is) parent_down
        | inr (inr old) ↦ All-Keeps i n.children attach-Keeps (links.down i n old)
      ];
    }
