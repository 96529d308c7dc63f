-- ===== src/Parser/Order.antt =====
-- The children of a node stand in the order in which they were parsed, and their count is right.
use c_pug.Common.{
  ℕ, zero, suc, ◌+◌, ◌^◌, ◌≤◌, ◌<◌, ◌≡◌, refl, sym, ap, ◌∙◌, Bool, true, false, some, List, [], ◌∷◌,
  ◌++◌, ◌==◌, arith, length, length-append, get_elem?, put_elem-length, take_all, times,
  if◌then◌else◌, Bool-cases, Option-cases, inl, inr,
}
use c_pug.Ast.{Heap, update_node, set_parent, adopt, ast_node_add_child}
use c_pug.Glib.{Glib}
use c_pug.Parser.Context.{Memory}
use c_pug.Parser.Links.{attach-cases}
use c_pug.Parser.Places.{adopted}
use c_pug.Parser.Release.{Distinct}
use c_pug.Parser.Release.Once.{ChildrenDistinct}
use c_pug.Parser.Tree.{attach}
use c_pug.Tokens.{Ptr, AstNode}

-- The pointers rise, above `low` and below `high`.
abbrev pub Ascending : ℕ → List Ptr → ℕ → Type 0
Ascending low [] high = low < high
Ascending low (c ∷ cs) high = (low < c) × Ascending c cs high

-- The children of each node rise, behind the node itself, and `children_count` is their number.
pub record Ordered (h : Heap) : Type 0 where
  pub rising :
      (i : ℕ) (n : AstNode)
      → get_elem? h i ≡ some n
      → (n.children_count ≡ length n.children) × Ascending i n.children (length h)

pub Ascending-length :
    (low high : ℕ) (cs : List Ptr) → Ascending low cs high → low + length cs < high
Ascending-length low high [] a = omega (arith, a)
Ascending-length low high (c ∷ cs) (lt, a) = omega (arith, lt, Ascending-length c high cs a)

later-Ascending :
    (low high : ℕ) (cs : List Ptr) → Ascending low cs high → Ascending low cs (high + 1)
later-Ascending low high [] a = omega (arith, a)
later-Ascending low high (c ∷ cs) (lt, a) = (lt, later-Ascending c high cs a)

Ascending-append :
    (low high : ℕ) (cs : List Ptr)
    → Ascending low cs high
    → Ascending low (cs ++ high ∷ []) (high + 1)
Ascending-append low high [] a = (a, omega arith)
Ascending-append low high (c ∷ cs) (lt, a) = (lt, Ascending-append c high cs a)

new-Ascending :
    (x low high : ℕ) (cs : List Ptr) → x ≤ low → Ascending low cs high → times ◌==◌ x cs ≡ 0
new-Ascending x low high [] le a = refl
new-Ascending x low high (c ∷ cs) le (lt, a) =
    ground (arith, le, lt, new-Ascending x c high cs (omega (arith, le, lt)) a)

Ascending-Distinct : (low high : ℕ) (cs : List Ptr) → Ascending low cs high → Distinct cs
Ascending-Distinct low high [] a = tt
Ascending-Distinct low high (c ∷ cs) (lt, a) =
    (new-Ascending c c high cs (omega arith) a, Ascending-Distinct c high cs a)

pub Ordered-ChildrenDistinct : (h : Heap) → Ordered h → ChildrenDistinct h
Ordered-ChildrenDistinct h o i n e =
    let (count, a) = o.rising i n e in
    rw (take_all n.children_count n.children (omega (arith, count)))
      (Ascending-Distinct i (length h) n.children a)

pub single-Ordered :
    (root : AstNode) → root.children ≡ [] → root.children_count ≡ 0 → Ordered (root ∷ [])
single-Ordered root none_yet zero_yet = record { rising = λ i n e. single i n e }
  where
    single :
        (i : ℕ) (n : AstNode)
        → get_elem? (root ∷ []) i ≡ some n
        → (n.children_count ≡ length n.children) × Ascending i n.children 1
    single zero n e =
        let same : root ≡ n = cc in rw (sym same, none_yet, zero_yet) (refl, omega arith)
    single (suc i) n e = cc

length-update_node :
    (h : Heap) (p : Ptr) (f : AstNode → AstNode) → length (update_node h p f) ≡ length h
length-update_node [] p f = refl
length-update_node (n ∷ h) zero f = refl
length-update_node (n ∷ h) (suc p) f = ap suc (length-update_node h p f)

length-add_child :
    (ok : Bool) (h : Heap) (p c : Ptr)
    → length (ast_node_add_child ok h (some p) (some c)) ≡ length h
unfolding ast_node_add_child
length-add_child ok h p c = elim (Option-cases (get_elem? h p)) [
  | inl e ↦ rw (e, ast_node_add_child) refl
  | inr (m, e) ↦
      let r = adopt ok c m in
      elim (Bool-cases r.1) [
        | inl stored ↦
            rw (e, ast_node_add_child, stored)
              (length-update_node (update_node h p (λ _. r.0)) c (set_parent p)
                ∙ length-update_node h p (λ _. r.0))
        | inr lost ↦ rw (e, ast_node_add_child, lost) (length-update_node h p (λ _. r.0))
      ]
]

pub length-attach :
    (g : Glib) (mem : Memory) (h : Heap) (node : AstNode) (p : Ptr)
    → length (attach g mem h node p) ≡ length h + 1
unfolding attach
length-attach g mem h node p =
    length-add_child _ (h ++ node ∷ []) p (length h) ∙ length-append h (node ∷ [])

-- What an add does to the children of the parent.
pub adopt-children :
    (ok : Bool) (c : Ptr) (m : AstNode)
    → m.children_count ≡ length m.children
    → length m.children + 1 < 2 ^ 32
    → ((adopt ok c m).0.children ≡ (if (adopt ok c m).1 then m.children ++ c ∷ [] else m.children))
      × ((adopt ok c m).0.children_count ≡ length (adopt ok c m).0.children)
unfolding adopt
adopt-children ok c m count small =
    ground (arith, put_elem-length m.children c, length-append m.children (c ∷ []))

module _ (g : Glib) (mem : Memory) (h : Heap) (node m : AstNode) (p : ℕ)
    (e : get_elem? h p ≡ some m) (ordered : Ordered h) (small : length h + 1 ≤ 2 ^ 32)
    (childless : node.children ≡ []) (countless : node.children_count ≡ 0) where
  parent-rising :
      ((adopted mem h m).0.children_count ≡ length (adopted mem h m).0.children)
      × Ascending p (adopted mem h m).0.children (length h + 1)
  parent-rising =
      let (count, a) = ordered.rising p m e in
      let (children, count') =
        adopt-children (mem.grow_children (length h)) (length h) m count
          (omega (arith, small, Ascending-length p (length h) m.children a)) in
      elim (Bool-cases (adopted mem h m).1) [
        | inl stored ↦ (count', rw (children, stored) (Ascending-append p (length h) m.children a))
        | inr lost ↦ (count', rw (children, lost) (later-Ascending p (length h) m.children a))
      ]

  new_rising :
      (b : Bool)
      → ((if b then set_parent p node else node).children_count
          ≡ length (if b then set_parent p node else node).children)
        × Ascending (length h) (if b then set_parent p node else node).children (length h + 1)
  new_rising true = rw (childless, countless) (refl, omega arith)
  new_rising false = rw (childless, countless) (refl, omega arith)

  -- On a heap of fewer than 2 ^ 32 nodes, on which the children of each node stand in the order in
  -- which they were parsed and `children_count` is their number, the add of a node without children
  -- below the node `m` at `p` leaves that so, whether the child is stored or lost.
  pub attach-Ordered : Ordered (attach g mem h node p)
  attach-Ordered = record {
    rising = λ i n q.
        rw (length-attach g mem h node p) (elim (attach-cases g mem h node m p e i n q) [
          | inl (last, is) ↦ rw (last, is) (new_rising (adopted mem h m).1)
          | inr (inl (here, is)) ↦ rw (here, is) parent-rising
          | inr (inr old) ↦
              let (count, a) = ordered.rising i n old in
              (count, later-Ascending i (length h) n.children a)
        ]);
  }
