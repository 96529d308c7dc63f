-- ===== src/Parser/Indented/Added.antt =====
-- An add to an indented tree.
use mathlib.Core.Path.{subst}
use c_pug.Common.{
  ℕ, ◌≤◌, ◌<◌, ◌≡◌, refl, sym, ap, ◌∙◌, true, some, arith, length, inl, inr, get_elem?,
  get_elem?-below, get_elem?-lt,
}
use c_pug.Ast.{Heap, set_parent, adopt}
use c_pug.Glib.{Glib}
use c_pug.Parser.Context.{Memory}
use c_pug.Parser.Links.{Keeps, attach-Keeps, attach-new, attach-cases}
use c_pug.Parser.Tree.{attach}
use c_pug.Tokens.{Ptr, AstNode}
use c_pug.Parser.Indented.{AreDeep, IsNearest, Indented}

-- What stands at an old place has the depth and the parent that it had.
pub Keeps-back :
    {h h' : Heap} (i : ℕ) (n' : AstNode)
    → Keeps h h'
    → i < length h
    → get_elem? h' i ≡ some n'
    → (n : AstNode) × (get_elem? h i ≡ some n) × (n'.parent ≡ n.parent) × (n'.depth ≡ n.depth)
Keeps-back {h} i n' k lt e =
    let (n, at) = get_elem?-below h i lt in
    let (n'', e', up, deep) = k.at i n at in
    let same : n'' ≡ n' = cc in
    (
      n,
      at,
      sym (ap (λ (m : AstNode). m.parent) same) ∙ up,
      sym (ap (λ (m : AstNode). m.depth) same) ∙ deep,
    )

pub AreDeep-Keeps :
    {h h' : Heap} (i depth : ℕ) (q : Ptr)
    → Keeps h h'
    → i ≤ length h
    → AreDeep h depth q i
    → AreDeep h' depth q i
AreDeep-Keeps i depth q k le deep j n lt lt' e =
    let (m, at, up, same) = Keeps-back j n k (omega (arith, le, lt')) e in
    omega (arith, same, deep j m lt lt' at)

IsNearest-Keeps :
    {h h' : Heap} (i depth : ℕ) (q : Ptr)
    → Keeps h h'
    → i ≤ length h
    → IsNearest h i depth q
    → IsNearest h' i depth q
IsNearest-Keeps i depth q k le near = record {
  behind = near.behind;
  between = AreDeep-Keeps i depth q k le near.between;
  above = elim near.above [
    | inl root ↦ inl root
    | inr (m, e, less) ↦
        let (n, e', up, same) = k.at q m e in inr (n, e', omega (arith, same, less))
  ];
}

stored-adopt : (c : Ptr) (m : AstNode) → (adopt true c m).1 ≡ true
unfolding adopt
stored-adopt c m = ground arith

module _ (g : Glib) (mem : Memory) (h : Heap) (node m : AstNode) (p : ℕ)
    (granted : (i : ℕ) → mem.grow_children i ≡ true) (e : get_elem? h p ≡ some m) where
  pub attach-last : get_elem? (attach g mem h node p) (length h) ≡ some (set_parent p node)
  attach-last =
      attach-new g mem h node m p e ∙ rw (granted (length h), stored-adopt (length h) m) refl

  module _ (x : Indented h) (near : IsNearest h (length h) node.depth p) where
    last-IsNearest :
        (n : AstNode)
        → get_elem? (attach g mem h node p) (length h) ≡ some n
        → (q : Ptr) × (n.parent ≡ some q) × IsNearest (attach g mem h node p) (length h) n.depth q
    last-IsNearest n at =
        let same : set_parent p node ≡ n = cc (attach-last) in
        (
          p,
          sym (ap (λ (k : AstNode). k.parent) same),
          subst (λ d. IsNearest (attach g mem h node p) (length h) d p)
              (ap (λ (k : AstNode). k.depth) same)
              (IsNearest-Keeps (length h) node.depth p (attach-Keeps g mem h node m p e)
                (omega arith) near),
        )

    old-IsNearest :
        (i : ℕ) (n : AstNode)
        → get_elem? (attach g mem h node p) i ≡ some n
        → 0 < i
        → i < length h
        → (q : Ptr) × (n.parent ≡ some q) × IsNearest (attach g mem h node p) i n.depth q
    old-IsNearest i n at some_parent lt =
        let k = attach-Keeps g mem h node m p e in
        let (n', at', up, deep) = Keeps-back i n k lt at in
        let (q, up', near') = x.nearest i n' at' some_parent in
        (
          q,
          up ∙ up',
          subst (λ d. IsNearest (attach g mem h node p) i d q) (sym deep)
              (IsNearest-Keeps i n'.depth q k (omega (arith, lt)) near'),
        )

    -- Where the parent is the nearest node, an add keeps the tree indented.
    pub attach-Indented : Indented (attach g mem h node p)
    attach-Indented = record {
      root =
          let (r, at, top) = x.root in
          let (r', at', up, deep) = (attach-Keeps g mem h node m p e).at 0 r at in
          (r', at', up ∙ top);
      nearest = λ i n at lt. elim (attach-cases g mem h node m p e i n at) [
        | inl (last, is) ↦
            subst
              (λ j. (q : Ptr) × (n.parent ≡ some q) × IsNearest (attach g mem h node p) j n.depth q)
              (sym last) (last-IsNearest n (rw last at at))
        | inr (inl (here, is)) ↦ old-IsNearest i n at lt (omega (arith, here, get_elem?-lt h p m e))
        | inr (inr old) ↦ old-IsNearest i n at lt (get_elem?-lt h i n old)
      ];
    }
