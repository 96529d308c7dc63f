-- ===== src/Parser/Indented/Open.antt =====
-- The current parent of the context, and the nodes behind it.
use c_pug.Parser.Indented.Added.{Keeps-back, attach-last}
use c_pug.Common.{
  ℕ, suc, ◌≤◌, ◌<◌, ◌≡◌, ap, Bool, true, false, some, arith, length, if◌then◌else◌, leb, ltb,
  Bool-cases, inl, inr, ◌⊎◌, get_elem?,
}
use c_pug.Ast.{Heap, set_parent}
use c_pug.Glib.{Glib}
use c_pug.Parser.Context.{Memory, parser_get_current_token}
use c_pug.Parser.Indented.{AreDeep, IsNearest, Indented}
use c_pug.Parser.Links.{attach-Keeps}
use c_pug.Parser.Order.{length-attach}
use c_pug.Parser.Tree.{attach}
use c_pug.Tokens.{Token, Ptr, AstNode, ParserContext}

-- The current parent is a node, and the nodes behind it are at least as deep as the next token.
abbrev pub IsOpen : ParserContext → Heap → Type 0
IsOpen ctx h =
    (p : Ptr) × (ctx.current_parent ≡ some p)
    × (p < length h)
    × ((t : Token) → parser_get_current_token ctx ≡ some t → AreDeep h t.depth p (length h))

-- The nearest node before all the nodes behind `p`, which are deep, is the nearest up to `p`.
pub further-IsNearest :
    (h : Heap) (p q depth : ℕ)
    → p < length h
    → AreDeep h depth p (length h)
    → IsNearest h (suc p) depth q
    → IsNearest h (length h) depth q
further-IsNearest h p q depth lt deep near = record {
  behind = omega (arith, lt, near.behind);
  between = λ j n after before at. elim (Bool-cases (leb j p)) [
    | inl inner ↦ near.between j n after (ground arith) at
    | inr outer ↦ deep j n (ground arith) before at
  ];
  above = near.above;
}

module _ (g : Glib) (mem : Memory) (granted : (i : ℕ) → mem.grow_children i ≡ true) (h : Heap)
    (node k : AstNode) (q : Ptr) (e : get_elem? h q ≡ some k) (x : Indented h)
    (near : IsNearest h (length h) node.depth q) where
  -- A token that is not deeper than the node is not deeper than the nodes behind the parent.
  behind-AreDeep :
      (depth : ℕ)
      → depth ≤ node.depth
      → AreDeep (attach g mem h node q) depth q (length (attach g mem h node q))
  behind-AreDeep depth le j n after before at = elim (Bool-cases (ltb j (length h))) [
    | inl old ↦
        let (m, at', up, same) =
          Keeps-back j n (attach-Keeps g mem h node k q e) (ground arith) at in
        let deep = near.between j m after (ground arith) at' in omega (arith, same, deep, le)
    | inr new ↦
        let last : j ≡ length h = ground (arith, before, length-attach g mem h node q) in
        let is : set_parent q node ≡ n = cc (attach-last g mem h node k q granted e) in
        omega (arith, le, ap (λ (m : AstNode). m.depth) is)
  ]

  pub opened-IsOpen :
      (ctx : ParserContext) (b : Bool)
      → ctx.current_parent ≡ some (if b then length h else q)
      → ((t : Token) → parser_get_current_token ctx ≡ some t → (b ≡ true) ⊎ (t.depth ≤ node.depth))
      → IsOpen ctx (attach g mem h node q)
  opened-IsOpen ctx true at shallow = (
    length h,
    at,
    omega (arith, length-attach g mem h node q),
    λ t now j n after before there.
        absurd (omega (arith, after, before, length-attach g mem h node q)),
  )
  opened-IsOpen ctx false at shallow = (
    q,
    at,
    omega (arith, near.behind, length-attach g mem h node q),
    λ t now. elim (shallow t now) [ inl never ↦ absurd (cc) | inr le ↦ behind-AreDeep t.depth le ],
  )
