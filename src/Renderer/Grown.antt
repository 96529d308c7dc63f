-- ===== src/Renderer/Grown.antt =====
-- On a heap with sound links a tree stands at every node.
use c_pug.Common.{
  ℕ, zero, suc, ◌+◌, ◌≤◌, ◌≡◌, some, List, [], ◌∷◌, arith, length, get_elem?, take, All, All-take,
  get_elem?-lt,
}
use c_pug.Ast.{Heap}
use c_pug.Common.Run.{ok}
use c_pug.Glib.{Glib, Documented}
use c_pug.Parser.Links.{Links, IsChild, child-lt}
use c_pug.Renderer.Node.{Style, render_ast}
use c_pug.Renderer.Refines.{Stands, AllStand, stands, done, next, height, height_all, node-html}
use c_pug.Renderer.Spec.{Tree, Forest, node, no_trees, tree, html}
use c_pug.Tokens.{Ptr, AstNode}

-- The tree of a node that `fuel` nodes of the heap stand behind at most.
abbrev Grown : Heap → ℕ → Ptr → Type 0
Grown h fuel p = (t : Tree) × Stands h p t × (height t ≤ fuel)

grow_children :
    (h : Heap) (fuel i : ℕ) (cs : List Ptr)
    → Links h
    → length h ≤ i + suc fuel
    → ((c : Ptr) (k : AstNode) → get_elem? h c ≡ some k → length h ≤ c + fuel → Grown h fuel c)
    → All (IsChild h i) cs
    → (f : Forest) × AllStand h cs f × (height_all f ≤ fuel)
unfolding height
grow_children h fuel i [] links le grow a = (no_trees, done, omega arith)
grow_children h fuel i (c ∷ cs) links le grow ((k, e, is), a) =
    let (t, s, low) = grow c k e (omega (arith, child-lt h links i c (k, e, is))) in
    let (f, all, low') = grow_children h fuel i cs links le grow a in
    (tree t f, next s all, omega arith)

pub grow :
    (fuel : ℕ) (h : Heap) (p : Ptr) (n : AstNode)
    → Links h
    → get_elem? h p ≡ some n
    → length h ≤ p + fuel
    → Grown h fuel p
unfolding height
grow zero h p n links e le = absurd (omega (arith, get_elem?-lt h p n e))
grow (suc fuel) h p n links e le =
    let (f, all, low) =
      grow_children h fuel p (take n.children_count n.children) links le
        (λ c k at below. grow fuel h c k links at below)
        (All-take (IsChild h p) n.children_count n.children (links.down p n e)) in
    (node n f, stands e all, omega arith)

-- Given GLib's functions as documented, on a heap with sound links `render_ast` returns, from every
-- node: a tree stands at the node, and the result is the HTML that `Spec` gives for that tree.
pub render_ast-html :
    (g : Glib) (style : Style) (h : Heap) (p : Ptr) (n : AstNode)
    → Documented g
    → Links h
    → get_elem? h p ≡ some n
    → (t : Tree) × Stands h p t × (render_ast g style h (some p) ≡ ok (some (html style t)))
unfolding render_ast
render_ast-html g style h p n doc links e =
    let (t, s, low) = grow (length h) h p n links e (omega arith) in
    (t, s, rw (node-html g doc style (length h) [] s low))
