-- ===== src/Renderer/Refines.antt =====
-- The renderer does what `Spec` says: on a heap where a tree stands at a pointer, its output is the
-- HTML of the tree.
use c_pug.Common.{
  ℕ, suc, ◌-◌, ◌≤◌, ◌≡◌, refl, sym, ap, ◌∙◌, false, Option, none, some, List, [], ◌∷◌, ◌++◌, Bytes,
  codes, arith, if◌then◌else◌, truth, take, append-nil, append_assoc, Option-cases, Bool-cases, inl,
  inr, get_elem?,
}
use Prim.Native.Nat.{max}
use c_pug.Ast.{Heap}
use c_pug.Common.Run.{Run, ok, ◌>>=◌}
use c_pug.Glib.{Glib, Documented}
use c_pug.HtmlTags.Laws.{member}
use c_pug.HtmlTags.VoidTags.{is_zero-strcmp0, find_tag-member}
use c_pug.Renderer.Appends.{newline-html, render_leaf-html}
use c_pug.Renderer.Escape.{is_void_tag, void_tags}
use c_pug.Renderer.Node.{
  Style, open_tag, tag_text, before_children, render_children, render_inside, render_tag, is_root,
  is_tag_type, render_body, render_node,
}
use c_pug.Renderer.Pieces.{append_indent}
use c_pug.Renderer.Spec.{
  Tree, Forest, node, no_trees, tree, open_html, line_end, margin, leaf_html, content_html,
  break_html, end_margin, empty_html, close_html, has_void_tag, has_root_tag, inside_html, tag_html,
  node_html, html, html_all,
}
use c_pug.Renderer.Tags.{
  open_tag-html, break-html, indent-html, end-html, empty-html, close-html, content-html,
}
use c_pug.Tokens.{Ptr, AstNode}

-- The tree of the node at a pointer, with the children that its count says.
mutual
  pub data Stands (h : Heap) : Ptr → Tree → Type 0 where
    stands :
        {p : Ptr} {n : AstNode} {f : Forest}
        → get_elem? h p ≡ some n
        → AllStand h (take n.children_count n.children) f
        → Stands h p (node n f)

  pub data AllStand (h : Heap) : List Ptr → Forest → Type 0 where
    done : AllStand h [] no_trees
    next :
        {p : Ptr} {ps : List Ptr} {t : Tree} {f : Forest}
        → Stands h p t
        → AllStand h ps f
        → AllStand h (p ∷ ps) (tree t f)

-- The depth of the recursion that a tree takes.
unfoldable mutual
  pub height : Tree → ℕ
  height (node n f) = suc (height_all f)

  pub height_all : Forest → ℕ
  height_all no_trees = 0
  height_all (tree t f) = max (height t) (height_all f)

module _ (g : Glib) (doc : Documented g) (style : Style) where
  root-eq : (n : AstNode) → is_root g style n ≡ has_root_tag n
  unfolding is_root
  root-eq n = elim (Option-cases n.tag) [
    | inl e ↦ rw e
    | inr (t, e) ↦ rw e (is_zero-strcmp0 g doc t (codes "root"))
  ]

  void-eq :
      (o : Option Bytes)
      → is_void_tag g o ≡ (elim o [ none ↦ false | some tag ↦ member tag void_tags ])
  unfolding is_void_tag
  void-eq none = refl
  void-eq (some tag) = find_tag-member g doc tag void_tags

  module _ (render : Bytes → Ptr → Run Bytes) (n : AstNode) (inner : Bytes)
      (rendered : (out : Bytes)
        → render_children g style render out (take n.children_count n.children)
          ≡ ok (out ++ inner)) where
    inside-html :
        (out : Bytes) → render_inside g style render out n ≡ ok (out ++ inside_html style n inner)
    unfolding render_inside
    inside-html out =
        let text : tag_text g style (g.g_string_append_c out b'>') n
            ≡ (out ++ codes ">") ++ content_html style n =
          content-html g doc style _ n
          ∙ ap (λ (x : Bytes). x ++ content_html style n) (doc.append_c out b'>') in
        elim (Bool-cases (truth n.children_count)) [
          | inl many ↦
              rw
                (
                  many,
                  rendered (
                      before_children g style (tag_text g style (g.g_string_append_c out b'>') n)
                        n),
                )
                (ap ok (
                  close-html g doc style _ n
                  ∙ ap (λ (x : Bytes). x ++ close_html style n)
                      (end-html g doc style _ n
                        ∙ ap (λ (x : Bytes). (x ++ inner) ++ end_margin style n)
                            (break-html g doc style _ n
                              ∙ ap (λ (x : Bytes). x ++ break_html style n) text))
                  ∙ simp append_assoc))
          | inr none_here ↦ rw none_here (
              ap ok (
                close-html g doc style _ n
                ∙ ap (λ (x : Bytes). x ++ close_html style n)
                    (empty-html g doc style _ n ∙ ap (λ (x : Bytes). x ++ empty_html style n) text)
                ∙ simp append_assoc))
        ]

    tag-html : (out : Bytes) → render_tag g style render out n ≡ ok (out ++ tag_html style n inner)
    unfolding render_tag
    tag-html out = elim (Bool-cases (has_void_tag n)) [
      | inl alone ↦
          rw (void-eq n.tag, alone)
            (ap ok (
              newline-html g doc style _
              ∙ ap (λ (x : Bytes). x ++ line_end style)
                  (doc.append _ (codes " />")
                    ∙ ap (λ (x : Bytes). x ++ codes " />") (open_tag-html g doc style out n))
              ∙ simp append_assoc))
      | inr around ↦
          rw (void-eq n.tag, around)
            (inside-html (open_tag g style out n)
              ∙ ap ok (
                  ap (λ (x : Bytes). x ++ inside_html style n inner)
                    (open_tag-html g doc style out n)
                  ∙ append_assoc out (open_html n) (inside_html style n inner)))
    ]

    body-html :
        (out : Bytes)
        → render_body g style render out n
          ≡ ok (
              out
              ++ (margin style n.depth
                  ++ (if is_tag_type n.node_type
                      then tag_html style n inner
                      else leaf_html style n.node_type n)))
    unfolding render_body
    body-html out =
        let indented : (if truth style.minify
              then out
              else append_indent g out n.depth style.use_tabs style.tab_size)
            ≡ out ++ margin style n.depth =
          ground (arith, append-nil out, indent-html g doc style out n.depth) in
        elim (Bool-cases (is_tag_type n.node_type)) [
          | inl tag ↦ rw tag (
              tag-html _
              ∙ ap ok (
                  ap (λ (x : Bytes). x ++ tag_html style n inner) indented
                  ∙ append_assoc out (margin style n.depth) (tag_html style n inner)))
          | inr leaf ↦ rw leaf (
              ap ok (
                render_leaf-html g doc style n.node_type _ n
                ∙ ap (λ (x : Bytes). x ++ leaf_html style n.node_type n) indented
                ∙ append_assoc out (margin style n.depth) (leaf_html style n.node_type n)))
        ]

  node-step :
      (fuel : ℕ) (h : Heap) (p : Ptr) (n : AstNode) (out inner : Bytes)
      → get_elem? h p ≡ some n
      → ((x : Bytes)
          → render_children g style
              (render_node g style fuel h)
              x
              (take n.children_count n.children)
            ≡ ok (x ++ inner))
      → render_node g style (suc fuel) h out p ≡ ok (out ++ node_html style n inner)
  unfolding render_node
  node-step fuel h p n out inner e rendered = elim (Bool-cases (has_root_tag n)) [
    | inl root ↦ rw (e, root-eq n, root, render_node) (rendered out)
    | inr other ↦
        rw (e, root-eq n, other, render_node)
          (body-html (render_node g style fuel h) n inner rendered out)
  ]

  -- A run of the renderer on a heap where the tree stands.
  mutual
    unfolding render_children html height

    pub node-html :
        {h : Heap} {p : Ptr} {t : Tree} (fuel : ℕ) (out : Bytes)
        → Stands h p t
        → height t ≤ fuel
        → render_node g style fuel h out p ≡ ok (out ++ html style t)
    node-html {h} {p} fuel out (stands {n} {f} e below) le =
        let some_fuel : fuel ≡ suc (fuel - 1) = omega arith in
        ap (λ k. render_node g style k h out p) some_fuel
        ∙ node-step (fuel - 1) h p n out (html_all style f) e
            (λ x. children-html (fuel - 1) x below (omega arith))

    children-html :
        {h : Heap} {ps : List Ptr} {f : Forest} (fuel : ℕ) (out : Bytes)
        → AllStand h ps f
        → height_all f ≤ fuel
        → render_children g style (render_node g style fuel h) out ps ≡ ok (out ++ html_all style f)
    children-html fuel out done le = ap ok (sym (append-nil out))
    children-html {h} fuel out (next {ps} {t} {f} s rest) le =
        ap (λ (r : Run Bytes). r >>= λ x. render_children g style (render_node g style fuel h) x ps)
          (node-html fuel out s (omega arith))
        ∙ children-html fuel (out ++ html style t) rest (omega arith)
        ∙ ap ok (append_assoc out (html style t) (html_all style f))
