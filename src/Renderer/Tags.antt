-- ===== src/Renderer/Tags.antt =====
-- What the pieces of a tag append to the output.
use c_pug.Common.{
  ℕ, ◌+◌, ◌%◌, ◌≡◌, refl, sym, ap, ◌∙◌, true, Option, none, some, List, [], ◌∷◌, ◌++◌, Bytes, codes,
  arith, text_or, ◌==◌, truth, take, append-nil, append_assoc, Bool-cases, Option-cases, inl, inr,
  map,
}
use c_pug.Glib.{Glib, Documented, join}
use c_pug.Renderer.Appends.{render_attributes-html, append_text-html, newline-html}
use c_pug.Renderer.Escape.{escape_html}
use c_pug.Renderer.Escape.RoundTrip.{escaped, escape_html-escaped}
use c_pug.Renderer.Node.{
  Style, open_tag, tag_text, before_children, after_children, no_children, close_tag,
}
use c_pug.Renderer.Pieces.{append_indent, render_class_items, render_classes}
use c_pug.Renderer.Pieces.Output.{append_indent-indentation, first_item}
use c_pug.Renderer.Spec.{
  attributes_html, classes_html, id_html, open_html, line_end, indentation, content_html,
  break_html, end_margin, empty_html, close_html,
}
use c_pug.Tokens.{AstNode, uint_mod}

module _ (g : Glib) (doc : Documented g) where
  class_items-html :
      (out : Bytes) (cs : List Bytes)
      → render_class_items g true out cs ≡ out ++ join (codes " ") (map escaped cs)
  unfolding render_class_items
  class_items-html out [] = sym (append-nil out)
  class_items-html out (c ∷ cs) = first_item g doc out c cs

  render_classes-html :
      (out : Bytes) (classes : Option (List Bytes)) (count : ℕ)
      → render_classes g out classes count ≡ out ++ classes_html classes count
  unfolding render_classes
  render_classes-html out classes count = elim (Bool-cases (count == 0)) [
    | inl no_class ↦ rw no_class (sym (append-nil out))
    | inr some_class ↦ rw some_class (
        doc.append_c _ b'"'
        ∙ ap (λ (x : Bytes). x ++ codes "\"")
            (class_items-html _ _
              ∙ ap
                  (λ (x : Bytes).
                    x
                    ++ join (codes " ")
                        (map escaped (take count (elim classes [ none ↦ [] | some cs ↦ cs ]))))
                  (doc.append out (codes " class=\"")))
        ∙ simp append_assoc)
  ]

  named :
      (out : Bytes) (name : Bytes)
      → g.g_string_append_printf out (codes "<%s") (name ∷ []) ≡ out ++ codes "<" ++ name
  named out name =
      doc.append_printf out (codes "<%s") (name ∷ []) refl ∙ simp (append-nil, append_assoc)

  id_part :
      (out : Bytes) (o : Option Bytes)
      → (elim o as (λ _. Bytes) [
        | none ↦ out
        | some id ↦ g.g_string_append_printf out (codes " id=\"%s\"") (escape_html g (some id) ∷ [])
      ])
        ≡ out ++ id_html o
  id_part out none = sym (append-nil out)
  id_part out (some id) =
      doc.append_printf out (codes " id=\"%s\"") (escape_html g (some id) ∷ []) refl
      ∙ ap (λ (x : Bytes). out ++ (codes " id=\"" ++ (x ++ codes "\"")))
          (escape_html-escaped g doc id)

  pub open_tag-html :
      (style : Style) (out : Bytes) (n : AstNode) → open_tag g style out n ≡ out ++ open_html n
  unfolding open_tag
  open_tag-html style out n =
      render_attributes-html g doc _ n.attributes
      ∙ ap (λ (x : Bytes). x ++ attributes_html n.attributes)
          (render_classes-html _ n.classes n.class_count
            ∙ ap (λ (x : Bytes). x ++ classes_html n.classes n.class_count)
                (id_part _ n.id
                  ∙ ap (λ (x : Bytes). x ++ id_html n.id)
                      (named out (text_or n.tag (codes "div")))))
      ∙ simp append_assoc

  pub break-html :
      (style : Style) (out : Bytes) (n : AstNode)
      → before_children g style out n ≡ out ++ break_html style n
  unfolding before_children
  break-html style out n = ground (arith, doc.append_c out b'\n', append-nil out)

  pub indent-html :
      (style : Style) (out : Bytes) (depth : ℕ)
      → append_indent g out depth style.use_tabs style.tab_size ≡ out ++ indentation style depth
  indent-html style out depth =
      append_indent-indentation g doc out depth style.use_tabs style.tab_size

  below :
      (style : Style) (out : Bytes) (depth : ℕ)
      → append_indent g (g.g_string_append_c out b'\n') depth style.use_tabs style.tab_size
        ≡ out ++ b'\n' ∷ indentation style depth
  below style out depth =
      indent-html style _ depth
      ∙ ap (λ (x : Bytes). x ++ indentation style depth) (doc.append_c out b'\n')
      ∙ append_assoc out (b'\n' ∷ []) (indentation style depth)

  pub end-html :
      (style : Style) (out : Bytes) (n : AstNode)
      → after_children g style out n ≡ out ++ end_margin style n
  unfolding after_children
  end-html style out n = ground (arith, indent-html style out n.depth, append-nil out)

  pub empty-html :
      (style : Style) (out : Bytes) (n : AstNode)
      → no_children g style out n ≡ out ++ empty_html style n
  unfolding no_children
  empty-html style out n = ground (arith, below style out n.depth, append-nil out)

  pub close-html :
      (style : Style) (out : Bytes) (n : AstNode)
      → close_tag g style out n ≡ out ++ close_html style n
  unfolding close_tag
  close-html style out n =
      newline-html g doc style _
      ∙ ap (λ (x : Bytes). x ++ line_end style)
          (doc.append_printf out (codes "</%s>") (text_or n.tag (codes "div") ∷ []) refl)
      ∙ simp append_assoc

  pub content-html :
      (style : Style) (out : Bytes) (n : AstNode)
      → tag_text g style out n ≡ out ++ content_html style n
  unfolding tag_text
  content-html style out n = elim (Option-cases n.text_content) [
    | inl e ↦ rw e (sym (append-nil out))
    | inr (text, e) ↦ elim (Bool-cases (truth n.is_inline)) [
      | inl inside ↦ rw (e, inside) (append_text-html g doc style out (some text))
      | inr block ↦ elim (Bool-cases (truth style.minify)) [
        | inl small ↦ rw (e, block, small) (append_text-html g doc style out (some text))
        | inr wide ↦
            rw (e, block, wide)
              (append_text-html g doc style _ (some text)
                ∙ ap (λ (x : Bytes). x ++ escaped text) (below style out ((n.depth + 1) % uint_mod))
                ∙ append_assoc out (b'\n' ∷ indentation style ((n.depth + 1) % uint_mod))
                    (escaped text))
      ]
    ]
  ]
