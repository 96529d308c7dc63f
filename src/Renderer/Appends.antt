-- ===== src/Renderer/Appends.antt =====
-- What each piece of the renderer appends to its output.
use c_pug.Common.{
  ◌≡◌, refl, sym, ap, ◌∙◌, Option, none, some, List, [], ◌∷◌, ◌++◌, Bytes, codes, arith, text_or,
  ◌==◌, append-nil, append_assoc, Option-cases, Bool-cases, inl, inr,
}
use c_pug.Glib.{Glib, Documented}
use c_pug.Renderer.Escape.{escape_html}
use c_pug.Renderer.Escape.RoundTrip.{escape_html-escaped}
use c_pug.Renderer.Node.{Style, newline, append_text, render_note, render_leaf}
use c_pug.Renderer.Pieces.{is_boolean, render_attribute, render_attribute_items, render_attributes}
use c_pug.Renderer.Spec.{
  text_html, value_html, attribute_html, attribute_items_html, attributes_html, line_end, note_html,
  leaf_html,
}
use c_pug.Tokens.{
  TokenType, Attribute, AttributeList, AstNode, token_text, token_dot, token_pipe, token_comment,
  token_interpolation, token_code, token_doctype, token_include, token_extends, token_mixin,
  token_call,
}

module _ (g : Glib) (doc : Documented g) where
  -- A name, and what follows it for the value.
  named :
      (out name : Bytes)
      → g.g_string_append (g.g_string_append_c out b' ') name ≡ out ++ b' ' ∷ name
  named out name =
      doc.append (g.g_string_append_c out b' ') name
      ∙ ap (λ (x : Bytes). x ++ name) (doc.append_c out b' ')
      ∙ append_assoc out (b' ' ∷ []) name

  value-html :
      (out name : Bytes) (attr : Attribute)
      → attr.name ≡ some name
      → render_attribute g out attr ≡ out ++ b' ' ∷ (name ++ value_html attr)
  unfolding render_attribute
  value-html out name attr e = elim (Option-cases attr.value) [
    | inl q ↦ rw (e, q) (named out name ∙ simp append-nil)
    | inr (value, q) ↦ elim (Bool-cases (is_boolean attr.type)) [
      | inl bare ↦ rw (e, q, bare) (named out name ∙ simp append-nil)
      | inr valued ↦
          rw (e, q, valued)
            (doc.append_printf _ (codes "=\"%s\"") (value ∷ []) refl
              ∙ ap (λ (x : Bytes). x ++ (codes "=\"" ++ (value ++ codes "\""))) (named out name)
              ∙ simp append_assoc)
    ]
  ]

  render_attribute-html :
      (out : Bytes) (attr : Attribute) → render_attribute g out attr ≡ out ++ attribute_html attr
  unfolding render_attribute
  render_attribute-html out attr = elim (Option-cases attr.name) [
    | inl e ↦ ground (arith, append-nil out)
    | inr (name, e) ↦
        value-html out name attr e
        ∙ ap (λ (o : Option Bytes). out ++ attribute_html (record attr { name = o })) (sym e)
  ]

  render_attribute_items-html :
      (out : Bytes) (attrs : List Attribute)
      → render_attribute_items g out attrs ≡ out ++ attribute_items_html attrs
  unfolding render_attribute_items
  render_attribute_items-html out [] = sym (append-nil out)
  render_attribute_items-html out (attr ∷ attrs) =
      ap (λ (x : Bytes). render_attribute_items g x attrs) (render_attribute-html out attr)
      ∙ render_attribute_items-html (out ++ attribute_html attr) attrs
      ∙ append_assoc out (attribute_html attr) (attribute_items_html attrs)

  pub render_attributes-html :
      (out : Bytes) (o : Option AttributeList)
      → render_attributes g out o ≡ out ++ attributes_html o
  unfolding render_attributes
  render_attributes-html out none = sym (append-nil out)
  render_attributes-html out (some list) = render_attribute_items-html out _

  pub append_text-html :
      (style : Style) (out : Bytes) (o : Option Bytes)
      → append_text g style out o ≡ out ++ text_html o
  unfolding append_text
  append_text-html style out none = sym (append-nil out)
  append_text-html style out (some t) =
      doc.append out (escape_html g (some t))
      ∙ ap (λ (x : Bytes). out ++ x) (escape_html-escaped g doc t)

  pub newline-html : (style : Style) (out : Bytes) → newline g style out ≡ out ++ line_end style
  unfolding newline
  newline-html style out = ground (arith, doc.append_c out b'\n', append-nil out)

  render_note-html :
      (style : Style) (out : Bytes) (n : AstNode)
      → render_note g style out n ≡ out ++ note_html style n
  unfolding render_note
  render_note-html style out n = elim (Bool-cases (style.minify == 0)) [
    | inl shown ↦ rw shown (simp doc.append_printf)
    | inr hidden ↦ rw hidden (sym (append-nil out))
  ]

  pub shut :
      (style : Style) (out a : Bytes) → newline g style (out ++ a) ≡ out ++ (a ++ line_end style)
  shut style out a = newline-html style (out ++ a) ∙ append_assoc out a (line_end style)

  text_line :
      (style : Style) (out : Bytes) (o : Option Bytes)
      → newline g style (append_text g style out o) ≡ out ++ (text_html o ++ line_end style)
  text_line style out o =
      ap (newline g style) (append_text-html style out o) ∙ shut style out (text_html o)

  doctype_line :
      (style : Style) (out : Bytes) (n : AstNode)
      → render_leaf g style token_doctype out n ≡ out ++ leaf_html style token_doctype n
  unfolding render_leaf
  doctype_line style out n =
      ap (newline g style) (
        doc.append_printf out (codes "<!DOCTYPE %s>") (text_or n.text_content (codes "html") ∷ [])
          refl)
      ∙ newline-html style _
      ∙ simp append_assoc

  interpolation_line :
      (style : Style) (out : Bytes) (n : AstNode)
      → render_leaf g style token_interpolation out n ≡ out ++ leaf_html style token_interpolation n
  unfolding render_leaf
  interpolation_line style out n = elim (Option-cases n.text_content) [
    | inl e ↦ rw e (newline-html style out)
    | inr (text, e) ↦ rw e (
        ap (newline g style) (doc.append_printf out (codes "#{ %s }") (text ∷ []) refl)
        ∙ newline-html style _
        ∙ simp append_assoc)
  ]

  comment_line :
      (style : Style) (out : Bytes) (n : AstNode)
      → render_leaf g style token_comment out n ≡ out ++ leaf_html style token_comment n
  unfolding render_leaf
  comment_line style out n = elim (Bool-cases (style.minify == 0)) [
    | inr hidden ↦ rw hidden (sym (append-nil out))
    | inl shown ↦ rw shown (
        doc.append _ (codes " -->\n")
        ∙ ap (λ (x : Bytes). append_text g style x n.text_content ++ codes " -->\n")
            (doc.append out (codes "<!-- "))
        ∙ ap (λ (x : Bytes). x ++ codes " -->\n")
            (append_text-html style (out ++ codes "<!-- ") n.text_content)
        ∙ simp append_assoc)
  ]

  -- The nodes that are no tags.
  pub render_leaf-html :
      (style : Style) (type : TokenType) (out : Bytes) (n : AstNode)
      → render_leaf g style type out n ≡ out ++ leaf_html style type n
  unfolding render_leaf
  render_leaf-html style token_doctype out n = doctype_line style out n
  render_leaf-html style token_text out n = text_line style out n.text_content
  render_leaf-html style token_pipe out n = text_line style out n.text_content
  render_leaf-html style token_dot out n = text_line style out n.text_content
  render_leaf-html style token_interpolation out n = interpolation_line style out n
  render_leaf-html style token_comment out n = comment_line style out n
  render_leaf-html style token_code out n = render_note-html style out n
  render_leaf-html style token_include out n = render_note-html style out n
  render_leaf-html style token_extends out n = render_note-html style out n
  render_leaf-html style token_mixin out n = render_note-html style out n
  render_leaf-html style token_call out n = render_note-html style out n
  render_leaf-html style _ out n = sym (append-nil out)
