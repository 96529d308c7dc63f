-- ===== src/Renderer/Pieces.antt =====
-- `append_indent`, `render_attributes` and `render_classes`. `output` is never NULL.
pub mod Output
use c_pug.Common.{
  ℕ, zero, suc, Bool, true, false, not, Option, none, some, List, [], ◌∷◌, Bytes, codes, ◌==◌,
  if◌then◌else◌, truth, take,
}
use c_pug.Glib.{Glib}
use c_pug.Renderer.Escape.{escape_html}
use c_pug.Tokens.{AttributeType, attr_boolean, Attribute, AttributeList}

unfoldable pub is_boolean : AttributeType → Bool
is_boolean attr_boolean = true
is_boolean _ = false

module _ (g : Glib) where
  open g use {g_string_append, g_string_append_c, g_string_append_printf}

  -- `for (j = 0; j < n; j++) g_string_append_c(output, c)`
  unfoldable pub append_times : ℕ → ℕ → Bytes → Bytes
  append_times zero c output = output
  append_times (suc n) c output = append_times n c (g_string_append_c output c)

  unfoldable pub append_indent : Bytes → ℕ → ℕ → ℕ → Bytes
  append_indent output zero use_tabs tab_size = output
  append_indent output (suc depth) use_tabs tab_size =
      let unit =
        if truth use_tabs
        then g_string_append_c output b'\t'
        else append_times tab_size b' ' output in
      append_indent unit depth use_tabs tab_size

  -- `=\"%s\"` and the value, which is not escaped.
  append_value : Bytes → Attribute → Bytes
  append_value output attr = elim attr.value [
    | none ↦ output
    | some value ↦
        if not (is_boolean attr.type)
        then g_string_append_printf output (codes "=\"%s\"") (value ∷ [])
        else output
  ]

  unfoldable pub render_attribute : Bytes → Attribute → Bytes
  unfolding append_value
  render_attribute output attr = elim attr.name [
    | none ↦ output
    | some name ↦ append_value (g_string_append (g_string_append_c output b' ') name) attr
  ]

  unfoldable pub render_attribute_items : Bytes → List Attribute → Bytes
  render_attribute_items output [] = output
  render_attribute_items output (attr ∷ attrs) =
      render_attribute_items (render_attribute output attr) attrs

  unfoldable pub render_attributes : Bytes → Option AttributeList → Bytes
  render_attributes output none = output
  render_attributes output (some attrs) =
      render_attribute_items output (take attrs.count attrs.attributes)

  -- The loop over the classes; `first` is `i == 0`.
  unfoldable pub render_class_items : Bool → Bytes → List Bytes → Bytes
  render_class_items first output [] = output
  render_class_items first output (c ∷ classes) =
      let spaced = if first then output else g_string_append_c output b' ' in
      render_class_items false (g_string_append spaced (escape_html g (some c))) classes

  unfoldable pub render_classes : Bytes → Option (List Bytes) → ℕ → Bytes
  render_classes output classes class_count =
      if class_count == 0
      then output
      else g_string_append_c
          (render_class_items true (g_string_append output (codes " class=\""))
            (take class_count (elim classes [ none ↦ [] | some cs ↦ cs ])))
          b'"'
