-- ===== src/Renderer/Pieces/Output.antt =====
-- What the pieces of the renderer append to its output.
use c_pug.Common.{
  ℕ, zero, suc, ◌+◌, ◌*◌, ◌≡◌, sym, ap, ◌∙◌, true, false, some, List, [], ◌∷◌, ◌++◌, Bytes, codes,
  ◌==◌, if◌then◌else◌, truth, take, take_all, replicate, arith, length, append_assoc, append-nil,
  map, Bool-cases, inl, inr,
}
use c_pug.Glib.{Glib, Documented, join}
use c_pug.Renderer.Escape.{escape_html}
use c_pug.Renderer.Escape.RoundTrip.{escaped, escape_html-escaped}
use c_pug.Renderer.Pieces.{append_times, append_indent, render_class_items, render_classes}

count-cong : {a b : ℕ} → a ≡ b → (c : ℕ) → replicate a c ≡ replicate b c
count-cong e c = ap (λ k. replicate k c) e

replicate-add : (m n c : ℕ) → replicate m c ++ replicate n c ≡ replicate (m + n) c
replicate-add zero n c = count-cong {a = n} {b = 0 + n} (omega arith) c
replicate-add (suc m) n c =
    ap (◌∷◌ c) (replicate-add m n c) ∙ count-cong {a = suc (m + n)} {b = suc m + n} (omega arith) c

add-replicate :
    (s : Bytes) (m n k c : ℕ)
    → m + n ≡ k
    → (s ++ replicate m c) ++ replicate n c ≡ s ++ replicate k c
add-replicate s m n k c e =
    append_assoc s (replicate m c) (replicate n c)
    ∙ ap (λ (x : Bytes). s ++ x) (replicate-add m n c ∙ ap (λ j. replicate j c) e)

-- The tags of a class list, each but the first behind a blank.
abbrev spaced : List Bytes → Bytes
spaced [] = []
spaced (c ∷ cs) = b' ' ∷ (escaped c ++ spaced cs)

spaced-join :
    (c : Bytes) (cs : List Bytes) → escaped c ++ spaced cs ≡ join (codes " ") (map escaped (c ∷ cs))
spaced-join c [] = append-nil (escaped c)
spaced-join c (d ∷ cs) = ap (λ (x : Bytes). escaped c ++ b' ' ∷ x) (spaced-join d cs)

module _ (g : Glib) (doc : Documented g) where
  append_times-replicate :
      (n c : ℕ) (output : Bytes) → append_times g n c output ≡ output ++ replicate n c
  unfolding append_times
  append_times-replicate zero c output = sym (append-nil output)
  append_times-replicate (suc n) c output =
      ap (append_times g n c) (doc.append_c output c)
      ∙ append_times-replicate n c (output ++ c ∷ [])
      ∙ append_assoc output (c ∷ []) (replicate n c)

  indent_tabs :
      (output : Bytes) (depth use_tabs tab_size : ℕ)
      → truth use_tabs ≡ true
      → append_indent g output depth use_tabs tab_size ≡ output ++ replicate depth b'\t'
  unfolding append_indent
  indent_tabs output zero use_tabs tab_size h = sym (append-nil output)
  indent_tabs output (suc depth) use_tabs tab_size h = rw h (
      ap (λ (x : Bytes). append_indent g x depth use_tabs tab_size) (doc.append_c output b'\t')
      ∙ indent_tabs (output ++ b'\t' ∷ []) depth use_tabs tab_size h
      ∙ append_assoc output (b'\t' ∷ []) (replicate depth b'\t'))

  indent_spaces :
      (output : Bytes) (depth use_tabs tab_size : ℕ)
      → truth use_tabs ≡ false
      → append_indent g output depth use_tabs tab_size ≡ output ++ replicate (depth * tab_size) b' '
  unfolding append_indent
  indent_spaces output zero use_tabs tab_size h =
      sym (append-nil output)
      ∙ ap (λ (x : Bytes). output ++ x) (count-cong {a = 0} {b = 0 * tab_size} (omega arith) b' ')
  indent_spaces output (suc depth) use_tabs tab_size h = rw h (
      ap (λ (x : Bytes). append_indent g x depth use_tabs tab_size)
        (append_times-replicate tab_size b' ' output)
      ∙ indent_spaces (output ++ replicate tab_size b' ') depth use_tabs tab_size h
      ∙ add-replicate output tab_size (depth * tab_size) (suc depth * tab_size) b' ' (omega arith))

  -- Given GLib's functions as documented, `append_indent` appends as many tabs as the depth is, or
  -- `tab_size` blanks for each level of it.
  pub append_indent-indentation :
      (output : Bytes) (depth use_tabs tab_size : ℕ)
      → append_indent g output depth use_tabs tab_size
        ≡ output
          ++ (if truth use_tabs then replicate depth b'\t' else replicate (depth * tab_size) b' ')
  append_indent-indentation output depth use_tabs tab_size = elim (Bool-cases (truth use_tabs)) [
    | inl tabs ↦ rw tabs (indent_tabs output depth use_tabs tab_size tabs)
    | inr spaces ↦ rw spaces (indent_spaces output depth use_tabs tab_size spaces)
  ]

  pub items-spaced :
      (output : Bytes) (cs : List Bytes)
      → render_class_items g false output cs ≡ output ++ spaced cs
  unfolding render_class_items
  items-spaced output [] = sym (append-nil output)
  items-spaced output (c ∷ cs) =
      ap (λ (x : Bytes). render_class_items g false x cs)
        (doc.append (g.g_string_append_c output b' ') (escape_html g (some c))
          ∙ ap (λ (x : Bytes). x ++ escape_html g (some c)) (doc.append_c output b' ')
          ∙ ap (λ (x : Bytes). (output ++ b' ' ∷ []) ++ x) (escape_html-escaped g doc c))
      ∙ items-spaced ((output ++ b' ' ∷ []) ++ escaped c) cs
      ∙ append_assoc (output ++ b' ' ∷ []) (escaped c) (spaced cs)
      ∙ append_assoc output (b' ' ∷ []) (escaped c ++ spaced cs)

  pub first_item :
      (output c : Bytes) (cs : List Bytes)
      → render_class_items g true output (c ∷ cs)
        ≡ output ++ join (codes " ") (map escaped (c ∷ cs))
  unfolding render_class_items
  first_item output c cs =
      ap (λ (x : Bytes). render_class_items g false x cs)
        (doc.append output (escape_html g (some c))
          ∙ ap (λ (x : Bytes). output ++ x) (escape_html-escaped g doc c))
      ∙ items-spaced (output ++ escaped c) cs
      ∙ append_assoc output (escaped c) (spaced cs)
      ∙ ap (λ (x : Bytes). output ++ x) (spaced-join c cs)

  abbrev items : Bytes → List Bytes → Bytes
  items = render_class_items g true

  opened :
      (output : Bytes) (cs : List Bytes) (n : ℕ)
      → render_classes g output (some cs) (suc n)
        ≡ g.g_string_append_c
            (items (g.g_string_append output (codes " class=\"")) (take (suc n) cs))
            b'"'
  unfolding render_classes
  opened output cs n =
      let counted : (suc n == 0) ≡ false = ground arith in rw (counted, render_classes)

  -- Given GLib's functions as documented, for a node with at least one class and as many as its
  -- count says, `render_classes` appends one attribute `class` that holds the escaped classes in
  -- their order, with a blank between two of them.
  pub render_classes-join :
      (output c : Bytes) (cs : List Bytes)
      → render_classes g output (some (c ∷ cs)) (length (c ∷ cs))
        ≡ output ++ (codes " class=\"" ++ (join (codes " ") (map escaped (c ∷ cs)) ++ codes "\""))
  render_classes-join output c cs =
      opened output (c ∷ cs) (length cs)
      ∙ (doc.append_c
            (items (g.g_string_append output (codes " class=\"")) (take (length (c ∷ cs)) (c ∷ cs)))
            b'"'
          ∙ ap (λ (x : Bytes). x ++ codes "\"")
              (ap (items (g.g_string_append output (codes " class=\"")))
                  (take_all (length (c ∷ cs)) (c ∷ cs) (omega arith))
                ∙ ap (λ (x : Bytes). items x (c ∷ cs)) (doc.append output (codes " class=\""))
                ∙ first_item (output ++ codes " class=\"") c cs)
          ∙ append_assoc (output ++ codes " class=\"") (join (codes " ") (map escaped (c ∷ cs)))
              (codes "\"")
          ∙ append_assoc output (codes " class=\"")
              (join (codes " ") (map escaped (c ∷ cs)) ++ codes "\""))
