-- ===== src/Tokenizer/Sound/Brackets.antt =====
-- The attributes between brackets: what is written between a pair of brackets is read back.
use c_pug.TokenList.{Reallocs}
use c_pug.Common.{
  ℕ, suc, ◌+◌, ◌≡◌, refl, sym, ap, ◌∙◌, Bool, true, false, not, ◌&&◌, some, [], ◌∷◌, ◌++◌, Bytes,
  ◌==◌, arith, length, length-append, append_assoc, append-nil, if◌then◌else◌,
}
use c_pug.Glib.{Glib, Documented}
use c_pug.Tokenizer.Line.Marks.{create_token, add_token}
use c_pug.Tokenizer.Line.Text.{LineState, at_scan, add_buffer, scan_attributes}
use c_pug.Tokenizer.Scan.{Scan, collect_parens, next_level}
use c_pug.Tokens.{token_attribute}

-- A text in which the round brackets are nested.
pub data Nested : Type 0 where
  nothing : Nested
  byte : ℕ → Nested → Nested
  group : Nested → Nested → Nested

abbrev pub written : Nested → Bytes
written nothing = []
written (byte c t) = c ∷ written t
written (group t u) = b'(' ∷ (written t ++ b')' ∷ written u)

-- Only the groups have brackets.
abbrev pub is_bracketed : Nested → Bool
is_bracketed nothing = true
is_bracketed (byte c t) = not (c == b'(') && not (c == b')') && is_bracketed t
is_bracketed (group t u) = is_bracketed t && is_bracketed u

whole : (b t u : Bytes) → (((b ++ b'(' ∷ []) ++ t) ++ b')' ∷ []) ++ u ≡ b ++ b'(' ∷ (t ++ b')' ∷ u)
whole b t u =
    append_assoc ((b ++ b'(' ∷ []) ++ t) (b')' ∷ []) u
    ∙ append_assoc (b ++ b'(' ∷ []) t (b')' ∷ u)
    ∙ append_assoc b (b'(' ∷ []) (t ++ b')' ∷ u)

module _ (g : Glib) (doc : Documented g) where
  collect-step :
      (level level' c : ℕ) (b s : Bytes) (pos : ℕ)
      → next_level g c (suc level) ≡ level'
      → (level' == 0) ≡ false
      → collect_parens g (suc level) b (c ∷ s) pos
        ≡ collect_parens g level' (b ++ c ∷ []) s (pos + 1)
  unfolding collect_parens
  collect-step level level' c b s pos e h =
      let buffer : (if level' == 0 then b else g.g_string_append_c b c) ≡ b ++ c ∷ [] =
        rw h (doc.append_c b c) in
      ap (λ (l : ℕ). collect_parens g l (if l == 0 then b else g.g_string_append_c b c) s (pos + 1))
        e
      ∙ ap (λ (x : Bytes). collect_parens g level' x s (pos + 1)) buffer

  same_place :
      (level : ℕ) (b b' s : Bytes) (pos pos' : ℕ)
      → b ≡ b'
      → pos ≡ pos'
      → collect_parens g level b s pos ≡ collect_parens g level b' s pos'
  same_place level b b' s pos pos' e q = rw (e, q)

  -- The loop reads a nested text as a whole.
  collect-written :
      (t : Nested) (level : ℕ) (b s : Bytes) (pos : ℕ)
      → is_bracketed t ≡ true
      → collect_parens g (suc level) b (written t ++ s) pos
        ≡ collect_parens g (suc level) (b ++ written t) s (pos + length (written t))
  collect-written nothing level b s pos h =
      same_place (suc level) b (b ++ []) s pos (pos + 0) (sym (append-nil b)) (omega arith)
  collect-written (byte c t) level b s pos h =
      collect-step level (suc level) c b (written t ++ s) pos (ground arith) (ground arith)
      ∙ collect-written t level (b ++ c ∷ []) s (pos + 1) (ground arith)
      ∙ same_place (suc level) ((b ++ c ∷ []) ++ written t) (b ++ c ∷ written t) s _ _
          (append_assoc b (c ∷ []) (written t)) (omega arith)
  collect-written (group t u) level b s pos h =
      let b1 = b ++ b'(' ∷ [] in
      let b2 = b1 ++ written t in
      let b3 = b2 ++ b')' ∷ [] in
      let rest = b')' ∷ (written u ++ s) in
      ap (λ x. collect_parens g (suc level) b (b'(' ∷ x) pos)
        (append_assoc (written t) (b')' ∷ written u) s)
      ∙ collect-step level (suc (suc level)) b'(' b (written t ++ rest) pos (omega arith)
          (ground arith)
      ∙ collect-written t (suc level) b1 rest (pos + 1) (ground arith)
      ∙ collect-step (suc level) (suc level) b')' b2 (written u ++ s) (pos + 1 + length (written t))
          (omega arith) (ground arith)
      ∙ collect-written u level b3 s (pos + 1 + length (written t) + 1) (ground arith)
      ∙ same_place (suc level) (b3 ++ written u) (b ++ written (group t u)) s _ _
          (whole b (written t) (written u))
          (omega (arith, length-append (written t) (b')' ∷ written u)))

  collect-bracket :
      (t : Nested) (b rest : Bytes) (pos : ℕ)
      → is_bracketed t ≡ true
      → collect_parens g 1 (g.g_string_truncate b 0) (written t ++ b')' ∷ rest) pos
        ≡ record { buffer = written t; rest = rest; pos = pos + length (written t) + 1 }
  unfolding collect_parens
  collect-bracket t b rest pos h =
      same_place 1 (g.g_string_truncate b 0) [] (written t ++ b')' ∷ rest) pos pos
        (doc.truncate_zero b) refl
      ∙ collect-written t 0 [] (b')' ∷ rest) pos h

  -- Given GLib's functions as documented, on a line that goes on, behind an opening bracket, with a
  -- text of nested brackets and its closing bracket, `scan_attributes` adds a token for attributes
  -- whose value is that text, leaves it in the buffer, keeps the column, and stands behind the
  -- closing bracket.
  pub scan_attributes-written :
      (mem : Reallocs) (indent n : ℕ) (st : LineState) (t : Nested) (rest : Bytes)
      → is_bracketed t ≡ true
      → scan_attributes g mem indent n st (written t ++ b')' ∷ rest) ≡ record {
        tokens =
            add_token mem st.tokens
              (create_token token_attribute (some (written t)) indent n st.column);
        buffer = written t;
        rest = rest;
        pos = st.pos + 1 + length (written t) + 1;
        column = st.column;
      }
  unfolding scan_attributes add_buffer
  scan_attributes-written mem indent n st t rest h =
      ap (λ (x : Scan). add_buffer g mem indent n token_attribute (at_scan st st.column x))
        (collect-bracket t st.buffer rest (st.pos + 1) h)
