-- ===== src/Tokenizer/Sound/Progress.antt =====
-- Every turn of the loops of `tokenize_line` reads at least one byte.
use c_pug.TokenList.{Reallocs}
use c_pug.Common.{
  ℕ, ◌+◌, ◌≤◌, ◌≡◌, refl, ap, Bool, true, [], ◌∷◌, Bytes, arith, ◌==◌, length, Bool-cases, inl, inr,
  if◌then◌else◌, ltb,
}
use c_pug.Glib.{Glib}
use c_pug.Tokenizer.Chars.{isalpha, isalnum, is_name_byte, is_tag_byte, is_blank, is_not}
use c_pug.Tokenizer.Indent.{skip_whitespace}
use c_pug.Tokenizer.Line.Text.{
  LineState, at_scan, add_buffer, scan_id, scan_class, scan_attributes, scan_tag,
  close_interpolation, scan_interpolation, scan_hash, after_text, text_step,
}
use c_pug.Tokenizer.Scan.Pieces.{
  drop_while, rest-collect_while, length-drop_while-le, length-drop_while-lt,
  length-collect_parens-le,
}
use c_pug.Tokenizer.Scan.{collect_while}
use c_pug.Tokens.{token_text}

pub length-skip_whitespace-le : (s : Bytes) (p : ℕ) → length (skip_whitespace s p).0 ≤ length s
unfolding skip_whitespace
length-skip_whitespace-le [] p = omega arith
length-skip_whitespace-le (c ∷ s) p = ground (arith, length-skip_whitespace-le s (p + 1))

pub length-skip_whitespace-lt :
    (c : ℕ) (s : Bytes) (p : ℕ)
    → (c == b' ') ≡ true
    → length (skip_whitespace (c ∷ s) p).0 ≤ length s
unfolding skip_whitespace is_blank
length-skip_whitespace-lt c s p h = rw h (length-skip_whitespace-le s (p + 1))

module _ (g : Glib) where
  collect-le :
      (test : ℕ → Bool) (b s : Bytes) (p : ℕ) → length (collect_while g test b s p).rest ≤ length s
  collect-le test b s p = rw (rest-collect_while g test b s p) (length-drop_while-le test s)

  module _ (mem : Reallocs) (indent n : ℕ) where
    pub length-scan_id-le :
        (s : LineState) (r : Bytes) → length (scan_id g mem indent n s r).rest ≤ length r
    unfolding scan_id add_buffer
    length-scan_id-le s r = collect-le is_name_byte _ r _

    pub length-scan_class-le :
        (s : LineState) (r : Bytes) → length (scan_class g mem indent n s r).rest ≤ length r
    unfolding scan_class add_buffer
    length-scan_class-le s r = collect-le is_name_byte _ r _

    pub length-scan_attributes-le :
        (s : LineState) (r : Bytes) → length (scan_attributes g mem indent n s r).rest ≤ length r
    unfolding scan_attributes add_buffer
    length-scan_attributes-le s r = length-collect_parens-le g 1 _ r _

    pub length-scan_tag-le :
        (s : LineState) (c : ℕ) (r : Bytes)
        → s.rest ≡ c ∷ r
        → isalpha c ≡ true
        → length (scan_tag g mem indent n s).rest ≤ length r
    unfolding scan_tag add_buffer
    length-scan_tag-le s c r e h =
        let first : is_tag_byte c ≡ true = (unfold is_tag_byte isalnum in rw h) in
        rw (rest-collect_while g is_tag_byte (g.g_string_truncate s.buffer 0) s.rest s.pos, e)
          (length-drop_while-lt is_tag_byte c r first)

    length-close_interpolation-le :
        (s : LineState) (x : Bytes)
        → s.rest ≡ x
        → length (close_interpolation g mem indent n s x).rest ≤ length x
    unfolding close_interpolation
    length-close_interpolation-le s [] e = omega (arith, ap length e)
    length-close_interpolation-le s (c ∷ x) e = ground (arith, ap length e)

    length-scan_interpolation-le :
        (s : LineState) (r : Bytes) → length (scan_interpolation g mem indent n s r).rest ≤ length r
    unfolding scan_interpolation add_buffer
    length-scan_interpolation-le s r =
        let scan = collect_while g (is_not b'}') (g.g_string_truncate s.buffer 0) r (s.pos + 2) in
        omega (
          arith,
          length-close_interpolation-le (at_scan s (s.pos + 2) scan) scan.rest refl,
          collect-le (is_not b'}') (g.g_string_truncate s.buffer 0) r (s.pos + 2),
        )

    length-scan_hash-le :
        (s : LineState) (r : Bytes) → length (scan_hash g mem indent n s r).rest ≤ length r
    unfolding scan_hash
    length-scan_hash-le s [] = omega arith
    length-scan_hash-le s (d ∷ r) = ground (arith, length-scan_interpolation-le s r)

    length-after_text-le :
        (s : LineState) (x : Bytes)
        → s.rest ≡ x
        → length (after_text g mem indent n s x).rest ≤ length x
    unfolding after_text
    length-after_text-le s [] e = omega (arith, ap length e)
    length-after_text-le s (c ∷ x) e = ground (arith, ap length e, length-scan_hash-le s x)

    after_text-hash :
        (s : LineState) (c : ℕ) (x : Bytes)
        → (c == b'#') ≡ true
        → length (after_text g mem indent n s (c ∷ x)).rest ≤ length x
    unfolding after_text
    after_text-hash s c x h = rw h (length-scan_hash-le s x)

    rest-some_text :
        (s : LineState) (b : Bool)
        → (if b then add_buffer g mem indent n token_text s else s).rest ≡ s.rest
    unfolding add_buffer
    rest-some_text s b = ground arith

    -- `x` is what is left behind the text before a `#`.
    after_text-shrinks :
        (s : LineState) (c : ℕ) (r x : Bytes)
        → s.rest ≡ x
        → x ≡ drop_while (is_not b'#') (c ∷ r)
        → length (after_text g mem indent n s x).rest ≤ length r
    unfolding drop_while
    after_text-shrinks s c r x e d = elim (Bool-cases (c == b'#')) [
      | inl hit ↦ let d' : x ≡ c ∷ r = (rw hit at d) in rw d' (after_text-hash s c r hit)
      | inr miss ↦
          let d' : x ≡ drop_while (is_not b'#') r = (rw miss at d) in
          omega
            (arith, length-after_text-le s x e, length-drop_while-le (is_not b'#') r, ap length d')
    ]

    pub length-text_step-le :
        (s : LineState) (c : ℕ) (r : Bytes)
        → s.rest ≡ c ∷ r
        → length (text_step g mem indent n s).rest ≤ length r
    unfolding text_step
    length-text_step-le s c r e =
        let scan = collect_while g (is_not b'#') (g.g_string_truncate s.buffer 0) s.rest s.pos in
        let read = at_scan s s.column scan in
        after_text-shrinks
          (if ltb 0 (length read.buffer) then add_buffer g mem indent n token_text read else read) c
          r scan.rest (rest-some_text read (ltb 0 (length read.buffer)))
          (rw (rest-collect_while g (is_not b'#') (g.g_string_truncate s.buffer 0) s.rest s.pos, e))
