-- ===== src/Tokenizer/Columns/Loops.antt =====
-- The loops over text and over a line keep the columns within the line.
use mathlib.Core.Option
use c_pug.TokenList.{Reallocs}
use c_pug.Common.{
  ℕ, zero, suc, ◌+◌, ◌≤◌, ◌≡◌, ap, ◌||◌, Option, none, some, [], ◌∷◌, Bytes, ◌==◌, arith, length,
  Bool-cases, Option-cases, List-cases, inl, inr, ltb, if_cases,
}
use c_pug.Glib.{Glib}
use c_pug.Tokenizer.Chars.{isalpha, is_not}
use c_pug.Tokenizer.Columns.{
  Within, skip-sum, while-sum, add_buffer-Within, at_scan-Within, scan_id-Within, scan_class-Within,
  scan_attributes-Within, scan_tag-Within, close-Within,
}
use c_pug.Tokenizer.Indent.{skip_whitespace}
use c_pug.Tokenizer.Line.Text.{
  LineState, Step, continues, breaks, at_scan, add_buffer, close_interpolation, scan_interpolation,
  scan_hash, after_text, text_step, text_loop, scan_text, scan_space, scan_step, scan_loop,
}
use c_pug.Tokenizer.Scan.{collect_while}
use c_pug.Tokens.{token_text, token_interpolation, Token}

-- What a loop returns, if it does.
abbrev pub Any {ℓ} : {A : Type ℓ} → (A → Type 0) → Option A → Type 0
Any P none = Unit
Any P (some a) = P a

module _ (g : Glib) (mem : Reallocs) (indent n w : ℕ) (P : Token → Type 0)
    (fits : (t : Token) → t.line ≡ n → t.column ≤ w → P t) where
  scan_interpolation-Within :
      (s : LineState) (r : Bytes)
      → Within P w s
      → s.pos + suc (suc (length r)) ≤ w
      → Within P w (scan_interpolation g mem indent n s r)
  unfolding scan_interpolation
  scan_interpolation-Within s r h le =
      let b = g.g_string_truncate s.buffer 0 in
      let scan = collect_while g (is_not b'}') b r (s.pos + 2) in
      let place : scan.pos + length scan.rest ≤ w =
        omega (arith, while-sum g (is_not b'}') b r (s.pos + 2), le) in
      let s' = at_scan s (s.pos + 2) scan in
      let h' =
        at_scan-Within g mem indent n w P fits s (s.pos + 2) scan h (omega (arith, le)) place in
      add_buffer-Within g mem indent n w P fits token_interpolation
        (close_interpolation g mem indent n s' scan.rest)
        (close-Within g mem indent n w P fits s' h' scan.rest place)

  scan_hash-Within :
      (s : LineState) (r : Bytes)
      → Within P w s
      → s.pos + suc (length r) ≤ w
      → Within P w (scan_hash g mem indent n s r)
  unfolding scan_hash
  scan_hash-Within s [] h le = record {
    tokens_are = h.tokens_are;
    place = omega (arith, le);
    column_in = h.column_in;
  }
  scan_hash-Within s (d ∷ r) h le = elim (Bool-cases (d == b'{')) [
    | inl opens ↦ rw opens (scan_interpolation-Within s r h (omega (arith, le)))
    | inr other ↦
        rw other
          (record { tokens_are = h.tokens_are; place = omega (arith, le); column_in = h.column_in })
  ]

  after_text-Within :
      (s : LineState) (x : Bytes)
      → Within P w s
      → s.pos + length x ≤ w
      → Within P w (after_text g mem indent n s x)
  unfolding after_text
  after_text-Within s [] h le = h
  after_text-Within s (c ∷ x) h le = elim (Bool-cases (c == b'#')) [
    | inl hash ↦ rw hash (scan_hash-Within s x h (omega (arith, le)))
    | inr other ↦ rw other h
  ]

  text_step-Within : (s : LineState) → Within P w s → Within P w (text_step g mem indent n s)
  unfolding text_step
  text_step-Within s h =
      let b = g.g_string_truncate s.buffer 0 in
      let scan = collect_while g (is_not b'#') b s.rest s.pos in
      let place : scan.pos + length scan.rest ≤ w =
        omega (arith, while-sum g (is_not b'#') b s.rest s.pos, h.place) in
      let read = at_scan s s.column scan in
      let h' = at_scan-Within g mem indent n w P fits s s.column scan h h.column_in place in
      elim (Bool-cases (ltb 0 (length read.buffer))) [
        | inl full ↦ rw full (
            after_text-Within (add_buffer g mem indent n token_text read) scan.rest
              (add_buffer-Within g mem indent n w P fits token_text read h')
              (unfold add_buffer in place))
        | inr nothing ↦ rw nothing (after_text-Within read scan.rest h' place)
      ]

  text_loop-Within :
      (fuel : ℕ) (s : LineState) → Within P w s → Any (Within P w) (text_loop g mem indent n fuel s)
  unfolding text_loop
  text_loop-Within zero s h = tt
  text_loop-Within (suc fuel) s h = elim (List-cases s.rest) [
    | inl e ↦ rw (text_loop, e) h
    | inr (c, r, e) ↦
        rw (text_loop, e)
          (text_loop-Within fuel (text_step g mem indent n s) (text_step-Within s h))
  ]

  abbrev StepWithin : Step → Type 0
  StepWithin (continues s) = Within P w s
  StepWithin (breaks s) = Within P w s

  broken : (o : Option LineState) → Any (Within P w) o → Any StepWithin (Option.map breaks o)
  broken none h = tt
  broken (some s) h = h

  scan_text-Within :
      (s : LineState) (x : Bytes) → Within P w s → Any StepWithin (scan_text g mem indent n s x)
  unfolding scan_text
  scan_text-Within s [] h = h
  scan_text-Within s (c ∷ x) h = elim (Bool-cases (c == b'#' || c == b'.')) [
    | inl mark ↦ rw mark h
    | inr text ↦ rw text (
        broken (text_loop g mem indent n (length s.rest + 1) (record s { column = s.pos })) (
          text_loop-Within (length s.rest + 1) (record s { column = s.pos })
            (record {
              tokens_are = h.tokens_are;
              place = h.place;
              column_in = omega (arith, h.place);
            })))
  ]

  scan_space-Within : (s : LineState) → Within P w s → Any StepWithin (scan_space g mem indent n s)
  unfolding scan_space
  scan_space-Within s h = scan_text-Within _ (skip_whitespace s.rest s.pos).0 (record {
    tokens_are = h.tokens_are;
    place = omega (arith, skip-sum s.rest s.pos, h.place);
    column_in = h.column_in;
  })

  scan_step-Within :
      (s : LineState) (c : ℕ) (r : Bytes)
      → s.rest ≡ c ∷ r
      → Within P w s
      → Any StepWithin (scan_step g mem indent n s c r)
  unfolding scan_step
  scan_step-Within s c r e h =
      let le : s.pos + suc (length r) ≤ w = omega (arith, h.place, ap length e) in
      if_cases (Any StepWithin) (c == b'#') _ _
        (λ t. scan_id-Within g mem indent n w P fits s h r le)
        (λ f.
          if_cases (Any StepWithin) (c == b'.') _ _
            (λ t. scan_class-Within g mem indent n w P fits s h r le)
            (λ f.
              if_cases (Any StepWithin) (c == b'(') _ _
                (λ t. scan_attributes-Within g mem indent n w P fits s h r le)
                (λ f.
                  if_cases (Any StepWithin) (isalpha c) _ _
                    (λ t. scan_tag-Within g mem indent n w P fits s h)
                    (λ f.
                      if_cases (Any StepWithin) (c == b' ') _ _ (λ t. scan_space-Within s h)
                        (λ f. record {
                          tokens_are = h.tokens_are;
                          place = omega (arith, le);
                          column_in = h.column_in;
                        })))))

  pub scan_loop-Within :
      (fuel : ℕ) (s : LineState) → Within P w s → Any (Within P w) (scan_loop g mem indent n fuel s)
  unfolding scan_loop
  scan_loop-Within zero s h = tt
  scan_loop-Within (suc fuel) s h = elim (List-cases s.rest) [
    | inl e ↦ rw (scan_loop, e) h
    | inr (c, r, e) ↦
        let turn = scan_step-Within s c r e h in
        elim (Option-cases (scan_step g mem indent n s c r)) [
          | inl out ↦ rw (scan_loop, e, out) tt
          | inr (continues s', q) ↦ rw (scan_loop, e, q) (scan_loop-Within fuel s' (rw q at turn))
          | inr (breaks s', q) ↦ rw (scan_loop, e, q) (rw q at turn)
        ]
  ]
