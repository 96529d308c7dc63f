-- ===== src/Tokenizer/Sound/Text.antt =====
-- Ids, classes, attributes, tags and pieces of text: what one turn of a loop adds to the list.
use c_pug.TokenList.{Reallocs}
use c_pug.Common.{
  ℕ, ◌+◌, ◌≡◌, refl, Bool, true, some, [], ◌∷◌, Bytes, arith, ◌==◌, length, Bool-cases, inl, inr,
  if◌then◌else◌, ltb,
}
use c_pug.Glib.{Glib, Documented}
use c_pug.TokenList.Extends.{IsLimited, IsBounded, Extends, Extends-refl, Extends-trans}
use c_pug.Tokenizer.Chars.{isalpha, isalnum, is_name_byte, is_tag_byte, is_not}
use c_pug.Tokenizer.Line.Text.{
  LineState, at_scan, add_buffer, scan_id, scan_class, scan_attributes, scan_tag,
  close_interpolation, scan_interpolation, scan_hash, after_text, text_step,
}
use c_pug.Tokenizer.Scan.Pieces.{all, take_while, all-take_while, take_while-cons}
use c_pug.Tokenizer.Scan.{collect_while, collect_parens}
use c_pug.Tokenizer.Sound.Values.{starts, value_ok, IsFrom, create_token-Extends, buffer-truncate}
use c_pug.Tokens.{
  TokenType, token_tag, token_class, token_id, token_attribute, token_text, token_dot,
  token_interpolation,
}

starts-all :
    (test : ℕ → Bool) (v : Bytes)
    → all test v ≡ true
    → ltb 0 (length v) ≡ true
    → starts test v ≡ true
starts-all test [] h k = cc
starts-all test (c ∷ v) h k = ground arith

class_or_dot-ok :
    (v : Bytes)
    → all is_name_byte v ≡ true
    → value_ok (if ltb 0 (length v) then token_class else token_dot) (some v) ≡ true
unfolding value_ok
class_or_dot-ok [] h = refl
class_or_dot-ok (c ∷ v) h = elim (Bool-cases (ltb 0 (length (c ∷ v)))) [
  | inl some_bytes ↦ rw some_bytes (ground arith)
  | inr empty ↦ absurd (ground arith)
]

text-ok :
    (v : Bytes)
    → all (is_not b'#') v ≡ true
    → ltb 0 (length v) ≡ true
    → value_ok token_text (some v) ≡ true
unfolding value_ok
text-ok v h k = rw (starts-all (is_not b'#') v h k, h)

tag-ok :
    (c : ℕ) (r : Bytes)
    → isalpha c ≡ true
    → value_ok token_tag (some (take_while is_tag_byte (c ∷ r))) ≡ true
unfolding value_ok
tag-ok c r h =
    let first : is_tag_byte c ≡ true = (unfold is_tag_byte isalnum in rw h) in
    rw (take_while-cons is_tag_byte c r first, h, first) (all-take_while is_tag_byte r)

module _ (g : Glib) (mem : Reallocs) (indent n : ℕ) (doc : Documented g)
    (limited : IsLimited mem) where
  add_buffer-Extends :
      (type : TokenType) (s : LineState)
      → IsBounded s.tokens
      → value_ok type (some s.buffer) ≡ true
      → Extends (IsFrom indent n) s.tokens (add_buffer g mem indent n type s).tokens
  unfolding add_buffer
  add_buffer-Extends type s b ok =
      create_token-Extends s.tokens type (some s.buffer) indent n s.column limited b ok

  pub scan_id-Extends :
      (s : LineState) (r : Bytes)
      → IsBounded s.tokens
      → Extends (IsFrom indent n) s.tokens (scan_id g mem indent n s r).tokens
  unfolding scan_id value_ok
  scan_id-Extends s r b =
      add_buffer-Extends token_id (at_scan s _ (collect_while g is_name_byte _ r _)) b
        (rw (buffer-truncate g is_name_byte s.buffer r (s.pos + 1) doc, all-take_while))

  pub scan_class-Extends :
      (s : LineState) (r : Bytes)
      → IsBounded s.tokens
      → Extends (IsFrom indent n) s.tokens (scan_class g mem indent n s r).tokens
  unfolding scan_class
  scan_class-Extends s r b =
      add_buffer-Extends _ (at_scan s _ (collect_while g is_name_byte _ r _)) b (
        class_or_dot-ok _
          (rw (buffer-truncate g is_name_byte s.buffer r (s.pos + 1) doc, all-take_while)))

  pub scan_attributes-Extends :
      (s : LineState) (r : Bytes)
      → IsBounded s.tokens
      → Extends (IsFrom indent n) s.tokens (scan_attributes g mem indent n s r).tokens
  unfolding scan_attributes value_ok
  scan_attributes-Extends s r b =
      add_buffer-Extends token_attribute (at_scan s s.column (collect_parens g 1 _ r _)) b refl

  pub scan_tag-Extends :
      (s : LineState) (c : ℕ) (r : Bytes)
      → s.rest ≡ c ∷ r
      → isalpha c ≡ true
      → IsBounded s.tokens
      → Extends (IsFrom indent n) s.tokens (scan_tag g mem indent n s).tokens
  unfolding scan_tag
  scan_tag-Extends s c r e h b =
      add_buffer-Extends token_tag (at_scan s s.pos (collect_while g is_tag_byte _ s.rest s.pos)) b
        (rw (buffer-truncate g is_tag_byte s.buffer s.rest s.pos doc, e) (tag-ok c r h))

  closed-Extends :
      (s : LineState) (x : Bytes)
      → IsBounded s.tokens
      → value_ok token_interpolation (some s.buffer) ≡ true
      → Extends
          (IsFrom indent n)
          s.tokens
          (add_buffer g mem indent n token_interpolation
            (close_interpolation g mem indent n s x)).tokens
  unfolding close_interpolation
  closed-Extends s [] b ok = add_buffer-Extends token_interpolation s b ok
  closed-Extends s (c ∷ x) b ok = elim (Bool-cases (c == b'}')) [
    | inl closes ↦
        rw closes
          (add_buffer-Extends token_interpolation (record s { rest = x; pos = s.pos + 1 }) b ok)
    | inr more ↦ rw more (add_buffer-Extends token_interpolation s b ok)
  ]

  scan_interpolation-Extends :
      (s : LineState) (r : Bytes)
      → IsBounded s.tokens
      → Extends (IsFrom indent n) s.tokens (scan_interpolation g mem indent n s r).tokens
  unfolding scan_interpolation
  scan_interpolation-Extends s r b =
      closed-Extends (at_scan s _ (collect_while g (is_not b'}') _ r _)) _ b (
        unfold value_ok in
        rw (buffer-truncate g (is_not b'}') s.buffer r (s.pos + 2) doc, all-take_while))

  scan_hash-Extends :
      (s : LineState) (r : Bytes)
      → IsBounded s.tokens
      → Extends (IsFrom indent n) s.tokens (scan_hash g mem indent n s r).tokens
  unfolding scan_hash
  scan_hash-Extends s [] b = Extends-refl b
  scan_hash-Extends s (d ∷ r) b = elim (Bool-cases (d == b'{')) [
    | inl opens ↦ rw opens (scan_interpolation-Extends s r b)
    | inr alone ↦ rw alone (Extends-refl b)
  ]

  after_text-Extends :
      (s : LineState) (r : Bytes)
      → IsBounded s.tokens
      → Extends (IsFrom indent n) s.tokens (after_text g mem indent n s r).tokens
  unfolding after_text
  after_text-Extends s [] b = Extends-refl b
  after_text-Extends s (c ∷ r) b = elim (Bool-cases (c == b'#')) [
    | inl hash ↦ rw hash (scan_hash-Extends s r b)
    | inr other ↦ rw other (Extends-refl b)
  ]

  some_text-Extends :
      (s : LineState)
      → IsBounded s.tokens
      → all (is_not b'#') s.buffer ≡ true
      → Extends
          (IsFrom indent n)
          s.tokens
          (if ltb 0 (length s.buffer) then add_buffer g mem indent n token_text s else s).tokens
  some_text-Extends s b h = elim (Bool-cases (ltb 0 (length s.buffer))) [
    | inl some_bytes ↦
        rw some_bytes (add_buffer-Extends token_text s b (text-ok s.buffer h some_bytes))
    | inr empty ↦ rw empty (Extends-refl b)
  ]

  pub text_step-Extends :
      (s : LineState)
      → IsBounded s.tokens
      → Extends (IsFrom indent n) s.tokens (text_step g mem indent n s).tokens
  unfolding text_step
  text_step-Extends s b =
      let read = at_scan s s.column (collect_while g (is_not b'#') _ s.rest s.pos) in
      let text =
        some_text-Extends read b
          (rw (buffer-truncate g (is_not b'#') s.buffer s.rest s.pos doc, all-take_while)) in
      Extends-trans text (after_text-Extends _ _ text.bounded)
