-- ===== src/Tokenizer/Columns.antt =====
-- The columns of the tokens lie within their lines.
pub mod Loops
pub mod File
use c_pug.TokenList.{Reallocs, token_list_add}
use c_pug.Common.{
  ℕ, zero, suc, ◌+◌, ◌≤◌, ◌≡◌, refl, Bool, true, false, Option, none, some, [], ◌∷◌, Bytes, ◌==◌,
  arith, length, put_elem, Bool-cases, inl, inr, ◌⊎◌, All, All-put_elem, ltb, leb, if◌then◌else◌,
  drop,
}
use c_pug.Glib.{Glib}
use c_pug.Tokenizer.Chars.{is_name_byte, is_tag_byte, is_not}
use c_pug.Tokenizer.Indent.{skip_whitespace}
use c_pug.Tokenizer.Line.Marks.{create_token, add_token}
use c_pug.Tokenizer.Line.Text.{
  LineState, at_scan, add_buffer, scan_id, scan_class, scan_attributes, scan_tag,
  close_interpolation, scan_interpolation, scan_hash, after_text, text_step,
}
use c_pug.Tokenizer.Scan.{Scan, collect_while, next_level, collect_parens}
use c_pug.Tokenizer.Scan.Pieces.{drop_while, rest-collect_while, pos-collect_while}
use c_pug.Tokens.{
  TokenType, token_id, token_attribute, token_tag, token_text, token_interpolation, Token,
  TokenList,
}

-- An add stores the token in the list or leaves the tokens.
token_list_add-All :
    (P : Token → Type 0) (ok : Bool) (l : TokenList) (t : Token)
    → P t
    → All P l.tokens
    → All P (token_list_add ok l (some t)).tokens
unfolding token_list_add
token_list_add-All P ok l t p a = elim (Bool-cases (leb l.capacity l.count)) [
  | inr room ↦ rw (room, token_list_add) (All-put_elem P l.tokens l.count t p a)
  | inl full ↦ elim (Bool-cases ok) [
    | inl grown ↦ rw (full, grown, token_list_add) (All-put_elem P l.tokens l.count t p a)
    | inr lost ↦ rw (full, lost, token_list_add) a
  ]
]

-- A scan keeps the sum of the index and the length of what is left of the line.
pub skip-sum :
    (s : Bytes) (p : ℕ) → (skip_whitespace s p).1 + length (skip_whitespace s p).0 ≡ p + length s
unfolding skip_whitespace
skip-sum [] p = refl
skip-sum (c ∷ s) p = ground (arith, skip-sum s (p + 1))

module _ (g : Glib) where
  pub while-sum :
      (test : ℕ → Bool) (b s : Bytes) (p : ℕ)
      → (collect_while g test b s p).pos + length (collect_while g test b s p).rest ≡ p + length s
  while-sum test b s p = rw (rest-collect_while g test b s p) (pos-collect_while g test b s p)

  parens-sum :
      (level : ℕ) (b s : Bytes) (p : ℕ)
      → (collect_parens g level b s p).pos + length (collect_parens g level b s p).rest
        ≡ p + length s
  unfolding collect_parens
  parens-sum zero b [] p = refl
  parens-sum zero b (c ∷ s) p = refl
  parens-sum (suc level) b [] p = refl
  parens-sum (suc level) b (c ∷ s) p =
      let level' = next_level g c (suc level) in
      let b' = if level' == 0 then b else g.g_string_append_c b c in
      omega (arith, parens-sum level' b' s (p + 1))

-- The tokens satisfy `P`, and the indices lie within a line of `w` bytes.
pub record Within (P : Token → Type 0) (w : ℕ) (s : LineState) : Type 0 where
  pub tokens_are : All P s.tokens.tokens
  pub place : s.pos + length s.rest ≤ w
  pub column_in : s.column ≤ w

module _ (g : Glib) (mem : Reallocs) (indent n w : ℕ) (P : Token → Type 0)
    (fits : (t : Token) → t.line ≡ n → t.column ≤ w → P t) where
  pub create_token-All :
      (l : TokenList) (type : TokenType) (value : Option Bytes) (column : ℕ)
      → column ≤ w
      → All P l.tokens
      → All P (add_token mem l (create_token type value indent n column)).tokens
  unfolding create_token add_token
  create_token-All l type value column le a = token_list_add-All P _ l _ (fits _ refl le) a

  pub add_buffer-Within :
      (type : TokenType) (s : LineState)
      → Within P w s
      → Within P w (add_buffer g mem indent n type s)
  unfolding add_buffer
  add_buffer-Within type s h = record {
    tokens_are = create_token-All s.tokens type (some s.buffer) s.column h.column_in h.tokens_are;
    place = h.place;
    column_in = h.column_in;
  }

  pub at_scan-Within :
      (s : LineState) (column : ℕ) (scan : Scan)
      → Within P w s
      → column ≤ w
      → scan.pos + length scan.rest ≤ w
      → Within P w (at_scan s column scan)
  at_scan-Within s column scan h le place = record {
    tokens_are = h.tokens_are;
    place = place;
    column_in = le;
  }

  module _ (s : LineState) (h : Within P w s) where
    pub scan_id-Within :
        (r : Bytes) → s.pos + suc (length r) ≤ w → Within P w (scan_id g mem indent n s r)
    unfolding scan_id
    scan_id-Within r le =
        let b = g.g_string_truncate s.buffer 0 in
        add_buffer-Within token_id _ (
          at_scan-Within s (s.pos + 1) (collect_while g is_name_byte b r (s.pos + 1)) h
            (omega (arith, le)) (omega (arith, while-sum g is_name_byte b r (s.pos + 1), le)))

    pub scan_class-Within :
        (r : Bytes) → s.pos + suc (length r) ≤ w → Within P w (scan_class g mem indent n s r)
    unfolding scan_class
    scan_class-Within r le =
        let b = g.g_string_truncate s.buffer 0 in
        add_buffer-Within _ _ (
          at_scan-Within s (s.pos + 1) (collect_while g is_name_byte b r (s.pos + 1)) h
            (omega (arith, le)) (omega (arith, while-sum g is_name_byte b r (s.pos + 1), le)))

    pub scan_attributes-Within :
        (r : Bytes) → s.pos + suc (length r) ≤ w → Within P w (scan_attributes g mem indent n s r)
    unfolding scan_attributes
    scan_attributes-Within r le =
        let b = g.g_string_truncate s.buffer 0 in
        add_buffer-Within token_attribute _ (
          at_scan-Within s s.column (collect_parens g 1 b r (s.pos + 1)) h h.column_in
            (omega (arith, parens-sum g 1 b r (s.pos + 1), le)))

    pub scan_tag-Within : Within P w (scan_tag g mem indent n s)
    unfolding scan_tag
    scan_tag-Within =
        let b = g.g_string_truncate s.buffer 0 in
        add_buffer-Within token_tag _ (
          at_scan-Within s s.pos (collect_while g is_tag_byte b s.rest s.pos) h
            (omega (arith, h.place))
            (omega (arith, while-sum g is_tag_byte b s.rest s.pos, h.place)))

    pub close-Within :
        (x : Bytes) → s.pos + length x ≤ w → Within P w (close_interpolation g mem indent n s x)
    unfolding close_interpolation
    close-Within [] le = h
    close-Within (c ∷ x) le = elim (Bool-cases (c == b'}')) [
      | inl closes ↦
          rw closes (record {
            tokens_are = h.tokens_are;
            place = omega (arith, le);
            column_in = h.column_in;
          })
      | inr more ↦ rw more h
    ]
