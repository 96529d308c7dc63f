-- ===== src/Tokenizer/Sound/Values.antt =====
-- The form of the value of a token, by its type, and the lemmas that add one token.
use c_pug.TokenList.{Reallocs}
use c_pug.Common.{
  ℕ, ◌≡◌, refl, Bool, true, false, not, ◌&&◌, Option, none, some, [], ◌∷◌, Bytes, ◌==◌,
}
use c_pug.Glib.{Glib, Documented}
use c_pug.TokenList.Extends.{IsLimited, IsBounded, Extends, token_list_add-Extends}
use c_pug.Tokenizer.Chars.{isalpha, is_name_byte, is_tag_byte, is_blank, is_not}
use c_pug.Tokenizer.Line.Marks.{create_token, add_token}
use c_pug.Tokenizer.Scan.Pieces.{all, take_while, buffer-collect_while}
use c_pug.Tokenizer.Scan.{collect_while}
use c_pug.Tokens.{
  TokenType, token_tag, token_class, token_id, token_attribute, token_text, token_dot, token_pipe,
  token_comment, token_block_comment, token_interpolation, token_code, token_doctype, token_include,
  token_extends, token_mixin, token_call, token_eof, Token, TokenList,
}

abbrev pub starts : (ℕ → Bool) → Bytes → Bool
starts test [] = false
starts test (c ∷ s) = test c

unfoldable pub value_ok : TokenType → Option Bytes → Bool
value_ok token_tag (some v) = starts isalpha v && all is_tag_byte v
value_ok token_class (some v) = starts is_name_byte v && all is_name_byte v
value_ok token_id (some v) = all is_name_byte v
value_ok token_dot (some v) = not (starts (λ _. true) v)
value_ok token_attribute (some v) = true
value_ok token_text (some v) = starts (is_not b'#') v && all (is_not b'#') v
value_ok token_interpolation (some v) = all (is_not b'}') v
value_ok token_comment (some v) = not (starts (λ c. c == b'-') v)
value_ok token_block_comment (some v) = true
value_ok token_pipe (some v) = not (starts is_blank v)
value_ok token_code (some v) = not (starts is_blank v)
value_ok token_doctype (some v) = not (starts is_blank v)
value_ok token_include (some v) = not (starts is_blank v)
value_ok token_extends (some v) = not (starts is_blank v)
value_ok token_mixin (some v) = not (starts is_blank v)
value_ok token_call (some v) = not (starts is_blank v)
value_ok token_eof none = true
value_ok _ _ = false

-- A token of line `n`, whose indentation is `indent`.
pub record IsFrom (indent n : ℕ) (t : Token) : Type 0 where
  pub on_line : t.line ≡ n
  pub at_depth : t.depth ≡ indent
  pub formed : value_ok t.type t.value ≡ true

pub create_token-Extends :
    {mem : Reallocs} (list : TokenList) (type : TokenType) (value : Option Bytes)
    (indent n column : ℕ)
    → IsLimited mem
    → IsBounded list
    → value_ok type value ≡ true
    → Extends (IsFrom indent n) list (add_token mem list (create_token type value indent n column))
unfolding create_token add_token
create_token-Extends list type value indent n column limited b ok =
    token_list_add-Extends list _ limited b
      (record { on_line = refl; at_depth = refl; formed = ok })

-- An emptied buffer holds what the loop has read.
pub buffer-truncate :
    (g : Glib) (test : ℕ → Bool) (b s : Bytes) (p : ℕ)
    → Documented g
    → (collect_while g test (g.g_string_truncate b 0) s p).buffer ≡ take_while test s
buffer-truncate g test b s p doc = rw (doc.truncate_zero b) (buffer-collect_while g doc test [] s p)
