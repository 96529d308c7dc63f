-- ===== src/Tests/Tokens.antt =====
-- The tokenizer at small files.
use c_pug.Common.{ℕ, Bool, true, ◌≡◌, refl, Option, none, some, List, [], ◌∷◌, Bytes, codes, map}
use c_pug.Glib.Standin.{standin}
use c_pug.Tokenizer.File.{tokenize_file}
use c_pug.Tokens.{
  TokenType, token_tag, token_class, token_id, token_attribute, token_text, token_interpolation,
  token_eof, Token, TokenList, token_doctype,
}
use mathlib.Core.Option
use c_pug.TokenList.{token_list_create, token_list_add, Reallocs}
use c_pug.Tokenizer.Chars.{isalpha, is_name_byte, is_tag_byte}
use c_pug.Tokenizer.Indent.{count_spaces, indent_loop, count_indent_level, skip_whitespace}
use c_pug.Tokenizer.Scan.{collect_while, collect_parens}
use c_pug.Tokenizer.Line.Marks.{
  create_token, add_token, directive_line, doctype_line, include_line, extends_line, mixin_line,
  call_line, comment_line, pipe_line, code_line,
}
use c_pug.Tokenizer.Line.Text.{
  add_buffer, scan_id, scan_class, scan_attributes, scan_tag, close_interpolation,
  scan_interpolation, scan_hash, after_text, text_step, text_loop, scan_text, scan_space, scan_step,
  scan_loop,
}
use c_pug.Tokenizer.Line.Start.{start_line, nonblank_line, tokenize_line}
use c_pug.Tokenizer.File.{tokenize_lines}

abbrev pub always : ℕ → Bool
always n = true

abbrev pub granted : Reallocs
granted n t = true

abbrev seen : Option TokenList → Option (List (TokenType × Option Bytes × ℕ × ℕ × ℕ))
seen = Option.map (λ l. map (λ (t : Token). (t.type, t.value, t.line, t.column, t.depth)) l.tokens)

unfoldable pub tokenizer : Unit {0}
unfolding token_list_create token_list_add create_token add_token directive_line doctype_line
    include_line extends_line mixin_line call_line comment_line pipe_line code_line add_buffer
    scan_id scan_class scan_attributes scan_tag close_interpolation scan_interpolation scan_hash
    after_text text_step text_loop scan_text scan_space scan_step scan_loop start_line nonblank_line
    tokenize_line tokenize_lines tokenize_file count_spaces indent_loop count_indent_level
    skip_whitespace collect_while collect_parens isalpha is_name_byte is_tag_byte
tokenizer = tt

abbrev page : Bytes
page = codes "doctype html\n  div#main.card(a='1') hi #{x} y\n"

page_tokens :
    seen (tokenize_file standin granted page)
    ≡ some (
        (token_doctype, some (codes "html"), 1, 0, 0)
        ∷ (token_tag, some (codes "div"), 2, 2, 1)
        ∷ (token_id, some (codes "main"), 2, 6, 1)
        ∷ (token_class, some (codes "card"), 2, 11, 1)
        ∷ (token_attribute, some (codes "a='1'"), 2, 11, 1)
        ∷ (token_text, some (codes "hi "), 2, 23, 1)
        ∷ (token_interpolation, some (codes "x"), 2, 28, 1)
        ∷ (token_text, some (codes " y"), 2, 28, 1)
        ∷ (token_eof, none, 4, 0, 0)
        ∷ [])
unfolding tokenizer standin
page_tokens = refl
