-- ===== src/Tokenizer/File.antt =====
-- `tokenize_file`.
use c_pug.Common.{ℕ, ◌+◌, Option, none, some, List, [], ◌∷◌, Bytes, length, codes, ◌>>=◌}
use c_pug.Glib.{Glib, pos}
use c_pug.TokenList.{token_list_create, Reallocs}
use c_pug.Tokenizer.Line.Marks.{create_token, add_token}
use c_pug.Tokenizer.Line.Start.{tokenize_line}
use c_pug.Tokens.{token_eof, TokenList}

module _ (g : Glib) (mem : Reallocs) where
  open g use {g_strsplit}

  -- The loop over the lines; line `i` of the array has number `i + 1`.
  unfoldable pub tokenize_lines : TokenList → List Bytes → ℕ → Option TokenList
  tokenize_lines list [] i = some list
  tokenize_lines list (line ∷ lines) i = do
    list' ← tokenize_line g mem list line (i + 1)
    tokenize_lines list' lines (i + 1)

  unfoldable pub tokenize_file : Bytes → Option TokenList
  tokenize_file content =
      let lines = g_strsplit content (codes "\n") (pos 0) in
      do
        list ← tokenize_lines token_list_create lines 0
        some (add_token mem list (create_token token_eof none 0 (length lines + 1) 0))
