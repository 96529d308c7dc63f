-- ===== src/Tokenizer/Columns/File.antt =====
-- Each token of `tokenize_file` stands at a column of its line, or behind the last line.
use mathlib.Core.Option
use c_pug.TokenList.{Reallocs, token_list_create}
use c_pug.Common.{
  ℕ, suc, ◌+◌, ◌≤◌, ◌≡◌, refl, ap, ◌⊎◌, Option, none, some, List, [], ◌∷◌, Bytes, ◌==◌, arith,
  length, codes, Bool-cases, Option-cases, inl, inr, if_cases, All, get_elem?, drop, ◌∙◌,
}
use c_pug.Glib.{Glib, Documented, pos}
use c_pug.TokenList.Extends.{IsLimited}
use c_pug.Tokenizer.Columns.{Within, skip-sum, create_token-All}
use c_pug.Tokenizer.Columns.Loops.{Any, scan_loop-Within}
use c_pug.Tokenizer.File.{tokenize_lines, tokenize_file}
use c_pug.Tokenizer.Indent.{count_indent_level, skip_whitespace}
use c_pug.Tokenizer.Line.Marks.{
  directive_line, doctype_line, include_line, extends_line, mixin_line, call_line, comment_line,
  pipe_line, code_line,
}
use c_pug.Tokenizer.Line.Start.{at_slashes, start_line, nonblank_line, tokenize_line}
use c_pug.Tokenizer.Line.Text.{LineState}
use c_pug.Tokenizer.Sound.File.{tokenize_file_lem}
use c_pug.Tokens.{
  TokenType, token_comment, token_block_comment, token_pipe, token_code, token_eof, Token,
  TokenList,
}

module _ (g : Glib) (mem : Reallocs) (indent n w : ℕ) (P : Token → Type 0)
    (fits : (t : Token) → t.line ≡ n → t.column ≤ w → P t) where
  abbrev AllP : TokenList → Type 0
  AllP l = All P l.tokens

  directive_line-All :
      (type : TokenType) (k : ℕ) (l : TokenList) (rest : Bytes) (column : ℕ)
      → column ≤ w
      → AllP l
      → AllP (directive_line g mem indent n type k l rest column)
  unfolding directive_line
  directive_line-All type k l rest column le a =
      create_token-All g mem indent n w P fits l type _ column le a

  comment_line-All :
      (l : TokenList) (rest : Bytes) (column : ℕ)
      → column ≤ w
      → AllP l
      → AllP (comment_line g mem indent n l rest column)
  unfolding comment_line
  comment_line-All l [] column le a =
      create_token-All g mem indent n w P fits l token_comment (some []) column le a
  comment_line-All l (c ∷ s) column le a = elim (Bool-cases (c == b'-')) [
    | inl hit ↦
        rw hit (create_token-All g mem indent n w P fits l token_block_comment (some s) column le a)
    | inr miss ↦
        rw miss
          (create_token-All g mem indent n w P fits l token_comment (some (c ∷ s)) column le a)
  ]

  pipe_line-All :
      (l : TokenList) (rest : Bytes) (column : ℕ)
      → column ≤ w
      → AllP l
      → AllP (pipe_line g mem indent n l rest column)
  unfolding pipe_line
  pipe_line-All l rest column le a =
      create_token-All g mem indent n w P fits l token_pipe _ column le a

  code_line-All :
      (l : TokenList) (rest : Bytes) (column : ℕ)
      → column ≤ w
      → AllP l
      → AllP (code_line g mem indent n l rest column)
  unfolding code_line
  code_line-All l rest column le a =
      create_token-All g mem indent n w P fits l token_code _ column le a

  scanned :
      (o : Option LineState)
      → Any (Within P w) o
      → Any AllP (Option.map (λ (s : LineState). s.tokens) o)
  scanned none h = tt
  scanned (some s) h = h.tokens_are

  start_line-All :
      (l : TokenList) (column c : ℕ) (r : Bytes)
      → column + suc (length r) ≤ w
      → AllP l
      → Any AllP (start_line g mem indent n l column c r)
  unfolding start_line doctype_line include_line extends_line mixin_line call_line
  start_line-All l column c r le a =
      let le' : column ≤ w = omega (arith, le) in
      let rest = c ∷ r in
      if_cases (Any AllP) (g.g_str_has_prefix rest (codes "doctype")) _ _
        (λ t. directive_line-All _ _ l rest column le' a)
        (λ f.
          if_cases (Any AllP) (g.g_str_has_prefix rest (codes "include")) _ _
            (λ t. directive_line-All _ _ l rest column le' a)
            (λ f.
              if_cases (Any AllP) (g.g_str_has_prefix rest (codes "extends")) _ _
                (λ t. directive_line-All _ _ l rest column le' a)
                (λ f.
                  if_cases (Any AllP) (g.g_str_has_prefix rest (codes "mixin")) _ _
                    (λ t. directive_line-All _ _ l rest column le' a)
                    (λ f.
                      if_cases (Any AllP) (c == b'+') _ _
                        (λ t. directive_line-All _ _ l rest column le' a)
                        (λ f.
                          if_cases (Any AllP) (at_slashes c r) _ _
                            (λ t. comment_line-All l (drop 1 r) column le' a)
                            (λ f.
                              if_cases (Any AllP) (c == b'|') _ _
                                (λ t. pipe_line-All l rest column le' a)
                                (λ f.
                                  if_cases (Any AllP) (c == b'-') _ _
                                    (λ t. code_line-All l rest column le' a)
                                    (λ f. scanned _ (
                                      scan_loop-Within g mem indent n w P fits (length rest + 1) _
                                        (record {
                                          tokens_are = a;
                                          place = le;
                                          column_in = le';
                                        }))))))))))

  nonblank_line-All :
      (l : TokenList) (s : Bytes) (column : ℕ)
      → column + length s ≤ w
      → AllP l
      → Any AllP (nonblank_line g mem indent n l s column)
  unfolding nonblank_line
  nonblank_line-All l [] column le a = a
  nonblank_line-All l (c ∷ r) column le a = start_line-All l column c r le a

module _ (g : Glib) (mem : Reallocs) where
  tokenize_line-All :
      (P : Token → Type 0) (l : TokenList) (line : Bytes) (n : ℕ)
      → ((t : Token) → t.line ≡ n → t.column ≤ length line → P t)
      → All P l.tokens
      → Any (λ (l' : TokenList). All P l'.tokens) (tokenize_line g mem l line n)
  unfolding tokenize_line
  tokenize_line-All P l line n fits a = elim (Option-cases (count_indent_level line)) [
    | inl out ↦ rw (tokenize_line, out) tt
    | inr (indent, e) ↦
        rw (tokenize_line, e)
          (nonblank_line-All g mem indent n (length line) P fits l (skip_whitespace line 0).0
            (skip_whitespace line 0).1 (omega (arith, skip-sum line 0)) a)
  ]

  -- The token stands in its line, or behind the last line.
  abbrev pub InLine : List Bytes → Token → Type 0
  InLine lines t =
      ((i : ℕ) × (line : Bytes) × (get_elem? lines i ≡ some line)
        × (t.line ≡ i + 1)
        × (t.column ≤ length line))
      ⊎ ((t.line ≡ length lines + 1) × (t.column ≡ 0))

  tokenize_lines-InLine :
      (lines : List Bytes) (l : TokenList) (rest : List Bytes) (i : ℕ)
      → ((j : ℕ) (line : Bytes)
          → get_elem? rest j ≡ some line
          → get_elem? lines (i + j) ≡ some line)
      → All (InLine lines) l.tokens
      → Any (λ (l' : TokenList). All (InLine lines) l'.tokens) (tokenize_lines g mem l rest i)
  unfolding tokenize_lines
  tokenize_lines-InLine lines l [] i at a = a
  tokenize_lines-InLine lines l (line ∷ rest) i at a =
      let here : get_elem? lines (i + 0) ≡ some line = at 0 line refl in
      let turn =
        tokenize_line-All (InLine lines) l line (i + 1)
          (λ t e le. inl (i + 0, line, here, omega (arith, e), le)) a in
      elim (Option-cases (tokenize_line g mem l line (i + 1))) [
        | inl out ↦ rw (tokenize_lines, out) tt
        | inr (l', e) ↦
            rw (tokenize_lines, e)
              (tokenize_lines-InLine lines l' rest (i + 1)
                (λ j next q. ap (get_elem? lines) (omega arith) ∙ at (suc j) next q) (rw e at turn))
      ]

  tokenize_file-Any :
      (content : Bytes)
      → Any
          (λ (l : TokenList). All (InLine (g.g_strsplit content (codes "\n") (pos 0))) l.tokens)
          (tokenize_file g mem content)
  unfolding tokenize_file token_list_create
  tokenize_file-Any content =
      let lines = g.g_strsplit content (codes "\n") (pos 0) in
      let turn =
        tokenize_lines-InLine lines token_list_create lines 0
          (λ j line q. ap (get_elem? lines) (omega arith) ∙ q) tt in
      elim (Option-cases (tokenize_lines g mem token_list_create lines 0)) [
        | inl out ↦ rw (tokenize_file, out) tt
        | inr (l, e) ↦
            rw (tokenize_file, e)
              (create_token-All g mem 0 (length lines + 1) 0 (InLine lines)
                (λ t here le. inr (here, omega (arith, le))) l token_eof none 0 (omega arith)
                (rw e at turn))
      ]

  -- Given GLib's functions as documented and a `realloc` that refuses blocks of 2 ^ 30 pointers,
  -- `tokenize_file` returns for every text, and each token names a line of the text and a column of
  -- it, at most the length of the line, or column 0 of the line behind the last.
  pub tokenize_file-InLine :
      (content : Bytes)
      → Documented g
      → IsLimited mem
      → (list : TokenList) × (tokenize_file g mem content ≡ some list)
        × All (InLine (g.g_strsplit content (codes "\n") (pos 0))) list.tokens
  tokenize_file-InLine content doc limited =
      let (list, body, made, bounded, ordered, tokens) =
        tokenize_file_lem g mem doc limited content in
      (list, made, rw made at (tokenize_file-Any content))
