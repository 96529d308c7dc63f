-- ===== src/Tokenizer/Line/Text.antt =====
-- The rest of a line: ids, classes, attributes, tags, and text with interpolations.
use c_pug.TokenList.{Reallocs}
use mathlib.Core.Option
use c_pug.Common.{
  ℕ, zero, suc, ◌+◌, ◌||◌, Option, none, some, [], ◌∷◌, Bytes, ◌==◌, if◌then◌else◌, ltb, length,
}
use c_pug.Glib.{Glib}
use c_pug.Tokenizer.Chars.{isalpha, is_name_byte, is_tag_byte, is_not}
use c_pug.Tokenizer.Indent.{skip_whitespace}
use c_pug.Tokenizer.Line.Marks.{create_token, add_token}
use c_pug.Tokenizer.Scan.{Scan, collect_while, collect_parens}
use c_pug.Tokens.{
  TokenType, token_id, token_class, token_dot, token_attribute, token_tag, token_text,
  token_interpolation, TokenList,
}

-- The variables of the loop: the list, the buffer, `&line[pos]`, `pos` and `column`.
pub record LineState : Type 0 where
  pub tokens : TokenList
  pub buffer : Bytes
  pub rest : Bytes
  pub pos : ℕ
  pub column : ℕ

-- What a turn of the loop ends in: the next turn, or `break`.
pub data Step : Type 0 where
  continues : LineState → Step
  breaks : LineState → Step

abbrev pub at_scan : LineState → ℕ → Scan → LineState
at_scan s column scan = record {
  tokens = s.tokens;
  buffer = scan.buffer;
  rest = scan.rest;
  pos = scan.pos;
  column = column;
}

module _ (g : Glib) (mem : Reallocs) (indent_level line_number : ℕ) where
  open g use {g_string_truncate, g_string_append_c}

  -- `create_token(type, buffer->str, …)` and `token_list_add`.
  unfoldable pub add_buffer : TokenType → LineState → LineState
  add_buffer type s = record s {
    tokens =
        add_token mem s.tokens
          (create_token type (some s.buffer) indent_level line_number s.column);
  }

  -- `r` is the line behind the `#`.
  unfoldable pub scan_id : LineState → Bytes → LineState
  scan_id s r =
      let scan = collect_while g is_name_byte (g_string_truncate s.buffer 0) r (s.pos + 1) in
      add_buffer token_id (at_scan s (s.pos + 1) scan)

  -- `r` is the line behind the `.`.
  unfoldable pub scan_class : LineState → Bytes → LineState
  scan_class s r =
      let scan = collect_while g is_name_byte (g_string_truncate s.buffer 0) r (s.pos + 1) in
      let type = if ltb 0 (length scan.buffer) then token_class else token_dot in
      add_buffer type (at_scan s (s.pos + 1) scan)

  -- `r` is the line behind the opening bracket.
  unfoldable pub scan_attributes : LineState → Bytes → LineState
  scan_attributes s r =
      let scan = collect_parens g 1 (g_string_truncate s.buffer 0) r (s.pos + 1) in
      add_buffer token_attribute (at_scan s s.column scan)

  unfoldable pub scan_tag : LineState → LineState
  scan_tag s =
      let scan = collect_while g is_tag_byte (g_string_truncate s.buffer 0) s.rest s.pos in
      add_buffer token_tag (at_scan s s.pos scan)

  -- `if (line[pos] == '}') pos++`
  unfoldable pub close_interpolation : LineState → Bytes → LineState
  close_interpolation s [] = s
  close_interpolation s (c ∷ r) = if c == b'}' then record s { rest = r; pos = s.pos + 1 } else s

  -- `r` is the line behind `#{`.
  unfoldable pub scan_interpolation : LineState → Bytes → LineState
  scan_interpolation s r =
      let scan = collect_while g (is_not b'}') (g_string_truncate s.buffer 0) r (s.pos + 2) in
      add_buffer token_interpolation (close_interpolation (at_scan s (s.pos + 2) scan) scan.rest)

  -- At `#`, whose rest is `r`: an interpolation, or a `#` by itself.
  unfoldable pub scan_hash : LineState → Bytes → LineState
  scan_hash s [] = record s { buffer = g_string_append_c s.buffer b'#'; rest = []; pos = s.pos + 1 }
  scan_hash s (d ∷ r) =
      if d == b'{'
      then scan_interpolation s r
      else record s { buffer = g_string_append_c s.buffer b'#'; rest = d ∷ r; pos = s.pos + 1 }

  -- Behind the text up to `#` or the end.
  unfoldable pub after_text : LineState → Bytes → LineState
  after_text s [] = s
  after_text s (c ∷ r) = if c == b'#' then scan_hash s r else s

  -- A turn of the loop over text.
  unfoldable pub text_step : LineState → LineState
  text_step s =
      let scan = collect_while g (is_not b'#') (g_string_truncate s.buffer 0) s.rest s.pos in
      let read = at_scan s s.column scan in
      after_text (if ltb 0 (length read.buffer) then add_buffer token_text read else read) scan.rest

  -- `while (line[pos] != '\0')` over text, on fuel.
  unfoldable pub text_loop : ℕ → LineState → Option LineState
  text_loop zero s = none
  text_loop (suc fuel) s = elim s.rest [ [] ↦ some s | _ ∷ _ ↦ text_loop fuel (text_step s) ]

  -- At the first byte `c` behind the blanks.
  unfoldable pub scan_text : LineState → Bytes → Option Step
  scan_text s [] = some (continues s)
  scan_text s (c ∷ r) =
      if c == b'#' || c == b'.'
      then some (continues s)
      else Option.map breaks (text_loop (length s.rest + 1) (record s { column = s.pos }))

  unfoldable pub scan_space : LineState → Option Step
  scan_space s =
      let (rest, pos) = skip_whitespace s.rest s.pos in
      scan_text (record s { rest = rest; pos = pos }) rest

  -- A turn of the loop over the line, at the byte `c` before `r`.
  unfoldable pub scan_step : LineState → ℕ → Bytes → Option Step
  scan_step s c r =
      if c == b'#'
      then some (continues (scan_id s r))
      else if c == b'.'
      then some (continues (scan_class s r))
      else if c == b'('
      then some (continues (scan_attributes s r))
      else if isalpha c
      then some (continues (scan_tag s))
      else if c == b' '
      then scan_space s
      else some (continues (record s { rest = r; pos = s.pos + 1 }))

  -- `while (line[pos] != '\0')` over the line, on fuel.
  unfoldable pub scan_loop : ℕ → LineState → Option LineState
  scan_loop zero s = none
  scan_loop (suc fuel) s = elim s.rest [
    | [] ↦ some s
    | c ∷ r ↦ elim (scan_step s c r) [
      | none ↦ none
      | some (continues s') ↦ scan_loop fuel s'
      | some (breaks s') ↦ some s'
    ]
  ]
