-- ===== src/Tokenizer/Sound/File.antt =====
-- `tokenize_line` and `tokenize_file` return. The tokens stand in the order of the lines.
use c_pug.Common.{
  ℕ, ◌+◌, ◌≡◌, refl, ap, ◌∙◌, none, some, List, [], ◌∷◌, ◌++◌, Bytes, arith, length, codes,
  if◌then◌else◌, All, append-nil, append_assoc, sym, length-append,
}
use c_pug.Glib.{Glib, Documented, pos}
use c_pug.TokenList.Extends.{IsLimited, IsBounded, token_list_add-IsBounded}
use c_pug.TokenList.Growth.{create-IsValid, stores, tokens-token_list_add}
use c_pug.TokenList.{token_list_create, Reallocs}
use c_pug.Tokenizer.File.{tokenize_lines, tokenize_file}
use c_pug.Tokenizer.Indent.Levels.{level_of, count_indent_level-level_of}
use c_pug.Tokenizer.Indent.{skip_whitespace}
use c_pug.Tokenizer.Line.Marks.{create_token, add_token}
use c_pug.Tokenizer.Line.Start.{tokenize_line}
use c_pug.Tokenizer.Sound.Lines.{Returns, nonblank_line-Returns}
use c_pug.Tokenizer.Sound.Opening.{Opens, opening}
use c_pug.Tokenizer.Sound.Opening.Line.{tokenize_line-Opens}
use c_pug.Tokenizer.Sound.Values.{IsFrom}
use c_pug.Tokens.{TokenList, Token, token_eof}

-- The tokens of the lines in their order; line `i` of the array has number `i + 1`, and `k` tokens
-- stand in the list before it. Those of a line start with its first token.
abbrev pub FromLines : Glib → Reallocs → List Bytes → ℕ → ℕ → List Token → Type 0
FromLines g mem [] i k ts = ts ≡ []
FromLines g mem (l ∷ ls) i k ts =
    (a : List Token) × (b : List Token) × (ts ≡ a ++ b)
    × All (IsFrom (level_of l) (i + 1)) a
    × Opens mem k (opening g l (i + 1)) a
    × FromLines g mem ls (i + 1) (k + length a) b

-- The token at the end of a file of `n` lines.
abbrev pub eof_token : ℕ → Token
eof_token n = record {
  type = token_eof;
  value = none;
  line = n + 1;
  column = 0;
  depth = 0;
  attributes = none;
}

module _ (g : Glib) (mem : Reallocs) (doc : Documented g) (limited : IsLimited mem) where
  pub tokenize_line-Returns :
      (list : TokenList) (line : Bytes) (n : ℕ)
      → IsBounded list
      → Returns (level_of line) n list (tokenize_line g mem list line n)
  unfolding tokenize_line
  tokenize_line-Returns list line n b = rw (count_indent_level-level_of line) (
      nonblank_line-Returns g mem (level_of line) n doc limited list (skip_whitespace line 0).0
        (skip_whitespace line 0).1 b)

  pub record Tokenized (lines : List Bytes) (i : ℕ) (list list' : TokenList) : Type 0 where
    pub bounded : IsBounded list'
    pub new : List Token
    pub appended : list'.tokens ≡ list.tokens ++ new
    pub ordered : FromLines g mem lines i (length list.tokens) new

  tokenize_lines-Tokenized :
      (lines : List Bytes) (i : ℕ) (list : TokenList)
      → IsBounded list
      → (list' : TokenList) × (tokenize_lines g mem list lines i ≡ some list')
        × Tokenized lines i list list'
  unfolding tokenize_lines
  tokenize_lines-Tokenized [] i list b = (
    list,
    refl,
    record { bounded = b; new = []; appended = sym (append-nil list.tokens); ordered = refl },
  )
  tokenize_lines-Tokenized (line ∷ lines) i list b =
      let (mid, e, x) = tokenize_line-Returns list line (i + 1) b in
      let (list', f, y) = tokenize_lines-Tokenized lines (i + 1) mid x.bounded in
      let opens : Opens mem (length list.tokens) (opening g line (i + 1)) x.new =
        rw (← b.valid.counted)
          (tokenize_line-Opens g mem list mid line (i + 1) doc limited b e x) in
      let longer : length mid.tokens ≡ length list.tokens + length x.new =
        ap length x.appended ∙ length-append list.tokens x.new in
      (
        list',
        rw (e, f),
        record {
          bounded = y.bounded;
          new = x.new ++ y.new;
          appended =
              y.appended
              ∙ ap (λ (t : List Token). t ++ y.new) x.appended
              ∙ append_assoc list.tokens x.new y.new;
          ordered = (x.new, y.new, refl, x.holds, opens, rw (← longer) y.ordered);
        },
      )

  -- Given GLib's functions as documented and a `realloc` that refuses blocks of 2 ^ 30 pointers,
  -- for every text `tokenize_file` returns a list within its block: the tokens of the lines in
  -- their order, each with the number and the indentation of its line and a value of the form that
  -- its type promises. The tokens of a line start with the one that its first bytes behind the
  -- blanks call for, with its type, value and column, if they begin one and no `realloc` refuses
  -- it. Behind the tokens of the lines stands the token for the end of the file, unless the list is
  -- full and cannot be enlarged.
  pub tokenize_file_lem :
      (content : Bytes)
      → (list : TokenList) × (body : TokenList) × (tokenize_file g mem content ≡ some list)
        × IsBounded list
        × FromLines g mem (g.g_strsplit content (codes "\n") (pos 0)) 0 0 body.tokens
        × (list.tokens ≡ (
            let last = eof_token (length (g.g_strsplit content (codes "\n") (pos 0))) in
            if stores (mem body.count last) body then body.tokens ++ last ∷ [] else body.tokens))
  unfolding tokenize_file create_token add_token
  tokenize_file_lem content =
      let lines = g.g_strsplit content (codes "\n") (pos 0) in
      let last = eof_token (length lines) in
      let start : IsBounded token_list_create = record {
        valid = create-IsValid;
        small = unfold token_list_create in omega arith;
      } in
      let (body, e, x) = tokenize_lines-Tokenized lines 0 token_list_create start in
      let in_order : FromLines g mem lines 0 0 x.new = (unfold token_list_create in x.ordered) in
      let nothing : body.tokens ≡ x.new = (unfold token_list_create in x.appended) in
      (
        add_token mem body (create_token token_eof none 0 (length lines + 1) 0),
        body,
        rw e,
        token_list_add-IsBounded body last limited x.bounded,
        rw nothing in_order,
        tokens-token_list_add (mem body.count last) body last x.bounded.valid,
      )
