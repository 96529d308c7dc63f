-- ===== src/Parser/Indented/Tokens.antt =====
-- What `parse_node` does with the tokens of lines that begin as the parser expects.
use c_pug.Common.{
  ℕ, ◌+◌, ◌^◌, ◌<◌, ◌≡◌, refl, ◌∙◌, Bool, true, false, some, arith, length, inl, inr, ◌⊎◌,
  get_elem?, ◌%◌, get_elem?-lt,
}
use c_pug.Glib.{Glib}
use c_pug.Parser.Context.{Memory, parser_get_current_token, parser_advance_token}
use c_pug.Parser.Node.{is_eof}
use c_pug.Tokens.{
  TokenType, token_tag, token_class, token_id, token_attribute, token_text, token_dot, token_pipe,
  token_comment, token_block_comment, token_interpolation, token_code, token_doctype, token_include,
  token_extends, token_mixin, token_call, Token, TokenList, ParserContext, uint_mod,
}

-- A token that can begin a node.
abbrev pub begins : TokenType → Bool
begins token_tag = true
begins token_text = true
begins token_dot = true
begins token_pipe = true
begins token_comment = true
begins token_block_comment = true
begins token_interpolation = true
begins token_code = true
begins token_doctype = true
begins token_include = true
begins token_extends = true
begins token_mixin = true
begins token_call = true
begins _ = false

-- A token that only belongs to a node that has begun.
abbrev pub belongs : TokenType → Bool
belongs token_class = true
belongs token_id = true
belongs token_attribute = true
belongs _ = false

-- A token behind which such a token may stand.
abbrev pub opens : TokenType → Bool
opens token_tag = true
opens type = belongs type

module _ (g : Glib) (mem : Memory) (list : TokenList) where
  -- A token that ends the file, that begins a node, or that belongs to a node of the depth.
  abbrev pub Fits : ℕ → Token → Type 0
  Fits depth u =
      (is_eof g mem u.type ≡ true)
      ⊎ (begins u.type ≡ true)
      ⊎ ((belongs u.type ≡ true) × (u.depth ≡ depth))

  -- Each token ends the file or begins a node, or belongs to the node of the token before it.
  -- `count` counts the tokens, and no number is near the range of `unsigned int`.
  pub record Regular : Type 0 where
    pub counted : list.count ≡ length list.tokens
    pub small : length list.tokens < 2 ^ 32
    pub shallow : (i : ℕ) (t : Token) → get_elem? list.tokens i ≡ some t → t.depth < 2 ^ 32
    pub first :
        (u : Token)
        → get_elem? list.tokens 0 ≡ some u
        → (is_eof g mem u.type ≡ true) ⊎ (begins u.type ≡ true)
    pub follows :
        (i : ℕ) (t u : Token)
        → get_elem? list.tokens i ≡ some t
        → get_elem? list.tokens (i + 1) ≡ some u
        → (is_eof g mem u.type ≡ true)
          ⊎ (begins u.type ≡ true)
          ⊎ ((belongs u.type ≡ true) × (u.depth ≡ t.depth) × (opens t.type ≡ true))

  -- The context stands at a token that begins a node, or at the end of the file.
  abbrev pub AtStart : ParserContext → Type 0
  AtStart ctx =
      (u : Token)
      → parser_get_current_token ctx ≡ some u
      → (is_eof g mem u.type ≡ true) ⊎ (begins u.type ≡ true)

  abbrev pub AtFit : ℕ → ParserContext → Type 0
  AtFit depth ctx = (u : Token) → parser_get_current_token ctx ≡ some u → Fits depth u

  -- What `parse_node` keeps of the context.
  abbrev pub Same : ParserContext → ParserContext → Type 0
  Same ctx c = (c.tokens ≡ ctx.tokens) × (c.current_parent ≡ ctx.current_parent)

  pub current-get_elem? :
      (ctx : ParserContext) (t : Token)
      → ctx.tokens ≡ some list
      → parser_get_current_token ctx ≡ some t
      → get_elem? list.tokens ctx.current_token ≡ some t
  unfolding parser_get_current_token
  current-get_elem? ctx t e at = ground (arith, e, at)

  pub advance-Same : (ctx : ParserContext) → Same ctx (parser_advance_token ctx)
  unfolding parser_advance_token
  advance-Same ctx = (refl, refl)

  module _ (regular : Regular) where
    -- Behind a token stands one that fits its depth, and one that fits no node if it opens none.
    advance-follows :
        (ctx : ParserContext) (t u : Token)
        → ctx.tokens ≡ some list
        → parser_get_current_token ctx ≡ some t
        → parser_get_current_token (parser_advance_token ctx) ≡ some u
        → (is_eof g mem u.type ≡ true)
          ⊎ (begins u.type ≡ true)
          ⊎ ((belongs u.type ≡ true) × (u.depth ≡ t.depth) × (opens t.type ≡ true))
    unfolding parser_advance_token
    advance-follows ctx t u e at at' =
        let here = current-get_elem? ctx t e at in
        let there = current-get_elem? (parser_advance_token ctx) u e at' in
        let lt = get_elem?-lt list.tokens ctx.current_token t here in
        let next : (ctx.current_token + 1) % uint_mod ≡ ctx.current_token + 1 =
          omega (arith, lt, regular.small) in
        regular.follows ctx.current_token t u here (rw next at there)

    pub advance-AtFit :
        (ctx : ParserContext) (t : Token) (depth : ℕ)
        → ctx.tokens ≡ some list
        → parser_get_current_token ctx ≡ some t
        → t.depth ≡ depth
        → AtFit depth (parser_advance_token ctx)
    advance-AtFit ctx t depth e at same u at' = elim (advance-follows ctx t u e at at') [
      | inl eof ↦ inl eof
      | inr (inl start) ↦ inr (inl start)
      | inr (inr (part, deep, opened)) ↦ inr (inr (part, deep ∙ same))
    ]

    pub advance-AtStart :
        (ctx : ParserContext) (t : Token)
        → ctx.tokens ≡ some list
        → parser_get_current_token ctx ≡ some t
        → opens t.type ≡ false
        → AtStart (parser_advance_token ctx)
    advance-AtStart ctx t e at shut u at' = elim (advance-follows ctx t u e at at') [
      | inl eof ↦ inl eof
      | inr (inl start) ↦ inr start
      | inr (inr (part, deep, opened)) ↦ absurd (cc)
    ]
