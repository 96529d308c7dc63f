-- ===== src/Parser/Moves.antt =====
-- The parser moves forward through the tokens and stops at the end of the file; the nodes that it
-- makes are not yet linked.
use c_pug.Common.{
  Option, ℕ, ◌+◌, ◌^◌, ◌≤◌, ◌<◌, ◌≡◌, refl, ◌∙◌, true, false, none, some, [], Bytes, arith,
  get_elem?,
}
use c_pug.Common.Run.{Run, ok}
use c_pug.Glib.{Glib}
use c_pug.Parser.Context.{Memory, parser_get_current_token, parser_advance_token}
use c_pug.Parser.Attributes.{is_attribute}
use c_pug.Parser.Node.{is_eof}
use c_pug.Tokens.{TokenList, Token, Ptr, AstNode, ParserContext}

-- A list of tokens that the parser is given: it holds an end of the file at `last`, its last place,
-- and each token for attributes has a value.
pub record Closed (g : Glib) (mem : Memory) (list : TokenList) (last : ℕ) : Type 0 where
  pub counted : list.count ≡ last + 1
  pub small : last + 1 < 2 ^ 32
  pub ends : (t : Token) × (get_elem? list.tokens last ≡ some t) × (is_eof g mem t.type ≡ true)
  pub present : (i : ℕ) → i ≤ last → (t : Token) × (get_elem? list.tokens i ≡ some t)
  pub valued :
      (i : ℕ) (t : Token)
      → get_elem? list.tokens i ≡ some t
      → is_attribute t.type ≡ true
      → (v : Bytes) × (t.value ≡ some v)

-- The parser stands at a token of the list.
pub record StandsIn (list : TokenList) (last : ℕ) (ctx : ParserContext) : Type 0 where
  pub over : ctx.tokens ≡ some list
  pub inside : ctx.current_token ≤ last

-- What the parser does not change once it runs: the root and the options of the output.
abbrev pub fixed : ParserContext → Option Ptr × ℕ × ℕ
fixed ctx = (ctx.root_node, ctx.use_tabs, ctx.tab_size)

-- A later state of the same run: `k` tokens further at least.
pub record Moves (last k : ℕ) (ctx ctx' : ParserContext) : Type 0 where
  pub same_tokens : ctx'.tokens ≡ ctx.tokens
  pub same_parent : ctx'.current_parent ≡ ctx.current_parent
  pub same_fixed : fixed ctx' ≡ fixed ctx
  pub forward : ctx.current_token + k ≤ ctx'.current_token
  pub inside : ctx'.current_token ≤ last

pub record IsFresh (n : AstNode) : Type 0 where
  pub no_parent : n.parent ≡ none
  pub no_children : n.children ≡ []
  pub no_count : n.children_count ≡ 0

module _ {g : Glib} {mem : Memory} {list : TokenList} {last : ℕ}
    (closed : Closed g mem list last) where
  pub current-token :
      {ctx : ParserContext}
      → StandsIn list last ctx
      → (t : Token) × (get_elem? list.tokens ctx.current_token ≡ some t)
        × (parser_get_current_token ctx ≡ some t)
  unfolding parser_get_current_token
  current-token {ctx} s =
      let (t, e) = closed.present ctx.current_token s.inside in
      (t, e, ground (arith, s.over, s.inside, closed.counted))

  pub current-is :
      {ctx : ParserContext} (t : Token)
      → StandsIn list last ctx
      → get_elem? list.tokens ctx.current_token ≡ some t
      → parser_get_current_token ctx ≡ some t
  unfolding parser_get_current_token
  current-is {ctx} t s e = ground (arith, s.over, s.inside, closed.counted)

  before_last :
      (i : ℕ) (t : Token)
      → i ≤ last
      → get_elem? list.tokens i ≡ some t
      → is_eof g mem t.type ≡ false
      → i < last
  before_last i t le e f = ground (arith, closed.ends.1, closed.ends.2)

  -- A token that is not the end of the file has another behind it.
  pub advance-Moves :
      {ctx : ParserContext} (t : Token)
      → StandsIn list last ctx
      → get_elem? list.tokens ctx.current_token ≡ some t
      → is_eof g mem t.type ≡ false
      → Moves last 1 ctx (parser_advance_token ctx)
  unfolding parser_advance_token
  advance-Moves {ctx} t s e f = record {
    same_tokens = refl;
    same_parent = refl;
    same_fixed = refl;
    forward = omega (arith, before_last ctx.current_token t s.inside e f, closed.small);
    inside = omega (arith, before_last ctx.current_token t s.inside e f, closed.small);
  }

  pub Moves-StandsIn :
      {k : ℕ} {ctx ctx' : ParserContext}
      → StandsIn list last ctx
      → Moves last k ctx ctx'
      → StandsIn list last ctx'
  Moves-StandsIn s m = record { over = m.same_tokens ∙ s.over; inside = m.inside }

pub Moves-refl :
    {list : TokenList} {last : ℕ} {ctx : ParserContext}
    → StandsIn list last ctx
    → Moves last 0 ctx ctx
Moves-refl s = record {
  same_tokens = refl;
  same_parent = refl;
  same_fixed = refl;
  forward = omega arith;
  inside = s.inside;
}

pub Moves-trans :
    {last k l : ℕ} {a b c : ParserContext} → Moves last k a b → Moves last l b c → Moves last k a c
Moves-trans m n = record {
  same_tokens = n.same_tokens ∙ m.same_tokens;
  same_parent = n.same_parent ∙ m.same_parent;
  same_fixed = n.same_fixed ∙ m.same_fixed;
  forward = omega (arith, m.forward, n.forward);
  inside = n.inside;
}

pub Moves-weaken : {last k : ℕ} {a b : ParserContext} → Moves last k a b → Moves last 0 a b
Moves-weaken m = record {
  same_tokens = m.same_tokens;
  same_parent = m.same_parent;
  same_fixed = m.same_fixed;
  forward = omega (arith, m.forward);
  inside = m.inside;
}

-- The run returns a fresh node, at least `k` tokens further.
abbrev pub Returns : ℕ → ℕ → ParserContext → Run (AstNode × ParserContext) → Type 0
Returns last k ctx r =
    (n : AstNode) × (ctx' : ParserContext) × (r ≡ ok (n, ctx')) × IsFresh n × Moves last k ctx ctx'
