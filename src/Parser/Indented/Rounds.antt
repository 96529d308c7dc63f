-- ===== src/Parser/Indented/Rounds.antt =====
-- A round of the inner loop of `parse_node`, and the node that its `switch` makes.
use c_pug.Parser.Indented.Heads.{spot, joins}
use c_pug.Common.{ℕ, ◌≡◌, refl, true, false, none, some, arith, Bytes, [], inl, inr, ◌⊎◌}
use c_pug.Common.Run.{Run, ok, After, bind_After, After-ok}
use c_pug.Glib.{Glib}
use c_pug.Parser.Attributes.{attributes_from, parse_attributes, parse_classes}
use c_pug.Parser.Context.{Memory, parser_advance_token}
use c_pug.Parser.Indented.Tokens.{begins, opens}
use c_pug.Parser.Node.{value_or, Case, finished, goes_on, refused, node_case, join_text, absorb}
use c_pug.Tokens.{
  TokenType, token_tag, token_class, token_id, token_attribute, token_text, token_interpolation,
  Token, AstNode, ParserContext,
}

module _ (g : Glib) (mem : Memory) where
  -- A round of the inner loop keeps the depth and the position, and goes one token further or
  -- stays.
  abbrev pub IsRound : AstNode → ParserContext → AstNode × ParserContext → Type 0
  IsRound node ctx (n, c) = (spot n ≡ spot node) × ((c ≡ parser_advance_token ctx) ⊎ (c ≡ ctx))

  parse_classes-spot :
      (i : ℕ) (node : AstNode) (name : Bytes) (n : AstNode)
      → parse_classes g mem i node name ≡ ok n
      → spot n ≡ spot node
  unfolding parse_classes
  parse_classes-spot i node name n e = ground (arith, e)

  parse_attributes-IsRound :
      (ctx : ParserContext) (node : AstNode) → IsRound node ctx (parse_attributes g mem ctx node)
  unfolding parse_attributes attributes_from
  parse_attributes-IsRound ctx node = ground arith

  join_text-spot : (node : AstNode) (t : Token) → spot (join_text g mem node t) ≡ spot node
  unfolding join_text
  join_text-spot node t = ground arith

  pub absorb-IsRound :
      (type : TokenType) (t : Token) (node : AstNode) (ctx : ParserContext)
      → ((absorb g mem type t node ctx ≡ none) × (joins type ≡ false))
        ⊎ ((r : Run (AstNode × ParserContext)) × (absorb g mem type t node ctx ≡ some r)
            × (joins type ≡ true)
            × After (IsRound node ctx) r)
  unfolding absorb
  absorb-IsRound token_id t node ctx = inr (_, refl, refl, (refl, inl refl))
  absorb-IsRound token_class t node ctx =
      let classes = parse_classes g mem ctx.current_token node (value_or t []) in
      inr (
        _,
        refl,
        refl,
        bind_After (λ n. spot n ≡ spot node) (IsRound node ctx) classes
            (λ n. ok (n, parser_advance_token ctx))
            (After-ok (λ n. spot n ≡ spot node) classes
              (λ n e. parse_classes-spot ctx.current_token node (value_or t []) n e))
            (λ n same. (same, inl refl)),
      )
  absorb-IsRound token_attribute t node ctx = inr (_, refl, refl, parse_attributes-IsRound ctx node)
  absorb-IsRound token_text t node ctx = inr (_, refl, refl, (join_text-spot node t, inl refl))
  absorb-IsRound token_interpolation t node ctx =
      inr (_, refl, refl, (join_text-spot node t, inl refl))
  absorb-IsRound _ t node ctx = inl (refl, refl)

  -- What the `switch` makes of a node at a token that begins one: only a tag goes on.
  abbrev pub IsBegun : TokenType → ℕ × ℕ × ℕ → Case → Type 0
  IsBegun type place (finished n) = (spot n ≡ place) × (opens type ≡ false)
  IsBegun type place (goes_on n) = (spot n ≡ place) × (type ≡ token_tag)
  IsBegun type place refused = ⊥

  pub node_case-IsBegun :
      (type : TokenType) (t : Token) (n : AstNode)
      → begins type ≡ true
      → IsBegun type (spot n) (node_case g mem type t n)
  unfolding node_case
  node_case-IsBegun token_tag t n b = (refl, refl)
  node_case-IsBegun token_class t n b = cc
  node_case-IsBegun token_id t n b = cc
  node_case-IsBegun token_attribute t n b = cc
  node_case-IsBegun _ t n b = ground arith
