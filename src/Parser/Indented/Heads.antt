-- ===== src/Parser/Indented/Heads.antt =====
-- The tokens that begin nodes, read off the list of tokens alone.
use c_pug.Parser.Indented.Tokens.{belongs, opens, Regular, current-get_elem?}
use c_pug.Common.{
  ℕ, zero, suc, ◌+◌, ◌≡◌, refl, Bool, true, false, ◌&&◌, Option, none, some, List, [], ◌∷◌, ◌++◌,
  ◌==◌, arith, length, get_elem?, drop, map, ap, ◌∙◌, Option-cases, Bool-cases, inl, inr,
  get_elem?-lt, get_elem?-below, drop-get_elem?, drop_out, leb, ◌%◌, ◌<◌,
}
use c_pug.Ast.{Heap, update_node, set_parent, adopt, ast_node_add_child}
use c_pug.Glib.{Glib}
use c_pug.Parser.Context.{Memory, parser_get_current_token, parser_advance_token}
use c_pug.Parser.Node.{is_eof}
use c_pug.Parser.Tree.{attach}
use c_pug.Tokens.{
  TokenType, token_tag, token_class, token_id, token_attribute, token_text, token_interpolation,
  Token, AstNode, Ptr, TokenList, ParserContext, uint_mod, token_eof,
}

-- Depth, line and column.
abbrev pub spot : AstNode → ℕ × ℕ × ℕ
spot n = (n.depth, n.line, n.column)

abbrev pub token_spot : Token → ℕ × ℕ × ℕ
token_spot t = (t.depth, t.line, t.column)

-- A token that a tag of its depth takes in.
abbrev pub joins : TokenType → Bool
joins token_class = true
joins token_id = true
joins token_attribute = true
joins token_text = true
joins token_interpolation = true
joins _ = false

abbrev pub is_absorbed : Option ℕ → Token → Bool
is_absorbed none t = false
is_absorbed (some depth) t = t.depth == depth && joins t.type

-- The depth of the tag that is open behind a token that begins a node.
abbrev pub open_tag : TokenType → ℕ → Option ℕ
open_tag token_tag depth = some depth
open_tag _ depth = none

module _ (g : Glib) (mem : Memory) where
  -- The tokens that begin nodes, up to the end of the file; the tag that is open may have a depth.
  abbrev pub heads : Option ℕ → List Token → List Token
  heads o [] = []
  heads o (t ∷ ts) = elim (is_eof g mem t.type) [
    | true ↦ []
    | false ↦ elim (is_absorbed o t) [
      | true ↦ heads o ts
      | false ↦ t ∷ heads (open_tag t.type t.depth) ts
    ]
  ]

pub joins-belongs : (type : TokenType) → joins type ≡ false → belongs type ≡ false
joins-belongs token_class h = h
joins-belongs token_id h = h
joins-belongs token_attribute h = h
joins-belongs _ h = refl

pub open_tag-none : (type : TokenType) (depth : ℕ) → opens type ≡ false → open_tag type depth ≡ none
open_tag-none token_tag depth h = cc
open_tag-none _ depth h = refl

-- The tokens from the current one on.
abbrev pub rest_of : TokenList → ParserContext → List Token
rest_of list ctx = drop ctx.current_token list.tokens

module _ (g : Glib) (mem : Memory) (list : TokenList) (regular : Regular g mem list) where
  joins-is_eof : (type : TokenType) → joins type ≡ true → is_eof g mem type ≡ false
  unfolding is_eof
  joins-is_eof token_eof h = absurd (cc)
  joins-is_eof _ h = refl

  pub rest_of-current :
      (ctx : ParserContext) (t : Token)
      → ctx.tokens ≡ some list
      → parser_get_current_token ctx ≡ some t
      → rest_of list ctx ≡ t ∷ rest_of list (parser_advance_token ctx)
  unfolding parser_advance_token
  rest_of-current ctx t e at =
      let here = current-get_elem? g mem list ctx t e at in
      let next : (ctx.current_token + 1) % uint_mod ≡ suc ctx.current_token =
        omega (arith, get_elem?-lt list.tokens ctx.current_token t here, regular.small) in
      rw next (drop-get_elem? list.tokens ctx.current_token t here)

  rest_of-end :
      (ctx : ParserContext)
      → ctx.tokens ≡ some list
      → parser_get_current_token ctx ≡ none
      → rest_of list ctx ≡ []
  unfolding parser_get_current_token
  rest_of-end ctx e out = elim (Bool-cases (leb list.count ctx.current_token)) [
    | inl past ↦ drop_out list.tokens ctx.current_token (ground (arith, regular.counted))
    | inr inside ↦
        let (t, at) =
          get_elem?-below list.tokens ctx.current_token (ground (arith, regular.counted)) in
        absurd (ground (arith, e, out, at, inside))
  ]

  heads-stop :
      (o : Option ℕ) (t : Token) (ts : List Token)
      → is_absorbed o t ≡ false
      → heads g mem o (t ∷ ts) ≡ heads g mem none (t ∷ ts)
  heads-stop o t ts h = elim (Bool-cases (is_eof g mem t.type)) [
    | inl eof ↦ rw (eof, heads) refl
    | inr more ↦ rw (more, h, heads) refl
  ]

  -- Where the inner loop stops, the next token begins a node.
  pub stop-heads :
      (ctx : ParserContext) (depth : ℕ)
      → ctx.tokens ≡ some list
      → ((t : Token) → parser_get_current_token ctx ≡ some t → is_absorbed (some depth) t ≡ false)
      → heads g mem (some depth) (rest_of list ctx) ≡ heads g mem none (rest_of list ctx)
  stop-heads ctx depth e stops = elim (Option-cases (parser_get_current_token ctx)) [
    | inl out ↦ rw (rest_of-end ctx e out) refl
    | inr (t, at) ↦
        rw (rest_of-current ctx t e at)
          (heads-stop (some depth) t (rest_of list (parser_advance_token ctx)) (stops t at))
  ]

  -- A token that is taken in begins none.
  pub absorb-heads :
      (ctx : ParserContext) (t : Token) (depth : ℕ)
      → ctx.tokens ≡ some list
      → parser_get_current_token ctx ≡ some t
      → (t.depth == depth) ≡ true
      → joins t.type ≡ true
      → heads g mem (some depth) (rest_of list ctx)
        ≡ heads g mem (some depth) (rest_of list (parser_advance_token ctx))
  absorb-heads ctx t depth e at same joined =
      rw (rest_of-current ctx t e at) (rw (heads, joins-is_eof t.type joined, same, joined) refl)

  -- A token that begins a node.
  pub begin-heads :
      (ctx : ParserContext) (t : Token)
      → ctx.tokens ≡ some list
      → parser_get_current_token ctx ≡ some t
      → is_eof g mem t.type ≡ false
      → heads g mem none (rest_of list ctx)
        ≡ t ∷ heads g mem (open_tag t.type t.depth) (rest_of list (parser_advance_token ctx))
  begin-heads ctx t e at more = rw (rest_of-current ctx t e at) (rw (heads, more) refl)

-- An add keeps the spots of the nodes and puts that of the new node behind them.
spots-update_node :
    (h : Heap) (p : Ptr) (f : AstNode → AstNode)
    → ((n : AstNode) → get_elem? h p ≡ some n → spot (f n) ≡ spot n)
    → map spot (update_node h p f) ≡ map spot h
spots-update_node [] p f s = refl
spots-update_node (n ∷ h) zero f s = ap (λ (d : ℕ × ℕ × ℕ). d ∷ map spot h) (s n refl)
spots-update_node (n ∷ h) (suc p) f s = ap (◌∷◌ (spot n)) (spots-update_node h p f s)

spot-adopt : (ok : Bool) (c : Ptr) (m : AstNode) → spot (adopt ok c m).0 ≡ spot m
unfolding adopt
spot-adopt ok c m = ground arith

spots-add_child :
    (ok : Bool) (h : Heap) (p c : Ptr)
    → map spot (ast_node_add_child ok h (some p) (some c)) ≡ map spot h
unfolding ast_node_add_child
spots-add_child ok h p c = elim (Option-cases (get_elem? h p)) [
  | inl e ↦ rw (e, ast_node_add_child) refl
  | inr (m, e) ↦
      let r = adopt ok c m in
      let inner : map spot (update_node h p (λ _. r.0)) ≡ map spot h =
        spots-update_node h p (λ _. r.0)
          (λ n at. let same : m ≡ n = cc in spot-adopt ok c m ∙ ap spot same) in
      elim (Bool-cases r.1) [
        | inl stored ↦
            rw (e, ast_node_add_child, stored)
              (spots-update_node (update_node h p (λ _. r.0)) c (set_parent p) (λ n at. refl)
                ∙ inner)
        | inr lost ↦ rw (e, ast_node_add_child, lost) inner
      ]
]

spots-append : (h : Heap) (n : AstNode) → map spot (h ++ n ∷ []) ≡ map spot h ++ spot n ∷ []
spots-append [] n = refl
spots-append (m ∷ h) n = ap (◌∷◌ (spot m)) (spots-append h n)

-- The spots of the nodes behind the root.
abbrev pub outline : Heap → List (ℕ × ℕ × ℕ)
outline h = drop 1 (map spot h)

drop-append {ℓ} :
    {A : Type ℓ} (xs ys : List A) → 0 < length xs → drop 1 (xs ++ ys) ≡ drop 1 xs ++ ys
drop-append [] ys lt = absurd (omega arith)
drop-append (x ∷ xs) ys lt = refl

length-spots : (h : Heap) → length (map spot h) ≡ length h
length-spots [] = refl
length-spots (n ∷ h) = ap suc (length-spots h)

spots-attach :
    (g : Glib) (mem : Memory) (h : Heap) (node : AstNode) (p : Ptr)
    → map spot (attach g mem h node p) ≡ map spot h ++ spot node ∷ []
unfolding attach
spots-attach g mem h node p = spots-add_child _ (h ++ node ∷ []) p (length h) ∙ spots-append h node

pub outline-attach :
    (g : Glib) (mem : Memory) (h : Heap) (node : AstNode) (p : Ptr)
    → 0 < length h
    → outline (attach g mem h node p) ≡ outline h ++ spot node ∷ []
outline-attach g mem h node p lt =
    ap (drop 1) (spots-attach g mem h node p)
    ∙ drop-append (map spot h) (spot node ∷ []) (omega (arith, lt, length-spots h))
