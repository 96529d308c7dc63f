-- ===== src/Process/Parsed.antt =====
-- What the tokenizer hands to the parser: `tokenize_file` and `parse_pug` one after the other.
use c_pug.TokenList.{Reallocs}
use c_pug.Common.{
  ℕ, zero, suc, ◌+◌, ◌-◌, ◌<◌, ◌≡◌, refl, Bool, true, false, Option, none, some, List, [], ◌∷◌,
  ◌++◌, Bytes, arith, length, get_elem?, get_elem?-below, All, All-append, if◌then◌else◌,
}
use mathlib.Core.Path.{subst}
use c_pug.Ast.{Heap}
use c_pug.Common.Run.{ok}
use c_pug.Glib.{Glib, Documented}
use c_pug.Parser.Attributes.{is_attribute}
use c_pug.Parser.Context.{Memory}
use c_pug.Parser.Document.{IsParsed, parse_pug_lem}
use c_pug.Parser.Moves.{Closed}
use c_pug.Parser.Node.{is_eof}
use c_pug.Parser.Tree.{parse_pug}
use c_pug.TokenList.Extends.{IsLimited, IsBounded}
use c_pug.Tokenizer.File.{tokenize_file}
use c_pug.Tokenizer.Sound.File.{FromLines, eof_token, tokenize_file_lem}
use c_pug.Tokenizer.Sound.Values.{value_ok, IsFrom}
use c_pug.Tokens.{TokenType, token_attribute, token_eof, Token, TokenList, ParserContext}

-- A token for attributes has a value.
record IsValued (t : Token) : Type 0 where
  valued : is_attribute t.type ≡ true → (v : Bytes) × (t.value ≡ some v)

value_ok-some :
    (type : TokenType) (value : Option Bytes)
    → value_ok type value ≡ true
    → is_attribute type ≡ true
    → (v : Bytes) × (value ≡ some v)
unfolding value_ok is_attribute
value_ok-some type (some v) h a = (v, refl)
value_ok-some token_attribute none h a = absurd (ground arith)
value_ok-some _ none h a = absurd (ground arith)

All-IsValued : (indent n : ℕ) (ts : List Token) → All (IsFrom indent n) ts → All IsValued ts
All-IsValued indent n [] h = tt
All-IsValued indent n (t ∷ ts) (f, h) =
    (record { valued = value_ok-some t.type t.value f.formed }, All-IsValued indent n ts h)

FromLines-IsValued :
    (g : Glib) (mem : Reallocs) (lines : List Bytes) (i k : ℕ) (ts : List Token)
    → FromLines g mem lines i k ts
    → All IsValued ts
FromLines-IsValued g mem [] i k ts e = rw e tt
FromLines-IsValued g mem (l ∷ ls) i k ts (a, b, e, here, _, rest) = rw e (
    All-append IsValued a b (All-IsValued _ _ a here)
      (FromLines-IsValued g mem ls (i + 1) (k + length a) b rest))

All-get_elem? :
    (ts : List Token) (i : ℕ) (t : Token) → All IsValued ts → get_elem? ts i ≡ some t → IsValued t
All-get_elem? [] i t h e = cc
All-get_elem? (u ∷ ts) zero t h e = let same : u ≡ t = cc in subst IsValued same h.0
All-get_elem? (u ∷ ts) (suc i) t h e = All-get_elem? ts i t h.1 e

below-get_elem? : (ts : List Token) (i : ℕ) (t : Token) → get_elem? ts i ≡ some t → i < length ts
below-get_elem? [] i t e = cc
below-get_elem? (u ∷ ts) zero t e = omega arith
below-get_elem? (u ∷ ts) (suc i) t e = omega (arith, below-get_elem? ts i t e)

eof-IsValued : (n : ℕ) → IsValued (eof_token n)
unfolding is_attribute
eof-IsValued n = record { valued = λ a. absurd (ground arith) }

with_eof :
    (b : Bool) (n : ℕ) (ts : List Token)
    → All IsValued ts
    → All IsValued (if b then ts ++ eof_token n ∷ [] else ts)
with_eof true n ts h = All-append IsValued ts (eof_token n ∷ []) h (eof-IsValued n, tt)
with_eof false n ts h = h

-- The last token of the list is the end of the file; it is missing if there was no room for it.
abbrev pub HasEof : TokenList → Type 0
HasEof list = (t : Token) × (get_elem? list.tokens (list.count - 1) ≡ some t) × (t.type ≡ token_eof)

module _ (g : Glib) (mem : Reallocs) (doc : Documented g) (limited : IsLimited mem) where
  tokens-IsValued :
      (content : Bytes) (list : TokenList)
      → tokenize_file g mem content ≡ some list
      → IsBounded list × All IsValued list.tokens
  tokens-IsValued content list made =
      let (list', body, e, bounded, ordered, tokens) =
        tokenize_file_lem g mem doc limited content in
      let same : list' ≡ list = cc in
      subst (λ (l : TokenList). IsBounded l × All IsValued l.tokens) same
        (
          bounded,
          rw tokens (with_eof _ _ body.tokens (FromLines-IsValued g mem _ 0 0 body.tokens ordered)),
        )

  pub tokenize_file-Closed :
      (m : Memory) (content : Bytes) (list : TokenList)
      → tokenize_file g mem content ≡ some list
      → HasEof list
      → Closed g m list (list.count - 1)
  unfolding is_eof
  tokenize_file-Closed m content list made (t, at, eof) =
      let (bounded, all) = tokens-IsValued content list made in
      let some_tokens = below-get_elem? list.tokens (list.count - 1) t at in
      record {
        counted = omega (arith, bounded.valid.counted);
        small = omega (arith, bounded.valid.counted, bounded.valid.within, bounded.small);
        ends = (t, at, rw eof);
        present = λ i le. get_elem?-below list.tokens i (omega (arith, bounded.valid.counted));
        valued = λ i u here. (All-get_elem? list.tokens i u all here).valued;
      }

  -- Given GLib's functions as documented, a `realloc` that refuses blocks of 2 ^ 30 pointers, and
  -- the memory for the root and for the first classes of each node, `parse_pug` returns from a
  -- context at the start of the list that `tokenize_file` makes of any text, if the last token of
  -- that list is the end of the file, whatever the other allocations do: at the end of the file,
  -- with the root for the first node, the options of the output unchanged, links between the nodes
  -- that are sound in both directions, and the children of each node in the order in which they
  -- were parsed.
  pub parse_pug-tokenize_file :
      (m : Memory) (content : Bytes) (list : TokenList) (ctx : ParserContext)
      → ((i : ℕ) → m.classes i ≡ true)
      → tokenize_file g mem content ≡ some list
      → HasEof list
      → ctx.tokens ≡ some list
      → ctx.current_token ≡ 0
      → (ctx' : ParserContext) × (h : Heap) × (parse_pug g m true ctx ≡ ok (some (ctx', h)))
        × IsParsed g m ctx ctx' h
  parse_pug-tokenize_file m content list ctx granted made eof over start =
      parse_pug_lem g m (tokenize_file-Closed m content list made eof) granted ctx
        (record { over = over; inside = omega arith })
