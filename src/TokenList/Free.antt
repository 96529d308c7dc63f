-- ===== src/TokenList/Free.antt =====
-- `token_list_free`, as the list of the blocks that it frees, in order.
pub mod Once
use c_pug.AttributeList.Free.{
  Block, same, owned, attribute_list_free, attribute_list_free-owned, one_if,
}
use c_pug.AttributeList.Growth as Attributes
use c_pug.Common.{
  ℕ, ◌+◌, ◌≡◌, refl, ap, Bool, true, false, ◌&&◌, Option, none, some, List, [], ◌∷◌, ◌++◌, arith,
  ◌==◌, ◌∙◌, measure-from_place, get_elem?, take, take_all, times, times-append, from_place,
  from_place_zero, if◌then◌else◌, Bytes, All,
}
use c_pug.TokenList.Growth.{IsValid}
use c_pug.Tokens.{Token, TokenList, AttributeList}

-- A block of memory of a list: the list, its array, and the tokens with their values and
-- attributes.
pub data TokenBlock : Type 0 where
  list_block array_block : TokenBlock
  token token_value : ℕ → TokenBlock
  of_token : ℕ → Block → TokenBlock

unfoldable pub lift : ℕ → List Block → List TokenBlock
lift i [] = []
lift i (b ∷ bs) = of_token i b ∷ lift i bs

abbrev pub value_block : ℕ → Option Bytes → List TokenBlock
value_block i none = []
value_block i (some _) = token_value i ∷ []

unfoldable pub free_token : ℕ → Token → List TokenBlock
unfolding lift
free_token i t =
    value_block i t.value ++ (lift i (attribute_list_free t.attributes) ++ token i ∷ [])

-- The loop, from the token `i` on.
unfoldable pub free_tokens : ℕ → List Token → List TokenBlock
free_tokens i [] = []
free_tokens i (t ∷ ts) = free_token i t ++ free_tokens (i + 1) ts

unfoldable pub token_list_free : Option TokenList → List TokenBlock
token_list_free none = []
token_list_free (some list) =
    free_tokens 0 (take list.count list.tokens) ++ array_block ∷ list_block ∷ []

-- The test of two blocks.
abbrev pub same_token : TokenBlock → TokenBlock → Bool
same_token list_block list_block = true
same_token array_block array_block = true
same_token (token i) (token j) = i == j
same_token (token_value i) (token_value j) = i == j
same_token (of_token i b) (of_token j c) = i == j && same b c
same_token _ _ = false

abbrev attributes_owned : Option AttributeList → Block → ℕ
attributes_owned none b = 0
attributes_owned (some list) b = owned list b

-- How many blocks of this kind a token has.
abbrev part : Option Token → TokenBlock → ℕ
part none _ = 0
part (some t) list_block = 0
part (some t) array_block = 0
part (some t) (token i) = 1
part (some t) (token_value i) = one_if t.value
part (some t) (of_token i b) = attributes_owned t.attributes b

-- The place that a block belongs to.
abbrev pub place : TokenBlock → ℕ
place list_block = 0
place array_block = 0
place (token i) = i
place (token_value i) = i
place (of_token i b) = i

-- A list of attributes that is there lies within its block.
abbrev pub ValidIfAny : Option AttributeList → Type 0
ValidIfAny none = Unit
ValidIfAny (some list) = Attributes.IsValid list

-- How often a block occurs among those of the attributes of token `i`.
abbrev pub inner : ℕ → TokenBlock → List Block → ℕ
inner i list_block bs = 0
inner i array_block bs = 0
inner i (token j) bs = 0
inner i (token_value j) bs = 0
inner i (of_token j c) bs = if j == i then times same c bs else 0

pub times-lift :
    (b : TokenBlock) (i : ℕ) (bs : List Block) → times same_token b (lift i bs) ≡ inner i b bs
unfolding lift
times-lift b i [] = ground arith
times-lift b i (c ∷ bs) = ground (arith, times-lift b i bs)

-- How many blocks of this kind the attributes of token `i` have.
abbrev attributes_part : ℕ → TokenBlock → Option AttributeList → ℕ
attributes_part i list_block o = 0
attributes_part i array_block o = 0
attributes_part i (token j) o = 0
attributes_part i (token_value j) o = 0
attributes_part i (of_token j c) o = if j == i then attributes_owned o c else 0

inner-owned :
    (b : TokenBlock) (i : ℕ) (o : Option AttributeList)
    → ValidIfAny o
    → inner i b (attribute_list_free o) ≡ attributes_part i b o
unfolding attribute_list_free
inner-owned (of_token j c) i none v = ground arith
inner-owned (of_token j c) i (some list) v = rw (attribute_list_free-owned list c v)
inner-owned list_block i o v = refl
inner-owned array_block i o v = refl
inner-owned (token j) i o v = refl
inner-owned (token_value j) i o v = refl

value-part :
    (b : TokenBlock) (i : ℕ) (t : Token)
    → times same_token b (value_block i t.value)
        + (attributes_part i b t.attributes + times same_token b (token i ∷ []))
      ≡ (if place b == i then part (some t) b else 0)
value-part b i t = ground arith

free_token-part :
    (b : TokenBlock) (i : ℕ) (t : Token)
    → ValidIfAny t.attributes
    → times same_token b (free_token i t) ≡ (if place b == i then part (some t) b else 0)
unfolding free_token
free_token-part b i t v =
    let bs = attribute_list_free t.attributes in
    let e = times-append same_token b (lift i bs) (token i ∷ []) in
    let f = times-lift b i bs ∙ inner-owned b i t.attributes v in
    times-append same_token b (value_block i t.value) (lift i bs ++ token i ∷ [])
    ∙ (rw (e, f) (value-part b i t))

free_tokens-part :
    (b : TokenBlock) (i : ℕ) (ts : List Token)
    → All (λ (t : Token). ValidIfAny t.attributes) ts
    → times same_token b (free_tokens i ts) ≡ part (from_place i (place b) ts) b
unfolding free_tokens
free_tokens-part b i [] v = ground arith
free_tokens-part b i (t ∷ ts) v =
    let e = free_tokens-part b (i + 1) ts v.1 in
    let f = free_token-part b i t v.0 in
    times-append same_token b (free_token i t) (free_tokens (i + 1) ts)
    ∙ (rw (e, f) (measure-from_place (λ o. part o b) i (place b) t ts refl))

-- How many blocks of this kind a list has.
abbrev pub tokens_owned : TokenList → TokenBlock → ℕ
tokens_owned list list_block = 1
tokens_owned list array_block = 1
tokens_owned list (token i) = part (get_elem? list.tokens i) (token i)
tokens_owned list (token_value i) = part (get_elem? list.tokens i) (token_value i)
tokens_owned list (of_token i b) = part (get_elem? list.tokens i) (of_token i b)

ends-owned :
    (list : TokenList) (b : TokenBlock)
    → part (from_place 0 (place b) list.tokens) b
        + times same_token b (array_block ∷ list_block ∷ [])
      ≡ tokens_owned list b
ends-owned list b = rw (from_place_zero (place b) list.tokens) (ground arith)

-- On a list within its block, whose tokens' attributes lie within theirs, `token_list_free` frees
-- each block of the list as often as the list has it: the list and its array once, each token once,
-- its value once if it is not NULL, each block of its attributes once, and nothing else.
pub token_list_free-owned :
    (list : TokenList) (b : TokenBlock)
    → IsValid list
    → All (λ (t : Token). ValidIfAny t.attributes) list.tokens
    → times same_token b (token_list_free (some list)) ≡ tokens_owned list b
unfolding token_list_free
token_list_free-owned list b v all =
    let whole = take_all list.count list.tokens (omega (arith, v.counted)) in
    times-append same_token b (free_tokens 0 (take list.count list.tokens))
      (array_block ∷ list_block ∷ [])
    ∙ (rw (whole, free_tokens-part b 0 list.tokens all) (ends-owned list b))
