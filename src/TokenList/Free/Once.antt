-- ===== src/TokenList/Free/Once.antt =====
-- `token_list_free` frees no block twice.
use c_pug.AttributeList.Free.{attribute_list_free, attribute_list_free-once}
use c_pug.Common.{
  ℕ, ◌+◌, ◌≤◌, Bool, Option, none, some, List, [], ◌∷◌, ◌++◌, arith, ◌==◌, leb, take, times,
  times-append, if◌then◌else◌,
}
use c_pug.TokenList.Free.{
  TokenBlock, list_block, array_block, token, token_value, of_token, lift, value_block, free_token,
  free_tokens, token_list_free, same_token, inner, place, times-lift,
}
use c_pug.Tokens.{Token, TokenList}

-- One for the blocks of a token that passes the test.
abbrev allowed : Bool → TokenBlock → ℕ
allowed test list_block = 0
allowed test array_block = 0
allowed test (token i) = if test then 1 else 0
allowed test (token_value i) = if test then 1 else 0
allowed test (of_token i c) = if test then 1 else 0

value_once :
    (b : TokenBlock) (i : ℕ) (t : Token)
    → times same_token b (value_block i t.value)
        + (inner i b (attribute_list_free t.attributes) + times same_token b (token i ∷ []))
      ≤ allowed (place b == i) b
value_once (of_token j c) i t = ground (arith, attribute_list_free-once t.attributes c)
value_once b i t = ground arith

free_token-once :
    (b : TokenBlock) (i : ℕ) (t : Token)
    → times same_token b (free_token i t) ≤ allowed (place b == i) b
unfolding free_token
free_token-once b i t =
    let bs = attribute_list_free t.attributes in
    let e = times-append same_token b (lift i bs) (token i ∷ []) in
    let f = times-append same_token b (value_block i t.value) (lift i bs ++ token i ∷ []) in
    rw (f, e, times-lift b i bs) (value_once b i t)

free_tokens-once :
    (b : TokenBlock) (i : ℕ) (ts : List Token)
    → times same_token b (free_tokens i ts) ≤ allowed (leb i (place b)) b
unfolding free_tokens
free_tokens-once b i [] = omega arith
free_tokens-once b i (t ∷ ts) = ground (
  arith,
  free_tokens-once b (i + 1) ts,
  free_token-once b i t,
  times-append same_token b (free_token i t) (free_tokens (i + 1) ts),
)

-- No block is freed twice, whatever the list is.
pub token_list_free-once :
    (o : Option TokenList) (b : TokenBlock) → times same_token b (token_list_free o) ≤ 1
unfolding token_list_free
token_list_free-once none b = omega arith
token_list_free-once (some list) b =
    let ts = take list.count list.tokens in
    ground (
      arith,
      free_tokens-once b 0 ts,
      times-append same_token b (free_tokens 0 ts) (array_block ∷ list_block ∷ []),
    )
