-- ===== src/TokenList/Growth.antt =====
-- The array of tokens stays within its block, and an add appends or changes nothing.
use c_pug.Common.{
  ◌+◌, ◌^◌, ◌≤◌, ◌<◌, ◌≡◌, Bool, true, ◌||◌, some, ◌++◌, [], ◌∷◌, arith, length, length-append,
  put_elem-length, ltb, if◌then◌else◌,
}
use c_pug.Tokens.{Token, TokenList}
use c_pug.TokenList.{token_list_create, token_list_add}

-- `count` counts the stored items, which lie within the allocated block.
pub record IsValid (l : TokenList) : Type 0 where
  pub counted : l.count ≡ length l.tokens
  pub within : l.count ≤ l.capacity
  pub allocated : l.capacity ≡ l.slots
  pub positive : 0 < l.capacity

pub create-IsValid : IsValid token_list_create
unfolding token_list_create
create-IsValid = ground arith

-- Whether an add finds room, and so stores its token.
abbrev pub stores : Bool → TokenList → Bool
stores realloc_ok l = realloc_ok || ltb l.count l.capacity

-- On a list within its block, an add appends the token if `realloc` succeeds or there is room, and
-- else leaves the tokens as they are.
pub tokens-token_list_add :
    (ok : Bool) (l : TokenList) (t : Token)
    → IsValid l
    → (token_list_add ok l (some t)).tokens ≡ (if stores ok l then l.tokens ++ t ∷ [] else l.tokens)
unfolding token_list_add
tokens-token_list_add ok l t v = ground (arith, put_elem-length l.tokens t)

-- Below a capacity of 2 ^ 31, an add to a list within its block, whether it stores the token or
-- not, leaves the list within its block.
pub token_list_add-IsValid :
    (ok : Bool) (l : TokenList) (t : Token)
    → IsValid l
    → l.capacity < 2 ^ 31
    → IsValid (token_list_add ok l (some t))
unfolding token_list_add
token_list_add-IsValid ok l t v small =
    ground (arith, put_elem-length l.tokens t, length-append l.tokens (t ∷ []))

-- An add to a full list whose capacity is 2 ^ 31 or more, and less than 2 ^ 32 - 1, with a
-- `realloc` that succeeds: the doubled capacity wraps, and the block is left with fewer places than
-- tokens.
pub token_list_add-wraps :
    (l : TokenList) (t : Token)
    → IsValid l
    → l.count ≡ l.capacity
    → 2 ^ 31 ≤ l.capacity
    → l.capacity + 1 < 2 ^ 32
    → (token_list_add true l (some t)).slots < (token_list_add true l (some t)).count
unfolding token_list_add
token_list_add-wraps l t v full large small = ground arith
