-- ===== src/TokenList.antt =====
-- include/pug/pug_token_list.h: the growing array of tokens. `g_new` never returns NULL; whether
-- `realloc` succeeds is an argument.
pub mod Growth
pub mod Free
pub mod Extends
use c_pug.Common.{ℕ, ◌+◌, ◌*◌, ◌%◌, Bool, Option, none, some, [], put_elem, leb, if◌then◌else◌}
use c_pug.Tokens.{Token, TokenList, uint_mod}

unfoldable pub token_list_create : TokenList
token_list_create = record { tokens = []; count = 0; capacity = 10; slots = 10 }

-- Whether a `realloc` succeeds: at the number of tokens in the list, for the given token.
abbrev pub Reallocs : Type 0
Reallocs = ℕ → Token → Bool

-- `list->tokens[list->count] = token; list->count++`
store_token : TokenList → Token → TokenList
store_token list token = record list {
  tokens = put_elem list.tokens list.count token;
  count = (list.count + 1) % uint_mod;
}

-- The growth before the write; a failed `realloc` returns from the function.
grow_tokens : Bool → TokenList → Option TokenList
grow_tokens realloc_ok list =
    let new_capacity = list.capacity * 2 % uint_mod in
    if realloc_ok
    then some (record list { capacity = new_capacity; slots = new_capacity })
    else none

unfoldable pub token_list_add : Bool → TokenList → Option Token → TokenList
unfolding store_token grow_tokens
token_list_add realloc_ok list none = list
token_list_add realloc_ok list (some token) =
    if leb list.capacity list.count
    then elim (grow_tokens realloc_ok list) [ none ↦ list | some grown ↦ store_token grown token ]
    else store_token list token
