-- ===== src/Parser/Context.antt =====
-- The context of the parser: creation, the current token and the step to the next one.
use c_pug.Common.{ℕ, ◌+◌, ◌%◌, Bool, Option, none, some, get_elem?, leb, if◌then◌else◌}
use c_pug.Tokens.{Token, ParserContext, uint_mod}

-- The outcome of each allocation of the parser, which may be any. Each field is asked once for the
-- same arguments in a run.
pub record Memory : Type 0 where
  -- `ast_node_create` at the given token
  pub node : ℕ → Bool
  -- `malloc` of an attribute, and `realloc` of the list it is added to, at the given token with the
  -- given number of pairs behind its own
  pub attribute : ℕ → ℕ → Bool
  pub grow_attributes : ℕ → ℕ → Bool
  -- at the given token, the first `malloc` for the classes of a node, which the code does not test,
  -- and a `realloc` of them
  pub classes : ℕ → Bool
  pub grow_classes : ℕ → Bool
  -- `realloc` of the children of a node, when the given number of nodes has been made before the
  -- child
  pub grow_children : ℕ → Bool

-- `strict_mode` is not set by the code; its value is whatever `malloc` returned.
unfoldable pub parser_context_create : Bool → ℕ → Option ParserContext
parser_context_create malloc_ok junk =
    if malloc_ok
    then some (record {
      tokens = none;
      current_token = 0;
      current_depth = 0;
      current_parent = none;
      root_node = none;
      use_tabs = 0;
      tab_size = 2;
      strict_mode = junk;
    })
    else none

unfoldable pub parser_get_current_token : ParserContext → Option Token
parser_get_current_token ctx = elim ctx.tokens [
  | none ↦ none
  | some list ↦
      if leb list.count ctx.current_token then none else get_elem? list.tokens ctx.current_token
]

unfoldable pub parser_advance_token : ParserContext → ParserContext
parser_advance_token ctx = record ctx { current_token = (ctx.current_token + 1) % uint_mod }
