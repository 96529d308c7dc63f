-- ===== src/Main/Events.antt =====
-- What the program does to its surroundings, in order: calls that print, and blocks that it frees.
use c_pug.Common.{Bytes, Option, none, some, List, [], ◌∷◌, map}
use c_pug.Console.{Call}
use c_pug.Tokens.{TokenList}

pub data Event : Type 0 where
  call : Call → Event
  -- `free(bc)`
  free_bytecode : Bytes → Event
  -- `token_list_free(tokens)`
  free_tokens : TokenList → Event
  -- `render_free(html)` and `g_free(content)`
  free_text : Bytes → Event
  -- `g_error_free(error)`
  free_error : Bytes → Event

unfoldable pub render_free : Option Bytes → List Event
render_free none = []
render_free (some rendered) = free_text rendered ∷ []

abbrev pub calls : List Call → List Event
calls = map call

-- The events that free a block.
abbrev pub freed : List Event → List Event
freed [] = []
freed (call _ ∷ es) = freed es
freed (free_bytecode bc ∷ es) = free_bytecode bc ∷ freed es
freed (free_tokens list ∷ es) = free_tokens list ∷ freed es
freed (free_text s ∷ es) = free_text s ∷ freed es
freed (free_error s ∷ es) = free_error s ∷ freed es
