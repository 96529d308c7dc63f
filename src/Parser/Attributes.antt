-- ===== src/Parser/Attributes.antt =====
-- `parse_attributes` and `parse_classes`. The node is not yet linked to the tree, so it is passed
-- as a value.
pub mod Written
pub mod RoundTrip
use c_pug.Common.{
  ℕ, ◌+◌, ◌%◌, Bool, true, false, ◌&&◌, ◌||◌, Option, none, some, List, [], ◌∷◌, put_elem, Bytes,
  codes, ◌==◌, if◌then◌else◌, length,
}
use c_pug.AttributeList.{attribute_list_create, attribute_list_add}
use c_pug.Common.Run.{Run, ok, fault}
use c_pug.Glib.{Glib, pos, negsuc}
use c_pug.Parser.Context.{Memory, parser_get_current_token, parser_advance_token}
use c_pug.Tokens.{
  token_attribute, TokenType, attr_string, AttributeList, AstNode, ParserContext, uint_mod,
}

abbrev pub drop_last : Bytes → Bytes
drop_last [] = []
drop_last (c ∷ []) = []
drop_last (c ∷ d ∷ s) = c ∷ drop_last (d ∷ s)

-- The last byte of `c ∷ s`, that is `value[strlen(value) - 1]`.
abbrev pub last_byte : ℕ → Bytes → ℕ
last_byte c [] = c
last_byte c (d ∷ s) = last_byte d s

-- The value of an attribute without its quotes. The last byte is overwritten by the terminating 0
-- before `value + 1` is copied, so a single quote gives the empty string.
unfoldable pub unquote : Bytes → Bytes
unquote [] = []
unquote (c ∷ s) =
    if (c == b'"' && last_byte c s == b'"') || (c == 39 && last_byte c s == 39)
    then drop_last s
    else c ∷ s

unfoldable pub is_attribute : TokenType → Bool
is_attribute token_attribute = true
is_attribute _ = false

module _ (g : Glib) (mem : Memory) where
  open g use {g_strstrip, g_strsplit}

  -- The attribute of a name and a value that are not yet stripped. Here and below, the first
  -- argument is the place of the token, and `left` the number of pairs that are still to come.
  unfoldable pub add_pair : ℕ → ℕ → AttributeList → Bytes → Bytes → AttributeList
  add_pair token left list name value = elim (mem.attribute token left) [
    | false ↦ list
    | true ↦ elim (g_strstrip name) [
      | [] ↦ list
      | c ∷ s ↦ attribute_list_add (mem.grow_attributes token left) list (
          some (record {
            name = some (c ∷ s);
            value = some (unquote (g_strstrip value));
            type = attr_string;
          }))
    ]
  ]

  -- `if (kv[0] && kv[1] && *kv[0])`
  unfoldable pub add_key_value : ℕ → ℕ → AttributeList → List Bytes → AttributeList
  add_key_value token left list ((c ∷ name) ∷ value ∷ _) = add_pair token left list (c ∷ name) value
  add_key_value token left list _ = list

  -- One round of the loop over the pairs.
  unfoldable pub parse_pair : ℕ → ℕ → AttributeList → Bytes → AttributeList
  parse_pair token left list pair = elim (g_strstrip pair) [
    | [] ↦ list
    | c ∷ s ↦ add_key_value token left list (g_strsplit (c ∷ s) (codes "=") (pos 2))
  ]

  unfoldable pub parse_pairs : ℕ → AttributeList → List Bytes → AttributeList
  parse_pairs token list [] = list
  parse_pairs token list (pair ∷ pairs) =
      parse_pairs token (parse_pair token (length pairs) list pair) pairs

  -- The list of the node, created if there is none.
  abbrev pub attributes_of : AstNode → AttributeList
  attributes_of node = elim node.attributes [ none ↦ attribute_list_create | some list ↦ list ]

  unfoldable pub attributes_from : ParserContext → AstNode → Bytes → AstNode × ParserContext
  attributes_from ctx node value =
      let pairs = g_strsplit value (codes ",") (negsuc 0) in
      (
        record node {
          attributes = some (parse_pairs ctx.current_token (attributes_of node) pairs);
        },
        parser_advance_token ctx,
      )

  unfoldable pub parse_attributes : ParserContext → AstNode → AstNode × ParserContext
  unfolding attributes_from
  parse_attributes ctx node = elim (parser_get_current_token ctx) [
    | none ↦ (node, ctx)
    | some token ↦
        if is_attribute token.type
        then (elim token.value [ none ↦ (node, ctx) | some value ↦ attributes_from ctx node value ])
        else (node, ctx)
  ]

  -- `node->classes[node->class_count++] = g_strdup(class_name)`; NULL cannot be
  -- written through. The count starts at 0 with the first block.
  store_class : AstNode → Option (List Bytes) → Bytes → Run AstNode
  store_class node none class_name = fault
  store_class node (some classes) class_name =
      let count : ℕ = elim node.classes [ none ↦ 0 | some _ ↦ node.class_count ] in
      ok (record node {
        classes = some (put_elem classes count class_name);
        class_count = (count + 1) % uint_mod;
      })

  -- The block for the classes: created, enlarged at each fifth class, or left as it is. The outer
  -- `none` is the early return.
  class_block : ℕ → AstNode → Option (Option (List Bytes))
  class_block token node = elim node.classes [
    | none ↦ some (if mem.classes token then some [] else none)
    | some classes ↦
        if node.class_count % 5 == 0
        then (if mem.grow_classes token then some (some classes) else none)
        else some (some classes)
  ]

  unfoldable pub parse_classes : ℕ → AstNode → Bytes → Run AstNode
  unfolding store_class class_block
  parse_classes token node [] = ok node
  parse_classes token node (c ∷ class_name) = elim (class_block token node) [
    | none ↦ ok node
    | some block ↦ store_class node block (c ∷ class_name)
  ]
