-- ===== src/Debug/Print.antt =====
-- include/pug/pug_bug.h: the functions that print a list of tokens and a tree.
use c_pug.Common.{
  ℕ, zero, suc, Bool, true, false, length, ◌+◌, ◌%◌, Option, none, some, List, [], ◌∷◌, ◌++◌, Bytes,
  codes, text_or, get_elem?, ltb, take, replicate, if◌then◌else◌,
}
use c_pug.Ast.{Heap}
use c_pug.Common.Run.{Run, ok, fault, timeout, ◌>>=◌}
use c_pug.Console.{Call, printf, text, number, int}
use c_pug.Debug.{token_type_to_string}
use c_pug.Glib.{pos}
use c_pug.Tokens.{Token, TokenList, Ptr, AstNode, uint_mod}

-- The line of token `i`.
unfoldable pub print_token : ℕ → Token → Call
print_token i token =
    printf "[%u] Tipo: %-15s | Valor: %-20s | Línea: %u | Columna: %u | Profundidad: %u\n" (
      number i
      ∷ text (token_type_to_string token.type)
      ∷ text (text_or token.value (codes "(null)"))
      ∷ number token.line
      ∷ number token.column
      ∷ number token.depth
      ∷ [])

-- The loop from `i` on.
unfoldable pub print_tokens : ℕ → List Token → List Call
print_tokens i [] = []
print_tokens i (token ∷ tokens) = print_token i token ∷ print_tokens (i + 1) tokens

-- `%d` prints the count and the capacity, which are below 2 ^ 31.
unfoldable pub token_list_print : Option TokenList → List Call
token_list_print none = printf "TokenList es NULL\n" [] ∷ []
token_list_print (some list) =
    printf "=== TokenList (count: %d, capacity: %d) ===\n"
      (int (pos list.count) ∷ int (pos list.capacity) ∷ [])
    ∷ (print_tokens 0 (take list.count list.tokens)
        ++ printf "=====================================\n\n" [] ∷ [])

-- The loop over the classes; `first` is `i == 0`.
unfoldable pub print_class_items : Bool → List Bytes → List Call
print_class_items first [] = []
print_class_items first (c ∷ classes) =
    (if first then [] else printf " " [] ∷ [])
    ++ (printf "%s" (text c ∷ []) ∷ print_class_items false classes)

unfoldable pub print_id : Option Bytes → List Call
print_id none = []
print_id (some id) = printf " id=\"%s\"" (text id ∷ []) ∷ []

unfoldable pub print_classes : AstNode → List Call
print_classes node =
    if ltb 0 node.class_count
    then printf " class=\"" []
      ∷ (print_class_items true
            (take node.class_count (elim node.classes [ none ↦ [] | some classes ↦ classes ]))
          ++ printf "\"" [] ∷ [])
    else []

unfoldable pub print_text : Option Bytes → List Call
print_text none = []
print_text (some content) = printf " %s" (text content ∷ []) ∷ []

-- What is printed for a node before its children.
unfoldable pub print_node : ℕ → AstNode → List Call
unfolding print_id print_classes print_text print_class_items
print_node indent_level node =
    replicate indent_level (printf "  " [])
    ++ (printf "<%s" (text (text_or node.tag (codes "text")) ∷ [])
        ∷ (print_id node.id
            ++ (print_classes node
                ++ (printf ">" []
                    ∷ (print_text node.text_content
                        ++ printf " (type: %s, depth: %u, children: %u, line: %u, col: %u)\n" (
                            text (token_type_to_string node.node_type)
                            ∷ number node.depth
                            ∷ number node.children_count
                            ∷ number node.line
                            ∷ number node.column
                            ∷ [])
                          ∷ [])))))

-- The loop over the children; `print` is the recursive call.
unfoldable pub print_children : (Ptr → Run (List Call)) → List Ptr → Run (List Call)
print_children print [] = ok []
print_children print (p ∷ ps) =
    print p >>= λ calls. print_children print ps >>= λ rest. ok (calls ++ rest)

-- The recursion over the tree is on fuel; a pointer to no node is a fault.
unfoldable pub ast_node_print_internal : ℕ → Heap → Ptr → ℕ → Run (List Call)
ast_node_print_internal zero h p indent_level = timeout
ast_node_print_internal (suc fuel) h p indent_level = elim (get_elem? h p) [
  | none ↦ fault
  | some node ↦
      print_children (λ c. ast_node_print_internal fuel h c ((indent_level + 1) % uint_mod))
        (take node.children_count node.children)
      >>= λ rest. ok (print_node indent_level node ++ rest)
]

-- NULL is `none`.
unfoldable pub ast_node_print : Heap → Option Ptr → ℕ → Run (List Call)
ast_node_print h none indent_level = ok []
ast_node_print h (some p) indent_level = ast_node_print_internal (length h) h p indent_level
