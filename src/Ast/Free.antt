-- ===== src/Ast/Free.antt =====
-- `ast_node_free` and `node_list_free`, as the list of the blocks that they free, in order.
use c_pug.Ast.{Heap}
use c_pug.AttributeList.Free.{Block, attribute_list_free}
use c_pug.Common.{
  ℕ, zero, suc, ◌+◌, Option, none, some, List, [], ◌∷◌, ◌++◌, Bytes, get_elem?, length, take,
}
use c_pug.Common.Run.{Run, ok, fault, timeout, ◌>>=◌}
use c_pug.Tokens.{Ptr, AstNode, NodeList}

-- A block of memory of a node: the node, its texts, its classes with their array, the array of its
-- children, and the blocks of its attributes.
pub data Part : Type 0 where
  itself tag_text content_text id_text class_array child_array : Part
  class_text : ℕ → Part
  attributes_block : Block → Part

-- A block of a node, or of a list of nodes.
pub data NodeBlock : Type 0 where
  of_node : Ptr → Part → NodeBlock
  list_block array_block : NodeBlock

abbrev pub unless_null {ℓ} : {A : Type ℓ} → Option A → Part → List Part
unless_null none b = []
unless_null (some _) b = b ∷ []

unfoldable pub free_class_items : ℕ → List Bytes → List Part
free_class_items i [] = []
free_class_items i (c ∷ cs) = class_text i ∷ free_class_items (i + 1) cs

unfoldable pub free_classes : AstNode → List Part
free_classes node = elim node.classes [
  | none ↦ []
  | some classes ↦ free_class_items 0 (take node.class_count classes) ++ class_array ∷ []
]

abbrev pub attribute_parts : List Block → List Part
attribute_parts [] = []
attribute_parts (b ∷ bs) = attributes_block b ∷ attribute_parts bs

-- What a node frees before its children.
unfoldable pub free_own : AstNode → List Part
free_own node =
    unless_null node.tag tag_text
    ++ (unless_null node.text_content content_text
        ++ (unless_null node.id id_text
            ++ (free_classes node ++ attribute_parts (attribute_list_free node.attributes))))

abbrev pub parts_of : Ptr → List Part → List NodeBlock
parts_of p [] = []
parts_of p (b ∷ bs) = of_node p b ∷ parts_of p bs

-- The loop over the children; `free` is the recursive call.
unfoldable pub free_children : (Ptr → Run (List NodeBlock)) → List Ptr → Run (List NodeBlock)
free_children free [] = ok []
free_children free (p ∷ ps) =
    free p >>= λ blocks. free_children free ps >>= λ rest. ok (blocks ++ rest)

-- On fuel: the depth of the tree is at most the number of nodes. `children` is never NULL.
unfoldable pub free_node : ℕ → Heap → Ptr → Run (List NodeBlock)
free_node zero h p = timeout
free_node (suc fuel) h p = elim (get_elem? h p) [
  | none ↦ fault
  | some node ↦
      free_children (free_node fuel h) (take node.children_count node.children) >>= λ below.
      ok (parts_of p (free_own node) ++ (below ++ parts_of p (child_array ∷ itself ∷ [])))
]

unfoldable pub ast_node_free : Heap → Option Ptr → Run (List NodeBlock)
ast_node_free h none = ok []
ast_node_free h (some p) = free_node (length h) h p

unfoldable pub node_list_free : Heap → Option NodeList → Run (List NodeBlock)
node_list_free h none = ok []
node_list_free h (some list) =
    free_children (λ p. ast_node_free h (some p)) (take list.count list.nodes) >>= λ blocks.
    ok (blocks ++ array_block ∷ list_block ∷ [])
