-- ===== src/Ast.antt =====
-- include/pug/pug_ast.h: nodes, their growing arrays of children, and lists of nodes. The nodes
-- live on a heap, a list in the order of allocation; a pointer is a place in it. Whether `malloc`
-- and `realloc` succeed is an argument.
pub mod Children
pub mod Free
pub mod Parts
use c_pug.Common.{
  ℕ, zero, suc, ◌+◌, ◌-◌, ◌*◌, ◌%◌, Bool, true, false, ◌&&◌, Option, none, some, List, [], ◌∷◌,
  put_elem, get_elem?, leb, if◌then◌else◌,
}
use c_pug.Tokens.{TokenType, Ptr, AstNode, NodeList, uint_mod}

abbrev pub Heap : Type 0
Heap = List AstNode

-- `node->field = …` through a pointer; a pointer to no node changes nothing.
abbrev pub update_node : Heap → Ptr → (AstNode → AstNode) → Heap
update_node [] p f = []
update_node (n ∷ h) zero f = f n ∷ h
update_node (n ∷ h) (suc p) f = n ∷ update_node h p f

-- The `int` depth is stored in an `unsigned int`, so -1 is passed as `uint_mod - 1`.
unfoldable pub ast_node_create : Bool → Bool → TokenType → ℕ → Option AstNode
ast_node_create node_ok children_ok type depth =
    if node_ok && children_ok
    then some (record {
      tag = none;
      text_content = none;
      node_type = type;
      attributes = none;
      classes = none;
      class_count = 0;
      id = none;
      depth = depth % uint_mod;
      line = 0;
      column = 0;
      parent = none;
      children = [];
      children_count = 0;
      children_capacity = 5;
      children_slots = 5;
      is_void = 0;
      is_inline = 0;
      is_block = 0;
    })
    else none

-- The growth of `parent->children`: the capacity is doubled before `realloc` is called, and stays
-- so if the call fails.
pub double_capacity : Bool → AstNode → AstNode
double_capacity realloc_ok parent =
    let doubled = parent.children_capacity * 2 % uint_mod in
    record parent {
      children_capacity = doubled;
      children_slots = if realloc_ok then doubled else parent.children_slots;
    }

-- `parent->children[parent->children_count] = child` and `parent->children_count++`
pub store_child : Ptr → AstNode → AstNode
store_child child parent = record parent {
  children = put_elem parent.children parent.children_count child;
  children_count = (parent.children_count + 1) % uint_mod;
}

-- What an add does to the parent; the flag says whether the child was stored.
unfoldable pub adopt : Bool → Ptr → AstNode → AstNode × Bool
unfolding double_capacity store_child
adopt realloc_ok child parent =
    if leb parent.children_capacity parent.children_count
    then (if realloc_ok
        then (store_child child (double_capacity true parent), true)
        else (double_capacity false parent, false))
    else (store_child child parent, true)

abbrev pub set_parent : Ptr → AstNode → AstNode
set_parent p n = record n { parent = some p }

unfoldable pub ast_node_add_child : Bool → Heap → Option Ptr → Option Ptr → Heap
ast_node_add_child realloc_ok h none child = h
ast_node_add_child realloc_ok h (some p) none = h
ast_node_add_child realloc_ok h (some p) (some c) = elim (get_elem? h p) [
  | none ↦ h
  | some parent ↦
      let (parent', stored) = adopt realloc_ok c parent in
      let h' = update_node h p (λ _. parent') in
      if stored then update_node h' c (set_parent p) else h'
]

unfoldable pub node_list_create : Bool → Bool → Option NodeList
node_list_create list_ok nodes_ok =
    if list_ok && nodes_ok
    then some (record { nodes = []; count = 0; capacity = 10; slots = 10 })
    else none

-- `list->nodes[list->count] = node; list->count++`
store_node : NodeList → Ptr → NodeList
store_node list node = record list {
  nodes = put_elem list.nodes list.count node;
  count = (list.count + 1) % uint_mod;
}

unfoldable pub node_list_add : Bool → NodeList → Option Ptr → NodeList
unfolding store_node
node_list_add realloc_ok list none = list
node_list_add realloc_ok list (some node) =
    let new_capacity = list.capacity * 2 % uint_mod in
    if leb list.capacity list.count
    then (if realloc_ok
        then store_node (record list { capacity = new_capacity; slots = new_capacity }) node
        else list)
    else store_node list node
