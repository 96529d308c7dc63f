-- ===== src/Ast/Children.antt =====
-- The arrays of children and of nodes stay within their blocks as long as `realloc` succeeds.
use c_pug.Common.{
  ◌^◌, ◌≤◌, ◌<◌, ◌≡◌, Bool, true, false, ◌||◌, some, ◌++◌, [], ◌∷◌, arith, length, length-append,
  put_elem-length, ltb, if◌then◌else◌,
}
use c_pug.Tokens.{Ptr, AstNode, NodeList}
use c_pug.Ast.{adopt, node_list_add}

-- `children_count` counts the children, which lie within the allocated block.
pub record IsValid (n : AstNode) : Type 0 where
  pub counted : n.children_count ≡ length n.children
  pub within : n.children_count ≤ n.children_capacity
  pub allocated : n.children_capacity ≡ n.children_slots
  pub positive : 0 < n.children_capacity

-- On a node whose children lie within their block, of a capacity below 2 ^ 31, an add that stores
-- its child appends it and leaves the children within their block.
pub adopt-IsValid :
    (ok : Bool) (c : Ptr) (n : AstNode)
    → IsValid n
    → n.children_capacity < 2 ^ 31
    → (adopt ok c n).1 ≡ true
    → IsValid (adopt ok c n).0 × ((adopt ok c n).0.children ≡ n.children ++ c ∷ [])
unfolding adopt
adopt-IsValid ok c n v small stored =
    ground (arith, put_elem-length n.children c, length-append n.children (c ∷ []))

-- On a node whose children fill their block, of a capacity below 2 ^ 31, an add whose `realloc`
-- fails does not store its child; the next add, whatever `realloc` does, leaves more children than
-- the block has places.
pub adopt_overflows :
    (ok : Bool) (c d : Ptr) (n : AstNode)
    → IsValid n
    → n.children_count ≡ n.children_capacity
    → n.children_capacity < 2 ^ 31
    → ((adopt false c n).1 ≡ false)
      × ((adopt ok d (adopt false c n).0).0.children_slots
          < (adopt ok d (adopt false c n).0).0.children_count)
unfolding adopt
adopt_overflows ok c d n v full small = ground arith

pub record NodesAreValid (l : NodeList) : Type 0 where
  pub counted : l.count ≡ length l.nodes
  pub within : l.count ≤ l.capacity
  pub allocated : l.capacity ≡ l.slots
  pub positive : 0 < l.capacity

-- Below a capacity of 2 ^ 31, an add to a list of nodes within its block leaves it within its
-- block; the node is appended if `realloc` succeeds or there is room, and else the nodes stay as
-- they are.
pub node_list_add-append :
    (ok : Bool) (l : NodeList) (p : Ptr)
    → NodesAreValid l
    → l.capacity < 2 ^ 31
    → NodesAreValid (node_list_add ok l (some p))
      × ((node_list_add ok l (some p)).nodes
          ≡ (if ok || ltb l.count l.capacity then l.nodes ++ p ∷ [] else l.nodes))
unfolding node_list_add
node_list_add-append ok l p v small =
    ground (arith, put_elem-length l.nodes p, length-append l.nodes (p ∷ []))
