-- ===== src/AttributeList/Growth.antt =====
-- The array of attributes stays within its block, and an add appends or changes nothing.
use c_pug.Common.{
  ◌^◌, ◌≤◌, ◌<◌, ◌≡◌, Bool, ◌||◌, some, ◌++◌, [], ◌∷◌, arith, length, length-append,
  put_elem-length, ltb, if◌then◌else◌,
}
use c_pug.Tokens.{Attribute, AttributeList}
use c_pug.AttributeList.{attribute_list_create, attribute_list_add}

-- `count` counts the stored items, which lie within the allocated block.
pub record IsValid (l : AttributeList) : Type 0 where
  pub counted : l.count ≡ length l.attributes
  pub within : l.count ≤ l.capacity
  pub allocated : l.capacity ≡ l.slots
  pub positive : 0 < l.capacity

pub create-IsValid : IsValid attribute_list_create
unfolding attribute_list_create
create-IsValid = ground arith

-- Whether an add finds room, and so stores its attribute.
abbrev pub stores : Bool → AttributeList → Bool
stores realloc_ok l = realloc_ok || ltb l.count l.capacity

-- On a list within its block, an add appends the attribute if `realloc` succeeds or there is room,
-- and else leaves the attributes as they are.
pub attributes-attribute_list_add :
    (ok : Bool) (l : AttributeList) (t : Attribute)
    → IsValid l
    → (attribute_list_add ok l (some t)).attributes
      ≡ (if stores ok l then l.attributes ++ t ∷ [] else l.attributes)
unfolding attribute_list_add
attributes-attribute_list_add ok l t v = ground (arith, put_elem-length l.attributes t)

-- Below a capacity of 2 ^ 31, an add to a list within its block, whether it stores the attribute or
-- not, leaves the list within its block.
pub attribute_list_add-IsValid :
    (ok : Bool) (l : AttributeList) (t : Attribute)
    → IsValid l
    → l.capacity < 2 ^ 31
    → IsValid (attribute_list_add ok l (some t))
unfolding attribute_list_add
attribute_list_add-IsValid ok l t v small =
    ground (arith, put_elem-length l.attributes t, length-append l.attributes (t ∷ []))
