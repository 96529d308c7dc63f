-- ===== src/AttributeList.antt =====
-- include/pug/pug_attribute_list.h: the growing array of attributes. `g_new` never returns NULL;
-- whether `realloc` succeeds is an argument.
pub mod Growth
pub mod Free
use c_pug.Common.{ℕ, ◌+◌, ◌*◌, ◌%◌, Bool, Option, none, some, [], put_elem, leb, if◌then◌else◌}
use c_pug.Tokens.{Attribute, AttributeList, uint_mod}

unfoldable pub attribute_list_create : AttributeList
attribute_list_create = record { attributes = []; count = 0; capacity = 5; slots = 5 }

-- `list->attributes[list->count] = attr; list->count++`
store_attribute : AttributeList → Attribute → AttributeList
store_attribute list attr = record list {
  attributes = put_elem list.attributes list.count attr;
  count = (list.count + 1) % uint_mod;
}

-- The growth before the write; a failed `realloc` returns from the function.
grow_attributes : Bool → AttributeList → Option AttributeList
grow_attributes realloc_ok list =
    let new_capacity = list.capacity * 2 % uint_mod in
    if realloc_ok
    then some (record list { capacity = new_capacity; slots = new_capacity })
    else none

unfoldable pub attribute_list_add : Bool → AttributeList → Option Attribute → AttributeList
unfolding store_attribute grow_attributes
attribute_list_add realloc_ok list none = list
attribute_list_add realloc_ok list (some attr) =
    if leb list.capacity list.count
    then elim (grow_attributes realloc_ok list) [
      | none ↦ list
      | some grown ↦ store_attribute grown attr
    ]
    else store_attribute list attr
