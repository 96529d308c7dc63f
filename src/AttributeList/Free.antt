-- ===== src/AttributeList/Free.antt =====
-- `attribute_list_free`, as the list of the blocks that it frees, in order.
use c_pug.Common.{
  ℕ, ◌+◌, ◌≤◌, ◌≡◌, refl, Bool, true, false, Option, none, some, List, [], ◌∷◌, ◌++◌, arith, ◌==◌,
  ◌∙◌, measure-from_place, get_elem?, take, take_all, times, times-append, from_place,
  from_place_zero, if◌then◌else◌, Bytes,
}
use c_pug.AttributeList.Growth.{IsValid}
use c_pug.Tokens.{Attribute, AttributeList}

-- A block of memory of a list: the list, its array, and the attributes with their names and values.
pub data Block : Type 0 where
  list_block array_block : Block
  attribute attribute_name attribute_value : ℕ → Block

-- A pointer that is NULL is not freed.
abbrev pub unless_null : Option Bytes → Block → List Block
unless_null none b = []
unless_null (some _) b = b ∷ []

unfoldable pub free_attribute : ℕ → Attribute → List Block
free_attribute i attr =
    unless_null attr.name (attribute_name i)
    ++ (unless_null attr.value (attribute_value i) ++ attribute i ∷ [])

-- The loop, from the attribute `i` on.
unfoldable pub free_attributes : ℕ → List Attribute → List Block
free_attributes i [] = []
free_attributes i (attr ∷ attrs) = free_attribute i attr ++ free_attributes (i + 1) attrs

unfoldable pub attribute_list_free : Option AttributeList → List Block
attribute_list_free none = []
attribute_list_free (some list) =
    free_attributes 0 (take list.count list.attributes) ++ array_block ∷ list_block ∷ []

-- The test of two blocks.
abbrev pub same : Block → Block → Bool
same list_block list_block = true
same array_block array_block = true
same (attribute i) (attribute j) = i == j
same (attribute_name i) (attribute_name j) = i == j
same (attribute_value i) (attribute_value j) = i == j
same _ _ = false

abbrev pub one_if : Option Bytes → ℕ
one_if none = 0
one_if (some _) = 1

-- How many blocks of this kind an attribute has: its own one, and those for what is not NULL.
abbrev pub part : Option Attribute → Block → ℕ
part none _ = 0
part (some a) list_block = 0
part (some a) array_block = 0
part (some a) (attribute i) = 1
part (some a) (attribute_name i) = one_if a.name
part (some a) (attribute_value i) = one_if a.value

-- The place that a block belongs to.
abbrev place : Block → ℕ
place list_block = 0
place array_block = 0
place (attribute i) = i
place (attribute_name i) = i
place (attribute_value i) = i

free_attribute-part :
    (b : Block) (i : ℕ) (a : Attribute)
    → times same b (free_attribute i a) ≡ (if place b == i then part (some a) b else 0)
unfolding free_attribute
free_attribute-part b i a = ground arith

free_attributes-part :
    (b : Block) (i : ℕ) (attrs : List Attribute)
    → times same b (free_attributes i attrs) ≡ part (from_place i (place b) attrs) b
unfolding free_attributes
free_attributes-part b i [] = ground arith
free_attributes-part b i (a ∷ attrs) =
    let e = free_attributes-part b (i + 1) attrs in
    let f = free_attribute-part b i a in
    times-append same b (free_attribute i a) (free_attributes (i + 1) attrs)
    ∙ (rw (e, f) (measure-from_place (λ o. part o b) i (place b) a attrs refl))

-- How many blocks of this kind a list has.
abbrev pub owned : AttributeList → Block → ℕ
owned list list_block = 1
owned list array_block = 1
owned list (attribute i) = part (get_elem? list.attributes i) (attribute i)
owned list (attribute_name i) = part (get_elem? list.attributes i) (attribute_name i)
owned list (attribute_value i) = part (get_elem? list.attributes i) (attribute_value i)

ends-owned :
    (list : AttributeList) (b : Block)
    → part (from_place 0 (place b) list.attributes) b + times same b (array_block ∷ list_block ∷ [])
      ≡ owned list b
ends-owned list b = rw (from_place_zero (place b) list.attributes) (ground arith)

-- On a list within its block `attribute_list_free` frees each block of the list as often as the
-- list has it: the list and its array once, each attribute once, its name and its value once if
-- they are not NULL, and nothing else.
pub attribute_list_free-owned :
    (list : AttributeList) (b : Block)
    → IsValid list
    → times same b (attribute_list_free (some list)) ≡ owned list b
unfolding attribute_list_free
attribute_list_free-owned list b v =
    let all = take_all list.count list.attributes (omega (arith, v.counted)) in
    times-append same b (free_attributes 0 (take list.count list.attributes))
      (array_block ∷ list_block ∷ [])
    ∙ (rw (all, free_attributes-part b 0 list.attributes) (ends-owned list b))

ends-once :
    (b : Block) (o : Option Attribute) → part o b + times same b (array_block ∷ list_block ∷ []) ≤ 1
ends-once b o = ground arith

-- No block is freed twice, whatever the list is.
pub attribute_list_free-once :
    (o : Option AttributeList) (b : Block) → times same b (attribute_list_free o) ≤ 1
unfolding attribute_list_free
attribute_list_free-once none b = omega arith
attribute_list_free-once (some list) b =
    let attrs = take list.count list.attributes in
    let e = free_attributes-part b 0 attrs in
    let f = times-append same b (free_attributes 0 attrs) (array_block ∷ list_block ∷ []) in
    rw (f, e) (ends-once b (from_place 0 (place b) attrs))
