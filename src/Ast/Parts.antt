-- ===== src/Ast/Parts.antt =====
-- The blocks of one node: none is freed twice.
use c_pug.Ast.Free.{
  Part, itself, tag_text, content_text, id_text, class_array, child_array, class_text,
  attributes_block, NodeBlock, of_node, list_block, array_block, unless_null, free_class_items,
  free_classes, attribute_parts, free_own, parts_of,
}
use c_pug.AttributeList.Free.{Block, same, attribute_list_free, attribute_list_free-once}
use c_pug.Common.{
  ℕ, ◌+◌, ◌≤◌, ◌≡◌, refl, Bool, true, false, ◌&&◌, Option, none, some, List, [], ◌∷◌, ◌++◌, Bytes,
  arith, ◌==◌, leb, if◌then◌else◌, take, times, times-append,
}
use c_pug.Tokens.{Ptr, AstNode}

abbrev pub same_part : Part → Part → Bool
same_part itself itself = true
same_part tag_text tag_text = true
same_part content_text content_text = true
same_part id_text id_text = true
same_part class_array class_array = true
same_part child_array child_array = true
same_part (class_text i) (class_text j) = i == j
same_part (attributes_block b) (attributes_block c) = same b c
same_part _ _ = false

abbrev pub same_node : NodeBlock → NodeBlock → Bool
same_node (of_node p b) (of_node q c) = p == q && same_part b c
same_node list_block list_block = true
same_node array_block array_block = true
same_node _ _ = false

-- How often a block occurs among the classes from `k` on at most, and among the attributes.
abbrev class_limit : Part → ℕ → ℕ
class_limit (class_text i) k = if leb k i then 1 else 0
class_limit _ k = 0

abbrev inner : Part → List Block → ℕ
inner (attributes_block c) bs = times same c bs
inner _ bs = 0

class_items-limit :
    (b : Part) (k : ℕ) (cs : List Bytes)
    → times same_part b (free_class_items k cs) ≤ class_limit b k
unfolding free_class_items
class_items-limit b k [] = omega arith
class_items-limit b k (c ∷ cs) = ground (arith, class_items-limit b (k + 1) cs)

attribute_parts-inner :
    (b : Part) (bs : List Block) → times same_part b (attribute_parts bs) ≡ inner b bs
attribute_parts-inner b [] = ground arith
attribute_parts-inner b (c ∷ bs) = ground (arith, attribute_parts-inner b bs)

free_classes-limit :
    (b : Part) (n : AstNode)
    → times same_part b (free_classes n)
      ≤ class_limit b 0 + (if same_part b class_array then 1 else 0)
unfolding free_classes
free_classes-limit b n = classes_end b n n.classes
  where
    classes_end :
        (b : Part) (n : AstNode) (o : Option (List Bytes))
        → times same_part b (elim o [
          | none ↦ []
          | some classes ↦ free_class_items 0 (take n.class_count classes) ++ class_array ∷ []
        ])
          ≤ class_limit b 0 + (if same_part b class_array then 1 else 0)
    classes_end b n none = omega arith
    classes_end b n (some classes) =
        let items = free_class_items 0 (take n.class_count classes) in
        omega (
          arith,
          times-append same_part b items (class_array ∷ []),
          class_items-limit b 0 (take n.class_count classes),
        )

sum-once :
    (b : Part) (n : AstNode) (classes attributes : ℕ)
    → classes ≤ class_limit b 0 + (if same_part b class_array then 1 else 0)
    → attributes ≡ inner b (attribute_list_free n.attributes)
    → times same_part b (unless_null n.tag tag_text)
        + (times same_part b (unless_null n.text_content content_text)
            + (times same_part b (unless_null n.id id_text) + (classes + attributes)))
        + times same_part b (child_array ∷ itself ∷ [])
      ≤ 1
sum-once (attributes_block c) n classes attributes le e =
    ground (arith, attribute_list_free-once n.attributes c)
sum-once b n classes attributes le e = ground arith

free_own-sum :
    (b : Part) (n : AstNode)
    → times same_part b (free_own n)
      ≡ times same_part b (unless_null n.tag tag_text)
        + (times same_part b (unless_null n.text_content content_text)
            + (times same_part b (unless_null n.id id_text)
                + (times same_part b (free_classes n)
                    + times same_part b (attribute_parts (attribute_list_free n.attributes)))))
unfolding free_own
free_own-sum b n =
    let attributes = attribute_parts (attribute_list_free n.attributes) in
    let classes = free_classes n in
    let id = unless_null n.id id_text in
    let content = unless_null n.text_content content_text in
    omega (
      arith,
      times-append same_part b classes attributes,
      times-append same_part b id (classes ++ attributes),
      times-append same_part b content (id ++ (classes ++ attributes)),
      times-append same_part b (unless_null n.tag tag_text)
          (content ++ (id ++ (classes ++ attributes))),
    )

-- No block of a node is freed twice before or behind its children.
pub own-once :
    (b : Part) (n : AstNode)
    → times same_part b (free_own n) + times same_part b (child_array ∷ itself ∷ []) ≤ 1
own-once b n = rw (free_own-sum b n) (
    sum-once b n _ _ (free_classes-limit b n)
      (attribute_parts-inner b (attribute_list_free n.attributes)))

pub times-parts_of :
    (q p : Ptr) (b : Part) (bs : List Part)
    → times same_node (of_node q b) (parts_of p bs) ≡ (if q == p then times same_part b bs else 0)
times-parts_of q p b [] = ground arith
times-parts_of q p b (c ∷ bs) = ground (arith, times-parts_of q p b bs)

pub no_list_part :
    (p : Ptr) (bs : List Part)
    → (times same_node list_block (parts_of p bs) ≡ 0)
      × (times same_node array_block (parts_of p bs) ≡ 0)
no_list_part p [] = (refl, refl)
no_list_part p (c ∷ bs) = let (a, b) = no_list_part p bs in (omega (arith, a), omega (arith, b))
