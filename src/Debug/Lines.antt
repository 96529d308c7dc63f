-- ===== src/Debug/Lines.antt =====
-- `ast_node_print` prints one row for each node of the tree, each node before its children.
use c_pug.Common.{
  ℕ, zero, suc, ◌+◌, ◌-◌, ◌%◌, ◌≤◌, ◌≡◌, refl, sym, ap, ◌∙◌, true, Option, none, some, List, [],
  ◌∷◌, ◌++◌, Bytes, codes, text_or, arith, length, get_elem?, take, replicate, append_assoc,
  List-cases, if◌then◌else◌, ltb, inl, inr,
}
use c_pug.Ast.{Heap}
use c_pug.Common.Run.{Run, ok, ◌>>=◌}
use Prim.Native.String.{String}
use c_pug.Console.{Call, printf, text, number}
use c_pug.Debug.{token_type_to_string}
use c_pug.Debug.Print.{
  print_class_items, print_id, print_classes, print_text, print_node, print_children,
  ast_node_print_internal, ast_node_print,
}
use c_pug.Parser.Links.{Links}
use c_pug.Renderer.Grown.{grow}
use c_pug.Renderer.Refines.{Stands, AllStand, stands, done, next, height, height_all}
use c_pug.Renderer.Spec.{Tree, Forest, node, no_trees, tree}
use c_pug.Tokens.{Ptr, AstNode, uint_mod}

-- What is printed for a tree from an indentation on.
unfoldable mutual
  pub lines : ℕ → Tree → List Call
  lines indent (node n f) = print_node indent n ++ lines_all ((indent + 1) % uint_mod) f

  pub lines_all : ℕ → Forest → List Call
  lines_all indent no_trees = []
  lines_all indent (tree t f) = lines indent t ++ lines_all indent f

node-step :
    (fuel indent : ℕ) (h : Heap) (p : Ptr) (n : AstNode) (rest : List Call)
    → get_elem? h p ≡ some n
    → print_children
        (λ c. ast_node_print_internal fuel h c ((indent + 1) % uint_mod))
        (take n.children_count n.children)
      ≡ ok rest
    → ast_node_print_internal (suc fuel) h p indent ≡ ok (print_node indent n ++ rest)
unfolding ast_node_print_internal
node-step fuel indent h p n rest e below = rw (e, below, ast_node_print_internal)

mutual
  unfolding lines height print_children

  node-lines :
      {h : Heap} {p : Ptr} {t : Tree} (fuel indent : ℕ)
      → Stands h p t
      → height t ≤ fuel
      → ast_node_print_internal fuel h p indent ≡ ok (lines indent t)
  node-lines {h} {p} fuel indent (stands {n} {f} e all) le =
      let some_fuel : fuel ≡ suc (fuel - 1) = omega arith in
      ap (λ k. ast_node_print_internal k h p indent) some_fuel
      ∙ node-step (fuel - 1) indent h p n (lines_all ((indent + 1) % uint_mod) f) e
          (children-lines (fuel - 1) ((indent + 1) % uint_mod) all (omega arith))

  children-lines :
      {h : Heap} {ps : List Ptr} {f : Forest} (fuel indent : ℕ)
      → AllStand h ps f
      → height_all f ≤ fuel
      → print_children (λ c. ast_node_print_internal fuel h c indent) ps ≡ ok (lines_all indent f)
  children-lines fuel indent done le = refl
  children-lines {h} fuel indent (next {ps} {t} {f} s rest) le =
      ap
        (λ (r : Run (List Call)). r >>= λ calls.
          print_children (λ c. ast_node_print_internal fuel h c indent) ps >>= λ more.
          ok (calls ++ more))
        (node-lines fuel indent s (omega arith))
      ∙ ap (λ (r : Run (List Call)). r >>= λ more. ok (lines indent t ++ more))
          (children-lines fuel indent rest (omega arith))

-- The calls for the classes, with a blank between two of them.
abbrev pub spaced : List Bytes → List Call
spaced [] = []
spaced (c ∷ []) = printf "%s" (text c ∷ []) ∷ []
spaced (c ∷ d ∷ cs) = printf "%s" (text c ∷ []) ∷ printf " " [] ∷ spaced (d ∷ cs)

-- The calls for `count` classes.
abbrev pub class_row : ℕ → List Bytes → List Call
class_row zero classes = []
class_row (suc count) classes =
    printf " class=\"" [] ∷ (spaced (take (suc count) classes) ++ printf "\"" [] ∷ [])

abbrev pub optional : String → Option Bytes → List Call
optional format none = []
optional format (some s) = printf format (text s ∷ []) ∷ []

abbrev pub classes_of : AstNode → List Bytes
classes_of n = elim n.classes [ none ↦ [] | some classes ↦ classes ]

-- The row of a node behind its indentation: the tag, or `text` without one, the id, the classes and
-- the text, if there are any, and the facts of the node.
abbrev pub row : AstNode → List Call
row n =
    printf "<%s" (text (text_or n.tag (codes "text")) ∷ [])
    ∷ (optional " id=\"%s\"" n.id
        ++ (class_row n.class_count (classes_of n)
            ++ (printf ">" []
                ∷ (optional " %s" n.text_content
                    ++ printf " (type: %s, depth: %u, children: %u, line: %u, col: %u)\n" (
                        text (token_type_to_string n.node_type)
                        ∷ number n.depth
                        ∷ number n.children_count
                        ∷ number n.line
                        ∷ number n.column
                        ∷ [])
                      ∷ []))))

-- The nodes of a tree, each with its indentation: a node before its children, which are indented by
-- one more.
unfoldable mutual
  pub walk : ℕ → Tree → List (ℕ × AstNode)
  walk indent (node n f) = (indent, n) ∷ walk_all ((indent + 1) % uint_mod) f

  pub walk_all : ℕ → Forest → List (ℕ × AstNode)
  walk_all indent no_trees = []
  walk_all indent (tree t f) = walk indent t ++ walk_all indent f

-- One row for each node.
abbrev pub rows_of : List (ℕ × AstNode) → List Call
rows_of [] = []
rows_of ((indent, n) ∷ ns) = (replicate indent (printf "  " []) ++ row n) ++ rows_of ns

rows_of-append : (a b : List (ℕ × AstNode)) → rows_of (a ++ b) ≡ rows_of a ++ rows_of b
rows_of-append [] b = refl
rows_of-append ((indent, n) ∷ a) b =
    ap (λ r. (replicate indent (printf "  " []) ++ row n) ++ r) (rows_of-append a b)
    ∙ sym (append_assoc (replicate indent (printf "  " []) ++ row n) (rows_of a) (rows_of b))

class_items-spaced :
    (c : Bytes) (cs : List Bytes) → print_class_items true (c ∷ cs) ≡ spaced (c ∷ cs)
unfolding print_class_items
class_items-spaced c [] = refl
class_items-spaced c (d ∷ cs) =
    ap (λ r. printf "%s" (text c ∷ []) ∷ printf " " [] ∷ r) (class_items-spaced d cs)

class_items-take :
    (count : ℕ) (cs : List Bytes) → print_class_items true (take count cs) ≡ spaced (take count cs)
unfolding print_class_items
class_items-take count cs = elim (List-cases (take count cs)) [
  | inl e ↦ rw e refl
  | inr (c, rest, e) ↦ rw e (class_items-spaced c rest)
]

counted-class_row :
    (count : ℕ) (cs : List Bytes)
    → (if ltb 0 count
        then printf " class=\"" [] ∷ (print_class_items true (take count cs) ++ printf "\"" [] ∷ [])
        else [])
      ≡ class_row count cs
counted-class_row zero cs = refl
counted-class_row (suc count) cs =
    let some_class : ltb 0 (suc count) ≡ true = ground arith in
    rw some_class (
      ap (λ r. printf " class=\"" [] ∷ (r ++ printf "\"" [] ∷ []))
        (class_items-take (suc count) cs))

print_classes-class_row : (n : AstNode) → print_classes n ≡ class_row n.class_count (classes_of n)
unfolding print_classes
print_classes-class_row n = counted-class_row n.class_count (classes_of n)

print_id-optional : (id : Option Bytes) → print_id id ≡ optional " id=\"%s\"" id
unfolding print_id
print_id-optional none = refl
print_id-optional (some id) = refl

print_text-optional : (content : Option Bytes) → print_text content ≡ optional " %s" content
unfolding print_text
print_text-optional none = refl
print_text-optional (some content) = refl

print_node-row :
    (indent : ℕ) (n : AstNode) → print_node indent n ≡ replicate indent (printf "  " []) ++ row n
unfolding print_node
print_node-row indent n =
    rw (print_id-optional n.id, print_classes-class_row n, print_text-optional n.text_content) refl

mutual
  unfolding lines walk

  lines-walk : (indent : ℕ) (t : Tree) → lines indent t ≡ rows_of (walk indent t)
  lines-walk indent (node n f) =
      rw (print_node-row indent n, lines_all-walk ((indent + 1) % uint_mod) f) refl

  lines_all-walk : (indent : ℕ) (f : Forest) → lines_all indent f ≡ rows_of (walk_all indent f)
  lines_all-walk indent no_trees = refl
  lines_all-walk indent (tree t f) =
      rw (lines-walk indent t, lines_all-walk indent f)
        (sym (rows_of-append (walk indent t) (walk_all indent f)))

-- On a heap with sound links `ast_node_print` returns from every node: a tree stands at the node,
-- and what is printed is one row for each node of that tree, each node before its children. A row
-- is two blanks for each level of its indentation, which is one more for the children of a node,
-- and then the tag (`text` without one), the id, the classes with a blank between two of them and
-- the text, as far as the node has them, and its type, depth, number of children, line and column.
pub ast_node_print-lines :
    (h : Heap) (p : Ptr) (n : AstNode) (indent : ℕ)
    → Links h
    → get_elem? h p ≡ some n
    → (t : Tree) × Stands h p t × (ast_node_print h (some p) indent ≡ ok (rows_of (walk indent t)))
unfolding ast_node_print
ast_node_print-lines h p n indent links e =
    let (t, s, low) = grow (length h) h p n links e (omega arith) in
    (t, s, node-lines (length h) indent s low ∙ ap ok (lines-walk indent t))
