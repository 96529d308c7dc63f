-- ===== src/Parser/Places.antt =====
-- What stands where on the heap behind an add by `parse_pug`.
use mathlib.Core.Option
use c_pug.Common.{
  ℕ, zero, suc, ◌<◌, ◌≡◌, refl, ◌∙◌, Bool, none, some, [], ◌∷◌, ◌++◌, ◌==◌, arith, length,
  if◌then◌else◌, Bool-cases, inl, inr, get_elem?, get_elem?-append, get_elem?-lt,
}
use c_pug.Ast.{Heap, update_node, set_parent, adopt, ast_node_add_child}
use c_pug.Glib.{Glib}
use c_pug.Parser.Context.{Memory}
use c_pug.Parser.Tree.{attach}
use c_pug.Tokens.{Ptr, AstNode}

get_elem?-update_node :
    (h : Heap) (p i : ℕ) (f : AstNode → AstNode)
    → get_elem? (update_node h p f) i
      ≡ (if i == p then Option.map f (get_elem? h i) else get_elem? h i)
get_elem?-update_node [] p i f = ground arith
get_elem?-update_node (n ∷ h) zero zero f = refl
get_elem?-update_node (n ∷ h) zero (suc i) f = ground arith
get_elem?-update_node (n ∷ h) (suc p) zero f = ground arith
get_elem?-update_node (n ∷ h) (suc p) (suc i) f = ground (arith, get_elem?-update_node h p i f)

get_elem?-append_out :
    (h : Heap) (n : AstNode) (i : ℕ) → length h < i → get_elem? (h ++ n ∷ []) i ≡ none
get_elem?-append_out [] n zero lt = absurd (omega arith)
get_elem?-append_out [] n (suc i) lt = refl
get_elem?-append_out (m ∷ h) n zero lt = absurd (omega arith)
get_elem?-append_out (m ∷ h) n (suc i) lt = get_elem?-append_out h n i (omega arith)

-- The item behind the last is the new one.
get_elem?-snoc :
    (h : Heap) (n : AstNode) (i : ℕ)
    → get_elem? (h ++ n ∷ []) i ≡ (if i == length h then some n else get_elem? h i)
get_elem?-snoc [] n zero = refl
get_elem?-snoc [] n (suc i) = ground arith
get_elem?-snoc (m ∷ h) n zero = ground arith
get_elem?-snoc (m ∷ h) n (suc i) = ground (arith, get_elem?-snoc h n i)

-- A heap with a new node behind the others and the node at `p` replaced.
replaced :
    (h : Heap) (node m m' : AstNode) (p i : ℕ)
    → get_elem? h p ≡ some m
    → get_elem? (update_node (h ++ node ∷ []) p (λ _. m')) i
      ≡ (if i == length h then some node else if i == p then some m' else get_elem? h i)
replaced h node m m' p i e =
    rw (get_elem?-update_node (h ++ node ∷ []) p i (λ _. m'), get_elem?-snoc h node i)
      (ground (arith, get_elem?-lt h p m e))

linked :
    (h : Heap) (node m m' : AstNode) (p i : ℕ)
    → get_elem? h p ≡ some m
    → get_elem? (update_node (update_node (h ++ node ∷ []) p (λ _. m')) (length h) (set_parent p)) i
      ≡ (if i == length h
          then some (set_parent p node)
          else if i == p
          then some m'
          else get_elem? h i)
linked h node m m' p i e =
    rw
      (
        get_elem?-update_node (update_node (h ++ node ∷ []) p (λ _. m')) (length h) i
            (set_parent p),
        replaced h node m m' p i e,
      )
      (ground arith)

add_child-eq :
    (ok : Bool) (h : Heap) (p c : Ptr) (m : AstNode)
    → get_elem? h p ≡ some m
    → let r = adopt ok c m in
      ast_node_add_child ok h (some p) (some c) ≡ (
        if r.1
        then update_node (update_node h p (λ _. r.0)) c (set_parent p)
        else update_node h p (λ _. r.0))
unfolding ast_node_add_child
add_child-eq ok h p c m e = ground arith

-- What an add makes of the parent, with whether it stores the child.
abbrev pub adopted : Memory → Heap → AstNode → AstNode × Bool
adopted mem h m = adopt (mem.grow_children (length h)) (length h) m

-- The heap after an add: the new node, the parent, and the other nodes.
pub get_elem?-attach :
    (g : Glib) (mem : Memory) (h : Heap) (node m : AstNode) (p i : ℕ)
    → get_elem? h p ≡ some m
    → get_elem? (attach g mem h node p) i ≡ (
        if i == length h
        then some (if (adopted mem h m).1 then set_parent p node else node)
        else if i == p
        then some (adopted mem h m).0
        else get_elem? h i)
unfolding attach
get_elem?-attach g mem h node m p i e =
    let e' = get_elem?-append h (node ∷ []) p (get_elem?-lt h p m e) ∙ e in
    rw (add_child-eq (mem.grow_children (length h)) (h ++ node ∷ []) p (length h) m e')
      (elim (Bool-cases (adopted mem h m).1) [
        | inl stored ↦ rw stored (linked h node m (adopted mem h m).0 p i e)
        | inr lost ↦ rw lost (replaced h node m (adopted mem h m).0 p i e)
      ])
