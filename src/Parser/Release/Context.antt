-- ===== src/Parser/Release/Context.antt =====
-- What `parse_pug` leaves is released without a second `free` of any block.
use c_pug.Ast.{Heap}
use c_pug.Ast.Free.{NodeBlock, ast_node_free}
use c_pug.Ast.Parts.{same_node}
use c_pug.Common.{
  ℕ, ◌+◌, ◌≤◌, ◌≡◌, none, Option, true, false, Bool, some, List, [], ◌∷◌, ◌++◌, map, arith, times,
  times-append, get_elem?-below,
}
use c_pug.Common.Run.{ok}
use c_pug.Glib.{Glib}
use c_pug.Parser.Context.{Memory}
use c_pug.Parser.Document.{IsParsed, parse_pug_lem}
use c_pug.Parser.Free.{ContextBlock, of_tokens, of_tree, context, parser_context_free}
use c_pug.Parser.Moves.{Closed, StandsIn}
use c_pug.Parser.Order.{Ordered-ChildrenDistinct}
use c_pug.Parser.Release.Once.{ast_node_free-once}
use c_pug.Parser.Tree.{parse_pug}
use c_pug.TokenList.Free.{TokenBlock, same_token, token_list_free}
use c_pug.TokenList.Free.Once.{token_list_free-once}
use c_pug.Tokens.{TokenList, ParserContext}

abbrev pub same_block : ContextBlock → ContextBlock → Bool
same_block (of_tokens b) (of_tokens c) = same_token b c
same_block (of_tree b) (of_tree c) = same_node b c
same_block context context = true
same_block _ _ = false

-- How often a block occurs among the tokens and among the nodes.
abbrev among_tokens : ContextBlock → List TokenBlock → ℕ
among_tokens (of_tokens b) bs = times same_token b bs
among_tokens (of_tree b) bs = 0
among_tokens context bs = 0

abbrev among_nodes : ContextBlock → List NodeBlock → ℕ
among_nodes (of_tokens b) bs = 0
among_nodes (of_tree b) bs = times same_node b bs
among_nodes context bs = 0

times-of_tokens :
    (b : ContextBlock) (bs : List TokenBlock)
    → times same_block b (map of_tokens bs) ≡ among_tokens b bs
times-of_tokens b [] = ground arith
times-of_tokens b (c ∷ bs) = ground (arith, times-of_tokens b bs)

times-of_tree :
    (b : ContextBlock) (bs : List NodeBlock)
    → times same_block b (map of_tree bs) ≡ among_nodes b bs
times-of_tree b [] = ground arith
times-of_tree b (c ∷ bs) = ground (arith, times-of_tree b bs)

released_once :
    (b : ContextBlock) (ts : List TokenBlock) (ns : List NodeBlock)
    → ((c : TokenBlock) → times same_token c ts ≤ 1)
    → ((c : NodeBlock) → times same_node c ns ≤ 1)
    → times same_block b (map of_tokens ts ++ (map of_tree ns ++ context ∷ [])) ≤ 1
released_once b ts ns f h =
    let e = times-append same_block b (map of_tokens ts) (map of_tree ns ++ context ∷ []) in
    let e' = times-append same_block b (map of_tree ns) (context ∷ []) in
    rw (e, e', times-of_tokens b ts, times-of_tree b ns) (sum b)
  where
    sum :
        (b : ContextBlock)
        → among_tokens b ts + (among_nodes b ns + times same_block b (context ∷ [])) ≤ 1
    sum (of_tokens c) = omega (arith, f c)
    sum (of_tree c) = omega (arith, h c)
    sum context = omega arith

pub tokens_released :
    (b : ContextBlock) (o : Option TokenList)
    → times same_block b (map of_tokens (token_list_free o)) ≤ 1
tokens_released (of_tokens b) o =
    rw (times-of_tokens (of_tokens b) (token_list_free o)) (token_list_free-once o b)
tokens_released (of_tree b) o = rw (times-of_tokens (of_tree b) (token_list_free o)) (omega arith)
tokens_released context o = rw (times-of_tokens context (token_list_free o)) (omega arith)

-- A context without a root.
pub rootless_released :
    (h : Heap) (ctx : ParserContext)
    → ctx.root_node ≡ none
    → (blocks : List ContextBlock) × (parser_context_free h (some ctx) ≡ ok blocks)
      × ((b : ContextBlock) → times same_block b blocks ≤ 1)
unfolding parser_context_free ast_node_free
rootless_released h ctx e =
    let ts = token_list_free ctx.tokens in
    (
      map of_tokens ts ++ (map of_tree [] ++ context ∷ []),
      rw (e, parser_context_free, ast_node_free),
      λ b. released_once b ts [] (token_list_free-once ctx.tokens) (λ c. omega arith),
    )

-- What `parse_pug` leaves.
pub parsed_released :
    {g : Glib} {mem : Memory} {ctx ctx' : ParserContext} {h : Heap}
    → IsParsed g mem ctx ctx' h
    → (blocks : List ContextBlock) × (parser_context_free h (some ctx') ≡ ok blocks)
      × ((b : ContextBlock) → times same_block b blocks ≤ 1)
unfolding parser_context_free
parsed_released {ctx' = ctx'} {h = h} is =
    let (root, at) = get_elem?-below h 0 is.some_root in
    let (ns, freed, once, _) =
      ast_node_free-once h is.links 0 root (Ordered-ChildrenDistinct h is.ordered) at in
    let ts = token_list_free ctx'.tokens in
    (
      map of_tokens ts ++ (map of_tree ns ++ context ∷ []),
      rw (is.root_is, freed, parser_context_free),
      λ b. released_once b ts ns (token_list_free-once ctx'.tokens) once,
    )

module _ (g : Glib) (mem : Memory) {list : TokenList} {last : ℕ} (closed : Closed g mem list last)
    (granted : (i : ℕ) → mem.classes i ≡ true) where
  -- Given a list of fewer than 2 ^ 32 tokens that holds the end of the file in its last place and
  -- whose tokens for attributes have values, a context that stands in it, and the memory for the
  -- root and for the first classes of each node, `parse_pug` returns, and `parser_context_free`
  -- then returns for the context and the heap that it leaves, and frees no block twice, whatever
  -- the other allocations do.
  pub parse_pug-released :
      (ctx : ParserContext)
      → StandsIn list last ctx
      → (ctx' : ParserContext) × (h : Heap) × (blocks : List ContextBlock) × (parse_pug g mem true
            ctx
          ≡ ok (some (ctx', h)))
        × (parser_context_free h (some ctx') ≡ ok blocks)
        × ((b : ContextBlock) → times same_block b blocks ≤ 1)
  parse_pug-released ctx s =
      let (ctx', h, run, is) = parse_pug_lem g mem closed granted ctx s in
      let (blocks, e, once) = parsed_released is in (ctx', h, blocks, run, e, once)
