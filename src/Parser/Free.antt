-- ===== src/Parser/Free.antt =====
-- `parser_context_free`, as the list of the blocks that it frees, in order.
use c_pug.Ast.{Heap}
use c_pug.Ast.Free.{NodeBlock, ast_node_free}
use c_pug.Common.{Option, none, some, List, [], ◌∷◌, ◌++◌, map}
use c_pug.Common.Run.{Run, ok, ◌>>=◌}
use c_pug.TokenList.Free.{TokenBlock, token_list_free}
use c_pug.Tokens.{ParserContext}

-- A block of the tokens, of the tree, or the context itself.
pub data ContextBlock : Type 0 where
  of_tokens : TokenBlock → ContextBlock
  of_tree : NodeBlock → ContextBlock
  context : ContextBlock

unfoldable pub parser_context_free : Heap → Option ParserContext → Run (List ContextBlock)
parser_context_free h none = ok []
parser_context_free h (some ctx) = ast_node_free h ctx.root_node >>= λ tree.
    ok (map of_tokens (token_list_free ctx.tokens) ++ (map of_tree tree ++ context ∷ []))
