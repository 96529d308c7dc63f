-- ===== src/Process.antt =====
-- include/c-pug.h: `process_pug_file`, which runs the tokenizer, the parser and the renderer.
pub mod Parsed
pub mod Rendered
pub mod Outlined
use c_pug.TokenList.{Reallocs}
use Prim.Native.String.{String}
use c_pug.Common.{ℕ, Bool, Option, none, some, List, [], ◌∷◌, Bytes, map}
use c_pug.Common.Run.{Run, ok, timeout, ◌>>=◌}
use c_pug.Console.{Call, printf}
use c_pug.Glib.{Glib}
use c_pug.Parser.Context.{Memory, parser_context_create}
use c_pug.Parser.Free.{ContextBlock, of_tokens, parser_context_free}
use c_pug.TokenList.Free.{token_list_free}
use c_pug.Parser.Tree.{parse_pug}
use c_pug.Renderer.Node.{render_ast}
use c_pug.Tokenizer.File.{tokenize_file}

-- What the allocations of a run do: the growth of the list of tokens, the context, whose field
-- `strict_mode` then holds `junk`, the root, and the rest of the parser.
pub record Machine : Type 0 where
  pub tokens : Reallocs
  pub context : Bool
  pub junk : ℕ
  pub root : Bool
  pub parser : Memory

-- What a run returns, prints and frees. A result `none` is NULL.
pub record Output : Type 0 where
  pub result : Option Bytes
  pub messages : List Call
  pub freed : List ContextBlock

abbrev pub failed : String → List ContextBlock → Output
failed message blocks = record { result = none; messages = printf message [] ∷ []; freed = blocks }

abbrev pub finished : Option Bytes → List ContextBlock → Output
finished none blocks = failed "Error: Fallo en renderizado\n" blocks
finished (some html) blocks = record { result = some html; messages = []; freed = blocks }

-- `timeout` is a loop that does not end. The context has no root yet when `parse_pug` returns NULL.
unfoldable pub process_pug_file : Glib → Machine → Bytes → ℕ → ℕ → ℕ → Run Output
process_pug_file g m content use_tabs tab_size minify = elim (tokenize_file g m.tokens content) [
  | none ↦ timeout
  | some tokens ↦ elim (parser_context_create m.context m.junk) [
    | none ↦ ok (
        failed "Error: Fallo en creación de ParserContext\n"
          (map of_tokens (token_list_free (some tokens))))
    | some created ↦
        let ctx = record created {
          tokens = some tokens;
          use_tabs = use_tabs;
          tab_size = tab_size;
        } in
        parse_pug g m.parser m.root ctx >>= λ parsed. elim parsed [
          | none ↦ parser_context_free [] (some ctx) >>= λ blocks.
              ok (failed "Error: Fallo en parsing\n" blocks)
          | some (ctx', h) ↦
              render_ast g
                (record { use_tabs = ctx'.use_tabs; tab_size = ctx'.tab_size; minify = minify }) h
                ctx'.root_node
              >>= λ result.
                  parser_context_free h (some ctx') >>= λ blocks. ok (finished result blocks)
        ]
  ]
]
