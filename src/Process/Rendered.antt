-- ===== src/Process/Rendered.antt =====
-- The whole of `process_pug_file`: what it returns for a text.
use c_pug.Common.{
  Bool, sym, ap, ◌∙◌, List, [], map, times, ◌≤◌, Option, ℕ, ◌≡◌, refl, true, false, ◌&&◌,
  Bool-cases, inl, inr, some, none, Bytes, get_elem?-below,
}
use c_pug.Ast.{Heap, ast_node_create}
use c_pug.Common.Run.{Run, ok}
use c_pug.Glib.{Glib, Documented}
use c_pug.Parser.Context.{parser_context_create}
use c_pug.Parser.Links.{Links}
use c_pug.Parser.Order.{Ordered}
use c_pug.Parser.Tree.{parse_pug}
use Prim.Native.String.{String}
use c_pug.Parser.Free.{ContextBlock, of_tokens, parser_context_free}
use c_pug.Parser.Release.Context.{same_block, tokens_released, rootless_released, parsed_released}
use c_pug.TokenList.Free.{token_list_free}
use c_pug.Process.{Output, failed, finished, Machine, process_pug_file}
use c_pug.Process.Parsed.{HasEof, parse_pug-tokenize_file}
use c_pug.Renderer.Grown.{render_ast-html}
use c_pug.Renderer.Node.{Style, render_ast}
use c_pug.Renderer.Refines.{Stands}
use c_pug.Renderer.Spec.{Tree, html}
use c_pug.TokenList.Extends.{IsLimited}
use c_pug.Tokenizer.File.{tokenize_file}
use c_pug.Tokens.{TokenList, ParserContext}

abbrev pub style_of : ℕ → ℕ → ℕ → Style
style_of use_tabs tab_size minify = record {
  use_tabs = use_tabs;
  tab_size = tab_size;
  minify = minify;
}

abbrev pub given : ParserContext → TokenList → ℕ → ℕ → ParserContext
given ctx list use_tabs tab_size = record ctx {
  tokens = some list;
  use_tabs = use_tabs;
  tab_size = tab_size;
}

-- The message if there is no memory for the context, or for the root.
abbrev pub message_without : Bool → String
message_without false = "Error: Fallo en creación de ParserContext\n"
message_without true = "Error: Fallo en parsing\n"

-- No block occurs twice.
abbrev pub IsOnce : List ContextBlock → Type 0
IsOnce blocks = (b : ContextBlock) → times same_block b blocks ≤ 1

-- What `process_pug_file` returns for these tokens: the HTML of the tree that stands at the root of
-- the heap that `parse_pug` makes of them, whose links are sound and whose children are ordered,
-- and no message, if there was memory for the context and the root, else NULL and one message. No
-- block is freed twice.
pub data Rendered (g : Glib) (m : Machine) (list : TokenList) (use_tabs tab_size minify : ℕ)
    (r : Run Output) : Type 0 where
  rendered :
      (ctx ctx' : ParserContext) (h : Heap) (t : Tree) (blocks : List ContextBlock)
      → parser_context_create m.context m.junk ≡ some ctx
      → parse_pug g m.parser m.root (given ctx list use_tabs tab_size) ≡ ok (some (ctx', h))
      → Links h
      → Ordered h
      → Stands h 0 t
      → m.context && m.root ≡ true
      → r ≡ ok (finished (some (html (style_of use_tabs tab_size minify) t)) blocks)
      → IsOnce blocks
      → Rendered g m list use_tabs tab_size minify r
  null :
      (blocks : List ContextBlock)
      → m.context && m.root ≡ false
      → r ≡ ok (failed (message_without m.context) blocks)
      → IsOnce blocks
      → Rendered g m list use_tabs tab_size minify r

module _ (g : Glib) (m : Machine) where
  no_context :
      (content : Bytes) (list : TokenList) (use_tabs tab_size minify : ℕ)
      → tokenize_file g m.tokens content ≡ some list
      → m.context ≡ false
      → process_pug_file g m content use_tabs tab_size minify
        ≡ ok (
            failed "Error: Fallo en creación de ParserContext\n"
              (map of_tokens (token_list_free (some list))))
  unfolding process_pug_file parser_context_create
  no_context content list use_tabs tab_size minify made e = rw (made, e, process_pug_file)

  no_root :
      (content : Bytes) (list : TokenList) (use_tabs tab_size minify : ℕ) (ctx : ParserContext)
      (blocks : List ContextBlock)
      → tokenize_file g m.tokens content ≡ some list
      → parser_context_create m.context m.junk ≡ some ctx
      → m.root ≡ false
      → parser_context_free [] (some (given ctx list use_tabs tab_size)) ≡ ok blocks
      → process_pug_file g m content use_tabs tab_size minify
        ≡ ok (failed "Error: Fallo en parsing\n" blocks)
  unfolding process_pug_file parse_pug ast_node_create
  no_root content list use_tabs tab_size minify ctx blocks made e f k =
      rw (made, e, process_pug_file, f, k)

  pub process-eq :
      (content : Bytes) (list : TokenList) (use_tabs tab_size minify : ℕ) (ctx ctx' : ParserContext)
      (h : Heap) (result : Option Bytes) (blocks : List ContextBlock)
      → tokenize_file g m.tokens content ≡ some list
      → parser_context_create m.context m.junk ≡ some ctx
      → parse_pug g m.parser m.root (given ctx list use_tabs tab_size) ≡ ok (some (ctx', h))
      → render_ast g (style_of ctx'.use_tabs ctx'.tab_size minify) h ctx'.root_node ≡ ok result
      → parser_context_free h (some ctx') ≡ ok blocks
      → process_pug_file g m content use_tabs tab_size minify ≡ ok (finished result blocks)
  unfolding process_pug_file
  process-eq content list use_tabs tab_size minify ctx ctx' h result blocks made e f k l =
      rw (made, e, process_pug_file, f, k, l)

pub created :
    (junk : ℕ)
    → (ctx : ParserContext) × (parser_context_create true junk ≡ some ctx)
      × (ctx.current_token ≡ 0)
      × (ctx.root_node ≡ none)
unfolding parser_context_create
created junk = (_, refl, refl, refl)

module _ (g : Glib) (m : Machine) (doc : Documented g) (limited : IsLimited m.tokens)
    (granted : (i : ℕ) → m.parser.classes i ≡ true) where
  whole :
      (content : Bytes) (list : TokenList) (use_tabs tab_size minify : ℕ)
      → tokenize_file g m.tokens content ≡ some list
      → HasEof list
      → m.context ≡ true
      → m.root ≡ true
      → Rendered g m list use_tabs tab_size minify
          (process_pug_file g m content use_tabs tab_size minify)
  whole content list use_tabs tab_size minify made eof c r =
      let (ctx, e, start, _) = created m.junk in
      let (ctx', h, parsed, is) =
        parse_pug-tokenize_file g m.tokens doc limited m.parser content list
          (given ctx list use_tabs tab_size) granted made eof refl start in
      let (root, at) = get_elem?-below h 0 is.some_root in
      let (t, s, html_of) =
        render_ast-html g (style_of use_tabs tab_size minify) h 0 root doc is.links at in
      let (blocks, released, once) = parsed_released is in
      rendered ctx ctx' h t blocks (rw c e) (rw r parsed) is.links is.ordered s (rw (c, r) refl)
        (process-eq g m content list use_tabs tab_size minify ctx ctx' h
          (some (html (style_of use_tabs tab_size minify) t)) blocks made (rw c e) (rw r parsed)
          (rw (is.same_use_tabs, is.same_tab_size, is.root_is) html_of) released)
        once

  -- Given GLib's functions as documented, a `realloc` that refuses blocks of 2 ^ 30 pointers, and
  -- the memory for the first classes of each node, `process_pug_file` returns for any text whose
  -- last token is the end of the file, whatever the other allocations do. With memory for the
  -- context and the root it returns no message and the HTML that `Spec` gives, in the style that
  -- the caller asks for, for the tree that stands at the root of the heap that `parse_pug` makes of
  -- the tokens of the text, a heap with sound links and the children of each node in the order in
  -- which they were parsed; without that memory it returns NULL and one message. It frees no block
  -- twice.
  pub process_pug_file-Rendered :
      (content : Bytes) (list : TokenList) (use_tabs tab_size minify : ℕ)
      → tokenize_file g m.tokens content ≡ some list
      → HasEof list
      → Rendered g m list use_tabs tab_size minify
          (process_pug_file g m content use_tabs tab_size minify)
  process_pug_file-Rendered content list use_tabs tab_size minify made eof =
      elim (Bool-cases m.context) [
        | inr c ↦
            null (map of_tokens (token_list_free (some list))) (rw c refl)
              (no_context g m content list use_tabs tab_size minify made c
                ∙ ap
                    (λ (b : Bool).
                      ok (failed (message_without b) (map of_tokens (token_list_free (some list)))))
                    (sym c))
              (λ b. tokens_released b (some list))
        | inl c ↦ elim (Bool-cases m.root) [
          | inr r ↦
              let (ctx, e, _, rootless) = created m.junk in
              let (blocks, released, once) =
                rootless_released [] (given ctx list use_tabs tab_size) rootless in
              null blocks (rw (c, r) refl)
                (no_root g m content list use_tabs tab_size minify ctx blocks made (rw c e) r
                    released
                  ∙ ap (λ (b : Bool). ok (failed (message_without b) blocks)) (sym c))
                once
          | inl r ↦ whole content list use_tabs tab_size minify made eof c r
        ]
      ]
