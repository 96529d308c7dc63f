-- ===== src/Process/Outlined.antt =====
-- The whole of `process_pug_file` on a text whose lines begin as the parser expects.
use c_pug.Parser.Indented.Heads.{outline, token_spot, heads}
use c_pug.Common.{ℕ, ◌≡◌, refl, true, none, some, List, arith, Bytes, get_elem?-below, map}
use c_pug.Ast.{Heap}
use c_pug.Common.Run.{ok}
use c_pug.Glib.{Glib, Documented}
use c_pug.Parser.Free.{ContextBlock}
use c_pug.Parser.Indented.{Indented}
use c_pug.Parser.Indented.Document.{parse_pug-Indented}
use c_pug.Parser.Indented.Tokens.{Regular}
use c_pug.Parser.Preorder.{nodes}
use c_pug.Parser.Preorder.Walk.{root-nodes}
use c_pug.Parser.Release.Context.{parsed_released}
use c_pug.Process.{Machine, finished, process_pug_file}
use c_pug.Process.Parsed.{HasEof, tokenize_file-Closed}
use c_pug.Process.Rendered.{style_of, given, created, process-eq}
use c_pug.Renderer.Grown.{render_ast-html}
use c_pug.Renderer.Refines.{Stands}
use c_pug.Renderer.Spec.{Tree, html}
use c_pug.TokenList.Extends.{IsLimited}
use c_pug.Tokenizer.File.{tokenize_file}
use c_pug.Tokens.{TokenList}

-- The memory for the context, the root, the nodes, their first classes and the growth of their
-- children.
pub record HasMemory (m : Machine) : Type 0 where
  pub context : m.context ≡ true
  pub root : m.root ≡ true
  pub nodes : (i : ℕ) → m.parser.node i ≡ true
  pub classes : (i : ℕ) → m.parser.classes i ≡ true
  pub children : (i : ℕ) → m.parser.grow_children i ≡ true

module _ (g : Glib) (m : Machine) (doc : Documented g) (limited : IsLimited m.tokens)
    (memory : HasMemory m) where
  -- Given GLib's functions as documented, a `realloc` of the tokens that refuses blocks of 2 ^ 30
  -- pointers, and the memory for the context, the root, the nodes, their first classes and the
  -- growth of their children, for a text whose tokens, fewer than 2 ^ 32 and of depths below 2 ^
  -- 32, end with the end of the file, and of which each begins a node, or ends the file, or is a
  -- class, an id or attributes behind a tag, a class, an id or attributes of its depth,
  -- `process_pug_file` returns the HTML that `Spec` gives, in the style that the caller asks for,
  -- for a tree. Walked through with each node before those below it, the tree holds the nodes of a
  -- heap, each once and in their order. Those behind the root are at the depths, lines and columns
  -- of the tokens up to the end of the file, less those that an open tag of their depth takes in
  -- (classes, ids, attributes, text and interpolations). Each hangs under the nearest of the nodes
  -- before it that is less deep, or under the root if there is none.
  pub process_pug_file-outline :
      (content : Bytes) (list : TokenList) (use_tabs tab_size minify : ℕ)
      → tokenize_file g m.tokens content ≡ some list
      → HasEof list
      → Regular g m.parser list
      → (h : Heap) × (t : Tree) × (blocks : List ContextBlock) × (process_pug_file g m content
            use_tabs tab_size minify
          ≡ ok (finished (some (html (style_of use_tabs tab_size minify) t)) blocks))
        × Stands h 0 t
        × (nodes t ≡ h)
        × (outline h ≡ map token_spot (heads g m.parser none list.tokens))
        × Indented h
  process_pug_file-outline content list use_tabs tab_size minify made eof regular =
      let (ctx, e, start, _) = created m.junk in
      let context = given ctx list use_tabs tab_size in
      let closed = tokenize_file-Closed g m.tokens doc limited m.parser content list made eof in
      let (ctx', h, parsed, indented, covered, is) =
        parse_pug-Indented g m.parser closed memory.classes regular memory.nodes memory.children
          context (record { over = refl; inside = omega (arith, start) }) start in
      let (root, at) = get_elem?-below h 0 is.some_root in
      let (t, standing, html_of) =
        render_ast-html g (style_of use_tabs tab_size minify) h 0 root doc is.links at in
      let (blocks, released, once) = parsed_released is in
      (
        h,
        t,
        blocks,
        process-eq g m content list use_tabs tab_size minify ctx ctx' h
            (some (html (style_of use_tabs tab_size minify) t)) blocks made (rw memory.context e)
            (rw memory.root parsed) (rw (is.same_use_tabs, is.same_tab_size, is.root_is) html_of)
            released,
        standing,
        root-nodes h indented is.links is.ordered is.listed t standing,
        covered,
        indented,
      )
