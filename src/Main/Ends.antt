-- ===== src/Main/Ends.antt =====
-- The program ends: its exit status, and what it frees.
use c_pug.Common.{
  Option-cases, ℕ, ◌≡◌, ◌≢◌, refl, true, Option, none, some, List, [], ◌∷◌, ◌++◌, Bytes, codes,
  arith, length, append_assoc, ◌⊎◌, inl, inr,
}
use c_pug.Common.Run.{Run, ok}
use c_pug.Console.{printf, text}
use c_pug.Debug.Print.{token_list_print}
use c_pug.Glib
use c_pug.Main.Events.{Event, call, calls, freed, free_tokens, free_text, free_error, render_free}
use c_pug.Main.Lre
use c_pug.Main.Lre.{Lre, compiled}
use c_pug.Main.Program.{
  unminify, style_number, Contents, unreadable, readable, World, examples_title, statistics,
  print_statistics, show_tokens, show_html, show_examples, show_file, main,
}
use c_pug.Main.Safe.{
  freed-after, Returns, bytecode, simple, insensitive, captures, tags, freed-append, freed-calls,
}
use c_pug.Main.Variables.{IsNonEmpty, template_pattern, template}
use c_pug.Process.{Output, process_pug_file}
use c_pug.Process.Parsed.{HasEof}
use c_pug.Process.Rendered.{rendered, null, process_pug_file-Rendered}
use c_pug.TokenList.Extends.{IsLimited}
use c_pug.Tokenizer.File.{tokenize_file}
use c_pug.Tokenizer.Sound.File.{tokenize_file_lem}
use c_pug.Tokens.{TokenList}

-- The bytecode of the five patterns, in the order of the examples.
abbrev pub bytecodes : Lre → List Event
bytecodes lre =
    bytecode (lre.lre_compile (codes "hello") 0)
    ++ (bytecode (lre.lre_compile (codes "(\\w+)@(\\w+\\.\\w+)") 0)
        ++ (bytecode (lre.lre_compile (codes "hello") lre.lre_flag_ignorecase)
            ++ (bytecode (lre.lre_compile template_pattern 0)
                ++ bytecode (
                    lre.lre_compile (codes "^([a-z]+)(\\.([a-zA-Z0-9_-]+))?(#([a-zA-Z0-9_-]+))?")
                      0))))

-- What is to be freed of a result that is NULL or a text.
abbrev pub text_of : Option Bytes → List Event
text_of none = []
text_of (some html) = free_text html ∷ []

Contents-cases :
    (c : Contents)
    → ((message : Bytes) × (c ≡ unreadable message)) ⊎ ((content : Bytes) × (c ≡ readable content))
Contents-cases (unreadable message) = inl (message, refl)
Contents-cases (readable content) = inr (content, refl)

-- How `main` ends. A file that is read leaves its tokens, its HTML if there is any, its contents
-- and the bytecode of the examples to be freed.
pub data Ended (w : World) (program : Bytes) (args : List Bytes) (r : Run (List Event × ℕ))
    : Type 0 where
  usage :
      length args ≢ 1
      → r ≡ ok (call (printf "Uso: %s <archivo.pug>\n" (text program ∷ [])) ∷ [], 1)
      → Ended w program args r
  not_read :
      (path message : Bytes) (es : List Event)
      → args ≡ path ∷ []
      → w.g_file_get_contents path ≡ unreadable message
      → r ≡ ok (es, 1)
      → freed es ≡ free_error message ∷ []
      → Ended w program args r
  shown :
      (path content : Bytes) (list : TokenList) (html : Output) (es : List Event)
      → args ≡ path ∷ []
      → w.g_file_get_contents path ≡ readable content
      → tokenize_file w.glib w.tokens content ≡ some list
      → process_pug_file w.glib w.machine content 0 2 (style_number unminify) ≡ ok html
      → r ≡ ok (es, 0)
      → freed es ≡ free_tokens list ∷ (text_of html.result ++ (free_text content ∷ bytecodes w.lre))
      → Ended w program args r

module _ (w : World) where
  abbrev tokens_shown : TokenList → List Event
  tokens_shown list =
      calls (token_list_print (some list) ++ print_statistics list (statistics list))
      ++ free_tokens list ∷ []

  show_tokens-eq :
      (content : Bytes) (list : TokenList)
      → tokenize_file w.glib w.tokens content ≡ some list
      → show_tokens w content ≡ ok (tokens_shown list)
  unfolding show_tokens
  show_tokens-eq content list e = rw (e, show_tokens)

  show_html-eq :
      (content : Bytes) (html : Output)
      → process_pug_file w.glib w.machine content 0 2 (style_number unminify) ≡ ok html
      → (es : List Event) × (show_html w content ≡ ok es) × (freed es ≡ text_of html.result)
  unfolding show_html render_free
  show_html-eq content html e = elim (Option-cases html.result) [
    | inl none_yet ↦
        let es = call (printf "Error procesando el archivo Pug\n" []) ∷ [] in
        (
          calls html.messages ++ es,
          rw (e, show_html, none_yet),
          rw none_yet (freed-after html.messages es),
        )
    | inr (s, is) ↦
        let es = call (printf "=== HTML Output ===\n%s\n" (text s ∷ [])) ∷ free_text s ∷ [] in
        (calls html.messages ++ es, rw (e, show_html, is), rw is (freed-after html.messages es))
  ]

  module _ (doc : Lre.Documented w.lre)
      (full : (bc : Bytes)
        → w.lre.lre_compile template_pattern 0 ≡ compiled bc
        → IsNonEmpty w.lre bc) where
    show_examples-Ends :
        (es : List Event) × (show_examples w ≡ ok es) × (freed es ≡ bytecodes w.lre)
    unfolding show_examples
    show_examples-Ends =
        let (a, p, f1) = simple w.lre doc in
        let (b, q, f2) = captures w.lre doc in
        let (c, r, f3) = insensitive w.lre doc in
        let (d, s, f4) = template w.lre doc full in
        let (e, t, f5) = tags w.lre doc in
        (
          calls examples_title ++ (a ++ (b ++ (c ++ (d ++ e)))),
          rw (p, q, r, s, t, show_examples),
          simp (freed-append, f1, f2, f3, f4, f5),
        )

  show_file-Ends :
      (path content : Bytes) (list : TokenList) (html : Output)
      → tokenize_file w.glib w.tokens content ≡ some list
      → process_pug_file w.glib w.machine content 0 2 (style_number unminify) ≡ ok html
      → (es : List Event) × (show_file w path content ≡ ok es)
        × (freed es ≡ free_tokens list ∷ (text_of html.result ++ free_text content ∷ []))
  unfolding show_file
  show_file-Ends path content list html made rendering =
      let (es, e, f) = show_html-eq content html rendering in
      (
        call (printf "El Archivo leido es: %s\n\n" (text path ∷ []))
            ∷ (tokens_shown list ++ (es ++ free_text content ∷ [])),
        rw (show_tokens-eq content list made, e, show_file),
        simp (freed-append, freed-calls, f),
      )

module _ (w : World) (doc : Glib.Documented w.glib) (docs : Lre.Documented w.lre)
    (full : (bc : Bytes) → w.lre.lre_compile template_pattern 0 ≡ compiled bc → IsNonEmpty w.lre bc)
    (limited : IsLimited w.tokens) (limited' : IsLimited w.machine.tokens)
    (granted : (i : ℕ) → w.machine.parser.classes i ≡ true) where
  html-Returns :
      (content : Bytes)
      → ((list : TokenList)
          → tokenize_file w.glib w.machine.tokens content ≡ some list
          → HasEof list)
      → Returns (process_pug_file w.glib w.machine content 0 2 (style_number unminify))
  html-Returns content eof =
      let (list, body, made, _, _, _) =
        tokenize_file_lem w.glib w.machine.tokens doc limited' content in
      elim (process_pug_file-Rendered w.glib w.machine doc limited' granted content list 0 2 0 made
        (eof list made)) [
          | rendered ctx made_ctx h t blocks created_ctx parsed links order standing room e once ↦
              (_, e)
          | null blocks room e once ↦ (_, e)
        ]

  main-read :
      (program path content : Bytes)
      → w.g_file_get_contents path ≡ readable content
      → ((list : TokenList)
          → tokenize_file w.glib w.machine.tokens content ≡ some list
          → HasEof list)
      → Ended w program (path ∷ []) (main w (program ∷ path ∷ []))
  unfolding main
  main-read program path content e eof =
      let (list, body, made, _, _, _) = tokenize_file_lem w.glib w.tokens doc limited content in
      let (html, shown_html) = html-Returns content eof in
      let (es, p, f) = show_file-Ends w path content list html made shown_html in
      let (fs, q, f') = show_examples-Ends w docs full in
      shown path content list html (es ++ fs) refl e made shown_html (rw (e, p, q, main))
        (simp (freed-append, f, f', append_assoc))

  -- Given GLib and libregexp as documented, no empty match of a variable, a `realloc` that refuses
  -- blocks of 2 ^ 30 pointers, and the memory for the first classes of each node, `main` returns
  -- for every command line that starts with the name of the program and on which the tokens of a
  -- file that it reads end in the end of the file: with exit status 1 and the usage line if there
  -- is not one argument, with exit status 1 and the error freed if the file cannot be read, and
  -- otherwise with exit status 0, after it has freed, each once and in this order, the tokens, the
  -- HTML if there is any, the contents of the file, and the bytecode of each of the five patterns
  -- that compiles.
  pub main-Ended :
      (program : Bytes) (args : List Bytes)
      → ((path content : Bytes) (list : TokenList)
          → args ≡ path ∷ []
          → w.g_file_get_contents path ≡ readable content
          → tokenize_file w.glib w.machine.tokens content ≡ some list
          → HasEof list)
      → Ended w program args (main w (program ∷ args))
  unfolding main
  main-Ended program [] eof = usage (omega arith) refl
  main-Ended program (path ∷ []) eof = elim (Contents-cases (w.g_file_get_contents path)) [
    | inl (message, e) ↦
        not_read path message
          (call (printf "Error al leer el archivo: %s\n" (text message ∷ []))
            ∷ free_error message
            ∷ [])
          refl e (rw (e, main)) refl
    | inr (content, e) ↦
        main-read program path content e (λ list made. eof path content list refl e made)
  ]
  main-Ended program (a ∷ b ∷ rest) eof = usage (omega arith) refl
