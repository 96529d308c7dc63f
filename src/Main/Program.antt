-- ===== src/Main/Program.antt =====
-- `main`: the program reads a file, prints its tokens with their statistics and its HTML, and runs
-- the examples.
use c_pug.TokenList.{Reallocs}
use c_pug.Common.{ℕ, ◌+◌, none, some, List, [], ◌∷◌, ◌++◌, Bytes, take}
use c_pug.Common.Run.{Run, ok, fault, timeout, ◌>>=◌}
use c_pug.Console.{Call, printf, text, int}
use c_pug.Debug.Print.{token_list_print}
use c_pug.Glib.{Glib, pos}
use c_pug.Main.Events.{Event, call, calls, free_tokens, free_text, render_free, free_error}
use c_pug.Main.Examples.{
  ejemplo_match_simple, ejemplo_grupos_captura, ejemplo_case_insensitive, ejemplo_template_pug,
  ejemplo_pug_tags,
}
use c_pug.Main.Lre.{Lre}
use c_pug.Process.{Machine, process_pug_file}
use c_pug.Tokenizer.File.{tokenize_file}
use c_pug.Tokens.{TokenType, token_tag, token_class, token_id, token_text, Token, TokenList}

pub data HtmlStyle : Type 0 where
  unminify minify : HtmlStyle

abbrev pub style_number : HtmlStyle → ℕ
style_number unminify = 0
style_number minify = 1

-- The counters of the statistics.
pub record Stats : Type 0 where
  pub tag_count : ℕ
  pub class_count : ℕ
  pub id_count : ℕ
  pub text_count : ℕ

-- The `switch` of the loop.
unfoldable pub count_type : TokenType → Stats → Stats
count_type token_tag s = record s { tag_count = s.tag_count + 1 }
count_type token_class s = record s { class_count = s.class_count + 1 }
count_type token_id s = record s { id_count = s.id_count + 1 }
count_type token_text s = record s { text_count = s.text_count + 1 }
count_type _ s = s

unfoldable pub count_tokens : List Token → Stats → Stats
count_tokens [] s = s
count_tokens (token ∷ tokens) s = count_tokens tokens (count_type token.type s)

unfoldable pub statistics : TokenList → Stats
statistics list =
    count_tokens (take list.count list.tokens)
      (record { tag_count = 0; class_count = 0; id_count = 0; text_count = 0 })

unfoldable pub print_statistics : TokenList → Stats → List Call
print_statistics list s =
    printf "=== ESTADISTICAS ===\n" []
    ∷ printf "Total de tokens: %d\n" (int (pos list.count) ∷ [])
    ∷ printf "Tags: %d\n" (int (pos s.tag_count) ∷ [])
    ∷ printf "Clases: %d\n" (int (pos s.class_count) ∷ [])
    ∷ printf "IDs: %d\n" (int (pos s.id_count) ∷ [])
    ∷ printf "Textos: %d\n" (int (pos s.text_count) ∷ [])
    ∷ printf "====================\n" []
    ∷ []

-- What `g_file_get_contents` leaves: the message of its error, or the contents.
pub data Contents : Type 0 where
  unreadable : Bytes → Contents
  readable : Bytes → Contents

-- What the program meets: the libraries, the files, and the allocations of its two runs over them.
pub record World : Type 0 where
  pub glib : Glib
  pub lre : Lre
  pub g_file_get_contents : Bytes → Contents
  pub tokens : Reallocs
  pub machine : Machine

abbrev pub examples_title : List Call
examples_title =
    printf "Ejemplos de uso de libregexp para template engine Pug\n" []
    ∷ printf "====================================================\n" []
    ∷ []

module _ (w : World) where
  -- The tokens of the file with their statistics, and their release.
  unfoldable pub show_tokens : Bytes → Run (List Event)
  show_tokens content = elim (tokenize_file w.glib w.tokens content) [
    | none ↦ timeout
    | some list ↦ ok (
        calls (token_list_print (some list) ++ print_statistics list (statistics list))
        ++ free_tokens list ∷ [])
  ]

  -- The HTML of the file, or the message if there is none.
  unfoldable pub show_html : Bytes → Run (List Event)
  show_html content =
      process_pug_file w.glib w.machine content 0 2 (style_number unminify) >>= λ html. ok (
        calls html.messages ++ elim html.result [
          | none ↦ call (printf "Error procesando el archivo Pug\n" []) ∷ []
          | some rendered ↦
              call (printf "=== HTML Output ===\n%s\n" (text rendered ∷ []))
              ∷ render_free (some rendered)
        ])

  unfoldable pub show_examples : Run (List Event)
  show_examples = ejemplo_match_simple w.lre >>= λ a. ejemplo_grupos_captura w.lre >>= λ b.
      ejemplo_case_insensitive w.lre >>= λ c. ejemplo_template_pug w.lre >>= λ d.
      ejemplo_pug_tags w.lre >>= λ e. ok (calls examples_title ++ (a ++ (b ++ (c ++ (d ++ e)))))

  -- A file that is read. The lines that the tokenizer prints itself are not among the events.
  unfoldable pub show_file : Bytes → Bytes → Run (List Event)
  show_file path content = show_tokens content >>= λ tokens. show_html content >>= λ html. ok (
      call (printf "El Archivo leido es: %s\n\n" (text path ∷ []))
      ∷ (tokens ++ (html ++ free_text content ∷ [])))

  -- The events and the exit status. There is no `argv[0]` to print if `argc` is 0.
  unfoldable pub main : List Bytes → Run (List Event × ℕ)
  main [] = fault
  main (program ∷ []) = ok (call (printf "Uso: %s <archivo.pug>\n" (text program ∷ [])) ∷ [], 1)
  main (program ∷ path ∷ []) = elim (w.g_file_get_contents path) [
    | unreadable message ↦ ok (
      call (printf "Error al leer el archivo: %s\n" (text message ∷ [])) ∷ free_error message ∷ [],
      1,
    )
    | readable content ↦
        show_file path content >>= λ shown. show_examples >>= λ examples. ok (shown ++ examples, 0)
  ]
  main (program ∷ path ∷ other ∷ rest) =
      ok (call (printf "Uso: %s <archivo.pug>\n" (text program ∷ [])) ∷ [], 1)
