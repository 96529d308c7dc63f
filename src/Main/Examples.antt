-- ===== src/Main/Examples.antt =====
-- The five examples of src/main.c, each as the list of its events.
use Prim.Native.String.{String}
use c_pug.Common.{
  ℕ, zero, suc, ◌+◌, Bool, false, Option, none, some, List, [], ◌∷◌, ◌++◌, Bytes, codes, ◌==◌, ltb,
  if◌then◌else◌, leb, ◌-◌, ◌*◌, length, drop, take, get_elem?,
}
use c_pug.Common.Run.{Run, ok, fault, timeout, ◌>>=◌}
use c_pug.Console.{Call, printf, text, int}
use c_pug.Glib.{ℤ, pos, negsuc}
use c_pug.Main.Events.{Event, calls, free_bytecode}
use c_pug.Main.Lre.{Lre, refused, compiled}

-- `end - start`
abbrev pub sub_ℕ : ℕ → ℕ → ℤ
sub_ℕ a b = if leb b a then pos (a - b) else negsuc (b - a - 1)

-- A pointer that is NULL is `none`; `%.*s` prints as many bytes of the text as its first argument
-- says.
unfoldable pub print_match : Bytes → Option ℕ → Option ℕ → Call
print_match input none end = printf "<no match>" []
print_match input (some start) none = printf "<no match>" []
print_match input (some start) (some end) =
    let len = sub_ℕ end start in
    printf "'%.*s' (pos: %ld, len: %d)"
      (int len ∷ text (drop start input) ∷ int (pos start) ∷ int len ∷ [])

-- `ret == 1`
abbrev pub is_one : ℤ → Bool
is_one (pos n) = n == 1
is_one (negsuc n) = false

-- `capture[k]`; a place behind the end of the array is a fault.
unfoldable pub capture : List (Option ℕ) → ℕ → Run (Option ℕ)
capture captures k = elim (get_elem? captures k) [ none ↦ fault | some c ↦ ok c ]

-- `capture[k] - (uint8_t *)input`
unfoldable pub offset : List (Option ℕ) → ℕ → Run ℕ
unfolding capture
offset captures k = capture captures k >>= λ c. elim c [ none ↦ fault | some n ↦ ok n ]

-- A label, the match in `capture[k]` and `capture[k + 1]`, and a line break.
unfoldable pub report : String → Bytes → List (Option ℕ) → ℕ → Run (List Call)
report label input captures k = capture captures k >>= λ start. capture captures (k + 1) >>= λ end.
    ok (printf label [] ∷ print_match input start end ∷ printf "\n" [] ∷ [])

-- `if (capture[k])` before a report.
unfoldable pub report_if : String → Bytes → List (Option ℕ) → ℕ → Run (List Call)
report_if label input captures k =
    capture captures k >>= λ c. elim c [ none ↦ ok [] | some _ ↦ report label input captures k ]

module _ (lre : Lre) where
  open lre use {lre_compile, lre_get_capture_count, lre_exec, lre_flag_ignorecase}

  -- What the examples share: the title, the message if the pattern is refused, and the release of
  -- the bytecode behind the body. The error's format differs.
  unfoldable pub example : Call → String → Bytes → ℕ → (Bytes → Run (List Call)) → Run (List Event)
  example title error_format pattern flags body = elim (lre_compile pattern flags) [
    | refused error_msg ↦ ok (calls (title ∷ printf error_format (text error_msg ∷ []) ∷ []))
    | compiled bc ↦ body bc >>= λ printed. ok (calls (title ∷ printed) ++ free_bytecode bc ∷ [])
  ]

  -- `lre_exec` into an array of `capture_count * 2` places.
  unfoldable pub exec : Bytes → Bytes → ℕ → ℤ × List (Option ℕ)
  exec bc input from =
      let (ret, captures) = lre_exec bc input from (length input) in
      (ret, take (lre_get_capture_count bc * 2) captures)

  -- One run from the start of the input: what follows a match, or else `otherwise`.
  unfoldable pub run_once :
      Bytes → Bytes → List Call → (List (Option ℕ) → Run (List Call)) → Run (List Call)
  run_once bc input otherwise body =
      let (ret, captures) = exec bc input 0 in
      let found = body captures in if is_one ret then found else ok otherwise

  unfoldable pub ejemplo_match_simple : Run (List Event)
  ejemplo_match_simple =
      let input = codes "hello world" in
      example (printf "\n=== EJEMPLO 1: Match Simple ===\n" []) "Error compilando: %s\n"
        (codes "hello") 0
        (λ bc.
          run_once bc input (printf "No match\n" [] ∷ [])
            (λ captures. report "Match encontrado: " input captures 0))

  unfoldable pub ejemplo_grupos_captura : Run (List Event)
  ejemplo_grupos_captura =
      let input = codes "carlos@swb.cl" in
      example (printf "\n=== EJEMPLO 2: Grupos de Captura ===\n" []) "Error: %s\n"
        (codes "(\\w+)@(\\w+\\.\\w+)") 0
        (λ bc. run_once bc input [] (λ captures.
          report "Email completo: " input captures 0 >>= λ email.
          report "Usuario: " input captures 2 >>= λ user.
          report "Dominio: " input captures 4 >>= λ domain. ok (email ++ (user ++ domain))))

  unfoldable pub ejemplo_case_insensitive : Run (List Event)
  ejemplo_case_insensitive =
      let input = codes "HELLO World" in
      example (printf "\n=== EJEMPLO 3: Case Insensitive ===\n" []) "Error: %s\n" (codes "hello")
        lre_flag_ignorecase
        (λ bc.
          run_once bc input [] (λ captures. report "Match (ignorando case): " input captures 0))

  -- `while (pos < input_len)`, on fuel.
  unfoldable pub variables : ℕ → Bytes → Bytes → ℕ → ℕ → Run (List Call)
  variables zero bc input position match_num = timeout
  variables (suc fuel) bc input position match_num =
      let (ret, captures) = exec bc input position in
      let found = capture captures 2 >>= λ start. capture captures 3 >>= λ end.
      offset captures 0 >>= λ at. offset captures 1 >>= λ next.
      variables fuel bc input next (match_num + 1) >>= λ rest. ok (
        printf "Variable %d: " (int (pos (match_num + 1)) ∷ [])
        ∷ print_match input start end
        ∷ printf " en posición %ld\n" (int (pos at) ∷ [])
        ∷ rest) in
      let turn = if is_one ret then found else ok [] in
      if ltb position (length input) then turn else ok []

  unfoldable pub ejemplo_template_pug : Run (List Event)
  ejemplo_template_pug =
      let input = codes "Hello #{name}, you have #{count} messages" in
      example (printf "\n=== EJEMPLO 4: Template Pug - Variables ===\n" []) "Error: %s\n"
        (codes "#\\{([a-zA-Z_][a-zA-Z0-9_]*)\\}") 0
        (λ bc. variables (length input + 1) bc input 0 0)

  unfoldable pub ejemplo_pug_tags : Run (List Event)
  ejemplo_pug_tags =
      let input = codes "div.container#main" in
      example (printf "\n=== EJEMPLO 5: Template Pug - Tags ===\n" []) "Error: %s\n"
        (codes "^([a-z]+)(\\.([a-zA-Z0-9_-]+))?(#([a-zA-Z0-9_-]+))?") 0
        (λ bc. run_once bc input [] (λ captures. report "Tag: " input captures 2 >>= λ tag.
          report_if "Clase: " input captures 6 >>= λ class.
          report_if "ID: " input captures 10 >>= λ id. ok (tag ++ (class ++ id))))
