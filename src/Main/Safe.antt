-- ===== src/Main/Safe.antt =====
-- The examples return and release their bytecode.
use Prim.Native.String.{String}
use c_pug.Common.{
  ℕ, ◌+◌, ◌*◌, ◌<◌, ◌≡◌, refl, sym, ap, ◌∙◌, true, false, Option, none, some, List, [], ◌∷◌, ◌++◌,
  Bytes, codes, arith, length, take_all, get_elem?-below, Bool-cases, inl, inr, ◌⊎◌,
}
use c_pug.Common.Run.{Run, ok, ◌>>=◌}
use c_pug.Console.{Call, printf, text}
use c_pug.Glib.{ℤ, pos, negsuc}
use c_pug.Main.Events.{Event, call, calls, freed, free_bytecode, free_tokens, free_text, free_error}
use c_pug.Main.Examples.{
  capture, report, report_if, is_one, example, exec, run_once, ejemplo_match_simple,
  ejemplo_grupos_captura, ejemplo_case_insensitive, ejemplo_pug_tags,
}
use c_pug.Main.Lre.{Compiled, refused, compiled, Lre, Documented, Matches, groups}

abbrev pub Returns {ℓ} : {A : Type ℓ} → Run A → Type ℓ
Returns {A} r = (a : A) × (r ≡ ok a)

pub then_Returns {ℓ κ} :
    {A : Type ℓ} {B : Type κ} (r : Run A) (f : A → Run B)
    → Returns r
    → ((a : A) → Returns (f a))
    → Returns (r >>= f)
then_Returns r f (a, e) k = let (b, q) = k a in (b, rw e q)

pub freed-append : (es fs : List Event) → freed (es ++ fs) ≡ freed es ++ freed fs
freed-append [] fs = refl
freed-append (call _ ∷ es) fs = freed-append es fs
freed-append (free_bytecode bc ∷ es) fs =
    ap (λ (l : List Event). free_bytecode bc ∷ l) (freed-append es fs)
freed-append (free_tokens list ∷ es) fs =
    ap (λ (l : List Event). free_tokens list ∷ l) (freed-append es fs)
freed-append (free_text s ∷ es) fs = ap (λ (l : List Event). free_text s ∷ l) (freed-append es fs)
freed-append (free_error s ∷ es) fs = ap (λ (l : List Event). free_error s ∷ l) (freed-append es fs)

pub freed-calls : (cs : List Call) → freed (calls cs) ≡ []
freed-calls [] = refl
freed-calls (c ∷ cs) = freed-calls cs

-- After calls that print only the rest frees.
pub freed-after : (cs : List Call) (es : List Event) → freed (calls cs ++ es) ≡ freed es
freed-after [] es = refl
freed-after (c ∷ cs) es = freed-after cs es

pub capture-Returns : (cs : List (Option ℕ)) (k : ℕ) → k < length cs → Returns (capture cs k)
unfolding capture
capture-Returns cs k lt = let (c, e) = get_elem?-below cs k lt in (c, rw (e, capture))

report-Returns :
    (label : String) (input : Bytes) (cs : List (Option ℕ)) (k : ℕ)
    → k + 1 < length cs
    → Returns (report label input cs k)
unfolding report
report-Returns label input cs k lt =
    then_Returns (capture cs k) _ (capture-Returns cs k (omega arith))
      λ start. then_Returns (capture cs (k + 1)) _ (capture-Returns cs (k + 1) lt) λ end. (_, refl)

report_if-Returns :
    (label : String) (input : Bytes) (cs : List (Option ℕ)) (k : ℕ)
    → k + 1 < length cs
    → Returns (report_if label input cs k)
unfolding report_if
report_if-Returns label input cs k lt =
    then_Returns (capture cs k) _ (capture-Returns cs k (omega arith))
      (elim [ none ↦ ([], refl) | some n ↦ report-Returns label input cs k lt ])

is_one_eq : (r : ℤ) → is_one r ≡ true → r ≡ pos 1
is_one_eq (pos n) h = ground arith
is_one_eq (negsuc n) h = cc

-- What is to be freed after a compilation.
abbrev pub bytecode : Compiled → List Event
bytecode (refused _) = []
bytecode (compiled bc) = free_bytecode bc ∷ []

Compiled-cases :
    (c : Compiled) → ((msg : Bytes) × (c ≡ refused msg)) ⊎ ((bc : Bytes) × (c ≡ compiled bc))
Compiled-cases (refused msg) = inl (msg, refl)
Compiled-cases (compiled bc) = inr (bc, refl)

-- A run returns, and frees the bytecode of its pattern once, or nothing if the pattern is refused.
abbrev pub Finishes : Lre → Bytes → ℕ → Run (List Event) → Type 0
Finishes lre pattern flags r =
    (es : List Event) × (r ≡ ok es) × (freed es ≡ bytecode (lre.lre_compile pattern flags))

module _ (lre : Lre) where
  pub example-Finishes :
      (title : Call) (format : String) (pattern : Bytes) (flags : ℕ)
      (body : Bytes → Run (List Call))
      → ((bc : Bytes) → lre.lre_compile pattern flags ≡ compiled bc → Returns (body bc))
      → Finishes lre pattern flags (example lre title format pattern flags body)
  unfolding example
  example-Finishes title format pattern flags body total =
      elim (Compiled-cases (lre.lre_compile pattern flags)) [
        | inl (msg, e) ↦ (
          calls (title ∷ printf format (text msg ∷ []) ∷ []),
          rw (e, example),
          rw e (freed-calls (title ∷ printf format (text msg ∷ []) ∷ [])),
        )
        | inr (bc, e) ↦
            let (printed, q) = total bc e in
            (
              calls (title ∷ printed) ++ free_bytecode bc ∷ [],
              rw (e, q, example),
              rw e (freed-after (title ∷ printed) (free_bytecode bc ∷ [])),
            )
      ]

  module _ (doc : Documented lre) where
    pub exec-match :
        (bc input : Bytes) (from : ℕ)
        → is_one (exec lre bc input from).0 ≡ true
        → lre.lre_exec bc input from (length input) ≡ (pos 1, (exec lre bc input from).1)
    unfolding exec
    exec-match bc input from one =
        let (ret, cs) = lre.lre_exec bc input from (length input) in
        let e : lre.lre_exec bc input from (length input) ≡ (pos 1, cs) =
          ap (λ (r : ℤ). (r, cs)) (is_one_eq ret one) in
        let m = doc.matched bc input from (length input) cs e in
        e
        ∙ ap (λ (x : List (Option ℕ)). (pos 1, x))
            (sym (take_all (lre.lre_get_capture_count bc * 2) cs (omega (arith, m.size))))

    pub exec-Matches :
        (bc input : Bytes) (from : ℕ)
        → is_one (exec lre bc input from).0 ≡ true
        → Matches (lre.lre_get_capture_count bc) from (length input) (exec lre bc input from).1
    exec-Matches bc input from one =
        doc.matched bc input from (length input) (exec lre bc input from).1
          (exec-match bc input from one)

    run_once-Returns :
        (bc input : Bytes) (otherwise : List Call) (body : List (Option ℕ) → Run (List Call))
        → ((cs : List (Option ℕ))
            → length cs ≡ 2 * lre.lre_get_capture_count bc
            → Returns (body cs))
        → Returns (run_once lre bc input otherwise body)
    unfolding run_once
    run_once-Returns bc input otherwise body total =
        elim (Bool-cases (is_one (exec lre bc input 0).0)) [
          | inl one ↦ rw one (total (exec lre bc input 0).1 (exec-Matches bc input 0 one).size)
          | inr other ↦ rw other (otherwise, refl)
        ]

    -- An example that runs once and reads the first `k` groups at most.
    once-Finishes :
        (title : Call) (format : String) (pattern input : Bytes) (flags k : ℕ)
        (otherwise : List Call) (body : List (Option ℕ) → Run (List Call))
        → groups false false pattern ≡ k
        → ((cs : List (Option ℕ)) → length cs ≡ 2 * (k + 1) → Returns (body cs))
        → Finishes lre pattern flags
            (example lre title format pattern flags (λ bc. run_once lre bc input otherwise body))
    once-Finishes title format pattern input flags k otherwise body e total =
        example-Finishes title format pattern flags (λ bc. run_once lre bc input otherwise body)
          (λ bc made.
            run_once-Returns bc input otherwise body
              (λ cs size. total cs (omega (arith, size, doc.counted pattern flags bc made, e))))

    pub simple : Finishes lre (codes "hello") 0 (ejemplo_match_simple lre)
    unfolding ejemplo_match_simple
    simple =
        once-Finishes _ _ _ _ _ 0 _ _ refl
          (λ cs size. report-Returns "Match encontrado: " _ cs 0 (omega arith))

    pub insensitive :
        Finishes lre (codes "hello") lre.lre_flag_ignorecase (ejemplo_case_insensitive lre)
    unfolding ejemplo_case_insensitive
    insensitive =
        once-Finishes _ _ _ _ _ 0 _ _ refl
          (λ cs size. report-Returns "Match (ignorando case): " _ cs 0 (omega arith))

    pub captures : Finishes lre (codes "(\\w+)@(\\w+\\.\\w+)") 0 (ejemplo_grupos_captura lre)
    unfolding ejemplo_grupos_captura
    captures = once-Finishes _ _ _ _ _ 2 _ _ refl λ cs size.
        then_Returns (report "Email completo: " (codes "carlos@swb.cl") cs 0) _
          (report-Returns _ _ cs 0 (omega arith))
          λ email.
            then_Returns (report "Usuario: " (codes "carlos@swb.cl") cs 2) _
              (report-Returns _ _ cs 2 (omega arith))
              λ user.
                then_Returns (report "Dominio: " (codes "carlos@swb.cl") cs 4) _
                  (report-Returns _ _ cs 4 (omega arith)) λ domain. (_, refl)

    pub tags :
        Finishes lre
          (codes "^([a-z]+)(\\.([a-zA-Z0-9_-]+))?(#([a-zA-Z0-9_-]+))?")
          0
          (ejemplo_pug_tags lre)
    unfolding ejemplo_pug_tags
    tags = once-Finishes _ _ _ _ _ 5 _ _ refl λ cs size.
        then_Returns (report "Tag: " (codes "div.container#main") cs 2) _
          (report-Returns _ _ cs 2 (omega arith))
          λ tag.
            then_Returns (report_if "Clase: " (codes "div.container#main") cs 6) _
              (report_if-Returns _ _ cs 6 (omega arith))
              λ class.
                then_Returns (report_if "ID: " (codes "div.container#main") cs 10) _
                  (report_if-Returns _ _ cs 10 (omega arith)) λ id. (_, refl)
