-- ===== src/Tests/Programs.antt =====
-- The command line program at a small file, with an engine of regular expressions to which each
-- character is a match.
use c_pug.Common.{
  ℕ, zero, suc, ◌+◌, ◌*◌, ◌≡◌, refl, true, false, Option, none, some, List, [], ◌∷◌, Bytes, codes,
  arith, length, ltb, if◌then◌else◌, ◌<◌, ◌≤◌, take,
}
use mathlib.Core.Path.{subst}
use c_pug.Common.Run.{ok}
use c_pug.Glib.Standin.{standin, standin-Documented}
use c_pug.Glib.{pos}
use c_pug.Main.Ends.{Ended, main-Ended}
use c_pug.Main.Lre.{compiled, Lre, Documented, groups}
use c_pug.Main.Counts.{tally, is_tag, is_class, is_id, is_text, statistics-tally}
use c_pug.Main.Program.{statistics, readable, World, main}
use c_pug.Main.Examples.{variables}
use c_pug.Main.Variables.{Span, rows, Matches, IsNonEmpty, variables-rows}
use c_pug.Process.{process_pug_file}
use c_pug.Process.Rendered.{Rendered, process_pug_file-Rendered}
use c_pug.Tokenizer.File.{tokenize_file}
use c_pug.Process.Parsed.{HasEof}
use c_pug.Tests.Chains.{line, limit, limit-IsLimited, memory, list, line-list, list-HasEof}
use c_pug.Tokens.{TokenList}

abbrev unset_pairs : ℕ → List (Option ℕ)
unset_pairs zero = []
unset_pairs (suc n) = none ∷ none ∷ unset_pairs n

length-unset_pairs : (n : ℕ) → length (unset_pairs n) ≡ 2 * n
length-unset_pairs zero = refl
length-unset_pairs (suc n) = omega (arith, length-unset_pairs n)

abbrev engine : Lre
engine = record {
  lre_compile = λ pattern flags. compiled pattern;
  lre_get_capture_count = λ bc. groups false false bc + 1;
  lre_exec = λ bc input from n.
      if ltb from n
      then (pos 1, some from ∷ some (from + 1) ∷ unset_pairs (groups false false bc))
      else (pos 0, []);
  lre_flag_ignorecase = 2;
}

engine-match :
    (bc input : Bytes) (from n : ℕ) (captures : List (Option ℕ))
    → engine.lre_exec bc input from n ≡ (pos 1, captures)
    → (from < n) × (captures ≡ some from ∷ some (from + 1) ∷ unset_pairs (groups false false bc))
engine-match bc input from n captures e = ground arith

engine-Documented : Documented engine
engine-Documented = record {
  counted = λ pattern flags bc e. ground arith;
  matched = λ bc input from n captures e.
      let (lt, is) = engine-match bc input from n captures e in
      rw is (record {
        size = omega (arith, length-unset_pairs (groups false false bc));
        start = from;
        end = from + 1;
        starts_at = refl;
        ends_at = refl;
        forward = omega arith;
        ordered = omega arith;
        inside = omega (arith, lt);
      });
}

engine-IsNonEmpty : (bc : Bytes) → IsNonEmpty engine bc
engine-IsNonEmpty bc input from n start end captures e s t =
    let (lt, is) = engine-match bc input from n captures e in ground arith

abbrev world : World
world = record {
  glib = standin;
  lre = engine;
  g_file_get_contents = λ path. readable line;
  tokens = limit;
  machine = record { tokens = limit; context = true; junk = 0; root = true; parser = memory };
}

world-HasEof :
    (path content : Bytes) (made : TokenList)
    → codes "a.pug" ∷ [] ≡ path ∷ []
    → readable line ≡ readable content
    → tokenize_file standin limit content ≡ some made
    → HasEof made
world-HasEof path content made p e q =
    let same : line ≡ content = cc in
    let found : list ≡ made = cc line-list in subst HasEof found list-HasEof

main-Ended_example :
    Ended world
      (codes "c-pug")
      (codes "a.pug" ∷ [])
      (main world (codes "c-pug" ∷ codes "a.pug" ∷ []))
main-Ended_example =
    main-Ended world standin-Documented engine-Documented (λ bc made. engine-IsNonEmpty bc)
      limit-IsLimited limit-IsLimited (λ i. refl) (codes "c-pug") (codes "a.pug" ∷ []) world-HasEof

process_pug_file-Rendered_example :
    Rendered standin world.machine list 1 4 0 (process_pug_file standin world.machine line 1 4 0)
process_pug_file-Rendered_example =
    process_pug_file-Rendered standin world.machine standin-Documented limit-IsLimited (λ i. refl)
      line list 1 4 0 line-list list-HasEof

variables-rows_example :
    (ss : List Span) × (variables engine 4 (codes "(.)") (codes "abc") 0 0
      ≡ ok (rows (codes "abc") 0 ss))
    × Matches engine (codes "(.)") (codes "abc") 0 ss
variables-rows_example =
    variables-rows engine engine-Documented 4 (codes "(.)") (codes "abc") 0 0
      (engine-IsNonEmpty (codes "(.)")) (omega arith) (omega arith) (omega arith)

statistics-tally_example :
    (statistics list ≡ record {
      tag_count = tally is_tag (take list.count list.tokens);
      class_count = tally is_class (take list.count list.tokens);
      id_count = tally is_id (take list.count list.tokens);
      text_count = tally is_text (take list.count list.tokens);
    })
    × ((statistics list).tag_count
          + (statistics list).class_count
          + (statistics list).id_count
          + (statistics list).text_count
        ≤ list.count)
statistics-tally_example = statistics-tally list
