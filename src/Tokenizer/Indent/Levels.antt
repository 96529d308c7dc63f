-- ===== src/Tokenizer/Indent/Levels.antt =====
-- The level that `count_indent_level` finds: one for each tab, and one for each two spaces of a run
-- of spaces.
use c_pug.Common.{
  ℕ, zero, suc, ◌+◌, ◌/◌, ◌≤◌, ◌<◌, ◌≡◌, ap, ◌∙◌, true, some, [], ◌∷◌, Bytes, arith, ◌==◌, length,
  Bool-cases, inl, inr, if◌then◌else◌,
}
use c_pug.Tokenizer.Indent.{count_spaces, indent_loop, count_indent_level}

-- The level of a line, `k` spaces of the current run having been read.
pub level_from : ℕ → Bytes → ℕ
level_from k [] = k / 2
level_from k (c ∷ s) =
    if c == b'\t'
    then k / 2 + 1 + level_from 0 s
    else if c == b' '
    then level_from (k + 1) s
    else k / 2

abbrev pub level_of : Bytes → ℕ
level_of = level_from 0

count_spaces-level_from :
    (s : Bytes) (k : ℕ)
    → level_from k s ≡ (count_spaces s k).1 / 2 + level_from 0 (count_spaces s k).0
unfolding count_spaces level_from
count_spaces-level_from [] k = omega arith
count_spaces-level_from (c ∷ s) k = ground (arith, count_spaces-level_from s (k + 1))

length-count_spaces-le : (s : Bytes) (k : ℕ) → length (count_spaces s k).0 ≤ length s
unfolding count_spaces
length-count_spaces-le [] k = omega arith
length-count_spaces-le (c ∷ s) k = ground (arith, length-count_spaces-le s (k + 1))

length-count_spaces-lt :
    (c : ℕ) (s : Bytes) → (c == b' ') ≡ true → length (count_spaces (c ∷ s) 0).0 ≤ length s
unfolding count_spaces
length-count_spaces-lt c s h = rw h (length-count_spaces-le s 1)

indent_loop-level_of :
    (fuel : ℕ) (line : Bytes) (level : ℕ)
    → length line < fuel
    → indent_loop fuel line level ≡ some (level + level_of line)
unfolding indent_loop level_from
indent_loop-level_of zero line level h = absurd (omega arith)
indent_loop-level_of (suc fuel) [] level h = ap some (omega arith)
indent_loop-level_of (suc fuel) (c ∷ s) level h = elim (Bool-cases (c == b'\t')) [
  | inl tab ↦ rw tab (indent_loop-level_of fuel s (level + 1) (omega arith) ∙ ap some (omega arith))
  | inr other ↦ rw other (elim (Bool-cases (c == b' ')) [
    | inl space ↦
        let spaces = count_spaces (c ∷ s) 0 in
        rw space (
          indent_loop-level_of fuel spaces.0 (level + spaces.1 / 2)
            (omega (arith, length-count_spaces-lt c s space))
          ∙ ap some (omega (arith, rw (other, space) at (count_spaces-level_from (c ∷ s) 0))))
    | inr text ↦ rw text (ap some (omega arith))
  ])
]

-- On every line `count_indent_level` ends, and its result is `level_of`: the number of tabs in the
-- leading blanks, with half the length, rounded down, of each run of blanks between them.
pub count_indent_level-level_of : (line : Bytes) → count_indent_level line ≡ some (level_of line)
unfolding count_indent_level
count_indent_level-level_of line =
    indent_loop-level_of (length line + 1) line 0 (omega arith) ∙ ap some (omega arith)
