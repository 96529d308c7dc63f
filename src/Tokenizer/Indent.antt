-- ===== src/Tokenizer/Indent.antt =====
-- `count_indent_level` and `skip_whitespace`. A place in a line is the rest of the line from there
-- with its index; the end of the list is the terminating 0.
pub mod Levels
use c_pug.Common.{
  ℕ, zero, suc, ◌+◌, ◌/◌, Option, none, some, [], ◌∷◌, Bytes, ◌==◌, if◌then◌else◌, length,
}
use c_pug.Tokenizer.Chars.{is_blank}

-- The inner loop: the rest behind the spaces, and `space_count`.
unfoldable pub count_spaces : Bytes → ℕ → Bytes × ℕ
count_spaces [] space_count = ([], space_count)
count_spaces (c ∷ s) space_count =
    if c == b' ' then count_spaces s (space_count + 1) else (c ∷ s, space_count)

-- The outer loop, on fuel; `none` means that the fuel ran out.
unfoldable pub indent_loop : ℕ → Bytes → ℕ → Option ℕ
indent_loop zero line level = none
indent_loop (suc fuel) [] level = some level
indent_loop (suc fuel) (c ∷ s) level =
    let tab = indent_loop fuel s (level + 1) in
    let spaces = count_spaces (c ∷ s) 0 in
    let run = indent_loop fuel spaces.0 (level + spaces.1 / 2) in
    if c == b'\t' then tab else if c == b' ' then run else some level

unfoldable pub count_indent_level : Bytes → Option ℕ
count_indent_level line = indent_loop (length line + 1) line 0

unfoldable pub skip_whitespace : Bytes → ℕ → Bytes × ℕ
unfolding is_blank
skip_whitespace [] pos = ([], pos)
skip_whitespace (c ∷ s) pos = if is_blank c then skip_whitespace s (pos + 1) else (c ∷ s, pos)
