-- ===== src/Tokenizer/Chars.antt =====
-- The byte classes that the tokenizer tests: `isalpha` and `isalnum` of <ctype.h> in the "C" locale
-- (the program never calls `setlocale`), and the tests of its loops.
use c_pug.Common.{ℕ, Bool, ◌&&◌, ◌||◌, not, leb, ◌==◌}

abbrev within : ℕ → ℕ → ℕ → Bool
within lo hi c = leb lo c && leb c hi

unfoldable pub isalpha : ℕ → Bool
isalpha c = within b'a' b'z' c || within b'A' b'Z' c

unfoldable pub isalnum : ℕ → Bool
unfolding isalpha
isalnum c = isalpha c || within b'0' b'9' c

-- The bytes of an id or a class.
unfoldable pub is_name_byte : ℕ → Bool
unfolding isalnum
is_name_byte c = isalnum c || c == b'-' || c == b'_'

-- The bytes of a tag.
unfoldable pub is_tag_byte : ℕ → Bool
unfolding isalnum
is_tag_byte c = isalnum c || c == b'-'

unfoldable pub is_blank : ℕ → Bool
is_blank c = c == b' ' || c == b'\t'

abbrev pub is_not : ℕ → ℕ → Bool
is_not b c = not (c == b)
