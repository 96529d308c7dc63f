-- ===== src/Main/Counts.antt =====
-- The statistics are counts of tokens.
use c_pug.Common.{
  ℕ, zero, suc, ◌+◌, ◌≤◌, ◌≡◌, Bool, true, false, List, [], ◌∷◌, arith, length, take, if◌then◌else◌,
}
use c_pug.Main.Program.{Stats, count_type, count_tokens, statistics}
use c_pug.Tokens.{TokenType, token_tag, token_class, token_id, token_text, Token, TokenList}

abbrev pub is_tag : TokenType → Bool
is_tag token_tag = true
is_tag _ = false

abbrev pub is_class : TokenType → Bool
is_class token_class = true
is_class _ = false

abbrev pub is_id : TokenType → Bool
is_id token_id = true
is_id _ = false

abbrev pub is_text : TokenType → Bool
is_text token_text = true
is_text _ = false

-- How many tokens are of a type that passes the test.
abbrev pub tally : (TokenType → Bool) → List Token → ℕ
tally test [] = 0
tally test (t ∷ ts) = (if test t.type then 1 else 0) + tally test ts

abbrev counted : List Token → Stats → Stats
counted ts s = record {
  tag_count = s.tag_count + tally is_tag ts;
  class_count = s.class_count + tally is_class ts;
  id_count = s.id_count + tally is_id ts;
  text_count = s.text_count + tally is_text ts;
}

count_tokens-counted : (ts : List Token) (s : Stats) → count_tokens ts s ≡ counted ts s
unfolding count_tokens count_type
count_tokens-counted [] s = ground arith
count_tokens-counted (t ∷ ts) s = ground (arith, count_tokens-counted ts (count_type t.type s))

sum-length :
    (ts : List Token)
    → tally is_tag ts + tally is_class ts + tally is_id ts + tally is_text ts ≤ length ts
sum-length [] = omega arith
sum-length (t ∷ ts) = ground (arith, sum-length ts)

length-take : (n : ℕ) (ts : List Token) → length (take n ts) ≤ n
length-take zero ts = omega arith
length-take (suc n) [] = omega arith
length-take (suc n) (t ∷ ts) = omega (arith, length-take n ts)

-- Each counter of the statistics is the number of tokens of its type among the first `list.count`
-- tokens, and the four together are at most `list.count`.
pub statistics-tally :
    (list : TokenList)
    → (statistics list ≡ record {
      tag_count = tally is_tag (take list.count list.tokens);
      class_count = tally is_class (take list.count list.tokens);
      id_count = tally is_id (take list.count list.tokens);
      text_count = tally is_text (take list.count list.tokens);
    })
      × ((statistics list).tag_count
            + (statistics list).class_count
            + (statistics list).id_count
            + (statistics list).text_count
          ≤ list.count)
unfolding statistics
statistics-tally list =
    let ts = take list.count list.tokens in
    let e =
      count_tokens-counted ts
        (record { tag_count = 0; class_count = 0; id_count = 0; text_count = 0 }) in
    (ground (arith, e), rw (e) (omega (arith, sum-length ts, length-take list.count list.tokens)))
