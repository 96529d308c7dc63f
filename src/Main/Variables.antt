-- ===== src/Main/Variables.antt =====
-- The loop of `ejemplo_template_pug` over the variables of a text.
use c_pug.Common.{
  ℕ, zero, suc, ◌+◌, ◌≤◌, ◌<◌, ◌*◌, ◌≡◌, ◌≢◌, ◌⊎◌, refl, true, false, Option, none, some, List, [],
  ◌∷◌, Bytes, codes, arith, length, get_elem?, ltb, Bool-cases, inl, inr, take, drop, Option-cases,
}
use c_pug.Common.Run.{ok, fault}
use c_pug.Console.{Call, printf, text, int}
use c_pug.Glib.{pos}
use c_pug.Main.Examples.{
  sub_ℕ, capture, offset, is_one, print_match, exec, variables, ejemplo_template_pug,
}
use c_pug.Main.Lre.{compiled, Lre, Documented}
use c_pug.Main.Safe.{capture-Returns, Finishes, example-Finishes, exec-match, exec-Matches}

-- A match: its place in the text, and the two places of its first group.
pub record Span : Type 0 where
  pub at : ℕ
  pub next : ℕ
  pub group_start : Option ℕ
  pub group_end : Option ℕ

-- A group of a match on the terminal; without a place for both ends there is none.
abbrev pub group_call : Bytes → Option ℕ → Option ℕ → Call
group_call input (some start) (some end) =
    printf "'%.*s' (pos: %ld, len: %d)" (
      int (sub_ℕ end start)
      ∷ text (drop start input)
      ∷ int (pos start)
      ∷ int (sub_ℕ end start)
      ∷ [])
group_call input _ _ = printf "<no match>" []

-- What is printed for the matches, which are numbered on from `match_num`.
abbrev pub rows : Bytes → ℕ → List Span → List Call
rows input match_num [] = []
rows input match_num (s ∷ ss) =
    printf "Variable %d: " (int (pos (match_num + 1)) ∷ [])
    ∷ group_call input s.group_start s.group_end
    ∷ printf " en posición %ld\n" (int (pos s.at) ∷ [])
    ∷ rows input (match_num + 1) ss

-- What the array holds after a run of `lre_exec` that answers 1.
pub record IsMatch (captures : List (Option ℕ)) (s : Span) : Type 0 where
  pub starts_at : get_elem? captures 0 ≡ some (some s.at)
  pub ends_at : get_elem? captures 1 ≡ some (some s.next)
  pub group_from : get_elem? captures 2 ≡ some s.group_start
  pub group_to : get_elem? captures 3 ≡ some s.group_end

-- The matches are those that `lre_exec` finds, run from `from` and then from the end of each match
-- on, until it finds none or the text is at its end. They follow one another, none is empty, and
-- the last ends within the text.
abbrev pub Matches : Lre → Bytes → Bytes → ℕ → List Span → Type 0
Matches lre bc input from [] =
    (from ≤ length input)
    × ((from ≡ length input) ⊎ (is_one (lre.lre_exec bc input from (length input)).0 ≡ false))
Matches lre bc input from (s ∷ ss) =
    (from < length input)
    × (is_one (lre.lre_exec bc input from (length input)).0 ≡ true)
    × IsMatch
        (take (lre.lre_get_capture_count bc * 2) (lre.lre_exec bc input from (length input)).1) s
    × (from ≤ s.at)
    × (s.at < s.next)
    × Matches lre bc input s.next ss

abbrev pub template_pattern : Bytes
template_pattern = codes "#\\{([a-zA-Z_][a-zA-Z0-9_]*)\\}"

-- No match of the bytecode is empty.
abbrev pub IsNonEmpty : Lre → Bytes → Type 0
IsNonEmpty lre bc =
    (input : Bytes) (from n start end : ℕ) (captures : List (Option ℕ))
    → lre.lre_exec bc input from n ≡ (pos 1, captures)
    → get_elem? captures 0 ≡ some (some start)
    → get_elem? captures 1 ≡ some (some end)
    → start ≢ end

offset-eq : (cs : List (Option ℕ)) (k n : ℕ) → get_elem? cs k ≡ some (some n) → offset cs k ≡ ok n
unfolding offset capture
offset-eq cs k n e = rw (e, offset, capture)

module _ (lre : Lre) (doc : Documented lre) where
  print_match-group_call :
      (input : Bytes) (start end : Option ℕ)
      → print_match input start end ≡ group_call input start end
  unfolding print_match
  print_match-group_call input none end = refl
  print_match-group_call input (some start) none = refl
  print_match-group_call input (some start) (some end) = refl

  capture-eq :
      (cs : List (Option ℕ)) (k : ℕ) (c : Option ℕ) → capture cs k ≡ ok c → get_elem? cs k ≡ some c
  unfolding capture
  capture-eq cs k c e = elim (Option-cases (get_elem? cs k)) [
    | inl out ↦ let bad : fault ≡ ok c = (rw (out, capture) at e) in cc
    | inr (d, here) ↦ let found : ok d ≡ ok c = (rw (here, capture) at e) in cc
  ]

  turn :
      (fuel : ℕ) (bc input : Bytes) (position match_num : ℕ) (start end : Option ℕ) (at next : ℕ)
      (rest : List Call)
      → ltb position (length input) ≡ true
      → is_one (exec lre bc input position).0 ≡ true
      → capture (exec lre bc input position).1 2 ≡ ok start
      → capture (exec lre bc input position).1 3 ≡ ok end
      → offset (exec lre bc input position).1 0 ≡ ok at
      → offset (exec lre bc input position).1 1 ≡ ok next
      → variables lre fuel bc input next (match_num + 1) ≡ ok rest
      → variables lre (suc fuel) bc input position match_num
        ≡ ok (
            printf "Variable %d: " (int (pos (match_num + 1)) ∷ [])
            ∷ group_call input start end
            ∷ printf " en posición %ld\n" (int (pos at) ∷ [])
            ∷ rest)
  unfolding variables
  turn fuel bc input position match_num start end at next rest a b c d e f h =
      rw (← print_match-group_call input start end) (rw (a, b, c, d, e, f, h))

  -- Given libregexp as documented, with at least one group and no empty match, the loop over the
  -- variables returns from every place of the text, if the fuel is more than what is left of it. It
  -- prints one row for each match that `lre_exec` finds, run from that place and then from the end
  -- of each match on, until it finds none or the text is at its end; the rows are numbered on, and
  -- give the first group and the place of the match. The matches follow one another, are not empty
  -- and lie within the text.
  pub variables-rows :
      (fuel : ℕ) (bc input : Bytes) (position match_num : ℕ)
      → IsNonEmpty lre bc
      → 1 < lre.lre_get_capture_count bc
      → position ≤ length input
      → length input < position + fuel
      → (ss : List Span) × (variables lre fuel bc input position match_num
          ≡ ok (rows input match_num ss))
        × Matches lre bc input position ss
  unfolding variables exec
  variables-rows zero bc input position match_num full many le lt = absurd (omega arith)
  variables-rows (suc fuel) bc input position match_num full many le lt =
      elim (Bool-cases (ltb position (length input))) [
        | inr over ↦ ([], rw over, (le, inl (ground arith)))
        | inl more ↦ elim (Bool-cases (is_one (exec lre bc input position).0)) [
          | inr none_left ↦ ([], rw (more, none_left), (le, inr none_left))
          | inl one ↦
              let cs = (exec lre bc input position).1 in
              let m = exec-Matches lre doc bc input position one in
              let (start, e) = capture-Returns cs 2 (omega (arith, m.size)) in
              let (end, f) = capture-Returns cs 3 (omega (arith, m.size)) in
              let different =
                full input position (length input) m.start m.end cs
                  (exec-match lre doc bc input position one) m.starts_at m.ends_at in
              let (ss, q, matches) =
                variables-rows fuel bc input m.end (match_num + 1) full many m.inside
                  (omega (arith, m.forward, m.ordered, different)) in
              (
                record { at = m.start; next = m.end; group_start = start; group_end = end } ∷ ss,
                turn fuel bc input position match_num start end m.start m.end
                    (rows input (match_num + 1) ss) more one e f
                    (offset-eq cs 0 m.start m.starts_at) (offset-eq cs 1 m.end m.ends_at) q,
                (
                  ground arith,
                  one,
                  record {
                    starts_at = m.starts_at;
                    ends_at = m.ends_at;
                    group_from = capture-eq cs 2 start e;
                    group_to = capture-eq cs 3 end f;
                  },
                  m.forward,
                  omega (arith, m.ordered, different),
                  matches,
                ),
              )
        ]
      ]

  pub template :
      ((bc : Bytes) → lre.lre_compile template_pattern 0 ≡ compiled bc → IsNonEmpty lre bc)
      → Finishes lre template_pattern 0 (ejemplo_template_pug lre)
  unfolding ejemplo_template_pug
  template full = example-Finishes lre _ _ template_pattern 0 _ λ bc made.
      let (ss, q, _) =
        variables-rows _ bc (codes "Hello #{name}, you have #{count} messages") 0 0 (full bc made)
          (omega (arith, doc.counted template_pattern 0 bc made)) (omega arith) (omega arith) in
      (_, q)
