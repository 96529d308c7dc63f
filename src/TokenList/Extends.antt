-- ===== src/TokenList/Extends.antt =====
-- What a piece of the tokenizer does to the list: it appends tokens that all satisfy `Q`, and the
-- list stays within its block.
use c_pug.Common.{
  ℕ, ◌^◌, ◌<◌, ◌≤◌, ◌≡◌, sym, ◌∙◌, ap, Bool, false, some, List, [], ◌∷◌, ◌++◌, arith, All,
  All-append, append-nil, append_assoc, Bool-cases, inl, inr,
}
use c_pug.TokenList.Growth.{IsValid, stores, tokens-token_list_add, token_list_add-IsValid}
use c_pug.TokenList.{token_list_add, Reallocs}
use c_pug.Tokens.{Token, TokenList}

-- No block of 2 ^ 30 pointers or more can be enlarged: the machine has not the memory.
abbrev pub IsLimited : Reallocs → Type 0
IsLimited mem = (n : ℕ) (t : Token) → 2 ^ 30 ≤ n → mem n t ≡ false

-- Within the block, whose size is far from the range of `unsigned int`.
pub record IsBounded (l : TokenList) : Type 0 where
  pub valid : IsValid l
  pub small : l.capacity < 2 ^ 31

pub record Extends (Q : Token → Type 0) (l l' : TokenList) : Type 0 where
  pub bounded : IsBounded l'
  pub new : List Token
  pub appended : l'.tokens ≡ l.tokens ++ new
  pub holds : All Q new

module _ {Q : Token → Type 0} where
  pub Extends-refl : {l : TokenList} → IsBounded l → Extends Q l l
  Extends-refl {l} b = record {
    bounded = b;
    new = [];
    appended = sym (append-nil l.tokens);
    holds = tt;
  }

  pub Extends-trans : {l m n : TokenList} → Extends Q l m → Extends Q m n → Extends Q l n
  Extends-trans {l} e f = record {
    bounded = f.bounded;
    new = e.new ++ f.new;
    appended =
        f.appended
        ∙ ap (λ (t : List Token). t ++ f.new) e.appended
        ∙ append_assoc l.tokens e.new f.new;
    holds = All-append Q e.new f.new e.holds f.holds;
  }

small-token_list_add :
    (ok : Bool) (l : TokenList) (t : Token)
    → IsBounded l
    → (2 ^ 30 ≤ l.count → ok ≡ false)
    → (token_list_add ok l (some t)).capacity < 2 ^ 31
unfolding token_list_add
small-token_list_add ok l t b h = ground arith

pub token_list_add-IsBounded :
    {mem : Reallocs} (l : TokenList) (t : Token)
    → IsLimited mem
    → IsBounded l
    → IsBounded (token_list_add (mem l.count t) l (some t))
token_list_add-IsBounded {mem} l t limited b = record {
  valid = token_list_add-IsValid (mem l.count t) l t b.valid b.small;
  small = small-token_list_add (mem l.count t) l t b (limited l.count t);
}

-- An add appends the token, or nothing if the block is full and cannot be enlarged.
pub token_list_add-Extends :
    {mem : Reallocs} {Q : Token → Type 0} (l : TokenList) (t : Token)
    → IsLimited mem
    → IsBounded l
    → Q t
    → Extends Q l (token_list_add (mem l.count t) l (some t))
token_list_add-Extends {mem} {Q} l t limited b q = elim (Bool-cases (stores (mem l.count t) l)) [
  | inl stored ↦ record {
    bounded = token_list_add-IsBounded l t limited b;
    new = t ∷ [];
    appended = rw (tokens-token_list_add (mem l.count t) l t b.valid, stored);
    holds = (q, tt);
  }
  | inr lost ↦ record {
    bounded = token_list_add-IsBounded l t limited b;
    new = [];
    appended =
        rw (tokens-token_list_add (mem l.count t) l t b.valid, lost) (sym (append-nil l.tokens));
    holds = tt;
  }
]
