-- ===== src/Common/Times.antt =====
-- How often a value occurs in a list, and the element at a place counted from another place on.
use Prim.Native.Nat.{ℕ, ◌+◌, ◌-◌}
use mathlib.Core.Path.{◌≡◌}
use mathlib.Core.Bool.{Bool, true}
use mathlib.Core.Option.{Option, none, some}
use mathlib.Core.List.{List, [], ◌∷◌, ◌++◌}
use native.Mathlib.Omega.{arith}
use c_pug.Common.Lists.{get_elem?}
use c_pug.Common.Tests.{◌==◌, leb, if◌then◌else◌, Bool-cases}
use mathlib.Core.Logic.{inl, inr}

-- How often `a` occurs in a list, by the test `same`.
abbrev pub times {ℓ} : {A : Type ℓ} → (A → A → Bool) → A → List A → ℕ
times same a [] = 0
times same a (b ∷ bs) = (if same a b then 1 else 0) + times same a bs

pub times-append {ℓ} :
    {A : Type ℓ} (same : A → A → Bool) (a : A) (bs cs : List A)
    → times same a (bs ++ cs) ≡ times same a bs + times same a cs
times-append same a [] cs = omega arith
times-append same a (b ∷ bs) cs = omega (arith, times-append same a bs cs)

-- The element at place `j` of a list whose first place has the number `i`.
abbrev pub from_place {ℓ} : {A : Type ℓ} → ℕ → ℕ → List A → Option A
from_place i j xs = if leb i j then get_elem? xs (j - i) else none

pub from_place-cons :
    {A : Type 0} (i j : ℕ) (x : A) (xs : List A)
    → from_place i j (x ∷ xs) ≡ (if j == i then some x else from_place (i + 1) j xs)
from_place-cons i j x xs = ground arith

pub from_place_past :
    {A : Type 0} (i j : ℕ) (xs : List A) → (j == i) ≡ true → from_place (i + 1) j xs ≡ none
from_place_past i j xs e = ground arith

-- A measure of the element at a place is the sum over the elements of their measures at that place.
pub measure-from_place :
    {A : Type 0} (f : Option A → ℕ) (i j : ℕ) (x : A) (xs : List A)
    → f none ≡ 0
    → (if j == i then f (some x) else 0) + f (from_place (i + 1) j xs) ≡ f (from_place i j (x ∷ xs))
measure-from_place f i j x xs z = elim (Bool-cases (j == i)) [
  | inl here ↦ rw (from_place-cons i j x xs, from_place_past i j xs here, here, z) (omega arith)
  | inr other ↦ rw (from_place-cons i j x xs, other) (omega arith)
]

pub from_place_zero : {A : Type 0} (j : ℕ) (xs : List A) → from_place 0 j xs ≡ get_elem? xs j
from_place_zero j xs = ground arith
