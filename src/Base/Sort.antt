-- ===== src/Base/Sort.antt =====
-- Rust's stable `sort_by`, as an insertion sort. `le a b` says that the comparison of `a` with `b`
-- does not answer `Greater`.
use Prim.Native.Nat.{ℕ, ◌+◌, ◌≤◌}
use mathlib.Core.Bool.{Bool, true, false}
use mathlib.Core.List.{List, [], ◌∷◌}
use mathlib.Core.Logic.{◌⊎◌, inl, inr}
use mathlib.Core.Path.{◌≡◌, refl}
use native.Mathlib.Omega.{arith}
use model_switch.Base.Lists.{length, In, All, All-In, All-of_In}
use model_switch.Base.Tests.{if◌then◌else◌, Bool-cases}

module _ {A : Type 0} (le : A → A → Bool) where
  unfoldable pub insert_by : A → List A → List A
  insert_by x [] = x ∷ []
  insert_by x (y ∷ ys) = let rest = insert_by x ys in if le x y then x ∷ y ∷ ys else y ∷ rest

  unfoldable pub sort_by : List A → List A
  unfolding insert_by
  sort_by [] = []
  sort_by (x ∷ xs) = insert_by x (sort_by xs)

  All-insert_by : (P : A → Type 0) (x : A) (xs : List A) → P x → All P xs → All P (insert_by x xs)
  unfolding insert_by
  All-insert_by P x [] p a = (p, tt)
  All-insert_by P x (y ∷ ys) p a = ground (arith, All-insert_by P x ys p a.1)

  All-insert_by_of :
      (P : A → Type 0) (x : A) (xs : List A) → All P (insert_by x xs) → P x × All P xs
  unfolding insert_by
  All-insert_by_of P x [] a = a
  All-insert_by_of P x (y ∷ ys) a = elim (Bool-cases (le x y)) [
    | inl e ↦ rw e at a
    | inr e ↦
        let b : P y × All P (insert_by x ys) = rw e at a in
        let (p, rest) = All-insert_by_of P x ys b.1 in (p, (b.0, rest))
  ]

  pub All-sort_by : (P : A → Type 0) (xs : List A) → All P xs → All P (sort_by xs)
  unfolding sort_by
  All-sort_by P [] a = tt
  All-sort_by P (x ∷ xs) a = All-insert_by P x (sort_by xs) a.0 (All-sort_by P xs a.1)

  pub All-sort_by_of : (P : A → Type 0) (xs : List A) → All P (sort_by xs) → All P xs
  unfolding sort_by
  All-sort_by_of P [] a = tt
  All-sort_by_of P (x ∷ xs) a =
      let (p, rest) = All-insert_by_of P x (sort_by xs) a in (p, All-sort_by_of P xs rest)

  In-insert_by : (x : A) (xs : List A) {a : A} → In a (insert_by x xs) → (a ≡ x) ⊎ In a xs
  unfolding insert_by
  In-insert_by x [] m = m
  In-insert_by x (y ∷ ys) {a} m = ground (arith, λ (h : In a (insert_by x ys)). In-insert_by x ys h)

  -- The sorted list holds nothing new.
  pub In-sort_by : (xs : List A) (a : A) → In a (sort_by xs) → In a xs
  unfolding sort_by
  In-sort_by [] a m = m
  In-sort_by (x ∷ xs) a m = elim (In-insert_by x (sort_by xs) m) [
    | inl h ↦ inl h
    | inr h ↦ inr (In-sort_by xs a h)
  ]

  length-insert_by : (x : A) (xs : List A) → length (insert_by x xs) ≡ length xs + 1
  unfolding insert_by
  length-insert_by x [] = refl
  length-insert_by x (y ∷ ys) = ground (arith, length-insert_by x ys)

  pub length-sort_by : (xs : List A) → length (sort_by xs) ≡ length xs
  unfolding sort_by
  length-sort_by [] = refl
  length-sort_by (x ∷ xs) = omega (arith, length-insert_by x (sort_by xs), length-sort_by xs)

-- Sorted by a number.
abbrev pub IsSorted : {A : Type 0} → (A → ℕ) → List A → Type 0
IsSorted key [] = Unit
IsSorted key (x ∷ xs) = All (λ y. key x ≤ key y) xs × IsSorted key xs

module _ {A : Type 0} (le : A → A → Bool) (key : A → ℕ) where
  All-weaken : (n m : ℕ) (xs : List A) → n ≤ m → All (λ y. m ≤ key y) xs → All (λ y. n ≤ key y) xs
  All-weaken n m [] h a = tt
  All-weaken n m (x ∷ xs) h a = (omega arith, All-weaken n m xs h a.1)

  insert_by-IsSorted :
      ((a b : A) → le a b ≡ true → key a ≤ key b)
      → ((a b : A) → le a b ≡ false → key b ≤ key a)
      → (x : A) (xs : List A) → IsSorted key xs
      → IsSorted key (insert_by le x xs)
  unfolding insert_by
  insert_by-IsSorted up down x [] s = (tt, tt)
  insert_by-IsSorted up down x (y ∷ ys) s = elim (Bool-cases (le x y)) [
    | inl e ↦ rw e ((up x y e, All-weaken (key x) (key y) ys (up x y e) s.0), s)
    | inr e ↦ rw e (
      All-insert_by le (λ z. key y ≤ key z) x ys (down x y e) s.0,
      insert_by-IsSorted up down x ys s.1,
    )
  ]

  -- A comparison that respects a number sorts by that number.
  pub sort_by-IsSorted :
      ((a b : A) → le a b ≡ true → key a ≤ key b)
      → ((a b : A) → le a b ≡ false → key b ≤ key a)
      → (xs : List A) → IsSorted key (sort_by le xs)
  unfolding sort_by
  sort_by-IsSorted up down [] = tt
  sort_by-IsSorted up down (x ∷ xs) =
      insert_by-IsSorted up down x (sort_by le xs) (sort_by-IsSorted up down xs)

-- The sorted list holds everything.
pub In-sort_by_of :
    {A : Type 0} (le : A → A → Bool) (xs : List A) (a : A) → In a xs → In a (sort_by le xs)
In-sort_by_of le xs a m =
    All-In (λ z. In z (sort_by le xs)) xs
      (All-sort_by_of le (λ z. In z (sort_by le xs)) xs (All-of_In _ (sort_by le xs) (λ z i. i))) m
