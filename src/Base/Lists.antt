-- ===== src/Base/Lists.antt =====
-- Lists measured and indexed by native numbers, under the library's names, with Rust's `any`,
-- `filter`, `last` and `sum` on slices and iterators.
use Prim.Native.Nat.{ℕ, zero, suc, ◌+◌, ◌≤◌, ◌<◌}
use mathlib.Core.Bool.{Bool, true, false, ◌||◌}
use mathlib.Core.List.{List, [], ◌∷◌, ◌++◌}
use mathlib.Core.Logic.{◌⊎◌, inl, inr}
use mathlib.Core.Option.{Option, none, some}
use mathlib.Core.Path.{◌≡◌, refl, ap, sym, subst}
use native.Mathlib.Omega.{arith}

module _ {ℓ} {A : Type ℓ} where
  abbrev pub length : List A → ℕ
  length [] = 0
  length (x ∷ xs) = suc (length xs)

  abbrev pub get_elem? : List A → ℕ → Option A
  get_elem? [] i = none
  get_elem? (x ∷ xs) zero = some x
  get_elem? (x ∷ xs) (suc i) = get_elem? xs i

  abbrev pub take : ℕ → List A → List A
  take zero xs = []
  take (suc n) [] = []
  take (suc n) (x ∷ xs) = x ∷ take n xs

  abbrev pub set : List A → ℕ → A → List A
  set [] i v = []
  set (x ∷ xs) zero v = v ∷ xs
  set (x ∷ xs) (suc i) v = x ∷ set xs i v

  abbrev pub replicate : ℕ → A → List A
  replicate zero a = []
  replicate (suc n) a = a ∷ replicate n a

  abbrev pub is_empty : List A → Bool
  is_empty [] = true
  is_empty (x ∷ xs) = false

  abbrev pub last : List A → Option A
  last [] = none
  last (x ∷ []) = some x
  last (x ∷ y ∷ xs) = last (y ∷ xs)

  abbrev pub any : (A → Bool) → List A → Bool
  any p [] = false
  any p (x ∷ xs) = p x || any p xs

  abbrev keep_if : Bool → A → List A → List A
  keep_if true x xs = x ∷ xs
  keep_if false x xs = xs

  abbrev pub filter : (A → Bool) → List A → List A
  filter p [] = []
  filter p (x ∷ xs) = keep_if (p x) x (filter p xs)

  abbrev pub sum_by : (A → ℕ) → List A → ℕ
  sum_by f [] = 0
  sum_by f (x ∷ xs) = f x + sum_by f xs

  pub length-append : (xs ys : List A) → length (xs ++ ys) ≡ length xs + length ys
  length-append [] ys = omega arith
  length-append (x ∷ xs) ys = omega (arith, length-append xs ys)

  pub length-set : (xs : List A) (i : ℕ) (v : A) → length (set xs i v) ≡ length xs
  length-set [] i v = refl
  length-set (x ∷ xs) zero v = refl
  length-set (x ∷ xs) (suc i) v = ap suc (length-set xs i v)

  pub length-replicate : (n : ℕ) (a : A) → length (replicate n a) ≡ n
  length-replicate zero a = refl
  length-replicate (suc n) a = ap suc (length-replicate n a)

  pub length-take-le : (n : ℕ) (xs : List A) → length (take n xs) ≤ n
  length-take-le zero xs = omega arith
  length-take-le (suc n) [] = omega arith
  length-take-le (suc n) (x ∷ xs) = omega (arith, length-take-le n xs)

  pub get_elem?-lt : (xs : List A) (i : ℕ) → i < length xs → (a : A) × (get_elem? xs i ≡ some a)
  get_elem?-lt [] i h = elim h [ ]
  get_elem?-lt (x ∷ xs) zero h = (x, refl)
  get_elem?-lt (x ∷ xs) (suc i) h = get_elem?-lt xs i (omega arith)

-- Membership and "for all" by recursion, which the tactics read.
module _ {A : Type 0} where
  abbrev pub In : A → List A → Type 0
  In a [] = ⊥
  In a (x ∷ xs) = (a ≡ x) ⊎ In a xs

  abbrev pub All : (A → Type 0) → List A → Type 0
  All P [] = Unit
  All P (x ∷ xs) = P x × All P xs

  pub All-In : (P : A → Type 0) (xs : List A) {a : A} → All P xs → In a xs → P a
  All-In P [] h m = absurd m
  All-In P (x ∷ xs) h (inl e) = subst P (sym e) h.0
  All-In P (x ∷ xs) h (inr m) = All-In P xs h.1 m

  pub In-get_elem? : (xs : List A) (i : ℕ) {a : A} → get_elem? xs i ≡ some a → In a xs
  In-get_elem? [] i h = cc
  In-get_elem? (x ∷ xs) zero h = inl (cc)
  In-get_elem? (x ∷ xs) (suc i) h = inr (In-get_elem? xs i h)

  -- What a filter keeps is an element that passes.
  pub In-filter : (p : A → Bool) (xs : List A) {a : A} → In a (filter p xs) → In a xs × (p a ≡ true)
  In-filter p [] m = absurd m
  In-filter p (x ∷ xs) {a} m = ground (arith, λ (h : In a (filter p xs)). In-filter p xs h)

  -- An element that passes is kept.
  pub In-filter_of :
      (p : A → Bool) (xs : List A) {a : A} → In a xs → p a ≡ true → In a (filter p xs)
  In-filter_of p [] m h = absurd m
  In-filter_of p (x ∷ xs) {a} m h = ground (arith, λ (k : In a xs). In-filter_of p xs k h)

  pub All-of_In : (P : A → Type 0) (xs : List A) → ((a : A) → In a xs → P a) → All P xs
  All-of_In P [] h = tt
  All-of_In P (x ∷ xs) h = (h x (inl refl), All-of_In P xs (λ a m. h a (inr m)))

  pub In-take : (n : ℕ) (xs : List A) (a : A) → In a (take n xs) → In a xs
  In-take zero xs a m = absurd m
  In-take (suc n) [] a m = absurd m
  In-take (suc n) (x ∷ xs) a (inl e) = inl e
  In-take (suc n) (x ∷ xs) a (inr m) = inr (In-take n xs a m)

  pub In-append : (xs ys : List A) (a : A) → In a (xs ++ ys) → In a xs ⊎ In a ys
  In-append [] ys a m = inr m
  In-append (x ∷ xs) ys a (inl e) = inl (inl e)
  In-append (x ∷ xs) ys a (inr m) = elim (In-append xs ys a m) [
    | inl h ↦ inl (inr h)
    | inr h ↦ inr h
  ]

  pub All-append : (P : A → Type 0) (xs ys : List A) → All P xs → All P ys → All P (xs ++ ys)
  All-append P [] ys a b = b
  All-append P (x ∷ xs) ys a b = (a.0, All-append P xs ys a.1 b)

  pub In-append_left : (xs ys : List A) (a : A) → In a xs → In a (xs ++ ys)
  In-append_left (x ∷ xs) ys a (inl e) = inl e
  In-append_left (x ∷ xs) ys a (inr m) = inr (In-append_left xs ys a m)
  In-append_left [] ys a m = absurd m

  pub In-append_right : (xs ys : List A) (a : A) → In a ys → In a (xs ++ ys)
  In-append_right [] ys a m = m
  In-append_right (x ∷ xs) ys a m = inr (In-append_right xs ys a m)
