-- ===== src/Base/Sums.antt =====
-- Sums over lists.
use Prim.Native.Nat.{ℕ, zero, suc, ◌+◌, ◌≤◌}
use mathlib.Core.Bool.{Bool}
use mathlib.Core.List.{List, [], ◌∷◌, ◌++◌}
use mathlib.Core.Option.{some}
use mathlib.Core.Path.{◌≡◌, refl, ap}
use native.Mathlib.Omega.{arith}
use model_switch.Base.Lists.{get_elem?, set, sum_by, filter, replicate}
use model_switch.Base.Tests.{if◌then◌else◌, some_inj}

module _ {A : Type 0} where
  pub sum_by-set :
      (f : A → ℕ) (bs : List A) (i : ℕ) (v : A) {b : A}
      → get_elem? bs i ≡ some b
      → sum_by f (set bs i v) + f b ≡ sum_by f bs + f v
  sum_by-set f [] i v h = cc
  sum_by-set f (x ∷ bs) zero v h = let e = ap f (some_inj h) in omega (arith, e)
  sum_by-set f (x ∷ bs) (suc i) v h = omega (arith, sum_by-set f bs i v h)

  pub get-le-sum_by :
      (f : A → ℕ) (bs : List A) (i : ℕ) {b : A} → get_elem? bs i ≡ some b → f b ≤ sum_by f bs
  get-le-sum_by f [] i h = cc
  get-le-sum_by f (x ∷ bs) zero h = let e = ap f (some_inj h) in omega (arith, e)
  get-le-sum_by f (x ∷ bs) (suc i) h = omega (arith, get-le-sum_by f bs i h)

  pub sum_by-filter :
      (f : A → ℕ) (p : A → Bool) (bs : List A)
      → sum_by f (filter p bs) ≡ sum_by (λ (b : A). if p b then f b else 0) bs
  sum_by-filter f p [] = refl
  sum_by-filter f p (b ∷ bs) = ground (arith, sum_by-filter f p bs)

  pub sum_by-congr : (f g : A → ℕ) (bs : List A) → ((b : A) → f b ≡ g b) → sum_by f bs ≡ sum_by g bs
  sum_by-congr f g [] h = refl
  sum_by-congr f g (b ∷ bs) h = omega (arith, h b, sum_by-congr f g bs h)

  pub sum_by-le : (f g : A → ℕ) (bs : List A) → ((b : A) → f b ≤ g b) → sum_by f bs ≤ sum_by g bs
  sum_by-le f g [] h = omega arith
  sum_by-le f g (b ∷ bs) h = omega (arith, h b, sum_by-le f g bs h)

  pub sum_by-append : (f : A → ℕ) (xs ys : List A) → sum_by f (xs ++ ys) ≡ sum_by f xs + sum_by f ys
  sum_by-append f [] ys = omega arith
  sum_by-append f (x ∷ xs) ys = omega (arith, sum_by-append f xs ys)

  pub sum_by-replicate : (f : A → ℕ) (k : ℕ) (a : A) → f a ≡ 0 → sum_by f (replicate k a) ≡ 0
  sum_by-replicate f zero a h = refl
  sum_by-replicate f (suc k) a h = omega (arith, sum_by-replicate f k a h)
