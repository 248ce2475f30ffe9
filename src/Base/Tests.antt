-- ===== src/Base/Tests.antt =====
-- Boolean tests on native numbers and on byte strings, the conditional, and equality as an
-- interface (Rust's `PartialEq` on keys).
use Prim.Native.Nat.{ℕ, ◌≤◌, ◌<◌, compare, Ordering}
use Prim.Native.Char.{code}
use Prim.Native.String.{String}
use mathlib.Core.Bool.{Bool, true, false, ◌||◌, ◌&&◌}
use mathlib.Core.List.{List, [], ◌∷◌}
use mathlib.Core.Logic.{◌↔◌, ◌⊎◌, inl, inr}
use mathlib.Core.Option.{Option, none, some}
use mathlib.Core.Path.{◌≡◌, refl}
use native.Mathlib.Omega.{arith}

abbrev pub ltb : ℕ → ℕ → Bool
ltb a b = elim (compare a b) [ Ordering.lt ↦ true | _ ↦ false ]

abbrev pub leb : ℕ → ℕ → Bool
leb a b = elim (compare a b) [ Ordering.gt ↦ false | _ ↦ true ]

abbrev pub nat_beq : ℕ → ℕ → Bool
nat_beq a b = elim (compare a b) [ Ordering.eq ↦ true | _ ↦ false ]

infix 1 if◌then◌else◌
abbrev pub if◌then◌else◌ {ℓ} : {A : Type ℓ} → Bool → A → A → A
if true then x else y = x
if false then x else y = y

-- A byte string: the UTF-8 bytes of a Rust `str`.
abbrev pub Str : Type 0
Str = List ℕ

-- The bytes of an ASCII literal.
abbrev pub bytes : String → Str
bytes String.[] = []
bytes (String.◌∷◌ first rest) = code first ∷ bytes rest

abbrev pub str_beq : Str → Str → Bool
str_beq [] [] = true
str_beq [] (y ∷ ys) = false
str_beq (x ∷ xs) [] = false
str_beq (x ∷ xs) (y ∷ ys) = nat_beq x y && str_beq xs ys

-- `str::starts_with`
abbrev pub starts_with : Str → Str → Bool
starts_with s [] = true
starts_with [] (p ∷ ps) = false
starts_with (c ∷ s) (p ∷ ps) = nat_beq c p && starts_with s ps

-- `str::contains`
abbrev pub contains : Str → Str → Bool
contains [] needle = starts_with [] needle
contains (c ∷ s) needle = starts_with (c ∷ s) needle || contains s needle

pub nat_beq_iff : (a b : ℕ) → (nat_beq a b ≡ true) ↔ (a ≡ b)
nat_beq_iff a b = ground arith

str_beq_sound : (s t : Str) → str_beq s t ≡ true → s ≡ t
str_beq_sound [] [] h = refl
str_beq_sound [] (y ∷ ys) h = cc
str_beq_sound (x ∷ xs) [] h = cc
str_beq_sound (x ∷ xs) (y ∷ ys) h = ground (arith, str_beq_sound xs ys)

pub str_beq_refl : (s : Str) → str_beq s s ≡ true
str_beq_refl [] = refl
str_beq_refl (x ∷ xs) = ground (arith, str_beq_refl xs)

str_beq_complete : (s t : Str) → s ≡ t → str_beq s t ≡ true
str_beq_complete s t e = rw (← e) (str_beq_refl s)

pub str_beq_iff : (s t : Str) → (str_beq s t ≡ true) ↔ (s ≡ t)
str_beq_iff s t = (str_beq_sound s t, str_beq_complete s t)

-- `a == b` is decided by the instance for the type of `a`.
pub record PartialEq {ℓ} (K : Type ℓ) : Type ℓ where
  pub same : K → K → Bool
  pub same_iff : (k j : K) → (same k j ≡ true) ↔ (k ≡ j)

instance abbrev pub eq_str : PartialEq Str
eq_str = record { same_iff = str_beq_iff; same = str_beq }

instance abbrev pub eq_nat : PartialEq ℕ
eq_nat = record { same_iff = nat_beq_iff; same = nat_beq }

infix 50 ◌==◌
abbrev pub ◌==◌ {ℓ} : {K : Type ℓ} ⦃keys : PartialEq K⦄ → K → K → Bool
◌==◌ ⦃keys⦄ k j = keys.same k j

pub ltb→lt : (a b : ℕ) → ltb a b ≡ true → a < b
ltb→lt a b h = ground arith

pub leb→le : (a b : ℕ) → leb a b ≡ true → a ≤ b
leb→le a b h = ground arith

pub Bool-cases : (b : Bool) → (b ≡ true) ⊎ (b ≡ false)
Bool-cases true = inl refl
Bool-cases false = inr refl

pub Option-cases {ℓ} : {A : Type ℓ} (o : Option A) → (o ≡ none) ⊎ ((a : A) × (o ≡ some a))
Option-cases none = inl refl
Option-cases (some a) = inr (a, refl)

abbrev pub is_some {ℓ} : {A : Type ℓ} → Option A → Bool
is_some none = false
is_some (some a) = true

pub some_inj {ℓ} : {A : Type ℓ} {a b : A} → some a ≡ some b → a ≡ b
some_inj h = cc
