-- ===== src/Base/Map.antt =====
-- Rust's `HashMap` as an association list. The order in which Rust iterates over a map is not
-- specified, and here it is the order of the list: a theorem about every list holds for every order.
use mathlib.Core.Bool.{Bool, true, false, ◌||◌}
use mathlib.Core.List.{List, [], ◌∷◌}
use mathlib.Core.Option.{Option, none, some}
use mathlib.Core.Path.{◌≡◌, refl}
use native.Mathlib.Omega.{arith}
use mathlib.Core.Path.{sym, ap, ap₂}
use mathlib.Core.Logic.{inl, inr}
use model_switch.Base.Lists.{filter, In}
use model_switch.Base.Tests.{Bool-cases, some_inj, PartialEq, ◌==◌, if◌then◌else◌}

abbrev pub Map {ℓ} : Type ℓ → Type ℓ → Type ℓ
Map K V = List (K × V)

abbrev pub map_some {ℓ} : {V : Type ℓ} → (V → V) → Option V → Option V
map_some f none = none
map_some f (some v) = some (f v)

abbrev pub filter_some {ℓ} : {V : Type ℓ} → (V → Bool) → Option V → Option V
filter_some p none = none
filter_some p (some v) = if p v then some v else none

pub beq_refl {ℓ} : {K : Type ℓ} ⦃e : PartialEq K⦄ (k : K) → (k == k) ≡ true
beq_refl ⦃e⦄ k = (e.same_iff k k).1 refl

module _ {ℓ} {K V : Type ℓ} ⦃e : PartialEq K⦄ where
  -- `map.get(&k)`
  unfoldable pub get : Map K V → K → Option V
  get [] k = none
  get ((j, v) ∷ m) k = if j == k then some v else get m k

  pub get-nil : (k : K) → get [] k ≡ none
  unfolding get
  get-nil k = refl

  unfoldable pub contains_key : Map K V → K → Bool
  contains_key [] k = false
  contains_key ((j, v) ∷ m) k = (j == k) || contains_key m k

  -- `map.insert(k, v)`
  unfoldable pub insert : K → V → Map K V → Map K V
  insert key value [] = (key, value) ∷ []
  insert key value ((held, old) ∷ rest) =
      let kept = insert key value rest in
      if held == key then (key, value) ∷ rest else (held, old) ∷ kept

  -- `map.remove(&k)`
  unfoldable pub remove : K → Map K V → Map K V
  remove k [] = []
  remove k ((j, w) ∷ m) = if j == k then remove k m else (j, w) ∷ remove k m

  -- `if let Some(v) = map.get_mut(&k) { *v = f(v) }`
  unfoldable pub modify : K → (V → V) → Map K V → Map K V
  modify k f [] = []
  modify k f ((j, w) ∷ m) = if j == k then (j, f w) ∷ m else (j, w) ∷ modify k f m

  pub get-insert :
      (m : Map K V) (k j : K) (v : V) → get (insert k v m) j ≡ (if k == j then some v else get m j)
  unfolding get insert
  get-insert [] k j v = refl
  get-insert ((i, w) ∷ m) k j v =
      ground (arith, e.same_iff k j, e.same_iff i k, e.same_iff i j, get-insert m k j v)

  pub get-insert_self : (m : Map K V) (k : K) (v : V) → get (insert k v m) k ≡ some v
  get-insert_self m k v = rw (get-insert, beq_refl k)

  pub get-remove : (m : Map K V) (k j : K) → get (remove k m) j ≡ (if k == j then none else get m j)
  unfolding get remove
  get-remove [] k j = ground arith
  get-remove ((i, w) ∷ m) k j =
      ground (arith, e.same_iff k j, e.same_iff i k, e.same_iff i j, get-remove m k j)

  pub get-modify :
      (m : Map K V) (k j : K) (f : V → V)
      → get (modify k f m) j ≡ (if k == j then map_some f (get m j) else get m j)
  unfolding get modify
  get-modify [] k j f = ground arith
  get-modify ((i, w) ∷ m) k j f =
      ground (arith, e.same_iff k j, e.same_iff i k, e.same_iff i j, get-modify m k j f)

module _ {K V : Type 0} ⦃e : PartialEq K⦄ where
  -- No key stands twice, as in every map that the operations build.
  abbrev pub Unique : Map K V → Type 0
  Unique [] = Unit
  Unique ((k, v) ∷ m) = (contains_key m k ≡ false) × Unique m

  contains_key-insert :
      (m : Map K V) (k j : K) (v : V)
      → contains_key (insert k v m) j ≡ ((k == j) || contains_key m j)
  unfolding contains_key insert
  contains_key-insert [] k j v = refl
  contains_key-insert ((i, w) ∷ m) k j v =
      ground (arith, e.same_iff k j, e.same_iff i k, e.same_iff i j, contains_key-insert m k j v)

  contains_key-remove :
      (m : Map K V) (k j : K)
      → contains_key (remove k m) j ≡ (if k == j then false else contains_key m j)
  unfolding contains_key remove
  contains_key-remove [] k j = ground arith
  contains_key-remove ((i, w) ∷ m) k j =
      ground (arith, e.same_iff k j, e.same_iff i k, e.same_iff i j, contains_key-remove m k j)

  pub contains_key-filter :
      (p : V → Bool) (m : Map K V) (j : K)
      → contains_key m j ≡ false
      → contains_key (filter (λ (x : K × V). p x.1) m) j ≡ false
  unfolding contains_key
  contains_key-filter p [] j h = refl
  contains_key-filter p ((i, w) ∷ m) j h = ground (arith, contains_key-filter p m j)

  pub insert-Unique : (k : K) (v : V) (m : Map K V) → Unique m → Unique (insert k v m)
  unfolding insert contains_key
  insert-Unique k v [] u = (refl, tt)
  insert-Unique k v ((i, w) ∷ m) u =
      ground
        (arith, e.same_iff i k, e.same_iff k i, insert-Unique k v m, contains_key-insert m k i v)

  pub remove-Unique : (k : K) (m : Map K V) → Unique m → Unique (remove k m)
  unfolding remove contains_key
  remove-Unique k [] u = tt
  remove-Unique k ((i, w) ∷ m) u =
      ground (arith, e.same_iff i k, e.same_iff k i, remove-Unique k m, contains_key-remove m k i)

  pub filter-Unique :
      (p : V → Bool) (m : Map K V) → Unique m → Unique (filter (λ (x : K × V). p x.1) m)
  filter-Unique p [] u = tt
  filter-Unique p ((i, w) ∷ m) u = ground (arith, filter-Unique p m, contains_key-filter p m i)

  pub remove-absent : (m : Map K V) (k : K) → contains_key m k ≡ false → remove k m ≡ m
  unfolding contains_key remove
  remove-absent [] k h = refl
  remove-absent ((i, w) ∷ m) k h = elim (Bool-cases (i == k)) [
    | inl same ↦ cc (rw same at h)
    | inr other ↦ rw other (ap (λ z. (i, w) ∷ z) (remove-absent m k (rw other at h)))
  ]

  pub get-contains_key : (m : Map K V) (k : K) → contains_key m k ≡ false → get m k ≡ none
  unfolding get contains_key
  get-contains_key [] k h = refl
  get-contains_key ((i, w) ∷ m) k h = ground (arith, get-contains_key m k)

  pub contains_key-get : (m : Map K V) (k : K) {v : V} → get m k ≡ some v → contains_key m k ≡ true
  unfolding get contains_key
  contains_key-get [] k h = cc
  contains_key-get ((i, w) ∷ m) k {v} h =
      ground (arith, λ (x : get m k ≡ some v). contains_key-get m k x)

  -- `map.retain(|_, v| p(v))`
  pub get-filter :
      (p : V → Bool) (m : Map K V) (k : K)
      → Unique m
      → get (filter (λ (x : K × V). p x.1) m) k ≡ filter_some p (get m k)
  unfolding get
  get-filter p [] k u = refl
  get-filter p ((i, w) ∷ m) k u =
      ground (arith, e.same_iff i k, get-filter p m k, get-contains_key m k, get-contains_key m i)

module _ {ℓ κ} {K : Type ℓ} {V : Type κ} where
  -- `map.values()`
  abbrev pub values : List (K × V) → List V
  values [] = []
  values ((k, v) ∷ m) = v ∷ values m

  abbrev pub keys : List (K × V) → List K
  keys [] = []
  keys ((k, v) ∷ m) = k ∷ keys m

module _ {K V : Type 0} ⦃e : PartialEq K⦄ where
  -- What a map holds under a key is an entry of it, and in a map without repeated keys the only one.
  pub In-get : (m : Map K V) (k : K) {v : V} → get m k ≡ some v → In (k, v) m
  unfolding get
  In-get [] k h = cc
  In-get ((i, w) ∷ m) k {v} h = elim (Bool-cases (i == k)) [
    | inl same ↦
        inl (ap₂ (λ a b. (a, b)) (sym ((e.same_iff i k).0 same)) (sym (some_inj (rw same at h))))
    | inr other ↦ inr (In-get m k (rw other at h))
  ]

  pub contains_key-In : (m : Map K V) (k : K) (v : V) → In (k, v) m → contains_key m k ≡ true
  unfolding contains_key
  contains_key-In [] k v m = absurd m
  contains_key-In ((i, w) ∷ m) k v (inl h) = ground (arith, e.same_iff i k, ap (λ x. x.0) h)
  contains_key-In ((i, w) ∷ m) k v (inr h) = ground (arith, contains_key-In m k v h)

  pub get-In : (m : Map K V) (k : K) {v : V} → Unique m → In (k, v) m → get m k ≡ some v
  unfolding get
  get-In [] k u h = absurd h
  get-In ((i, w) ∷ m) k {v} u (inl h) =
      let same : (i == k) ≡ true = (e.same_iff i k).1 (sym (ap (λ x. x.0) h)) in
      rw same (ap (λ x. some x.1) (sym h))
  get-In ((i, w) ∷ m) k {v} u (inr h) = elim (Bool-cases (i == k)) [
    | inl same ↦
        let i_k : i ≡ k = (e.same_iff i k).0 same in
        let held : contains_key m i ≡ true = rw i_k (contains_key-In m k v h) in cc
    | inr other ↦ rw other (get-In m k u.1 h)
  ]
