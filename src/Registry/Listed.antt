-- ===== src/Registry/Listed.antt =====
-- src-tauri/src/model_registry.rs: maps from which listed keys are removed, and maps into which keys
-- were put.
use model_switch.Base.{
  Bool-cases, any, eq_nat, eq_str, filter, if◌then◌else◌, starts_with, str_beq, str_beq_iff, Str,
  ◌≡◌, refl, sym, ap, ◌∙◌, subst, inl, inr, Bool, true, false, Option, none, List, [], ◌∷◌, arith,
}
use model_switch.Base.Map
use model_switch.Base.Map.{
  Map, Unique, insert, remove, contains_key, get-remove, contains_key-filter, remove-absent,
}
use model_switch.Base.Longest.{longest, better}

abbrev pub holds : Str → List Str → Bool
holds j models = any (λ m. str_beq m j) models

pub starts_with_refl : (s : Str) → starts_with s s ≡ true
starts_with_refl [] = refl
starts_with_refl (c ∷ s) = ground (arith, starts_with_refl s)

pub filter-idempotent :
    {A : Type 0} (p : A → Bool) (xs : List A) → filter p (filter p xs) ≡ filter p xs
filter-idempotent p [] = refl
filter-idempotent p (x ∷ xs) = elim (Bool-cases (p x)) [
  | inl stays ↦ rw (stays, stays) (ap (λ z. x ∷ z) (filter-idempotent p xs))
  | inr out ↦ rw out (filter-idempotent p xs)
]

-- An entry that does not pass a test and was put in is taken out with what it replaced.
pub filter-insert :
    {V : Type 0} (p : V → Bool) (k : Str) (v : V) (m : Map Str V)
    → p v ≡ false
    → Unique m
    → filter (λ (e : Str × V). p e.1) (insert k v m) ≡ remove k (filter (λ (e : Str × V). p e.1) m)
unfolding insert remove
filter-insert p k v [] h u = rw h refl
filter-insert {V} p k v ((i, w) ∷ m) h u =
    let rest = filter (λ (x : Str × V). p x.1) m in
    elim (Bool-cases (str_beq i k)) [
      | inl same ↦
          let e = (str_beq_iff i k).0 same in
          let gone : contains_key rest k ≡ false =
            contains_key-filter p m k (subst (λ z. contains_key m z ≡ false) e u.0) in
          elim (Bool-cases (p w)) [
            | inl stays ↦ rw (same, stays, h, same) (sym (remove-absent rest k gone))
            | inr out ↦ rw (same, out, h) (sym (remove-absent rest k gone))
          ]
      | inr other ↦ elim (Bool-cases (p w)) [
        | inl stays ↦ rw (other, stays, other) (ap (λ z. (i, w) ∷ z) (filter-insert p k v m h u.1))
        | inr out ↦ rw (other, out) (filter-insert p k v m h u.1)
      ]
    ]

-- A map without the keys of a list.
unfoldable pub remove_listed : {V : Type 0} → List Str → Map Str V → Map Str V
remove_listed [] m = m
remove_listed (key ∷ listed) m = remove_listed listed (remove key m)

pub get-remove_listed :
    {V : Type 0} (listed : List Str) (m : Map Str V) (j : Str)
    → Map.get (remove_listed listed m) j ≡ (if holds j listed then none else Map.get m j)
unfolding remove_listed
get-remove_listed [] m j = refl
get-remove_listed (key ∷ listed) m j =
    get-remove_listed listed (remove key m) j ∙ rw get-remove (ground arith)

-- Entries whose key does not pass the test leave the longest key that does.
pub longest-insert :
    {V : Type 0} (p : Str → Bool) (k : Str) (v : V) (best : Option (Str × V)) (m : Map Str V)
    → p k ≡ false
    → longest p best (insert k v m) ≡ longest p best m
unfolding longest insert
longest-insert p k v best [] h = rw h refl
longest-insert p k v best ((i, w) ∷ m) h = elim (Bool-cases (str_beq i k)) [
  | inl same ↦
      let passed : p i ≡ false = subst (λ z. p z ≡ false) (sym ((str_beq_iff i k).0 same)) h in
      rw (same, longest, h, passed) refl
  | inr other ↦ rw other (longest-insert p k v (better p (i, w) best) m h)
]
