-- ===== src/RequestCache/Evict.antt =====
-- The loop that evicts the oldest entries of src-tauri/src/proxy/cache.rs.
use model_switch.Base.{
  ℕ, ◌≤◌, ◌≡◌, inl, inr, ◌∙◌, true, false, List, [], ◌∷◌, ◌++◌, In, All, length, eq_nat, nat_beq,
  nat_beq_iff, ltb, Bool-cases, arith,
}
use model_switch.Base.Map
use model_switch.Base.Map.{
  Map, remove, contains_key, Unique, insert-Unique, remove-Unique, get-remove, get-insert_self,
}
use model_switch.RequestCache.{CacheEntry, evict}

-- Every entry has a place in the order of insertion.
abbrev pub IsCovered : Map ℕ CacheEntry → List ℕ → Type 0
IsCovered entries order = All (λ e. In e.0 order) entries

In-tail : (k j : ℕ) (order : List ℕ) → nat_beq j k ≡ false → In j (k ∷ order) → In j order
In-tail k j order ne (inl e) = absurd (cc ((nat_beq_iff j k).1 e))
In-tail k j order ne (inr m) = m

remove-IsCovered :
    (k : ℕ) (entries : Map ℕ CacheEntry) (order : List ℕ)
    → IsCovered entries (k ∷ order)
    → IsCovered (remove k entries) order
unfolding remove
remove-IsCovered k [] order c = tt
remove-IsCovered k ((j, e) ∷ entries) order c = elim (Bool-cases (nat_beq j k)) [
  | inl same ↦ rw same (remove-IsCovered k entries order c.1)
  | inr other ↦ rw other (In-tail k j order other c.0, remove-IsCovered k entries order c.1)
]

evict_less :
    (limit : ℕ) (entries : Map ℕ CacheEntry) (k : ℕ) (order : List ℕ)
    → ltb limit (length entries) ≡ true
    → evict limit entries (k ∷ order) ≡ evict limit (remove k entries) order
unfolding evict
evict_less limit entries k order over = rw over

evict_done :
    (limit : ℕ) (entries : Map ℕ CacheEntry) (k : ℕ) (order : List ℕ)
    → ltb limit (length entries) ≡ false
    → evict limit entries (k ∷ order) ≡ (entries, k ∷ order)
unfolding evict
evict_done limit entries k order fits = rw fits

abbrev pub Kept : ℕ → Map ℕ CacheEntry × List ℕ → Type 0
Kept limit r = IsCovered r.0 r.1 × Unique r.0 × (length r.0 ≤ limit)

pub evict-Kept :
    (limit : ℕ) (entries : Map ℕ CacheEntry) (order : List ℕ)
    → IsCovered entries order
    → Unique entries
    → Kept limit (evict limit entries order)
unfolding evict
evict-Kept limit [] [] c u = (tt, tt, omega arith)
evict-Kept limit (e ∷ entries) [] c u = absurd c.0
evict-Kept limit entries (k ∷ order) c u = elim (Bool-cases (ltb limit (length entries))) [
  | inl over ↦ rw (evict_less limit entries k order over) (
      evict-Kept limit (remove k entries) order (remove-IsCovered k entries order c)
        (remove-Unique k entries u))
  | inr fits ↦ rw (evict_done limit entries k order fits) (c, u, ground arith)
]

-- At most one entry under one key.
single :
    (k : ℕ) (entries : Map ℕ CacheEntry)
    → IsCovered entries (k ∷ [])
    → Unique entries
    → length entries ≤ 1
unfolding contains_key
single k [] c u = omega arith
single k (e ∷ []) c u = omega arith
single k ((i, x) ∷ (j, y) ∷ entries) c u = ground arith

-- The last key of the order is not evicted.
pub evict-last :
    (limit : ℕ) (entries : Map ℕ CacheEntry) (order : List ℕ) (key : ℕ)
    → 1 ≤ limit
    → IsCovered entries (order ++ key ∷ [])
    → Unique entries
    → All (λ k. nat_beq k key ≡ false) order
    → Map.get (evict limit entries (order ++ key ∷ [])).0 key ≡ Map.get entries key
evict-last limit entries [] key l c u a =
    rw (evict_done limit entries key [] (ground (arith, single key entries c u)))
evict-last limit entries (k ∷ order) key l c u a = elim (Bool-cases (ltb limit (length entries))) [
  | inl over ↦ rw (evict_less limit entries k (order ++ key ∷ []) over) (
      evict-last limit (remove k entries) order key l
        (remove-IsCovered k entries (order ++ key ∷ []) c) (remove-Unique k entries u) a.1
      ∙ rw (get-remove, a.0))
  | inr fits ↦ rw (evict_done limit entries k (order ++ key ∷ []) fits)
]
