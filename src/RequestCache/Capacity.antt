-- ===== src/RequestCache/Capacity.antt =====
-- src-tauri/src/proxy/cache.rs: the size of the cache, and what it still holds after a write.
use model_switch.Base.{
  ℕ, ◌-◌, ◌≤◌, ◌<◌, ◌≡◌, ◌⊎◌, inl, inr, refl, sym, subst, ◌∙◌, Str, true, false, not, some, List,
  [], ◌∷◌, ◌++◌, In, All, length, In-filter_of, eq_nat, nat_beq, nat_beq_iff, if◌then◌else◌,
  str_beq, str_beq_refl, Bool-cases, arith,
}
use model_switch.Base.Map
use model_switch.Base.Map.{
  Map, remove, contains_key, Unique, insert-Unique, remove-Unique, get-remove, get-insert_self,
}
use model_switch.RequestCache.{
  CacheEntry, RequestCache, can_read, can_write, has_expired, get, insert, without,
}
use model_switch.RequestCache.Evict.{IsCovered, evict-Kept, evict-last}

pub record IsCache (cache : RequestCache) : Type 0 where
  pub covered : IsCovered cache.entries cache.order
  pub unique : Unique cache.entries
  pub bounded : length cache.entries ≤ cache.max_entries

In-append_last : (order : List ℕ) (key : ℕ) → In key (order ++ key ∷ [])
In-append_last [] key = inl refl
In-append_last (k ∷ order) key = inr (In-append_last order key)

In-append_left : (order : List ℕ) (key j : ℕ) → In j order → In j (order ++ key ∷ [])
In-append_left (k ∷ order) key j (inl e) = inl e
In-append_left (k ∷ order) key j (inr m) = inr (In-append_left order key j m)
In-append_left [] key j m = absurd m

-- A place that is not the key's own stays, when the key moves to the end.
In-moved : (order : List ℕ) (key j : ℕ) → In j order → In j (without key order ++ key ∷ [])
unfolding without
In-moved order key j m = elim (Bool-cases (nat_beq j key)) [
  | inl same ↦
      subst (λ z. In z (without key order ++ key ∷ [])) (sym ((nat_beq_iff j key).0 same))
        (In-append_last _ key)
  | inr other ↦
      In-append_left (without key order) key j
        (In-filter_of (λ k. not (nat_beq k key)) order m (rw other))
]

moved-IsCovered :
    (entries : Map ℕ CacheEntry) (order : List ℕ) (key : ℕ)
    → IsCovered entries order
    → IsCovered entries (without key order ++ key ∷ [])
moved-IsCovered [] order key c = tt
moved-IsCovered (e ∷ entries) order key c =
    (In-moved order key e.0 c.0, moved-IsCovered entries order key c.1)

longer-IsCovered :
    (entries : Map ℕ CacheEntry) (order : List ℕ) (key : ℕ)
    → IsCovered entries order
    → IsCovered entries (order ++ key ∷ [])
longer-IsCovered [] order key c = tt
longer-IsCovered (e ∷ entries) order key c =
    (In-append_left order key e.0 c.0, longer-IsCovered entries order key c.1)

insert-IsCovered :
    (entries : Map ℕ CacheEntry) (order : List ℕ) (key : ℕ) (x : CacheEntry)
    → In key order
    → IsCovered entries order
    → IsCovered (Map.insert key x entries) order
unfolding Map.insert
insert-IsCovered [] order key x m c = (m, tt)
insert-IsCovered ((j, y) ∷ entries) order key x m c = elim (Bool-cases (nat_beq j key)) [
  | inl same ↦ rw same (m, c.1)
  | inr other ↦ rw other (c.0, insert-IsCovered entries order key x m c.1)
]

abbrev order_before : ℕ → RequestCache → List ℕ
order_before key cache =
    if contains_key cache.entries key then without key cache.order else cache.order

order-IsCovered :
    (key : ℕ) (cache : RequestCache)
    → IsCovered cache.entries cache.order
    → IsCovered cache.entries (order_before key cache ++ key ∷ [])
order-IsCovered key cache c = elim (Bool-cases (contains_key cache.entries key)) [
  | inl held ↦ rw held (moved-IsCovered cache.entries cache.order key c)
  | inr new ↦ rw new (longer-IsCovered cache.entries cache.order key c)
]

-- Inserting in a well-formed cache, in any mode, keeps it well formed: no more entries than its
-- capacity, one for a key, and each with a place in the order by which the oldest is evicted.
pub insert-IsCache :
    (now key : ℕ) (key_material body : Str) (cache : RequestCache)
    → IsCache cache
    → IsCache (insert now key key_material body cache)
unfolding insert
insert-IsCache now key key_material body cache w = elim (Bool-cases (can_write cache.mode)) [
  | inr closed ↦ rw closed w
  | inl writes ↦
      let x : CacheEntry = record {
        response_body = body;
        cached_at = now;
        key_material = key_material;
      } in
      let entries = Map.insert key x cache.entries in
      let order = order_before key cache ++ key ∷ [] in
      let (c, u, b) =
        evict-Kept cache.max_entries entries order
          (insert-IsCovered cache.entries order key x (In-append_last (order_before key cache) key)
            (order-IsCovered key cache w.covered))
          (insert-Unique key x cache.entries w.unique) in
      rw writes (record { covered = c; unique = u; bounded = b })
]

All-without : (key : ℕ) (order : List ℕ) → All (λ k. nat_beq k key ≡ false) (without key order)
unfolding without
All-without key [] = tt
All-without key (k ∷ order) = ground (arith, All-without key order)

-- A key without an entry has no place in the order.
abbrev pub IsPlaced : ℕ → RequestCache → Type 0
IsPlaced key cache =
    (contains_key cache.entries key ≡ true) ⊎ All (λ k. nat_beq k key ≡ false) cache.order

order_before-All :
    (key : ℕ) (cache : RequestCache)
    → IsPlaced key cache
    → All (λ k. nat_beq k key ≡ false) (order_before key cache)
order_before-All key cache p = elim (Bool-cases (contains_key cache.entries key)) [
  | inl held ↦ rw held (All-without key cache.order)
  | inr new ↦ elim p [ inl held ↦ cc | inr free ↦ rw new free ]
]

get-entry :
    (later key : ℕ) (key_material : Str) (cache : RequestCache) (x : CacheEntry)
    → can_read cache.mode ≡ true
    → Map.get cache.entries key ≡ some x
    → later - x.cached_at < cache.ttl
    → x.key_material ≡ key_material
    → get later key key_material cache ≡ some x.response_body
unfolding get
get-entry later key key_material cache x r g t m =
    let fresh : has_expired later cache.ttl x ≡ false = ground arith in
    let same : str_beq x.key_material key_material ≡ true = rw m (str_beq_refl key_material) in
    rw (r, g, fresh, same)

-- A response that is written is read back, for the same key and the same text, until its time is
-- over: the eviction that follows takes older entries only. The cache reads and writes, has room for
-- an entry, and its key has no place in the order without an entry.
pub get-insert_kept :
    (now later key : ℕ) (key_material body : Str) (cache : RequestCache)
    → IsCache cache
    → IsPlaced key cache
    → can_read cache.mode ≡ true
    → can_write cache.mode ≡ true
    → 1 ≤ cache.max_entries
    → later - now < cache.ttl
    → get later key key_material (insert now key key_material body cache) ≡ some body
unfolding insert
get-insert_kept now later key key_material body cache w p r writes l t =
    let x : CacheEntry = record {
      response_body = body;
      cached_at = now;
      key_material = key_material;
    } in
    let entries = Map.insert key x cache.entries in
    let order = order_before key cache in
    let found =
      evict-last cache.max_entries entries order key l
        (insert-IsCovered cache.entries (order ++ key ∷ []) key x (In-append_last order key)
          (order-IsCovered key cache w.covered))
        (insert-Unique key x cache.entries w.unique) (order_before-All key cache p)
      ∙ get-insert_self cache.entries key x in
    rw writes (get-entry later key key_material _ x r found t refl)
