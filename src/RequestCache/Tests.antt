-- ===== src/RequestCache/Tests.antt =====
-- Runs of the cache, and instances of its theorems.
use model_switch.Base.{◌≡◌, refl, arith, some, [], ◌∷◌, true, bytes, eq_nat, inl, inr}
use model_switch.Base.Map
use model_switch.RequestCache.{
  RequestCache, on, read_only, get, insert, evict, without, parse_mode, can_read, can_write,
  sweep_expired, remove_keys,
}
use model_switch.RequestCache.Capacity.{IsCache, insert-IsCache, get-insert_kept}

-- A cache with room for two, full.
abbrev cache : RequestCache
cache = record {
  entries =
      (1, record { response_body = bytes "a"; cached_at = 0; key_material = bytes "m1" })
      ∷ (2, record { response_body = bytes "b"; cached_at = 5; key_material = bytes "m2" })
      ∷ [];
  order = 1 ∷ 2 ∷ [];
  ttl = 100;
  max_entries = 2;
  mode = on;
}

read_only_mode : parse_mode (λ s. s) (bytes "ro") ≡ read_only
unfolding parse_mode Map.get
read_only_mode = refl

-- The third evicts the first.
oldest_evicted : (insert 10 3 (bytes "m3") (bytes "c") cache).order ≡ 2 ∷ 3 ∷ []
unfolding insert evict Map.insert Map.remove Map.contains_key can_write
oldest_evicted = refl

-- After its time the first is swept.
swept : (sweep_expired 101 cache).1 ≡ 1
unfolding sweep_expired remove_keys Map.remove without
swept = refl

well_formed : IsCache cache
unfolding Map.contains_key
well_formed = record {
  covered = (inl refl, (inr (inl refl), tt));
  unique = (refl, (refl, tt));
  bounded = omega arith;
}

insert-IsCache_example : IsCache (insert 10 3 (bytes "m3") (bytes "c") cache)
insert-IsCache_example = insert-IsCache 10 3 (bytes "m3") (bytes "c") cache well_formed

reads : can_read on ≡ true
unfolding can_read
reads = refl

writes : can_write on ≡ true
unfolding can_write
writes = refl

get-insert_kept_example :
    get 60 3 (bytes "m3") (insert 10 3 (bytes "m3") (bytes "c") cache) ≡ some (bytes "c")
get-insert_kept_example =
    get-insert_kept 10 60 3 (bytes "m3") (bytes "c") cache well_formed (inr (refl, (refl, tt)))
      reads writes (omega arith) (omega arith)
