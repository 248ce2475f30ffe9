-- ===== src/RequestCache.antt =====
-- src-tauri/src/proxy/cache.rs: the cache of responses, by a hash of the request. The hash and the
-- text that it is made of, which `compute_key` gives, are arguments; `lower` is `str::to_lowercase`.
pub mod Evict
pub mod Capacity
pub mod InFlight
mod Tests
use model_switch.Base.{
  Str, ℕ, ◌-◌, ◌≤◌, Bool, true, false, not, Option, none, some, List, [], ◌∷◌, ◌++◌, eq_nat,
  str_beq, nat_beq, if◌then◌else◌, leb, ltb, length, filter, map, bytes, eq_str, is_some,
}
use model_switch.Base.Map
use model_switch.Base.Map.{Map, contains_key, remove}

pub data CacheMode : Type 0 where
  on off read_only write_only : CacheMode

unfoldable pub can_read : CacheMode → Bool
can_read on = true
can_read off = false
can_read read_only = true
can_read write_only = false

unfoldable pub can_write : CacheMode → Bool
can_write on = true
can_write off = false
can_write read_only = false
can_write write_only = true

-- The arms of `parse_mode`.
abbrev modes : Map Str CacheMode
modes =
    (bytes "off", off)
    ∷ (bytes "disabled", off)
    ∷ (bytes "false", off)
    ∷ (bytes "readonly", read_only)
    ∷ (bytes "read-only", read_only)
    ∷ (bytes "ro", read_only)
    ∷ (bytes "writeonly", write_only)
    ∷ (bytes "write-only", write_only)
    ∷ (bytes "wo", write_only)
    ∷ []

unfoldable pub parse_mode : (Str → Str) → Str → CacheMode
parse_mode lower s = elim (Map.get modes (lower s)) [ some mode ↦ mode | none ↦ on ]

pub record CacheEntry : Type 0 where
  pub response_body : Str
  pub cached_at : ℕ
  pub key_material : Str

pub record RequestCache : Type 0 where
  pub entries : Map ℕ CacheEntry
  pub order : List ℕ
  pub ttl : ℕ
  pub max_entries : ℕ
  pub mode : CacheMode

unfoldable pub new : ℕ → ℕ → CacheMode → RequestCache
new ttl max_entries mode = record {
  entries = [];
  order = [];
  ttl = ttl;
  max_entries = max_entries;
  mode = mode;
}

-- `cached_at.elapsed() >= ttl`
abbrev pub has_expired : ℕ → ℕ → CacheEntry → Bool
has_expired now ttl entry = leb ttl (now - entry.cached_at)

abbrev pub answer : ℕ → ℕ → Str → Option CacheEntry → Option Str
answer now ttl key_material none = none
answer now ttl key_material (some entry) =
    if has_expired now ttl entry
    then none
    else if str_beq entry.key_material key_material
    then some entry.response_body
    else none

unfoldable pub get : ℕ → ℕ → Str → RequestCache → Option Str
get now key key_material cache =
    if can_read cache.mode
    then answer now cache.ttl key_material (Map.get cache.entries key)
    else none

-- `order.retain(|k| *k != key)`
unfoldable pub without : ℕ → List ℕ → List ℕ
without key order = filter (λ k. not (nat_beq k key)) order

-- The loop that evicts the oldest: the entries, and the order.
unfoldable pub evict : ℕ → Map ℕ CacheEntry → List ℕ → Map ℕ CacheEntry × List ℕ
evict max_entries entries [] = (entries, [])
evict max_entries entries (old_key ∷ order) =
    let later = evict max_entries (remove old_key entries) order in
    if ltb max_entries (length entries) then later else (entries, old_key ∷ order)

unfoldable pub insert : ℕ → ℕ → Str → Str → RequestCache → RequestCache
insert now key key_material response_body cache =
    let entry : CacheEntry = record {
      response_body = response_body;
      cached_at = now;
      key_material = key_material;
    } in
    let order = if contains_key cache.entries key then without key cache.order else cache.order in
    let kept = evict cache.max_entries (Map.insert key entry cache.entries) (order ++ key ∷ []) in
    if can_write cache.mode then record cache { entries = kept.0; order = kept.1 } else cache

abbrev pub expired_keys : ℕ → ℕ → Map ℕ CacheEntry → List ℕ
expired_keys now ttl entries = Map.keys (filter (λ e. has_expired now ttl e.1) entries)

unfoldable pub remove_keys : List ℕ → Map ℕ CacheEntry → List ℕ → Map ℕ CacheEntry × List ℕ
remove_keys [] entries order = (entries, order)
remove_keys (k ∷ ks) entries order = remove_keys ks (remove k entries) (without k order)

unfoldable pub sweep_expired : ℕ → RequestCache → RequestCache × ℕ
sweep_expired now cache =
    let kept = remove_keys (expired_keys now cache.ttl cache.entries) cache.entries cache.order in
    (record cache { entries = kept.0; order = kept.1 }, length cache.entries - length kept.0)

unfoldable pub flush : RequestCache → RequestCache
flush cache = record cache { entries = []; order = [] }

unfoldable pub set_mode : CacheMode → RequestCache → RequestCache
set_mode mode cache = record cache { mode = mode }
