-- ===== src/Router/Affinity.antt =====
-- src-tauri/src/router/affinity.rs: the channel that a session was last served by. The identifier of a
-- session, which `extract_session_id` takes from the headers and the body, is an argument.
pub mod Order
pub mod Capacity
use model_switch.Base.{
  Str, ℕ, ◌+◌, ◌-◌, ◌%◌, ◌^◌, Bool, true, false, not, Option, none, some, List, [], ◌∷◌, eq_str,
  if◌then◌else◌, leb, ltb, length, filter, take, nat_beq,
}
use model_switch.Base.Map.{Map, get, insert, remove}
use model_switch.Base.Sort.{sort_by}

abbrev pub max_entries_default : ℕ
max_entries_default = 10_000

abbrev pub cleanup_interval : ℕ
cleanup_interval = 64

-- The channel, and the time of the last use.
abbrev pub Session : Type 0
Session = ℕ × ℕ

pub record AffinityState : Type 0 where
  pub map : Map Str Session
  pub ttl : ℕ
  pub max_entries : ℕ
  pub set_counter : ℕ

abbrev pub with_options : ℕ → ℕ → AffinityState
with_options ttl max_entries = record {
  map = [];
  ttl = ttl;
  max_entries = max_entries;
  set_counter = 0;
}

-- `last.elapsed() < ttl`
abbrev pub is_fresh : ℕ → ℕ → Session → Bool
is_fresh now ttl s = ltb (now - s.1) ttl

abbrev pub looked_up : ℕ → Str → AffinityState → Option Session → AffinityState × Option ℕ
looked_up now session_id st none = (record st { map = remove session_id st.map }, none)
looked_up now session_id st (some s) =
    if is_fresh now st.ttl s
    then (record st { map = insert session_id (s.0, now) st.map }, some s.0)
    else (record st { map = remove session_id st.map }, none)

-- `get`: a session in use is touched, and an expired one removed.
unfoldable pub get_channel : ℕ → Str → AffinityState → AffinityState × Option ℕ
get_channel now session_id st = looked_up now session_id st (get st.map session_id)

unfoldable pub cleanup_expired : ℕ → AffinityState → AffinityState
cleanup_expired now st = record st {
  map = filter (λ (e : Str × Session). is_fresh now st.ttl e.1) st.map;
}

-- The oldest first.
abbrev pub by_last_used : Str × Session → Str × Session → Bool
by_last_used a b = leb a.1.1 b.1.1

unfoldable pub remove_all : List (Str × Session) → Map Str Session → Map Str Session
remove_all [] m = m
remove_all (e ∷ es) m = remove_all es (remove e.0 m)

unfoldable pub evict_lru : AffinityState → AffinityState
evict_lru st =
    let excess = length st.map - st.max_entries in
    if leb (length st.map) st.max_entries
    then st
    else record st { map = remove_all (take excess (sort_by by_last_used st.map)) st.map }

unfoldable pub set_channel : ℕ → Str → ℕ → AffinityState → AffinityState
set_channel now session_id channel_id st =
    let set_counter = (st.set_counter + 1) % 2 ^ 32 in
    let inserted : AffinityState = record st {
      map = insert session_id (channel_id, now) st.map;
      set_counter = set_counter;
    } in
    evict_lru (
      if nat_beq (set_counter % cleanup_interval) 0 then cleanup_expired now inserted else inserted)
