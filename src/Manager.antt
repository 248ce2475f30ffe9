-- ===== src/Manager.antt =====
-- `ChannelManager` of src-tauri/src/channel/manager.rs: the channels by id, the circuit-breaker
-- writes on them, and the rotation of keys. Each method is one atomic step on the state.
pub mod Backoff
pub mod Repeated
pub mod Rotation
pub mod Breaker
pub mod Dispatch
mod Tests
use model_switch.Base.{
  Str, ℕ, ◌+◌, ◌/◌, ◌%◌, min, max, ◌==◌, eq_nat, eq_str, nat_beq, if◌then◌else◌, Bool, ◌||◌, Option,
  none, some, List, [], ◌∷◌, ◌++◌, is_empty, length, get_elem?, map, wrapping_add_u32, as_u32,
  saturating_mul_u32, saturating_pow_u32, saturating_sub,
}
use model_switch.Base.Map.{Map, get, insert, remove, modify, contains_key, values}
use model_switch.Channel
use model_switch.Channel.{Channel, healthy, all_keys, recover_if_expired, recover_to_healthy}
use model_switch.F64.{Floats}

pub record ChannelManager : Type 0 where
  pub channels : Map ℕ Channel
  pub circuit_breaker_minutes : ℕ
  pub key_indices : Map ℕ ℕ
  pub disable_cooling : Bool

-- What a call that may panic comes back with.
pub data Outcome {ℓ} (A : Type ℓ) : Type ℓ where
  returned : A → Outcome A
  panicked : Outcome A

abbrev pub unwrap_or {ℓ} : {A : Type ℓ} → Option A → A → A
unwrap_or none d = d
unwrap_or (some a) d = a

pub set_disable_cooling : Bool → ChannelManager → ChannelManager
set_disable_cooling value m = record m { disable_cooling = value }

pub list : ℕ → ChannelManager → List Channel
list now m = map (recover_if_expired now) (values m.channels)

pub get_channel : ChannelManager → ℕ → Option Channel
get_channel m id = get m.channels id

pub create : Channel → ChannelManager → ChannelManager
create c m = record m { channels = insert c.id c m.channels }

pub update : ℕ → Channel → ChannelManager → ChannelManager × Option Channel
update id updated m =
    if contains_key m.channels id
    then (record m { channels = insert id updated m.channels }, some updated)
    else (m, none)

pub delete : ℕ → ChannelManager → ChannelManager × Bool
delete id m = (record m { channels = remove id m.channels }, contains_key m.channels id)

-- 1x, 2x, 4x, 8x ... of the base, in `u32` arithmetic, and at most 30 minutes.
pub backoff_minutes : ℕ → ℕ → ℕ
backoff_minutes base_minutes failures =
    min
      (saturating_mul_u32 (as_u32 base_minutes) (saturating_pow_u32 2 (saturating_sub failures 1)))
      30

-- The body of `mark_circuit_open` on the channel that the id names.
pub fail_channel : ℕ → ChannelManager → Channel → Channel
unfolding Channel.mark_circuit_open
fail_channel now m c =
    let failures = wrapping_add_u32 c.consecutive_failures 1 in
    let counted : Channel = record c { consecutive_failures = failures } in
    let base_minutes = unwrap_or c.cooldown_minutes m.circuit_breaker_minutes in
    if m.disable_cooling
    then counted
    else Channel.mark_circuit_open now (backoff_minutes base_minutes failures) counted

pub mark_circuit_open : ℕ → ℕ → ChannelManager → ChannelManager
unfolding fail_channel
mark_circuit_open now id m = record m { channels = modify id (fail_channel now m) m.channels }

abbrev pub retry_minutes : Option ℕ → ℕ → ℕ
retry_minutes none default_minutes = default_minutes
retry_minutes (some s) default_minutes = max (s / 60) 1

pub mark_circuit_open_with_retry : ℕ → ℕ → Option ℕ → ChannelManager → ChannelManager
unfolding Channel.mark_circuit_open
mark_circuit_open_with_retry now id retry_after_secs m =
    let duration_mins = retry_minutes retry_after_secs m.circuit_breaker_minutes in
    if m.disable_cooling
    then m
    else record m { channels = modify id (Channel.mark_circuit_open now duration_mins) m.channels }

pub mark_model_rate_limited : ℕ → ℕ → Str → Option ℕ → ChannelManager → ChannelManager
unfolding Channel.mark_model_rate_limited
mark_model_rate_limited now id model retry_after_secs m =
    if m.disable_cooling then m else record m {
      channels = modify id (Channel.mark_model_rate_limited now model retry_after_secs) m.channels;
    }

abbrev pub map_values : (Channel → Channel) → Map ℕ Channel → Map ℕ Channel
map_values f [] = []
map_values f ((k, c) ∷ m) = (k, f c) ∷ map_values f m

pub clean_expired_model_cooldowns : ℕ → ChannelManager → ChannelManager
unfolding Channel.clean_expired_model_cooldowns
clean_expired_model_cooldowns now m = record m {
  channels = map_values (Channel.clean_expired_model_cooldowns now) m.channels;
}

-- The key at an index of the rotation; the index of a slice is checked.
unfoldable pub key_at : List Str → ℕ → Outcome (Option Str)
key_at keys i = elim (get_elem? keys i) [ some key ↦ returned (some key) | none ↦ panicked ]

abbrev pub or_else : Option Str → Option Str → Option Str
or_else none other = other
or_else (some key) other = some key

-- `get_credential`: `stored` is what the credential store has under the channel's `key_ref`.
unfoldable pub channel_credential :
    (Str → Option Str) → ℕ → ChannelManager → Channel → ChannelManager × Outcome (Option Str)
unfolding key_at
channel_credential stored id m c =
    let keys = all_keys c in
    let current = unwrap_or (get m.key_indices id) 0 in
    let primary = c.credential.inline_key in
    if is_empty c.api_keys || is_empty keys
    then (m, returned (or_else primary (stored c.credential.key_ref)))
    else (
      record m { key_indices = insert id ((current + 1) % length keys) m.key_indices },
      key_at keys current,
    )

unfoldable pub get_credential :
    (Str → Option Str) → ℕ → ChannelManager → ChannelManager × Outcome (Option Str)
unfolding channel_credential
get_credential stored id m = elim (get m.channels id) [
  | none ↦ (m, returned none)
  | some c ↦ channel_credential stored id m c
]

-- The moving average of `record_latency`, in `f64`.
pub moving_average : Floats → ℕ → ℕ → ℕ
moving_average f average latency_ms =
    if average == 0
    then latency_ms
    else f.to_u64 (
        f.add (f.mul (f.of_u64 average) (f.literal 7 1))
          (f.mul (f.of_u64 latency_ms) (f.literal 3 1)))

pub succeed_channel : Floats → ℕ → ℕ → Channel → Channel
unfolding moving_average recover_to_healthy
succeed_channel f now latency_ms c = recover_to_healthy now (record c {
  avg_latency_ms = moving_average f c.avg_latency_ms latency_ms;
  consecutive_failures = 0;
})

pub record_latency : Floats → ℕ → ℕ → ℕ → ChannelManager → ChannelManager
unfolding succeed_channel
record_latency f now id latency_ms m = record m {
  channels = modify id (succeed_channel f now latency_ms) m.channels;
}

pub recover_channel : ℕ → Channel → Channel
recover_channel now c = record c {
  status = healthy;
  circuit_open_until = none;
  consecutive_failures = 0;
  updated_at = now;
}

pub force_recover : ℕ → ℕ → ChannelManager → ChannelManager
unfolding recover_channel
force_recover now id m = record m { channels = modify id (recover_channel now) m.channels }

-- A later channel of the list replaces an earlier one with its id, as `collect` does.
pub collect_channels : List Channel → Map ℕ Channel → Map ℕ Channel
collect_channels [] m = m
collect_channels (c ∷ cs) m = collect_channels cs (insert c.id c m)

pub replace_all : List Channel → ChannelManager → ChannelManager
unfolding collect_channels
replace_all new_channels m = record m { channels = collect_channels new_channels [] }
