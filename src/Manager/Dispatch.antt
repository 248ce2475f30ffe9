-- ===== src/Manager/Dispatch.antt =====
-- What the calls that dispatching a request makes can do to an open breaker. `record_latency` is meant
-- to close the breaker of a channel that answered, by `recover_to_healthy`; but that asks for the
-- stored status `HalfOpen`, and `recover_if_expired` only ever writes that to copies.
use model_switch.Base.{
  Str, ℕ, ◌≡◌, refl, Option, none, some, Bool, true, false, List, [], ◌∷◌, eq_nat, ◌==◌, arith, All,
  Bool-cases, inl, inr, if◌then◌else◌,
}
use model_switch.Base.Map.{Map, get, modify, get-modify, beq_refl}
use model_switch.F64.{Floats}
use model_switch.Channel
use model_switch.Channel.{Channel, circuit_open, healthy}
use model_switch.Manager.{
  ChannelManager, fail_channel, succeed_channel, mark_circuit_open, mark_circuit_open_with_retry,
  mark_model_rate_limited, clean_expired_model_cooldowns, map_values, record_latency, force_recover,
  retry_minutes,
}
use model_switch.Manager.Breaker.{
  Event, fail, fail_with_retry, rate_limit, clean, credential, succeed, apply, run, get-map_values,
  channels-get_credential,
}

-- The calls that the proxy makes while it dispatches requests.
abbrev pub IsDispatch : Event → Type 0
IsDispatch (fail now id) = Unit
IsDispatch (fail_with_retry now id secs) = Unit
IsDispatch (rate_limit now id model secs) = Unit
IsDispatch (clean now) = Unit
IsDispatch (credential id) = Unit
IsDispatch (succeed now id latency_ms) = Unit
IsDispatch _ = ⊥

-- The channel is known and its stored status is that of an open breaker.
pub record IsOpen (channels : Map ℕ Channel) (id : ℕ) : Type 0 where
  pub channel : Channel
  pub known : get channels id ≡ some channel
  pub open_status : channel.status ≡ circuit_open

abbrev KeepsOpen : (Channel → Channel) → Type 0
KeepsOpen g = (c : Channel) → c.status ≡ circuit_open → (g c).status ≡ circuit_open

modify-IsOpen :
    (i id : ℕ) (g : Channel → Channel) (m : Map ℕ Channel)
    → KeepsOpen g
    → IsOpen m id
    → IsOpen (modify i g m) id
modify-IsOpen i id g m k s = elim (Bool-cases (i == id)) [
  | inl here ↦ record {
    channel = g s.channel;
    known = rw (get-modify, here, s.known);
    open_status = k s.channel s.open_status;
  }
  | inr other ↦ record {
    channel = s.channel;
    known = rw (get-modify, other, s.known);
    open_status = s.open_status;
  }
]

map_values-IsOpen :
    (id : ℕ) (g : Channel → Channel) (m : Map ℕ Channel)
    → KeepsOpen g
    → IsOpen m id
    → IsOpen (map_values g m) id
map_values-IsOpen id g m k s = record {
  channel = g s.channel;
  known = rw (get-map_values, s.known);
  open_status = k s.channel s.open_status;
}

fail_channel-KeepsOpen : (now : ℕ) (m : ChannelManager) → KeepsOpen (fail_channel now m)
unfolding fail_channel
fail_channel-KeepsOpen now m c e = ground arith

succeed_channel-KeepsOpen :
    (f : Floats) (now latency_ms : ℕ) → KeepsOpen (succeed_channel f now latency_ms)
unfolding succeed_channel
succeed_channel-KeepsOpen f now latency_ms c e = ground arith

opened-KeepsOpen : (now mins : ℕ) → KeepsOpen (Channel.mark_circuit_open now mins)
unfolding Channel.mark_circuit_open
opened-KeepsOpen now mins c e = refl

rate_limited-KeepsOpen :
    (now : ℕ) (model : Str) (secs : Option ℕ)
    → KeepsOpen (Channel.mark_model_rate_limited now model secs)
unfolding Channel.mark_model_rate_limited
rate_limited-KeepsOpen now model secs c e = e

clean-KeepsOpen : (now : ℕ) → KeepsOpen (Channel.clean_expired_model_cooldowns now)
unfolding Channel.clean_expired_model_cooldowns
clean-KeepsOpen now c e = e

if-IsOpen :
    (b : Bool) (m n : ChannelManager) (id : ℕ)
    → IsOpen m.channels id
    → IsOpen n.channels id
    → IsOpen (if b then m else n).channels id
if-IsOpen true m n id s t = s
if-IsOpen false m n id s t = t

module _ (f : Floats) (stored : Str → Option Str) (id : ℕ) where
  apply-IsOpen :
      (e : Event) (m : ChannelManager)
      → IsDispatch e
      → IsOpen m.channels id
      → IsOpen (apply f stored e m).channels id
  unfolding apply mark_circuit_open mark_circuit_open_with_retry mark_model_rate_limited
      clean_expired_model_cooldowns record_latency
  apply-IsOpen (fail now i) m b s = modify-IsOpen i id _ m.channels (fail_channel-KeepsOpen now m) s
  apply-IsOpen (fail_with_retry now i secs) m b s = if-IsOpen m.disable_cooling _ _ id s (
      modify-IsOpen i id _ m.channels
        (opened-KeepsOpen now (retry_minutes secs m.circuit_breaker_minutes)) s)
  apply-IsOpen (rate_limit now i model secs) m b s =
      if-IsOpen m.disable_cooling _ _ id s
        (modify-IsOpen i id _ m.channels (rate_limited-KeepsOpen now model secs) s)
  apply-IsOpen (clean now) m b s = map_values-IsOpen id _ m.channels (clean-KeepsOpen now) s
  apply-IsOpen (credential i) m b s = rw channels-get_credential s
  apply-IsOpen (succeed now i latency_ms) m b s =
      modify-IsOpen i id _ m.channels (succeed_channel-KeepsOpen f now latency_ms) s
  apply-IsOpen _ m b s = absurd b

  -- However many requests are dispatched, and succeed, a breaker whose stored status is open stays
  -- open: no failure, success, rate limit, cleaning or credential lookup closes it.
  pub run-IsOpen :
      (es : List Event) (m : ChannelManager)
      → All IsDispatch es
      → IsOpen m.channels id
      → IsOpen (run f stored es m).channels id
  unfolding run
  run-IsOpen [] m b s = s
  run-IsOpen (e ∷ es) m b s = run-IsOpen es (apply f stored e m) b.1 (apply-IsOpen e m b.0 s)

-- A forced recovery closes the breaker of the channel that it names, whatever its state.
pub force_recover-closes :
    (m : ChannelManager) (now id : ℕ) (c : Channel)
    → get m.channels id ≡ some c
    → get (force_recover now id m).channels id
      ≡ some (record c {
        status = healthy;
        circuit_open_until = none;
        consecutive_failures = 0;
        updated_at = now;
      })
unfolding force_recover
force_recover-closes m now id c e = rw (get-modify, beq_refl id, e)
