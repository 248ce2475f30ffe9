-- ===== src/Manager/Breaker.antt =====
-- The circuit breakers of all channels under every operation of the manager.
use model_switch.Base.{
  some_inj, Str, ℕ, ◌≡◌, refl, Option, none, some, Bool, true, false, List, [], ◌∷◌, eq_nat, ◌==◌,
  arith, if◌then◌else◌, Bool-cases, inl, inr, All, subst,
}
use model_switch.Base.Map.{
  Map, get, insert, remove, modify, contains_key, get-insert, get-remove, get-modify, map_some,
  get-nil,
}
use model_switch.F64.{Floats}
use model_switch.Channel
use model_switch.Channel.{Channel, circuit_open}
use model_switch.Channel.Circuit.{IsWellFormed, mark_circuit_open-IsWellFormed}
use model_switch.Manager.{
  ChannelManager, fail_channel, succeed_channel, recover_channel, mark_circuit_open,
  mark_circuit_open_with_retry, mark_model_rate_limited, clean_expired_model_cooldowns, map_values,
  get_credential, record_latency, force_recover, create, update, delete, replace_all,
  collect_channels, set_disable_cooling,
}

-- The calls that change the manager, with the time that they read.
pub data Event : Type 0 where
  fail : ℕ → ℕ → Event
  fail_with_retry : ℕ → ℕ → Option ℕ → Event
  rate_limit : ℕ → ℕ → Str → Option ℕ → Event
  clean : ℕ → Event
  credential : ℕ → Event
  succeed : ℕ → ℕ → ℕ → Event
  recover : ℕ → ℕ → Event
  add : Channel → Event
  edit : ℕ → Channel → Event
  drop : ℕ → Event
  replace : List Channel → Event
  cooling : Bool → Event

module _ (f : Floats) (stored : Str → Option Str) where
  unfoldable pub apply : Event → ChannelManager → ChannelManager
  apply (fail now id) m = mark_circuit_open now id m
  apply (fail_with_retry now id secs) m = mark_circuit_open_with_retry now id secs m
  apply (rate_limit now id model secs) m = mark_model_rate_limited now id model secs m
  apply (clean now) m = clean_expired_model_cooldowns now m
  apply (credential id) m = (get_credential stored id m).0
  apply (succeed now id latency_ms) m = record_latency f now id latency_ms m
  apply (recover now id) m = force_recover now id m
  apply (add c) m = create c m
  apply (edit id c) m = (update id c m).0
  apply (drop id) m = (delete id m).0
  apply (replace cs) m = replace_all cs m
  apply (cooling value) m = set_disable_cooling value m

  unfoldable pub run : List Event → ChannelManager → ChannelManager
  run [] m = m
  run (e ∷ es) m = run es (apply e m)

-- Every channel with an open breaker has an expiry.
pub record IsSound (channels : Map ℕ Channel) : Type 0 where
  pub at : (id : ℕ) (c : Channel) → get channels id ≡ some c → IsWellFormed c

-- The channels that an event brings in from outside are well formed.
abbrev pub BringsSound : Event → Type 0
BringsSound (add c) = IsWellFormed c
BringsSound (edit id c) = IsWellFormed c
BringsSound (replace cs) = All IsWellFormed cs
BringsSound _ = Unit

abbrev Keeps : (Channel → Channel) → Type 0
Keeps g = (c : Channel) → IsWellFormed c → IsWellFormed (g c)

map_some_sound :
    (g : Channel → Channel) (o : Option Channel)
    → Keeps g
    → ((c : Channel) → o ≡ some c → IsWellFormed c)
    → (c : Channel) → map_some g o ≡ some c
    → IsWellFormed c
map_some_sound g none k h c e = cc
map_some_sound g (some d) k h c e = subst IsWellFormed (some_inj e) (k d (h d refl))

modify-IsSound :
    (id : ℕ) (g : Channel → Channel) {m : Map ℕ Channel}
    → Keeps g
    → IsSound m
    → IsSound (modify id g m)
modify-IsSound id g {m} k s = record {
  at = λ j c e. elim (Bool-cases (id == j)) [
    | inl here ↦ map_some_sound g (get m j) k (s.at j) c (rw (get-modify, here) at e)
    | inr other ↦ s.at j c (rw (get-modify, other) at e)
  ];
}

insert-IsSound :
    (id : ℕ) (d : Channel) {m : Map ℕ Channel}
    → IsWellFormed d
    → IsSound m
    → IsSound (insert id d m)
insert-IsSound id d {m} w s = record {
  at = λ j c e. elim (Bool-cases (id == j)) [
    | inl here ↦ subst IsWellFormed (some_inj (rw (get-insert, here) at e)) w
    | inr other ↦ s.at j c (rw (get-insert, other) at e)
  ];
}

remove-IsSound : (id : ℕ) {m : Map ℕ Channel} → IsSound m → IsSound (remove id m)
remove-IsSound id {m} s = record {
  at = λ j c e. elim (Bool-cases (id == j)) [
    | inl here ↦ absurd (cc (rw (get-remove, here) at e))
    | inr other ↦ s.at j c (rw (get-remove, other) at e)
  ];
}

pub get-map_values :
    (g : Channel → Channel) (m : Map ℕ Channel) (j : ℕ)
    → get (map_values g m) j ≡ map_some g (get m j)
unfolding get
get-map_values g [] j = refl
get-map_values g ((i, c) ∷ m) j = ground (arith, get-map_values g m j)

map_values-IsSound :
    (g : Channel → Channel) {m : Map ℕ Channel} → Keeps g → IsSound m → IsSound (map_values g m)
map_values-IsSound g {m} k s = record {
  at = λ j c e. map_some_sound g (get m j) k (s.at j) c (rw get-map_values at e);
}

collect-IsSound :
    (cs : List Channel) {m : Map ℕ Channel}
    → All IsWellFormed cs
    → IsSound m
    → IsSound (collect_channels cs m)
unfolding collect_channels
collect-IsSound [] w s = s
collect-IsSound (c ∷ cs) {m} w s =
    collect-IsSound cs {m = insert c.id c m} w.1 (insert-IsSound c.id c w.0 s)

fail_channel-Keeps : (now : ℕ) (m : ChannelManager) → Keeps (fail_channel now m)
unfolding fail_channel
fail_channel-Keeps now m c w = record { expiry = ground (arith, w.expiry) }

succeed_channel-Keeps : (f : Floats) (now latency_ms : ℕ) → Keeps (succeed_channel f now latency_ms)
unfolding succeed_channel
succeed_channel-Keeps f now latency_ms c w = record { expiry = ground (arith, w.expiry) }

recover_channel-Keeps : (now : ℕ) → Keeps (recover_channel now)
unfolding recover_channel
recover_channel-Keeps now c w = record { expiry = λ e. cc }

rate_limited-Keeps :
    (now : ℕ) (model : Str) (secs : Option ℕ)
    → Keeps (Channel.mark_model_rate_limited now model secs)
unfolding Channel.mark_model_rate_limited
rate_limited-Keeps now model secs c w = record { expiry = w.expiry }

clean-Keeps : (now : ℕ) → Keeps (Channel.clean_expired_model_cooldowns now)
unfolding Channel.clean_expired_model_cooldowns
clean-Keeps now c w = record { expiry = w.expiry }

opened-Keeps : (now mins : ℕ) → Keeps (Channel.mark_circuit_open now mins)
opened-Keeps now mins c w = mark_circuit_open-IsWellFormed c now mins

if-IsSound :
    (b : Bool) (m n : ChannelManager)
    → IsSound m.channels
    → IsSound n.channels
    → IsSound (if b then m else n).channels
if-IsSound true m n s t = s
if-IsSound false m n s t = t

if_pair-IsSound :
    (b : Bool) (r t : ChannelManager × Option Channel)
    → IsSound r.0.channels
    → IsSound t.0.channels
    → IsSound (if b then r else t).0.channels
if_pair-IsSound true r t h k = h
if_pair-IsSound false r t h k = k

pub channels-get_credential :
    (stored : Str → Option Str) (id : ℕ) (m : ChannelManager)
    → (get_credential stored id m).0.channels ≡ m.channels
unfolding get_credential
channels-get_credential stored id m = ground arith

module _ (f : Floats) (stored : Str → Option Str) where
  apply-IsSound :
      (e : Event) (m : ChannelManager)
      → BringsSound e
      → IsSound m.channels
      → IsSound (apply f stored e m).channels
  unfolding apply mark_circuit_open mark_circuit_open_with_retry mark_model_rate_limited
      clean_expired_model_cooldowns record_latency force_recover create update delete replace_all
      set_disable_cooling
  apply-IsSound (fail now id) m b s = modify-IsSound id _ (fail_channel-Keeps now m) s
  apply-IsSound (fail_with_retry now id secs) m b s =
      if-IsSound m.disable_cooling _ _ s (modify-IsSound id _ (opened-Keeps now _) s)
  apply-IsSound (rate_limit now id model secs) m b s =
      if-IsSound m.disable_cooling _ _ s (modify-IsSound id _ (rate_limited-Keeps now model secs) s)
  apply-IsSound (clean now) m b s = map_values-IsSound _ (clean-Keeps now) s
  apply-IsSound (credential id) m b s = rw channels-get_credential s
  apply-IsSound (succeed now id latency_ms) m b s =
      modify-IsSound id _ (succeed_channel-Keeps f now latency_ms) s
  apply-IsSound (recover now id) m b s = modify-IsSound id _ (recover_channel-Keeps now) s
  apply-IsSound (add c) m b s = insert-IsSound c.id c b s
  apply-IsSound (edit id c) m b s =
      if_pair-IsSound (contains_key m.channels id) _ _ (insert-IsSound id c b s) s
  apply-IsSound (drop id) m b s = remove-IsSound id s
  apply-IsSound (replace cs) m b s =
      collect-IsSound cs b (record { at = λ j c e. cc (get-nil {V = Channel} j) })
  apply-IsSound (cooling value) m b s = s

  -- Whatever calls are made, in whatever order, every channel with an open breaker has an expiry,
  -- provided that the channels brought in from outside have one.
  pub run-IsSound :
      (es : List Event) (m : ChannelManager)
      → All BringsSound es
      → IsSound m.channels
      → IsSound (run f stored es m).channels
  unfolding run
  run-IsSound [] m b s = s
  run-IsSound (e ∷ es) m b s = run-IsSound es (apply f stored e m) b.1 (apply-IsSound e m b.0 s)
