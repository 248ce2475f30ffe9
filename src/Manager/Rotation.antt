-- ===== src/Manager/Rotation.antt =====
-- The rotation of a channel's keys in `get_credential`.
use native.Mathlib.Nat.{add_assoc, add-zero, mod-eq_of_lt, mod-add-mod, mod-lt}
use native.Mathlib.Numerals.{add-one}
use model_switch.Base.{
  Str, ℕ, zero, suc, ◌+◌, ◌%◌, ◌≤◌, ◌<◌, ◌≡◌, refl, Option, some, false, List, length, get_elem?,
  is_empty, eq_nat, arith, [], ◌∷◌, get_elem?-lt,
}
use model_switch.Base.Map.{get, insert, get-insert, beq_refl, contains_key-get}
use model_switch.Channel.{Channel, all_keys}
use model_switch.Manager.{
  ChannelManager, returned, panicked, unwrap_or, key_at, get_credential, update,
}

-- A channel that rotates: it has additional keys.
pub record Rotates (m : ChannelManager) (id : ℕ) (c : Channel) : Type 0 where
  pub known : get m.channels id ≡ some c
  pub extra : is_empty c.api_keys ≡ false

abbrev pub counter : ChannelManager → ℕ → ℕ
counter m id = unwrap_or (get m.key_indices id) 0

all_keys-nonempty :
    (c : Channel)
    → is_empty c.api_keys ≡ false
    → (is_empty (all_keys c) ≡ false) × (0 < length (all_keys c))
unfolding all_keys
all_keys-nonempty c h = ground arith

pub key_at-beyond : (keys : List Str) (i : ℕ) → length keys ≤ i → key_at keys i ≡ panicked
unfolding key_at
key_at-beyond [] i h = refl
key_at-beyond (k ∷ keys) zero h = absurd (omega arith)
key_at-beyond (k ∷ keys) (suc i) h = key_at-beyond keys i (omega arith)

pub key_at-within :
    (keys : List Str) (i : ℕ)
    → i < length keys
    → (key : Str) × (get_elem? keys i ≡ some key) × (key_at keys i ≡ returned (some key))
unfolding key_at
key_at-within keys i h = let (key, e) = get_elem?-lt keys i h in (key, e, rw (e, key_at))

module _ (stored : Str → Option Str) (id : ℕ) (c : Channel) where
  -- One call on a rotating channel.
  get_credential-step :
      (m : ChannelManager)
      → Rotates m id c
      → get_credential stored id m ≡ (
        record m {
          key_indices = insert id ((counter m id + 1) % length (all_keys c)) m.key_indices;
        },
        key_at (all_keys c) (counter m id),
      )
  unfolding get_credential
  get_credential-step m r =
      rw (r.known, get_credential) (rw (r.extra, (all_keys-nonempty c r.extra).0))

  -- The state after `n` calls.
  pub after_calls : ℕ → ChannelManager → ChannelManager
  after_calls zero m = m
  after_calls (suc n) m = (get_credential stored id (after_calls n m)).0

  after_calls-Rotates :
      (n : ℕ) (m : ChannelManager) → Rotates m id c → Rotates (after_calls n m) id c
  unfolding after_calls
  after_calls-Rotates zero m r = r
  after_calls-Rotates (suc n) m r =
      let r' = after_calls-Rotates n m r in
      rw (get_credential-step (after_calls n m) r', after_calls)
        (record { known = r'.known; extra = r'.extra })

  counter-after_calls :
      (n : ℕ) (m : ChannelManager)
      → Rotates m id c
      → counter m id < length (all_keys c)
      → counter (after_calls n m) id ≡ (counter m id + n) % length (all_keys c)
  unfolding after_calls
  counter-after_calls zero m r h = rw (add-zero, mod-eq_of_lt h)
  counter-after_calls (suc n) m r h =
      rw (get_credential-step (after_calls n m) (after_calls-Rotates n m r), after_calls)
        (rw (get-insert, beq_refl id, counter-after_calls n m r h, mod-add-mod, add_assoc, add-one))

  update-Rotates :
      (m : ChannelManager) {old : Channel}
      → get m.channels id ≡ some old
      → is_empty c.api_keys ≡ false
      → Rotates (update id c m).0 id c
  unfolding update
  update-Rotates m {old} known extra =
      rw (contains_key-get m.channels id known)
        (record { known = rw (get-insert, beq_refl id); extra = extra })

  update-counter : (m : ChannelManager) → counter (update id c m).0 id ≡ counter m id
  unfolding update
  update-counter m = ground arith

  -- Round robin: on a channel with additional keys, call after call returns the keys of the channel
  -- in order, starting from the counter and going round; no call panics, and none asks the store. The
  -- counter is in range, as it is before the first call and after any call.
  pub get_credential-round_robin :
      (n : ℕ) (m : ChannelManager)
      → Rotates m id c
      → counter m id < length (all_keys c)
      → (key : Str) × (get_elem? (all_keys c) ((counter m id + n) % length (all_keys c)) ≡ some key)
        × ((get_credential stored id (after_calls n m)).1 ≡ returned (some key))
  get_credential-round_robin n m r h =
      let (key, at, e) =
        key_at-within (all_keys c) ((counter m id + n) % length (all_keys c))
          (mod-lt _ (omega arith)) in
      (
        key,
        at,
        rw
            (
              get_credential-step (after_calls n m) (after_calls-Rotates n m r),
              counter-after_calls n m r h,
            )
            e,
      )

  -- An update that leaves a rotating channel with no more keys than its counter: the next call of
  -- `get_credential` panics.
  pub get_credential-update_panics :
      (m : ChannelManager) {old : Channel}
      → get m.channels id ≡ some old
      → is_empty c.api_keys ≡ false
      → length (all_keys c) ≤ counter m id
      → (get_credential stored id (update id c m).0).1 ≡ panicked
  get_credential-update_panics m {old} known extra few =
      rw (get_credential-step (update id c m).0 (update-Rotates m known extra))
        (rw (update-counter m) (key_at-beyond (all_keys c) (counter m id) few))
