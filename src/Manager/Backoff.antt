-- ===== src/Manager/Backoff.antt =====
-- The progressive backoff of `mark_circuit_open`.
use native.Mathlib.Decide.{dec_le}
use native.Mathlib.Nat.{pow-le-pow_right, mul-le-mul_left}
use model_switch.Base.{
  ℕ, suc, zero, ◌+◌, ◌-◌, ◌*◌, ◌%◌, ◌^◌, ◌≤◌, ◌<◌, min, ◌≡◌, if◌then◌else◌, ◌==◌, some, false,
  arith, eq_nat, wrapping_add_u32, max_u32, as_u32,
}
use model_switch.Base.Map.{get, get-modify, beq_refl, map_some}
use model_switch.Channel.{Channel, circuit_open, minutes}
use model_switch.Manager.{
  ChannelManager, backoff_minutes, fail_channel, mark_circuit_open, unwrap_or,
}

saturate_below : (b p m : ℕ) → 30 ≤ m → p ≤ m → min (min (b * min p m) m) 30 ≡ min (b * p) 30
saturate_below b p m h l = let e : min p m ≡ p = omega arith in rw e (omega arith)

saturate_above : (b p m : ℕ) → 30 ≤ m → m ≤ p → min (min (b * min p m) m) 30 ≡ min (b * p) 30
saturate_above zero p m h l = grind arith
saturate_above (suc b) p m h l = let e : min p m ≡ m = omega arith in rw e (omega arith)

-- Saturation at a bound of at least thirty is invisible under the cap of thirty.
saturate : (b p m : ℕ) → 30 ≤ m → min (min (b * min p m) m) 30 ≡ min (b * p) 30
saturate b p m h = elim (dec_le p m) [
  | yes l ↦ saturate_below b p m h l
  | no l ↦ saturate_above b p m h (omega arith)
]

-- With a base that fits in 32 bits, the saturating arithmetic gives the base doubled with each
-- failure after the first, and thirty minutes at most.
pub backoff_minutes_lem :
    (base failures : ℕ)
    → base < 2 ^ 32
    → backoff_minutes base failures ≡ min (base * 2 ^ (failures - 1)) 30
unfolding backoff_minutes
backoff_minutes_lem base failures h =
    let e : base % 2 ^ 32 ≡ base = omega arith in
    rw e (saturate base (2 ^ (failures - 1)) (2 ^ 32 - 1) (omega arith))

-- One more failure never shortens the cooldown, whatever the base.
pub backoff_minutes_mono :
    (base failures : ℕ) → backoff_minutes base failures ≤ backoff_minutes base (failures + 1)
unfolding backoff_minutes
backoff_minutes_mono base failures =
    let grow : 2 ^ (failures - 1) ≤ 2 ^ (failures + 1 - 1) =
      pow-le-pow_right (omega arith) (omega arith) in
    let capped : min (2 ^ (failures - 1)) max_u32 ≤ min (2 ^ (failures + 1 - 1)) max_u32 =
      omega arith in
    omega (arith, mul-le-mul_left (as_u32 base) capped)

-- `mark_circuit_open` writes the channel that it names, and no other.
pub get-mark_circuit_open :
    (m : ChannelManager) (now id other : ℕ)
    → get (mark_circuit_open now id m).channels other ≡ (
        if id == other
        then map_some (fail_channel now m) (get m.channels other)
        else get m.channels other)
unfolding mark_circuit_open
get-mark_circuit_open m now id other = get-modify m.channels id other (fail_channel now m)

-- With cooling enabled, the failure of a channel that is known counts one failure more and opens its
-- breaker for the base, doubled for each failure that it had, and at most for thirty minutes. The
-- base fits in 32 bits, and so does the new count.
pub mark_circuit_open_opens :
    (m : ChannelManager) (now id : ℕ) (c : Channel)
    → get m.channels id ≡ some c
    → m.disable_cooling ≡ false
    → c.consecutive_failures < 2 ^ 32 - 1
    → unwrap_or c.cooldown_minutes m.circuit_breaker_minutes < 2 ^ 32
    → get (mark_circuit_open now id m).channels id
      ≡ some (record c {
        status = circuit_open;
        circuit_open_until = some (
            now
            + minutes (
                min
                  (unwrap_or c.cooldown_minutes m.circuit_breaker_minutes
                    * 2 ^ c.consecutive_failures)
                  30));
        updated_at = now;
        consecutive_failures = c.consecutive_failures + 1;
      })
unfolding fail_channel
mark_circuit_open_opens m now id c found cooling counts fits =
    let base = unwrap_or c.cooldown_minutes m.circuit_breaker_minutes in
    let count : wrapping_add_u32 c.consecutive_failures 1 ≡ c.consecutive_failures + 1 =
      omega arith in
    let back : c.consecutive_failures + 1 - 1 ≡ c.consecutive_failures = omega arith in
    rw (get-mark_circuit_open, beq_refl id, found)
      (rw (cooling, count, backoff_minutes_lem base (c.consecutive_failures + 1) fits, back))
