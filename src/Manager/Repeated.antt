-- ===== src/Manager/Repeated.antt =====
-- src-tauri/src/channel/manager.rs: a channel that fails again and again.
use model_switch.Base.{
  eq_nat, eq_str, last, length, ℕ, ◌+◌, ◌-◌, ◌*◌, ◌^◌, ◌≤◌, ◌<◌, min, ◌≡◌, refl, ap₂, ◌∙◌, ◌↔◌,
  true, false, some, List, [], ◌∷◌, arith,
}
use model_switch.Base.Map.{get}
use model_switch.Channel.{Channel, circuit_open, minutes, is_available, eq_status}
use model_switch.Manager.{ChannelManager, mark_circuit_open, unwrap_or}
use model_switch.Manager.Backoff.{mark_circuit_open_opens}

-- Failures of one channel, at their times, with no success in between.
unfoldable pub fail_all : ℕ → List ℕ → ChannelManager → ChannelManager
fail_all id [] m = m
fail_all id (now ∷ times) m = fail_all id times (mark_circuit_open now id m)

-- The minutes of the first failure.
abbrev pub base_of : ChannelManager → Channel → ℕ
base_of m c = unwrap_or c.cooldown_minutes m.circuit_breaker_minutes

-- What the failures leave as it was, and how many they counted.
record HasFailed (m m' : ChannelManager) (c c' : Channel) (count : ℕ) : Type 0 where
  cooling : m'.disable_cooling ≡ m.disable_cooling
  same_base : base_of m' c' ≡ base_of m c
  same_enabled : c'.enabled ≡ c.enabled
  counted : c'.consecutive_failures ≡ c.consecutive_failures + count

get-fail_all :
    (id : ℕ) (times : List ℕ) (m : ChannelManager) (c : Channel)
    → get m.channels id ≡ some c
    → m.disable_cooling ≡ false
    → base_of m c < 2 ^ 32
    → c.consecutive_failures + length times < 2 ^ 32
    → (c' : Channel) × (get (fail_all id times m).channels id ≡ some c')
      × HasFailed m (fail_all id times m) c c' (length times)
unfolding fail_all mark_circuit_open
get-fail_all id [] m c found cool fits room = (
  c,
  found,
  record { cooling = refl; same_base = refl; same_enabled = refl; counted = omega arith },
)
get-fail_all id (now ∷ times) m c found cool fits room =
    let m1 = mark_circuit_open now id m in
    let opened = mark_circuit_open_opens m now id c found cool (omega arith) fits in
    let c1 : Channel = record c {
      status = circuit_open;
      circuit_open_until = some (now + minutes (min (base_of m c * 2 ^ c.consecutive_failures) 30));
      updated_at = now;
      consecutive_failures = c.consecutive_failures + 1;
    } in
    let (c', found', h) = get-fail_all id times m1 c1 opened cool fits (omega arith) in
    (
      c',
      found',
      record {
        cooling = h.cooling;
        same_base = h.same_base;
        same_enabled = h.same_enabled;
        counted = omega (arith, h.counted);
      },
    )

-- Progressive backoff: after failures without a success in between, an enabled channel is available
-- again exactly when, since the last of them, its base cooldown has passed, doubled for every
-- failure before, and thirty minutes at most. Cooling is enabled, and the base and the count of
-- failures fit in 32 bits.
pub is_available-failures :
    (id : ℕ) (times : List ℕ) (last now : ℕ) (m : ChannelManager) (c : Channel)
    → get m.channels id ≡ some c
    → m.disable_cooling ≡ false
    → c.enabled ≡ true
    → base_of m c < 2 ^ 32
    → c.consecutive_failures + length times < 2 ^ 32 - 1
    → (c' : Channel) × (get (mark_circuit_open last id (fail_all id times m)).channels id ≡ some c')
      × (is_available now c' ≡ true ↔ (
          last + 60_000_000_000 * min (base_of m c * 2 ^ (c.consecutive_failures + length times)) 30
          ≤ now))
unfolding is_available
is_available-failures id times last now m c found cool on fits room =
    let (c', found', h) = get-fail_all id times m c found cool fits (omega arith) in
    let mins = min (base_of m c * 2 ^ (c.consecutive_failures + length times)) 30 in
    let opened =
      mark_circuit_open_opens (fail_all id times m) last id c' found' (h.cooling ∙ cool)
        (omega (arith, h.counted)) (omega (arith, h.same_base)) in
    let same : min (base_of (fail_all id times m) c' * 2 ^ c'.consecutive_failures) 30 ≡ mins =
      ap₂ (λ b n. min (b * 2 ^ n) 30) h.same_base h.counted in
    (
      record c' {
        status = circuit_open;
        circuit_open_until = some (
            last
            + minutes (min (base_of (fail_all id times m) c' * 2 ^ c'.consecutive_failures) 30));
        updated_at = last;
        consecutive_failures = c'.consecutive_failures + 1;
      },
      opened,
      (λ e. ground (arith, same, h.same_enabled), λ l. ground (arith, same, h.same_enabled)),
    )
