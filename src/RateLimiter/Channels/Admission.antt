-- ===== src/RateLimiter/Channels/Admission.antt =====
-- src-tauri/src/proxy/rate_limiter.rs: what it takes to be admitted, in memory and with Redis.
use model_switch.Base.{
  ℕ, ◌+◌, ◌≤◌, ◌<◌, ◌≡◌, ◌⊎◌, inl, inr, refl, ap, sym, ◌∙◌, subst, Bool, true, false, Option, none,
  some, eq_nat, leb, arith, leb→le, wrapping_add_u64, not, if◌then◌else◌,
}
use model_switch.Base.Map.{get, get-insert_self}
use model_switch.RateLimiter.Window.{BucketedWindow, now_ms, check_and_add}
use model_switch.RateLimiter.Window.Ready.{IsReady, total_now, add_now, total-add_later}
use model_switch.RateLimiter.Window.Recent.{current_total-le}
use model_switch.RateLimiter.Channels.{
  PerChannelState, RateLimiter, Reason, ok, Reply, allowed, denied, failed, Redis, get_or_create,
  or_fresh, global_fits, tpm_fits, channel_verdict, check_in_memory, check, record_request,
  reply_if, redis_verdict, settle, check_with_redis,
}

abbrev pub Within : ℕ → Option ℕ → Type 0
Within total none = Unit
Within total (some limit) = total ≤ limit

-- No overflow hides an excess: what is checked is the total with the estimate.
fits-Within :
    (now later tokens n : ℕ) (w : BucketedWindow) (limit : Option ℕ)
    → now ≤ later
    → IsReady now tokens w
    → n ≤ tokens
    → tpm_fits now tokens w limit ≡ true
    → Within (total_now later (add_now later n w)) limit
fits-Within now later tokens n w none up r l h = tt
fits-Within now later tokens n w (some limit) up r l h =
    let more = total-add_later now later n tokens w up r l in
    let all = current_total-le r.last (now_ms now w) w r.sound (omega arith) in
    let exact : wrapping_add_u64 (total_now now w) tokens ≡ total_now now w + tokens =
      omega (arith, all) in
    let checked = leb→le _ _ h in omega (arith, more, exact, checked)

-- The verdict of the in-memory path, apart from the limiter that it leaves.
verdict-in_memory :
    (now id tokens : ℕ) (l : RateLimiter)
    → (check_in_memory now id tokens l).1 ≡ (
        if not (global_fits now tokens l.global_tpm l.global_tpm_limit)
        then (false, Reason.global_tpm_exceeded)
        else channel_verdict now tokens (or_fresh now (get l.channels id)))
unfolding check_in_memory
verdict-in_memory now id tokens l = ground arith

-- Both limits of tokens are checked in the same way.
global_fits-tpm_fits :
    (now tokens : ℕ) (w : BucketedWindow) (limit : Option ℕ)
    → global_fits now tokens w limit ≡ tpm_fits now tokens w limit
unfolding check_and_add
global_fits-tpm_fits now tokens w none = refl
global_fits-tpm_fits now tokens w (some limit) = refl

passed_of :
    (g : Bool) (a b : ℕ) (t : Bool)
    → ◌≡◌ {A = Bool × Reason}
        (if not g
          then (false, Reason.global_tpm_exceeded)
          else if leb b a
          then (false, Reason.channel_rpm_exceeded)
          else if not t
          then (false, Reason.channel_tpm_exceeded)
          else (true, ok))
        (true, ok)
    → (g ≡ true) × (a < b) × (t ≡ true)
passed_of g a b t h = (ground arith, ground arith, ground arith)

-- The three checks that an admitted request has passed.
passed :
    (now id tokens : ℕ) (l : RateLimiter)
    → (check_in_memory now id tokens l).1 ≡ (true, ok)
    → (global_fits now tokens l.global_tpm l.global_tpm_limit ≡ true)
      × (total_now now (or_fresh now (get l.channels id)).rpm_window
          < (or_fresh now (get l.channels id)).rpm_limit)
      × (tpm_fits now tokens
            (or_fresh now (get l.channels id)).tpm_window
            (or_fresh now (get l.channels id)).tpm_limit
          ≡ true)
unfolding channel_verdict
passed now id tokens l h =
    let state = or_fresh now (get l.channels id) in
    passed_of (global_fits now tokens l.global_tpm l.global_tpm_limit)
      (total_now now state.rpm_window) state.rpm_limit
      (tpm_fits now tokens state.tpm_window state.tpm_limit)
      (sym (verdict-in_memory now id tokens l) ∙ h)

get-check_in_memory :
    (now id tokens : ℕ) (l : RateLimiter)
    → global_fits now tokens l.global_tpm l.global_tpm_limit ≡ true
    → (check_in_memory now id tokens l).0 ≡ (get_or_create now id l).0
unfolding check_in_memory
get-check_in_memory now id tokens l h = rw h

-- The limiter after the request was counted.
record-get :
    (now id n : ℕ) (l : RateLimiter) (state : PerChannelState)
    → get l.channels id ≡ some state
    → (get (record_request now id n l).channels id
        ≡ some (record state {
          tpm_window = add_now now n state.tpm_window;
          rpm_window = add_now now 1 state.rpm_window;
        }))
      × ((record_request now id n l).global_tpm ≡ add_now now n l.global_tpm)
unfolding record_request
record-get now id n l state h = (rw (get-insert_self, h), refl)

-- Admission in memory: where `check` admits a request with an estimate and the request is then
-- recorded, at the same time or later, with no more tokens than that, the channel is at that later
-- time within its limits of tokens and requests, and all channels are within the global limit. No
-- other request is checked or recorded in between. The three windows are ready: they were last used
-- before the check, and the counts fit in 64 bits.
pub check-record_within :
    (now later id tokens n : ℕ) (l : RateLimiter)
    → now ≤ later
    → IsReady now tokens l.global_tpm
    → IsReady now tokens (or_fresh now (get l.channels id)).tpm_window
    → IsReady now 1 (or_fresh now (get l.channels id)).rpm_window
    → n ≤ tokens
    → (check none now id tokens l).1 ≡ (true, ok)
    → (state : PerChannelState) × (get
          (record_request later id n (check none now id tokens l).0).channels
          id
        ≡ some state)
      × Within (total_now later state.tpm_window) state.tpm_limit
      × (total_now later state.rpm_window ≤ state.rpm_limit)
      × Within
          (total_now later (record_request later id n (check none now id tokens l).0).global_tpm)
          l.global_tpm_limit
unfolding check get_or_create
check-record_within now later id tokens n l up rg rt rr le h =
    let state = or_fresh now (get l.channels id) in
    let (global, rpm, tpm) = passed now id tokens l h in
    let after =
      record-get later id n (get_or_create now id l).0 state
        (get-insert_self l.channels id state) in
    let more = total-add_later now later 1 1 state.rpm_window up rr (omega arith) in
    rw (get-check_in_memory now id tokens l global) (
      record state {
        tpm_window = add_now later n state.tpm_window;
        rpm_window = add_now later 1 state.rpm_window;
      },
      after.0,
      fits-Within now later tokens n state.tpm_window state.tpm_limit up rt le tpm,
      omega (arith, more, rpm),
      rw after.1 (
          fits-Within now later tokens n l.global_tpm l.global_tpm_limit up rg le
            (sym (global_fits-tpm_fits now tokens l.global_tpm l.global_tpm_limit) ∙ global)),
    )

-- A check that is only made where there is a limit: what it came back with.
abbrev pub Passed : Option ℕ → Reply → Type 0
Passed none reply = Unit
Passed (some limit) reply = reply ≡ allowed

abbrev pub Broken : Option ℕ → Reply → Type 0
Broken none reply = ⊥
Broken (some limit) reply = reply ≡ failed

-- What a request that is admitted met at Redis: every check that was made allowed it, or one broke
-- and the in-memory limiter decided.
abbrev pub Admitted : Option ℕ → Option ℕ → Reply → Reply → Reply → Bool → Type 0
Admitted global_limit limit global rpm tpm in_memory =
    (Passed global_limit global × (rpm ≡ allowed) × Passed limit tpm)
    ⊎ ((Broken global_limit global ⊎ ((rpm ≡ failed) ⊎ Broken limit tpm)) × (in_memory ≡ true))

Passed-reply_if : (o : Option ℕ) (r : Reply) → reply_if o r ≡ allowed → Passed o r
Passed-reply_if none r h = tt
Passed-reply_if (some limit) r h = h

Broken-reply_if : (o : Option ℕ) (r : Reply) → reply_if o r ≡ failed → Broken o r
Broken-reply_if none r h = absurd (cc h)
Broken-reply_if (some limit) r h = h

settle_verdict :
    (g rpm tpm : Reply) (l l' : RateLimiter) (mem : RateLimiter × (Bool × Reason))
    → (settle g (redis_verdict g rpm tpm) l l' mem).1.0 ≡ true
    → ((g ≡ allowed) × (rpm ≡ allowed) × (tpm ≡ allowed))
      ⊎ (((g ≡ failed) ⊎ ((rpm ≡ failed) ⊎ (tpm ≡ failed))) × (mem.1.0 ≡ true))
unfolding redis_verdict
settle_verdict denied rpm tpm l l' mem h = absurd (cc h)
settle_verdict failed rpm tpm l l' mem h = inr (inl refl, h)
settle_verdict allowed denied tpm l l' mem h = absurd (cc h)
settle_verdict allowed failed tpm l l' mem h = inr (inr (inl refl), h)
settle_verdict allowed allowed denied l l' mem h = absurd (cc h)
settle_verdict allowed allowed failed l l' mem h = inr (inr (inr refl), h)
settle_verdict allowed allowed allowed l l' mem h = inl (refl, refl, refl)

settle-Admitted :
    (a b : Option ℕ) (g rpm tpm : Reply) (l l' : RateLimiter) (mem : RateLimiter × (Bool × Reason))
    → (settle (reply_if a g) (redis_verdict (reply_if a g) rpm (reply_if b tpm)) l l' mem).1.0
      ≡ true
    → Admitted a b g rpm tpm mem.1.0
settle-Admitted a b g rpm tpm l l' mem h =
    elim (settle_verdict (reply_if a g) rpm (reply_if b tpm) l l' mem h) [
      | inl (x, y, z) ↦ inl (Passed-reply_if a g x, y, Passed-reply_if b tpm z)
      | inr (inl x, m) ↦ inr (inl (Broken-reply_if a g x), m)
      | inr (inr (inl y), m) ↦ inr (inr (inl y), m)
      | inr (inr (inr z), m) ↦ inr (inr (inr (Broken-reply_if b tpm z)), m)
    ]

-- That the channel was created does not change the in-memory verdict.
created_verdict :
    (now id tokens : ℕ) (l : RateLimiter)
    → (check_in_memory now id tokens (get_or_create now id l).0).1
      ≡ (check_in_memory now id tokens l).1
unfolding get_or_create
created_verdict now id tokens l =
    verdict-in_memory now id tokens (get_or_create now id l).0
    ∙ (rw get-insert_self (sym (verdict-in_memory now id tokens l)))

-- A broken Redis never opens the limits: a request is admitted with a Redis backend only where every
-- check that was made there, of the requests and of those limits of tokens that are set, was replied
-- with `allowed`, or where one of them failed and the in-memory limiter admits the request.
pub check-never_open :
    (r : Redis) (now id tokens : ℕ) (l : RateLimiter)
    → (check (some r) now id tokens l).1.0 ≡ true
    → Admitted l.global_tpm_limit
        (or_fresh now (get l.channels id)).tpm_limit
        r.global_tpm
        r.channel_rpm
        r.channel_tpm
        (check none now id tokens l).1.0
unfolding check check_with_redis
check-never_open r now id tokens l h =
    let (l', state) = get_or_create now id l in
    subst
      (λ b. Admitted l.global_tpm_limit state.tpm_limit r.global_tpm r.channel_rpm r.channel_tpm b)
      (ap (λ (v : Bool × Reason). v.0) (created_verdict now id tokens l))
      (settle-Admitted l.global_tpm_limit state.tpm_limit r.global_tpm r.channel_rpm r.channel_tpm l
        l' (check_in_memory now id tokens l') h)
