-- ===== src/Trackers/ActiveRequests.antt =====
-- src-tauri/src/router/active_requests.rs: the number of requests in flight on each channel.
use model_switch.Base.{
  some_inj, max_u32, ltb→lt, Bool, true, false, ℕ, ◌+◌, ◌-◌, ◌≡◌, eq_nat, ◌==◌, if◌then◌else◌, ltb,
  Option, none, some, List, [], ◌∷◌, wrapping_add_u32, sum_by, arith, Bool-cases, inl, inr,
}
use model_switch.Base.Map
use model_switch.Base.Map.{Map, insert, modify, values, get-insert, get-modify, map_some}

abbrev pub ActiveRequests : Type 0
ActiveRequests = Map ℕ ℕ

abbrev or_zero : Option ℕ → ℕ
or_zero none = 0
or_zero (some n) = n

-- The count of a channel.
unfoldable pub get : ActiveRequests → ℕ → ℕ
get counts channel_id = or_zero (Map.get counts channel_id)

unfoldable pub increment : ℕ → ActiveRequests → ActiveRequests
unfolding get
increment channel_id counts = insert channel_id (wrapping_add_u32 (get counts channel_id) 1) counts

abbrev pub dec_count : ℕ → ℕ
dec_count count = if ltb 0 count then count - 1 else count

unfoldable pub decrement : ℕ → ActiveRequests → ActiveRequests
decrement channel_id counts = modify channel_id dec_count counts

-- `acquire` increments, and the guard that it returns decrements when it is dropped.
pub data Guard : Type 0 where
  acquire release : ℕ → Guard

abbrev pub step : Guard → ActiveRequests → ActiveRequests
step (acquire channel_id) counts = increment channel_id counts
step (release channel_id) counts = decrement channel_id counts

abbrev pub steps : List Guard → ActiveRequests → ActiveRequests
steps [] counts = counts
steps (g ∷ gs) counts = steps gs (step g counts)

unfoldable pub total : ActiveRequests → ℕ
total counts = sum_by (λ v. v) (values counts)

pub get-increment :
    (counts : ActiveRequests) (id other : ℕ)
    → get (increment id counts) other
      ≡ (if id == other then wrapping_add_u32 (get counts other) 1 else get counts other)
unfolding get increment
get-increment counts id other = rw get-insert (ground arith)

pub get-decrement :
    (counts : ActiveRequests) (id other : ℕ)
    → get (decrement id counts) other
      ≡ (if id == other then get counts other - 1 else get counts other)
unfolding get decrement
get-decrement counts id other = rw get-modify (ground arith)

-- On the channel's own guard the count changes, if it may.
abbrev pub in_flight_if : Bool → Bool → Option ℕ → Option ℕ → Option ℕ
in_flight_if true true changed same = changed
in_flight_if true false changed same = none
in_flight_if false allowed changed same = same

-- The requests that are in flight on a channel after a trace of guards: `none` where a guard is
-- released that was not acquired, or where a 32-bit counter is full.
abbrev pub in_flight : ℕ → List Guard → ℕ → Option ℕ
in_flight id [] n = some n
in_flight id (acquire j ∷ gs) n =
    in_flight_if (j == id) (ltb n max_u32) (in_flight id gs (n + 1)) (in_flight id gs n)
in_flight id (release j ∷ gs) n =
    in_flight_if (j == id) (ltb 0 n) (in_flight id gs (n - 1)) (in_flight id gs n)

-- The counter of a channel is the number of its guards that are alive, whatever the guards of other
-- channels do meanwhile, as long as only acquired guards are released and the counter fits.
pub get-steps :
    (gs : List Guard) (counts : ActiveRequests) (id n : ℕ)
    → in_flight id gs (get counts id) ≡ some n
    → get (steps gs counts) id ≡ n
get-steps [] counts id n h = some_inj h
get-steps (acquire j ∷ gs) counts id n h =
    get-steps gs (increment j counts) id n
      (rw (get-increment counts j id) (acquired (j == id) (get counts id) h))
  where
    acquired :
        (b : Bool) (k : ℕ)
        → in_flight_if b (ltb k max_u32) (in_flight id gs (k + 1)) (in_flight id gs k) ≡ some n
        → in_flight id gs (if b then wrapping_add_u32 k 1 else k) ≡ some n
    acquired true k e = elim (Bool-cases (ltb k max_u32)) [
      | inl fits ↦
          let w : wrapping_add_u32 k 1 ≡ k + 1 = omega (arith, ltb→lt k max_u32 fits) in
          rw w (rw fits at e)
      | inr full ↦ cc (rw full at e)
    ]
    acquired false k e = e
get-steps (release j ∷ gs) counts id n h =
    get-steps gs (decrement j counts) id n
      (rw (get-decrement counts j id) (released (j == id) (get counts id) h))
  where
    released :
        (b : Bool) (k : ℕ)
        → in_flight_if b (ltb 0 k) (in_flight id gs (k - 1)) (in_flight id gs k) ≡ some n
        → in_flight id gs (if b then k - 1 else k) ≡ some n
    released true k e = elim (Bool-cases (ltb 0 k)) [
      | inl fits ↦ rw fits at e
      | inr full ↦ cc (rw full at e)
    ]
    released false k e = e
