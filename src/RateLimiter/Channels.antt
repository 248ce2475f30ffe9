-- ===== src/RateLimiter/Channels.antt =====
-- `RateLimiter`: the limits of tokens and of requests a minute, of each channel and of all together.
-- The locks make each method one step. What the Redis backend answers is an argument of a call.
pub mod Admission
use model_switch.Base.{
  ℕ, ◌+◌, Bool, true, false, Option, none, some, [], eq_nat, if◌then◌else◌, ltb, leb, not,
  wrapping_add_u64,
}
use model_switch.Base.Map.{Map, get, insert}
use model_switch.RateLimiter.Window
use model_switch.RateLimiter.Window.Ready.{total_now, add_now}
use model_switch.RateLimiter.Window.{
  BucketedWindow, window_ms, now_ms, add, current_total, check_and_add,
}

pub record PerChannelState : Type 0 where
  pub tpm_window : BucketedWindow
  pub rpm_window : BucketedWindow
  pub tpm_limit : Option ℕ
  pub rpm_limit : ℕ

pub record RateLimiter : Type 0 where
  pub channels : Map ℕ PerChannelState
  pub global_tpm : BucketedWindow
  pub global_tpm_limit : Option ℕ

pub data Reason : Type 0 where
  ok global_tpm_exceeded channel_rpm_exceeded channel_tpm_exceeded : Reason

-- What a check against Redis comes back with.
pub data Reply : Type 0 where
  allowed denied failed : Reply

pub record Redis : Type 0 where
  pub global_tpm : Reply
  pub channel_rpm : Reply
  pub channel_tpm : Reply

pub new : ℕ → Option ℕ → RateLimiter
new now limit = record {
  channels = [];
  global_tpm = Window.new window_ms now;
  global_tpm_limit = limit;
}

pub fresh_channel : ℕ → PerChannelState
fresh_channel now = record {
  tpm_window = Window.new window_ms now;
  rpm_window = Window.new window_ms now;
  tpm_limit = none;
  rpm_limit = 60;
}

abbrev pub or_fresh : ℕ → Option PerChannelState → PerChannelState
or_fresh now none = fresh_channel now
or_fresh now (some state) = state

-- `get_or_create_channel`: the state of the channel, and the limiter that holds it.
unfoldable pub get_or_create : ℕ → ℕ → RateLimiter → RateLimiter × PerChannelState
get_or_create now id l =
    let state = or_fresh now (get l.channels id) in
    (record l { channels = insert id state l.channels }, state)

pub set_channel_tpm_limit : ℕ → ℕ → ℕ → RateLimiter → RateLimiter
unfolding get_or_create
set_channel_tpm_limit now id limit l =
    let (l', state) = get_or_create now id l in
    record l' { channels = insert id (record state { tpm_limit = some limit }) l'.channels }

pub set_channel_rpm_limit : ℕ → ℕ → ℕ → RateLimiter → RateLimiter
unfolding get_or_create
set_channel_rpm_limit now id limit l =
    let (l', state) = get_or_create now id l in
    record l' { channels = insert id (record state { rpm_limit = limit }) l'.channels }

abbrev pub global_fits : ℕ → ℕ → BucketedWindow → Option ℕ → Bool
global_fits now tokens w none = true
global_fits now tokens w (some limit) = check_and_add (now_ms now w) tokens limit w

abbrev pub tpm_fits : ℕ → ℕ → BucketedWindow → Option ℕ → Bool
tpm_fits now tokens w none = true
tpm_fits now tokens w (some limit) = leb (wrapping_add_u64 (total_now now w) tokens) limit

-- The checks of one channel against its own windows.
unfoldable pub channel_verdict : ℕ → ℕ → PerChannelState → Bool × Reason
channel_verdict now tokens state =
    if leb state.rpm_limit (total_now now state.rpm_window)
    then (false, channel_rpm_exceeded)
    else if not (tpm_fits now tokens state.tpm_window state.tpm_limit)
    then (false, channel_tpm_exceeded)
    else (true, ok)

-- The in-memory path of `check`.
unfoldable pub check_in_memory : ℕ → ℕ → ℕ → RateLimiter → RateLimiter × (Bool × Reason)
unfolding check_and_add get_or_create channel_verdict
check_in_memory now id tokens l =
    let (l', state) = get_or_create now id l in
    if not (global_fits now tokens l.global_tpm l.global_tpm_limit)
    then (l, (false, global_tpm_exceeded))
    else (l', channel_verdict now tokens state)

abbrev pub reply_if : Option ℕ → Reply → Reply
reply_if none reply = allowed
reply_if (some limit) reply = reply

-- What the Redis path decides from the replies to its three checks; `none` means that one failed and
-- the in-memory path is taken.
unfoldable pub redis_verdict : Reply → Reply → Reply → Option (Bool × Reason)
redis_verdict denied rpm tpm = some (false, global_tpm_exceeded)
redis_verdict failed rpm tpm = none
redis_verdict allowed denied tpm = some (false, channel_rpm_exceeded)
redis_verdict allowed failed tpm = none
redis_verdict allowed allowed denied = some (false, channel_tpm_exceeded)
redis_verdict allowed allowed failed = none
redis_verdict allowed allowed allowed = some (true, ok)

-- The end of the Redis path: a denial by the global limit comes before the channel is created, and
-- without a verdict the in-memory path goes on.
abbrev pub settle {ℓ} : {L V : Type ℓ} → Reply → Option V → L → L → L × V → L × V
settle global none l l' in_memory = in_memory
settle denied (some verdict) l l' in_memory = (l, verdict)
settle allowed (some verdict) l l' in_memory = (l', verdict)
settle failed (some verdict) l l' in_memory = (l', verdict)

-- `check` with a Redis backend.
unfoldable pub check_with_redis : Redis → ℕ → ℕ → ℕ → RateLimiter → RateLimiter × (Bool × Reason)
unfolding get_or_create
check_with_redis r now id tokens l =
    let (l', state) = get_or_create now id l in
    let global = reply_if l.global_tpm_limit r.global_tpm in
    settle global (redis_verdict global r.channel_rpm (reply_if state.tpm_limit r.channel_tpm)) l l'
      (check_in_memory now id tokens l')

unfoldable pub check : Option Redis → ℕ → ℕ → ℕ → RateLimiter → RateLimiter × (Bool × Reason)
unfolding check_with_redis
check none now id tokens l = check_in_memory now id tokens l
check (some r) now id tokens l = check_with_redis r now id tokens l

-- `record`, in memory; what is written to Redis is not part of the state.
pub record_request : ℕ → ℕ → ℕ → RateLimiter → RateLimiter
unfolding get_or_create
record_request now id tokens l =
    let (l', state) = get_or_create now id l in
    let state' : PerChannelState = record state {
      tpm_window = add_now now tokens state.tpm_window;
      rpm_window = add_now now 1 state.rpm_window;
    } in
    record l' {
      channels = insert id state' l'.channels;
      global_tpm = add_now now tokens l'.global_tpm;
    }

abbrev total_of : ℕ → Option PerChannelState → ℕ
total_of now none = 0
total_of now (some state) = total_now now state.tpm_window

abbrev limit_of : Option PerChannelState → Option ℕ
limit_of none = none
limit_of (some state) = state.tpm_limit

pub current_tpm : ℕ → ℕ → RateLimiter → ℕ
current_tpm now id l = total_of now (get l.channels id)

pub tpm_limit : ℕ → RateLimiter → Option ℕ
tpm_limit id l = limit_of (get l.channels id)
