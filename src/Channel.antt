-- ===== src/Channel.antt =====
-- src-tauri/src/channel/mod.rs: a channel is one upstream account, with its circuit breaker, its
-- per-model cooldowns and its keys. A method takes the time that it reads from the clock as `now`.
pub mod Circuit
pub mod Cooldowns
pub mod Names
mod Tests
use model_switch.Base.{
  Str, ℕ, ◌+◌, ◌*◌, PartialEq, ◌==◌, eq_nat, eq_str, nat_beq, nat_beq_iff, if◌then◌else◌, ltb, leb,
  Bool, true, false, not, ◌||◌, Option, none, some, List, [], ◌∷◌, ◌++◌, is_empty, any, filter,
  clamp, div_ceil, bytes, ◌≡◌, ◌↔◌, arith,
}
use model_switch.Base.Map.{Map, get, insert}
use model_switch.Glob.{matches_glob}

pub data Provider : Type 0 where
  open_ai anthropic deep_seek gemini open_router ollama mistral groq : Provider
  together cohere xai silicon_flow yi moonshot zhipu : Provider
  custom : Str → Provider

pub data CredentialType : Type 0 where
  api_key web_session : CredentialType

-- `api_key` is spelled `inline_key`, beside the constructor of that name.
pub record Credential : Type 0 where
  pub cred_type : CredentialType
  pub key_ref : Str
  pub inline_key : Option Str
  pub expires_at : Option ℕ

pub data ChannelStatus : Type 0 where
  healthy half_open circuit_open disabled : ChannelStatus

abbrev pub status_beq : ChannelStatus → ChannelStatus → Bool
status_beq healthy healthy = true
status_beq half_open half_open = true
status_beq circuit_open circuit_open = true
status_beq disabled disabled = true
status_beq _ _ = false

pub status_beq_iff : (a b : ChannelStatus) → (status_beq a b ≡ true) ↔ (a ≡ b)
status_beq_iff a b = ground arith

instance abbrev pub eq_status : PartialEq ChannelStatus
eq_status = record { same = status_beq; same_iff = status_beq_iff }

-- An `f64`, by the number that its 64 bits stand for. What is computed with it is a parameter.
abbrev pub F64 : Type 0
F64 = ℕ

-- Times are nanoseconds since the epoch. The fields `headers`, `proxy_url`, `models_endpoint`,
-- `models_refresh_interval_secs`, `tags` and `quota`, which no modelled function
-- reads or writes, are left out.
pub record Channel : Type 0 where
  pub id : ℕ
  pub name : Str
  pub provider : Provider
  pub priority : ℕ
  pub weight : ℕ
  pub cost_per_token : Option F64
  pub input_cost_per_mtok : Option F64
  pub output_cost_per_mtok : Option F64
  pub credential : Credential
  pub enabled : Bool
  pub status : ChannelStatus
  pub circuit_open_until : Option ℕ
  pub base_url : Str
  pub model_mapping : Map Str Str
  pub created_at : ℕ
  pub updated_at : ℕ
  pub avg_latency_ms : ℕ
  pub consecutive_failures : ℕ
  pub cooldown_minutes : Option ℕ
  pub rpm_limit : Option ℕ
  pub tpm_limit : Option ℕ
  pub account_group : Option Str
  pub max_concurrent : Option ℕ
  pub max_retries : Option ℕ
  pub api_keys : List Str
  pub excluded_models : List Str
  pub model_cooldowns : Map Str ℕ

-- `chrono::Duration::minutes(n)`, in nanoseconds.
abbrev pub minutes : ℕ → ℕ
minutes n = n * 60_000_000_000

abbrev pub reached : ℕ → Option ℕ → Bool
reached now none = false
reached now (some until) = leb until now

unfoldable pub is_available : ℕ → Channel → Bool
is_available now c =
    if not c.enabled || (c.status == disabled)
    then false
    else if c.status == circuit_open
    then reached now c.circuit_open_until
    else true

unfoldable pub map_model : Channel → Str → Str
map_model c requested_model = elim (get c.model_mapping requested_model) [
  | some m ↦ m
  | none ↦ requested_model
]

abbrev pub key_list : Option Str → List Str
key_list none = []
key_list (some key) = key ∷ []

unfoldable pub all_keys : Channel → List Str
all_keys c = key_list c.credential.inline_key ++ c.api_keys

unfoldable pub is_model_excluded : Channel → Str → Bool
is_model_excluded c model =
    if is_empty c.excluded_models
    then false
    else any (λ pattern. matches_glob pattern model) c.excluded_models

-- The minutes of a cooldown: two, or the upstream's seconds rounded up, from 1 to 30.
unfoldable pub cooldown_mins : Option ℕ → ℕ
cooldown_mins none = 2
cooldown_mins (some s) = clamp (div_ceil s 60) 1 30

unfoldable pub mark_model_rate_limited : ℕ → Str → Option ℕ → Channel → Channel
mark_model_rate_limited now model retry_after_secs c = record c {
  model_cooldowns = insert model (now + minutes (cooldown_mins retry_after_secs)) c.model_cooldowns;
}

abbrev pub still_cooling : ℕ → Option ℕ → Bool
still_cooling now none = false
still_cooling now (some expiry) = ltb now expiry

unfoldable pub is_model_in_cooldown : ℕ → Channel → Str → Bool
is_model_in_cooldown now c model = still_cooling now (get c.model_cooldowns model)

unfoldable pub clean_expired_model_cooldowns : ℕ → Channel → Channel
clean_expired_model_cooldowns now c = record c {
  model_cooldowns = filter (λ e. ltb now e.1) c.model_cooldowns;
}

unfoldable pub mark_circuit_open : ℕ → ℕ → Channel → Channel
mark_circuit_open now duration_mins c = record c {
  status = circuit_open;
  circuit_open_until = some (now + minutes duration_mins);
  updated_at = now;
}

unfoldable pub recover_if_expired : ℕ → Channel → Channel
recover_if_expired now c =
    if c.status == circuit_open
    then (if reached now c.circuit_open_until
        then record c { status = half_open; circuit_open_until = none; updated_at = now }
        else c)
    else c

unfoldable pub recover_to_healthy : ℕ → Channel → Channel
recover_to_healthy now c =
    if c.status == half_open
    then record c { status = healthy; consecutive_failures = 0; updated_at = now }
    else c
