-- ===== src/Samples.antt =====
-- Concrete channels, arithmetic and random numbers, on which the tests run.
use model_switch.Base.{
  ◌+◌, ◌*◌, ◌/◌, ◌%◌, ◌^◌, compare, none, some, [], ◌∷◌, true, bytes, leb, arith,
}
use model_switch.Channel.{Channel, open_ai, api_key, healthy, circuit_open}
use model_switch.F64.{Floats}
use model_switch.Router.Weighted.{Rng}

abbrev pub steady : Channel
steady = record {
  id = 1;
  name = bytes "first";
  provider = open_ai;
  priority = 1;
  weight = 3;
  cost_per_token = none;
  input_cost_per_mtok = none;
  output_cost_per_mtok = none;
  credential = record {
    cred_type = api_key;
    key_ref = bytes "k";
    inline_key = some (bytes "sk-0");
    expires_at = none;
  };
  enabled = true;
  status = healthy;
  circuit_open_until = none;
  base_url = bytes "https://a";
  model_mapping = [];
  created_at = 0;
  updated_at = 0;
  avg_latency_ms = 0;
  consecutive_failures = 0;
  cooldown_minutes = some 2;
  rpm_limit = none;
  tpm_limit = none;
  account_group = none;
  max_concurrent = some 4;
  max_retries = none;
  api_keys = bytes "sk-1" ∷ bytes "sk-2" ∷ [];
  excluded_models = bytes "gpt-3*" ∷ [];
  model_cooldowns = [];
}

-- Its breaker is open for the first minute.
abbrev pub tripped : Channel
tripped = record steady {
  id = 2;
  weight = 1;
  status = circuit_open;
  circuit_open_until = some 60_000_000_000;
  consecutive_failures = 3;
}

abbrev pub backup : Channel
backup = record steady { id = 3; priority = 2; weight = 0; max_concurrent = none }

-- Fractions `a / n` with n below 1000, as a * 1000 + n; of whole numbers only what the tests need.
abbrev pub fractions : Floats
fractions = record {
  literal = λ n k. n * 1000 + 10 ^ k;
  of_u64 = λ n. n;
  to_u64 = λ x. x;
  add = λ x y. x + y;
  mul = λ x y. x * y;
  div = λ a n. a * 1000 + n;
  ge = λ x y. leb (y / 1000 * (x % 1000)) (x / 1000 * (y % 1000));
  partial_cmp = λ x y. some (compare x y);
  largest = 1_000_000_000;
}

-- The least number of every range.
abbrev pub least : Rng
least = record {
  below = λ n. 0;
  from_one = λ n. 1;
  below_lt = λ n h. h;
  from_one_bounds = λ n h. (omega arith, h);
}
