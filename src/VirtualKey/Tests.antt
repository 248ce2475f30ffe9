-- ===== src/VirtualKey/Tests.antt =====
-- Runs on one virtual key, and instances of its theorems.
use model_switch.Base.{
  ℕ, ◌+◌, ◌≡◌, refl, arith, Str, none, some, [], ◌∷◌, true, bytes, eq_nat, nat_beq, Bool-cases, inl,
  inr, some_inj, subst,
}
use model_switch.Base.Map
use model_switch.Base.Map.{Map}
use model_switch.Glob.{matches_glob}
use model_switch.VirtualKey.{
  VirtualKey, daily_spend, monthly_spend, is_model_allowed, is_model_denied,
}
use model_switch.VirtualKey.Spend.{reserved, exceeded, reserve_key, reconcile_key, roll_over}
use model_switch.VirtualKey.Settle.{reconcile_key-reserve_key}
use model_switch.VirtualKey.{is_expired, is_budget_exceeded}
use model_switch.Base.{All, ◌<◌, false, ◌++◌, eq_str}
use model_switch.VirtualKey.Store.{
  VirtualKeyStore, NewKey, prefix_of, plaintext_of, created, create, validate, validate_any,
}
use model_switch.VirtualKey.Store.Validate.{validate_sound, validate_any-create}
use model_switch.VirtualKey.Budget.{IsWithin, AreWithin, reserve_all, reserve_all-AreWithin}

abbrev day : Str
day = bytes "2026-03-02"

abbrev month : Str
month = bytes "2026-03"

-- Three dollars of ten are spent today, and yesterday's month is over.
abbrev key : VirtualKey
key = record {
  id = 7;
  key_hash = bytes "ab";
  key_prefix = bytes "sk-ms";
  name = bytes "team";
  daily_budget_cents = some 1000;
  monthly_budget_cents = some 5000;
  enabled = true;
  created_at = 0;
  spend = record {
    today = record { date = bytes "2026-03-02"; cents = 300 };
    this_month = record { month = bytes "2026-02"; cents = 4990 };
    total_cents = 9000;
  };
  allowed_models = some (bytes "gpt-4" ∷ []);
  denied_models = bytes "*-preview" ∷ [];
  allowed_ips = [];
  rpm_limit = none;
  tpm_limit = none;
  expires_at = none;
  group = none;
}

allowed : is_model_allowed key (bytes "gpt-4o") ≡ true
unfolding is_model_allowed
allowed = refl

denied : is_model_denied key (bytes "gpt-4o-preview") ≡ true
unfolding is_model_denied matches_glob
denied = refl

granted : (reserve_key day month 700 key).1 ≡ reserved 700
unfolding reserve_key roll_over
granted = refl

refused : (reserve_key day month 701 key).1 ≡ exceeded
unfolding reserve_key roll_over
refused = refl

reconcile_key-reserve_key_example :
    (daily_spend day (reconcile_key 700 20 (reserve_key day month 700 key).0)
      ≡ daily_spend day key + 20)
    × (monthly_spend month (reconcile_key 700 20 (reserve_key day month 700 key).0)
        ≡ monthly_spend month key + 20)
    × ((reconcile_key 700 20 (reserve_key day month 700 key).0).spend.total_cents
        ≡ key.spend.total_cents + 20)
reconcile_key-reserve_key_example =
    reconcile_key-reserve_key day month 700 20 key granted (omega arith) (omega arith) (omega arith)
      (omega arith) (omega arith)

abbrev store : Map ℕ VirtualKey
store = (7, key) ∷ []

store-AreWithin : AreWithin day month store
unfolding Map.get
store-AreWithin = record {
  at = λ id vk e. elim (Bool-cases (nat_beq 7 id)) [
    | inl here ↦
        subst (IsWithin day month) (some_inj (rw here at e))
          (record { day = omega arith; whole_month = omega arith })
    | inr other ↦ absurd (cc (rw other at e))
  ];
}

reserve_all-AreWithin_example :
    AreWithin day month (reserve_all day month ((7, 600) ∷ (8, 50) ∷ (7, 600) ∷ []) store)
reserve_all-AreWithin_example =
    reserve_all-AreWithin day month ((7, 600) ∷ (8, 50) ∷ (7, 600) ∷ []) store store-AreWithin

-- A hash for the tests: the text with one byte more.
abbrev digest : Str → Str
digest s = s ++ b'h' ∷ []

abbrev simple : Str
simple = bytes "0123456789abcdef0123456789abcdef"

abbrev fresh : NewKey
fresh = record {
  name = bytes "new";
  daily_budget_cents = some 100;
  monthly_budget_cents = none;
  allowed_models = none;
  denied_models = [];
  allowed_ips = [];
  rpm_limit = none;
  tpm_limit = none;
  expires_at = some 50;
  group = none;
}

abbrev nothing : VirtualKeyStore
nothing = record { store = []; prefix_index = [] }

abbrev one_key : VirtualKeyStore
one_key = (create digest 5 9 simple fresh nothing).0

opens :
    validate digest day month 40 one_key (plaintext_of simple)
    ≡ some (created digest 5 9 simple fresh)
unfolding validate create prefix_of Map.get Map.insert is_expired is_budget_exceeded
opens = refl

validate_sound_example :
    ((id : ℕ) × (Map.get one_key.prefix_index (prefix_of (plaintext_of simple)) ≡ some id)
      × (Map.get one_key.store id ≡ some (created digest 5 9 simple fresh)))
    × ((created digest 5 9 simple fresh).key_hash ≡ digest (plaintext_of simple))
    × ((created digest 5 9 simple fresh).enabled ≡ true)
    × (is_expired 40 (created digest 5 9 simple fresh) ≡ false)
    × (is_budget_exceeded day month (created digest 5 9 simple fresh) ≡ false)
validate_sound_example =
    validate_sound digest day month 40 one_key (plaintext_of simple)
      (created digest 5 9 simple fresh) opens

simple_ascii : All (λ b. b < 128) simple
simple_ascii = ground arith

validate_any-create_example :
    validate_any digest one_key (plaintext_of simple) ≡ some (created digest 5 9 simple fresh)
validate_any-create_example = validate_any-create digest 5 9 simple fresh nothing refl simple_ascii
