-- ===== src/Channel/Tests.antt =====
-- Runs of the channel's methods, and instances of its theorems.
use model_switch.Base.{◌≡◌, refl, some, true, false, bytes, eq_str}
use model_switch.Glob.{matches_glob}
use model_switch.Channel.{eq_status, is_available, cooldown_mins, is_model_excluded}
use model_switch.Samples.{steady, tripped}

excluded : is_model_excluded steady (bytes "gpt-3.5-turbo") ≡ true
unfolding is_model_excluded matches_glob
excluded = refl

not_excluded : is_model_excluded steady (bytes "gpt-4o") ≡ false
unfolding is_model_excluded matches_glob
not_excluded = refl

rounded_up : cooldown_mins (some 61) ≡ 2
unfolding cooldown_mins
rounded_up = refl

tripped_available : is_available 60_000_000_000 tripped ≡ true
unfolding is_available
tripped_available = refl
