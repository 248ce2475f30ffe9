-- ===== src/Glob/Tests.antt =====
-- Runs of `matches_glob`, and an instance of its theorem.
use model_switch.Base.{◌≡◌, ◌↔◌, refl, true, false, bytes}
use model_switch.Glob.{matches_glob}
use model_switch.Glob.Matches.{GlobMatch, matches_glob_iff}

prefix_pattern : matches_glob (bytes "gpt-4*") (bytes "gpt-4-turbo") ≡ true
unfolding matches_glob
prefix_pattern = refl

one_byte : matches_glob (bytes "o?-mini") (bytes "o3-mini") ≡ true
unfolding matches_glob
one_byte = refl

other_model : matches_glob (bytes "gpt-4*") (bytes "claude-3") ≡ false
unfolding matches_glob
other_model = refl

matches_glob_iff_example :
    (matches_glob (bytes "gpt-*-?") (bytes "gpt-4-a") ≡ true)
    ↔ GlobMatch (bytes "gpt-*-?") (bytes "gpt-4-a")
matches_glob_iff_example = matches_glob_iff (bytes "gpt-*-?") (bytes "gpt-4-a")
