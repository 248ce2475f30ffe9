-- ===== src/Glob.antt =====
-- `matches_glob` of src-tauri/src/channel/mod.rs: `*` stands for any sequence of bytes, `?` for one.
pub mod Matches
mod Tests
use model_switch.Base.{Str, ◌==◌, eq_nat, if◌then◌else◌, Bool, true, false, is_empty, [], ◌∷◌}

-- `match_helper(p, t)`. What a `let` binds is computed when a branch reads it, as in the source.
unfoldable pub match_helper : Str → Str → Bool
match_helper [] t = is_empty t
match_helper (c ∷ p) [] = let rest = match_helper p [] in if c == b'*' then rest else false
match_helper (c ∷ p) (x ∷ t) =
    let skip = match_helper p (x ∷ t) in
    let more = match_helper (c ∷ p) t in
    let next = match_helper p t in
    if c == b'*'
    then (if skip then true else more)
    else if c == b'?'
    then next
    else if x == c
    then next
    else false

unfoldable pub matches_glob : Str → Str → Bool
unfolding match_helper
matches_glob pattern text = match_helper pattern text
