-- ===== src/Glob/Matches.antt =====
-- What a glob pattern means, as a relation that does not mention the search.
use native.Mathlib.Decide.{ℕ_discrete}
use model_switch.Base.{
  Str, ℕ, ◌≡◌, ◌≢◌, ◌↔◌, inl, inr, refl, ap, true, [], ◌∷◌, ◌++◌, arith, Bool-cases,
}
use model_switch.Glob.{match_helper, matches_glob}

-- `GlobMatch p t`: the text `t` is an instance of the pattern `p`.
pub data GlobMatch : Str → Str → Type 0 where
  done : GlobMatch [] []
  star :
      {c : ℕ} {p t s : Str} (pre : Str)
      → c ≡ b'*'
      → s ≡ pre ++ t
      → GlobMatch p t
      → GlobMatch (c ∷ p) s
  one : {c x : ℕ} {p t : Str} → c ≡ b'?' → GlobMatch p t → GlobMatch (c ∷ p) (x ∷ t)
  same :
      {c x : ℕ} {p t : Str}
      → c ≢ b'*'
      → c ≢ b'?'
      → x ≡ c
      → GlobMatch p t
      → GlobMatch (c ∷ p) (x ∷ t)

extend_star : {c x : ℕ} {p t : Str} → c ≡ b'*' → GlobMatch (c ∷ p) t → GlobMatch (c ∷ p) (x ∷ t)
extend_star {x = x} e (star pre e' h m) = star (x ∷ pre) e (ap (◌∷◌ x) h) m
extend_star e (one e' m) = absurd (omega arith)
extend_star e (same n n' h m) = absurd (n e)

sound : (p t : Str) → match_helper p t ≡ true → GlobMatch p t
unfolding match_helper
sound [] [] h = done
sound [] (x ∷ t) h = cc
sound (c ∷ p) [] h = star [] (ground arith) refl (sound p [] (ground arith))
sound (c ∷ p) (x ∷ t) h = elim (ℕ_discrete c b'*') [
  | yes e ↦ elim (Bool-cases (match_helper p (x ∷ t))) [
    | inl skip ↦ star [] e refl (sound p (x ∷ t) skip)
    | inr stay ↦ extend_star e (sound (c ∷ p) t (ground arith))
  ]
  | no n ↦ elim (ℕ_discrete c b'?') [
    | yes e ↦ one e (sound p t (ground arith))
    | no n' ↦ elim (ℕ_discrete x c) [
      | yes e ↦ same n n' e (sound p t (ground arith))
      | no k ↦ absurd (ground arith)
    ]
  ]
]

run_star :
    (c : ℕ) (p pre t : Str)
    → c ≡ b'*'
    → match_helper p t ≡ true
    → match_helper (c ∷ p) (pre ++ t) ≡ true
unfolding match_helper
run_star c p [] [] e h = ground arith
run_star c p [] (x ∷ t) e h = ground arith
run_star c p (x ∷ pre) t e h = ground (arith, run_star c p pre t e h)

complete : {p t : Str} → GlobMatch p t → match_helper p t ≡ true
unfolding match_helper
complete done = refl
complete (star {c} {p} {t} pre e h m) = rw h (run_star c p pre t e (complete m))
complete (one e m) = ground (arith, complete m)
complete (same n n' e m) = ground (arith, complete m)

-- The search of `matches_glob` answers true exactly on the texts that are instances of the pattern.
pub matches_glob_iff : (p t : Str) → (matches_glob p t ≡ true) ↔ GlobMatch p t
unfolding matches_glob
matches_glob_iff p t = (sound p t, complete)
