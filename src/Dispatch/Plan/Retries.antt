-- ===== src/Dispatch/Plan/Retries.antt =====
-- src-tauri/src/proxy/dispatch.rs: the retry settings of a model.
use model_switch.Base.{
  Option-cases, eq_nat, eq_str, length, str_beq_iff, Str, ℕ, zero, suc, ◌+◌, ◌^◌, ◌≤◌, min, ◌≡◌,
  refl, sym, ap, ◌∙◌, subst, ◌⊎◌, inl, inr, true, Option, none, some, [], ◌∷◌, arith,
}
use model_switch.Base.Map.{Map, get}
use model_switch.Base.Longest.{longest, better, IsLongest, longest-IsLongest}
use model_switch.Router.Fallback.{strip_date_suffix, is_star, is_wildcard_for}
use model_switch.Dispatch.Plan.{
  ModelRetryConfig, Override, improved, best_wildcard, config_of, stripped_config,
  resolve_model_retry_config, exp_delay, saturating_mul_u64,
}

star_length : (key : Str) → is_star key ≡ true → length key ≡ 1
star_length key h = ap length ((str_beq_iff key (b'*' ∷ [])).0 h)

-- A best match is never the empty key.
abbrev KeyNonempty : Option Override → Type 0
KeyNonempty none = Unit
KeyNonempty (some e) = 1 ≤ length e.0

improved-better :
    (model : Str) (e : Override) (best : Option Override)
    → KeyNonempty best
    → (improved model e best ≡ better (is_wildcard_for model) e best)
      × KeyNonempty (improved model e best)
unfolding is_wildcard_for
improved-better model e none h = (ground (arith, star_length e.0), ground (arith, star_length e.0))
improved-better model e (some b) h =
    (ground (arith, star_length e.0), ground (arith, star_length e.0))

best_wildcard-longest :
    (model : Str) (best : Option Override) (es : Map Str ModelRetryConfig)
    → KeyNonempty best
    → best_wildcard model best es ≡ longest (is_wildcard_for model) best es
unfolding best_wildcard longest
best_wildcard-longest model best [] h = refl
best_wildcard-longest model best (e ∷ es) h =
    let (same, h') = improved-better model e best h in
    best_wildcard-longest model (improved model e best) es h'
    ∙ ap (λ b. longest (is_wildcard_for model) b es) same

-- The settings of a model are those under its own name, or else under its name without a date, or
-- else under the longest wildcard that covers it, or else none.
pub resolve_model_retry_config-IsLongest :
    (model : Str) (overrides : Map Str ModelRetryConfig)
    → ((cfg : ModelRetryConfig) × (get overrides model ≡ some cfg)
        × (resolve_model_retry_config model overrides ≡ cfg))
      ⊎ ((cfg : ModelRetryConfig) × (get overrides model ≡ none)
          × (stripped_config (strip_date_suffix model) overrides ≡ some cfg)
          × (resolve_model_retry_config model overrides ≡ cfg))
      ⊎ ((best : Option Override) × (get overrides model ≡ none)
          × (stripped_config (strip_date_suffix model) overrides ≡ none)
          × IsLongest (is_wildcard_for model) overrides best
          × (resolve_model_retry_config model overrides ≡ config_of best))
unfolding resolve_model_retry_config
resolve_model_retry_config-IsLongest model overrides = elim (Option-cases (get overrides model)) [
  | inr (cfg, e) ↦ inl (cfg, e, rw (e, resolve_model_retry_config) refl)
  | inl e ↦ elim (Option-cases (stripped_config (strip_date_suffix model) overrides)) [
    | inr (cfg, d) ↦
        inr
          (inl (cfg, e, d, rw (e, resolve_model_retry_config, d, resolve_model_retry_config) refl))
    | inl d ↦ inr (
        inr (
          longest (is_wildcard_for model) none overrides,
          e,
          d,
          longest-IsLongest (is_wildcard_for model) overrides,
          rw (e, resolve_model_retry_config, d, resolve_model_retry_config)
              (ap config_of (best_wildcard-longest model none overrides tt)),
        ))
  ]
]

exp_delay-sixth :
    (base most attempt : ℕ) → exp_delay base most (attempt + 6) ≡ exp_delay base most 6
unfolding exp_delay
exp_delay-sixth base most attempt =
    let six : min (attempt + 6) 6 ≡ 6 = omega arith in
    ap (λ n. min (saturating_mul_u64 base (2 ^ n)) most) six

exp_delay-later :
    (base most attempt : ℕ)
    → exp_delay base most (attempt + 6) ≤ exp_delay base most (attempt + 6 + 1)
exp_delay-later base most attempt =
    let next : attempt + 6 + 1 ≡ (attempt + 1) + 6 = omega arith in
    omega (
      arith,
      ap (exp_delay base most) next,
      exp_delay-sixth base most attempt,
      exp_delay-sixth base most (attempt + 1),
    )

exp_delay-suc :
    (base most attempt : ℕ) → exp_delay base most attempt ≤ exp_delay base most (attempt + 1)
unfolding exp_delay
exp_delay-suc base most zero = omega arith
exp_delay-suc base most (suc zero) = omega arith
exp_delay-suc base most (suc (suc zero)) = omega arith
exp_delay-suc base most (suc (suc (suc zero))) = omega arith
exp_delay-suc base most (suc (suc (suc (suc zero)))) = omega arith
exp_delay-suc base most (suc (suc (suc (suc (suc zero))))) = omega arith
exp_delay-suc base most (suc (suc (suc (suc (suc (suc attempt)))))) =
    let six : suc (suc (suc (suc (suc (suc attempt))))) ≡ attempt + 6 = omega arith in
    subst (λ n. exp_delay base most n ≤ exp_delay base most (n + 1)) (sym six)
      (exp_delay-later base most attempt)

-- The pause doubles with each of the first six attempts until it reaches the greatest pause, is never
-- longer than that, and stays as it is from the sixth attempt on.
pub exp_delay_bounds :
    (base most attempt : ℕ)
    → (exp_delay base most attempt ≤ most)
      × (exp_delay base most attempt ≤ exp_delay base most (attempt + 1))
      × (exp_delay base most (attempt + 6) ≡ exp_delay base most 6)
unfolding exp_delay
exp_delay_bounds base most attempt =
    (omega arith, exp_delay-suc base most attempt, exp_delay-sixth base most attempt)
