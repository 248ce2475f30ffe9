-- ===== src/Dispatch/Plan/Models.antt =====
-- src-tauri/src/proxy/dispatch.rs: the models that may serve a request, and the order of the tries.
use model_switch.Base.{
  All, All-append, Bool-cases, In, eq_nat, eq_str, if◌then◌else◌, length, str_beq_refl, Str, ℕ, suc,
  ◌≡◌, refl, sym, ap, ◌∙◌, subst, inl, inr, Bool, true, false, ◌||◌, List, [], ◌∷◌, ◌++◌, arith,
}
use mathlib.Core.List.{append_assoc, append-nil}
use model_switch.Base.Map.{Map, get}
use model_switch.Router.Fallback.{holds_key, merge}
use model_switch.Router.Fallback.Chain.{Distinct, Distinct-append, holds_key-append}
use model_switch.Dispatch.Plan.{
  GatewayConfig, ModelRetryConfig, or_empty, base_chain, build_fallback_chain,
  resolve_model_retry_counts,
}

-- A chain of which all is in `fbs` and not in `base`, each model once.
abbrev IsNew : List Str → List Str → Str → Type 0
IsNew base fbs m = (holds_key m base ≡ false) × In m fbs

abbrev pub Extends : List Str → List Str → List Str → Type 0
Extends base fbs chain =
    (rest : List Str) × (chain ≡ base ++ rest)
    × All (IsNew base fbs) rest
    × Distinct rest
    × All (λ m. holds_key m chain ≡ true) fbs

holds_key-both :
    (k : Str) (xs ys : List Str) → holds_key k (xs ++ ys) ≡ (holds_key k xs || holds_key k ys)
holds_key-both k [] ys = refl
holds_key-both k (x ∷ xs) ys = ground (arith, holds_key-both k xs ys)

merge-holds_key :
    (k : Str) (chain fbs : List Str)
    → holds_key k chain ≡ true
    → holds_key k (merge chain fbs) ≡ true
unfolding merge
merge-holds_key k chain [] h = h
merge-holds_key k chain (fb ∷ fbs) h = elim (Bool-cases (holds_key fb chain)) [
  | inl held ↦ rw held (merge-holds_key k chain fbs h)
  | inr new ↦
      rw new
        (merge-holds_key k (chain ++ fb ∷ []) fbs (holds_key-append k fb chain ∙ ground (arith, h)))
]

covering :
    (fbs : List Str) {c d : List Str}
    → c ≡ d
    → All (λ m. holds_key m d ≡ true) fbs
    → All (λ m. holds_key m c ≡ true) fbs
covering fbs e = subst (λ z. All (λ m. holds_key m z ≡ true) fbs) (sym e)

merge-covers : (chain fbs : List Str) → All (λ m. holds_key m (merge chain fbs) ≡ true) fbs
unfolding merge
merge-covers chain [] = tt
merge-covers chain (fb ∷ fbs) = elim (Bool-cases (holds_key fb chain)) [
  | inl held ↦
      covering (fb ∷ fbs) (ap (λ b. merge (if b then chain else chain ++ fb ∷ []) fbs) held)
        (merge-holds_key fb chain fbs held, merge-covers chain fbs)
  | inr new ↦
      let pushed : holds_key fb (chain ++ fb ∷ []) ≡ true =
        holds_key-append fb fb chain ∙ ground (arith, str_beq_refl fb) in
      covering (fb ∷ fbs) (ap (λ b. merge (if b then chain else chain ++ fb ∷ []) fbs) new)
        (merge-holds_key fb (chain ++ fb ∷ []) fbs pushed, merge-covers (chain ++ fb ∷ []) fbs)
]

merge-IsNew :
    (base offered rest fbs : List Str)
    → All (IsNew base offered) rest
    → Distinct rest
    → ((m : Str) → In m fbs → In m offered)
    → (rest' : List Str) × (merge (base ++ rest) fbs ≡ base ++ rest')
      × All (IsNew base offered) rest'
      × Distinct rest'
unfolding merge
merge-IsNew base offered rest [] a d sub = (rest, refl, a, d)
merge-IsNew base offered rest (fb ∷ fbs) a d sub = elim (Bool-cases (holds_key fb (base ++ rest))) [
  | inl held ↦ rw held (merge-IsNew base offered rest fbs a d (λ m i. sub m (inr i)))
  | inr new ↦
      let apart : (holds_key fb base || holds_key fb rest) ≡ false =
        sym (holds_key-both fb base rest) ∙ new in
      let is_new : IsNew base offered fb = (ground arith, sub fb (inl refl)) in
      let distinct : Distinct (rest ++ fb ∷ []) = Distinct-append fb rest d (ground arith) in
      let (rest', e, a', d') =
        merge-IsNew base offered (rest ++ fb ∷ []) fbs
          (All-append (IsNew base offered) rest (fb ∷ []) a (is_new, tt)) distinct
          (λ m i. sub m (inr i)) in
      rw new (rest', ap (λ c. merge c fbs) (append_assoc base rest (fb ∷ [])) ∙ e, a', d')
]

-- The chain of a request is the chain of its own model, or the members of its group, followed by
-- models that are not in it, each once: those of the larger contexts that are listed for the request's
-- model, and all of those are in the chain.
pub build_fallback_chain-Extends :
    (model : Str) (is_group : Bool) (g : GatewayConfig)
    → Extends
        (base_chain model is_group g)
        (or_empty (get g.context_window_fallbacks model))
        (build_fallback_chain model is_group g)
unfolding build_fallback_chain
build_fallback_chain-Extends model is_group g =
    let base = base_chain model is_group g in
    let offered = or_empty (get g.context_window_fallbacks model) in
    let (rest, e, a, d) = merge-IsNew base offered [] offered tt tt (λ m i. i) in
    (rest, ap (λ c. merge c offered) (sym (append-nil base)) ∙ e, a, d, merge-covers base offered)

-- There is a number of tries for each model of the chain.
pub length-resolve_model_retry_counts :
    (ms : List Str) (overrides : Map Str ModelRetryConfig) (default_max_retries : ℕ)
    → length (resolve_model_retry_counts ms overrides default_max_retries) ≡ length ms
unfolding resolve_model_retry_counts
length-resolve_model_retry_counts [] overrides d = refl
length-resolve_model_retry_counts (m ∷ ms) overrides d =
    ap suc (length-resolve_model_retry_counts ms overrides d)
