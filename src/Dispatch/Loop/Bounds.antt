-- ===== src/Dispatch/Loop/Bounds.antt =====
-- src-tauri/src/proxy/dispatch.rs: the attempts that a request makes.
use model_switch.Base.{
  Bool-cases, eq_nat, eq_str, if◌then◌else◌, ltb, ltb→lt, sum_by, Str, ℕ, zero, suc, ◌+◌, ◌≤◌, ◌<◌,
  ◌≡◌, refl, sym, ap, ap₂, ◌∙◌, ◌++◌, length, length-append, min, max, inl, inr, Bool, true, false,
  Option, List, [], ◌∷◌, arith,
}
use model_switch.F64.{Floats}
use model_switch.Router.Weighted.{Rng}
use model_switch.Registry.{ModelRegistry}
use model_switch.Dispatch.State.{AppState, World}
use model_switch.Dispatch.Select.{pre_flight_skip_model}
use model_switch.Dispatch.Loop.{
  Request, Step, answered, again, next_model, stopped, Progress, or_again, or_next, turn, attempts,
  over_models,
}

module _ (rng : Rng) (f : Floats) (lower : Str → Str) (stored : Str → Option Str)
    (registry : ModelRegistry) (today this_month : Str) (world : ℕ → World) (req : Request) where
  abbrev tries : Str → ℕ → ℕ → ℕ → AppState → Progress
  tries = attempts rng f lower stored registry today this_month world req

  -- The state after attempts, each with its model and its number on that model, that are made one
  -- after the other, when `total` were made before: every attempt meets its own part of the world.
  unfoldable pub play : ℕ → List (Str × ℕ) → AppState → AppState
  play total [] st = st
  play total (t ∷ ts) st =
      play (total + 1) ts
        (turn rng f lower stored registry today this_month world req t.0 t.1 (world total) st).0

  -- The state of a progress is that after a list of attempts, its counter has counted them, and they
  -- are no more than `most` with the `total` made before.
  abbrev pub Made : ℕ → ℕ → AppState → Progress → Type 0
  Made total most st p =
      (ts : List (Str × ℕ)) × (p.0 ≡ play total ts st)
      × (p.1.0 ≡ total + length ts)
      × (total + length ts ≤ most)

  play-append :
      (xs ys : List (Str × ℕ)) (total : ℕ) (st : AppState)
      → play total (xs ++ ys) st ≡ play (total + length xs) ys (play total xs st)
  unfolding play
  play-append [] ys total st = ap (λ n. play n ys st) (omega arith)
  play-append (t ∷ xs) ys total st =
      let st' =
        (turn rng f lower stored registry today this_month world req t.0 t.1 (world total) st).0 in
      play-append xs ys (total + 1) st'
      ∙ ap (λ n. play n ys (play (total + 1) xs st')) (omega arith)

  none-Made :
      (total most : ℕ) (st : AppState) (step : Step)
      → total ≤ most
      → Made total most st (st, (total, step))
  unfolding play
  none-Made total most st step l = ([], refl, omega arith, omega arith)

  or_again-Made :
      (total most : ℕ) (st : AppState) (step : Step) (rest : Progress)
      → total ≤ most
      → Made total most st rest
      → Made total most st (or_again st total step rest)
  or_again-Made total most st again rest l r = r
  or_again-Made total most st (answered x) rest l r = none-Made total most st (answered x) l
  or_again-Made total most st next_model rest l r = none-Made total most st next_model l
  or_again-Made total most st stopped rest l r = none-Made total most st stopped l

  -- One more attempt before those of a progress.
  turn-Made :
      (m : Str) (k total most : ℕ) (st : AppState) (p : Progress)
      → Made
          (total + 1)
          most
          (turn rng f lower stored registry today this_month world req m k (world total) st).0
          p
      → Made total most st p
  unfolding play
  turn-Made m k total most st p (ts, e, n, l) = ((m, k) ∷ ts, e, omega arith, omega arith)

  -- What a model made, and what the rest of the chain made from there.
  both-Made :
      (total most : ℕ) (st : AppState) (p rest : Progress)
      → Made total most st p
      → Made p.1.0 most p.0 rest
      → Made total most st rest
  both-Made total most st p rest (xs, e, n, l) (ys, e', n', l') = (
    xs ++ ys,
    e' ∙ ap₂ (λ t s. play t ys s) n e ∙ sym (play-append xs ys total st),
    omega (arith, length-append xs ys),
    omega (arith, length-append xs ys),
  )

  or_next-Made :
      (total most : ℕ) (st : AppState) (p rest : Progress)
      → Made total most st p
      → Made p.1.0 most p.0 rest
      → Made total most st (or_next p rest)
  or_next-Made total most st (st', (t, next_model)) rest p r =
      both-Made total most st (st', (t, next_model)) rest p r
  or_next-Made total most st (st', (t, again)) rest p r =
      both-Made total most st (st', (t, again)) rest p r
  or_next-Made total most st (st', (t, answered x)) rest p r = p
  or_next-Made total most st (st', (t, stopped)) rest p r = p

  if-Made :
      (total most : ℕ) (st : AppState) (b : Bool) (p q : Progress)
      → Made total most st p
      → Made total most st q
      → Made total most st (if b then p else q)
  if-Made total most st true p q x y = x
  if-Made total most st false p q x y = y

  raise-Made :
      (total most more : ℕ) (st : AppState) (p : Progress)
      → most ≤ more
      → Made total most st p
      → Made total more st p
  raise-Made total most more st p le (ts, e, n, l) = (ts, e, n, omega arith)

  attempts-Made :
      (m : Str) (left attempt total : ℕ) (st : AppState)
      → Made total
          (min (total + left) (max total req.max_total_attempts))
          st
          (tries m left attempt total st)
  unfolding attempts
  attempts-Made m zero attempt total st = none-Made total _ st next_model (omega arith)
  attempts-Made m (suc left) attempt total st =
      let w = world total in
      let most = min (total + suc left) (max total req.max_total_attempts) in
      let (st', step) =
        turn rng f lower stored registry today this_month world req m (attempt + 1) w st in
      let rest = tries m left (attempt + 1) (total + 1) st' in
      elim (Bool-cases (ltb total req.max_total_attempts)) [
        | inr over ↦ rw over (none-Made total most st next_model (omega arith))
        | inl below ↦
            let fits : total < req.max_total_attempts = ltb→lt total req.max_total_attempts below in
            let made =
              raise-Made (total + 1) _ most st' rest (omega (arith, fits))
                (attempts-Made m left (attempt + 1) (total + 1) st') in
            rw below (
              if-Made total most st (ltb req.deadline w.clock.instant) (st, (total, next_model))
                (or_again st' (total + 1) step rest)
                (none-Made total most st next_model (omega arith))
                (turn-Made m (attempt + 1) total most st (or_again st' (total + 1) step rest)
                  (or_again-Made (total + 1) most st' step rest (omega (arith, fits)) made)))
      ]

  -- The loop over the models makes a list of attempts, one after the other: its state is the one after
  -- them, and its counter has counted every one of them. They are at most as many as the counts of the
  -- models allow together, and those made before and they are at most the limit of the request, unless
  -- as many were made before.
  pub over_models_bounds :
      (ms : List Str) (counts : List ℕ) (total : ℕ) (st : AppState)
      → Made total
          (min (total + sum_by (λ n. n) counts) (max total req.max_total_attempts))
          st
          (over_models rng f lower stored registry today this_month world req ms counts total st)
  unfolding over_models
  over_models_bounds [] counts total st = none-Made total _ st next_model (omega arith)
  over_models_bounds (m ∷ ms) [] total st = none-Made total _ st stopped (omega arith)
  over_models_bounds (m ∷ ms) (count ∷ counts) total st =
      let most =
        min (total + (count + sum_by (λ n. n) counts)) (max total req.max_total_attempts) in
      let tried = tries m count 0 total st in
      let first = attempts-Made m count 0 total st in
      let over : ℕ → AppState → Progress =
        over_models rng f lower stored registry today this_month world req ms counts in
      let rest = over_models_bounds ms counts tried.1.0 tried.0 in
      if-Made total most st
        (pre_flight_skip_model registry (world total).clock st.cooldown_tracker m req.body_str_len
          st.manager.channels)
        (over total st) (or_next tried (over tried.1.0 tried.0))
        (raise-Made total _ most st (over total st) (omega arith)
          (over_models_bounds ms counts total st))
        (or_next-Made total most st tried (over tried.1.0 tried.0)
          (raise-Made total _ most st tried (omega arith) first)
          (raise-Made tried.1.0 _ most tried.0 (over tried.1.0 tried.0)
            (omega (arith, first.2, first.3)) rest))
