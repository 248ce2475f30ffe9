-- ===== src/Router/Strategy/Busy.antt =====
-- src-tauri/src/router/strategy.rs: the choice of the least-busy strategy.
use model_switch.Base.{
  subst, ℕ, ◌+◌, ◌≤◌, ◌<◌, ◌≡◌, ◌≢◌, inl, inr, refl, ap, sym, some, List, [], ◌∷◌, ◌++◌, Bool, true,
  false, length, get_elem?-lt, nat_beq, ltb, if◌then◌else◌, In, All, In-get_elem?, All-of_In,
  All-In, All-append, Bool-cases, length-append, sum_by, arith, max_u32,
}
use model_switch.Channel.{Channel}
use model_switch.Trackers.ActiveRequests
use model_switch.Trackers.ActiveRequests.{ActiveRequests}
use model_switch.Router.Weighted.{Rng}
use model_switch.Router.Weighted.Chance.{weighted_random_total}
use model_switch.Router.Strategy.{busy_step, busy_loop, select_least_busy}

module _ (counts : ActiveRequests) where
  abbrev count : Channel → ℕ
  count c = ActiveRequests.get counts c.id

  loop_less :
      (n : ℕ) (held : List Channel) (c : Channel) (cs : List Channel)
      → ltb (count c) n ≡ true
      → busy_loop counts (n, held) (c ∷ cs) ≡ busy_loop counts (count c, c ∷ []) cs
  unfolding busy_loop
  loop_less n held c cs less = ap (λ s. busy_loop counts s cs) step
    where
      step : busy_step counts (n, held) c ≡ (count c, c ∷ [])
      step = rw less

  loop_same :
      (n : ℕ) (held : List Channel) (c : Channel) (cs : List Channel)
      → ltb (count c) n ≡ false
      → nat_beq (count c) n ≡ true
      → busy_loop counts (n, held) (c ∷ cs) ≡ busy_loop counts (n, held ++ c ∷ []) cs
  unfolding busy_loop
  loop_same n held c cs more same = ap (λ s. busy_loop counts s cs) step
    where
      step : busy_step counts (n, held) c ≡ (n, held ++ c ∷ [])
      step = rw (more, same)

  loop_other :
      (n : ℕ) (held : List Channel) (c : Channel) (cs : List Channel)
      → ltb (count c) n ≡ false
      → nat_beq (count c) n ≡ false
      → busy_loop counts (n, held) (c ∷ cs) ≡ busy_loop counts (n, held) cs
  unfolding busy_loop
  loop_other n held c cs more other = ap (λ s. busy_loop counts s cs) step
    where
      step : busy_step counts (n, held) c ≡ (n, held)
      step = rw (more, other)

  module _ (Good : ℕ × List Channel → Type 0) (n : ℕ) (held : List Channel) (c : Channel)
      (cs : List Channel) where
    -- One round of the loop, in its three cases.
    loop_split :
        (ltb (count c) n ≡ true → Good (busy_loop counts (count c, c ∷ []) cs))
        → (count c ≡ n → Good (busy_loop counts (n, held ++ c ∷ []) cs))
        → (n < count c → Good (busy_loop counts (n, held) cs))
        → Good (busy_loop counts (n, held) (c ∷ cs))
    loop_split l s o = elim (Bool-cases (ltb (count c) n)) [
      | inl less ↦ subst Good (sym (loop_less n held c cs less)) (l less)
      | inr more ↦ elim (Bool-cases (nat_beq (count c) n)) [
        | inl same ↦ subst Good (sym (loop_same n held c cs more same)) (s (ground arith))
        | inr other ↦ subst Good (sym (loop_other n held c cs more other)) (o (ground arith))
      ]
    ]

  -- What holds of the loop's result: its count is a lower bound, and that of all channels kept.
  abbrev LeastOf : ℕ → List Channel → ℕ × List Channel → Type 0
  LeastOf n rest r = (r.0 ≤ n) × All (λ c. r.0 ≤ count c) rest × All (λ c. count c ≡ r.0) r.1

  loop_least :
      (n : ℕ) (held rest : List Channel)
      → All (λ c. count c ≡ n) held
      → LeastOf n rest (busy_loop counts (n, held) rest)
  unfolding busy_loop
  loop_least n held [] h = (omega arith, tt, h)
  loop_least n held (c ∷ cs) h =
      loop_split (LeastOf n (c ∷ cs)) n held c cs
        (λ less.
          let (low, all, exact) = loop_least (count c) (c ∷ []) cs (refl, tt) in
          (ground arith, (low, all), exact))
        (λ e.
          let (low, all, exact) =
            loop_least n (held ++ c ∷ []) cs
              (All-append (λ d. count d ≡ n) held (c ∷ []) h (e, tt)) in
          (low, (omega arith, all), exact))
        (λ o. let (low, all, exact) = loop_least n held cs h in (low, (omega arith, all), exact))

  -- Whatever holds of all candidates holds of those kept.
  loop_keeps :
      (P : Channel → Type 0) (n : ℕ) (held rest : List Channel)
      → All P held
      → All P rest
      → All P (busy_loop counts (n, held) rest).1
  unfolding busy_loop
  loop_keeps P n held [] h r = h
  loop_keeps P n held (c ∷ cs) h r =
      loop_split (λ x. All P x.1) n held c cs
        (λ less. loop_keeps P (count c) (c ∷ []) cs (r.0, tt) r.1)
        (λ e. loop_keeps P n (held ++ c ∷ []) cs (All-append P held (c ∷ []) h (r.0, tt)) r.1)
        (λ o. loop_keeps P n held cs h r.1)

  -- How many candidates have a count.
  abbrev having : ℕ → List Channel → ℕ
  having m = sum_by (λ c. if nat_beq (count c) m then 1 else 0)

  abbrev held_if : Bool → List Channel → ℕ
  held_if b held = if b then length held else 0

  -- All the candidates with the least count are kept.
  abbrev KeepsAll : ℕ → List Channel → List Channel → ℕ × List Channel → Type 0
  KeepsAll n held rest r = (r.0 ≤ n) × (length r.1 ≡ held_if (nat_beq r.0 n) held + having r.0 rest)

  loop_length :
      (n : ℕ) (held rest : List Channel) → KeepsAll n held rest (busy_loop counts (n, held) rest)
  unfolding busy_loop
  loop_length n held [] = (omega arith, ground arith)
  loop_length n held (c ∷ cs) =
      loop_split (KeepsAll n held (c ∷ cs)) n held c cs
        (λ less.
          let ih = loop_length (count c) (c ∷ []) cs in (ground (arith, ih), ground (arith, ih)))
        (λ e.
          let ih = loop_length n (held ++ c ∷ []) cs in
          (omega (arith, ih.0), ground (arith, ih, length-append held (c ∷ []))))
        (λ o. let ih = loop_length n held cs in (omega (arith, ih.0), ground (arith, ih)))

  -- If as many candidates have a count as there are, all have it.
  having-le : (m : ℕ) (cs : List Channel) → having m cs ≤ length cs
  having-le m [] = omega arith
  having-le m (c ∷ cs) = ground (arith, having-le m cs)

  having-All : (m : ℕ) (cs : List Channel) → having m cs ≡ length cs → All (λ c. count c ≡ m) cs
  having-All m [] h = tt
  having-All m (c ∷ cs) h =
      (ground (arith, having-le m cs), having-All m cs (ground (arith, having-le m cs)))

  loop_nonempty :
      (n : ℕ) (held rest : List Channel)
      → 0 < length held
      → 0 < length (busy_loop counts (n, held) rest).1
  unfolding busy_loop
  loop_nonempty n held [] h = h
  loop_nonempty n held (c ∷ cs) h =
      loop_split (λ x. 0 < length x.1) n held c cs
        (λ less. loop_nonempty (count c) (c ∷ []) cs (omega arith))
        (λ e. loop_nonempty n (held ++ c ∷ []) cs (omega (arith, length-append held (c ∷ []))))
        (λ o. loop_nonempty n held cs h)

  start_nonempty :
      (c : Channel) (cs : List Channel)
      → count c ≤ max_u32
      → 0 < length (busy_loop counts (max_u32, []) (c ∷ cs)).1
  start_nonempty c cs h =
      loop_split (λ x. 0 < length x.1) max_u32 [] c cs
        (λ less. loop_nonempty (count c) (c ∷ []) cs (omega arith))
        (λ e. loop_nonempty max_u32 (c ∷ []) cs (omega arith)) (λ o. absurd (omega arith))

  All-le :
      (m n : ℕ) (cs : List Channel) → n ≡ m → All (λ c. m ≤ count c) cs → All (λ c. n ≤ count c) cs
  All-le m n [] e a = tt
  All-le m n (c ∷ cs) e a = (omega arith, All-le m n cs e a.1)

  -- Of any candidates the strategy chooses one, and no candidate has fewer requests in flight than
  -- the chosen one. The counters are 32-bit numbers.
  pub select_least_busy-fewest :
      (rng : Rng) (candidates : List Channel)
      → candidates ≢ []
      → ((id : ℕ) → ActiveRequests.get counts id ≤ max_u32)
      → (c : Channel) × (select_least_busy rng counts candidates ≡ some c)
        × In c candidates
        × All (λ d. ActiveRequests.get counts c.id ≤ ActiveRequests.get counts d.id) candidates
  unfolding select_least_busy
  select_least_busy-fewest rng [] h fits = absurd (h refl)
  select_least_busy-fewest rng (x ∷ xs) h fits =
      let r = busy_loop counts (max_u32, []) (x ∷ xs) in
      let (low, all, exact) = loop_least max_u32 [] (x ∷ xs) tt in
      elim (Bool-cases (nat_beq (length r.1) (length (x ∷ xs)))) [
        | inl equal ↦
            let (c, e, m, p) = weighted_random_total rng (x ∷ xs) h in
            let (below, size) = loop_length max_u32 [] (x ∷ xs) in
            let every = having-All r.0 (x ∷ xs) (ground (arith, size)) in
            (
              c,
              rw equal e,
              m,
              All-le r.0 (count c) (x ∷ xs) (All-In (λ d. count d ≡ r.0) (x ∷ xs) every m) all,
            )
        | inr fewer ↦
            let some_kept = start_nonempty x xs (fits x.id) in
            let (c, found) = get_elem?-lt r.1 (rng.below (length r.1)) (rng.below_lt _ some_kept) in
            let m = In-get_elem? r.1 _ found in
            (
              c,
              rw fewer found,
              All-In (λ d. In d (x ∷ xs)) r.1
                  (loop_keeps (λ d. In d (x ∷ xs)) max_u32 [] (x ∷ xs) tt
                    (All-of_In _ (x ∷ xs) (λ a i. i)))
                  m,
              All-le r.0 (count c) (x ∷ xs) (All-In (λ d. count d ≡ r.0) r.1 exact m) all,
            )
      ]
