-- ===== src/Router/Select/Best.antt =====
-- src-tauri/src/router/mod.rs: the priorities in the loop over the sorted candidates.
use model_switch.Base.{
  ℕ, ◌≤◌, ◌≡◌, ◌≢◌, inl, inr, refl, sym, ap, subst, ◌∙◌, Option, some, List, [], ◌∷◌, true, false,
  nat_beq, nat_beq_iff, ◌==◌, In, All, Bool-cases, arith,
}
use model_switch.Base.Sort.{IsSorted}
use model_switch.Channel.{Channel, half_open, eq_status, status_beq_iff}
use model_switch.Router.Strategy.Total.{Chooses}
use model_switch.Router.Select.{route, no_groups}
use model_switch.Router.Select.Loop.{groups, same_half, same_full, route_best}

-- What the loop is to give: a candidate of the least priority, and a half-open one if that
-- priority has no other.
abbrev pub FirstOf : List Channel → Option Channel → Type 0
FirstOf cs r =
    (c : Channel) × (r ≡ some c)
    × In c cs
    × All (λ d. c.priority ≤ d.priority) cs
    × (c.status ≡ half_open → All (λ d. d.priority ≡ c.priority → d.status ≡ half_open) cs)

module _ (select : List Channel → Option Channel)
    (total : (cs : List Channel) → cs ≢ [] → Chooses (select cs) cs) where
  start_half :
      (x : Channel) (rest : List Channel)
      → (x.status == half_open) ≡ true
      → route select no_groups (x ∷ rest) ≡ route select (groups x.priority [] (x ∷ [])) rest
  unfolding route
  start_half x rest half = elim (Bool-cases (nat_beq x.priority 0)) [
    | inl same ↦
        let z : x.priority ≡ 0 = (nat_beq_iff x.priority 0).0 same in
        same_half select total 0 [] [] x rest same half
        ∙ ap (λ p. route select (groups p [] (x ∷ [])) rest) (sym z)
    | inr other ↦ rw (other, half)
  ]

  start_full :
      (x : Channel) (rest : List Channel)
      → (x.status == half_open) ≡ false
      → route select no_groups (x ∷ rest) ≡ route select (groups x.priority (x ∷ []) []) rest
  unfolding route
  start_full x rest full = elim (Bool-cases (nat_beq x.priority 0)) [
    | inl same ↦
        let z : x.priority ≡ 0 = (nat_beq_iff x.priority 0).0 same in
        same_full select total 0 [] [] x rest same full
        ∙ ap (λ p. route select (groups p (x ∷ []) []) rest) (sym z)
    | inr other ↦ rw (other, full)
  ]

  low-All :
      (p q : ℕ) (cs : List Channel)
      → q ≡ p
      → All (λ d. p ≤ d.priority) cs
      → All (λ d. q ≤ d.priority) cs
  low-All p q cs e a = subst (λ n. All (λ d. n ≤ d.priority) cs) (sym e) a

  half-All :
      (p q : ℕ) (cs : List Channel)
      → q ≡ p
      → All (λ d. d.priority ≡ p → d.status ≡ half_open) cs
      → All (λ d. d.priority ≡ q → d.status ≡ half_open) cs
  half-All p q cs e a = subst (λ n. All (λ d. d.priority ≡ n → d.status ≡ half_open) cs) (sym e) a

  pub route-start :
      (x : Channel) (rest : List Channel)
      → IsSorted (λ d. d.priority) (x ∷ rest)
      → FirstOf (x ∷ rest) (route select no_groups (x ∷ rest))
  route-start x rest s = elim (Bool-cases (x.status == half_open)) [
    | inl half ↦
        let st : x.status ≡ half_open = (status_beq_iff x.status half_open).0 half in
        let (c, e, q, m, first) =
          route_best select total x.priority [] (x ∷ []) rest (tt, ((refl, st), tt), omega arith)
            s.0 s.1 in
        (
          c,
          start_half x rest half ∙ e,
          elim m [
            | inr (inl (inl i)) ↦ inl i
            | inr (inr i) ↦ inr i
            | inl i ↦ absurd i
            | inr (inl (inr i)) ↦ absurd i
          ],
          (omega (arith, q), low-All x.priority c.priority rest q s.0),
          λ k. ((λ z. st), half-All x.priority c.priority rest q (first k).1),
        )
    | inr full ↦
        let st : x.status ≢ half_open = λ k. cc ((status_beq_iff x.status half_open).1 k) in
        let (c, e, q, m, first) =
          route_best select total x.priority (x ∷ []) [] rest (((refl, st), tt), tt, omega arith)
            s.0 s.1 in
        (
          c,
          start_full x rest full ∙ e,
          elim m [
            | inl (inl i) ↦ inl i
            | inr (inr i) ↦ inr i
            | inl (inr i) ↦ absurd i
            | inr (inl i) ↦ absurd i
          ],
          (omega (arith, q), low-All x.priority c.priority rest q s.0),
          λ k. absurd (omega (arith, (first k).0)),
        )
  ]
