-- ===== src/Router/Select/Loop.antt =====
-- src-tauri/src/router/mod.rs: the loop from a state with candidates of its priority.
use model_switch.Base.{
  ℕ, ◌+◌, ◌≤◌, ◌<◌, ◌≡◌, ◌≢◌, ◌⊎◌, inl, inr, refl, ◌∙◌, Option, some, List, [], ◌∷◌, ◌++◌, true,
  false, length, nat_beq, ◌==◌, In, All, All-In, All-append, In-append, length-append, Bool-cases,
  arith,
}
use model_switch.Base.Sort.{IsSorted}
use model_switch.Channel.{Channel, half_open, eq_status, status_beq_iff}
use model_switch.Router.Strategy.Total.{Chooses}
use model_switch.Router.Select.{Groups, flush, route}

abbrev pub groups : ℕ → List Channel → List Channel → Groups
groups p h o = record { current_priority = p; healthy_candidates = h; halfopen_candidates = o }

-- A candidate that was pushed to a list is still one of all.
from_half :
    (h o rest : List Channel) (x c : Channel)
    → In c h ⊎ In c (o ++ x ∷ []) ⊎ In c rest
    → In c h ⊎ In c o ⊎ In c (x ∷ rest)
from_half h o rest x c (inl i) = inl i
from_half h o rest x c (inr (inr i)) = inr (inr (inr i))
from_half h o rest x c (inr (inl i)) = elim (In-append o (x ∷ []) c i) [
  | inl j ↦ inr (inl j)
  | inr (inl j) ↦ inr (inr (inl j))
  | inr (inr j) ↦ absurd j
]

from_full :
    (h o rest : List Channel) (x c : Channel)
    → In c (h ++ x ∷ []) ⊎ In c o ⊎ In c rest
    → In c h ⊎ In c o ⊎ In c (x ∷ rest)
from_full h o rest x c (inr (inl i)) = inr (inl i)
from_full h o rest x c (inr (inr i)) = inr (inr (inr i))
from_full h o rest x c (inl i) = elim (In-append h (x ∷ []) c i) [
  | inl j ↦ inl j
  | inr (inl j) ↦ inr (inr (inl j))
  | inr (inr j) ↦ absurd j
]

-- The lists are those of their priority, and not both empty.
abbrev AreOf : ℕ → List Channel → List Channel → Type 0
AreOf p h o =
    All (λ d. (d.priority ≡ p) × (d.status ≢ half_open)) h
    × All (λ d. (d.priority ≡ p) × (d.status ≡ half_open)) o
    × (0 < length h + length o)

-- What the loop gives, of the lists and the rest.
abbrev pub BestOf : ℕ → List Channel → List Channel → List Channel → Option Channel → Type 0
BestOf p h o rest r =
    (c : Channel) × (r ≡ some c)
    × (c.priority ≡ p)
    × (In c h ⊎ In c o ⊎ In c rest)
    × (c.status ≡ half_open
        → (length h ≡ 0) × All (λ d. d.priority ≡ p → d.status ≡ half_open) rest)

module _ (select : List Channel → Option Channel)
    (total : (cs : List Channel) → cs ≢ [] → Chooses (select cs) cs) where
  flush_best :
      (p : ℕ) (h o : List Channel) → AreOf p h o → BestOf p h o [] (flush select (groups p h o))
  flush_best p [] [] a = absurd (omega (arith, a.2))
  flush_best p [] (x ∷ o) a =
      let (c, e, m) = total (x ∷ o) (λ k. cc) in
      (c, rw e, (All-In _ (x ∷ o) a.1 m).0, inr (inl m), λ q. (refl, tt))
  flush_best p (x ∷ h) o a =
      let (c, e, m) = total (x ∷ h) (λ k. cc) in
      let fact = All-In _ (x ∷ h) a.0 m in (c, rw e, fact.0, inl m, λ q. absurd (fact.1 q))

  -- After the last candidate of the priority, none is left of it.
  later_priority :
      (p n : ℕ) (rest : List Channel)
      → p < n
      → All (λ d. n ≤ d.priority) rest
      → All (λ d. d.priority ≡ p → d.status ≡ half_open) rest
  later_priority p n [] lt a = tt
  later_priority p n (d ∷ rest) lt a =
      ((λ e. absurd (omega (arith, a.0))), later_priority p n rest lt a.1)

  pub same_half :
      (p : ℕ) (h o : List Channel) (x : Channel) (rest : List Channel)
      → nat_beq x.priority p ≡ true
      → (x.status == half_open) ≡ true
      → route select (groups p h o) (x ∷ rest) ≡ route select (groups p h (o ++ x ∷ [])) rest
  unfolding route
  same_half p h o x rest same half = rw (same, half)

  pub same_full :
      (p : ℕ) (h o : List Channel) (x : Channel) (rest : List Channel)
      → nat_beq x.priority p ≡ true
      → (x.status == half_open) ≡ false
      → route select (groups p h o) (x ∷ rest) ≡ route select (groups p (h ++ x ∷ []) o) rest
  unfolding route
  same_full p h o x rest same full = rw (same, full)

  other_priority :
      (p : ℕ) (h o : List Channel) (x : Channel) (rest : List Channel) (c : Channel)
      → nat_beq x.priority p ≡ false
      → flush select (groups p h o) ≡ some c
      → route select (groups p h o) (x ∷ rest) ≡ some c
  unfolding route
  other_priority p h o x rest c other e = rw (other, e)

  pub route_best :
      (p : ℕ) (h o rest : List Channel)
      → AreOf p h o
      → All (λ d. p ≤ d.priority) rest
      → IsSorted (λ d. d.priority) rest
      → BestOf p h o rest (route select (groups p h o) rest)
  unfolding route
  route_best p h o [] a low s = flush_best p h o a
  route_best p h o (x ∷ rest) a low s = elim (Bool-cases (nat_beq x.priority p)) [
    | inr other ↦
        let (c, e, q, m, first) = flush_best p h o a in
        let gt : p < x.priority = ground (arith, low.0) in
        (
          c,
          other_priority p h o x rest c other e,
          q,
          elim m [ inl i ↦ inl i | inr (inl i) ↦ inr (inl i) | inr (inr i) ↦ absurd i ],
          λ k.
              ((first k).0, ((λ z. absurd (omega arith)), later_priority p x.priority rest gt s.0)),
        )
    | inl same ↦ elim (Bool-cases (x.status == half_open)) [
      | inl half ↦
          let st : x.status ≡ half_open = (status_beq_iff x.status half_open).0 half in
          let pr : x.priority ≡ p = ground arith in
          let (c, e, q, m, first) =
            route_best p h (o ++ x ∷ []) rest
              (
                a.0,
                All-append _ o (x ∷ []) a.1 ((pr, st), tt),
                omega (arith, length-append o (x ∷ [])),
              )
              low.1 s.1 in
          (
            c,
            same_half p h o x rest same half ∙ e,
            q,
            from_half h o rest x c m,
            λ k. ((first k).0, ((λ z. st), (first k).1)),
          )
      | inr full ↦
          let st : x.status ≢ half_open = λ k. cc ((status_beq_iff x.status half_open).1 k) in
          let pr : x.priority ≡ p = ground arith in
          let (c, e, q, m, first) =
            route_best p (h ++ x ∷ []) o rest
              (
                All-append _ h (x ∷ []) a.0 ((pr, st), tt),
                a.1,
                omega (arith, length-append h (x ∷ [])),
              )
              low.1 s.1 in
          (
            c,
            same_full p h o x rest same full ∙ e,
            q,
            from_full h o rest x c m,
            λ k. absurd (omega (arith, (first k).0, length-append h (x ∷ []))),
          )
    ]
  ]
