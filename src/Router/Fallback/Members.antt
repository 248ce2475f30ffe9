-- ===== src/Router/Fallback/Members.antt =====
-- Which models a fallback chain of src-tauri/src/router/fallback.rs holds.
use model_switch.Base.{
  In-append_left, In-append_right, Bool-cases, In, In-append, In-filter, In-filter_of, Option-cases,
  eq_nat, eq_str, some_inj, str_beq, str_beq_iff, Str, ◌≡◌, refl, sym, ap, ◌∙◌, subst, ◌↔◌, ◌⊎◌,
  inl, inr, Bool, true, false, ◌||◌, Option, none, some, List, [], ◌∷◌, ◌++◌, arith,
}
use model_switch.Base.Map.{Map, get, Unique, In-get, get-In}
use model_switch.Base.Sort.{In-sort_by, In-sort_by_of}
use model_switch.Router.Fallback.{
  Entry, strip_date_suffix, is_wildcard_for, match_wildcards, by_prefix, list_of, holds_key,
  once_each, exact_stripped, wildcards_stripped, resolve_fallback_chain,
}
use model_switch.Router.Fallback.Chain.{Offered, merge_all-In, In-merge_all}

-- An entry applies to a model by its key or as a wildcard, and also to the model without its date.
abbrev pub applies : Str → Str → Bool
applies model key = str_beq key model || is_wildcard_for model key

abbrev applies_stripped : Option Str → Str → Bool
applies_stripped none key = false
applies_stripped (some stripped) key = applies stripped key

abbrev pub applies_to : Str → Str → Bool
applies_to model key = applies model key || applies_stripped (strip_date_suffix model) key

Offered-append :
    (m : Str) (xs ys : List (List Str)) → Offered m (xs ++ ys) → Offered m xs ⊎ Offered m ys
Offered-append m [] ys o = inr o
Offered-append m (x ∷ xs) ys (inl i) = inl (inl i)
Offered-append m (x ∷ xs) ys (inr o) = elim (Offered-append m xs ys o) [
  | inl j ↦ inl (inr j)
  | inr j ↦ inr j
]

Offered-append_left : (m : Str) (xs ys : List (List Str)) → Offered m xs → Offered m (xs ++ ys)
Offered-append_left m [] ys o = absurd o
Offered-append_left m (x ∷ xs) ys (inl i) = inl i
Offered-append_left m (x ∷ xs) ys (inr o) = inr (Offered-append_left m xs ys o)

Offered-append_right : (m : Str) (xs ys : List (List Str)) → Offered m ys → Offered m (xs ++ ys)
Offered-append_right m [] ys o = o
Offered-append_right m (x ∷ xs) ys o = inr (Offered-append_right m xs ys o)

once_each-Offered :
    (m : Str) (seen : List Str) (es : List Entry)
    → Offered m (once_each seen es)
    → (e : Entry) × In e es × In m e.1
unfolding once_each
once_each-Offered m seen [] o = absurd o
once_each-Offered m seen ((key, fb) ∷ rest) o = elim (Bool-cases (holds_key key seen)) [
  | inl held ↦ let (e, i, j) = once_each-Offered m seen rest (rw held at o) in (e, inr i, j)
  | inr new ↦
      let here_or_later : In m fb ⊎ Offered m (once_each (key ∷ seen) rest) = rw new at o in
      elim here_or_later [
        | inl i ↦ ((key, fb), inl refl, i)
        | inr later ↦ let (e, i, j) = once_each-Offered m (key ∷ seen) rest later in (e, inr i, j)
      ]
]

-- Entries of one key are one entry.
abbrev IsMap : List Entry → Type 0
IsMap es = (a b : Entry) → In a es → In b es → a.0 ≡ b.0 → a.1 ≡ b.1

Offered-once_each :
    (m : Str) (seen : List Str) (es : List Entry) (e : Entry)
    → IsMap es
    → In e es
    → In m e.1
    → holds_key e.0 seen ≡ false
    → Offered m (once_each seen es)
unfolding once_each
Offered-once_each m seen [] e u i j h = absurd i
Offered-once_each m seen ((key, fb) ∷ rest) e u i j h = elim (Bool-cases (holds_key key seen)) [
  | inl held ↦ elim i [
    | inl same ↦ let k : e.0 ≡ key = ap (λ z. z.0) same in cc
    | inr later ↦
        rw held (Offered-once_each m seen rest e (λ a b x y. u a b (inr x) (inr y)) later j h)
  ]
  | inr new ↦ elim (Bool-cases (str_beq key e.0)) [
    | inl same ↦
        let l : e.1 ≡ fb = u e (key, fb) i (inl refl) (sym ((str_beq_iff key e.0).0 same)) in
        rw new (inl (subst (λ z. In m z) l j))
    | inr other ↦ elim i [
      | inl here ↦ let k : e.0 ≡ key = ap (λ z. z.0) here in cc ((str_beq_iff key e.0).1 (sym k))
      | inr later ↦ rw new (
          inr (
            Offered-once_each m (key ∷ seen) rest e (λ a b x y. u a b (inr x) (inr y)) later j
              (rw other h)))
    ]
  ]
]

module _ (fallbacks : Map Str (List Str)) where
  match_wildcards-In :
      (model : Str) (e : Entry)
      → In e (match_wildcards model fallbacks)
      → In e fallbacks × (is_wildcard_for model e.0 ≡ true)
  unfolding match_wildcards
  match_wildcards-In model e i = In-filter _ fallbacks (In-sort_by by_prefix _ e i)

  In-match_wildcards :
      (model : Str) (e : Entry)
      → In e fallbacks
      → is_wildcard_for model e.0 ≡ true
      → In e (match_wildcards model fallbacks)
  unfolding match_wildcards
  In-match_wildcards model e i h = In-sort_by_of by_prefix _ e (In-filter_of _ fallbacks i h)

  list_of-Offered :
      (m key : Str)
      → Offered m (list_of (get fallbacks key))
      → (e : Entry) × In e fallbacks × (e.0 ≡ key) × In m e.1
  list_of-Offered m key o = elim (Option-cases (get fallbacks key)) [
    | inl none_held ↦ absurd (rw none_held at o)
    | inr (fb, held) ↦
        let o' : In m fb ⊎ ⊥ = rw held at o in
        elim o' [ inl i ↦ ((key, fb), In-get fallbacks key held, refl, i) | inr bad ↦ absurd bad ]
  ]

  Offered-list_of :
      (m : Str) (e : Entry)
      → Unique fallbacks
      → In e fallbacks
      → In m e.1
      → Offered m (list_of (get fallbacks e.0))
  Offered-list_of m e u i j = rw (get-In fallbacks e.0 u i) (inl j)

  -- What a chain is offered by its lists.
  abbrev pub FromEntry : Str → Str → Type 0
  FromEntry model m = (e : Entry) × In e fallbacks × (applies_to model e.0 ≡ true) × In m e.1

  key-applies : (model : Str) (key : Str) → key ≡ model → applies model key ≡ true
  key-applies model key e = ground (arith, (str_beq_iff key model).1 e)

  wildcard-applies : (model key : Str) → is_wildcard_for model key ≡ true → applies model key ≡ true
  wildcard-applies model key h = ground arith

  direct-applies : (model key : Str) → applies model key ≡ true → applies_to model key ≡ true
  direct-applies model key h = ground arith

  stripped-applies :
      (model s key : Str)
      → strip_date_suffix model ≡ some s
      → applies s key ≡ true
      → applies_to model key ≡ true
  stripped-applies model s key e h = rw e (ground arith)

  from_exact_stripped :
      (m model : Str)
      → Offered m (exact_stripped (strip_date_suffix model) fallbacks)
      → FromEntry model m
  from_exact_stripped m model o = elim (Option-cases (strip_date_suffix model)) [
    | inl nothing ↦ absurd (rw nothing at o)
    | inr (s, stripped) ↦
        let (e, i, k, j) = list_of-Offered m s (rw stripped at o) in
        (e, i, stripped-applies model s e.0 stripped (key-applies s e.0 k), j)
  ]

  from_wildcards :
      (m model : Str) (e : Entry)
      → In e (
          match_wildcards model fallbacks ++ wildcards_stripped (strip_date_suffix model) fallbacks)
      → In m e.1
      → FromEntry model m
  from_wildcards m model e i j = elim (In-append (match_wildcards model fallbacks) _ e i) [
    | inl direct ↦
        let (k, h) = match_wildcards-In model e direct in
        (e, k, direct-applies model e.0 (wildcard-applies model e.0 h), j)
    | inr later ↦ elim (Option-cases (strip_date_suffix model)) [
      | inl nothing ↦ absurd (rw nothing at later)
      | inr (s, stripped) ↦
          let (k, h) = match_wildcards-In s e (rw stripped at later) in
          (e, k, stripped-applies model s e.0 stripped (wildcard-applies s e.0 h), j)
    ]
  ]

  chain-from :
      (model m : Str)
      → In m (resolve_fallback_chain model fallbacks)
      → (m ≡ model) ⊎ FromEntry model m
  unfolding resolve_fallback_chain
  chain-from model m i = elim (merge_all-In m (model ∷ []) _ i) [
    | inl (inl e) ↦ inl e
    | inl (inr bad) ↦ absurd bad
    | inr o ↦ elim (Offered-append m (list_of (get fallbacks model)) _ o) [
      | inl exact ↦
          let (e, k, h, j) = list_of-Offered m model exact in
          inr (e, k, direct-applies model e.0 (key-applies model e.0 h), j)
      | inr more ↦
          elim (Offered-append m (exact_stripped (strip_date_suffix model) fallbacks) _ more) [
            | inl stripped ↦ inr (from_exact_stripped m model stripped)
            | inr wild ↦
                let (e, k, j) = once_each-Offered m [] _ wild in inr (from_wildcards m model e k j)
          ]
    ]
  ]

  In-all_wildcards :
      (model : Str) (e : Entry)
      → In e (
          match_wildcards model fallbacks ++ wildcards_stripped (strip_date_suffix model) fallbacks)
      → In e fallbacks
  In-all_wildcards model e i = elim (In-append (match_wildcards model fallbacks) _ e i) [
    | inl direct ↦ (match_wildcards-In model e direct).0
    | inr later ↦ elim (Option-cases (strip_date_suffix model)) [
      | inl nothing ↦ absurd (rw nothing at later)
      | inr (s, stripped) ↦ (match_wildcards-In s e (rw stripped at later)).0
    ]
  ]

  all_wildcards-IsMap :
      (model : Str)
      → Unique fallbacks
      → IsMap (
          match_wildcards model fallbacks ++ wildcards_stripped (strip_date_suffix model) fallbacks)
  all_wildcards-IsMap model u a b i j e =
      let p = get-In fallbacks a.0 u (In-all_wildcards model a i) in
      let q = get-In fallbacks b.0 u (In-all_wildcards model b j) in
      some_inj (sym p ∙ ap (get fallbacks) e ∙ q)

  -- The two ways in which an entry applies, to one model.
  applies-cases :
      (model key : Str)
      → applies model key ≡ true
      → (key ≡ model) ⊎ (is_wildcard_for model key ≡ true)
  applies-cases model key h = elim (Bool-cases (str_beq key model)) [
    | inl e ↦ inl ((str_beq_iff key model).0 e)
    | inr n ↦ inr (rw n at h)
  ]

  module _ (model m : Str) (e : Entry) (u : Unique fallbacks) (i : In e fallbacks)
      (j : In m e.1) where
    wild-chain :
        In e (
          match_wildcards model fallbacks ++ wildcards_stripped (strip_date_suffix model) fallbacks)
        → In m (resolve_fallback_chain model fallbacks)
    unfolding resolve_fallback_chain
    wild-chain k = In-merge_all m (model ∷ []) _ (
        inr (
          Offered-append_right m (list_of (get fallbacks model)) _ (
            Offered-append_right m (exact_stripped (strip_date_suffix model) fallbacks) _
              (Offered-once_each m [] _ e (all_wildcards-IsMap model u) k j refl))))

    exact-chain : e.0 ≡ model → In m (resolve_fallback_chain model fallbacks)
    unfolding resolve_fallback_chain
    exact-chain k = In-merge_all m (model ∷ []) _ (
        inr (
          Offered-append_left m (list_of (get fallbacks model)) _
            (subst (λ z. Offered m (list_of (get fallbacks z))) k (Offered-list_of m e u i j))))

    stripped-chain :
        (s : Str)
        → strip_date_suffix model ≡ some s
        → e.0 ≡ s
        → In m (resolve_fallback_chain model fallbacks)
    unfolding resolve_fallback_chain
    stripped-chain s h k =
        let o : Offered m (exact_stripped (strip_date_suffix model) fallbacks) =
          rw h (subst (λ z. Offered m (list_of (get fallbacks z))) k (Offered-list_of m e u i j)) in
        In-merge_all m (model ∷ []) _ (
          inr (
            Offered-append_right m (list_of (get fallbacks model)) _
              (Offered-append_left m (exact_stripped (strip_date_suffix model) fallbacks) _ o)))

    applies-chain : applies_to model e.0 ≡ true → In m (resolve_fallback_chain model fallbacks)
    applies-chain h = elim (Bool-cases (applies model e.0)) [
      | inl direct ↦ elim (applies-cases model e.0 direct) [
        | inl k ↦ exact-chain k
        | inr w ↦ wild-chain (In-append_left _ _ e (In-match_wildcards model e i w))
      ]
      | inr not_direct ↦ elim (Option-cases (strip_date_suffix model)) [
        | inl nothing ↦ absurd (cc (rw (not_direct, nothing) at h))
        | inr (s, stripped) ↦ elim (applies-cases s e.0 (rw (not_direct, stripped) at h)) [
          | inl k ↦ stripped-chain s stripped k
          | inr w ↦ wild-chain (
              In-append_right (match_wildcards model fallbacks) _ e
                (rw stripped (In-match_wildcards s e i w)))
        ]
      ]
    ]

  -- The chain holds the model that was asked for and the models of every entry that applies, and no
  -- other: an entry applies if its key is the model or a wildcard for it, or is so for the model
  -- without its date. The map has no key twice.
  pub resolve_fallback_chain_iff :
      (model m : Str)
      → Unique fallbacks
      → In m (resolve_fallback_chain model fallbacks) ↔ ((m ≡ model) ⊎ FromEntry model m)
  unfolding resolve_fallback_chain
  resolve_fallback_chain_iff model m u = (
    chain-from model m,
    λ k. elim k [
      | inl e ↦ In-merge_all m (model ∷ []) _ (inl (inl e))
      | inr (e, i, h, j) ↦ applies-chain model m e u i j h
    ],
  )
