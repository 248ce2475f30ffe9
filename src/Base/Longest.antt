-- ===== src/Base/Longest.antt =====
-- The loop that keeps the entry with the longest key among those that pass a test, with strict
-- improvement: of two keys of one length the first stays.
use Prim.Native.Nat.{ℕ, ◌≤◌}
use mathlib.Core.Bool.{Bool, true, false, ◌&&◌}
use mathlib.Core.List.{List, [], ◌∷◌}
use mathlib.Core.Logic.{◌⊎◌, inl, inr, ◌↔◌}
use mathlib.Core.Option.{Option, none, some}
use mathlib.Core.Path.{◌≡◌, refl, sym, ap, ap₂, ◌∙◌, subst}
use native.Mathlib.Omega.{arith}
use model_switch.Base.Lists.{length, filter, In, All, All-In, All-of_In, In-filter, In-filter_of}
use model_switch.Base.Map.{Map, Unique, get, get-In}
use model_switch.Base.Tests.{Str, eq_str, Bool-cases, some_inj, if◌then◌else◌, ltb, starts_with}

module _ {V : Type 0} where
  -- `best.is_none() || key.len() > best.unwrap().0.len()`
  abbrev pub improves : Str → Option (Str × V) → Bool
  improves key none = true
  improves key (some e) = ltb (length e.0) (length key)

  abbrev pub better : (Str → Bool) → Str × V → Option (Str × V) → Option (Str × V)
  better passes e best = if passes e.0 && improves e.0 best then some e else best

  unfoldable pub longest : (Str → Bool) → Option (Str × V) → List (Str × V) → Option (Str × V)
  longest passes best [] = best
  longest passes best (e ∷ es) = longest passes (better passes e best) es

  abbrev AtLeast : ℕ → Option (Str × V) → Type 0
  AtLeast n none = ⊥
  AtLeast n (some e) = n ≤ length e.0

  AtLeast-better :
      (p : Str → Bool) (n : ℕ) (e : Str × V) (best : Option (Str × V))
      → AtLeast n best
      → AtLeast n (better p e best)
  AtLeast-better p n e none h = absurd h
  AtLeast-better p n e (some b) h = ground arith

  AtLeast-better_self :
      (p : Str → Bool) (e : Str × V) (best : Option (Str × V))
      → p e.0 ≡ true
      → AtLeast (length e.0) (better p e best)
  AtLeast-better_self p e none h = ground arith
  AtLeast-better_self p e (some b) h = ground arith

  AtLeast-longest :
      (p : Str → Bool) (n : ℕ) (best : Option (Str × V)) (es : List (Str × V))
      → AtLeast n best
      → AtLeast n (longest p best es)
  unfolding longest
  AtLeast-longest p n best [] h = h
  AtLeast-longest p n best (e ∷ es) h =
      AtLeast-longest p n (better p e best) es (AtLeast-better p n e best h)

  longest-AtLeast :
      (p : Str → Bool) (best : Option (Str × V)) (es : List (Str × V)) (d : Str × V)
      → In d es
      → p d.0 ≡ true
      → AtLeast (length d.0) (longest p best es)
  unfolding longest
  longest-AtLeast p best [] d m h = absurd m
  longest-AtLeast p best (e ∷ es) d (inl q) h =
      let h' : p e.0 ≡ true = subst (λ z. p z.0 ≡ true) q h in
      let here : AtLeast (length e.0) (longest p (better p e best) es) =
        AtLeast-longest p (length e.0) (better p e best) es (AtLeast-better_self p e best h') in
      subst (λ z. AtLeast (length z.0) (longest p (better p e best) es)) (sym q) here
  longest-AtLeast p best (e ∷ es) d (inr m) h = longest-AtLeast p (better p e best) es d m h

  better-from :
      (p : Str → Bool) (e : Str × V) (best : Option (Str × V)) (r : Str × V)
      → better p e best ≡ some r
      → (best ≡ some r) ⊎ ((r ≡ e) × (p r.0 ≡ true))
  better-from p e best r h = elim (Bool-cases (p e.0 && improves e.0 best)) [
    | inl new ↦
        let q : e ≡ r = some_inj (rw new at h) in
        inr (sym q, subst (λ z. p z.0 ≡ true) q (ground arith))
    | inr old ↦ inl (rw old at h)
  ]

  longest-from :
      (p : Str → Bool) (best : Option (Str × V)) (es : List (Str × V)) (r : Str × V)
      → longest p best es ≡ some r
      → (best ≡ some r) ⊎ (In r es × (p r.0 ≡ true))
  unfolding longest
  longest-from p best [] r h = inl h
  longest-from p best (e ∷ es) r h = elim (longest-from p (better p e best) es r h) [
    | inl q ↦ elim (better-from p e best r q) [
      | inl old ↦ inl old
      | inr new ↦ inr (inl new.0, new.1)
    ]
    | inr m ↦ inr (inr m.0, m.1)
  ]

  -- The entry that the loop ends with, among those of the list that pass the test: none if there are
  -- none, and otherwise one of them, with a key as long as any of theirs.
  abbrev pub IsLongest : (Str → Bool) → List (Str × V) → Option (Str × V) → Type 0
  IsLongest p es none = All (λ d. p d.0 ≡ false) es
  IsLongest p es (some e) =
      In e es
      × (p e.0 ≡ true)
      × All (λ d. length d.0 ≤ length e.0) (filter (λ (d : Str × V). p d.0) es)

  longest-at :
      (p : Str → Bool) (es : List (Str × V)) (r : Option (Str × V))
      → longest p none es ≡ r
      → IsLongest p es r
  longest-at p es none h = All-of_In _ es (λ d m. elim (Bool-cases (p d.0)) [
    | inl passes ↦ absurd (subst (AtLeast (length d.0)) h (longest-AtLeast p none es d m passes))
    | inr fails ↦ fails
  ])
  longest-at p es (some e) h = elim (longest-from p none es e h) [
    | inl q ↦ cc
    | inr m ↦ (
      m.0,
      m.1,
      All-of_In _ (filter (λ (d : Str × V). p d.0) es) (λ d i.
          let (j, passes) = In-filter (λ (x : Str × V). p x.0) es i in
          subst (AtLeast (length d.0)) h (longest-AtLeast p none es d j passes)),
    )
  ]

  pub longest-IsLongest :
      (p : Str → Bool) (es : List (Str × V)) → IsLongest p es (longest p none es)
  longest-IsLongest p es = longest-at p es (longest p none es) refl

-- A prefix is known by its length.
pub starts_with_unique :
    (s a b : Str) → starts_with s a ≡ true → starts_with s b ≡ true → length a ≡ length b → a ≡ b
starts_with_unique s [] [] h k l = refl
starts_with_unique s [] (y ∷ b) h k l = absurd (omega (arith, l))
starts_with_unique s (x ∷ a) [] h k l = absurd (omega (arith, l))
starts_with_unique [] (x ∷ a) (y ∷ b) h k l = cc
starts_with_unique (c ∷ s) (x ∷ a) (y ∷ b) h k l =
    let same : x ≡ y = ground arith in
    let rest : a ≡ b = starts_with_unique s a b (ground arith) (ground arith) (omega (arith, l)) in
    ap₂ (λ z w. z ∷ w) same rest

-- Two lists with the same entries, in whatever order, end with one entry, where a test passes only
-- prefixes of one text and no key has two values.
pub longest-same :
    {V : Type 0} (p : Str → Bool) (text : Str) (es ds : Map Str V)
    → ((key : Str) → p key ≡ true → starts_with text key ≡ true)
    → Unique es
    → ((e : Str × V) → In e es ↔ In e ds)
    → longest p none es ≡ longest p none ds
longest-same {V} p text es ds prefix u same =
    meet (longest p none es) (longest p none ds) (longest-IsLongest p es) (longest-IsLongest p ds)
  where
    meet : (r q : Option (Str × V)) → IsLongest p es r → IsLongest p ds q → r ≡ q
    meet none none a b = refl
    meet none (some e) a b = absurd (cc (All-In _ es a ((same e).1 b.0)))
    meet (some e) none a b = absurd (cc (All-In _ ds b ((same e).0 a.0)))
    meet (some e) (some d) a b =
        let test : Str × V → Bool = λ x. p x.0 in
        let le : length d.0 ≤ length e.0 =
          All-In (λ x. length x.0 ≤ length e.0) (filter test es) a.2
            (In-filter_of test es ((same d).1 b.0) b.1) in
        let ge : length e.0 ≤ length d.0 =
          All-In (λ x. length x.0 ≤ length d.0) (filter test ds) b.2
            (In-filter_of test ds ((same e).0 a.0) a.1) in
        let key : e.0 ≡ d.0 =
          starts_with_unique text e.0 d.0 (prefix e.0 a.1) (prefix d.0 b.1)
            (omega (arith, le, ge)) in
        let held : get es e.0 ≡ some e.1 = get-In es e.0 u a.0 in
        let other : get es d.0 ≡ some d.1 = get-In es d.0 u ((same d).1 b.0) in
        let value : e.1 ≡ d.1 = some_inj (sym held ∙ ap (get es) key ∙ other) in
        ap₂ (λ k v. some (k, v)) key value
