-- ===== src/Router/Fallback/Chain.antt =====
-- The chain of models that src-tauri/src/router/fallback.rs gives.
use model_switch.Base.{
  In-append_left, In-append_right, Bool-cases, In, In-append, eq_nat, eq_str, str_beq, str_beq_iff,
  Str, ◌≡◌, refl, sym, subst, ◌⊎◌, inl, inr, true, false, ◌||◌, List, [], ◌∷◌, ◌++◌, arith,
}
use model_switch.Base.Map.{Map}
use model_switch.Router.Fallback.{holds_key, merge, merge_all, resolve_fallback_chain}

-- No model stands twice.
abbrev pub Distinct : List Str → Type 0
Distinct [] = Unit
Distinct (x ∷ xs) = (holds_key x xs ≡ false) × Distinct xs

pub holds_key-append :
    (k y : Str) (xs : List Str) → holds_key k (xs ++ y ∷ []) ≡ (holds_key k xs || str_beq y k)
holds_key-append k y [] = ground arith
holds_key-append k y (x ∷ xs) = ground (arith, holds_key-append k y xs)

pub Distinct-append :
    (y : Str) (xs : List Str) → Distinct xs → holds_key y xs ≡ false → Distinct (xs ++ y ∷ [])
Distinct-append y [] d h = (refl, tt)
Distinct-append y (x ∷ xs) d h =
    ground (arith, holds_key-append x y xs, str_beq_iff x y, str_beq_iff y x, Distinct-append y xs)

pub holds_key-In : (k : Str) (xs : List Str) → holds_key k xs ≡ true → In k xs
holds_key-In k [] h = cc
holds_key-In k (x ∷ xs) h = ground (arith, str_beq_iff x k, holds_key-In k xs)

pub In-holds_key : (k : Str) (xs : List Str) → In k xs → holds_key k xs ≡ true
In-holds_key k [] h = absurd h
In-holds_key k (x ∷ xs) h = ground (arith, str_beq_iff x k, λ (i : In k xs). In-holds_key k xs i)

merge-Distinct : (chain fbs : List Str) → Distinct chain → Distinct (merge chain fbs)
unfolding merge
merge-Distinct chain [] d = d
merge-Distinct chain (fb ∷ fbs) d = elim (Bool-cases (holds_key fb chain)) [
  | inl held ↦ rw held (merge-Distinct chain fbs d)
  | inr new ↦ rw new (merge-Distinct (chain ++ fb ∷ []) fbs (Distinct-append fb chain d new))
]

merge_all-Distinct :
    (chain : List Str) (lists : List (List Str)) → Distinct chain → Distinct (merge_all chain lists)
unfolding merge_all
merge_all-Distinct chain [] d = d
merge_all-Distinct chain (fbs ∷ lists) d =
    merge_all-Distinct (merge chain fbs) lists (merge-Distinct chain fbs d)

-- Merging keeps what stands first.
abbrev pub StartsChain : Str → List Str → Type 0
StartsChain model [] = ⊥
StartsChain model (x ∷ xs) = x ≡ model

StartsChain-merge :
    (model : Str) (chain fbs : List Str)
    → StartsChain model chain
    → StartsChain model (merge chain fbs)
unfolding merge
StartsChain-merge model chain [] h = h
StartsChain-merge model [] (fb ∷ fbs) h = absurd h
StartsChain-merge model (x ∷ chain) (fb ∷ fbs) h = elim (Bool-cases (holds_key fb (x ∷ chain))) [
  | inl held ↦ rw held (StartsChain-merge model (x ∷ chain) fbs h)
  | inr new ↦ rw new (StartsChain-merge model (x ∷ chain ++ fb ∷ []) fbs h)
]

StartsChain-merge_all :
    (model : Str) (chain : List Str) (lists : List (List Str))
    → StartsChain model chain
    → StartsChain model (merge_all chain lists)
unfolding merge_all
StartsChain-merge_all model chain [] h = h
StartsChain-merge_all model chain (fbs ∷ lists) h =
    StartsChain-merge_all model (merge chain fbs) lists (StartsChain-merge model chain fbs h)

-- What a merge holds.
merge-In : (m : Str) (chain fbs : List Str) → In m (merge chain fbs) → In m chain ⊎ In m fbs
unfolding merge
merge-In m chain [] i = inl i
merge-In m chain (fb ∷ fbs) i = elim (Bool-cases (holds_key fb chain)) [
  | inl held ↦ elim (merge-In m chain fbs (rw held at i)) [ inl j ↦ inl j | inr j ↦ inr (inr j) ]
  | inr new ↦ elim (merge-In m (chain ++ fb ∷ []) fbs (rw new at i)) [
    | inr j ↦ inr (inr j)
    | inl j ↦ elim (In-append chain (fb ∷ []) m j) [
      | inl k ↦ inl k
      | inr (inl e) ↦ inr (inl e)
      | inr (inr k) ↦ absurd k
    ]
  ]
]

In-merge : (m : Str) (chain fbs : List Str) → In m chain ⊎ In m fbs → In m (merge chain fbs)
unfolding merge
In-merge m chain [] (inl i) = i
In-merge m chain [] (inr i) = absurd i
In-merge m chain (fb ∷ fbs) i = elim (Bool-cases (holds_key fb chain)) [
  | inl held ↦ rw held (In-merge m chain fbs (stays i held))
  | inr new ↦ rw new (In-merge m (chain ++ fb ∷ []) fbs (moves i))
]
  where
    stays : In m chain ⊎ In m (fb ∷ fbs) → holds_key fb chain ≡ true → In m chain ⊎ In m fbs
    stays (inl j) h = inl j
    stays (inr (inl e)) h = inl (subst (λ z. In z chain) (sym e) (holds_key-In fb chain h))
    stays (inr (inr j)) h = inr j

    moves : In m chain ⊎ In m (fb ∷ fbs) → In m (chain ++ fb ∷ []) ⊎ In m fbs
    moves (inl j) = inl (In-append_left chain (fb ∷ []) m j)
    moves (inr (inl e)) = inl (In-append_right chain (fb ∷ []) m (inl e))
    moves (inr (inr j)) = inr j

-- A model is in one of the lists.
abbrev pub Offered : Str → List (List Str) → Type 0
Offered m [] = ⊥
Offered m (fbs ∷ lists) = In m fbs ⊎ Offered m lists

pub merge_all-In :
    (m : Str) (chain : List Str) (lists : List (List Str))
    → In m (merge_all chain lists)
    → In m chain ⊎ Offered m lists
unfolding merge_all
merge_all-In m chain [] i = inl i
merge_all-In m chain (fbs ∷ lists) i = elim (merge_all-In m (merge chain fbs) lists i) [
  | inr o ↦ inr (inr o)
  | inl j ↦ elim (merge-In m chain fbs j) [ inl k ↦ inl k | inr k ↦ inr (inl k) ]
]

pub In-merge_all :
    (m : Str) (chain : List Str) (lists : List (List Str))
    → In m chain ⊎ Offered m lists
    → In m (merge_all chain lists)
unfolding merge_all
In-merge_all m chain [] (inl i) = i
In-merge_all m chain [] (inr i) = absurd i
In-merge_all m chain (fbs ∷ lists) (inl i) =
    In-merge_all m (merge chain fbs) lists (inl (In-merge m chain fbs (inl i)))
In-merge_all m chain (fbs ∷ lists) (inr (inl i)) =
    In-merge_all m (merge chain fbs) lists (inl (In-merge m chain fbs (inr i)))
In-merge_all m chain (fbs ∷ lists) (inr (inr o)) = In-merge_all m (merge chain fbs) lists (inr o)

-- The chain starts with the model that was asked for, and holds no model twice.
pub resolve_fallback_chain-Distinct :
    (model : Str) (fallbacks : Map Str (List Str))
    → StartsChain model (resolve_fallback_chain model fallbacks)
      × Distinct (resolve_fallback_chain model fallbacks)
unfolding resolve_fallback_chain
resolve_fallback_chain-Distinct model fallbacks =
    (StartsChain-merge_all model (model ∷ []) _ refl, merge_all-Distinct (model ∷ []) _ (refl, tt))
