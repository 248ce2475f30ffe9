-- ===== src/Router/Affinity/Order.antt =====
-- The sorted entries of a map, and their removal from it.
use model_switch.Base.{
  All, Bool-cases, eq_nat, eq_str, if◌then◌else◌, length, str_beq, str_beq_iff, take, Str, ℕ, zero,
  suc, ◌+◌, ◌≡◌, refl, ap, ◌∙◌, subst, inl, inr, true, false, ◌||◌, List, [], ◌∷◌, arith,
}
use model_switch.Base.Map.{Map, remove, contains_key, Unique, remove-Unique, remove-absent}
use model_switch.Base.Sort.{sort_by, insert_by}
use model_switch.Router.Affinity.{Session, by_last_used, remove_all}

contains_key-remove_other :
    (m : Map Str Session) (k j : Str)
    → contains_key (remove k m) j ≡ (if str_beq k j then false else contains_key m j)
unfolding contains_key remove
contains_key-remove_other [] k j = ground arith
contains_key-remove_other ((i, w) ∷ m) k j =
    ground
      (arith, str_beq_iff k j, str_beq_iff i k, str_beq_iff i j, contains_key-remove_other m k j)

length-remove :
    (m : Map Str Session) (k : Str)
    → Unique m
    → contains_key m k ≡ true
    → length (remove k m) + 1 ≡ length m
unfolding contains_key remove
length-remove [] k u h = cc
length-remove ((i, w) ∷ m) k u h = elim (Bool-cases (str_beq i k)) [
  | inl same ↦
      let e = (str_beq_iff i k).0 same in
      let gone : remove k m ≡ m = subst (λ z. remove z m ≡ m) e (remove-absent m i u.0) in
      rw (same, gone) (omega arith)
  | inr other ↦ rw other (omega (arith, length-remove m k u.1 (rw other at h)))
]

contains_key-insert_by :
    (e : Str × Session) (m : List (Str × Session)) (j : Str)
    → contains_key (insert_by by_last_used e m) j ≡ (str_beq e.0 j || contains_key m j)
unfolding contains_key insert_by
contains_key-insert_by e [] j = ground arith
contains_key-insert_by e (x ∷ m) j = ground (arith, contains_key-insert_by e m j)

pub contains_key-sort_by :
    (m : Map Str Session) (j : Str) → contains_key (sort_by by_last_used m) j ≡ contains_key m j
unfolding sort_by contains_key
contains_key-sort_by [] j = refl
contains_key-sort_by (e ∷ m) j =
    contains_key-insert_by e (sort_by by_last_used m) j
    ∙ ap (λ b. str_beq e.0 j || b) (contains_key-sort_by m j)

insert_by-Unique :
    (e : Str × Session) (m : List (Str × Session))
    → contains_key m e.0 ≡ false
    → Unique m
    → Unique (insert_by by_last_used e m)
unfolding insert_by contains_key
insert_by-Unique e [] h u = (refl, tt)
insert_by-Unique e (x ∷ m) h u = elim (Bool-cases (by_last_used e x)) [
  | inl first ↦ rw first (h, u)
  | inr later ↦ rw later (
    contains_key-insert_by e m x.0 ∙ ground (arith, str_beq_iff x.0 e.0, str_beq_iff e.0 x.0),
    insert_by-Unique e m (ground arith) u.1,
  )
]

pub sort_by-Unique : (m : Map Str Session) → Unique m → Unique (sort_by by_last_used m)
unfolding sort_by
sort_by-Unique [] u = tt
sort_by-Unique (e ∷ m) u =
    insert_by-Unique e (sort_by by_last_used m) (contains_key-sort_by m e.0 ∙ u.0)
      (sort_by-Unique m u.1)

-- Every key of the list is a key of the map.
abbrev pub KeysIn : List (Str × Session) → Map Str Session → Type 0
KeysIn es m = All (λ e. contains_key m e.0 ≡ true) es

KeysIn-remove :
    (es : List (Str × Session)) (m : Map Str Session) (k : Str)
    → contains_key es k ≡ false
    → KeysIn es m
    → KeysIn es (remove k m)
unfolding contains_key
KeysIn-remove [] m k h a = tt
KeysIn-remove (e ∷ es) m k h a = (
  contains_key-remove_other m k e.0 ∙ ground (arith, str_beq_iff k e.0, str_beq_iff e.0 k),
  KeysIn-remove es m k (ground arith) a.1,
)

pub length-remove_all :
    (es : List (Str × Session)) (m : Map Str Session)
    → Unique es
    → Unique m
    → KeysIn es m
    → (length (remove_all es m) + length es ≡ length m) × Unique (remove_all es m)
unfolding remove_all
length-remove_all [] m ue um k = (omega arith, um)
length-remove_all (e ∷ es) m ue um k =
    let (ih, u) =
      length-remove_all es (remove e.0 m) ue.1 (remove-Unique e.0 m um)
        (KeysIn-remove es m e.0 ue.0 k.1) in
    (omega (arith, ih, length-remove m e.0 um k.0), u)

contains_key-take :
    (n : ℕ) (es : List (Str × Session)) (j : Str)
    → contains_key es j ≡ false
    → contains_key (take n es) j ≡ false
unfolding contains_key
contains_key-take zero es j h = refl
contains_key-take (suc n) [] j h = refl
contains_key-take (suc n) (e ∷ es) j h = ground (arith, contains_key-take n es j)

pub take-Unique : (n : ℕ) (es : List (Str × Session)) → Unique es → Unique (take n es)
take-Unique zero es u = tt
take-Unique (suc n) [] u = tt
take-Unique (suc n) (e ∷ es) u = (contains_key-take n es e.0 u.0, take-Unique n es u.1)

pub take-KeysIn :
    (n : ℕ) (es : List (Str × Session)) (m : Map Str Session) → KeysIn es m → KeysIn (take n es) m
take-KeysIn zero es m k = tt
take-KeysIn (suc n) [] m k = tt
take-KeysIn (suc n) (e ∷ es) m k = (k.0, take-KeysIn n es m k.1)
