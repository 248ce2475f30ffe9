-- ===== src/VirtualKey/Store/Validate.antt =====
-- src-tauri/src/virtual_key/store.rs: which keys a plaintext opens.
use model_switch.Base.{
  All, All-In, Bool-cases, In-get_elem?, Option-cases, eq_nat, eq_str, get_elem?, if◌then◌else◌,
  leb, length, nat_beq, nat_beq_iff, some_inj, str_beq, str_beq_iff, str_beq_refl, take, Str, ℕ,
  ◌<◌, ◌≡◌, refl, sym, ap, ◌∙◌, subst, inl, inr, Bool, true, false, not, Option, none, some, arith,
}
use model_switch.Base.Map
use model_switch.Base.Map.{Map, insert, remove, get-insert, get-insert_self, get-remove, beq_refl}
use model_switch.VirtualKey.{VirtualKey, is_expired, is_budget_exceeded}
use model_switch.VirtualKey.Store.{
  VirtualKeyStore, NewKey, prefix_of, if_matched, key_at, validate_any, if_active, validate,
  plaintext_of, created, create, forget_prefix, delete,
}

-- The index names keys of the store, each by the prefix of that key.
pub record IsIndexed (st : VirtualKeyStore) : Type 0 where
  pub at :
      (p : Str) (id : ℕ)
      → Map.get st.prefix_index p ≡ some id
      → (vk : VirtualKey) × (Map.get st.store id ≡ some vk) × (vk.key_prefix ≡ p)

three_checks :
    (on old over : Bool) (k vk : VirtualKey)
    → (if not on then none else if old then none else if over then none else some k) ≡ some vk
    → (k ≡ vk) × (on ≡ true) × (old ≡ false) × (over ≡ false)
three_checks true false false k vk h = (some_inj h, refl, refl, refl)
three_checks true false true k vk h = cc
three_checks true true over k vk h = cc
three_checks false old over k vk h = cc

module _ (hash : Str → Str) where
  if_matched-from :
      (plaintext : Str) (o : Option VirtualKey) (vk : VirtualKey)
      → if_matched hash plaintext o ≡ some vk
      → (o ≡ some vk) × (vk.key_hash ≡ hash plaintext)
  if_matched-from plaintext none vk h = cc
  if_matched-from plaintext (some k) vk h =
      elim (Bool-cases (str_beq k.key_hash (hash plaintext))) [
        | inr differ ↦ cc (rw differ at h)
        | inl same ↦
            let e : k ≡ vk = some_inj (rw same at h) in
            (
              ap some e,
              subst (λ z. z.key_hash ≡ hash plaintext) e
                  ((str_beq_iff k.key_hash (hash plaintext)).0 same),
            )
      ]

  key_at-from :
      (st : VirtualKeyStore) (o : Option ℕ) (vk : VirtualKey)
      → key_at st o ≡ some vk
      → (id : ℕ) × (o ≡ some id) × (Map.get st.store id ≡ some vk)
  key_at-from st none vk h = cc
  key_at-from st (some id) vk h = (id, refl, h)

  if_active-from :
      (today this_month : Str) (now : ℕ) (o : Option VirtualKey) (vk : VirtualKey)
      → if_active today this_month now o ≡ some vk
      → (o ≡ some vk)
        × (vk.enabled ≡ true)
        × (is_expired now vk ≡ false)
        × (is_budget_exceeded today this_month vk ≡ false)
  if_active-from today this_month now none vk h = cc
  if_active-from today this_month now (some k) vk h =
      let (e, on, current, within) =
        three_checks k.enabled (is_expired now k) (is_budget_exceeded today this_month k) k vk h in
      (
        ap some e,
        subst (λ z. z.enabled ≡ true) e on,
        subst (λ z. is_expired now z ≡ false) e current,
        subst (λ z. is_budget_exceeded today this_month z ≡ false) e within,
      )

  -- A plaintext that is let through opens a key that is stored, that the prefix of the plaintext is
  -- listed for, whose hash is that of the plaintext, and that is enabled, not expired and within its
  -- budgets.
  pub validate_sound :
      (today this_month : Str) (now : ℕ) (st : VirtualKeyStore) (plaintext : Str) (vk : VirtualKey)
      → validate hash today this_month now st plaintext ≡ some vk
      → ((id : ℕ) × (Map.get st.prefix_index (prefix_of plaintext) ≡ some id)
          × (Map.get st.store id ≡ some vk))
        × (vk.key_hash ≡ hash plaintext)
        × (vk.enabled ≡ true)
        × (is_expired now vk ≡ false)
        × (is_budget_exceeded today this_month vk ≡ false)
  unfolding validate
  validate_sound today this_month now st plaintext vk h =
      let found = key_at st (Map.get st.prefix_index (prefix_of plaintext)) in
      let (matched, on, current, within) =
        if_active-from today this_month now (if_matched hash plaintext found) vk h in
      let (held, same) = if_matched-from plaintext found vk matched in
      let (id, listed, stored) =
        key_at-from st (Map.get st.prefix_index (prefix_of plaintext)) vk held in
      ((id, listed, stored), same, on, current, within)

  prefix_of-plaintext_of :
      (simple : Str)
      → length simple ≡ 32
      → All (λ b. b < 128) simple
      → prefix_of (plaintext_of simple) ≡ take 16 (plaintext_of simple)
  unfolding prefix_of
  prefix_of-plaintext_of simple l ascii =
      let long : leb 16 (length (plaintext_of simple)) ≡ true = ground (arith, l) in
      elim (Option-cases (get_elem? simple 10)) [
        | inl short ↦ rw (long, short) refl
        | inr (b, e) ↦
            let small : b < 128 = All-In (λ b. b < 128) simple ascii (In-get_elem? simple 10 e) in
            let starts : leb 128 b ≡ false = ground (arith, small) in rw (long, e, starts) refl
      ]

  -- The plaintext of a key that was just created opens that key, whatever keys there were, for an
  -- identifier of 32 characters of ASCII.
  pub validate_any-create :
      (now id : ℕ) (simple : Str) (n : NewKey) (st : VirtualKeyStore)
      → length simple ≡ 32
      → All (λ b. b < 128) simple
      → validate_any hash (create hash now id simple n st).0 (plaintext_of simple)
        ≡ some (created hash now id simple n)
  unfolding validate_any create
  validate_any-create now id simple n st l ascii =
      let vk = created hash now id simple n in
      let p = take 16 (plaintext_of simple) in
      let listed : Map.get (insert p id st.prefix_index) (prefix_of (plaintext_of simple))
          ≡ some id =
        rw (prefix_of-plaintext_of simple l ascii) (get-insert_self st.prefix_index p id) in
      rw (listed, get-insert_self st.store id vk, str_beq_refl (hash (plaintext_of simple))) refl

  kept :
      (id : ℕ) (st : VirtualKeyStore)
      → IsIndexed st
      → (p : Str) (j : ℕ) (held : Option VirtualKey) → Map.get st.store id ≡ held
      → Map.get (forget_prefix held st.prefix_index) p ≡ some j
      → (vk : VirtualKey) × (Map.get (remove id st.store) j ≡ some vk) × (vk.key_prefix ≡ p)
  kept id st s p j none h e =
      let (vk, stored, same) = s.at p j e in
      elim (Bool-cases (nat_beq id j)) [
        | inl here ↦
            let i : id ≡ j = (nat_beq_iff id j).0 here in
            cc (sym h ∙ ap (Map.get st.store) i ∙ stored)
        | inr other ↦ (vk, rw (get-remove, other) stored, same)
      ]
  kept id st s p j (some v) h e = elim (Bool-cases (str_beq v.key_prefix p)) [
    | inl gone ↦ cc (rw (get-remove, gone) at e)
    | inr differ ↦
        let (vk, stored, same) = s.at p j (rw (get-remove, differ) at e) in
        elim (Bool-cases (nat_beq id j)) [
          | inl here ↦
              let i : id ≡ j = (nat_beq_iff id j).0 here in
              let k : v ≡ vk = some_inj (sym h ∙ ap (Map.get st.store) i ∙ stored) in
              cc ((str_beq_iff v.key_prefix p).1 (ap (λ z. z.key_prefix) k ∙ same))
          | inr other ↦ (vk, rw (get-remove, other) stored, same)
        ]
  ]

  -- Deleting a key keeps every prefix of the index the prefix of a key of the store.
  pub delete-IsIndexed : (id : ℕ) (st : VirtualKeyStore) → IsIndexed st → IsIndexed (delete id st).0
  unfolding delete
  delete-IsIndexed id st s = record { at = λ p j e. kept id st s p j (Map.get st.store id) refl e }
