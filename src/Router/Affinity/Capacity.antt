-- ===== src/Router/Affinity/Capacity.antt =====
-- src-tauri/src/router/affinity.rs: the size of the affinity map.
use model_switch.Base.{
  All-of_In, Bool-cases, eq_nat, eq_str, leb, leb→le, length, nat_beq, take, Str, ℕ, zero, suc, ◌+◌,
  ◌-◌, ◌%◌, ◌^◌, ◌≤◌, ◌≡◌, refl, ap, inl, inr, true, List, [], ◌∷◌, arith,
}
use model_switch.Base.Map.{
  Map, insert, contains_key, Unique, insert-Unique, filter-Unique, contains_key-In,
}
use model_switch.Base.Sort.{sort_by, length-sort_by, In-sort_by}
use model_switch.Router.Affinity.{
  AffinityState, Session, by_last_used, evict_lru, set_channel, cleanup_expired, cleanup_interval,
  is_fresh,
}
use model_switch.Router.Affinity.Order.{
  KeysIn, length-remove_all, sort_by-Unique, take-Unique, take-KeysIn,
}

length-take-exact : {A : Type 0} (n : ℕ) (xs : List A) → n ≤ length xs → length (take n xs) ≡ n
length-take-exact zero xs h = refl
length-take-exact (suc n) [] h = omega arith
length-take-exact (suc n) (x ∷ xs) h = ap suc (length-take-exact n xs (omega arith))

sorted-KeysIn : (m : Map Str Session) → KeysIn (sort_by by_last_used m) m
sorted-KeysIn m =
    All-of_In (λ e. contains_key m e.0 ≡ true) (sort_by by_last_used m)
      (λ e i. contains_key-In m e.0 e.1 (In-sort_by by_last_used m e i))

abbrev Fits : AffinityState → Type 0
Fits st = (length st.map ≤ st.max_entries) × Unique st.map

evict_lru-Fits : (st : AffinityState) → Unique st.map → Fits (evict_lru st)
unfolding evict_lru
evict_lru-Fits st u = elim (Bool-cases (leb (length st.map) st.max_entries)) [
  | inl small ↦ rw small (leb→le _ _ small, u)
  | inr large ↦
      let excess = length st.map - st.max_entries in
      let sorted = sort_by by_last_used st.map in
      let counted : length (take excess sorted) ≡ excess =
        length-take-exact excess sorted (omega (arith, length-sort_by by_last_used st.map)) in
      let (left, u') =
        length-remove_all (take excess sorted) st.map
          (take-Unique excess sorted (sort_by-Unique st.map u)) u
          (take-KeysIn excess sorted st.map (sorted-KeysIn st.map)) in
      rw large (ground (arith, left, counted, large), u')
]

evict_lru-max_entries : (st : AffinityState) → (evict_lru st).max_entries ≡ st.max_entries
unfolding evict_lru
evict_lru-max_entries st = ground arith

-- Setting the channel of a session leaves at most `max_entries` sessions in the map, and no session
-- twice, whatever the size of the map was before, when no session stood in it twice.
pub set_channel-IsBounded :
    (st : AffinityState) (now : ℕ) (session_id : Str) (channel_id : ℕ)
    → Unique st.map
    → (length (set_channel now session_id channel_id st).map ≤ st.max_entries)
      × Unique (set_channel now session_id channel_id st).map
unfolding set_channel cleanup_expired
set_channel-IsBounded st now session_id channel_id u =
    let count = (st.set_counter + 1) % 2 ^ 32 in
    let entered = insert session_id (channel_id, now) st.map in
    let u' : Unique entered = insert-Unique session_id (channel_id, now) st.map u in
    let inserted : AffinityState = record st { map = entered; set_counter = count } in
    elim (Bool-cases (nat_beq (count % cleanup_interval) 0)) [
      | inl due ↦
          let cleaned = cleanup_expired now inserted in
          let fits : Fits (evict_lru cleaned) =
            evict_lru-Fits cleaned (filter-Unique (λ s. is_fresh now st.ttl s) entered u') in
          rw due (omega (arith, fits.0, evict_lru-max_entries cleaned), fits.1)
      | inr later ↦
          let fits : Fits (evict_lru inserted) = evict_lru-Fits inserted u' in
          rw later (omega (arith, fits.0, evict_lru-max_entries inserted), fits.1)
    ]
