-- ===== src/VirtualKey/Store.antt =====
-- src-tauri/src/virtual_key/store.rs: the keys and the index of their prefixes. The hash is a
-- parameter, and the random texts and the clock are arguments; writing to a file is left out.
pub mod Validate
use model_switch.Base.{
  contains, In-append_left, In-append_right, All, All-In, All-append, All-of_In, Bool-cases, In,
  In-append, In-filter, In-filter_of, In-get_elem?, In-take, Option-cases, any, as_u32, bytes,
  clamp, div_ceil, eq_nat, eq_str, filter, get_elem?, get_elem?-lt, if◌then◌else◌, is_empty,
  is_some, last, leb, leb→le, length, length-append, length-replicate, length-set, length-take-le,
  ltb, ltb→lt, max_u32, max_u64, nat_beq, nat_beq_iff, replicate, saturating_add_u64,
  saturating_mul_u32, saturating_pow_u32, saturating_sub, set, some_inj, starts_with, str_beq,
  str_beq_iff, str_beq_refl, sum_by, sum_u64, take, wrapping_add_u32, wrapping_add_u64, ◌==◌,
  PartialEq, Str, ℕ, zero, suc, ◌+◌, ◌-◌, ◌*◌, ◌/◌, ◌%◌, ◌^◌, ◌≤◌, ◌<◌, min, max, compare, Ordering,
  ◌≡◌, refl, sym, ap, ap₂, ◌∙◌, subst, ◌≢◌, ◌↔◌, ◌⊎◌, inl, inr, Bool, true, false, not, ◌&&◌, ◌||◌,
  Option, none, some, List, [], ◌∷◌, ◌++◌, map, arith,
}
use model_switch.Base.Map.{Map, insert, remove, values}
use model_switch.Base.Map
use model_switch.VirtualKey.{VirtualKey, VirtualKeySpend, is_expired, is_budget_exceeded}

pub record VirtualKeyStore : Type 0 where
  pub store : Map ℕ VirtualKey
  pub prefix_index : Map Str ℕ

-- Byte 16 does not continue a character of UTF-8.
abbrev is_boundary : Option ℕ → Bool
is_boundary none = true
is_boundary (some b) = not (leb 128 b && ltb b 192)

-- `plaintext.get(..16).unwrap_or(plaintext)`
unfoldable pub prefix_of : Str → Str
prefix_of plaintext =
    if leb 16 (length plaintext) && is_boundary (get_elem? plaintext 16)
    then take 16 plaintext
    else plaintext

unfoldable pub find_by_prefix : VirtualKeyStore → Str → Option ℕ
find_by_prefix st key = Map.get st.prefix_index (prefix_of key)

abbrev pub if_matched : (Str → Str) → Str → Option VirtualKey → Option VirtualKey
if_matched hash plaintext none = none
if_matched hash plaintext (some vk) = if str_beq vk.key_hash (hash plaintext) then some vk else none

abbrev pub key_at : VirtualKeyStore → Option ℕ → Option VirtualKey
key_at st none = none
key_at st (some id) = Map.get st.store id

unfoldable pub validate_any : (Str → Str) → VirtualKeyStore → Str → Option VirtualKey
validate_any hash st plaintext =
    if_matched hash plaintext (key_at st (Map.get st.prefix_index (prefix_of plaintext)))

-- The checks that follow the comparison of the hashes.
abbrev pub if_active : Str → Str → ℕ → Option VirtualKey → Option VirtualKey
if_active today this_month now none = none
if_active today this_month now (some vk) =
    if not vk.enabled
    then none
    else if is_expired now vk
    then none
    else if is_budget_exceeded today this_month vk
    then none
    else some vk

unfoldable pub validate : (Str → Str) → Str → Str → ℕ → VirtualKeyStore → Str → Option VirtualKey
validate hash today this_month now st plaintext =
    if_active today this_month now
      (if_matched hash plaintext (key_at st (Map.get st.prefix_index (prefix_of plaintext))))

-- The arguments of `create`.
pub record NewKey : Type 0 where
  pub name : Str
  pub daily_budget_cents : Option ℕ
  pub monthly_budget_cents : Option ℕ
  pub allowed_models : Option (List Str)
  pub denied_models : List Str
  pub allowed_ips : List Str
  pub rpm_limit : Option ℕ
  pub tpm_limit : Option ℕ
  pub expires_at : Option ℕ
  pub group : Option Str

abbrev pub default_spend : VirtualKeySpend
default_spend = record {
  today = record { date = []; cents = 0 };
  this_month = record { month = []; cents = 0 };
  total_cents = 0;
}

abbrev pub plaintext_of : Str → Str
plaintext_of simple = bytes "ms-vk-" ++ simple

-- `id` and `simple` are the two random identifiers, the second one as text.
abbrev pub created : (Str → Str) → ℕ → ℕ → Str → NewKey → VirtualKey
created hash now id simple n = record {
  id = id;
  key_hash = hash (plaintext_of simple);
  key_prefix = take 16 (plaintext_of simple);
  name = n.name;
  daily_budget_cents = n.daily_budget_cents;
  monthly_budget_cents = n.monthly_budget_cents;
  enabled = true;
  created_at = now;
  spend = default_spend;
  allowed_models = n.allowed_models;
  denied_models = n.denied_models;
  allowed_ips = n.allowed_ips;
  rpm_limit = n.rpm_limit;
  tpm_limit = n.tpm_limit;
  expires_at = n.expires_at;
  group = n.group;
}

unfoldable pub create :
    (Str → Str) → ℕ → ℕ → Str → NewKey → VirtualKeyStore → VirtualKeyStore × (VirtualKey × Str)
create hash now id simple n st =
    let vk = created hash now id simple n in
    (
      record st {
        store = insert vk.id vk st.store;
        prefix_index = insert vk.key_prefix vk.id st.prefix_index;
      },
      (vk, plaintext_of simple),
    )

abbrev pub forget_prefix : Option VirtualKey → Map Str ℕ → Map Str ℕ
forget_prefix none index = index
forget_prefix (some vk) index = remove vk.key_prefix index

unfoldable pub delete : ℕ → VirtualKeyStore → VirtualKeyStore × Bool
delete id st =
    let removed = Map.get st.store id in
    (
      record st {
        store = remove id st.store;
        prefix_index = forget_prefix removed st.prefix_index;
      },
      is_some removed,
    )

abbrev pub index_all : List VirtualKey → Map Str ℕ → Map Str ℕ
index_all [] index = index
index_all (vk ∷ vks) index = index_all vks (insert vk.key_prefix vk.id index)

-- `load`, with the keys that the file holds.
unfoldable pub load : Map ℕ VirtualKey → VirtualKeyStore
load loaded = record { store = loaded; prefix_index = index_all (values loaded) [] }

unfoldable pub has_keys : VirtualKeyStore → Bool
has_keys st = not (is_empty st.store)

-- The arguments of `update`: what is `none` leaves the field as it is.
pub record KeyPatch : Type 0 where
  pub name : Option Str
  pub daily_budget_cents : Option (Option ℕ)
  pub monthly_budget_cents : Option (Option ℕ)
  pub enabled : Option Bool
  pub allowed_models : Option (Option (List Str))
  pub denied_models : Option (List Str)
  pub allowed_ips : Option (List Str)
  pub rpm_limit : Option (Option ℕ)
  pub tpm_limit : Option (Option ℕ)
  pub expires_at : Option (Option ℕ)
  pub group : Option (Option Str)

abbrev pub or_old {ℓ} : {A : Type ℓ} → Option A → A → A
or_old none old = old
or_old (some value) old = value

unfoldable pub patched : KeyPatch → VirtualKey → VirtualKey
patched p vk = record vk {
  name = or_old p.name vk.name;
  daily_budget_cents = or_old p.daily_budget_cents vk.daily_budget_cents;
  monthly_budget_cents = or_old p.monthly_budget_cents vk.monthly_budget_cents;
  enabled = or_old p.enabled vk.enabled;
  allowed_models = or_old p.allowed_models vk.allowed_models;
  denied_models = or_old p.denied_models vk.denied_models;
  allowed_ips = or_old p.allowed_ips vk.allowed_ips;
  rpm_limit = or_old p.rpm_limit vk.rpm_limit;
  tpm_limit = or_old p.tpm_limit vk.tpm_limit;
  expires_at = or_old p.expires_at vk.expires_at;
  group = or_old p.group vk.group;
}

unfoldable pub update : ℕ → KeyPatch → VirtualKeyStore → VirtualKeyStore × Option VirtualKey
update id p st = elim (Map.get st.store id) [
  | none ↦ (st, none)
  | some vk ↦ (record st { store = insert id (patched p vk) st.store }, some (patched p vk))
]
