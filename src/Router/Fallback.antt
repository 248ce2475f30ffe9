-- ===== src/Router/Fallback.antt =====
-- src-tauri/src/router/fallback.rs: the models that are tried for a request, in order.
pub mod Chain
pub mod Members
use model_switch.Base.{
  Str, ℕ, ◌-◌, Bool, true, false, not, ◌&&◌, ◌||◌, Option, none, some, List, [], ◌∷◌, ◌++◌, eq_str,
  str_beq, nat_beq, if◌then◌else◌, leb, ltb, length, filter, any, is_empty, starts_with,
}
use model_switch.Base.Map.{Map, get}
use model_switch.Base.Sort.{sort_by}

-- `model.rfind('-')`: what stands before the last dash, and what after it.
unfoldable pub split_last_dash : Str → Option (Str × Str)
split_last_dash [] = none
split_last_dash (c ∷ s) = elim (split_last_dash s) [
  | some parts ↦ some (c ∷ parts.0, parts.1)
  | none ↦ if nat_beq c b'-' then some ([], s) else none
]

abbrev pub is_digit : ℕ → Bool
is_digit c = leb b'0' c && leb c b'9'

abbrev pub is_date : Str → Bool
is_date suffix =
    leb 4 (length suffix) && (leb (length suffix) 8 && not (any (λ c. not (is_digit c)) suffix))

abbrev pub stripped_if : Str → Option (Str × Str) → Option Str
stripped_if model none = none
stripped_if model (some (stripped, suffix)) =
    if is_date suffix
    then (if is_empty stripped || str_beq stripped model then none else some stripped)
    else none

unfoldable pub strip_date_suffix : Str → Option Str
strip_date_suffix model = stripped_if model (split_last_dash model)

abbrev pub ends_with_star : Str → Bool
ends_with_star [] = false
ends_with_star (c ∷ []) = nat_beq c b'*'
ends_with_star (c ∷ d ∷ s) = ends_with_star (d ∷ s)

-- `&key[..key.len() - 1]`
abbrev pub without_last : Str → Str
without_last [] = []
without_last (c ∷ []) = []
without_last (c ∷ d ∷ s) = c ∷ without_last (d ∷ s)

abbrev pub is_star : Str → Bool
is_star key = str_beq key (b'*' ∷ [])

-- The two filters of `match_wildcards`.
unfoldable pub is_wildcard_for : Str → Str → Bool
is_wildcard_for model key =
    (is_star key || (ends_with_star key && ltb 1 (length key)))
    && (is_star key || starts_with model (without_last key))

abbrev pub Entry : Type 0
Entry = Str × List Str

-- Longer prefixes first.
abbrev pub by_prefix : Entry → Entry → Bool
by_prefix a b = leb (length b.0 - 1) (length a.0 - 1)

unfoldable pub match_wildcards : Str → Map Str (List Str) → List Entry
match_wildcards model fallbacks =
    sort_by by_prefix (filter (λ (e : Entry). is_wildcard_for model e.0) fallbacks)

abbrev pub list_of : Option (List Str) → List (List Str)
list_of none = []
list_of (some fb) = fb ∷ []

abbrev pub holds_key : Str → List Str → Bool
holds_key key keys = any (λ k. str_beq k key) keys

-- The lists of the wildcard matches, each once. A list is known by its address, which is here the key
-- of its entry.
unfoldable pub once_each : List Str → List Entry → List (List Str)
once_each seen [] = []
once_each seen ((key, fb) ∷ rest) =
    let skipped = once_each seen rest in
    let kept = once_each (key ∷ seen) rest in if holds_key key seen then skipped else fb ∷ kept

-- Merging a list: what the chain does not hold is pushed.
unfoldable pub merge : List Str → List Str → List Str
merge chain [] = chain
merge chain (fb ∷ fbs) = merge (if holds_key fb chain then chain else chain ++ fb ∷ []) fbs

unfoldable pub merge_all : List Str → List (List Str) → List Str
merge_all chain [] = chain
merge_all chain (fbs ∷ lists) = merge_all (merge chain fbs) lists

abbrev pub exact_stripped : Option Str → Map Str (List Str) → List (List Str)
exact_stripped none fallbacks = []
exact_stripped (some stripped) fallbacks = list_of (get fallbacks stripped)

abbrev pub wildcards_stripped : Option Str → Map Str (List Str) → List Entry
wildcards_stripped none fallbacks = []
wildcards_stripped (some stripped) fallbacks = match_wildcards stripped fallbacks

unfoldable pub resolve_fallback_chain : Str → Map Str (List Str) → List Str
resolve_fallback_chain model fallbacks =
    let stripped = strip_date_suffix model in
    let wildcard_matches =
      match_wildcards model fallbacks ++ wildcards_stripped stripped fallbacks in
    merge_all (model ∷ []) (
      list_of (get fallbacks model)
      ++ (exact_stripped stripped fallbacks ++ once_each [] wildcard_matches))
