-- ===== src/Channel/Names.antt =====
-- `Provider::from_str` and `Provider::as_str` of src-tauri/src/channel/mod.rs, by which a provider
-- is read from the configuration and written back. `str::to_lowercase` is the parameter `lower`.
use model_switch.Base.{
  Str, ◌≡◌, refl, ap, ◌∙◌, none, some, [], ◌∷◌, bytes, arith, eq_str, str_beq_iff, Option-cases,
  inl, inr,
}
use model_switch.Base.Map.{Map, get}
use model_switch.Channel.{
  Provider, open_ai, anthropic, deep_seek, gemini, open_router, ollama, mistral, groq, together,
  cohere, xai, silicon_flow, yi, moonshot, zhipu, custom,
}

pub as_str : Provider → Str
as_str open_ai = bytes "openai"
as_str anthropic = bytes "anthropic"
as_str deep_seek = bytes "deepseek"
as_str gemini = bytes "gemini"
as_str open_router = bytes "openrouter"
as_str ollama = bytes "ollama"
as_str mistral = bytes "mistral"
as_str groq = bytes "groq"
as_str together = bytes "together"
as_str cohere = bytes "cohere"
as_str xai = bytes "xai"
as_str silicon_flow = bytes "siliconflow"
as_str yi = bytes "yi"
as_str moonshot = bytes "moonshot"
as_str zhipu = bytes "zhipu"
as_str (custom s) = s

-- The arms of the `match` in `from_str`.
abbrev pub named : Map Str Provider
named =
    (bytes "openai", open_ai)
    ∷ (bytes "anthropic", anthropic)
    ∷ (bytes "deepseek", deep_seek)
    ∷ (bytes "gemini", gemini)
    ∷ (bytes "openrouter", open_router)
    ∷ (bytes "ollama", ollama)
    ∷ (bytes "mistral", mistral)
    ∷ (bytes "groq", groq)
    ∷ (bytes "together", together)
    ∷ (bytes "cohere", cohere)
    ∷ (bytes "xai", xai)
    ∷ (bytes "siliconflow", silicon_flow)
    ∷ (bytes "yi", yi)
    ∷ (bytes "moonshot", moonshot)
    ∷ (bytes "zhipu", zhipu)
    ∷ []

-- The `match` on the lowered name.
from_lower : Str → Provider
from_lower s = elim (get named s) [ some p ↦ p | none ↦ custom s ]

pub from_str : (Str → Str) → Str → Provider
from_str lower s = from_lower (lower s)

abbrev IsTable : Map Str Provider → Type 0
IsTable [] = Unit
IsTable ((k, p) ∷ m) = (as_str p ≡ k) × IsTable m

named-IsTable : IsTable named
unfolding as_str
named-IsTable = (
  refl,
  (
    refl,
    (
      refl,
      (
        refl,
        (refl, (refl, (refl, (refl, (refl, (refl, (refl, (refl, (refl, (refl, (refl, tt))))))))))),
      ),
    ),
  ),
)

as_str-get :
    (m : Map Str Provider) (k : Str) {p : Provider} → IsTable m → get m k ≡ some p → as_str p ≡ k
unfolding get
as_str-get [] k t h = cc
as_str-get ((j, q) ∷ m) k {p} t h =
    ground (arith, str_beq_iff j k, λ (x : get m k ≡ some p). as_str-get m k t.1 x)

as_str-from_lower : (s : Str) → as_str (from_lower s) ≡ s
unfolding from_lower as_str
as_str-from_lower s = elim (Option-cases (get named s)) [
  | inl e ↦ rw (e, from_lower)
  | inr (p, e) ↦ rw (e, from_lower) (as_str-get named s named-IsTable e)
]

-- A provider that was read from a name is written back as that name in lower case.
pub as_str-from_str : (lower : Str → Str) (s : Str) → as_str (from_str lower s) ≡ lower s
unfolding from_str
as_str-from_str lower s = as_str-from_lower (lower s)

-- Where lowering twice is lowering once, a provider survives being written and read again.
pub from_str-as_str :
    (lower : Str → Str) (s : Str)
    → lower (lower s) ≡ lower s
    → from_str lower (as_str (from_str lower s)) ≡ from_str lower s
unfolding from_str
from_str-as_str lower s h = ap from_lower (ap lower (as_str-from_lower (lower s)) ∙ h)
