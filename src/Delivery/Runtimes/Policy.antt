-- ===== src/Delivery/Runtimes/Policy.antt =====
-- What `ensure_supported` (domain/agent_runtimes.py) accepts, as a table.
use text.Mathlib.TextEquality.{eq_iff}
use mvp_master.Base.{String, ◌≡◌, refl, ◌↔◌, ◌⊎◌, inl, inr, Bool, true, false, Option, some, arith}
use mvp_master.Exec.{ok}
use mvp_master.Delivery.Runtimes.{ensure_supported}

-- The modes with which a runtime reaches its own provider.
abbrev pub SessionOrKey : String → Type 0
SessionOrKey mode = (mode ≡ "LOCAL_SESSION") ⊎ (mode ≡ "API_KEY_REFERENCE")

-- The reviewed combinations of runtime, provider, authentication mode and model.
abbrev pub Reviewed : String → String → String → String → Type 0
Reviewed runtime provider mode model =
    ((runtime ≡ "codex-cli")
      × (provider ≡ "openai")
      × SessionOrKey mode
      × ((model ≡ "gpt-5.1-codex") ⊎ (model ≡ "gpt-5.1-codex-max")))
    ⊎ ((runtime ≡ "claude-code-cli")
        × (provider ≡ "anthropic")
        × SessionOrKey mode
        × (model ≡ "claude-opus-5"))
    ⊎ ((runtime ≡ "claude-code-cli")
        × (provider ≡ "zhipu-glm")
        × (mode ≡ "API_KEY_REFERENCE")
        × (model ≡ "glm-5.2"))
    ⊎ ((runtime ≡ "claude-code-cli")
        × (provider ≡ "moonshot-kimi")
        × (mode ≡ "API_KEY_REFERENCE")
        × (model ≡ "kimi-k2.5"))
    ⊎ ((runtime ≡ "claude-agent-sdk")
        × (provider ≡ "anthropic")
        × (mode ≡ "API_KEY_REFERENCE")
        × (model ≡ "claude-opus-5"))

abbrev pub Development : String → String → String → Type 0
Development runtime provider mode =
    (runtime ≡ "deterministic") × (provider ≡ "local") × (mode ≡ "NONE")

-- What is accepted with a model, for a substitute and for a real runtime.
abbrev pub Accepted : Bool → String → String → String → String → Type 0
Accepted true runtime provider mode model = Development runtime provider mode
Accepted false runtime provider mode model = Reviewed runtime provider mode model

substitute_sound :
    (runtime provider mode : String) (model : Option String)
    → ensure_supported runtime provider mode true model ≡ ok tt
    → Development runtime provider mode
unfolding ensure_supported
substitute_sound runtime provider mode model h = ground (
  arith,
  eq_iff "deterministic" runtime,
  eq_iff "codex-cli" runtime,
  eq_iff "claude-code-cli" runtime,
  eq_iff "claude-agent-sdk" runtime,
  eq_iff provider "local",
  eq_iff mode "NONE",
)

-- A runtime that is accepted with a model is one of the three real ones.
runtime_known :
    (runtime provider mode model : String)
    → ensure_supported runtime provider mode false (some model) ≡ ok tt
    → (runtime ≡ "codex-cli") ⊎ (runtime ≡ "claude-code-cli") ⊎ (runtime ≡ "claude-agent-sdk")
unfolding ensure_supported
runtime_known runtime provider mode model h = ground (
  arith,
  eq_iff "deterministic" runtime,
  eq_iff "codex-cli" runtime,
  eq_iff "claude-code-cli" runtime,
  eq_iff "claude-agent-sdk" runtime,
)

codex_sound :
    (provider mode model : String)
    → ensure_supported "codex-cli" provider mode false (some model) ≡ ok tt
    → (provider ≡ "openai")
      × SessionOrKey mode
      × ((model ≡ "gpt-5.1-codex") ⊎ (model ≡ "gpt-5.1-codex-max"))
unfolding ensure_supported
codex_sound provider mode model h = ground (
  arith,
  eq_iff provider "openai",
  eq_iff "openai" provider,
  eq_iff mode "LOCAL_SESSION",
  eq_iff mode "API_KEY_REFERENCE",
  eq_iff model "gpt-5.1-codex",
  eq_iff model "gpt-5.1-codex-max",
)

sdk_sound :
    (provider mode model : String)
    → ensure_supported "claude-agent-sdk" provider mode false (some model) ≡ ok tt
    → (provider ≡ "anthropic") × (mode ≡ "API_KEY_REFERENCE") × (model ≡ "claude-opus-5")
unfolding ensure_supported
sdk_sound provider mode model h = ground (
  arith,
  eq_iff provider "anthropic",
  eq_iff "anthropic" provider,
  eq_iff mode "API_KEY_REFERENCE",
  eq_iff model "claude-opus-5",
)

claude_code_sound :
    (provider mode model : String)
    → ensure_supported "claude-code-cli" provider mode false (some model) ≡ ok tt
    → ((provider ≡ "anthropic") × SessionOrKey mode × (model ≡ "claude-opus-5"))
      ⊎ ((provider ≡ "zhipu-glm") × (mode ≡ "API_KEY_REFERENCE") × (model ≡ "glm-5.2"))
      ⊎ ((provider ≡ "moonshot-kimi") × (mode ≡ "API_KEY_REFERENCE") × (model ≡ "kimi-k2.5"))
unfolding ensure_supported
claude_code_sound provider mode model h = ground (
  arith,
  eq_iff provider "anthropic",
  eq_iff provider "zhipu-glm",
  eq_iff provider "moonshot-kimi",
  eq_iff "anthropic" provider,
  eq_iff "zhipu-glm" provider,
  eq_iff "moonshot-kimi" provider,
  eq_iff mode "LOCAL_SESSION",
  eq_iff mode "API_KEY_REFERENCE",
  eq_iff model "claude-opus-5",
  eq_iff model "glm-5.2",
  eq_iff model "kimi-k2.5",
)

Reviewed-sound :
    (runtime provider mode model : String)
    → ensure_supported runtime provider mode false (some model) ≡ ok tt
    → Reviewed runtime provider mode model
Reviewed-sound runtime provider mode model h = elim (runtime_known runtime provider mode model h) [
  | inl p ↦ let s = codex_sound provider mode model (rw p at h) in inl (p, s.0, s.1, s.2)
  | inr (inl p) ↦ elim (claude_code_sound provider mode model (rw p at h)) [
    | inl s ↦ inr (inl (p, s.0, s.1, s.2))
    | inr (inl s) ↦ inr (inr (inl (p, s.0, s.1, s.2)))
    | inr (inr s) ↦ inr (inr (inr (inl (p, s.0, s.1, s.2))))
  ]
  | inr (inr p) ↦
      let s = sdk_sound provider mode model (rw p at h) in inr (inr (inr (inr (p, s.0, s.1, s.2))))
]

Accepted-sound :
    (substitute : Bool) (runtime provider mode model : String)
    → ensure_supported runtime provider mode substitute (some model) ≡ ok tt
    → Accepted substitute runtime provider mode model
Accepted-sound true runtime provider mode model h =
    substitute_sound runtime provider mode (some model) h
Accepted-sound false runtime provider mode model h = Reviewed-sound runtime provider mode model h

-- Rows of the table are accepted: each computes.
Accepted-complete :
    (substitute : Bool) (runtime provider mode model : String)
    → Accepted substitute runtime provider mode model
    → ensure_supported runtime provider mode substitute (some model) ≡ ok tt
unfolding ensure_supported
Accepted-complete true runtime provider mode model (r, p, m) = rw (r, p, m) refl
Accepted-complete false runtime provider mode model (inl (r, p, inl m, inl d)) =
    rw (r, p, m, d) refl
Accepted-complete false runtime provider mode model (inl (r, p, inl m, inr d)) =
    rw (r, p, m, d) refl
Accepted-complete false runtime provider mode model (inl (r, p, inr m, inl d)) =
    rw (r, p, m, d) refl
Accepted-complete false runtime provider mode model (inl (r, p, inr m, inr d)) =
    rw (r, p, m, d) refl
Accepted-complete false runtime provider mode model (inr (inl (r, p, inl m, d))) =
    rw (r, p, m, d) refl
Accepted-complete false runtime provider mode model (inr (inl (r, p, inr m, d))) =
    rw (r, p, m, d) refl
Accepted-complete false runtime provider mode model (inr (inr (inl (r, p, m, d)))) =
    rw (r, p, m, d) refl
Accepted-complete false runtime provider mode model (inr (inr (inr (inl (r, p, m, d))))) =
    rw (r, p, m, d) refl
Accepted-complete false runtime provider mode model (inr (inr (inr (inr (r, p, m, d))))) =
    rw (r, p, m, d) refl

-- With a model named, `ensure_supported` accepts exactly the reviewed combinations for a real
-- runtime, and the local deterministic one for a development substitute.
pub ensure_supported-Accepted :
    (substitute : Bool) (runtime provider mode model : String)
    → (ensure_supported runtime provider mode substitute (some model) ≡ ok tt)
      ↔ Accepted substitute runtime provider mode model
ensure_supported-Accepted substitute runtime provider mode model = (
  Accepted-sound substitute runtime provider mode model,
  Accepted-complete substitute runtime provider mode model,
)
