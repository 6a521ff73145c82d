-- ===== src/Provenance/Check/Allowed.antt =====
-- On what grounds a fetch is allowed.
use mcp_searxng_relay.Base.{
  ℕ, ◌≡◌, ◌⊎◌, inl, inr, refl, arith, true, none, Text, Bool-cases, Option-cases,
}
use mcp_searxng_relay.Provenance.Confirm.{redeem}
use mcp_searxng_relay.Provenance.Data.{Mode, enforce, strict, log, off, carries_data}
use mcp_searxng_relay.Provenance.Check.{
  ToolCall, State, Env, allowed, was_shown, host_trusted, binding_of, answer_retry,
  confirm_or_refuse, check_url_provenance,
}

pub data Ground (env : Env) (now : ℕ) (req : ToolCall) (key tool raw : Text) (s : State)
    : Type 0 where
  shown : was_shown env s.history raw ≡ true → Ground env now req key tool raw s
  trusted : host_trusted env (env.parse raw) ≡ true → Ground env now req key tool raw s
  plain : env.mode ≡ enforce → carries_data env.parse raw ≡ none → Ground env now req key tool raw s
  confirmed :
      (redeem env.codec env.mac now req.request_state (binding_of env key tool raw) s.used).0 ≡ true
      → req.accepted ≡ true
      → Ground env now req key tool raw s

module _ (env : Env) (now : ℕ) (nonce : Text) (req : ToolCall) (key tool raw : Text)
    (s : State) where
  confirmed-Ground :
      (confirm_or_refuse env now nonce req (binding_of env key tool raw) raw s).0 ≡ allowed
      → Ground env now req key tool raw s
  unfolding confirm_or_refuse answer_retry
  confirmed-Ground h = confirmed (ground arith) (ground arith)

  -- The tests after the mode, under each of the two modes that enforce.
  after_mode :
      (m : Mode)
      → (m ≡ enforce) ⊎ (m ≡ strict)
      → env.mode ≡ m
      → (check_url_provenance env now nonce req key tool raw s).0 ≡ allowed
      → Ground env now req key tool raw s
  unfolding check_url_provenance
  after_mode off on e h = elim on [ inl bad ↦ cc | inr bad ↦ cc ]
  after_mode log on e h = elim on [ inl bad ↦ cc | inr bad ↦ cc ]
  after_mode enforce on e h = elim (Bool-cases (was_shown env s.history raw)) [
    | inl so ↦ shown so
    | inr unseen ↦ elim (Bool-cases (host_trusted env (env.parse raw))) [
      | inl so ↦ trusted so
      | inr other ↦ elim (Option-cases (carries_data env.parse raw)) [
        | inl clean ↦ plain e clean
        | inr (reason, carried) ↦
            confirmed-Ground (rw (check_url_provenance, e, unseen, other, carried) at h)
      ]
    ]
  ]
  after_mode strict on e h = elim (Bool-cases (was_shown env s.history raw)) [
    | inl so ↦ shown so
    | inr unseen ↦ elim (Bool-cases (host_trusted env (env.parse raw))) [
      | inl so ↦ trusted so
      | inr other ↦ elim (Option-cases (carries_data env.parse raw)) [
        | inl clean ↦ confirmed-Ground (rw (check_url_provenance, e, unseen, other, clean) at h)
        | inr (reason, carried) ↦
            confirmed-Ground (rw (check_url_provenance, e, unseen, other, carried) at h)
      ]
    ]
  ]

  -- Where the check is enforced, a fetch is allowed only on one of four grounds: the address was
  -- shown to the caller, its host is trusted, it is plain and the mode is not the strict one, or
  -- the user accepted it and the confirmation of this very caller, tool and address was redeemed.
  pub check_url_provenance-Ground :
      (env.mode ≡ enforce) ⊎ (env.mode ≡ strict)
      → (check_url_provenance env now nonce req key tool raw s).0 ≡ allowed
      → Ground env now req key tool raw s
  check_url_provenance-Ground on h = after_mode env.mode on refl h
