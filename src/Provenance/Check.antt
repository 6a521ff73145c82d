-- ===== src/Provenance/Check.antt =====
-- The decision about one fetch: checkURLProvenance of provenance.go, with canElicit,
-- isConfirmationRetry and confirmationAnswer of confirm.go as the facts that they read off the
-- request. What is logged and shown is left out.
pub mod Allowed
use mcp_searxng_relay.Base.{
  ℕ, suc, Bool, true, false, not, ◌&&◌, ◌||◌, Option, none, some, List, [], ◌∷◌, ◌++◌, Text,
  text_eq, codes, ◌==◌, if◌then◌else◌,
}
use mcp_searxng_relay.Provenance.Confirm.{Codec, Used, issue, redeem}
use mcp_searxng_relay.Provenance.Data.{
  Url, Mode, enforce, strict, log, off, Carried, carries_data, trusted_host, url_key,
}
use mcp_searxng_relay.Provenance.Seen.{SeenUrls, add, has}

-- The labels of the provenance counter, in its order.
pub data Outcome : Type 0 where
  seen trusted unseen_plain would_block blocked declined confirmed asked : Outcome

-- What the call's parameters say: the state that a retry hands back, whether any input response
-- came with it, whether the user accepted, and whether the client can ask the user.
pub record ToolCall : Type 0 where
  pub request_state : Text
  pub has_responses : Bool
  pub accepted : Bool
  pub can_elicit : Bool

abbrev pub is_retry : ToolCall → Bool
is_retry req = not (text_eq req.request_state []) || req.has_responses

-- The server's parts that the check reads or changes; `history` is the caller's set of shown
-- addresses, `none` where histories are off. `recorded` is the counter's outcomes, latest first.
pub record State : Type 0 where
  pub history : Option SeenUrls
  pub used : Used
  pub recorded : List Outcome

pub data Verdict : Type 0 where
  allowed : Verdict
  refused : Verdict
  -- The user is asked, and this state redeems the answer.
  ask : Text → Verdict

abbrev pub record_outcome : Outcome → State → State
record_outcome o s = record s { recorded = o ∷ s.recorded }

-- What the check needs from outside the program, and its configuration.
pub record Env : Type 0 where
  pub parse : Text → Option Url
  pub unescape : Text → Option Text
  pub codec : Codec
  pub mac : Text → Text → Text
  pub mode : Mode
  pub trusted_hosts : List Text

module _ (env : Env) where
  abbrev pub was_shown : Option SeenUrls → Text → Bool
  was_shown none raw = false
  was_shown (some h) raw = has (url_key env.parse env.unescape) raw h

  -- rememberURLs of one address
  abbrev pub remember : Text → State → State
  remember raw s = record s {
    history = elim s.history [
      | none ↦ none
      | some h ↦
          if text_eq raw [] then some h else some (add (url_key env.parse env.unescape) raw h)
    ];
  }

  abbrev pub host_trusted : Option Url → Bool
  host_trusted none = false
  host_trusted (some u) = trusted_host u.hostname env.trusted_hosts

  abbrev pub is_strict : Mode → Bool
  is_strict strict = true
  is_strict enforce = false
  is_strict log = false
  is_strict off = false

  abbrev pub is_log : Mode → Bool
  is_log log = true
  is_log enforce = false
  is_log strict = false
  is_log off = false

  -- The binding of a confirmation to the caller, the tool and the address.
  abbrev pub binding_of : Text → Text → Text → Text
  binding_of key tool raw = key ++ 0 ∷ (tool ++ 0 ∷ raw)

  -- A retry with the answer to a question.
  unfoldable pub answer_retry : ℕ → ToolCall → Text → Text → State → Verdict × State
  answer_retry now req binding raw s =
      let (ok, used) = redeem env.codec env.mac now req.request_state binding s.used in
      if not ok
      then (refused, record_outcome blocked (record s { used = used }))
      else if not req.accepted
      then (refused, record_outcome declined (record s { used = used }))
      else (allowed, remember raw (record_outcome confirmed (record s { used = used })))

  -- An address that is neither shown nor trusted nor plain.
  unfoldable pub confirm_or_refuse : ℕ → Text → ToolCall → Text → Text → State → Verdict × State
  unfolding answer_retry
  confirm_or_refuse now nonce req binding raw s =
      if is_retry req
      then answer_retry now req binding raw s
      else if req.can_elicit
      then (ask (issue env.codec env.mac now nonce binding), record_outcome asked s)
      else (refused, record_outcome blocked s)

  unfoldable pub check_url_provenance :
      ℕ → Text → ToolCall → Text → Text → Text → State → Verdict × State
  unfolding confirm_or_refuse
  check_url_provenance now nonce req key tool raw s = elim env.mode [
    | off ↦ (allowed, s)
    | mode ↦
        if was_shown s.history raw
        then (allowed, record_outcome seen s)
        else if host_trusted (env.parse raw)
        then (allowed, record_outcome trusted s)
        else elim (carries_data env.parse raw) [
          | none ↦
              if not (is_strict mode)
              then (allowed, record_outcome unseen_plain s)
              else confirm_or_refuse now nonce req (binding_of key tool raw) raw s
          | some reason ↦
              if is_log mode
              then (allowed, record_outcome would_block s)
              else confirm_or_refuse now nonce req (binding_of key tool raw) raw s
        ]
  ]
