-- ===== src/Error.antt =====
-- crates/of-core/src/error.rs: the domain errors that the modelled operations return. A sentence
-- that the source renders is kept as the data it is rendered from.
pub mod Laws
use otto_factory.Common.{Bool, Option, false, none, some, true, ℕ}
use otto_factory.Common.Text.{Text}

-- jobs.rs, `enum Status`.
pub data Status : Type 0 where
  pending in_progress active completed failed cancelled : Status

-- The `actual` of a `WrongStatus`: a status, or the sentence about a dependency.
pub data Actual : Type 0 where
  in_status : Status → Actual
  blocked_by_dependency : Actual

-- The `expected` of a `WrongStatus`, one for each sentence in the source.
pub data Expected : Type 0 where
  expected_pending expected_ready expected_in_progress expected_claimed expected_live
        expected_not_pending :
      Expected

-- agent_label.rs, `holder`: `agent "<label>"` with the label escaped, or `user <uuid>`.
pub data Holder : Type 0 where
  by_agent : Text → Holder
  by_user : ℕ → Holder
  no_recorded_holder : Holder

-- The `reason` of an `AlreadyClaimed`.
pub data Refusal : Type 0 where
  claim_expired : Refusal
  claimed_by_other : Holder → Refusal
  generation_moved_on : Holder → Refusal

-- The messages of `Error::Invalid` and the problems of a refused label or slug.
pub data Problem : Type 0 where
  empty_title empty_ticket_ref no_job_ids no_cancel_request not_a_close empty_update
        empty_dependencies empty_resource empty_key empty_text bad_start bad_segment empty_body
        no_channel two_channels hidden_dependents :
      Problem
  not_readable not_a_parent : ℕ → Problem
  too_long : ℕ → Problem
  not_a_remote bad_status : Text → Problem
  forbidden_char : ℕ → ℕ → Problem

-- The `code` of an `Error::Redacted`, which settles its message too.
pub data Withheld : Type 0 where
  linked_elsewhere remote_elsewhere cycle key_spent : Withheld

pub data Error : Type 0 where
  invalid invalid_agent_label invalid_repo_slug : Problem → Error
  job_not_found : Text → Error
  repo_not_found : ℕ → Error
  wrong_status : Text → Actual → Expected → Error
  already_claimed : Text → Refusal → Error
  ticket_already_linked : Text → Text → Error
  dependency_cycle : Text → Text → Error
  idempotency_key_conflict : Text → Error
  lease_held : Text → Holder → ℕ → Error
  lease_not_held : ℕ → Error
  team_not_found : ℕ → Error
  team_slug_not_found : Text → Error
  -- What was asked for, and the sentence of `render_known`.
  repo_unresolved : Text → Text → Error
  repo_slug_taken : Text → Error
  remote_taken : Text → Text → Error
  redacted : Withheld → Error
  -- The refusals that only the tools make: a scope that the token lacks, and a completion that the
  -- platform does not allow, with its reason.
  missing_scope : Text → Error
  billing_refused : Option Text → Error
  race_lost access_revoked : Error
  -- `Error::Db`: an error of the database that no arm of the caller handles.
  db : Error

pub data Result {ℓ} (A : Type ℓ) : Type ℓ where
  ok : A → Result A
  err : Error → Result A

-- `result.is_ok()`.
abbrev pub is_ok {ℓ} : {A : Type ℓ} → Result A → Bool
is_ok (ok _) = true
is_ok (err _) = false

-- `option.ok_or_else(|| refusal)?`.
abbrev pub ok_or {ℓ} : {A : Type ℓ} → Option A → Error → Result A
ok_or (some found) refusal = ok found
ok_or none refusal = err refusal

-- The operator `?`: the rest runs on the value, if there is one.
infixl 5 ◌>>=◌
abbrev pub ◌>>=◌ {κ ℓ} : {A : Type κ} {B : Type ℓ} → Result A → (A → Result B) → Result B
err refusal >>= rest = err refusal
ok value >>= rest = rest value

-- `if !test { return Err(refusal) }`.
abbrev pub guard : (test : Bool) → (refusal : Error) → Result (Unit {0})
guard false refusal = err refusal
guard true refusal = ok tt

infixl 5 ◌>>◌
abbrev pub ◌>>◌ {ℓ} : {B : Type ℓ} → Result (Unit {0}) → Result B → Result B
check >> rest = check >>= (λ (u : Unit {0}). rest)
