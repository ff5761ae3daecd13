-- ===== src/Workflows/JobEvents.antt =====
-- src/workflows/document-processing/infra/job-events.ts: the workflow's own decoder of job events.
use text.Mathlib.Text.{◌==◌ as str_eq}
use n2f_nest.Prelude.{ℕ, Bool, false, ◌&&◌, Option, none, some, String, if◌then◌else◌}
use n2f_nest.Prelude.Maps.{◌===◌}
use n2f_nest.Shared.Errors.{Kind, failure, Failure, Result, ok, err, ◌>>=◌}
use n2f_nest.Shared.Numbers.{is_safe_integer, at_least, to_nat}
use n2f_nest.Shared.Text.{Text, codes, text_eq}
use n2f_nest.Shared.Values.{Value, undefined, number, string, object, Fields, own}
use n2f_nest.Shared.Ids.{Identifier, parse}
use n2f_nest.Shared.Events.{Envelope}

-- DOCUMENT_PROCESSING_JOB_KIND
abbrev pub document_processing_job_kind : Text
document_processing_job_kind = codes "document.process"

-- The action of an outcome, with the failure code of a failure.
pub data OutcomeAction : Type 0 where
  retries completes : OutcomeAction
  fails : Text → OutcomeAction

-- JobOutcome
pub record JobOutcome : Type 0 where
  pub action : OutcomeAction
  pub organization_id : Identifier
  pub document_id : Identifier
  pub job_id : Identifier
  pub attempt : ℕ

abbrev invalid : Failure
invalid = failure Kind.invalid "workflow.invalid_event"

abbrev pub property : Text → Fields → Value
property key fields = elim (own key fields) [ none ↦ undefined | some v ↦ v ]

abbrev pub is_text : Text → Value → Bool
is_text t (string s) = s === t
is_text t _ = false

-- `idAt`
unfoldable pub id_at : Value → Result Identifier
id_at (string s) = parse (string s)
id_at _ = err invalid

unfoldable pub attempt_at : Value → Result ℕ
attempt_at (number n) = if is_safe_integer n && at_least 0 n then ok (to_nat n) else err invalid
attempt_at _ = err invalid

abbrev pub code_or_canceled : Value → Text
code_or_canceled (string s) = s
code_or_canceled _ = codes "job.canceled"

-- ACTIONS, of the event's type, with the failure code for a failure.
unfoldable pub action_of : String → Value → Option OutcomeAction
action_of type code =
    if str_eq type "job.retried.v1"
    then some retries
    else if str_eq type "job.completed.v1"
    then some completes
    else if str_eq type "job.failed.v1"
    then some (fails (code_or_canceled code))
    else if str_eq type "job.canceled.v1"
    then some (fails (code_or_canceled code))
    else none

-- The properties of the payload, once the subject's own are known to be a document's.
unfoldable pub decode_target : OutcomeAction → Fields → Value → Result (Option JobOutcome)
decode_target action payload id = do
  document ← id_at id
  organization ← id_at (property (codes "organization_id") payload)
  job ← id_at (property (codes "job_id") payload)
  attempt ← attempt_at (property (codes "attempts") payload)
  ok (
      some (record {
        action = action;
        organization_id = organization;
        document_id = document;
        job_id = job;
        attempt = attempt;
      }))

-- A subject that is no object, or not a document's, is none of the workflow's concern.
unfoldable pub decode_subject : OutcomeAction → Fields → Value → Result (Option JobOutcome)
decode_subject action payload (object subject) =
    if is_text (codes "document") (property (codes "type") subject)
    then decode_target action payload (property (codes "id") subject)
    else ok none
decode_subject action payload _ = ok none

-- Events of other actions, and jobs of other kinds, are none of the workflow's concern.
unfoldable pub decode_action : Fields → Option OutcomeAction → Result (Option JobOutcome)
decode_action payload none = ok none
decode_action payload (some action) =
    if is_text document_processing_job_kind (property (codes "kind") payload)
    then decode_subject action payload (property (codes "subject") payload)
    else ok none

-- `decodeJobEvent`
unfoldable pub decode_job_event : Envelope → Result (Option JobOutcome)
decode_job_event event =
    decode_action event.payload
      (action_of event.type (property (codes "failure_code") event.payload))
