-- ===== src/Workflows/Contract.antt =====
-- The events that Jobs emits are those that the workflow decodes
-- (src/workflows/document-processing/infra/job-events.ts, src/modules/jobs/app/commands/transition-job.ts).
use n2f_nest.Prelude.{ℕ, ◌≤◌, ◌≡◌, refl, ap, ap₂, ◌∙◌, Option, none, some, arith}
use n2f_nest.Shared.Errors.{ok}
use n2f_nest.Shared.Numbers.{nat, max_safe_integer}
use n2f_nest.Shared.Text.{Text, codes, text_eq}
use n2f_nest.Shared.Values.{string, number, Fields}
use n2f_nest.Shared.Ids.{Identifier, IsId, parse_of_IsId}
use n2f_nest.Shared.Events.{Envelope}
use n2f_nest.Jobs.Job
use n2f_nest.Jobs.Job.{Job, JobSubject, starts, completes, fails, retries, cancels}
use n2f_nest.Jobs.Commands.{Access, null_or_text, subject_json}
use n2f_nest.Jobs.Commands.Transition.{event_type_of, transition_payload}
use n2f_nest.Workflows.JobEvents.{
  OutcomeAction, JobOutcome, document_processing_job_kind, property, id_at, attempt_at, action_of,
  code_or_canceled, decode_target, decode_subject, decode_action, decode_job_event,
}

-- What the workflow makes of each action on a job.
abbrev pub meaning_of : Job.Action → Option Text → Option OutcomeAction
meaning_of starts code = none
meaning_of completes code = some OutcomeAction.completes
meaning_of retries code = some OutcomeAction.retries
meaning_of fails code = some (OutcomeAction.fails (code_or_canceled (null_or_text code)))
meaning_of cancels code = some (OutcomeAction.fails (code_or_canceled (null_or_text code)))

abbrev pub outcome_for : Job → Identifier → OutcomeAction → JobOutcome
outcome_for j document action = record {
  action = action;
  organization_id = j.organization_id;
  document_id = document;
  job_id = j.id;
  attempt = j.attempts;
}

abbrev pub expected : Job → Identifier → Option OutcomeAction → Option JobOutcome
expected j document none = none
expected j document (some a) = some (outcome_for j document a)

-- A job of the workflow: for a document, with canonical IDs, and attempts that are a safe integer.
pub record IsDocumentJob (j : Job) (document : Identifier) : Type 0 where
  pub kind : j.kind ≡ document_processing_job_kind
  pub subject : j.subject ≡ some (record { type = codes "document"; id = document })
  pub id_valid : IsId j.id
  pub organization_valid : IsId j.organization_id
  pub document_valid : IsId document
  pub attempts_safe : j.attempts ≤ max_safe_integer

id_at-IsId : (i : Identifier) → IsId i → id_at (string i) ≡ ok i
unfolding id_at
id_at-IsId i h = parse_of_IsId i h

attempt_at-safe : (n : ℕ) → n ≤ max_safe_integer → attempt_at (number (nat n)) ≡ ok n
unfolding attempt_at
attempt_at-safe n h = ground arith

action_of-event :
    (a : Job.Action) (code : Option Text)
    → action_of (event_type_of a) (null_or_text code) ≡ meaning_of a code
unfolding action_of
action_of-event starts code = refl
action_of-event completes code = refl
action_of-event fails code = refl
action_of-event retries code = refl
action_of-event cancels code = refl

-- What the decoder reads of a payload.
record Reads (p : Fields) (document organization job : Identifier) (n : ℕ) : Type 0 where
  kind : property (codes "kind") p ≡ string document_processing_job_kind
  subject :
      property (codes "subject") p
      ≡ subject_json (some (record { type = codes "document"; id = document }))
  organization_id : property (codes "organization_id") p ≡ string organization
  job_id : property (codes "job_id") p ≡ string job
  attempts : property (codes "attempts") p ≡ number (nat n)
  document_valid : IsId document
  organization_valid : IsId organization
  job_valid : IsId job
  attempts_safe : n ≤ max_safe_integer

module _ (p : Fields) (document organization job : Identifier) (n : ℕ)
    (r : Reads p document organization job n) where
  abbrev decoded : OutcomeAction → JobOutcome
  decoded action = record {
    action = action;
    organization_id = organization;
    document_id = document;
    job_id = job;
    attempt = n;
  }

  target-decoded :
      (action : OutcomeAction)
      → decode_target action p (string document) ≡ ok (some (decoded action))
  unfolding decode_target
  target-decoded action =
      rw
        (
          r.organization_id,
          r.job_id,
          r.attempts,
          id_at-IsId document r.document_valid,
          id_at-IsId organization r.organization_valid,
          id_at-IsId job r.job_valid,
          attempt_at-safe n r.attempts_safe,
        )
        refl

  subject-decoded :
      (action : OutcomeAction)
      → decode_subject action p (property (codes "subject") p) ≡ ok (some (decoded action))
  unfolding decode_subject
  subject-decoded action = rw r.subject (target-decoded action)

  action-decoded :
      (o : Option OutcomeAction)
      → decode_action p o ≡ ok (elim o [ none ↦ none | some a ↦ some (decoded a) ])
  unfolding decode_action
  action-decoded none = refl
  action-decoded (some a) = rw r.kind (subject-decoded a)

transition-Reads :
    (j : Job) (access : Access) (document : Identifier)
    → IsDocumentJob j document
    → Reads (transition_payload j access) document j.organization_id j.id j.attempts
unfolding transition_payload
transition-Reads j access document d = record {
  kind = ap string d.kind;
  subject = ap subject_json d.subject;
  organization_id = refl;
  job_id = refl;
  attempts = refl;
  document_valid = d.document_valid;
  organization_valid = d.organization_valid;
  job_valid = d.id_valid;
  attempts_safe = d.attempts_safe;
}

payload-code :
    (j : Job) (access : Access)
    → property (codes "failure_code") (transition_payload j access) ≡ null_or_text j.failure_code
unfolding transition_payload
payload-code j access = refl

expected-decoded :
    (j : Job) (document : Identifier) (o : Option OutcomeAction)
    → (elim o [ none ↦ none | some a ↦ some (outcome_for j document a) ]) ≡ expected j document o
expected-decoded j document none = refl
expected-decoded j document (some a) = refl

-- The event of a transition of a document's job is decoded, whatever else stands in it: a start means nothing to the workflow,
-- and any other transition means what it did to the job, with the job as the run, its document and its attempts.
pub decode_job_event-transition :
    (j : Job) (access : Access) (action : Job.Action) (event : Envelope) (document : Identifier)
    → IsDocumentJob j document
    → event.type ≡ event_type_of action
    → event.payload ≡ transition_payload j access
    → decode_job_event event ≡ ok (expected j document (meaning_of action j.failure_code))
unfolding decode_job_event
decode_job_event-transition j access action event document d type payload =
    let read = transition-Reads j access document d in
    let p = transition_payload j access in
    let code : action_of event.type (property (codes "failure_code") event.payload)
        ≡ meaning_of action j.failure_code =
      ap₂ (λ t q. action_of t (property (codes "failure_code") q)) type payload
      ∙ ap (action_of (event_type_of action)) (payload-code j access)
      ∙ action_of-event action j.failure_code in
    ap₂ decode_action payload code
    ∙ action-decoded p document j.organization_id j.id j.attempts read
        (meaning_of action j.failure_code)
    ∙ ap ok (expected-decoded j document (meaning_of action j.failure_code))
