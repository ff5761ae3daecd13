-- ===== src/Jobs/Commands/Ensured.antt =====
-- What a workflow submission (src/modules/jobs/app/commands/submit-workflow-job.ts) leaves stored.
use n2f_nest.Prelude.{
  ◌≡◌, refl, subst, sym, ◌∙◌, inl, inr, true, some, [], arith, Option-cases, Bool-cases,
}
use n2f_nest.Prelude.Maps.{get, set, get-set, find-values-some}
use n2f_nest.Shared.Errors.{Failure, has_type, Result, ok, err, Ensures, ensured}
use n2f_nest.Shared.Dates.{Date}
use n2f_nest.Shared.Text.{text_eq, text_beq_iff}
use n2f_nest.Shared.Values.{string}
use n2f_nest.Shared.Ids.{Identifier, IsId, parse_of_IsId}
use n2f_nest.Shared.Effects.{bind_cases, lift_cases}
use n2f_nest.Jobs.Job
use n2f_nest.Jobs.Job.{
  Job, JobSubject, CreateJobInput, is_failed, saved, open_job, retry, transition, kind_of,
  subject_of, subject_fields,
}
use n2f_nest.Jobs.Store.{JobStore, is_open_for, open_job_by_subject}
use n2f_nest.Jobs.History.{IsSafe}
use n2f_nest.Jobs.Commands.{
  Ports, World, subject_json, next_id, store-next_id, write-ok, write-err, write-ok_plain,
  write-err_plain,
}
use n2f_nest.Jobs.Commands.Submit.{
  SubmitWorkflowJobCommand, SubmitWorkflowJobResult, reuse_failed, reuse, open_for, after_failure,
  winner_or, store-workflow_event, settled, create_new, submit_workflow,
}

-- The job is open for the subject of the command.
abbrev pub IsOpenFor : SubmitWorkflowJobCommand → Job → Type 0
IsOpenFor command j = is_open_for command.organization_id command.kind command.subject j ≡ true

-- The job of the answer is stored, and open for the subject.
pub record HasJob (command : SubmitWorkflowJobCommand) (id : Identifier) (store : JobStore)
    : Type 0 where
  pub job : Job
  pub stored : get id store ≡ some job
  pub opened : IsOpenFor command job

pub data Submitted {B G : Type 0} (command : SubmitWorkflowJobCommand) (before : JobStore)
    : Result SubmitWorkflowJobResult × World B G → Type 0 where
  answered :
      {r : SubmitWorkflowJobResult} {after : World B G}
      → HasJob command r.job_id after.store
      → Submitted command before (ok r, after)
  failed_with :
      {e : Failure} {after : World B G}
      → after.store ≡ before
      → Submitted command before (err e, after)

retry-open :
    (command : SubmitWorkflowJobCommand) (j : Job) (at : Date)
    → IsOpenFor command j
    → Ensures (λ k. (k.id ≡ j.id) × IsOpenFor command (saved k)) (retry j at)
unfolding retry is_open_for open_job saved
retry-open command j at h = ground arith

-- An open job that is found is stored under its own ID.
opened-stored :
    (command : SubmitWorkflowJobCommand) (store : JobStore) (j : Job)
    → IsSafe (record { store = store; reads = [] })
    → open_for command store ≡ some j
    → (get j.id store ≡ some j) × IsOpenFor command j
unfolding open_for open_job_by_subject
opened-stored command store j safe h =
    let (k, here, opened) =
      find-values-some (is_open_for command.organization_id command.kind command.subject) store
        safe.distinct h in
    (subst (λ x. get x store ≡ some j) (sym (safe.stored k j here).0) here, opened)

get-set_self : (id : Identifier) (j : Job) (store : JobStore) → get id (set id j store) ≡ some j
get-set_self id j store = ground (arith, get-set id id j store, text_beq_iff id id)

-- What is written under the ID of the answer is there.
HasJob-set :
    (command : SubmitWorkflowJobCommand) (i : Identifier) {id : Identifier} (j : Job)
    (store after : JobStore)
    → after ≡ set i j store
    → i ≡ id
    → IsOpenFor command j
    → HasJob command id after
HasJob-set command i {id} j store after e same opened = record {
  job = j;
  stored =
      subst (λ x. get x after ≡ some j) same
        (subst (λ s. get i s ≡ some j) (sym e) (get-set_self i j store));
  opened = opened;
}

-- A new job is open for the subject.
created-open :
    (command : SubmitWorkflowJobCommand) (id : Identifier) (now : Date)
    → IsId command.subject.id
    → Ensures
        (λ j. IsOpenFor command (saved j))
        (Job.create (record {
          id = id;
          organization_id = command.organization_id;
          kind = string command.kind;
          subject = subject_json (some command.subject);
          max_attempts = command.max_attempts;
          created_at = now;
        }))
unfolding Job.create kind_of subject_of subject_fields is_open_for open_job saved
created-open command id now valid = ground (
  arith,
  parse_of_IsId command.subject.id valid,
  text_beq_iff command.organization_id command.organization_id,
  text_beq_iff command.kind command.kind,
  text_beq_iff command.subject.type command.subject.type,
  text_beq_iff command.subject.id command.subject.id,
)

module _ {B G : Type 0} (ports : Ports B G) (command : SubmitWorkflowJobCommand) where
  abbrev Out : JobStore → Result SubmitWorkflowJobResult × World B G → Type 0
  Out = Submitted command

  reuse_failed-Submitted :
      (j : Job) (w : World B G) → IsOpenFor command j → Out w.store (reuse_failed ports j command w)
  unfolding reuse_failed
  reuse_failed-Submitted j w opened =
      lift_cases (Out w.store) _ _ _ (λ e h. failed_with refl)
        λ k retried.
          let before = store-workflow_event ports k "job.retried.v1" command w in
          bind_cases (Out w.store) _ _ _ (λ e h. failed_with before)
            λ event made.
              bind_cases (Out w.store) _ _ _ (λ e h. failed_with (write-err ports _ _ _ h ∙ before))
                λ u written.
                  let (same, opened') =
                    ensured _ (retry j ports.now) (retry-open command j ports.now opened) retried in
                  answered (
                    HasJob-set command _ (saved k) _ _ (write-ok ports _ _ _ written).0 same
                      opened')

  reuse-Submitted :
      (j : Job) (w : World B G)
      → get j.id w.store ≡ some j
      → IsOpenFor command j
      → Out w.store (reuse ports j command w)
  unfolding reuse
  reuse-Submitted j w stored opened = elim (Bool-cases (is_failed j.status)) [
    | inl e ↦ rw e (reuse_failed-Submitted j w opened)
    | inr e ↦ rw e (answered (record { job = j; stored = stored; opened = opened }))
  ]

  found-Submitted :
      (j : Job) (w : World B G)
      → IsSafe (record { store = w.store; reads = [] })
      → open_for command w.store ≡ some j
      → Out w.store (reuse ports j command w)
  found-Submitted j w safe h =
      let (stored, opened) = opened-stored command w.store j safe h in
      reuse-Submitted j w stored opened

  race-Submitted :
      (e : Failure) (w : World B G)
      → IsSafe (record { store = w.store; reads = [] })
      → Out w.store (winner_or ports command e w)
  unfolding winner_or
  race-Submitted e w safe = elim (Option-cases (open_for command w.store)) [
    | inl h ↦ rw (h, winner_or) (failed_with refl)
    | inr (j, h) ↦ rw (h, winner_or) (found-Submitted j w safe h)
  ]

  after_failure-Submitted :
      (e : Failure) (w : World B G)
      → IsSafe (record { store = w.store; reads = [] })
      → Out w.store (after_failure ports command e w)
  unfolding after_failure
  after_failure-Submitted e w safe = elim (Bool-cases (has_type e "job.subject_taken")) [
    | inl taken ↦ rw taken (race-Submitted e w safe)
    | inr other ↦ rw other (failed_with refl)
  ]

  settled-Submitted :
      (job : Job) (before : JobStore) (r : Result (Unit {0}) × World B G)
      → IsSafe (record { store = before; reads = [] })
      → ((u : Unit {0}) → r.0 ≡ ok u → HasJob command job.id r.1.store)
      → ((e : Failure) → r.0 ≡ err e → r.1.store ≡ before)
      → Out before (settled ports command job r)
  settled-Submitted job before (ok u, w) safe has kept = answered (has u refl)
  settled-Submitted job before (err e, w) safe has kept =
      subst (λ s. Out s (after_failure ports command e w)) (kept e refl)
        (after_failure-Submitted e w
          (subst (λ s. IsSafe (record { store = s; reads = [] })) (sym (kept e refl)) safe))

  create_new-Submitted :
      (w : World B G)
      → IsId command.subject.id
      → IsSafe (record { store = w.store; reads = [] })
      → Out w.store (create_new ports command w)
  unfolding create_new
  create_new-Submitted w valid safe =
      let drawn_before = store-next_id ports w in
      bind_cases (Out w.store) _ _ _ (λ e h. failed_with drawn_before)
        λ id drawn.
          lift_cases (Out w.store) _ _ _ (λ e h. failed_with drawn_before)
            λ job made.
              let before =
                store-workflow_event ports job "job.submitted.v1" command (next_id ports w).1
                ∙ drawn_before in
              bind_cases (Out w.store) _ _ _ (λ e h. failed_with before)
                λ event encoded.
                  settled-Submitted job w.store _ safe
                    (λ u e.
                      HasJob-set command _ (saved job) _ _ (write-ok_plain ports _ _ e) refl
                        (ensured _ _ (created-open command id ports.now valid) made))
                    (λ f e. write-err_plain ports _ _ e ∙ before)

  -- Over a safe store, and for a subject with a canonical ID: a submission that answers leaves the job it
  -- names stored and open for the organization, kind and subject of the command, and one that fails
  -- leaves the store as it was.
  pub submit_workflow-Submitted :
      (w : World B G)
      → IsId command.subject.id
      → IsSafe (record { store = w.store; reads = [] })
      → Out w.store (submit_workflow ports command w.store w)
  unfolding submit_workflow
  submit_workflow-Submitted w valid safe =
      lift_cases (Out w.store) _ _ _ (λ e h. failed_with refl)
        λ u correct. elim (Option-cases (open_for command w.store)) [
          | inl h ↦ rw h (create_new-Submitted w valid safe)
          | inr (j, h) ↦ rw h (found-Submitted j w safe h)
        ]
