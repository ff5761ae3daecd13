-- ===== src/Jobs/Examples.antt =====
-- Concrete jobs and commands, at which the theorems about Jobs are applied.
use n2f_nest.Prelude.{
  ◌&&◌, ap, subst, if◌then◌else◌, ◌+◌, ◌≡◌, refl, true, none, some, List, [], ◌∷◌, arith, ◌≤◌,
}
use n2f_nest.Prelude.Maps.{get, set, delete}
use n2f_nest.Shared.Errors.{Kind, failure, ok, err, is_ok, Ensures}
use n2f_nest.Shared.Numbers.{nat}
use n2f_nest.Shared.Dates.{time}
use n2f_nest.Shared.Text.{text_eq, codes, is_name}
use n2f_nest.Shared.Values.{undefined, string, number, end}
use n2f_nest.Shared.Ids.{Identifier}
use n2f_nest.Shared.Work.{WorkContext}
use n2f_nest.Shared.Events.{Envelope, assert_event_work}
use n2f_nest.Shared.Effects.{Action}
use n2f_nest.Jobs.Job
use n2f_nest.Jobs.Job.{
  Job, CreateJobInput, queued, running, succeeded, starts, completes, fails, transition,
  transition_time, kind_of, subject_of, attempts_of, failure_code_of, saved, fails, retries,
}
use n2f_nest.Jobs.Restore.{restore}
use n2f_nest.Jobs.Traces.{
  Evolves, transition-Evolves, Request, count_starts, starts_bounded, run, closed_absorbs,
}
use n2f_nest.Jobs.Store.{JobStore, JobCommit, Mode, subject_is_taken, check, commit}
use n2f_nest.Jobs.Writes.{commit_all_or_nothing}
use n2f_nest.Jobs.History.{System, head, IsSafe, unmoved, next, creates, reads_job}
use n2f_nest.Jobs.History.Safety.{Reach-IsSafe, replaced, empty, empty-IsSafe}
use n2f_nest.Jobs.Lifecycle.{
  IsValid, create-IsValid, transition-IsValid, snapshot, restore-snapshot,
}

abbrev job_id : Identifier
job_id = codes "018f0000-0000-7000-8000-000000000001"

abbrev organization_id : Identifier
organization_id = codes "018f0000-0000-7000-8000-0000000000aa"

abbrev new_job : CreateJobInput
new_job = record {
  id = job_id;
  organization_id = organization_id;
  kind = string (codes "report.build");
  subject = undefined;
  max_attempts = number (nat 2);
  created_at = time 1000;
}

abbrev queued_job : Job
queued_job = record {
  id = job_id;
  organization_id = organization_id;
  kind = codes "report.build";
  subject = none;
  status = queued;
  attempts = 0;
  max_attempts = 2;
  created_at = 1000;
  updated_at = 1000;
  started_at = none;
  finished_at = none;
  failure_code = none;
  version = 0;
}

created : Job.create new_job ≡ ok queued_job
unfolding Job.create kind_of subject_of attempts_of is_name
created = refl

queued_job-IsValid : IsValid queued_job
unfolding Job.create kind_of subject_of attempts_of is_name
queued_job-IsValid = create-IsValid new_job

transition-IsValid_example : Ensures IsValid (transition queued_job starts (time 2000) undefined)
transition-IsValid_example =
    transition-IsValid queued_job starts (time 2000) undefined queued_job-IsValid

abbrev stored_job : Job
stored_job = record queued_job { version = 1 }

stored_job-IsValid : IsValid stored_job
unfolding is_name
stored_job-IsValid = ground (arith, queued_job-IsValid)

restore-snapshot_example : restore (snapshot stored_job) ≡ ok stored_job
restore-snapshot_example =
    restore-snapshot stored_job stored_job-IsValid (omega arith) (omega arith)

transition-Evolves_example :
    Ensures (Evolves queued_job) (transition queued_job starts (time 2000) undefined)
transition-Evolves_example = transition-Evolves queued_job starts (time 2000) undefined

abbrev requests : List Request
requests =
    record { action = starts; at = time 2000; code = undefined }
    ∷ record { action = fails; at = time 3000; code = string (codes "out.of.memory") }
    ∷ record { action = retries; at = time 4000; code = undefined }
    ∷ record { action = starts; at = time 5000; code = undefined }
    ∷ record { action = completes; at = time 6000; code = undefined }
    ∷ record { action = starts; at = time 7000; code = undefined }
    ∷ []

starts_bounded_example :
    (count_starts queued_job requests + 0 ≤ 2) × (count_starts queued_job requests ≤ 10)
starts_bounded_example = starts_bounded queued_job requests queued_job-IsValid

started_twice : count_starts queued_job requests ≡ 2
unfolding count_starts transition transition_time failure_code_of is_name
started_twice = refl

abbrev succeeded_job : Job
succeeded_job = record queued_job {
  status = succeeded;
  attempts = 1;
  updated_at = 3000;
  started_at = some 2000;
  finished_at = some 3000;
}

closed_absorbs_example : run succeeded_job requests ≡ succeeded_job
closed_absorbs_example = closed_absorbs succeeded_job requests refl

abbrev work : WorkContext
work = record {
  work_id = codes "018f0000-0000-7000-8000-0000000000bb";
  operation = "job.submit";
  context = codes "{}";
}

abbrev event : Envelope
event = record {
  id = codes "018f0000-0000-7000-8000-0000000000cc";
  type = "job.submitted.v1";
  occurred_at = 1000;
  work = work;
  payload = end;
  subject = none;
  tenant = none;
}

-- A bus that accepts every event, and one that refuses every event.
abbrev accepting : Envelope → Action (Unit {0}) (Unit {0})
accepting e b = (ok tt, b)

abbrev refusing : Envelope → Action (Unit {0}) (Unit {0})
refusing e b = (err (failure Kind.unavailable "event.unavailable"), b)

abbrev creation : JobCommit
creation = record { mode = Mode.create; job = queued_job; event = event; work = work }

abbrev one_job : JobStore
one_job = set job_id stored_job []

commit_all_or_nothing_example :
    let after = commit accepting creation [] tt in
    (is_ok after.0 ≡ (is_ok (check creation []) && true))
    × (after.1
        ≡ (if is_ok (check creation []) && true then set job_id (saved queued_job) [] else []))
commit_all_or_nothing_example = commit_all_or_nothing accepting creation [] tt

written : commit accepting creation [] tt ≡ (ok tt, one_job, tt)
unfolding commit check assert_event_work get set saved subject_is_taken
written = refl

written_back : (commit refusing creation [] tt).1 ≡ []
unfolding commit check assert_event_work get saved subject_is_taken set delete
written_back = refl

Reach-IsSafe_example : IsSafe (record { store = (commit accepting creation [] tt).1; reads = [] })
Reach-IsSafe_example =
    Reach-IsSafe accepting empty-IsSafe
      (next unmoved (creates empty new_job queued_job event work tt created))

-- A command has read the only job, and has started it.
abbrev one_read : System
one_read = record { store = one_job; reads = stored_job ∷ [] }

one_stored : get job_id (commit accepting creation [] tt).1 ≡ some stored_job
unfolding get set
one_stored = ap (λ p. get job_id p.1) written

one_read-IsSafe : IsSafe one_read
one_read-IsSafe =
    subst (λ s. IsSafe (record { store = s; reads = stored_job ∷ [] })) (ap (λ p. p.1) written)
      (Reach-IsSafe accepting empty-IsSafe (
        next (next unmoved (creates empty new_job queued_job event work tt created))
          (reads_job _ job_id stored_job one_stored)))

abbrev started_job : Job
started_job = record stored_job {
  status = running;
  attempts = 1;
  updated_at = 2000;
  started_at = some 2000;
}

passes :
    check (record { mode = Mode.update; job = started_job; event = event; work = work }) one_job
    ≡ ok tt
unfolding check assert_event_work get set
passes = refl

replaced_example : get job_id one_job ≡ some stored_job
unfolding transition transition_time
replaced_example =
    replaced one_read stored_job started_job event work one_read-IsSafe head
      (transition-Evolves stored_job starts (time 2000) undefined) passes
