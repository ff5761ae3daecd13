-- ===== src/Jobs/Requests.antt =====
-- Commands on a concrete store, at which the theorems about the commands are applied.
use n2f_nest.Prelude.{◌≡◌, refl, none, some, [], ◌∷◌}
use n2f_nest.Prelude.Maps.{set}
use n2f_nest.Shared.Errors.{ok}
use n2f_nest.Shared.Numbers.{nat}
use n2f_nest.Shared.Dates.{time}
use n2f_nest.Shared.Text.{text_eq, codes}
use n2f_nest.Shared.Values.{undefined, string, number}
use n2f_nest.Shared.Ids.{Identifier, parse, parse-IsId, is_canonical}
use n2f_nest.Shared.Work.{WorkContext}
use n2f_nest.Jobs.Job.{Job, queued, running, starts}
use n2f_nest.Jobs.Store.{JobStore}
use n2f_nest.Jobs.History.Safety.{empty-IsSafe}
use n2f_nest.Jobs.Commands.{Ports, World, admin}
use n2f_nest.Jobs.Commands.Transition.{TransitionJobCommand, execute, Outcome, execute-Outcome}
use n2f_nest.Jobs.Commands.Submit.{SubmitWorkflowJobCommand, submit_workflow}
use n2f_nest.Jobs.Expiry.{
  ExpireStaleJobsCommand, earlier, is_stale, running_started_before, expire_stale_jobs,
}
use n2f_nest.Jobs.Listed.{ListsOldest, running_started_before-ListsOldest}
use n2f_nest.Jobs.Expired.{Expired, expire_stale_jobs-Expired}
use n2f_nest.Jobs.Commands.Ensured.{Submitted, submit_workflow-Submitted}

abbrev job_id : Identifier
job_id = codes "018f0000-0000-7000-8000-000000000001"

abbrev organization_id : Identifier
organization_id = codes "018f0000-0000-7000-8000-0000000000aa"

-- A generator that always draws the same ID.
abbrev ports : Ports (Unit {0}) (Unit {0})
ports = record {
  publish = λ e b. (ok tt, b);
  new_id = λ g. (ok job_id, g);
  byte_length = λ e. 100;
  now = time 9000;
  find_access = λ token organization.
      ok (some (record { organization_id = organization; identity_id = job_id; role = admin }));
}

abbrev start_work : WorkContext
start_work = record { work_id = job_id; operation = "job.start"; context = codes "{}" }

abbrev start_command : TransitionJobCommand
start_command = record {
  session_token = codes "token";
  organization_id = organization_id;
  job_id = job_id;
  failure_code = undefined;
  work = start_work;
}

abbrev job : Job
job = record {
  id = job_id;
  organization_id = organization_id;
  kind = codes "report.build";
  subject = none;
  status = queued;
  attempts = 0;
  max_attempts = 2;
  created_at = 1000;
  updated_at = 1000;
  started_at = none;
  finished_at = none;
  failure_code = none;
  version = 1;
}

abbrev one_job : JobStore
one_job = set job_id job []

abbrev world : World (Unit {0}) (Unit {0})
world = record { store = one_job; bus = tt; ids = tt }

execute-Outcome_example :
    Outcome ports starts start_command one_job world
      (execute ports starts start_command one_job world)
execute-Outcome_example = execute-Outcome ports starts start_command one_job world

abbrev submission : SubmitWorkflowJobCommand
submission = record {
  organization_id = organization_id;
  kind = codes "document.process";
  subject = record { type = codes "document"; id = job_id };
  max_attempts = number (nat 3);
  work = record { work_id = job_id; operation = "job.submit.workflow"; context = codes "{}" };
}

abbrev no_jobs : World (Unit {0}) (Unit {0})
no_jobs = record { store = []; bus = tt; ids = tt }

submit_workflow-Submitted_example :
    Submitted submission [] (submit_workflow ports submission [] no_jobs)
unfolding parse is_canonical
submit_workflow-Submitted_example =
    submit_workflow-Submitted ports submission no_jobs (parse-IsId (string job_id) job_id refl)
      empty-IsSafe

abbrev stuck_job : Job
stuck_job = record job { status = running; attempts = 1; started_at = some 1000 }

abbrev one_stuck : World (Unit {0}) (Unit {0})
one_stuck = record { store = set job_id stuck_job []; bus = tt; ids = tt }

running_started_before-ListsOldest_example :
    ListsOldest
      (time 8000)
      10
      one_stuck.store
      (running_started_before (time 8000) 10 one_stuck.store)
running_started_before-ListsOldest_example =
    running_started_before-ListsOldest (time 8000) 10 one_stuck.store

abbrev expiry : ExpireStaleJobsCommand
expiry = record {
  running_timeout_ms = 1000;
  limit = 10;
  work = record { work_id = job_id; operation = "job.expire"; context = codes "{}" };
}

listed_one : running_started_before (earlier (time 9000) 1000) 10 one_stuck.store ≡ (stuck_job ∷ [])
unfolding running_started_before is_stale set
listed_one = refl

expire_stale_jobs-Expired_example :
    Expired ports
      (running_started_before (earlier (time 9000) 1000) 10 one_stuck.store)
      (record { expired = 0; skipped = 0 })
      one_stuck.store
      (expire_stale_jobs ports expiry one_stuck.store one_stuck)
expire_stale_jobs-Expired_example = expire_stale_jobs-Expired ports expiry one_stuck.store one_stuck
