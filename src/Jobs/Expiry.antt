-- ===== src/Jobs/Expiry.antt =====
-- src/modules/jobs/app/commands/expire-stale-jobs.ts, and the query that it reads with.
use n2f_nest.Prelude.{
  ℕ, suc, ◌-◌, Bool, true, false, ◌&&◌, Option, none, some, List, [], ◌∷◌, if◌then◌else◌, leb,
  select, take,
}
use n2f_nest.Prelude.Maps.{values}
use n2f_nest.Prelude.Sort.{sort}
use n2f_nest.Shared.Errors.{Result, ok, err, has_type}
use n2f_nest.Shared.Dates.{Time, Date, not_a_date, time, before, to_time}
use n2f_nest.Shared.Text.{Text, codes}
use n2f_nest.Shared.Values.{string, Fields, field, end, number}
use n2f_nest.Shared.Numbers.{nat}
use n2f_nest.Shared.Work.{WorkContext}
use n2f_nest.Shared.Effects.{Action, pure, lift, ◌>>=◌}
use n2f_nest.Jobs.Failures.{dependency_failure}
use n2f_nest.Jobs.Job.{Job, is_running, fail}
use n2f_nest.Jobs.Store.{JobStore, update}
use n2f_nest.Jobs.Commands.{
  Ports, World, null_or_text, subject_json, status_text, next_id, new_event, write,
}

-- JOB_TIMED_OUT
abbrev pub job_timed_out : Text
job_timed_out = codes "job.timed_out"

pub record ExpireStaleJobsCommand : Type 0 where
  pub running_timeout_ms : ℕ
  pub limit : ℕ
  pub work : WorkContext

pub record ExpireStaleJobsResult : Type 0 where
  pub expired : ℕ
  pub skipped : ℕ

-- `new Date(date.getTime() - ms)`; earlier than the earliest `Date` is an invalid one.
abbrev pub earlier : Date → ℕ → Date
earlier not_a_date ms = not_a_date
earlier (time t) ms = if leb ms t then time (t - ms) else not_a_date

abbrev pub started_before : Option Time → Date → Bool
started_before none limit = false
started_before (some t) limit = before (time t) limit

-- The test of `runningStartedBefore`.
unfoldable pub is_stale : Date → Job → Bool
is_stale limit j = is_running j.status && started_before j.started_at limit

-- `job.startedAt!.getTime()`, of jobs that passed the test.
abbrev pub start_time : Job → ℕ
start_time j = elim j.started_at [ none ↦ 0 | some t ↦ t ]

unfoldable pub running_started_before : Date → ℕ → JobStore → List Job
running_started_before limit n store =
    take n (sort start_time (select (is_stale limit) (values store)))

unfoldable pub expiry_payload : Job → Fields
expiry_payload j = field (codes "organization_id") (string j.organization_id) (
    field (codes "job_id") (string j.id) (
      field (codes "kind") (string j.kind) (
        field (codes "subject") (subject_json j.subject) (
          field (codes "status") (string (status_text j.status)) (
            field (codes "attempts") (number (nat j.attempts))
              (field (codes "failure_code") (null_or_text j.failure_code) end))))))

-- One more expired, or one more skipped.
abbrev pub counted : ExpireStaleJobsResult → Bool → ExpireStaleJobsResult
counted r true = record r { expired = suc r.expired }
counted r false = record r { skipped = suc r.skipped }

module _ {B G : Type 0} (ports : Ports B G) where
  -- Whether a commit expired the job; a stale write skips it, and another failure ends the command.
  abbrev pub committed : Result (Unit {0}) × World B G → Result Bool × World B G
  committed (ok u, w) = (ok true, w)
  committed (err e, w) =
      if has_type e "job.stale_write" then (ok false, w) else (err (dependency_failure e), w)

  -- The body of the loop, once the domain has failed the job.
  unfoldable pub expire_failed : WorkContext → Job → Action (World B G) Bool
  expire_failed work failed = do
    event_id ← next_id ports
    event ← lift (
        new_event ports (record {
          id = event_id;
          type = "job.failed.v1";
          occurred_at = to_time ports.now;
          work = work;
          payload = expiry_payload failed;
          subject = some (record { kind = codes "job"; id = failed.id });
          tenant = some failed.organization_id;
        }))
    λ w.
        committed
          (write ports (record { mode = update; job = failed; event = event; work = work }) w)

  unfoldable pub expire_one : WorkContext → Job → Action (World B G) Bool
  expire_one work job = elim (fail job ports.now (string job_timed_out)) [
    | err e ↦ pure false
    | ok failed ↦ expire_failed work failed
  ]

  unfoldable pub expire_all :
      WorkContext → List Job → ExpireStaleJobsResult → Action (World B G) ExpireStaleJobsResult
  expire_all work [] r = pure r
  expire_all work (job ∷ jobs) r = do
    done ← expire_one work job
    expire_all work jobs (counted r done)

  -- `ExpireStaleJobs.execute`; `read` is the store when it lists the jobs.
  unfoldable pub expire_stale_jobs :
      ExpireStaleJobsCommand → JobStore → Action (World B G) ExpireStaleJobsResult
  expire_stale_jobs command read =
      expire_all command.work
        (running_started_before (earlier ports.now command.running_timeout_ms) command.limit read)
        (record { expired = 0; skipped = 0 })
