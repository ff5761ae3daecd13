-- ===== src/Jobs/Restore.antt =====
-- `Job.restore` of src/modules/jobs/domain/job.ts: a job read back from storage.
use n2f_nest.Prelude.{ℕ, Bool, false, not, ◌||◌, Option, none, some, is_some}
use n2f_nest.Shared.Errors.{Result, ok, refuse, ◌>>=◌, ◌>>◌}
use n2f_nest.Shared.Numbers.{Number, is_safe_integer, at_least, exceeds, to_nat, is_stored_version}
use n2f_nest.Shared.Dates.{Date, valid_date, before, to_time}
use n2f_nest.Shared.Text.{Text, is_name}
use n2f_nest.Shared.Values.{Value}
use n2f_nest.Shared.Ids.{Identifier}
use n2f_nest.Jobs.Job.{
  Job, JobStatus, queued, running, succeeded, failed, canceled, kind_of, subject_of, invalid,
}

-- `status` is `none` for a string that is not in JOB_STATUSES.
pub record RestoreJobInput : Type 0 where
  pub id : Identifier
  pub organization_id : Identifier
  pub kind : Value
  pub subject : Value
  pub status : Option JobStatus
  pub attempts : Number
  pub max_attempts : Number
  pub created_at : Date
  pub updated_at : Date
  pub started_at : Option Date
  pub finished_at : Option Date
  pub failure_code : Option Text
  pub version : Number

-- `value !== null && !validDate(value)`
abbrev pub invalid_nullable : Option Date → Bool
invalid_nullable none = false
invalid_nullable (some d) = not (valid_date d)

abbrev pub invalid_code : Option Text → Bool
invalid_code none = false
invalid_code (some s) = not (is_name 127 s)

unfoldable pub invalid_fields : RestoreJobInput → Bool
invalid_fields i =
    not (is_some i.status)
    || not (is_safe_integer i.attempts)
    || not (is_safe_integer i.max_attempts)
    || not (at_least 0 i.attempts)
    || not (at_least 1 i.max_attempts)
    || at_least 11 i.max_attempts
    || exceeds i.attempts i.max_attempts
    || not (valid_date i.created_at)
    || not (valid_date i.updated_at)
    || invalid_nullable i.started_at
    || invalid_nullable i.finished_at
    || invalid_code i.failure_code
    || not (is_stored_version i.version)

unfoldable pub invalid_lifecycle : Option JobStatus → RestoreJobInput → Bool
invalid_lifecycle (some queued) i =
    is_some i.started_at || is_some i.finished_at || is_some i.failure_code
invalid_lifecycle (some running) i =
    not (is_some i.started_at)
    || is_some i.finished_at
    || is_some i.failure_code
    || not (at_least 1 i.attempts)
invalid_lifecycle (some succeeded) i =
    not (is_some i.started_at) || not (is_some i.finished_at) || is_some i.failure_code
invalid_lifecycle (some failed) i =
    not (is_some i.started_at) || not (is_some i.finished_at) || not (is_some i.failure_code)
invalid_lifecycle (some canceled) i = not (is_some i.finished_at)
invalid_lifecycle none i = false

abbrev pub status_or_queued : Option JobStatus → JobStatus
status_or_queued (some s) = s
status_or_queued none = queued

abbrev pub nullable_time : Option Date → Option ℕ
nullable_time none = none
nullable_time (some d) = some (to_time d)

unfoldable pub restore : RestoreJobInput → Result Job
unfolding invalid_fields invalid_lifecycle
restore i = do
  job_kind ← kind_of i.kind
  job_subject ← subject_of i.subject
  refuse (invalid_fields i) (invalid "job.invalid_state")
  refuse (before i.updated_at i.created_at) (invalid "job.non_monotonic_time")
  refuse (invalid_lifecycle i.status i) (invalid "job.invalid_state")
  ok (record {
    id = i.id;
    organization_id = i.organization_id;
    kind = job_kind;
    subject = job_subject;
    status = status_or_queued i.status;
    attempts = to_nat i.attempts;
    max_attempts = to_nat i.max_attempts;
    created_at = to_time i.created_at;
    updated_at = to_time i.updated_at;
    started_at = nullable_time i.started_at;
    finished_at = nullable_time i.finished_at;
    failure_code = i.failure_code;
    version = to_nat i.version;
  })
