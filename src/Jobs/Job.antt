-- ===== src/Jobs/Job.antt =====
-- src/modules/jobs/domain/job.ts: a job, how it is created, and its transitions. A `Date` that
-- passed `validDate` is kept as its time, and a number that passed the checks as a natural number.
use n2f_nest.Prelude.{
  ℕ, ◌+◌, Bool, true, false, not, ◌&&◌, ◌||◌, Option, none, some, String, ltb, leb, if◌then◌else◌,
}
use n2f_nest.Shared.Errors.{Result, ok, err, Kind, Failure, failure, require, refuse, ◌>>=◌, ◌>>◌}
use n2f_nest.Shared.Numbers.{is_safe_integer, at_least, to_nat, Version, unsaved}
use n2f_nest.Shared.Dates.{Time, Date, not_a_date, time}
use n2f_nest.Shared.Text.{Text, codes, text_eq, is_name}
use n2f_nest.Shared.Values.{Value, undefined, null, number, string, object, own}
use n2f_nest.Shared.Ids.{Identifier, parse}

-- JOB_STATUSES
pub data JobStatus : Type 0 where
  queued running succeeded failed canceled : JobStatus

pub record JobSubject : Type 0 where
  pub type : Text
  pub id : Identifier

-- JobState
pub record Job : Type 0 where
  pub id : Identifier
  pub organization_id : Identifier
  pub kind : Text
  pub subject : Option JobSubject
  pub status : JobStatus
  pub attempts : ℕ
  pub max_attempts : ℕ
  pub created_at : Time
  pub updated_at : Time
  pub started_at : Option Time
  pub finished_at : Option Time
  pub failure_code : Option Text
  pub version : Version

abbrev pub invalid : String → Failure
invalid t = failure Kind.invalid t

-- `validDate(value)`, with the failure of the caller, and the time of the date.
abbrev pub valid_time : Date → String → Result Time
valid_time not_a_date e = err (invalid e)
valid_time (time t) e = ok t

unfoldable pub kind_of : Value → Result Text
kind_of (string s) = if is_name 119 s then ok s else err (invalid "job.invalid_kind")
kind_of _ = err (invalid "job.invalid_kind")

-- The two property reads of `subject`: `type` has to be a name and `id` an identifier.
unfoldable pub subject_fields : Option Value → Option Value → Result (Option JobSubject)
subject_fields (some (string t)) (some (string i)) =
    if is_name 63 t
    then (elim (parse (string i)) [
      | ok id ↦ ok (some (record { type = t; id = id }))
      | err e ↦ err (invalid "job.invalid_subject")
    ])
    else err (invalid "job.invalid_subject")
subject_fields _ _ = err (invalid "job.invalid_subject")

unfoldable pub subject_of : Value → Result (Option JobSubject)
unfolding subject_fields
subject_of undefined = ok none
subject_of null = ok none
subject_of (object fs) = subject_fields (own (codes "type") fs) (own (codes "id") fs)
subject_of _ = err (invalid "job.invalid_subject")

unfoldable pub attempts_of : Value → Result ℕ
attempts_of undefined = ok 3
attempts_of (number n) =
    if not (is_safe_integer n) || not (at_least 1 n) || at_least 11 n
    then err (invalid "job.invalid_attempts")
    else ok (to_nat n)
attempts_of _ = err (invalid "job.invalid_attempts")

unfoldable pub failure_code_of : Value → Result Text
failure_code_of (string s) =
    if is_name 127 s then ok s else err (invalid "job.invalid_failure_code")
failure_code_of _ = err (invalid "job.invalid_failure_code")

pub record CreateJobInput : Type 0 where
  pub id : Identifier
  pub organization_id : Identifier
  pub kind : Value
  pub subject : Value
  pub max_attempts : Value
  pub created_at : Date

unfoldable pub create : CreateJobInput → Result Job
create input = do
  job_kind ← kind_of input.kind
  max_attempts ← attempts_of input.max_attempts
  job_subject ← subject_of input.subject
  created_at ← valid_time input.created_at "job.invalid_created_at"
  ok (record {
    id = input.id;
    organization_id = input.organization_id;
    kind = job_kind;
    subject = job_subject;
    status = queued;
    attempts = 0;
    max_attempts = max_attempts;
    created_at = created_at;
    updated_at = created_at;
    started_at = none;
    finished_at = none;
    failure_code = none;
    version = unsaved;
  })

unfoldable pub saved : Job → Job
saved j = record j { version = j.version + 1 }

abbrev pub is_queued : JobStatus → Bool
is_queued queued = true
is_queued _ = false

abbrev pub is_running : JobStatus → Bool
is_running running = true
is_running _ = false

abbrev pub is_failed : JobStatus → Bool
is_failed failed = true
is_failed _ = false

-- `succeeded` or `canceled`
abbrev pub is_closed : JobStatus → Bool
is_closed succeeded = true
is_closed canceled = true
is_closed _ = false

-- The getter `open`.
unfoldable pub open_job : Job → Bool
open_job j =
    is_queued j.status
    || is_running j.status
    || (is_failed j.status && ltb j.attempts j.max_attempts)

unfoldable pub transition_time : Job → Date → Result Time
transition_time j not_a_date = err (invalid "job.invalid_time")
transition_time j (time at) =
    if ltb at j.updated_at then err (invalid "job.non_monotonic_time") else ok at

unfoldable pub start : Job → Date → Result Job
start j at = do
  t ← transition_time j at
  require (is_queued j.status) (invalid "job.not_queued")
  refuse (leb j.max_attempts j.attempts) (invalid "job.attempts_exhausted")
  ok (record j {
    status = running;
    attempts = j.attempts + 1;
    updated_at = t;
    started_at = some t;
    finished_at = none;
    failure_code = none;
  })

unfoldable pub complete : Job → Date → Result Job
complete j at = do
  t ← transition_time j at
  require (is_running j.status) (invalid "job.not_running")
  ok (record j { status = succeeded; updated_at = t; finished_at = some t })

unfoldable pub fail : Job → Date → Value → Result Job
fail j at code = do
  t ← transition_time j at
  require (is_running j.status) (invalid "job.not_running")
  reason ← failure_code_of code
  ok (record j {
    status = failed;
    updated_at = t;
    finished_at = some t;
    failure_code = some reason;
  })

unfoldable pub retry : Job → Date → Result Job
retry j at = do
  t ← transition_time j at
  require (is_failed j.status) (invalid "job.not_failed")
  refuse (leb j.max_attempts j.attempts) (invalid "job.attempts_exhausted")
  ok (record j {
    status = queued;
    updated_at = t;
    started_at = none;
    finished_at = none;
    failure_code = none;
  })

unfoldable pub cancel : Job → Date → Result Job
cancel j at = do
  t ← transition_time j at
  refuse (is_closed j.status) (invalid "job.not_cancelable")
  ok (record j { status = canceled; updated_at = t; finished_at = some t; failure_code = none })

-- `Action` and `transition` of src/modules/jobs/app/commands/transition-job.ts.
pub data Action : Type 0 where
  starts completes fails retries cancels : Action

unfoldable pub transition : Job → Action → Date → Value → Result Job
unfolding start complete fail retry cancel
transition j starts at code = start j at
transition j completes at code = complete j at
transition j fails at code = fail j at code
transition j retries at code = retry j at
transition j cancels at code = cancel j at
