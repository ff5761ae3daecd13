-- ===== src/Jobs/Lifecycle.antt =====
-- The invariant of a job (src/modules/jobs/domain/job.ts), over creation, transitions and storage.
use n2f_nest.Prelude.{ℕ, ◌≤◌, ◌≡◌, refl, true, Option, none, some, is_some, arith}
use n2f_nest.Shared.Errors.{Result, ok, err, Ensures}
use n2f_nest.Shared.Numbers.{nat, max_safe_integer, is_stored_version}
use n2f_nest.Shared.Dates.{Time, Date, time}
use n2f_nest.Shared.Text.{Text, codes, is_name}
use n2f_nest.Shared.Values.{Value, null, string, object, field, end, own}
use n2f_nest.Shared.Ids.{Identifier, IsId, parse, parse-IsId, parse_of_IsId}
use n2f_nest.Jobs.Job.{
  Job, JobStatus, JobSubject, queued, running, succeeded, failed, canceled, kind_of, subject_of,
  subject_fields, attempts_of, failure_code_of, CreateJobInput, create, transition_time, Action,
  fails, transition,
}
use n2f_nest.Jobs.Restore.{RestoreJobInput, restore}

abbrev pub SubjectIsValid : Option JobSubject → Type 0
SubjectIsValid none = Unit
SubjectIsValid (some s) = (is_name 63 s.type ≡ true) × IsId s.id

abbrev pub CodeIsValid : Option Text → Type 0
CodeIsValid none = Unit
CodeIsValid (some c) = is_name 127 c ≡ true

-- What each status says of the times, the failure code and the attempts.
abbrev pub Lifecycle : JobStatus → Option Time → Option Time → Option Text → ℕ → Type 0
Lifecycle queued started finished code n = (started ≡ none) × (finished ≡ none) × (code ≡ none)
Lifecycle running started finished code n =
    (is_some started ≡ true) × (finished ≡ none) × (code ≡ none) × (1 ≤ n)
Lifecycle succeeded started finished code n =
    (is_some started ≡ true) × (is_some finished ≡ true) × (code ≡ none)
Lifecycle failed started finished code n =
    (is_some started ≡ true) × (is_some finished ≡ true) × (is_some code ≡ true)
Lifecycle canceled started finished code n = is_some finished ≡ true

abbrev subject_value : Option JobSubject → Value
subject_value none = null
subject_value (some s) =
    object (field (codes "type") (string s.type) (field (codes "id") (string s.id) end))

abbrev date_of : Option Time → Option Date
date_of none = none
date_of (some t) = some (time t)

pub record IsValid (j : Job) : Type 0 where
  pub kind_named : is_name 119 j.kind ≡ true
  pub subject_valid : SubjectIsValid j.subject
  pub max_low : 1 ≤ j.max_attempts
  pub max_high : j.max_attempts ≤ 10
  pub attempts_capped : j.attempts ≤ j.max_attempts
  pub monotonic : j.created_at ≤ j.updated_at
  pub code_valid : CodeIsValid j.failure_code
  pub lifecycle : Lifecycle j.status j.started_at j.finished_at j.failure_code j.attempts

parse-Ensures : (v : Value) → Ensures IsId (parse v)
parse-Ensures v = ensures (parse v) refl
  where
    ensures : (r : Result Identifier) → parse v ≡ r → Ensures IsId r
    ensures (ok i) e = parse-IsId v i e
    ensures (err f) e = tt

subject_fields-valid : (t i : Option Value) → Ensures SubjectIsValid (subject_fields t i)
unfolding subject_fields
subject_fields-valid (some (string t)) (some (string i)) = ground (arith, parse-Ensures (string i))
subject_fields-valid _ _ = ground arith

subject_of-valid : (v : Value) → Ensures SubjectIsValid (subject_of v)
unfolding subject_of
subject_of-valid (object fs) = subject_fields-valid (own (codes "type") fs) (own (codes "id") fs)
subject_of-valid _ = ground arith

attempts_of_bounds : (v : Value) → Ensures (λ n. (1 ≤ n) × (n ≤ 10)) (attempts_of v)
unfolding attempts_of
attempts_of_bounds v = ground arith

kind_of-valid : (v : Value) → Ensures (λ s. is_name 119 s ≡ true) (kind_of v)
unfolding kind_of
kind_of-valid v = ground arith

failure_code_of-valid : (v : Value) → Ensures (λ s. is_name 127 s ≡ true) (failure_code_of v)
unfolding failure_code_of
failure_code_of-valid v = ground arith

-- A job that is created is valid.
pub create-IsValid : (i : CreateJobInput) → Ensures IsValid (create i)
unfolding create
create-IsValid i =
    ground
      (arith, kind_of-valid i.kind, attempts_of_bounds i.max_attempts, subject_of-valid i.subject)

-- A transition of a valid job gives a valid job, if it gives one.
pub transition-IsValid :
    (j : Job) (a : Action) (at : Date) (code : Value)
    → IsValid j
    → Ensures IsValid (transition j a at code)
unfolding transition transition_time
transition-IsValid j fails at code v = ground (arith, failure_code_of-valid code)
transition-IsValid j _ at code v = ground arith

-- The row that storage keeps of a job.
pub snapshot : Job → RestoreJobInput
snapshot j = record {
  id = j.id;
  organization_id = j.organization_id;
  kind = string j.kind;
  subject = subject_value j.subject;
  status = some j.status;
  attempts = nat j.attempts;
  max_attempts = nat j.max_attempts;
  created_at = time j.created_at;
  updated_at = time j.updated_at;
  started_at = date_of j.started_at;
  finished_at = date_of j.finished_at;
  failure_code = j.failure_code;
  version = nat j.version;
}

subject_of-subject_value :
    (s : Option JobSubject) → SubjectIsValid s → subject_of (subject_value s) ≡ ok s
unfolding subject_of
subject_of-subject_value none h = refl
subject_of-subject_value (some s) h = ground (arith, parse_of_IsId s.id h.1)

kind_of_name : (s : Text) → is_name 119 s ≡ true → kind_of (string s) ≡ ok s
unfolding kind_of
kind_of_name s h = rw h

-- A valid job at a stored version is restored from its row as it was.
pub restore-snapshot :
    (j : Job)
    → IsValid j
    → 1 ≤ j.version
    → j.version ≤ max_safe_integer
    → restore (snapshot j) ≡ ok j
unfolding restore snapshot is_stored_version
restore-snapshot j v low high =
    ground (arith, kind_of_name j.kind, subject_of-subject_value j.subject)

-- Whatever a row holds, a job that is restored from it is valid.
pub restore-IsValid : (i : RestoreJobInput) → Ensures IsValid (restore i)
unfolding restore
restore-IsValid i = ground (arith, kind_of-valid i.kind, subject_of-valid i.subject)
