-- ===== src/Jobs/Traces.antt =====
-- What a job goes through over any sequence of transition requests.
use n2f_nest.Prelude.{ℕ, ◌+◌, ◌≤◌, ◌≡◌, refl, true, List, [], ◌∷◌, arith}
use n2f_nest.Shared.Errors.{Result, ok, err, Ensures}
use n2f_nest.Shared.Dates.{Date}
use n2f_nest.Shared.Values.{Value}
use n2f_nest.Jobs.Job.{
  Job, JobStatus, queued, running, succeeded, failed, canceled, open_job, is_closed, Action, starts,
  fails, transition, transition_time,
}
use n2f_nest.Jobs.Lifecycle.{IsValid, transition-IsValid}

-- What a transition leaves alone, and that it opens no job that was not open.
pub record Evolves (j k : Job) : Type 0 where
  pub id : k.id ≡ j.id
  pub organization_id : k.organization_id ≡ j.organization_id
  pub kind : k.kind ≡ j.kind
  pub subject : k.subject ≡ j.subject
  pub max_attempts : k.max_attempts ≡ j.max_attempts
  pub created_at : k.created_at ≡ j.created_at
  pub version : k.version ≡ j.version
  pub updated_at : j.updated_at ≤ k.updated_at
  pub attempts : j.attempts ≤ k.attempts
  pub opens_none : open_job k ≡ true → open_job j ≡ true

-- A transition that succeeds changes neither the identity, the subject, the limit nor the version of the job, moves
-- its time and its attempts only forward, and opens no job that was closed.
pub transition-Evolves :
    (j : Job) (a : Action) (at : Date) (code : Value) → Ensures (Evolves j) (transition j a at code)
unfolding transition transition_time open_job
transition-Evolves j fails at code = ground arith
transition-Evolves j _ at code = ground arith

-- The edges of the status diagram.
infix 40 ◌⟶◌
pub data ◌⟶◌ : JobStatus → JobStatus → Type 0 where
  started : queued ⟶ running
  completed : running ⟶ succeeded
  broke : running ⟶ failed
  retried : failed ⟶ queued
  canceled_queued : queued ⟶ canceled
  canceled_running : running ⟶ canceled
  canceled_failed : failed ⟶ canceled

ruleset edges =
    (started, completed, broke, retried, canceled_queued, canceled_running, canceled_failed)

-- A transition that succeeds follows an edge of the status diagram.
pub transition-⟶ :
    (j : Job) (a : Action) (at : Date) (code : Value)
    → Ensures (λ k. j.status ⟶ k.status) (transition j a at code)
unfolding transition transition_time
transition-⟶ j starts at code = grind (arith, edges)
transition-⟶ j _ at code = grind (arith, edges)

pub record Request : Type 0 where
  pub action : Action
  pub at : Date
  pub code : Value

abbrev pub request : Job → Request → Result Job
request j r = transition j r.action r.at r.code

-- A refused request leaves the job as it is.
abbrev pub or_else : Job → Result Job → Job
or_else j (ok k) = k
or_else j (err e) = j

unfoldable pub run : Job → List Request → Job
run j [] = j
run j (r ∷ rs) = run (or_else j (request j r)) rs

-- How many of the requests start the job.
abbrev is_start : Action → ℕ
is_start starts = 1
is_start _ = 0

abbrev counted : Action → Result Job → ℕ
counted a (ok k) = is_start a
counted a (err e) = 0

unfoldable pub count_starts : Job → List Request → ℕ
count_starts j [] = 0
count_starts j (r ∷ rs) = counted r.action (request j r) + count_starts (or_else j (request j r)) rs

attempts-step :
    (j : Job) (r : Request)
    → (or_else j (request j r)).attempts ≡ counted r.action (request j r) + j.attempts
unfolding transition transition_time
attempts-step j r = ground arith

attempts-run : (j : Job) (rs : List Request) → (run j rs).attempts ≡ count_starts j rs + j.attempts
unfolding run count_starts
attempts-run j [] = omega arith
attempts-run j (r ∷ rs) =
    omega (arith, attempts-run (or_else j (request j r)) rs, attempts-step j r)

step-IsValid : (j : Job) (r : Request) → IsValid j → IsValid (or_else j (request j r))
step-IsValid j r v = ground (arith, transition-IsValid j r.action r.at r.code v)

run-IsValid : (j : Job) (rs : List Request) → IsValid j → IsValid (run j rs)
unfolding run
run-IsValid j [] v = v
run-IsValid j (r ∷ rs) v = run-IsValid (or_else j (request j r)) rs (step-IsValid j r v)

refused_when_closed :
    (j : Job) (r : Request) → is_closed j.status ≡ true → or_else j (request j r) ≡ j
unfolding transition transition_time
refused_when_closed j r h = ground arith

-- A succeeded or canceled job stays as it is, whatever is requested.
pub closed_absorbs : (j : Job) (rs : List Request) → is_closed j.status ≡ true → run j rs ≡ j
unfolding run
closed_absorbs j [] h = refl
closed_absorbs j (r ∷ rs) h = rw (refused_when_closed j r h) (closed_absorbs j rs h)

max_attempts-step :
    (j : Job) (r : Request) → (or_else j (request j r)).max_attempts ≡ j.max_attempts
max_attempts-step j r = ground (arith, transition-Evolves j r.action r.at r.code)

max_attempts-run : (j : Job) (rs : List Request) → (run j rs).max_attempts ≡ j.max_attempts
unfolding run
max_attempts-run j [] = refl
max_attempts-run j (r ∷ rs) =
    omega (arith, max_attempts-run (or_else j (request j r)) rs, max_attempts-step j r)

-- Over any requests, a valid job is started at most as often as it had attempts left, and at
-- most ten times.
pub starts_bounded :
    (j : Job) (rs : List Request)
    → IsValid j
    → (count_starts j rs + j.attempts ≤ j.max_attempts) × (count_starts j rs ≤ 10)
starts_bounded j rs v = omega (arith, attempts-run j rs, max_attempts-run j rs, run-IsValid j rs v)
