-- ===== src/Jobs/Expired.antt =====
-- What the expiry of stale jobs (src/modules/jobs/app/commands/expire-stale-jobs.ts) writes.
use n2f_nest.Prelude.{
  ℕ, suc, ◌+◌, ◌≤◌, ◌≡◌, refl, subst, ap, ◌∙◌, Bool, true, false, some, List, [], ◌∷◌, ◌++◌, inl,
  inr, arith, Bool-cases,
}
use n2f_nest.Prelude.Maps.{get, set}
use n2f_nest.Shared.Errors.{Result-cases, Failure, Result, ok, err, Ensures, ensured, has_type}
use n2f_nest.Shared.Dates.{Time, Date, time}
use n2f_nest.Shared.Values.{string}
use n2f_nest.Shared.Text.{text_eq, is_name}
use n2f_nest.Shared.Work.{WorkContext}
use n2f_nest.Shared.Effects.{◌>>=◌, continue, bind_cases, lift_cases}
use n2f_nest.Jobs.Job.{Job, running, failed, saved, fail, transition_time, failure_code_of}
use n2f_nest.Jobs.Store.{JobStore, JobCommit, update}
use n2f_nest.Jobs.Writes.{check-update}
use n2f_nest.Jobs.Commands.{
  Ports, World, store-next_id, write, write-ok_plain, write-err_plain, write-checked_plain,
}
use n2f_nest.Jobs.Expiry.{
  job_timed_out, ExpireStaleJobsCommand, ExpireStaleJobsResult, earlier, counted,
  running_started_before, committed, expire_failed, expire_one, expire_all, expire_stale_jobs,
}

-- The job can time out at the time.
pub record CanExpire (at : Date) (j : Job) : Type 0 where
  pub t : Time
  pub now : at ≡ time t
  pub was_running : j.status ≡ running
  pub in_order : j.updated_at ≤ t

abbrev pub timed_out : Job → Time → Job
timed_out j t = record j {
  status = failed;
  updated_at = t;
  finished_at = some t;
  failure_code = some job_timed_out;
}

-- The listed job was stored at its version, and is replaced by itself, timed out.
pub record Expires (at : Date) (j : Job) (before after : JobStore) : Type 0 where
  pub can : CanExpire at j
  pub previous : Job
  pub was_stored : get j.id before ≡ some previous
  pub same_version : previous.version ≡ j.version
  pub same_organization : previous.organization_id ≡ j.organization_id
  pub written : after ≡ set j.id (saved (timed_out j can.t)) before

module _ {B G : Type 0} (ports : Ports B G) where
  -- Why a listed job is skipped: it cannot time out, or the writer refused it, timed out, as stale.
  pub data Skips (j : Job) (before : JobStore) : Type 0 where
    cannot_expire : ¬ CanExpire ports.now j → Skips j before
    is_stale_write :
        (input : JobCommit) (w : World B G) (f : Failure) (can : CanExpire ports.now j)
        → input.mode ≡ update
        → input.job ≡ timed_out j can.t
        → w.store ≡ before
        → (write ports input w).0 ≡ err f
        → has_type f "job.stale_write" ≡ true
        → Skips j before

  -- Each of the jobs, one after another, expired or was skipped, and nothing else was written; so many expired, and so many
  -- were skipped.
  pub data Sweep : List Job → JobStore → JobStore → ℕ → ℕ → Type 0 where
    nothing : {s t : JobStore} → t ≡ s → Sweep [] s t 0 0
    expires :
        {j : Job} {js : List Job} {s t u : JobStore} {e k : ℕ}
        → Expires ports.now j s t
        → Sweep js t u e k
        → Sweep (j ∷ js) s u (suc e) k
    skips :
        {j : Job} {js : List Job} {s t u : JobStore} {e k : ℕ}
        → Skips j s
        → t ≡ s
        → Sweep js t u e k
        → Sweep (j ∷ js) s u e (suc k)

  -- On success, all jobs were swept, and the result counts them; a failure comes after a sweep of those before one of them.
  pub data Expired (js : List Job) (r : ExpireStaleJobsResult) (before : JobStore)
      : Result ExpireStaleJobsResult × World B G → Type 0 where
    all_done :
        {s : ExpireStaleJobsResult} {w : World B G} (e k : ℕ)
        → s.expired ≡ e + r.expired
        → s.skipped ≡ k + r.skipped
        → Sweep js before w.store e k
        → Expired js r before (ok s, w)
    ended_early :
        {f : Failure} {w : World B G} (swept : List Job) (j : Job) (rest : List Job) (e k : ℕ)
        → js ≡ (swept ++ (j ∷ rest))
        → Sweep swept before w.store e k
        → Expired js r before (err f, w)

  -- What became of one job.
  data One (j : Job) (before : JobStore) : Result Bool × World B G → Type 0 where
    expires_one : {w : World B G} → Expires ports.now j before w.store → One j before (ok true, w)
    skips_one : {w : World B G} → Skips j before → w.store ≡ before → One j before (ok false, w)
    stops : {e : Failure} {w : World B G} → w.store ≡ before → One j before (err e, w)

  one-Expired :
      {j : Job} {js : List Job} {r : ExpireStaleJobsResult} {s t : JobStore}
      {x : Result ExpireStaleJobsResult × World B G}
      → Expires ports.now j s t
      → Expired js (counted r true) t x
      → Expired (j ∷ js) r s x
  one-Expired now (all_done e k a b c) = all_done (suc e) k (omega (arith, a)) b (expires now c)
  one-Expired {j} now (ended_early swept i rest e k is c) =
      ended_early (j ∷ swept) i rest (suc e) k (ap (λ l. j ∷ l) is) (expires now c)

  one_skipped :
      {j : Job} {js : List Job} {r : ExpireStaleJobsResult} {s t : JobStore}
      {x : Result ExpireStaleJobsResult × World B G}
      → Skips j s
      → t ≡ s
      → Expired js (counted r false) t x
      → Expired (j ∷ js) r s x
  one_skipped why h (all_done e k a b c) = all_done e (suc k) a (omega (arith, b)) (skips why h c)
  one_skipped {j} why h (ended_early swept i rest e k is c) =
      ended_early (j ∷ swept) i rest e (suc k) (ap (λ l. j ∷ l) is) (skips why h c)

-- What the domain made of a job that it failed as timed out.
record TimesOut (at : Date) (j k : Job) : Type 0 where
  t : Time
  now : at ≡ time t
  was_running : j.status ≡ running
  in_order : j.updated_at ≤ t
  becomes : k ≡ timed_out j t

abbrev can_of : {at : Date} {j k : Job} → TimesOut at j k → CanExpire at j
can_of o = record { t = o.t; now = o.now; was_running = o.was_running; in_order = o.in_order }

fail-TimesOut : (j : Job) (at : Date) → Ensures (TimesOut at j) (fail j at (string job_timed_out))
unfolding fail transition_time failure_code_of is_name
fail-TimesOut j at = ground arith

fail-CanExpire :
    (j : Job) (at : Date) {e : Failure}
    → fail j at (string job_timed_out) ≡ err e
    → ¬ CanExpire at j
unfolding fail transition_time failure_code_of is_name
fail-CanExpire j at h can = ground arith

module _ {B G : Type 0} (ports : Ports B G) where
  committed-One :
      (j : Job) (before : JobStore) (r : Result (Unit {0}) × World B G)
      → ((u : Unit {0}) → r.0 ≡ ok u → Expires ports.now j before r.1.store)
      → ((f : Failure) → r.0 ≡ err f → has_type f "job.stale_write" ≡ true → Skips ports j before)
      → ((e : Failure) → r.0 ≡ err e → r.1.store ≡ before)
      → One ports j before (committed ports r)
  committed-One j before (ok u, w) wrote stale kept = expires_one (wrote u refl)
  committed-One j before (err e, w) wrote stale kept =
      elim (Bool-cases (has_type e "job.stale_write")) [
        | inl h ↦ rw h (skips_one (stale e refl h) (kept e refl))
        | inr h ↦ rw h (stops (kept e refl))
      ]

  write-One :
      (j : Job) (before : JobStore) (input : JobCommit) (w : World B G)
      → input.mode ≡ update
      → w.store ≡ before
      → TimesOut ports.now j input.job
      → One ports j before (committed ports (write ports input w))
  write-One j before input w m here out =
      let id : input.job.id ≡ j.id = ap (λ (x : Job). x.id) out.becomes in
      committed-One j before (write ports input w)
        (λ u h.
          let (p, found, version, organization) =
            check-update input w.store m (write-checked_plain ports input w h) in
          record {
            can = can_of out;
            previous = p;
            was_stored =
                subst (λ i. get i before ≡ some p) id
                  (subst (λ s. get input.job.id s ≡ some p) here found);
            same_version = version ∙ ap (λ (x : Job). x.version) out.becomes;
            same_organization = organization ∙ ap (λ (x : Job). x.organization_id) out.becomes;
            written =
                subst (λ (k : Job). (write ports input w).1.store ≡ set k.id (saved k) before)
                  out.becomes
                  (subst (λ s. (write ports input w).1.store ≡ set input.job.id (saved input.job) s)
                    here (write-ok_plain ports input w h));
          })
        (λ f h stale. is_stale_write input w f (can_of out) m out.becomes here h stale)
        (λ e h. write-err_plain ports input w h ∙ here)

  expire_failed-One :
      (work : WorkContext) (j k : Job) (w : World B G)
      → TimesOut ports.now j k
      → One ports j w.store (expire_failed ports work k w)
  unfolding expire_failed
  expire_failed-One work j k w out =
      let here = store-next_id ports w in
      bind_cases (One ports j w.store) _ _ _ (λ e h. stops here)
        λ event_id drawn.
          lift_cases (One ports j w.store) _ _ _ (λ e h. stops here)
            λ event made. write-One j w.store _ _ refl here out

  expire_one-One :
      (work : WorkContext) (j : Job) (w : World B G)
      → One ports j w.store (expire_one ports work j w)
  unfolding expire_one
  expire_one-One work j w = elim (Result-cases (fail j ports.now (string job_timed_out))) [
    | inl (k, h) ↦
        rw (h, expire_one)
          (expire_failed-One work j k w (
            ensured (TimesOut ports.now j) (fail j ports.now (string job_timed_out))
              (fail-TimesOut j ports.now) h))
    | inr (e, h) ↦
        rw (h, expire_one) (skips_one (cannot_expire (fail-CanExpire j ports.now h)) refl)
  ]

  after-One :
      (j : Job) (js : List Job) (r : ExpireStaleJobsResult) (before : JobStore)
      (m : ExpireStaleJobsResult → World B G → Result ExpireStaleJobsResult × World B G)
      (x : Result Bool × World B G)
      → One ports j before x
      → ((s : ExpireStaleJobsResult) (w : World B G) → Expired ports js s w.store (m s w))
      → Expired ports (j ∷ js) r before (continue x (λ done. m (counted r done)))
  after-One j js r before m (ok true, w) (expires_one e) rest = one-Expired ports e (rest _ w)
  after-One j js r before m (ok false, w) (skips_one why e) rest =
      one_skipped ports why e (rest _ w)
  after-One j js r before m (err e, w) (stops h) rest = ended_early [] j js 0 0 refl (nothing h)

  expire_all-Expired :
      (work : WorkContext) (js : List Job) (r : ExpireStaleJobsResult) (w : World B G)
      → Expired ports js r w.store (expire_all ports work js r w)
  unfolding expire_all ◌>>=◌
  expire_all-Expired work [] r w = all_done 0 0 (omega arith) (omega arith) (nothing refl)
  expire_all-Expired work (j ∷ js) r w =
      after-One j js r w.store (λ s. expire_all ports work js s) (expire_one ports work j w)
        (expire_one-One work j w) (λ s v. expire_all-Expired work js s v)

  -- An expiry that succeeds has expired or skipped each job that it listed, in turn, and reports how many of each; one that
  -- fails has done so with the jobs before one of them, and written nothing else. A job that expires was running, and replaces
  -- the job that is stored under its ID, of the same version and organization, by itself, failed as timed out now. A job is skipped only
  -- if it is not running or was updated later than now, or if the writer refuses it as stale.
  pub expire_stale_jobs-Expired :
      (command : ExpireStaleJobsCommand) (read : JobStore) (w : World B G)
      → Expired ports
          (running_started_before (earlier ports.now command.running_timeout_ms) command.limit read)
          (record { expired = 0; skipped = 0 })
          w.store
          (expire_stale_jobs ports command read w)
  unfolding expire_stale_jobs
  expire_stale_jobs-Expired command read w = expire_all-Expired command.work _ _ w
