-- ===== src/Jobs/Writes.antt =====
-- The writer's contract (src/modules/jobs/infra/in-memory/writer.ts).
use n2f_nest.Prelude.{
  ◌≡◌, true, false, inl, inr, false, ◌&&◌, none, some, arith, Option-cases, if◌then◌else◌,
}
use n2f_nest.Prelude.Maps.{get, set, set-set_back, delete-set_new}
use n2f_nest.Shared.Errors.{ok, is_ok}
use n2f_nest.Shared.Text.{text_eq, text_beq_iff}
use n2f_nest.Shared.Ids.{Identifier}
use n2f_nest.Shared.Events.{Envelope}
use n2f_nest.Shared.Effects.{Action}
use n2f_nest.Jobs.Job.{Job, saved}
use n2f_nest.Jobs.Store.{JobStore, JobCommit, create, update, check, subject_is_taken, undo, commit}

undo-set :
    (id : Identifier) (j : Job) (store : JobStore) → undo id (get id store) (set id j store) ≡ store
undo-set id j store = elim (Option-cases (get id store)) [
  | inl e ↦ rw e (delete-set_new id j store e)
  | inr (previous, e) ↦ rw e (set-set_back id previous j store e)
]

module _ {B : Type 0} (publish : Envelope → Action B (Unit {0})) (input : JobCommit)
    (store : JobStore) (bus : B) where
  -- A commit succeeds exactly when its checks pass and its event is handed on. Then the store holds
  -- the saved job under its ID; in every other case the store is the one before.
  pub commit_all_or_nothing :
      let done = is_ok (check input store) && is_ok (publish input.event bus).0 in
      let after = commit publish input store bus in
      (is_ok after.0 ≡ done)
      × (after.1 ≡ (if done then set input.job.id (saved input.job) store else store))
  unfolding commit
  commit_all_or_nothing = ground (arith, undo-set input.job.id (saved input.job) store)

  pub commit-ok :
      is_ok (commit publish input store bus).0 ≡ true
      → ((commit publish input store bus).1 ≡ set input.job.id (saved input.job) store)
        × (check input store ≡ ok tt)
  unfolding commit
  commit-ok h = ground arith

  pub commit-err :
      is_ok (commit publish input store bus).0 ≡ false → (commit publish input store bus).1 ≡ store
  unfolding commit
  commit-err h = ground (arith, undo-set input.job.id (saved input.job) store)

-- An accepted update finds the job of its ID at the version it carries, in its organization.
pub check-update :
    (input : JobCommit) (store : JobStore)
    → input.mode ≡ update
    → check input store ≡ ok tt
    → (previous : Job) × (get input.job.id store ≡ some previous)
      × (previous.version ≡ input.job.version)
      × (previous.organization_id ≡ input.job.organization_id)
unfolding check
check-update input store m h = elim (Option-cases (get input.job.id store)) [
  | inl e ↦ absurd (ground arith)
  | inr (previous, e) ↦ (
    previous,
    e,
    ground arith,
    (text_beq_iff previous.organization_id input.job.organization_id).0 (ground arith),
  )
]

-- An accepted creation has a new ID, and no open job has its organization, kind and subject.
pub check-create :
    (input : JobCommit) (store : JobStore)
    → input.mode ≡ create
    → check input store ≡ ok tt
    → (get input.job.id store ≡ none) × (subject_is_taken input.job store ≡ false)
unfolding check
check-create input store m h = ground arith
