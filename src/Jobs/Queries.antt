-- ===== src/Jobs/Queries.antt =====
-- src/modules/jobs/app/queries/list-jobs.ts, over the reader of infra/in-memory/reader.ts.
use n2f_nest.Prelude.{Bool, Option, none, some, List, select, ltb, ◌==◌, ◌||◌, ◌&&◌, ◌++◌}
use n2f_nest.Prelude.Maps.{values, ◌===◌}
use n2f_nest.Prelude.Ranked.{sort_by}
use n2f_nest.Shared.Errors.{Kind, failure, Result, ok, err, map_error, ◌>>=◌}
use n2f_nest.Shared.Text.{Text, codes, text_eq}
use n2f_nest.Shared.Ids.{Identifier}
use n2f_nest.Shared.Pagination.{After, keyset_page}
use n2f_nest.Shared.Cursors.{Runtime, Page, position, request, window}
use n2f_nest.Jobs.Failures.{dependency_failure}
use n2f_nest.Jobs.Job.{Job}
use n2f_nest.Jobs.Store.{JobStore}
use n2f_nest.Jobs.Commands.{Access}

pub record ListJobsQuery : Type 0 where
  pub session_token : Text
  pub organization_id : Identifier
  pub limit : Option Text
  pub cursor : Option Text

abbrev pub key_of : Job → After
key_of j = record { at = j.created_at; id = j.id }

-- `comes_after` is `left.id.localeCompare(right.id) > 0`.
module _ (comes_after : Text → Text → Bool) where
  abbrev pub is_listed_later : After → After → Bool
  is_listed_later left right =
      ltb right.at left.at || ((left.at == right.at) && comes_after left.id right.id)

  -- `jobsForOrganization`
  unfoldable pub jobs_for_organization : Identifier → JobStore → List Job
  jobs_for_organization organization store =
      sort_by is_listed_later key_of
        (select (λ j. j.organization_id === organization) (values store))

abbrev member_of : Option Access → Result Access
member_of none = err (failure Kind.forbidden "job.access_forbidden")
member_of (some a) = ok a

module _ (runtime : Runtime) (comes_after : Text → Text → Bool)
    (find : Text → Identifier → Result (Option Access)) where
  -- `ListJobs.execute`
  unfoldable pub list_jobs : ListJobsQuery → JobStore → Result (Page Job)
  list_jobs query store = do
    let scope = codes "jobs:" ++ query.organization_id
    page ←
        map_error (request runtime scope query.limit query.cursor)
          (λ e. failure Kind.invalid "job.invalid_page")
    view ← map_error (find query.session_token query.organization_id) dependency_failure
    access ← member_of view
    let rows = jobs_for_organization comes_after query.organization_id store
    map_error
        (window runtime (keyset_page key_of rows page.limit page.start_after) page.limit scope
          (λ j. position runtime (key_of j)))
        dependency_failure
