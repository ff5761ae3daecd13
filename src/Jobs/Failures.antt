-- ===== src/Jobs/Failures.antt =====
-- src/modules/jobs/app/failures.ts: how a command answers the failure of a port.
use text.Mathlib.Text.{◌==◌ as str_eq}
use n2f_nest.Prelude.{Bool, Option, none, some, List, [], ◌∷◌, String, any, if◌then◌else◌}
use n2f_nest.Shared.Errors.{Kind, Failure, failure}

-- The types that keep their own name, by the kind that each is answered with.
abbrev forbidden_types : List String
forbidden_types = "job.access_forbidden" ∷ "job.submit_forbidden" ∷ "job.transition_forbidden" ∷ []

abbrev conflict_types : List String
conflict_types =
    "job.already_exists" ∷ "job.stale_write" ∷ "job.subject_taken" ∷ "job.organization_mismatch"
    ∷ []

abbrev invalid_types : List String
invalid_types = "job.invalid_operation" ∷ "job.invalid_page" ∷ []

abbrev one_of : String → List String → Bool
one_of t ts = any (str_eq t) ts

-- `knownFailure`
unfoldable pub known_failure : String → Option Failure
known_failure t =
    if one_of t forbidden_types
    then some (failure Kind.forbidden t)
    else if one_of t conflict_types
    then some (failure Kind.conflict t)
    else if str_eq t "job.id_generation"
    then some (failure Kind.unavailable t)
    else if one_of t invalid_types
    then some (failure Kind.invalid t)
    else if str_eq t "job.not_found"
    then some (failure Kind.not_found t)
    else if str_eq t "job.persistence_invalid"
    then some (failure Kind.internal t)
    else if str_eq t "jobs.missing_token"
    then some (failure Kind.unauthenticated t)
    else none

abbrev pub by_kind : Kind → Failure
by_kind Kind.invalid = failure Kind.internal "job.dependency_invalid"
by_kind Kind.not_found = failure Kind.not_found "job.dependency_not_found"
by_kind Kind.conflict = failure Kind.conflict "job.dependency_conflict"
by_kind Kind.unauthenticated = failure Kind.unauthenticated "job.dependency_unauthenticated"
by_kind Kind.forbidden = failure Kind.forbidden "job.dependency_forbidden"
by_kind Kind.rate_limited = failure Kind.rate_limited "job.dependency_rate_limited"
by_kind Kind.unavailable = failure Kind.unavailable "job.dependency_unavailable"
by_kind Kind.timeout = failure Kind.timeout "job.dependency_timeout"
by_kind Kind.canceled = failure Kind.canceled "job.dependency_canceled"
by_kind Kind.internal = failure Kind.internal "job.dependency_internal"

unfoldable pub dependency_failure : Failure → Failure
unfolding known_failure
dependency_failure error = elim error.type [
  | none ↦ by_kind error.kind
  | some t ↦ elim (known_failure t) [ some f ↦ f | none ↦ by_kind error.kind ]
]

-- `idGenerationFailure`
abbrev pub id_generation_failure : Failure → Failure
id_generation_failure error = failure Kind.unavailable "job.id_generation"
