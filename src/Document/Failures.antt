-- ===== src/Document/Failures.antt =====
-- src/modules/document/app/failures.ts: how a command answers the failure of a port.
use text.Mathlib.Text.{◌==◌ as str_eq}
use n2f_nest.Prelude.{Bool, Option, none, some, List, [], ◌∷◌, String, any, if◌then◌else◌}
use n2f_nest.Shared.Errors.{Kind, Failure, failure}

abbrev one_of : String → List String → Bool
one_of t ts = any (str_eq t) ts

-- `knownFailure`
unfoldable pub known_failure : String → Option Failure
known_failure t =
    if one_of t ("document.access_forbidden" ∷ "document.archive_forbidden" ∷ [])
    then some (failure Kind.forbidden t)
    else if one_of t
        ("document.already_exists" ∷ "document.stale_write" ∷ "document.organization_mismatch" ∷ [])
    then some (failure Kind.conflict t)
    else if str_eq t "document.id_generation"
    then some (failure Kind.unavailable t)
    else if one_of t ("document.invalid_operation" ∷ "document.invalid_page" ∷ [])
    then some (failure Kind.invalid t)
    else if str_eq t "document.not_found"
    then some (failure Kind.not_found t)
    else if str_eq t "document.persistence_invalid"
    then some (failure Kind.internal t)
    else if str_eq t "document.missing_token"
    then some (failure Kind.unauthenticated t)
    else none

abbrev pub by_kind : Kind → Failure
by_kind Kind.invalid = failure Kind.internal "document.dependency_invalid"
by_kind Kind.not_found = failure Kind.not_found "document.dependency_not_found"
by_kind Kind.conflict = failure Kind.conflict "document.dependency_conflict"
by_kind Kind.unauthenticated = failure Kind.unauthenticated "document.dependency_unauthenticated"
by_kind Kind.forbidden = failure Kind.forbidden "document.dependency_forbidden"
by_kind Kind.rate_limited = failure Kind.rate_limited "document.dependency_rate_limited"
by_kind Kind.unavailable = failure Kind.unavailable "document.dependency_unavailable"
by_kind Kind.timeout = failure Kind.timeout "document.dependency_timeout"
by_kind Kind.canceled = failure Kind.canceled "document.dependency_canceled"
by_kind Kind.internal = failure Kind.internal "document.dependency_internal"

unfoldable pub dependency_failure : Failure → Failure
unfolding known_failure
dependency_failure error = elim error.type [
  | none ↦ by_kind error.kind
  | some t ↦ elim (known_failure t) [ some f ↦ f | none ↦ by_kind error.kind ]
]

-- `idGenerationFailure`
abbrev pub id_generation_failure : Failure → Failure
id_generation_failure error = failure Kind.unavailable "document.id_generation"
