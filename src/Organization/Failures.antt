-- ===== src/Organization/Failures.antt =====
-- src/modules/organization/app/failures.ts: how a command answers the failure of a port.
use text.Mathlib.Text.{◌==◌ as str_eq}
use n2f_nest.Prelude.{Bool, Option, none, some, List, [], ◌∷◌, String, any, if◌then◌else◌}
use n2f_nest.Shared.Errors.{Kind, Failure, failure}

-- The types that keep their own name, by the kind that each is answered with.
abbrev conflict_types : List String
conflict_types =
    "organization.already_exists" ∷ "organization.invitation.acceptance_conflict"
    ∷ "organization.invitation.already_exists" ∷ "organization.invitation.membership_exists"
    ∷ "organization.invitation_exists" ∷ "organization.membership.already_exists"
    ∷ "organization.membership_exists" ∷ "organization.slug_taken" ∷ "organization.stale_write" ∷ []

abbrev unavailable_types : List String
unavailable_types =
    "organization.id_generation" ∷ "organization.invitation.id_generation"
    ∷ "organization.membership.id_generation" ∷ []

abbrev invalid_types : List String
invalid_types =
    "organization.invalid_operation" ∷ "organization.invitation.invalid_operation"
    ∷ "organization.membership.invalid_operation" ∷ []

abbrev forbidden_types : List String
forbidden_types =
    "organization.invitation.accept_forbidden" ∷ "organization.invitation.forbidden"
    ∷ "organization.invitation.revoke_forbidden" ∷ "organization.membership.add_forbidden"
    ∷ "organization.membership.owner_locked" ∷ "organization.membership.revoke_forbidden"
    ∷ "organization.membership.role_forbidden" ∷ []

abbrev not_found_types : List String
not_found_types =
    "organization.invitation.identity_not_found" ∷ "organization.invitation.not_found"
    ∷ "organization.membership.identity_not_found" ∷ "organization.membership.not_found" ∷ []

abbrev one_of : String → List String → Bool
one_of t ts = any (str_eq t) ts

-- `knownFailure`
unfoldable pub known_failure : String → Option Failure
known_failure t =
    if one_of t conflict_types
    then some (failure Kind.conflict t)
    else if one_of t unavailable_types
    then some (failure Kind.unavailable t)
    else if one_of t invalid_types
    then some (failure Kind.invalid t)
    else if one_of t forbidden_types
    then some (failure Kind.forbidden t)
    else if one_of t not_found_types
    then some (failure Kind.not_found t)
    else if str_eq t "organization.missing_token"
    then some (failure Kind.unauthenticated t)
    else if str_eq t "organization.persistence_invalid"
    then some (failure Kind.internal t)
    else none

abbrev pub by_kind : Kind → Failure
by_kind Kind.invalid = failure Kind.internal "organization.dependency_invalid"
by_kind Kind.not_found = failure Kind.not_found "organization.dependency_not_found"
by_kind Kind.conflict = failure Kind.conflict "organization.dependency_conflict"
by_kind Kind.unauthenticated =
    failure Kind.unauthenticated "organization.dependency_unauthenticated"
by_kind Kind.forbidden = failure Kind.forbidden "organization.dependency_forbidden"
by_kind Kind.rate_limited = failure Kind.rate_limited "organization.dependency_rate_limited"
by_kind Kind.unavailable = failure Kind.unavailable "organization.dependency_unavailable"
by_kind Kind.timeout = failure Kind.timeout "organization.dependency_timeout"
by_kind Kind.canceled = failure Kind.canceled "organization.dependency_canceled"
by_kind Kind.internal = failure Kind.internal "organization.dependency_internal"

unfoldable pub dependency_failure : Failure → Failure
unfolding known_failure
dependency_failure error = elim error.type [
  | none ↦ by_kind error.kind
  | some t ↦ elim (known_failure t) [ some f ↦ f | none ↦ by_kind error.kind ]
]

-- `idGenerationFailure`, with the type that the command names.
abbrev pub id_generation_failure : String → Failure → Failure
id_generation_failure type error = failure Kind.unavailable type
