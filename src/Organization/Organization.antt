-- ===== src/Organization/Organization.antt =====
-- src/modules/organization/domain/organization.ts: an organization and its transitions.
use n2f_nest.Prelude.{
  ℕ, ◌+◌, Bool, true, false, not, ◌&&◌, ◌||◌, Option, none, some, [], ◌∷◌, String, ltb, leb, ◌==◌,
  if◌then◌else◌, is_some, length, every,
}
use n2f_nest.Shared.Errors.{Result, ok, err, Kind, Failure, failure, refuse, ◌>>=◌, ◌>>◌}
use n2f_nest.Shared.Numbers.{Number, to_nat, Version, unsaved, is_stored_version}
use n2f_nest.Shared.Dates.{Time, Date, valid_date, before, to_time}
use n2f_nest.Shared.Domain.{checked_time}
use n2f_nest.Shared.Text.{Text, is_lower, is_digit, trim, to_lower_case}
use n2f_nest.Shared.Values.{Value, string}
use n2f_nest.Shared.Ids.{Identifier}

-- ORGANIZATION_STATUSES
pub data OrganizationStatus : Type 0 where
  active suspended archived : OrganizationStatus

-- OrganizationState
pub record Organization : Type 0 where
  pub id : Identifier
  pub name : Text
  pub slug : Text
  pub status : OrganizationStatus
  pub created_at : Time
  pub updated_at : Time
  pub version : Version

abbrev invalid : String → Failure
invalid t = failure Kind.invalid t

-- From one to MAX_NAME_LENGTH units.
abbrev pub is_named : Text → Bool
is_named s = leb 1 (length s) && leb (length s) 160

unfoldable pub name_of : Value → Result Text
name_of (string s) =
    if is_named (trim s) then ok (trim s) else err (invalid "organization.invalid_name")
name_of _ = err (invalid "organization.invalid_name")

-- `[a-z0-9-]`
abbrev pub is_slug_char : ℕ → Bool
is_slug_char c = is_lower c || is_digit c || c == b'-'

-- `slugPattern`, `/^[a-z][a-z0-9-]{0,62}$/`
unfoldable pub is_slug : Text → Bool
is_slug [] = false
is_slug (c ∷ cs) = is_lower c && every is_slug_char cs && leb (length cs) 62

-- A text whose lower case is not ASCII matches no slug, whatever its lower case is.
unfoldable pub slug_of : Value → Result Text
slug_of (string s) =
    let slug = to_lower_case (trim s) in
    if leb (length slug) 63 && is_slug slug
    then ok slug
    else err (invalid "organization.invalid_slug")
slug_of _ = err (invalid "organization.invalid_slug")

pub record CreateOrganizationInput : Type 0 where
  pub id : Identifier
  pub name : Value
  pub slug : Value
  pub created_at : Date

unfoldable pub create : CreateOrganizationInput → Result Organization
create i = do
  created_at ← checked_time i.created_at (invalid "organization.invalid_created_at")
  name ← name_of i.name
  slug ← slug_of i.slug
  ok (record {
    id = i.id;
    name = name;
    slug = slug;
    status = active;
    created_at = created_at;
    updated_at = created_at;
    version = unsaved;
  })

-- A status that is none of ORGANIZATION_STATUSES is `none`.
pub record RestoreOrganizationInput : Type 0 where
  pub id : Identifier
  pub name : Value
  pub slug : Value
  pub status : Option OrganizationStatus
  pub created_at : Date
  pub updated_at : Date
  pub version : Number

abbrev pub status_or_active : Option OrganizationStatus → OrganizationStatus
status_or_active none = active
status_or_active (some s) = s

unfoldable pub restore : RestoreOrganizationInput → Result Organization
restore i = do
  refuse
      (not (is_some i.status)
        || not (valid_date i.created_at)
        || not (valid_date i.updated_at)
        || not (is_stored_version i.version))
      (invalid "organization.invalid_state")
  refuse (before i.updated_at i.created_at) (invalid "organization.non_monotonic_time")
  name ← name_of i.name
  slug ← slug_of i.slug
  ok (record {
    id = i.id;
    name = name;
    slug = slug;
    status = status_or_active i.status;
    created_at = to_time i.created_at;
    updated_at = to_time i.updated_at;
    version = to_nat i.version;
  })

unfoldable pub saved : Organization → Organization
saved o = record o { version = o.version + 1 }

unfoldable pub transition_time : Organization → Date → Result Time
transition_time o at = do
  t ← checked_time at (invalid "organization.invalid_transition_time")
  refuse (ltb t o.updated_at) (invalid "organization.non_monotonic_time")
  ok t

abbrev pub is_archived : OrganizationStatus → Bool
is_archived archived = true
is_archived _ = false

abbrev pub is_active : OrganizationStatus → Bool
is_active active = true
is_active _ = false

abbrev pub is_suspended : OrganizationStatus → Bool
is_suspended suspended = true
is_suspended _ = false

unfoldable pub rename : Organization → Value → Date → Result Organization
rename o name_input at = do
  t ← transition_time o at
  refuse (is_archived o.status) (invalid "organization.archived")
  name ← name_of name_input
  ok (record o { name = name; updated_at = t })

unfoldable pub suspend : Organization → Date → Result Organization
suspend o at = do
  t ← transition_time o at
  refuse (not (is_active o.status)) (invalid "organization.invalid_suspension")
  ok (record o { status = suspended; updated_at = t })

unfoldable pub reactivate : Organization → Date → Result Organization
reactivate o at = do
  t ← transition_time o at
  refuse (not (is_suspended o.status)) (invalid "organization.invalid_reactivation")
  ok (record o { status = active; updated_at = t })

unfoldable pub archive : Organization → Date → Result Organization
archive o at = do
  t ← transition_time o at
  refuse (is_archived o.status) (invalid "organization.already_archived")
  ok (record o { status = archived; updated_at = t })
