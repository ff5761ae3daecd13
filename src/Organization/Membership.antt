-- ===== src/Organization/Membership.antt =====
-- src/modules/organization/domain/membership.ts: a membership and its transitions.
use n2f_nest.Prelude.{
  ◌+◌, Bool, true, false, not, ◌&&◌, ◌||◌, Option, none, some, String, ltb, if◌then◌else◌, is_some,
}
use n2f_nest.Prelude.Maps.{◌===◌}
use n2f_nest.Shared.Errors.{Result, ok, err, Kind, Failure, failure, refuse, ◌>>=◌, ◌>>◌}
use n2f_nest.Shared.Numbers.{Number, to_nat, Version, unsaved, is_stored_version}
use n2f_nest.Shared.Dates.{Time, Date, valid_date, before, to_time}
use n2f_nest.Shared.Domain.{checked_time, invalid_nullable, nullable_time}
use n2f_nest.Shared.Text.{codes, text_eq}
use n2f_nest.Shared.Values.{Value, string}
use n2f_nest.Shared.Ids.{Identifier}

-- MEMBERSHIP_ROLES
pub data MembershipRole : Type 0 where
  owner admin member : MembershipRole

-- MEMBERSHIP_STATUSES
pub data MembershipStatus : Type 0 where
  active revoked : MembershipStatus

-- MembershipState
pub record Membership : Type 0 where
  pub id : Identifier
  pub organization_id : Identifier
  pub identity_id : Identifier
  pub role : MembershipRole
  pub status : MembershipStatus
  pub created_at : Time
  pub updated_at : Time
  pub revoked_at : Option Time
  pub version : Version

abbrev invalid : String → Failure
invalid t = failure Kind.invalid t

-- `if (!MEMBERSHIP_ROLES.includes(role)) return err(...)`, and the role.
unfoldable pub role_of : Value → Result MembershipRole
role_of (string s) =
    if s === codes "owner"
    then ok owner
    else if s === codes "admin"
    then ok admin
    else if s === codes "member"
    then ok member
    else err (invalid "membership.invalid_role")
role_of _ = err (invalid "membership.invalid_role")

pub record AddMembershipInput : Type 0 where
  pub id : Identifier
  pub organization_id : Identifier
  pub identity_id : Identifier
  pub role : Value
  pub created_at : Date

unfoldable pub add : AddMembershipInput → Result Membership
add i = do
  role ← role_of i.role
  created_at ← checked_time i.created_at (invalid "membership.invalid_created_at")
  ok (record {
    id = i.id;
    organization_id = i.organization_id;
    identity_id = i.identity_id;
    role = role;
    status = active;
    created_at = created_at;
    updated_at = created_at;
    revoked_at = none;
    version = unsaved;
  })

-- A role or a status that is not in its list is `none`.
pub record RestoreMembershipInput : Type 0 where
  pub id : Identifier
  pub organization_id : Identifier
  pub identity_id : Identifier
  pub role : Option MembershipRole
  pub status : Option MembershipStatus
  pub created_at : Date
  pub updated_at : Date
  pub revoked_at : Option Date
  pub version : Number

abbrev pub role_or_member : Option MembershipRole → MembershipRole
role_or_member none = member
role_or_member (some r) = r

abbrev pub status_or_active : Option MembershipStatus → MembershipStatus
status_or_active none = active
status_or_active (some s) = s

abbrev pub is_active : MembershipStatus → Bool
is_active active = true
is_active revoked = false

abbrev pub is_revoked : MembershipStatus → Bool
is_revoked s = not (is_active s)

unfoldable pub restore : RestoreMembershipInput → Result Membership
restore i = do
  refuse
      (not (is_some i.role)
        || not (is_some i.status)
        || not (valid_date i.created_at)
        || not (valid_date i.updated_at)
        || invalid_nullable i.revoked_at
        || not (is_stored_version i.version))
      (invalid "membership.invalid_state")
  refuse (before i.updated_at i.created_at) (invalid "membership.non_monotonic_time")
  let status = status_or_active i.status
  refuse
      ((is_active status && is_some i.revoked_at)
        || (is_revoked status && not (is_some i.revoked_at)))
      (invalid "membership.invalid_state")
  ok (record {
    id = i.id;
    organization_id = i.organization_id;
    identity_id = i.identity_id;
    role = role_or_member i.role;
    status = status;
    created_at = to_time i.created_at;
    updated_at = to_time i.updated_at;
    revoked_at = nullable_time i.revoked_at;
    version = to_nat i.version;
  })

unfoldable pub saved : Membership → Membership
saved m = record m { version = m.version + 1 }

unfoldable pub transition_time : Membership → Date → Result Time
transition_time m at = do
  t ← checked_time at (invalid "membership.invalid_transition_time")
  refuse (ltb t m.updated_at) (invalid "membership.non_monotonic_time")
  ok t

unfoldable pub change_role : Membership → Value → Date → Result Membership
change_role m role_input at = do
  t ← transition_time m at
  role ← role_of role_input
  refuse (is_revoked m.status) (invalid "membership.revoked")
  ok (record m { role = role; updated_at = t })

unfoldable pub revoke : Membership → Date → Result Membership
revoke m at = do
  t ← transition_time m at
  refuse (is_revoked m.status) (invalid "membership.already_revoked")
  ok (record m { status = revoked; updated_at = t; revoked_at = some t })
