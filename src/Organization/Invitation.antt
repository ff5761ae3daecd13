-- ===== src/Organization/Invitation.antt =====
-- src/modules/organization/domain/invitation.ts: an invitation and its transitions.
use n2f_nest.Prelude.{
  ◌+◌, Bool, true, false, not, ◌&&◌, ◌||◌, Option, none, some, String, ltb, leb, if◌then◌else◌,
  is_some,
}
use n2f_nest.Prelude.Maps.{◌===◌}
use n2f_nest.Shared.Errors.{Result, ok, err, Kind, Failure, failure, refuse, ◌>>=◌, ◌>>◌}
use n2f_nest.Shared.Numbers.{Number, to_nat, Version, unsaved, is_stored_version}
use n2f_nest.Shared.Dates.{Time, Date, time, valid_date, before, until, to_time}
use n2f_nest.Shared.Domain.{checked_time, invalid_nullable, nullable_time}
use n2f_nest.Shared.Text.{codes, text_eq}
use n2f_nest.Shared.Values.{Value, string}
use n2f_nest.Shared.Ids.{Identifier}

-- INVITATION_ROLES
pub data InvitationRole : Type 0 where
  admin member : InvitationRole

-- INVITATION_STATUSES
pub data InvitationStatus : Type 0 where
  pending accepted revoked : InvitationStatus

-- InvitationState
pub record Invitation : Type 0 where
  pub id : Identifier
  pub organization_id : Identifier
  pub identity_id : Identifier
  pub role : InvitationRole
  pub status : InvitationStatus
  pub created_at : Time
  pub updated_at : Time
  pub expires_at : Time
  pub accepted_at : Option Time
  pub revoked_at : Option Time
  pub version : Version

abbrev invalid : String → Failure
invalid t = failure Kind.invalid t

-- `if (!INVITATION_ROLES.includes(role)) return err(...)`, and the role.
unfoldable pub role_of : Value → Result InvitationRole
role_of (string s) =
    if s === codes "admin"
    then ok admin
    else if s === codes "member"
    then ok member
    else err (invalid "invitation.invalid_role")
role_of _ = err (invalid "invitation.invalid_role")

pub record IssueInvitationInput : Type 0 where
  pub id : Identifier
  pub organization_id : Identifier
  pub identity_id : Identifier
  pub role : Value
  pub created_at : Date
  pub expires_at : Date

unfoldable pub issue : IssueInvitationInput → Result Invitation
issue i = do
  role ← role_of i.role
  created_at ← checked_time i.created_at (invalid "invitation.invalid_time")
  expires_at ← checked_time i.expires_at (invalid "invitation.invalid_time")
  refuse (leb expires_at created_at) (invalid "invitation.invalid_expiry")
  ok (record {
    id = i.id;
    organization_id = i.organization_id;
    identity_id = i.identity_id;
    role = role;
    status = pending;
    created_at = created_at;
    updated_at = created_at;
    expires_at = expires_at;
    accepted_at = none;
    revoked_at = none;
    version = unsaved;
  })

-- A role or a status that is not in its list is `none`.
pub record RestoreInvitationInput : Type 0 where
  pub id : Identifier
  pub organization_id : Identifier
  pub identity_id : Identifier
  pub role : Option InvitationRole
  pub status : Option InvitationStatus
  pub created_at : Date
  pub updated_at : Date
  pub expires_at : Date
  pub accepted_at : Option Date
  pub revoked_at : Option Date
  pub version : Number

abbrev pub role_or_member : Option InvitationRole → InvitationRole
role_or_member none = member
role_or_member (some r) = r

abbrev pub status_or_pending : Option InvitationStatus → InvitationStatus
status_or_pending none = pending
status_or_pending (some s) = s

abbrev pub is_pending : InvitationStatus → Bool
is_pending pending = true
is_pending _ = false

-- What each status says against its times.
unfoldable pub contradicts : InvitationStatus → Option Date → Option Date → Bool
contradicts pending accepted_at revoked_at = is_some accepted_at || is_some revoked_at
contradicts accepted accepted_at revoked_at = not (is_some accepted_at) || is_some revoked_at
contradicts revoked accepted_at revoked_at = not (is_some revoked_at) || is_some accepted_at

unfoldable pub restore : RestoreInvitationInput → Result Invitation
restore i = do
  refuse
      (not (is_some i.role)
        || not (is_some i.status)
        || not (valid_date i.created_at)
        || not (valid_date i.updated_at)
        || not (valid_date i.expires_at)
        || invalid_nullable i.accepted_at
        || invalid_nullable i.revoked_at
        || not (is_stored_version i.version))
      (invalid "invitation.invalid_state")
  refuse (before i.updated_at i.created_at || until i.expires_at i.created_at)
      (invalid "invitation.invalid_time")
  let status = status_or_pending i.status
  refuse (contradicts status i.accepted_at i.revoked_at) (invalid "invitation.invalid_state")
  ok (record {
    id = i.id;
    organization_id = i.organization_id;
    identity_id = i.identity_id;
    role = role_or_member i.role;
    status = status;
    created_at = to_time i.created_at;
    updated_at = to_time i.updated_at;
    expires_at = to_time i.expires_at;
    accepted_at = nullable_time i.accepted_at;
    revoked_at = nullable_time i.revoked_at;
    version = to_nat i.version;
  })

unfoldable pub saved : Invitation → Invitation
saved i = record i { version = i.version + 1 }

unfoldable pub is_expired : Invitation → Date → Bool
is_expired i at = valid_date at && is_pending i.status && leb i.expires_at (to_time at)

unfoldable pub transition_time : Invitation → Date → Result Time
transition_time i at = do
  t ← checked_time at (invalid "invitation.invalid_time")
  refuse (ltb t i.updated_at) (invalid "invitation.non_monotonic_time")
  ok t

unfoldable pub accept : Invitation → Date → Result Invitation
accept i at = do
  t ← transition_time i at
  refuse (not (is_pending i.status)) (invalid "invitation.not_pending")
  refuse (is_expired i (time t)) (invalid "invitation.expired")
  ok (record i { status = accepted; updated_at = t; accepted_at = some t })

unfoldable pub revoke : Invitation → Date → Result Invitation
revoke i at = do
  t ← transition_time i at
  refuse (not (is_pending i.status)) (invalid "invitation.not_pending")
  ok (record i { status = revoked; updated_at = t; revoked_at = some t })
