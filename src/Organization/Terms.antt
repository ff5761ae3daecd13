-- ===== src/Organization/Terms.antt =====
-- The invariants of a membership and of an invitation (src/modules/organization/domain/membership.ts
-- and invitation.ts), what their transitions keep, and their storage rows.
use n2f_nest.Prelude.{◌≤◌, ◌<◌, ◌≡◌, true, false, Option, none, some, arith, is_some}
use n2f_nest.Shared.Errors.{Result, ok, Ensures}
use n2f_nest.Shared.Numbers.{nat, max_safe_integer, is_stored_version}
use n2f_nest.Shared.Dates.{Time, Date, time}
use n2f_nest.Shared.Domain.{date_of}
use n2f_nest.Shared.Text.{text_eq}
use n2f_nest.Shared.Values.{Value}
use n2f_nest.Organization.Membership
use n2f_nest.Organization.Membership.{Membership, MembershipStatus, RestoreMembershipInput}
use n2f_nest.Organization.Invitation
use n2f_nest.Organization.Invitation.{
  Invitation, InvitationStatus, InvitationRole, RestoreInvitationInput, contradicts, is_pending,
  is_expired,
}

-- What a membership's status says of its revocation.
abbrev pub MembershipShape : MembershipStatus → Option Time → Type 0
MembershipShape Membership.active revoked_at = revoked_at ≡ none
MembershipShape Membership.revoked revoked_at = is_some revoked_at ≡ true

pub record MembershipIsValid (m : Membership) : Type 0 where
  pub monotonic : m.created_at ≤ m.updated_at
  pub shape : MembershipShape m.status m.revoked_at

pub data MembershipStep : Type 0 where
  changes_role : Value → MembershipStep
  revokes : MembershipStep

unfoldable pub membership_step : Membership → MembershipStep → Date → Result Membership
membership_step m (changes_role v) at = Membership.change_role m v at
membership_step m revokes at = Membership.revoke m at

pub membership_step-IsValid :
    (m : Membership) (s : MembershipStep) (at : Date)
    → MembershipIsValid m
    → Ensures MembershipIsValid (membership_step m s at)
unfolding membership_step Membership.change_role Membership.revoke Membership.transition_time
membership_step-IsValid m (changes_role n) at v = ground arith
membership_step-IsValid m revokes at v = ground arith

pub added-IsValid :
    (i : Membership.AddMembershipInput) → Ensures MembershipIsValid (Membership.add i)
unfolding Membership.add
added-IsValid i = ground arith

-- What a transition of a membership keeps: its identity, its organization, its version.
pub record MembershipKeeps (m n : Membership) : Type 0 where
  pub id : n.id ≡ m.id
  pub organization_id : n.organization_id ≡ m.organization_id
  pub identity_id : n.identity_id ≡ m.identity_id
  pub version : n.version ≡ m.version
  pub later : m.updated_at ≤ n.updated_at
  pub was_active : m.status ≡ Membership.active

-- A transition of a membership that succeeds found it active, changes neither its ID, its
-- organization, its identity nor its version, and moves its time only forward.
pub membership_step-Keeps :
    (m : Membership) (s : MembershipStep) (at : Date)
    → Ensures (MembershipKeeps m) (membership_step m s at)
unfolding membership_step Membership.change_role Membership.revoke Membership.transition_time
membership_step-Keeps m (changes_role n) at = ground arith
membership_step-Keeps m revokes at = ground arith

-- The row that storage keeps of a membership.
pub membership_row : Membership → RestoreMembershipInput
membership_row m = record {
  id = m.id;
  organization_id = m.organization_id;
  identity_id = m.identity_id;
  role = some m.role;
  status = some m.status;
  created_at = time m.created_at;
  updated_at = time m.updated_at;
  revoked_at = date_of m.revoked_at;
  version = nat m.version;
}

-- A valid membership at a stored version is restored from its row as it was.
pub restore-membership_row :
    (m : Membership)
    → MembershipIsValid m
    → 1 ≤ m.version
    → m.version ≤ max_safe_integer
    → Membership.restore (membership_row m) ≡ ok m
unfolding Membership.restore membership_row is_stored_version
restore-membership_row m v low high = ground arith

-- Whatever a row holds, what is restored from it is valid.
pub restored_membership-IsValid :
    (i : RestoreMembershipInput) → Ensures MembershipIsValid (Membership.restore i)
unfolding Membership.restore
restored_membership-IsValid i = ground arith

-- What an invitation's status says of its times.
abbrev pub InvitationShape : InvitationStatus → Option Time → Option Time → Type 0
InvitationShape Invitation.pending accepted_at revoked_at =
    (accepted_at ≡ none) × (revoked_at ≡ none)
InvitationShape Invitation.accepted accepted_at revoked_at =
    (is_some accepted_at ≡ true) × (revoked_at ≡ none)
InvitationShape Invitation.revoked accepted_at revoked_at =
    (accepted_at ≡ none) × (is_some revoked_at ≡ true)

pub record InvitationIsValid (i : Invitation) : Type 0 where
  pub monotonic : i.created_at ≤ i.updated_at
  pub expires_later : i.created_at < i.expires_at
  pub shape : InvitationShape i.status i.accepted_at i.revoked_at

pub data InvitationStep : Type 0 where
  accepts revokes : InvitationStep

unfoldable pub invitation_step : Invitation → InvitationStep → Date → Result Invitation
invitation_step i InvitationStep.accepts at = Invitation.accept i at
invitation_step i InvitationStep.revokes at = Invitation.revoke i at

pub invitation_step-IsValid :
    (i : Invitation) (s : InvitationStep) (at : Date)
    → InvitationIsValid i
    → Ensures InvitationIsValid (invitation_step i s at)
unfolding invitation_step Invitation.accept Invitation.revoke Invitation.transition_time is_expired
invitation_step-IsValid i InvitationStep.accepts at v = ground arith
invitation_step-IsValid i InvitationStep.revokes at v = ground arith

pub issued-IsValid :
    (i : Invitation.IssueInvitationInput) → Ensures InvitationIsValid (Invitation.issue i)
unfolding Invitation.issue
issued-IsValid i = ground arith

-- What a transition of an invitation keeps.
pub record InvitationKeeps (i j : Invitation) : Type 0 where
  pub id : j.id ≡ i.id
  pub organization_id : j.organization_id ≡ i.organization_id
  pub identity_id : j.identity_id ≡ i.identity_id
  pub role : j.role ≡ i.role
  pub expires_at : j.expires_at ≡ i.expires_at
  pub version : j.version ≡ i.version
  pub was_pending : is_pending i.status ≡ true
  pub is_closed : is_pending j.status ≡ false

-- A transition of an invitation that succeeds found it pending and closes it, and changes neither its ID, its
-- organization, its identity, its role, its expiry nor its version.
pub invitation_step-Keeps :
    (i : Invitation) (s : InvitationStep) (at : Date)
    → Ensures (InvitationKeeps i) (invitation_step i s at)
unfolding invitation_step Invitation.accept Invitation.revoke Invitation.transition_time is_expired
invitation_step-Keeps i InvitationStep.accepts at = ground arith
invitation_step-Keeps i InvitationStep.revokes at = ground arith

-- The row that storage keeps of an invitation.
pub invitation_row : Invitation → RestoreInvitationInput
invitation_row i = record {
  id = i.id;
  organization_id = i.organization_id;
  identity_id = i.identity_id;
  role = some i.role;
  status = some i.status;
  created_at = time i.created_at;
  updated_at = time i.updated_at;
  expires_at = time i.expires_at;
  accepted_at = date_of i.accepted_at;
  revoked_at = date_of i.revoked_at;
  version = nat i.version;
}

-- A valid invitation at a stored version is restored from its row as it was.
pub restore-invitation_row :
    (i : Invitation)
    → InvitationIsValid i
    → 1 ≤ i.version
    → i.version ≤ max_safe_integer
    → Invitation.restore (invitation_row i) ≡ ok i
unfolding Invitation.restore invitation_row is_stored_version contradicts
restore-invitation_row i v low high = ground arith

-- Whatever a row holds, what is restored from it is valid.
pub restored_invitation-IsValid :
    (i : RestoreInvitationInput) → Ensures InvitationIsValid (Invitation.restore i)
unfolding Invitation.restore contradicts
restored_invitation-IsValid i = ground arith
