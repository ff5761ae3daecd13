-- ===== src/Organization/Commands/Reads.antt =====
-- What the commands of src/modules/organization/app/commands know of what they read.
use n2f_nest.Prelude.{◌≡◌, refl, ap, true, false, Option, none, some, arith}
use n2f_nest.Prelude.Maps.{get, Distinct}
use n2f_nest.Shared.Errors.{Failure, Result, ok, err}
use n2f_nest.Shared.Text.{text_eq, text_beq_iff}
use n2f_nest.Shared.Ids.{Identifier}
use n2f_nest.Shared.Effects.{Action, mapped, on_error}
use n2f_nest.Shared.Tables.{Among, Every}
use n2f_nest.Shared.Searches.{find-select-some}
use n2f_nest.Organization.Membership.{Membership}
use n2f_nest.Organization.Invitation.{Invitation}
use n2f_nest.Organization.Store.{
  OrganizationStore, is_in, is_active_of, memberships_for_identity, find_active_for_identity,
}
use n2f_nest.Organization.History.{is_owner, System, Owns}
use n2f_nest.Organization.Commands.{owner_or}
use n2f_nest.Organization.Commands.Members.{lower_member}
use n2f_nest.Organization.Commands.Invite.{invitation_in}

-- The store that a command reads, none of whose IDs stands twice, and the system, which has recorded
-- what stands there as read.
pub record Covers (read : OrganizationStore) (s : System) : Type 0 where
  pub distinct : Distinct read.memberships
  pub memberships : Every (λ k m. Among m s.memberships_read) read.memberships
  pub invitations : Every (λ k i. Among i s.invitations_read) read.invitations

-- The membership that authorizes a command is one of the actor's, and is an active owner's of the organization.
pub record Authorized (read : OrganizationStore) (organization actor : Identifier) (a : Membership)
    : Type 0 where
  pub key : Identifier
  pub held : get key read.memberships ≡ some a
  pub identity_id : a.identity_id ≡ actor
  pub owns : Owns a organization

owner_or-ok :
    (e : Failure) (o : Option Membership) (a : Membership)
    → owner_or e o ≡ ok a
    → (o ≡ some a) × (is_owner a.role ≡ true)
unfolding owner_or
owner_or-ok e none a h = cc
owner_or-ok e (some m) a h = let same : m ≡ a = ground arith in (ap some same, ground arith)

pub owner_or-Authorized :
    (read : OrganizationStore) (organization actor : Identifier) (e : Failure) (a : Membership)
    → Distinct read.memberships
    → owner_or e (find_active_for_identity organization actor read) ≡ ok a
    → Authorized read organization actor a
unfolding find_active_for_identity memberships_for_identity
owner_or-Authorized read organization actor e a d h =
    let (found, role) = owner_or-ok e (find_active_for_identity organization actor read) a h in
    let (key, held, place, active) =
      find-select-some (is_in organization) (is_active_of actor) read.memberships a d found in
    record {
      key = key;
      held = held;
      identity_id = (text_beq_iff a.identity_id actor).0 (ground arith);
      owns = record {
        organization_id = (text_beq_iff a.organization_id organization).0 place;
        is_an_owner = role;
        is_active = ground arith;
      };
    }

pub lower_member-ok :
    (organization : Identifier) (o : Option Membership) (m : Membership)
    → lower_member organization o ≡ ok m
    → (o ≡ some m) × (m.organization_id ≡ organization) × (is_owner m.role ≡ false)
unfolding lower_member
lower_member-ok organization none m h = cc
lower_member-ok organization (some n) m h =
    let same : n ≡ m = ground arith in
    (ap some same, (text_beq_iff m.organization_id organization).0 (ground arith), ground arith)

pub invitation_in-ok :
    (organization : Identifier) (o : Option Invitation) (i : Invitation)
    → invitation_in organization o ≡ ok i
    → (o ≡ some i) × (i.organization_id ≡ organization)
unfolding invitation_in
invitation_in-ok organization none i h = cc
invitation_in-ok organization (some j) i h =
    let same : j ≡ i = ground arith in
    (ap some same, (text_beq_iff i.organization_id organization).0 (ground arith))

state-mapped : {S A : Type 0} (f : Failure → Failure) (r : Result A × S) → (mapped f r).1 ≡ r.1
state-mapped f (ok a, t) = refl
state-mapped f (err e, t) = refl

-- How a failure is answered changes no state.
pub state-on_error :
    {S A : Type 0} (f : Failure → Failure) (m : Action S A) (s : S) → (on_error f m s).1 ≡ (m s).1
state-on_error f m s = state-mapped f (m s)
