-- ===== src/Organization/Commands.antt =====
-- src/modules/organization/app/commands: what the commands share. `read` is the store when a command
-- reads, and the world's store the one it commits to.
pub mod Create
pub mod Members
pub mod Invite
pub mod Accept
pub mod Reads
pub mod Steps
pub mod Outcomes
pub mod Accepted
use text.Mathlib.Text.{◌==◌ as str_eq}
use n2f_nest.Prelude.{
  ℕ, ◌+◌, ◌*◌, ◌≡◌, refl, arith, Bool, true, false, Option, none, some, List, [], ◌∷◌, String, leb,
  if◌then◌else◌,
}
use n2f_nest.Prelude.Maps.{get, ◌===◌}
use n2f_nest.Shared.Errors.{
  Kind, Failure, failure, Result, ok, err, require, refuse, map_error, is_ok,
}
use n2f_nest.Shared.Dates.{Time, Date, not_a_date, time, to_time}
use n2f_nest.Shared.Text.{Text, codes, text_eq}
use n2f_nest.Shared.Values.{Value, string, Fields, field, end}
use n2f_nest.Shared.Ids.{Identifier}
use n2f_nest.Shared.Work.{WorkContext}
use n2f_nest.Shared.Events.{Envelope}
use n2f_nest.Shared.Events
use n2f_nest.Shared.Effects.{Action}
use n2f_nest.Organization.Failures.{dependency_failure, id_generation_failure}
use n2f_nest.Organization.Membership
use n2f_nest.Organization.Membership.{Membership, MembershipRole, owner, admin, member}
use n2f_nest.Organization.Invitation.{InvitationRole}
use n2f_nest.Organization.Store.{OrganizationStore}
use n2f_nest.Organization.History.{is_owner}

-- What the commands are given: the event bus (with its state B), the generator of IDs (G), the length of an event's JSON
-- text, the clock at the call, the identity of a session token, the lookup of an active identity, and `toISOString`.
pub record Ports (B G : Type 0) : Type 0 where
  pub publish : Envelope → Action B (Unit {0})
  pub new_id : G → Result Identifier × G
  pub byte_length : Envelope → ℕ
  pub now : Date
  pub find_current : Text → Result Identifier
  pub find_active : Identifier → Result (Option Identifier)
  pub iso_string : Time → Text

pub record World (B G : Type 0) : Type 0 where
  pub store : OrganizationStore
  pub bus : B
  pub ids : G

abbrev pub role_name : MembershipRole → Text
role_name owner = codes "owner"
role_name admin = codes "admin"
role_name member = codes "member"

-- The properties of a payload, in their order.
abbrev pub payload_of : List (String × Value) → Fields
payload_of [] = end
payload_of ((key, value) ∷ rest) = field (codes key) value (payload_of rest)

-- The latest time of a `Date`.
abbrev pub last_date : Time
last_date = 2 * 8640000000000000

-- `new Date(date.getTime() + ms)`; later than the latest `Date` is an invalid one.
abbrev pub later : Date → ℕ → Date
later not_a_date ms = not_a_date
later (time t) ms = if leb (t + ms) last_date then time (t + ms) else not_a_date

-- `operationFailure(command.work)`
abbrev pub named_operation : WorkContext → String → String → Result (Unit {0})
named_operation work operation type =
    require (str_eq work.operation operation) (failure Kind.invalid type)

-- `membership.value === null || membership.value.role !== 'owner'`
unfoldable pub owner_or : Failure → Option Membership → Result Membership
owner_or e none = err e
owner_or e (some m) = if is_owner m.role then ok m else err e

-- `if (value === null) return err(e)`
abbrev pub present : {A : Type 0} → Failure → Option A → Result A
present e none = err e
present e (some a) = ok a

-- `if (value !== null) return err(e)`
abbrev pub missing : {A : Type 0} → Failure → Option A → Result (Unit {0})
missing e none = ok tt
missing e (some a) = err e

module _ {B G : Type 0} (ports : Ports B G) where
  -- `nextId`, with the type of the command's failure.
  unfoldable pub next_id : String → Action (World B G) Identifier
  next_id type w =
      let (r, ids) = ports.new_id w.ids in
      (map_error r (id_generation_failure type), record w { ids = ids })

  pub store-next_id : (type : String) (w : World B G) → (next_id type w).1.store ≡ w.store
  unfolding next_id
  store-next_id type w = refl

  -- `Envelope.create` with the event's own subject and tenant, whose failure is a dependency's.
  unfoldable pub new_event :
      Identifier
      → String
      → WorkContext
      → Fields
      → String
      → Identifier
      → Identifier
      → Result Envelope
  new_event id type work payload kind subject tenant =
      map_error
        (Events.create ports.byte_length (record {
          id = id;
          type = type;
          occurred_at = to_time ports.now;
          work = work;
          payload = payload;
          subject = some (record { kind = codes kind; id = subject });
          tenant = some tenant;
        }))
        dependency_failure

  -- A writer's commit as an action on the world.
  abbrev pub through :
      (OrganizationStore → B → Result (Unit {0}) × OrganizationStore × B)
      → Action (World B G) (Unit {0})
  through commit w =
      let (r, store, bus) = commit w.store w.bus in (r, record w { store = store; bus = bus })
