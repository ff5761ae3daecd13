-- ===== src/Shared/Events.antt =====
-- src/shared/events/index.ts and provenance.ts: event envelopes.
use n2f_nest.Prelude.{
  ℕ, zero, suc, ◌+◌, Bool, false, ◌&&◌, ◌||◌, Option, none, some, [], ◌∷◌, String, leb, ◌==◌,
  length, every,
}
use n2f_nest.Shared.Errors.{Kind, Failure, failure, Result, ok, err, require, ◌>>=◌, ◌>>◌}
use n2f_nest.Shared.Dates.{Time}
use n2f_nest.Shared.Text.{Text, codes, is_name, is_digit, is_name_char}
use n2f_nest.Shared.Values.{string, Fields}
use n2f_nest.Shared.Ids.{Identifier, parse}
use n2f_nest.Shared.Work.{WorkContext, same_work}

-- EventSubject
pub record EventSubject : Type 0 where
  pub kind : Text
  pub id : Identifier

-- An envelope, and also the arguments of `Envelope.create`. The payload is what JSON keeps of it.
pub record Envelope : Type 0 where
  pub id : Identifier
  pub type : String
  pub occurred_at : Time
  pub work : WorkContext
  pub payload : Fields
  pub subject : Option EventSubject
  pub tenant : Option Identifier

abbrev pub invalid_event : Failure
invalid_event = failure Kind.invalid "events.invalid"

-- `\.v[1-9][0-9]{0,5}$`
abbrev pub is_version_suffix : Text → Bool
is_version_suffix (p ∷ v ∷ d ∷ ds) =
    p == b'.' && v == b'v' && leb b'1' d && leb d b'9' && every is_digit ds && leb (length ds) 5
is_version_suffix _ = false

-- `^[a-z0-9_.-]{1,max}` and then the version suffix
unfoldable pub is_versioned : ℕ → Text → Bool
is_versioned zero s = false
is_versioned (suc n) [] = false
is_versioned (suc n) (c ∷ cs) = is_name_char c && (is_version_suffix cs || is_versioned n cs)

-- The epoch, and the last time of the year 9999, as times (see Dates).
abbrev pub epoch : Time
epoch = 8640000000000000

abbrev pub last_time : Time
last_time = 8640000000000000 + 253402300799999

abbrev pub subject_in : Option EventSubject → Result (Option EventSubject)
subject_in none = ok none
subject_in (some s) = do
  require (is_name 63 s.kind) invalid_event
  id ← parse (string s.id)
  ok (some (record { kind = s.kind; id = id }))

abbrev pub tenant_in : Option Identifier → Result (Option Identifier)
tenant_in none = ok none
tenant_in (some t) = do id ← parse (string t); ok (some id)

-- Every failure inside `create` and `decode` is caught and answered by `invalid`.
abbrev pub or_invalid : Result Envelope → Result Envelope
or_invalid (ok e) = ok e
or_invalid (err f) = err invalid_event

-- `Envelope.create`, which decodes what it encodes. `byte_length` is the length in bytes of the
-- JSON text, which the runtime computes. A work context restores to itself.
unfoldable pub create : (Envelope → ℕ) → Envelope → Result Envelope
create byte_length draft = or_invalid (do
  require (leb (byte_length draft) 65536) invalid_event
  require (leb (length (codes draft.type)) 128) invalid_event
  require (is_versioned 120 (codes draft.type)) invalid_event
  require (leb epoch draft.occurred_at && leb draft.occurred_at last_time) invalid_event
  id ← parse (string draft.id)
  subject ← subject_in draft.subject
  tenant ← tenant_in draft.tenant
  let event = record draft { id = id; subject = subject; tenant = tenant }
  require (leb (byte_length event) 65536) invalid_event
  ok event)

-- `assertEventWork`
unfoldable pub assert_event_work : Envelope → WorkContext → Result (Unit {0})
assert_event_work event work =
    require (same_work event.work work) (failure Kind.invalid "events.provenance_mismatch")
