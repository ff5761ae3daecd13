-- ===== src/Inbox/Ledger.antt =====
-- src/shared/events/in-memory-inbox.ts: the ledger of deliveries. A delivery is `lease`, then the
-- handler, then `settle`.
use n2f_nest.Prelude.{
  ℕ, suc, ◌+◌, Bool, true, false, not, ◌&&◌, ◌||◌, Option, none, some, List, [], ◌∷◌, leb, ltb,
  ◌==◌, if◌then◌else◌, length, every,
}
use n2f_nest.Prelude.Maps.{Map, get, set, ◌===◌}
use n2f_nest.Shared.Errors.{Kind, Failure, failure, Result, ok, err}
use n2f_nest.Shared.Dates.{Time}
use n2f_nest.Shared.Text.{Text, text_eq, is_name_char}
use n2f_nest.Shared.Ids.{Identifier}
use n2f_nest.Shared.Events.{Envelope}
use n2f_nest.Inbox.Retry.{RetryPolicy, Fraction, retry_delay, exhausted}

pub data ReceiptState : Type 0 where
  pending processed dead : ReceiptState

pub record Receipt : Type 0 where
  pub state : ReceiptState
  pub attempts : ℕ
  pub available_at : Time
  pub leased : Bool
  pub sequence : ℕ

abbrev pub Receipts : Type 0
Receipts = Map Identifier Receipt

-- InMemoryInbox
pub record Inbox : Type 0 where
  pub events : Map Identifier Envelope
  pub receipts : Map Text Receipts
  pub sequence : ℕ

-- CONSUMER_NAME
unfoldable pub is_consumer : Text → Bool
is_consumer s = leb 1 (length s) && leb (length s) 64 && every is_name_char s

abbrev pub invalid_consumer : Failure
invalid_consumer = failure Kind.invalid "events.invalid_consumer"

abbrev pub or_empty : Option Receipts → Receipts
or_empty none = []
or_empty (some rs) = rs

-- `#receiptsFor`: the receipts of a consumer. An operation that reads them also stores them.
unfoldable pub receipts_for : Text → Inbox → Receipts
receipts_for consumer inbox = or_empty (get consumer inbox.receipts)

unfoldable pub with_receipts : Text → Receipts → Inbox → Inbox
with_receipts consumer rs inbox = record inbox { receipts = set consumer rs inbox.receipts }

abbrev pub is_pending : ReceiptState → Bool
is_pending pending = true
is_pending _ = false

abbrev pub is_dead : ReceiptState → Bool
is_dead dead = true
is_dead _ = false

-- One delivery opened for a consumer, unless there is one for the event.
unfoldable pub open_receipt : Time → Identifier → Text → Inbox → Inbox
open_receipt now id consumer inbox = elim (get id (receipts_for consumer inbox)) [
  | some r ↦ with_receipts consumer (receipts_for consumer inbox) inbox
  | none ↦
      record (with_receipts consumer
        (set id
          (record {
            state = pending;
            attempts = 0;
            available_at = now;
            leased = false;
            sequence = inbox.sequence;
          })
          (receipts_for consumer inbox))
        inbox) { sequence = suc inbox.sequence }
]

-- The loop of `accept`, which stops at a name that is not a consumer's.
unfoldable pub open_receipts : Time → Identifier → List Text → Inbox → Result (Unit {0}) × Inbox
open_receipts now id [] inbox = (ok tt, inbox)
open_receipts now id (consumer ∷ rest) inbox =
    let later = open_receipts now id rest (open_receipt now id consumer inbox) in
    if is_consumer consumer then later else (err invalid_consumer, inbox)

abbrev pub conflicts : (Envelope → Envelope → Bool) → Envelope → Option Envelope → Bool
conflicts same_bytes event none = false
conflicts same_bytes event (some existing) = not (same_bytes existing event)

-- `InMemoryInbox.accept`; `same_bytes` compares the JSON texts of two envelopes.
unfoldable pub accept :
    (Envelope → Envelope → Bool) → Time → Envelope → List Text → Inbox → Result (Unit {0}) × Inbox
accept same_bytes now event consumers inbox =
    if conflicts same_bytes event (get event.id inbox.events)
    then (err (failure Kind.conflict "events.id_reused"), inbox)
    else open_receipts now event.id consumers
        (record inbox { events = set event.id event inbox.events })

-- `receipt.state !== 'pending' || receipt.leased || receipt.availableAt > now`, negated.
unfoldable pub is_due : Time → Receipt → Bool
is_due now r = is_pending r.state && not r.leased && leb r.available_at now

-- Available before, or at the same time and opened before.
unfoldable pub is_sooner : Receipt → Receipt → Bool
is_sooner a b =
    ltb a.available_at b.available_at
    || (a.available_at == b.available_at && ltb a.sequence b.sequence)

abbrev pub better : Identifier × Receipt → Option (Identifier × Receipt) → Bool
better entry none = true
better (id, r) (some (other, best)) = is_sooner r best

-- The loop over the receipts, with the entry that is best so far.
unfoldable pub next_due :
    Time → Receipts → Option (Identifier × Receipt) → Option (Identifier × Receipt)
next_due now [] best = best
next_due now ((id, r) ∷ rest) best =
    let taken = next_due now rest (some (id, r)) in
    let passed = next_due now rest best in
    if is_due now r && better (id, r) best then taken else passed

-- What a handler is given, and the number of the attempt.
pub record Lease : Type 0 where
  pub event_id : Identifier
  pub event : Option Envelope
  pub attempt : ℕ

abbrev pub leased : Receipt → Receipt
leased r = record r { leased = true; attempts = suc r.attempts }

-- `deliver` up to the handler; `#events.get(eventId)!` is the option.
unfoldable pub lease : Time → Text → Inbox → Option Lease × Inbox
lease now consumer inbox = elim (next_due now (receipts_for consumer inbox) none) [
  | none ↦ (none, with_receipts consumer (receipts_for consumer inbox) inbox)
  | some (id, r) ↦ (
    some (record { event_id = id; event = get id inbox.events; attempt = suc r.attempts }),
    with_receipts consumer (set id (leased r) (receipts_for consumer inbox)) inbox,
  )
]

pub data Outcome : Type 0 where
  was_processed is_retrying is_dead_now : Outcome

-- What the handler's result makes of a receipt.
unfoldable pub settled :
    RetryPolicy → ℕ → Time → Fraction → Result (Unit {0}) → Receipt → Outcome × Receipt
settled policy attempt now random (ok u) r =
    (was_processed, record r { leased = false; state = processed })
settled policy attempt now random (err e) r =
    let dies = exhausted policy attempt in
    (
      if dies then is_dead_now else is_retrying,
      record r {
        leased = false;
        state = if dies then dead else pending;
        available_at = now + retry_delay policy attempt random;
      },
    )

-- `deliver` after the handler.
unfoldable pub settle :
    RetryPolicy
    → Text
    → Lease
    → Time
    → Fraction
    → Result (Unit {0})
    → Inbox
    → Option Outcome × Inbox
settle policy consumer l now random result inbox =
    elim (get l.event_id (receipts_for consumer inbox)) [
      | none ↦ (none, inbox)
      | some r ↦
          let (outcome, after) = settled policy l.attempt now random result r in
          (
            some outcome,
            with_receipts consumer (set l.event_id after (receipts_for consumer inbox)) inbox,
          )
    ]

-- The outcome of an attempt; the event's type and the failure's type go with it for the log.
pub record Delivery : Type 0 where
  pub event_id : Identifier
  pub attempt : ℕ
  pub outcome : Outcome

abbrev pub reported : Lease → Option Outcome → Option Delivery
reported l none = none
reported l (some o) = some (record { event_id = l.event_id; attempt = l.attempt; outcome = o })

-- `InMemoryInbox.deliver`, where nothing else changes the inbox while the handler runs from `now`
-- to `later`. A handler that throws has failed.
module _ (handler : Option Envelope → Result (Unit {0})) (policy : RetryPolicy) (consumer : Text)
    (now later : Time) (random : Fraction) where
  unfoldable pub attempted : Option Lease × Inbox → Option Delivery × Inbox
  attempted (none, inbox) = (none, inbox)
  attempted (some l, inbox) =
      let (outcome, after) = settle policy consumer l later random (handler l.event) inbox in
      (reported l outcome, after)

  unfoldable pub deliver : Inbox → Result (Option Delivery) × Inbox
  deliver inbox =
      let (delivery, after) = attempted (lease now consumer inbox) in
      if is_consumer consumer then (ok delivery, after) else (err invalid_consumer, inbox)

-- `eventId !== undefined && id !== eventId`, negated.
abbrev pub is_wanted : Option Identifier → Identifier → Bool
is_wanted none id = true
is_wanted (some wanted) id = id === wanted

unfoldable pub requeued : Time → Option Identifier → Receipts → ℕ × Receipts
requeued now wanted [] = (0, [])
requeued now wanted ((id, r) ∷ rest) =
    let (count, after) = requeued now wanted rest in
    if is_dead r.state && is_wanted wanted id
    then (suc count, (id, record r { state = pending; attempts = 0; available_at = now }) ∷ after)
    else (count, (id, r) ∷ after)

-- `InMemoryInbox.requeue`
unfoldable pub requeue : Time → Text → Option Identifier → Inbox → Result ℕ × Inbox
requeue now consumer wanted inbox =
    let (count, after) = requeued now wanted (receipts_for consumer inbox) in
    if is_consumer consumer
    then (ok count, with_receipts consumer after inbox)
    else (err invalid_consumer, inbox)
