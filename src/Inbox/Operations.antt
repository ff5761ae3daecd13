-- ===== src/Inbox/Operations.antt =====
-- Any sequence of operations on the inbox of src/shared/events/in-memory-inbox.ts.
use n2f_nest.Prelude.{◌≡◌, inl, inr, Bool, true, Option, some, List, [], ◌∷◌, Bool-cases}
use n2f_nest.Prelude.Maps.{get}
use n2f_nest.Shared.Errors.{Result}
use n2f_nest.Shared.Dates.{Time}
use n2f_nest.Shared.Text.{Text, text_eq}
use n2f_nest.Shared.Ids.{Identifier}
use n2f_nest.Shared.Events.{Envelope}
use n2f_nest.Inbox.Retry.{RetryPolicy, Fraction}
use n2f_nest.Inbox.Ledger.{Receipt, Inbox, receipts_for, accept, deliver, requeue, conflicts}
use n2f_nest.Inbox.Deliveries.{
  receipt_of, is_processed, Holds, open_receipts-Holds, requeue-Holds, deliver-Holds,
}
use n2f_nest.Inbox.Invariant.{IsLedger, open_receipts-IsLedger, deliver-IsLedger, requeue-IsLedger}

pub data Operation : Type 0 where
  accepts : Time → Envelope → List Text → Operation
  delivers :
      (Option Envelope → Result (Unit {0}))
      → RetryPolicy
      → Text
      → Time
      → Time
      → Fraction
      → Operation
  requeues : Time → Text → Option Identifier → Operation

module _ (same_bytes : Envelope → Envelope → Bool) where
  unfoldable pub perform : Operation → Inbox → Inbox
  perform (accepts now event consumers) inbox = (accept same_bytes now event consumers inbox).1
  perform (delivers handler policy consumer now later random) inbox =
      (deliver handler policy consumer now later random inbox).1
  perform (requeues now consumer wanted) inbox = (requeue now consumer wanted inbox).1

  unfoldable pub perform_all : List Operation → Inbox → Inbox
  perform_all [] inbox = inbox
  perform_all (o ∷ os) inbox = perform_all os (perform o inbox)

  accept-IsLedger :
      (now : Time) (event : Envelope) (cs : List Text) (inbox : Inbox)
      → IsLedger inbox
      → IsLedger (accept same_bytes now event cs inbox).1
  unfolding accept
  accept-IsLedger now event cs inbox l =
      elim (Bool-cases (conflicts same_bytes event (get event.id inbox.events))) [
        | inl e ↦ rw (e, accept) l
        | inr e ↦
            rw (e, accept)
              (open_receipts-IsLedger now event.id cs _
                (record { distinct = λ c. unfold receipts_for in l.distinct c }))
      ]

  perform-IsLedger : (o : Operation) (inbox : Inbox) → IsLedger inbox → IsLedger (perform o inbox)
  unfolding perform
  perform-IsLedger (accepts now event consumers) inbox l =
      accept-IsLedger now event consumers inbox l
  perform-IsLedger (delivers handler policy consumer now later random) inbox l =
      deliver-IsLedger handler policy consumer now later random inbox l
  perform-IsLedger (requeues now consumer wanted) inbox l =
      requeue-IsLedger now consumer wanted inbox l

  module _ (consumer : Text) (id : Identifier) (r : Receipt)
      (done : is_processed r.state ≡ true) where
    accept-Holds :
        (now : Time) (event : Envelope) (cs : List Text) (inbox : Inbox)
        → Holds consumer id r done inbox
        → Holds consumer id r done (accept same_bytes now event cs inbox).1
    unfolding accept
    accept-Holds now event cs inbox h =
        elim (Bool-cases (conflicts same_bytes event (get event.id inbox.events))) [
          | inl e ↦ rw (e, accept) h
          | inr e ↦
              rw (e, accept)
                (open_receipts-Holds consumer id r done now event.id cs _
                  (unfold receipts_for in h))
        ]

    perform-Holds :
        (o : Operation) (inbox : Inbox)
        → IsLedger inbox
        → Holds consumer id r done inbox
        → Holds consumer id r done (perform o inbox)
    unfolding perform
    perform-Holds (accepts now event cs) inbox l h = accept-Holds now event cs inbox h
    perform-Holds (delivers handler policy own now later random) inbox l h =
        deliver-Holds consumer id r done handler policy own now later random inbox (l.distinct own)
          h
    perform-Holds (requeues now own wanted) inbox l h =
        requeue-Holds consumer id r done now own wanted inbox h

    -- Once a delivery is processed, its receipt stays as it is, whatever is accepted, delivered and requeued after it:
    -- the event is not handed to that consumer again.
    pub processed_kept :
        (os : List Operation) (inbox : Inbox)
        → IsLedger inbox
        → receipt_of consumer id inbox ≡ some r
        → receipt_of consumer id (perform_all os inbox) ≡ some r
    unfolding perform_all
    processed_kept [] inbox l h = h
    processed_kept (o ∷ os) inbox l h =
        processed_kept os (perform o inbox) (perform-IsLedger o inbox l) (perform-Holds o inbox l h)
