-- ===== src/Inbox/Examples.antt =====
-- An inbox with one delivery of one event.
use n2f_nest.Prelude.{
  ◌+◌, ◌*◌, ◌≤◌, ◌≡◌, refl, arith, true, false, Option, none, some, List, [], ◌∷◌,
}
use n2f_nest.Shared.Errors.{Kind, failure, Result, err}
use n2f_nest.Shared.Text.{text_eq, codes}
use n2f_nest.Shared.Values.{end}
use n2f_nest.Shared.Events.{Envelope}
use n2f_nest.Prelude.Maps.{get}
use n2f_nest.Inbox.Retry.{default_retry, Fraction, ceiling, retry_delay, retry_delay_bounds}
use n2f_nest.Inbox.Ledger.{
  Receipt, pending, processed, Receipts, Inbox, receipts_for, is_due, is_sooner, next_due, deliver,
}
use n2f_nest.Inbox.Deliveries.{receipt_of}
use n2f_nest.Inbox.Operations.{Operation, accepts, delivers, requeues, perform_all, processed_kept}
use n2f_nest.Inbox.Invariant.{IsLedger}
use n2f_nest.Inbox.Order.{IsNext, next_due-IsNext, deliver-others}

abbrev half : Fraction
half = record { part = 1; whole = 2 }

retry_delay_bounds_example :
    (ceiling default_retry 3 ≤ 2 * retry_delay default_retry 3 half + 1)
    × (retry_delay default_retry 3 half ≤ ceiling default_retry 3)
    × (ceiling default_retry 3 ≤ 300000)
retry_delay_bounds_example = retry_delay_bounds default_retry 3 half (omega arith)

-- Between 1000 and 2000 ms after the third attempt.
third_delay : retry_delay default_retry 3 half ≡ 1500
unfolding retry_delay ceiling
third_delay = refl

abbrev event : Envelope
event = record {
  id = codes "e1";
  type = "job.submitted.v1";
  occurred_at = 8640000000001000;
  work = record { work_id = codes "w1"; operation = "job.submit"; context = codes "{}" };
  payload = end;
  subject = none;
  tenant = none;
}

abbrev waiting : Receipt
waiting = record {
  state = pending;
  attempts = 0;
  available_at = 1000;
  leased = false;
  sequence = 0;
}

abbrev later_one : Receipt
later_one = record {
  state = pending;
  attempts = 1;
  available_at = 3000;
  leased = false;
  sequence = 1;
}

abbrev receipts : Receipts
receipts = (codes "e2", later_one) ∷ (codes "e1", waiting) ∷ []

next_due-IsNext_example : IsNext 5000 receipts (some (codes "e1", waiting))
unfolding next_due is_due is_sooner
next_due-IsNext_example = next_due-IsNext 5000 receipts

abbrev done : Receipt
done = record waiting { state = processed; attempts = 1 }

abbrev inbox : Inbox
inbox = record {
  events = (codes "e1", event) ∷ [];
  receipts = (codes "audit", (codes "e1", done) ∷ []) ∷ [];
  sequence = 1;
}

inbox-IsLedger : IsLedger inbox
unfolding receipts_for get
inbox-IsLedger = record { distinct = λ c. ground arith }

abbrev failing : Option Envelope → Result (Unit {0})
failing e = err (failure Kind.unavailable "audit.unavailable")

abbrev operations : List Operation
operations =
    accepts 2000 event (codes "audit" ∷ codes "mail" ∷ [])
    ∷ delivers failing default_retry (codes "audit") 2000 2001 half
    ∷ requeues 3000 (codes "audit") none
    ∷ []

processed_kept_example :
    receipt_of (codes "audit") (codes "e1") (perform_all (λ a b. true) operations inbox) ≡ some done
unfolding receipts_for get
processed_kept_example =
    processed_kept (λ a b. true) (codes "audit") (codes "e1") done refl operations inbox
      inbox-IsLedger refl

deliver-others_example :
    receipts_for
      (codes "mail")
      (deliver failing default_retry (codes "audit") 2000 2001 half inbox).1
    ≡ receipts_for (codes "mail") inbox
deliver-others_example =
    deliver-others (codes "audit") (codes "mail") refl failing default_retry 2000 2001 half inbox
