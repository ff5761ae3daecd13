-- ===== src/Inbox/Invariant.antt =====
-- The invariant of the inbox of src/shared/events/in-memory-inbox.ts.
use n2f_nest.Prelude.{
  ◌≡◌, refl, sym, subst, ◌∙◌, inl, inr, arith, ◌&&◌, Option, none, some, List, [], ◌∷◌, Bool-cases,
  Option-cases,
}
use n2f_nest.Prelude.Maps.{Distinct, get, set-Distinct, ◌===◌}
use n2f_nest.Shared.Errors.{Result}
use n2f_nest.Shared.Dates.{Time}
use n2f_nest.Shared.Text.{Text, text_eq}
use n2f_nest.Shared.Ids.{Identifier}
use n2f_nest.Shared.Events.{Envelope}
use n2f_nest.Inbox.Retry.{RetryPolicy, Fraction}
use n2f_nest.Inbox.Ledger.{
  Receipts, Inbox, is_consumer, receipts_for, with_receipts, is_dead, open_receipt, open_receipts,
  next_due, Lease, leased, lease, settle, attempted, deliver, is_wanted, requeued, requeue,
}
use n2f_nest.Inbox.Deliveries.{receipts_for-with}

-- No event has two receipts of one consumer.
pub record IsLedger (inbox : Inbox) : Type 0 where
  pub distinct : (consumer : Text) → Distinct (receipts_for consumer inbox)

with_receipts-IsLedger :
    (own : Text) (rs : Receipts) (inbox : Inbox)
    → Distinct rs
    → IsLedger inbox
    → IsLedger (with_receipts own rs inbox)
with_receipts-IsLedger own rs inbox d l = record {
  distinct = λ c. elim (Bool-cases (own === c)) [
    | inl e ↦ subst Distinct (sym (receipts_for-with own c rs inbox ∙ (rw e refl))) d
    | inr e ↦ subst Distinct (sym (receipts_for-with own c rs inbox ∙ (rw e refl))) (l.distinct c)
  ];
}

open_receipt-IsLedger :
    (now : Time) (id : Identifier) (own : Text) (inbox : Inbox)
    → IsLedger inbox
    → IsLedger (open_receipt now id own inbox)
unfolding open_receipt
open_receipt-IsLedger now id own inbox l = elim (Option-cases (get id (receipts_for own inbox))) [
  | inl e ↦
      rw (e, open_receipt)
        (record {
          distinct = λ c.
              unfold receipts_for in
              (with_receipts-IsLedger own _ inbox
                  (set-Distinct id _ (receipts_for own inbox) (l.distinct own)) l).distinct
                c;
        })
  | inr (r, e) ↦
      rw (e, open_receipt)
        (with_receipts-IsLedger own (receipts_for own inbox) inbox (l.distinct own) l)
]

pub open_receipts-IsLedger :
    (now : Time) (id : Identifier) (cs : List Text) (inbox : Inbox)
    → IsLedger inbox
    → IsLedger (open_receipts now id cs inbox).1
unfolding open_receipts
open_receipts-IsLedger now id [] inbox l = l
open_receipts-IsLedger now id (c ∷ cs) inbox l = elim (Bool-cases (is_consumer c)) [
  | inl e ↦ rw e (
      open_receipts-IsLedger now id cs (open_receipt now id c inbox)
        (open_receipt-IsLedger now id c inbox l))
  | inr e ↦ rw e l
]

requeued-absent :
    (now : Time) (wanted : Option Identifier) (id : Identifier) (m : Receipts)
    → get id m ≡ none
    → get id (requeued now wanted m).1 ≡ none
unfolding requeued get
requeued-absent now wanted id [] h = refl
requeued-absent now wanted id ((j, s) ∷ rest) h = ground (arith, requeued-absent now wanted id rest)

requeued-Distinct :
    (now : Time) (wanted : Option Identifier) (m : Receipts)
    → Distinct m
    → Distinct (requeued now wanted m).1
unfolding requeued
requeued-Distinct now wanted [] d = tt
requeued-Distinct now wanted ((j, s) ∷ rest) (new, d) =
    elim (Bool-cases (is_dead s.state && is_wanted wanted j)) [
      | inl e ↦ rw e (requeued-absent now wanted j rest new, requeued-Distinct now wanted rest d)
      | inr e ↦ rw e (requeued-absent now wanted j rest new, requeued-Distinct now wanted rest d)
    ]

pub requeue-IsLedger :
    (now : Time) (own : Text) (wanted : Option Identifier) (inbox : Inbox)
    → IsLedger inbox
    → IsLedger (requeue now own wanted inbox).1
unfolding requeue
requeue-IsLedger now own wanted inbox l = elim (Bool-cases (is_consumer own)) [
  | inl e ↦
      rw (e, requeue)
        (with_receipts-IsLedger own _ inbox
          (requeued-Distinct now wanted (receipts_for own inbox) (l.distinct own)) l)
  | inr e ↦ rw (e, requeue) l
]

lease-IsLedger :
    (own : Text) (now : Time) (inbox : Inbox) → IsLedger inbox → IsLedger (lease now own inbox).1
unfolding lease
lease-IsLedger own now inbox l = elim (Option-cases (next_due now (receipts_for own inbox) none)) [
  | inl e ↦
      rw (e, lease) (with_receipts-IsLedger own (receipts_for own inbox) inbox (l.distinct own) l)
  | inr ((due, s), e) ↦
      rw (e, lease)
        (with_receipts-IsLedger own _ inbox
          (set-Distinct due (leased s) (receipts_for own inbox) (l.distinct own)) l)
]

settle-IsLedger :
    (policy : RetryPolicy) (own : Text) (x : Lease) (now : Time) (random : Fraction)
    (result : Result (Unit {0})) (inbox : Inbox)
    → IsLedger inbox
    → IsLedger (settle policy own x now random result inbox).1
unfolding settle
settle-IsLedger policy own x now random result inbox l =
    elim (Option-cases (get x.event_id (receipts_for own inbox))) [
      | inl e ↦ rw (e, settle) l
      | inr (s, e) ↦
          rw (e, settle)
            (with_receipts-IsLedger own _ inbox
              (set-Distinct x.event_id _ (receipts_for own inbox) (l.distinct own)) l)
    ]

attempted-IsLedger :
    (handler : Option Envelope → Result (Unit {0})) (policy : RetryPolicy) (own : Text)
    (now later : Time) (random : Fraction) (x : Option Lease × Inbox)
    → IsLedger x.1
    → IsLedger (attempted handler policy own now later random x).1
unfolding attempted
attempted-IsLedger handler policy own now later random (none, inbox) l = l
attempted-IsLedger handler policy own now later random (some x, inbox) l =
    settle-IsLedger policy own x later random (handler x.event) inbox l

pub deliver-IsLedger :
    (handler : Option Envelope → Result (Unit {0})) (policy : RetryPolicy) (own : Text)
    (now later : Time) (random : Fraction) (inbox : Inbox)
    → IsLedger inbox
    → IsLedger (deliver handler policy own now later random inbox).1
unfolding deliver
deliver-IsLedger handler policy own now later random inbox l = elim (Bool-cases (is_consumer own)) [
  | inl e ↦
      rw (e, deliver)
        (attempted-IsLedger handler policy own now later random (lease now own inbox)
          (lease-IsLedger own now inbox l))
  | inr e ↦ rw (e, deliver) l
]
