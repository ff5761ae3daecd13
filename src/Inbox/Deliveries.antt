-- ===== src/Inbox/Deliveries.antt =====
-- What operations on the inbox (src/shared/events/in-memory-inbox.ts) do to its receipts.
use n2f_nest.Prelude.{
  ◌≡◌, ap, ◌∙◌, ◌⊎◌, inl, inr, arith, Bool, true, false, not, ◌&&◌, Option, none, some, List, [],
  ◌∷◌, if◌then◌else◌, Bool-cases, Option-cases,
}
use n2f_nest.Prelude.Maps.{Distinct, get, set, get-set, ◌===◌}
use n2f_nest.Shared.Errors.{Result}
use n2f_nest.Shared.Dates.{Time}
use n2f_nest.Shared.Text.{Text, text_eq, text_beq_iff}
use n2f_nest.Shared.Ids.{Identifier}
use n2f_nest.Shared.Events.{Envelope}
use n2f_nest.Inbox.Retry.{RetryPolicy, Fraction}
use n2f_nest.Inbox.Ledger.{
  Receipt, ReceiptState, processed, Receipts, Inbox, is_consumer, receipts_for, with_receipts,
  open_receipt, open_receipts, is_due, next_due, Lease, leased, lease, settle, attempted, deliver,
  requeued, requeue,
}

-- The receipt of an event for a consumer.
abbrev pub receipt_of : Text → Identifier → Inbox → Option Receipt
receipt_of consumer id inbox = get id (receipts_for consumer inbox)

pub receipts_for-with :
    (own consumer : Text) (rs : Receipts) (inbox : Inbox)
    → receipts_for consumer (with_receipts own rs inbox)
      ≡ (if own === consumer then rs else receipts_for consumer inbox)
unfolding receipts_for with_receipts
receipts_for-with own consumer rs inbox = ground (arith, get-set own consumer rs inbox.receipts)

-- The receipt that is delivered next is one of the consumer's, and due.
next_due_found :
    (now : Time) (m : Receipts) (best : Option (Identifier × Receipt)) (id : Identifier)
    (r : Receipt)
    → Distinct m
    → next_due now m best ≡ some (id, r)
    → (best ≡ some (id, r)) ⊎ ((get id m ≡ some r) × (is_due now r ≡ true))
unfolding next_due get
next_due_found now [] best id r d h = inl h
next_due_found now ((j, s) ∷ rest) best id r d h = ground (
  arith,
  next_due_found now rest best id r d.1,
  next_due_found now rest (some (j, s)) id r d.1,
  text_beq_iff j id,
)

abbrev pub is_processed : ReceiptState → Bool
is_processed processed = true
is_processed _ = false

-- No delivery, or one that is not processed.
abbrev pub is_unprocessed : Option Receipt → Bool
is_unprocessed none = true
is_unprocessed (some r) = not (is_processed r.state)

abbrev write_receipt : Text → Identifier → Receipt → Inbox → Inbox
write_receipt consumer id r inbox =
    with_receipts consumer (set id r (receipts_for consumer inbox)) inbox

receipt_of-write :
    (own consumer : Text) (written id : Identifier) (new : Receipt) (inbox : Inbox)
    → receipt_of consumer id (write_receipt own written new inbox)
      ≡ (if (own === consumer) && (written === id) then some new else receipt_of consumer id inbox)
receipt_of-write own consumer written id new inbox = ground (
  arith,
  receipts_for-with own consumer (set written new (receipts_for own inbox)) inbox,
  get-set written id new (receipts_for own inbox),
  text_beq_iff own consumer,
)

-- Storing the receipts that were read changes none of them.
receipts_for-same :
    (own consumer : Text) (inbox : Inbox)
    → receipts_for consumer (with_receipts own (receipts_for own inbox) inbox)
      ≡ receipts_for consumer inbox
receipts_for-same own consumer inbox = ground (
  arith,
  receipts_for-with own consumer (receipts_for own inbox) inbox,
  text_beq_iff own consumer,
)

-- What is due is not processed.
due_unprocessed :
    (now : Time) (own : Text) (inbox : Inbox) (id : Identifier) (s : Receipt)
    → Distinct (receipts_for own inbox)
    → next_due now (receipts_for own inbox) none ≡ some (id, s)
    → is_unprocessed (receipt_of own id inbox) ≡ true
unfolding is_due
due_unprocessed now own inbox id s d e =
    ground (arith, next_due_found now (receipts_for own inbox) none id s d e)

-- A lease is one of a receipt that is not processed.
abbrev Leases : Text → Option Lease × Inbox → Type 0
Leases own (none, inbox) = Unit
Leases own (some l, inbox) = is_unprocessed (receipt_of own l.event_id inbox) ≡ true

lease-Leases :
    (own : Text) (now : Time) (inbox : Inbox)
    → Distinct (receipts_for own inbox)
    → Leases own (lease now own inbox)
unfolding lease
lease-Leases own now inbox d = elim (Option-cases (next_due now (receipts_for own inbox) none)) [
  | inl e ↦ rw (e, lease) tt
  | inr ((due, s), e) ↦
      rw (e, lease)
        (ground (
          arith,
          receipt_of-write own own due due (leased s) inbox,
          due_unprocessed now own inbox due s d e,
          next_due_found now (receipts_for own inbox) none due s d e,
          text_beq_iff own own,
          text_beq_iff due due,
        ))
]

module _ (consumer : Text) (id : Identifier) (r : Receipt)
    (done : is_processed r.state ≡ true) where
  -- The inbox holds the processed receipt.
  abbrev pub Holds : Inbox → Type 0
  Holds inbox = receipt_of consumer id inbox ≡ some r

  pub same-Holds :
      (own : Text) (inbox : Inbox)
      → Holds inbox
      → Holds (with_receipts own (receipts_for own inbox) inbox)
  same-Holds own inbox h = ap (get id) (receipts_for-same own consumer inbox) ∙ h

  pub write-Holds :
      (own : Text) (written : Identifier) (new : Receipt) (inbox : Inbox)
      → is_unprocessed (receipt_of own written inbox) ≡ true
      → Holds inbox
      → Holds (write_receipt own written new inbox)
  write-Holds own written new inbox undone h = ground (
    arith,
    receipt_of-write own consumer written id new inbox,
    text_beq_iff own consumer,
    text_beq_iff written id,
  )

  pub open_receipt-Holds :
      (now : Time) (new : Identifier) (own : Text) (inbox : Inbox)
      → Holds inbox
      → Holds (open_receipt now new own inbox)
  unfolding open_receipt
  open_receipt-Holds now new own inbox h = elim (Option-cases (receipt_of own new inbox)) [
    | inl e ↦
        rw (e, open_receipt)
          (unfold receipts_for in write-Holds own new _ inbox (ap is_unprocessed e) h)
    | inr (s, e) ↦ rw (e, open_receipt) (same-Holds own inbox h)
  ]

  pub open_receipts-Holds :
      (now : Time) (new : Identifier) (consumers : List Text) (inbox : Inbox)
      → Holds inbox
      → Holds (open_receipts now new consumers inbox).1
  unfolding open_receipts
  open_receipts-Holds now new [] inbox h = h
  open_receipts-Holds now new (c ∷ cs) inbox h = elim (Bool-cases (is_consumer c)) [
    | inl e ↦ rw e (
        open_receipts-Holds now new cs (open_receipt now new c inbox)
          (open_receipt-Holds now new c inbox h))
    | inr e ↦ rw e h
  ]

  requeued-get :
      (now : Time) (wanted : Option Identifier) (m : Receipts)
      → get id m ≡ some r
      → get id (requeued now wanted m).1 ≡ some r
  unfolding requeued get
  requeued-get now wanted [] h = cc
  requeued-get now wanted ((j, s) ∷ rest) h = ground (arith, requeued-get now wanted rest)

  pub requeue-Holds :
      (now : Time) (own : Text) (wanted : Option Identifier) (inbox : Inbox)
      → Holds inbox
      → Holds (requeue now own wanted inbox).1
  unfolding requeue
  requeue-Holds now own wanted inbox h = ground (
    arith,
    receipts_for-with own consumer (requeued now wanted (receipts_for own inbox)).1 inbox,
    text_beq_iff own consumer,
    requeued-get now wanted (receipts_for consumer inbox),
  )

  settle-Holds :
      (policy : RetryPolicy) (own : Text) (l : Lease) (now : Time) (random : Fraction)
      (result : Result (Unit {0})) (inbox : Inbox)
      → is_unprocessed (receipt_of own l.event_id inbox) ≡ true
      → Holds inbox
      → Holds (settle policy own l now random result inbox).1
  unfolding settle
  settle-Holds policy own l now random result inbox undone h =
      elim (Option-cases (receipt_of own l.event_id inbox)) [
        | inl e ↦ rw (e, settle) h
        | inr (s, e) ↦ rw (e, settle) (write-Holds own l.event_id _ inbox undone h)
      ]

  attempted-Holds :
      (handler : Option Envelope → Result (Unit {0})) (policy : RetryPolicy) (own : Text)
      (now later : Time) (random : Fraction) (x : Option Lease × Inbox)
      → Leases own x
      → Holds x.1
      → Holds (attempted handler policy own now later random x).1
  unfolding attempted
  attempted-Holds handler policy own now later random (none, inbox) ls h = h
  attempted-Holds handler policy own now later random (some l, inbox) ls h =
      settle-Holds policy own l later random (handler l.event) inbox ls h

  lease-Holds :
      (own : Text) (now : Time) (inbox : Inbox)
      → Distinct (receipts_for own inbox)
      → Holds inbox
      → Holds (lease now own inbox).1
  unfolding lease
  lease-Holds own now inbox d h = elim (Option-cases (next_due now (receipts_for own inbox) none)) [
    | inl e ↦ rw (e, lease) (same-Holds own inbox h)
    | inr ((due, s), e) ↦
        rw (e, lease)
          (write-Holds own due (leased s) inbox (due_unprocessed now own inbox due s d e) h)
  ]

  pub deliver-Holds :
      (handler : Option Envelope → Result (Unit {0})) (policy : RetryPolicy) (own : Text)
      (now later : Time) (random : Fraction) (inbox : Inbox)
      → Distinct (receipts_for own inbox)
      → Holds inbox
      → Holds (deliver handler policy own now later random inbox).1
  unfolding deliver
  deliver-Holds handler policy own now later random inbox d h =
      elim (Bool-cases (is_consumer own)) [
        | inl e ↦
            rw (e, deliver)
              (attempted-Holds handler policy own now later random (lease now own inbox)
                (lease-Leases own now inbox d) (lease-Holds own now inbox d h))
        | inr e ↦ rw (e, deliver) h
      ]
