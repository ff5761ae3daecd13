-- ===== src/Inbox/Order.antt =====
-- The order of deliveries, and the separation of consumers, in src/shared/events/in-memory-inbox.ts.
use n2f_nest.Prelude.{
  ◌≡◌, ◌≤◌, ◌⊎◌, refl, subst, ◌∙◌, inl, inr, arith, true, false, ◌&&◌, Option, none, some, [], ◌∷◌,
  Bool-cases, Option-cases, All,
}
use n2f_nest.Prelude.Maps.{get, ◌===◌}
use n2f_nest.Shared.Errors.{Result}
use n2f_nest.Shared.Dates.{Time}
use n2f_nest.Shared.Text.{Text, text_eq}
use n2f_nest.Shared.Ids.{Identifier}
use n2f_nest.Prelude.Sort.{All-weaken}
use n2f_nest.Shared.Tables.{Among, head, tail}
use n2f_nest.Shared.Events.{Envelope}
use n2f_nest.Inbox.Retry.{RetryPolicy, Fraction}
use n2f_nest.Inbox.Ledger.{
  Receipt, pending, better, Receipts, Inbox, is_consumer, receipts_for, with_receipts, is_due,
  is_sooner, next_due, Lease, lease, settle, attempted, deliver,
}
use n2f_nest.Inbox.Deliveries.{receipts_for-with}

-- The best entry so far is not sooner than the receipt.
abbrev IsPassed : Option (Identifier × Receipt) → Receipt → Type 0
IsPassed none r = Unit
IsPassed (some (id, b)) r = is_sooner b r ≡ false

not_sooner_trans :
    (a b c : Receipt) → is_sooner b a ≡ true → is_sooner b c ≡ false → is_sooner a c ≡ false
unfolding is_sooner
not_sooner_trans a b c h k = ground arith

not_sooner_self : (a : Receipt) → is_sooner a a ≡ false
unfolding is_sooner
not_sooner_self a = ground arith

not_sooner_step :
    (a b c : Receipt) → is_sooner b a ≡ false → is_sooner a c ≡ false → is_sooner b c ≡ false
unfolding is_sooner
not_sooner_step a b c h k = ground arith

next_due_passes :
    (now : Time) (m : Receipts) (best : Option (Identifier × Receipt)) (id : Identifier)
    (r : Receipt)
    → next_due now m best ≡ some (id, r)
    → All (λ e. (is_due now e.1 && is_sooner e.1 r) ≡ false) m × IsPassed best r
unfolding next_due
next_due_passes now [] none id r h = (tt, tt)
next_due_passes now [] (some (i, b)) id r h = (tt, ground (arith, not_sooner_self r))
next_due_passes now ((j, s) ∷ rest) none id r h = elim (Bool-cases (is_due now s)) [
  | inl e ↦
      let (all, passed) = next_due_passes now rest (some (j, s)) id r (rw e at h) in
      ((ground arith, all), tt)
  | inr e ↦
      let (all, passed) = next_due_passes now rest none id r (rw e at h) in
      ((ground arith, all), tt)
]
next_due_passes now ((j, s) ∷ rest) (some (i, b)) id r h =
    elim (Bool-cases (is_due now s && is_sooner s b)) [
      | inl e ↦
          let (all, passed) = next_due_passes now rest (some (j, s)) id r (rw e at h) in
          ((ground arith, all), ground (arith, not_sooner_trans b s r))
      | inr e ↦
          let (all, passed) = next_due_passes now rest (some (i, b)) id r (rw e at h) in
          ((ground (arith, not_sooner_step b s r), all), passed)
    ]

next_due-Among :
    (now : Time) (m : Receipts) (best : Option (Identifier × Receipt)) (e : Identifier × Receipt)
    → next_due now m best ≡ some e
    → (best ≡ some e) ⊎ (Among e m × (is_due now e.1 ≡ true))
unfolding next_due
next_due-Among now [] best e h = inl h
next_due-Among now ((j, s) ∷ rest) best e h =
    elim (Bool-cases (is_due now s && better (j, s) best)) [
      | inl taken ↦ elim (next_due-Among now rest (some (j, s)) e (rw taken at h)) [
        | inl is ↦
            let same : (j, s) ≡ e = cc in
            let due : is_due now s ≡ true = ground (arith, taken) in
            inr (
              subst (λ x. Among x ((j, s) ∷ rest)) same head,
              subst (λ (x : Identifier × Receipt). is_due now x.1 ≡ true) same due,
            )
        | inr (among, due) ↦ inr (tail among, due)
      ]
      | inr passed ↦ elim (next_due-Among now rest best e (rw passed at h)) [
        | inl is ↦ inl is
        | inr (among, due) ↦ inr (tail among, due)
      ]
    ]

next_due-some :
    (now : Time) (m : Receipts) (b : Identifier × Receipt)
    → (e : Identifier × Receipt) × (next_due now m (some b) ≡ some e)
unfolding next_due
next_due-some now [] b = (b, refl)
next_due-some now ((j, s) ∷ rest) b = elim (Bool-cases (is_due now s && is_sooner s b.1)) [
  | inl taken ↦ rw taken (next_due-some now rest (j, s))
  | inr passed ↦ rw passed (next_due-some now rest b)
]

next_due-nothing :
    (now : Time) (m : Receipts) → next_due now m none ≡ none → All (λ e. is_due now e.1 ≡ false) m
unfolding next_due
next_due-nothing now [] h = tt
next_due-nothing now ((j, s) ∷ rest) h = elim (Bool-cases (is_due now s)) [
  | inl due ↦
      let (e, is) = next_due-some now rest (j, s) in
      let there : next_due now rest (some (j, s)) ≡ none = rw due at h in absurd (cc (is, there))
  | inr other ↦ (other, next_due-nothing now rest (rw other at h))
]

-- A delivery that can be handed out: it is pending, on no lease, and available.
pub record IsReady (now : Time) (r : Receipt) : Type 0 where
  pub state : r.state ≡ pending
  pub unleased : r.leased ≡ false
  pub available : r.available_at ≤ now

-- Available before, or together and opened no later.
pub record IsFirst (r s : Receipt) : Type 0 where
  pub available : r.available_at ≤ s.available_at
  pub opened : r.available_at ≡ s.available_at → r.sequence ≤ s.sequence

-- What is handed out next: a receipt of the consumer that is ready, before all others that are; or nothing, where none is.
pub data IsNext (now : Time) (m : Receipts) : Option (Identifier × Receipt) → Type 0 where
  first_of :
      {e : Identifier × Receipt}
      → Among e m
      → IsReady now e.1
      → All (λ o. IsReady now o.1 → IsFirst e.1 o.1) m
      → IsNext now m (some e)
  none_ready : All (λ o. ¬ IsReady now o.1) m → IsNext now m none

due-IsReady : (now : Time) (r : Receipt) → is_due now r ≡ true → IsReady now r
unfolding is_due
due-IsReady now r h = ground arith

ready_due : (now : Time) (r : Receipt) → IsReady now r → is_due now r ≡ true
unfolding is_due
ready_due now r h = ground arith

passed-IsFirst :
    (now : Time) (r s : Receipt)
    → (is_due now s && is_sooner s r) ≡ false
    → IsReady now s
    → IsFirst r s
unfolding is_sooner
passed-IsFirst now r s h ready = ground (arith, ready_due now s ready)

chosen-IsNext :
    (now : Time) (m : Receipts) (o : Option (Identifier × Receipt))
    → next_due now m none ≡ o
    → IsNext now m o
chosen-IsNext now m none h = none_ready (
    All-weaken (λ e. is_due now e.1 ≡ false) (λ e no yes. cc (no, ready_due now e.1 yes)) m
      (next_due-nothing now m h))
chosen-IsNext now m (some e) h = elim (next_due-Among now m none e h) [
  | inl is ↦ absurd (cc is)
  | inr (among, due) ↦ first_of among (due-IsReady now e.1 due) (
      All-weaken (λ o. (is_due now o.1 && is_sooner o.1 e.1) ≡ false)
        (λ o. passed-IsFirst now e.1 o.1) m (next_due_passes now m none e.0 e.1 h).0)
]

-- The delivery of a consumer that is handed out next is one of its receipts that is pending, on no lease and available, and of those
-- it became available first, and of those that became available together it was opened first; nothing is handed out only
-- where there is no such receipt.
pub next_due-IsNext : (now : Time) (m : Receipts) → IsNext now m (next_due now m none)
next_due-IsNext now m = chosen-IsNext now m (next_due now m none) refl

with_receipts-others :
    (own consumer : Text) (rs : Receipts) (inbox : Inbox)
    → (own === consumer) ≡ false
    → receipts_for consumer (with_receipts own rs inbox) ≡ receipts_for consumer inbox
with_receipts-others own consumer rs inbox other =
    receipts_for-with own consumer rs inbox ∙ rw other refl

module _ (own consumer : Text) (other : (own === consumer) ≡ false) where
  lease-others :
      (now : Time) (inbox : Inbox)
      → receipts_for consumer (lease now own inbox).1 ≡ receipts_for consumer inbox
  unfolding lease
  lease-others now inbox = elim (Option-cases (next_due now (receipts_for own inbox) none)) [
    | inl e ↦ rw (e, lease) (with_receipts-others own consumer _ inbox other)
    | inr ((due, s), e) ↦ rw (e, lease) (with_receipts-others own consumer _ inbox other)
  ]

  settle-others :
      (policy : RetryPolicy) (l : Lease) (now : Time) (random : Fraction)
      (result : Result (Unit {0})) (inbox : Inbox)
      → receipts_for consumer (settle policy own l now random result inbox).1
        ≡ receipts_for consumer inbox
  unfolding settle
  settle-others policy l now random result inbox =
      elim (Option-cases (get l.event_id (receipts_for own inbox))) [
        | inl e ↦ rw (e, settle) refl
        | inr (s, e) ↦ rw (e, settle) (with_receipts-others own consumer _ inbox other)
      ]

  attempted-others :
      (handler : Option Envelope → Result (Unit {0})) (policy : RetryPolicy) (now later : Time)
      (random : Fraction) (x : Option Lease × Inbox)
      → receipts_for consumer (attempted handler policy own now later random x).1
        ≡ receipts_for consumer x.1
  unfolding attempted
  attempted-others handler policy now later random (none, inbox) = refl
  attempted-others handler policy now later random (some l, inbox) =
      settle-others policy l later random (handler l.event) inbox

  -- A delivery to one consumer, whatever its handler returns, leaves the receipts of every other consumer as they are.
  pub deliver-others :
      (handler : Option Envelope → Result (Unit {0})) (policy : RetryPolicy) (now later : Time)
      (random : Fraction) (inbox : Inbox)
      → receipts_for consumer (deliver handler policy own now later random inbox).1
        ≡ receipts_for consumer inbox
  unfolding deliver
  deliver-others handler policy now later random inbox = elim (Bool-cases (is_consumer own)) [
    | inl e ↦
        rw (e, deliver)
          (attempted-others handler policy now later random (lease now own inbox)
            ∙ lease-others now inbox)
    | inr e ↦ rw (e, deliver) refl
  ]
