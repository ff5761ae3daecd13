-- ===== src/Shared/Transactions.antt =====
-- The shape of an in-memory writer's `commit` (src/modules/*/infra/in-memory): it checks, writes,
-- publishes the events one after the other, and undoes what it wrote if one is not published.
use n2f_nest.Prelude.{
  ◌≡◌, refl, ◌⊎◌, inl, inr, true, false, ◌&&◌, List, [], ◌∷◌, arith, if◌then◌else◌,
}
use n2f_nest.Shared.Errors.{Result, ok, err, is_ok, ◌>>◌}
use n2f_nest.Shared.Work.{WorkContext}
use n2f_nest.Shared.Events.{Envelope, assert_event_work}
use n2f_nest.Shared.Effects.{Action, pure, ◌>>◌ as ◌>>>◌}

-- `for (const event of input.events) assertEventWork(event, input.work)`
unfoldable pub assert_events : List Envelope → WorkContext → Result (Unit {0})
assert_events [] work = ok tt
assert_events (event ∷ events) work = assert_event_work event work >> assert_events events work

module _ {B : Type 0} (publish : Envelope → Action B (Unit {0})) where
  -- `for (const event of input.events) await this.events.publish(event)`, up to the first failure.
  unfoldable pub publish_all : List Envelope → Action B (Unit {0})
  publish_all [] = pure tt
  publish_all (event ∷ events) = publish event >>> publish_all events

module _ {S B : Type 0} (before written undone : S) where
  abbrev pub settle_write : Result (Unit {0}) × B → Result (Unit {0}) × S × B
  settle_write (ok u, bus) = (ok u, written, bus)
  settle_write (err e, bus) = (err e, undone, bus)

  -- Once the checks gave their result: nothing, or the write and what the publication makes of it.
  unfoldable pub transact : Result (Unit {0}) → Action B (Unit {0}) → B → Result (Unit {0}) × S × B
  transact (err e) publication bus = (err e, before, bus)
  transact (ok u) publication bus = settle_write (publication bus)

  -- If undoing gives back what was there, the transaction succeeds exactly when its checks pass and
  -- everything is published, and then leaves what was written; otherwise it leaves what was there.
  pub transact_all_or_nothing :
      (checks : Result (Unit {0})) (publication : Action B (Unit {0})) (bus : B)
      → (checks ≡ ok tt → undone ≡ before)
      → let done = is_ok checks && is_ok (publication bus).0 in
        let after = transact checks publication bus in
        (is_ok after.0 ≡ done) × (after.1 ≡ (if done then written else before))
  unfolding transact
  transact_all_or_nothing (err e) publication bus h = (refl, refl)
  transact_all_or_nothing (ok tt) publication bus h = ground (arith, h refl)

  pub transact_cases :
      (checks : Result (Unit {0})) (publication : Action B (Unit {0})) (bus : B)
      → (checks ≡ ok tt → undone ≡ before)
      → let after = transact checks publication bus in
        ((is_ok after.0 ≡ false) × (after.1 ≡ before))
        ⊎ ((is_ok after.0 ≡ true) × (after.1 ≡ written) × (checks ≡ ok tt))
  unfolding transact
  transact_cases (err e) publication bus h = inl (refl, refl)
  transact_cases (ok u) publication bus h = settled_cases (publication bus)
    where
      settled_cases :
          (r : Result (Unit {0}) × B)
          → let after = settle_write r in
            ((is_ok after.0 ≡ false) × (after.1 ≡ before))
            ⊎ ((is_ok after.0 ≡ true) × (after.1 ≡ written) × (ok u ≡ ok tt))
      settled_cases (ok v, b) = inr (refl, refl, refl)
      settled_cases (err e, b) = inl (refl, h refl)
