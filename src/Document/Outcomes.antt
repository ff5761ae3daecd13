-- ===== src/Document/Outcomes.antt =====
-- Outcomes of processing runs (src/modules/document/domain/document.ts) arrive at least once and in any
-- order.
use n2f_nest.Prelude.{
  ℕ, ◌≤◌, ◌<◌, ◌≡◌, ◌≢◌, refl, sym, ap, ◌∙◌, Bool, true, false, Option, none, some, List, [], ◌∷◌,
  arith, ltb, ◌==◌, if◌then◌else◌, All, ◌&&◌, ◌||◌,
}
use n2f_nest.Shared.Errors.{Result, ok, err, Ensures}
use n2f_nest.Shared.Numbers.{Number, nat, max_safe_integer}
use n2f_nest.Shared.Dates.{Time, Date, time}
use n2f_nest.Shared.Text.{Text, text_eq, text_beq_iff}
use n2f_nest.Shared.Values.{Value}
use n2f_nest.Shared.Ids.{Identifier}
use n2f_nest.Document.Lifecycle.{IsValid}
use n2f_nest.Document.Document.{
  Document, DocumentStatus, processing, processed, processing_failed, Report, retrying, succeeded,
  failed, ProcessingOutcome, failure_code_of, is_stale, report, apply_processing_outcome, is_failed,
}

abbrev outcome : Identifier → Number → Report → ProcessingOutcome
outcome run n r = record { run = run; attempt = n; result = r }

applied_twice :
    (d : Document) (at again : Time) (run : Identifier) (n : Number) (r : Report)
    → Ensures
        (λ e. apply_processing_outcome e (time again) (outcome run n r) ≡ ok e)
        (apply_processing_outcome d (time at) (outcome run n r))
unfolding apply_processing_outcome report is_stale
applied_twice d at again run n (failed c) = ground (arith, text_beq_iff run run)
applied_twice d at again run n succeeded = ground (arith, text_beq_iff run run)
applied_twice d at again run n retrying = ground (arith, text_beq_iff run run)

-- An outcome that was applied changes nothing when it is applied again, at any time.
pub apply-apply :
    (d : Document) (at again : Time) (o : ProcessingOutcome)
    → Ensures
        (λ e. apply_processing_outcome e (time again) o ≡ ok e)
        (apply_processing_outcome d (time at) o)
apply-apply d at again o = applied_twice d at again o.run o.attempt o.result

-- What an outcome leaves alone, and what only grows.
pub record Advances (d e : Document) : Type 0 where
  pub id : e.id ≡ d.id
  pub organization_id : e.organization_id ≡ d.organization_id
  pub name : e.name ≡ d.name
  pub storage_key : e.storage_key ≡ d.storage_key
  pub created_at : e.created_at ≡ d.created_at
  pub archived_at : e.archived_at ≡ d.archived_at
  pub version : e.version ≡ d.version
  pub updated_at : d.updated_at ≤ e.updated_at
  pub attempt : d.processing_attempt ≤ e.processing_attempt

applied-Advances :
    (d : Document) (at : Date) (run : Identifier) (n : Number) (r : Report)
    → Ensures (Advances d) (apply_processing_outcome d at (outcome run n r))
unfolding apply_processing_outcome report is_stale
applied-Advances d at run n (failed c) = ground arith
applied-Advances d at run n _ = ground arith

-- An outcome that is applied changes neither the identity, the name, the storage key, the archive time nor the version
-- of the document, and moves its time and its attempt only forward.
pub apply-Advances :
    (d : Document) (at : Date) (o : ProcessingOutcome)
    → Ensures (Advances d) (apply_processing_outcome d at o)
apply-Advances d at o = applied-Advances d at o.run o.attempt o.result

-- An arrival, and what any number of them make of a document; a failed one leaves it.
pub record Arrival : Type 0 where
  pub at : Date
  pub outcome : ProcessingOutcome

abbrev pub or_else : Document → Result Document → Document
or_else d (ok e) = e
or_else d (err f) = d

unfoldable pub arrive : Document → List Arrival → Document
arrive d [] = d
arrive d (a ∷ later) = arrive (or_else d (apply_processing_outcome d a.at a.outcome)) later

-- A document that waits for no outcome: it is not processed yet, or it is done.
abbrev pub is_settled : DocumentStatus → Bool
is_settled processing = false
is_settled processing_failed = false
is_settled _ = true

settled-keeps :
    (d : Document) (a : Arrival)
    → is_settled d.status ≡ true
    → or_else d (apply_processing_outcome d a.at a.outcome) ≡ d
unfolding apply_processing_outcome is_stale
settled-keeps d a s = ground arith

-- A document that is active, processed or archived stays as it is, whatever outcomes arrive.
pub settled_absorbs :
    (d : Document) (later : List Arrival) → is_settled d.status ≡ true → arrive d later ≡ d
unfolding arrive
settled_absorbs d [] s = refl
settled_absorbs d (a ∷ later) s = rw (settled-keeps d a s) (settled_absorbs d later s)

abbrev IsOther : Identifier → Arrival → Type 0
IsOther run a = a.outcome.run ≢ run

other-keeps :
    (d : Document) (run : Identifier) (a : Arrival)
    → d.processing_run ≡ some run
    → IsOther run a
    → or_else d (apply_processing_outcome d a.at a.outcome) ≡ d
unfolding apply_processing_outcome is_stale
other-keeps d run a e other = ground (arith, text_beq_iff run a.outcome.run)

-- A document that has a run stays as it is, whatever outcomes of other runs arrive.
pub others_absorbed :
    (d : Document) (run : Identifier) (later : List Arrival)
    → d.processing_run ≡ some run
    → All (IsOther run) later
    → arrive d later ≡ d
unfolding arrive
others_absorbed d run [] e os = refl
others_absorbed d run (a ∷ later) e (o, os) =
    rw (other-keeps d run a e o) (others_absorbed d run later e os)

-- the run that a document follows, forgetting the rest of the document and the times.
pub record Progress : Type 0 where
  pub status : DocumentStatus
  pub code : Option Text
  pub attempt : ℕ

abbrev pub progress : Document → Progress
progress d = record {
  status = d.status;
  code = d.processing_failure_code;
  attempt = d.processing_attempt;
}

-- The failure code that a report carries, if it is a valid one.
unfoldable pub code_in : Value → Option Text
code_in v = elim (failure_code_of v) [ err e ↦ none | ok c ↦ c ]

abbrev retried : ℕ → Progress → Progress
retried n p =
    if is_failed p.status
    then record { status = processing; code = none; attempt = n }
    else record p { attempt = n }

abbrev failed_with : ℕ → Option Text → Progress → Progress
failed_with n none p = p
failed_with n (some c) p =
    if is_failed p.status && n == p.attempt
    then p
    else record { status = processing_failed; code = some c; attempt = n }

abbrev reported : ℕ → Report → Progress → Progress
reported n succeeded p = record { status = processed; code = none; attempt = n }
reported n retrying p = retried n p
reported n (failed v) p = failed_with n (code_in v) p

-- What a report of an attempt of the run makes of it.
unfoldable pub advance : ℕ → Report → Progress → Progress
advance n r p = if is_settled p.status || ltb n p.attempt then p else reported n r p

-- An outcome of the run that the document follows, with a safe attempt number and a valid time, makes of the document's
-- progress what the abstract `advance` makes of it, and keeps the run; one that is refused keeps both.
pub apply-advance :
    (d : Document) (t : Time) (run : Identifier) (n : ℕ) (r : Report)
    → d.processing_run ≡ some run
    → n ≤ max_safe_integer
    → let e = or_else d (apply_processing_outcome d (time t) (outcome run (nat n) r)) in
      (progress e ≡ advance n r (progress d)) × (e.processing_run ≡ some run)
unfolding apply_processing_outcome report is_stale advance code_in
apply-advance d t run n retrying e safe = ground (arith, text_beq_iff run run)
apply-advance d t run n succeeded e safe = ground (arith, text_beq_iff run run)
apply-advance d t run n (failed c) e safe = ground (arith, text_beq_iff run run)

-- Not the last word of a run.
abbrev pub is_interim : Report → Bool
is_interim succeeded = false
is_interim _ = true

-- A document in processing has no failure code.
abbrev IsClean : DocumentStatus → Option Text → Type 0
IsClean processing code = code ≡ none
IsClean _ code = Unit

advance_comm :
    (p : Progress) (m n : ℕ) (q r : Report)
    → IsClean p.status p.code
    → m < n
    → is_interim q ≡ true
    → advance n r (advance m q p) ≡ advance m q (advance n r p)
unfolding advance
advance_comm p m n retrying retrying clean lt i = ground arith
advance_comm p m n retrying succeeded clean lt i = ground arith
advance_comm p m n retrying (failed c) clean lt i = ground arith
advance_comm p m n succeeded r clean lt i = cc
advance_comm p m n (failed b) retrying clean lt i = ground arith
advance_comm p m n (failed b) succeeded clean lt i = ground arith
advance_comm p m n (failed b) (failed c) clean lt i = ground arith

abbrev pub arrival : Time → Identifier → ℕ → Report → Arrival
arrival t run n r = record { at = time t; outcome = outcome run (nat n) r }

arrive-two :
    (d : Document) (s t : Time) (run : Identifier) (m n : ℕ) (q r : Report)
    → d.processing_run ≡ some run
    → m ≤ max_safe_integer
    → n ≤ max_safe_integer
    → progress (arrive d (arrival s run m q ∷ arrival t run n r ∷ []))
      ≡ advance n r (advance m q (progress d))
unfolding arrive
arrive-two d s t run m n q r e safe_m safe_n =
    let (first, kept) = apply-advance d s run m q e safe_m in
    let (second, kept') =
      apply-advance (or_else d (apply_processing_outcome d (time s) (outcome run (nat m) q))) t run
        n r kept safe_n in
    second ∙ ap (advance n r) first

IsValid→IsClean : (d : Document) → IsValid d → IsClean d.status d.processing_failure_code
IsValid→IsClean d v = ground (arith, v.shape)

-- Of a valid document that has a run: the outcome of an earlier attempt of that run, if it is no success,
-- and the outcome of a later attempt leave the same status, failure code and attempt, in whichever
-- order they arrive.
pub order_forgotten :
    (d : Document) (s t : Time) (run : Identifier) (m n : ℕ) (q r : Report)
    → IsValid d
    → d.processing_run ≡ some run
    → n ≤ max_safe_integer
    → m < n
    → is_interim q ≡ true
    → progress (arrive d (arrival s run m q ∷ arrival t run n r ∷ []))
      ≡ progress (arrive d (arrival t run n r ∷ arrival s run m q ∷ []))
order_forgotten d s t run m n q r v e safe lt i =
    arrive-two d s t run m n q r e (omega arith) safe
    ∙ advance_comm (progress d) m n q r (IsValid→IsClean d v) lt i
    ∙ sym (arrive-two d t s run n m r q e safe (omega arith))
