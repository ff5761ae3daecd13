-- ===== src/Document/Examples.antt =====
-- Concrete documents, at which the theorems about them are applied.
use n2f_nest.Prelude.{◌≡◌, ◌≢◌, refl, true, false, none, some, [], ◌∷◌, arith}
use n2f_nest.Shared.Errors.{ok, Ensures}
use n2f_nest.Shared.Dates.{time}
use n2f_nest.Shared.Text.{text_eq, text_beq_iff, codes, is_name, trim, trim_start}
use n2f_nest.Shared.Values.{string}
use n2f_nest.Shared.Ids.{Identifier}
use n2f_nest.Document.Document.{
  Document, active, processing, processing_failed, retrying, succeeded, failed, failure_code_of,
  apply_processing_outcome, is_stale, report,
}
use n2f_nest.Document.Restore.{restore}
use n2f_nest.Document.Lifecycle.{IsValid, begins, take_step, step-IsValid, row, restore-row}
use n2f_nest.Document.Outcomes.{
  apply-apply, Arrival, arrival, arrive, or_else, settled_absorbs, others_absorbed, progress,
  advance, apply-advance, order_forgotten,
}

abbrev pub document_id : Identifier
document_id = codes "018f0000-0000-7000-8000-0000000000d1"

abbrev pub run_id : Identifier
run_id = codes "018f0000-0000-7000-8000-0000000000e1"

abbrev other_run : Identifier
other_run = codes "018f0000-0000-7000-8000-0000000000e2"

abbrev pub stored : Document
stored = record {
  id = document_id;
  organization_id = document_id;
  name = codes "report.pdf";
  storage_key = some (codes "files/1");
  status = active;
  processing_failure_code = none;
  processing_run = none;
  processing_attempt = 0;
  created_at = 1000;
  updated_at = 1000;
  archived_at = none;
  version = 1;
}

stored-IsValid : IsValid stored
unfolding trim trim_start
stored-IsValid = record {
  name_valid = record { trimmed = refl; sized = refl };
  key_valid = record { trimmed = refl; sized = refl };
  code_valid = tt;
  monotonic = omega arith;
  attempt_safe = omega arith;
  shape = (refl, refl);
}

step-IsValid_example : Ensures IsValid (take_step stored (begins (time 2000) run_id))
step-IsValid_example = step-IsValid stored (begins (time 2000) run_id) stored-IsValid

restore-row_example : restore (row stored) ≡ ok stored
restore-row_example = restore-row stored stored-IsValid (omega arith) (omega arith)

abbrev pub waiting : Document
waiting = record stored { status = processing; processing_run = some run_id; updated_at = 2000 }

waiting-IsValid : IsValid waiting
waiting-IsValid = ground (arith, stored-IsValid)

abbrev first_failure : Arrival
first_failure = arrival 3000 run_id 1 (failed (string (codes "out.of.memory")))

abbrev second_success : Arrival
second_success = arrival 4000 run_id 2 succeeded

apply-apply_example :
    Ensures
      (λ e. apply_processing_outcome e (time 5000) first_failure.outcome ≡ ok e)
      (apply_processing_outcome waiting (time 3000) first_failure.outcome)
apply-apply_example = apply-apply waiting 3000 5000 first_failure.outcome

settled_absorbs_example : arrive stored (first_failure ∷ second_success ∷ []) ≡ stored
settled_absorbs_example = settled_absorbs stored (first_failure ∷ second_success ∷ []) refl

abbrev foreign_success : Arrival
foreign_success = arrival 3000 other_run 7 succeeded

others_absorbed_example : arrive waiting (foreign_success ∷ []) ≡ waiting
others_absorbed_example = others_absorbed waiting run_id (foreign_success ∷ []) refl (other, tt)
  where
    other : other_run ≢ run_id
    other e = let h : false ≡ true = (text_beq_iff other_run run_id).1 e in cc

apply-advance_example :
    let e = or_else waiting (apply_processing_outcome waiting (time 4000) second_success.outcome) in
    (progress e ≡ advance 2 succeeded (progress waiting)) × (e.processing_run ≡ some run_id)
apply-advance_example = apply-advance waiting 4000 run_id 2 succeeded refl (omega arith)

order_forgotten_example :
    progress (arrive waiting (first_failure ∷ second_success ∷ []))
    ≡ progress (arrive waiting (second_success ∷ first_failure ∷ []))
order_forgotten_example =
    order_forgotten waiting 3000 4000 run_id 1 2 (failed (string (codes "out.of.memory"))) succeeded
      waiting-IsValid refl (omega arith) (omega arith) refl

-- A failure that arrives again after the same attempt's retry was announced fails the document again.
abbrev announced : Arrival
announced = arrival 4000 run_id 1 retrying

late_failure : (arrive waiting (first_failure ∷ announced ∷ [])).status ≡ processing
unfolding arrive apply_processing_outcome is_stale report failure_code_of is_name
late_failure = refl

late_failure_again :
    (arrive waiting (first_failure ∷ announced ∷ first_failure ∷ [])).status ≡ processing_failed
unfolding arrive apply_processing_outcome is_stale report failure_code_of is_name
late_failure_again = refl
