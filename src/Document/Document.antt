-- ===== src/Document/Document.antt =====
-- src/modules/document/domain/document.ts: a document, how it is created and restored, and its
-- transitions. A `Date` that passed `validDate` is kept as its time.
use n2f_nest.Prelude.{
  ℕ, ◌+◌, Bool, true, false, not, ◌&&◌, ◌||◌, Option, none, some, String, ltb, leb, ◌==◌,
  if◌then◌else◌, is_some, length, max,
}
use n2f_nest.Prelude.Maps.{◌===◌}
use n2f_nest.Shared.Errors.{Result, ok, err, Kind, Failure, failure, require, refuse, ◌>>=◌, ◌>>◌}
use n2f_nest.Shared.Numbers.{Number, is_safe_integer, at_least, to_nat, Version, unsaved}
use n2f_nest.Shared.Dates.{Time, Date, not_a_date, time}
use n2f_nest.Shared.Text.{Text, text_eq, is_name, trim}
use n2f_nest.Shared.Values.{Value, undefined, null, string}
use n2f_nest.Shared.Ids.{Identifier}

-- DOCUMENT_STATUSES
pub data DocumentStatus : Type 0 where
  active processing processed processing_failed archived : DocumentStatus

-- The results of a processing run, with what comes with a failure.
pub data Report : Type 0 where
  retrying succeeded : Report
  failed : Value → Report

pub record ProcessingOutcome : Type 0 where
  pub run : Identifier
  pub attempt : Number
  pub result : Report

-- DocumentState
pub record Document : Type 0 where
  pub id : Identifier
  pub organization_id : Identifier
  pub name : Text
  pub storage_key : Option Text
  pub status : DocumentStatus
  pub processing_failure_code : Option Text
  pub processing_run : Option Identifier
  pub processing_attempt : ℕ
  pub created_at : Time
  pub updated_at : Time
  pub archived_at : Option Time
  pub version : Version

abbrev pub invalid : String → Failure
invalid t = failure Kind.invalid t

-- From one to `most` units.
abbrev pub is_sized : ℕ → Text → Bool
is_sized most s = leb 1 (length s) && leb (length s) most

unfoldable pub name_of : Value → Result Text
name_of (string s) =
    if is_sized 200 (trim s) then ok (trim s) else err (invalid "document.invalid_name")
name_of _ = err (invalid "document.invalid_name")

unfoldable pub storage_key_of : Value → Result (Option Text)
storage_key_of undefined = ok none
storage_key_of null = ok none
storage_key_of (string s) =
    if is_sized 512 (trim s)
    then ok (some (trim s))
    else err (invalid "document.invalid_storage_key")
storage_key_of _ = err (invalid "document.invalid_storage_key")

unfoldable pub failure_code_of : Value → Result (Option Text)
failure_code_of undefined = ok none
failure_code_of null = ok none
failure_code_of (string s) =
    if is_name 127 s then ok (some s) else err (invalid "document.invalid_processing_failure_code")
failure_code_of _ = err (invalid "document.invalid_processing_failure_code")

-- `validDate(value)`, with the failure of the caller, and the time of the date.
abbrev pub valid_time : Date → String → Result Time
valid_time not_a_date e = err (invalid e)
valid_time (time t) e = ok t

pub record CreateDocumentInput : Type 0 where
  pub id : Identifier
  pub organization_id : Identifier
  pub name : Value
  pub storage_key : Value
  pub created_at : Date

unfoldable pub create : CreateDocumentInput → Result Document
create i = do
  name ← name_of i.name
  storage_key ← storage_key_of i.storage_key
  created_at ← valid_time i.created_at "document.invalid_created_at"
  ok (record {
    id = i.id;
    organization_id = i.organization_id;
    name = name;
    storage_key = storage_key;
    status = active;
    processing_failure_code = none;
    processing_run = none;
    processing_attempt = 0;
    created_at = created_at;
    updated_at = created_at;
    archived_at = none;
    version = unsaved;
  })

unfoldable pub saved : Document → Document
saved d = record d { version = d.version + 1 }

abbrev pub is_archived : DocumentStatus → Bool
is_archived archived = true
is_archived _ = false

abbrev pub is_processing : DocumentStatus → Bool
is_processing processing = true
is_processing _ = false

abbrev pub is_processed : DocumentStatus → Bool
is_processed processed = true
is_processed _ = false

abbrev pub is_active : DocumentStatus → Bool
is_active active = true
is_active _ = false

abbrev pub is_failed : DocumentStatus → Bool
is_failed processing_failed = true
is_failed _ = false

-- `this.state.processingRun === run`
abbrev pub is_run : Option Identifier → Identifier → Bool
is_run none run = false
is_run (some r) run = r === run

unfoldable pub archive : Document → Date → Result Document
archive d at = do
  t ← valid_time at "document.invalid_archived_at"
  refuse (ltb t d.updated_at) (invalid "document.non_monotonic_time")
  refuse (is_archived d.status) (invalid "document.already_archived")
  ok (record d { status = archived; updated_at = t; archived_at = some t })

unfoldable pub begin_processing : Document → Date → Identifier → Result Document
begin_processing d at run = do
  t ← valid_time at "document.invalid_processing_started_at"
  refuse (ltb t d.updated_at) (invalid "document.non_monotonic_time")
  refuse (is_archived d.status) (invalid "document.archived")
  if is_processing d.status && is_run d.processing_run run
      then ok d
      else (refuse (is_processed d.status) (invalid "document.already_processed")
          >> ok (record d {
            status = processing;
            processing_failure_code = none;
            processing_run = some run;
            processing_attempt = 0;
            updated_at = t;
          }))

-- `sameRun`
abbrev pub same_run : Document → Identifier → Bool
same_run d run =
    is_run d.processing_run run || (not (is_some d.processing_run) && is_processing d.status)

-- The outcomes that are ignored.
unfoldable pub is_stale : Document → Identifier → ℕ → Bool
is_stale d run attempt =
    is_archived d.status
    || is_active d.status
    || is_processed d.status
    || not (same_run d run)
    || ltb attempt d.processing_attempt

-- The `switch` on the result, over `base`.
unfoldable pub report : Document → ℕ → Document → Report → Result Document
report d attempt base succeeded =
    ok (record base { status = processed; processing_failure_code = none })
report d attempt base retrying =
    if is_processing d.status
    then (if attempt == d.processing_attempt then ok d else ok base)
    else ok (record base { status = processing; processing_failure_code = none })
report d attempt base (failed code) = elim (failure_code_of code) [
  | err e ↦ err (invalid "document.invalid_processing_failure_code")
  | ok none ↦ err (invalid "document.invalid_processing_failure_code")
  | ok (some c) ↦
      if is_failed d.status && attempt == d.processing_attempt
      then ok d
      else ok (record base { status = processing_failed; processing_failure_code = some c })
]

unfoldable pub apply_processing_outcome : Document → Date → ProcessingOutcome → Result Document
apply_processing_outcome d at outcome = do
  t ← valid_time at "document.invalid_processing_outcome"
  require (is_safe_integer outcome.attempt && at_least 0 outcome.attempt)
      (invalid "document.invalid_processing_outcome")
  let attempt = to_nat outcome.attempt
  if is_stale d outcome.run attempt
      then ok d
      else report d attempt
          (record d {
            processing_run = some outcome.run;
            processing_attempt = attempt;
            updated_at = max t d.updated_at;
          })
          outcome.result
