-- ===== src/Document/Lifecycle.antt =====
-- The invariant of a document (src/modules/document/domain/document.ts), and its storage row.
use n2f_nest.Prelude.{ℕ, ◌≤◌, ◌≡◌, refl, true, Option, none, some, arith, is_some}
use n2f_nest.Shared.Errors.{Result, ok, Ensures}
use n2f_nest.Shared.Numbers.{Number, nat, max_safe_integer, is_stored_version}
use n2f_nest.Shared.Dates.{Time, Date, time}
use n2f_nest.Shared.Text.{Text, text_eq, is_name, trim}
use n2f_nest.Shared.Trimmed.{trim-trim}
use n2f_nest.Shared.Values.{Value, string}
use n2f_nest.Shared.Ids.{Identifier}
use n2f_nest.Document.Document.{
  Document, DocumentStatus, processing_failed, archived, Report, failed, ProcessingOutcome,
  is_sized, name_of, storage_key_of, failure_code_of, CreateDocumentInput, create, archive,
  begin_processing, is_stale, report, apply_processing_outcome,
}
use n2f_nest.Document.Restore.{
  RestoreDocumentInput, nullable_string, invalid_fields, invalid_lifecycle, restore,
}

-- Trimmed, and within its length.
pub record IsTrimmed (most : ℕ) (s : Text) : Type 0 where
  pub trimmed : trim s ≡ s
  pub sized : is_sized most s ≡ true

abbrev pub KeyIsValid : Option Text → Type 0
KeyIsValid none = Unit
KeyIsValid (some s) = IsTrimmed 512 s

abbrev pub CodeIsValid : Option Text → Type 0
CodeIsValid none = Unit
CodeIsValid (some s) = is_name 127 s ≡ true

-- What each status says of the archive time and of the failure code.
abbrev pub Shape : DocumentStatus → Option Time → Option Text → Type 0
Shape processing_failed archived_at code = (archived_at ≡ none) × (is_some code ≡ true)
Shape archived archived_at code = is_some archived_at ≡ true
Shape _ archived_at code = (archived_at ≡ none) × (code ≡ none)

pub record IsValid (d : Document) : Type 0 where
  pub name_valid : IsTrimmed 200 d.name
  pub key_valid : KeyIsValid d.storage_key
  pub code_valid : CodeIsValid d.processing_failure_code
  pub monotonic : d.created_at ≤ d.updated_at
  pub attempt_safe : d.processing_attempt ≤ max_safe_integer
  pub shape : Shape d.status d.archived_at d.processing_failure_code

trim-IsTrimmed : (most : ℕ) (s : Text) → is_sized most (trim s) ≡ true → IsTrimmed most (trim s)
trim-IsTrimmed most s h = record { trimmed = trim-trim s; sized = h }

name_of-valid : (v : Value) → Ensures (IsTrimmed 200) (name_of v)
unfolding name_of
name_of-valid (string s) = ground (arith, trim-IsTrimmed 200 s)
name_of-valid _ = ground arith

storage_key_of-valid : (v : Value) → Ensures KeyIsValid (storage_key_of v)
unfolding storage_key_of
storage_key_of-valid (string s) = ground (arith, trim-IsTrimmed 512 s)
storage_key_of-valid _ = ground arith

failure_code_of-valid : (v : Value) → Ensures CodeIsValid (failure_code_of v)
unfolding failure_code_of
failure_code_of-valid v = ground arith

-- A document that is created is valid.
pub create-IsValid : (i : CreateDocumentInput) → Ensures IsValid (create i)
unfolding create
create-IsValid i = ground (arith, name_of-valid i.name, storage_key_of-valid i.storage_key)

archive-IsValid : (d : Document) (at : Date) → IsValid d → Ensures IsValid (archive d at)
unfolding archive
archive-IsValid d at v = ground arith

begin_processing-IsValid :
    (d : Document) (at : Date) (run : Identifier)
    → IsValid d
    → Ensures IsValid (begin_processing d at run)
unfolding begin_processing
begin_processing-IsValid d at run v = ground arith

applied-IsValid :
    (d : Document) (at : Date) (run : Identifier) (n : Number) (r : Report)
    → IsValid d
    → Ensures IsValid
        (apply_processing_outcome d at (record { run = run; attempt = n; result = r }))
unfolding apply_processing_outcome report is_stale
applied-IsValid d at run n (failed c) v = ground (arith, failure_code_of-valid c)
applied-IsValid d at run n _ v = ground arith

apply-IsValid :
    (d : Document) (at : Date) (o : ProcessingOutcome)
    → IsValid d
    → Ensures IsValid (apply_processing_outcome d at o)
apply-IsValid d at o v = applied-IsValid d at o.run o.attempt o.result v

-- The transitions of a document.
pub data Step : Type 0 where
  archives : Date → Step
  begins : Date → Identifier → Step
  reports : Date → ProcessingOutcome → Step

unfoldable pub take_step : Document → Step → Result Document
take_step d (archives at) = archive d at
take_step d (begins at run) = begin_processing d at run
take_step d (reports at o) = apply_processing_outcome d at o

-- A transition of a valid document gives a valid document, if it gives one.
pub step-IsValid : (d : Document) (s : Step) → IsValid d → Ensures IsValid (take_step d s)
unfolding take_step
step-IsValid d (archives at) v = archive-IsValid d at v
step-IsValid d (begins at run) v = begin_processing-IsValid d at run v
step-IsValid d (reports at o) v = apply-IsValid d at o v

abbrev date_of : Option Time → Option Date
date_of none = none
date_of (some t) = some (time t)

-- The row that storage keeps of a document.
pub row : Document → RestoreDocumentInput
row d = record {
  id = d.id;
  organization_id = d.organization_id;
  name = string d.name;
  storage_key = nullable_string d.storage_key;
  status = some d.status;
  processing_failure_code = d.processing_failure_code;
  processing_run = d.processing_run;
  processing_attempt = nat d.processing_attempt;
  created_at = time d.created_at;
  updated_at = time d.updated_at;
  archived_at = date_of d.archived_at;
  version = nat d.version;
}

name_of-trimmed : (s : Text) → IsTrimmed 200 s → name_of (string s) ≡ ok s
unfolding name_of
name_of-trimmed s h = rw (h.trimmed, h.sized) refl

storage_key_of-trimmed :
    (s : Option Text) → KeyIsValid s → storage_key_of (nullable_string s) ≡ ok s
unfolding storage_key_of
storage_key_of-trimmed none h = refl
storage_key_of-trimmed (some s) h = rw (h.trimmed, h.sized) refl

failure_code_of-code :
    (s : Option Text) → CodeIsValid s → failure_code_of (nullable_string s) ≡ ok s
unfolding failure_code_of
failure_code_of-code none h = refl
failure_code_of-code (some s) h = rw h refl

-- A valid document at a stored version is restored from its row as it was.
pub restore-row :
    (d : Document)
    → IsValid d
    → 1 ≤ d.version
    → d.version ≤ max_safe_integer
    → restore (row d) ≡ ok d
unfolding restore row is_stored_version invalid_fields invalid_lifecycle
restore-row d v low high = ground (
  arith,
  name_of-trimmed d.name,
  storage_key_of-trimmed d.storage_key,
  failure_code_of-code d.processing_failure_code,
)

-- Whatever a row holds, what is restored from it is valid.
pub restored-IsValid : (i : RestoreDocumentInput) → Ensures IsValid (restore i)
unfolding restore invalid_fields invalid_lifecycle
restored-IsValid i = ground (
  arith,
  name_of-valid i.name,
  storage_key_of-valid i.storage_key,
  failure_code_of-valid (nullable_string i.processing_failure_code),
)
