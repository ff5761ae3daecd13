-- ===== src/Document/Restore.antt =====
-- src/modules/document/domain/document.ts: restoring a document from its row.
use n2f_nest.Prelude.{Bool, false, not, ◌||◌, Option, none, some, is_some}
use n2f_nest.Shared.Errors.{Result, ok, refuse, ◌>>=◌, ◌>>◌}
use n2f_nest.Shared.Numbers.{Number, is_safe_integer, at_least, to_nat, is_stored_version}
use n2f_nest.Shared.Dates.{Time, Date, valid_date, before, to_time}
use n2f_nest.Shared.Text.{Text, text_eq}
use n2f_nest.Shared.Values.{Value, null, string}
use n2f_nest.Shared.Ids.{Identifier}
use n2f_nest.Document.Document.{
  Document, DocumentStatus, active, processing_failed, archived, invalid, name_of, storage_key_of,
  failure_code_of,
}

pub record RestoreDocumentInput : Type 0 where
  pub id : Identifier
  pub organization_id : Identifier
  pub name : Value
  pub storage_key : Value
  pub status : Option DocumentStatus
  pub processing_failure_code : Option Text
  pub processing_run : Option Identifier
  pub processing_attempt : Number
  pub created_at : Date
  pub updated_at : Date
  pub archived_at : Option Date
  pub version : Number

-- `value !== null && !validDate(value)`
abbrev pub invalid_nullable : Option Date → Bool
invalid_nullable none = false
invalid_nullable (some d) = not (valid_date d)

abbrev pub nullable_string : Option Text → Value
nullable_string none = null
nullable_string (some s) = string s

abbrev pub nullable_time : Option Date → Option Time
nullable_time none = none
nullable_time (some d) = some (to_time d)

abbrev pub status_or_active : Option DocumentStatus → DocumentStatus
status_or_active none = active
status_or_active (some s) = s

unfoldable pub invalid_fields : RestoreDocumentInput → Bool
invalid_fields i =
    not (is_some i.status)
    || not (valid_date i.created_at)
    || not (valid_date i.updated_at)
    || invalid_nullable i.archived_at
    || not (is_stored_version i.version)
    || not (is_safe_integer i.processing_attempt)
    || not (at_least 0 i.processing_attempt)

unfoldable pub invalid_lifecycle : DocumentStatus → Option Date → Option Text → Bool
invalid_lifecycle processing_failed archived_at code = is_some archived_at || not (is_some code)
invalid_lifecycle archived archived_at code = not (is_some archived_at)
invalid_lifecycle _ archived_at code = is_some archived_at || is_some code

unfoldable pub restore : RestoreDocumentInput → Result Document
restore i = do
  name ← name_of i.name
  storage_key ← storage_key_of i.storage_key
  code ← failure_code_of (nullable_string i.processing_failure_code)
  refuse (invalid_fields i) (invalid "document.invalid_state")
  refuse (before i.updated_at i.created_at) (invalid "document.non_monotonic_time")
  refuse (invalid_lifecycle (status_or_active i.status) i.archived_at code)
      (invalid "document.invalid_state")
  ok (record {
    id = i.id;
    organization_id = i.organization_id;
    name = name;
    storage_key = storage_key;
    status = status_or_active i.status;
    processing_failure_code = code;
    processing_run = i.processing_run;
    processing_attempt = to_nat i.processing_attempt;
    created_at = to_time i.created_at;
    updated_at = to_time i.updated_at;
    archived_at = nullable_time i.archived_at;
    version = to_nat i.version;
  })
