-- ===== src/Document/Queries.antt =====
-- src/modules/document/app/queries, over the reader of infra/in-memory/reader.ts.
use n2f_nest.Prelude.{Bool, Option, List, select, ltb, ◌==◌, ◌||◌, ◌&&◌, ◌++◌}
use n2f_nest.Prelude.Maps.{get, values, ◌===◌}
use n2f_nest.Prelude.Ranked.{sort_by}
use n2f_nest.Shared.Errors.{Kind, failure, Failure, Result, map_error, ◌>>=◌}
use n2f_nest.Shared.Text.{Text, codes, text_eq}
use n2f_nest.Shared.Ids.{Identifier}
use n2f_nest.Shared.Pagination.{After, keyset_page}
use n2f_nest.Shared.Cursors.{Runtime, Page, position, request, window}
use n2f_nest.Organization.Access.{OrganizationAccessView}
use n2f_nest.Document.Failures.{dependency_failure}
use n2f_nest.Document.Document.{Document}
use n2f_nest.Document.Store.{DocumentStore}
use n2f_nest.Document.Commands.{document_in, member_of}

pub record GetDocumentQuery : Type 0 where
  pub session_token : Text
  pub organization_id : Identifier
  pub document_id : Identifier

pub record ListDocumentsQuery : Type 0 where
  pub session_token : Text
  pub organization_id : Identifier
  pub limit : Option Text
  pub cursor : Option Text

abbrev access_forbidden : Failure
access_forbidden = failure Kind.forbidden "document.access_forbidden"

abbrev pub key_of : Document → After
key_of d = record { at = d.created_at; id = d.id }

-- `comes_after` is `left.id.localeCompare(right.id) > 0`.
module _ (comes_after : Text → Text → Bool) where
  abbrev pub is_listed_later : After → After → Bool
  is_listed_later left right =
      ltb right.at left.at || ((left.at == right.at) && comes_after left.id right.id)

  -- `documentsForOrganization`
  unfoldable pub documents_for_organization : Identifier → DocumentStore → List Document
  documents_for_organization organization store =
      sort_by is_listed_later key_of
        (select (λ d. d.organization_id === organization) (values store))

module _ (runtime : Runtime) (comes_after : Text → Text → Bool)
    (find : Text → Identifier → Result (Option OrganizationAccessView)) where
  -- `GetDocument.execute`
  unfoldable pub get_document : GetDocumentQuery → DocumentStore → Result Document
  get_document query store = do
    view ← map_error (find query.session_token query.organization_id) dependency_failure
    access ← member_of access_forbidden view
    document_in query.organization_id (get query.document_id store)

  -- `ListDocuments.execute`
  unfoldable pub list_documents : ListDocumentsQuery → DocumentStore → Result (Page Document)
  list_documents query store = do
    let scope = codes "documents:" ++ query.organization_id
    page ←
        map_error (request runtime scope query.limit query.cursor)
          (λ e. failure Kind.invalid "document.invalid_page")
    view ← map_error (find query.session_token query.organization_id) dependency_failure
    access ← member_of access_forbidden view
    let rows = documents_for_organization comes_after query.organization_id store
    map_error
        (window runtime (keyset_page key_of rows page.limit page.start_after) page.limit scope
          (λ d. position runtime (key_of d)))
        dependency_failure
