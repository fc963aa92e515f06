-- ===== src/Wiki/Create.antt =====
-- CreatePage of backend/internal/postgres/pages_write.go.
use viki.Prelude.{not, Option, none, some, Text, codes, Result, ok, ◌>>=◌, ◌>>◌, reject_if}
use viki.Model.{Uuid, PageKind, scenario, ConceptKind, RevisionContent}
use viki.Pages.{validate_page_input}
use viki.Pages.Slug.{is_slug}
use viki.Wiki.State.{
  Db, Page, Caller, Error, read_only, bad_slug, bad_scenario_slug, scenario_without_feature, input,
  as_error,
}
use viki.Wiki.Writes.{
  is_feature, repository_managed, audit, validate_parent, insert_page, insert_revision,
  set_latest_draft,
}

pub record InitialScenario : Type 0 where
  pub slug : Text
  pub content : RevisionContent

pub record CreatePageInput : Type 0 where
  pub kind : PageKind
  pub concept_kind : Option ConceptKind
  pub parent : Option Uuid
  pub slug : Text
  pub content : RevisionContent
  pub initial : Option InitialScenario

abbrev pub new_page : Caller → PageKind → Option ConceptKind → Option Uuid → Text → Page
new_page c kind concept_kind parent slug = record {
  organization = c.organization;
  kind = kind;
  concept_kind = concept_kind;
  parent = parent;
  slug = slug;
  approved = none;
  latest_draft = none;
  created_by = c.user;
  updated_at = c.now;
}

-- The insert of a page, of its first revision and of the pointer to it, which CreatePage writes out
-- for the page and for its initial scenario. The result is the page, the revision and the tables.
unfoldable pub create_draft : Caller → Page → RevisionContent → Db → Result Error (Uuid × Uuid × Db)
create_draft c p content db = insert_page p db >>= λ page.
    insert_revision c page.0 1 none content page.1 >>= λ revision.
    ok (page.0, revision.0, set_latest_draft page.0 revision.0 c.now revision.1)

-- A parent stands in while an initial scenario is validated, before its feature exists.
abbrev pending_parent : Option Uuid
pending_parent = some 0

abbrev pub check_initial : PageKind → Option InitialScenario → Result Error (Unit {0})
check_initial kind none = ok tt
check_initial kind (some i) = do
  reject_if (not (is_feature kind)) scenario_without_feature
  reject_if (not (is_slug i.slug)) bad_scenario_slug
  as_error input (validate_page_input scenario none pending_parent i.content)

abbrev pub create_initial : Caller → Uuid → Option InitialScenario → Db → Result Error Db
create_initial c feature_page none db = ok db
create_initial c feature_page (some i) db =
    create_draft c (new_page c scenario none (some feature_page) i.slug) i.content db >>= λ made.
    ok (audit c (codes "page.created") (codes "page") made.0 made.2)

unfoldable pub create_page : Caller → CreatePageInput → Db → Result Error (Uuid × Db)
create_page c i db = do
  reject_if (repository_managed db c.organization) read_only
  reject_if (not (is_slug i.slug)) bad_slug
  as_error input (validate_page_input i.kind i.concept_kind i.parent i.content)
  check_initial i.kind i.initial
  validate_parent c i.kind i.parent db
  made ← create_draft c (new_page c i.kind i.concept_kind i.parent i.slug) i.content db
  db' ←
      create_initial c made.0 i.initial
        (audit c (codes "page.created") (codes "page") made.0 made.2)
  ok (made.0, db')
