-- ===== src/Wiki/Writes.antt =====
-- The inserts that the operations share: insertRevision with its steps, definitions and references,
-- validateParent and audit of backend/internal/postgres/pages_write.go.
use viki.Prelude.{
  ℕ, ◌+◌, Bool, true, false, not, ◌&&◌, ◌||◌, Option, none, some, List, [], ◌∷◌, Text, text_eq,
  trim_space, is_empty, any, is_some, ◌==◌, if◌then◌else◌, Table, lookup, insert, adjust, Result,
  ok, err, ◌>>=◌, reject_if,
}
use viki.Model.{
  Uuid, PageKind, feature, scenario, RevisionStatus, draft, Keyword, StepRole, context, action,
  outcome, Step, PageReference, RevisionContent,
}
use viki.Pages.{role_of}
use viki.Pages.Render.{render_step_expression}
use viki.Wiki.State.{
  Db, Page, Revision, StepDefinition, Caller, Error, invalid_hierarchy, duplicate_slug,
  invalid_reference, role_mismatch, constraint_violated, nil_dereference, render, as_error,
}

abbrev pub is_draft : RevisionStatus → Bool
is_draft draft = true
is_draft _ = false

abbrev pub is_scenario : PageKind → Bool
is_scenario scenario = true
is_scenario _ = false

abbrev pub is_feature : PageKind → Bool
is_feature feature = true
is_feature _ = false

abbrev pub role_eq : StepRole → StepRole → Bool
role_eq context context = true
role_eq action action = true
role_eq outcome outcome = true
role_eq _ _ = false

-- gen_random_uuid(): the next identifier.
abbrev pub fresh : Db → Uuid
fresh db = db.uuid db.drawn

abbrev pub draw : Db → Db
draw db = record db { drawn = db.drawn + 1 }

-- repositoryManaged
unfoldable pub repository_managed : Db → Uuid → Bool
repository_managed db org = any (λ o. o == org) db.managed

unfoldable pub audit : Caller → Text → Text → Uuid → Db → Db
audit c act entity_type entity db = record db {
  audits =
      record {
        organization = c.organization;
        actor = c.user;
        action = act;
        entity_type = entity_type;
        entity = entity;
      }
      ∷ db.audits;
}

-- A page of the caller's organization.
unfoldable pub page_of : Caller → Uuid → Db → Option Page
page_of c id db = elim (lookup id db.pages) [
  | none ↦ none
  | some p ↦ if p.organization == c.organization then some p else none
]

unfoldable pub validate_parent : Caller → PageKind → Option Uuid → Db → Result Error (Unit {0})
unfolding page_of
validate_parent c kind parent db = if not (is_scenario kind) then ok tt else elim parent [
  | none ↦ err nil_dereference
  | some id ↦ elim (page_of c id db) [
    | none ↦ err invalid_hierarchy
    | some p ↦ reject_if (not (is_feature p.kind)) invalid_hierarchy
  ]
]

-- INSERT INTO pages: the slug is unique in the organization.
abbrev pub slug_taken : Uuid → Text → Table Page → Bool
slug_taken org slug = any (λ row. row.1.organization == org && text_eq row.1.slug slug)

unfoldable pub insert_page : Page → Db → Result Error (Uuid × Db)
insert_page p db =
    if is_some (lookup (fresh db) db.pages)
    then err constraint_violated
    else if slug_taken p.organization p.slug db.pages
    then err duplicate_slug
    else ok (fresh db, record (draw db) { pages = insert (fresh db) p db.pages })

-- The constraints of the table revisions: the number is new for its page, and the page has no other
-- draft.
abbrev pub revision_conflicts : Uuid → ℕ → Table Revision → Bool
revision_conflicts page number =
    any (λ row. row.1.page == page && (row.1.number == number || is_draft row.1.status))

unfoldable pub insert_draft :
    Caller → Uuid → ℕ → Option Uuid → RevisionContent → Db → Result Error (Uuid × Db)
insert_draft c page number base content db =
    if is_some (lookup (fresh db) db.revisions) || revision_conflicts page number db.revisions
    then err constraint_violated
    else ok (
      fresh db,
      record (draw db) {
        revisions =
            insert (fresh db)
              (record {
                page = page;
                number = number;
                status = draft;
                title = trim_space content.title;
                body_md = content.body_md;
                base = base;
                created_by = c.user;
                approved_at = none;
              })
              db.revisions;
      },
    )

-- The definition of an organization with a role and an expression.
unfoldable pub find_definition : Uuid → StepRole → Text → Table StepDefinition → Option Uuid
find_definition org role expression [] = none
find_definition org role expression ((id, d) ∷ rest) =
    if d.organization == org && role_eq d.role role && text_eq d.expression expression
    then some id
    else find_definition org role expression rest

-- INSERT INTO step_definitions ... ON CONFLICT DO UPDATE ... RETURNING id
unfoldable pub upsert_definition : Caller → StepRole → Text → Db → Result Error (Uuid × Db)
upsert_definition c role expression db =
    elim (find_definition c.organization role expression db.definitions) [
      | some id ↦ ok (id, db)
      | none ↦
          if is_empty expression || is_some (lookup (fresh db) db.definitions)
          then err constraint_violated
          else ok (
            fresh db,
            record (draw db) {
              definitions =
                  insert (fresh db)
                    (record {
                      organization = c.organization;
                      expression = expression;
                      role = role;
                      approved_at = none;
                    })
                    db.definitions;
            },
          )
    ]

abbrev or_else : Text → Text → Text
or_else a b = if is_empty a then b else a

abbrev stored_definition :
    Caller → StepRole → Uuid → Db → Option StepDefinition → Result Error (Uuid × Text × Db)
stored_definition c role id db none = err invalid_reference
stored_definition c role id db (some d) =
    if not (d.organization == c.organization)
    then err invalid_reference
    else if not (role_eq d.role role)
    then err role_mismatch
    else ok (id, d.expression, db)

-- The definition of a step, its expression, and the tables after it is stored.
unfoldable pub resolve_definition : Caller → StepRole → Step → Db → Result Error (Uuid × Text × Db)
unfolding upsert_definition
resolve_definition c role s db = elim s.definition_id [
  | some id ↦ stored_definition c role id db (lookup id db.definitions)
  | none ↦
      let expression = or_else (trim_space s.expression) (trim_space s.text) in
      upsert_definition c role expression db >>= λ r. ok (r.0, expression, r.1)
]

-- A stable identifier that does not parse is replaced by a new one.
abbrev pub stable : Option Uuid → Db → Uuid × Db
stable (some id) db = (id, db)
stable none db = (fresh db, draw db)

-- INSERT INTO bdd_steps
unfoldable pub store_step : Uuid → ℕ → Step → Uuid → Text → Uuid → Db → Db
store_step revision position s definition text stable_id db = record db {
  steps =
      record {
        revision = revision;
        stable_id = stable_id;
        position = position;
        keyword = s.keyword;
        definition = definition;
        arguments = s.arguments;
        text = text;
      }
      ∷ db.steps;
}

-- One round of the loop over the steps.
unfoldable pub insert_step : Caller → Uuid → ℕ → StepRole → Step → Db → Result Error Db
unfolding resolve_definition store_step
insert_step c revision position role s db = do
  found ← resolve_definition c role s db
  text ← as_error (render (position + 1)) (render_step_expression db.prints found.1 s.arguments)
  let named = stable s.stable_id found.2
  ok (store_step revision position s found.0 text named.0 named.1)

-- The loop over the steps; `before` holds the keywords already passed, the nearest first.
unfoldable pub insert_steps : Caller → Uuid → ℕ → List Keyword → List Step → Db → Result Error Db
unfolding insert_step
insert_steps c revision position before [] db = ok db
insert_steps c revision position before (s ∷ rest) db =
    insert_step c revision position (role_of (s.keyword ∷ before)) s db
    >>= insert_steps c revision (position + 1) (s.keyword ∷ before) rest

unfoldable pub insert_reference : Caller → Uuid → PageReference → Db → Result Error Db
unfolding page_of
insert_reference c revision ref db = elim ref.target_page_id [
  | none ↦ err invalid_reference
  | some target ↦
      let relation = trim_space ref.relation in
      if not (is_some (page_of c target db))
      then err invalid_reference
      else if any
          (λ row. row.revision == revision && row.target == target && text_eq row.relation relation)
          db.references
      then err constraint_violated
      else ok (record db {
        references =
            record { revision = revision; target = target; relation = relation } ∷ db.references;
      })
]

unfoldable pub insert_references : Caller → Uuid → List PageReference → Db → Result Error Db
unfolding insert_reference
insert_references c revision [] db = ok db
insert_references c revision (ref ∷ rest) db =
    insert_reference c revision ref db >>= insert_references c revision rest

-- insertRevision
unfoldable pub insert_revision :
    Caller → Uuid → ℕ → Option Uuid → RevisionContent → Db → Result Error (Uuid × Db)
insert_revision c page number base content db = insert_draft c page number base content db >>= λ r.
    insert_steps c r.0 0 [] content.steps r.1 >>= λ db1.
    insert_references c r.0 content.references db1 >>= λ db2. ok (r.0, db2)

-- UPDATE pages SET latest_draft_revision_id = $2, updated_at = now() WHERE id = $1
unfoldable pub set_latest_draft : Uuid → Uuid → ℕ → Db → Db
set_latest_draft page revision now db = record db {
  pages = adjust page (λ p. record p { latest_draft = some revision; updated_at = now }) db.pages;
}
