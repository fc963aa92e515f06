-- ===== src/Http.antt =====
-- The checks of a request and the answers to errors: requireAuth, handleError and requirePathID of
-- backend/internal/app/helpers.go. The hash of tokens, the table of sessions and the mode of a workspace are arguments; an answer is its status and
-- its code, without the text for people. No operation of the wiki returns store.ErrUnauthorized.
pub mod Access
use viki.Prelude.{
  ℕ, ◌≡◌, Bool, true, false, not, ◌&&◌, ◌||◌, Option, none, some, [], Text, codes, text_eq,
  has_prefix, is_empty, trim_space, if◌then◌else◌, Result, ok, err, ◌>>=◌, ◌>>◌, reject_if,
}
use viki.Model.{Uuid}
use viki.Pages.{InputError}
use viki.Governance.{
  PolicyError, objection_reason_required, unresolved_objection, parent_feature_not_approved,
}
use viki.Changes.{ShapeError, content_error}
use viki.Wiki.State.{
  Error, read_only, not_found, conflict, duplicate_slug, invalid_hierarchy, invalid_reference,
  input, policy, shape,
}

pub record Session : Type 0 where
  pub user : Uuid
  pub organization : Uuid
  pub csrf_hash : Text

pub record Request : Type 0 where
  pub method : Text
  pub path : Text
  pub session_cookie : Option Text
  pub csrf_cookie : Option Text
  pub csrf_header : Text

-- A status with the code of writeError.
pub record Answer : Type 0 where
  pub status : ℕ
  pub code : Text

abbrev answer : ℕ → Text → Answer
answer status code = record { status = status; code = code }

abbrev policy_answer : PolicyError → Answer
policy_answer objection_reason_required = answer 422 (codes "objection_reason_required")
policy_answer unresolved_objection = answer 409 (codes "unresolved_objection")
policy_answer parent_feature_not_approved = answer 409 (codes "parent_feature_not_approved")

abbrev request_failed : Answer
request_failed = answer 422 (codes "request_failed")

abbrev invalid_page : Answer
invalid_page = answer 422 (codes "invalid_page")

-- store.ErrInvalidHierarchy is the only error of validatePageInput that errors.Is finds.
abbrev input_answer : InputError → Answer
input_answer InputError.invalid_hierarchy = invalid_page
input_answer _ = request_failed

abbrev shape_answer : ShapeError → Answer
shape_answer (content_error _ e) = input_answer e
shape_answer _ = request_failed

unfoldable pub handle_error : Error → Answer
handle_error read_only = answer 403 (codes "git_managed_read_only")
handle_error not_found = answer 404 (codes "not_found")
handle_error conflict = answer 409 (codes "revision_conflict")
handle_error duplicate_slug = answer 409 (codes "duplicate_slug")
handle_error invalid_hierarchy = invalid_page
handle_error invalid_reference = invalid_page
handle_error (policy e) = policy_answer e
handle_error (input e) = input_answer e
handle_error (shape e) = shape_answer e
handle_error _ = request_failed

abbrev pub unauthorized : Answer
unauthorized = answer 401 (codes "unauthorized")

abbrev pub csrf_failed : Answer
csrf_failed = answer 403 (codes "csrf_failed")

abbrev is_get : Text → Bool
is_get m = text_eq m (codes "GET")

-- The methods that need no CSRF token.
abbrev pub is_safe : Text → Bool
is_safe m = is_get m || text_eq m (codes "HEAD") || text_eq m (codes "OPTIONS")

-- A request that changes the specifications of a workspace.
abbrev pub writes_specification : Request → Bool
writes_specification r =
    not (is_get r.method)
    && (has_prefix r.path (codes "/api/v1/pages")
        || has_prefix r.path (codes "/api/v1/revisions")
        || has_prefix r.path (codes "/api/v1/comments")
        || has_prefix r.path (codes "/api/v1/objections"))

abbrev pub cookie_value : Option Text → Text
cookie_value none = []
cookie_value (some v) = v

abbrev pub value_matches : Option Text → Text → Bool
value_matches none header = false
value_matches (some v) header = text_eq v header

module _ (hash_token : Text → Text) (session_by_hash : Text → Option Session)
    (managed : Uuid → Result Error Bool) where
  abbrev pub find_session : Text → Result Answer Session
  find_session token = elim (session_by_hash (hash_token token)) [
    | none ↦ err unauthorized
    | some s ↦ ok s
  ]

  abbrev pub csrf_matches : Request → Session → Bool
  csrf_matches r s =
      not (is_empty r.csrf_header)
      && value_matches r.csrf_cookie r.csrf_header
      && text_eq s.csrf_hash (hash_token r.csrf_header)

  abbrev pub refuse_managed : Result Error Bool → Result Answer (Unit {0})
  refuse_managed (err e) = err (handle_error e)
  refuse_managed (ok b) = reject_if b (handle_error read_only)

  -- The session of a request that may go on.
  unfoldable pub require_auth : Request → Result Answer Session
  require_auth r = do
    reject_if (is_empty (cookie_value r.session_cookie)) unauthorized
    s ← find_session (cookie_value r.session_cookie)
    reject_if (not (is_safe r.method) && not (csrf_matches r s)) csrf_failed
    if writes_specification r then refuse_managed (managed s.organization) else ok tt
    ok s

unfoldable pub require_path_id : Text → Result Answer Text
unfolding trim_space
require_path_id value = do
  let trimmed = trim_space value
  reject_if (is_empty trimmed) (answer 400 (codes "missing_id"))
  ok trimmed
