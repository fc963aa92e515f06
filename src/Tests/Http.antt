-- ===== src/Tests/Http.antt =====
-- A save request with its cookies and its CSRF token.
use viki.Prelude.{
  ◌≡◌, ◌↔◌, refl, Bool, false, Option, none, some, Text, codes, Result, ok, text_eq, if◌then◌else◌,
}
use viki.Model.{Uuid}
use viki.Wiki.State.{Error}
use viki.Http.{Session, Request, require_auth}
use viki.Http.Access.{Access, require_auth-Access}

abbrev sample_session : Session
sample_session = record { user = 2; organization = 1; csrf_hash = codes "csrf" }

abbrev sample_hash : Text → Text
sample_hash t = t

abbrev sample_sessions : Text → Option Session
sample_sessions h = if text_eq h (codes "token") then some sample_session else none

abbrev never_managed : Uuid → Result Error Bool
never_managed _ = ok false

abbrev saving_request : Request
saving_request = record {
  method = codes "POST";
  path = codes "/api/v1/pages/7/revisions";
  session_cookie = some (codes "token");
  csrf_cookie = some (codes "csrf");
  csrf_header = codes "csrf";
}

require_auth-Access_example :
    (require_auth sample_hash sample_sessions never_managed saving_request ≡ ok sample_session)
    ↔ Access sample_hash sample_sessions never_managed saving_request sample_session
require_auth-Access_example =
    require_auth-Access sample_hash sample_sessions never_managed saving_request sample_session

request_passes :
    require_auth sample_hash sample_sessions never_managed saving_request ≡ ok sample_session
unfolding require_auth
request_passes = refl
