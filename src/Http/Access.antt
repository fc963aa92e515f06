-- ===== src/Http/Access.antt =====
-- Which requests are let through.
use viki.Assistant.Markers.{has_prefix_split, has_prefix_self}
use viki.Prelude.{
  ◌≡◌, ◌≢◌, refl, sym, ap, ◌↔◌, ◌⊎◌, inl, inr, Bool, true, false, not, ◌&&◌, ◌||◌, Bool-cases,
  Option, none, some, [], ◌∷◌, ◌++◌, length, drop, Text, codes, is_empty, has_prefix, text_eq,
  text_eq→≡, text_eq_refl, if◌then◌else◌, Result, ok, reject_if->>, >>=-eq-ok, ok-injective, arith,
}
use mathlib.Core.Path.{subst}
use viki.Model.{Uuid}
use viki.Wiki.State.{Error}
use viki.Http.{
  Session, Request, require_auth, is_safe, writes_specification, csrf_matches, csrf_failed,
  unauthorized, find_session, refuse_managed, cookie_value, value_matches,
}

-- The methods that change nothing.
abbrev pub ReadsOnly : Request → Type 0
ReadsOnly r = ((r.method ≡ codes "GET") ⊎ (r.method ≡ codes "HEAD")) ⊎ (r.method ≡ codes "OPTIONS")

abbrev pub StartsWith : Text → Text → Type 0
StartsWith text start = (rest : Text) × (text ≡ start ++ rest)

abbrev pub UnderSpecification : Text → Type 0
UnderSpecification path =
    ((StartsWith path (codes "/api/v1/pages") ⊎ StartsWith path (codes "/api/v1/revisions"))
      ⊎ StartsWith path (codes "/api/v1/comments"))
    ⊎ StartsWith path (codes "/api/v1/objections")

cookie_token : (o : Option Text) → is_empty (cookie_value o) ≡ false → o ≡ some (cookie_value o)
cookie_token none h = cc
cookie_token (some t) h = refl

is_empty-nonempty : (t : Text) → t ≢ [] → is_empty t ≡ false
is_empty-nonempty [] h = absurd (h refl)
is_empty-nonempty (c ∷ t) h = refl

nonempty : (t : Text) → is_empty t ≡ false → t ≢ []
nonempty [] h = cc
nonempty (c ∷ t) h = λ e. cc

text_eq_iff : (s t : Text) → (text_eq s t ≡ true) ↔ (s ≡ t)
text_eq_iff s t =
    (text_eq→≡ s t, λ same. subst (λ (u : Text). text_eq s u ≡ true) same (text_eq_refl s))

starts_iff : (text start : Text) → (has_prefix text start ≡ true) ↔ StartsWith text start
starts_iff text start = (
  λ h. (drop (length start) text, has_prefix_split text start h),
  λ (s : StartsWith text start).
      subst (λ (t : Text). has_prefix t start ≡ true) (sym s.1) (has_prefix_self start s.0),
)

or_iff : {P Q : Type 0} (a b : Bool) → (a ≡ true) ↔ P → (b ≡ true) ↔ Q → ((a || b) ≡ true) ↔ (P ⊎ Q)
or_iff true b p q = (λ h. inl (p.0 refl), λ h. refl)
or_iff false b p q = (λ h. inr (q.0 h), λ h. elim h [ inl x ↦ cc (p.1 x) | inr y ↦ q.1 y ])

and_not_iff :
    {P Q : Type 0} (a b : Bool)
    → (a ≡ true) ↔ P
    → (b ≡ true) ↔ Q
    → ((not a && b) ≡ true) ↔ ((P → ⊥) × Q)
and_not_iff true b p q = (λ h. cc, λ h. absurd (h.0 (p.0 refl)))
and_not_iff false b p q = (λ h. (λ x. cc (p.1 x), q.0 h), λ h. q.1 h.1)

is_safe_iff : (r : Request) → (is_safe r.method ≡ true) ↔ ReadsOnly r
is_safe_iff r =
    or_iff _ _
      (or_iff _ _ (text_eq_iff r.method (codes "GET")) (text_eq_iff r.method (codes "HEAD")))
      (text_eq_iff r.method (codes "OPTIONS"))

is_write_iff :
    (r : Request)
    → (writes_specification r ≡ true) ↔ ((r.method ≢ codes "GET") × UnderSpecification r.path)
is_write_iff r = and_not_iff _ _ (text_eq_iff r.method (codes "GET")) (
    or_iff _ _
      (or_iff _ _
        (or_iff _ _ (starts_iff r.path (codes "/api/v1/pages"))
          (starts_iff r.path (codes "/api/v1/revisions")))
        (starts_iff r.path (codes "/api/v1/comments")))
      (starts_iff r.path (codes "/api/v1/objections")))

value_matches_iff :
    (o : Option Text) (header : Text) → (value_matches o header ≡ true) ↔ (o ≡ some header)
value_matches_iff none header = (λ h. cc, λ h. cc)
value_matches_iff (some v) header =
    (λ h. ap some (text_eq→≡ v header h), λ h. (text_eq_iff v header).1 (cc))

module _ (hash_token : Text → Text) (session_by_hash : Text → Option Session)
    (managed : Uuid → Result Error Bool) where
  -- The CSRF token of the session, in a header and in a cookie.
  pub record CsrfToken (r : Request) (s : Session) : Type 0 where
    pub header : r.csrf_header ≢ []
    pub cookie : r.csrf_cookie ≡ some r.csrf_header
    pub hash : s.csrf_hash ≡ hash_token r.csrf_header

  -- What lets a request through.
  pub record Access (r : Request) (s : Session) : Type 0 where
    pub token : Text
    pub some_token : token ≢ []
    pub cookie : r.session_cookie ≡ some token
    pub live : session_by_hash (hash_token token) ≡ some s
    pub csrf : ReadsOnly r ⊎ CsrfToken r s
    pub unmanaged :
        r.method ≢ codes "GET" → UnderSpecification r.path → managed s.organization ≡ ok false

  session_found :
      (token : Text) (s : Session)
      → find_session hash_token session_by_hash managed token ≡ ok s
      → session_by_hash (hash_token token) ≡ some s
  session_found token s h = ground (arith, h)

  not_managed :
      (org : Uuid) {u : Unit {0}}
      → refuse_managed hash_token session_by_hash managed (managed org) ≡ ok u
      → managed org ≡ ok false
  not_managed org h = ground (arith, h)

  token_matches :
      (r : Request) (s : Session)
      → csrf_matches hash_token session_by_hash managed r s ≡ true
      → CsrfToken r s
  token_matches r s h = record {
    header = nonempty r.csrf_header (ground (arith, h));
    cookie = (value_matches_iff r.csrf_cookie r.csrf_header).0 (ground (arith, h));
    hash = text_eq→≡ s.csrf_hash (hash_token r.csrf_header) (ground (arith, h));
  }

  matches_token :
      (r : Request) (s : Session)
      → CsrfToken r s
      → csrf_matches hash_token session_by_hash managed r s ≡ true
  matches_token r s t =
      rw
        (
          is_empty-nonempty r.csrf_header t.header,
          (value_matches_iff r.csrf_cookie r.csrf_header).1 t.cookie,
          (text_eq_iff s.csrf_hash (hash_token r.csrf_header)).1 t.hash,
        )
        refl

  -- The test of methods and tokens.
  csrf_iff :
      (r : Request) (s : Session)
      → ((not (is_safe r.method) && not (csrf_matches hash_token session_by_hash managed r s))
          ≡ false)
        ↔ (ReadsOnly r ⊎ CsrfToken r s)
  csrf_iff r s = (
    λ h. elim (Bool-cases (is_safe r.method)) [
      | inl safe ↦ inl ((is_safe_iff r).0 safe)
      | inr unsafe ↦ inr (token_matches r s (ground (arith, h, unsafe)))
    ],
    λ h. elim h [
      | inl safe ↦ rw ((is_safe_iff r).1 safe) refl
      | inr token ↦ rw (matches_token r s token) (ground arith)
    ],
  )

  require_auth_if :
      (r : Request) (s : Session)
      → Access r s
      → require_auth hash_token session_by_hash managed r ≡ ok s
  unfolding require_auth
  require_auth_if r s a =
      let present : is_empty (cookie_value r.session_cookie) ≡ false =
        rw (a.cookie) (is_empty-nonempty a.token a.some_token) in
      let found : find_session hash_token session_by_hash managed (cookie_value r.session_cookie)
          ≡ ok s =
        rw (a.cookie) (rw (a.live, find_session) refl) in
      rw (present) (
        rw (found) (
          rw ((csrf_iff r s).1 a.csrf) (elim (Bool-cases (writes_specification r)) [
            | inl writes ↦
                let (other, under) = (is_write_iff r).0 writes in
                rw (writes) (rw (a.unmanaged other under) refl)
            | inr reads ↦ rw (reads) refl
          ])))

  require_auth_only :
      (r : Request) (s : Session)
      → require_auth hash_token session_by_hash managed r ≡ ok s
      → Access r s
  unfolding require_auth
  require_auth_only r s h0 =
      let (present, h1) =
        reject_if->> (is_empty (cookie_value r.session_cookie)) unauthorized _ h0 in
      let (t, found, h2) =
        >>=-eq-ok (find_session hash_token session_by_hash managed (cookie_value r.session_cookie))
          _ h1 in
      let (csrf, h3) =
        reject_if->>
          (not (is_safe r.method) && not (csrf_matches hash_token session_by_hash managed r t))
          csrf_failed _ h2 in
      let (_, opened, h4) =
        >>=-eq-ok
          (if writes_specification r
            then refuse_managed hash_token session_by_hash managed (managed t.organization)
            else ok tt)
          _ h3 in
      let same : t ≡ s = ok-injective h4 in
      subst (Access r) same (record {
        token = cookie_value r.session_cookie;
        some_token = nonempty _ present;
        cookie = cookie_token r.session_cookie present;
        live = session_found (cookie_value r.session_cookie) t found;
        csrf = (csrf_iff r t).0 csrf;
        unmanaged = λ other under.
            not_managed t.organization (rw ((is_write_iff r).1 (other, under)) at opened);
      })

  -- A request is let through, with a session, exactly when its cookie holds a token of that live
  -- session; its method is GET, HEAD or OPTIONS, or it carries the session's CSRF token in a header
  -- and in a cookie; and, unless the method is GET or the path is outside the specifications, the
  -- workspace is not managed in Git.
  pub require_auth-Access :
      (r : Request) (s : Session)
      → (require_auth hash_token session_by_hash managed r ≡ ok s) ↔ Access r s
  require_auth-Access r s = (require_auth_only r s, require_auth_if r s)
