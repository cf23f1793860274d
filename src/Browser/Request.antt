-- ===== src/Browser/Request.antt =====
-- ServeHTTP of lotorhttp/browseradapter/adapter.go: the checks of a browser's request, up to the
-- request to Control that it becomes. An absent header is empty, as `Header.Get` gives it.
pub mod Authority
pub mod Reply
use lotor_go.Common.{
  ℕ, zero, suc, ◌+◌, ◌*◌, ◌^◌, Bool, true, false, not, ◌&&◌, ◌||◌, Option, none, some, List, [],
  ◌∷◌, ◌++◌, ltb, leb, ◌==◌, if◌then◌else◌, length,
}
use lotor_go.Common.Bytes.{Bytes, ascii, bytes_eq}
use lotor_go.Common.Int.{ℤ, pos, ltz}
use lotor_go.Common.Results.{Result, ok, err, ◌>>=◌, ◌>>◌, require, found}
use lotor_go.Common.Text.{has_prefix, has_suffix, contains_text, trim_prefix, split_at}
use lotor_go.Browser.{Config, Adapter, Library, route_prefix, valid_value, equal}
use lotor_go.Browser.Routes.{is_get, is_post, is_delete, resource_route, valid_resource_query}

pub record Incoming : Type 0 where
  pub host : Bytes
  pub origin : Bytes
  pub fetch_site : Bytes
  pub publishable_key : Bytes
  pub csrf : Bytes
  pub content_type : Bytes
  pub lotor_request : Bytes
  pub idempotency : Bytes
  pub cookies : List (Bytes × Bytes)
  pub method : Bytes
  pub path : Bytes
  pub raw_path : Bytes
  -- `URL.EscapedPath()`
  pub escaped_path : Bytes
  pub raw_query : Bytes
  pub force_query : Bool
  pub content_length : ℤ
  -- `none` where reading the body fails
  pub body : Option Bytes

-- The tokens that some routes take from cookies.
pub record Tokens : Type 0 where
  pub claim : Option Bytes
  pub link : Option Bytes
  pub payload : Option Bytes
  pub execution : Option Bytes

-- The request to Control; a header that is not set is `none`.
pub record Remote : Type 0 where
  pub method : Bytes
  pub url : Bytes
  pub raw_query : Bytes
  pub body : Bytes
  pub tokens : Tokens
  pub secret_key : Option Bytes
  pub publishable_key : Bytes
  pub lotor_request : Bool
  pub idempotency : Option Bytes
  pub bearer : Option Bytes

abbrev pub session_name : Adapter → Bytes
session_name a = if a.secure then ascii "__Host-lotor_session" else ascii "lotor_dev_session"

abbrev pub csrf_name : Adapter → Bytes
csrf_name a = if a.secure then ascii "__Host-lotor_csrf" else ascii "lotor_dev_csrf"

abbrev pub claim_name : Adapter → Bytes
claim_name a =
    if a.secure then ascii "__Secure-lotor_key_claim_token" else ascii "lotor_key_claim_token"

cookies_named : Bytes → List (Bytes × Bytes) → List Bytes
cookies_named name [] = []
cookies_named name ((n, value) ∷ cookies) =
    let rest = cookies_named name cookies in if bytes_eq n name then value ∷ rest else rest

only_one : List Bytes → Bytes
only_one (value ∷ []) = value
only_one _ = []

-- `cookieValue`
pub cookie_value : List (Bytes × Bytes) → Bytes → Bytes
unfolding cookies_named only_one
cookie_value cookies name = only_one (cookies_named name cookies)

-- The route behind the prefix.
pub path_of : Incoming → Bytes
path_of r = trim_prefix route_prefix r.path

-- The routes that are no resources.
pub plain_route : Incoming → Bool
unfolding path_of is_get is_post is_delete
plain_route r =
    bytes_eq r.path (route_prefix ++ path_of r)
    && ((is_get r.method
          && (bytes_eq (path_of r) (ascii "/configuration")
              || (bytes_eq (path_of r) (ascii "/pricing")
                  || bytes_eq (path_of r) (ascii "/session"))))
        || ((is_post r.method
              && (bytes_eq (path_of r) (ascii "/auth/passwordless/start")
                  || bytes_eq (path_of r) (ascii "/auth/passwordless/verify")))
            || (is_delete r.method && bytes_eq (path_of r) (ascii "/session"))))

-- The host, the origin and the fetch site are the adapter's own.
pub same_origin : Adapter → Incoming → Bool
same_origin a r =
    bytes_eq r.host a.host
    && ((bytes_eq r.origin [] || bytes_eq r.origin a.config.browser_origin)
        && (bytes_eq r.fetch_site [] || bytes_eq r.fetch_site (ascii "same-origin")))

-- The limit of a body, each later rule in place of the ones before it.
pub body_limit : Bool → Incoming → ℕ
unfolding is_post path_of
body_limit native r =
    if native && has_suffix (ascii "/executions/commit") (path_of r)
    then 4 * 2 ^ 20
    else if native
        && (is_post r.method
            && (contains_text (ascii "/event-streams/") (path_of r)
                && has_suffix (ascii "/events") (path_of r)))
    then 6 * 2 ^ 20
    else if native
        && (is_post r.method
            && (contains_text (ascii "/event-streams/") (path_of r)
                && has_suffix (ascii "/queries") (path_of r)))
    then 256 * 2 ^ 10
    else 64 * 2 ^ 10

-- `http.MaxBytesReader`
read_body : ℕ → Option Bytes → Option Bytes
read_body limit none = none
read_body limit (some body) = if ltb limit (length body) then none else some body

-- `strings.Split(s, ";")[0]`
first_part : List Bytes → Bytes
first_part [] = []
first_part (p ∷ parts) = p

-- A header that takes its value from a cookie, where the route needs it.
token_of : Bool → Bytes → Result ℕ (Option Bytes)
token_of false token = ok none
token_of true token = do require (valid_value token) 401; ok (some token)

idempotency_of : Bytes → Result ℕ (Option Bytes)
idempotency_of key =
    if bytes_eq key [] then ok none else (do require (valid_value key) 400; ok (some key))

pub bearer_of : Bool → Bytes → Option Bytes
bearer_of may_use token = if not may_use || bytes_eq token [] then none else some token

tokens_of : Adapter → Bool → Incoming → Result ℕ Tokens
unfolding token_of path_of cookie_value
tokens_of a native r = do
  claim ←
      token_of (native && has_prefix (ascii "/key-access/claims/") (path_of r))
        (cookie_value r.cookies (claim_name a))
  link ←
      token_of (native && has_suffix (ascii "/links/commit") (path_of r))
        (cookie_value r.cookies (ascii "lotor_link_token"))
  payload ←
      token_of
        (native
          && (contains_text (ascii "/payloads/") (path_of r)
              && has_suffix (ascii "/commits") (path_of r)))
        (cookie_value r.cookies (ascii "lotor_payload_token"))
  execution ←
      token_of (native && has_suffix (ascii "/executions/commit") (path_of r))
        (cookie_value r.cookies (ascii "lotor_execution_token"))
  ok (record { claim = claim; link = link; payload = payload; execution = execution })

-- The URL at Control.
pub remote_url : Adapter → Incoming → Bytes
remote_url a r =
    a.config.api_url
    ++ (ascii "/v1/public/applications/"
        ++ (a.config.client_id ++ trim_prefix route_prefix r.escaped_path))

-- The request to Control, with its headers.
outgoing : Adapter → Bool → Incoming → Bytes → Tokens → Option Bytes → Remote
unfolding remote_url path_of bearer_of cookie_value
outgoing a native r body tokens idempotency = record {
  method = r.method;
  url = remote_url a r;
  raw_query = r.raw_query;
  body = body;
  tokens = tokens;
  secret_key = if native then none else some a.config.secret_key;
  publishable_key = a.config.publishable_key;
  lotor_request = bytes_eq r.lotor_request (ascii "lotor-js-v1");
  idempotency = idempotency;
  bearer =
      bearer_of (bytes_eq (path_of r) (ascii "/session") || native)
        (cookie_value r.cookies (session_name a));
}

module _ (library : Library) where
  open library use {valid_request, json_valid}

  valid_body : Bool → Incoming → Bytes → Bool
  unfolding is_post path_of first_part
  valid_body native r body =
      not (is_post r.method)
      || ((native && (has_prefix (ascii "/me/invitations/") (path_of r) && length body == 0))
          || (bytes_eq (first_part (split_at b';' r.content_type)) (ascii "application/json")
              && json_valid body))

  -- The checks that come before the body is read.
  admitted : Adapter → Bool → Incoming → Result ℕ (Unit {0})
  unfolding is_get is_delete plain_route cookie_value same_origin
  admitted a native r = do
    require (same_origin a r) 403
    require (equal r.publishable_key a.config.publishable_key) 401
    require (bytes_eq r.raw_path [] || native) 400
    require (valid_resource_query library r.method r.path r.raw_query && not r.force_query) 400
    require (plain_route r || native) 404
    require (is_get r.method || bytes_eq r.origin a.config.browser_origin) 403
    require
        (not (is_delete r.method || (native && not (is_get r.method)))
          || equal (cookie_value r.cookies (csrf_name a)) r.csrf)
        403
    require (not native || not (bytes_eq (cookie_value r.cookies (session_name a)) [])) 401
    ok tt

  forwarded : Adapter → Bool → Incoming → Bytes → Result ℕ Remote
  unfolding remote_url tokens_of idempotency_of outgoing
  forwarded a native r body = do
    require (valid_request r.method (remote_url a r)) 502
    tokens ← tokens_of a native r
    idempotency ← idempotency_of r.idempotency
    ok (outgoing a native r body tokens idempotency)

  -- Up to the call of Control, with whether the route is one of resources; the error is a status.
  prepared : Adapter → Bool → Incoming → Result ℕ Remote
  unfolding admitted body_limit read_body valid_body forwarded
  prepared a native r = do
    passed ← admitted a native r
    require (not (ltz (pos (body_limit native r)) r.content_length)) 413
    body ← found (read_body (body_limit native r) r.body) 413
    require (valid_body native r body) 400
    forwarded a native r body

  pub prepare : Adapter → Incoming → Result ℕ Remote
  unfolding prepared
  prepare a r = prepared a (resource_route library r.method r.escaped_path) r
