-- ===== src/Browser/Request/Reply.antt =====
-- ServeHTTP and finishVerification of lotorhttp/browseradapter/adapter.go: what the browser is
-- answered, from the answer of Control and 32 random bytes.
pub mod Cookies
pub mod Sent
mod Tests
use lotor_go.Common.{
  ℕ, ◌+◌, ◌*◌, ◌^◌, ◌≡◌, Bool, true, false, not, ◌&&◌, ◌||◌, Option, none, some, List, [], ◌∷◌,
  ◌++◌, ltb, leb, ◌==◌, if◌then◌else◌, length,
}
use lotor_go.Common.Bytes.{Bytes, ascii, bytes_eq}
use lotor_go.Common.Results.{Result, ok, err, ◌>>=◌, ◌>>◌, require, found}
use lotor_go.Common.Text.{has_suffix, contains_text, trim_suffix}
use lotor_go.Browser.{Adapter, Library, EncryptionClaim, Verified, route_prefix, valid_value}
use lotor_go.Browser.Routes.{is_delete, resource_route}
use lotor_go.Browser.Request.{
  Incoming, Remote, session_name, csrf_name, claim_name, path_of, prepare,
}

-- The answer of Control, with its payload, `none` where reading it fails.
pub record Answer : Type 0 where
  pub status : ℕ
  pub payload : Option Bytes
  pub retry_after : Bytes
  pub claim_token : Bytes
  pub link_token : Bytes
  pub payload_token : Bytes
  pub execution_token : Bytes

-- How long the browser keeps a cookie: its session, not at all, or some seconds.
pub data Lifetime : Type 0 where
  session expired : Lifetime
  seconds : ℕ → Lifetime

-- `http.Cookie`; each has the same-site mode "strict".
pub record Cookie : Type 0 where
  pub name : Bytes
  pub value : Bytes
  pub path : Bytes
  pub secure : Bool
  pub http_only : Bool
  pub lifetime : Lifetime

-- The body of an answer: the fixed text of an error, what Control sent, or none.
pub data Content : Type 0 where
  rejected nothing : Content
  sent verified : Bytes → Content

pub record Response : Type 0 where
  pub status : ℕ
  pub cookies : List Cookie
  pub retry_after : Option Bytes
  pub content : Content

failed : ℕ → List Cookie → Response
failed status cookies = record {
  status = status;
  cookies = cookies;
  retry_after = none;
  content = rejected;
}

-- `cookie`, with `expire`, or with the lifetime that its caller sets.
cookie : Adapter → Bytes → Bytes → Bytes → Bool → Lifetime → Cookie
cookie a name value path http_only lifetime = record {
  name = name;
  value = value;
  path = path;
  secure = a.secure;
  http_only = http_only;
  lifetime = lifetime;
}

claim_path : Bytes
claim_path = route_prefix ++ ascii "/key-access/claims"

-- `clearCookies`
cleared : Adapter → List Cookie
unfolding cookie claim_path
cleared a =
    cookie a (session_name a) [] (ascii "/") true expired
    ∷ cookie a (csrf_name a) [] (ascii "/") false expired
    ∷ cookie a (claim_name a) [] claim_path true expired
    ∷ []

claim_required : Option EncryptionClaim → Bool
claim_required none = false
claim_required (some claim) = claim.required

claim_id : Option EncryptionClaim → Bytes
claim_id none = []
claim_id (some claim) = claim.id

read_payload : ℕ → Option Bytes → Option Bytes
read_payload limit none = none
read_payload limit (some payload) = if ltb limit (length payload) then none else some payload

-- The cookies of a session that Control has verified.
session_cookies : Adapter → Bytes → Bytes → Bool → Bytes → List Cookie
unfolding cookie claim_path
session_cookies a token random required claim =
    cookie a (session_name a) token (ascii "/") true session
    ∷ cookie a (csrf_name a) random (ascii "/") false session
    ∷ cookie a (claim_name a) (if required then claim else []) claim_path true
        (if required then session else expired)
    ∷ []

module _ (library : Library) where
  open library use {valid_cookie, json_valid, unmarshal_verified, encode_verified, base64_encode}

  valid_verified : Adapter → Verified → Bytes → Bool
  unfolding claim_required claim_id
  valid_verified a v claim =
      not (bytes_eq v.subject [])
      && (valid_value v.access_token
          && (valid_cookie (session_name a) v.access_token
              && (not (claim_required v.claim)
                  || (not (bytes_eq (claim_id v.claim) [])
                      && (valid_value claim && valid_cookie (claim_name a) claim)))))

  signed_in : Adapter → Verified → Bytes → Option Bytes → Response
  unfolding failed session_cookies claim_required
  signed_in a v claim none = failed 500 []
  signed_in a v claim (some random) = record {
    status = 200;
    cookies =
        session_cookies a v.access_token (base64_encode random) (claim_required v.claim) claim;
    retry_after = none;
    content = verified (encode_verified v.claim v.subject v.email);
  }

  -- `finishVerification`, with what the payload is decoded to.
  finish_verification : Adapter → Option Verified → Bytes → Option Bytes → Response
  unfolding failed valid_verified signed_in
  finish_verification a none claim random = failed 502 []
  finish_verification a (some v) claim random =
      if not (valid_verified a v claim) then failed 502 [] else signed_in a v claim random

  -- A token that a route hands to the browser as a cookie; the error has the cookies so far.
  token_cookie :
      Adapter → Bool → Bytes → Bytes → Bytes → ℕ → List Cookie → Result (List Cookie) (List Cookie)
  unfolding cookie
  token_cookie a false name token path ttl cookies = ok cookies
  token_cookie a true name token path ttl cookies = do
    require (valid_value token && valid_cookie name token) cookies
    ok (cookies ++ (cookie a name token path true (seconds ttl) ∷ []))

  link_cookie :
      Adapter → Bool → Incoming → Answer → List Cookie → Result (List Cookie) (List Cookie)
  unfolding token_cookie path_of
  link_cookie a native r answer cookies =
      token_cookie a (native && has_suffix (ascii "/links/preflight") (path_of r))
        (ascii "lotor_link_token") answer.link_token
        (trim_suffix (ascii "/preflight") r.escaped_path) 300 cookies

  payload_cookie :
      Adapter → Bool → Incoming → Answer → List Cookie → Result (List Cookie) (List Cookie)
  unfolding token_cookie path_of
  payload_cookie a native r answer cookies =
      token_cookie a
        (native
          && (contains_text (ascii "/payloads/") (path_of r)
              && has_suffix (ascii "/uploads") (path_of r)))
        (ascii "lotor_payload_token") answer.payload_token
        (trim_suffix (ascii "/uploads") r.escaped_path) 300 cookies

  execution_cookie :
      Adapter → Bool → Incoming → Answer → List Cookie → Result (List Cookie) (List Cookie)
  unfolding token_cookie path_of
  execution_cookie a native r answer cookies =
      token_cookie a (native && has_suffix (ascii "/executions/preflight") (path_of r))
        (ascii "lotor_execution_token") answer.execution_token
        (trim_suffix (ascii "/preflight") r.escaped_path) 30 cookies

  tokens_set : Adapter → Bool → Incoming → Answer → Result (List Cookie) (List Cookie)
  unfolding link_cookie payload_cookie execution_cookie
  tokens_set a native r answer = do
    link ← link_cookie a native r answer []
    payload ← payload_cookie a native r answer link
    execution_cookie a native r answer payload

  passed_on : ℕ → Bytes → Result (List Cookie) (List Cookie) → Response
  unfolding failed
  passed_on status payload (err cookies) = failed 502 cookies
  passed_on status payload (ok cookies) = record {
    status = status;
    cookies = cookies;
    retry_after = none;
    content = sent payload;
  }

  -- An answer of a status below 300, with its payload.
  accepted : Adapter → Bool → Incoming → Answer → Option Bytes → Bytes → Response
  unfolding path_of is_delete finish_verification cleared failed tokens_set passed_on
  accepted a native r answer random payload =
      if bytes_eq (path_of r) (ascii "/auth/passwordless/verify")
      then finish_verification a (unmarshal_verified payload) answer.claim_token random
      else if is_delete r.method && bytes_eq (path_of r) (ascii "/session")
      then record { status = 204; cookies = cleared a; retry_after = none; content = nothing }
      else if not (json_valid payload)
      then failed 502 []
      else passed_on answer.status payload (tokens_set a native r answer)

  judged : Adapter → Bool → Incoming → Answer → Option Bytes → Option Bytes → Response
  unfolding failed accepted
  judged a native r answer random none = failed 502 []
  judged a native r answer random (some payload) =
      if leb 300 answer.status && ltb answer.status 400
      then failed 502 []
      else if leb 400 answer.status
      then record (failed answer.status []) {
        retry_after = if ltb (length answer.retry_after) 128 then some answer.retry_after else none;
      }
      else accepted a native r answer random payload

  payload_limit : Bool → Incoming → ℕ
  unfolding path_of
  payload_limit native r =
      if native && contains_text (ascii "/event-streams/") (path_of r)
      then 6 * 2 ^ 20
      else 4 * 2 ^ 20

  answered : Adapter → Bool → Incoming → Option Bytes → Option Answer → Response
  unfolding failed judged read_payload payload_limit
  answered a native r random none = failed 502 []
  answered a native r random (some answer) =
      judged a native r answer random (read_payload (payload_limit native r) answer.payload)

  served :
      Adapter
      → (Remote → Option Answer)
      → Option Bytes
      → Incoming
      → Result ℕ Remote
      → List Remote
      → Response × List Remote
  unfolding failed answered
  served a control random r (err status) log = (failed status [], log)
  served a control random r (ok remote) log = (
    answered a (resource_route library r.method r.escaped_path) r random (control remote),
    remote ∷ log,
  )

  -- `ServeHTTP`, with the requests to Control so far.
  pub serve :
      Adapter
      → (Remote → Option Answer)
      → Option Bytes
      → Incoming
      → List Remote
      → Response × List Remote
  unfolding served
  serve a control random r log = served a control random r (prepare library a r) log
