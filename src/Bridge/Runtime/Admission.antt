-- ===== src/Bridge/Runtime/Admission.antt =====
-- The first half of `ServeHTTP` of bridge/runtime.go: the request, its signed authorization, the
-- checks of `validAuthorization` and the callback.
pub mod Checks
pub mod Validity
use lotor_go.Common.{
  ℕ, zero, suc, ◌+◌, ◌*◌, ◌^◌, Bool, true, false, not, ◌&&◌, ◌||◌, Option, none, some, List, [],
  ◌∷◌, ◌++◌, ltb, leb, ◌==◌, if◌then◌else◌, length, all,
}
use lotor_go.Common.Bytes.{Bytes, ascii, bytes_eq}
use lotor_go.Common.Int.{ℤ, pos, ltz, lez, eqz, sub64}
use lotor_go.Bridge.Platform.{Function, SignedMessage, Authorization, Result, Platform}
use lotor_go.Bridge.Protocol.{
  Error, unavailable, conflict, in_progress, protocol_version, maximum_input_bytes,
  maximum_body_bytes, identifier, is_digest, strict_json, verify_authorization, sign_result,
}
use lotor_go.Bridge.Journal.{Journal, Reserved, fresh, stored, refused}
use lotor_go.Bridge.Runtime.{
  Ran, returned, failed, panicked, Handler, Config, Runtime, find_handler, scope_eq,
}

pub record Request : Type 0 where
  pub path : Bytes
  pub method : Bytes
  -- the media type of the header, `none` where `mime.ParseMediaType` fails
  pub content_type : Option Bytes
  pub raw_query : Bytes
  pub body : Bytes
  pub body_fails : Bool

-- What `Config.Authorize` answers.
pub data Answer : Type 0 where
  granted unreachable denied : Answer

-- What a request meets outside this code: clock readings in order, cancelled contexts, the
-- callback's answer, and the faults of the two calls of the journal.
pub record Env (F : Type 0) : Type 0 where
  pub valid_now : ℤ
  pub first_now : ℤ
  pub result_now : ℤ
  pub second_now : ℤ
  pub done_now : ℤ
  pub first_cancelled : Bool
  pub second_cancelled : Bool
  pub cancelled_before : Bool
  pub cancelled_after : Bool
  pub answer : Answer
  pub reserve_fault : F
  pub complete_fault : F

-- `crashed` is a nil dereference, which the server recovers.
pub data Response : Type 0 where
  failure : ℕ → Bytes → Response
  success : SignedMessage → Response
  crashed : Response

-- A stage stops with a response or goes on.
pub data Stage {ℓ} (A : Type ℓ) : Type ℓ where
  stop : Response → Stage A
  go : A → Stage A

infixl 5 ◌>>=◌ ◌>>◌
abbrev pub ◌>>=◌ {ℓ κ} : {A : Type ℓ} {B : Type κ} → Stage A → (A → Stage B) → Stage B
stop r >>= f = stop r
go a >>= f = f a

abbrev pub ◌>>◌ {ℓ} : {B : Type ℓ} → Stage (Unit {0}) → Stage B → Stage B
m >> k = m >>= λ _. k

abbrev pub require : Bool → Response → Stage (Unit {0})
require true r = go tt
require false r = stop r

abbrev pub found {ℓ} : {A : Type ℓ} → Option A → Response → Stage A
found none r = stop r
found (some a) r = go a

abbrev pub challenge_path : Bytes
challenge_path = ascii "/v1/functions/challenge"

abbrev pub invoke_path : Bytes
invoke_path = ascii "/v1/functions/invoke"

abbrev pub unauthorized_response : Response
unauthorized_response = failure 401 (ascii "unauthorized")

abbrev pub invalid_response : Response
invalid_response = failure 400 (ascii "invalid_request")

is_json : Option Bytes → Bool
is_json none = false
is_json (some t) = bytes_eq t (ascii "application/json")

body_limit : Bytes → ℕ
body_limit path = if bytes_eq path challenge_path then 64 * 2 ^ 10 else maximum_body_bytes

-- A map from key identifiers to keys.
unfoldable pub find_key : Bytes → List (Bytes × Bytes) → Option Bytes
find_key id [] = none
find_key id ((j, key) ∷ m) = if bytes_eq j id then some key else find_key id m

unfoldable pub is_none {ℓ} : {A : Type ℓ} → Option A → Bool
is_none none = true
is_none (some a) = false

-- `sort` of challenge: nothing but a nonce.
unfoldable pub valid_challenge : Authorization → Bool
unfolding is_none
valid_challenge a =
    bytes_eq a.kind (ascii "challenge")
    && (identifier a.nonce 256
        && (is_none a.function
            && (bytes_eq a.principal []
                && (length a.input == 0
                    && (bytes_eq a.input_digest []
                        && (bytes_eq a.policy_digest []
                            && (length a.resources == 0 && length a.capabilities == 0)))))))

unfoldable pub registered : Runtime → Option Function → Bool
unfolding is_none
registered runtime none = false
registered runtime (some f) = not (is_none (find_handler f runtime.functions))

-- The bounds of the resources and capabilities.
unfoldable pub valid_lists : Authorization → Bool
valid_lists a =
    not (ltb 128 (length a.resources) || ltb 64 (length a.capabilities))
    && (all (λ r. identifier r 256) a.resources && all (λ c. identifier c 256) a.capabilities)

-- The part of `validAuthorization` that both paths share.
unfoldable pub valid_static : Runtime → Authorization → ℤ → Bool
valid_static runtime a now =
    eqz a.protocol_version protocol_version
    && (identifier a.id 256
        && (bytes_eq a.issuer runtime.config.issuer
            && (bytes_eq a.audience runtime.config.audience
                && (bytes_eq a.binding_id runtime.config.binding_id
                    && (eqz a.binding_revision runtime.config.binding_revision
                        && (bytes_eq a.manifest_digest runtime.manifest_digest
                            && (scope_eq a.scope runtime.config.scope
                                && (ltz (pos 0) a.issued_at
                                    && (lez a.issued_at now
                                        && (ltz now a.expires_at
                                            && (ltz a.issued_at a.expires_at
                                                && lez (sub64 a.expires_at a.issued_at)
                                                    (pos 300))))))))))))

unfoldable pub grant_active : Bool → ℤ → Authorization → Bool
grant_active cancelled now a = not cancelled && ltz now a.expires_at

answered : Answer → Stage (Unit {0})
answered granted = go tt
answered unreachable = stop (failure 503 (ascii "authorization_unavailable"))
answered denied = stop unauthorized_response

module _ (platform : Platform) where
  open platform use {sha256_hex, json_valid, decode_message}

  unfoldable pub valid_invocation : Runtime → Authorization → Bool
  unfolding registered valid_lists
  valid_invocation runtime a =
      bytes_eq a.kind (ascii "invocation")
      && (bytes_eq a.nonce []
          && (identifier a.principal 256
              && (not (length a.input == 0)
                  && (leb (length a.input) maximum_input_bytes
                      && (json_valid a.input
                          && (bytes_eq a.input_digest (sha256_hex a.input)
                              && ((bytes_eq a.policy_digest [] || is_digest a.policy_digest)
                                  && (registered runtime a.function && valid_lists a))))))))

  unfoldable pub valid_authorization : Runtime → Authorization → Bytes → ℤ → Bool
  valid_authorization runtime a path now =
      valid_static runtime a now
      && (if bytes_eq path challenge_path then valid_challenge a else valid_invocation runtime a)

  -- Everything up to the signed message.
  unfoldable pub read_request : Request → Stage SignedMessage
  unfolding is_json body_limit
  read_request r = do
    require (bytes_eq r.path challenge_path || bytes_eq r.path invoke_path)
        (failure 404 (ascii "not_found"))
    require (bytes_eq r.method (ascii "POST")) (failure 405 (ascii "method_not_allowed"))
    require (is_json r.content_type && bytes_eq r.raw_query []) invalid_response
    require (not r.body_fails && leb (length r.body) (body_limit r.path)) invalid_response
    found (strict_json platform decode_message r.body) invalid_response

  -- The authorization with its bytes, checked up to the first `grantActive`.
  unfoldable pub authorize :
      {F : Type 0} → Runtime → Env F → Request → Stage (Authorization × Bytes)
  unfolding read_request answered
  authorize runtime env r = do
    message ← read_request r
    key ← found (find_key message.key_id runtime.config.trusted_keys) unauthorized_response
    (a, raw) ← found (verify_authorization platform message key) unauthorized_response
    require (valid_authorization runtime a r.path env.valid_now) unauthorized_response
    answered env.answer
    require (grant_active env.first_cancelled env.first_now a) unauthorized_response
    go (a, raw)
