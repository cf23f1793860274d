-- ===== src/Gateway/Verifier.antt =====
-- GatewayAssertionVerifier and GatewayAssertionMiddleware of lotorhttp/gateway_assertion.go. The
-- replay store is the deployment's: `ReplayStore` is its interface, with what it promises.
pub mod Binding
pub mod Replay
pub mod Skew
mod Tests
use lotor_go.Common.{
  ℕ, ◌+◌, ◌*◌, ◌^◌, ◌≡◌, Bool, true, false, not, ◌&&◌, ◌||◌, Option, none, some, List, [], ◌∷◌, ltb,
  leb, ◌==◌, if◌then◌else◌, length, all,
}
use lotor_go.Common.Bytes.{Bytes, ascii, bytes_eq}
use lotor_go.Common.Int.{ℤ, pos, ltz}
use lotor_go.Common.Options.{guard, ◌>>=◌, ◌>>◌}
use lotor_go.Gateway.{
  Claims, Authority, GatewayRequest, Library, instant, token, valid_authority, valid_request,
  valid_claims,
}

-- What `Consume` returns.
pub data Consumed : Type 0 where
  first again failed : Consumed

-- `consume now id end`: the store's clock, the request id, and the end of its observation.
pub record ReplayStore (S F : Type 0) : Type 1 where
  pub consume : F → ℤ → Bytes → ℤ → S → Consumed × S
  -- an observation that the store has made
  pub Held : Bytes → ℤ → S → Type 0
  pub first_held :
      (f : F) (now : ℤ) (id : Bytes) (end : ℤ) (s : S)
      → (consume f now id end s).0 ≡ first
      → Held id end (consume f now id end s).1
  -- true only for the first observation through its end
  pub first_new :
      (f : F) (now : ℤ) (id : Bytes) (end before : ℤ) (s : S)
      → (consume f now id end s).0 ≡ first
      → Held id before s
      → ltz before now ≡ true
  pub consume_keeps :
      (f : F) (now : ℤ) (id other : Bytes) (end before : ℤ) (s : S)
      → Held other before s
      → ltz before now ≡ false
      → Held other before (consume f now id end s).1

pub record Verifier : Type 0 where
  pub keys : List (Bytes × Bytes)
  pub has_replay : Bool
  pub authority : Authority
  pub clock_skew : ℕ

pub data Verdict : Type 0 where
  accepted : Claims → Verdict
  rejected unavailable : Verdict

-- `strings.Split(s, ".")`
add_to_first : ℕ → List Bytes → List Bytes
add_to_first c [] = (c ∷ []) ∷ []
add_to_first c (part ∷ parts) = (c ∷ part) ∷ parts

split_dot : Bytes → List Bytes
unfolding add_to_first
split_dot [] = [] ∷ []
split_dot (c ∷ s) = let rest = split_dot s in if c == b'.' then [] ∷ rest else add_to_first c rest

-- The two parts behind "v1".
three_parts : List Bytes → Option (Bytes × Bytes)
three_parts (version ∷ body ∷ signature ∷ []) =
    if bytes_eq version (ascii "v1") then some (body, signature) else none
three_parts _ = none

pub find_key : Bytes → List (Bytes × Bytes) → Option Bytes
find_key id [] = none
find_key id ((j, key) ∷ keys) = if bytes_eq j id then some key else find_key id keys

thirty_seconds : ℕ
thirty_seconds = 30 * 10 ^ 9

verdict_of : Claims → Consumed → Verdict
verdict_of c first = accepted c
verdict_of c again = rejected
verdict_of c failed = unavailable

-- What a request brings, with its body as far as it is read.
pub record Incoming : Type 0 where
  pub origin_trusted : Bool
  pub assertions : List Bytes
  pub idempotency_keys : List Bytes
  pub method : Bytes
  pub path : Bytes
  pub raw_query : Bytes
  pub body : Option Bytes

pub data Outcome : Type 0 where
  status : ℕ → Outcome
  -- the next handler, with the claims and the body
  next : Claims → Bytes → Outcome

one_header : List Bytes → Option Bytes
one_header (value ∷ []) = some value
one_header _ = none

key_header : List Bytes → Option Bytes
key_header [] = some []
key_header (value ∷ []) = some value
key_header _ = none

module _ (library : Library) where
  open library use {
    ed25519_verify, base64_decode, base64_encode, decode_claims, at_end, marshal_claims,
  }

  -- `NewGatewayAssertionVerifier`; the skew is a time.Duration.
  pub new_verifier : List (Bytes × Bytes) → Bool → Authority → ℤ → Option Verifier
  unfolding thirty_seconds
  new_verifier keys has_replay authority (ℤ.negsuc n) = none
  new_verifier keys has_replay authority (pos skew) = do
    guard (not (length keys == 0))
    guard (valid_authority library authority)
    guard (leb skew thirty_seconds)
    guard (all (λ (entry : Bytes × Bytes). token library entry.0 160 && length entry.1 == 32) keys)
    some (record { keys = keys; has_replay = has_replay; authority = authority; clock_skew = skew })

  -- The claims of the two parts, their bytes and the signature. `none` is a rejection.
  claims_of_parts : Bytes × Bytes → Option (Claims × Bytes × Bytes)
  claims_of_parts (body_part, signature_part) = do
    body ← base64_decode body_part
    signature ← base64_decode signature_part
    guard (not (length body == 0))
    guard (leb (length body) (16 * 2 ^ 10))
    guard (length signature == 64)
    guard (bytes_eq (base64_encode body) body_part)
    guard (bytes_eq (base64_encode signature) signature_part)
    (claims, rest) ← decode_claims body
    guard (at_end rest)
    canonical ← marshal_claims claims
    guard (bytes_eq canonical body)
    some (claims, body, signature)

  unfoldable pub read_assertion : Bytes → Option (Claims × Bytes × Bytes)
  unfolding split_dot three_parts claims_of_parts
  read_assertion encoded = do parts ← three_parts (split_dot encoded); claims_of_parts parts

  signed : Verifier → Claims × Bytes × Bytes → Option Claims
  unfolding find_key
  signed v (claims, body, signature) = do
    key ← find_key claims.key_id v.keys
    guard (length key == 32)
    guard (ed25519_verify key body signature)
    some claims

  -- Everything up to the replay check.
  pub authentic : Verifier → ℕ → Bytes → GatewayRequest → Option Claims
  unfolding signed
  authentic v now encoded r = do
    guard (valid_request library r)
    assertion ← read_assertion encoded
    claims ← signed v assertion
    guard (valid_claims library v.authority now v.clock_skew claims r)
    some claims

  module _ {S F : Type 0} (store : ReplayStore S F) where
    -- The replay check, by whether the claims are replay-eligible and a store is configured.
    -- `asked` is the store's own clock when it answers.
    check_replay : (eligible has_replay : Bool) → F → (asked : ℕ) → S → Claims → Verdict × S
    unfolding verdict_of
    check_replay true has_replay f asked s c = (accepted c, s)
    check_replay false false f asked s c = (unavailable, s)
    check_replay false true f asked s c =
        let (answer, s') = store.consume f (pos asked) c.request_id (instant c.expires_at) s in
        (verdict_of c answer, s')

    decided : Bool → F → (asked : ℕ) → S → Option Claims → Verdict × S
    unfolding check_replay
    decided has_replay f asked s none = (rejected, s)
    decided has_replay f asked s (some c) = check_replay c.replay_eligible has_replay f asked s c

    -- `Verify`, with the verifier's clock and, later, that of the store.
    pub verify : Verifier → F → (now asked : ℕ) → Bytes → GatewayRequest → S → Verdict × S
    unfolding decided
    verify v f now asked encoded r s = decided v.has_replay f asked s (authentic v now encoded r)

    outcome_of : Bytes → Verdict × S → Outcome × S
    outcome_of body (accepted c, s) = (next c body, s)
    outcome_of body (rejected, s) = (status 401, s)
    outcome_of body (unavailable, s) = (status 503, s)

    with_body :
        Verifier
        → F
        → (now asked maximum : ℕ) → Incoming
        → Bytes
        → Bytes
        → Option Bytes
        → S
        → Outcome × S
    unfolding outcome_of
    with_body v f now asked maximum i encoded key none s = (status 413, s)
    with_body v f now asked maximum i encoded key (some body) s =
        if ltb maximum (length body)
        then (status 413, s)
        else outcome_of body (
            verify v f now asked encoded
              (record {
                method = i.method;
                path = i.path;
                raw_query = i.raw_query;
                idempotency_key = key;
                body = body;
              })
              s)

    with_headers :
        Verifier
        → F
        → (now asked maximum : ℕ) → Incoming
        → Option Bytes
        → Option Bytes
        → S
        → Outcome × S
    unfolding with_body
    with_headers v f now asked maximum i (some encoded) (some key) s =
        with_body v f now asked maximum i encoded key i.body s
    with_headers v f now asked maximum i _ _ s = (status 401, s)

    -- The handler of `GatewayAssertionMiddleware`, with `MaxBodyBytes` as `maximum`.
    pub middleware : Verifier → F → (now asked maximum : ℕ) → Incoming → S → Outcome × S
    unfolding with_headers one_header key_header
    middleware v f now asked maximum i s =
        if not i.origin_trusted
        then (status 401, s)
        else with_headers v f now asked maximum i (one_header i.assertions)
            (key_header i.idempotency_keys) s
