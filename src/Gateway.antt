-- ===== src/Gateway.antt =====
-- lotorhttp/gateway_assertion.go: the claims of a signed gateway assertion, and the checks of
-- GatewayAssertionVerifier on them. Clocks are nanoseconds since the year 1, durations nanoseconds.
pub mod Verifier
use lotor_go.Common.{
  ℕ, zero, suc, ◌+◌, ◌-◌, ◌*◌, ◌^◌, Bool, true, false, not, ◌&&◌, ◌||◌, Option, none, some, List,
  [], ◌∷◌, ◌++◌, ltb, leb, ◌==◌, if◌then◌else◌, length,
}
use lotor_go.Common.Bytes.{Bytes, ascii, bytes_eq}
use lotor_go.Common.Int.{ℤ, pos, negsuc, ltz, lez, eqz, add64, sub64}

pub record Claims : Type 0 where
  pub issuer : Bytes
  pub key_id : Bytes
  pub audience : Bytes
  pub subject : Bytes
  pub session_id_hash : Bytes
  pub tenant_id : Bytes
  pub application_id : Bytes
  pub environment_id : Bytes
  pub binding_id : Bytes
  pub route_id : Bytes
  pub route_pin : Bytes
  pub gateway_placement_id : Bytes
  pub gateway_ownership_epoch : ℤ
  pub runtime_placement_id : Bytes
  pub runtime_ownership_epoch : ℤ
  pub operation : Bytes
  pub method : Bytes
  pub path : Bytes
  pub request_id : Bytes
  pub body_sha256 : Bytes
  pub query_sha256 : Bytes
  pub idempotency_key_sha256 : Bytes
  pub issued_at : ℤ
  pub expires_at : ℤ
  pub configuration_version : ℤ
  pub binding_activation_epoch : ℤ
  pub replay_eligible : Bool

pub record Authority : Type 0 where
  pub issuer : Bytes
  pub audience : Bytes
  pub tenant_id : Bytes
  pub application_id : Bytes
  pub environment_id : Bytes
  pub binding_id : Bytes
  pub route_id : Bytes
  pub route_pin : Bytes
  pub gateway_placement_id : Bytes
  pub runtime_placement_id : Bytes
  pub operation : Bytes
  pub gateway_ownership_epoch : ℤ
  pub runtime_ownership_epoch : ℤ
  pub configuration_version : ℤ
  pub binding_activation_epoch : ℤ

pub record GatewayRequest : Type 0 where
  pub method : Bytes
  pub path : Bytes
  pub raw_query : Bytes
  pub idempotency_key : Bytes
  pub body : Bytes

-- What the code takes from Go's standard library.
pub record Library : Type 0 where
  -- `hex.EncodeToString(sha256.Sum256(b))`
  pub sha256_hex : Bytes → Bytes
  -- key, message, signature
  pub ed25519_verify : Bytes → Bytes → Bytes → Bool
  -- `base64.RawURLEncoding`
  pub base64_decode : Bytes → Option Bytes
  pub base64_encode : Bytes → Bytes
  -- `json.Decoder` with `DisallowUnknownFields`: the value, and the text behind it
  pub decode_claims : Bytes → Option (Claims × Bytes)
  -- whether a further `Decode` gives `io.EOF`
  pub at_end : Bytes → Bool
  -- `json.Marshal`
  pub marshal_claims : Claims → Option Bytes
  -- `strings.TrimSpace`, `strings.ToLower` and `strings.ToUpper`
  pub trim_space : Bytes → Bytes
  pub to_lower : Bytes → Bytes
  pub to_upper : Bytes → Bytes
  -- whether `hex.DecodeString` gives no error
  pub is_hex : Bytes → Bool

-- `strings.ContainsAny(s, chars)`, where `chars` are ASCII.
contains_any : (ℕ → Bool) → Bytes → Bool
contains_any chars [] = false
contains_any chars (c ∷ s) = chars c || contains_any chars s

unsafe_char : ℕ → Bool
unsafe_char c = c == 0 || (c == 13 || c == 10)

unsafe_path_char : ℕ → Bool
unsafe_path_char c = unsafe_char c || c == 92

-- "!#$%&'*+-.^_`|~"
method_sign : ℕ → Bool
method_sign c =
    c == 33
    || (c == 35
        || (c == 36
            || (c == 37
                || (c == 38
                    || (c == 39
                        || (c == 42
                            || (c == 43
                                || (c == 45
                                    || (c == 46
                                        || (c == 94
                                            || (c == 95
                                                || (c == 96 || (c == 124 || c == 126)))))))))))))

method_chars : Bytes → Bool
unfolding method_sign
method_chars [] = true
method_chars (c ∷ s) = ((leb b'A' c && leb c b'Z') || method_sign c) && method_chars s

has_slash : Bytes → Bool
has_slash [] = false
has_slash (c ∷ s) = c == b'/'

-- `time.Unix(s, 0)`: seconds since the year 1 in int64, as nanoseconds.
nanoseconds : ℤ → ℤ
nanoseconds (pos n) = pos (n * 10 ^ 9)
nanoseconds (negsuc n) = negsuc (n * 10 ^ 9 + (10 ^ 9 - 1))

pub instant : ℤ → ℤ
unfolding nanoseconds
instant seconds = nanoseconds (add64 seconds (pos 62135596800))

-- `now.Add(-skew)`
pub before_now : ℕ → ℕ → ℤ
before_now now skew = if leb skew now then pos (now - skew) else negsuc (skew - now - 1)

same_authority : Claims → Authority → Bool
same_authority c a =
    bytes_eq c.issuer a.issuer
    && (bytes_eq c.audience a.audience
        && (bytes_eq c.tenant_id a.tenant_id
            && (bytes_eq c.application_id a.application_id
                && (bytes_eq c.environment_id a.environment_id
                    && (bytes_eq c.binding_id a.binding_id
                        && (bytes_eq c.route_id a.route_id
                            && (bytes_eq c.route_pin a.route_pin
                                && (bytes_eq c.gateway_placement_id a.gateway_placement_id
                                    && (eqz c.gateway_ownership_epoch a.gateway_ownership_epoch
                                        && (bytes_eq c.runtime_placement_id a.runtime_placement_id
                                            && (eqz c.runtime_ownership_epoch
                                                  a.runtime_ownership_epoch
                                                && (bytes_eq c.operation a.operation
                                                    && (eqz c.configuration_version
                                                          a.configuration_version
                                                        && eqz c.binding_activation_epoch
                                                            a.binding_activation_epoch)))))))))))))

-- The time bounds, with the clock and the tolerated skew.
timely : ℕ → ℕ → Claims → Bool
unfolding instant before_now
timely now skew c =
    not (ltz c.issued_at (pos 1))
    && (ltz c.issued_at c.expires_at
        && (not (ltz (pos 30) (sub64 c.expires_at c.issued_at))
            && (not (ltz (pos (now + skew)) (instant c.issued_at))
                && ltz (before_now now skew) (instant c.expires_at))))

pub is_safe : Bytes → Bool
is_safe method =
    bytes_eq method (ascii "GET")
    || (bytes_eq method (ascii "HEAD") || bytes_eq method (ascii "OPTIONS"))

-- Whether a claim to be repeatable fits the method and the idempotency key.
pub replay_policy : Bool → Bool → Bytes → Bool
replay_policy safe eligible idempotency_hash =
    (not safe || eligible) && (safe || (not eligible || not (bytes_eq idempotency_hash [])))

module _ (library : Library) where
  open library use {sha256_hex, trim_space, to_lower, to_upper, is_hex}

  -- `gatewayToken`
  pub token : Bytes → ℕ → Bool
  unfolding contains_any unsafe_char
  token value maximum =
      not (bytes_eq value [])
      && (leb (length value) maximum
          && (bytes_eq (trim_space value) value && not (contains_any unsafe_char value)))

  -- `gatewayHash`
  pub is_hash : Bytes → Bool
  is_hash value = length value == 64 && (bytes_eq (to_lower value) value && is_hex value)

  -- `gatewayMethod`
  valid_method : Bytes → Bool
  unfolding method_chars
  valid_method value =
      not (bytes_eq value []) && (bytes_eq value (to_upper value) && method_chars value)

  -- `validGatewayAuthority`
  pub valid_authority : Authority → Bool
  unfolding token is_hash
  valid_authority a =
      token a.issuer 320
      && (token a.audience 512
          && (token a.tenant_id 300
              && (token a.application_id 300
                  && (token a.environment_id 300
                      && (token a.binding_id 200
                          && (token a.route_id 160
                              && (is_hash a.route_pin
                                  && (token a.gateway_placement_id 200
                                      && (token a.runtime_placement_id 200
                                          && (ltz (pos 0) a.gateway_ownership_epoch
                                              && (ltz (pos 0) a.runtime_ownership_epoch
                                                  && (ltz (pos 0) a.configuration_version
                                                      && (ltz (pos 0) a.binding_activation_epoch
                                                          && (bytes_eq a.operation []
                                                            || token a.operation 256))))))))))))))

  -- `validGatewayRequest`
  pub valid_request : GatewayRequest → Bool
  unfolding valid_method contains_any unsafe_char unsafe_path_char has_slash
  valid_request r =
      valid_method r.method
      && (not (bytes_eq r.path [])
          && (leb (length r.method) 32
              && (leb (length r.path) (8 * 2 ^ 10)
                  && (leb (length r.raw_query) (8 * 2 ^ 10)
                      && (has_slash r.path
                          && (not (contains_any unsafe_path_char r.path)
                              && (not (contains_any unsafe_char r.raw_query)
                                  && (bytes_eq (trim_space r.idempotency_key) r.idempotency_key
                                      && (leb (length r.idempotency_key) 512
                                          && not
                                              (contains_any unsafe_char r.idempotency_key))))))))))

  well_formed : Claims → Bool
  unfolding token is_hash
  well_formed c =
      token c.request_id 300
      && (is_hash c.body_sha256
          && (is_hash c.query_sha256
              && (((bytes_eq c.subject [] && bytes_eq c.session_id_hash [])
                    || (not (bytes_eq c.subject []) && not (bytes_eq c.session_id_hash [])))
                  && (bytes_eq c.session_id_hash [] || is_hash c.session_id_hash))))

  unfoldable pub idempotency_hash : Bytes → Bytes
  idempotency_hash key = if bytes_eq key [] then [] else sha256_hex key

  matches_request : Claims → GatewayRequest → Bool
  unfolding idempotency_hash
  matches_request c r =
      bytes_eq c.method r.method
      && (bytes_eq c.path r.path
          && (bytes_eq c.body_sha256 (sha256_hex r.body)
              && (bytes_eq c.query_sha256 (sha256_hex r.raw_query)
                  && bytes_eq c.idempotency_key_sha256 (idempotency_hash r.idempotency_key))))

  -- `validClaims`
  pub valid_claims : Authority → ℕ → ℕ → Claims → GatewayRequest → Bool
  unfolding same_authority timely well_formed matches_request replay_policy is_safe
  valid_claims authority now skew c r =
      same_authority c authority
      && (timely now skew c
          && (well_formed c
              && (matches_request c r
                  && replay_policy (is_safe r.method) c.replay_eligible
                      (idempotency_hash r.idempotency_key))))
