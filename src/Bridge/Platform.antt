-- ===== src/Bridge/Platform.antt =====
-- The data of bridge/protocol.go, and what bridge/ takes from Go's standard library: SHA-256,
-- Ed25519, base64 and encoding/json, as parameters.
use lotor_go.Common.{Bool, Option, List}
use lotor_go.Common.Bytes.{Bytes}
use lotor_go.Common.Int.{ℤ}

pub record Scope : Type 0 where
  pub tenant_id : Bytes
  pub application_id : Bytes
  pub environment_id : Bytes
  pub owner_resource : Bytes

pub record Function : Type 0 where
  pub name : Bytes
  pub version : Bytes
  pub input_schema_digest : Bytes
  pub output_schema_digest : Bytes

pub record Manifest : Type 0 where
  pub functions : List Function
  pub protocol_version : ℤ

pub record SignedMessage : Type 0 where
  pub key_id : Bytes
  pub payload : Bytes
  pub signature : Bytes

pub record Authorization : Type 0 where
  pub function : Option Function
  pub scope : Scope
  pub kind : Bytes
  pub issuer : Bytes
  pub audience : Bytes
  pub binding_id : Bytes
  pub policy_digest : Bytes
  pub manifest_digest : Bytes
  pub input_digest : Bytes
  pub id : Bytes
  pub nonce : Bytes
  pub principal : Bytes
  pub resources : List Bytes
  pub capabilities : List Bytes
  pub input : Bytes
  pub expires_at : ℤ
  pub issued_at : ℤ
  pub protocol_version : ℤ
  pub binding_revision : ℤ

pub record Result : Type 0 where
  pub id : Bytes
  pub binding_id : Bytes
  pub manifest_digest : Bytes
  pub authorization_digest : Bytes
  pub kind : Bytes
  pub nonce : Bytes
  pub error_code : Bytes
  pub output : Bytes
  pub protocol_version : ℤ
  pub binding_revision : ℤ
  pub completed_at : ℤ

-- A JSON decoder that refuses unknown fields: the first value of a text, and the text behind it.
abbrev pub Decoder : Type 0 → Type 0
Decoder A = Bytes → Option (A × Bytes)

pub record Platform : Type 0 where
  -- `hex.EncodeToString(sha256.Sum256(b))`
  pub sha256_hex : Bytes → Bytes
  -- key, message, signature
  pub ed25519_verify : Bytes → Bytes → Bytes → Bool
  pub ed25519_sign : Bytes → Bytes → Bytes
  -- `base64.RawURLEncoding`, strict when decoding
  pub base64_encode : Bytes → Bytes
  pub base64_decode : Bytes → Option Bytes
  -- `json.Marshal`
  pub marshal_functions : List Function → Option Bytes
  pub marshal_authorization : Authorization → Option Bytes
  pub marshal_result : Result → Option Bytes
  -- `json.Marshal` of a `json.RawMessage`, which compacts it
  pub compact : Bytes → Option Bytes
  pub json_valid : Bytes → Bool
  -- `json.Decoder` with `DisallowUnknownFields`
  pub decode_message : Decoder SignedMessage
  pub decode_authorization : Decoder Authorization
  pub decode_result : Decoder Result
  -- whether a further `Decode` gives `io.EOF`
  pub at_end : Bytes → Bool
  -- `json.Unmarshal`
  pub unmarshal_result : Bytes → Option Result
