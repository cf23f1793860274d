-- ===== src/Bridge/Protocol.antt =====
-- bridge/protocol.go: identifiers, digests, the manifest digest, and signed messages.
pub mod Verify
use lotor_go.Common.{
  ℕ, ◌+◌, ◌*◌, ◌/◌, ◌%◌, ◌^◌, Bool, true, false, not, ◌&&◌, ◌||◌, Option, none, some, List, [], ◌∷◌,
  ◌++◌, ltb, leb, ◌==◌, if◌then◌else◌, length, all,
}
use lotor_go.Common.Options.{guard, ◌>>=◌, ◌>>◌}
use lotor_go.Common.Bytes.{Bytes, ascii, bytes_eq, bytes_lt}
use lotor_go.Common.Int.{ℤ, pos, eqz}
use lotor_go.Bridge.Platform.{
  Function, Manifest, SignedMessage, Authorization, Result, Decoder, Platform,
}

abbrev pub protocol_version : ℤ
protocol_version = pos 1

abbrev pub maximum_input_bytes : ℕ
maximum_input_bytes = 4 * 2 ^ 20

abbrev pub maximum_body_bytes : ℕ
maximum_body_bytes = 16 * 2 ^ 20

abbrev pub newline : Bytes
newline = 10 ∷ []

abbrev pub authorization_purpose : Bytes
authorization_purpose = ascii "lotor-function-authorization-v1" ++ newline

abbrev pub result_purpose : Bytes
result_purpose = ascii "lotor-function-result-v1" ++ newline

pub data Error : Type 0 where
  invalid unauthorized unavailable not_found conflict in_progress outcome_unknown : Error

-- `range` over a string gives runes: a byte from 128 on belongs to a rune that is refused too.
unfoldable pub graphic : ℕ → Bool
graphic c = not (leb c 32 || leb 127 c)

unfoldable pub identifier : Bytes → ℕ → Bool
unfolding graphic
identifier value maximum =
    if ltb (length value) 1 || ltb maximum (length value) then false else all graphic value

unfoldable pub hex_digit : ℕ → Bool
hex_digit c = leb b'a' c && leb c b'f' || leb b'0' c && leb c b'9'

unfoldable pub is_digest : Bytes → Bool
unfolding hex_digit
is_digest value = if not (length value == 64) then false else all hex_digit value

-- `RawURLEncoding.EncodedLen`.
abbrev pub encoded_len : ℕ → ℕ
encoded_len n = n / 3 * 4 + (n % 3 * 8 + 5) / 6

abbrev pub ed25519_public_key_size : ℕ
ed25519_public_key_size = 32

abbrev pub ed25519_private_key_size : ℕ
ed25519_private_key_size = 64

abbrev pub ed25519_signature_size : ℕ
ed25519_signature_size = 64

unfoldable pub function_eq : Function → Function → Bool
function_eq f g =
    bytes_eq f.name g.name
    && bytes_eq f.version g.version
    && bytes_eq f.input_schema_digest g.input_schema_digest
    && bytes_eq f.output_schema_digest g.output_schema_digest

-- The order of `sort.Slice` in `ManifestDigest`.
function_less : Function → Function → Bool
function_less a b =
    if not (bytes_eq a.name b.name) then bytes_lt a.name b.name else bytes_lt a.version b.version

insert_function : Function → List Function → List Function
insert_function f [] = f ∷ []
insert_function f (g ∷ gs) = if function_less g f then g ∷ insert_function f gs else f ∷ g ∷ gs

pub sort_functions : List Function → List Function
unfolding insert_function
sort_functions [] = []
sort_functions (f ∷ fs) = insert_function f (sort_functions fs)

valid_function : Function → Bool
valid_function f =
    identifier f.name 128
    && identifier f.version 128
    && is_digest f.input_schema_digest
    && is_digest f.output_schema_digest

same_name : Function → Function → Bool
same_name f g = bytes_eq f.name g.name && bytes_eq f.version g.version

-- The loop over the sorted functions, with the one before.
valid_functions : Option Function → List Function → Bool
unfolding valid_function same_name
valid_functions before [] = true
valid_functions none (f ∷ fs) = valid_function f && valid_functions (some f) fs
valid_functions (some g) (f ∷ fs) =
    valid_function f && (not (same_name f g) && valid_functions (some f) fs)

module _ (platform : Platform) where
  open platform use {
    sha256_hex, ed25519_verify, ed25519_sign, base64_encode, base64_decode, marshal_functions,
    marshal_authorization, marshal_result, compact, decode_authorization, decode_result, at_end,
  }

  -- `none` is `ErrInvalid`.
  pub manifest_digest : Manifest → Option Bytes
  unfolding valid_functions sort_functions
  manifest_digest m = do
    guard (eqz m.protocol_version protocol_version)
    guard (not (ltb (length m.functions) 1))
    guard (not (ltb 64 (length m.functions)))
    let sorted = sort_functions m.functions
    guard (valid_functions none sorted)
    functions ← marshal_functions sorted
    let encoded = ascii "{\"protocol_version\":1,\"functions\":" ++ (functions ++ ascii "}")
    some (sha256_hex encoded)

  -- `sign` over the marshalled value; `none` is `ErrInvalid`.
  unfoldable pub sign : Option Bytes → Bytes → Bytes → Bytes → Option SignedMessage
  sign marshalled purpose key_id key = do
    guard (identifier key_id 256)
    guard (length key == ed25519_private_key_size)
    raw ← marshalled
    guard (not (ltb (maximum_body_bytes / 2) (length raw)))
    let signature = ed25519_sign key (purpose ++ raw)
    some (record {
      key_id = key_id;
      payload = base64_encode raw;
      signature = base64_encode signature;
    })

  -- `none` is `ErrUnauthorized`.
  unfoldable pub verify : SignedMessage → Bytes → Bytes → Option Bytes
  verify message purpose key = do
    guard (identifier message.key_id 256)
    guard (length key == ed25519_public_key_size)
    guard (length message.signature == encoded_len ed25519_signature_size)
    guard (not (ltb (encoded_len (maximum_body_bytes / 2)) (length message.payload)))
    raw ← base64_decode message.payload
    signature ← base64_decode message.signature
    guard (length signature == ed25519_signature_size)
    guard (ed25519_verify key (purpose ++ raw) signature)
    some raw

  unfoldable pub strict_json : {A : Type 0} → Decoder A → Bytes → Option A
  strict_json decode raw = do (value, rest) ← decode raw; guard (at_end rest); some value

  -- The body of `SignAuthorization` that binds the digest to the compacted input.
  canonical_input : Authorization → Option Authorization
  canonical_input a = if length a.input == 0 then some a else (do
    guard (not (ltb maximum_input_bytes (length a.input)))
    guard (bytes_eq a.input_digest (sha256_hex a.input))
    input ← compact a.input
    guard (not (ltb maximum_input_bytes (length input)))
    some (record a { input = input; input_digest = sha256_hex input }))

  pub sign_authorization : Authorization → Bytes → Bytes → Option SignedMessage
  unfolding canonical_input
  sign_authorization a key_id key = do
    value ← canonical_input a
    sign (marshal_authorization value) authorization_purpose key_id key

  unfoldable pub verify_authorization : SignedMessage → Bytes → Option (Authorization × Bytes)
  verify_authorization message key = do
    raw ← verify message authorization_purpose key
    value ← strict_json decode_authorization raw
    some (value, raw)

  canonical_output : Result → Option Result
  canonical_output r = if length r.output == 0 then some r else (do
    output ← compact r.output
    guard (not (ltb maximum_input_bytes (length output)))
    some (record r { output = output }))

  pub sign_result : Result → Bytes → Bytes → Option SignedMessage
  unfolding canonical_output
  sign_result r key_id key = do
    guard (not (ltb maximum_input_bytes (length r.output)))
    value ← canonical_output r
    sign (marshal_result value) result_purpose key_id key

  -- The exact invocation binding of `VerifyResult`.
  bound_to : Result → Authorization → Bytes → Bool
  bound_to r a raw =
      eqz r.protocol_version protocol_version
      && bytes_eq r.id a.id
      && bytes_eq r.kind a.kind
      && bytes_eq r.binding_id a.binding_id
      && eqz r.binding_revision a.binding_revision
      && bytes_eq r.manifest_digest a.manifest_digest
      && bytes_eq r.authorization_digest (sha256_hex raw)
      && bytes_eq r.nonce a.nonce

  unfoldable pub verify_result : SignedMessage → Bytes → Authorization → Bytes → Option Result
  unfolding bound_to
  verify_result message key a raw_authorization = do
    raw ← verify message result_purpose key
    value ← strict_json decode_result raw
    guard (not (ltb maximum_input_bytes (length value.output)))
    guard (bound_to value a raw_authorization)
    some value
