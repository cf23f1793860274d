-- ===== src/Bridge/Custody.antt =====
-- bridge/custody.go: resource keys that a handler may use, and never see. A `Cipher` holds the key
-- while the custody callback runs; AES-GCM, SHA-256, JSON and UTF-8 come from Go's standard library.
pub mod RoundTrip
pub mod Use
mod Tests
use lotor_go.Common.{
  ℕ, ◌+◌, ◌-◌, ◌*◌, ◌^◌, Bool, true, false, not, ◌&&◌, ◌||◌, Option, none, some, List, [], ◌∷◌,
  ◌++◌, ltb, leb, ◌==◌, if◌then◌else◌, length, take, drop, all,
}
use lotor_go.Common.Bytes.{Bytes, ascii, bytes_eq}
use lotor_go.Common.Int.{ℤ, pos, ltz, lez, eqz}
use lotor_go.Common.Http.{Reply}
use lotor_go.Bridge.Platform.{Scope, SignedMessage, Authorization, Platform}
use lotor_go.Bridge.Protocol.{
  Error, invalid, unauthorized, unavailable, maximum_input_bytes, identifier, is_digest,
  encoded_len,
}
use lotor_go.Bridge.Runtime.{valid_scope, scope_eq}
use lotor_go.Bridge.Resource.{
  Fallible, ok, err, ◌>>=◌, ◌>>◌, require, found, Context, PayloadManifest, PayloadAccess, Workload,
  Codec, contains, workload_context, access_payload,
}

pub record KeyBinding : Type 0 where
  pub scope : Scope
  pub client_id : Bytes
  pub resource : Bytes
  pub slot : Bytes
  pub key_resource : Bytes
  pub custody_owner : Bytes
  pub key_version : ℤ
  pub resource_revision : ℤ
  pub lifecycle_generation : ℤ
  pub payload_version : ℤ
  pub object_digest : Bytes
  pub invocation_id : Bytes
  pub binding_id : Bytes
  pub binding_revision : ℤ
  pub principal : Bytes
  pub policy_digest : Bytes
  pub expires_at : ℤ

pub record ValueContext : Type 0 where
  pub binding : KeyBinding
  pub path : Bytes

pub record ResourceValue : Type 0 where
  pub format : Bytes
  pub context : ValueContext
  pub nonce : Bytes
  pub ciphertext : Bytes

-- `ResourceCipher`: `state` is the address of the key state that all its copies share.
pub record Handle : Type 0 where
  pub binding : KeyBinding
  pub state : ℕ

-- The keys that the states hold; a cleared one holds the empty key.
abbrev pub Memory : Type 0
Memory = ℕ → Bytes

pub write_key : ℕ → Bytes → Memory → Memory
write_key state key memory i = if i == state then key else memory i

-- What a method of a cipher reads under the lock: its binding, and the key that its state holds.
pub record Cipher : Type 0 where
  pub binding : KeyBinding
  pub key : Bytes

abbrev pub cipher_at : Handle → Memory → Cipher
cipher_at c memory = record { binding = c.binding; key = memory c.state }

-- A callback returns or panics.
pub data Ended (A : Type 0) : Type 0 where
  returned : Fallible A → Ended A
  panicked : Ended A

abbrev pub Callback : Type 0 → Type 0
Callback A = Memory → Ended A × Memory

pub record Crypto : Type 0 where
  -- AES-256-GCM: key, nonce, text, additional data
  pub seal : Bytes → Bytes → Bytes → Bytes → Bytes
  pub unseal : Bytes → Bytes → Bytes → Bytes → Option Bytes
  pub sha256 : Bytes → Bytes
  pub valid_utf8 : Bytes → Bool
  -- `json.Encoder` with no HTML escapes, of the format and the context, with no newline at the end
  pub encode_context : Bytes → ValueContext → Option Bytes
  -- `json.Marshal` of client id, resource, slot, schema id, revision and generation
  pub marshal_aad : Bytes → Bytes → Bytes → Bytes → ℤ → ℤ → Bytes
  -- `json.Marshal` of a list of strings
  pub marshal_strings : List Bytes → Bytes

abbrev pub resource_value_format : Bytes
resource_value_format = ascii "lotor.resource-value.v1"

abbrev pub max_safe_integer : ℤ
max_safe_integer = pos (2 ^ 53 - 1)

texts : KeyBinding → List Bytes
texts b =
    b.client_id ∷ b.resource ∷ b.slot ∷ b.key_resource ∷ b.custody_owner ∷ b.object_digest
    ∷ b.invocation_id ∷ b.binding_id ∷ b.principal ∷ b.policy_digest ∷ []

numbers : KeyBinding → List ℤ
numbers b =
    b.key_version ∷ b.resource_revision ∷ b.lifecycle_generation ∷ b.payload_version
    ∷ b.binding_revision ∷ b.expires_at ∷ []

texts_eq : List Bytes → List Bytes → Bool
texts_eq [] [] = true
texts_eq (s ∷ ss) (t ∷ ts) = bytes_eq s t && texts_eq ss ts
texts_eq _ _ = false

numbers_eq : List ℤ → List ℤ → Bool
numbers_eq [] [] = true
numbers_eq (a ∷ xs) (b ∷ ys) = eqz a b && numbers_eq xs ys
numbers_eq _ _ = false

-- `==` of two bindings and of two contexts.
pub binding_eq : KeyBinding → KeyBinding → Bool
unfolding texts numbers texts_eq numbers_eq
binding_eq a b =
    scope_eq a.scope b.scope && (texts_eq (texts a) (texts b) && numbers_eq (numbers a) (numbers b))

pub context_eq : ValueContext → ValueContext → Bool
context_eq a b = binding_eq a.binding b.binding && bytes_eq a.path b.path

-- The grant of the running invocation is the one that the binding names, and allows the use.
grant_matches : KeyBinding → Authorization → ℤ → Bool
grant_matches b a now =
    bytes_eq a.kind (ascii "invocation")
    && (scope_eq a.scope b.scope
        && (bytes_eq a.id b.invocation_id
            && (bytes_eq a.binding_id b.binding_id
                && (eqz a.binding_revision b.binding_revision
                    && (bytes_eq a.principal b.principal
                        && (bytes_eq a.policy_digest b.policy_digest
                            && (eqz a.expires_at b.expires_at
                                && (ltz now a.expires_at
                                    && (contains a.resources b.resource
                                        && (contains a.capabilities (ascii "payload.read")
                                            && contains a.capabilities
                                                (ascii "custody.use")))))))))))

invocation_matches : KeyBinding → Option (Authorization × SignedMessage) → ℤ → Bool
unfolding grant_matches
invocation_matches b none now = false
invocation_matches b (some (a, original)) now = grant_matches b a now

-- `matchesInvocation`
pub matches_invocation : KeyBinding → Context → Bool
unfolding invocation_matches
matches_invocation b ctx = not ctx.ended && invocation_matches b ctx.invocation ctx.unix

safe_positive : ℤ → Bool
safe_positive n = ltz (pos 0) n && lez n max_safe_integer

-- `validResourceKeyBinding`
pub valid_binding : KeyBinding → Bool
unfolding safe_positive
valid_binding b =
    valid_scope b.scope
    && (identifier b.client_id 256
        && (identifier b.resource 256
            && (identifier b.slot 128
                && (identifier b.key_resource 256
                    && (is_digest b.custody_owner
                        && (identifier b.invocation_id 256
                            && (identifier b.binding_id 256
                                && (identifier b.principal 256
                                    && (is_digest b.object_digest
                                        && ((bytes_eq b.policy_digest []
                                              || is_digest b.policy_digest)
                                            && (safe_positive b.key_version
                                                && (safe_positive b.resource_revision
                                                    && (safe_positive b.lifecycle_generation
                                                        && (safe_positive b.payload_version
                                                            && (safe_positive b.binding_revision
                                                            && safe_positive
                                                            b.expires_at)))))))))))))))

-- The bytes that an unpadded URL alphabet has.
unfoldable pub url_char : ℕ → Bool
url_char c =
    (leb b'A' c && leb c b'Z')
    || ((leb b'a' c && leb c b'z') || ((leb b'0' c && leb c b'9') || (c == b'-' || c == b'_')))

line_char : ℕ → Bool
line_char c = not (c == 0 || (c == 13 || c == 10))

module _ {A : Type 0} where
  -- `WithResourceKey`, with the address of its new state. The deferred function clears that state
  -- on every way out of the callback.
  pub with_resource_key :
      Context → KeyBinding → Bytes → (state : ℕ) → (Handle → Callback A) → Callback A
  unfolding write_key
  with_resource_key ctx b key state action memory =
      if not (length key == 32) || (not (valid_binding b) || not (matches_invocation b ctx))
      then (returned (err unauthorized), memory)
      else (let (end, after) =
            action (record { binding = b; state = state }) (write_key state key memory) in
          (end, write_key state [] after))

  -- The callback that `WithPayloadCustody` gives to the custodian.
  pub checked_use :
      KeyBinding → PayloadManifest → (Handle → PayloadManifest → Callback A) → Handle → Callback A
  checked_use b m action c memory =
      if binding_eq c.binding b then action c m memory else (returned (err unauthorized), memory)

custody_manifest : PayloadManifest → Bool
custody_manifest m =
    bytes_eq m.state (ascii "committed")
    && (bytes_eq m.representation (ascii "encrypted-envelope-v1")
        && bytes_eq m.encryption_suite (ascii "AES-256-GCM"))

-- The binding of `WithPayloadCustody`, from what Control gave and the grant says.
binding_of : Bytes → Bytes → Bytes → Workload → PayloadAccess → Authorization → KeyBinding
binding_of client_id resource slot w p a = record {
  scope = w.scope;
  client_id = client_id;
  resource = resource;
  slot = slot;
  key_resource = p.manifest.key_binding_ref;
  custody_owner = p.custody_owner;
  key_version = p.manifest.key_version;
  resource_revision = p.manifest.resource_revision;
  lifecycle_generation = p.manifest.lifecycle_generation;
  payload_version = p.manifest.payload_version;
  object_digest = p.manifest.object_digest;
  invocation_id = a.id;
  binding_id = a.binding_id;
  binding_revision = a.binding_revision;
  principal = w.principal;
  policy_digest = a.policy_digest;
  expires_at = a.expires_at;
}

-- The manifest is of the payload that the binding names.
manifest_matches : PayloadManifest → KeyBinding → Bytes → Bool
manifest_matches m b ciphertext =
    length m.wrapped_payload_key == encoded_len 61
    && (bytes_eq m.resource b.resource
        && (bytes_eq m.slot b.slot
            && (bytes_eq m.key_binding_ref b.key_resource
                && (eqz m.key_version b.key_version
                    && (eqz m.resource_revision b.resource_revision
                        && (eqz m.lifecycle_generation b.lifecycle_generation
                            && (eqz m.payload_version b.payload_version
                                && (bytes_eq m.object_digest b.object_digest
                                    && (custody_manifest m
                                        && (eqz m.object_size (pos (length ciphertext))
                                            && (not (ltb (length ciphertext) 29)
                                                && not (
                                                    ltb maximum_input_bytes
                                                      (length ciphertext)))))))))))))

-- `b[0] == 1`
version_one : Bytes → Bool
version_one [] = false
version_one (c ∷ s) = c == 1

-- `b[1:13]` and `b[13:]`
abbrev pub nonce_part : Bytes → Bytes
nonce_part s = take 12 (drop 1 s)

abbrev pub sealed_part : Bytes → Bytes
sealed_part s = drop 13 s

module _ (platform : Platform) (crypto : Crypto) where
  open platform use {sha256_hex, base64_encode, base64_decode}
  open crypto use {seal, unseal, sha256, valid_utf8, encode_context, marshal_aad, marshal_strings}

  -- `CustodyOwnerFingerprint`
  pub custody_owner_fingerprint : Bytes → Bytes → Bytes → Bytes
  custody_owner_fingerprint subject key_id public_key =
      if not (identifier subject 256)
        || (not (identifier key_id 256) || not (length public_key == 32))
      then []
      else sha256_hex (
          marshal_strings (
            ascii "lotor-resource-custody-owner-v1"
            ∷ subject
            ∷ key_id
            ∷ base64_encode public_key
            ∷ []))

  -- `validResourceValueContext`
  pub valid_context : ValueContext → Bool
  unfolding line_char
  valid_context c =
      valid_binding c.binding
      && (is_digest c.binding.policy_digest
          && (ltb 0 (length c.path)
              && (leb (length c.path) 1024 && (valid_utf8 c.path && all line_char c.path))))

  -- `resourceValueAAD`
  pub value_aad : ValueContext → Fallible Bytes
  value_aad c = do
    require (valid_context c) invalid
    found (encode_context resource_value_format c) invalid

  -- `decodeResourceBase64`
  pub decode_base64 : Bytes → Fallible Bytes
  decode_base64 s = do require (all url_char s) invalid; found (base64_decode s) invalid

  -- `EncryptValue`, with what the random source gives.
  pub encrypt_value : Context → Option Bytes → Bytes → Bytes → Cipher → Fallible ResourceValue
  encrypt_value ctx random path plaintext c = do
    require (length c.key == 32 && matches_invocation c.binding ctx) unauthorized
    let context : ValueContext = record { binding = c.binding; path = path }
    aad ← value_aad context
    require (not (ltb maximum_input_bytes (length plaintext))) invalid
    nonce ← found random unavailable
    ok (record {
      format = resource_value_format;
      context = context;
      nonce = base64_encode nonce;
      ciphertext = base64_encode (seal c.key nonce plaintext aad);
    })

  -- `DecryptResourceValue`
  pub decrypt_value : Bytes → ResourceValue → ValueContext → Fallible Bytes
  decrypt_value key value expected = do
    require (bytes_eq value.format resource_value_format) invalid
    require (context_eq value.context expected) invalid
    require (length value.nonce == encoded_len 12) invalid
    require (leb (length value.ciphertext) (encoded_len (maximum_input_bytes + 16))) invalid
    aad ← value_aad expected
    require (length key == 32) invalid
    nonce ← decode_base64 value.nonce
    require (length nonce == 12) invalid
    ciphertext ← decode_base64 value.ciphertext
    found (unseal key nonce ciphertext aad) invalid

  payload_aad : KeyBinding → PayloadManifest → Bytes
  payload_aad b m = sha256 (
      marshal_aad b.client_id b.resource m.slot m.schema_id b.resource_revision
        b.lifecycle_generation)

  -- `OpenPayload`
  pub open_payload : Context → PayloadManifest → Bytes → Cipher → Fallible Bytes
  unfolding manifest_matches custody_manifest version_one payload_aad
  open_payload ctx m ciphertext c = do
    require
        (length c.key == 32
          && (matches_invocation c.binding ctx && is_digest c.binding.policy_digest))
        unauthorized
    require
        (manifest_matches m c.binding ciphertext
          && (version_one ciphertext && bytes_eq (sha256_hex ciphertext) c.binding.object_digest))
        invalid
    require
        (identifier m.slot 128
          && (identifier m.schema_id 256
              && bytes_eq m.aad_hash (base64_encode (payload_aad c.binding m))))
        invalid
    wrapped ← decode_base64 m.wrapped_payload_key
    require (length wrapped == 61 && version_one wrapped) invalid
    data_key ←
        found (unseal c.key (nonce_part wrapped) (sealed_part wrapped) (payload_aad c.binding m))
          invalid
    require (length data_key == 32) invalid
    found
        (unseal data_key (nonce_part ciphertext) (sealed_part ciphertext) (payload_aad c.binding m))
        invalid

  module _ (codec : Codec) (key_id key : Bytes) where
    -- `WithPayloadCustody` up to the custodian, with the replies to its two requests.
    unfoldable pub custody_of :
        Context
        → (identity_reply access_reply : Reply) → (client_id resource slot : Bytes) → ℤ
        → Fallible (KeyBinding × PayloadManifest)
    unfolding custody_manifest binding_of
    custody_of ctx identity_reply access_reply client_id resource slot version = do
      require (identifier client_id 256) invalid
      identity ← workload_context platform codec key_id key ctx identity_reply
      access ← access_payload platform codec key_id key ctx access_reply resource slot version true
      (grant, original) ← found ctx.invocation unauthorized
      require (custody_manifest access.manifest) unauthorized
      let b = binding_of client_id resource slot identity access grant
      require (valid_binding b && matches_invocation b ctx) unauthorized
      ok (b, access.manifest)

    module _ {A : Type 0} where
      in_custody :
          (KeyBinding → (Handle → Callback A) → Callback A)
          → (Handle → PayloadManifest → Callback A)
          → Fallible (KeyBinding × PayloadManifest)
          → Callback A
      unfolding checked_use
      in_custody custodian action (err e) memory = (returned (err e), memory)
      in_custody custodian action (ok (b, m)) memory = custodian b (checked_use b m action) memory

      -- `WithPayloadCustody`. `custodian` is `UseResourceKey`.
      pub with_payload_custody :
          Context
          → (identity_reply access_reply : Reply) → (client_id resource slot : Bytes) → ℤ
          → (KeyBinding → (Handle → Callback A) → Callback A)
          → (Handle → PayloadManifest → Callback A)
          → Callback A
      unfolding custody_of in_custody
      with_payload_custody ctx identity_reply access_reply client_id resource slot version custodian
            action memory =
          in_custody custodian action
            (custody_of ctx identity_reply access_reply client_id resource slot version) memory
