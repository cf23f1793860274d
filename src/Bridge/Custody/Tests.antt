-- ===== src/Bridge/Custody/Tests.antt =====
-- The theorems on the custody of resource keys at a concrete invocation.
use lotor_go.Common.{ℕ, ◌≡◌, refl, true, some, [], ◌∷◌, ◌++◌, drop, arith}
use lotor_go.Common.Bytes.{Bytes, ascii, bytes_eq}
use lotor_go.Common.Int.{pos}
use lotor_go.Bridge.Platform.{SignedMessage, Authorization}
use lotor_go.Bridge.Protocol.{unauthorized, identifier, is_digest}
use lotor_go.Bridge.Runtime.{valid_scope, scope_eq}
use lotor_go.Bridge.Resource.{ok, err, PayloadManifest, PayloadAccess, contains}
use lotor_go.Bridge.Resource.Tests.{
  repeat, a_digest, home, now, padded, toy, manifest, codec, yes, service_key, access_runs,
  identity_runs,
}
use lotor_go.Bridge.Custody.{
  KeyBinding, ResourceValue, Handle, Memory, write_key, Cipher, cipher_at, returned, panicked,
  Callback, custody_of, in_custody, Crypto, resource_value_format, url_char, grant_matches,
  invocation_matches, matches_invocation, safe_positive, valid_binding, line_char, valid_context,
  value_aad, decode_base64, custody_manifest, binding_of, manifest_matches, version_one,
  payload_aad, texts, numbers, texts_eq, numbers_eq, binding_eq, with_resource_key, checked_use,
  encrypt_value, decrypt_value, open_payload, with_payload_custody,
}
use lotor_go.Bridge.Custody.RoundTrip.{IsCoded, IsAead, decrypt_value-encrypt_value}
use lotor_go.Bridge.Custody.Use.{
  IsLive, IsPayload, IsCustody, open_payload_sound, with_resource_key_closes,
  with_payload_custody_sound,
}

abbrev crypto : Crypto
crypto = record {
  seal = λ key nonce text aad. repeat 16 b'p' ++ text;
  unseal = λ key nonce s aad. some (drop 16 s);
  sha256 = λ b. repeat 32 b'h';
  valid_utf8 = λ b. true;
  encode_context = λ format c. some (ascii "context");
  marshal_aad = λ c r s i n g. ascii "aad";
  marshal_strings = λ ss. [];
}

crypto-IsAead : IsAead crypto
crypto-IsAead = record {
  seal_round_trip = λ key nonce text aad. refl;
  seal_length = λ key nonce text aad. omega arith;
}

abbrev binding : KeyBinding
binding = record {
  scope = home;
  client_id = ascii "app:1";
  resource = ascii "doc:1";
  slot = ascii "main";
  key_resource = ascii "key:1";
  custody_owner = a_digest;
  key_version = pos 1;
  resource_revision = pos 4;
  lifecycle_generation = pos 1;
  payload_version = pos 2;
  object_digest = a_digest;
  invocation_id = ascii "op1";
  binding_id = ascii "b1";
  binding_revision = pos 3;
  principal = ascii "user:1";
  policy_digest = a_digest;
  expires_at = pos 1200;
}

abbrev cipher : Cipher
cipher = record { binding = binding; key = repeat 32 b'k' }

abbrev nonce : Bytes
nonce = repeat 12 b'n'

abbrev value : ResourceValue
value = record {
  format = resource_value_format;
  context = record { binding = binding; path = ascii "/title" };
  nonce = padded nonce;
  ciphertext = padded (repeat 16 b'p' ++ ascii "hi");
}

encrypts : encrypt_value toy crypto now (some nonce) (ascii "/title") (ascii "hi") cipher ≡ ok value
unfolding encrypt_value value_aad valid_context valid_binding valid_scope safe_positive line_char
    matches_invocation invocation_matches grant_matches scope_eq contains identifier is_digest
    bytes_eq
encrypts = refl

nonce-IsCoded : IsCoded toy nonce
unfolding url_char
nonce-IsCoded = record { decoded = refl; size = refl; alphabet = refl }

text-IsCoded : (aad : Bytes) → IsCoded toy (crypto.seal cipher.key nonce (ascii "hi") aad)
unfolding url_char
text-IsCoded aad = record { decoded = refl; size = refl; alphabet = refl }

decrypt_value-encrypt_value_example :
    decrypt_value toy crypto cipher.key value (record { binding = binding; path = ascii "/title" })
    ≡ ok (ascii "hi")
decrypt_value-encrypt_value_example =
    decrypt_value-encrypt_value toy crypto now cipher (ascii "/title") nonce (ascii "hi") value
      nonce-IsCoded text-IsCoded crypto-IsAead refl encrypts

abbrev object : Bytes
object = 1 ∷ repeat 28 b'p' ++ ascii "hi"

-- The toy cipher opens any wrapped key to its last 32 bytes.
opens : open_payload toy crypto now manifest object cipher ≡ ok (ascii "hi")
unfolding open_payload manifest_matches custody_manifest version_one payload_aad decode_base64
    url_char matches_invocation invocation_matches grant_matches scope_eq contains identifier
    is_digest bytes_eq
opens = refl

open_payload_sound_example :
    IsPayload toy binding manifest object
    × ((g : Authorization × SignedMessage) × (now.invocation ≡ some g) × IsLive binding now g.0)
open_payload_sound_example =
    open_payload_sound toy crypto now manifest object (ascii "hi") cipher opens

-- A callback that keeps a copy of its cipher, and panics.
abbrev state : ℕ
state = 5

abbrev dies : Handle → Callback Bytes
dies c memory = (panicked, memory)

abbrev blank : Memory
blank i = []

abbrev copy : Handle
copy = record { binding = binding; state = state }

binding-valid : valid_binding binding ≡ true
unfolding valid_binding valid_scope safe_positive identifier is_digest bytes_eq
binding-valid = refl

binding-matches : matches_invocation binding now ≡ true
unfolding matches_invocation invocation_matches grant_matches scope_eq contains bytes_eq
binding-matches = refl

with_resource_key_closes_example :
    ((with_resource_key now binding (repeat 32 b'k') state dies blank).0
      ≡ (dies
          (record { binding = binding; state = state })
          (write_key state (repeat 32 b'k') blank)).0)
    × (write_key state (repeat 32 b'k') blank state ≡ repeat 32 b'k')
    × (encrypt_value toy crypto now
          (some nonce)
          (ascii "/title")
          (ascii "hi")
          (cipher_at copy (with_resource_key now binding (repeat 32 b'k') state dies blank).1)
        ≡ err unauthorized)
    × (open_payload toy crypto now manifest object
          (cipher_at copy (with_resource_key now binding (repeat 32 b'k') state dies blank).1)
        ≡ err unauthorized)
    × ((with_resource_key now binding (repeat 32 b'k') state dies blank).1 6
        ≡ (dies
              (record { binding = binding; state = state })
              (write_key state (repeat 32 b'k') blank)).1
            6)
with_resource_key_closes_example =
    with_resource_key_closes toy crypto now now binding (repeat 32 b'k') state 6 dies blank copy
      (some nonce) (ascii "/title") (ascii "hi") object manifest refl binding-valid binding-matches
      refl (λ e. absurd (omega arith))

-- A custodian that uses its key by WithResourceKey.
abbrev custodian : KeyBinding → (Handle → Callback Bytes) → Callback Bytes
custodian b action = with_resource_key now b (repeat 32 b'k') state action

abbrev open_object : Handle → PayloadManifest → Callback Bytes
open_object c m memory =
    (returned (open_payload toy crypto now m object (cipher_at c memory)), memory)

custody_runs :
    (with_payload_custody toy crypto codec
      (ascii "s1")
      service_key
      now
      yes
      yes
      (ascii "app:1")
      (ascii "doc:1")
      (ascii "main")
      (pos 2)
      custodian
      open_object
      blank).0
    ≡ returned (ok (ascii "hi"))
unfolding custody_of in_custody write_key with_payload_custody binding_of checked_use
    with_resource_key valid_binding valid_scope safe_positive matches_invocation invocation_matches
    grant_matches scope_eq contains identifier is_digest bytes_eq custody_manifest open_payload
    manifest_matches version_one payload_aad decode_base64 url_char binding_eq texts numbers
    texts_eq numbers_eq
custody_runs = rw (identity_runs, access_runs) refl

with_payload_custody_sound_example :
    (b : KeyBinding) × (p : PayloadAccess) × (g : Authorization × SignedMessage) × ((custodian b
        (checked_use b p.manifest open_object)
        blank).0
      ≡ returned (ok (ascii "hi")))
    × IsCustody toy crypto codec
        (ascii "s1")
        service_key
        now
        yes
        (ascii "doc:1")
        (ascii "main")
        (pos 2)
        b
        p
        g
with_payload_custody_sound_example =
    with_payload_custody_sound toy crypto codec (ascii "s1") service_key now yes yes (ascii "app:1")
      (ascii "doc:1") (ascii "main") (pos 2) custodian open_object blank (ascii "hi") custody_runs
