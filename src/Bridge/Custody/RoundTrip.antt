-- ===== src/Bridge/Custody/RoundTrip.antt =====
-- What EncryptValue wrote is read by DecryptResourceValue, in the context that it was written for.
use lotor_go.Common.{
  ℕ, ◌+◌, ◌≤◌, ◌≡◌, refl, sym, ap, ◌∙◌, true, not, ◌&&◌, some, List, [], ◌∷◌, ltb, leb, ◌==◌,
  length, all, arith,
}
use lotor_go.Common.Bytes.{Bytes, bytes_eq_refl}
use lotor_go.Common.Int.{ℤ, pos, negsuc, eqz}
use lotor_go.Bridge.Platform.{Scope, Platform}
use lotor_go.Bridge.Protocol.{invalid, unauthorized, maximum_input_bytes, encoded_len}
use lotor_go.Bridge.Runtime.{scope_eq}
use lotor_go.Common.Results.{>>=-eq-ok, require-eq-ok}
use lotor_go.Bridge.Resource.{ok, Context}
use lotor_go.Bridge.Custody.{
  KeyBinding, ValueContext, ResourceValue, Cipher, Crypto, resource_value_format, texts, numbers,
  texts_eq, numbers_eq, binding_eq, context_eq, matches_invocation, url_char, value_aad,
  decode_base64, encrypt_value, decrypt_value,
}

texts_eq_refl : (ss : List Bytes) → texts_eq ss ss ≡ true
unfolding texts_eq
texts_eq_refl [] = refl
texts_eq_refl (s ∷ ss) = rw (bytes_eq_refl s, texts_eq_refl ss) refl

eqz_refl : (a : ℤ) → eqz a a ≡ true
eqz_refl (pos n) = ground arith
eqz_refl (negsuc n) = ground arith

numbers_eq_refl : (xs : List ℤ) → numbers_eq xs xs ≡ true
unfolding numbers_eq
numbers_eq_refl [] = refl
numbers_eq_refl (a ∷ xs) = rw (eqz_refl a, numbers_eq_refl xs) refl

scope_eq_refl : (s : Scope) → scope_eq s s ≡ true
unfolding scope_eq
scope_eq_refl s =
    rw
      (
        bytes_eq_refl s.tenant_id,
        bytes_eq_refl s.application_id,
        bytes_eq_refl s.environment_id,
        bytes_eq_refl s.owner_resource,
      )
      refl

pub binding_eq_refl : (b : KeyBinding) → binding_eq b b ≡ true
unfolding binding_eq
binding_eq_refl b =
    rw (scope_eq_refl b.scope, texts_eq_refl (texts b), numbers_eq_refl (numbers b)) refl

context_eq_refl : (c : ValueContext) → context_eq c c ≡ true
unfolding context_eq
context_eq_refl c = rw (binding_eq_refl c.binding, bytes_eq_refl c.path) refl

-- What the code relies on of `base64.RawURLEncoding`, for these bytes.
pub record IsCoded (platform : Platform) (b : Bytes) : Type 0 where
  pub decoded : platform.base64_decode (platform.base64_encode b) ≡ some b
  pub size : length (platform.base64_encode b) ≡ encoded_len (length b)
  pub alphabet : all url_char (platform.base64_encode b) ≡ true

-- What the code relies on of AES-GCM.
pub record IsAead (crypto : Crypto) : Type 0 where
  pub seal_round_trip :
      (key nonce text aad : Bytes)
      → crypto.unseal key nonce (crypto.seal key nonce text aad) aad ≡ some text
  pub seal_length :
      (key nonce text aad : Bytes) → length (crypto.seal key nonce text aad) ≡ length text + 16

encoded_len_mono : (n m : ℕ) → n ≤ m → encoded_len n ≤ encoded_len m
encoded_len_mono n m h = omega arith

module _ (platform : Platform) (crypto : Crypto) where
  decode_base64-encode :
      (b : Bytes)
      → IsCoded platform b
      → decode_base64 platform crypto (platform.base64_encode b) ≡ ok b
  unfolding decode_base64
  decode_base64-encode b coded = rw (coded.alphabet, coded.decoded) refl

  sealed : Cipher → Bytes → Bytes → Bytes → Bytes → ResourceValue
  sealed c path nonce text aad = record {
    format = resource_value_format;
    context = record { binding = c.binding; path = path };
    nonce = platform.base64_encode nonce;
    ciphertext = platform.base64_encode (crypto.seal c.key nonce text aad);
  }

  decrypt_value-sealed :
      (c : Cipher) (path nonce text aad : Bytes)
      → IsCoded platform nonce
      → IsCoded platform (crypto.seal c.key nonce text aad)
      → IsAead crypto
      → length nonce ≡ 12
      → length c.key ≡ 32
      → length text ≤ maximum_input_bytes
      → value_aad platform crypto (record { binding = c.binding; path = path }) ≡ ok aad
      → decrypt_value platform crypto c.key
          (sealed c path nonce text aad)
          (record { binding = c.binding; path = path })
        ≡ ok text
  unfolding decrypt_value sealed
  decrypt_value-sealed c path nonce text aad coded_nonce coded aead n k small e =
      let secret = crypto.seal c.key nonce text aad in
      let context : ValueContext = record { binding = c.binding; path = path } in
      let nonce_size : (length (platform.base64_encode nonce) == encoded_len 12) ≡ true =
        ground (arith, coded_nonce.size) in
      let text_size : leb (length (platform.base64_encode secret))
            (encoded_len (maximum_input_bytes + 16))
          ≡ true =
        ground (
          arith,
          coded.size,
          aead.seal_length c.key nonce text aad,
          encoded_len_mono (length secret) (maximum_input_bytes + 16),
        ) in
      let key_size : (length c.key == 32) ≡ true = ground arith in
      let nonce_bytes : (length nonce == 12) ≡ true = ground arith in
      rw
        (
          bytes_eq_refl resource_value_format,
          context_eq_refl context,
          nonce_size,
          text_size,
          e,
          key_size,
          decode_base64-encode nonce coded_nonce,
          nonce_bytes,
          decode_base64-encode secret coded,
          aead.seal_round_trip c.key nonce text aad,
        )
        refl

  -- A value that EncryptValue gives is decrypted by the holder of the key to the plaintext, in the
  -- context of the cipher's binding and path. The random source gave 12 bytes, AES-GCM opens what it
  -- sealed, 16 bytes longer, and base64 decodes what it encoded, of the documented length.
  pub decrypt_value-encrypt_value :
      (ctx : Context) (c : Cipher) (path nonce text : Bytes) (v : ResourceValue)
      → IsCoded platform nonce
      → ((aad : Bytes) → IsCoded platform (crypto.seal c.key nonce text aad))
      → IsAead crypto
      → length nonce ≡ 12
      → encrypt_value platform crypto ctx (some nonce) path text c ≡ ok v
      → decrypt_value platform crypto c.key v (record { binding = c.binding; path = path })
        ≡ ok text
  unfolding encrypt_value sealed
  decrypt_value-encrypt_value ctx c path nonce text v coded_nonce coded aead n h =
      let context : ValueContext = record { binding = c.binding; path = path } in
      let (live, h1) =
        require-eq-ok (length c.key == 32 && matches_invocation c.binding ctx) unauthorized _ h in
      let (aad, e, h2) = >>=-eq-ok (value_aad platform crypto context) _ h1 in
      let (small, h3) = require-eq-ok (not (ltb maximum_input_bytes (length text))) invalid _ h2 in
      let size : length c.key ≡ 32 = ground arith in
      let fits : length text ≤ maximum_input_bytes = ground arith in
      let same : sealed c path nonce text aad ≡ v = cc in
      ap (λ (x : ResourceValue). decrypt_value platform crypto c.key x context) (sym same)
      ∙ decrypt_value-sealed c path nonce text aad coded_nonce (coded aad) aead n size fits e
