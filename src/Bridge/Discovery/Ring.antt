-- ===== src/Bridge/Discovery/Ring.antt =====
-- What the keys that DiscoverControlKeys of bridge/discovery.go gives are.
use lotor_go.Common.{
  ℕ, suc, ◌+◌, ◌≤◌, ◌≡◌, refl, sym, ap, ◌∙◌, inl, inr, true, not, ◌&&◌, none, some, List, [], ◌∷◌,
  ◌++◌, ltb, ◌==◌, length, All, Bool-cases, arith,
}
use mathlib.Core.Path.{subst}
use mathlib.Core.Bool.{true≢false}
use lotor_go.Common.Bytes.{Bytes, ascii, bytes_eq, bytes_eq_iff}
use lotor_go.Common.Once.{Unseen, Once}
use lotor_go.Common.Results.{
  Result, ok, ◌>>=◌, ◌>>◌, require, found, >>=-eq-ok, require-eq-ok, found-eq-ok,
}
use lotor_go.Common.Http.{Reply, unreachable, answered}
use lotor_go.Bridge.Platform.{Platform, Decoder}
use lotor_go.Bridge.Protocol.{
  Error, invalid, unavailable, ed25519_public_key_size, identifier, strict_json,
}
use lotor_go.Bridge.Runtime.Admission.{find_key, is_none}
use lotor_go.Bridge.Transport.{Library}
use lotor_go.Bridge.Discovery.{
  DocumentKey, Document, ControlKeys, Network, keys_path, control_base_url, collect_keys, body_of,
  keys_of, discover_control_keys,
}

abbrev key_names : List (Bytes × Bytes) → List Bytes
key_names [] = []
key_names ((id, key) ∷ keys) = id ∷ key_names keys

-- Keys of the right size, each under its own identifier.
pub record IsRing (keys : List (Bytes × Bytes)) : Type 0 where
  pub distinct : Once (key_names keys)
  pub named : All (λ e. identifier e.0 256 ≡ true) keys
  pub sized : All (λ e. length e.1 ≡ 32) keys

missing-Unseen :
    (id : Bytes) (keys : List (Bytes × Bytes))
    → is_none (find_key id keys) ≡ true
    → Unseen id (key_names keys)
unfolding find_key is_none
missing-Unseen id [] h = tt
missing-Unseen id ((j, key) ∷ keys) h = elim (Bool-cases (bytes_eq j id)) [
  | inl own ↦ absurd (true≢false (sym (rw own at h)))
  | inr other ↦ (
    (λ same. true≢false (sym ((bytes_eq_iff j id).1 same) ∙ other)),
    missing-Unseen id keys (rw other at h),
  )
]

count_on : (n m k : ℕ) → n ≡ m + suc k → n ≡ suc m + k
count_on n m k h = omega arith

module _ (platform : Platform) (library : Library) (decode_document : Decoder Document) where
  collect_keys-IsRing :
      (vs : List DocumentKey) (keys : List (Bytes × Bytes)) {result : List (Bytes × Bytes)}
      → collect_keys platform library decode_document vs keys ≡ ok result
      → IsRing keys
      → IsRing result × (length result ≡ length vs + length keys)
  unfolding collect_keys
  collect_keys-IsRing [] keys {result} e ring =
      let same : keys ≡ result = cc in
      subst (λ r. IsRing r × (length r ≡ 0 + length keys)) same (ring, omega arith)
  collect_keys-IsRing (v ∷ vs) keys e ring =
      let next : Bytes → Result Error (List (Bytes × Bytes)) = λ public.
        require (length public == ed25519_public_key_size) unavailable
        >> collect_keys platform library decode_document vs ((v.key_id, public) ∷ keys) in
      let (tests, e1) =
        require-eq-ok
          (identifier v.key_id 256
            && (bytes_eq v.algorithm (ascii "Ed25519") && is_none (find_key v.key_id keys)))
          unavailable (found (platform.base64_decode v.public_key) unavailable >>= next) e in
      let (public, decoded, e2) =
        found-eq-ok (platform.base64_decode v.public_key) unavailable next e1 in
      let (size, e3) =
        require-eq-ok (length public == ed25519_public_key_size) unavailable
          (collect_keys platform library decode_document vs ((v.key_id, public) ∷ keys)) e2 in
      let name : identifier v.key_id 256 ≡ true = ground arith in
      let absent : is_none (find_key v.key_id keys) ≡ true = ground arith in
      let (more, count) = collect_keys-IsRing vs ((v.key_id, public) ∷ keys) e3 (record {
        distinct = (missing-Unseen v.key_id keys absent, ring.distinct);
        named = (name, ring.named);
        sized = (ground arith, ring.sized);
      }) in
      (more, count_on _ (length vs) (length keys) count)

-- What DiscoverControlKeys has seen where it succeeds.
pub record IsDiscovery (platform : Platform) (library : Library)
    (decode_document : Decoder Document) (network : Network) (raw : Bytes) (result : ControlKeys)
    : Type 0 where
  pub base : Bytes
  pub body : Bytes
  pub document : Document
  pub at_origin : control_base_url platform library decode_document raw ≡ ok base
  pub answer : network (base ++ keys_path) ≡ answered 200 (some body)
  pub bounded : length body ≤ 65536
  pub strict : strict_json platform decode_document body ≡ some document
  pub issuer : result.issuer ≡ document.issuer
  pub issuer_named : identifier result.issuer 256 ≡ true
  pub some_keys : 1 ≤ length result.keys
  pub few_keys : length result.keys ≤ 8
  pub all_keys : length result.keys ≡ length document.keys
  pub ring : IsRing result.keys

module _ (platform : Platform) (library : Library) (decode_document : Decoder Document) where
  body_of-bound :
      (reply : Reply) {body : Bytes}
      → body_of platform library decode_document reply ≡ ok body
      → (reply ≡ answered 200 (some body)) × (length body ≤ 65536)
  unfolding body_of
  body_of-bound unreachable e = cc
  body_of-bound (answered status none) e = cc
  body_of-bound (answered status (some raw)) {body} e =
      let (good, e1) = require-eq-ok (status == 200) unavailable _ e in
      let (small, e2) = require-eq-ok (not (ltb 65536 (length raw))) unavailable (ok raw) e1 in
      let same : raw ≡ body = cc in
      let success : status ≡ 200 = ground arith in
      subst (λ b. (answered status (some raw) ≡ answered 200 (some b)) × (length b ≤ 65536)) same
        (ap (λ n. answered n (some raw)) success, ground arith)

  -- What `keys_of` has seen of a body.
  record Reading (body : Bytes) (result : ControlKeys) : Type 0 where
    document : Document
    strict : strict_json platform decode_document body ≡ some document
    issuer : result.issuer ≡ document.issuer
    named : identifier document.issuer 256 ≡ true
    some_keys : 1 ≤ length document.keys
    few_keys : length document.keys ≤ 8
    all_keys : length result.keys ≡ length document.keys
    ring : IsRing result.keys

  keys_of-Reading :
      (body : Bytes) {result : ControlKeys}
      → keys_of platform library decode_document body ≡ ok result
      → Reading body result
  unfolding keys_of
  keys_of-Reading body {result} e =
      let (document, strict, e1) =
        found-eq-ok (strict_json platform decode_document body) unavailable _ e in
      let (tests, e2) =
        require-eq-ok
          (identifier document.issuer 256
            && (not (ltb (length document.keys) 1) && not (ltb 8 (length document.keys))))
          unavailable _ e1 in
      let (keys, added, e3) =
        >>=-eq-ok (collect_keys platform library decode_document document.keys []) _ e2 in
      let (ring, count) =
        collect_keys-IsRing platform library decode_document document.keys [] added
          (record { distinct = tt; named = tt; sized = tt }) in
      let same : record { keys = keys; issuer = document.issuer } ≡ result = cc in
      subst (Reading body) same (record {
        document = document;
        strict = strict;
        issuer = refl;
        named = ground arith;
        some_keys = ground arith;
        few_keys = ground arith;
        all_keys = omega arith;
        ring = ring;
      })

-- Where DiscoverControlKeys succeeds, Control's configured HTTPS origin has answered its one request
-- with status 200 and at most 65536 bytes of one strict document; the issuer is the document's and
-- an identifier; and the keys are from one to eight, as many as the document lists, each of 32 bytes
-- under an identifier of its own.
pub discover_control_keys_sound :
    (platform : Platform) (library : Library) (decode_document : Decoder Document)
    (network : Network) (raw : Bytes) (result : ControlKeys)
    → discover_control_keys platform library decode_document network raw ≡ ok result
    → IsDiscovery platform library decode_document network raw result
unfolding discover_control_keys
discover_control_keys_sound platform library decode_document network raw result e =
    let (base, at_origin, e1) =
      >>=-eq-ok (control_base_url platform library decode_document raw) _ e in
    let (valid, e2) = require-eq-ok (library.valid_request (base ++ keys_path)) invalid _ e1 in
    let (body, taken, e3) =
      >>=-eq-ok (body_of platform library decode_document (network (base ++ keys_path))) _ e2 in
    let (answer, bounded) =
      body_of-bound platform library decode_document (network (base ++ keys_path)) taken in
    let reading = keys_of-Reading platform library decode_document body e3 in
    let at_least = reading.some_keys in
    let at_most = reading.few_keys in
    let all_keys = reading.all_keys in
    record {
      base = base;
      body = body;
      document = reading.document;
      at_origin = at_origin;
      answer = answer;
      bounded = bounded;
      strict = reading.strict;
      issuer = reading.issuer;
      issuer_named = rw reading.issuer reading.named;
      some_keys = omega arith;
      few_keys = omega arith;
      all_keys = all_keys;
      ring = reading.ring;
    }
