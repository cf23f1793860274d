-- ===== src/Bridge/Discovery.antt =====
-- bridge/discovery.go: the keys of Control, from its configured origin. The network answers one
-- request; net/url is `Library`, and the strict JSON decoder is that of `Platform`.
pub mod Ring
mod Tests
use lotor_go.Common.{
  ℕ, Bool, true, false, not, ◌&&◌, ◌||◌, Option, none, some, List, [], ◌∷◌, ◌++◌, ltb, ◌==◌,
  if◌then◌else◌, length,
}
use lotor_go.Common.Bytes.{Bytes, ascii, bytes_eq}
use lotor_go.Common.Results.{Result, ok, err, ◌>>=◌, ◌>>◌, require, found}
use lotor_go.Common.Text.{contains_text}
use lotor_go.Common.Http.{Reply, unreachable, answered}
use lotor_go.Bridge.Platform.{Platform, Decoder}
use lotor_go.Bridge.Protocol.{
  Error, invalid, unavailable, identifier, strict_json, ed25519_public_key_size,
}
use lotor_go.Bridge.Runtime.Admission.{find_key, is_none}
use lotor_go.Bridge.Transport.{Endpoint, Library, trim_slashes}

-- An element of `document.Keys`.
pub record DocumentKey : Type 0 where
  pub key_id : Bytes
  pub algorithm : Bytes
  pub public_key : Bytes

pub record Document : Type 0 where
  pub issuer : Bytes
  pub keys : List DocumentKey

pub record ControlKeys : Type 0 where
  pub keys : List (Bytes × Bytes)
  pub issuer : Bytes

-- A `GET` with `Accept: application/json` of the URL.
abbrev pub Network : Type 0
Network = Bytes → Reply

abbrev pub keys_path : Bytes
keys_path = ascii "/.well-known/lotor-function-keys.json"

unfoldable pub control_base_allowed : Endpoint → Bytes → Bool
control_base_allowed u raw =
    bytes_eq u.scheme (ascii "https")
    && (not (bytes_eq u.hostname [])
        && (not u.has_user
            && (bytes_eq u.raw_query []
                && (not u.force_query
                    && (bytes_eq u.fragment [] && not (contains_text (ascii "#") raw))))))

module _ (platform : Platform) (library : Library) (decode_document : Decoder Document) where
  -- `controlBaseURL`
  unfoldable pub control_base_url : Bytes → Result Error Bytes
  control_base_url raw = do
    u ← found (library.parse_url raw) invalid
    require (control_base_allowed u raw) invalid
    ok (trim_slashes (library.url_text u))

  -- The loop over `document.Keys`, with the map so far.
  unfoldable pub collect_keys :
      List DocumentKey → List (Bytes × Bytes) → Result Error (List (Bytes × Bytes))
  collect_keys [] keys = ok keys
  collect_keys (v ∷ vs) keys = do
    require
        (identifier v.key_id 256
          && (bytes_eq v.algorithm (ascii "Ed25519") && is_none (find_key v.key_id keys)))
        unavailable
    public ← found (platform.base64_decode v.public_key) unavailable
    require (length public == ed25519_public_key_size) unavailable
    collect_keys vs ((v.key_id, public) ∷ keys)

  -- The body of the answer, of at most 65536 bytes.
  unfoldable pub body_of : Reply → Result Error Bytes
  body_of unreachable = err unavailable
  body_of (answered status none) = err unavailable
  body_of (answered status (some body)) = do
    require (status == 200) unavailable
    require (not (ltb 65536 (length body))) unavailable
    ok body

  unfoldable pub keys_of : Bytes → Result Error ControlKeys
  unfolding collect_keys
  keys_of body = do
    document ← found (strict_json platform decode_document body) unavailable
    require
        (identifier document.issuer 256
          && (not (ltb (length document.keys) 1) && not (ltb 8 (length document.keys))))
        unavailable
    keys ← collect_keys document.keys []
    ok (record { keys = keys; issuer = document.issuer })

  -- `DiscoverControlKeys`
  pub discover_control_keys : Network → Bytes → Result Error ControlKeys
  unfolding control_base_url body_of keys_of
  discover_control_keys network raw = do
    base ← control_base_url raw
    require (library.valid_request (base ++ keys_path)) invalid
    body ← body_of (network (base ++ keys_path))
    keys_of body
