-- ===== src/Bridge/Discovery/Tests.antt =====
-- The discovery of keys at one document of two keys.
use lotor_go.Common.{ℕ, ◌≡◌, refl, true, false, none, some, [], ◌∷◌, length}
use lotor_go.Common.Bytes.{Bytes, ascii, bytes_eq}
use lotor_go.Common.Results.{ok}
use lotor_go.Common.Text.{has_prefix, contains_text}
use lotor_go.Common.Http.{answered}
use lotor_go.Bridge.Platform.{Platform, Decoder}
use lotor_go.Bridge.Protocol.{identifier, graphic, strict_json}
use lotor_go.Bridge.Runtime.Admission.{find_key, is_none}
use lotor_go.Bridge.Transport.{Endpoint, Library, trim_slashes}
use lotor_go.Bridge.Discovery.{
  DocumentKey, Document, ControlKeys, Network, control_base_allowed, control_base_url, collect_keys,
  body_of, keys_of, discover_control_keys,
}
use lotor_go.Bridge.Discovery.Ring.{IsDiscovery, discover_control_keys_sound}

abbrev key_of : ℕ → Bytes
key_of c =
    c ∷ c ∷ c ∷ c ∷ c ∷ c ∷ c ∷ c ∷ c ∷ c ∷ c ∷ c ∷ c ∷ c ∷ c ∷ c ∷ c ∷ c ∷ c ∷ c ∷ c ∷ c ∷ c ∷ c
    ∷ c ∷ c ∷ c ∷ c ∷ c ∷ c ∷ c ∷ c ∷ []

-- Decodes a character to a key of it.
abbrev platform : Platform
platform = record {
  sha256_hex = λ b. b;
  ed25519_verify = λ key m s. true;
  ed25519_sign = λ key m. m;
  base64_encode = λ b. b;
  base64_decode = λ b. some (key_of (length b));
  marshal_functions = λ f. none;
  marshal_authorization = λ a. none;
  marshal_result = λ r. none;
  compact = λ b. some b;
  json_valid = λ b. true;
  decode_message = λ b. none;
  decode_authorization = λ b. none;
  decode_result = λ b. none;
  at_end = λ b. true;
  unmarshal_result = λ b. none;
}

abbrev origin : Endpoint
origin = record {
  scheme = ascii "https";
  host = ascii "control.example";
  hostname = ascii "control.example";
  port = [];
  path = ascii "/";
  raw_path = [];
  opaque = [];
  raw_query = [];
  fragment = [];
  has_user = false;
  force_query = false;
}

abbrev library : Library
library = record {
  trim_space = λ s. s;
  to_lower = λ s. s;
  parse_url = λ s. some origin;
  url_text = λ u. ascii "https://control.example/";
  atoi = λ s. none;
  split_host_port = λ s. none;
  join_host_port = λ h p. h;
  marshal_message = λ m. none;
  valid_request = λ u. true;
  media_type = λ s. some s;
  decode_message = λ s. none;
  at_end = λ s. true;
}

abbrev ed25519_key : Bytes → Bytes → DocumentKey
ed25519_key id text = record { key_id = id; algorithm = ascii "Ed25519"; public_key = text }

abbrev two_keys : Document
two_keys = record {
  issuer = ascii "control";
  keys = ed25519_key (ascii "k1") (ascii "a") ∷ ed25519_key (ascii "k2") (ascii "bc") ∷ [];
}

abbrev decode_document : Decoder Document
decode_document body = some (two_keys, [])

abbrev network : Network
network url = answered 200 (some (ascii "{}"))

abbrev ring : ControlKeys
ring = record {
  keys = (ascii "k2", key_of 2) ∷ (ascii "k1", key_of 1) ∷ [];
  issuer = ascii "control";
}

discovered :
    discover_control_keys platform library decode_document network
      (ascii "https://control.example/")
    ≡ ok ring
unfolding discover_control_keys control_base_url body_of keys_of collect_keys control_base_allowed
    strict_json identifier graphic find_key is_none contains_text has_prefix trim_slashes bytes_eq
discovered = refl

discover_control_keys_sound_example :
    IsDiscovery platform library decode_document network (ascii "https://control.example/") ring
discover_control_keys_sound_example =
    discover_control_keys_sound platform library decode_document network
      (ascii "https://control.example/") ring discovered
