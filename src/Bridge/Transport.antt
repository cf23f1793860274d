-- ===== src/Bridge/Transport.antt =====
-- bridge/transport/https.go: direct HTTPS to registered endpoints. Addresses are those of net/netip,
-- which is the record `Netip`; `Library` is what the code takes from net/url, mime and encoding/json.
pub mod Dial
pub mod Send
mod Tests
use lotor_go.Common.{
  ℕ, ◌+◌, ◌*◌, ◌^◌, Bool, true, false, not, ◌&&◌, ◌||◌, Option, none, some, List, [], ◌∷◌, ◌++◌,
  ltb, leb, ◌==◌, if◌then◌else◌, length, all,
}
use lotor_go.Common.Bytes.{Bytes, ascii, bytes_eq}
use lotor_go.Common.Int.{ℤ, pos, ltz}
use lotor_go.Common.Options.{guard, ◌>>=◌, ◌>>◌}
use lotor_go.Common.Text.{has_suffix, contains_text, trim_suffix, split_at}
use lotor_go.Bridge.Platform.{SignedMessage}
use lotor_go.Bridge.Protocol.{Error, invalid, unavailable, maximum_body_bytes}

pub record Netip (Addr : Type 0) : Type 0 where
  pub parse_addr : Bytes → Option Addr
  pub text : Addr → Bytes
  pub unmap : Addr → Addr
  pub is_valid : Addr → Bool
  pub is_global_unicast : Addr → Bool
  pub is_private : Addr → Bool
  pub is_loopback : Addr → Bool
  pub is_link_local_unicast : Addr → Bool
  -- `netip.MustParsePrefix(p).Contains`
  pub in_prefix : Bytes → Addr → Bool

-- `url.URL`, with its `Hostname` and `Port`.
pub record Endpoint : Type 0 where
  pub scheme : Bytes
  pub host : Bytes
  pub hostname : Bytes
  pub port : Bytes
  pub path : Bytes
  pub raw_path : Bytes
  pub opaque : Bytes
  pub raw_query : Bytes
  pub fragment : Bytes
  pub has_user : Bool
  pub force_query : Bool

pub record Library : Type 0 where
  -- `strings.TrimSpace` and `strings.ToLower`
  pub trim_space : Bytes → Bytes
  pub to_lower : Bytes → Bytes
  pub parse_url : Bytes → Option Endpoint
  -- `String` of the URL
  pub url_text : Endpoint → Bytes
  pub atoi : Bytes → Option ℤ
  -- `net.SplitHostPort` and `net.JoinHostPort`
  pub split_host_port : Bytes → Option (Bytes × Bytes)
  pub join_host_port : Bytes → Bytes → Bytes
  pub marshal_message : SignedMessage → Option Bytes
  -- whether `http.NewRequestWithContext` takes the URL
  pub valid_request : Bytes → Bool
  -- the type of `mime.ParseMediaType`
  pub media_type : Bytes → Option Bytes
  -- `json.Decoder` with `DisallowUnknownFields`: the value, and the text behind it
  pub decode_message : Bytes → Option (SignedMessage × Bytes)
  -- whether a further `Decode` gives `io.EOF`
  pub at_end : Bytes → Bool

-- The fields of `tls.Config` that the code reads; versions as the numbers of TLS.
pub record TlsConfig : Type 0 where
  pub insecure_skip_verify : Bool
  pub server_name : Bytes
  pub min_version : ℕ
  pub max_version : ℕ
  pub certificates : ℕ
  pub get_client_certificate : Bool

abbrev pub version_tls12 : ℕ
version_tls12 = 0x0303

-- `tlsConfiguration` of `New`; `none` is `ErrInvalid`.
pub tls_configuration : Option TlsConfig → Option TlsConfig
tls_configuration none = some (record {
  insecure_skip_verify = false;
  server_name = [];
  min_version = version_tls12;
  max_version = 0;
  certificates = 0;
  get_client_certificate = false;
})
tls_configuration (some c) =
    let minimum = if ltb c.min_version version_tls12 then version_tls12 else c.min_version in
    if c.insecure_skip_verify || not (bytes_eq c.server_name [])
    then none
    else if not (c.max_version == 0) && ltb c.max_version minimum
    then none
    else some (record c { min_version = minimum })

-- `mutualTLS`
pub mutual_tls_configured : TlsConfig → Bool
mutual_tls_configured c = ltb 0 c.certificates || c.get_client_certificate

pub blocked_prefixes : List Bytes
blocked_prefixes =
    ascii "0.0.0.0/8"
    ∷ ascii "100.64.0.0/10"
    ∷ ascii "192.0.0.0/24"
    ∷ ascii "192.0.2.0/24"
    ∷ ascii "198.18.0.0/15"
    ∷ ascii "198.51.100.0/24"
    ∷ ascii "203.0.113.0/24"
    ∷ ascii "240.0.0.0/4"
    ∷ ascii "2001:db8::/32"
    ∷ ascii "2002::/16"
    ∷ ascii "64:ff9b::/96"
    ∷ ascii "64:ff9b:1::/48"
    ∷ ascii "::/96"
    ∷ ascii "2001::/32"
    ∷ ascii "fec0::/10"
    ∷ []

-- A segment of a path that names a folder above.
pub is_dots : Bytes → Bool
is_dots s = bytes_eq s (ascii ".") || bytes_eq s (ascii "..")

-- `strings.TrimRight(s, "/")`
unfoldable pub trim_slashes : Bytes → Bytes
trim_slashes [] = []
trim_slashes (c ∷ s) =
    let rest = trim_slashes s in if length rest == 0 && c == b'/' then [] else c ∷ rest

pub local_host : Bytes → Bool
local_host host =
    bytes_eq host (ascii "localhost")
    || (has_suffix (ascii ".localhost") host
        || (has_suffix (ascii ".local") host || contains_text (ascii "%") host))

pub operation_known : Bytes → Bool
operation_known op = bytes_eq op (ascii "challenge") || bytes_eq op (ascii "invoke")

module _ {Addr : Type 0} (netip : Netip Addr) where
  open netip use {
    parse_addr, unmap, is_valid, is_global_unicast, is_private, is_loopback, is_link_local_unicast,
    in_prefix,
  }

  unmapped_public : Addr → Bool
  unmapped_public a =
      is_valid a
      && (is_global_unicast a
          && (not (is_private a)
              && (not (is_loopback a)
                  && (not (is_link_local_unicast a)
                      && all (λ p. not (in_prefix p a)) blocked_prefixes))))

  -- `publicAddress`
  pub public_address : Addr → Bool
  unfolding unmapped_public
  public_address a = unmapped_public (unmap a)

  pub literal_allowed : Option Addr → Bool
  unfolding public_address
  literal_allowed none = true
  literal_allowed (some a) = public_address a

  module _ (library : Library) where
    open library use {trim_space, to_lower, parse_url, atoi, url_text}

    valid_port : Bytes → Option ℤ → Bool
    valid_port port none = bytes_eq port []
    valid_port port (some n) = bytes_eq port [] || (not (ltz n (pos 1)) && not (ltz (pos 65535) n))

    -- The host of an endpoint as it is compared.
    pub plain_host : Endpoint → Bytes
    plain_host u = trim_suffix (ascii ".") (to_lower u.hostname)

    -- `ValidateEndpoint`; `none` is `ErrInvalid`.
    pub validate_endpoint : Bytes → Option Endpoint
    unfolding is_dots local_host valid_port literal_allowed plain_host
    validate_endpoint endpoint = do
      guard (bytes_eq endpoint (trim_space endpoint))
      guard (leb (length endpoint) 2048 && not (contains_text (ascii "#") endpoint))
      u ← parse_url endpoint
      guard (bytes_eq u.scheme (ascii "https") && not (bytes_eq u.hostname []))
      guard (not u.has_user && (bytes_eq u.raw_query [] && not u.force_query))
      guard (bytes_eq u.fragment [] && (bytes_eq u.opaque [] && bytes_eq u.raw_path []))
      guard (not (contains_text (92 ∷ []) u.path) && not (contains_text (ascii "//") u.path))
      guard (all (λ s. not (is_dots s)) (split_at b'/' u.path))
      guard (not (local_host (plain_host u)))
      guard (not (has_suffix (ascii ":") u.host))
      guard (valid_port u.port (atoi u.port))
      guard (literal_allowed (parse_addr (plain_host u)))
      some u
