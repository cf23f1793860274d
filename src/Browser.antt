-- ===== src/Browser.antt =====
-- lotorhttp/browseradapter: the cookie boundary between a browser and Control. What the code takes
-- from net/url, net/http and encoding/json is the record `Library`.
pub mod Routes
pub mod Request
use lotor_go.Common.{
  ℕ, ◌+◌, ◌*◌, ◌^◌, Bool, true, false, not, ◌&&◌, ◌||◌, Option, none, some, List, [], ◌∷◌, ◌++◌,
  ltb, leb, ◌==◌, if◌then◌else◌, length, all,
}
use lotor_go.Common.Bytes.{Bytes, ascii, bytes_eq}
use lotor_go.Common.Options.{guard, ◌>>=◌, ◌>>◌}

-- `url.URL`, with its `Hostname` and `String`.
pub record Url : Type 0 where
  pub scheme : Bytes
  pub host : Bytes
  pub hostname : Bytes
  pub path : Bytes
  pub opaque : Bytes
  pub raw_query : Bytes
  pub fragment : Bytes
  pub has_user : Bool
  pub force_query : Bool
  pub text : Bytes

pub record Config : Type 0 where
  pub api_url : Bytes
  pub browser_origin : Bytes
  pub client_id : Bytes
  pub publishable_key : Bytes
  pub secret_key : Bytes

pub record Adapter : Type 0 where
  pub config : Config
  -- `origin.Host`
  pub host : Bytes
  pub secure : Bool

pub record EncryptionClaim : Type 0 where
  pub id : Bytes
  pub required : Bool

-- The fields of the answer to a verification.
pub record Verified : Type 0 where
  pub claim : Option EncryptionClaim
  pub access_token : Bytes
  pub subject : Bytes
  pub email : Bytes

pub record Library : Type 0 where
  -- `url.Parse`
  pub parse_url : Bytes → Option Url
  -- `url.PathUnescape`
  pub path_unescape : Bytes → Option Bytes
  -- `url.ParseQuery`: each key once, with its values
  pub parse_query : Bytes → Option (List (Bytes × List Bytes))
  -- whether `http.NewRequestWithContext` takes the method and the URL
  pub valid_request : Bytes → Bytes → Bool
  -- whether a cookie of this name and value is valid
  pub valid_cookie : Bytes → Bytes → Bool
  pub json_valid : Bytes → Bool
  pub unmarshal_verified : Bytes → Option Verified
  -- the claim, the subject and the email, marked as authenticated
  pub encode_verified : Option EncryptionClaim → Bytes → Bytes → Bytes
  pub base64_encode : Bytes → Bytes

abbrev pub route_prefix : Bytes
route_prefix = ascii "/.lotor/v1"

alphanumeric : ℕ → Bool
alphanumeric c =
    (leb b'A' c && leb c b'Z') || ((leb b'a' c && leb c b'z') || (leb b'0' c && leb c b'9'))

client_char : ℕ → Bool
unfolding alphanumeric
client_char c = alphanumeric c || (c == b'_' || c == b'-')

stream_char : ℕ → Bool
unfolding client_char
stream_char c = client_char c || c == b'.'

-- `clientIDPattern`
unfoldable pub is_client_id : Bytes → Bool
unfolding client_char
is_client_id s = leb 1 (length s) && (leb (length s) 256 && all client_char s)

-- `eventStreamPattern`
unfoldable pub is_event_stream : Bytes → Bool
unfolding client_char stream_char
is_event_stream [] = false
is_event_stream (c ∷ s) = client_char c && (leb (length s) 127 && all stream_char s)

visible : ℕ → Bool
visible c = not (ltb c 33 || ltb 126 c)

-- `validValue`; a byte from 128 on belongs to a rune that is refused too.
unfoldable pub valid_value : Bytes → Bool
unfolding visible
valid_value s = not (length s == 0 || ltb 4096 (length s)) && all visible s

-- `equal`
unfoldable pub equal : Bytes → Bytes → Bool
equal a b = not (bytes_eq a []) && bytes_eq a b

is_loopback : Bytes → Bool
is_loopback name =
    bytes_eq name (ascii "localhost")
    || (bytes_eq name (ascii "127.0.0.1") || bytes_eq name (ascii "::1"))

module _ (library : Library) where
  open library use {parse_url}

  -- `originURL`
  origin_url : Bytes → Option Url
  origin_url raw = do
    u ← parse_url raw
    guard (not (bytes_eq u.host []))
    guard (not u.has_user)
    guard (bytes_eq u.opaque [] && (bytes_eq u.path [] && bytes_eq u.raw_query []))
    guard (not u.force_query && bytes_eq u.fragment [])
    some u

  -- `New`
  pub new_adapter : Config → Option Adapter
  unfolding origin_url is_loopback
  new_adapter c = do
    remote ← origin_url c.api_url
    guard (bytes_eq remote.scheme (ascii "https"))
    origin ← origin_url c.browser_origin
    guard (
        bytes_eq origin.scheme (ascii "https")
        || (bytes_eq origin.scheme (ascii "http") && is_loopback origin.hostname))
    guard (is_client_id c.client_id)
    guard (valid_value c.publishable_key)
    guard (valid_value c.secret_key)
    some (record {
      config = record c { api_url = remote.text; browser_origin = origin.text };
      host = origin.host;
      secure = bytes_eq origin.scheme (ascii "https");
    })
