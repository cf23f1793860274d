-- ===== src/Browser/Request/Reply/Tests.antt =====
-- The theorems on the browser adapter at a concrete search for resources.
use lotor_go.Common.{◌≡◌, refl, ◌⊎◌, true, false, Option, none, some, [], ◌∷◌, All}
use lotor_go.Common.Bytes.{ascii, bytes_eq}
use lotor_go.Common.Int.{pos}
use lotor_go.Common.Results.{ok}
use lotor_go.Common.Text.{
  has_prefix, has_suffix, contains_text, trim_prefix, trim_suffix, split_at, add_to_first,
}
use lotor_go.Browser.{Adapter, Library, valid_value, equal}
use lotor_go.Browser.Routes.{is_get, is_post, is_delete, resource_route}
use lotor_go.Browser.Routes.Tests.{search_route, search_query}
use lotor_go.Browser.Routes.Confined.{IsConfined, resource_route-IsConfined}
use lotor_go.Browser.Request.{
  Incoming, Remote, cookies_named, only_one, cookie_value, path_of, plain_route, same_origin,
  body_limit, read_body, first_part, token_of, tokens_of, idempotency_of, bearer_of, remote_url,
  outgoing, valid_body, admitted, forwarded, prepared, prepare,
}
use lotor_go.Browser.Request.Authority.{IsAdmitted, IsForwarded, prepare_sound}
use lotor_go.Browser.Request.Reply.{
  Answer, sent, token_cookie, link_cookie, payload_cookie, execution_cookie, tokens_set, passed_on,
  accepted, judged, read_payload, payload_limit, answered, served, serve,
}
use lotor_go.Browser.Request.Reply.Cookies.{IsGuarded, serve_cookies}
use lotor_go.Browser.Request.Reply.Sent.{IsAnswer, serve-sent}

abbrev library : Library
library = record {
  parse_url = λ s. none;
  path_unescape = λ s. some s;
  parse_query = λ s. some [];
  valid_request = λ m u. true;
  valid_cookie = λ n v. true;
  json_valid = λ s. true;
  unmarshal_verified = λ s. none;
  encode_verified = λ c s e. [];
  base64_encode = λ s. s;
}

abbrev adapter : Adapter
adapter = record {
  config = record {
    api_url = ascii "https://api.example";
    browser_origin = ascii "https://app.example";
    client_id = ascii "app_1";
    publishable_key = ascii "pk_1";
    secret_key = ascii "sk_1";
  };
  host = ascii "app.example";
  secure = true;
}

abbrev search : Incoming
search = record {
  host = ascii "app.example";
  origin = ascii "https://app.example";
  fetch_site = ascii "same-origin";
  publishable_key = ascii "pk_1";
  csrf = ascii "c1";
  content_type = ascii "application/json; charset=utf-8";
  lotor_request = ascii "lotor-js-v1";
  idempotency = [];
  cookies =
      (ascii "__Host-lotor_session", ascii "s1") ∷ (ascii "__Host-lotor_csrf", ascii "c1") ∷ [];
  method = ascii "POST";
  path = ascii "/.lotor/v1/resources/search";
  raw_path = [];
  escaped_path = ascii "/.lotor/v1/resources/search";
  raw_query = [];
  force_query = false;
  content_length = pos 2;
  body = some (ascii "{}");
}

abbrev found : Remote
found = record {
  method = ascii "POST";
  url = ascii "https://api.example/v1/public/applications/app_1/resources/search";
  raw_query = [];
  body = ascii "{}";
  tokens = record { claim = none; link = none; payload = none; execution = none };
  secret_key = none;
  publishable_key = ascii "pk_1";
  lotor_request = true;
  idempotency = none;
  bearer = some (ascii "s1");
}

abbrev answer : Answer
answer = record {
  status = 200;
  payload = some (ascii "[]");
  retry_after = [];
  claim_token = [];
  link_token = [];
  payload_token = [];
  execution_token = [];
}

abbrev control : Remote → Option Answer
control m = some answer

resource_route-IsConfined_example : IsConfined (ascii "POST") (ascii "/.lotor/v1/resources/search")
resource_route-IsConfined_example =
    resource_route-IsConfined library (ascii "POST") (ascii "/.lotor/v1/resources/search")
      (search_route library)

prepares : prepare library adapter search ≡ ok found
unfolding prepare prepared admitted forwarded outgoing tokens_of token_of idempotency_of bearer_of
    remote_url valid_body first_part read_body body_limit same_origin plain_route path_of
    cookie_value only_one cookies_named is_get is_post is_delete has_prefix has_suffix contains_text
    trim_prefix split_at add_to_first equal valid_value bytes_eq
prepares = rw (search_route library, search_query library) refl

prepare_sound_example :
    IsAdmitted adapter (resource_route library search.method search.escaped_path) search
    × IsForwarded adapter (resource_route library search.method search.escaped_path) search found
prepare_sound_example = prepare_sound library adapter search found prepares

serve_cookies_example :
    All (IsGuarded adapter) (serve library adapter control none search []).0.cookies
    × (((serve library adapter control none search []).1 ≡ [])
        ⊎ ((m : Remote) × (prepare library adapter search ≡ ok m)
            × ((serve library adapter control none search []).1 ≡ m ∷ [])))
serve_cookies_example = serve_cookies library adapter control none search []

sends_list : (serve library adapter control none search []).0.content ≡ sent (ascii "[]")
unfolding serve served answered judged accepted passed_on tokens_set link_cookie payload_cookie
    execution_cookie token_cookie read_payload payload_limit is_delete path_of has_suffix
    contains_text has_prefix trim_prefix trim_suffix bytes_eq
sends_list = rw (prepares, search_route library) refl

serve-sent_example :
    (m : Remote) × (a : Answer) × (prepare library adapter search ≡ ok m)
    × (control m ≡ some a)
    × IsAnswer library adapter
        (serve library adapter control none search []).0.status
        (ascii "[]")
        a
serve-sent_example = serve-sent library adapter control none search [] (ascii "[]") sends_list
