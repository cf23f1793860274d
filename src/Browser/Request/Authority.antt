-- ===== src/Browser/Request/Authority.antt =====
-- What a request that is forwarded to Control has passed, and whose authority it carries.
use mathlib.Core.Path.{subst}
use lotor_go.Common.{
  ℕ, ◌*◌, ◌^◌, ◌≡◌, refl, ◌≤◌, ◌⊎◌, inl, inr, Bool, true, false, Bool-cases, and-eq-true, not, ◌&&◌,
  ◌||◌, Option, none, some, [], if◌then◌else◌, length, arith,
}
use lotor_go.Common.Bytes.{Bytes, ascii, bytes_eq, bytes_eq_iff}
use lotor_go.Common.Int.{pos, ltz}
use lotor_go.Common.Results.{ok, >>=-eq-ok, require-eq-ok, found-eq-ok}
use lotor_go.Browser.{Adapter, Library, equal}
use lotor_go.Browser.Routes.{is_get, is_delete, resource_route, valid_resource_query}
use lotor_go.Browser.Request.{
  Incoming, Remote, Tokens, tokens_of, outgoing, session_name, csrf_name, cookie_value, path_of,
  plain_route, same_origin, body_limit, read_body, idempotency_of, bearer_of, valid_body, admitted,
  remote_url, forwarded, prepared, prepare,
}

-- One of two texts that must be the same, and not empty.
abbrev pub Shared : Bytes → Bytes → Type 0
Shared s t = (s ≡ t) × (bytes_eq s [] ≡ false)

-- The checks of a request of the browser, by whether its route is one of resources.
pub record IsAdmitted (a : Adapter) (native : Bool) (r : Incoming) : Type 0 where
  pub host : r.host ≡ a.host
  pub origin : (r.origin ≡ []) ⊎ (r.origin ≡ a.config.browser_origin)
  pub fetch_site : (r.fetch_site ≡ []) ⊎ (r.fetch_site ≡ ascii "same-origin")
  pub key : Shared r.publishable_key a.config.publishable_key
  pub routed : (plain_route r ≡ true) ⊎ (native ≡ true)
  -- all but a GET names the origin
  pub names_origin : (r.method ≡ ascii "GET") ⊎ (r.origin ≡ a.config.browser_origin)
  -- what ends a session or changes a resource proves that it reads the cookie
  pub no_forgery :
      ((is_delete r.method ≡ false) × ((native ≡ false) ⊎ (r.method ≡ ascii "GET")))
      ⊎ Shared (cookie_value r.cookies (csrf_name a)) r.csrf
  pub in_session :
      (native ≡ false) ⊎ (bytes_eq (cookie_value r.cookies (session_name a)) [] ≡ false)

-- What goes to Control: end-user authority for resources, that of the application for the rest.
pub record IsForwarded (a : Adapter) (native : Bool) (r : Incoming) (m : Remote) : Type 0 where
  pub method : m.method ≡ r.method
  pub publishable_key : m.publishable_key ≡ a.config.publishable_key
  pub secret_key :
      ((native ≡ true) × (m.secret_key ≡ none))
      ⊎ ((native ≡ false) × (m.secret_key ≡ some a.config.secret_key))
  pub bearer :
      (m.bearer ≡ none)
      ⊎ ((m.bearer ≡ some (cookie_value r.cookies (session_name a)))
          × ((native ≡ true) ⊎ (path_of r ≡ ascii "/session")))
  -- resources carry the session
  pub end_user : (native ≡ false) ⊎ (m.bearer ≡ some (cookie_value r.cookies (session_name a)))
  pub size : length m.body ≤ 6 * 2 ^ 20
  pub plain_size : (native ≡ true) ⊎ (length m.body ≤ 64 * 2 ^ 10)

equal-Shared : (s t : Bytes) → equal s t ≡ true → Shared s t
unfolding equal
equal-Shared s t h = ((bytes_eq_iff s t).0 (ground arith), ground arith)

either_true : (a b : Bool) → (a || b) ≡ true → (a ≡ true) ⊎ (b ≡ true)
either_true true b h = inl refl
either_true false b h = inr h

either_text : (s t u : Bytes) → (bytes_eq s t || bytes_eq s u) ≡ true → (s ≡ t) ⊎ (s ≡ u)
either_text s t u h = elim (either_true (bytes_eq s t) (bytes_eq s u) h) [
  | inl e ↦ inl ((bytes_eq_iff s t).0 e)
  | inr e ↦ inr ((bytes_eq_iff s u).0 e)
]

is_get-method : (s : Bytes) → is_get s ≡ true → s ≡ ascii "GET"
unfolding is_get
is_get-method s h = (bytes_eq_iff s (ascii "GET")).0 h

named_by :
    (method origin expected : Bytes)
    → (is_get method || bytes_eq origin expected) ≡ true
    → (method ≡ ascii "GET") ⊎ (origin ≡ expected)
named_by method origin expected h =
    elim (either_true (is_get method) (bytes_eq origin expected) h) [
      | inl e ↦ inl (is_get-method method e)
      | inr e ↦ inr ((bytes_eq_iff origin expected).0 e)
    ]

harmless :
    (deletes native : Bool) (method : Bytes)
    → (deletes || (native && not (is_get method))) ≡ false
    → (deletes ≡ false) × ((native ≡ false) ⊎ (method ≡ ascii "GET"))
harmless true native method h = cc
harmless false false method h = (refl, inl refl)
harmless false true method h = (refl, inr (is_get-method method (ground arith)))

genuine :
    (deletes native : Bool) (method s t : Bytes)
    → (not (deletes || (native && not (is_get method))) || equal s t) ≡ true
    → ((deletes ≡ false) × ((native ≡ false) ⊎ (method ≡ ascii "GET"))) ⊎ Shared s t
genuine deletes native method s t h =
    elim (either_true (not (deletes || (native && not (is_get method)))) (equal s t) h) [
      | inl e ↦ inl (harmless deletes native method (ground arith))
      | inr e ↦ inr (equal-Shared s t e)
    ]

session_there :
    (native : Bool) (session : Bytes)
    → (not native || not (bytes_eq session [])) ≡ true
    → (native ≡ false) ⊎ (bytes_eq session [] ≡ false)
session_there false session h = inl refl
session_there true session h = inr (ground arith)

body_limit-bound :
    (native : Bool) (r : Incoming)
    → (body_limit native r ≤ 6 * 2 ^ 20) × ((native ≡ true) ⊎ (body_limit native r ≤ 64 * 2 ^ 10))
unfolding body_limit
body_limit-bound false r = (omega arith, inr (omega arith))
body_limit-bound true r = (ground arith, inl refl)

bearer_where :
    (native : Bool) (path token : Bytes)
    → (bearer_of (bytes_eq path (ascii "/session") || native) token ≡ none)
      ⊎ ((bearer_of (bytes_eq path (ascii "/session") || native) token ≡ some token)
          × ((native ≡ true) ⊎ (path ≡ ascii "/session")))
unfolding bearer_of
bearer_where native path token = elim (Bool-cases (bytes_eq token [])) [
  | inl empty ↦ elim (Bool-cases (bytes_eq path (ascii "/session") || native)) [
    | inl on ↦ rw (on, empty) (inl refl)
    | inr off ↦ rw off (inl refl)
  ]
  | inr full ↦ elim (Bool-cases (bytes_eq path (ascii "/session") || native)) [
    | inl on ↦
        rw (on, full)
          (inr (
            refl,
            elim (either_true (bytes_eq path (ascii "/session")) native on) [
              | inl e ↦ inr ((bytes_eq_iff path (ascii "/session")).0 e)
              | inr e ↦ inl e
            ],
          ))
    | inr off ↦ rw off (inl refl)
  ]
]

bearer_kept :
    (native : Bool) (path token : Bytes)
    → (native ≡ false) ⊎ (bytes_eq token [] ≡ false)
    → (native ≡ false) ⊎ (bearer_of (bytes_eq path (ascii "/session") || native) token ≡ some token)
unfolding bearer_of
bearer_kept false path token h = inl refl
bearer_kept true path token (inl h) = cc
bearer_kept true path token (inr h) =
    let on : (bytes_eq path (ascii "/session") || true) ≡ true = ground arith in
    inr (rw (on, h) refl)

secret_where :
    (native : Bool) (key : Bytes)
    → ((native ≡ true) × ((if native then none else some key) ≡ none))
      ⊎ ((native ≡ false) × ((if native then none else some key) ≡ some key))
secret_where true key = inl (refl, refl)
secret_where false key = inr (refl, refl)

outgoing-IsForwarded :
    (a : Adapter) (native : Bool) (r : Incoming) (body : Bytes) (tokens : Tokens)
    (key : Option Bytes)
    → IsAdmitted a native r
    → length body ≤ body_limit native r
    → IsForwarded a native r (outgoing a native r body tokens key)
unfolding outgoing
outgoing-IsForwarded a native r body tokens key passed size =
    let (most, plain) = body_limit-bound native r in
    record {
      method = refl;
      publishable_key = refl;
      secret_key = secret_where native a.config.secret_key;
      bearer = bearer_where native (path_of r) (cookie_value r.cookies (session_name a));
      end_user =
          bearer_kept native (path_of r) (cookie_value r.cookies (session_name a))
            passed.in_session;
      size = omega arith;
      plain_size = elim plain [ inl on ↦ inl on | inr few ↦ inr (omega arith) ];
    }

same_origin-parts :
    (a : Adapter) (r : Incoming)
    → same_origin a r ≡ true
    → ((r.host ≡ a.host) × ((r.origin ≡ []) ⊎ (r.origin ≡ a.config.browser_origin)))
      × ((r.fetch_site ≡ []) ⊎ (r.fetch_site ≡ ascii "same-origin"))
unfolding same_origin
same_origin-parts a r h =
    let own = bytes_eq r.origin [] || bytes_eq r.origin a.config.browser_origin in
    let site = bytes_eq r.fetch_site [] || bytes_eq r.fetch_site (ascii "same-origin") in
    let (host, rest) = and-eq-true (bytes_eq r.host a.host) (own && site) h in
    let (origin, fetched) = and-eq-true own site rest in
    (
      ((bytes_eq_iff r.host a.host).0 host, either_text r.origin [] a.config.browser_origin origin),
      either_text r.fetch_site [] (ascii "same-origin") fetched,
    )

module _ (library : Library) where
  admitted-IsAdmitted :
      (a : Adapter) (native : Bool) (r : Incoming) {u : Unit {0}}
      → admitted library a native r ≡ ok u
      → IsAdmitted a native r
  unfolding admitted
  admitted-IsAdmitted a native r h =
      let (origin, h1) = require-eq-ok (same_origin a r) _ _ h in
      let (key, h2) = require-eq-ok (equal r.publishable_key a.config.publishable_key) _ _ h1 in
      let (raw, h3) = require-eq-ok (bytes_eq r.raw_path [] || native) _ _ h2 in
      let (query, h4) =
        require-eq-ok
          (valid_resource_query library r.method r.path r.raw_query && not r.force_query) _ _ h3 in
      let (route, h5) = require-eq-ok (plain_route r || native) _ _ h4 in
      let (named, h6) =
        require-eq-ok (is_get r.method || bytes_eq r.origin a.config.browser_origin) _ _ h5 in
      let (forged, h7) =
        require-eq-ok
          (not (is_delete r.method || (native && not (is_get r.method)))
            || equal (cookie_value r.cookies (csrf_name a)) r.csrf)
          _ _ h6 in
      let (session, h8) =
        require-eq-ok (not native || not (bytes_eq (cookie_value r.cookies (session_name a)) [])) _
          _ h7 in
      let (sites, fetched) = same_origin-parts a r origin in
      record {
        host = sites.0;
        origin = sites.1;
        fetch_site = fetched;
        key = equal-Shared r.publishable_key a.config.publishable_key key;
        routed = either_true (plain_route r) native route;
        names_origin = named_by r.method r.origin a.config.browser_origin named;
        no_forgery =
            genuine (is_delete r.method) native r.method (cookie_value r.cookies (csrf_name a))
              r.csrf forged;
        in_session = session_there native (cookie_value r.cookies (session_name a)) session;
      }

  read_body-bound :
      (limit : ℕ) (body : Option Bytes) {b : Bytes}
      → read_body limit body ≡ some b
      → length b ≤ limit
  unfolding read_body
  read_body-bound limit none h = cc
  read_body-bound limit (some body) h = ground arith

  forwarded-IsForwarded :
      (a : Adapter) (native : Bool) (r : Incoming) (body : Bytes) (m : Remote)
      → IsAdmitted a native r
      → length body ≤ body_limit native r
      → forwarded library a native r body ≡ ok m
      → IsForwarded a native r m
  unfolding forwarded
  forwarded-IsForwarded a native r body m passed size h =
      let (target, h1) = require-eq-ok (library.valid_request r.method (remote_url a r)) _ _ h in
      let (tokens, taken, h2) = >>=-eq-ok (tokens_of a native r) _ h1 in
      let (key, checked, h3) = >>=-eq-ok (idempotency_of r.idempotency) _ h2 in
      let same : outgoing a native r body tokens key ≡ m = cc in
      subst (λ (x : Remote). IsForwarded a native r x) same
        (outgoing-IsForwarded a native r body tokens key passed size)

  prepared-IsForwarded :
      (a : Adapter) (native : Bool) (r : Incoming) (m : Remote)
      → prepared library a native r ≡ ok m
      → IsAdmitted a native r × IsForwarded a native r m
  unfolding prepared
  prepared-IsForwarded a native r m h =
      let (passed, allowed, h1) = >>=-eq-ok (admitted library a native r) _ h in
      let (short, h2) =
        require-eq-ok (not (ltz (pos (body_limit native r)) r.content_length)) _ _ h1 in
      let (body, read, h3) = found-eq-ok (read_body (body_limit native r) r.body) _ _ h2 in
      let (valid, h4) = require-eq-ok (valid_body library native r body) _ _ h3 in
      let checked = admitted-IsAdmitted a native r allowed in
      (
        checked,
        forwarded-IsForwarded a native r body m checked
            (read_body-bound (body_limit native r) r.body read) h4,
      )

  -- A request of a browser that is forwarded to Control came to the adapter's own host with its
  -- publishable key, on a known route; its origin and fetch site, where it names them, are the
  -- adapter's own, and all but a GET names the origin; a request that ends a session or changes a
  -- resource repeats the CSRF cookie, which is not empty. A request for a resource carries the session
  -- and never the secret key; another one carries the secret key, and a session only on the session's
  -- own route. Its body is at most 6 MiB, and at most 64 KiB where it is not for a resource.
  pub prepare_sound :
      (a : Adapter) (r : Incoming) (m : Remote)
      → prepare library a r ≡ ok m
      → IsAdmitted a (resource_route library r.method r.escaped_path) r
        × IsForwarded a (resource_route library r.method r.escaped_path) r m
  unfolding prepare
  prepare_sound a r m h =
      prepared-IsForwarded a (resource_route library r.method r.escaped_path) r m h
