-- ===== src/Bridge/Transport/Send.antt =====
-- `send` of bridge/transport/https.go, over what the network answers to a request.
use mathlib.Core.Path.{subst}
use lotor_go.Common.{
  ℕ, ◌≤◌, ◌≡◌, refl, Bool, true, false, not, ◌&&◌, Option, none, some, List, [], ◌∷◌, ◌++◌, ltb,
  leb, ◌==◌, length, all, and-eq-true, arith,
}
use lotor_go.Common.Bytes.{Bytes, ascii, bytes_eq, bytes_eq_iff}
use lotor_go.Common.Options.{>>=-eq-some, guard-eq-some}
use lotor_go.Common.Results.{
  Result, ok, err, ◌>>=◌, ◌>>◌, require, found, require-eq-ok, found-eq-ok,
}
use lotor_go.Common.Text.{has_suffix, contains_text, split_at}
use lotor_go.Bridge.Platform.{SignedMessage}
use lotor_go.Bridge.Protocol.{Error, invalid, unavailable, maximum_body_bytes}
use lotor_go.Bridge.Transport.{
  Netip, Library, Endpoint, literal_allowed, local_host, is_dots, plain_host, valid_port,
  trim_slashes, operation_known, validate_endpoint,
}

-- The answer to a request; the body is `none` where reading it fails.
pub record HttpReply : Type 0 where
  pub status : ℕ
  pub content_type : Bytes
  pub content_encoding : Bytes
  pub body : Option Bytes

unfoldable pub json_type : Option Bytes → Bool
json_type none = false
json_type (some t) = bytes_eq t (ascii "application/json")

unfoldable pub complete : SignedMessage → Bool
complete m =
    not (bytes_eq m.key_id []) && (not (bytes_eq m.payload []) && not (bytes_eq m.signature []))

module _ {Addr : Type 0} (netip : Netip Addr) (library : Library) where
  open library use {url_text, marshal_message, valid_request, media_type, decode_message, at_end}

  -- The URL of an operation.
  unfoldable pub operation_url : Endpoint → Bytes → Bytes
  unfolding trim_slashes
  operation_url u operation =
      url_text (record u { path = trim_slashes u.path ++ (ascii "/v1/functions/" ++ operation) })

  -- The URL and the body of the request.
  unfoldable pub request_of : Bytes → Bytes → SignedMessage → Result Error (Bytes × Bytes)
  unfolding operation_url
  request_of endpoint operation message = do
    u ← found (validate_endpoint netip library endpoint) invalid
    require (operation_known operation) invalid
    body ← found (marshal_message message) invalid
    require (not (ltb maximum_body_bytes (length body))) invalid
    require (valid_request (operation_url u operation)) invalid
    ok (operation_url u operation, body)

  -- The message of an answer.
  unfoldable pub reply_of : Option HttpReply → Result Error SignedMessage
  unfolding json_type complete
  reply_of answer = do
    reply ← found answer unavailable
    require (json_type (media_type reply.content_type)) unavailable
    require (reply.status == 200) unavailable
    require (bytes_eq reply.content_encoding []) unavailable
    raw ← found reply.body unavailable
    require (not (ltb maximum_body_bytes (length raw))) unavailable
    (message, rest) ← found (decode_message raw) unavailable
    require (at_end rest && complete message) unavailable
    ok message

  unfoldable pub posted :
      (Bytes → Bytes → Option HttpReply)
      → Result Error (Bytes × Bytes)
      → Result Error SignedMessage × List (Bytes × Bytes)
  unfolding reply_of
  posted network (err e) = (err e, [])
  posted network (ok (url, body)) = (reply_of (network url body), (url, body) ∷ [])

  -- `send`, with the requests that it has made.
  unfoldable pub send :
      (Bytes → Bytes → Option HttpReply)
      → Bytes
      → Bytes
      → SignedMessage
      → Result Error SignedMessage × List (Bytes × Bytes)
  unfolding posted request_of
  send network endpoint operation message = posted network (request_of endpoint operation message)

  -- The endpoint has HTTPS, and neither names this host nor is a literal address that is not public.
  pub record IsSafe (u : Endpoint) : Type 0 where
    pub https : u.scheme ≡ ascii "https"
    pub remote : local_host (plain_host netip library u) ≡ false
    pub public : literal_allowed netip (netip.parse_addr (plain_host netip library u)) ≡ true
    pub no_dots : all (λ s. not (is_dots s)) (split_at b'/' u.path) ≡ true
    pub no_user : u.has_user ≡ false

  pub validate_endpoint-IsSafe :
      (endpoint : Bytes) (u : Endpoint)
      → validate_endpoint netip library endpoint ≡ some u
      → IsSafe u
  unfolding validate_endpoint
  validate_endpoint-IsSafe endpoint u h =
      let (trimmed, h1) = guard-eq-some (bytes_eq endpoint (library.trim_space endpoint)) _ h in
      let (short, h2) =
        guard-eq-some (leb (length endpoint) 2048 && not (contains_text (ascii "#") endpoint)) _
          h1 in
      let (v, parsed, h3) = >>=-eq-some (library.parse_url endpoint) _ h2 in
      let (https, h4) =
        guard-eq-some (bytes_eq v.scheme (ascii "https") && not (bytes_eq v.hostname [])) _ h3 in
      let (plain, h5) =
        guard-eq-some (not v.has_user && (bytes_eq v.raw_query [] && not v.force_query)) _ h4 in
      let (bare, h6) =
        guard-eq-some (bytes_eq v.fragment [] && (bytes_eq v.opaque [] && bytes_eq v.raw_path [])) _
          h5 in
      let (clean, h7) =
        guard-eq-some
          (not (contains_text (92 ∷ []) v.path) && not (contains_text (ascii "//") v.path)) _ h6 in
      let (dots, h8) = guard-eq-some (all (λ s. not (is_dots s)) (split_at b'/' v.path)) _ h7 in
      let (remote, h9) = guard-eq-some (not (local_host (plain_host netip library v))) _ h8 in
      let (colon, h10) = guard-eq-some (not (has_suffix (ascii ":") v.host)) _ h9 in
      let (port, h11) =
        guard-eq-some (valid_port netip library v.port (library.atoi v.port)) _ h10 in
      let (public, h12) =
        guard-eq-some (literal_allowed netip (netip.parse_addr (plain_host netip library v))) _
          h11 in
      let same : v ≡ u = cc in
      subst IsSafe same (record {
        https = (bytes_eq_iff _ _).0 (and-eq-true (bytes_eq v.scheme (ascii "https")) _ https).0;
        remote = not_true remote;
        public = public;
        no_dots = dots;
        no_user = not_true (and-eq-true (not v.has_user) _ plain).0;
      })
    where
      not_true : {t : Bool} → not t ≡ true → t ≡ false
      not_true e = ground arith

  -- The answer had status 200 and plain JSON, whose text is the message.
  pub record IsReply (reply : HttpReply) (m : SignedMessage) : Type 0 where
    pub status : reply.status ≡ 200
    pub json : json_type (library.media_type reply.content_type) ≡ true
    pub raw : Bytes
    pub rest : Bytes
    pub read : reply.body ≡ some raw
    pub decoded : library.decode_message raw ≡ some (m, rest)
    pub small : length raw ≤ maximum_body_bytes
    pub plain : reply.content_encoding ≡ []
    pub ended : library.at_end rest ≡ true
    pub filled : complete m ≡ true

  equal_number : (n k : ℕ) → (n == k) ≡ true → n ≡ k
  equal_number n k h = ground arith

  not_above : (k n : ℕ) → not (ltb k n) ≡ true → n ≤ k
  not_above k n h = ground arith

  reply_of-IsReply :
      (answer : Option HttpReply) (m : SignedMessage)
      → reply_of answer ≡ ok m
      → (reply : HttpReply) × (answer ≡ some reply) × IsReply reply m
  unfolding reply_of
  reply_of-IsReply answer m h =
      let (reply, there, h1) = found-eq-ok answer _ _ h in
      let (json, h2) = require-eq-ok (json_type (library.media_type reply.content_type)) _ _ h1 in
      let (success, h3) = require-eq-ok (reply.status == 200) _ _ h2 in
      let (plain, h4) = require-eq-ok (bytes_eq reply.content_encoding []) _ _ h3 in
      let (raw, read, h5) = found-eq-ok reply.body _ _ h4 in
      let (small, h6) = require-eq-ok (not (ltb maximum_body_bytes (length raw))) _ _ h5 in
      let ((message, rest), decoded, h7) = found-eq-ok (library.decode_message raw) _ _ h6 in
      let (ended, h8) = require-eq-ok (library.at_end rest && complete message) _ _ h7 in
      let same : message ≡ m = cc in
      (
        reply,
        there,
        subst (IsReply reply) same (record {
          status = equal_number reply.status 200 success;
          json = json;
          raw = raw;
          rest = rest;
          read = read;
          decoded = decoded;
          small = not_above maximum_body_bytes (length raw) small;
          plain = (bytes_eq_iff _ _).0 plain;
          ended = (and-eq-true (library.at_end rest) (complete message) ended).0;
          filled = (and-eq-true (library.at_end rest) (complete message) ended).1;
        }),
      )

  -- A request for a known operation of a safe endpoint.
  pub record IsRequest (endpoint operation : Bytes) (message : SignedMessage) (x : Bytes × Bytes)
      : Type 0 where
    pub target : Endpoint
    pub valid : validate_endpoint netip library endpoint ≡ some target
    pub safe : IsSafe target
    pub known : operation_known operation ≡ true
    pub url : x.0 ≡ operation_url target operation
    pub body : marshal_message message ≡ some x.1
    pub small : length x.1 ≤ maximum_body_bytes

  request_of-IsRequest :
      (endpoint operation : Bytes) (message : SignedMessage) (x : Bytes × Bytes)
      → request_of endpoint operation message ≡ ok x
      → IsRequest endpoint operation message x
  unfolding request_of
  request_of-IsRequest endpoint operation message x h =
      let (u, valid, h1) = found-eq-ok (validate_endpoint netip library endpoint) _ _ h in
      let (known, h2) = require-eq-ok (operation_known operation) _ _ h1 in
      let (body, marshalled, h3) = found-eq-ok (library.marshal_message message) _ _ h2 in
      let (small, h4) = require-eq-ok (not (ltb maximum_body_bytes (length body))) _ _ h3 in
      let (taken, h5) = require-eq-ok (library.valid_request (operation_url u operation)) _ _ h4 in
      let same : (operation_url u operation, body) ≡ x = cc in
      subst (IsRequest endpoint operation message) same (record {
        target = u;
        valid = valid;
        safe = validate_endpoint-IsSafe endpoint u valid;
        known = known;
        url = refl;
        body = marshalled;
        small = not_above maximum_body_bytes (length body) small;
      })

  posted_sound :
      (network : Bytes → Bytes → Option HttpReply) (x : Result Error (Bytes × Bytes))
      (m : SignedMessage)
      → (posted network x).0 ≡ ok m
      → (q : Bytes × Bytes) × (reply : HttpReply) × (x ≡ ok q)
        × ((posted network x).1 ≡ q ∷ [])
        × (network q.0 q.1 ≡ some reply)
        × IsReply reply m
  unfolding posted
  posted_sound network (err e) m h = cc
  posted_sound network (ok (url, body)) m h =
      let (reply, there, good) = reply_of-IsReply (network url body) m h in
      ((url, body), reply, refl, refl, there, good)

  -- A message that Send gives is the whole answer, of status 200 and plain JSON, to one request, for
  -- a known operation of an endpoint with HTTPS that is neither this host nor a literal address that
  -- is not public.
  pub send_sound :
      (network : Bytes → Bytes → Option HttpReply) (endpoint operation : Bytes)
      (message m : SignedMessage)
      → (send network endpoint operation message).0 ≡ ok m
      → (q : Bytes × Bytes) × (reply : HttpReply) × IsRequest endpoint operation message q
        × ((send network endpoint operation message).1 ≡ q ∷ [])
        × (network q.0 q.1 ≡ some reply)
        × IsReply reply m
  unfolding send
  send_sound network endpoint operation message m h =
      let (q, reply, made, once, there, good) =
        posted_sound network (request_of endpoint operation message) m h in
      (q, reply, request_of-IsRequest endpoint operation message q made, once, there, good)
