-- ===== src/Ownership.antt =====
-- lotor/ownership.go: the signed owner assertions, their checks and the resolver that caches them.
-- An error is `none`, its text is left out. A reply of the control plane is an argument of the call
-- that asks for it, and so is the clock.
pub mod Payload
pub mod Trust
pub mod Answers
pub mod History
pub mod Retry
mod Tests
use lotor_go.Common.{
  ℕ, zero, suc, ◌*◌, ◌^◌, Bool, true, false, not, ◌&&◌, ◌||◌, Option, none, some, List, [], ◌∷◌,
  ◌++◌, ltb, leb, ◌==◌, if◌then◌else◌, length, take,
}
use lotor_go.Common.Http.{Reply, unreachable, answered}
use lotor_go.Common.Bytes.{Bytes, ascii, bytes_eq}
use lotor_go.Common.Int.{ℤ, pos, ltz, lez, eqz, add64, sub64}

abbrev pub maximum_response : ℕ
maximum_response = 64 * 2 ^ 10

abbrev pub minute : ℤ
minute = pos 60000000

abbrev pub five_seconds : ℤ
five_seconds = pos 5000000

pub record Ownership : Type 0 where
  pub tenant_id : Bytes
  pub application_id : Bytes
  pub environment_id : Bytes
  pub endpoint : Bytes
  pub owner_instance_id : Bytes
  pub ownership_epoch : ℤ
  pub issued_at : ℤ
  pub expires_at : ℤ
  pub version : ℤ
  pub key_id : Bytes
  pub signature : Bytes

pub record SigningKey : Type 0 where
  pub id : Bytes
  pub algorithm : Bytes
  pub public_key : Bytes

-- What `url.Parse` gives.
pub record Url : Type 0 where
  pub has_user : Bool
  pub scheme : Bytes
  pub host : Bytes
  pub port : Bytes
  pub path : Bytes
  pub raw_query : Bytes
  pub fragment : Bytes

-- What the code takes from Go's standard library.
pub record Library : Type 0 where
  pub parse_url : Bytes → Option Url
  pub atoi : Bytes → Option ℤ
  pub join_host_port : Bytes → Bytes → Bytes
  -- `%d`
  pub decimal : ℤ → Bytes
  -- `hex.EncodeToString(hash[:8])` of the SHA-256 hash
  pub short_hash : Bytes → Bytes
  -- `base64.RawURLEncoding`
  pub base64_decode : Bytes → Option Bytes
  -- key, message, signature
  pub ed25519_verify : Bytes → Bytes → Bytes → Bool
  -- `json.Decoder` with `DisallowUnknownFields`: the value, and the text behind it
  pub decode_ownership : Bytes → Option (Ownership × Bytes)
  pub decode_keys : Bytes → Option (List SigningKey × Bytes)
  -- whether a further `Decode` gives `io.EOF`
  pub at_end : Bytes → Bool
  -- `json.Unmarshal`
  pub unmarshal_ownership : Bytes → Option Ownership

pub record Resolver : Type 0 where
  pub keys : List (Bytes × Bytes)
  pub cached : Ownership

-- The clock and the replies that one call meets.
pub record Env : Type 0 where
  pub now : ℤ
  pub ownership_reply : Reply
  pub keys_reply : Reply

abbrev pub zero_ownership : Ownership
zero_ownership = record {
  tenant_id = [];
  application_id = [];
  environment_id = [];
  endpoint = [];
  owner_instance_id = [];
  ownership_epoch = pos 0;
  issued_at = pos 0;
  expires_at = pos 0;
  version = pos 0;
  key_id = [];
  signature = [];
}

-- The fields in the order of the payload's format.
unfoldable pub join_fields : List Bytes → Bytes
join_fields [] = []
join_fields (s ∷ []) = s
join_fields (s ∷ t ∷ fields) = s ++ (0 ∷ join_fields (t ∷ fields))

lookup_key : Bytes → List (Bytes × Bytes) → Option Bytes
lookup_key id [] = none
lookup_key id ((j, key) ∷ keys) = if bytes_eq j id then some key else lookup_key id keys

has_key_id : Bytes → List (Bytes × Bytes) → Bool
has_key_id id [] = false
has_key_id id ((j, key) ∷ keys) = bytes_eq j id || has_key_id id keys

-- The decoded body with nothing behind it.
whole : {A : Type 0} → (Bytes → Bool) → Option (A × Bytes) → Option A
whole at_end none = none
whole at_end (some (a, rest)) = if at_end rest then some a else none

read_body : {A : Type 0} → (Bytes → Bool) → (Bytes → Option (A × Bytes)) → Option Bytes → Option A
unfolding whole
read_body at_end decode none = none
read_body at_end decode (some raw) =
    if ltb maximum_response (length raw) then none else whole at_end (decode raw)

-- `fetchJSON`
fetch_json : {A : Type 0} → (Bytes → Bool) → (Bytes → Option (A × Bytes)) → Reply → Option A
unfolding read_body
fetch_json at_end decode unreachable = none
fetch_json at_end decode (answered status body) =
    if status == 200 then read_body at_end decode body else none

-- `sameOwnershipScope`
unfoldable pub same_scope : Ownership → Ownership → Bool
same_scope a b =
    bytes_eq a.tenant_id b.tenant_id
    && (bytes_eq a.application_id b.application_id && bytes_eq a.environment_id b.environment_id)

-- A key of the right size, as both lookups of `signingKey` take it.
usable : Option Bytes → Option Bytes
usable none = none
usable (some key) = if length key == 32 then some key else none

pub cache : Option Ownership × Resolver → Option Ownership × Resolver
cache (none, r) = (none, r)
cache (some o, r) = (some o, record r { cached = o })

advanced : Ownership → Option Ownership × Resolver → Option Ownership × Resolver
unfolding cache
advanced prior (none, r) = (none, r)
advanced prior (some moved, r) =
    if not (same_scope moved prior)
    then (none, r)
    else if lez moved.ownership_epoch prior.ownership_epoch
        || bytes_eq moved.endpoint prior.endpoint
    then (none, r)
    else cache (some moved, r)

module _ (library : Library) where
  open library use {
    parse_url, atoi, join_host_port, decimal, short_hash, base64_decode, ed25519_verify,
    decode_ownership, decode_keys, at_end, unmarshal_ownership,
  }

  port_address : Url → Option ℤ → Option (Bytes × Bool)
  port_address u none = none
  port_address u (some number) =
      if ltz number (pos 1) || ltz (pos 65535) number
      then none
      else some (join_host_port u.host u.port, bytes_eq u.scheme (ascii "lwps"))

  url_address : Option Url → Option (Bytes × Bool)
  unfolding port_address
  url_address none = none
  url_address (some u) =
      if u.has_user
        || (not (bytes_eq u.path [])
            || (not (bytes_eq u.raw_query []) || not (bytes_eq u.fragment [])))
      then none
      else if not (bytes_eq u.scheme (ascii "lwp")) && not (bytes_eq u.scheme (ascii "lwps"))
      then none
      else if bytes_eq u.host [] || bytes_eq u.port []
      then none
      else port_address u (atoi u.port)

  -- `Address`: host and port, and whether TLS is required.
  pub address : Ownership → Option (Bytes × Bool)
  unfolding url_address
  address o = url_address (parse_url o.endpoint)

  unfoldable pub ownership_fields : Ownership → List Bytes
  ownership_fields o =
      decimal o.version
      ∷ o.tenant_id
      ∷ o.application_id
      ∷ o.environment_id
      ∷ o.endpoint
      ∷ o.owner_instance_id
      ∷ decimal o.ownership_epoch
      ∷ decimal o.issued_at
      ∷ decimal o.expires_at
      ∷ o.key_id
      ∷ []

  -- `ownershipPayload`
  unfoldable pub ownership_payload : Ownership → Bytes
  ownership_payload o = join_fields (ownership_fields o)

  signed_by : Ownership → Bytes → Option Bytes → Bool
  signed_by o key none = false
  signed_by o key (some signature) =
      length signature == 64 && ed25519_verify key (ownership_payload o) signature

  is_some_address : Option (Bytes × Bool) → Bool
  is_some_address none = false
  is_some_address (some a) = true

  named : Ownership → Bool
  named o =
      eqz o.version (pos 1)
      && (not (ltz o.ownership_epoch (pos 1))
          && (not (bytes_eq o.owner_instance_id [])
              && (not (bytes_eq o.tenant_id [])
                  && (not (bytes_eq o.application_id []) && not (bytes_eq o.environment_id [])))))

  current : ℤ → Ownership → Bool
  current now o =
      not (ltz (add64 now minute) o.issued_at)
      && (not (lez o.expires_at now) && not (ltz minute (sub64 o.expires_at o.issued_at)))

  -- `verifyOwnership`: whether no check fails.
  pub verify_ownership : Ownership → Bytes → ℤ → Bool
  unfolding named current is_some_address address signed_by
  verify_ownership o key now =
      named o
      && (current now o
          && (is_some_address (address o)
              && (bytes_eq o.key_id (short_hash key)
                  && signed_by o key (base64_decode o.signature))))

  -- The keys of a key set, one after the other.
  add_key : SigningKey → Option Bytes → List (Bytes × Bytes) → Option (List (Bytes × Bytes))
  unfolding has_key_id
  add_key item none keys = none
  add_key item (some key) keys =
      if not (length key == 32)
        || (not (bytes_eq item.id (short_hash key)) || has_key_id item.id keys)
      then none
      else some ((item.id, key) ∷ keys)

  add_keys : List SigningKey → Option (List (Bytes × Bytes)) → Option (List (Bytes × Bytes))
  unfolding add_key
  add_keys items none = none
  add_keys [] (some keys) = some keys
  add_keys (item ∷ items) (some keys) =
      if bytes_eq item.id [] || not (bytes_eq item.algorithm (ascii "Ed25519"))
      then none
      else add_keys items (add_key item (base64_decode item.public_key) keys)

  refreshed : Option (List SigningKey) → Option (List (Bytes × Bytes))
  unfolding add_keys
  refreshed none = none
  refreshed (some items) = add_keys items (some [])

  installed : Bytes → Resolver → Option (List (Bytes × Bytes)) → Option Bytes × Resolver
  unfolding usable lookup_key
  installed id r none = (none, r)
  installed id r (some keys) = (usable (lookup_key id keys), record r { keys = keys })

  known : Env → Bytes → Resolver → Option Bytes → Option Bytes × Resolver
  unfolding installed refreshed fetch_json
  known env id r (some key) = (some key, r)
  known env id r none = installed id r (refreshed (fetch_json at_end decode_keys env.keys_reply))

  -- `signingKey`
  pub signing_key : Env → Bytes → Resolver → Option Bytes × Resolver
  unfolding known usable lookup_key
  signing_key env id r = known env id r (usable (lookup_key id r.keys))

  checked : ℤ → Ownership → Option Bytes × Resolver → Option Ownership × Resolver
  checked now o (none, r) = (none, r)
  checked now o (some key, r) = if verify_ownership o key now then (some o, r) else (none, r)

  -- `fetchOwnership`
  pub fetched : Env → Resolver → Option Ownership → Option Ownership × Resolver
  unfolding checked
  fetched env r none = (none, r)
  fetched env r (some o) = checked env.now o (signing_key env o.key_id r)

  pub resolve : Env → Resolver → Option Ownership × Resolver
  unfolding cache fetched fetch_json
  resolve env r =
      if not (eqz r.cached.version (pos 0)) && ltz (add64 env.now five_seconds) r.cached.expires_at
      then (some r.cached, r)
      else cache (fetched env r (fetch_json at_end decode_ownership env.ownership_reply))

  accepted : Env → Ownership → Resolver → Option Ownership → Option Ownership × Resolver
  unfolding advanced fetched
  accepted env prior r moved = advanced prior (fetched env r moved)

  -- `acceptMoved`
  pub accept_moved : Env → Bytes → Ownership → Resolver → Option Ownership × Resolver
  unfolding accepted
  accept_moved env raw prior r =
      if ltb maximum_response (length raw)
      then (none, r)
      else accepted env prior r (unmarshal_ownership raw)

-- `Invalidate`
abbrev pub invalidate : Resolver → Resolver
invalidate r = record r { cached = zero_ownership }
