-- ===== src/Browser/Routes.antt =====
-- lotorhttp/browseradapter/resources.go: the routes of a browser, and their queries.
pub mod Confined
pub mod Tests
use lotor_go.Common.{
  ℕ, zero, suc, ◌+◌, Bool, true, false, not, ◌&&◌, ◌||◌, Option, none, some, List, [], ◌∷◌, ◌++◌,
  ltb, leb, ◌==◌, if◌then◌else◌, length, all,
}
use lotor_go.Common.Bytes.{Bytes, ascii, bytes_eq}
use lotor_go.Common.Text.{has_prefix, has_suffix, contains_text, trim_prefix, split_at}
use lotor_go.Browser.{Library, route_prefix, is_client_id, is_event_stream, valid_value}

unfoldable pub is_get : Bytes → Bool
is_get m = bytes_eq m (ascii "GET")

unfoldable pub is_post : Bytes → Bool
is_post m = bytes_eq m (ascii "POST")

unfoldable pub is_put : Bytes → Bool
is_put m = bytes_eq m (ascii "PUT")

unfoldable pub is_delete : Bytes → Bool
is_delete m = bytes_eq m (ascii "DELETE")

-- `parts[i]`; the code reads no part that is not there.
part : List Bytes → ℕ → Bytes
part [] i = []
part (p ∷ parts) zero = p
part (p ∷ parts) (suc i) = part parts i

at : Bytes → Bytes
at path = route_prefix ++ path

-- `strings.ContainsAny(value, "/%\\?#")`
path_char : ℕ → Bool
path_char c = c == b'/' || (c == b'%' || (c == 92 || (c == b'?' || c == b'#')))

-- The check of `parts[1]`.
valid_part : Option Bytes → Bool
unfolding path_char
valid_part none = false
valid_part (some value) =
    leb (length value) 512
    && (valid_value value
        && (all (λ c. not (path_char c)) value
            && (not (bytes_eq value (ascii ".")) && not (bytes_eq value (ascii "..")))))

-- The last part of the checks of "resources", by the number of parts.
module _ (m : Bytes) (p : ℕ → Bytes) (n : ℕ) where
  is : ℕ → Bytes → Bool
  is i name = bytes_eq (p i) name

  id_at : ℕ → Bool
  id_at i = is_client_id (p i)

  stream_route : Bool
  unfolding is_get is_post is_put
  stream_route =
      if n == 4
      then is_put m
      else if n == 5
      then is_post m && (is 4 (ascii "events") || is 4 (ascii "queries"))
      else if n == 6
      then is_get m && (is 4 (ascii "events") && id_at 5)
      else n == 7
        && (is_get m
            && (is 4 (ascii "queries")
                && (id_at 5 && (is 6 (ascii "events") || is 6 (ascii "histogram")))))

  credential_route : Bool
  unfolding is_get is_post is_delete
  credential_route =
      (n == 3 && (is_get m || is_post m))
      || ((n == 4 && (is_delete m && id_at 3))
          || (n == 5 && (is_post m && (id_at 3 && is 4 (ascii "rotate")))))

  payload_route : Bool
  unfolding is_get is_post is_delete
  payload_route =
      (n == 4 && (is_get m || is_delete m))
      || (n == 5
          && (is_post m
              && (is 4 (ascii "uploads")
                  || (is 4 (ascii "commits")
                      || (is 4 (ascii "access") || is 4 (ascii "rewraps"))))))

  binding_route : Bool
  unfolding is_get is_post is_delete
  binding_route =
      (n == 4 && (is_post m || is_get m))
      || ((n == 5 && (id_at 4 && (is_get m || is_delete m)))
          || (n == 6 && (id_at 4 && (is 5 (ascii "challenge") && is_post m))))

  link_route : Bool
  unfolding is_post is_delete
  link_route =
      if is 3 (ascii "preflight") || is 3 (ascii "commit")
      then is_post m
      else is_delete m && id_at 3

  action_route : Bool
  unfolding is_post
  action_route =
      n == 3
      && (is_post m && (is 2 (ascii "move") || (is 2 (ascii "disable") || is 2 (ascii "restore"))))

  -- Behind "resources" and the identifier of a resource.
  below_resource : Bool
  unfolding is_get is_post is_put is_delete stream_route credential_route payload_route
      binding_route link_route action_route
  below_resource =
      if n == 2
      then is_get m || (is_put m || is_delete m)
      else if n == 3 && is 2 (ascii "collaborators")
      then is_get m
      else if is 2 (ascii "scim-directories")
      then (n == 3 && (is_get m || is_post m)) || (n == 4 && (id_at 3 && (is_get m || is_put m)))
      else if n == 3 && is 2 (ascii "catalog-binding")
      then is_put m
      else if is 2 (ascii "event-streams") && (leb 4 n && is_event_stream (p 3))
      then stream_route
      else if is 2 (ascii "credentials")
      then credential_route
      else if is 2 (ascii "payloads") && (leb 4 n && id_at 3)
      then payload_route
      else if is 2 (ascii "executions")
          && (n == 4 && (is 3 (ascii "preflight") || is 3 (ascii "commit")))
      then is_post m
      else if n == 3 && is 2 (ascii "e2ee")
      then is_get m || is_put m
      else if leb 4 n && (is 2 (ascii "e2ee") && is 3 (ascii "function-bindings"))
      then binding_route
      else if n == 4 && (is 2 (ascii "link-candidates") && is 3 (ascii "search"))
      then is_post m
      else if n == 4 && is 2 (ascii "links")
      then link_route
      else action_route

  -- "me" and "catalogs".
  my_catalog_route : Bool
  unfolding is_get
  my_catalog_route =
      if n == 4
      then is_get m && (is 3 (ascii "entries") && id_at 2)
      else n == 6
        && (is_get m
            && (is 3 (ascii "snapshots") && (is 5 (ascii "document") && (id_at 2 && id_at 4))))

  catalog_route : Bool
  catalog_route =
      (n == 3 && is 2 (ascii "entries")) || (n == 4 && (is 2 (ascii "entries") && id_at 3))

  claim_route : Bool
  unfolding is_get is_post
  claim_route =
      (n == 3 && is_get m)
      || (n == 4 && (is_post m && (is 3 (ascii "transfer") || is 3 (ascii "complete"))))

  -- "key-access", with `parts[2]` unescaped.
  key_route : Option Bytes → Bool
  unfolding is_delete claim_route
  key_route none = false
  key_route (some id) =
      if not (is_client_id id)
      then false
      else if is 1 (ascii "subject-keys")
      then n == 3 && is_delete m
      else if is 1 (ascii "claims")
      then claim_route
      else false

  invitation_route : Option Bytes → Bool
  unfolding is_post
  invitation_route none = false
  invitation_route (some id) =
      is_client_id id && (is_post m && (is 3 (ascii "accept") || is 3 (ascii "decline")))

  module _ (unescape : Bytes → Option Bytes) where
    -- Everything behind the check of `parts[1]`.
    part_route : Bool
    unfolding is_get is_post my_catalog_route catalog_route key_route invitation_route
        below_resource
    part_route =
        if is 0 (ascii "operations")
        then n == 2 && is_get m
        else if is 0 (ascii "me") && is 1 (ascii "catalogs")
        then my_catalog_route
        else if is 0 (ascii "catalogs") && is_get m
        then catalog_route
        else if is 0 (ascii "key-access") && leb 3 n
        then key_route (unescape (p 2))
        else if is 0 (ascii "me") && (n == 4 && is 1 (ascii "encryption-actions"))
        then id_at 2 && (is 3 (ascii "complete") && is_post m)
        else if is 0 (ascii "me") && (n == 4 && is 1 (ascii "invitations"))
        then invitation_route (unescape (p 2))
        else if not (is 0 (ascii "resources"))
        then false
        else below_resource

-- The routes without a part to check, with their methods.
fixed_route : Bytes → Bytes → Option Bool
unfolding at is_get is_post
fixed_route m path =
    if bytes_eq path (at (ascii "/resources"))
    then some (is_post m)
    else if bytes_eq path (at (ascii "/billing/checkout-sessions"))
        || bytes_eq path (at (ascii "/billing/portal-sessions"))
    then some (is_post m)
    else if bytes_eq path (at (ascii "/organizations"))
    then some (is_get m || is_post m)
    else if bytes_eq path (at (ascii "/resources/search"))
    then some (is_post m)
    else if bytes_eq path (at (ascii "/me/invitations"))
        || (bytes_eq path (at (ascii "/me/resources")) || bytes_eq path (at (ascii "/me/catalogs")))
    then some (is_get m)
    else if bytes_eq path (at (ascii "/key-access/subject-keys"))
        || bytes_eq path (at (ascii "/key-access/resource-envelope"))
    then some (is_get m || is_post m)
    else if bytes_eq path (at (ascii "/me/encryption-actions"))
    then some (is_get m)
    else none

module _ (library : Library) where
  open library use {path_unescape, parse_query}

  split_route : Bytes → List Bytes → Bytes → Bool
  unfolding at part valid_part part_route
  split_route m parts path =
      has_prefix (at (ascii "/")) path
      && (not (ltb (length parts) 2)
          && (valid_part (path_unescape (part parts 1))
              && part_route m (part parts) (length parts) path_unescape))

  or_split : Bytes → Bytes → Option Bool → Bool
  unfolding at split_route
  or_split m path (some answer) = answer
  or_split m path none = split_route m (split_at b'/' (trim_prefix (at (ascii "/")) path)) path

  -- `resourceRoute`
  pub resource_route : Bytes → Bytes → Bool
  unfolding fixed_route or_split
  resource_route m path = or_split m path (fixed_route m path)

  -- The names of the parameters that a path allows.
  allowed_names : Bytes → Option (List Bytes)
  unfolding at
  allowed_names path =
      if contains_text (ascii "/event-streams/") path
        && (contains_text (ascii "/queries/") path && has_suffix (ascii "/events") path)
      then some (ascii "cursor" ∷ ascii "limit" ∷ [])
      else if contains_text (ascii "/event-streams/") path
          && (contains_text (ascii "/queries/") path && has_suffix (ascii "/histogram") path)
      then some (ascii "group_by" ∷ ascii "interval_seconds" ∷ [])
      else if bytes_eq path (at (ascii "/key-access/resource-envelope"))
      then some (ascii "resource" ∷ [])
      else if bytes_eq path (at (ascii "/me/invitations"))
      then some (ascii "cursor" ∷ ascii "limit" ∷ [])
      else if bytes_eq path (at (ascii "/me/catalogs"))
          || has_prefix (at (ascii "/me/catalogs/")) path
      then some (ascii "cursor" ∷ ascii "limit" ∷ [])
      else if bytes_eq path (at (ascii "/me/resources"))
      then some (
          ascii "cursor"
          ∷ ascii "limit"
          ∷ ascii "type"
          ∷ ascii "access_state"
          ∷ ascii "parent"
          ∷ [])
      else if has_prefix (at (ascii "/catalogs/")) path
      then some (ascii "resource" ∷ ascii "cursor" ∷ ascii "limit" ∷ [])
      else if has_suffix (ascii "/collaborators") path
      then some (
          ascii "view"
          ∷ ascii "search"
          ∷ ascii "email"
          ∷ ascii "subject"
          ∷ ascii "resource_subject"
          ∷ ascii "via_group"
          ∷ ascii "direct"
          ∷ ascii "kind"
          ∷ ascii "status"
          ∷ ascii "relation"
          ∷ ascii "cursor"
          ∷ ascii "limit"
          ∷ [])
      else if has_prefix (at (ascii "/resources/")) path
          && has_suffix (ascii "/scim-directories") path
      then some (ascii "cursor" ∷ ascii "limit" ∷ [])
      else none

  one_of : List Bytes → Bytes → Bool
  one_of [] s = false
  one_of (name ∷ names) s = bytes_eq name s || one_of names s

  may_repeat : Bytes → Bool
  unfolding one_of
  may_repeat =
      one_of (
        ascii "type" ∷ ascii "access_state" ∷ ascii "kind" ∷ ascii "status" ∷ ascii "relation" ∷ [])

  valid_parameters : List Bytes → Option (List (Bytes × List Bytes)) → Bool
  unfolding one_of may_repeat
  valid_parameters names none = false
  valid_parameters names (some query) =
      all
        (λ (entry : Bytes × List Bytes).
          one_of names entry.0 && (leb (length entry.1) 1 || may_repeat entry.0))
        query

  allowed_query : Bytes → Option (List Bytes) → Bool
  unfolding valid_parameters
  allowed_query raw none = false
  allowed_query raw (some names) = valid_parameters names (parse_query raw)

  -- `validResourceQuery`
  pub valid_resource_query : Bytes → Bytes → Bytes → Bool
  unfolding is_get allowed_names allowed_query
  valid_resource_query m path raw =
      bytes_eq raw []
      || (is_get m && (leb (length raw) 8192 && allowed_query raw (allowed_names path)))
