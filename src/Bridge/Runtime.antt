-- ===== src/Bridge/Runtime.antt =====
-- bridge/runtime.go: NewRuntime and ServeHTTP. What a request meets outside this code (the clock
-- at each reading, cancelled contexts, the callback's answer, faults below the journal) is an
-- argument; a handler is a function of its authorization.
pub mod Admission
pub mod Serve
use lotor_go.Common.{
  ℕ, zero, suc, ◌+◌, ◌*◌, ◌^◌, Bool, true, false, not, ◌&&◌, ◌||◌, Option, none, some, List, [],
  ◌∷◌, ◌++◌, ltb, leb, ◌==◌, if◌then◌else◌, length, all, ◌≡◌, arith,
}
use lotor_go.Common.Bytes.{Bytes, ascii, bytes_eq, bytes_eq_iff}
use lotor_go.Common.Int.{ℤ, pos, negsuc, ltz, lez, eqz, sub64}
use lotor_go.Bridge.Platform.{
  Scope, Function, Manifest, SignedMessage, Authorization, Result, Platform,
}
use lotor_go.Bridge.Protocol.{
  protocol_version, maximum_input_bytes, ed25519_private_key_size, ed25519_public_key_size,
  identifier, is_digest, function_eq, manifest_digest,
}

-- How a call of a handler ends.
pub data Ran : Type 0 where
  returned : Bytes → Ran
  failed panicked : Ran

abbrev pub Handler : Type 0
Handler = Authorization → Ran

pub record Registration : Type 0 where
  -- nil is `none`
  pub handler : Option Handler
  pub function : Function

pub record Config : Type 0 where
  pub has_store : Bool
  pub has_authorize : Bool
  pub trusted_keys : List (Bytes × Bytes)
  pub scope : Scope
  pub audience : Bytes
  pub binding_id : Bytes
  pub signing_key_id : Bytes
  pub issuer : Bytes
  pub signing_key : Bytes
  pub functions : List Registration
  pub binding_revision : ℤ
  -- nanoseconds
  pub execution_timeout : ℤ

pub record Runtime : Type 0 where
  pub functions : List (Function × Handler)
  pub manifest_digest : Bytes
  pub config : Config

unfoldable pub valid_scope : Scope → Bool
valid_scope s =
    identifier s.tenant_id 256
    && identifier s.application_id 256
    && identifier s.environment_id 256
    && identifier s.owner_resource 256

unfoldable pub scope_eq : Scope → Scope → Bool
scope_eq a b =
    bytes_eq a.tenant_id b.tenant_id
    && bytes_eq a.application_id b.application_id
    && bytes_eq a.environment_id b.environment_id
    && bytes_eq a.owner_resource b.owner_resource

-- The first of the checks of `NewRuntime`.
valid_config : Config → Bool
unfolding valid_scope
valid_config c =
    identifier c.issuer 256
    && identifier c.audience 256
    && identifier c.binding_id 256
    && lez (pos 1) c.binding_revision
    && valid_scope c.scope
    && identifier c.signing_key_id 256
    && length c.signing_key == ed25519_private_key_size
    && not (length c.trusted_keys == 0)
    && c.has_store
    && c.has_authorize

valid_key : Bytes × Bytes → Bool
valid_key (id, key) = identifier id 256 && length key == ed25519_public_key_size

-- A map of functions to handlers: the last registration of a function counts.
unfoldable pub find_handler : Function → List (Function × Handler) → Option Handler
find_handler f [] = none
find_handler f ((g, h) ∷ m) = if function_eq g f then some h else find_handler f m

-- `functions[registration.Function] = registration.Handler`, or `ErrInvalid` for a nil handler.
register : List Registration → List (Function × Handler) → Option (List (Function × Handler))
register [] m = some m
register (r ∷ rs) m = elim (r.handler) [ none ↦ none | some h ↦ register rs ((r.function, h) ∷ m) ]

manifest_functions : List Registration → List Function
manifest_functions [] = []
manifest_functions (r ∷ rs) = r.function ∷ manifest_functions rs

-- Zero stands for thirty seconds; the bound is five minutes.
timeout_of : ℤ → Option ℤ
timeout_of t =
    let t' = if eqz t (pos 0) then pos (30 * 10 ^ 9) else t in
    if ltz t' (pos 0) || ltz (pos (300 * 10 ^ 9)) t' then none else some t'

built : Config → Option (List (Function × Handler)) → Option Bytes → Option ℤ → Option Runtime
built c (some functions) (some digest) (some timeout) = some (record {
  functions = functions;
  manifest_digest = digest;
  config = record c { execution_timeout = timeout };
})
built c _ _ _ = none

module _ (platform : Platform) where
  -- `none` is `ErrInvalid`.
  pub new_runtime : Config → Option Runtime
  unfolding valid_config valid_key register manifest_functions timeout_of built
  new_runtime c =
      if not (valid_config c)
      then none
      else if not (all valid_key c.trusted_keys)
      then none
      else built c (register c.functions [])
          (manifest_digest platform (record {
            functions = manifest_functions c.functions;
            protocol_version = protocol_version;
          }))
          (timeout_of c.execution_timeout)

pub scope_eq→eq : (a b : Scope) → scope_eq a b ≡ true → a ≡ b
unfolding scope_eq
scope_eq→eq a b h = ground (
  arith,
  bytes_eq_iff a.tenant_id b.tenant_id,
  bytes_eq_iff a.application_id b.application_id,
  bytes_eq_iff a.environment_id b.environment_id,
  bytes_eq_iff a.owner_resource b.owner_resource,
)
