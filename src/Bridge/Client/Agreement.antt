-- ===== src/Bridge/Client/Agreement.antt =====
-- The checks of bridge/client/client.go against those of bridge/runtime.go.
use lotor_go.Common.{
  ◌≡◌, refl, sym, ap, ◌∙◌, inl, inr, Bool, true, false, not, ◌||◌, Option, none, some, List, [],
  ◌∷◌, ◌++◌, ltb, leb, ◌==◌, length, all, Bool-cases, and-eq-true, arith,
}
use lotor_go.Common.Bytes.{Bytes, ascii, bytes_eq}
use lotor_go.Common.Int.{ℤ}
use lotor_go.Bridge.Platform.{Function, Authorization, Platform}
use lotor_go.Bridge.Protocol.{protocol_version, maximum_input_bytes, is_digest}
use lotor_go.Bridge.Protocol
use lotor_go.Bridge.SqlStore
use lotor_go.Bridge.SqlStore.Digest.{digest_agrees, identifier_agrees}
use lotor_go.Bridge.Runtime.{Runtime, Handler, find_handler}
use lotor_go.Bridge.Runtime.Admission.{
  invoke_path, is_none, registered, valid_lists, valid_static, valid_invocation,
  valid_authorization,
}
use lotor_go.Bridge.Client.{
  Options, digest, configured, in_time, valid_input, valid_named, valid_values, valid_grant,
}

all_identifiers :
    (values more : List Bytes)
    → all (λ value. SqlStore.identifier value 256) (values ++ more) ≡ true
    → (all (λ value. Protocol.identifier value 256) values ≡ true)
      × (all (λ value. SqlStore.identifier value 256) more ≡ true)
all_identifiers [] more h = (refl, h)
all_identifiers (value ∷ values) more h =
    let (first, rest) =
      and-eq-true (SqlStore.identifier value 256)
        (all (λ v. SqlStore.identifier v 256) (values ++ more)) h in
    let (named, others) = all_identifiers values more rest in
    (rw (identifier_agrees value 256 first) named, others)

all_named :
    (values : List Bytes)
    → all (λ value. SqlStore.identifier value 256) values ≡ true
    → all (λ value. Protocol.identifier value 256) values ≡ true
all_named [] h = refl
all_named (value ∷ values) h =
    let (first, rest) =
      and-eq-true (SqlStore.identifier value 256) (all (λ v. SqlStore.identifier v 256) values) h in
    rw (identifier_agrees value 256 first) (all_named values rest)

lists_agree : (a : Authorization) → valid_values a ≡ true → valid_lists a ≡ true
unfolding valid_values valid_lists
lists_agree a h =
    let names : all (λ value. SqlStore.identifier value 256) (a.resources ++ a.capabilities)
        ≡ true =
      ground arith in
    let (resources, others) = all_identifiers a.resources a.capabilities names in
    let capabilities = all_named a.capabilities others in
    let short : not (ltb 128 (length a.resources) || ltb 64 (length a.capabilities)) ≡ true =
      ground arith in
    rw (short, resources, capabilities) refl

policy_agrees :
    (p : Bytes) → (bytes_eq p [] || digest p) ≡ true → (bytes_eq p [] || is_digest p) ≡ true
unfolding digest
policy_agrees p h = elim (Bool-cases (bytes_eq p [])) [
  | inl e ↦ rw e refl
  | inr e ↦ rw e (digest_agrees p (rw e at h))
]

-- A client and a runtime that are configured for one binding.
pub record IsSameBinding (o : Options) (runtime : Runtime) : Type 0 where
  pub issuer : runtime.config.issuer ≡ o.issuer
  pub audience : runtime.config.audience ≡ o.audience
  pub binding_id : runtime.config.binding_id ≡ o.binding_id
  pub binding_revision : runtime.config.binding_revision ≡ o.binding_revision
  pub manifest_digest : runtime.manifest_digest ≡ o.manifest_digest
  pub scope : runtime.config.scope ≡ o.scope

static_agrees :
    (o : Options) (runtime : Runtime) (a : Authorization) (now : ℤ)
    → IsSameBinding o runtime
    → configured o a ≡ true
    → SqlStore.identifier a.id 256 ≡ true
    → in_time a now ≡ true
    → valid_static runtime a now ≡ true
unfolding configured in_time valid_static
static_agrees o runtime a now same h named time =
    let id = identifier_agrees a.id 256 named in
    rw
      (
        same.issuer, same.audience, same.binding_id, same.binding_revision, same.manifest_digest,
        same.scope,
      )
      (ground arith)

some_input :
    (input : Bytes) (json_valid : Bytes → Bool)
    → json_valid [] ≡ false
    → json_valid input ≡ true
    → not (length input == 0) ≡ true
some_input [] json_valid h k = cc
some_input (c ∷ input) json_valid h k = ground arith

is_registered :
    (runtime : Runtime) (function : Option Function) (f : Function) (h : Handler)
    → function ≡ some f
    → find_handler f runtime.functions ≡ some h
    → registered runtime function ≡ true
unfolding registered is_none
is_registered runtime none f h e there = cc
is_registered runtime (some g) f h e there =
    let same : f ≡ g = cc in
    rw (ap (λ (x : Function). find_handler x runtime.functions) (sym same) ∙ there) refl

module _ (platform : Platform) where
  invocation_agrees :
      (o : Options) (runtime : Runtime) (a : Authorization)
      → platform.json_valid [] ≡ false
      → not (ltb maximum_input_bytes (length a.input)) ≡ true
      → configured o a ≡ true
      → SqlStore.identifier a.principal 256 ≡ true
      → bytes_eq a.nonce [] ≡ true
      → valid_input platform a ≡ true
      → valid_values a ≡ true
      → registered runtime a.function ≡ true
      → valid_invocation platform runtime a ≡ true
  unfolding configured valid_input valid_invocation
  invocation_agrees o runtime a empty small same named fresh input values known =
      let principal = identifier_agrees a.principal 256 named in
      let lists = lists_agree a values in
      let json : platform.json_valid a.input ≡ true = ground arith in
      let some_bytes = some_input a.input platform.json_valid empty json in
      let policy = policy_agrees a.policy_digest (ground arith) in
      let kind : bytes_eq a.kind (ascii "invocation") ≡ true = ground arith in
      let sum : bytes_eq a.input_digest (platform.sha256_hex a.input) ≡ true = ground arith in
      let fits : leb (length a.input) maximum_input_bytes ≡ true = ground arith in
      rw (kind, fresh, principal, some_bytes, fits, json, sum, policy, known, lists) refl

  -- A grant that passes the checks of the client is admitted by a runtime that is configured for the
  -- same binding and has a handler for the named function, when both read the same clock. JSON has
  -- no empty text.
  pub valid_grant-valid_authorization :
      (o : Options) (runtime : Runtime) (a : Authorization) (now : ℤ) (f : Function) (h : Handler)
      → platform.json_valid [] ≡ false
      → IsSameBinding o runtime
      → a.function ≡ some f
      → find_handler f runtime.functions ≡ some h
      → valid_grant platform o a now ≡ true
      → valid_authorization platform runtime a invoke_path now ≡ true
  unfolding valid_grant valid_authorization bytes_eq
  valid_grant-valid_authorization o runtime a now f h empty same named there valid =
      let (small, h1) = and-eq-true (not (ltb maximum_input_bytes (length a.input))) _ valid in
      let (bound, h2) = and-eq-true (configured o a) _ h1 in
      let (id, h3) = and-eq-true (SqlStore.identifier a.id 256) _ h2 in
      let (principal, h4) = and-eq-true (SqlStore.identifier a.principal 256) _ h3 in
      let (fresh, h5) = and-eq-true (bytes_eq a.nonce []) _ h4 in
      let (time, h6) = and-eq-true (in_time a now) _ h5 in
      let (input, h7) = and-eq-true (valid_input platform a) _ h6 in
      let (function, values) = and-eq-true (valid_named a.function) _ h7 in
      rw (static_agrees o runtime a now same bound id time) (
        invocation_agrees o runtime a empty small bound principal fresh input values
          (is_registered runtime a.function f h named there))
