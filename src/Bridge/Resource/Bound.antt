-- ===== src/Bridge/Resource/Bound.antt =====
-- What an answer of Control about an invocation is bound to.
use mathlib.Core.Path.{subst}
use lotor_go.Common.{◌≡◌, Bool, true, not, ◌&&◌, some, ◌*◌, ◌^◌, ◌++◌, and-eq-true, arith}
use lotor_go.Common.Bytes.{Bytes, ascii, bytes_eq, bytes_eq_iff}
use lotor_go.Common.Int.{ℤ, pos, ltz, lez, eqz→eq, mul64}
use lotor_go.Common.Results.{>>=-eq-ok, require-eq-ok, found-eq-ok}
use lotor_go.Common.Http.{Reply}
use lotor_go.Bridge.Platform.{SignedMessage, Authorization, Platform}
use lotor_go.Bridge.Protocol.{maximum_body_bytes, identifier, strict_json}
use lotor_go.Bridge.Runtime.{scope_eq→eq}
use lotor_go.Bridge.Resource.{
  ok, Context, PayloadAccess, Workload, Codec, validation_purpose, resource_access_purpose,
  contains, lookup_field, is_some, object_fields, reply_error, access_error, workload_fields,
  scope_fields, same_identity, same_payload, lease_for, may_read, bytes_of, proof, workload_context,
  access_payload,
}

-- The payload is the one that was asked for, as the manifest and the lease both say, and the grant
-- allows to read it until the lease ends.
pub record IsLeased (a : Authorization) (resource slot : Bytes) (version now : ℤ)
    (p : PayloadAccess) : Type 0 where
  pub in_resources : contains a.resources resource ≡ true
  pub may_read_payloads : contains a.capabilities (ascii "payload.read") ≡ true
  pub manifest_resource : p.manifest.resource ≡ resource
  pub lease_resource : p.lease.resource ≡ resource
  pub manifest_slot : p.manifest.slot ≡ slot
  pub lease_slot : p.lease.slot ≡ slot
  pub manifest_version : p.manifest.payload_version ≡ version
  pub lease_version : p.lease.payload_version ≡ version
  pub digest : p.manifest.object_digest ≡ p.lease.object_digest
  pub size : p.manifest.object_size ≡ p.lease.object_size
  pub representation : p.manifest.representation ≡ p.lease.representation
  pub revision : p.manifest.resource_revision ≡ p.lease.resource_revision
  pub generation : p.manifest.lifecycle_generation ≡ p.lease.lifecycle_generation
  pub audience : p.lease.audience ≡ ascii "function:" ++ a.binding_id
  pub unexpired : ltz now p.lease.expires_at ≡ true
  pub within_grant : lez p.lease.expires_at (mul64 a.expires_at (10 ^ 6)) ≡ true

payload-IsLeased :
    (a : Authorization) (resource slot : Bytes) (version now : ℤ) (p : PayloadAccess)
    (custody : Bool)
    → may_read a resource custody ≡ true
    → same_payload p.manifest p.lease resource slot version ≡ true
    → lease_for p.lease a now ≡ true
    → IsLeased a resource slot version now p
unfolding may_read same_payload lease_for
payload-IsLeased a resource slot version now p custody h k l = record {
  in_resources = ground arith;
  may_read_payloads = ground arith;
  manifest_resource = (bytes_eq_iff _ _).0 (ground arith);
  lease_resource = (bytes_eq_iff _ _).0 (ground arith);
  manifest_slot = (bytes_eq_iff _ _).0 (ground arith);
  lease_slot = (bytes_eq_iff _ _).0 (ground arith);
  manifest_version = eqz→eq _ _ (ground arith);
  lease_version = eqz→eq _ _ (ground arith);
  digest = (bytes_eq_iff _ _).0 (ground arith);
  size = eqz→eq _ _ (ground arith);
  representation = (bytes_eq_iff _ _).0 (ground arith);
  revision = eqz→eq _ _ (ground arith);
  generation = eqz→eq _ _ (ground arith);
  audience = (bytes_eq_iff _ _).0 (ground arith);
  unexpired = ground arith;
  within_grant = ground arith;
}

-- The identity of the grant, as Control confirmed it.
pub record IsIdentity (a : Authorization) (w : Workload) : Type 0 where
  pub invocation : w.invocation_id ≡ a.id
  pub binding : w.binding_id ≡ a.binding_id
  pub scope : w.scope ≡ a.scope
  pub principal : w.principal ≡ a.principal
  pub named : identifier w.principal 256 ≡ true

same_identity-IsIdentity :
    (a : Authorization) (w : Workload) (has : Bool) → same_identity w a has ≡ true → IsIdentity a w
unfolding same_identity
same_identity-IsIdentity a w has h = record {
  invocation = (bytes_eq_iff _ _).0 (ground arith);
  binding = (bytes_eq_iff _ _).0 (ground arith);
  scope = scope_eq→eq _ _ (ground arith);
  principal = (bytes_eq_iff _ _).0 (ground arith);
  named = ground arith;
}

module _ (platform : Platform) (codec : Codec) (key_id key : Bytes) where
  -- A payload that accessPayload gives is the one that was asked for, under the grant of the running
  -- invocation, and its lease has not ended.
  pub access_payload_bound :
      (ctx : Context) (reply : Reply) (resource slot : Bytes) (version : ℤ) (custody : Bool)
      (p : PayloadAccess)
      → access_payload platform codec key_id key ctx reply resource slot version custody ≡ ok p
      → (g : Authorization × SignedMessage) × (ctx.invocation ≡ some g)
        × IsLeased g.0 resource slot version ctx.unix_micro p
  unfolding access_payload
  access_payload_bound ctx reply resource slot version custody p h =
      let (g, running, h1) = found-eq-ok ctx.invocation _ _ h in
      let (allowed, h2) = require-eq-ok (may_read g.0 resource custody) _ _ h1 in
      let (named, h3) =
        require-eq-ok
          (identifier resource 256 && (identifier slot 128 && not (ltz version (pos 1)))) _ _ h2 in
      let (body, posted, h4) =
        >>=-eq-ok (proof platform codec key_id key _ resource_access_purpose) _ h3 in
      let (answer, replied, h5) = >>=-eq-ok (access_error reply) _ h4 in
      let (raw, read, h6) = >>=-eq-ok (bytes_of answer maximum_body_bytes) _ h5 in
      let (result, decoded, h7) =
        found-eq-ok (strict_json platform codec.decode_access raw) _ _ h6 in
      let (same, h8) =
        require-eq-ok
          (same_payload result.manifest result.lease resource slot version
            && lease_for result.lease g.0 ctx.unix_micro)
          _ _ h7 in
      let equal : result ≡ p = cc in
      let (payload, lease) =
        and-eq-true (same_payload result.manifest result.lease resource slot version)
          (lease_for result.lease g.0 ctx.unix_micro) same in
      (
        g,
        running,
        subst (λ (x : PayloadAccess). IsLeased g.0 resource slot version ctx.unix_micro x) equal
            (payload-IsLeased g.0 resource slot version ctx.unix_micro result custody allowed
              payload lease),
      )

  -- The identity that Control confirms is that of the grant of the running invocation.
  pub workload_context_bound :
      (ctx : Context) (reply : Reply) (w : Workload)
      → workload_context platform codec key_id key ctx reply ≡ ok w
      → (g : Authorization × SignedMessage) × (ctx.invocation ≡ some g) × IsIdentity g.0 w
  unfolding workload_context
  workload_context_bound ctx reply w h =
      let (g, running, h1) = found-eq-ok ctx.invocation _ _ h in
      let (kind, h2) = require-eq-ok (bytes_eq g.0.kind (ascii "invocation")) _ _ h1 in
      let (body, posted, h3) =
        >>=-eq-ok (proof platform codec key_id key _ validation_purpose) _ h2 in
      let (answer, replied, h4) = >>=-eq-ok (reply_error reply) _ h3 in
      let (raw, read, h5) = >>=-eq-ok (bytes_of answer (16 * 2 ^ 10)) _ h4 in
      let (fields, outer, h6) =
        found-eq-ok (object_fields codec.members raw workload_fields) _ _ h5 in
      let (scope, there, h7) = found-eq-ok (lookup_field (ascii "scope") fields) _ _ h6 in
      let (inner, scoped, h8) =
        found-eq-ok (object_fields codec.members scope scope_fields) _ _ h7 in
      let (result, decoded, h9) =
        found-eq-ok (strict_json platform codec.decode_workload raw) _ _ h8 in
      let has = is_some (lookup_field (ascii "authority_resource") fields) in
      let (same, h10) = require-eq-ok (same_identity result g.0 has) _ _ h9 in
      let equal : result ≡ w = cc in
      (
        g,
        running,
        subst (λ (x : Workload). IsIdentity g.0 x) equal
            (same_identity-IsIdentity g.0 result has same),
      )
