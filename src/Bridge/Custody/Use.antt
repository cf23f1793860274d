-- ===== src/Bridge/Custody/Use.antt =====
-- When a resource key may be used: WithPayloadCustody, WithResourceKey and OpenPayload.
use mathlib.Core.Path.{subst}
use lotor_go.Common.{
  ℕ, ◌≢◌, ◌≡◌, refl, sym, ap, ◌∙◌, Bool, true, false, not, ◌&&◌, Option, none, some, [], ◌∷◌, ◌==◌,
  length, and-eq-true, arith,
}
use lotor_go.Common.Bytes.{Bytes, ascii, bytes_eq, bytes_eq_iff}
use lotor_go.Common.Int.{ℤ, pos, ltz, eqz→eq}
use lotor_go.Common.Http.{Reply}
use lotor_go.Bridge.Platform.{SignedMessage, Authorization, Platform}
use lotor_go.Bridge.Protocol.{invalid, unauthorized, identifier, is_digest}
use lotor_go.Bridge.Runtime.{scope_eq→eq}
use lotor_go.Common.Results.{>>=-eq-ok, require-eq-ok, found-eq-ok}
use lotor_go.Bridge.Resource.{
  Fallible, ok, err, Context, PayloadManifest, PayloadAccess, Codec, contains, workload_context,
  access_payload,
}
use lotor_go.Bridge.Resource.Bound.{IsLeased, access_payload_bound}
use lotor_go.Bridge.Custody.{
  KeyBinding, Handle, Memory, write_key, Cipher, cipher_at, returned, Callback, Crypto, custody_of,
  in_custody, matches_invocation, grant_matches, invocation_matches, valid_binding,
  with_resource_key, checked_use, custody_manifest, binding_of, manifest_matches, version_one,
  encrypt_value, open_payload, with_payload_custody,
}

-- The running invocation is the one that the binding names, is alive, and may use the key.
pub record IsLive (b : KeyBinding) (ctx : Context) (a : Authorization) : Type 0 where
  pub running : ctx.ended ≡ false
  pub invocation : a.id ≡ b.invocation_id
  pub scope : a.scope ≡ b.scope
  pub principal : a.principal ≡ b.principal
  pub expires : a.expires_at ≡ b.expires_at
  pub unexpired : ltz ctx.unix a.expires_at ≡ true
  pub in_resources : contains a.resources b.resource ≡ true
  pub may_use : contains a.capabilities (ascii "custody.use") ≡ true

live :
    (b : KeyBinding) (ended : Bool) (a : Authorization) (ctx : Context)
    → ended ≡ ctx.ended
    → (not ended && grant_matches b a ctx.unix) ≡ true
    → IsLive b ctx a
unfolding grant_matches
live b true a ctx same h = cc
live b false a ctx same h = record {
  running = sym same;
  invocation = (bytes_eq_iff _ _).0 (ground arith);
  scope = scope_eq→eq _ _ (ground arith);
  principal = (bytes_eq_iff _ _).0 (ground arith);
  expires = eqz→eq _ _ (ground arith);
  unexpired = ground arith;
  in_resources = ground arith;
  may_use = ground arith;
}

no_invocation : (t : Bool) → (t && false) ≡ true → {A : Type 0} → A
no_invocation true h = cc
no_invocation false h = cc

matches_some :
    (b : KeyBinding) (ctx : Context) (running : Option (Authorization × SignedMessage))
    → (not ctx.ended && invocation_matches b running ctx.unix) ≡ true
    → (g : Authorization × SignedMessage) × (running ≡ some g) × IsLive b ctx g.0
unfolding invocation_matches
matches_some b ctx none h = no_invocation (not ctx.ended) h
matches_some b ctx (some g) h = (g, refl, live b ctx.ended g.0 ctx refl h)

pub matches_invocation_sound :
    (b : KeyBinding) (ctx : Context)
    → matches_invocation b ctx ≡ true
    → (g : Authorization × SignedMessage) × (ctx.invocation ≡ some g) × IsLive b ctx g.0
unfolding matches_invocation
matches_invocation_sound b ctx h = matches_some b ctx ctx.invocation h

-- The manifest and the bytes are those of the committed payload that the binding names.
pub record IsPayload (platform : Platform) (b : KeyBinding) (m : PayloadManifest) (bytes : Bytes)
    : Type 0 where
  pub resource : m.resource ≡ b.resource
  pub slot : m.slot ≡ b.slot
  pub version : m.payload_version ≡ b.payload_version
  pub key_resource : m.key_binding_ref ≡ b.key_resource
  pub key_version : m.key_version ≡ b.key_version
  pub committed : m.state ≡ ascii "committed"
  pub size : m.object_size ≡ pos (length bytes)
  pub digest : platform.sha256_hex bytes ≡ b.object_digest

manifest_matches-IsPayload :
    (platform : Platform) (b : KeyBinding) (m : PayloadManifest) (bytes : Bytes)
    → (manifest_matches m b bytes
        && (version_one bytes && bytes_eq (platform.sha256_hex bytes) b.object_digest))
      ≡ true
    → IsPayload platform b m bytes
unfolding manifest_matches custody_manifest
manifest_matches-IsPayload platform b m bytes h = record {
  resource = (bytes_eq_iff _ _).0 (ground arith);
  slot = (bytes_eq_iff _ _).0 (ground arith);
  version = eqz→eq _ _ (ground arith);
  key_resource = (bytes_eq_iff _ _).0 (ground arith);
  key_version = eqz→eq _ _ (ground arith);
  committed = (bytes_eq_iff _ _).0 (ground arith);
  size = eqz→eq _ _ (ground arith);
  digest = (bytes_eq_iff _ _).0 (ground arith);
}

no_key : (key : Bytes) → key ≡ [] → (length key == 32) ≡ false
no_key [] h = refl
no_key (x ∷ key) h = cc

same_some : {A : Type 0} (o : Option A) {x y : A} → o ≡ some x → o ≡ some y → x ≡ y
same_some o h k = cc

same_first :
    (a b : KeyBinding) (m n : PayloadManifest)
    → ◌≡◌ {A = Fallible (KeyBinding × PayloadManifest)} (ok (a, m)) (ok (b, n))
    → a ≡ b
same_first a b m n h =
    let pairs : ◌≡◌ {A = KeyBinding × PayloadManifest} (a, m) (b, n) = cc in ap (λ x. x.0) pairs

same_second :
    (a b : KeyBinding) (m n : PayloadManifest)
    → ◌≡◌ {A = Fallible (KeyBinding × PayloadManifest)} (ok (a, m)) (ok (b, n))
    → m ≡ n
same_second a b m n h =
    let pairs : ◌≡◌ {A = KeyBinding × PayloadManifest} (a, m) (b, n) = cc in ap (λ x. x.1) pairs

custody-committed : (m : PayloadManifest) → custody_manifest m ≡ true → m.state ≡ ascii "committed"
unfolding custody_manifest
custody-committed m h = (bytes_eq_iff _ _).0 (ground arith)

module _ (platform : Platform) (crypto : Crypto) where
  -- A payload that OpenPayload opens is the committed one that the cipher's binding names, and the
  -- running invocation is the binding's, alive and allowed to use the key.
  pub open_payload_sound :
      (ctx : Context) (m : PayloadManifest) (bytes text : Bytes) (c : Cipher)
      → open_payload platform crypto ctx m bytes c ≡ ok text
      → IsPayload platform c.binding m bytes
        × ((g : Authorization × SignedMessage) × (ctx.invocation ≡ some g)
            × IsLive c.binding ctx g.0)
  unfolding open_payload
  open_payload_sound ctx m bytes text c h =
      let (allowed, h1) =
        require-eq-ok
          (length c.key == 32
            && (matches_invocation c.binding ctx && is_digest c.binding.policy_digest))
          unauthorized _ h in
      let (same, h2) =
        require-eq-ok
          (manifest_matches m c.binding bytes
            && (version_one bytes && bytes_eq (platform.sha256_hex bytes) c.binding.object_digest))
          invalid _ h1 in
      let matched : matches_invocation c.binding ctx ≡ true = ground arith in
      (
        manifest_matches-IsPayload platform c.binding m bytes same,
        matches_invocation_sound c.binding ctx matched,
      )

  -- A cipher whose state holds no key encrypts and opens nothing, in any context.
  empty_refuses :
      (ctx : Context) (random : Option Bytes) (path text bytes : Bytes) (m : PayloadManifest)
      (c : Cipher)
      → c.key ≡ []
      → (encrypt_value platform crypto ctx random path text c ≡ err unauthorized)
        × (open_payload platform crypto ctx m bytes c ≡ err unauthorized)
  unfolding encrypt_value open_payload
  empty_refuses ctx random path text bytes m c empty =
      let gone = no_key c.key empty in (rw gone refl, rw gone refl)

  -- Where WithResourceKey is allowed, it ends as its callback ends, by a value, an error or a panic,
  -- which has had a cipher with the key; and after it every copy of that cipher, whatever the callback
  -- did to the memory and kept, encrypts and opens nothing any more, in any context. The states of
  -- other ciphers are as the callback left them.
  pub with_resource_key_closes :
      {A : Type 0} (ctx later : Context) (b : KeyBinding) (key : Bytes) (state other : ℕ)
      (action : Handle → Callback A) (memory : Memory) (copy : Handle) (random : Option Bytes)
      (path text bytes : Bytes) (m : PayloadManifest)
      → length key ≡ 32
      → valid_binding b ≡ true
      → matches_invocation b ctx ≡ true
      → copy.state ≡ state
      → other ≢ state
      → ((with_resource_key ctx b key state action memory).0
          ≡ (action (record { binding = b; state = state }) (write_key state key memory)).0)
        × (write_key state key memory state ≡ key)
        × (encrypt_value platform crypto later random path text
              (cipher_at copy (with_resource_key ctx b key state action memory).1)
            ≡ err unauthorized)
        × (open_payload platform crypto later m bytes
              (cipher_at copy (with_resource_key ctx b key state action memory).1)
            ≡ err unauthorized)
        × ((with_resource_key ctx b key state action memory).1 other
            ≡ (action (record { binding = b; state = state }) (write_key state key memory)).1 other)
  unfolding with_resource_key write_key
  with_resource_key_closes ctx later b key state other action memory copy random path text bytes m
        size valid matched same apart =
      let long : (length key == 32) ≡ true = ground arith in
      let own : (state == state) ≡ true = ground arith in
      let shared : (copy.state == state) ≡ true = ground arith in
      let elsewhere : (other == state) ≡ false = ground arith in
      rw (long, valid, matched, own, elsewhere)
        (
          refl,
          refl,
          (empty_refuses later random path text bytes m _ (rw shared refl)).0,
          (empty_refuses later random path text bytes m _ (rw shared refl)).1,
          refl,
        )

  module _ (codec : Codec) (key_id key : Bytes) where
    -- What the checks before the custodian have seen.
    pub record IsCustody (ctx : Context) (access_reply : Reply) (resource slot : Bytes)
        (version : ℤ) (b : KeyBinding) (p : PayloadAccess) (g : Authorization × SignedMessage)
        : Type 0 where
      pub access :
          access_payload platform codec key_id key ctx access_reply resource slot version true
          ≡ ok p
      pub invocation : ctx.invocation ≡ some g
      pub live : IsLive b ctx g.0
      pub leased : IsLeased g.0 resource slot version ctx.unix_micro p
      pub principal : b.principal ≡ g.0.principal
      pub committed : p.manifest.state ≡ ascii "committed"
      pub resource_named : b.resource ≡ resource
      pub digest : b.object_digest ≡ p.manifest.object_digest

    custody_of-IsCustody :
        (ctx : Context) (identity_reply access_reply : Reply) (client_id resource slot : Bytes)
        (version : ℤ) (b : KeyBinding) (m : PayloadManifest)
        → custody_of platform crypto codec key_id key ctx identity_reply access_reply client_id
            resource slot version
          ≡ ok (b, m)
        → (p : PayloadAccess) × (g : Authorization × SignedMessage) × (p.manifest ≡ m)
          × IsCustody ctx access_reply resource slot version b p g
    unfolding custody_of binding_of
    custody_of-IsCustody ctx identity_reply access_reply client_id resource slot version b m h =
        let (named, h1) = require-eq-ok (identifier client_id 256) invalid _ h in
        let (identity, confirmed, h2) =
          >>=-eq-ok (workload_context platform codec key_id key ctx identity_reply) _ h1 in
        let (access, given, h3) =
          >>=-eq-ok
            (access_payload platform codec key_id key ctx access_reply resource slot version true) _
            h2 in
        let (g, running, h4) = found-eq-ok ctx.invocation unauthorized _ h3 in
        let (committed, h5) = require-eq-ok (custody_manifest access.manifest) unauthorized _ h4 in
        let made = binding_of client_id resource slot identity access g.0 in
        let (valid, h6) =
          require-eq-ok (valid_binding made && matches_invocation made ctx) unauthorized _ h5 in
        let bound : made ≡ b = same_first made b access.manifest m h6 in
        let manifest : access.manifest ≡ m = same_second made b access.manifest m h6 in
        let (live_grant, there, is_live) =
          matches_invocation_sound made ctx
            (and-eq-true (valid_binding made) (matches_invocation made ctx) valid).1 in
        let (lease_grant, held, leased) =
          access_payload_bound platform codec key_id key ctx access_reply resource slot version true
            access given in
        let lease_same : lease_grant ≡ g = same_some ctx.invocation held running in
        let live_same : live_grant ≡ g = same_some ctx.invocation there running in
        (
          access,
          g,
          manifest,
          subst (λ (x : KeyBinding). IsCustody ctx access_reply resource slot version x access g)
              bound
              (record {
                access = given;
                invocation = running;
                live =
                    subst (λ (x : Authorization × SignedMessage). IsLive made ctx x.0) live_same
                      is_live;
                leased =
                    subst
                      (λ (x : Authorization × SignedMessage).
                        IsLeased x.0 resource slot version ctx.unix_micro access)
                      lease_same leased;
                principal = sym (
                    ap (λ (x : Authorization × SignedMessage). x.0.principal) (sym live_same)
                    ∙ is_live.principal);
                committed = custody-committed access.manifest committed;
                resource_named = refl;
                digest = refl;
              }),
        )

    in_custody-run :
        {A : Type 0} (custodian : KeyBinding → (Handle → Callback A) → Callback A)
        (action : Handle → PayloadManifest → Callback A)
        (checks : Fallible (KeyBinding × PayloadManifest)) (memory : Memory) (result : A)
        → (in_custody platform crypto codec key_id key custodian action checks memory).0
          ≡ returned (ok result)
        → (b : KeyBinding) × (m : PayloadManifest) × (checks ≡ ok (b, m))
          × ((custodian b (checked_use b m action) memory).0 ≡ returned (ok result))
    unfolding in_custody
    in_custody-run custodian action (err e) memory result h = cc
    in_custody-run custodian action (ok (b, m)) memory result h = (b, m, refl, h)

    -- Where WithPayloadCustody succeeds, the custodian has succeeded for a binding to the running
    -- invocation and its principal, which is alive and may use the key; the answer of Control that
    -- accessPayload has read leases that invocation the payload that was asked for, which is
    -- committed, and the binding names its resource and its digest.
    pub with_payload_custody_sound :
        {A : Type 0} (ctx : Context) (identity_reply access_reply : Reply)
        (client_id resource slot : Bytes) (version : ℤ)
        (custodian : KeyBinding → (Handle → Callback A) → Callback A)
        (action : Handle → PayloadManifest → Callback A) (memory : Memory) (result : A)
        → (with_payload_custody platform crypto codec key_id key ctx identity_reply access_reply
            client_id resource slot version custodian action memory).0
          ≡ returned (ok result)
        → (b : KeyBinding) × (p : PayloadAccess) × (g : Authorization × SignedMessage) × ((custodian
              b
              (checked_use b p.manifest action)
              memory).0
            ≡ returned (ok result))
          × IsCustody ctx access_reply resource slot version b p g
    unfolding with_payload_custody
    with_payload_custody_sound ctx identity_reply access_reply client_id resource slot version
          custodian action memory result h =
        let (b, m, checked, used) = in_custody-run custodian action _ memory result h in
        let (p, g, same, custody) =
          custody_of-IsCustody ctx identity_reply access_reply client_id resource slot version b m
            checked in
        (
          b,
          p,
          g,
          subst
              (λ (x : PayloadManifest).
                (custodian b (checked_use b x action) memory).0 ≡ returned (ok result))
              (sym same) used,
          custody,
        )
