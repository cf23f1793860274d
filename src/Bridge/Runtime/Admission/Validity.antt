-- ===== src/Bridge/Runtime/Admission/Validity.antt =====
-- What `validAuthorization` establishes: the authorization is for this runtime and now.
use lotor_go.Common.{ℕ, ◌+◌, ◌≤◌, ◌<◌, ◌≡◌, refl, true, arith}
use lotor_go.Common.Bytes.{Bytes, bytes_eq_iff}
use lotor_go.Common.Int.{ℤ, pos, negsuc, IsInt64, ltz, lez, eqz→eq, sub64, sub64-pos}
use lotor_go.Bridge.Platform.{Authorization, Platform}
use lotor_go.Bridge.Protocol.{protocol_version}
use lotor_go.Bridge.Runtime.{Runtime, scope_eq→eq}
use lotor_go.Bridge.Runtime.Admission.{valid_static, valid_authorization}

-- The time of a grant: issued in the past, not expired, and for five minutes at most.
pub record IsTimely (a : Authorization) (now : ℤ) : Type 0 where
  pub issued : ℕ
  pub expires : ℕ
  pub clock : ℕ
  pub issued_eq : a.issued_at ≡ pos issued
  pub expires_eq : a.expires_at ≡ pos expires
  pub clock_eq : now ≡ pos clock
  pub issued_past : (0 < issued) × (issued ≤ clock)
  pub unexpired : clock < expires
  pub short_lived : expires ≤ issued + 300

pub record IsForRuntime (runtime : Runtime) (a : Authorization) : Type 0 where
  pub version : a.protocol_version ≡ protocol_version
  pub issuer : a.issuer ≡ runtime.config.issuer
  pub audience : a.audience ≡ runtime.config.audience
  pub binding : a.binding_id ≡ runtime.config.binding_id
  pub revision : a.binding_revision ≡ runtime.config.binding_revision
  pub manifest : a.manifest_digest ≡ runtime.manifest_digest
  pub scope : a.scope ≡ runtime.config.scope

timely :
    (a : Authorization) (i e now : ℤ)
    → a.issued_at ≡ i
    → a.expires_at ≡ e
    → IsInt64 e
    → ltz (pos 0) i ≡ true
    → lez i now ≡ true
    → ltz now e ≡ true
    → ltz i e ≡ true
    → lez (sub64 e i) (pos 300) ≡ true
    → IsTimely a now
timely a (pos i) (pos e) (pos n) p q fits h1 h2 h3 h4 h5 = record {
  issued = i;
  expires = e;
  clock = n;
  issued_eq = p;
  expires_eq = q;
  clock_eq = refl;
  issued_past = (ground arith, ground arith);
  unexpired = ground arith;
  short_lived = ground (arith, sub64-pos e i fits);
}
timely a (negsuc i) e now p q fits h1 h2 h3 h4 h5 = absurd (ground arith)
timely a (pos i) e (negsuc n) p q fits h1 h2 h3 h4 h5 = absurd (ground arith)
timely a (pos i) (negsuc e) (pos n) p q fits h1 h2 h3 h4 h5 = absurd (ground arith)

static-IsTimely :
    (runtime : Runtime) (a : Authorization) (now : ℤ)
    → IsInt64 a.expires_at
    → valid_static runtime a now ≡ true
    → IsTimely a now
unfolding valid_static
static-IsTimely runtime a now fits h =
    timely a a.issued_at a.expires_at now refl refl fits (ground arith) (ground arith)
      (ground arith) (ground arith) (ground arith)

static-IsForRuntime :
    (runtime : Runtime) (a : Authorization) (now : ℤ)
    → valid_static runtime a now ≡ true
    → IsForRuntime runtime a
unfolding valid_static
static-IsForRuntime runtime a now h = record {
  version = eqz→eq _ _ (ground arith);
  issuer = (bytes_eq_iff _ _).0 (ground arith);
  audience = (bytes_eq_iff _ _).0 (ground arith);
  binding = (bytes_eq_iff _ _).0 (ground arith);
  revision = eqz→eq _ _ (ground arith);
  manifest = (bytes_eq_iff _ _).0 (ground arith);
  scope = scope_eq→eq _ _ (ground arith);
}

module _ (platform : Platform) where
  -- An authorization that passes is for this runtime's exact configuration, was issued in the
  -- past, has not expired, and lives for at most 300 seconds.
  pub valid_authorization_sound :
      (runtime : Runtime) (a : Authorization) (path : Bytes) (now : ℤ)
      → IsInt64 a.expires_at
      → valid_authorization platform runtime a path now ≡ true
      → IsForRuntime runtime a × IsTimely a now
  unfolding valid_authorization
  valid_authorization_sound runtime a path now fits h =
      let static : valid_static runtime a now ≡ true = ground arith in
      (static-IsForRuntime runtime a now static, static-IsTimely runtime a now fits static)
