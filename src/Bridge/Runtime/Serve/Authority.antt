-- ===== src/Bridge/Runtime/Serve/Authority.antt =====
-- What must hold of a request before a handler is called: a trusted key, a verified and current
-- authorization for this runtime, the callback's consent, and a grant that is still active.
use lotor_go.Common.{◌≡◌, refl, ◌⊎◌, inl, inr, true, false, Option, none, some, List, Bool-cases}
use lotor_go.Common.Bytes.{Bytes, ascii, bytes_eq}
use lotor_go.Bridge.Platform.{Authorization, Platform}
use lotor_go.Bridge.Journal.{Journal, Reserved, fresh, stored, refused}
use lotor_go.Bridge.Runtime.{Runtime}
use lotor_go.Bridge.Runtime.Admission.{
  Request, Env, Stage, stop, go, challenge_path, grant_active, authorize,
}
use lotor_go.Bridge.Runtime.Admission.Checks.{
  IsAuthorized, authorize-IsAuthorized, valid_challenge_kind,
}
use lotor_go.Bridge.Runtime.Serve.{
  World, identity_of, semantic, resume, reserved, invoke, dispatch, serve,
}

module _ (platform : Platform) where
  -- What a call of a handler needs.
  pub record IsDue {F : Type 0} (runtime : Runtime) (env : Env F) (r : Request) : Type 0 where
    pub authorization : Authorization
    pub raw : Bytes
    pub authorized : IsAuthorized platform runtime env r authorization raw
    pub is_invocation : bytes_eq authorization.kind (ascii "challenge") ≡ false
    pub still_active : grant_active env.second_cancelled env.second_now authorization ≡ true

module _ {S F : Type 0} (platform : Platform) (journal : Journal S F) where
  reserved_runs :
      (runtime : Runtime) (env : Env F) (a : Authorization) (raw id digest : Bytes)
      (p : Reserved × S) (runs : List Bytes)
      → ((reserved platform journal runtime env a raw id digest p runs).1.runs ≡ runs)
        ⊎ ((grant_active env.second_cancelled env.second_now a ≡ true) × (p.0 ≡ fresh))
  unfolding reserved resume
  reserved_runs runtime env a raw id digest (reply, s) runs =
      elim (Bool-cases (grant_active env.second_cancelled env.second_now a)) [
        | inl on ↦
            elim reply
              as (λ reply.
                ((reserved platform journal runtime env a raw id digest (reply, s) runs).1.runs
                  ≡ runs)
                ⊎ ((grant_active env.second_cancelled env.second_now a ≡ true) × (reply ≡ fresh))) [
                  | fresh ↦ inr (on, refl)
                  | stored r ↦ inl (rw on)
                  | refused e ↦ inl (rw on)
                ]
        | inr off ↦ inl (rw off)
      ]

  invoke_runs :
      (runtime : Runtime) (env : Env F) (a : Authorization) (raw : Bytes) (w : World S)
      (json : Option Bytes)
      → ((invoke platform journal runtime env a raw w json).1.runs ≡ w.runs)
        ⊎ (grant_active env.second_cancelled env.second_now a ≡ true)
  unfolding invoke
  invoke_runs runtime env a raw w none = inl refl
  invoke_runs runtime env a raw w (some json) =
      elim (reserved_runs runtime env a raw (identity_of runtime a) (platform.sha256_hex json)
        (journal.reserve env.reserve_fault (identity_of runtime a) (platform.sha256_hex json)
          w.journal)
        w.runs) [ inl same ↦ inl same | inr (on, e) ↦ inr on ]

  dispatch_runs :
      (runtime : Runtime) (env : Env F) (r : Request) (w : World S)
      (st : Stage (Authorization × Bytes))
      → authorize platform runtime env r ≡ st
      → ((dispatch platform journal runtime env w st).1.runs ≡ w.runs)
        ⊎ IsDue platform runtime env r
  unfolding dispatch
  dispatch_runs runtime env r w (stop x) e = inl refl
  dispatch_runs runtime env r w (go (a, raw)) e =
      elim (Bool-cases (bytes_eq a.kind (ascii "challenge"))) [
        | inl challenge ↦ inl (rw challenge)
        | inr other ↦
            elim (invoke_runs runtime env a raw w (platform.marshal_authorization (semantic a))) [
              | inl same ↦ inl (rw other same)
              | inr on ↦ inr (record {
                authorization = a;
                raw = raw;
                authorized = authorize-IsAuthorized platform runtime env r a raw e;
                is_invocation = other;
                still_active = on;
              })
            ]
      ]

  -- A request calls a handler only if it carries an invocation that was signed with a trusted
  -- key, is valid for this runtime, was allowed by the callback, and was active both before and
  -- after the reservation; any other request leaves the record of calls as it was.
  pub serve_needs_authority :
      (runtime : Runtime) (env : Env F) (r : Request) (w : World S)
      → ((serve platform journal runtime env r w).1.runs ≡ w.runs) ⊎ IsDue platform runtime env r
  unfolding serve
  serve_needs_authority runtime env r w =
      dispatch_runs runtime env r w (authorize platform runtime env r) refl

  dispatch_challenge :
      (runtime : Runtime) (env : Env F) (r : Request) (w : World S)
      (st : Stage (Authorization × Bytes))
      → r.path ≡ challenge_path
      → authorize platform runtime env r ≡ st
      → (dispatch platform journal runtime env w st).1 ≡ w
  unfolding dispatch
  dispatch_challenge runtime env r w (stop x) p e = refl
  dispatch_challenge runtime env r w (go (a, raw)) p e =
      let ok = authorize-IsAuthorized platform runtime env r a raw e in
      rw (valid_challenge_kind platform runtime a r.path env.valid_now p ok.is_valid)

  -- An ownership challenge never reaches the journal or a handler.
  pub serve_challenge :
      (runtime : Runtime) (env : Env F) (r : Request) (w : World S)
      → r.path ≡ challenge_path
      → (serve platform journal runtime env r w).1 ≡ w
  unfolding serve
  serve_challenge runtime env r w p =
      dispatch_challenge runtime env r w (authorize platform runtime env r) p refl
