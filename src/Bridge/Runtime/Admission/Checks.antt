-- ===== src/Bridge/Runtime/Admission/Checks.antt =====
-- What the first half of `ServeHTTP` establishes.
use mathlib.Core.Path.{subst}
use mathlib.Core.Bool.{false≢true}
use lotor_go.Common.{
  ◌≡◌, refl, sym, ◌∙◌, inl, inr, Bool, true, false, Option, none, some, Bool-cases, Option-cases,
  and-eq-true, arith,
}
use lotor_go.Common.Bytes.{Bytes, ascii, bytes_eq, bytes_eq_iff}
use lotor_go.Common.Int.{ℤ}
use lotor_go.Bridge.Platform.{Function, SignedMessage, Authorization, Platform}
use lotor_go.Bridge.Protocol.{verify_authorization}
use lotor_go.Bridge.Runtime.{Runtime, Handler, find_handler}
use lotor_go.Bridge.Runtime.Admission.{
  Request, Env, Answer, granted, unreachable, denied, Response, Stage, stop, go, ◌>>=◌, require,
  found, challenge_path, read_request, find_key, grant_active, answered, authorize, valid_challenge,
  valid_invocation, registered, valid_authorization,
}

>>=-eq-go {ℓ κ} :
    {A : Type ℓ} {B : Type κ} (m : Stage A) (f : A → Stage B) {b : B}
    → (m >>= f) ≡ go b
    → (a : A) × (m ≡ go a) × (f a ≡ go b)
>>=-eq-go (stop r) f h = cc
>>=-eq-go (go a) f h = (a, refl, h)

require-eq-go : (t : Bool) (r : Response) {u : Unit {0}} → require t r ≡ go u → t ≡ true
require-eq-go true r h = refl
require-eq-go false r h = cc

go-injective {ℓ} : {A : Type ℓ} (a b : A) → go a ≡ go b → a ≡ b
go-injective a b h = cc

found-eq-go {ℓ} : {A : Type ℓ} (o : Option A) (r : Response) {a : A} → found o r ≡ go a → o ≡ some a
found-eq-go none r h = cc
found-eq-go (some b) r h = cc

answered-eq-go : (x : Answer) {u : Unit {0}} → answered x ≡ go u → x ≡ granted
unfolding answered
answered-eq-go granted h = refl
answered-eq-go unreachable h = cc
answered-eq-go denied h = cc

challenge_kind :
    (a : Authorization) → valid_challenge a ≡ true → bytes_eq a.kind (ascii "challenge") ≡ true
unfolding valid_challenge
challenge_kind a h = (and-eq-true _ _ h).0

registered_handler :
    (runtime : Runtime) (o : Option Function)
    → registered runtime o ≡ true
    → (f : Function) × (h : Handler) × (o ≡ some f) × (find_handler f runtime.functions ≡ some h)
unfolding registered
registered_handler runtime none e = cc
registered_handler runtime (some f) e = elim (Option-cases (find_handler f runtime.functions)) [
  | inl missing ↦ absurd (false≢true (rw missing at e))
  | inr (h, there) ↦ (f, h, refl, there)
]

module _ (platform : Platform) where
  invocation_function :
      (runtime : Runtime) (a : Authorization)
      → valid_invocation platform runtime a ≡ true
      → (f : Function) × (h : Handler) × (a.function ≡ some f)
        × (find_handler f runtime.functions ≡ some h)
  unfolding valid_invocation
  invocation_function runtime a v = registered_handler runtime a.function (ground arith)

  -- A request whose authorization passed: signed with a trusted key, valid for this runtime,
  -- allowed by the callback, and active at the first check.
  pub record IsAuthorized {F : Type 0} (runtime : Runtime) (env : Env F) (r : Request)
      (a : Authorization) (raw : Bytes) : Type 0 where
    pub message : SignedMessage
    pub key : Bytes
    pub was_read : read_request platform r ≡ go message
    pub trusted : find_key message.key_id runtime.config.trusted_keys ≡ some key
    pub verified : verify_authorization platform message key ≡ some (a, raw)
    pub is_valid : valid_authorization platform runtime a r.path env.valid_now ≡ true
    pub allowed : env.answer ≡ granted
    pub active : grant_active env.first_cancelled env.first_now a ≡ true

  pub authorize-IsAuthorized :
      {F : Type 0} (runtime : Runtime) (env : Env F) (r : Request) (a : Authorization) (raw : Bytes)
      → authorize platform runtime env r ≡ go (a, raw)
      → IsAuthorized runtime env r a raw
  unfolding authorize
  authorize-IsAuthorized runtime env r a raw h =
      let (message, e1, h1) = >>=-eq-go (read_request platform r) _ h in
      let (key, e2, h2) =
        >>=-eq-go (found (find_key message.key_id runtime.config.trusted_keys) _) _ h1 in
      let (p, e3, h3) = >>=-eq-go (found (verify_authorization platform message key) _) _ h2 in
      let (u4, e4, h4) =
        >>=-eq-go (require (valid_authorization platform runtime p.0 r.path env.valid_now) _) _
          h3 in
      let (u5, e5, h5) = >>=-eq-go (answered env.answer) _ h4 in
      let (u6, e6, h6) =
        >>=-eq-go (require (grant_active env.first_cancelled env.first_now p.0) _) _ h5 in
      subst (λ q. IsAuthorized runtime env r q.0 q.1) (go-injective p (a, raw) h6)
        (record {
          message = message;
          key = key;
          was_read = e1;
          trusted = found-eq-go _ _ e2;
          verified = found-eq-go _ _ e3;
          is_valid = require-eq-go _ _ e4;
          allowed = answered-eq-go _ e5;
          active = require-eq-go _ _ e6;
        })

  -- On the challenge path an authorization is a challenge.
  pub valid_challenge_kind :
      (runtime : Runtime) (a : Authorization) (path : Bytes) (now : ℤ)
      → path ≡ challenge_path
      → valid_authorization platform runtime a path now ≡ true
      → bytes_eq a.kind (ascii "challenge") ≡ true
  unfolding valid_authorization
  valid_challenge_kind runtime a path now e h =
      challenge_kind a (ground (arith, bytes_eq_iff path challenge_path))

  -- Any other valid authorization names a function with a handler.
  pub valid_invocation_function :
      (runtime : Runtime) (a : Authorization) (path : Bytes) (now : ℤ)
      → bytes_eq a.kind (ascii "challenge") ≡ false
      → valid_authorization platform runtime a path now ≡ true
      → (f : Function) × (h : Handler) × (a.function ≡ some f)
        × (find_handler f runtime.functions ≡ some h)
  unfolding valid_authorization
  valid_invocation_function runtime a path now e h =
      elim (Bool-cases (bytes_eq path challenge_path)) [
        | inl challenge ↦
            let kind : bytes_eq a.kind (ascii "challenge") ≡ true =
              challenge_kind a (ground arith) in
            absurd (false≢true (sym e ∙ kind))
        | inr other ↦ invocation_function runtime a (ground arith)
      ]
