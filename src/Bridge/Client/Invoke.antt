-- ===== src/Bridge/Client/Invoke.antt =====
-- What an outcome of Invoke proves, and that a runtime admits what the client sends.
use mathlib.Core.Path.{subst}
use lotor_go.Common.{
  ◌∙◌, ◌≡◌, refl, ap, ◌⊎◌, inl, inr, Bool, true, false, not, ◌||◌, Option, none, some, List, [],
  ◌∷◌, if◌then◌else◌, Bool-cases, Option-cases, arith,
}
use lotor_go.Common.Bytes.{Bytes, bytes_eq, bytes_eq_iff}
use lotor_go.Common.Int.{ℤ, pos, ltz, lez, add64}
use lotor_go.Common.Options.{>>=-eq-some, guard-eq-some}
use lotor_go.Bridge.Platform.{SignedMessage, Authorization, Result, Platform}
use lotor_go.Bridge.Protocol.{
  Error, unavailable, verify, result_purpose, strict_json, verify_result,
}
use lotor_go.Bridge.Protocol.Verify.{IsResultOf, verify_result_sound}
use lotor_go.Bridge.Client.Grant.{IsAccepted, accepted_grant-IsAccepted}
use lotor_go.Bridge.Client.{
  Options, Env, Invoked, refused, unsure, done, mutual_tls, accepted_grant, checked_result, judged,
  dispatched, admitted, invoke,
}

-- The endpoint has signed the result, which is no error and was completed by now.
pub record IsSuccess (platform : Platform) (o : Options) (later : ℤ) (r : Result) : Type 0 where
  pub response : SignedMessage
  pub body : Bytes
  pub from_endpoint : response.key_id ≡ o.signing_key_id
  pub verified : verify platform response result_purpose o.signing_public_key ≡ some body
  pub decoded : strict_json platform platform.decode_result body ≡ some r
  pub completed : ltz (pos 0) r.completed_at ≡ true
  pub by_now : lez r.completed_at (add64 later (pos 5)) ≡ true
  pub no_error : r.error_code ≡ []
  pub json : platform.json_valid r.output ≡ true

unfoldable pub is_refused : Invoked → Bool
is_refused (refused e) = true
is_refused _ = false

module _ (platform : Platform) where
  judged_not_refused : (r : Option Result) → is_refused (judged platform r) ≡ false
  unfolding is_refused judged
  judged_not_refused none = refl
  judged_not_refused (some r) =
      elim (Bool-cases (not (bytes_eq r.error_code []) || not (platform.json_valid r.output))) [
        | inl e ↦ rw e refl
        | inr e ↦ rw e refl
      ]

  module _ (o : Options) (env : Env) (message : SignedMessage) (sent : List SignedMessage) where
    -- Invoke refuses a message and sends nothing, because it has no acceptable grant or the context
    -- has ended, or it sends the message exactly once and does not refuse it any more. What is sent
    -- carries a grant that a trusted key has signed, for the client's own binding, revision, audience,
    -- manifest, issuer and scope, over its input, and not expired; and the context had not ended.
    pub invoke_sends :
        ((is_refused (invoke platform o env message sent).0 ≡ true)
          × ((invoke platform o env message sent).1 ≡ sent)
          × ((accepted_grant platform o env.now message ≡ none) ⊎ (env.cancelled ≡ true)))
        ⊎ ((is_refused (invoke platform o env message sent).0 ≡ false)
            × ((invoke platform o env message sent).1 ≡ message ∷ sent)
            × (env.cancelled ≡ false)
            × ((g : Authorization × Bytes) × IsAccepted platform o env.now message g))
    unfolding invoke admitted dispatched is_refused
    invoke_sends = elim (Option-cases (accepted_grant platform o env.now message)) [
      | inl e ↦ rw e (inl (refl, refl, inl refl))
      | inr (g, e) ↦
          let accepted = accepted_grant-IsAccepted platform o env.now message g e in
          elim (Bool-cases env.cancelled) [
            | inl c ↦ rw (e, c) (inl (refl, refl, inr refl))
            | inr c ↦ rw (e, c) (inr (judged_not_refused _, refl, refl, (g, accepted)))
          ]
    ]

  checked_result_sound :
      (o : Options) (later : ℤ) (a : Authorization) (raw : Bytes) (answer : Option SignedMessage)
      (r : Result)
      → r.error_code ≡ []
      → platform.json_valid r.output ≡ true
      → checked_result platform o later a raw answer ≡ some r
      → IsSuccess platform o later r × IsResultOf platform a raw r
  unfolding checked_result
  checked_result_sound o later a raw answer r clean json h =
      let (response, there, h1) = >>=-eq-some answer _ h in
      let (from, h2) = guard-eq-some (bytes_eq response.key_id o.signing_key_id) _ h1 in
      let (result, verified, h3) =
        >>=-eq-some (verify_result platform response o.signing_public_key a raw) _ h2 in
      let (positive, h4) = guard-eq-some (ltz (pos 0) result.completed_at) _ h3 in
      let (past, h5) = guard-eq-some (lez result.completed_at (add64 later (pos 5))) _ h4 in
      let same : result ≡ r = cc in
      let (answers, (body, signature, read)) =
        verify_result_sound platform response o.signing_public_key a raw result verified in
      (
        record {
          response = response;
          body = body;
          from_endpoint = (bytes_eq_iff _ _).0 from;
          verified = signature;
          decoded = read ∙ ap some same;
          completed = subst (λ (x : Result). ltz (pos 0) x.completed_at ≡ true) same positive;
          by_now =
              subst (λ (x : Result). lez x.completed_at (add64 later (pos 5)) ≡ true) same past;
          no_error = clean;
          json = json;
        },
        subst (λ (x : Result). IsResultOf platform a raw x) same answers,
      )

  done_clean :
      (t : Bool) (s r : Result) → (if t then unsure s else done s) ≡ done r → (t ≡ false) × (s ≡ r)
  done_clean true s r h = cc
  done_clean false s r h = (refl, cc)

  judged_done :
      (x : Option Result) (r : Result)
      → judged platform x ≡ done r
      → (x ≡ some r) × (r.error_code ≡ []) × (platform.json_valid r.output ≡ true)
  unfolding judged
  judged_done none r h = cc
  judged_done (some s) r h =
      let (clean, same) =
        done_clean (not (bytes_eq s.error_code []) || not (platform.json_valid s.output)) s r h in
      let empty : s.error_code ≡ [] = (bytes_eq_iff _ _).0 (ground arith) in
      let json : platform.json_valid s.output ≡ true = ground arith in
      (
        ap some same,
        subst (λ (x : Result). x.error_code ≡ []) same empty,
        subst (λ (x : Result). platform.json_valid x.output ≡ true) same json,
      )

  not_stopped :
      (t : Bool) (e : Error) (x : Invoked) (before after : List SignedMessage) (r : Result)
      → (if◌then◌else◌ {A = Invoked × List SignedMessage} t (refused e, before) (x, after)).0
        ≡ done r
      → x ≡ done r
  not_stopped true e x before after r h = cc
  not_stopped false e x before after r h = h

  admitted_done :
      (o : Options) (env : Env) (message : SignedMessage) (x : Option (Authorization × Bytes))
      (sent : List SignedMessage) (r : Result)
      → (admitted platform o env message x sent).0 ≡ done r
      → (g : Authorization × Bytes) × (answer : Option SignedMessage) × (x ≡ some g)
        × (judged platform (checked_result platform o env.later g.0 g.1 answer) ≡ done r)
  unfolding admitted dispatched
  admitted_done o env message none sent r h = cc
  admitted_done o env message (some (a, raw)) sent r h =
      let answer = env.send (bytes_eq o.authentication_mode mutual_tls) o.endpoint_url message in
      let over = judged platform (checked_result platform o env.later a raw answer) in
      ((a, raw), answer, refl, not_stopped env.cancelled unavailable over sent (message ∷ sent) r h)

  -- A result that Invoke gives without an error answers a grant that a trusted key has signed and
  -- that passed the checks of the client, for its binding and not expired: the result stands in a message that verifies under the
  -- key of the endpoint, is bound to that grant and its bytes, is JSON with no error code, and was
  -- completed no later than five seconds from now.
  pub invoke_sound :
      (o : Options) (env : Env) (message : SignedMessage) (sent : List SignedMessage) (r : Result)
      → (invoke platform o env message sent).0 ≡ done r
      → (g : Authorization × Bytes) × (accepted_grant platform o env.now message ≡ some g)
        × IsAccepted platform o env.now message g
        × IsSuccess platform o env.later r
        × IsResultOf platform g.0 g.1 r
  unfolding invoke
  invoke_sound o env message sent r h =
      let (g, answer, there, answered) =
        admitted_done o env message (accepted_grant platform o env.now message) sent r h in
      let (found, clean, json) =
        judged_done (checked_result platform o env.later g.0 g.1 answer) r answered in
      let (success, answers) = checked_result_sound o env.later g.0 g.1 answer r clean json found in
      (g, there, accepted_grant-IsAccepted platform o env.now message g there, success, answers)
