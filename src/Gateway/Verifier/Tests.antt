-- ===== src/Gateway/Verifier/Tests.antt =====
-- A concrete library, verifier and replay store, and the theorems about the gateway applied to them.
use lotor_go.Common.{
  ℕ, zero, suc, ◌+◌, ◌*◌, ◌^◌, ◌≤◌, ◌≡◌, refl, sym, Bool, true, false, not, ◌&&◌, ◌||◌, ◌⊎◌, inl,
  inr, some, List, [], ◌∷◌, ◌++◌, if◌then◌else◌, Bool-cases, arith,
}
use lotor_go.Common.Bytes.{Bytes, ascii, bytes_eq, bytes_eq_iff}
use lotor_go.Common.Once.{times}
use lotor_go.Common.Int.{ℤ, pos, ltz, add64, sub64}
use lotor_go.Gateway.{
  Claims, Authority, GatewayRequest, Library, instant, before_now, valid_request, valid_claims,
}
use lotor_go.Gateway.Verifier.{
  Consumed, first, again, failed, ReplayStore, Verifier, accepted, read_assertion, find_key, signed,
  authentic, verify,
}
use lotor_go.Gateway.Verifier.Binding.{IsAuthentic, verify_sound}
use lotor_go.Gateway.Verifier.Replay.{Call, prompt, verify_all, verify_all_once}
use lotor_go.Gateway.Verifier.Skew.{verify_again_in_skew}

-- A store of request ids with the ends of their observations, which it forgets when they are past.
abbrev Seen : Type 0
Seen = List (Bytes × ℤ)

live : ℤ → Bytes → Seen → Bool
live now id [] = false
live now id ((j, end) ∷ s) = (bytes_eq j id && not (ltz end now)) || live now id s

observe : Bool → ℤ → Bytes → ℤ → Seen → Consumed × Seen
observe true now id end s = (failed, s)
observe false now id end s = if live now id s then (again, s) else (first, (id, end) ∷ s)

Observed : Bytes → ℤ → Seen → Type 0
Observed id end [] = ⊥
Observed id end ((j, e) ∷ s) = ((j ≡ id) × (e ≡ end)) ⊎ Observed id end s

observe_held :
    (f : Bool) (now : ℤ) (id : Bytes) (end : ℤ) (s : Seen)
    → (observe f now id end s).0 ≡ first
    → Observed id end (observe f now id end s).1
unfolding observe Observed
observe_held true now id end s h = cc
observe_held false now id end s h = elim (Bool-cases (live now id s)) [
  | inl e ↦ (let r : again ≡ first = rw e at h in cc)
  | inr e ↦ rw e (inl (refl, refl))
]

not_live :
    (now : ℤ) (id : Bytes) (end : ℤ) (s : Seen)
    → live now id s ≡ false
    → Observed id end s
    → ltz end now ≡ true
unfolding live Observed
not_live now id end [] h o = absurd o
not_live now id end ((j, e) ∷ s) h (inl (p, q)) = ground (arith, bytes_eq_iff j id)
not_live now id end ((j, e) ∷ s) h (inr o) = not_live now id end s (ground arith) o

observe_new :
    (f : Bool) (now : ℤ) (id : Bytes) (end before : ℤ) (s : Seen)
    → (observe f now id end s).0 ≡ first
    → Observed id before s
    → ltz before now ≡ true
unfolding observe
observe_new true now id end before s h o = cc
observe_new false now id end before s h o = elim (Bool-cases (live now id s)) [
  | inl e ↦ (let r : again ≡ first = rw e at h in cc)
  | inr e ↦ not_live now id before s e o
]

observe_keeps :
    (f : Bool) (now : ℤ) (id other : Bytes) (end before : ℤ) (s : Seen)
    → Observed other before s
    → ltz before now ≡ false
    → Observed other before (observe f now id end s).1
unfolding observe Observed
observe_keeps true now id other end before s h k = h
observe_keeps false now id other end before s h k = elim (Bool-cases (live now id s)) [
  | inl e ↦ rw e h
  | inr e ↦ rw e (inr h)
]

abbrev seen_store : ReplayStore Seen Bool
seen_store = record {
  consume = observe;
  Held = Observed;
  first_held = observe_held;
  first_new = observe_new;
  consume_keeps = observe_keeps;
}

abbrev repeat : ℕ → ℕ → Bytes
repeat zero c = []
repeat (suc n) c = c ∷ repeat n c

abbrev route : Authority
route = record {
  issuer = ascii "lotor";
  audience = ascii "app";
  tenant_id = ascii "t";
  application_id = ascii "a";
  environment_id = ascii "e";
  binding_id = ascii "b";
  route_id = ascii "r";
  route_pin = repeat 64 b'a';
  gateway_placement_id = ascii "g";
  runtime_placement_id = ascii "p";
  operation = [];
  gateway_ownership_epoch = pos 1;
  runtime_ownership_epoch = pos 1;
  configuration_version = pos 1;
  binding_activation_epoch = pos 1;
}

abbrev post : GatewayRequest
post = record {
  method = ascii "POST";
  path = ascii "/p";
  raw_query = [];
  idempotency_key = [];
  body = ascii "hi";
}

abbrev granted : Claims
granted = record {
  issuer = ascii "lotor";
  key_id = ascii "k";
  audience = ascii "app";
  subject = [];
  session_id_hash = [];
  tenant_id = ascii "t";
  application_id = ascii "a";
  environment_id = ascii "e";
  binding_id = ascii "b";
  route_id = ascii "r";
  route_pin = repeat 64 b'a';
  gateway_placement_id = ascii "g";
  gateway_ownership_epoch = pos 1;
  runtime_placement_id = ascii "p";
  runtime_ownership_epoch = pos 1;
  operation = [];
  method = ascii "POST";
  path = ascii "/p";
  request_id = ascii "q";
  body_sha256 = repeat 64 b'a';
  query_sha256 = repeat 64 b'a';
  idempotency_key_sha256 = [];
  issued_at = pos 100;
  expires_at = pos 120;
  configuration_version = pos 1;
  binding_activation_epoch = pos 1;
  replay_eligible = false;
}

abbrev toy : Library
toy = record {
  sha256_hex = λ b. repeat 64 b'a';
  ed25519_verify = λ k m s. bytes_eq m (ascii "claims");
  base64_decode = λ s. some s;
  base64_encode = λ s. s;
  decode_claims = λ s. some (granted, []);
  at_end = λ s. true;
  marshal_claims = λ c. some (ascii "claims");
  trim_space = λ s. s;
  to_lower = λ s. s;
  to_upper = λ s. s;
  is_hex = λ s. true;
}

abbrev assertion : Bytes
assertion = ascii "v1.claims." ++ repeat 64 b's'

abbrev strict : Verifier
strict = record {
  keys = (ascii "k", repeat 32 7) ∷ [];
  has_replay = true;
  authority = route;
  clock_skew = 0;
}

abbrev tolerant : Verifier
tolerant = record strict { clock_skew = 30 * 10 ^ 9 }

-- A second of the Unix epoch as nanoseconds since the year 1.
abbrev at : ℕ → ℕ
at second = (second + 62135596800) * 10 ^ 9

authentic-strict : authentic toy strict (at 110) assertion post ≡ some granted
unfolding authentic signed read_assertion find_key valid_request valid_claims bytes_eq add64 sub64
authentic-strict = refl

authentic-tolerant : authentic toy tolerant (at 110) assertion post ≡ some granted
unfolding authentic signed read_assertion find_key valid_request valid_claims bytes_eq add64 sub64
authentic-tolerant = refl

accepts_new :
    (verify toy seen_store strict false (at 110) (at 110) assertion post []).0 ≡ accepted granted
unfolding verify observe live
accepts_new = rw authentic-strict refl

verify_sound_example : IsAuthentic toy strict (at 110) assertion post granted
verify_sound_example =
    verify_sound toy seen_store strict false (at 110) (at 110) assertion post [] granted accepts_new

abbrev attempt : Call Bool
attempt = record {
  fault = false;
  now = at 110;
  asked = at 111;
  encoded = assertion;
  request = post;
}

attempt-prompt : prompt toy seen_store tolerant attempt ≡ true
unfolding prompt read_assertion instant add64 bytes_eq
attempt-prompt = refl

verify_all_once_example :
    times assertion (verify_all toy seen_store tolerant (attempt ∷ attempt ∷ []) [] []) ≤ 1
verify_all_once_example =
    verify_all_once toy seen_store tolerant (attempt ∷ attempt ∷ []) [] assertion
      (attempt-prompt, (attempt-prompt, tt)) (omega arith, (omega arith, tt))

all_ended :
    (now : ℤ) (id : Bytes) (s : Seen)
    → ((before : ℤ) → Observed id before s → ltz before now ≡ true)
    → live now id s ≡ false
unfolding live Observed
all_ended now id [] h = refl
all_ended now id ((j, end) ∷ s) h = elim (Bool-cases (bytes_eq j id)) [
  | inl e ↦
      (let ended : ltz end now ≡ true = h end (inl ((bytes_eq_iff j id).0 e, refl)) in
        rw (e, ended) (all_ended now id s (λ before o. h before (inr o))))
  | inr e ↦ rw e (all_ended now id s (λ before o. h before (inr o)))
]

observe_free :
    (now : ℤ) (id : Bytes) (end : ℤ) (s : Seen)
    → ((before : ℤ) → Observed id before s → ltz before now ≡ true)
    → (observe false now id end s).0 ≡ first
unfolding observe
observe_free now id end s h = rw (all_ended now id s h) refl

observe_only :
    (now : ℤ) (id other : Bytes) (end before : ℤ) (s : Seen)
    → Observed other before (observe false now id end s).1
    → Observed other before s ⊎ ((other ≡ id) × (before ≡ end))
unfolding observe Observed
observe_only now id other end before s o = elim (Bool-cases (live now id s)) [
  | inl e ↦ inl (rw e at o)
  | inr e ↦ newest (rw e at o)
]
  where
    newest :
        Observed other before ((id, end) ∷ s)
        → Observed other before s ⊎ ((other ≡ id) × (before ≡ end))
    newest (inl (p, q)) = inr (sym p, sym q)
    newest (inr o') = inl o'

nothing-Observed : (before : ℤ) → ¬ (Observed granted.request_id before [])
unfolding Observed
nothing-Observed before o = o

in_skew : ltz (before_now (at 125) tolerant.clock_skew) (instant granted.expires_at) ≡ true
unfolding before_now instant add64
in_skew = refl

ended : ltz (instant granted.expires_at) (pos (at 126)) ≡ true
unfolding instant add64
ended = refl

verify_again_in_skew_example :
    ((verify toy seen_store tolerant false (at 110) (at 111) assertion post []).0
      ≡ accepted granted)
    × ((verify toy seen_store tolerant false
          (at 125)
          (at 126)
          assertion
          post
          (verify toy seen_store tolerant false (at 110) (at 111) assertion post []).1).0
        ≡ accepted granted)
verify_again_in_skew_example =
    verify_again_in_skew toy seen_store tolerant false (at 110) (at 111) (at 125) (at 126) assertion
      post granted [] observe_free observe_only refl refl authentic-tolerant nothing-Observed
      (omega arith) in_skew ended
