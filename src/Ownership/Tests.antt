-- ===== src/Ownership/Tests.antt =====
-- A concrete library and concrete assertions, and the theorems about the resolver applied to them.
use lotor_go.Common.{
  ℕ, zero, suc, ◌≡◌, refl, sym, ap, ◌⊎◌, inl, inr, true, false, ◌||◌, Option, none, some, [], ◌∷◌,
  ◌++◌, take, Bool-cases, arith,
}
use lotor_go.Common.Http.{answered}
use lotor_go.Common.Bytes.{Bytes, ascii, bytes_eq, bytes_eq_iff}
use lotor_go.Common.Int.{ℤ, pos, negsuc, ltz, add64, sub64}
use lotor_go.Ownership.{
  Ownership, Library, Resolver, Env, join_fields, lookup_key, has_key_id, whole, read_body,
  fetch_json, same_scope, port_address, url_address, address, ownership_fields, ownership_payload,
  signed_by, is_some_address, named, current, verify_ownership, add_key, add_keys, refreshed,
  usable, installed, known, signing_key, checked, fetched, cache, resolve, advanced, accepted,
  accept_moved, five_seconds,
}
use lotor_go.Ownership.Payload.{nuls, all_nuls, unsigned, verify_ownership_issued}
use lotor_go.Ownership.Trust.{VerifiedAt}
use lotor_go.Ownership.Answers.{Advances}
use lotor_go.Ownership.History.{
  asks, drops, call, calls, new_resolver, resolve_sound, accept_moved-Advances, resolve_again,
}
use lotor_go.Ownership.Retry.{lwp, returned, error, Attempt, moved_code, owner_retry}
use lotor_go.Ownership.Retry.Bound.{Allowed, owner_retry_runs}

abbrev copies : ℕ → ℕ → Bytes
copies zero c = []
copies (suc n) c = c ∷ copies n c

abbrev the_key : Bytes
the_key = copies 32 7

abbrev issued : Ownership
issued = record {
  tenant_id = ascii "t";
  application_id = ascii "a";
  environment_id = ascii "e";
  endpoint = ascii "lwp://h1:7";
  owner_instance_id = ascii "i1";
  ownership_epoch = pos 1;
  issued_at = pos 0;
  expires_at = pos 60000000;
  version = pos 1;
  key_id = copies 8 7;
  signature = copies 64 9;
}

abbrev moved : Ownership
moved = record issued {
  endpoint = ascii "lwp://h2:7";
  owner_instance_id = ascii "i2";
  ownership_epoch = pos 2;
}

-- A sign, and the number as one digit of a large base.
abbrev print : ℤ → Bytes
print (pos n) = b'+' ∷ suc n ∷ []
print (negsuc n) = b'-' ∷ suc n ∷ []

print-injective : (x y : ℤ) → print x ≡ print y → x ≡ y
print-injective (pos n) (pos m) e = ground arith
print-injective (pos n) (negsuc m) e = ground arith
print-injective (negsuc n) (pos m) e = ground arith
print-injective (negsuc n) (negsuc m) e = ground arith

abbrev unsure : Library
unsure = record {
  parse_url = λ e. some (record {
    has_user = false;
    scheme = ascii "lwp";
    host = e;
    port = ascii "7";
    path = [];
    raw_query = [];
    fragment = [];
  });
  atoi = λ s. some (pos 7);
  join_host_port = λ h p. h ++ p;
  decimal = print;
  short_hash = take 8;
  base64_decode = some;
  ed25519_verify = λ k m s. false;
  decode_ownership = λ s. some (issued, []);
  decode_keys = λ s.
      some (record { id = copies 8 7; algorithm = ascii "Ed25519"; public_key = the_key } ∷ [], []);
  at_end = λ s. true;
  unmarshal_ownership = λ s. some moved;
}

-- The key has signed the payloads of the two assertions.
abbrev toy : Library
toy = record unsure {
  ed25519_verify = λ k m s.
      bytes_eq m (ownership_payload unsure issued) || bytes_eq m (ownership_payload unsure moved);
}

abbrev early : Env
early = record {
  now = pos 1000;
  ownership_reply = answered 200 (some []);
  keys_reply = answered 200 (some []);
}

-- A second before the end of the window in which the cache answers.
abbrev cut_off : Env
cut_off = record {
  now = pos 54000000;
  ownership_reply = answered 500 none;
  keys_reply = answered 500 none;
}

abbrev after_resolve : Resolver
after_resolve = record { keys = (copies 8 7, the_key) ∷ []; cached = issued }

resolves : resolve toy early (calls toy [] (new_resolver toy)) ≡ (some issued, after_resolve)
unfolding resolve cache fetched fetch_json read_body whole checked signing_key known usable
    installed refreshed add_keys add_key lookup_key has_key_id verify_ownership named current
    is_some_address address url_address port_address signed_by ownership_payload ownership_fields
    join_fields bytes_eq add64 sub64 calls
resolves = refl

abbrev after_move : Resolver
after_move = record after_resolve { cached = moved }

-- The resolver after it has resolved once.
resolved_once : calls toy (asks early ∷ []) (new_resolver toy) ≡ after_resolve
unfolding calls call resolve
resolved_once = ap (λ (answer : Option Ownership × Resolver). answer.1) resolves

accepts : accept_moved toy early [] issued after_resolve ≡ (some moved, after_move)
unfolding accept_moved accepted advanced same_scope cache fetched checked signing_key known usable
    lookup_key verify_ownership named current is_some_address address url_address port_address
    signed_by ownership_payload ownership_fields join_fields bytes_eq add64 sub64
accepts = refl

issued-clean : all_nuls (ownership_fields toy issued) ≡ 0
unfolding all_nuls nuls ownership_fields
issued-clean = refl

moved-clean : all_nuls (ownership_fields toy moved) ≡ 0
unfolding all_nuls nuls ownership_fields
moved-clean = refl

signs-two :
    (m s : Bytes)
    → toy.ed25519_verify the_key m s ≡ true
    → (a : Ownership) × ((a ≡ issued) ⊎ (a ≡ moved)) × (ownership_payload toy a ≡ m)
unfolding ownership_payload ownership_fields
signs-two m s h = elim (Bool-cases (bytes_eq m (ownership_payload unsure issued))) [
  | inl e ↦ (issued, inl refl, sym ((bytes_eq_iff _ _).0 e))
  | inr e ↦ (moved, inr refl, sym ((bytes_eq_iff _ _).0 (rw e at h)))
]

issued-verifies : verify_ownership toy issued the_key (pos 1000) ≡ true
unfolding verify_ownership named current is_some_address address url_address port_address signed_by
    ownership_payload ownership_fields join_fields bytes_eq add64 sub64
issued-verifies = refl

verify_ownership_issued_example :
    (a : Ownership) × ((a ≡ issued) ⊎ (a ≡ moved)) × (unsigned a ≡ unsigned issued)
verify_ownership_issued_example =
    verify_ownership_issued toy print-injective the_key (λ a. (a ≡ issued) ⊎ (a ≡ moved))
      (λ a known. elim known [ inl e ↦ rw e issued-clean | inr e ↦ rw e moved-clean ]) signs-two
      issued (pos 1000) issued-verifies

resolve_sound_example :
    (ltz (pos 1000) issued.expires_at ≡ true) × ((t : ℤ) × VerifiedAt toy t issued)
resolve_sound_example =
    resolve_sound toy [] early 1000 issued after_resolve refl (omega arith) resolves

cut_off-early : ltz (add64 cut_off.now five_seconds) issued.expires_at ≡ true
unfolding add64
cut_off-early = refl

resolve_again_example : resolve toy cut_off after_resolve ≡ (some issued, after_resolve)
resolve_again_example =
    resolve_again toy [] early cut_off 1000 issued after_resolve refl (omega arith) resolves
      cut_off-early

accept_moved-Advances_example :
    VerifiedAt toy (pos 1000) moved × Advances toy issued moved × (after_move.cached ≡ moved)
accept_moved-Advances_example =
    accept_moved-Advances toy (asks early ∷ []) early [] issued moved after_move
      (rw resolved_once accepts)

abbrev moves : Attempt ℕ
moves = record { connects = true; auth_error = none; outcome = error (lwp moved_code []) }

abbrev answers : Attempt ℕ
answers = record { connects = true; auth_error = none; outcome = returned 3 }

owner_retry_runs_example :
    Allowed toy early early moves.outcome
      (owner_retry toy false early early moves answers
        (calls toy (drops ∷ []) (new_resolver toy))).1
owner_retry_runs_example =
    owner_retry_runs toy (drops ∷ []) false early early moves answers 1000 refl (omega arith)
