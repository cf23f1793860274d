-- ===== src/Gateway/Verifier/Replay.antt =====
-- How often one gateway assertion is accepted.
use mathlib.Core.Bool.{true≢false}
use mathlib.Core.Path.{subst}
use lotor_go.Common.{
  ℕ, ◌≤◌, ◌≡◌, refl, sym, ap, ◌∙◌, Bool, true, false, Option, none, some, List, [], ◌∷◌, inl, inr,
  All, not, if◌then◌else◌, Bool-cases, arith,
}
use lotor_go.Common.Bytes.{Bytes}
use lotor_go.Common.Once.{Unseen, Once, times, times-Once}
use lotor_go.Common.Int.{ℤ, pos, negsuc, ltz}
use lotor_go.Gateway.{Claims, GatewayRequest, Library, instant}
use lotor_go.Gateway.Verifier.{
  Verifier, Verdict, accepted, rejected, unavailable, first, ReplayStore, read_assertion, authentic,
  check_replay, decided, verify,
}
use lotor_go.Gateway.Verifier.Binding.{IsAuthentic, authentic-IsAuthentic, verify-accepted}

-- One call of `Verify`: what fails below the store, the clock of the verifier, that of the store when
-- it is asked, the assertion and the request.
pub record Call (F : Type 0) : Type 0 where
  pub fault : F
  pub now : ℕ
  pub asked : ℕ
  pub encoded : Bytes
  pub request : GatewayRequest

-- The store's clock does not go back.
abbrev pub Ascending : {F : Type 0} → ℕ → List (Call F) → Type 0
Ascending t [] = Unit {0}
Ascending t (c ∷ calls) = (t ≤ c.asked) × Ascending c.asked calls

-- The accepted assertions that may not be repeated.
log_of : Bytes → Verdict → List Bytes → List Bytes
log_of encoded rejected log = log
log_of encoded unavailable log = log
log_of encoded (accepted c) log = if c.replay_eligible then log else encoded ∷ log

earlier : (t now : ℕ) (end : ℤ) → t ≤ now → ltz end (pos now) ≡ false → ltz end (pos t) ≡ false
earlier t now (pos e) h k = ground arith
earlier t now (negsuc e) h k = cc

module _ {S F : Type 0} (library : Library) (store : ReplayStore S F) (v : Verifier) where
  -- The store is asked no later than the end of the assertion, by its own clock.
  prompt_for : Option (Claims × Bytes × Bytes) → ℕ → Bool
  prompt_for none asked = true
  prompt_for (some (c, body, signature)) asked = not (ltz (instant c.expires_at) (pos asked))

  unfoldable pub prompt : Call F → Bool
  unfolding prompt_for
  prompt c = prompt_for (read_assertion library c.encoded) c.asked

  prompt-held :
      (c : Call F) (d : Claims) (body signature : Bytes)
      → prompt c ≡ true
      → read_assertion library c.encoded ≡ some (d, body, signature)
      → ltz (instant d.expires_at) (pos c.asked) ≡ false
  unfolding prompt
  prompt-held c d body signature h e =
      let kept : not (ltz (instant d.expires_at) (pos c.asked)) ≡ true = rw e at h in ground arith

  -- Calls one after the other, and what they accept, the latest first.
  unfoldable pub verify_all : List (Call F) → S → List Bytes → List Bytes
  unfolding log_of
  verify_all [] s log = log
  verify_all (c ∷ calls) s log =
      let (verdict, s') = verify library store v c.fault c.now c.asked c.encoded c.request s in
      verify_all calls s' (log_of c.encoded verdict log)

  check-Held :
      (eligible has : Bool) (f : F) (asked : ℕ) (s : S) (d : Claims) (id : Bytes) (end : ℤ)
      → store.Held id end s
      → ltz end (pos asked) ≡ false
      → store.Held id end (check_replay library store eligible has f asked s d).1
  unfolding check_replay
  check-Held true has f asked s d id end h k = h
  check-Held false false f asked s d id end h k = h
  check-Held false true f asked s d id end h k =
      store.consume_keeps f (pos asked) d.request_id id (instant d.expires_at) end s h k

  decided-Held :
      (has : Bool) (f : F) (asked : ℕ) (s : S) (o : Option Claims) (id : Bytes) (end : ℤ)
      → store.Held id end s
      → ltz end (pos asked) ≡ false
      → store.Held id end (decided library store has f asked s o).1
  unfolding decided
  decided-Held has f asked s none id end h k = h
  decided-Held has f asked s (some d) id end h k =
      check-Held d.replay_eligible has f asked s d id end h k

  -- A new acceptance is held by the store.
  check-first :
      (eligible has : Bool) (f : F) (asked : ℕ) (s : S) (d : Claims)
      → eligible ≡ false
      → (store.consume f (pos asked) d.request_id (instant d.expires_at) s).0 ≡ first
      → (c : Claims) → (check_replay library store eligible has f asked s d).0 ≡ accepted c
      → store.Held d.request_id
          (instant d.expires_at)
          (check_replay library store eligible has f asked s d).1
  unfolding check_replay
  check-first true has f asked s d n e c a = cc
  check-first false false f asked s d n e c a = cc
  check-first false true f asked s d n e c a =
      store.first_held f (pos asked) d.request_id (instant d.expires_at) s e

  decided-first :
      (has : Bool) (f : F) (asked : ℕ) (s : S) (o : Option Claims) (c : Claims)
      → o ≡ some c
      → c.replay_eligible ≡ false
      → (store.consume f (pos asked) c.request_id (instant c.expires_at) s).0 ≡ first
      → (decided library store has f asked s o).0 ≡ accepted c
      → store.Held c.request_id (instant c.expires_at) (decided library store has f asked s o).1
  unfolding decided
  decided-first has f asked s none c e n new a = cc
  decided-first has f asked s (some d) c e n new a =
      let same : d ≡ c = cc in
      let kept =
        check-first d.replay_eligible has f asked s d
          (ap (λ (x : Claims). x.replay_eligible) same ∙ n)
          (subst
            (λ (x : Claims).
              (store.consume f (pos asked) x.request_id (instant x.expires_at) s).0 ≡ first)
            (sym same) new)
          c a in
      subst
        (λ (x : Claims).
          store.Held x.request_id (instant x.expires_at)
            (check_replay library store d.replay_eligible has f asked s d).1)
        same kept

  -- An assertion that has been accepted: its request id is held until its end.
  Known : ℕ → S → Bytes → Type 0
  Known t s encoded =
      (c : Claims) × (body : Bytes) × (signature : Bytes) × (read_assertion library encoded
        ≡ some (c, body, signature))
      × (ltz (instant c.expires_at) (pos t) ≡ false
          → store.Held c.request_id (instant c.expires_at) s)

  record Inv (t : ℕ) (s : S) (log : List Bytes) : Type 0 where
    known : All (Known t s) log
    once : Once log

  -- A call keeps what is known, at the store's clock.
  keeps_known :
      (c : Call F) (t : ℕ) (s : S) (log : List Bytes)
      → t ≤ c.asked
      → All (Known t s) log
      → All
          (Known c.asked (verify library store v c.fault c.now c.asked c.encoded c.request s).1)
          log
  unfolding verify Known
  keeps_known c t s [] h k = tt
  keeps_known c t s (e ∷ log) h ((d, body, signature, reads, held), k) = (
    (
      d,
      body,
      signature,
      reads,
      λ late.
          decided-Held v.has_replay c.fault c.asked s
            (authentic library v c.now c.encoded c.request) d.request_id (instant d.expires_at)
            (held (earlier t c.asked (instant d.expires_at) h late)) late,
    ),
    keeps_known c t s log h k,
  )

  -- A new acceptance is of an assertion that was not accepted before.
  new_Unseen :
      (c : Call F) (t : ℕ) (s : S) (d : Claims) (log : List Bytes)
      → prompt c ≡ true
      → t ≤ c.asked
      → IsAuthentic library v c.now c.encoded c.request d
      → (store.consume c.fault (pos c.asked) d.request_id (instant d.expires_at) s).0 ≡ first
      → All (Known t s) log
      → Unseen c.encoded log
  unfolding Known
  new_Unseen c t s d [] z h a n k = tt
  new_Unseen c t s d (e ∷ log) z h a n ((x, body, signature, reads, held), k) = (
    λ same.
        let read : read_assertion library c.encoded ≡ some (x, body, signature) =
          ap (read_assertion library) (sym same) ∙ reads in
        let claims : x ≡ d = cc (read, a.signed_claims.reads) in
        let late : ltz (instant d.expires_at) (pos c.asked) ≡ false =
          prompt-held c d a.signed_claims.body a.signed_claims.signature z a.signed_claims.reads in
        let there : store.Held d.request_id (instant d.expires_at) s =
          subst
            (λ (y : Claims).
              ltz (instant y.expires_at) (pos t) ≡ false
              → store.Held y.request_id (instant y.expires_at) s)
            claims held (earlier t c.asked (instant d.expires_at) h late) in
        let past =
          store.first_new c.fault (pos c.asked) d.request_id (instant d.expires_at)
            (instant d.expires_at) s n there in
        true≢false (sym past ∙ late),
    new_Unseen c t s d log z h a n k,
  )

  add_new :
      (c : Call F) (t : ℕ) (s : S) (log : List Bytes) (d : Claims)
      → prompt c ≡ true
      → t ≤ c.asked
      → Inv t s log
      → (verify library store v c.fault c.now c.asked c.encoded c.request s).0 ≡ accepted d
      → d.replay_eligible ≡ false
      → Inv c.asked
          (verify library store v c.fault c.now c.asked c.encoded c.request s).1
          (c.encoded ∷ log)
  unfolding verify Known
  add_new c t s log d z h inv e single =
      let (found, new) =
        verify-accepted library store v c.fault c.now c.asked c.encoded c.request s d e in
      let a = authentic-IsAuthentic library v c.now c.encoded c.request d found in
      let fresh : (store.consume c.fault (pos c.asked) d.request_id (instant d.expires_at) s).0
          ≡ first =
        elim new [
          | inl many ↦ absurd (true≢false (sym many ∙ single))
          | inr yes_first ↦ yes_first
        ] in
      record {
        known = (
          (
            d,
            a.signed_claims.body,
            a.signed_claims.signature,
            a.signed_claims.reads,
            λ late.
                decided-first v.has_replay c.fault c.asked s
                  (authentic library v c.now c.encoded c.request) d found single fresh e,
          ),
          keeps_known c t s log h inv.known,
        );
        once = (new_Unseen c t s d log z h a fresh inv.known, inv.once);
      }

  step-Inv :
      (c : Call F) (t : ℕ) (s : S) (log : List Bytes) (verdict : Verdict)
      → prompt c ≡ true
      → t ≤ c.asked
      → Inv t s log
      → (verify library store v c.fault c.now c.asked c.encoded c.request s).0 ≡ verdict
      → Inv c.asked
          (verify library store v c.fault c.now c.asked c.encoded c.request s).1
          (log_of c.encoded verdict log)
  unfolding log_of
  step-Inv c t s log rejected z h inv e = record {
    known = keeps_known c t s log h inv.known;
    once = inv.once;
  }
  step-Inv c t s log unavailable z h inv e = record {
    known = keeps_known c t s log h inv.known;
    once = inv.once;
  }
  step-Inv c t s log (accepted d) z h inv e = elim (Bool-cases d.replay_eligible) [
    | inl many ↦ rw many (record { known = keeps_known c t s log h inv.known; once = inv.once })
    | inr single ↦ rw single (add_new c t s log d z h inv e single)
  ]

  verify_all-Once :
      (calls : List (Call F)) (t : ℕ) (s : S) (log : List Bytes)
      → All (λ c. prompt c ≡ true) calls
      → Ascending t calls
      → Inv t s log
      → Once (verify_all calls s log)
  unfolding verify_all
  verify_all-Once [] t s log z h inv = inv.once
  verify_all-Once (c ∷ calls) t s log (z, zs) (h, later) inv =
      verify_all-Once calls c.asked _ _ zs later (step-Inv c t s log _ z h inv refl)

  -- An assertion that is not replay-eligible is accepted at most once, over any requests, with any
  -- tolerated skew, clock of the verifier and faults of the replay store, where the store's clock does
  -- not go back and the store is asked no later than the assertion's end by that clock.
  pub verify_all_once :
      (calls : List (Call F)) (s : S) (encoded : Bytes)
      → All (λ c. prompt c ≡ true) calls
      → Ascending 0 calls
      → times encoded (verify_all calls s []) ≤ 1
  verify_all_once calls s encoded z h =
      times-Once encoded _ (verify_all-Once calls 0 s [] z h (record { known = tt; once = tt }))
