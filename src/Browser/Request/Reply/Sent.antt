-- ===== src/Browser/Request/Reply/Sent.antt =====
-- What of the answers of Control reaches the browser.
use lotor_go.Common.{
  ℕ, ◌<◌, ◌≡◌, ◌≢◌, refl, sym, ap, ◌∙◌, inl, inr, Bool, true, false, ◌&&◌, Option, none, some, List,
  ltb, leb, length, Bool-cases, arith,
}
use lotor_go.Common.Bytes.{Bytes, ascii, bytes_eq}
use lotor_go.Common.Results.{Result, ok, err}
use lotor_go.Browser.{Adapter, Library, Verified}
use lotor_go.Browser.Routes.{is_delete, resource_route}
use lotor_go.Browser.Request.{Incoming, Remote, path_of, prepare}
use lotor_go.Browser.Request.Reply.{
  Answer, Cookie, rejected, nothing, sent, failed, valid_verified, signed_in, finish_verification,
  tokens_set, passed_on, accepted, judged, read_payload, payload_limit, answered, served, serve,
}

nothing-ne_sent : (p : Bytes) → nothing ≢ sent p
nothing-ne_sent p = cc

rejected-ne_sent : (p : Bytes) → rejected ≢ sent p
rejected-ne_sent p = cc

below : {n : ℕ} → (leb 300 n && ltb n 400) ≡ false → leb 400 n ≡ false → n < 300
below h k = ground arith

no_payload : (p : Bytes) → none ≢ some p
no_payload p = cc

read_payload-some :
    (limit : ℕ) (payload : Option Bytes) (p : Bytes)
    → read_payload limit payload ≡ some p
    → payload ≡ some p
unfolding read_payload
read_payload-some limit none p h = cc
read_payload-some limit (some payload) p h = elim (Bool-cases (ltb limit (length payload))) [
  | inl e ↦ absurd (no_payload p (rw e at h))
  | inr e ↦ rw e at h
]

module _ (library : Library) (a : Adapter) where
  -- What the browser was sent is what Control answered, below 300.
  pub record IsAnswer (status : ℕ) (payload : Bytes) (answer : Answer) : Type 0 where
    pub read : answer.payload ≡ some payload
    pub same_status : status ≡ answer.status
    pub success : answer.status < 300
    pub json : library.json_valid payload ≡ true

  passed-sent :
      (status : ℕ) (payload p : Bytes) (chain : Result (List Cookie) (List Cookie))
      → (passed_on library status payload chain).content ≡ sent p
      → (payload ≡ p) × ((passed_on library status payload chain).status ≡ status)
  unfolding passed_on failed
  passed-sent status payload p (ok cookies) h = (cc, refl)
  passed-sent status payload p (err cookies) h = cc

  verification-sent :
      (v : Option Verified) (claim : Bytes) (random : Option Bytes) (p : Bytes)
      → (finish_verification library a v claim random).content ≢ sent p
  unfolding finish_verification signed_in failed
  verification-sent none claim random p = cc
  verification-sent (some v) claim none p = elim (Bool-cases (valid_verified library a v claim)) [
    | inl e ↦ rw e cc
    | inr e ↦ rw e cc
  ]
  verification-sent (some v) claim (some random) p =
      elim (Bool-cases (valid_verified library a v claim)) [ inl e ↦ rw e cc | inr e ↦ rw e cc ]

  accepted-sent :
      (native : Bool) (r : Incoming) (answer : Answer) (random : Option Bytes) (payload p : Bytes)
      → (accepted library a native r answer random payload).content ≡ sent p
      → (payload ≡ p)
        × ((accepted library a native r answer random payload).status ≡ answer.status)
        × (library.json_valid payload ≡ true)
  unfolding accepted failed
  accepted-sent native r answer random payload p h =
      elim (Bool-cases (bytes_eq (path_of r) (ascii "/auth/passwordless/verify"))) [
        | inl e ↦ absurd (verification-sent _ _ random p (rw e at h))
        | inr e ↦
            elim (Bool-cases (is_delete r.method && bytes_eq (path_of r) (ascii "/session"))) [
              | inl d ↦ absurd (nothing-ne_sent p (rw (e, d) at h))
              | inr d ↦ elim (Bool-cases (library.json_valid payload)) [
                | inl j ↦
                    (let (same, status) =
                        passed-sent answer.status payload p (tokens_set library a native r answer)
                          (rw (e, d, j) at h) in
                      rw (e, d, j) (same, status, refl))
                | inr j ↦ absurd (rejected-ne_sent p (rw (e, d, j) at h))
              ]
            ]
      ]

  judged-sent :
      (native : Bool) (r : Incoming) (answer : Answer) (random : Option Bytes) (x : Option Bytes)
      (p : Bytes)
      → (judged library a native r answer random x).content ≡ sent p
      → (x ≡ some p)
        × ((judged library a native r answer random x).status ≡ answer.status)
        × (answer.status < 300)
        × (library.json_valid p ≡ true)
  unfolding judged failed
  judged-sent native r answer random none p h = cc
  judged-sent native r answer random (some payload) p h =
      elim (Bool-cases (leb 300 answer.status && ltb answer.status 400)) [
        | inl e ↦ absurd (rejected-ne_sent p (rw e at h))
        | inr e ↦ elim (Bool-cases (leb 400 answer.status)) [
          | inl d ↦ absurd (rejected-ne_sent p (rw (e, d) at h))
          | inr d ↦
              (let (same, status, json) =
                  accepted-sent native r answer random payload p (rw (e, d) at h) in
                rw (e, d)
                  (ap some same, status, below e d, ap library.json_valid (sym same) ∙ json))
        ]
      ]

  answered-sent :
      (native : Bool) (r : Incoming) (random : Option Bytes) (x : Option Answer) (p : Bytes)
      → (answered library a native r random x).content ≡ sent p
      → (answer : Answer) × (x ≡ some answer)
        × IsAnswer (answered library a native r random x).status p answer
  unfolding answered failed
  answered-sent native r random none p h = cc
  answered-sent native r random (some answer) p h =
      let body = read_payload (payload_limit library native r) answer.payload in
      let (read, status, success, json) = judged-sent native r answer random body p h in
      (
        answer,
        refl,
        record {
          read = read_payload-some (payload_limit library native r) answer.payload p read;
          same_status = status;
          success = success;
          json = json;
        },
      )

  served-sent :
      (control : Remote → Option Answer) (random : Option Bytes) (r : Incoming)
      (x : Result ℕ Remote) (log : List Remote) (p : Bytes)
      → (served library a control random r x log).0.content ≡ sent p
      → (m : Remote) × (answer : Answer) × (x ≡ ok m)
        × (control m ≡ some answer)
        × IsAnswer (served library a control random r x log).0.status p answer
  unfolding served failed
  served-sent control random r (err status) log p h = cc
  served-sent control random r (ok m) log p h =
      let (answer, there, good) =
        answered-sent (resource_route library r.method r.escaped_path) r random (control m) p h in
      (m, answer, refl, there, good)

  -- The browser is sent a payload only where its request was forwarded to Control, which answered it
  -- with that payload, valid JSON, and with the same status below 300.
  pub serve-sent :
      (control : Remote → Option Answer) (random : Option Bytes) (r : Incoming) (log : List Remote)
      (p : Bytes)
      → (serve library a control random r log).0.content ≡ sent p
      → (m : Remote) × (answer : Answer) × (prepare library a r ≡ ok m)
        × (control m ≡ some answer)
        × IsAnswer (serve library a control random r log).0.status p answer
  unfolding serve
  serve-sent control random r log p h = served-sent control random r (prepare library a r) log p h
