-- ===== src/Browser/Request/Reply/Cookies.antt =====
-- The cookies of an answer, and what of Control's answers reaches the browser.
use lotor_go.Common.{
  ℕ, ◌≡◌, refl, ◌⊎◌, inl, inr, Bool, true, false, ◌&&◌, Option, none, some, List, [], ◌∷◌, ◌++◌,
  ltb, leb, All, Bool-cases, Option-cases,
}
use lotor_go.Common.Bytes.{Bytes, ascii, bytes_eq}
use lotor_go.Common.Results.{Result, ok, err, ◌>>=◌}
use lotor_go.Browser.{Adapter, Library, Verified, valid_value}
use lotor_go.Browser.Routes.{is_delete}
use lotor_go.Browser.Request.{Incoming, Remote, csrf_name, path_of, prepare}
use lotor_go.Browser.Request.Reply.{
  Answer, Cookie, Lifetime, failed, cookie, cleared, session_cookies, valid_verified, signed_in,
  finish_verification, token_cookie, link_cookie, payload_cookie, execution_cookie, tokens_set,
  passed_on, accepted, judged, answered, served, serve,
}

-- A cookie is secure where the adapter is, and no script reads it, but for the CSRF cookie.
pub record IsGuarded (a : Adapter) (c : Cookie) : Type 0 where
  pub as_secure : c.secure ≡ a.secure
  pub hidden : (c.http_only ≡ true) ⊎ (c.name ≡ csrf_name a)

All-append : {A : Type 0} (P : A → Type 0) (xs ys : List A) → All P xs → All P ys → All P (xs ++ ys)
All-append P [] ys h k = k
All-append P (x ∷ xs) ys (h, hs) k = (h, All-append P xs ys hs k)

hidden_cookie :
    (a : Adapter) (name value path : Bytes) (kept : Lifetime)
    → IsGuarded a (cookie a name value path true kept)
unfolding cookie
hidden_cookie a name value path kept = record { as_secure = refl; hidden = inl refl }

csrf_cookie :
    (a : Adapter) (value path : Bytes) (kept : Lifetime)
    → IsGuarded a (cookie a (csrf_name a) value path false kept)
unfolding cookie
csrf_cookie a value path kept = record { as_secure = refl; hidden = inr refl }

-- The cookies of a chain, whether it goes on or stops.
either : Result (List Cookie) (List Cookie) → List Cookie
either (ok cookies) = cookies
either (err cookies) = cookies

module _ (library : Library) (a : Adapter) where
  AreGuarded : List Cookie → Type 0
  AreGuarded cookies = All (IsGuarded a) cookies

  token_guarded :
      (needed : Bool) (name token path : Bytes) (ttl : ℕ) (cookies : List Cookie)
      → AreGuarded cookies
      → AreGuarded (either (token_cookie library a needed name token path ttl cookies))
  unfolding token_cookie either AreGuarded
  token_guarded false name token path ttl cookies h = h
  token_guarded true name token path ttl cookies h =
      elim (Bool-cases (valid_value token && library.valid_cookie name token)) [
        | inl e ↦
            rw e (All-append (IsGuarded a) cookies _ h (hidden_cookie a name token path _, tt))
        | inr e ↦ rw e h
      ]

  then_guarded :
      (chain : Result (List Cookie) (List Cookie))
      (next : List Cookie → Result (List Cookie) (List Cookie))
      → AreGuarded (either chain)
      → ((cookies : List Cookie) → AreGuarded cookies → AreGuarded (either (next cookies)))
      → AreGuarded (either (chain >>= next))
  unfolding either
  then_guarded (ok cookies) next h k = k cookies h
  then_guarded (err cookies) next h k = h

  tokens_guarded :
      (native : Bool) (r : Incoming) (answer : Answer)
      → AreGuarded (either (tokens_set library a native r answer))
  unfolding tokens_set link_cookie payload_cookie execution_cookie AreGuarded
  tokens_guarded native r answer =
      then_guarded (link_cookie library a native r answer [])
        (λ link.
          payload_cookie library a native r answer link
          >>= execution_cookie library a native r answer)
        (token_guarded _ _ _ _ _ [] tt)
        (λ link h.
          then_guarded (payload_cookie library a native r answer link)
            (execution_cookie library a native r answer) (token_guarded _ _ _ _ _ link h)
            (λ payload k. token_guarded _ _ _ _ _ payload k))

  passed_guarded :
      (status : ℕ) (payload : Bytes) (chain : Result (List Cookie) (List Cookie))
      → AreGuarded (either chain)
      → AreGuarded (passed_on library status payload chain).cookies
  unfolding passed_on failed either
  passed_guarded status payload (ok cookies) h = h
  passed_guarded status payload (err cookies) h = h

  verification_guarded :
      (v : Option Verified) (claim : Bytes) (random : Option Bytes)
      → AreGuarded (finish_verification library a v claim random).cookies
  unfolding finish_verification signed_in session_cookies failed AreGuarded
  verification_guarded none claim random = tt
  verification_guarded (some v) claim random =
      elim (Bool-cases (valid_verified library a v claim)) [
        | inl e ↦ rw e (signed random)
        | inr e ↦ rw e tt
      ]
    where
      signed : (random : Option Bytes) → AreGuarded (signed_in library a v claim random).cookies
      signed none = tt
      signed (some random) =
          (hidden_cookie a _ _ _ _, (csrf_cookie a _ _ _, (hidden_cookie a _ _ _ _, tt)))

  cleared_guarded : AreGuarded (cleared a)
  unfolding cleared AreGuarded
  cleared_guarded = (hidden_cookie a _ _ _ _, (csrf_cookie a _ _ _, (hidden_cookie a _ _ _ _, tt)))

  accepted_guarded :
      (native : Bool) (r : Incoming) (answer : Answer) (random : Option Bytes) (payload : Bytes)
      → AreGuarded (accepted library a native r answer random payload).cookies
  unfolding accepted failed AreGuarded
  accepted_guarded native r answer random payload =
      elim (Bool-cases (bytes_eq (path_of r) (ascii "/auth/passwordless/verify"))) [
        | inl e ↦ rw e (verification_guarded _ _ random)
        | inr e ↦
            rw e
              (elim (Bool-cases (is_delete r.method && bytes_eq (path_of r) (ascii "/session"))) [
                | inl d ↦ rw d cleared_guarded
                | inr d ↦ rw d (elim (Bool-cases (library.json_valid payload)) [
                  | inl j ↦ rw j (passed_guarded _ _ _ (tokens_guarded native r answer))
                  | inr j ↦ rw j tt
                ])
              ])
      ]

  judged_guarded :
      (native : Bool) (r : Incoming) (answer : Answer) (random payload : Option Bytes)
      → AreGuarded (judged library a native r answer random payload).cookies
  unfolding judged failed AreGuarded
  judged_guarded native r answer random none = tt
  judged_guarded native r answer random (some payload) =
      elim (Bool-cases (leb 300 answer.status && ltb answer.status 400)) [
        | inl e ↦ rw e tt
        | inr e ↦ rw e (elim (Bool-cases (leb 400 answer.status)) [
          | inl d ↦ rw d tt
          | inr d ↦ rw d (accepted_guarded native r answer random payload)
        ])
      ]

  served_guarded :
      (control : Remote → Option Answer) (random : Option Bytes) (r : Incoming)
      (x : Result ℕ Remote) (log : List Remote)
      → AreGuarded (served library a control random r x log).0.cookies
  unfolding served answered failed AreGuarded
  served_guarded control random r (err status) log = tt
  served_guarded control random r (ok remote) log = elim (Option-cases (control remote)) [
    | inl e ↦ rw e tt
    | inr (answer, e) ↦ rw e (judged_guarded _ r answer random _)
  ]

  served_sends :
      (control : Remote → Option Answer) (random : Option Bytes) (r : Incoming)
      (x : Result ℕ Remote) (log : List Remote)
      → prepare library a r ≡ x
      → ((served library a control random r x log).1 ≡ log)
        ⊎ ((m : Remote) × (prepare library a r ≡ ok m)
            × ((served library a control random r x log).1 ≡ m ∷ log))
  unfolding served
  served_sends control random r (err status) log e = inl refl
  served_sends control random r (ok m) log e = inr (m, e, refl)

  -- Every cookie of an answer is secure where the adapter is, and no script reads it, but for the
  -- CSRF cookie; and a request of the browser becomes at most one request to Control.
  pub serve_cookies :
      (control : Remote → Option Answer) (random : Option Bytes) (r : Incoming) (log : List Remote)
      → All (IsGuarded a) (serve library a control random r log).0.cookies
        × (((serve library a control random r log).1 ≡ log)
            ⊎ ((m : Remote) × (prepare library a r ≡ ok m)
                × ((serve library a control random r log).1 ≡ m ∷ log)))
  unfolding serve AreGuarded
  serve_cookies control random r log = (
    served_guarded control random r (prepare library a r) log,
    served_sends control random r _ log refl,
  )
