-- ===== src/Bridge/Transport/Dial.antt =====
-- publicDialer of bridge/transport/https.go: names are resolved once, every address is checked, and
-- only checked addresses are dialed. The resolver and the network are arguments.
use mathlib.Core.Path.{subst}
use lotor_go.Common.{
  ℕ, suc, ◌≤◌, ◌≡◌, refl, Bool, true, false, not, ◌&&◌, Option, none, some, List, [], ◌∷◌, ltb,
  length, all, All, and-eq-true, arith,
}
use lotor_go.Common.Bytes.{Bytes, ascii, bytes_eq}
use lotor_go.Common.Results.{
  Result, ok, err, ◌>>=◌, ◌>>◌, require, found, require-eq-ok, found-eq-ok,
}
use lotor_go.Bridge.Protocol.{Error, unavailable}
use lotor_go.Bridge.Transport.{Netip, Library, public_address}

module _ {Addr : Type 0} (netip : Netip Addr) (library : Library) where
  open netip use {parse_addr, text, unmap}
  open library use {split_host_port, join_host_port}

  -- The addresses of a literal, or of what the resolver answers for the name.
  candidates : (Bytes → Option (List Addr)) → Bytes → Option Addr → Option (List Addr)
  candidates resolve host (some a) = some (a ∷ [])
  candidates resolve host none = resolve host

  -- The addresses that may be dialed, with the port.
  pub targets : (Bytes → Option (List Addr)) → Bytes → Bytes → Result Error (Bytes × List Addr)
  unfolding candidates
  targets resolve network address = do
    require (bytes_eq network (ascii "tcp")) unavailable
    (host, port) ← found (split_host_port address) unavailable
    addresses ← found (candidates resolve host (parse_addr host)) unavailable
    require (not (ltb (length addresses) 1) && not (ltb 16 (length addresses))) unavailable
    require (all (public_address netip) addresses) unavailable
    ok (port, addresses)

  -- The address as it is dialed.
  pub dial_text : Bytes → Addr → Bytes
  dial_text port a = join_host_port (text (unmap a)) port

  module _ {Conn : Type 0} where
    -- One step of the last loop, with what the rest of it gives.
    first_answer :
        Addr → Option Conn → Result Error Conn × List Addr → Result Error Conn × List Addr
    first_answer a (some c) rest = (ok c, a ∷ [])
    first_answer a none (r, dialed) = (r, a ∷ dialed)

    -- The last loop: the connection of the first address that answers, and the addresses dialed.
    try_all : (Bytes → Option Conn) → Bytes → List Addr → Result Error Conn × List Addr
    unfolding dial_text first_answer
    try_all dial port [] = (err unavailable, [])
    try_all dial port (a ∷ addresses) =
        first_answer a (dial (dial_text port a)) (try_all dial port addresses)

    dial_targets :
        (Bytes → Option Conn) → Result Error (Bytes × List Addr) → Result Error Conn × List Addr
    unfolding try_all
    dial_targets dial (err e) = (err e, [])
    dial_targets dial (ok (port, addresses)) = try_all dial port addresses

    -- `publicDialer`, with the addresses that it has dialed.
    pub public_dialer :
        (Bytes → Option (List Addr))
        → (Bytes → Option Conn)
        → Bytes
        → Bytes
        → Result Error Conn × List Addr
    unfolding dial_targets
    public_dialer resolve dial network address = dial_targets dial (targets resolve network address)

    -- The call ends in a connection to a public address, or the endpoint is unavailable.
    pub IsPublicEnd : (Bytes → Option Conn) → Result Error Conn → Type 0
    IsPublicEnd dial (err e) = e ≡ unavailable
    IsPublicEnd dial (ok c) =
        (a : Addr) × (port : Bytes) × (public_address netip a ≡ true)
        × (dial (dial_text port a) ≡ some c)

    -- Where the loop stands after some addresses.
    record IsGuarded (dial : Bytes → Option Conn) (n : ℕ) (x : Result Error Conn × List Addr)
        : Type 0 where
      few : length x.1 ≤ n
      public : All (λ a. public_address netip a ≡ true) x.1
      over : IsPublicEnd dial x.0

    step-IsGuarded :
        (dial : Bytes → Option Conn) (port : Bytes) (a : Addr) (n : ℕ) (o : Option Conn)
        (x : Result Error Conn × List Addr)
        → dial (dial_text port a) ≡ o
        → public_address netip a ≡ true
        → IsGuarded dial n x
        → IsGuarded dial (suc n) (first_answer a o x)
    unfolding first_answer IsPublicEnd
    step-IsGuarded dial port a n (some c) x e h g = record {
      few = omega arith;
      public = (h, tt);
      over = (a, port, h, e);
    }
    step-IsGuarded dial port a n none (r, dialed) e h g = record {
      few = omega (arith, g.few);
      public = (h, g.public);
      over = g.over;
    }

    loop-IsGuarded :
        (dial : Bytes → Option Conn) (port : Bytes) (addresses : List Addr)
        → all (public_address netip) addresses ≡ true
        → IsGuarded dial (length addresses) (try_all dial port addresses)
    unfolding try_all IsPublicEnd
    loop-IsGuarded dial port [] h = record { few = omega arith; public = tt; over = refl }
    loop-IsGuarded dial port (a ∷ addresses) h =
        let (here, later) =
          and-eq-true (public_address netip a) (all (public_address netip) addresses) h in
        step-IsGuarded dial port a (length addresses) (dial (dial_text port a))
          (try_all dial port addresses) refl here (loop-IsGuarded dial port addresses later)

  targets_public :
      (resolve : Bytes → Option (List Addr)) (network address port : Bytes) (addresses : List Addr)
      → targets resolve network address ≡ ok (port, addresses)
      → (length addresses ≤ 16) × (all (public_address netip) addresses ≡ true)
  unfolding targets
  targets_public resolve network address port addresses h =
      let (tcp, h1) = require-eq-ok (bytes_eq network (ascii "tcp")) _ _ h in
      let ((host, p), split, h2) = found-eq-ok (split_host_port address) _ _ h1 in
      let (found_all, listed, h3) =
        found-eq-ok (candidates resolve host (parse_addr host)) _ _ h2 in
      let (few, h4) =
        require-eq-ok (not (ltb (length found_all) 1) && not (ltb 16 (length found_all))) _ _ h3 in
      let (public, h5) = require-eq-ok (all (public_address netip) found_all) _ _ h4 in
      let same : found_all ≡ addresses = cc in
      let small : length found_all ≤ 16 = ground arith in
      (
        subst (λ (x : List Addr). length x ≤ 16) same small,
        subst (λ (x : List Addr). all (public_address netip) x ≡ true) same public,
      )

  -- The only error is that the endpoint is unavailable.
  IsUnavailable : {A : Type 0} → Result Error A → Type 0
  IsUnavailable (ok a) = Unit {0}
  IsUnavailable (err e) = e ≡ unavailable

  bind-IsUnavailable :
      {A B : Type 0} (step : Result Error A) (more : A → Result Error B)
      → IsUnavailable step
      → ((a : A) → IsUnavailable (more a))
      → IsUnavailable (step >>= more)
  unfolding IsUnavailable
  bind-IsUnavailable (ok a) more h k = k a
  bind-IsUnavailable (err e) more h k = h

  require-IsUnavailable : (t : Bool) → IsUnavailable (require t unavailable)
  unfolding IsUnavailable
  require-IsUnavailable true = tt
  require-IsUnavailable false = refl

  found-IsUnavailable : {A : Type 0} (o : Option A) → IsUnavailable (found o unavailable)
  unfolding IsUnavailable
  found-IsUnavailable none = refl
  found-IsUnavailable (some a) = tt

  targets-IsUnavailable :
      (resolve : Bytes → Option (List Addr)) (network address : Bytes)
      → IsUnavailable (targets resolve network address)
  unfolding targets IsUnavailable
  targets-IsUnavailable resolve network address =
      bind-IsUnavailable (require (bytes_eq network (ascii "tcp")) unavailable) _
        (require-IsUnavailable _)
        (λ _.
          bind-IsUnavailable (found (split_host_port address) unavailable) _ (found-IsUnavailable _)
            (λ s.
              bind-IsUnavailable (found (candidates resolve s.0 (parse_addr s.0)) unavailable) _
                (found-IsUnavailable _)
                (λ addresses.
                  bind-IsUnavailable
                    (require (not (ltb (length addresses) 1) && not (ltb 16 (length addresses)))
                      unavailable)
                    _ (require-IsUnavailable _)
                    (λ _.
                      bind-IsUnavailable
                        (require (all (public_address netip) addresses) unavailable) _
                        (require-IsUnavailable _) (λ _. tt)))))

  module _ {Conn : Type 0} (dial : Bytes → Option Conn) where
    dialed_public :
        (x : Result Error (Bytes × List Addr))
        → IsUnavailable x
        → ((port : Bytes) (addresses : List Addr)
            → x ≡ ok (port, addresses)
            → (length addresses ≤ 16) × (all (public_address netip) addresses ≡ true))
        → (length (dial_targets dial x).1 ≤ 16)
          × All (λ a. public_address netip a ≡ true) (dial_targets dial x).1
          × IsPublicEnd dial (dial_targets dial x).0
    unfolding dial_targets IsPublicEnd IsUnavailable
    dialed_public (err e) h k = (omega arith, tt, h)
    dialed_public (ok (port, addresses)) h k =
        let (few, public) = k port addresses refl in
        let g = loop-IsGuarded dial port addresses public in
        (omega (arith, few, g.few), g.public, g.over)

    -- Whatever the resolver answers and the network does, at most 16 addresses are dialed, each of
    -- them public, and the call ends in a connection to a public address or as unavailable.
    pub public_dialer_sound :
        (resolve : Bytes → Option (List Addr)) (network address : Bytes)
        → (length (public_dialer resolve dial network address).1 ≤ 16)
          × All (λ a. public_address netip a ≡ true) (public_dialer resolve dial network address).1
          × IsPublicEnd dial (public_dialer resolve dial network address).0
    unfolding public_dialer
    public_dialer_sound resolve network address =
        dialed_public (targets resolve network address)
          (targets-IsUnavailable resolve network address) (targets_public resolve network address)
