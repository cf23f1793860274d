-- ===== src/Ownership/Trust.antt =====
-- What a resolver holds and answers, over every sequence of its calls.
use lotor_go.Common.{
  ◌≡◌, refl, ◌⊎◌, inl, inr, Bool, true, false, not, ◌||◌, Option, none, some, List, [], ◌∷◌, All,
  ◌==◌, if◌then◌else◌, length, Bool-cases, arith,
}
use lotor_go.Common.Bytes.{Bytes, ascii, bytes_eq, bytes_eq_iff}
use lotor_go.Common.Int.{ℤ, pos, eqz}
use lotor_go.Ownership.{
  Ownership, SigningKey, Library, Resolver, Env, lookup_key, fetch_json, verify_ownership, add_key,
  add_keys, refreshed, usable, installed, known, signing_key, checked, fetched, cache,
}

module _ (library : Library) where
  -- Every key is filed under its own hash.
  abbrev pub KeysMatch : List (Bytes × Bytes) → Type 0
  KeysMatch =
      All λ (entry : Bytes × Bytes). (length entry.1 ≡ 32) × (entry.0 ≡ library.short_hash entry.1)

  -- The assertion passed every check at that time, under some key of the right size.
  abbrev pub VerifiedAt : ℤ → Ownership → Type 0
  VerifiedAt now o = (key : Bytes) × (length key ≡ 32) × (verify_ownership library o key now ≡ true)

  pub record Trusted (r : Resolver) : Type 0 where
    pub keys_match : KeysMatch r.keys
    pub cache_verified : (eqz r.cached.version (pos 0) ≡ true) ⊎ ((t : ℤ) × VerifiedAt t r.cached)

  FreshKeys : Option (List (Bytes × Bytes)) → Type 0
  FreshKeys none = Unit {0}
  FreshKeys (some keys) = KeysMatch keys

  guarded-FreshKeys :
      (refused : Bool) (keys : List (Bytes × Bytes))
      → (refused ≡ false → KeysMatch keys)
      → FreshKeys (if refused then none else some keys)
  unfolding FreshKeys
  guarded-FreshKeys true keys h = tt
  guarded-FreshKeys false keys h = h refl

  add_key-FreshKeys :
      (item : SigningKey) (key : Option Bytes) (keys : List (Bytes × Bytes))
      → KeysMatch keys
      → FreshKeys (add_key library item key keys)
  unfolding add_key FreshKeys
  add_key-FreshKeys item none keys h = tt
  add_key-FreshKeys item (some key) keys h = guarded-FreshKeys _ ((item.id, key) ∷ keys) λ fine.
      let named_right : bytes_eq item.id (library.short_hash key) ≡ true = ground arith in
      ((ground arith, (bytes_eq_iff _ _).0 named_right), h)

  add_keys-FreshKeys :
      (items : List SigningKey) (keys : Option (List (Bytes × Bytes)))
      → FreshKeys keys
      → FreshKeys (add_keys library items keys)
  unfolding add_keys FreshKeys
  add_keys-FreshKeys [] none h = tt
  add_keys-FreshKeys (item ∷ items) none h = tt
  add_keys-FreshKeys [] (some keys) h = h
  add_keys-FreshKeys (item ∷ items) (some keys) h =
      elim (Bool-cases (bytes_eq item.id [] || not (bytes_eq item.algorithm (ascii "Ed25519")))) [
        | inl e ↦ rw e tt
        | inr e ↦ rw e (
            add_keys-FreshKeys items _
              (add_key-FreshKeys item (library.base64_decode item.public_key) keys h))
      ]

  refreshed-FreshKeys : (items : Option (List SigningKey)) → FreshKeys (refreshed library items)
  unfolding refreshed FreshKeys
  refreshed-FreshKeys none = tt
  refreshed-FreshKeys (some items) = add_keys-FreshKeys items (some []) tt

  -- A key that signingKey gives, with the resolver behind it.
  KeyAnswer : Resolver → Option Bytes × Resolver → Type 0
  KeyAnswer r (none, s) = KeysMatch s.keys × (s.cached ≡ r.cached)
  KeyAnswer r (some key, s) = KeysMatch s.keys × (s.cached ≡ r.cached) × (length key ≡ 32)

  usable-KeyAnswer :
      (key : Option Bytes) (r s : Resolver)
      → KeysMatch s.keys
      → s.cached ≡ r.cached
      → KeyAnswer r (usable key, s)
  unfolding usable KeyAnswer
  usable-KeyAnswer none r s h e = (h, e)
  usable-KeyAnswer (some key) r s h e = elim (Bool-cases (length key == 32)) [
    | inl d ↦ rw d (h, e, ground arith)
    | inr d ↦ rw d (h, e)
  ]

  installed-KeyAnswer :
      (id : Bytes) (r : Resolver) (keys : Option (List (Bytes × Bytes)))
      → KeysMatch r.keys
      → FreshKeys keys
      → KeyAnswer r (installed library id r keys)
  unfolding installed KeyAnswer FreshKeys
  installed-KeyAnswer id r none h k = (h, refl)
  installed-KeyAnswer id r (some keys) h k =
      usable-KeyAnswer (lookup_key id keys) r (record r { keys = keys }) k refl

  usable-length : (key : Option Bytes) (k : Bytes) → usable key ≡ some k → length k ≡ 32
  unfolding usable
  usable-length none k e = cc
  usable-length (some key) k e = ground arith

  known-KeyAnswer :
      (env : Env) (id : Bytes) (r : Resolver) (key : Option Bytes)
      → KeysMatch r.keys
      → ((k : Bytes) → key ≡ some k → length k ≡ 32)
      → KeyAnswer r (known library env id r key)
  unfolding known KeyAnswer
  known-KeyAnswer env id r (some key) h fit = (h, refl, fit key refl)
  known-KeyAnswer env id r none h fit =
      installed-KeyAnswer id r _ h
        (refreshed-FreshKeys (fetch_json library.at_end library.decode_keys env.keys_reply))

  signing_key-KeyAnswer :
      (env : Env) (id : Bytes) (r : Resolver)
      → KeysMatch r.keys
      → KeyAnswer r (signing_key library env id r)
  unfolding signing_key
  signing_key-KeyAnswer env id r h =
      known-KeyAnswer env id r _ h (usable-length (lookup_key id r.keys))

  -- An assertion that has been checked at that time, with the resolver behind the check.
  unfoldable pub Checked : ℤ → Resolver → Option Ownership × Resolver → Type 0
  Checked now r (none, s) = KeysMatch s.keys × (s.cached ≡ r.cached)
  Checked now r (some o, s) = KeysMatch s.keys × (s.cached ≡ r.cached) × VerifiedAt now o

  checked-Checked :
      (now : ℤ) (o : Ownership) (r : Resolver) (answer : Option Bytes × Resolver)
      → KeyAnswer r answer
      → Checked now r (checked library now o answer)
  unfolding checked Checked KeyAnswer
  checked-Checked now o r (none, s) h = h
  checked-Checked now o r (some key, s) (keys, cached, fit) =
      elim (Bool-cases (verify_ownership library o key now)) [
        | inl d ↦ rw d (keys, cached, (key, fit, d))
        | inr d ↦ rw d (keys, cached)
      ]

  pub fetched-Checked :
      (env : Env) (r : Resolver) (o : Option Ownership)
      → KeysMatch r.keys
      → Checked env.now r (fetched library env r o)
  unfolding fetched Checked
  fetched-Checked env r none h = (h, refl)
  fetched-Checked env r (some o) h =
      checked-Checked env.now o r _ (signing_key-KeyAnswer env o.key_id r h)

  -- An answer with the resolver behind it: all verified at the time, and the answer cached.
  unfoldable pub Settled : ℤ → Option Ownership × Resolver → Type 0
  Settled now (none, s) = Trusted s
  Settled now (some o, s) = Trusted s × VerifiedAt now o × (s.cached ≡ o)

  pub cache-Settled :
      (now : ℤ) (r : Resolver) (answer : Option Ownership × Resolver)
      → Trusted r
      → Checked now r answer
      → Settled now (cache answer)
  unfolding cache Settled Checked
  cache-Settled now r (none, s) h (keys, same) = record {
    keys_match = keys;
    cache_verified = rw same (h.cache_verified);
  }
  cache-Settled now r (some o, s) h (keys, same, sound) =
      (record { keys_match = keys; cache_verified = inr (now, sound) }, sound, refl)
