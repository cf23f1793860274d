-- ===== src/Client/Sharing/Refused.antt =====
-- What the replies to key and resource operations decide, whatever they hold.
use lotor_go.Common.{
  ℕ, suc, ◌≡◌, refl, Bool, true, false, none, some, not, [], ◌⊎◌, inl, inr, Bool-cases, ltb, leb,
  arith,
}
use lotor_go.Wire.Values.{Value, Values, nil, cons, count}
use lotor_go.Client.{as_bool, as_str, raw_u64, arg}
use lotor_go.Client.Total.{Reads, if-Reads, arg_then-Reads}
use lotor_go.Client.SubjectKeys.{
  SubjectKeyMutation, read_at, third, decode_subject_key_mutation, subject_key_list,
}
use lotor_go.Client.Sharing.{
  ResourceGrantMutation, created_version, activated_version, decode_resource_grant_mutation,
  resource_envelope_get_self, resource_member_list,
}

-- The first value is `true`.
pub accepts : Values → Bool
accepts nil = false
accepts (cons v vs) = as_bool v

read_at-Reads :
    {A : Type 0} (i : ℕ) (zero_value : A) (read : Value → A) (a : Values)
    → Reads (read_at i zero_value read a)
unfolding read_at
read_at-Reads i zero_value read a =
    if-Reads (ltb i (count a)) _ _
      (λ h. arg_then-Reads i (suc i) a _ (ground arith) (omega arith) (λ v. (_, refl)))
      (λ _. (_, refl))

read_at-accepts : (a : Values) → read_at 0 false as_bool a ≡ some (accepts a)
unfolding read_at accepts arg
read_at-accepts nil = refl
read_at-accepts (cons v vs) =
    let there : ltb 0 (count (cons v vs)) ≡ true = ground arith in rw there refl

third-Reads :
    {A : Type 0} (nothing : A) (read : Value → A) (a : Values) → Reads (third nothing read a)
unfolding third
third-Reads nothing read a =
    if-Reads (ltb (count a) 3) _ _ (λ _. (_, refl))
      (λ short.
        let h : leb 3 (count a) ≡ true = ground arith in
        arg_then-Reads 0 3 a _ h (omega arith) (λ v0.
          if-Reads (not (as_bool v0)) _ _ (λ _. (_, refl))
            (λ _. arg_then-Reads 2 3 a _ h (omega arith) (λ v2. (_, refl)))))

third-nothing :
    {A : Type 0} (nothing : A) (read : Value → A) (a : Values)
    → accepts a ≡ false
    → third nothing read a ≡ some nothing
unfolding third accepts arg
third-nothing nothing read nil h = refl
third-nothing nothing read (cons v vs) h = elim (Bool-cases (ltb (count (cons v vs)) 3)) [
  | inl short ↦ rw short refl
  | inr long ↦ rw (long, h) refl
]

subject_key-accepts :
    (a : Values)
    → (r : SubjectKeyMutation) × (decode_subject_key_mutation a ≡ some r) × (r.accepted ≡ accepts a)
unfolding decode_subject_key_mutation
subject_key-accepts a =
    let (v1, e1) = read_at-Reads 1 [] as_str a in
    let (v2, e2) = read_at-Reads 2 [] as_str a in
    let (v3, e3) = read_at-Reads 3 0 raw_u64 a in
    (
      record { accepted = accepts a; reason = v1; key_id = v2; log_seq = v3 },
      rw (read_at-accepts a, e1, e2, e3) refl,
      refl,
    )

created-accepts :
    (a : Values)
    → (r : SubjectKeyMutation) × (created_version a ≡ some r) × (r.accepted ≡ accepts a)
unfolding created_version
created-accepts a =
    let (v1, e1) = read_at-Reads 1 [] as_str a in
    let (v2, e2) = read_at-Reads 2 [] as_str a in
    let (v4, e4) = read_at-Reads 4 0 raw_u64 a in
    (
      record { accepted = accepts a; reason = v1; key_id = v2; log_seq = v4 },
      rw (read_at-accepts a, e1, e2, e4) refl,
      refl,
    )

activated-accepts :
    (a : Values)
    → (r : SubjectKeyMutation) × (activated_version a ≡ some r) × (r.accepted ≡ accepts a)
unfolding activated_version
activated-accepts a =
    let (r, e, same) = subject_key-accepts a in
    let (v4, e4) = read_at-Reads 4 r.log_seq raw_u64 a in
    (record r { log_seq = v4 }, rw (e, e4) refl, same)

grant-accepts :
    (a : Values)
    → (r : ResourceGrantMutation) × (decode_resource_grant_mutation a ≡ some r)
      × (r.accepted ≡ accepts a)
unfolding decode_resource_grant_mutation
grant-accepts a =
    let (v1, e1) = read_at-Reads 1 [] as_str a in
    let (v2, e2) = read_at-Reads 2 [] as_str a in
    let (v3, e3) = read_at-Reads 3 [] as_str a in
    let (v4, e4) = read_at-Reads 4 0 raw_u64 a in
    (
      record { accepted = accepts a; reason = v1; grant_id = v2; status = v3; log_seq = v4 },
      rw (read_at-accepts a, e1, e2, e3, e4) refl,
      refl,
    )

-- Whatever a reply holds and however short it is, no reader indexes out of it: a change of keys,
-- versions, grants or envelopes is read, and as accepted exactly where the first value is `true`; the
-- lists of keys and members and the envelope are read, and without that they are empty.
pub replies_decide :
    (a : Values)
    → ((r : SubjectKeyMutation) × (decode_subject_key_mutation a ≡ some r)
        × (r.accepted ≡ accepts a))
      × ((r : SubjectKeyMutation) × (created_version a ≡ some r) × (r.accepted ≡ accepts a))
      × ((r : SubjectKeyMutation) × (activated_version a ≡ some r) × (r.accepted ≡ accepts a))
      × ((r : ResourceGrantMutation) × (decode_resource_grant_mutation a ≡ some r)
          × (r.accepted ≡ accepts a))
      × Reads (subject_key_list a)
      × Reads (resource_envelope_get_self a)
      × Reads (resource_member_list a)
      × ((accepts a ≡ true)
          ⊎ ((subject_key_list a ≡ some [])
              × (resource_envelope_get_self a ≡ some none)
              × (resource_member_list a ≡ some [])))
unfolding subject_key_list resource_envelope_get_self resource_member_list
replies_decide a = (
  subject_key-accepts a,
  created-accepts a,
  activated-accepts a,
  grant-accepts a,
  third-Reads _ _ a,
  third-Reads _ _ a,
  third-Reads _ _ a,
  elim (Bool-cases (accepts a)) [
    | inl on ↦ inl on
    | inr off ↦ inr (third-nothing _ _ a off, third-nothing _ _ a off, third-nothing _ _ a off)
  ],
)
