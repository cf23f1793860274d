-- ===== src/Client/Requests.antt =====
-- The arguments that the operations of lotor/client.go send.
use lotor_go.Common.{ℕ, Bool, List, [], ◌∷◌, if◌then◌else◌}
use lotor_go.Common.Bytes.{Bytes, ascii, bytes_eq}
use lotor_go.Wire.Values.{
  Value, null, u64, str, addr, bool, list, map, Values, nil, cons, Entries, end, entry, sort_keys,
}

pub record CompositionPin : Type 0 where
  pub operation : Bytes
  pub result_hash : Bytes
  pub pool_ref : Bytes
  pub composition_subject : Bytes
  pub pin_version : ℕ

pub record PolicyInput : Type 0 where
  pub pin : CompositionPin
  pub scope_ref : Bytes
  pub destination_ref : Bytes
  pub region_ref : Bytes
  pub execution_policy_ref : Bytes
  pub evidence_refs : List Bytes
  pub retention_days : ℕ
  pub reveal : Bool
  pub export : Bool

pub record InvitationResourceGrant : Type 0 where
  pub resource : Bytes
  pub relation : Bytes
  pub key_resource : Bytes
  pub key_version : ℕ

strings : List (Bytes × Unit {0}) → Values
strings [] = nil
strings ((s, u) ∷ refs) = cons (str s) (strings refs)

keyed : List Bytes → List (Bytes × Unit {0})
keyed [] = []
keyed (s ∷ refs) = (s, tt) ∷ keyed refs

-- `sort.Strings`
sorted_strings : List Bytes → Values
unfolding strings keyed
sorted_strings refs = strings (sort_keys (keyed refs))

-- `policyContext`
pub policy_context : Bytes → PolicyInput → Value
unfolding sorted_strings
policy_context subject input =
    let chosen =
      if bytes_eq input.pin.composition_subject []
      then subject
      else input.pin.composition_subject in
    map (
      entry (ascii "composition_hash") (str input.pin.result_hash) (
        entry (ascii "composition_version") (u64 input.pin.pin_version) (
          entry (ascii "composition_subject") (addr chosen) (
            entry (ascii "scope_ref") (str input.scope_ref) (
              entry (ascii "destination_ref") (str input.destination_ref) (
                entry (ascii "region_ref") (str input.region_ref) (
                  entry (ascii "execution_policy_ref") (str input.execution_policy_ref) (
                    entry (ascii "evidence_refs") (list (sorted_strings input.evidence_refs)) (
                      entry (ascii "retention_days") (u64 input.retention_days) (
                        entry (ascii "reveal") (bool input.reveal)
                          (entry (ascii "export") (bool input.export) end)))))))))))

pin_entries : CompositionPin → Entries → Entries
pin_entries pin more = entry (ascii "operation") (str pin.operation) (
    entry (ascii "composition_hash") (str pin.result_hash)
      (entry (ascii "composition_version") (u64 pin.pin_version) more))

-- `accessPin`
pub access_pin : CompositionPin → Value
unfolding pin_entries
access_pin pin = map (
    pin_entries pin (
      if bytes_eq pin.composition_subject []
      then end
      else entry (ascii "composition_subject") (addr pin.composition_subject) end))

-- `capacityPin`
pub capacity_pin : CompositionPin → Value
unfolding pin_entries
capacity_pin pin = map (
    pin_entries pin
      (if bytes_eq pin.pool_ref [] then end else entry (ascii "pool_ref") (str pin.pool_ref) end))

keyed_by : Bytes → Values
keyed_by key = if bytes_eq key [] then nil else cons (str key) nil

-- `MeterConsume`
pub meter_consume : (scope meter : Bytes) → ℕ → Bytes → Values
unfolding keyed_by
meter_consume scope meter n key =
    cons (addr scope)
      (cons (str meter) (cons (u64 n) (if bytes_eq key [] then nil else cons null (keyed_by key))))

-- `walletOp`
pub wallet_op : (scope wallet : Bytes) → ℕ → Bytes → Values
unfolding keyed_by
wallet_op scope wallet amount key =
    cons (addr scope) (cons (str wallet) (cons (u64 amount) (keyed_by key)))

-- `AllowanceGrant`
pub allowance_grant : (scope meter : Bytes) → (units expires_at : ℕ) → Bytes → ℕ → Bytes → Values
unfolding keyed_by
allowance_grant scope meter units expires_at wallet cost key = cons (addr scope) (
    cons (str meter) (
      cons (u64 units)
        (cons (u64 expires_at) (cons (str wallet) (cons (u64 cost) (keyed_by key))))))

grant_values : List InvitationResourceGrant → Values
grant_values [] = nil
grant_values (g ∷ grants) =
    cons
      (map (
        entry (ascii "resource") (addr g.resource) (
          entry (ascii "relation") (str g.relation) (
            entry (ascii "key_resource") (addr g.key_resource)
              (entry (ascii "key_version") (u64 g.key_version) end)))))
      (grant_values grants)

-- `InvitationCreatePinned`, and `EncryptedInvitationCreatePinned` with its grants behind.
invitation :
    (scope actor id invitee role ticket : Bytes) → ℕ → Bytes → CompositionPin → Values → Values
invitation scope actor id invitee role ticket expires_at key pin more = cons (addr scope) (
    cons (addr actor) (
      cons (str id) (
        cons (addr invitee) (
          cons (str role) (
            cons (str ticket)
              (cons (u64 expires_at) (cons (str key) (cons (capacity_pin pin) more))))))))

pub invitation_create :
    (scope actor id invitee role ticket : Bytes) → ℕ → Bytes → CompositionPin → Values
unfolding invitation
invitation_create scope actor id invitee role ticket expires_at key pin =
    invitation scope actor id invitee role ticket expires_at key pin nil

pub encrypted_invitation_create :
    (scope actor id invitee role ticket : Bytes)
    → ℕ
    → Bytes
    → CompositionPin
    → List InvitationResourceGrant
    → Values
unfolding invitation grant_values
encrypted_invitation_create scope actor id invitee role ticket expires_at key pin grants =
    invitation scope actor id invitee role ticket expires_at key pin
      (cons (list (grant_values grants)) nil)
