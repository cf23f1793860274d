-- ===== src/Client/Results.antt =====
-- The results that the operations of lotor/client.go read from the arguments of a response. A reader
-- is `none` where it panics, on an index that is out of range.
pub mod Total
use lotor_go.Common.{
  ℕ, Bool, true, false, not, ◌&&◌, ◌||◌, Option, none, some, List, [], ◌∷◌, ◌≡◌, ltb, leb, ◌==◌,
  if◌then◌else◌,
}
use lotor_go.Common.Bytes.{Bytes, ascii, bytes_eq}
use lotor_go.Common.Int.{ℤ, pos, eqz}
use lotor_go.Wire.Values.{
  Value, null, bool, u64, i64, str, addr, bytes, list, map, Values, nil, cons, Entries, end, entry,
  count,
}
use lotor_go.Common.Options.{◌>>=◌}
use lotor_go.Client.{as_str, as_num, as_bool, raw_u64, arg}

abbrev is_one : Value → Bool
is_one v = eqz (as_num v) (pos 1)

pub record Verified : Type 0 where
  pub subject : Bytes
  pub org : Bytes
  pub reason : Bytes
  pub valid : Bool

-- `AuthVerify`
unfoldable pub auth_verify : Values → Option Verified
auth_verify a =
    if leb 6 (count a)
    then (do
      v0 ← arg 0 a
      v1 ← arg 1 a
      v2 ← arg 2 a
      v5 ← arg 5 a
      some
          (record { subject = as_str v1; org = as_str v2; reason = as_str v5; valid = as_bool v0 }))
    else some (record { subject = []; org = []; reason = []; valid = false })

pub record Decision : Type 0 where
  pub reason : Bytes
  pub evidence : Bytes
  pub composition_version : ℕ
  pub allow : Bool

-- `AccessCheck`
unfoldable pub access_check : Values → Option Decision
access_check a =
    if leb 2 (count a)
    then (do
      v0 ← arg 0 a
      v1 ← arg 1 a
      some (record {
        reason = as_str v1;
        evidence = [];
        composition_version = 0;
        allow = is_one v0;
      }))
    else some (record { reason = []; evidence = []; composition_version = 0; allow = false })

-- `AccessCheckPinned`
unfoldable pub access_check_pinned : Values → Option Decision
access_check_pinned a = do
  d ← access_check a
  if leb 5 (count a)
      then (do
        v3 ← arg 3 a
        v4 ← arg 4 a
        some (record d { evidence = as_str v3; composition_version = raw_u64 v4 }))
      else some d

-- `AccessGrant` and `AccessRevoke`: whether the change was committed.
unfoldable pub committed : Values → Bool
committed nil = false
committed (cons v vs) = as_bool v

pub record ConsumeResult : Type 0 where
  pub reason : Bytes
  pub evidence : Bytes
  pub remaining : ℤ
  pub used : ℤ
  pub blocks_purchased : ℤ
  pub wallet_balance : ℤ
  pub grant_drawn : ℤ
  pub grant_remaining : ℤ
  pub max : ℤ
  pub composition_version : ℕ
  pub accepted : Bool

abbrev no_consumption : ConsumeResult
no_consumption = record {
  reason = [];
  evidence = [];
  remaining = pos 0;
  used = pos 0;
  blocks_purchased = pos 0;
  wallet_balance = pos 0;
  grant_drawn = pos 0;
  grant_remaining = pos 0;
  max = pos 0;
  composition_version = 0;
  accepted = false;
}

abbrev is_str : Value → Bool
is_str (str s) = true
is_str _ = false

unfoldable pub consume_base : Values → ConsumeResult → Option ConsumeResult
consume_base a r =
    if leb 4 (count a)
    then (do
      v0 ← arg 0 a
      v1 ← arg 1 a
      v2 ← arg 2 a
      v3 ← arg 3 a
      most ← if leb 5 (count a) then (do v4 ← arg 4 a; some (as_num v4)) else some r.max
      some (record r {
        accepted = is_one v0;
        reason = as_str v1;
        remaining = as_num v2;
        used = as_num v3;
        max = most;
      }))
    else some r

unfoldable pub consume_overage : Values → ConsumeResult → Option ConsumeResult
consume_overage a r =
    if leb 8 (count a)
    then (do
      v6 ← arg 6 a
      v7 ← arg 7 a
      some (record r { blocks_purchased = as_num v6; wallet_balance = as_num v7 }))
    else some r

unfoldable pub consume_grants : Values → ConsumeResult → Option ConsumeResult
consume_grants a r =
    if leb 10 (count a)
    then (do
      v8 ← arg 8 a
      v9 ← arg 9 a
      some (record r { grant_drawn = as_num v8; grant_remaining = as_num v9 }))
    else some r

unfoldable pub consume_evidence : Values → ConsumeResult → Option ConsumeResult
consume_evidence a r =
    if leb 8 (count a)
    then (do
      v6 ← arg 6 a
      if is_str v6
          then (do
            v7 ← arg 7 a
            some (record r { evidence = as_str v6; composition_version = raw_u64 v7 }))
          else some r)
    else some r

-- `MeterConsume`
unfoldable pub consume_result : Values → Option ConsumeResult
consume_result a = do
  base ← consume_base a no_consumption
  overage ← consume_overage a base
  grants ← consume_grants a overage
  consume_evidence a grants

-- `MeterConsumePinned`
unfoldable pub consume_result_pinned : Values → Option ConsumeResult
consume_result_pinned a =
    if leb 8 (count a)
    then (do
      v0 ← arg 0 a
      v1 ← arg 1 a
      v2 ← arg 2 a
      v3 ← arg 3 a
      v4 ← arg 4 a
      v6 ← arg 6 a
      v7 ← arg 7 a
      some (record no_consumption {
        accepted = is_one v0;
        reason = as_str v1;
        remaining = as_num v2;
        used = as_num v3;
        max = as_num v4;
        evidence = as_str v6;
        composition_version = raw_u64 v7;
      }))
    else if leb 6 (count a)
    then (do
      v0 ← arg 0 a
      v1 ← arg 1 a
      v2 ← arg 2 a
      v3 ← arg 3 a
      v4 ← arg 4 a
      some (record no_consumption {
        accepted = is_one v0;
        reason = as_str v1;
        remaining = as_num v2;
        used = as_num v3;
        max = as_num v4;
      }))
    else some no_consumption

-- `MeterReleasePinned`: `none` of the result, or the reason of the denial.
unfoldable pub release_denied : Values → Option (Option Bytes)
unfolding committed
release_denied a =
    if committed a
    then some none
    else if leb 6 (count a)
    then (do
      v5 ← arg 5 a
      some (some (if bytes_eq (as_str v5) [] then ascii "capacity_release_denied" else as_str v5)))
    else some (some (ascii "capacity_release_denied"))

pub record SeatResult : Type 0 where
  pub reason : Bytes
  pub seat_id : Bytes
  pub evidence : Bytes
  pub used : ℤ
  pub max : ℤ
  pub composition_version : ℕ
  pub outcome : ℤ

abbrev no_seat : SeatResult
no_seat = record {
  reason = [];
  seat_id = [];
  evidence = [];
  used = pos 0;
  max = pos 0;
  composition_version = 0;
  outcome = pos 0;
}

unfoldable pub seat_base : Values → Option SeatResult
seat_base a =
    if leb 6 (count a)
    then (do
      v0 ← arg 0 a
      v1 ← arg 1 a
      v2 ← arg 2 a
      v3 ← arg 3 a
      v4 ← arg 4 a
      some (record no_seat {
        outcome = as_num v0;
        reason = as_str v1;
        used = as_num v2;
        max = as_num v3;
        seat_id = as_str v4;
      }))
    else some no_seat

-- `decodeSeatResult`
unfoldable pub seat_result : Values → Option SeatResult
seat_result a = do
  r ← seat_base a
  if leb 8 (count a)
      then (do
        v6 ← arg 6 a
        v7 ← arg 7 a
        some (record r { evidence = as_str v6; composition_version = raw_u64 v7 }))
      else some r

pub record LifecycleResult : Type 0 where
  pub reason : Bytes
  pub invitation_id : Bytes
  pub seat_id : Bytes
  pub evidence : Bytes
  pub active : ℤ
  pub reserved : ℤ
  pub used : ℤ
  pub maximum : ℤ
  pub remaining : ℤ
  pub log_seq : ℕ
  pub composition_version : ℕ
  pub accepted : Bool

-- `decodeLifecycleResult`
unfoldable pub lifecycle_result : Values → Option LifecycleResult
lifecycle_result a =
    if ltb (count a) 12
    then some (record {
      reason = [];
      invitation_id = [];
      seat_id = [];
      evidence = [];
      active = pos 0;
      reserved = pos 0;
      used = pos 0;
      maximum = pos 0;
      remaining = pos 0;
      log_seq = 0;
      composition_version = 0;
      accepted = false;
    })
    else (do
      v0 ← arg 0 a
      v1 ← arg 1 a
      v2 ← arg 2 a
      v3 ← arg 3 a
      v4 ← arg 4 a
      v5 ← arg 5 a
      v6 ← arg 6 a
      v7 ← arg 7 a
      v8 ← arg 8 a
      v9 ← arg 9 a
      v10 ← arg 10 a
      v11 ← arg 11 a
      some (record {
        accepted = as_bool v0;
        reason = as_str v1;
        invitation_id = as_str v2;
        seat_id = as_str v3;
        active = as_num v4;
        reserved = as_num v5;
        used = as_num v6;
        maximum = as_num v7;
        remaining = as_num v8;
        log_seq = raw_u64 v9;
        evidence = as_str v10;
        composition_version = raw_u64 v11;
      }))

pub record AllowanceResult : Type 0 where
  pub reason : Bytes
  pub units_total : ℤ
  pub wallet_balance : ℤ
  pub accepted : Bool

-- `AllowanceGrant`
unfoldable pub allowance_result : Values → Option AllowanceResult
allowance_result a =
    if leb 4 (count a)
    then (do
      v0 ← arg 0 a
      v1 ← arg 1 a
      v2 ← arg 2 a
      v3 ← arg 3 a
      some (record {
        accepted = is_one v0;
        reason = as_str v1;
        units_total = as_num v2;
        wallet_balance = as_num v3;
      }))
    else some
        (record { reason = []; units_total = pos 0; wallet_balance = pos 0; accepted = false })

pub record WalletResult : Type 0 where
  pub reason : Bytes
  pub balance : ℤ
  pub accepted : Bool

-- `walletOp`
unfoldable pub wallet_result : Values → Option WalletResult
wallet_result a =
    if leb 3 (count a)
    then (do
      v0 ← arg 0 a
      v1 ← arg 1 a
      v2 ← arg 2 a
      some (record { accepted = is_one v0; reason = as_str v1; balance = as_num v2 }))
    else some (record { reason = []; balance = pos 0; accepted = false })
