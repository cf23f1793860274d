-- ===== src/Client/SubjectKeys.antt =====
-- lotor/key_access.go: the public keys of a subject, as arguments of requests and as results.
use lotor_go.Common.{Option, some, ℕ, not, ltb, Bool, false, List, [], ◌∷◌, if◌then◌else◌}
use lotor_go.Common.Bytes.{Bytes, ascii, bytes_eq}
use lotor_go.Wire.Values.{
  Value, null, u64, str, addr, bytes, list, map, Values, nil, cons, Entries, end, entry, count,
}
use lotor_go.Common.Options.{◌>>=◌}
use lotor_go.Client.{as_str, as_bool, raw_u64, arg}

-- `[]value{…}`
abbrev pub values : List Value → Values
values [] = nil
values (v ∷ vs) = cons v (values vs)

-- `item.Map[key]`, with the zero value for a missing key.
abbrev pub field : Bytes → Entries → Value
field k end = null
field k (entry j v m) = if bytes_eq j k then v else field k m

-- The field `Bytes`, which only that kind sets.
abbrev pub raw_bytes : Value → Bytes
raw_bytes (bytes b) = b
raw_bytes _ = []

pub record SubjectKeyRegistration : Type 0 where
  pub actor : Bytes
  pub subject : Bytes
  pub key_id : Bytes
  pub device_id : Bytes
  pub generation : ℕ
  pub custody_mode : Bytes
  pub custody_status : Bytes
  pub transferability : Bytes
  pub key_revision : ℕ
  pub encryption_algorithm : Bytes
  pub encryption_public_key : Bytes
  pub signing_algorithm : Bytes
  pub signing_public_key : Bytes
  pub encrypted_private_key_backup : Bytes
  pub backup_kdf : Bytes
  pub backup_salt : Bytes
  pub backup_nonce : Bytes
  pub proof : Bytes
  pub backup_format_version : ℕ

pub record SubjectKeyMutation : Type 0 where
  pub reason : Bytes
  pub key_id : Bytes
  pub log_seq : ℕ
  pub accepted : Bool

pub record SubjectKey : Type 0 where
  pub key_id : Bytes
  pub device_id : Bytes
  pub encryption_algorithm : Bytes
  pub signing_algorithm : Bytes
  pub backup_kdf : Bytes
  pub status : Bytes
  pub custody_mode : Bytes
  pub custody_status : Bytes
  pub transferability : Bytes
  pub encryption_public_key : Bytes
  pub signing_public_key : Bytes
  pub encrypted_private_key_backup : Bytes
  pub backup_salt : Bytes
  pub backup_nonce : Bytes
  pub backup_format_version : ℕ
  pub generation : ℕ
  pub key_revision : ℕ
  pub log_seq : ℕ

-- `SubjectKeyRegister`
pub subject_key_register : SubjectKeyRegistration → Values
subject_key_register input = values (
    addr input.actor
    ∷ addr input.subject
    ∷ str input.key_id
    ∷ str input.device_id
    ∷ str input.encryption_algorithm
    ∷ bytes input.encryption_public_key
    ∷ str input.signing_algorithm
    ∷ bytes input.signing_public_key
    ∷ bytes input.encrypted_private_key_backup
    ∷ str input.backup_kdf
    ∷ bytes input.backup_salt
    ∷ bytes input.backup_nonce
    ∷ u64 input.backup_format_version
    ∷ bytes input.proof
    ∷ u64 input.generation
    ∷ str input.custody_mode
    ∷ str input.custody_status
    ∷ str input.transferability
    ∷ u64 input.key_revision
    ∷ [])

-- `SubjectKeyRevoke`
pub subject_key_revoke : (actor subject key_id : Bytes) → Values
subject_key_revoke actor subject key_id = values (addr actor ∷ addr subject ∷ str key_id ∷ [])

-- `values[i]` where `len(values) > i`, and the zero value where it is not.
unfoldable pub read_at {ℓ} : {A : Type ℓ} → ℕ → A → (Value → A) → Values → Option A
read_at i zero_value read a =
    if ltb i (count a) then (do v ← arg i a; some (read v)) else some zero_value

-- `decodeSubjectKeyMutation`
unfoldable pub decode_subject_key_mutation : Values → Option SubjectKeyMutation
unfolding read_at
decode_subject_key_mutation a = do
  accepted ← read_at 0 false as_bool a
  reason ← read_at 1 [] as_str a
  key_id ← read_at 2 [] as_str a
  log_seq ← read_at 3 0 raw_u64 a
  some (record { accepted = accepted; reason = reason; key_id = key_id; log_seq = log_seq })

-- One item of `SubjectKeyList`.
subject_key : Entries → SubjectKey
subject_key m = record {
  key_id = as_str (field (ascii "key_id") m);
  device_id = as_str (field (ascii "device_id") m);
  generation = raw_u64 (field (ascii "generation") m);
  custody_mode = as_str (field (ascii "custody_mode") m);
  custody_status = as_str (field (ascii "custody_status") m);
  transferability = as_str (field (ascii "transferability") m);
  key_revision = raw_u64 (field (ascii "key_revision") m);
  encryption_algorithm = as_str (field (ascii "encryption_algorithm") m);
  encryption_public_key = raw_bytes (field (ascii "encryption_public_key") m);
  signing_algorithm = as_str (field (ascii "signing_algorithm") m);
  signing_public_key = raw_bytes (field (ascii "signing_public_key") m);
  encrypted_private_key_backup = raw_bytes (field (ascii "encrypted_private_key_backup") m);
  backup_kdf = as_str (field (ascii "backup_kdf") m);
  backup_salt = raw_bytes (field (ascii "backup_salt") m);
  backup_nonce = raw_bytes (field (ascii "backup_nonce") m);
  backup_format_version = raw_u64 (field (ascii "backup_format_version") m);
  status = as_str (field (ascii "status") m);
  log_seq = raw_u64 (field (ascii "log_seq") m);
}

-- The items that are maps.
subject_keys : Values → List SubjectKey
unfolding subject_key
subject_keys nil = []
subject_keys (cons (map m) vs) = subject_key m ∷ subject_keys vs
subject_keys (cons _ vs) = subject_keys vs

listed : Value → List SubjectKey
unfolding subject_keys
listed (list vs) = subject_keys vs
listed _ = []

-- `len(values) < 3 || !values[0].asBool()` and, if not, `values[2]`.
unfoldable pub third : {A : Type 0} → A → (Value → A) → Values → Option A
third nothing read a = if ltb (count a) 3 then some nothing else (do
  v0 ← arg 0 a
  if not (as_bool v0) then some nothing else (do v2 ← arg 2 a; some (read v2)))

-- The result of `SubjectKeyList`.
unfoldable pub subject_key_list : Values → Option (List SubjectKey)
unfolding listed third
subject_key_list a = third [] listed a
