-- ===== src/Client/Sharing.antt =====
-- lotor/key_access.go: grants, envelopes and members of a resource, as arguments and as results.
pub mod Refused
mod Tests
use lotor_go.Common.{
  ℕ, zero, suc, not, ◌||◌, ltb, Bool, true, false, Option, none, some, List, [], ◌∷◌, if◌then◌else◌,
}
use lotor_go.Common.Bytes.{Bytes, ascii, bytes_eq}
use lotor_go.Wire.Values.{
  Value, null, bool, u64, i64, str, addr, bytes, list, map, Values, nil, cons, Entries, end, entry,
  count,
}
use lotor_go.Common.Options.{◌>>=◌}
use lotor_go.Client.{as_str, as_bool, raw_u64, arg}
use lotor_go.Client.SubjectKeys.{
  values, field, raw_bytes, SubjectKeyMutation, decode_subject_key_mutation, read_at, third,
}

pub record ResourceKeyVersionInput : Type 0 where
  pub scope : Bytes
  pub actor : Bytes
  pub key_resource : Bytes
  pub algorithm : Bytes
  pub custody_handle : Bytes
  pub manifest_hash : Bytes
  pub version : ℕ
  pub graph_revision : ℕ
  pub identity_revision : ℕ
  pub key_revision : ℕ
  pub policy_revision : ℕ
  pub custody_revision : ℕ
  pub expected_envelopes : ℕ

pub record ResourceGrantInput : Type 0 where
  pub actor : Bytes
  pub grant_id : Bytes
  pub scope : Bytes
  pub resource : Bytes
  pub subject : Bytes
  pub relation : Bytes
  pub key_resource : Bytes
  pub recipient_key_id : Bytes
  pub invitation_id : Bytes
  pub key_version : ℕ

pub record ResourceEnvelopeInput : Type 0 where
  pub client_id : Bytes
  pub scope : Bytes
  pub actor : Bytes
  pub grant_id : Bytes
  pub key_resource : Bytes
  pub recipient_subject : Bytes
  pub recipient_key_id : Bytes
  pub encryption_suite : Bytes
  pub issuer : Bytes
  pub issuer_key_id : Bytes
  pub ciphertext : Bytes
  pub aad_hash : Bytes
  pub signature : Bytes
  pub key_version : ℕ

pub record ResourceGrantMutation : Type 0 where
  pub reason : Bytes
  pub grant_id : Bytes
  pub status : Bytes
  pub log_seq : ℕ
  pub accepted : Bool

pub record ResourceMember : Type 0 where
  pub grant_id : Bytes
  pub subject : Bytes
  pub relation : Bytes
  pub resource : Bytes
  pub key_resource : Bytes
  pub recipient_key_id : Bytes
  pub invitation_id : Bytes
  pub status : Bytes
  pub recipient_key_status : Bytes
  pub recipient_encryption_algorithm : Bytes
  pub recipient_signing_algorithm : Bytes
  pub recipient_encryption_public_key : Bytes
  pub recipient_signing_public_key : Bytes
  pub key_version : ℕ
  pub log_seq : ℕ

pub record ResourceEnvelope : Type 0 where
  pub grant_id : Bytes
  pub key_resource : Bytes
  pub recipient_key_id : Bytes
  pub encryption_suite : Bytes
  pub issuer : Bytes
  pub issuer_key_id : Bytes
  pub issuer_signing_algorithm : Bytes
  pub issuer_key_status : Bytes
  pub scope : Bytes
  pub resource : Bytes
  pub recipient_subject : Bytes
  pub relation : Bytes
  pub ciphertext : Bytes
  pub aad_hash : Bytes
  pub signature : Bytes
  pub issuer_signing_public_key : Bytes
  pub key_version : ℕ
  pub log_seq : ℕ

-- `ResourceKeyVersionCreate`
pub resource_key_version_create : ResourceKeyVersionInput → Values
resource_key_version_create input = values (
    addr input.scope
    ∷ addr input.actor
    ∷ addr input.key_resource
    ∷ u64 input.version
    ∷ str input.algorithm
    ∷ str input.custody_handle
    ∷ str input.manifest_hash
    ∷ u64 input.graph_revision
    ∷ u64 input.identity_revision
    ∷ u64 input.key_revision
    ∷ u64 input.policy_revision
    ∷ u64 input.custody_revision
    ∷ u64 input.expected_envelopes
    ∷ [])

-- `ResourceGrantPrepare`
pub resource_grant_prepare : ResourceGrantInput → Values
resource_grant_prepare input = values (
    addr input.actor
    ∷ str input.grant_id
    ∷ addr input.scope
    ∷ addr input.resource
    ∷ addr input.subject
    ∷ str input.relation
    ∷ addr input.key_resource
    ∷ u64 input.key_version
    ∷ str input.recipient_key_id
    ∷ str input.invitation_id
    ∷ [])

-- `ResourceEnvelopeSubmit`
pub resource_envelope_submit : ResourceEnvelopeInput → Values
resource_envelope_submit input = values (
    addr input.scope
    ∷ addr input.actor
    ∷ str input.grant_id
    ∷ addr input.key_resource
    ∷ u64 input.key_version
    ∷ addr input.recipient_subject
    ∷ str input.recipient_key_id
    ∷ str input.encryption_suite
    ∷ bytes input.ciphertext
    ∷ bytes input.aad_hash
    ∷ addr input.issuer
    ∷ str input.issuer_key_id
    ∷ bytes input.signature
    ∷ str input.client_id
    ∷ [])

-- `ResourceKeyVersionActivate`
pub resource_key_version_activate : (scope actor key_resource : Bytes) → ℕ → Bytes → Values
resource_key_version_activate scope actor key_resource version manifest_hash =
    values (addr scope ∷ addr actor ∷ addr key_resource ∷ u64 version ∷ str manifest_hash ∷ [])

-- `ResourceGrantRevoke`
pub resource_grant_revoke : (scope actor grant_id : Bytes) → Values
resource_grant_revoke scope actor grant_id = values (addr scope ∷ addr actor ∷ str grant_id ∷ [])

-- The result of `ResourceKeyVersionCreate`, whose sequence number is the fifth value.
unfoldable pub created_version : Values → Option SubjectKeyMutation
created_version a = do
  accepted ← read_at 0 false as_bool a
  reason ← read_at 1 [] as_str a
  key_id ← read_at 2 [] as_str a
  log_seq ← read_at 4 0 raw_u64 a
  some (record { accepted = accepted; reason = reason; key_id = key_id; log_seq = log_seq })

-- The result of `ResourceKeyVersionActivate`: the fifth value in place of the fourth, if there is one.
unfoldable pub activated_version : Values → Option SubjectKeyMutation
activated_version a = do
  r ← decode_subject_key_mutation a
  log_seq ← read_at 4 r.log_seq raw_u64 a
  some (record r { log_seq = log_seq })

-- `decodeResourceGrantMutation`
unfoldable pub decode_resource_grant_mutation : Values → Option ResourceGrantMutation
decode_resource_grant_mutation a = do
  accepted ← read_at 0 false as_bool a
  reason ← read_at 1 [] as_str a
  grant_id ← read_at 2 [] as_str a
  status ← read_at 3 [] as_str a
  log_seq ← read_at 4 0 raw_u64 a
  some (record {
    accepted = accepted;
    reason = reason;
    grant_id = grant_id;
    status = status;
    log_seq = log_seq;
  })

-- The map of `ResourceEnvelopeGetSelf`.
resource_envelope : Entries → ResourceEnvelope
resource_envelope m = record {
  grant_id = as_str (field (ascii "grant_id") m);
  key_resource = as_str (field (ascii "key_resource") m);
  key_version = raw_u64 (field (ascii "key_version") m);
  recipient_key_id = as_str (field (ascii "recipient_key_id") m);
  encryption_suite = as_str (field (ascii "encryption_suite") m);
  ciphertext = raw_bytes (field (ascii "ciphertext") m);
  aad_hash = raw_bytes (field (ascii "aad_hash") m);
  issuer = as_str (field (ascii "issuer") m);
  issuer_key_id = as_str (field (ascii "issuer_key_id") m);
  issuer_signing_algorithm = as_str (field (ascii "issuer_signing_algorithm") m);
  issuer_signing_public_key = raw_bytes (field (ascii "issuer_signing_public_key") m);
  issuer_key_status = as_str (field (ascii "issuer_key_status") m);
  signature = raw_bytes (field (ascii "signature") m);
  log_seq = raw_u64 (field (ascii "log_seq") m);
  scope = as_str (field (ascii "scope") m);
  resource = as_str (field (ascii "resource") m);
  recipient_subject = as_str (field (ascii "recipient_subject") m);
  relation = as_str (field (ascii "relation") m);
}

envelope_of : Value → Option ResourceEnvelope
unfolding resource_envelope
envelope_of (map m) = some (resource_envelope m)
envelope_of _ = none

-- The result of `ResourceEnvelopeGetSelf`: no envelope where its flag is false.
unfoldable pub resource_envelope_get_self : Values → Option (Option ResourceEnvelope)
unfolding envelope_of
resource_envelope_get_self a = third none envelope_of a

-- One item of `ResourceMemberList`.
resource_member : Entries → ResourceMember
resource_member m = record {
  grant_id = as_str (field (ascii "grant_id") m);
  subject = as_str (field (ascii "subject") m);
  relation = as_str (field (ascii "relation") m);
  resource = as_str (field (ascii "resource") m);
  key_resource = as_str (field (ascii "key_resource") m);
  key_version = raw_u64 (field (ascii "key_version") m);
  recipient_key_id = as_str (field (ascii "recipient_key_id") m);
  invitation_id = as_str (field (ascii "invitation_id") m);
  status = as_str (field (ascii "status") m);
  log_seq = raw_u64 (field (ascii "log_seq") m);
  recipient_key_status = as_str (field (ascii "recipient_key_status") m);
  recipient_encryption_algorithm = as_str (field (ascii "recipient_encryption_algorithm") m);
  recipient_encryption_public_key = raw_bytes (field (ascii "recipient_encryption_public_key") m);
  recipient_signing_algorithm = as_str (field (ascii "recipient_signing_algorithm") m);
  recipient_signing_public_key = raw_bytes (field (ascii "recipient_signing_public_key") m);
}

resource_members : Values → List ResourceMember
unfolding resource_member
resource_members nil = []
resource_members (cons (map m) vs) = resource_member m ∷ resource_members vs
resource_members (cons _ vs) = resource_members vs

listed : Value → List ResourceMember
unfolding resource_members
listed (list vs) = resource_members vs
listed _ = []

-- The result of `ResourceMemberList`.
unfoldable pub resource_member_list : Values → Option (List ResourceMember)
unfolding listed
resource_member_list a = third [] listed a
