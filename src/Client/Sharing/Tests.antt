-- ===== src/Client/Sharing/Tests.antt =====
-- A member list and its reading, and the theorem on replies at a concrete one.
use lotor_go.Common.{some, ◌≡◌, refl, ◌⊎◌, Bool, true, false, none, [], ◌∷◌}
use lotor_go.Common.Bytes.{ascii, bytes_eq}
use lotor_go.Wire.Values.{Value, bool, u64, str, bytes, list, map, Values, nil, cons, end, entry}
use lotor_go.Client.{arg}
use lotor_go.Client.Total.{Reads}
use lotor_go.Client.SubjectKeys.{
  SubjectKeyMutation, third, decode_subject_key_mutation, subject_key_list,
}
use lotor_go.Client.Sharing.{
  ResourceMember, ResourceGrantMutation, created_version, activated_version,
  decode_resource_grant_mutation, resource_envelope_get_self, resource_member_list,
  resource_members, resource_member, listed,
}
use lotor_go.Client.Sharing.Refused.{accepts, replies_decide}

abbrev member : Value
member = map (
    entry (ascii "grant_id") (str (ascii "g1"))
      (entry (ascii "key_version") (u64 7) (entry (ascii "status") (bytes (ascii "active")) end)))

abbrev members : Bool → Values
members accepted =
    cons (bool accepted)
      (cons (str (ascii "ok")) (cons (list (cons (str (ascii "?")) (cons member nil))) nil))

abbrev the_member : ResourceMember
the_member = record {
  grant_id = ascii "g1";
  subject = [];
  relation = [];
  resource = [];
  key_resource = [];
  recipient_key_id = [];
  invitation_id = [];
  status = [];
  recipient_key_status = [];
  recipient_encryption_algorithm = [];
  recipient_signing_algorithm = [];
  recipient_encryption_public_key = [];
  recipient_signing_public_key = [];
  key_version = 7;
  log_seq = 0;
}

-- An item that is no map is passed over, and a field of another kind is empty.
reads_member : resource_member_list (members true) ≡ some (the_member ∷ [])
unfolding resource_member_list third arg listed resource_members resource_member bytes_eq
reads_member = refl

abbrev refused : Values
refused = members false

replies_decide_example :
    ((r : SubjectKeyMutation) × (decode_subject_key_mutation refused ≡ some r)
      × (r.accepted ≡ accepts refused))
    × ((r : SubjectKeyMutation) × (created_version refused ≡ some r)
        × (r.accepted ≡ accepts refused))
    × ((r : SubjectKeyMutation) × (activated_version refused ≡ some r)
        × (r.accepted ≡ accepts refused))
    × ((r : ResourceGrantMutation) × (decode_resource_grant_mutation refused ≡ some r)
        × (r.accepted ≡ accepts refused))
    × Reads (subject_key_list refused)
    × Reads (resource_envelope_get_self refused)
    × Reads (resource_member_list refused)
    × ((accepts refused ≡ true)
        ⊎ ((subject_key_list refused ≡ some [])
            × (resource_envelope_get_self refused ≡ some none)
            × (resource_member_list refused ≡ some [])))
replies_decide_example = replies_decide refused
