-- ===== src/Bridge/Transport/Tests.antt =====
-- The theorems on the transport at one endpoint with one public address.
use lotor_go.Common.{
  ℕ, ◌≤◌, ◌≡◌, refl, true, false, Option, none, some, List, [], ◌∷◌, ◌++◌, length, All, ◌==◌,
}
use lotor_go.Common.Bytes.{Bytes, ascii, bytes_eq}
use lotor_go.Common.Results.{ok}
use lotor_go.Common.Text.{
  has_prefix, has_suffix, contains_text, trim_suffix, split_at, add_to_first,
}
use lotor_go.Bridge.Platform.{SignedMessage}
use lotor_go.Bridge.Transport.{
  Netip, Endpoint, Library, public_address, literal_allowed, local_host, is_dots, plain_host,
  valid_port, trim_slashes, operation_known, validate_endpoint,
}
use lotor_go.Bridge.Transport.Dial.{public_dialer, IsPublicEnd, public_dialer_sound}
use lotor_go.Bridge.Transport.Send.{
  HttpReply, request_of, reply_of, posted, json_type, complete, operation_url, IsRequest, IsReply,
  send, send_sound,
}

-- Address 8 is public.
abbrev netip : Netip ℕ
netip = record {
  parse_addr = λ s. none;
  text = λ a. ascii "8.8.8.8";
  unmap = λ a. a;
  is_valid = λ a. true;
  is_global_unicast = λ a. a == 8;
  is_private = λ a. false;
  is_loopback = λ a. false;
  is_link_local_unicast = λ a. false;
  in_prefix = λ p a. false;
}

abbrev target : Endpoint
target = record {
  scheme = ascii "https";
  host = ascii "f.example";
  hostname = ascii "f.example";
  port = [];
  path = ascii "/fn";
  raw_path = [];
  opaque = [];
  raw_query = [];
  fragment = [];
  has_user = false;
  force_query = false;
}

abbrev message : SignedMessage
message = record { key_id = ascii "k1"; payload = ascii "p"; signature = ascii "s" }

abbrev library : Library
library = record {
  trim_space = λ s. s;
  to_lower = λ s. s;
  parse_url = λ s. some target;
  url_text = λ u. ascii "https://f.example" ++ u.path;
  atoi = λ s. none;
  split_host_port = λ s. some (ascii "f.example", ascii "443");
  join_host_port = λ h p. h ++ (ascii ":" ++ p);
  marshal_message = λ m. some (ascii "{}");
  valid_request = λ u. true;
  media_type = λ s. some s;
  decode_message = λ s. some (message, []);
  at_end = λ s. true;
}

abbrev reply : HttpReply
reply = record {
  status = 200;
  content_type = ascii "application/json";
  content_encoding = [];
  body = some (ascii "{}");
}

abbrev network : Bytes → Bytes → Option HttpReply
network url body = some reply

abbrev resolve : Bytes → Option (List ℕ)
resolve host = some (8 ∷ 8 ∷ [])

abbrev dial : Bytes → Option ℕ
dial address = some 1

public_dialer_sound_example :
    (length (public_dialer netip library resolve dial (ascii "tcp") (ascii "f.example:443")).1 ≤ 16)
    × All
        (λ a. public_address netip a ≡ true)
        (public_dialer netip library resolve dial (ascii "tcp") (ascii "f.example:443")).1
    × IsPublicEnd netip library dial
        (public_dialer netip library resolve dial (ascii "tcp") (ascii "f.example:443")).0
public_dialer_sound_example =
    public_dialer_sound netip library dial resolve (ascii "tcp") (ascii "f.example:443")

sends :
    (send netip library network (ascii "https://f.example/fn") (ascii "invoke") message).0
    ≡ ok message
unfolding send posted request_of reply_of operation_url json_type complete validate_endpoint
    valid_port local_host is_dots plain_host literal_allowed operation_known trim_slashes has_prefix
    has_suffix contains_text trim_suffix split_at add_to_first bytes_eq
sends = refl

send_sound_example :
    (q : Bytes × Bytes) × (r : HttpReply) × IsRequest netip library
      (ascii "https://f.example/fn")
      (ascii "invoke")
      message
      q
    × ((send netip library network (ascii "https://f.example/fn") (ascii "invoke") message).1
        ≡ q ∷ [])
    × (network q.0 q.1 ≡ some r)
    × IsReply netip library r message
send_sound_example =
    send_sound netip library network (ascii "https://f.example/fn") (ascii "invoke") message message
      sends
