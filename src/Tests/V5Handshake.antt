-- ===== src/Tests/V5Handshake.antt =====
-- ddht/v5/handshake.py with an initiator whose record the recipient does not have.
use ddht.Session.Scheme.{Crypto}
use ddht.Tests.ShortRlp.{short_rlp}
use ddht.Tests.V5Secrets.{formats, auth_tag}
use ddht.Tests.Wire.{clear}
use ddht.V5.Handshake.{
  Packages, Initiator, Recipient, HandshakeResult, complete_initiator, complete_recipient,
  create_id_nonce_signature, create_id_nonce_signature_input,
}
use ddht.V5.Handshake.Completes.{Meets, handshake_completes}
use ddht.V5.Handshake.Accepts.{IsAuthentic, recipient_accepts-IsAuthentic}
use ddht.V5.Packets.{AuthHeaderPacket, auth_header, who_are_you}
use ddht.V5.Packets.Secrets.{IsReadable, IsResponse}
use ddht.V5.Rlp.{bytes_item}
use ddht.Wire.Error.{ok}
use ddht.Prelude.{◌≡◌, refl, arith, true, none, some, [], ◌∷◌, ◌++◌, ◌==◌, replicate, take, drop}
use ddht.Prelude.Tests.{==_refl}
use ddht.Prelude.Bytes.{Bytes, bytes_eq, from_bytes}

abbrev crypto : Crypto
crypto = record {
  Point = Unit;
  public_point = λ key. tt;
  to_compressed = λ point. replicate 33 0;
  from_compressed = λ encoded. some tt;
  from_uncompressed = λ encoded. some tt;
  multiply = λ key point. [];
  hkdf = λ secret salt info. replicate 48 7;
  sha256 = λ data_bytes. replicate 32 1;
  sign = λ key hash. hash;
  verify = λ point signature hash. signature == hash;
  multiply_comm = λ a b. refl;
  length-to_compressed = λ point. refl;
  from_compressed-to_compressed = λ point. refl;
  length-hkdf = λ secret salt info. refl;
  verify-sign = λ key hash. ==_refl hash;
}

abbrev pub packages : Packages
packages = record {
  rlp = short_rlp;
  cipher = clear;
  formats = formats;
  crypto = crypto;
  to_uncompressed = λ point. replicate 64 0;
  node_id = λ enr. enr ++ replicate 31 0;
  public_key = λ enr. replicate 33 0;
  sequence_number = λ enr. 1;
  has_valid_signature = λ enr. true;
  has_v4_scheme = λ enr. true;
  length-to_uncompressed = λ point. refl;
  from_uncompressed-to_uncompressed = λ point. refl;
}

abbrev initiator : Initiator packages
initiator = record {
  local_private_key = 3 ∷ [];
  local_enr = 1 ∷ [];
  remote_enr = 2 ∷ [];
  initial_message = 8 ∷ 9 ∷ [];
  initiating_packet = record { tag = []; auth_tag = auth_tag; encrypted_message = [] };
}

abbrev recipient : Recipient packages
recipient = record {
  local_private_key = 4 ∷ [];
  local_enr = 2 ∷ [];
  remote_node_id = 1 ∷ replicate 31 0;
  remote_enr = none;
  who_are_you_packet = record {
    magic = [];
    token = bytes_item auth_tag;
    id_nonce = bytes_item (6 ∷ []);
    enr_sequence_number = 0;
  };
}

participants-Meets : Meets packages initiator recipient (6 ∷ [])
participants-Meets = record {
  same_recipient = refl;
  same_initiator = refl;
  recipient_key = refl;
  initiator_key = refl;
  signed = refl;
  remote_scheme = refl;
  local_scheme = refl;
  hash_fits = refl;
  id_fits = refl;
  answers = refl;
  nonce_sent = refl;
  number_sent = refl;
  present_known = λ h. cc;
}

initial_message-IsReadable : IsReadable short_rlp clear formats (8 ∷ 9 ∷ [])
initial_message-IsReadable = record {
  message_type = 1;
  encoded = 8 ∷ 9 ∷ [];
  bytes = refl;
  registered = refl;
  read_back = refl;
}

abbrev signature : Bytes
signature = create_id_nonce_signature packages (6 ∷ []) (replicate 64 0) (3 ∷ [])

signature-IsResponse : IsResponse short_rlp clear formats signature (some (1 ∷ []))
unfolding take drop create_id_nonce_signature create_id_nonce_signature_input
signature-IsResponse = record {
  version_read_back = unfold from_bytes in refl;
  read_back = refl;
  enr_read_back = (omega arith, refl);
}

handshake_completes_example :
    (ours theirs : HandshakeResult packages) × (p : AuthHeaderPacket) × (complete_initiator packages
        initiator
        (who_are_you recipient.who_are_you_packet)
        (5 ∷ [])
        auth_tag
      ≡ ok ours)
    × (ours.auth_header_packet ≡ some p)
    × (complete_recipient packages recipient (auth_header p) ≡ ok theirs)
    × (theirs.message ≡ some (8 ∷ 9 ∷ []))
    × (theirs.enr ≡ some (1 ∷ []))
    × (ours.session_keys.encryption_key ≡ theirs.session_keys.decryption_key)
    × (ours.session_keys.decryption_key ≡ theirs.session_keys.encryption_key)
handshake_completes_example =
    handshake_completes packages initiator recipient (6 ∷ []) (5 ∷ []) auth_tag participants-Meets
      refl initial_message-IsReadable signature-IsResponse

-- what the two make of each other's packets
abbrev completed :
    (ours theirs : HandshakeResult packages) × (p : AuthHeaderPacket) × (complete_initiator packages
        initiator
        (who_are_you recipient.who_are_you_packet)
        (5 ∷ [])
        auth_tag
      ≡ ok ours)
    × (ours.auth_header_packet ≡ some p)
    × (complete_recipient packages recipient (auth_header p) ≡ ok theirs)
    × (theirs.message ≡ some (8 ∷ 9 ∷ []))
    × (theirs.enr ≡ some (1 ∷ []))
    × (ours.session_keys.encryption_key ≡ theirs.session_keys.decryption_key)
    × (ours.session_keys.decryption_key ≡ theirs.session_keys.encryption_key)
completed =
    handshake_completes packages initiator recipient (6 ∷ []) (5 ∷ []) auth_tag participants-Meets
      refl initial_message-IsReadable signature-IsResponse

recipient_accepts-IsAuthentic_example : IsAuthentic packages recipient completed.2 completed.1
recipient_accepts-IsAuthentic_example =
    recipient_accepts-IsAuthentic packages recipient completed.2 completed.1 completed.5
