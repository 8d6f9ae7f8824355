-- ===== src/V5/Handshake/Completes.antt =====
-- The two participants of ddht/v5/handshake.py.
use ddht.Session.Scheme.{
  DerivedKeys, compute_session_keys, ecdh_agree, hkdf_expand_and_extract, assign_keys, hkdf_info,
}
use ddht.V5.Handshake.{
  Packages, Initiator, Recipient, HandshakeResult, complete_initiator, complete_recipient,
  current_remote_enr, decrypt_and_validate_auth_response, decrypt_and_validate_message,
  create_id_nonce_signature, create_id_nonce_signature_input, validate_id_nonce_signature,
  known_sequence_number, as_failure,
}
use ddht.V5.Packets.{AuthHeaderPacket, auth_header, who_are_you}
use ddht.V5.Packets.Messages.{
  prepare_auth_header, decrypt_auth_response, decrypt_auth_header_message,
}
use ddht.V5.Packets.Secrets.{IsReadable, IsResponse, prepare_auth_header-decrypt}
use ddht.V5.Tags.{compute_tag, recover_source_id_from_tag, recover_source_id_from_tag-compute_tag}
use ddht.V5.Rlp.{bytes_item}
use ddht.Wire.Error.{ok}
use ddht.Prelude.{
  ℕ, ◌≡◌, refl, arith, true, false, Option, none, some, ◌++◌, ltb, length, take, drop,
  if◌then◌else◌, length-take, length-drop, ap, ◌∙◌, sym, ==_refl,
}
use ddht.Prelude.Bytes.{Bytes, bytes_eq}

module _ (packages : Packages) where
  open packages use {
    rlp, cipher, formats, crypto, to_uncompressed, node_id, public_key, sequence_number,
    has_valid_signature, has_v4_scheme,
  }
  open formats use {Enr, Message}

  -- what HKDF derives from the secret of two keys
  abbrev expanded : (ephemeral_key static_key initiator recipient salt : Bytes) → Bytes
  expanded e s initiator recipient salt =
      crypto.hkdf (crypto.multiply e (crypto.public_point s)) salt
        (hkdf_info ++ (initiator ++ recipient))

  abbrev derived : (ephemeral_key static_key initiator recipient salt : Bytes) → DerivedKeys
  derived e s initiator recipient salt =
      let key = expanded e s initiator recipient salt in
      record {
        initiator_key = take 16 key;
        recipient_key = take 16 (drop 16 key);
        auth_response_key = take 16 (drop 32 key);
      }

  ours-derived :
      (e s initiator recipient salt : Bytes)
      → compute_session_keys crypto e
          (to_uncompressed (crypto.public_point s))
          initiator
          recipient
          salt
          true
        ≡ ok (assign_keys crypto true (derived e s initiator recipient salt))
  unfolding compute_session_keys ecdh_agree hkdf_expand_and_extract
  ours-derived e s initiator recipient salt =
      rw
        (
          packages.length-to_uncompressed (crypto.public_point s),
          packages.from_uncompressed-to_uncompressed (crypto.public_point s),
          crypto.length-hkdf (crypto.multiply e (crypto.public_point s)) salt,
        )
        refl

  theirs-derived :
      (e s initiator recipient salt : Bytes)
      → compute_session_keys crypto s
          (to_uncompressed (crypto.public_point e))
          recipient
          initiator
          salt
          false
        ≡ ok (assign_keys crypto false (derived e s initiator recipient salt))
  unfolding compute_session_keys ecdh_agree hkdf_expand_and_extract
  theirs-derived e s initiator recipient salt =
      rw
        (
          packages.length-to_uncompressed (crypto.public_point e),
          packages.from_uncompressed-to_uncompressed (crypto.public_point e),
          crypto.length-hkdf (crypto.multiply s (crypto.public_point e)) salt,
          crypto.multiply_comm s e,
        )
        refl

  length-derived :
      (e s initiator recipient salt : Bytes)
      → (length (derived e s initiator recipient salt).initiator_key ≡ 16)
        × (length (derived e s initiator recipient salt).auth_response_key ≡ 16)
  length-derived e s initiator recipient salt =
      let key = expanded e s initiator recipient salt in
      let size =
        crypto.length-hkdf (crypto.multiply e (crypto.public_point s)) salt
          (hkdf_info ++ (initiator ++ recipient)) in
      (
        omega (arith, length-take 16 key, size),
        omega (arith, length-take 16 (drop 32 key), length-drop 32 key, size),
      )

  validate-create :
      (id_nonce ephemeral_public_key key : Bytes)
      → validate_id_nonce_signature packages id_nonce ephemeral_public_key
          (create_id_nonce_signature packages id_nonce ephemeral_public_key key)
          (crypto.to_compressed (crypto.public_point key))
        ≡ ok tt
  unfolding validate_id_nonce_signature create_id_nonce_signature
  validate-create id_nonce ephemeral_public_key key =
      rw
        (
          crypto.from_compressed-to_compressed (crypto.public_point key),
          crypto.verify-sign key
              (create_id_nonce_signature_input packages id_nonce ephemeral_public_key),
        )
        refl

  -- the record that is sent for a packet with a sequence number
  abbrev pub sent_enr : Initiator packages → ℕ → Option Enr
  sent_enr i number = if ltb number (sequence_number i.local_enr) then some i.local_enr else none

  -- Two participants who know each other: the recipient has the private key of the record that the
  -- initiator has of it, and has sent its packet to the initiator's request; it knows the id of the
  -- initiator and, if not its present record, an older one or none.
  pub record Meets (i : Initiator packages) (r : Recipient packages) (id_nonce : Bytes)
      : Type 0 where
    pub same_recipient : node_id i.remote_enr ≡ node_id r.local_enr
    pub same_initiator : node_id i.local_enr ≡ r.remote_node_id
    pub recipient_key :
        public_key i.remote_enr ≡ crypto.to_compressed (crypto.public_point r.local_private_key)
    pub initiator_key :
        public_key i.local_enr ≡ crypto.to_compressed (crypto.public_point i.local_private_key)
    pub signed : has_valid_signature i.local_enr ≡ true
    pub remote_scheme : has_v4_scheme i.remote_enr ≡ true
    pub local_scheme : has_v4_scheme r.local_enr ≡ true
    pub hash_fits : length (crypto.sha256 (node_id r.local_enr)) ≡ 32
    pub id_fits : length (node_id i.local_enr) ≡ 32
    pub answers : r.who_are_you_packet.token ≡ bytes_item i.initiating_packet.auth_tag
    pub nonce_sent : r.who_are_you_packet.id_nonce ≡ bytes_item id_nonce
    pub number_sent :
        r.who_are_you_packet.enr_sequence_number ≡ known_sequence_number packages r.remote_enr
    pub present_known :
        ltb (known_sequence_number packages r.remote_enr) (sequence_number i.local_enr) ≡ false
        → r.remote_enr ≡ some i.local_enr

  current-sent :
      (i : Initiator packages) (r : Recipient packages) (id_nonce : Bytes)
      → Meets i r id_nonce
      → current_remote_enr packages r (sent_enr i r.who_are_you_packet.enr_sequence_number)
        ≡ ok i.local_enr
  unfolding current_remote_enr
  current-sent i r id_nonce m = ground (
    arith,
    m.number_sent,
    m.signed,
    m.present_known,
    (bytes_eq.beq_iff (node_id i.local_enr) r.remote_node_id).1 m.same_initiator,
  )

  -- `prepare` keeps the tag and the key
  prepared-fields :
      (tag new_auth_tag id_nonce : Bytes) (m : Message)
      (initiator_key signature auth_response_key : Bytes) (enr : Option Enr)
      (ephemeral_public_key : Bytes) (p : AuthHeaderPacket)
      → prepare_auth_header rlp cipher formats tag new_auth_tag id_nonce m initiator_key signature
          auth_response_key enr ephemeral_public_key
        ≡ ok p
      → (p.tag ≡ tag) × (p.auth_header.ephemeral_public_key ≡ ephemeral_public_key)
  unfolding prepare_auth_header
  prepared-fields tag new_auth_tag id_nonce m initiator_key signature auth_response_key enr
        ephemeral_public_key p h =
      (ground (arith, h), ground (arith, h))

  response_validated :
      (i : Initiator packages) (r : Recipient packages) (id_nonce e : Bytes) (p : AuthHeaderPacket)
      (auth_response_key : Bytes)
      → Meets i r id_nonce
      → p.auth_header.ephemeral_public_key ≡ to_uncompressed (crypto.public_point e)
      → decrypt_auth_response rlp cipher formats p auth_response_key
        ≡ ok (
          create_id_nonce_signature packages id_nonce
              (to_uncompressed (crypto.public_point e))
              i.local_private_key,
          sent_enr i r.who_are_you_packet.enr_sequence_number,
        )
      → decrypt_and_validate_auth_response packages r p auth_response_key id_nonce
        ≡ ok (sent_enr i r.who_are_you_packet.enr_sequence_number)
  unfolding decrypt_and_validate_auth_response
  response_validated i r id_nonce e p auth_response_key m key response =
      let epk = to_uncompressed (crypto.public_point e) in
      let signature = create_id_nonce_signature packages id_nonce epk i.local_private_key in
      let valid : validate_id_nonce_signature packages id_nonce p.auth_header.ephemeral_public_key
            signature (public_key i.local_enr)
          ≡ ok tt =
        ap
          (λ (k : Bytes).
            validate_id_nonce_signature packages id_nonce k signature (public_key i.local_enr))
          key
        ∙ ap (λ (k : Bytes). validate_id_nonce_signature packages id_nonce epk signature k)
            m.initiator_key
        ∙ validate-create id_nonce epk i.local_private_key in
      ground (arith, response, current-sent i r id_nonce m, valid)

  -- What is left of the recipient's part, once the packet is known to be expected and its parts
  -- decrypt.
  recipient_completes :
      (i : Initiator packages) (r : Recipient packages) (id_nonce e : Bytes) (p : AuthHeaderPacket)
      → Meets i r id_nonce
      → let keys =
          derived e r.local_private_key (node_id i.local_enr) (node_id r.local_enr) id_nonce in
        let sent = sent_enr i r.who_are_you_packet.enr_sequence_number in
        let epk = to_uncompressed (crypto.public_point e) in
        (recover_source_id_from_tag crypto.sha256 p.tag (node_id r.local_enr)
          ≡ ok (node_id i.local_enr))
        → p.auth_header.ephemeral_public_key ≡ epk
        → decrypt_auth_response rlp cipher formats p keys.auth_response_key
          ≡ ok (create_id_nonce_signature packages id_nonce epk i.local_private_key, sent)
        → decrypt_auth_header_message rlp cipher formats p keys.initiator_key ≡ ok i.initial_message
        → complete_recipient packages r (auth_header p)
          ≡ ok (record {
            session_keys = assign_keys crypto false keys;
            enr = sent;
            message = some i.initial_message;
            auth_header_packet = none;
          })
  unfolding complete_recipient decrypt_and_validate_message
  recipient_completes i r id_nonce e p m source key response opened =
      let keys =
        derived e r.local_private_key (node_id i.local_enr) (node_id r.local_enr) id_nonce in
      let point : crypto.from_uncompressed p.auth_header.ephemeral_public_key
          ≡ some (crypto.public_point e) =
        ap crypto.from_uncompressed key
        ∙ packages.from_uncompressed-to_uncompressed (crypto.public_point e) in
      let computed : compute_session_keys crypto r.local_private_key
            p.auth_header.ephemeral_public_key (node_id r.local_enr) r.remote_node_id id_nonce false
          ≡ ok (assign_keys crypto false keys) =
        ap
          (λ (k : Bytes).
            compute_session_keys crypto r.local_private_key k (node_id r.local_enr) r.remote_node_id
              id_nonce false)
          key
        ∙ ap
            (λ (a : Bytes).
              compute_session_keys crypto r.local_private_key
                (to_uncompressed (crypto.public_point e)) (node_id r.local_enr) a id_nonce false)
            (sym m.same_initiator)
        ∙ theirs-derived e r.local_private_key (node_id i.local_enr) (node_id r.local_enr)
            id_nonce in
      let validated = response_validated i r id_nonce e p keys.auth_response_key m key response in
      let read : decrypt_and_validate_message packages p keys.initiator_key ≡ ok i.initial_message =
        ap as_failure opened in
      ground (
        arith,
        source,
        (bytes_eq.beq_iff (node_id i.local_enr) r.remote_node_id).1 m.same_initiator,
        point,
        computed,
        validated,
        read,
        m.nonce_sent,
        m.local_scheme,
      )

  initiator_completes :
      (i : Initiator packages) (r : Recipient packages) (id_nonce e new_auth_tag tag : Bytes)
      (p : AuthHeaderPacket)
      → Meets i r id_nonce
      → compute_tag crypto.sha256 (node_id i.local_enr) (node_id r.local_enr) ≡ ok tag
      → let keys =
          derived e r.local_private_key (node_id i.local_enr) (node_id r.local_enr) id_nonce in
        let epk = to_uncompressed (crypto.public_point e) in
        prepare_auth_header rlp cipher formats tag new_auth_tag id_nonce i.initial_message
            keys.initiator_key
            (create_id_nonce_signature packages id_nonce epk i.local_private_key)
            keys.auth_response_key
            (sent_enr i r.who_are_you_packet.enr_sequence_number)
            epk
          ≡ ok p
        → complete_initiator packages i (who_are_you r.who_are_you_packet) e new_auth_tag
          ≡ ok (record {
            session_keys = assign_keys crypto true keys;
            enr = none;
            message = none;
            auth_header_packet = some p;
          })
  unfolding complete_initiator
  initiator_completes i r id_nonce e new_auth_tag tag p m tagged prepared =
      let A = node_id i.local_enr in
      let keys = derived e r.local_private_key A (node_id r.local_enr) id_nonce in
      let point : crypto.from_compressed (public_key i.remote_enr)
          ≡ some (crypto.public_point r.local_private_key) =
        ap crypto.from_compressed m.recipient_key
        ∙ crypto.from_compressed-to_compressed (crypto.public_point r.local_private_key) in
      let computed : compute_session_keys crypto e
            (to_uncompressed (crypto.public_point r.local_private_key)) A (node_id i.remote_enr)
            id_nonce true
          ≡ ok (assign_keys crypto true keys) =
        ap
          (λ (b : Bytes).
            compute_session_keys crypto e
              (to_uncompressed (crypto.public_point r.local_private_key)) A b id_nonce true)
          m.same_recipient
        ∙ ours-derived e r.local_private_key A (node_id r.local_enr) id_nonce in
      let tagged_there : compute_tag crypto.sha256 A (node_id i.remote_enr) ≡ ok tag =
        ap (compute_tag crypto.sha256 A) m.same_recipient ∙ tagged in
      ground (
        arith,
        m.remote_scheme,
        m.answers,
        m.nonce_sent,
        ==_refl i.initiating_packet.auth_tag,
        point,
        computed,
        tagged_there,
        prepared,
      )

  -- Two participants who know each other, with records of the scheme V4, complete the handshake:
  -- the initiator accepts the recipient's WhoAreYou packet and answers with a packet, which the
  -- recipient accepts. The recipient gets the initial message, and the initiator's record if it
  -- had none or an older one; what the one encrypts with the other decrypts with.
  pub handshake_completes :
      (i : Initiator packages) (r : Recipient packages)
      (id_nonce ephemeral_key new_auth_tag : Bytes)
      → Meets i r id_nonce
      → length new_auth_tag ≡ 12
      → IsReadable rlp cipher formats i.initial_message
      → IsResponse rlp cipher formats
          (create_id_nonce_signature packages id_nonce
            (to_uncompressed (crypto.public_point ephemeral_key))
            i.local_private_key)
          (sent_enr i r.who_are_you_packet.enr_sequence_number)
      → (ours theirs : HandshakeResult packages) × (p : AuthHeaderPacket) × (complete_initiator
            packages i
            (who_are_you r.who_are_you_packet)
            ephemeral_key
            new_auth_tag
          ≡ ok ours)
        × (ours.auth_header_packet ≡ some p)
        × (complete_recipient packages r (auth_header p) ≡ ok theirs)
        × (theirs.message ≡ some i.initial_message)
        × (theirs.enr ≡ sent_enr i r.who_are_you_packet.enr_sequence_number)
        × (ours.session_keys.encryption_key ≡ theirs.session_keys.decryption_key)
        × (ours.session_keys.decryption_key ≡ theirs.session_keys.encryption_key)
  handshake_completes i r id_nonce e new_auth_tag m fits readable response =
      let A = node_id i.local_enr in
      let B = node_id r.local_enr in
      let keys = derived e r.local_private_key A B id_nonce in
      let epk = to_uncompressed (crypto.public_point e) in
      let signature = create_id_nonce_signature packages id_nonce epk i.local_private_key in
      let sent = sent_enr i r.who_are_you_packet.enr_sequence_number in
      let sizes = length-derived e r.local_private_key A B id_nonce in
      let (tag, tagged, tag_fits, recovered) =
        recover_source_id_from_tag-compute_tag crypto.sha256 A B m.hash_fits m.id_fits in
      let (p, q, prepared, responds, opens, tags, reads) =
        prepare_auth_header-decrypt rlp cipher formats tag new_auth_tag id_nonce i.initial_message
          keys.initiator_key signature keys.auth_response_key sent epk sizes.0 sizes.1 fits readable
          response in
      let (same_tag, same_key) =
        prepared-fields tag new_auth_tag id_nonce i.initial_message keys.initiator_key signature
          keys.auth_response_key sent epk p prepared in
      let source : recover_source_id_from_tag crypto.sha256 p.tag B ≡ ok A =
        ap (λ (t : Bytes). recover_source_id_from_tag crypto.sha256 t B) same_tag ∙ recovered in
      (
        record {
          session_keys = assign_keys crypto true keys;
          enr = none;
          message = none;
          auth_header_packet = some p;
        },
        record {
          session_keys = assign_keys crypto false keys;
          enr = sent;
          message = some i.initial_message;
          auth_header_packet = none;
        },
        p,
        initiator_completes i r id_nonce e new_auth_tag tag p m tagged prepared,
        refl,
        recipient_completes i r id_nonce e p m source same_key responds opens,
        refl,
        refl,
        refl,
        refl,
      )
