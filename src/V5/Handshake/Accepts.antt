-- ===== src/V5/Handshake/Accepts.antt =====
-- What holds of a packet that the recipient of ddht/v5/handshake.py accepts.
use mathlib.Core.Path.{subst}
use ddht.Session.Scheme.{compute_session_keys}
use ddht.V5.Handshake.{
  Packages, Recipient, HandshakeResult, complete_recipient, current_remote_enr,
  decrypt_and_validate_auth_response, expected_auth_header, create_id_nonce_signature_input,
  validate_id_nonce_signature, as_failure, as_bytes, valid_point, handshake_scheme,
  decrypt_and_validate_message,
}
use ddht.V5.Packets.{AuthHeaderPacket, auth_header}
use ddht.V5.Packets.Messages.{decrypt_auth_response}
use ddht.V5.Tags.{recover_source_id_from_tag}
use ddht.V5.Rlp.{Item, bytes_item, list_item}
use ddht.Wire.Error.{Result, ok, raise, bind-ok, ok_inj}
use ddht.Prelude.{
  ◌≡◌, ◌<◌, arith, true, false, Option, none, some, Option-cases, ap, inl, sym, inr, ◌∙◌,
}
use ddht.Prelude.Bytes.{Bytes, bytes_eq}

as_failure-ok {ℓ} : {A : Type ℓ} (m : Result A) (a : A) → as_failure m ≡ ok a → m ≡ ok a
as_failure-ok (ok b) a h = h
as_failure-ok (raise e) a h = ground (arith, h)

as_bytes-ok : (x : Item) (bs : Bytes) → as_bytes x ≡ ok bs → x ≡ bytes_item bs
as_bytes-ok (bytes_item cs) bs h = ap bytes_item (ok_inj h)
as_bytes-ok (list_item xs) bs h = ground (arith, h)

module _ (packages : Packages) where
  open packages use {
    rlp, cipher, formats, crypto, to_uncompressed, node_id, public_key, sequence_number,
    has_valid_signature,
  }
  open formats use {Enr, Message}

  -- the signature is one of the id nonce and the ephemeral key, under the key of the record
  pub record IsSignedBy (enr : Enr) (signature id_nonce ephemeral_public_key : Bytes) : Type 0 where
    pub point : crypto.Point
    pub key_read : crypto.from_compressed (public_key enr) ≡ some point
    pub verified :
        crypto.verify point signature
          (create_id_nonce_signature_input packages id_nonce ephemeral_public_key)
        ≡ true

  validate-IsSignedBy :
      (id_nonce ephemeral_public_key signature : Bytes) (enr : Enr)
      → validate_id_nonce_signature packages id_nonce ephemeral_public_key signature
          (public_key enr)
        ≡ ok tt
      → IsSignedBy enr signature id_nonce ephemeral_public_key
  unfolding validate_id_nonce_signature
  validate-IsSignedBy id_nonce ephemeral_public_key signature enr h =
      elim (Option-cases (crypto.from_compressed (public_key enr))) [
        | inl unread ↦ absurd (ground (arith, h, unread))
        | inr (point, key_read) ↦ record {
          point = point;
          key_read = key_read;
          verified = ground (arith, h, key_read);
        }
      ]

  -- The encrypted part of the packet holds a signature, and perhaps a record. The record that the
  -- recipient goes by is the one in the packet, which is then signed, of the expected node and newer
  -- than a known one, or where there is none in the packet the known one.
  abbrev IsCurrent : Recipient packages → Option Enr → Enr → Type 0
  IsCurrent r none current = r.remote_enr ≡ some current
  IsCurrent r (some enr) current =
      (enr ≡ current)
      × (node_id enr ≡ r.remote_node_id)
      × (has_valid_signature enr ≡ true)
      × ((known : Enr) → r.remote_enr ≡ some known → sequence_number known < sequence_number enr)

  pub record IsAuthentic (r : Recipient packages) (p : AuthHeaderPacket)
      (theirs : HandshakeResult packages) : Type 0 where
    pub id_nonce : Bytes
    pub id_nonce_sent : r.who_are_you_packet.id_nonce ≡ bytes_item id_nonce
    pub source :
        recover_source_id_from_tag crypto.sha256 p.tag (node_id r.local_enr) ≡ ok r.remote_node_id
    pub keys :
        compute_session_keys crypto r.local_private_key p.auth_header.ephemeral_public_key
          (node_id r.local_enr)
          r.remote_node_id
          id_nonce
          false
        ≡ ok theirs.session_keys
    pub signature : Bytes
    pub response :
        decrypt_auth_response rlp cipher formats p theirs.session_keys.auth_response_key
        ≡ ok (signature, theirs.enr)
    pub current : Enr
    pub is_current : IsCurrent r theirs.enr current
    pub signed : IsSignedBy current signature id_nonce p.auth_header.ephemeral_public_key

  response-IsSignedBy :
      (r : Recipient packages) (p : AuthHeaderPacket) (auth_response_key id_nonce : Bytes)
      (enr : Option Enr)
      → decrypt_and_validate_auth_response packages r p auth_response_key id_nonce ≡ ok enr
      → (signature : Bytes) × (current : Enr) × (decrypt_auth_response rlp cipher formats p
            auth_response_key
          ≡ ok (signature, enr))
        × (current_remote_enr packages r enr ≡ ok current)
        × IsSignedBy current signature id_nonce p.auth_header.ephemeral_public_key
  unfolding decrypt_and_validate_auth_response
  response-IsSignedBy r p auth_response_key id_nonce enr h =
      let (response, decrypted, then_current) =
        bind-ok (as_failure (decrypt_auth_response rlp cipher formats p auth_response_key)) _ enr
          h in
      let (current, is_current, then_signed) =
        bind-ok (current_remote_enr packages r response.1) _ enr then_current in
      let (done, valid, returned) =
        bind-ok
          (as_failure (
            validate_id_nonce_signature packages id_nonce p.auth_header.ephemeral_public_key
              response.0 (public_key current)))
          _ enr then_signed in
      (
        response.0,
        current,
        as_failure-ok _ response decrypted
            ∙ ap (λ (x : Option Enr). ok (response.0, x)) (ok_inj returned),
        ap (current_remote_enr packages r) (sym (ok_inj returned)) ∙ is_current,
        validate-IsSignedBy id_nonce p.auth_header.ephemeral_public_key response.0 current
            (as_failure-ok _ done valid),
      )

  expected-source :
      (r : Recipient packages) (p q : AuthHeaderPacket)
      → expected_auth_header packages r (auth_header p) ≡ ok q
      → (q ≡ p)
        × (recover_source_id_from_tag crypto.sha256 p.tag (node_id r.local_enr)
            ≡ ok r.remote_node_id)
  expected-source r p q h =
      let (source, recovered, then_same) =
        bind-ok (recover_source_id_from_tag crypto.sha256 p.tag (node_id r.local_enr)) _ q h in
      let same : source ≡ r.remote_node_id =
        ground (arith, then_same, bytes_eq.beq_iff source r.remote_node_id) in
      (ground (arith, then_same), recovered ∙ ap ok same)

  current_remote_enr-IsCurrent :
      (r : Recipient packages) (enr : Option Enr) (current : Enr)
      → current_remote_enr packages r enr ≡ ok current
      → IsCurrent r enr current
  unfolding current_remote_enr
  current_remote_enr-IsCurrent r none current h = elim (Option-cases r.remote_enr) [
    | inl unknown ↦ absurd (ground (arith, h, unknown))
    | inr (known, e) ↦ ground (arith, h, e)
  ]
  current_remote_enr-IsCurrent r (some enr) current h = (
    ground (arith, h),
    ground (arith, h, bytes_eq.beq_iff (node_id enr) r.remote_node_id),
    ground (arith, h),
    λ known e. ground (arith, h, e),
  )

  -- A handshake that the recipient completes comes from the node that it expects. The tag of the
  -- packet names that node, and the packet holds, under the key of the result that comes from its ephemeral key, a signature
  -- and the record of the result, if any. That signature is of the id nonce that the recipient had
  -- sent and of the ephemeral key of the packet, under the key of the record in the packet, which is
  -- itself signed, of that node and newer than a known one; where there is none in the packet, under
  -- the key of the known record.
  pub recipient_accepts-IsAuthentic :
      (r : Recipient packages) (p : AuthHeaderPacket) (theirs : HandshakeResult packages)
      → complete_recipient packages r (auth_header p) ≡ ok theirs
      → IsAuthentic r p theirs
  unfolding complete_recipient
  recipient_accepts-IsAuthentic r p theirs h =
      let (q, expected, left_1) =
        bind-ok (expected_auth_header packages r (auth_header p)) _ theirs h in
      let (same, source) = expected-source r p q expected in
      let (supported, has_scheme, left_scheme) =
        bind-ok (handshake_scheme packages r.local_enr) _ theirs left_1 in
      let (done, on_curve, left_2) =
        bind-ok (valid_point packages (crypto.from_uncompressed q.auth_header.ephemeral_public_key))
          _ theirs left_scheme in
      let (id_nonce, nonce_sent, left_3) =
        bind-ok (as_bytes r.who_are_you_packet.id_nonce) _ theirs left_2 in
      let (keys, computed, left_4) =
        bind-ok
          (compute_session_keys crypto r.local_private_key q.auth_header.ephemeral_public_key
            (node_id r.local_enr) r.remote_node_id id_nonce false)
          _ theirs left_3 in
      let (enr, validated, left_5) =
        bind-ok (decrypt_and_validate_auth_response packages r q keys.auth_response_key id_nonce) _
          theirs left_4 in
      let (m, read, returned) =
        bind-ok (decrypt_and_validate_message packages q keys.decryption_key) _ theirs left_5 in
      let (signature, current, response, is_current, signed) =
        response-IsSignedBy r q keys.auth_response_key id_nonce enr validated in
      let result = ok_inj returned in
      subst (λ (x : AuthHeaderPacket). IsAuthentic r x theirs) same
        (subst (λ (x : HandshakeResult packages). IsAuthentic r q x) result
          (record {
            id_nonce = id_nonce;
            id_nonce_sent = as_bytes-ok r.who_are_you_packet.id_nonce id_nonce nonce_sent;
            source =
                ap
                  (λ (x : AuthHeaderPacket).
                    recover_source_id_from_tag crypto.sha256 x.tag (node_id r.local_enr))
                  same
                ∙ source;
            keys = computed;
            signature = signature;
            response = response;
            current = current;
            is_current = current_remote_enr-IsCurrent r enr current is_current;
            signed = signed;
          }))
