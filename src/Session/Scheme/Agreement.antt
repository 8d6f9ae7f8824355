-- ===== src/Session/Scheme/Agreement.antt =====
-- The two sides of a handshake.
use ddht.Session.Scheme.{
  assign_keys, hkdf_info, DerivedKeys, id_nonce_signature_prefix, Crypto, SessionKeys,
  SignatureInputs, compute_session_keys, ecdh_agree, hkdf_expand_and_extract,
  create_id_nonce_signature, create_id_nonce_signature_input, validate_id_nonce_signature,
}
use ddht.Wire.Header.RoundTrip.{wire, IsHeader, to_wire_bytes-wire}
use ddht.Wire.WhoAreYou.{IsWhoAreYouPacket, who_are_you_round_trip}
use ddht.Wire.Error.{ok}
use ddht.Prelude.Bytes.{Bytes}
use ddht.Prelude.{take, drop, ◌++◌, ◌≡◌, refl, true, false}

-- The initiator, who holds the ephemeral key, and the recipient, who holds the static one, both
-- compute their session keys from the other's compressed public key, the two ids and the salt. What
-- the one encrypts with the other decrypts with, and the keys for auth responses are the same.
pub compute_session_keys_agree :
    (crypto : Crypto) (ephemeral_key static_key initiator recipient salt : Bytes)
    → (ours theirs : SessionKeys) × (compute_session_keys crypto ephemeral_key
          (crypto.to_compressed (crypto.public_point static_key))
          initiator
          recipient
          salt
          true
        ≡ ok ours)
      × (compute_session_keys crypto static_key
            (crypto.to_compressed (crypto.public_point ephemeral_key))
            recipient
            initiator
            salt
            false
          ≡ ok theirs)
      × (ours.encryption_key ≡ theirs.decryption_key)
      × (ours.decryption_key ≡ theirs.encryption_key)
      × (ours.auth_response_key ≡ theirs.auth_response_key)
unfolding compute_session_keys ecdh_agree hkdf_expand_and_extract
compute_session_keys_agree crypto e s initiator recipient salt = (
  assign_keys crypto true derived,
  assign_keys crypto false derived,
  rw
      (
        crypto.length-to_compressed (crypto.public_point s),
        crypto.from_compressed-to_compressed (crypto.public_point s),
        crypto.length-hkdf (crypto.multiply e (crypto.public_point s)) salt,
      )
      refl,
  rw
      (
        crypto.length-to_compressed (crypto.public_point e),
        crypto.from_compressed-to_compressed (crypto.public_point e),
        crypto.length-hkdf (crypto.multiply s (crypto.public_point e)) salt,
        crypto.multiply_comm s e,
      )
      refl,
  refl,
  refl,
  refl,
)
  where
    expanded : Bytes
    expanded =
        crypto.hkdf (crypto.multiply e (crypto.public_point s)) salt
          (hkdf_info ++ (initiator ++ recipient))

    derived : DerivedKeys
    derived = record {
      initiator_key = take 16 expanded;
      recipient_key = take 16 (drop 16 expanded);
      auth_response_key = take 16 (drop 32 expanded);
    }

module _ (crypto : Crypto) (inputs : SignatureInputs) where
  abbrev hash : Bytes → Bytes
  hash who_are_you_bytes = crypto.sha256 (
      id_nonce_signature_prefix
      ++ (inputs.iv
          ++ (wire inputs.header
              ++ (who_are_you_bytes ++ (inputs.ephemeral_public_key ++ inputs.recipient_node_id)))))

  -- The signature that the initiator makes over a challenge verifies under its compressed public
  -- key, for the same inputs, where the header and the challenge can be encoded.
  pub validate-create_id_nonce_signature :
      (private_key : Bytes)
      → IsHeader inputs.header
      → IsWhoAreYouPacket inputs.who_are_you
      → (signature : Bytes) × (create_id_nonce_signature crypto inputs private_key ≡ ok signature)
        × (validate_id_nonce_signature crypto inputs signature
              (crypto.to_compressed (crypto.public_point private_key))
            ≡ ok tt)
  unfolding create_id_nonce_signature validate_id_nonce_signature create_id_nonce_signature_input
  validate-create_id_nonce_signature k h w =
      let (b, e, d) = who_are_you_round_trip inputs.who_are_you w in
      (
        crypto.sign k (hash b),
        rw (to_wire_bytes-wire inputs.header h, e) refl,
        rw
            (
              to_wire_bytes-wire inputs.header h,
              e,
              crypto.from_compressed-to_compressed (crypto.public_point k),
              crypto.verify-sign k (hash b),
            )
            refl,
      )
