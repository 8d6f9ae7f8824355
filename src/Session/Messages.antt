-- ===== src/Session/Messages.antt =====
-- `decode_message` of ddht/v5_1/messages.py and of a session.
use ddht.Session.Scheme.{SessionKeys}
use ddht.Session.State.{Services, State, Status, after}
use ddht.Wire.Error.{
  Error, Result, ok, raise, index_error, key_error, rlp_error, attribute_error, ◌>>=◌,
}
use ddht.Wire.Packet.{Packet, aesgcm_decrypt, challenge_data}
use ddht.Prelude.Bytes.{Bytes}
use ddht.Prelude.{Option, none, some, [], ◌∷◌, if◌then◌else◌}

-- the value of an attribute or a key, or the exception
abbrev pub found : {A : Type 0} → Option A → Error → Result A
found none e = raise e
found (some a) e = ok a

module _ (services : Services) where
  open services use {Message, codec, cipher, is_registered, rlp_decode}

  abbrev pub decode_plain_text : Bytes → Result Message
  decode_plain_text [] = raise index_error
  decode_plain_text (message_type ∷ encoded) =
      if is_registered message_type
      then found (rlp_decode message_type encoded) rlp_error
      else raise key_error

  unfoldable pub decode_message : Bytes → Bytes → Bytes → Bytes → Result Message
  decode_message decryption_key aes_gcm_nonce message_cipher_text authenticated_data = do
    plain_text ←
        aesgcm_decrypt cipher decryption_key aes_gcm_nonce message_cipher_text authenticated_data
    decode_plain_text plain_text

  -- the message of a packet, under the keys of a session
  unfoldable pub decode_packet_message : SessionKeys → Packet codec.Enr → Result Message
  decode_packet_message session_keys packet = do
    authenticated_data ← challenge_data cipher codec packet
    decode_message session_keys.decryption_key packet.header.aes_gcm_nonce
        packet.message_cipher_text authenticated_data

  -- `self.keys`
  abbrev pub keys : State services → Result SessionKeys
  keys s = keys_in s.status s.session_keys
    where
      keys_in : Status → Option SessionKeys → Result SessionKeys
      keys_in after session_keys = found session_keys attribute_error
      keys_in _ session_keys = raise attribute_error
