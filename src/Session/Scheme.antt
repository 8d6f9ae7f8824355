-- ===== src/Session/Scheme.antt =====
-- The handshake schemes of ddht/handshake_schemes.py and ddht/v5_1/handshake_schemes.py. The curve,
-- the key derivation and the hash are those of the packages coincurve, eth_keys, cryptography and
-- hashlib: the parameter `Crypto`.
pub mod Agreement
use ddht.Wire.Header
use ddht.Wire.Header.{Header}
use ddht.Wire.WhoAreYou
use ddht.Wire.WhoAreYou.{WhoAreYouPacket}
use ddht.Wire.Error.{
  Result, ok, raise, value_error, validation_error, invariant_error, ◌>>=◌, ◌>>◌, require,
}
use ddht.Prelude.Bytes.{Bytes}
use ddht.Prelude.{
  ℕ, ◌≡◌, ◌*◌, Bool, true, Option, none, some, List, [], ◌∷◌, ◌++◌, nat_beq, length, take, drop,
  if◌then◌else◌,
}

-- Points of the curve, their encodings and their products with a private key; the first 3 * 16
-- bytes that HKDF derives from a secret; SHA-256; signatures. What the code relies on: Diffie and
-- Hellman's law, a compressed point has 33 bytes and is read back, the derived key is as long as
-- asked for, and a signature verifies under the key that made it.
pub record Crypto : Type 1 where
  pub Point : Type 0
  pub public_point : Bytes → Point
  pub to_compressed : Point → Bytes
  pub from_compressed : Bytes → Option Point
  pub from_uncompressed : Bytes → Option Point
  pub multiply : Bytes → Point → Bytes
  pub hkdf : Bytes → Bytes → Bytes → Bytes
  pub sha256 : Bytes → Bytes
  pub sign : Bytes → Bytes → Bytes
  pub verify : Point → Bytes → Bytes → Bool
  pub multiply_comm : (a b : Bytes) → multiply a (public_point b) ≡ multiply b (public_point a)
  pub length-to_compressed : (p : Point) → length (to_compressed p) ≡ 33
  pub from_compressed-to_compressed : (p : Point) → from_compressed (to_compressed p) ≡ some p
  pub length-hkdf : (secret salt info : Bytes) → length (hkdf secret salt info) ≡ 48
  pub verify-sign : (key hash : Bytes) → verify (public_point key) (sign key hash) hash ≡ true

-- b"discovery v5 key agreement"
abbrev pub hkdf_info : Bytes
hkdf_info =
    100 ∷ 105 ∷ 115 ∷ 99 ∷ 111 ∷ 118 ∷ 101 ∷ 114 ∷ 121 ∷ 32 ∷ 118 ∷ 53 ∷ 32 ∷ 107 ∷ 101 ∷ 121 ∷ 32
    ∷ 97 ∷ 103 ∷ 114 ∷ 101 ∷ 101 ∷ 109 ∷ 101 ∷ 110 ∷ 116 ∷ []

-- b"discovery v5 identity proof"
abbrev pub id_nonce_signature_prefix : Bytes
id_nonce_signature_prefix =
    100 ∷ 105 ∷ 115 ∷ 99 ∷ 111 ∷ 118 ∷ 101 ∷ 114 ∷ 121 ∷ 32 ∷ 118 ∷ 53 ∷ 32 ∷ 105 ∷ 100 ∷ 101 ∷ 110
    ∷ 116 ∷ 105 ∷ 116 ∷ 121 ∷ 32 ∷ 112 ∷ 114 ∷ 111 ∷ 111 ∷ 102 ∷ []

pub record SessionKeys : Type 0 where
  pub encryption_key : Bytes
  pub decryption_key : Bytes
  pub auth_response_key : Bytes

pub record DerivedKeys : Type 0 where
  pub initiator_key : Bytes
  pub recipient_key : Bytes
  pub auth_response_key : Bytes

pub record SignatureInputs : Type 0 where
  pub iv : Bytes
  pub header : Header
  pub who_are_you : WhoAreYouPacket
  pub ephemeral_public_key : Bytes
  pub recipient_node_id : Bytes

module _ (crypto : Crypto) where
  open crypto use {
    from_compressed, from_uncompressed, multiply, hkdf, sha256, sign, verify, public_point, Point,
  }

  -- eth_keys raises its ValidationError, a ValueError, for bytes that are not a point
  abbrev pub parsed : Option Point → Result Point
  parsed none = raise value_error
  parsed (some point) = ok point

  unfoldable pub ecdh_agree : Bytes → Bytes → Result Bytes
  ecdh_agree private_key public_key = do
    point ← parsed (
        if nat_beq (length public_key) 33
        then from_compressed public_key
        else from_uncompressed public_key)
    ok (multiply private_key point)

  unfoldable pub hkdf_expand_and_extract : Bytes → Bytes → Bytes → Bytes → Result DerivedKeys
  hkdf_expand_and_extract secret initiator_node_id recipient_node_id salt = do
    let info = hkdf_info ++ (initiator_node_id ++ recipient_node_id)
    let expanded_key = hkdf secret salt info
    require (nat_beq (length expanded_key) (3 * 16)) invariant_error
    ok (record {
      initiator_key = take 16 expanded_key;
      recipient_key = take 16 (drop 16 expanded_key);
      auth_response_key = take 16 (drop 32 expanded_key);
    })

  -- the keys of the side that started the session, or of the other
  abbrev pub assign_keys : Bool → DerivedKeys → SessionKeys
  assign_keys is_locally_initiated derived = record {
    encryption_key = if is_locally_initiated then derived.initiator_key else derived.recipient_key;
    decryption_key = if is_locally_initiated then derived.recipient_key else derived.initiator_key;
    auth_response_key = derived.auth_response_key;
  }

  unfoldable pub compute_session_keys :
      Bytes → Bytes → Bytes → Bytes → Bytes → Bool → Result SessionKeys
  compute_session_keys local_private_key remote_public_key local_node_id remote_node_id salt
        is_locally_initiated =
      do
        secret ← ecdh_agree local_private_key remote_public_key
        let initiator_node_id = if is_locally_initiated then local_node_id else remote_node_id
        let recipient_node_id = if is_locally_initiated then remote_node_id else local_node_id
        derived ← hkdf_expand_and_extract secret initiator_node_id recipient_node_id salt
        ok (assign_keys is_locally_initiated derived)

  unfoldable pub create_id_nonce_signature_input : SignatureInputs → Result Bytes
  create_id_nonce_signature_input inputs = do
    header_bytes ← Header.to_wire_bytes inputs.header
    who_are_you_bytes ← WhoAreYou.to_wire_bytes inputs.who_are_you
    ok (
        sha256 (
          id_nonce_signature_prefix
          ++ (inputs.iv
              ++ (header_bytes
                  ++ (who_are_you_bytes
                      ++ (inputs.ephemeral_public_key ++ inputs.recipient_node_id))))))

  unfoldable pub create_id_nonce_signature : SignatureInputs → Bytes → Result Bytes
  create_id_nonce_signature inputs private_key = do
    signature_input ← create_id_nonce_signature_input inputs
    ok (sign private_key signature_input)

  -- A signature that is malformed does not verify.
  unfoldable pub validate_id_nonce_signature : SignatureInputs → Bytes → Bytes → Result (Unit {0})
  validate_id_nonce_signature inputs signature public_key = do
    signature_input ← create_id_nonce_signature_input inputs
    point ← parsed (from_compressed public_key)
    require (verify point signature signature_input) validation_error
