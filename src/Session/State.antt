-- ===== src/Session/State.antt =====
-- What a session of ddht/v5_1/session.py keeps, and the actions that its methods are made of. What
-- a session uses of other packages is the parameter `Services`. The events and channels that a
-- method triggers are the trace.
use ddht.Session.Scheme.{Crypto, SessionKeys}
use ddht.Wire.Error.{Error, Result, ok, raise}
use ddht.Wire.Handshake.{EnrCodec}
use ddht.Wire.Packet.{Cipher, Packet, PlainText}
use ddht.Prelude.Bytes.{Bytes}
use ddht.Prelude.{ℕ, ◌+◌, ◌≡◌, Bool, Option, none, List, [], ◌∷◌, ◌++◌, length}

-- The ciphers and codecs; the messages with their bytes (`none` for `EmptyMessage`), the types that
-- the registry has, and the RLP decoder; the records of nodes (ENR) and their database, in which
-- `none` is a KeyError of `get_enr` or the `OldSequenceNumber` of `set_enr`; and
-- `secrets.token_bytes`, as the bytes of each draw, which have the length asked for.
pub record Services : Type 1 where
  pub cipher : Cipher
  pub codec : EnrCodec
  pub crypto : Crypto
  pub Message : Type 0
  pub to_bytes : Message → PlainText
  pub is_registered : ℕ → Bool
  pub rlp_decode : ℕ → Bytes → Option Message
  pub public_key : codec.Enr → Bytes
  pub sequence_number : codec.Enr → ℕ
  pub has_v4_scheme : codec.Enr → Bool
  pub Db : Type 0
  pub get_enr : Db → Bytes → Option codec.Enr
  pub set_enr : Db → codec.Enr → Option Db
  pub token_bytes : ℕ → ℕ → Bytes
  pub length-token_bytes : (index size : ℕ) → length (token_bytes index size) ≡ size

pub record Endpoint : Type 0 where
  pub ip_address : Bytes
  pub port : ℕ

pub data Status : Type 0 where
  before during after : Status

module _ (services : Services) where
  open services use {Message, Db, codec, token_bytes}

  pub record OutboundMessage : Type 0 where
    pub message : Message
    pub receiver_endpoint : Endpoint
    pub receiver_node_id : Bytes

  pub record InboundMessage : Type 0 where
    pub message : Message
    pub sender_endpoint : Endpoint
    pub sender_node_id : Bytes

  pub record OutboundEnvelope : Type 0 where
    pub packet : Packet codec.Enr
    pub receiver_endpoint : Endpoint

  pub record InboundEnvelope : Type 0 where
    pub packet : Packet codec.Enr
    pub sender_endpoint : Endpoint

  -- events of `Events`, and what is sent on the two channels
  pub data Effect : Type 0 where
    packet_received packet_discarded : InboundEnvelope → Effect
    packet_sent outbound_envelope : OutboundEnvelope → Effect
    inbound_message : InboundMessage → Effect
    session_handshake_complete : Effect

  -- The fields of both classes; `clock` is `trio.current_time()` and `draws` counts the random
  -- draws. `None` and an attribute that is not set yet are `none`.
  pub record State : Type 0 where
    pub local_private_key : Bytes
    pub local_node_id : Bytes
    pub remote_endpoint : Endpoint
    pub created_at : ℕ
    pub status : Status
    pub session_keys : Option SessionKeys
    pub remote_node_id : Option Bytes
    pub last_message_received_at : Option ℕ
    pub last_message_sent_at : Option ℕ
    pub nonce_counter : ℕ
    pub outbound_message_buffer : List OutboundMessage
    pub inbound_envelope_buffer : List InboundEnvelope
    pub initial_message : Option OutboundMessage
    pub initiating_packet : Option (Packet codec.Enr)
    pub handshake_response_packet : Option (Packet codec.Enr)
    pub enr_db : Db
    pub clock : ℕ
    pub draws : ℕ
    pub trace : List Effect

  -- `BaseSession.__init__`, with the remote node id of a `SessionInitiator`
  unfoldable pub init : Bytes → Bytes → Endpoint → Option Bytes → Db → ℕ → State
  init local_private_key local_node_id remote_endpoint remote_node_id enr_db clock = record {
    local_private_key = local_private_key;
    local_node_id = local_node_id;
    remote_endpoint = remote_endpoint;
    created_at = clock;
    status = before;
    session_keys = none;
    remote_node_id = remote_node_id;
    last_message_received_at = none;
    last_message_sent_at = none;
    nonce_counter = 0;
    outbound_message_buffer = [];
    inbound_envelope_buffer = [];
    initial_message = none;
    initiating_packet = none;
    handshake_response_packet = none;
    enr_db = enr_db;
    clock = clock;
    draws = 0;
    trace = [];
  }

  -- A method: what it leaves, and what it returns or raises. A change made before an exception stays.
  abbrev pub Action : Type 0 → Type 0
  Action A = State → State × Result A

  abbrev pub pure : {A : Type 0} → A → Action A
  pure a s = (s, ok a)

  abbrev pub fail : {A : Type 0} → Error → Action A
  fail e s = (s, raise e)

  abbrev pub lift : {A : Type 0} → Result A → Action A
  lift r s = (s, r)

  abbrev pub ask : {A : Type 0} → (State → A) → Action A
  ask f s = (s, ok (f s))

  abbrev pub modify : (State → State) → Action (Unit {0})
  modify f s = (f s, ok tt)

  abbrev pub trigger : Effect → Action (Unit {0})
  trigger e = modify (λ s. record s { trace = s.trace ++ e ∷ [] })

  -- `secrets.token_bytes`
  abbrev pub draw : ℕ → Action Bytes
  draw size s = (record s { draws = s.draws + 1 }, ok (token_bytes s.draws size))

-- the outcome of an action, and what follows it
unfoldable pub continue : {S A B : Type 0} → S × Result A → (A → S → S × Result B) → S × Result B
continue (s, ok a) f = f a s
continue (s, raise e) f = (s, raise e)

infixl 5 ◌>>=◌ ◌>>◌
unfoldable pub ◌>>=◌ :
    {S A B : Type 0} → (S → S × Result A) → (A → S → S × Result B) → S → S × Result B
(m >>= f) s = continue (m s) f

unfoldable pub ◌>>◌ :
    {S B : Type 0} → (S → S × Result (Unit {0})) → (S → S × Result B) → S → S × Result B
(m >> k) s = continue (m s) (λ _. k)
