-- ===== src/Tests/V5Packer.antt =====
-- `PeerPacker` of ddht/v5/packer.py, with a first message and a second that waits for the handshake.
use ddht.Prelude.{ℕ, some, List, [], ◌∷◌, replicate, take}
use ddht.Prelude.Bytes.{Bytes}
use ddht.Wire.Error.{ok}
use ddht.Tests.V5Handshake.{packages}
use ddht.V5.PeerPacker.{
  Database, State, Arrival, inbound_packet, outbound_message, run, init_peer_packer,
}
use ddht.V5.PeerPacker.Phases.{IsPhased}
use ddht.V5.PeerPacker.Runs.{run-IsPhased}
use ddht.V5.Packets.{who_are_you}
use ddht.V5.Rlp.{bytes_item}

-- the record of a node is the first byte of its id
abbrev database : Database packages
database = record {
  Db = Unit {0};
  get_enr = λ db node_id. some (take 1 node_id);
  set_enr = λ db enr. ok db;
}

abbrev random : ℕ → Bytes
random drawn = replicate 12 drawn

abbrev arrivals : List (Arrival packages database)
arrivals =
    outbound_message (record { content = 8 ∷ 9 ∷ []; endpoint = 5 ∷ [] })
    ∷ outbound_message (record { content = 7 ∷ 6 ∷ []; endpoint = 5 ∷ [] })
    ∷ inbound_packet
        (who_are_you (record {
          magic = [];
          token = bytes_item (replicate 12 0);
          id_nonce = bytes_item (6 ∷ []);
          enr_sequence_number = 0;
        }))
        (5 ∷ [])
    ∷ []

abbrev after : State packages database
after =
    (run packages database
      (init_peer_packer packages database (3 ∷ []) (1 ∷ replicate 31 0) (2 ∷ replicate 31 0) tt
        random)
      arrivals).0

run-IsPhased_example : IsPhased packages database after
run-IsPhased_example =
    run-IsPhased packages database (3 ∷ []) (1 ∷ replicate 31 0) (2 ∷ replicate 31 0) tt random
      arrivals
