-- ===== src/Lib.antt =====
-- ddht, a node of the Discovery v5.1 protocol.
--
-- The parts of the program, and the files that model them:
--
--   Kademlia/Distance  the XOR metric of ddht/kademlia.py: compute_distance, compute_log_distance,
--                      at_log_distance. A node id is the list of its bytes.
--   Kademlia/Table     KademliaRoutingTable of ddht/kademlia.py: 256 buckets, as many replacement
--                      caches and the update order are the record Table; `update`, `remove`
--                      (remove_node) and `update_bucket_unchecked` return the new table, or raise.
--   Kademlia/Closest   iter_closest, iter_nodes_around, iter_closest_nodes of ddht/kademlia.py; an
--                      iterator is the list of what it yields.
--   Wire               ddht/v5_1/packets.py: headers, the auth data of the three kinds of packets,
--                      Packet.prepare, Packet.to_wire_bytes and decode_packet, with the guards of
--                      ddht/encryption.py. An exception is a value of Wire/Error.
--   Session/Scheme     ddht/handshake_schemes.py and ddht/v5_1/handshake_schemes.py: session keys
--                      and the id nonce signature.
--   Session            ddht/v5_1/session.py: State has the attributes of both classes, a method is
--                      an Action, a function from the state to the new state and a result or an
--                      exception; changes before an exception stay. Base has what both classes
--                      share, Initiator and Recipient have their handlers, Messages has
--                      decode_message of ddht/v5_1/messages.py.
--   Dispatcher         ddht/v5_1/dispatcher.py: which sessions of an endpoint get an envelope or a
--                      message, and which are discarded when a handshake is complete.
--   Pool               ddht/v5_1/pool.py: the sessions of all endpoints, and their index.
--   FlatTable          FlatRoutingTable of ddht/v5/routing_table.py: the list of its entries.
--   V5/Packets         ddht/v5/packets.py: the three kinds of packets, and what they encrypt; an
--                      item of RLP is a value of V5/Rlp.
--   V5/Tags            ddht/v5/tags.py, and sxor of ddht/_utils.py.
--   V5/Handshake       ddht/v5/handshake.py and ddht/v5/handshake_schemes.py: both participants, and
--                      complete_handshake of each.
--   V5/PeerPacker      PeerPacker of ddht/v5/packer.py: one state, with the handlers in its phases.
--   V5/TopicTable      ddht/v5/topic_table.py: the queues of ads by topic.
--   ResourceQueue      ddht/resource_queue.py: each method as what it does before and after it gets
--                      the lock, and the steps of the tasks that share a queue.
--   RequestTracker     ddht/request_tracker.py: the set of reserved request ids, and the blocks that
--                      reserve them.
--   Alexandria/Storage ContentStorage of ddht/v5_1/alexandria/content_storage.py, on the list of the
--                      rows of its table, and ddht/v5_1/alexandria/content.py.
--   Alexandria/Batch   _AtomicBatch and ContentStorage.atomic of the same file.
--   Prelude            tests, lists, bits and bytes over the native numbers.
--   Tests              the theorems at concrete inputs, and runs of the definitions.
--
-- A session encrypts with Packet.prepare and reads packets that decode_packet has made from
-- datagrams; the keys of its packets are those of the handshake scheme. The pool owns the sessions
-- among which the dispatcher chooses. A batch stands on a storage, which it leaves alone until it is
-- committed.
--
-- Parameters stand for the packages that the code calls: Cipher (AES of cryptography), EnrCodec
-- (RLP of node records), Crypto (the curve, HKDF, SHA-256 and signatures), and Services (messages
-- and their registry, the database of node records, random bytes), Rlp and Formats (the codec, node
-- records and messages of protocol v5), Packages (these together, as the handshake of protocol v5
-- uses them), Lru (the bounded dictionary of the pool), Database (node records by node id, for the
-- packer), Clock (the floats of the topic table). Their laws are documented behaviour of those
-- packages, and Tests instantiates each of them.
--
-- Bounds: node ids have 32 bytes, buckets hold bucket_size nodes, the two channels of a session
-- hold 256 elements, flags and sizes are one or two bytes on the wire. The clock of a session counts
-- whole seconds where the program has floats; the times of the topic table are a parameter. The loop
-- of ResourceQueue.reserve has a bound on its rounds, for which the length of the queue is enough;
-- every other loop runs over a list.
--
-- Not modelled: the exceptions of the curve for a private key that is none (every private key is
-- taken to be valid), concurrency within one handler of a session (a handler runs to its end),
-- logging, the token bucket (floating point numbers), subscriptions (channels of trio), and the
-- parts around the sessions: the loops of the dispatcher, the network, the other services of
-- protocol v5 and those of Alexandria, the RPC server and the command line.
pub mod Prelude
pub mod Alexandria
pub mod Dispatcher
pub mod FlatTable
pub mod Kademlia
pub mod Pool
pub mod RequestTracker
pub mod ResourceQueue
pub mod Session
pub mod V5
pub mod Wire
pub mod Tests
