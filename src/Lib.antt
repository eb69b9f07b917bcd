-- ===== src/Lib.antt =====
-- The core of Metrice, a federated chat node in JavaScript (src/ of the repository).
--
-- The parts and how they interact. A node listens for clients behind a reverse proxy, whose header
-- `ProxyProtocolParser` reads first. Clients come in by SSH, whose packets `SshPacketReader` takes
-- apart and `SshPacketWriter` builds, and by Telnet; what they type goes through `InputParser`. Nodes
-- talk to each other over a `SecureChannel`, whose handshake tests the address that a peer declares
-- with `AddressHelper`; its `NonceTracker` refuses handshakes that are played again, and its
-- `MessageTtlCache` drops messages that arrive twice. The addresses of other nodes are kept by
-- `PeerManager`, which hears of them from connections, from gossip and from its cache file.
-- `OnionRouter` sends payloads through circuits of relays. An edge binds itself to relays with
-- `RendezvousManager`, which on a relay keeps the tunnels. `FederationEngine` owns these parts and
-- their shared state; `FederationPacketHandler` handles what comes in over a channel, and
-- `PresenceManager` knows who is online and announces the node to the others. `AutoNatService` learns
-- the address of the node from its peers, tells it to the pool, and has a peer dial back to find out
-- the role of the node. The identifiers of nodes are written with `Base32`.
--
-- Which file models what:
--   Base, Base/*: the shared helpers. Texts are lists of code units, with the JavaScript text methods
--     that the sources call (Base/Text); numbers and `parseInt` (Base/Number).
--   JsMap: JavaScript's `Map`, as a list of entries in insertion order. A `Set` is the list of its
--     members.
--   TtlMap: the sweep that both classes at the top of src/core/secureChannel.js contain; TtlMap/Laws, TtlMap/Found.
--   NonceTracker: class NonceTracker of src/core/secureChannel.js. NonceTracker/Replay.
--   MessageTtlCache: class MessageTtlCache of src/core/secureChannel.js. MessageTtlCache/Dedupe, Remembered.
--   Base32: src/utils/base32.js; `encode_padded` is `encode(buffer, true)`. Base32/Steps, RoundTrip.
--   ProxyProtocol: `parse` and `parseBuffer` of src/utils/proxyProtocol.js. ProxyProtocol/Address is
--     `formatIPv6`; ProxyProtocol/Socket is `handle`, with one function per listener. Proofs:
--     Headers, Stability, RoundTrip, Socket/Once, Socket/Chunks.
--   PeerManager: the pool of src/core/peerManager.js. Proofs: Admission, Reachable, Capacity, Scores.
--   Federation: the state of src/core/federation.js that packets and presence share, and the tests on peers that they
--     repeat. Federation/Packet: the packets, and what handling one does besides changing the state.
--   Presence: src/core/presenceManager.js. Presence/Expiry is `cleanupExpiredPresence`, Presence/Broadcast and
--     Broadcast/Gossip what is sent. Proofs: Online, Refresh, Expiry/Exact, Broadcast/Once.
--   Packets: src/core/federationPacketHandler.js. Packets/Dispatch is `handleIncoming`; Announce and
--     Announce/Handler, Routes and Messages are the handlers of these packets, and Packets has the others. Proofs:
--     Announce/Recorded, Routes/Once, Messages/Once, Messages/Hops, Offline, Subscriptions. Quiet: the handlers that leave the cache of messages alone.
--   Onion: cells, layers and circuits of src/core/onionRouter.js; Onion/Relay is `handleOnionCell` and
--     `handleCircuitSetup`, with `saveCircuit` and `getCircuit` of src/storage/database.js as a map.
--     Onion/Build is `buildCircuit`. Proofs: Peeling, Padding, Build/Installed, Build/Established.
--   Rendezvous: `handleRendezvousBind` of src/core/rendezvousManager.js and the `close` listener of a
--     tunnel, with one function per group of tests (Rendezvous/Binding). Proofs: Admission, Tunnels. Rendezvous/Edge: the
--     methods of the same class on an edge, with `checkTransitEdgeRole` of src/core/federation.js.
--     Proofs: Edge/Bound, Edge/Heartbeat.
--   SecureChannel: class SecureChannel of src/core/secureChannel.js, its state and what it sends;
--     SecureChannel/Peer is `validatePeerIp`, Frames is `handleFrame` and `markReady`, Lines is the data
--     listener, whose loop runs one round per step, and Events the sequence of everything that happens to
--     a channel. A call returns the next state and its effects, in order. Proofs: Lines/Drain,
--     Events/Fine, Events/Sound, Handshake/Exchange, Handshake/Agreement, Authentic, Authentic/Spoofed.
--   AddressHelper: src/utils/addressHelper.js; `Local` holds the two settings and the node id that it
--     reads. AddressHelper/Same is `isSameTarget`, Ipv6 is `canonicalizeIPv6`. Proofs: Same, Targets, Users.
--   AutoNat: `handleDialbackRequest` of src/core/autoNat.js; a socket that it opens is its number, and
--     the events of the socket are calls of `release_slot`. Proofs: Slots, RateLimit. AutoNat/Node is
--     the rest of the class, with `setRole` of src/core/federation.js. Proofs: Votes, Roles.
--   InputParser: src/utils/inputParser.js, with the UTF-8 decoder as an argument. InputParser/Telnet is
--     `extractTelnetEvents`. Proofs: Commands, Paste, Paste/Bracketed.
--   SshPacket: `SshPacketReader` and `SshPacketWriter` of src/utils/sshPacket.js. The encoder and
--     decoder of a text are arguments. SshPacket/Fields: sequences of fields. Proofs: Growth, Names,
--     RoundTrip, Bounds.
--   Tests modules hold runs on concrete inputs.
--
-- State. A class is a record of its fields, and a method is a function from the state, and the time
-- where the method reads the clock, to the next state and the result.
--
-- Bounds. Most loops are structural recursion on the data. The others have fuel: the writer of SSH
-- packets doubles its buffer at most as often as bytes are needed, since the size is at least one; the
-- loop over Telnet bytes runs at most once per byte, since each round takes one or more; the loop over the
-- lines of a secure channel takes a line off the buffer in each round; the padding of
-- Base32 ends within eight rounds, and its inner loop within as many as there are bits. The digits of a
-- number have fuel for 20 digits, which is more than a port or a word needs. The accumulator of Base32
-- is taken modulo 2^32, as the shift operators do. Time stamps and ports are natural numbers, the hop count
-- and the limit of a message are integers.
--
-- Not modelled: files, sockets, logging and the cipher library. Texts are ASCII where the case or
-- white space matters. `parseInt` is exact, without the rounding of doubles over 2^53. An argument
-- that is missing is the empty text. The trusted addresses of a proxy are those after `handle` has
-- trimmed them. A port that a peer asks to be dialed at is a text. The shuffle of `getRandomSample` is
-- random and left out; its filter is `healthy`, and the samples of gossip are arguments. Of the
-- engine, `sendViaOnion`, the outbox and the timers are not modelled. The database is SQLite behind
-- texts of statements: what is read of it is an argument, what is written a consequence. A user that a
-- message enters under two addresses is one object there and two equal values here, so a later packet
-- refreshes one of them. The cipher library, the name lookup and `JSON.parse` are arguments of the
-- secure channel, and what it needs of the cipher library is the record `Honest`; randomness is the
-- number of the draw. Texts that are parsed hold the fields of a frame, and a field that is missing is
-- the empty text.
pub mod AddressHelper
pub mod AutoNat
pub mod Base
pub mod Base32
pub mod Federation
pub mod InputParser
pub mod JsMap
pub mod MessageTtlCache
pub mod NonceTracker
pub mod Onion
pub mod Packets
pub mod PeerManager
pub mod Presence
pub mod ProxyProtocol
pub mod Rendezvous
pub mod SecureChannel
pub mod SshPacket
pub mod TtlMap
