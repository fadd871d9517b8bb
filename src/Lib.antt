-- ===== src/Lib.antt =====
-- Verification of the core of a BitTorrent client in Rust.
--
-- The program fetches a torrent over many connections at once. A connection reads and writes wire
-- messages, keeps what it knows of its peer, takes a piece from the shared work queue, asks for the
-- blocks of the piece through an assembler, and hands the finished piece over once its hash is right.
-- A choker decides which peers are served in return. Connections may run over uTP.
--
-- Which file models which part (paths from the repository's root):
--   Prelude           shared types, tests, lists, maps; Words is src/bytes.rs, Bits the bits of a byte
--   Crypto.Sha256     src/sha256.rs: `compress`, `update`, `finalize`
--   Crypto.Merkle     src/v2.rs: `parent`, `merkle_root`, `zero_subtree`, `merkle_matches`;
--                     its child Ranges `verify_range`, the check of a hash range
--   Downloader.PieceAssembler   src/downloader/piece_assembler.rs
--   Downloader.WorkQueue        src/downloader/queue.rs
--   Peer.Message      src/peer/message.rs
--   Peer.Handshake    src/peer/handshake.rs
--   Peer.State        src/peer/state.rs
--   Utp.Packet        src/utp/packet.rs
--   Utp.Conn          src/utp/conn.rs: Send (`flush`, `send_pending`), Receive (`receive`, `read`),
--                     Ack and Ledbat (`process_ack`, `update_window`), Events (`on_packet`, `on_tick`)
--   Choker            src/choker.rs
--   Bencode           src/bencode.rs
--   Dht.Routing       src/dht/routing.rs
--   Dht.Token         src/dht/token.rs
--   Dht.Krpc          src/dht/krpc.rs: the compact forms of nodes and peers; Messages: the queries
--   Dht.Store         src/dht/store.rs: `signing_buffer`, `put_immutable`, `put_mutable`, `get`
-- The children of a component hold its lemmas and theorems, by what they prove, and its examples.
--
-- How the code is represented. A struct is a record, an enum a data type, with the source's names. A
-- method that changes its object returns the new object. A function that holds the mutex of its object
-- is one step, so that a list of calls stands for an interleaving of threads; `run` performs it. An
-- error is a value of the component's result type, and an index out of range that panics is a value
-- of its own where it can happen. Numbers are natural numbers; where the source computes in u16, u32
-- or u64 the wrap-around is written out, and `usize` has 64 bits; only what counts events one by one
-- (the ids and rounds of the choker, the time-outs, attempts and repeats of a uTP connection) has no
-- bound, and a layer of a Merkle tree is as wide as its height says, where the source shifts a u64 by
-- the height and so can have fewer than 64 layers. A hash map is an association list,
-- a set a list without repetition, and the ordered map of the choker is kept in the order of the ids
-- that it gives out, which increase.
--
-- Fuel. The loop over a uTP extension chain has as much fuel as the datagram has bytes, and each turn
-- moves on by at least two. The bencode decoder has twice as much as the input has bytes, and one: a
-- nested value is behind the byte that opens it. The loops of the trees have as much as they have leaves
-- or bytes.
-- The loops of a uTP connection over held packets and over new data have as much fuel as there are held
-- packets and bytes to send; each turn takes one.
--
-- Not modelled: sockets, threads, files, clocks, the terminal, and the session that ties the parts
-- together. SHA-1 and ed25519 are of other crates: their functions are parameters, as the operations on
-- floating-point numbers are.
pub mod Prelude
pub mod Crypto
pub mod Bencode
pub mod Downloader
pub mod Peer
pub mod Utp
pub mod Choker
pub mod Dht
