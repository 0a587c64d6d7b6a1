-- ===== src/Lib.antt =====
-- IronPeer, a BitTorrent client (`src/` of the repository, Rust).
--
-- A torrent file is read into a `TorrentInfo`; trackers answer with the addresses of peers; a
-- handshake opens each connection; then peers exchange messages, which the codec encodes and
-- decodes; the piece manager chooses what to ask for, the file manager writes the blocks that
-- arrive over the files of the torrent, and verifies a piece once its blocks are there.
--
-- Which file models which part (paths of the code from the repository's root):
--   Base       shared helpers: tests on numbers, lists, machine words, `Result`, bytes compared.
--              Numbers are the native ℕ; `as_u32` and `as_u64` write the wrap-around out.
--   Paths      `std::path::PathBuf` as far as the program uses it, for src/storage/files.rs.
--   Structs    src/structs/: `TorrentInfo` (torrent_info.rs), `Peer` (peer.rs), `Tracker`
--              (tracker.rs: `TrackerResponse`, `parse_peers`), each Rust method a function of the
--              same name (`new_peer` for `Peer::new`); `Compact` and `Spans` hold the theorems.
--              `std`'s parser of IP addresses is a parameter of `parse_peers`.
--   Protocol   src/protocol/: `Messages` (messages.rs), `Codec` (codec.rs, `MessageEncoder::encode`
--              and `decode_message`), `Stream` (a non-blocking reader as the list of what its reads
--              will answer) and `Decoder` (`MessageDecoder::read_message`, its buffer passed
--              explicitly, its two loops on fuel).
--   Download   src/download/manager.rs: `Blocks` (`PieceState`, its blocks), `Pieces`
--              (`PieceManager`, an operation a function that answers none where the code panics),
--              `Peers` (what the loop of `tick` does with Have and Bitfield messages),
--              `Received` (what it does with the block of a Piece message), `Existing`
--              (`verify_existing_pieces`) and `Swarm` (`ActivePeer`, `DownloadManager`, `add_peer`;
--              its modules `Messages`, `Requests` and `Tick` are the parts of `tick`, a step each,
--              on a peer and on the state that the peers share).
--   Storage    src/storage/files.rs: `Disk` (what each path holds, and which paths the system
--              refuses) and `Files` (`FileManager`, whose operations take and answer the disk; its module
--              `Panics` has when a read does not panic). The
--              loops over the files are recursive functions on the list of files, with the running
--              offsets and what is left of the data as arguments. SHA-1 is a parameter.
--   Peer       `Connection` (src/peer/connection.rs: a stream is what its reads and its writes will
--              answer, and what was written), `Handshake` (src/peer/handshake.rs: the bytes that
--              are sent, the checks of what is received, `perform`) and `Session` (a handshake and
--              the messages behind it on one connection).
--   Protodef   src/protodef/meta_info.rs: `MetaInfo`, and `to_torrent_info`, whose panics are a none.
--              `serde_bencode`, SHA-1 and `PathBuf::from` on a string are parameters.
--   Tracker    src/tracker/: `Text` (what the trackers' clients use of `std` on text), `Udp` (udp.rs:
--              a socket is what its calls will answer, and what was sent), `Http` (http.rs: the
--              response of a connection as bytes) and `Announce` (announce.rs).
--   Client     src/main.rs: the announces of the start (`find_peers`), the start (`start_client`) and
--              a round of the loop (`loop_round`). The threads that connect are the environment: a
--              round is given the connections that arrived. `Rounds` has any run of the loop as a
--              relation; `Addresses` and `Connected` are about whom the connections go to.
--
-- Fuel: the first loop of `read_message` has four rounds, since each adds a byte to a buffer
-- that wants four; the second has as many rounds as the message has bytes, and so has the loop
-- of `read_exact`; the loops over compact peers have one for each byte of the data, and so has
-- that over the digests of the pieces. Twenty rounds print the digits of a u64. `out_of_fuel` is
-- an outcome of the model that the theorems on `read_message` exclude; the loop over the headers
-- of an HTTP response may not end, and its theorem says when.
--
-- Not modelled: sockets, DNS, TLS, threads, the listener, the log and the arguments of the command
-- (src/main.rs, `connect` in src/peer/connection.rs, `get` of src/tracker/http.rs takes a connection
-- as a parameter), and bencode, which serde decodes and encodes. Random transaction ids and the
-- random part of the peer id are arguments. A write to a file that the system refuses is taken to
-- leave the file as it was; a write to a file that stops half-way is not modelled. A write to a
-- stream may fail after any number of bytes. A header of an HTTP response
-- is lowered in ASCII, since no other character is lowered to a letter of the name it is compared
-- with. Memory that runs out is not modelled, but a vector of more than isize::MAX bytes is: making
-- one panics (`panicked` of `IoError` and of `Outcome`). The arithmetic is that of a release build,
-- which wraps around.
pub mod Base
pub mod Paths
pub mod Structs
pub mod Protocol
pub mod Download
pub mod Storage
pub mod Peer
pub mod Protodef
pub mod Tracker
pub mod Client
