-- ===== src/Lib.antt =====
-- Verification of plexus-core.
--
-- plexus-core is the server library of a service: clients call dotted methods over a WebSocket, a
-- gate decides each call, and a method may take an input half that its caller streams to it under
-- credit. This library models the gates, the input half from the socket to the handler, the
-- registry of questions that wait for an answer, handles and errors.
--
-- The parts, the code that they model (paths from the root of the repository) and how they
-- interact:
--
-- Base (Tests, Lists, Equality, Word, Assoc, Texts): Boolean tests, lists over the native numbers,
-- u64 arithmetic with its wrap-around written out (release profile), maps as association lists,
-- and the text operations of std.
--
-- Errors (src/plexus/plexus.rs, src/plexus/types.rs): `PlexusError`, the wire's `RemoteError` and
-- the two codes. `Result` is the result of every gate.
--
-- Auth: what the service uses of plexus-auth-core, as parameters: `AuthOps` for a caller's
-- context, `Gate` for the grant gate as it decides at one moment. Json: a value, as serde reads
-- it.
--
-- GrantGate (src/plexus/grant_gate.rs): `decide` of a dispatch and its helpers. ScopeGate
-- (src/plexus/scope_gate.rs): `enforce` and `answers`, over a parameter for the scope registry and
-- the path grammar.
--
-- Handle (src/types.rs): handles, `Display`, `FromStr`, origins and envelopes. A UUID's text is a
-- parameter with its documented laws.
--
-- Call and Duplex (src/plexus/duplex_gate.rs): a call's gate over its input half. Call is its
-- data; Duplex has `admit`, `reverify` and `expire` of `DuplexCall`, Duplex/Open `open_call` and
-- `admitted` of `DuplexGate` and `answer` of `DuplexCall`; Duplex/Loop is the loop of
-- `DuplexCall::input`, one turn of its `select!` at a time, each turn with the gate as it decides
-- then.
--
-- Input (src/plexus/input.rs): Input/Table is a connection's `InputTable` and its slots,
-- Input/Frames the frames as the socket delivers them, Input/Ledger the counters that a call's
-- reader, handler and pipe share, Input/Reader the handler's `Input`. Input/Flow puts slot, call,
-- handler and pipe (`run_duplex` of src/plexus/wire.rs) together: a list of moves is one
-- interleaving of them; Flow/Balance is the invariant of its counters.
--
-- Pending (src/plexus/bidirectional/registry.rs): the registry of pending questions, as its lock
-- orders what is done to it.
--
-- Routing (src/plexus/plexus.rs): `route_to_child`, a router's hand-over of a call to its child
-- under a forwarding policy, and Routing/Plugins the registry of activations.
--
-- ContentHash (src/plexus/content_hash.rs): the roll-up of hashes, and ContentHash/Canonical the
-- JSON that a hash is taken of, its keys sorted.
--
-- Wire (src/plexus/wire/json.rs): the JSON of an item. Wire/Scan is `mod scan`, each load and
-- store on a memory of addresses; Wire/Writer is `Json` with its strings and keys, where what the
-- buffer has room for, and what stands in that room, are parameters; Wire/Serializer is what each
-- call of serde writes, with the state of each open group, and Serializer/Meaning the text that is
-- meant.
--
-- Pipe (`run_duplex` of src/plexus/wire.rs): the loop that says a call's items, acks and credit to
-- its client, a turn of its `select!` at a time; a turn has what the others did to the ledger
-- before it, and the number of frames that the socket still takes is an argument.
--
-- CallContext (src/call.rs): the context of a call, of a child's call and of a call that came
-- through a hop; the verified values are a store of slots, which a context points into;
-- CallContext/Chain is a chain of children's calls.
--
-- AuthMemory (src/plexus/auth_memory.rs): Roles, Memberships and Backend are the three stores,
-- Flows the ways to sign in, Tokens what a credential carries. The clock and the UUIDs are
-- arguments; an i64 is its bit pattern.
--
-- View (src/plexus/view.rs, and what src/plexus/plexus.rs calls of it): View/Schema is what a view
-- reads of src/plexus/schema.rs, View/Described what a service describes and what the gate says of
-- who asks, View/Shape and View/Decide `activation_view` and `shape`, which keep a view as
-- indices, View/Reading what is read of it. View/Meaning is the view with no index, and View/Told
-- what a caller is to be told, apart from the code. View/Cache is the cache that `described` and
-- `shaped` ask, as its lock orders the asks, and View/Shells the envelopes of introspection
-- answers.
--
-- Credentials (src/plexus/credential_envelope.rs): what becomes of the credentials that are
-- captured while an item is serialized. What plexus-auth-core knows of a credential's metadata is
-- a parameter.
--
-- Channel (src/plexus/bidirectional/channel.rs): a server's questions to its client, over the
-- registry of Pending or the channel's own map; Channel/Standard is the standard questions and
-- their fallback. What others do in a wait, and how it ends, are arguments.
--
-- Remote (src/plexus/remote_child/link.rs, the back-off of spec.rs): a child process's connection.
-- Remote/Lines is its reader (`read_lines`, on the length of a piece and one more as fuel, since
-- each turn takes a line feed at least); Remote/Routes, Conn and Message are `Conn`, each
-- operation one step; Remote/Link is `Shared`: `ensure`, whose caller's two looks, sleep and
-- connecting are one turn at the dial's lock, with the losses meanwhile. The JSON that is read, a
-- peer of main's, and how connecting ends are arguments.
--
-- Bounds and loops: a loop is structural recursion over the list that it consumes, or, where it
-- moves by blocks, recursion on fuel that is one more than the bytes there are, each turn of which
-- takes one byte at least: the theorems show that it is enough. Counters are u64; where an
-- operation wraps, the theorems ask that the sums stay below 2^64, and nothing else is bounded.
--
-- Atomics and locks are modelled by the order in which their operations happen; one operation of
-- the ledger, the table or the view cache is one step (a cell of that cache is filled in the step
-- that takes it). An index that is out of range, where the program panics, is `none`, and a
-- theorem shows that there is none. Not modelled: serde, base64, tokio's scheduling, the clock,
-- logging, number texts, the growth of buffers, and the components that have no module here (the
-- hub itself, schemas, the intermediate representation, the frames of a batch, the relay of a
-- remote child's calls, the auth activation).
pub mod Base
pub mod Errors
pub mod Handle
pub mod Auth
pub mod Json
pub mod GrantGate
pub mod Call
pub mod Duplex
pub mod Input
pub mod ScopeGate
pub mod Pending
pub mod Routing
pub mod ContentHash
pub mod CallContext
pub mod Pipe
pub mod Wire
pub mod AuthMemory
pub mod Credentials
pub mod Channel
pub mod View
pub mod Remote
