-- ===== src/Lib.antt =====
-- VOIDNET is a peer-to-peer network of nodes with a naming system, a user-interface language and a
-- runtime. This library models its core crates and proves properties of them.
--
-- Parts and files:
--  Base: texts, maps, results and tests that the other files share. A Rust string is the list of its
--   Unicode scalar values (Base/Texts), a BTreeMap a list in the order of its keys (Base/Map).
--  Protocol/Uri: `VoidUri` of core/protocol/src/lib.rs, addresses void://authority/path?query.
--  Protocol/Frame: the envelope and frames of core/protocol/src/lib.rs; Frame/Codec has
--   `encode_envelope` and `decode_envelope`.
--  Protocol/Ui: the page language of core/protocol/src/ui.rs. Ui/Lexer is `tokenize`, Ui/Parser is
--   `Parser`, and Ui/Printer is a printer that serves as the description of the language. Actions of
--   buttons are addresses of Protocol/Uri.
--  Identity: `sign_bytes` and `verify_bytes` of core/identity/src/lib.rs; Identity/Presence has the
--   signed presence of a peer, Identity/Node the ed25519 identity and its store.
--  Dns/Domain, Dns/Record, Dns/Cache: `VoidDomain`, `DnsRecord` and `PersistentVoidDns` of
--   core/dns/src/lib.rs. Identity signs the records, and `apply_record` calls `verify` first.
--   Cache has `apply_record`, Cache/Lookup the purge and the lookups, Cache/Publish `publish_record`.
--  Transport/Lifecycle: `LifecycleEngine` of core/transport/src/lifecycle.rs.
--  Transport/Topology: `PeerTopology` of core/transport/src/topology.rs. Peers and Sessions have the
--   operations on one peer, Mesh those on all peers and on the node, Network those on addresses and
--   bootstrap peers, Reachability the judgement of addresses.
--  Chat/Replay: `ReplayProtector` of apps/void-chat/src/lib.rs. Chat/Message, Chat/Unsigned and
--   Chat/Signed: its messages, what of them is signed, `new` and `verify`. Chat/Cipher: session keys
--   and encryption. Chat/Topic: names of topics. Chat/Rooms and Chat/Inbox: rooms with their merge,
--   inbox and notifications.
--  Node: the chat of core/transport/src/node.rs, which uses Identity, Chat and Transport/Topology.
--   Node/State is `ChatRuntimeState` with the topology and the events (Node/Event) that a handler
--   changes, and the type of handlers. Node/Session has the guards `verify` and `check_and_record`,
--   and what is sent over a session; Node/Negotiation the offers and acknowledgements; Node/Receive and
--   Node/Rooms the messages that come in; Node/Command the commands of the user; Node/Handle the entry
--   points `handle_chat_wire_message` and `handle_chat_command_tick` and the actions.
--  Runtime: the permissions of surfaces in core/runtime/src/lib.rs. Runtime/State has the records,
--    Runtime/Permissions the grants, the checks and `negotiate_capabilities`.
-- The other files hold proofs and are named for what they prove; a file Tests holds runs and instances.
--
-- Conventions: an operation with `&mut self` takes the state last and returns the new one, with its
-- answer where it has one. Operations run one at a time, so none comes between the purge and the
-- lookup of `resolve`, which the source makes under two locks. The clock is an argument: a time, or a
-- `Clock` that gives the time at each place of the operation that reads it. Counters of 32 bits saturate as in the source; times do not
-- reach the bound of u128. What the source draws at random is an argument too; in Node the n-th draw of
-- a node is `env n`. A handler of Node keeps the state it has reached where it fails. A write to disk is an argument that may fail after the state has changed.
--
-- Fuel: the lexer runs on one more step than the text has characters, the parser on one more than
-- there are tokens, decimal digits on one more than the number. That is enough because every step takes
-- a character, a token or a digit; `out_of_fuel` is an outcome of its own.
--
-- Parameters: bincode, base64, the keys of libp2p and of ed25519, x25519, AES-GCM, JSON and blake3, the
-- answers of gossipsub, and the parser of multiaddresses. What is assumed of them is written as
-- `IsFaithful`, `IsSound`, `IsSoundCipher` and `IsReadBack`.
--
-- Not modelled: files and their formats, the rendering of tables and of log lines, the asynchronous
-- loop of core/transport/src/node.rs over the swarm and its DNS ticks, the rest of core/runtime,
-- core/storage, and the other applications under apps.
pub mod Base
pub mod Protocol
pub mod Identity
pub mod Dns
pub mod Transport
pub mod Chat
pub mod Node
pub mod Runtime
