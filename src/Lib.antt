-- ===== src/Lib.antt =====
-- Verification of the OpenIM SDK core: the planning of synchronisations, the domain services that
-- keep friends, blacklists, groups, messages, conversations and user profiles, the upload of files,
-- and the session that holds them, from its life cycle to the messages that it sends and receives.
--
-- The program. `crates/openim-sync` compares a server's list with the local one and plans
-- inserts, updates and deletions (`diff_by`), and decides what a version delta asks for
-- (`plan_version_sync`). `crates/openim-domain` holds one service for each kind of data; a service
-- keeps a hash map, checks what it is given, and synchronises the map by a plan of `diff_by`.
-- `crates/openim-session` holds the services of the user who is logged in, opens and closes the
-- resources of a login through an adapter, runs tasks, tells listeners what happens, and brings the
-- messages of the transport into the services. `crates/openim-types` and `crates/openim-errors`
-- hold the shared enums and errors.
--
-- The files. Base and its children are the helpers: Boolean tests, lists, signed integers, keys,
-- hash maps and sets, texts and sorting. Errors is crates/openim-errors/src/lib.rs, Types is
-- crates/openim-types/src/lib.rs. Sync.Diff and Sync.Version are crates/openim-sync/src/lib.rs;
-- Sync.Diff.Reference describes a diff without its index and its set. Domain is
-- crates/openim-domain/src/lib.rs; Domain.Sync is the loop over a plan that every `sync_*` method
-- has, and its children are the theory of that loop: what a plan does to a store. Domain.Relation,
-- Domain.Group, Domain.User, Domain.Message and Domain.Conversation are relation.rs, group.rs,
-- user.rs, message.rs and conversation.rs of crates/openim-domain/src. The children of Domain.File
-- are file.rs: Plan cuts a file into parts, Limit chooses their size, Transfer uploads those that
-- are missing, Requests has the requests that begin and end an upload and Signing the signed ones.
-- Storage is crates/openim-storage-core/src/lib.rs, and Storage.Sqlite is
-- crates/openim-storage-sqlite/src/lib.rs: what its repositories write and how they read it back,
-- over a database whose statements are parameters. Transport has, from
-- crates/openim-transport-core/src/lib.rs, the reconnect policy, the table of pending requests and,
-- in Transport.Wire, the routing of envelopes and the decoding of pushes, and, in Transport.Frames,
-- the address, the acknowledgement and the heartbeats of a connection; the envelopes themselves are
-- of crates/openim-protocol/src. Session is crates/openim-session/src/lib.rs: Config, Tasks,
-- Resources and Events hold what a session is made of, State the session and its life cycle, Batch
-- what messages do to its conversations, Messages how the transport's messages become its own, and
-- Delivery the calls that send and receive. Session.Lifecycle has one step for each of these calls,
-- and its children what every reachable session satisfies. Examples holds runs of the theorems at
-- concrete inputs.
--
-- The model. A method with `&mut self` is an Action: from the state it gives a result and the state
-- that it leaves, also where it ends in an error. A result is a value, an error or a panic (a read
-- of a slice out of range). A hash map is an association list, whose order stands for the
-- unspecified order of iteration; a BTreeMap is one that is read out in the order of its keys; a
-- place that `get_mut` hands out is read and written back under its key. Sorting is a stable
-- insertion sort by the source's comparison. Unsigned integers are natural numbers; what the source
-- adds to a u32 or a u64 is taken modulo the width, as the release profile does, and
-- `saturating_add`, `saturating_mul` and `checked_mul` are written out, the second for a usize of
-- 64 bits. An i32 or an i64 is an integer that is only compared and stored. What implements a trait
-- is a parameter: the function that answers a message for `MessageSender`, the answers of the
-- transport and of the object storage, and for the resource adapter, the handles of resources and
-- the upload client, which keep a state, an Action on it. JSON, protobuf and the crate `url` are
-- parameters too, as are the generated identifiers and the paths of the operating system. What a
-- caller does with the services that `domains_mut` lends is a function of them. What the listeners
-- of a session are called with is a list that the session keeps. `to_string` runs on fuel one above
-- the number, which has at most that many digits; the loop of `plan_multipart` runs on fuel equal
-- to the size of the file, since each turn takes at least one byte; every other loop is structural.
--
-- Not modelled: serialisation, the two searches (they need the lower case of Unicode), the mapping
-- of event payloads to Go listeners (it works on JSON values), the percentage of an upload (a
-- floating point number), the requests of the generated records, the sockets of the transports,
-- what the statements of SQLite say and do, the storage of IndexedDB, the codecs of the protocol, the
-- native session around the session, the bindings and the tools.
pub mod Base
pub mod Errors
pub mod Types
pub mod Action
pub mod Sync
pub mod Domain
pub mod Transport
pub mod Storage
pub mod Session
pub mod Examples
