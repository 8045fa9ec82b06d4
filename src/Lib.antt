-- ===== src/Lib.antt =====
-- A verification library for etcdv3client, a C++ client of etcd v3.
--
-- The program. `Client` (etcdv3client/client.h, client.cc) makes a channel through a `Transport` and a stub
-- for each service of etcd, and turns its methods into requests, whose fields `Options` objects set
-- (etcdv3client/kv.h, lease.h, watch.h and their .cc files). `Session` (etcdv3client/session.h, session.cc)
-- runs a worker thread over a client that grants a lease, keeps it alive and revokes it in the end.
-- `Client::ElectionImpl` (etcdv3client/election.cc) reads and watches the leader of an election with the
-- client's Range and WatchSingle, and makes a `LeaderSession` over a session.
--
-- The files.
--   Prelude, Bytes        Booleans, lists, integers over the native numbers; keys and values as bytes.
--   Proto                 The messages of proto/rpc.proto and proto/kv.proto that the client builds or reads.
--   Options               `Options<T>` of etcdv3client/common.h: a list of setters; `apply` runs them in order.
--   Prefix                `GetPrefixRangeEnd` of etcdv3client/common.cc, for either kind of `char`.
--                         Prefix/Range is what proto/rpc.proto says of keys and range ends.
--   Status                etcdv3client/status.h over maybecommon::Status, a parameter `StatusLibrary`.
--   Effect                Programs (`Prog`): they make calls to the code outside the repository, gRPC and the
--                         server behind it, contexts, the clock, threads, and go on with any reply of the
--                         right type. Effect/Logic is a program logic over a model that watches the calls,
--                         Effect/Run runs a program in an environment,
--                         Effect/Stalls runs one where Finish of a stream may never be answered,
--                         Effect/Protocol is a logic of which calls may follow which.
--   Client                The constructors of etcdv3client/client.cc and etcdv3client/transport.h; Client/Stubs
--                         is about what they make.
--   Kv, Txn, Lease, Watch The requests, a function `client_...` for each method of `Client`, and the options,
--                         a function `with_...` for each method. Kv/Prefixes joins Kv and Prefix. The modules
--                         Permuted, Complete and Unordered are about the order and the reach of chained methods.
--   Session               `TryGrant`, `TryKeepAlive`, `TryRevoke` and `GrantAndKeepAlive`; Session/Methods has
--                         `Grant`, `Close`, the destructor and the accessors. The fields that the worker
--                         alone writes are passed along as a `LeaseState`.
--                         Session/View says what the calls of the worker tell of its state, and Granting,
--                         KeepingAlive, Looping, Revoking, Patience and Termination are the steps to Worker.
--                         Session/Calling and Callers are about calls of `Grant` and `Close` in any order.
--                         Session/Requests is about the leases that the worker's requests name, Hope and
--                         Liveness about the alive event, and Counter about the int that counts requests to revoke.
--                         Session/System is a step relation: the worker and the callers, interleaved in any
--                         order over the three events and the thread object. `Grant` and `Close` hold the
--                         mutex throughout, so one caller at a time is inside of them. Contracts, Core and
--                         Invariant carry its invariant; Safety, Progress, Phases and Unblocked say what
--                         follows.
--   Election              `GetLeader` and `Watch`; Election/Node has `ElectionNode` and the options. Leader is
--                         about `GetLeader`, FirstRound about its first answer in `Watch`, Requests about the
--                         watch that follows, Watching, Rounds and Termination about the whole of `Watch`,
--                         Conversation about what it asks in view of the answers, Change about stores in
--                         which the leader changes while it watches, Revisions about the bounds of its
--                         revisions.
--   LeaderSession         etcdv3client/leader_session.h and leader_session.cc, where most bodies are empty.
--   Interfaces            The abstract classes KVInterface, WatchInterface, LeaseInterface and
--                         ElectionInterface as records of operations, and Client and Client::ElectionImpl as
--                         their implementations.
--   Wire                  The rules of gRPC for contexts, stubs and streams as a state that calls change, and
--                         programs that keep to them: Lease and LeaseLoops for the worker of a session,
--                         Watching and WatchLoops for an election, Methods for the methods of the interfaces.
--                         `wire` has all of the rules, `loose_wire` lets Finish be called of a stream on which
--                         messages can still come; EarlyFinish is about where `Watch` does that.
--   Tests                 Runs at concrete inputs.
--
-- Fuel. The loops of a session and of `Watch` have no bound of their own, so they get a number of rounds and
-- end in `out_of_fuel`, which is no result, when these are used up. Each round of a session's loops asks
-- whether the close event is finished, so that more rounds than unfinished answers are enough; Session/System
-- takes any number of such answers (`patience`) below the number of rounds. Each round of
-- the loops of `Watch` but the last waits for the context or reads an answer. The loops of `TryRevoke` and
-- of `GetPrefixRangeEnd` are bounded by the code itself.
--
-- Finish. gRPC answers Finish of a stream when the server has ended it. In etcdv3client/session.cc the stream
-- has failed or been cancelled by then; in etcdv3client/election.cc a watch may go on. An entry by which `Watch`
-- returns takes it that the server ends those watches: as the hypothesis `EndsStreams` of Effect/Stalls, or,
-- where the entry is about what `Watch` gives (Election/Change, `Gives`), since Effect/Run answers every call.
--
-- Bounds. A byte is a number below 256 and `++` wraps on it. The int64 fields are integers without a bound;
-- Election/Revisions names bounds of what `Watch` is given and is about its sums. The int that counts the
-- requests to revoke is the number of rounds that are left, and in Session/Counter a number with the room that
-- is left up to the maximum of an int, of which an increment without room has no result.
--
-- Not modelled: logging; the bodies of gRPC, of etcd, of `context`, of `cbase` and of `maybecommon`, which
-- are not part of the repository; the accessors that only read a field; the stubs for clusters, maintenance
-- and authentication, which are made and not used.
pub mod Prelude
pub mod Bytes
pub mod Proto
pub mod Options
pub mod Prefix
pub mod Status
pub mod Effect
pub mod Client
pub mod Kv
pub mod Txn
pub mod Lease
pub mod Watch
pub mod Session
pub mod Election
pub mod LeaderSession
pub mod Interfaces
pub mod Wire
pub mod Tests
