-- ===== src/Election/FirstRound.antt =====
-- What Watch makes of the first answer to its GetLeader.
use etcdv3client.Prelude.{ℕ, suc, pos, ◌≡◌, refl, true, false, [], ◌∷◌, arith, ap, ◌==ℤ◌}
use etcdv3client.Bytes.{Bytes}
use etcdv3client.Status.{StatusLibrary, GrpcStatus, code-make_default}
use etcdv3client.Prefix.{CharKind}
use etcdv3client.Client.{Client}
use etcdv3client.Proto.Kv.{KeyValue, RangeResponse}
use etcdv3client.Election.{get_leader, is_new_leader, fetch_loop, watch, fetched}
use etcdv3client.Election.Node.{ElectionNode, ElectionWatchOptions}
use etcdv3client.Effect.Logic
use etcdv3client.Effect.Logic.{Model, Holds}
use etcdv3client.Election.Leader.{
  answering, node_of, context-answering, Result, get_leader_finds, get_leader_keeps,
}

module _ (lib : StatusLibrary) (c : CharKind) (client : Client) (ctx : ℕ) (key_prefix : Bytes)
    (options : ElectionWatchOptions) (st : GrpcStatus) (rsp : RangeResponse) where
  fetch_loop-leader :
      (n backoff : ℕ) (node leader : ElectionNode)
      → ((context : ℕ)
          → Holds
              (answering st rsp)
              (Result lib 0 leader)
              (get_leader lib c client context key_prefix node)
              tt)
      → Holds
          (answering st rsp)
          (λ f _. f ≡ fetched leader)
          (fetch_loop lib c client ctx key_prefix options (suc n) backoff node)
          tt
  unfolding fetch_loop
  fetch_loop-leader n backoff node leader answers =
      context-answering st rsp (λ f _. f ≡ fetched leader) options.get_grpc_client_context_func _
        λ context.
          Logic.bind (answering st rsp) (Result lib 0 leader) (λ f _. f ≡ fetched leader)
            (get_leader lib c client context key_prefix node) _ tt (answers context)
            (λ r _ _ h. rw (lib.is_ok_lem r.0, h.0) (tt, ap fetched h.1))

  -- One round of Watch, where GetLeader answers OK with a node that counts as a new leader.
  watch_new :
      (n : ℕ) (node leader : ElectionNode)
      → ((context : ℕ)
          → Holds
              (answering st rsp)
              (Result lib 0 leader)
              (get_leader lib c client context key_prefix node)
              tt)
      → is_new_leader leader options.revision ≡ true
      → Holds
          (answering st rsp)
          (Result lib 0 leader)
          (watch lib c client ctx key_prefix options (suc n) node)
          tt
  unfolding watch
  watch_new n node leader answers is_new = (
    tt,
    λ backoff _.
        Logic.bind (answering st rsp) (λ f _. f ≡ fetched leader) (Result lib 0 leader)
          (fetch_loop lib c client ctx key_prefix options (suc n) backoff node) _ tt
          (fetch_loop-leader n backoff node leader answers)
          (λ f _ _ h. rw h (rw is_new (tt, (code-make_default lib, refl)))),
  )

  -- Watch with revision 0, while every Range request is answered by OK and one key-value pair with a lease:
  -- every run returns, with an OK status and the node of that pair.
  watch_finds :
      (n : ℕ) (node : ElectionNode) (kv : KeyValue)
      → options.revision ≡ pos 0
      → st.is_ok ≡ true
      → rsp.kvs ≡ kv ∷ []
      → (kv.lease ==ℤ pos 0) ≡ false
      → Holds
          (answering st rsp)
          (Result lib 0 (node_of kv rsp.header.revision))
          (watch lib c client ctx key_prefix options (suc n) node)
          tt
  unfolding is_new_leader
  watch_finds n node kv zero_revision good one leased =
      watch_new n node (node_of kv rsp.header.revision)
        (λ context. get_leader_finds lib c client context key_prefix node st rsp kv good one)
        (rw (zero_revision, leased) refl)

  -- The node that the caller passes in has a lease, and the revision is 0 or below its create revision.
  -- Then Watch, while every Range request is answered by OK and no key-value pair, returns in every run,
  -- with an OK status and that old node, although there is no leader.
  watch_stale :
      (n : ℕ) (node : ElectionNode)
      → is_new_leader node options.revision ≡ true
      → st.is_ok ≡ true
      → rsp.kvs ≡ []
      → Holds
          (answering st rsp)
          (Result lib 0 (record node { current_revision = rsp.header.revision }))
          (watch lib c client ctx key_prefix options (suc n) node)
          tt
  unfolding is_new_leader
  watch_stale n node is_new good nobody =
      watch_new n node (record node { current_revision = rsp.header.revision })
        (λ context.
          get_leader_keeps lib c client context key_prefix node st rsp good
            (rw nobody (λ e. omega arith)))
        is_new
