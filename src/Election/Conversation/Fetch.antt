-- ===== src/Election/Conversation/Fetch.antt =====
-- What Watch asks for the leader, and what it makes of the answers.
use etcdv3client.Prelude.{ℕ, zero, suc, ℤ, ◌≡◌, refl, sym, subst}
use etcdv3client.Bytes.{Bytes}
use etcdv3client.Status.{StatusLibrary}
use etcdv3client.Prefix.{CharKind}
use etcdv3client.Client.{Client}
use etcdv3client.Election.{get_leader, Fetched, cancelled, fetched, fetch_loop}
use etcdv3client.Election.Node.{ElectionNode, ElectionWatchOptions}
use etcdv3client.Effect.Protocol
use etcdv3client.Effect.Protocol.{Protocol, Obeys}
use etcdv3client.Election.Conversation.{Seen, conversation, with_context, branch_took}

abbrev pub seen : ElectionNode → ℤ → Seen
seen node revision = record { node = node; revision = revision }

abbrev pub node_of : Fetched → ElectionNode
node_of (cancelled node) = node
node_of (fetched node) = node

module _ (lib : StatusLibrary) (c : CharKind) (client : Client) (ctx : ℕ) (key_prefix : Bytes)
    (options : ElectionWatchOptions) where
  get_leader-took :
      (context : ℕ) (node : ElectionNode) (revision : ℤ)
      → Obeys
          (conversation c key_prefix)
          (λ r t. t ≡ seen r.1 revision)
          (get_leader lib c client context key_prefix node)
          (seen node revision)
  unfolding get_leader
  get_leader-took context node revision = (
    refl,
    λ answer.
        branch_took c key_prefix (λ r t. t ≡ seen r.1 revision) answer.0.is_ok answer.1 _ _
          (seen node revision) refl refl,
  )

  pub fetch_loop-took :
      (n backoff : ℕ) (node : ElectionNode) (revision : ℤ)
      → Obeys
          (conversation c key_prefix)
          (λ f t. t ≡ seen (node_of f) revision)
          (fetch_loop lib c client ctx key_prefix options n backoff node)
          (seen node revision)
  unfolding fetch_loop
  fetch_loop-took zero backoff node revision = tt
  fetch_loop-took (suc n) backoff node revision =
      with_context c key_prefix (λ f t. t ≡ seen (node_of f) revision)
        options.get_grpc_client_context_func _ (seen node revision)
        λ context.
          Protocol.bind (conversation c key_prefix) (λ r t. t ≡ seen r.1 revision)
            (λ f t. t ≡ seen (node_of f) revision) (get_leader lib c client context key_prefix node)
            _ (seen node revision) (get_leader-took context node revision)
            (λ r t e.
              Protocol.branch (conversation c key_prefix) (λ f t. t ≡ seen (node_of f) revision)
                (lib.is_ok r.0) _ _ t (λ _. e)
                (λ _. (
                  tt,
                  λ _. (
                    tt,
                    λ d. (
                      tt,
                      λ stop.
                          Protocol.branch (conversation c key_prefix)
                            (λ f t. t ≡ seen (node_of f) revision) stop _ _ t (λ _. e)
                            (λ _.
                              subst
                                (Obeys (conversation c key_prefix)
                                  (λ f t. t ≡ seen (node_of f) revision) _)
                                (sym e) (fetch_loop-took n backoff r.1 revision)),
                    ),
                  ),
                )))
