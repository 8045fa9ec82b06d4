-- ===== src/Election/Conversation/Watch.antt =====
-- `Watch` keeps to the protocol of its conversation with the server.
use etcdv3client.Prelude.{ℕ, zero, suc, ℤ, ◌≡◌, refl, sym, ap, subst, inl, inr, Option, none, some}
use etcdv3client.Bytes.{Bytes}
use etcdv3client.Status.{StatusLibrary, make}
use etcdv3client.Prefix.{CharKind}
use etcdv3client.Client.{Client}
use etcdv3client.Election.{
  is_new_leader, Fetched, cancelled, fetched, fetch_loop, watch_next, leader_loop, watch,
}
use etcdv3client.Election.Node.{ElectionNode, ElectionWatchOptions}
use etcdv3client.Effect.{Prog, ret}
use etcdv3client.Effect.Protocol
use etcdv3client.Effect.Protocol.{Protocol, Obeys}
use etcdv3client.Election.Conversation.{Seen, conversation, Answer}
use etcdv3client.Election.Conversation.Fetch.{seen, node_of, fetch_loop-took}
use etcdv3client.Election.Conversation.Heard.{Watched, watch_loop-Watched}

module _ (lib : StatusLibrary) (c : CharKind) (client : Client) (ctx : ℕ) (key_prefix : Bytes)
    (options : ElectionWatchOptions) where
  branch_fetched :
      (f : Fetched) (go : ElectionNode → Prog (lib.Status × ElectionNode)) (revision : ℤ) (t : Seen)
      → t ≡ seen (node_of f) revision
      → ((node : ElectionNode)
          → Obeys (conversation c key_prefix) (Answer lib) (go node) (seen node revision))
      → Obeys
          (conversation c key_prefix)
          (Answer lib)
          (elim f [ cancelled node ↦ ret (make lib lib.cancelled, node) | fetched node ↦ go node ])
          t
  branch_fetched (cancelled node) go revision t e h = (sym (ap (λ s. s.node) e), inr refl)
  branch_fetched (fetched node) go revision t e h =
      subst (Obeys (conversation c key_prefix) (Answer lib) (go node)) (sym e) (h node)

  branch-Watched :
      (event : Option ℤ) (node : ElectionNode) (revision : ℤ)
      (go : ℤ → Prog (lib.Status × ElectionNode)) (t : Seen)
      → Watched node revision event t
      → ((next : ℤ) → Obeys (conversation c key_prefix) (Answer lib) (go next) (seen node next))
      → Obeys
          (conversation c key_prefix)
          (Answer lib)
          (elim event [ none ↦ ret (make lib lib.cancelled, node) | some next ↦ go next ])
          t
  branch-Watched none node revision go t e h = (sym (ap (λ s. s.node) e), inr refl)
  branch-Watched (some next) node revision go t e h =
      subst (Obeys (conversation c key_prefix) (Answer lib) (go next)) (sym e) (h next)

  leader_loop-Answer :
      (inner n backoff : ℕ) (node : ElectionNode) (revision : ℤ)
      → Obeys
          (conversation c key_prefix)
          (Answer lib)
          (leader_loop lib c client ctx key_prefix options inner n backoff node revision)
          (seen node revision)
  unfolding leader_loop watch_next
  leader_loop-Answer inner zero backoff node revision = tt
  leader_loop-Answer inner (suc n) backoff node revision =
      Protocol.bind (conversation c key_prefix) (λ f t. t ≡ seen (node_of f) revision) (Answer lib)
        (fetch_loop lib c client ctx key_prefix options inner backoff node) _ (seen node revision)
        (fetch_loop-took lib c client ctx key_prefix options inner backoff node revision)
        (λ f t e. branch_fetched f _ revision t e λ node'.
          Protocol.branch (conversation c key_prefix) (Answer lib) (is_new_leader node' revision) _
            _ (seen node' revision) (λ new. (refl, inl (refl, new)))
            (λ _.
              Protocol.bind (conversation c key_prefix) (Watched node' revision) (Answer lib)
                (watch_next lib c client ctx key_prefix options inner backoff node' revision) _
                (seen node' revision)
                (
                  tt,
                  λ _.
                      watch_loop-Watched lib c client ctx key_prefix options node' revision inner
                        inner backoff,
                )
                (λ event u e'.
                  branch-Watched event node' revision _ u e'
                    (λ next. leader_loop-Answer inner n backoff node' next))))

-- Whatever the replies: each range request of Watch asks for the key with the prefix that was created first,
-- and each watch request is the one that `watch_options` gives for the node and the revision seen so far.
-- Where Watch returns, the caller's node is what the good answers to the range requests make of it, one after
-- the other; the status is OK, and that node is a new leader by the revision that the last event gave, or it
-- is Cancelled.
pub watch-Answer :
    (lib : StatusLibrary) (c : CharKind) (client : Client) (ctx : ℕ) (key_prefix : Bytes)
    (options : ElectionWatchOptions) (n : ℕ) (node : ElectionNode)
    → Obeys
        (conversation c key_prefix)
        (Answer lib)
        (watch lib c client ctx key_prefix options n node)
        (record { node = node; revision = options.revision })
unfolding watch
watch-Answer lib c client ctx key_prefix options n node = (
  tt,
  λ backoff.
      leader_loop-Answer lib c client ctx key_prefix options n n backoff node options.revision,
)
