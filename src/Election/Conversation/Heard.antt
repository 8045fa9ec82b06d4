-- ===== src/Election/Conversation/Heard.antt =====
-- What Watch asks of its watch for events, and what it makes of the answers.
use etcdv3client.Prelude.{ℕ, zero, suc, ℤ, ◌≡◌, refl, sym, subst, Option, none, some}
use etcdv3client.Bytes.{Bytes}
use etcdv3client.Status.{StatusLibrary}
use etcdv3client.Prefix.{CharKind}
use etcdv3client.Client.{Client}
use etcdv3client.Election.{
  watch_revision, watch_options, watch_event, find_event, ReadEnd, found, again, stopped,
  read_failed, read_loop, watch_loop,
}
use etcdv3client.Election.Node.{ElectionNode, ElectionWatchOptions}
use etcdv3client.Effect.{Prog, ret}
use etcdv3client.Effect.Protocol
use etcdv3client.Effect.Protocol.{Protocol, Obeys}
use etcdv3client.Election.Conversation.{
  Seen, moved, conversation, with_context, branch_heard, branch_moved,
}
use etcdv3client.Election.Conversation.Fetch.{seen}

-- The revision that the watch gives, if it gives one.
abbrev after_read : ReadEnd → Seen → Seen
after_read (found revision) s = moved (some revision) s
after_read again s = s
after_read stopped s = s

abbrev pub Watched : ElectionNode → ℤ → Option ℤ → Seen → Type 0
Watched node revision event t = t ≡ moved event (seen node revision)

module _ (lib : StatusLibrary) (c : CharKind) (client : Client) (ctx : ℕ) (key_prefix : Bytes)
    (options : ElectionWatchOptions) where
  module _ (node : ElectionNode) (revision : ℤ) where
    abbrev Read : ReadEnd → Seen → Type 0
    Read end t = t ≡ after_read end (seen node revision)

    read_failed-Read :
        (backoff stream : ℕ)
        → Obeys
            (conversation c key_prefix)
            Read
            (read_failed lib c client ctx key_prefix options backoff stream)
            (seen node revision)
    unfolding read_failed
    read_failed-Read backoff stream = (
      tt,
      λ status. (
        tt,
        λ _. (
          tt,
          λ d. (
            tt,
            λ stop.
                Protocol.branch (conversation c key_prefix) Read stop _ _ (seen node revision)
                  (λ _. refl) (λ _. refl),
          ),
        ),
      ),
    )

    read_loop-Read :
        (n backoff stream : ℕ)
        → Obeys
            (conversation c key_prefix)
            Read
            (read_loop lib c client ctx key_prefix options n backoff stream (watch_event node))
            (seen node revision)
    unfolding read_loop
    read_loop-Read zero backoff stream = tt
    read_loop-Read (suc n) backoff stream = (
      tt,
      λ answer.
          branch_heard c key_prefix Read answer _ _ (seen node revision)
            (read_failed-Read backoff stream)
            (λ rsp.
              branch_moved c key_prefix Read (find_event (watch_event node) rsp.events) _ _
                (seen node revision) (read_loop-Read n backoff stream) (λ next. (tt, λ _. refl))),
    )

    branch-Read :
        (end : ReadEnd) (more : Prog (Option ℤ)) (t : Seen)
        → Read end t
        → Obeys (conversation c key_prefix) (Watched node revision) more (seen node revision)
        → Obeys
            (conversation c key_prefix)
            (Watched node revision)
            (elim end [ found next ↦ ret (some next) | again ↦ more | stopped ↦ ret none ])
            t
    branch-Read (found next) more t e h = e
    branch-Read again more t e h =
        subst (Obeys (conversation c key_prefix) (Watched node revision) more) (sym e) h
    branch-Read stopped more t e h = e

    pub watch_loop-Watched :
        (inner n backoff : ℕ)
        → Obeys
            (conversation c key_prefix)
            (Watched node revision)
            (watch_loop lib c client ctx key_prefix options inner n backoff
              (watch_options c node (watch_revision node revision))
              (watch_event node))
            (seen node revision)
    unfolding watch_loop
    watch_loop-Watched inner zero backoff = tt
    watch_loop-Watched inner (suc n) backoff =
        with_context c key_prefix (Watched node revision) options.get_grpc_client_context_func _
          (seen node revision)
          λ context. (
            tt,
            λ stream. (
              refl,
              λ _.
                  Protocol.bind (conversation c key_prefix) Read (Watched node revision)
                    (read_loop lib c client ctx key_prefix options inner backoff stream
                      (watch_event node))
                    _ (seen node revision) (read_loop-Read inner backoff stream)
                    (λ end t e. branch-Read end _ t e (watch_loop-Watched inner n backoff)),
            ),
          )
