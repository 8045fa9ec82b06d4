-- ===== src/Election/Leader.antt =====
-- GetLeader, answer by answer.
use etcdv3client.Prelude.{
  ℕ, ℤ, ◌≡◌, ◌≢◌, refl, true, false, List, [], ◌∷◌, arith, length, Option, none, some, ◌⊎◌, inl,
  inr, Bool-cases,
}
use etcdv3client.Bytes.{Bytes}
use etcdv3client.Status.{StatusLibrary, GrpcStatus, code-make_default, code-make}
use etcdv3client.Prefix.{CharKind}
use etcdv3client.Client.{Client}
use etcdv3client.Proto.Kv.{KeyValue, RangeResponse}
use etcdv3client.Election.{take_leader, get_leader}
use etcdv3client.Election.Node.{ElectionNode}
use etcdv3client.Effect.{Call, Reply, Prog, ◌>>=◌, range, get_grpc_client_context}
use etcdv3client.Session.Options.{ContextFunction}
use etcdv3client.Effect.Logic
use etcdv3client.Effect.Logic.{Model, Holds}

abbrev pub Answers : GrpcStatus → RangeResponse → (c : Call) → Reply c → Type 0
Answers st rsp (range stub context req) r = r ≡ (st, rsp)
Answers st rsp _ r = Unit {0}

-- Runs in which every Range request is answered by `st` and `rsp`. None may use up its rounds.
abbrev pub answering : GrpcStatus → RangeResponse → Model
answering st rsp = record {
  State = Unit {0};
  observe = λ c r s. tt;
  Allowed = λ c r s. Answers st rsp c r;
  Invariant = λ s. Unit {0};
  Starved = λ s. ⊥;
}

-- The node that a key-value pair and the revision of a response describe.
abbrev pub node_of : KeyValue → ℤ → ElectionNode
node_of kv revision = record {
  key = kv.key;
  value = kv.value;
  lease = kv.lease;
  version = kv.version;
  create_revision = kv.create_revision;
  mod_revision = kv.mod_revision;
  current_revision = revision;
}

take_leader-other :
    (kvs : List KeyValue) (node : ElectionNode) → length kvs ≢ 1 → take_leader kvs node ≡ node
unfolding take_leader
take_leader-other [] node h = refl
take_leader-other (kv ∷ []) node h = absurd (h refl)
take_leader-other (kv ∷ kv' ∷ kvs) node h = refl

take_leader-one :
    (kv : KeyValue) (node : ElectionNode) (revision : ℤ)
    → take_leader (kv ∷ []) (record node { current_revision = revision }) ≡ node_of kv revision
unfolding take_leader
take_leader-one kv node revision = refl

pub context-answering :
    (st : GrpcStatus) (rsp : RangeResponse) {A : Type 0} (Q : A → Unit {0} → Type 0)
    (f : Option ContextFunction) (k : ℕ → Prog A)
    → ((context : ℕ) → Holds (answering st rsp) Q (k context) tt)
    → Holds (answering st rsp) Q (get_grpc_client_context f >>= k) tt
unfolding get_grpc_client_context
context-answering st rsp Q none k h = (tt, λ r _. h r)
context-answering st rsp Q (some f) k h = (tt, λ r _. h r)

module _ (lib : StatusLibrary) where
  -- A result of GetLeader or Watch: the value of the status code, and the node.
  abbrev pub Result : ℕ → ElectionNode → lib.Status × ElectionNode → Unit {0} → Type 0
  Result code node res _ = (lib.code res.0 ≡ code) × (res.1 ≡ node)

module _ (lib : StatusLibrary) (c : CharKind) (client : Client) (context : ℕ) (key_prefix : Bytes)
    (node : ElectionNode) (st : GrpcStatus) (rsp : RangeResponse) where
  -- How a call ends: on a failed request with a GRPCError status and the node as it was; on one key-value
  -- pair with an OK status and the node of that pair; and else with an OK status and the node as it was but
  -- for the current revision.
  abbrev pub LeaderCase : lib.Status × ElectionNode → Unit {0} → Type 0
  LeaderCase res u =
      ((st.is_ok ≡ false) × Result lib 1000 node res u)
      ⊎ ((st.is_ok ≡ true)
          × (((kv : KeyValue) × (rsp.kvs ≡ kv ∷ [])
                × Result lib 0 (node_of kv rsp.header.revision) res u)
              ⊎ ((length rsp.kvs ≢ 1)
                  × Result lib 0 (record node { current_revision = rsp.header.revision }) res u)))

  pub get_leader_fails :
      st.is_ok ≡ false
      → Holds
          (answering st rsp)
          (Result lib 1000 node)
          (get_leader lib c client context key_prefix node)
          tt
  unfolding get_leader
  get_leader_fails failed =
      (tt, λ r e. rw e (rw failed (tt, (rw (lib.code-with_value) (code-make lib 1000), refl))))

  answer-ok :
      (leader : ElectionNode)
      → st.is_ok ≡ true
      → take_leader rsp.kvs (record node { current_revision = rsp.header.revision }) ≡ leader
      → Holds
          (answering st rsp)
          (Result lib 0 leader)
          (get_leader lib c client context key_prefix node)
          tt
  unfolding get_leader
  answer-ok leader good e' =
      (tt, λ r e. rw e (rw good (tt, (rw (lib.code-with_value) (code-make_default lib), e'))))

  pub get_leader_finds :
      (kv : KeyValue)
      → st.is_ok ≡ true
      → rsp.kvs ≡ kv ∷ []
      → Holds
          (answering st rsp)
          (Result lib 0 (node_of kv rsp.header.revision))
          (get_leader lib c client context key_prefix node)
          tt
  get_leader_finds kv good one = answer-ok (node_of kv rsp.header.revision) good (rw one taken)
    where
      taken :
          take_leader (kv ∷ []) (record node { current_revision = rsp.header.revision })
          ≡ node_of kv rsp.header.revision
      taken = take_leader-one kv node rsp.header.revision

  pub get_leader_keeps :
      st.is_ok ≡ true
      → length rsp.kvs ≢ 1
      → Holds
          (answering st rsp)
          (Result lib 0 (record node { current_revision = rsp.header.revision }))
          (get_leader lib c client context key_prefix node)
          tt
  get_leader_keeps good other =
      answer-ok (record node { current_revision = rsp.header.revision }) good
        (take_leader-other rsp.kvs _ other)

  kvs_cases : (kvs : List KeyValue) → ((kv : KeyValue) × (kvs ≡ kv ∷ [])) ⊎ (length kvs ≢ 1)
  kvs_cases [] = inr (λ e. omega arith)
  kvs_cases (kv ∷ []) = inl (kv, refl)
  kvs_cases (kv ∷ kv' ∷ kvs) = inr (λ e. omega arith)

  -- GetLeader, where its Range request is answered by `st` and `rsp`, returns in every run, in one of three
  -- ways: with a GRPCError status and the node as it was, if the request failed; with an OK status and the
  -- node of the one key-value pair, if there is exactly one; and with an OK status and the node as it was but
  -- for the current revision, so that an earlier leader stays in it, if there is none or are several.
  pub get_leader_cases :
      Holds (answering st rsp) LeaderCase (get_leader lib c client context key_prefix node) tt
  get_leader_cases = elim (Bool-cases st.is_ok) [
    | inr failed ↦ weaken 1000 node (get_leader_fails failed) (λ res h. inl (failed, h))
    | inl good ↦ elim (kvs_cases rsp.kvs) [
      | inl (kv, one) ↦
          weaken 0 (node_of kv rsp.header.revision) (get_leader_finds kv good one)
            (λ res h. inr (good, inl (kv, one, h)))
      | inr other ↦
          weaken 0 (record node { current_revision = rsp.header.revision })
            (get_leader_keeps good other) (λ res h. inr (good, inr (other, h)))
    ]
  ]
    where
      weaken :
          (code : ℕ) (leader : ElectionNode)
          → Holds
              (answering st rsp)
              (Result lib code leader)
              (get_leader lib c client context key_prefix node)
              tt
          → ((res : lib.Status × ElectionNode) → Result lib code leader res tt → LeaderCase res tt)
          → Holds (answering st rsp) LeaderCase (get_leader lib c client context key_prefix node) tt
      weaken code leader h f =
          Logic.mono (answering st rsp) (Result lib code leader) LeaderCase
            (get_leader lib c client context key_prefix node) tt h (λ res _ _ q. f res q)
