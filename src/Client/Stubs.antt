-- ===== src/Client/Stubs.antt =====
-- What the constructors of etcdv3client/client.cc make.
use etcdv3client.Prelude.{ℕ, ◌≡◌, refl, List, [], ◌∷◌}
use etcdv3client.Bytes.{Bytes}
use etcdv3client.Client.{Client, standard, new_client_of_target}
use etcdv3client.Effect.{
  Service, Call, Reply, create_channel, new_stub, kv, watch, lease, cluster, maintenance, auth,
}
use etcdv3client.Effect.Logic.{Model, Holds}

module _ (channel : ℕ) (stub : Service → ℕ → ℕ) where
  abbrev pub Given : (c : Call) → Reply c → List Call → Type 0
  Given (create_channel target) r calls = r ≡ channel
  Given (new_stub service c) r calls = r ≡ stub service c
  Given _ r calls = Unit {0}

  -- gRPC answers with `channel` and with `stub`; the calls are noted, the last one first.
  abbrev pub noting : Model
  noting = record {
    State = List Call;
    observe = λ c r calls. c ∷ calls;
    Allowed = Given;
    Invariant = λ calls. Unit {0};
    Starved = λ calls. ⊥;
  }

  -- The client on one channel.
  abbrev pub wired : Client
  wired = record {
    transport = standard (record { channel = channel });
    kv_stub = stub kv channel;
    watch_stub = stub watch channel;
    lease_stub = stub lease channel;
    cluster_stub = stub cluster channel;
    maintenance_stub = stub maintenance channel;
    auth_stub = stub auth channel;
  }

  -- New(target), whatever channel and stubs gRPC gives, returns in every run; it has made one channel, to
  -- the target, and then one stub for each service on that channel, and the client has each stub in the
  -- field of its service.
  pub new_client_wires :
      (target : Bytes)
      → Holds noting
          (λ client calls.
            (client ≡ wired)
            × (calls
                ≡ new_stub auth channel
                  ∷ new_stub maintenance channel
                  ∷ new_stub cluster channel
                  ∷ new_stub lease channel
                  ∷ new_stub watch channel
                  ∷ new_stub kv channel
                  ∷ create_channel target
                  ∷ []))
          (new_client_of_target target)
          []
  unfolding new_client_of_target
  new_client_wires target = (
    tt,
    λ c e. rw e (
      tt,
      λ s₁ e₁. (
        tt,
        λ s₂ e₂. (
          tt,
          λ s₃ e₃. (
            tt,
            λ s₄ e₄. (tt, λ s₅ e₅. (tt, λ s₆ e₆. (tt, (rw (e₁, e₂, e₃, e₄, e₅, e₆), refl)))),
          ),
        ),
      ),
    ),
  )
