-- ===== src/Wire/EarlyFinish.antt =====
-- `Watch` of an election calls Finish on a watch that the server has not ended.
use etcdv3client.Prelude.{ℕ, pos, true, false, [], ◌∷◌}
use etcdv3client.Bytes.{Bytes}
use etcdv3client.Status.{StatusLibrary, GrpcStatus}
use etcdv3client.Prefix.{CharKind}
use etcdv3client.Client.{Client}
use etcdv3client.Proto.Kv.{KeyValue, RangeResponse}
use etcdv3client.Proto.Watch.{WatchResponse, put}
use etcdv3client.Election.{take_leader}
use etcdv3client.Election.Node.{ElectionNode, ElectionWatchOptions, set_current_revision}
use etcdv3client.Effect.{Prog, call, finish}
use etcdv3client.Effect.Logic.{Reach}
use etcdv3client.Effect.Protocol
use etcdv3client.Wire.{Wire, streaming, wire}

-- The pair of a candidate without a lease, which is no leader.
abbrev lone_pair : KeyValue
lone_pair = record {
  key = [];
  create_revision = pos 0;
  mod_revision = pos 0;
  version = pos 1;
  value = [];
  lease = pos 0;
}

abbrev lone_response : RangeResponse
lone_response = record {
  header = record { revision = pos 1 };
  kvs = lone_pair ∷ [];
  more = false;
  count = pos 1;
}

abbrev good : GrpcStatus
good = record { is_ok = true; error_code = 0; error_message = [] }

abbrev creation : WatchResponse
creation = record { events = record { type = put; kv = lone_pair } ∷ [] }

-- What a run of the client on the wire can reach, whatever the replies.
abbrev Reaches : Client → {A : Type 0} → Prog A → Wire → Prog A → Wire → Type 0
Reaches client = Reach (Protocol.answered_by (wire client) (λ c r w. Unit {0}))

-- It can come to a Finish of a watch on which no read has failed.
abbrev CanFinishEarly : Client → {A : Type 0} → Prog A → Wire → Type 0
CanFinishEarly client {A} p w =
    (k : GrpcStatus → Prog A) × Reaches client p w (call (finish 0) k)
      (streaming 0 0 false true false)

module _ (lib : StatusLibrary) (c : CharKind) (client : Client) (ctx : ℕ) (key_prefix : Bytes)
    (options : ElectionWatchOptions) where
  abbrev leaderless : ElectionNode → ElectionNode
  leaderless node = take_leader (lone_pair ∷ []) (set_current_revision node (pos 1))
