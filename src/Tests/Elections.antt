-- ===== src/Tests/Elections.antt =====
-- Runs of the functions on elections.
use etcdv3client.Prelude.{
  ◌==◌, ◌+ℤ◌, ℤ, negsuc, ℕ, Bool, arith, pos, ◌≡◌, refl, true, false, [], ◌∷◌, ◌⊎◌, ◌<ℤ◌, ◌≤ℤ◌,
}
use etcdv3client.Bytes.{eq_bytes}
use etcdv3client.Options.{apply}
use etcdv3client.Prefix.{signed_char, get_prefix_range_end}
use etcdv3client.Proto.Kv.{KeyValue, RangeResponse}
use etcdv3client.Proto.Watch.{
  WatchCreateRequest, create_request, noput, nodelete, put, delete, default_watch_create_request,
}
use etcdv3client.Election.{get_leader, watch, watch_event, watch_options, watch_revision}
use etcdv3client.Election.Node.{
  ElectionNode, get_watch_revision, with_revision, is_valid, default_watch_options,
}
use etcdv3client.Election.Leader.{answering, LeaderCase, node_of, get_leader_cases}
use etcdv3client.Election.Watching.{following}
use etcdv3client.Election.Watching.Outcome.{Outcome}
use etcdv3client.Election.Requests.{watch_request}
use etcdv3client.Election.Conversation.{conversation, Answer}
use etcdv3client.Election.Conversation.Watch.{watch-Answer}
use etcdv3client.Effect.Protocol.{Obeys}
use etcdv3client.Effect.{Call, Reply, wait, watch_read}
use etcdv3client.Effect.Run.{Environment, both}
use etcdv3client.Election.Rounds.{limited}
use etcdv3client.Effect.Logic.{Holds, here, next}
use etcdv3client.Election.Revisions.{Within, watch_starts-Within}
use etcdv3client.Tests.Data.{nobody, reply, client, codes, good, key_a, key_ab}

abbrev pub leader_pair : KeyValue
leader_pair = record {
  key = key_ab;
  create_revision = pos 5;
  mod_revision = pos 6;
  version = pos 1;
  value = key_a;
  lease = pos 7;
}

abbrev pub one_leader : RangeResponse
one_leader = record {
  header = record { revision = pos 8 };
  kvs = leader_pair ∷ [];
  more = false;
  count = pos 1;
}

abbrev pub no_node : ElectionNode
no_node = record {
  key = [];
  value = [];
  lease = pos 0;
  version = pos 0;
  create_revision = pos 0;
  mod_revision = pos 0;
  current_revision = pos 0;
}

abbrev pub leader : ElectionNode
leader = node_of leader_pair (pos 8)

get_leader_cases_example :
    Holds
      (answering good one_leader)
      (LeaderCase codes signed_char client 9 key_a no_node good one_leader)
      (get_leader codes signed_char client 9 key_a no_node)
      tt
get_leader_cases_example = get_leader_cases codes signed_char client 9 key_a no_node good one_leader

watch_request_example :
    let req =
      apply
        (watch_options signed_char leader (watch_revision leader (pos 3)))
        (record default_watch_create_request { key = key_a }) in
    (req.key ≡ key_a)
    × (req.range_end ≡ get_prefix_range_end signed_char key_a)
    × (((is_valid leader ≡ true)
          × (req.filters ≡ noput ∷ [])
          × (watch_event leader ≡ delete)
          × (leader.current_revision <ℤ req.start_revision)
          × (pos 3 ≤ℤ req.start_revision)
          × ((req.start_revision ≡ leader.current_revision +ℤ pos 1)
              ⊎ (req.start_revision ≡ pos 3)))
        ⊎ ((is_valid leader ≡ false)
            × (req.filters ≡ nodelete ∷ [])
            × (watch_event leader ≡ put)
            × (req.start_revision ≡ pos 3)))
unfolding eq_bytes
watch_request_example = watch_request signed_char leader (pos 3) key_a refl

-- There is no leader, every watch fails, and the context is done once the waits have been counted.
abbrev answer : (c : Call) → Bool × ℕ → Reply c
answer c s = reply c (s.1 == 0) nobody

answer-Allowed : (c : Call) (s : Bool × ℕ) → (both following limited).Allowed c (answer c s) s
answer-Allowed (wait w d) s = (tt, λ e. ground arith)
answer-Allowed (watch_read stream) s = (tt, λ e. absurd (e refl))
answer-Allowed _ s = (tt, tt)

abbrev server : Environment (both following limited)
server = record {
  W = Unit {0};
  answer = λ c s w. answer c s;
  advance = λ c s w. tt;
  allowed = λ c s w. answer-Allowed c s;
}

watch-Answer_example :
    Obeys
      (conversation signed_char key_a)
      (Answer codes)
      (watch codes signed_char client 9 key_a default_watch_options 3 no_node)
      (record { node = no_node; revision = pos 0 })
watch-Answer_example = watch-Answer codes signed_char client 9 key_a default_watch_options 3 no_node

-- The bounds of int64.
abbrev int64_min : ℤ
int64_min = negsuc 9223372036854775807

abbrev int64_max : ℤ
int64_max = pos 9223372036854775807

-- The leader is known, so that Watch watches for what comes after the answer that named it.
watch_starts-Within_example :
    let options =
      apply
        (watch_options signed_char leader (pos 9))
        (record default_watch_create_request { key = key_a }) in
    (create : WatchCreateRequest) × (create_request options ≡ create_request create)
    × Within int64_min int64_max create.start_revision
    × (get_watch_revision leader +ℤ pos 1 ≤ℤ int64_max)
unfolding watch
watch_starts-Within_example =
    watch_starts-Within int64_min int64_max codes signed_char client 9 key_a
      (with_revision default_watch_options (pos 5)) 3 no_node (omega arith, omega arith)
      (omega arith)
      (next 3
        (next 8
          (next tt (next (good, one_leader) (next 5 (next 6 here tt) tt) (λ ok. omega arith)) tt)
          tt)
        tt)
