-- ===== src/Tests/Changes.antt =====
-- Runs of Watch over stores that change.
use mathlib.Core.Option.{some-injective}
use etcdv3client.Prelude.{
  leb, ℕ, Bool, true, false, arith, pos, subst, ◌≢◌, ◌<◌, Bool-cases, inl, inr, ◌≡◌, refl, [], ◌∷◌,
  some, none, if◌then◌else◌, ◌==◌,
}
use etcdv3client.Prefix.{signed_char}
use etcdv3client.Proto.Kv.{KeyValue, RangeResponse}
use etcdv3client.Proto.Watch.{WatchResponse, put, delete}
use etcdv3client.Election.Node.{ElectionWatchOptions, default_watch_options, with_revision}
use etcdv3client.Election.Leader.{node_of}
use etcdv3client.Election.Rounds.{limited}
use etcdv3client.Election.Change.{Turnover, Telling, Course, store, changing}
use etcdv3client.Election.Change.Leaders.{
  deletion, creation, Gives, StillGives, leader_appears, leader_changes, leader_gone,
}
use etcdv3client.Election.Change.Steady
use etcdv3client.Election.Change.Steady.{steady, leader_found, old_leader_kept}
use etcdv3client.Effect.{Call, Reply, range, wait, watch_read}
use etcdv3client.Effect.Run.{Environment, both}
use etcdv3client.Tests.Data.{nobody, reply, client, codes, good, key_a, key_ab}
use etcdv3client.Tests.Elections.{leader_pair, one_leader, no_node, leader}

-- The key of the next candidate, and an answer with that alone.
abbrev next_pair : KeyValue
next_pair = record leader_pair { key = key_ab; create_revision = pos 7; lease = pos 11 }

abbrev next_leader : RangeResponse
next_leader = record one_leader { kvs = next_pair ∷ [] }

-- The deletion of the leader's key, and the creation of the next one.
abbrev deleted : WatchResponse
deleted = record {
  events =
      record {
        type = delete;
        kv = record {
          key = key_ab;
          create_revision = pos 0;
          mod_revision = pos 9;
          version = pos 0;
          value = [];
          lease = pos 0;
        };
      }
      ∷ [];
}

abbrev created : WatchResponse
created = record { events = record { type = put; kv = next_pair } ∷ [] }

abbrev known_leader : ElectionWatchOptions
known_leader = with_revision default_watch_options (pos 5)

module _ (change : Turnover) (events : WatchResponse) (telling : Telling change events.events)
    (reachable : ℕ) where
  -- Range requests succeed once no more than `reachable` waits and reads are left, a read is answered by
  -- the events, as long as answers may be given, and then the context is done.
  abbrev answer : (c : Call) → Course × ℕ → Reply c
  answer (range stub context req) s =
      (record good { is_ok = leb s.1 reachable }, store change s.0.changed)
  answer (watch_read stream) s = if s.1 == 0 then none else some events
  answer c s = reply c (s.1 == 0) nobody

  answered-Telling :
      (b : Bool) (rsp : WatchResponse)
      → (if b then none else some events) ≡ some rsp
      → Telling change rsp.events
  answered-Telling true rsp e = ground arith
  answered-Telling false rsp e = subst (λ r. Telling change r.events) (some-injective _ _ e) telling

  positive : (p : ℕ) → (if p == 0 then none else some events) ≢ none → 0 < p
  positive p h = elim (Bool-cases (p == 0)) [
    | inl e ↦ absurd (h (rw e refl))
    | inr e ↦ ground arith
  ]

  answer-Allowed :
      (c : Call) (s : Course × ℕ) → (both (changing change) limited).Allowed c (answer c s) s
  answer-Allowed (range stub context req) s = (λ ok. refl, tt)
  answer-Allowed (watch_read stream) s =
      (answered-Telling (s.1 == 0), λ some_answer. positive s.1 some_answer)
  answer-Allowed (wait w d) s = (tt, λ e. ground arith)
  answer-Allowed _ s = (tt, tt)

  abbrev server : Environment (both (changing change) limited)
  server = record {
    W = Unit {0};
    answer = λ c s w. answer c s;
    advance = λ c s w. tt;
    allowed = λ c s w. answer-Allowed c s;
  }

leader_appears_example :
    StillGives codes signed_char client 9 key_a default_watch_options 4 no_node 3
      (creation nobody next_leader next_pair)
      (server (creation nobody next_leader next_pair) created (λ e. omega arith, tt) 3)
      (λ stream s w. false)
      tt
      (node_of next_pair (pos 8))
leader_appears_example =
    leader_appears codes signed_char client 9 key_a default_watch_options 4 no_node 3 (omega arith)
      nobody next_leader next_pair refl refl refl refl
      (server (creation nobody next_leader next_pair) created (λ e. omega arith, tt) 3)
      (λ stream s w. false) tt (λ stream s w. refl)

leader_changes_example :
    Gives codes signed_char client 9 key_a known_leader 4 no_node 3
      (deletion one_leader next_leader)
      (server (deletion one_leader next_leader) deleted (λ e. refl, tt) 3)
      tt
      (node_of next_pair (pos 8))
leader_changes_example =
    leader_changes codes signed_char client 9 key_a known_leader 4 no_node 3 (omega arith)
      one_leader next_leader leader_pair refl refl refl (omega arith)
      (server (deletion one_leader next_leader) deleted (λ e. refl, tt) 3) tt next_pair refl refl
      (omega arith)

leader_gone_example :
    Gives codes signed_char client 9 key_a known_leader 4 no_node 3
      (deletion one_leader nobody)
      (server (deletion one_leader nobody) deleted (λ e. refl, tt) 3)
      tt
      (record (node_of leader_pair (pos 8)) { current_revision = pos 9 })
leader_gone_example =
    leader_gone codes signed_char client 9 key_a known_leader 4 no_node 3 (omega arith) one_leader
      nobody leader_pair refl refl refl (omega arith)
      (server (deletion one_leader nobody) deleted (λ e. refl, tt) 3) tt refl (omega arith)

-- The first two requests fail.
leader_found_example :
    Steady.Gives one_leader codes signed_char client 9 key_a default_watch_options 4 no_node
      (server (steady one_leader) created (λ e. tt, tt) 1)
      tt
      3
      (node_of leader_pair (pos 8))
leader_found_example =
    leader_found one_leader codes signed_char client 9 key_a default_watch_options 4 no_node
      (server (steady one_leader) created (λ e. tt, tt) 1) tt 3 (omega arith) leader_pair refl refl
      (inl refl)

old_leader_kept_example :
    Steady.Gives nobody codes signed_char client 9 key_a default_watch_options 4 leader
      (server (steady nobody) created (λ e. tt, tt) 1)
      tt
      3
      (record leader { current_revision = pos 9 })
old_leader_kept_example =
    old_leader_kept nobody codes signed_char client 9 key_a default_watch_options 4 leader
      (server (steady nobody) created (λ e. tt, tt) 1) tt 3 (omega arith) refl refl (inl refl)
