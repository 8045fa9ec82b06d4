-- ===== src/Election/Node.antt =====
-- `ElectionNode` and the option classes of etcdv3client/election.h.
use etcdv3client.Prelude.{ℤ, pos, Bool, true, false, not, Option, none, some, ◌==ℤ◌}
use etcdv3client.Bytes.{Bytes}
use etcdv3client.Lease.{invalid_lease_id}
use etcdv3client.Proto.Kv.{KeyValue}
use etcdv3client.Session.Options.{ContextFunction}

-- `ElectionNode()` initialises none of the fields, so a fresh node is an arbitrary one.
pub record ElectionNode : Type 0 where
  pub key : Bytes
  pub value : Bytes
  pub lease : ℤ
  pub version : ℤ
  pub create_revision : ℤ
  pub mod_revision : ℤ
  pub current_revision : ℤ

unfoldable pub is_valid : ElectionNode → Bool
is_valid node = not (node.lease ==ℤ invalid_lease_id)

unfoldable pub get_watch_revision : ElectionNode → ℤ
get_watch_revision node = node.current_revision

unfoldable pub set_bykv : ElectionNode → KeyValue → ElectionNode
set_bykv node kv = record node {
  key = kv.key;
  value = kv.value;
  lease = kv.lease;
  version = kv.version;
  create_revision = kv.create_revision;
  mod_revision = kv.mod_revision;
}

unfoldable pub set_current_revision : ElectionNode → ℤ → ElectionNode
set_current_revision node revision = record node { current_revision = revision }

pub record ElectionWatchOptions : Type 0 where
  pub revision : ℤ
  pub get_grpc_client_context_func : Option ContextFunction

-- `ElectionWatchOptions()`, value-initialised.
abbrev pub default_watch_options : ElectionWatchOptions
default_watch_options = record { revision = pos 0; get_grpc_client_context_func = none }

abbrev pub with_revision : ElectionWatchOptions → ℤ → ElectionWatchOptions
with_revision o revision = record o { revision = revision }

abbrev pub with_get_grpc_client_context_func :
    ElectionWatchOptions → ContextFunction → ElectionWatchOptions
with_get_grpc_client_context_func o f = record o { get_grpc_client_context_func = some f }

pub record CampaignOptions : Type 0 where
  pub donot_auto_start : Bool
  pub get_grpc_client_context_func : Option ContextFunction

-- `CampaignOptions()`, value-initialised.
abbrev pub default_campaign_options : CampaignOptions
default_campaign_options = record { donot_auto_start = false; get_grpc_client_context_func = none }

abbrev pub with_donot_auto_start : CampaignOptions → CampaignOptions
with_donot_auto_start o = record o { donot_auto_start = true }

abbrev pub with_client_context : CampaignOptions → ContextFunction → CampaignOptions
with_client_context o f = record o { get_grpc_client_context_func = some f }
