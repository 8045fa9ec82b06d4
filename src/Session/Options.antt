-- ===== src/Session/Options.antt =====
-- `SessionOptions` of etcdv3client/session.h, and the callback type of etcdv3client/common.h.
use etcdv3client.Prelude.{ℕ, ℤ, pos, Option, none, some}

-- A non-null `GetGRPCClientContextFunction`, by name: what it returns is a reply of the environment.
pub record ContextFunction : Type 0 where
  pub name : ℕ

pub record SessionOptions : Type 0 where
  pub lease : ℤ
  pub ttl : ℤ
  pub revoke_max_retry_times : ℤ
  pub retry_min_wait_time : ℤ
  pub retry_max_wait_time : ℤ
  pub get_grpc_client_context_func : Option ContextFunction

-- `SessionOptions()`: value-initialised, so the fields without an initialiser are zero.
abbrev pub default_options : SessionOptions
default_options = record {
  lease = pos 0;
  ttl = pos 60;
  revoke_max_retry_times = pos 0;
  retry_min_wait_time = pos 1;
  retry_max_wait_time = pos 60;
  get_grpc_client_context_func = none;
}

abbrev pub with_ttl : SessionOptions → ℤ → SessionOptions
with_ttl o t = record o { ttl = t }

abbrev pub with_lease : SessionOptions → ℤ → SessionOptions
with_lease o id = record o { lease = id }

abbrev pub with_max_revoke_retry : SessionOptions → ℤ → SessionOptions
with_max_revoke_retry o times = record o { revoke_max_retry_times = times }

abbrev pub with_retry_wait_time : SessionOptions → ℤ → ℤ → SessionOptions
with_retry_wait_time o lo hi = record o { retry_min_wait_time = lo; retry_max_wait_time = hi }

abbrev pub with_get_grpc_client_context_func : SessionOptions → ContextFunction → SessionOptions
with_get_grpc_client_context_func o f = record o { get_grpc_client_context_func = some f }

abbrev pub set_lease : SessionOptions → ℤ → SessionOptions
set_lease o id = record o { lease = id }

abbrev pub set_ttl : SessionOptions → ℤ → SessionOptions
set_ttl o t = record o { ttl = t }
