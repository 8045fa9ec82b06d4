-- ===== src/Session/Interval.antt =====
-- GetKeepAliveIntervalByTTL of etcdv3client/session.h, which no code calls.
use etcdv3client.Prelude.{ℤ, pos, ◌≡◌, ◌⊎◌, arith, ◌≤ℤ◌, ◌+ℤ◌}
use etcdv3client.Session.{get_keep_alive_interval_by_ttl}

-- The interval is a second or more; and it is one second exactly, or at most half of the time to live, so
-- that two requests fall into it.
interval_bounds :
    (ttl : ℤ)
    → (pos 1 ≤ℤ get_keep_alive_interval_by_ttl ttl)
      × ((get_keep_alive_interval_by_ttl ttl ≡ pos 1)
          ⊎ (get_keep_alive_interval_by_ttl ttl +ℤ get_keep_alive_interval_by_ttl ttl ≤ℤ ttl))
unfolding get_keep_alive_interval_by_ttl
interval_bounds ttl = ground arith
