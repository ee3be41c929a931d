-- ===== src/Commands/Table.antt =====
-- commands/: the table that the `init` functions fill.
pub mod Dispatch
use learning_redis.Common.{List, [], ◌∷◌, Bytes, Bool, Option, codes}
use learning_redis.Hll.Sketch.Histogram.{Float}
use learning_redis.Cluster.Layout.{Layout}
use learning_redis.Commands.Registry.{HandlerFunc}
use learning_redis.Commands.Handlers.{
  handle_set, handle_get, handle_append, handle_del, handle_expire, handle_ttl, handle_incr,
  handle_pf_add, handle_pf_count, handle_pf_merge, handle_object, handle_ping, handle_info,
  handle_debug, handle_expiry,
}
use learning_redis.Commands.ClusterCommand.{handle_cluster}

-- `config.ClusterEnabled` and `cluster.Current` are fixed after startup.
abbrev pub handler_table : Float → Bool → Option Layout → List (Bytes × HandlerFunc)
handler_table fl enabled layout =
    (codes "APPEND", handle_append)
    ∷ (codes "CLUSTER", handle_cluster enabled layout)
    ∷ (codes "DEBUG", handle_debug)
    ∷ (codes "DEL", handle_del)
    ∷ (codes "EXPIRE", handle_expire)
    ∷ (codes "GET", handle_get)
    ∷ (codes "INCR", handle_incr)
    ∷ (codes "INFO", handle_info enabled)
    ∷ (codes "OBJECT", handle_object)
    ∷ (codes "PFADD", handle_pf_add)
    ∷ (codes "PFCOUNT", handle_pf_count fl)
    ∷ (codes "PFMERGE", handle_pf_merge)
    ∷ (codes "PING", handle_ping)
    ∷ (codes "_EXPIRY", handle_expiry)
    ∷ (codes "SET", handle_set)
    ∷ (codes "TTL", handle_ttl)
    ∷ []
