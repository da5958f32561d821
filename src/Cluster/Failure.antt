-- ===== src/Cluster/Failure.antt =====
-- A check of a node that has failed, in kernel/src/distributed_management.c.
use dsls_os.Base.{ℕ, ◌≡◌, refl, true, false, ltb, inc32, dec32}
use dsls_os.Cluster.{Node, error, Cluster, System, set_node}
use dsls_os.Cluster.Health.{handle_node_failure, set_score, update_node_health, is_late}

-- The node that KiUpdateNodeHealth makes of one that it finds failed.
abbrev pub failed : Node → Node
failed v = record v {
  missed_heartbeats = inc32 v.missed_heartbeats;
  is_connected = false;
  state = error;
  health_score = 0;
}

-- A check of a node that is late for the fourth time or more.
pub late_check :
    (s : System) (n now : ℕ)
    → is_late (s.nodes n) now ≡ true
    → ltb 3 (inc32 (s.nodes n).missed_heartbeats) ≡ true
    → update_node_health s n now
      ≡ set_score n (handle_node_failure (set_node s n (failed (s.nodes n))) n)
unfolding update_node_health
late_check s n now late often = rw (late, often) refl

-- The cluster after a failure.
abbrev pub counted : Cluster → Cluster
counted v = record v { online_nodes = dec32 v.online_nodes; offline_nodes = inc32 v.offline_nodes }
