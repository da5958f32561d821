-- ===== src/Cluster/Health.antt =====
-- kernel/src/distributed_management.c: heartbeats, health checks and the failure of a node.
use dsls_os.Base.{
  ℕ, ◌-◌, ◌*◌, ◌/◌, ◌%◌, ◌^◌, Bool, false, not, Option, none, some, List, [], ◌∷◌, ltb, ◌==◌,
  if◌then◌else◌, Status, success, unsuccessful, not_found, ulong_mod, inc32, dec32,
}
use dsls_os.Cluster.{
  error, Node, System, set_node, set_cluster, find_node, find_cluster, elect_holding_lock,
}

-- KiHandleNodeFailure of the node `n`, of which KiUpdateNodeHealth does not read the status; `none` means
-- that it does not return.
abbrev pub count_failure : System → ℕ → System
count_failure s c =
    let cluster = s.clusters c in
    set_cluster s c (record cluster {
      online_nodes = dec32 cluster.online_nodes;
      offline_nodes = inc32 cluster.offline_nodes;
    })

abbrev pub count_recovery : ℕ → Option System → Option System
count_recovery n none = none
count_recovery n (some s) =
    some (set_node s n (record (s.nodes n) { recovery_count = inc32 (s.nodes n).recovery_count }))

unfoldable pub handle_node_failure : System → ℕ → Option System
handle_node_failure s n =
    let c = find_cluster s (s.nodes n).cluster_id in
    let counted = count_failure s c in
    if c == 0
    then some s
    else count_recovery n
        (if (s.nodes n).is_master then elect_holding_lock counted c else some counted)

-- 20 less for each resource that is used too much.
unfoldable pub resource_score : Node → ℕ
resource_score n =
    100
    - (if ltb 80 n.cpu_usage then 20 else 0)
    - (if ltb 80 n.memory_usage then 20 else 0)
    - (if ltb 80 n.disk_usage then 20 else 0)
    - (if ltb 70 n.temperature then 20 else 0)

-- The last lines of KiUpdateNodeHealth.
unfoldable pub set_score : ℕ → Option System → Option System
set_score n none = none
set_score n (some s) =
    let points = resource_score (s.nodes n) in
    some (set_node s n (record (s.nodes n) { health_score = points; is_healthy = ltb 50 points }))

abbrev pub is_late : Node → ℕ → Bool
is_late n now = ltb 300000000 (now - n.last_heartbeat)

-- KiUpdateNodeHealth of the node `n` at the time `now`
unfoldable pub update_node_health : System → ℕ → ℕ → Option System
update_node_health s n now =
    let node = s.nodes n in
    let missed = record node { missed_heartbeats = inc32 node.missed_heartbeats } in
    let failed = record missed { is_connected = false; state = error; health_score = 0 } in
    set_score n (
      if not (is_late node now)
      then some s
      else if ltb 3 missed.missed_heartbeats
      then handle_node_failure (set_node s n failed) n
      else some (set_node s n missed))

-- The loop of KiPerformHealthChecks, with the time of the check of each node.
unfoldable pub check_nodes : Option System → (ℕ → ℕ) → List ℕ → Option System
check_nodes none clock ns = none
check_nodes (some s) clock [] = some s
check_nodes (some s) clock (n ∷ ns) = check_nodes (update_node_health s n (clock n)) clock ns

-- KiPerformHealthChecks of an initialized system
unfoldable pub perform_health_checks : System → (ℕ → ℕ) → Option System
perform_health_checks s clock =
    if s.initialized then check_nodes (some s) clock s.node_list else some s

-- The usage of a resource in percent; `none` is a division by zero.
abbrev pub percent : ℕ → ℕ → Option ℕ
percent part whole = if whole == 0 then none else some (part / whole % ulong_mod)

abbrev pub refreshed : Node → ℕ → Option ℕ → Option ℕ → Option ℕ → Option Node
refreshed n now (some cpu) (some memory) (some disk) = some (record n {
  last_heartbeat = now;
  missed_heartbeats = 0;
  cpu_usage = cpu;
  memory_usage = memory;
  disk_usage = disk;
})
refreshed n now _ _ _ = none

abbrev pub heard : System → ℕ → Option Node → Option (Status × System)
heard s n none = none
heard s n (some v) = some (success, set_node s n v)

-- DmSendHeartbeat for the node of a number at the time `now`; `none` is a division by zero.
unfoldable pub send_heartbeat : System → ℕ → ℕ → Option (Status × System)
send_heartbeat s id now =
    let n = find_node s id in
    let node = s.nodes n in
    if not s.initialized
    then some (unsuccessful, s)
    else if n == 0
    then some (not_found, s)
    else heard s n (
        refreshed node now
          (percent (node.allocated_cpu * 100 % ulong_mod) (node.cpu_count * 100 % ulong_mod))
          (percent (node.allocated_memory * 100 % 2 ^ 64) node.total_memory)
          (percent (node.allocated_storage * 100 % 2 ^ 64) node.total_storage))
