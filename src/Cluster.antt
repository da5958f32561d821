-- ===== src/Cluster.antt =====
-- kernel/src/distributed_management.c: nodes, clusters and the election of a master. A node or a cluster
-- is named by its address and NULL is 0; a pointer into the pool is followed by a function. Locks are
-- left out, but for the one of the node list, which the health checks hold while they elect a master.
-- Strings, configuration that is only copied and empty initializations are left out.
pub mod Membership
pub mod Health
pub mod Counts
pub mod Entering
pub mod Winner
pub mod Master
pub mod Steps
pub mod Failure
pub mod Drift
mod Tests
use dsls_os.Base.{
  store, ℕ, ◌+◌, ◌-◌, ◌*◌, ◌/◌, ◌%◌, ◌^◌, Bool, true, false, not, ◌&&◌, ◌||◌, Option, none, some,
  List, [], ◌∷◌, ltb, ◌==◌, if◌then◌else◌, Status, success, no_such_member, ulong_mod, inc32,
}

-- NODE_STATE
pub data NodeState : Type 0 where
  offline joining online busy maintenance draining leaving error : NodeState

abbrev pub is_online : NodeState → Bool
is_online online = true
is_online _ = false

-- The fields of NODE_INFO that are computed with.
pub record Node : Type 0 where
  pub node_id : ℕ
  pub state : NodeState
  pub cpu_count : ℕ
  pub total_memory : ℕ
  pub available_memory : ℕ
  pub total_storage : ℕ
  pub allocated_cpu : ℕ
  pub allocated_memory : ℕ
  pub allocated_storage : ℕ
  pub cpu_usage : ℕ
  pub memory_usage : ℕ
  pub disk_usage : ℕ
  pub load_average : ℕ
  pub temperature : ℕ
  pub is_connected : Bool
  pub last_heartbeat : ℕ
  pub missed_heartbeats : ℕ
  pub health_score : ℕ
  pub recovery_count : ℕ
  pub cluster_id : ℕ
  pub is_master : Bool
  pub is_healthy : Bool

-- CLUSTER_STATE
pub data ClusterState : Type 0 where
  initializing active degraded maintained terminated : ClusterState

-- The fields of CLUSTER_INFO that are computed with.
pub record Cluster : Type 0 where
  pub cluster_id : ℕ
  pub state : ClusterState
  pub node_count : ℕ
  pub max_nodes : ℕ
  pub master_node_id : ℕ
  pub last_election_time : ℕ
  pub election_term : ℕ
  pub node_list : List ℕ
  pub online_nodes : ℕ
  pub offline_nodes : ℕ

-- The static variables of the file, and the nodes and clusters by address.
pub record System : Type 0 where
  pub initialized : Bool
  pub next_node_id : ℕ
  pub node_list : List ℕ
  pub nodes : ℕ → Node
  pub node_count : ℕ
  pub cluster_list : List ℕ
  pub clusters : ℕ → Cluster
  pub cluster_count : ℕ
  pub local_node : ℕ
  pub current_cluster : ℕ

abbrev pub set_node : System → ℕ → Node → System
set_node s n v = record s { nodes = store s.nodes n v }

abbrev pub set_cluster : System → ℕ → Cluster → System
set_cluster s c v = record s { clusters = store s.clusters c v }

-- The loops of DmFindNodeById and DmFindClusterById: the first entry with the number, or NULL.
unfoldable pub first_with : (ℕ → ℕ) → ℕ → List ℕ → ℕ
first_with number id [] = 0
first_with number id (x ∷ xs) = if number x == id then x else first_with number id xs

-- DmFindNodeById
abbrev pub find_node : System → ℕ → ℕ
find_node s id = if s.initialized then first_with (λ n. (s.nodes n).node_id) id s.node_list else 0

-- DmFindClusterById
abbrev pub find_cluster : System → ℕ → ℕ
find_cluster s id =
    if s.initialized then first_with (λ c. (s.clusters c).cluster_id) id s.cluster_list else 0

-- The test of a candidate in KiElectMasterNode.
abbrev pub is_candidate : Node → Bool
is_candidate n = is_online n.state && n.is_healthy

-- The score of a candidate, a ULONG: a load above 100 wraps around.
unfoldable pub score : Node → ℕ
score n =
    let relieved =
      (n.health_score + (100 + (ulong_mod - n.load_average)) % ulong_mod / 2) % ulong_mod in
    (relieved + n.available_memory / (1024 * 1024) % ulong_mod / 100) % ulong_mod

-- The loop of KiElectMasterNode with the best candidate so far and its score.
unfoldable pub best_candidate : (ℕ → Node) → ℕ → ℕ → List ℕ → ℕ
best_candidate nodes best highest [] = best
best_candidate nodes best highest (n ∷ ns) =
    let better = is_candidate (nodes n) && ltb highest (score (nodes n)) in
    best_candidate nodes (if better then n else best) (if better then score (nodes n) else highest)
      ns

-- The demotion of the current master.
unfoldable pub demote : System → ℕ → System
demote s id =
    let old = find_node s id in
    if id == 0 || old == 0 then s else set_node s old (record (s.nodes old) { is_master = false })

abbrev pub promote : System → ℕ → ℕ → System
promote s c best =
    let node = record (s.nodes best) { is_master = true } in
    set_cluster (set_node s best node) c (record (s.clusters c) {
      master_node_id = node.node_id;
      last_election_time = node.last_heartbeat;
      election_term = inc32 (s.clusters c).election_term;
    })

abbrev pub candidate_of : System → ℕ → ℕ
candidate_of s c = best_candidate s.nodes 0 0 (s.clusters c).node_list

-- KiElectMasterNode of the cluster `c`
unfoldable pub elect_master_node : System → ℕ → Status × System
elect_master_node s c =
    let best = candidate_of s c in
    if best == 0
    then (no_such_member, s)
    else (success, promote (demote s (s.clusters c).master_node_id) c best)

-- KiElectMasterNode while the lock of the node list is held. DmFindNodeById takes that lock, so where it
-- is called the function does not return, which is `none`.
unfoldable pub elect_holding_lock : System → ℕ → Option System
elect_holding_lock s c =
    if not (candidate_of s c == 0) && not ((s.clusters c).master_node_id == 0)
    then none
    else some (elect_master_node s c).1
