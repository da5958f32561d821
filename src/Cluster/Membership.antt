-- ===== src/Cluster/Membership.antt =====
-- kernel/src/distributed_management.c: the local node, and how it enters and leaves a cluster.
use dsls_os.Base.{
  ℕ, ◌*◌, true, false, not, ◌||◌, [], ◌∷◌, ◌++◌, leb, ◌==◌, if◌then◌else◌, Status, success,
  unsuccessful, invalid_parameter, insufficient_resources, not_found, inc32, dec32,
}
use dsls_os.Base.Entries.{remove_entry}
use dsls_os.Cluster.{
  offline, joining, online, Node, ClusterState, initializing, active, terminated, Cluster, System,
  set_node, set_cluster, find_cluster, elect_master_node,
}

-- The local node that KiInitializeNodeManagement makes, for a number of processors. The size of the
-- storage is an argument: the constant of the code overflows an int.
abbrev pub new_node : ℕ → ℕ → ℕ → Node
new_node id cpus storage = record {
  node_id = id;
  state = joining;
  cpu_count = cpus;
  total_memory = 1024 * 1024 * 1024;
  available_memory = 1024 * 1024 * 1024;
  total_storage = storage;
  allocated_cpu = 0;
  allocated_memory = 0;
  allocated_storage = 0;
  cpu_usage = 0;
  memory_usage = 0;
  disk_usage = 0;
  load_average = 0;
  temperature = 40;
  is_connected = true;
  last_heartbeat = 0;
  missed_heartbeats = 0;
  health_score = 100;
  recovery_count = 0;
  cluster_id = 0;
  is_master = false;
  is_healthy = true;
}

-- DmInitializeDistributedSystem, with the address that the pool gives for the local node.
unfoldable pub initialize : System → ℕ → ℕ → ℕ → Status × System
initialize s n cpus storage =
    let emptied = record s {
      cluster_list = [];
      cluster_count = 0;
      node_list = [];
      node_count = 0;
      local_node = n;
    } in
    if s.initialized then (success, s) else if n == 0 then (insufficient_resources, emptied) else (
      success,
      record (set_node emptied n (new_node s.next_node_id cpus storage)) {
        next_node_id = inc32 s.next_node_id;
        node_list = n ∷ [];
        node_count = 1;
        initialized = true;
      },
    )

abbrev pub new_cluster : ℕ → ℕ → ℕ → ℕ → Cluster
new_cluster id max_nodes local master = record {
  cluster_id = id;
  state = active;
  node_count = if local == 0 then 0 else 1;
  max_nodes = max_nodes;
  master_node_id = if local == 0 then 0 else master;
  last_election_time = 0;
  election_term = 0;
  node_list = if local == 0 then [] else local ∷ [];
  online_nodes = if local == 0 then 0 else 1;
  offline_nodes = 0;
}

-- DmCreateCluster of pointers that are not NULL, with the address that the pool gives for the cluster:
-- the status and the number of the cluster. A local node that is in the list of another cluster is
-- not taken out of that list, whose links then break; that is not represented.
unfoldable pub create_cluster : System → ℕ → ℕ → Status × ℕ × System
create_cluster s c max_nodes =
    let id = inc32 s.cluster_count in
    let local = s.nodes s.local_node in
    let joined =
      if s.local_node == 0
      then s
      else set_node s s.local_node
          (record local { cluster_id = id; is_master = true; state = online }) in
    if not s.initialized
    then (invalid_parameter, 0, s)
    else if c == 0
    then (insufficient_resources, 0, s)
    else (
      success,
      id,
      record (set_cluster joined c (new_cluster id max_nodes s.local_node local.node_id)) {
        cluster_list = s.cluster_list ++ c ∷ [];
        cluster_count = id;
        current_cluster = c;
      },
    )

-- The state of a cluster after a node has joined.
abbrev pub woken : ClusterState → ClusterState
woken initializing = active
woken state = state

-- DmJoinCluster of a cluster by its number. As in DmCreateCluster, links that break are not represented.
unfoldable pub join_cluster : System → ℕ → Status × System
join_cluster s id =
    let c = find_cluster s id in
    let cluster = s.clusters c in
    let local = s.nodes s.local_node in
    if not s.initialized || s.local_node == 0
    then (invalid_parameter, s)
    else if c == 0
    then (not_found, s)
    else if leb cluster.max_nodes cluster.node_count
    then (insufficient_resources, s)
    else (
      success,
      record (set_cluster
          (set_node s s.local_node (record local { cluster_id = id; state = online })) c
          (record cluster {
            node_list = cluster.node_list ++ s.local_node ∷ [];
            node_count = inc32 cluster.node_count;
            online_nodes = inc32 cluster.online_nodes;
            state = woken cluster.state;
          })) { current_cluster = c },
    )

-- What DmLeaveCluster does before it looks at the count of nodes.
abbrev pub take_out : System → System
take_out s =
    let cluster = s.clusters s.current_cluster in
    let local = s.nodes s.local_node in
    set_node
      (set_cluster s s.current_cluster (record cluster {
        node_list = remove_entry s.local_node cluster.node_list;
        node_count = dec32 cluster.node_count;
        online_nodes = dec32 cluster.online_nodes;
      }))
      s.local_node (record local { state = offline; cluster_id = 0 })

-- DmLeaveCluster
unfoldable pub leave_cluster : System → Status × System
leave_cluster s =
    let out = take_out s in
    let cluster = out.clusters s.current_cluster in
    let settled =
      if cluster.node_count == 0
      then set_cluster out s.current_cluster (record cluster { state = terminated })
      else if (out.nodes s.local_node).is_master
      then (elect_master_node out s.current_cluster).1
      else out in
    if not s.initialized || s.local_node == 0 || s.current_cluster == 0
    then (unsuccessful, s)
    else (success, record settled { current_cluster = 0 })
