-- ===== src/Cluster/Tests.antt =====
-- The theorems on clusters at concrete states.
use dsls_os.Base.{
  ℕ, ◌+◌, ◌*◌, ◌-◌, ◌%◌, ◌^◌, ◌≡◌, ◌==◌, refl, true, false, some, [], ◌∷◌, arith, length, List,
  ==→eq,
}
use dsls_os.Base.Entries.{occurrences}
use dsls_os.Cluster.{System, online, elect_master_node}
use dsls_os.Cluster.Membership.{initialize, create_cluster, new_node, new_cluster}
use dsls_os.Cluster.Winner.{Election, elect_master_node-Election}
use dsls_os.Cluster.Master.{IsNumbered, HasMaster, elect_master_node-HasMaster}
use dsls_os.Cluster.Counts.{IsCounted}
use dsls_os.Cluster.Steps.{Reachable, begins, goes_on, creates, Reachable-IsCounted}
use dsls_os.Cluster.Drift.{IsLone, check_all, check_all-online_nodes}

abbrev blank : System
blank = record {
  initialized = false;
  next_node_id = 1;
  node_list = [];
  nodes = λ n. new_node n 4 1000;
  node_count = 0;
  cluster_list = [];
  clusters = λ c. new_cluster c 8 0 0;
  cluster_count = 0;
  local_node = 0;
  current_cluster = 0;
}

-- The local node at 10 in the cluster at 20.
abbrev one_created : System
one_created = (create_cluster (initialize blank 10 4 1000).1 20 8).2

one_created-Reachable : Reachable one_created
unfolding initialize
one_created-Reachable =
    goes_on (initialize blank 10 4 1000).1 one_created (begins blank 10 4 1000 refl refl refl)
      (creates 20 8 refl)

Reachable-IsCounted_example :
    IsCounted one_created one_created.current_cluster one_created.current_cluster
Reachable-IsCounted_example = Reachable-IsCounted one_created one_created-Reachable

-- The nodes at 1 and 2 have their addresses as numbers; node 1 is the master of the cluster at 20 and
-- has missed three heartbeats.
abbrev two_nodes : System
two_nodes = record blank {
  initialized = true;
  node_list = 1 ∷ 2 ∷ [];
  nodes = λ n. record (new_node n 4 1000) {
    state = online;
    is_master = n == 1;
    missed_heartbeats = 3;
    cluster_id = 1;
  };
  cluster_list = 20 ∷ [];
  clusters = λ c. record (new_cluster 1 8 0 1) {
    node_list = 1 ∷ 2 ∷ [];
    node_count = 2;
    master_node_id = 1;
    online_nodes = 2;
  };
}

elect_master_node-Election_example : Election two_nodes 20 (elect_master_node two_nodes 20)
unfolding occurrences
elect_master_node-Election_example = elect_master_node-Election two_nodes 20 refl

two_nodes-IsNumbered : IsNumbered two_nodes
unfolding occurrences
two_nodes-IsNumbered = record {
  positive = λ n at e. ground (arith, at, e);
  distinct = λ m n at here e. e;
}

two_nodes-HasMaster : HasMaster two_nodes 20
two_nodes-HasMaster = record { named = λ n at on. ==→eq n 1 on }

elect_master_node-HasMaster_example : HasMaster (elect_master_node two_nodes 20).1 20
unfolding occurrences
elect_master_node-HasMaster_example =
    elect_master_node-HasMaster two_nodes 20 refl two_nodes-IsNumbered refl two_nodes-HasMaster

-- The node at 1 alone, with a clock that is late three times.
abbrev one_node : System
one_node = record two_nodes {
  node_list = 1 ∷ [];
  clusters = λ c. record (new_cluster 1 8 0 1) {
    node_list = 1 ∷ [];
    node_count = 1;
    master_node_id = 1;
    online_nodes = 1;
  };
}

abbrev three_times : List ℕ
three_times = 400000000 ∷ 500000000 ∷ 600000000 ∷ []

one_node-IsLone : IsLone one_node 1 20
one_node-IsLone = record {
  ready = refl;
  nodes = refl;
  clusters = refl;
  null = refl;
  number = refl;
  members = refl;
}

check_all-online_nodes_example :
    (r : System) × (check_all (some one_node) three_times ≡ some r)
    × ((r.clusters 20).online_nodes
        ≡ ((one_node.clusters 20).online_nodes + length three_times * (2 ^ 32 - 1)) % 2 ^ 32)
check_all-online_nodes_example =
    check_all-online_nodes one_node 1 20 three_times one_node-IsLone (omega arith) (omega arith)
      (omega arith) (omega arith)
