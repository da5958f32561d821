-- ===== src/Cluster/Counts.antt =====
-- The counts of nodes of the clusters, and what each operation of kernel/src/distributed_management.c
-- does to them.
use dsls_os.Base.{
  ℕ, ◌+◌, ◌%◌, ◌≡◌, ◌⊎◌, refl, sym, subst, arith, Bool, true, false, not, ◌&&◌, Option, none, some,
  List, [], ◌∷◌, ltb, ◌==◌, if◌then◌else◌, store, Status, ulong_mod, inc32, dec32, Bool-cases, inl,
  inr, ==→eq, either, length,
}
use dsls_os.Base.Entries.{occurrences}
use dsls_os.Cluster.{
  Node, error, Cluster, System, first_with, find_cluster, find_node, demote, promote, candidate_of,
  elect_master_node, elect_holding_lock, set_cluster, set_node,
}
use dsls_os.Cluster.Health.{
  handle_node_failure, count_failure, count_recovery, set_score, update_node_health, check_nodes,
  perform_health_checks, is_late,
}
use dsls_os.Cluster.Winner.{Stands, Stands-first, Stands-later}

-- The counts of one cluster, in which the local node stands or not.
pub record IsSound (local : ℕ) (here : Bool) (v : Cluster) : Type 0 where
  pub counted : v.node_count ≡ length v.node_list % ulong_mod
  pub summed : v.node_count ≡ (v.online_nodes + v.offline_nodes) % ulong_mod
  pub placed : occurrences local v.node_list ≡ (if here then 1 else 0)

-- The counts of all clusters, of an initialized system whose local node stands in the
-- cluster `home`, and whose current cluster is `now`.
pub record IsCounted (s : System) (home now : ℕ) : Type 0 where
  pub ready : s.initialized ≡ true
  pub current : s.current_cluster ≡ now
  pub local : (s.local_node == 0) ≡ false
  pub proper : occurrences 0 s.cluster_list ≡ 0
  pub homed : (home ≡ 0) ⊎ Stands home s.cluster_list
  pub sound : (c : ℕ) → Stands c s.cluster_list → IsSound s.local_node (home == c) (s.clusters c)

abbrev pub OnSome : (System → Type 0) → Option System → Type 0
OnSome P none = Unit {0}
OnSome P (some s) = P s

pub OnSome-if :
    (P : System → Type 0) (b : Bool) (x y : Option System)
    → OnSome P x
    → OnSome P y
    → OnSome P (if b then x else y)
OnSome-if P true x y p q = p
OnSome-if P false x y p q = q

-- The search gives NULL or an entry.
first_with_cases :
    (number : ℕ → ℕ) (id : ℕ) (ns : List ℕ)
    → (first_with number id ns ≡ 0) ⊎ Stands (first_with number id ns) ns
unfolding first_with
first_with_cases number id [] = inl refl
first_with_cases number id (x ∷ xs) =
    either (λ (r : ℕ). (r ≡ 0) ⊎ Stands r (x ∷ xs)) (number x == id) _ _ (inr (Stands-first x xs))
      (later (first_with_cases number id xs))
  where
    later : {r : ℕ} → (r ≡ 0) ⊎ Stands r xs → (r ≡ 0) ⊎ Stands r (x ∷ xs)
    later (inl e) = inl e
    later {r} (inr h) = inr (Stands-later x r xs h)

module _ (s : System) (home now : ℕ) (q : IsCounted s home now) where
  pub nodes-IsCounted : (f : ℕ → Node) → IsCounted (record s { nodes = f }) home now
  nodes-IsCounted f = record {
    ready = q.ready;
    current = q.current;
    local = q.local;
    proper = q.proper;
    homed = q.homed;
    sound = q.sound;
  }

  pub set_cluster-IsCounted :
      (c : ℕ) (v : Cluster)
      → IsSound s.local_node (home == c) v
      → IsCounted (set_cluster s c v) home now
  set_cluster-IsCounted c v k = record {
    ready = q.ready;
    current = q.current;
    local = q.local;
    proper = q.proper;
    homed = q.homed;
    sound = λ j at. elim (Bool-cases (c == j)) [
      | inl e ↦ rw (e, ← ==→eq c j e) k
      | inr e ↦ rw e (q.sound j at)
    ];
  }

  demote-IsCounted :
      (id : ℕ) → IsCounted (demote s id) home now × ((demote s id).cluster_list ≡ s.cluster_list)
  unfolding demote
  demote-IsCounted id =
      let old = find_node s id in
      let f = store s.nodes old (record (s.nodes old) { is_master = false }) in
      either (λ (r : System). IsCounted r home now × (r.cluster_list ≡ s.cluster_list)) _ _ _
        (q, refl) (nodes-IsCounted f, refl)

  pub find_cluster_cases :
      (id : ℕ) → (find_cluster s id ≡ 0) ⊎ Stands (find_cluster s id) s.cluster_list
  find_cluster_cases id =
      either (λ (c : ℕ). (c ≡ 0) ⊎ Stands c s.cluster_list) s.initialized _ _
        (first_with_cases (λ c. (s.clusters c).cluster_id) id s.cluster_list) (inl refl)

promote-IsCounted :
    (s : System) (home now c best : ℕ)
    → IsCounted s home now
    → Stands c s.cluster_list
    → IsCounted (promote s c best) home now
promote-IsCounted s home now c best q at =
    let k = q.sound c at in
    let node = record (s.nodes best) { is_master = true } in
    let f = store s.nodes best node in
    let v = record (s.clusters c) {
      master_node_id = node.node_id;
      last_election_time = node.last_heartbeat;
      election_term = inc32 (s.clusters c).election_term;
    } in
    set_cluster-IsCounted (record s { nodes = f }) home now (nodes-IsCounted s home now q f) c v
      (record { counted = k.counted; summed = k.summed; placed = k.placed })

-- An election of a cluster that is in the list.
pub elect_master_node-IsCounted :
    (s : System) (home now c : ℕ)
    → IsCounted s home now
    → Stands c s.cluster_list
    → IsCounted (elect_master_node s c).1 home now
unfolding elect_master_node
elect_master_node-IsCounted s home now c q at =
    let d = demote-IsCounted s home now q (s.clusters c).master_node_id in
    either (λ (r : Status × System). IsCounted r.1 home now) (candidate_of s c == 0) _ _ q
      (promote-IsCounted (demote s (s.clusters c).master_node_id) home now c (candidate_of s c) d.0
        (subst (Stands c) (sym d.1) at))

-- A failure moves one node from the online nodes to the offline nodes.
count_failure-IsCounted :
    (s : System) (home now c : ℕ)
    → IsCounted s home now
    → Stands c s.cluster_list
    → IsCounted (count_failure s c) home now
count_failure-IsCounted s home now c q at =
    let k = q.sound c at in
    let v = s.clusters c in
    set_cluster-IsCounted s home now q c
      (record v { online_nodes = dec32 v.online_nodes; offline_nodes = inc32 v.offline_nodes })
      (record { counted = k.counted; summed = omega (arith, k.summed); placed = k.placed })

count_recovery-IsCounted :
    (home now n : ℕ) (o : Option System)
    → OnSome (λ s. IsCounted s home now) o
    → OnSome (λ s. IsCounted s home now) (count_recovery n o)
count_recovery-IsCounted home now n none q = tt
count_recovery-IsCounted home now n (some s) q =
    nodes-IsCounted s home now q
      (store s.nodes n (record (s.nodes n) { recovery_count = inc32 (s.nodes n).recovery_count }))

elect_holding_lock-IsCounted :
    (s : System) (home now c : ℕ)
    → IsCounted s home now
    → Stands c s.cluster_list
    → OnSome (λ s. IsCounted s home now) (elect_holding_lock s c)
unfolding elect_holding_lock
elect_holding_lock-IsCounted s home now c q at =
    OnSome-if (λ s. IsCounted s home now)
      (not (candidate_of s c == 0) && not ((s.clusters c).master_node_id == 0)) none
      (some (elect_master_node s c).1) tt (elect_master_node-IsCounted s home now c q at)

handle_node_failure-IsCounted :
    (s : System) (home now n : ℕ)
    → IsCounted s home now
    → OnSome (λ s. IsCounted s home now) (handle_node_failure s n)
unfolding handle_node_failure
handle_node_failure-IsCounted s home now n q =
    go (find_cluster s (s.nodes n).cluster_id)
      (find_cluster_cases s home now q (s.nodes n).cluster_id)
  where
    P : System → Type 0
    P r = IsCounted r home now

    go :
        (c : ℕ)
        → (c ≡ 0) ⊎ Stands c s.cluster_list
        → OnSome P (
            if c == 0
            then some s
            else count_recovery n (
                if (s.nodes n).is_master
                then elect_holding_lock (count_failure s c) c
                else some (count_failure s c)))
    go c (inl e) = rw e q
    go c (inr at) =
        let counted = count_failure-IsCounted s home now c q at in
        OnSome-if P (c == 0) (some s) _ q (
          count_recovery-IsCounted home now n _ (
            OnSome-if P (s.nodes n).is_master _ (some (count_failure s c))
              (elect_holding_lock-IsCounted (count_failure s c) home now c counted at) counted))

set_score-IsCounted :
    (home now n : ℕ) (o : Option System)
    → OnSome (λ s. IsCounted s home now) o
    → OnSome (λ s. IsCounted s home now) (set_score n o)
unfolding set_score
set_score-IsCounted home now n none q = tt
set_score-IsCounted home now n (some s) q = nodes-IsCounted s home now q _

update_node_health-IsCounted :
    (s : System) (home now n time : ℕ)
    → IsCounted s home now
    → OnSome (λ s. IsCounted s home now) (update_node_health s n time)
unfolding update_node_health
update_node_health-IsCounted s home now n time q =
    let P : System → Type 0 = λ r. IsCounted r home now in
    let node = s.nodes n in
    let missed = record node { missed_heartbeats = inc32 node.missed_heartbeats } in
    let failed = record missed { is_connected = false; state = error; health_score = 0 } in
    let lost = set_node s n failed in
    let noted = set_node s n missed in
    set_score-IsCounted home now n _ (
      OnSome-if P (not (is_late node time)) (some s) _ q (
        OnSome-if P (ltb 3 missed.missed_heartbeats) (handle_node_failure lost n) (some noted)
          (handle_node_failure-IsCounted lost home now n (nodes-IsCounted s home now q lost.nodes))
          (nodes-IsCounted s home now q noted.nodes)))

check_nodes-IsCounted :
    (home now : ℕ) (o : Option System) (clock : ℕ → ℕ) (ns : List ℕ)
    → OnSome (λ s. IsCounted s home now) o
    → OnSome (λ s. IsCounted s home now) (check_nodes o clock ns)
unfolding check_nodes
check_nodes-IsCounted home now none clock [] q = tt
check_nodes-IsCounted home now none clock (n ∷ ns) q = tt
check_nodes-IsCounted home now (some s) clock [] q = q
check_nodes-IsCounted home now (some s) clock (n ∷ ns) q =
    check_nodes-IsCounted home now (update_node_health s n (clock n)) clock ns
      (update_node_health-IsCounted s home now n (clock n) q)

pub perform_health_checks-IsCounted :
    (s : System) (home now : ℕ) (clock : ℕ → ℕ)
    → IsCounted s home now
    → OnSome (λ s. IsCounted s home now) (perform_health_checks s clock)
unfolding perform_health_checks
perform_health_checks-IsCounted s home now clock q =
    OnSome-if (λ s. IsCounted s home now) s.initialized _ (some s)
      (check_nodes-IsCounted home now (some s) clock s.node_list q) q
