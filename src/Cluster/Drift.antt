-- ===== src/Cluster/Drift.antt =====
-- The health checks of kernel/src/distributed_management.c after a failure, in a system of one node.
use dsls_os.Base.{
  ℕ, ◌+◌, ◌-◌, ◌*◌, ◌%◌, ◌^◌, ◌≤◌, ◌<◌, ◌≡◌, refl, sym, ap, ◌∙◌, subst, arith, true, false, Option,
  none, some, List, [], ◌∷◌, ltb, ◌==◌, store_self, inc32, dec32, ==_refl, either, provided, length,
}
use dsls_os.Cluster.{
  Node, Cluster, System, is_candidate, candidate_of, best_candidate, find_cluster, first_with,
  elect_holding_lock, elect_master_node, set_node,
}
use dsls_os.Cluster.Health.{
  handle_node_failure, count_failure, count_recovery, set_score, resource_score, update_node_health,
  check_nodes, perform_health_checks, is_late,
}
use dsls_os.Cluster.Failure.{late_check, failed, counted}

-- The node `n` is the only one, in the cluster `c`, which is the only one.
pub record IsLone (s : System) (n c : ℕ) : Type 0 where
  pub ready : s.initialized ≡ true
  pub nodes : s.node_list ≡ n ∷ []
  pub clusters : s.cluster_list ≡ c ∷ []
  pub null : (c == 0) ≡ false
  pub number : (s.clusters c).cluster_id ≡ (s.nodes n).cluster_id
  pub members : (s.clusters c).node_list ≡ n ∷ []

lone_cluster : (s : System) (n c : ℕ) → IsLone s n c → find_cluster s (s.nodes n).cluster_id ≡ c
unfolding first_with
lone_cluster s n c l =
    let id = (s.nodes n).cluster_id in
    let same : ((s.clusters c).cluster_id == id) ≡ true = ap (λ k. k == id) l.number ∙ ==_refl id in
    provided (λ (r : ℕ). r ≡ c) s.initialized _ 0 l.ready
      (ap (first_with (λ k. (s.clusters k).cluster_id) id) l.clusters ∙ rw same refl)

-- A node that is not a candidate leaves its cluster without one.
no_candidate :
    (nodes : ℕ → Node) (n : ℕ)
    → is_candidate (nodes n) ≡ false
    → best_candidate nodes 0 0 (n ∷ []) ≡ 0
unfolding best_candidate
no_candidate nodes n e = rw e refl

elect_nobody : (s : System) (c : ℕ) → candidate_of s c ≡ 0 → elect_holding_lock s c ≡ some s
unfolding elect_holding_lock elect_master_node
elect_nobody s c e = rw e refl

-- A failure where nobody can be elected.
lone_failure :
    (s : System) (n c : ℕ)
    → find_cluster s (s.nodes n).cluster_id ≡ c
    → (c == 0) ≡ false
    → candidate_of (count_failure s c) c ≡ 0
    → handle_node_failure s n ≡ count_recovery n (some (count_failure s c))
unfolding handle_node_failure
lone_failure s n c same null nobody =
    let after = count_failure s c in
    rw (same, null)
      (ap (count_recovery n) (
        either (λ (o : Option System). o ≡ some after) (s.nodes n).is_master _ _
          (elect_nobody after c nobody) refl))

-- What one more check does.
record Dropped (s r : System) (n c : ℕ) : Type 0 where
  lone : IsLone r n c
  online : (r.clusters c).online_nodes ≡ dec32 (s.clusters c).online_nodes
  missed : (r.nodes n).missed_heartbeats ≡ inc32 (s.nodes n).missed_heartbeats
  heard : (r.nodes n).last_heartbeat ≡ (s.nodes n).last_heartbeat

lone_check :
    (s : System) (n c now : ℕ)
    → IsLone s n c
    → is_late (s.nodes n) now ≡ true
    → ltb 3 (inc32 (s.nodes n).missed_heartbeats) ≡ true
    → (r : System) × (update_node_health s n now ≡ some r) × Dropped s r n c
unfolding set_score
lone_check s n c now l late often =
    let lost = set_node s n (failed (s.nodes n)) in
    let v : lost.nodes n ≡ failed (s.nodes n) = store_self s.nodes n (failed (s.nodes n)) in
    let after = count_failure lost c in
    let w : after.clusters c ≡ counted (s.clusters c) =
      store_self s.clusters c (counted (s.clusters c)) in
    let list : (after.clusters c).node_list ≡ n ∷ [] =
      ap (λ (x : Cluster). x.node_list) w ∙ l.members in
    let nobody : candidate_of after c ≡ 0 =
      ap (best_candidate lost.nodes 0 0) list
      ∙ no_candidate lost.nodes n (ap (λ (x : Node). is_candidate x) v) in
    let found : find_cluster lost (lost.nodes n).cluster_id ≡ c =
      ap (λ (x : Node). find_cluster s x.cluster_id) v ∙ lone_cluster s n c l in
    let node = record (lost.nodes n) { recovery_count = inc32 (lost.nodes n).recovery_count } in
    let mid = set_node after n node in
    let points = resource_score (mid.nodes n) in
    let last = record (mid.nodes n) { health_score = points; is_healthy = ltb 50 points } in
    let r = set_node mid n last in
    let x : r.nodes n ≡ last = store_self mid.nodes n last in
    let y : mid.nodes n ≡ node = store_self after.nodes n node in
    (
      r,
      late_check s n now late often ∙ ap (set_score n) (lone_failure lost n c found l.null nobody),
      record {
        lone = record {
          ready = l.ready;
          nodes = l.nodes;
          clusters = l.clusters;
          null = l.null;
          number =
              ap (λ (k : Cluster). k.cluster_id) w
              ∙ l.number
              ∙ sym (
                  ap (λ (k : Node). k.cluster_id) x
                  ∙ ap (λ (k : Node). k.cluster_id) y
                  ∙ ap (λ (k : Node). k.cluster_id) v);
          members = list;
        };
        online = ap (λ (k : Cluster). k.online_nodes) w;
        missed =
            ap (λ (k : Node). k.missed_heartbeats) x
            ∙ ap (λ (k : Node). k.missed_heartbeats) y
            ∙ ap (λ (k : Node). k.missed_heartbeats) v;
        heard =
            ap (λ (k : Node). k.last_heartbeat) x
            ∙ ap (λ (k : Node). k.last_heartbeat) y
            ∙ ap (λ (k : Node). k.last_heartbeat) v;
      },
    )

-- Health checks at a sequence of times.
unfoldable pub check_all : Option System → List ℕ → Option System
check_all none times = none
check_all (some s) [] = some s
check_all (some s) (time ∷ times) = check_all (perform_health_checks s (λ n. time)) times

-- All times are more than 30 seconds after the last heartbeat.
abbrev pub AllLate : ℕ → List ℕ → Type 0
AllLate last [] = Unit {0}
AllLate last (time ∷ times) = (last + 300000000 < time) × AllLate last times

lone_perform :
    (s r : System) (n c time : ℕ)
    → IsLone s n c
    → update_node_health s n time ≡ some r
    → perform_health_checks s (λ n. time) ≡ some r
unfolding perform_health_checks check_nodes
lone_perform s r n c time l e =
    provided (λ (o : Option System). o ≡ some r) s.initialized _ (some s) l.ready
      (ap (check_nodes (some s) (λ n. time)) l.nodes ∙ ap (λ o. check_nodes o (λ n. time) []) e)

-- In a system of one node and one cluster, when the node has failed, which is that it missed three
-- heartbeats or more and sends none, every further health check counts the failure again: after any
-- number of checks, each more than 30 seconds after the last heartbeat, OnlineNodes is lower by
-- that number, modulo 2 ^ 32, as long as the count of missed heartbeats does not wrap around.
pub check_all-online_nodes :
    (s : System) (n c : ℕ) (times : List ℕ)
    → IsLone s n c
    → 3 ≤ (s.nodes n).missed_heartbeats
    → (s.nodes n).missed_heartbeats + length times < 2 ^ 32
    → (s.clusters c).online_nodes < 2 ^ 32
    → AllLate (s.nodes n).last_heartbeat times
    → (r : System) × (check_all (some s) times ≡ some r)
      × ((r.clusters c).online_nodes
          ≡ ((s.clusters c).online_nodes + length times * (2 ^ 32 - 1)) % 2 ^ 32)
unfolding check_all
check_all-online_nodes s n c [] l three small word late = (s, refl, omega (arith, word))
check_all-online_nodes s n c (time ∷ times) l three small word late =
    let often : ltb 3 (inc32 (s.nodes n).missed_heartbeats) ≡ true = ground (arith, three, small) in
    let now : is_late (s.nodes n) time ≡ true = ground (arith, late.0) in
    let (first, e, d) = lone_check s n c time l now often in
    let rest =
      check_all-online_nodes first n c times d.lone (omega (arith, d.missed, three, small))
        (omega (arith, d.missed, small)) (omega (arith, d.online))
        (subst (λ last. AllLate last times) (sym d.heard) late.1) in
    (
      rest.0,
      ap (λ o. check_all o times) (lone_perform s first n c time l e) ∙ rest.1,
      rest.2 ∙ omega (arith, d.online),
    )
