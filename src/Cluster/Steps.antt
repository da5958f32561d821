-- ===== src/Cluster/Steps.antt =====
-- The operations of kernel/src/distributed_management.c as steps between states. A step that creates or
-- joins a cluster is one of a local node that is in no cluster, as the lists are wrong otherwise.
use dsls_os.Base.{
  ℕ, ◌≡◌, refl, sym, subst, arith, false, not, Option, none, some, ◌==◌, store, Status, not_found,
  unsuccessful, inl, either, otherwise,
}
use dsls_os.Base.Entries.{occurrences}
use dsls_os.Cluster.{Node, System, find_node}
use dsls_os.Cluster.Membership.{initialize, create_cluster, join_cluster, leave_cluster}
use dsls_os.Cluster.Health.{perform_health_checks, send_heartbeat, heard}
use dsls_os.Cluster.Counts.{IsCounted, OnSome, nodes-IsCounted, perform_health_checks-IsCounted}
use dsls_os.Cluster.Entering.{Kept, create_cluster-Kept, join_cluster-Kept, leave_cluster-Kept}

-- One call of the interface, given what the pool and the clock say.
pub data Step (s : System) : System → Type 0 where
  creates : (c max_nodes : ℕ) → s.current_cluster ≡ 0 → Step s (create_cluster s c max_nodes).2
  joins : (id : ℕ) → s.current_cluster ≡ 0 → Step s (join_cluster s id).1
  leaves : Step s (leave_cluster s).1
  checks : (clock : ℕ → ℕ) (r : System) → perform_health_checks s clock ≡ some r → Step s r
  hears :
      (id now : ℕ) (status : Status) (r : System)
      → send_heartbeat s id now ≡ some (status, r)
      → Step s r

-- The states after DmInitializeDistributedSystem.
pub data Reachable : System → Type 0 where
  begins :
      (s : System) (n cpus storage : ℕ)
      → s.initialized ≡ false
      → s.current_cluster ≡ 0
      → (n == 0) ≡ false
      → Reachable (initialize s n cpus storage).1
  goes_on : (s r : System) → Reachable s → Step s r → Reachable r

-- A heartbeat changes nodes only.
heard-Kept :
    (s : System) (n : ℕ) (o : Option Node)
    → Kept s
    → (status : Status) (r : System) → heard s n o ≡ some (status, r)
    → Kept r
heard-Kept s n none q status r e = absurd (ground (arith, e))
heard-Kept s n (some v) q status r e =
    subst Kept (ground (arith, e))
      (nodes-IsCounted s s.current_cluster s.current_cluster q (store s.nodes n v))

send_heartbeat-Kept :
    (s : System) (id now : ℕ) (status : Status) (r : System)
    → Kept s
    → send_heartbeat s id now ≡ some (status, r)
    → Kept r
unfolding send_heartbeat
send_heartbeat-Kept s id now status r q = either P (not s.initialized) _ _ (same unsuccessful) (
    either P (find_node s id == 0) _ _ (same not_found)
      (heard-Kept s (find_node s id) _ q status r))
  where
    P : Option (Status × System) → Type 0
    P o = let result : Option (Status × System) = some (status, r) in o ≡ result → Kept r

    same : (x : Status) → P (some (x, s))
    same x e = subst Kept (ground (arith, e)) q

some-Kept :
    (o : Option System) (home : ℕ) (r : System)
    → OnSome (λ s. IsCounted s home home) o
    → o ≡ some r
    → Kept r
some-Kept none home r q e = absurd (ground (arith, e))
some-Kept (some s) home r q e =
    subst Kept (ground (arith, e)) (subst (λ k. IsCounted s k k) (sym q.current) q)

Step-Kept : (s r : System) → Step s r → Kept s → Kept r
Step-Kept s r step q = go step
  where
    go : {r : System} → Step s r → Kept r
    go (creates c max_nodes away) = create_cluster-Kept s c max_nodes away q
    go (joins id away) = join_cluster-Kept s id away q
    go leaves = leave_cluster-Kept s q
    go (checks clock r e) =
        some-Kept (perform_health_checks s clock) s.current_cluster r
          (perform_health_checks-IsCounted s s.current_cluster s.current_cluster clock q) e
    go (hears id now status r e) = send_heartbeat-Kept s id now status r q e

-- In every state that the distributed system reaches, with the local node in at most one cluster at a
-- time, the count of nodes of each cluster is the length of its list and the sum of its online and
-- offline nodes, modulo 2 ^ 32, and the local node stands once in the list of the current cluster
-- and in no other.
pub Reachable-IsCounted :
    (s : System) → Reachable s → IsCounted s s.current_cluster s.current_cluster
unfolding initialize occurrences
Reachable-IsCounted s (begins s₀ n cpus storage fresh away null) =
    let P : Status × System → Type 0 = λ r. Kept r.1 in
    otherwise P s₀.initialized _ _ fresh (
      otherwise P (n == 0) _ _ null (record {
        ready = refl;
        current = refl;
        local = null;
        proper = refl;
        homed = inl away;
        sound = λ c at. absurd (omega (arith, at));
      }))
Reachable-IsCounted s (goes_on before r h step) =
    Step-Kept before s step (Reachable-IsCounted before h)
