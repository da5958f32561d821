-- ===== src/Cluster/Entering.antt =====
-- What entering and leaving a cluster does to the counts of nodes in kernel/src/distributed_management.c.
use dsls_os.Base.{
  ℕ, ◌≡◌, ◌⊎◌, refl, sym, ◌∙◌, subst, arith, Bool, true, false, not, ◌||◌, List, [], ◌∷◌, ◌++◌, leb,
  ◌==◌, store, Status, inc32, dec32, Bool-cases, inl, inr, ==_refl, ne→==, either, otherwise,
  branch, length-append,
}
use dsls_os.Base.Entries.{
  occurrences, occurrences-append, occurrences-remove_entry, length-remove_entry, remove_entry,
}
use dsls_os.Cluster.{
  Cluster, ClusterState, System, find_cluster, set_cluster, set_node, terminated, online,
}
use dsls_os.Cluster.Membership.{
  create_cluster, join_cluster, leave_cluster, take_out, new_cluster, woken,
}
use dsls_os.Cluster.Winner.{Stands}
use dsls_os.Cluster.Counts.{
  IsSound, IsCounted, nodes-IsCounted, set_cluster-IsCounted, find_cluster_cases,
  elect_master_node-IsCounted,
}

-- The counts are right, with the local node in the current cluster.
abbrev pub Kept : System → Type 0
Kept s = IsCounted s s.current_cluster s.current_cluster

home_none : (home c : ℕ) → home ≡ 0 → (c == 0) ≡ false → (home == c) ≡ false
home_none home c e f = ground (arith, e, f)

Stands-not_null : (c : ℕ) (cs : List ℕ) → occurrences 0 cs ≡ 0 → Stands c cs → (c == 0) ≡ false
Stands-not_null c cs p at =
    ne→== c 0 (λ e. absurd (omega (arith, p, subst (λ k. Stands k cs) e at)))

-- Where the local node stands in no cluster, it may enter one.
module _ (s : System) (c : ℕ) (v : Cluster) {now : ℕ} (q : IsCounted s 0 now)
    (k : IsSound s.local_node true v) where
  others :
      (j : ℕ)
      → Stands j s.cluster_list
      → (c == j) ≡ false
      → IsSound s.local_node (c == j) (s.clusters j)
  others j at e =
      let null = Stands-not_null j s.cluster_list q.proper at in
      subst (λ b. IsSound s.local_node b (s.clusters j)) (home_none 0 j refl null ∙ sym e)
        (q.sound j at)

  entered :
      (j : ℕ)
      → ((c == j) ≡ false → Stands j s.cluster_list)
      → IsSound s.local_node (c == j) (store s.clusters c v j)
  entered j at = elim (Bool-cases (c == j)) [
    | inl e ↦ rw e k
    | inr e ↦ rw (e, ← e) (others j (at e) e)
  ]

  joined-IsCounted :
      Stands c s.cluster_list → IsCounted (record (set_cluster s c v) { current_cluster = c }) c c
  joined-IsCounted at = record {
    ready = q.ready;
    current = refl;
    local = q.local;
    proper = q.proper;
    homed = inr at;
    sound = λ j here. entered j (λ e. here);
  }

  created-IsCounted :
      (n : ℕ)
      → (c == 0) ≡ false
      → IsCounted
          (record (set_cluster s c v) {
            cluster_list = s.cluster_list ++ c ∷ [];
            cluster_count = n;
            current_cluster = c;
          })
          c
          c
  created-IsCounted n null = record {
    ready = q.ready;
    current = refl;
    local = q.local;
    proper = ground (arith, occurrences-append c 0 s.cluster_list, q.proper, null);
    homed = inr (ground (arith, occurrences-append c c s.cluster_list, ==_refl c));
    sound =
        λ j here. entered j (λ e. ground (arith, occurrences-append c j s.cluster_list, here, e));
  }

new_cluster-IsSound :
    (local id max_nodes master : ℕ)
    → (local == 0) ≡ false
    → IsSound local true (new_cluster id max_nodes local master)
unfolding occurrences
new_cluster-IsSound local id max_nodes master e = record {
  counted = rw e refl;
  summed = rw e refl;
  placed = rw (e, ==_refl local) refl;
}

pub create_cluster-Kept :
    (s : System) (c max_nodes : ℕ)
    → s.current_cluster ≡ 0
    → Kept s
    → Kept (create_cluster s c max_nodes).2
unfolding create_cluster
create_cluster-Kept s c max_nodes away q =
    let P : Status × ℕ × System → Type 0 = λ r. Kept r.2 in
    let id = inc32 s.cluster_count in
    let local = s.nodes s.local_node in
    let v = new_cluster id max_nodes s.local_node local.node_id in
    let there =
      set_node s s.local_node
        (record local { cluster_id = id; is_master = true; state = online }) in
    let Made : System → Type 0 = λ joined. Kept (record (set_cluster joined c v) {
      cluster_list = s.cluster_list ++ c ∷ [];
      cluster_count = id;
      current_cluster = c;
    }) in
    let k = new_cluster-IsSound s.local_node id max_nodes local.node_id q.local in
    let far : IsCounted s 0 s.current_cluster =
      subst (λ home. IsCounted s home s.current_cluster) away q in
    either P (not s.initialized) _ _ q (
      branch P (c == 0) _ _ (λ e. q)
        (λ e. otherwise Made (s.local_node == 0) s there q.local (
          created-IsCounted there c v (nodes-IsCounted s 0 s.current_cluster far there.nodes) k id
            e)))

join-IsSound :
    (local : ℕ) (v : Cluster) (state : ClusterState)
    → IsSound local false v
    → IsSound local true (record v {
      node_list = v.node_list ++ local ∷ [];
      node_count = inc32 v.node_count;
      online_nodes = inc32 v.online_nodes;
      state = state;
    })
join-IsSound local v state k = record {
  counted = omega (arith, k.counted, length-append v.node_list (local ∷ []));
  summed = omega (arith, k.summed);
  placed = ground (arith, occurrences-append local local v.node_list, k.placed, ==_refl local);
}

leave-IsSound :
    (local : ℕ) (v : Cluster)
    → IsSound local true v
    → IsSound local false (record v {
      node_list = remove_entry local v.node_list;
      node_count = dec32 v.node_count;
      online_nodes = dec32 v.online_nodes;
    })
leave-IsSound local v k = record {
  counted = omega (arith, k.counted, length-remove_entry local v.node_list k.placed);
  summed = omega (arith, k.summed);
  placed =
      ground (arith, occurrences-remove_entry local local v.node_list, k.placed, ==_refl local);
}

listed : (cs : List ℕ) (c : ℕ) → (c == 0) ≡ false → (c ≡ 0) ⊎ Stands c cs → Stands c cs
listed cs c e (inl z) = absurd (ground (arith, e, z))
listed cs c e (inr at) = at

pub join_cluster-Kept :
    (s : System) (id : ℕ) → s.current_cluster ≡ 0 → Kept s → Kept (join_cluster s id).1
unfolding join_cluster
join_cluster-Kept s id away q =
    let P : Status × System → Type 0 = λ r. Kept r.1 in
    let c = find_cluster s id in
    let v = s.clusters c in
    let far : IsCounted s 0 s.current_cluster =
      subst (λ home. IsCounted s home s.current_cluster) away q in
    let there =
      set_node s s.local_node (record (s.nodes s.local_node) { cluster_id = id; state = online }) in
    let w = record v {
      node_list = v.node_list ++ s.local_node ∷ [];
      node_count = inc32 v.node_count;
      online_nodes = inc32 v.online_nodes;
      state = woken v.state;
    } in
    either P (not s.initialized || s.local_node == 0) _ _ q (
      branch P (c == 0) _ _ (λ e. q)
        (λ e. either P (leb v.max_nodes v.node_count) _ _ q (
          let at = listed s.cluster_list c e (find_cluster_cases s 0 s.current_cluster far id) in
          let k = subst (λ b. IsSound s.local_node b v) (home_none 0 c refl e) (far.sound c at) in
          joined-IsCounted there c w (nodes-IsCounted s 0 s.current_cluster far there.nodes)
            (join-IsSound s.local_node v (woken v.state) k) at)))

-- The local node leaves the cluster in which it stands.
take_out-IsCounted :
    (s : System)
    → Kept s
    → Stands s.current_cluster s.cluster_list
    → IsCounted (take_out s) 0 s.current_cluster
take_out-IsCounted s q at =
    let home = s.current_cluster in
    let v = s.clusters home in
    let w = record v {
      node_list = remove_entry s.local_node v.node_list;
      node_count = dec32 v.node_count;
      online_nodes = dec32 v.online_nodes;
    } in
    let here : IsSound s.local_node true v =
      subst (λ b. IsSound s.local_node b v) (==_refl home) (q.sound home at) in
    let left = leave-IsSound s.local_node v here in
    record {
      ready = q.ready;
      current = refl;
      local = q.local;
      proper = q.proper;
      homed = inl refl;
      sound = λ j stands.
          let null = home_none 0 j refl (Stands-not_null j s.cluster_list q.proper stands) in
          subst (λ b. IsSound s.local_node b (store s.clusters home w j)) (sym null)
            (elim (Bool-cases (home == j)) [
              | inl e ↦ rw e left
              | inr e ↦
                  rw e (subst (λ b. IsSound s.local_node b (s.clusters j)) e (q.sound j stands))
            ]);
    }

last_false : (a b c : Bool) → (a || b || c) ≡ false → c ≡ false
last_false false false c e = e
last_false true b c e = absurd (ground arith)
last_false false true c e = absurd (ground arith)

-- Outside every cluster, no cluster is the current one.
outside-Kept : (s : System) (now : ℕ) → IsCounted s 0 now → Kept (record s { current_cluster = 0 })
outside-Kept s now q = record {
  ready = q.ready;
  current = refl;
  local = q.local;
  proper = q.proper;
  homed = q.homed;
  sound = q.sound;
}

pub leave_cluster-Kept : (s : System) → Kept s → Kept (leave_cluster s).1
unfolding leave_cluster
leave_cluster-Kept s q =
    let P : Status × System → Type 0 = λ r. Kept r.1 in
    let S : System → Type 0 = λ r. Kept (record r { current_cluster = 0 }) in
    branch P (not s.initialized || s.local_node == 0 || s.current_cluster == 0) _ _ (λ e. q)
      (λ e.
        let at =
          listed s.cluster_list s.current_cluster
            (last_false (not s.initialized) (s.local_node == 0) (s.current_cluster == 0) e)
            q.homed in
        let out = take_out s in
        let o = take_out-IsCounted s q at in
        let cluster = out.clusters s.current_cluster in
        let k = o.sound s.current_cluster at in
        either S (cluster.node_count == 0) _ _
          (outside-Kept _ s.current_cluster (
            set_cluster-IsCounted out 0 s.current_cluster o s.current_cluster
              (record cluster { state = terminated })
              (record { counted = k.counted; summed = k.summed; placed = k.placed })))
          (either S (out.nodes s.local_node).is_master _ _
            (outside-Kept _ s.current_cluster
              (elect_master_node-IsCounted out 0 s.current_cluster s.current_cluster o at))
            (outside-Kept _ s.current_cluster o)))
