-- ===== src/Cluster/Master.antt =====
-- KiElectMasterNode of kernel/src/distributed_management.c leaves one master.
use dsls_os.Base.{
  ℕ, ◌≡◌, ◌≢◌, refl, sym, ap, ◌∙◌, subst, arith, Bool, true, false, ◌||◌, List, [], ◌∷◌, ◌==◌,
  store, store_other, store_self, Status, inc32, Bool-cases, inl, inr, ==→eq, ==_refl, ne→==,
  either, otherwise, provided,
}
use dsls_os.Base.Entries.{occurrences}
use dsls_os.Cluster.{
  Node, Cluster, System, candidate_of, first_with, find_node, demote, promote, elect_master_node,
}
use dsls_os.Cluster.Winner.{Stands, Stands-first, Stands-later, Stands-rest}

-- The nodes have distinct numbers above 0.
pub record IsNumbered (s : System) : Type 0 where
  pub positive : (n : ℕ) → Stands n s.node_list → (s.nodes n).node_id ≢ 0
  pub distinct :
      (m n : ℕ)
      → Stands m s.node_list
      → Stands n s.node_list
      → (s.nodes m).node_id ≡ (s.nodes n).node_id
      → m ≡ n

-- A node that is marked as the master is the one that the cluster `c` names.
pub record HasMaster (s : System) (c : ℕ) : Type 0 where
  pub named :
      (n : ℕ)
      → Stands n s.node_list
      → (s.nodes n).is_master ≡ true
      → (s.nodes n).node_id ≡ (s.clusters c).master_node_id

-- The search finds an entry with the number where there is one.
first_with-found :
    (number : ℕ → ℕ) (n : ℕ) (ns : List ℕ)
    → Stands n ns
    → let r = first_with number (number n) ns in Stands r ns × (number r ≡ number n)
unfolding first_with
first_with-found number n [] h = absurd (unfold occurrences in (omega (arith, h)))
first_with-found number n (x ∷ xs) h = elim (Bool-cases (number x == number n)) [
  | inl e ↦ rw e (Stands-first x xs, ==→eq _ _ e)
  | inr e ↦
      let later : Stands n xs = in_rest e h in
      let rest = first_with-found number n xs later in rw e (Stands-later x _ xs rest.0, rest.1)
]
  where
    in_rest : (number x == number n) ≡ false → Stands n (x ∷ xs) → Stands n xs
    in_rest e h =
        Stands-rest x n xs
          (ne→== x n (λ (same : x ≡ n).
            cc (sym (ap (λ k. number k == number n) same) ∙ e, ==_refl (number n))))
          h

find_node-found :
    (s : System) (n : ℕ)
    → s.initialized ≡ true
    → Stands n s.node_list
    → let r = find_node s (s.nodes n).node_id in
      Stands r s.node_list × ((s.nodes r).node_id ≡ (s.nodes n).node_id)
find_node-found s n ready at =
    provided (λ (r : ℕ). Stands r s.node_list × ((s.nodes r).node_id ≡ (s.nodes n).node_id))
      s.initialized _ 0 ready (first_with-found (λ k. (s.nodes k).node_id) n s.node_list at)

not_null : (r : ℕ) (ns : List ℕ) → occurrences 0 ns ≡ 0 → Stands r ns → (r == 0) ≡ false
not_null r ns proper at =
    ne→== r 0 (λ e. absurd (omega (arith, proper, subst (λ n. Stands n ns) e at)))

false_ne_true : (b : Bool) → b ≡ false → b ≡ true → ⊥
false_ne_true b e f = cc

-- The demotion leaves no master with the number.
demote-clears :
    (s : System) (n : ℕ)
    → s.initialized ≡ true
    → IsNumbered s
    → occurrences 0 s.node_list ≡ 0
    → Stands n s.node_list
    → ((demote s (s.nodes n).node_id).nodes n).is_master ≡ true
    → ⊥
unfolding demote
demote-clears s n ready numbered proper at on =
    let id = (s.nodes n).node_id in
    let found = find_node-found s n ready at in
    let same : find_node s id ≡ n = numbered.distinct (find_node s id) n found.0 at found.1 in
    let guard : (id == 0 || find_node s id == 0) ≡ false =
      rw (ne→== id 0 (numbered.positive n at))
        (not_null (find_node s id) s.node_list proper found.0) in
    otherwise (λ (r : System). (r.nodes n).is_master ≡ true → ⊥) (id == 0 || find_node s id == 0) _
      _ guard
      (subst
        (λ k. (store s.nodes k (record (s.nodes k) { is_master = false }) n).is_master ≡ true → ⊥)
        (sym same)
        (λ e.
          false_ne_true _
            (ap (λ (v : Node). v.is_master)
              (store_self s.nodes n (record (s.nodes n) { is_master = false })))
            e))
      on

-- A master after a demotion was one before, and no demotion changes the list.
demote-kept :
    (s : System) (id n : ℕ)
    → (((demote s id).nodes n).is_master ≡ true → (s.nodes n).is_master ≡ true)
      × ((demote s id).node_list ≡ s.node_list)
unfolding demote
demote-kept s id n =
    either
      (λ (r : System).
        ((r.nodes n).is_master ≡ true → (s.nodes n).is_master ≡ true) × (r.node_list ≡ s.node_list))
      (id == 0 || find_node s id == 0) _ _ (λ e. e, refl) (kept (find_node s id), refl)
  where
    kept :
        (old : ℕ)
        → (store s.nodes old (record (s.nodes old) { is_master = false }) n).is_master ≡ true
        → (s.nodes n).is_master ≡ true
    kept old = elim (Bool-cases (old == n)) [
      | inl e ↦ rw e (λ (bad : false ≡ true). cc)
      | inr e ↦ rw e (λ on. on)
    ]

-- KiElectMasterNode keeps a cluster's master the only one: in an initialized system whose nodes have
-- distinct numbers above 0 and no NULL in their list, if every node that is marked as the master is
-- the one that the cluster names, then so it is after the election.
pub elect_master_node-HasMaster :
    (s : System) (c : ℕ)
    → s.initialized ≡ true
    → IsNumbered s
    → occurrences 0 s.node_list ≡ 0
    → HasMaster s c
    → HasMaster (elect_master_node s c).1 c
unfolding elect_master_node
elect_master_node-HasMaster s c ready numbered proper m =
    either (λ (r : Status × System). HasMaster r.1 c) (candidate_of s c == 0) _ _ m
      (record { named = named })
  where
    old : System
    old = demote s (s.clusters c).master_node_id

    best : ℕ
    best = candidate_of s c

    cluster : Cluster
    cluster = record (old.clusters c) {
      master_node_id = (old.nodes best).node_id;
      last_election_time = (old.nodes best).last_heartbeat;
      election_term = inc32 (old.clusters c).election_term;
    }

    named :
        (n : ℕ)
        → Stands n (promote old c best).node_list
        → ((promote old c best).nodes n).is_master ≡ true
        → ((promote old c best).nodes n).node_id ≡ ((promote old c best).clusters c).master_node_id
    named n at on =
        let there : Stands n s.node_list = subst (Stands n) (demote-kept s _ n).1 at in
        elim (Bool-cases (best == n)) [
          | inl e ↦
              rw e
                (sym (ap (λ (v : Cluster). v.master_node_id) (store_self old.clusters c cluster)))
          | inr e ↦
              let new = record (old.nodes best) { is_master = true } in
              let kept : (old.nodes n).is_master ≡ true =
                sym (ap (λ (v : Node). v.is_master) (store_other old.nodes best n new e)) ∙ on in
              let was = m.named n there ((demote-kept s (s.clusters c).master_node_id n).0 kept) in
              absurd (
                demote-clears s n ready numbered proper there
                  (subst (λ id. ((demote s id).nodes n).is_master ≡ true) (sym was) kept))
        ]
