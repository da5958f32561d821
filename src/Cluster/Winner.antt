-- ===== src/Cluster/Winner.antt =====
-- Who is elected: KiElectMasterNode of kernel/src/distributed_management.c.
use dsls_os.Base.{
  ℕ, ◌^◌, ◌≤◌, ◌<◌, ◌≡◌, refl, sym, ap, ◌∙◌, subst, arith, Bool, true, false, ◌&&◌, ◌||◌, List, [],
  ◌∷◌, ltb, ◌==◌, if◌then◌else◌, store, store_self, Status, success, no_such_member, inc32,
  Bool-cases, inl, inr, ==→eq, ne→==, either,
}
use dsls_os.Base.Entries.{occurrences}
use dsls_os.Cluster.{
  Node, Cluster, System, is_candidate, score, best_candidate, find_node, demote, promote,
  elect_master_node,
}

-- `n` stands in a list.
abbrev pub Stands : ℕ → List ℕ → Type 0
Stands n ns = 0 < occurrences n ns

-- No candidate of a list has more points than `points`.
abbrev pub AtMost : (ℕ → Node) → List ℕ → ℕ → Type 0
AtMost nodes ns points =
    (n : ℕ) → Stands n ns → is_candidate (nodes n) ≡ true → score (nodes n) ≤ points

-- What the loop finds, from the candidate `best` with `highest` points on.
pub data Best (nodes : ℕ → Node) (best highest : ℕ) (ns : List ℕ) (r : ℕ) : Type 0 where
  kept : r ≡ best → AtMost nodes ns highest → Best nodes best highest ns r
  won :
      Stands r ns
      → is_candidate (nodes r) ≡ true
      → highest < score (nodes r)
      → AtMost nodes ns (score (nodes r))
      → Best nodes best highest ns r

AtMost-cons :
    (nodes : ℕ → Node) (x : ℕ) (xs : List ℕ) (points : ℕ)
    → (is_candidate (nodes x) ≡ true → score (nodes x) ≤ points)
    → AtMost nodes xs points
    → AtMost nodes (x ∷ xs) points
unfolding occurrences
AtMost-cons nodes x xs points first rest n h c = elim (Bool-cases (x == n)) [
  | inl e ↦
      let same : n ≡ x = sym (==→eq x n e) in
      rw same (first (subst (λ k. is_candidate (nodes k) ≡ true) same c))
  | inr e ↦ rest n (ground (arith, h, e)) c
]

not_better : (a : Bool) (m n : ℕ) → (a && ltb m n) ≡ false → a ≡ true → n ≤ m
not_better true m n e c = ground (arith, e)
not_better false m n e c = absurd (ground arith)

better_parts : (a : Bool) (m n : ℕ) → (a && ltb m n) ≡ true → (a ≡ true) × (m < n)
better_parts true m n e = (refl, ground (arith, e))
better_parts false m n e = absurd (ground arith)

pub Stands-later : (x n : ℕ) (xs : List ℕ) → Stands n xs → Stands n (x ∷ xs)
unfolding occurrences
Stands-later x n xs h = omega (arith, h)

pub Stands-rest : (x n : ℕ) (xs : List ℕ) → (x == n) ≡ false → Stands n (x ∷ xs) → Stands n xs
unfolding occurrences
Stands-rest x n xs e h = ground (arith, e, h)

pub Stands-first : (x : ℕ) (xs : List ℕ) → Stands x (x ∷ xs)
unfolding occurrences
Stands-first x xs = ground arith

pub best_candidate-Best :
    (nodes : ℕ → Node) (best highest : ℕ) (ns : List ℕ)
    → Best nodes best highest ns (best_candidate nodes best highest ns)
unfolding best_candidate
best_candidate-Best nodes best highest [] =
    kept refl (λ n h c. absurd (unfold occurrences in (omega (arith, h))))
best_candidate-Best nodes best highest (x ∷ xs) =
    elim (Bool-cases (is_candidate (nodes x) && ltb highest (score (nodes x)))) [
      | inl e ↦
          rw e (after (better_parts _ _ _ e) (best_candidate-Best nodes x (score (nodes x)) xs))
      | inr e ↦ rw e (before (not_better _ _ _ e) (best_candidate-Best nodes best highest xs))
    ]
  where
    after :
        {r : ℕ}
        → (is_candidate (nodes x) ≡ true) × (highest < score (nodes x))
        → Best nodes x (score (nodes x)) xs r
        → Best nodes best highest (x ∷ xs) r
    after p (kept e most) =
        rw e (won (Stands-first x xs) p.0 p.1 (AtMost-cons nodes x xs _ (λ c. omega arith) most))
    after {r} p (won at c more most) =
        won (Stands-later x r xs at) c (omega (arith, p.1, more))
          (AtMost-cons nodes x xs _ (λ k. omega (arith, more)) most)

    before :
        {r : ℕ}
        → (is_candidate (nodes x) ≡ true → score (nodes x) ≤ highest)
        → Best nodes best highest xs r
        → Best nodes best highest (x ∷ xs) r
    before p (kept e most) = kept e (AtMost-cons nodes x xs highest p most)
    before {r} p (won at c more most) =
        won (Stands-later x r xs at) c more
          (AtMost-cons nodes x xs _ (λ k. omega (arith, more, p k)) most)

-- How an election in the cluster `c` ends.
pub data Election (s : System) (c : ℕ) (r : Status × System) : Type 0 where
  nobody : r ≡ (no_such_member, s) → AtMost s.nodes (s.clusters c).node_list 0 → Election s c r
  elected :
      (best : ℕ)
      → Stands best (s.clusters c).node_list
      → is_candidate (s.nodes best) ≡ true
      → AtMost s.nodes (s.clusters c).node_list (score (s.nodes best))
      → r.0 ≡ success
      → (r.1.clusters c).master_node_id ≡ (s.nodes best).node_id
      → (r.1.clusters c).election_term ≡ inc32 (s.clusters c).election_term
      → (r.1.nodes best).is_master ≡ true
      → Election s c r

-- A demotion changes nothing but marks of masters.
demoted_same :
    (s : System) (id : ℕ)
    → ((n : ℕ) → ((demote s id).nodes n).node_id ≡ (s.nodes n).node_id)
      × ((demote s id).clusters ≡ s.clusters)
unfolding demote
demoted_same s id =
    let old = find_node s id in
    either
      (λ (r : System).
        ((n : ℕ) → (r.nodes n).node_id ≡ (s.nodes n).node_id) × (r.clusters ≡ s.clusters))
      (id == 0 || old == 0) _ _ (λ n. refl, refl) (λ n. same old n, refl)
  where
    same :
        (old n : ℕ)
        → (store s.nodes old (record (s.nodes old) { is_master = false }) n).node_id
          ≡ (s.nodes n).node_id
    same old n = elim (Bool-cases (old == n)) [
      | inl e ↦ rw (e, ← ==→eq old n e) refl
      | inr e ↦ rw e refl
    ]

-- KiElectMasterNode of a cluster whose list has no NULL: either no candidate, which is a node that is
-- online and healthy, has a score above 0, the status is STATUS_NO_SUCH_MEMBER and nothing changes;
-- or a candidate of the cluster whose score no candidate exceeds becomes the master, and the term
-- is one more.
pub elect_master_node-Election :
    (s : System) (c : ℕ)
    → occurrences 0 (s.clusters c).node_list ≡ 0
    → Election s c (elect_master_node s c)
unfolding elect_master_node
elect_master_node-Election s c proper =
    go _ (best_candidate-Best s.nodes 0 0 (s.clusters c).node_list)
  where
    go :
        (best : ℕ)
        → Best s.nodes 0 0 (s.clusters c).node_list best
        → Election s c (
            if best == 0
            then (no_such_member, s)
            else (success, promote (demote s (s.clusters c).master_node_id) c best))
    go best (kept e most) = rw e (nobody refl most)
    go best (won at cand more most) =
        let d = demoted_same s (s.clusters c).master_node_id in
        let there : (best == 0) ≡ false = ne→== best 0 (λ e.
          absurd (omega (arith, proper, subst (λ n. Stands n (s.clusters c).node_list) e at))) in
        let old = demote s (s.clusters c).master_node_id in
        let chosen = record (old.nodes best) { is_master = true } in
        let cluster = record (old.clusters c) {
          master_node_id = chosen.node_id;
          last_election_time = chosen.last_heartbeat;
          election_term = inc32 (old.clusters c).election_term;
        } in
        let written = store_self old.clusters c cluster in
        rw there (
          elected best at cand most refl (ap (λ (v : Cluster). v.master_node_id) written ∙ d.0 best)
            (ap (λ (v : Cluster). v.election_term) written
              ∙ ap (λ (f : ℕ → Cluster). inc32 (f c).election_term) d.1)
            (ap (λ (v : Node). v.is_master) (store_self old.nodes best chosen)))

-- A candidate whose load is above 100, and at most 2 ^ 31, has more points than every candidate whose
-- load is at most 100, whatever memory they have, when their health is at most 100: the unsigned
-- difference 100 - LoadAverage wraps around.
pub score_overloaded :
    (m n : Node)
    → m.health_score ≤ 100
    → n.health_score ≤ 100
    → m.load_average ≤ 100
    → 100 < n.load_average
    → n.load_average ≤ 2 ^ 31
    → score m < score n
unfolding score
score_overloaded m n hm hn low high top = omega arith
