-- ===== src/Containers/Lifecycle.antt =====
-- What a container goes through: pausing and resuming, starting and stopping.
use dsls_os.Base.{
  ℕ, ◌≡◌, refl, sym, ap, ◌∙◌, subst, arith, Bool, true, false, not, ◌&&◌, Option, none, some, List,
  [], ◌∷◌, ◌++◌, map, ◌==◌, if◌then◌else◌, Bool-cases, inl, inr, Status, success, dec32,
  invalid_device_state,
}
use dsls_os.Containers.{
  State, created, initializing, running, paused, stopping, stopped, destroying, destroyed,
  is_running, Container, resumed, suspended, System, find_by_id, write_container, set_state, tell,
  pause_found, pause, resume_found, resume_container, destroy_found, destroy, is_empty,
}
use dsls_os.Containers.Registry.{Found, find_by_id-Found}

abbrev or_given : Container → Option Container → Container
or_given d none = d
or_given d (some c) = c

abbrev replaced : Container → Option Container → Option Container
replaced v none = none
replaced v (some c) = some v

-- The container that is found is the one that stands there.
module _ (id : ℕ) (c : Container) where
  find_by_id-number :
      (cs : List Container) → find_by_id id cs ≡ some c → (c.container_id == id) ≡ true
  find_by_id-number cs e = (subst (Found id cs) e (find_by_id-Found id cs)).numbered

  find_by_id-write_container :
      (v : Container) (cs : List Container)
      → find_by_id id cs ≡ some c
      → (v.container_id == id) ≡ true
      → find_by_id id (write_container id v cs) ≡ some v
  unfolding find_by_id write_container
  find_by_id-write_container v [] e n = ap (replaced v) e
  find_by_id-write_container v (x ∷ cs) e n = elim (Bool-cases (x.container_id == id)) [
    | inl h ↦ rw (h, n) refl
    | inr h ↦ rw (h, h) (find_by_id-write_container v cs (rw h at e) n)
  ]

  write_container-write_container :
      (v w : Container) (cs : List Container)
      → (w.container_id == id) ≡ true
      → write_container id v (write_container id w cs) ≡ write_container id v cs
  unfolding write_container
  write_container-write_container v w [] n = refl
  write_container-write_container v w (x ∷ cs) n = elim (Bool-cases (x.container_id == id)) [
    | inl h ↦ rw (h, n) refl
    | inr h ↦ rw h (rw h (ap (λ l. x ∷ l) (write_container-write_container v w cs n)))
  ]

  write_container_same :
      (cs : List Container) → find_by_id id cs ≡ some c → write_container id c cs ≡ cs
  unfolding find_by_id write_container
  write_container_same [] e = refl
  write_container_same (x ∷ cs) e = elim (Bool-cases (x.container_id == id)) [
    | inl h ↦ let same : x ≡ c = ap (or_given x) (rw h at e) in rw h (ap (λ y. y ∷ cs) (sym same))
    | inr h ↦ rw h (ap (λ l. x ∷ l) (write_container_same cs (rw h at e)))
  ]

is_running-running : (x : State) → is_running x ≡ true → x ≡ running
is_running-running created e = absurd (ground arith)
is_running-running initializing e = absurd (ground arith)
is_running-running running e = refl
is_running-running paused e = absurd (ground arith)
is_running-running stopping e = absurd (ground arith)
is_running-running stopped e = absurd (ground arith)
is_running-running destroying e = absurd (ground arith)
is_running-running destroyed e = absurd (ground arith)

-- A call on an initialized system for a container that is found.
called :
    (s : System) (id : ℕ) (c : Container) (f : Option Container → Status × System)
    (o : Status × System)
    → s.initialized ≡ true
    → find_by_id id s.container_list ≡ some c
    → (if s.initialized then f (find_by_id id s.container_list) else o) ≡ f (some c)
called s id c f o ready there =
    ap (λ b. if b then f (find_by_id id s.container_list) else o) ready ∙ ap f there

module _ (s : System) (id : ℕ) (c : Container) (ready : s.initialized ≡ true)
    (there : find_by_id id s.container_list ≡ some c) where
  -- CsResumeContainer undoes CsPauseContainer: pausing a running container of an initialized system
  -- succeeds, resuming it then succeeds and leaves the registry as it was, and the process manager
  -- was told to suspend and then to resume each process of the container.
  pub resume_container-pause :
      is_running c.state ≡ true
      → resume_container (pause s id).1 id
        ≡ (success, tell (tell s (map suspended c.process_list)) (map resumed c.process_list))
  unfolding pause_found resume_found
  resume_container-pause run =
      let number = find_by_id-number id c s.container_list there in
      let halted : Container = record c { state = paused } in
      let again = find_by_id-write_container id c halted s.container_list there number in
      let list = s.container_list in
      let first = tell (set_state s id c paused) (map suspended c.process_list) in
      let down : pause s id ≡ (success, first) =
        called s id c (pause_found s id) _ ready there
        ∙ ap (λ b. if b then (success, first) else (invalid_device_state, s)) run in
      let up : resume_container first id
          ≡ (success, tell (set_state first id halted running) (map resumed c.process_list)) =
        called first id halted (resume_found first id) _ ready again in
      let whole : write_container id (record halted { state = running })
            (write_container id halted list)
          ≡ list =
        write_container-write_container id c _ halted list number
        ∙ ap (λ x. write_container id (record c { state = x }) list)
            (sym (is_running-running c.state run))
        ∙ write_container_same id c list there in
      ap (λ r. resume_container r.1 id) down
      ∙ up
      ∙ ap
          (λ l. (
            success,
            record s {
              container_list = l;
              events = (s.events ++ map suspended c.process_list) ++ map resumed c.process_list;
            },
          ))
          whole

  -- Destroying a running or paused container leaves the count of active containers as it is: on an
  -- initialized system, CsDestroyContainer of a container that is found, without child containers
  -- or by force, succeeds and lowers the count of containers, and that of the active ones is not
  -- changed, whatever state the container is in.
  pub destroy-active_container_count :
      (force : Bool)
      → (not (is_empty c.child_containers) && not force) ≡ false
      → let r = destroy s id force in
        (r.0 ≡ success)
        × (r.1.container_count ≡ dec32 s.container_count)
        × (r.1.active_container_count ≡ s.active_container_count)
  unfolding destroy_found
  destroy-active_container_count force e = rw (ready, there, e) (refl, refl, refl)
