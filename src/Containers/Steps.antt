-- ===== src/Containers/Steps.antt =====
-- The container system as a state machine.
use dsls_os.Base.{
  otherwise, invalid_parameter, ℕ, ◌+◌, ◌≡◌, refl, sym, ap, ◌∙◌, subst, arith, Bool, true, false,
  not, ◌&&◌, ◌||◌, Option, none, some, List, [], ◌∷◌, ◌++◌, ◌==◌, if◌then◌else◌, Bool-cases, inl,
  inr, length-append, Status, success, nt_success, ◌%◌, ulong_mod, either, inc32,
}
use dsls_os.Containers.{
  State, created, initializing, running, paused, stopping, stopped, destroying, destroyed,
  is_running, is_paused, is_startable, is_empty, Limits, Volume, Container, Event, System,
  initialize, validate_limits, initial_limits, new_container, create, find_by_id, write_container,
  start_found, start, stop_found, stop, pause_found, pause, resume_found, resume_container,
  destroy_found, destroy, set_limits_found, set_limits, add_volume_found, add_volume,
}
use dsls_os.Containers.Registry.{
  is_active, one_if, count_active, IsSane, IsRegistered, IsAt, Found, find_by_id-Found,
  count_active-append, All-append,
}

-- How many containers a call of CsDestroyContainer destroys while they are active.
abbrev lost_by_found : Bool → Option Container → ℕ
lost_by_found force none = 0
lost_by_found force (some c) =
    if not (is_empty c.child_containers) && not force then 0 else one_if (is_active c.state)

abbrev pub lost_by : System → ℕ → Bool → ℕ
lost_by s id force =
    if s.initialized then lost_by_found force (find_by_id id s.container_list) else 0

-- One call, with the number of containers that it destroys while they are active.
pub data Step (s : System) : ℕ → System → Type 0 where
  creates :
      (pool configured : Bool) (normal : ℕ) (process : Status × ℕ)
      → Step s 0 (create s pool configured normal process).2
  starts : (id : ℕ) (resume : ℕ → Status) → Step s 0 (start s id resume).1
  stops : (id : ℕ) (force : Bool) → Step s 0 (stop s id force).1
  pauses : (id : ℕ) → Step s 0 (pause s id).1
  resumes : (id : ℕ) → Step s 0 (resume_container s id).1
  destroys : (id : ℕ) (force : Bool) → Step s (lost_by s id force) (destroy s id force).1
  sets_limits : (id : ℕ) (limits : Limits) → Step s 0 (set_limits s id limits).1
  adds_volume : (id : ℕ) (pool : Bool) (v : Volume) → Step s 0 (add_volume s id pool v).1

-- What CsInitializeContainerSystem and any calls after it lead to, with the number of containers that
-- were destroyed while they were active.
pub data Reachable : ℕ → System → Type 0 where
  begins : (s : System) → s.initialized ≡ false → Reachable 0 (initialize s).1
  goes_on : (n k : ℕ) (s r : System) → Reachable n s → Step s k r → Reachable (n + k) r

startable_not_active : (x : State) → is_startable x ≡ true → is_active x ≡ false
startable_not_active created e = refl
startable_not_active initializing e = refl
startable_not_active running e = sym e
startable_not_active paused e = sym e
startable_not_active stopping e = refl
startable_not_active stopped e = refl
startable_not_active destroying e = refl
startable_not_active destroyed e = refl

running_active : (x : State) → is_running x ≡ true → is_active x ≡ true
running_active x e = rw e refl

paused_active : (x : State) → is_paused x ≡ true → is_active x ≡ true
paused_active created e = e
paused_active initializing e = e
paused_active running e = refl
paused_active paused e = refl
paused_active stopping e = e
paused_active stopped e = e
paused_active destroying e = e
paused_active destroyed e = e

initial_limits_valid :
    (configured : Bool) (normal : ℕ) → validate_limits (initial_limits configured normal) ≡ success
unfolding validate_limits
initial_limits_valid true normal = refl
initial_limits_valid false normal = refl

module _ (s : System) (lost : ℕ) (q : IsRegistered s lost) where
  abbrev Kept : Status × System → Type 0
  Kept r = IsRegistered r.1 lost

  -- The container `c` is written over by `v`, and the count of active ones is set to `n`.
  write-IsRegistered :
      (id n : ℕ) (c v : Container) (es : List Event)
      → IsAt id s.container_list c
      → IsSane v
      → n ≡ (count_active (write_container id v s.container_list) + lost) % ulong_mod
      → IsRegistered
          (record s {
            container_list = write_container id v s.container_list;
            active_container_count = n;
            events = es;
          })
          lost
  write-IsRegistered id n c v es at k e = record {
    sane = at.written_sane v q.sane k;
    counted = q.counted ∙ ap (λ n. n % ulong_mod) (sym (at.written_length v));
    active = e;
  }

  state-IsSane :
      (id : ℕ) (c : Container) (x : State)
      → IsAt id s.container_list c
      → IsSane (record c { state = x })
  state-IsSane id c x at =
      let k = at.sane q.sane in record { limited = k.limited; counted = k.counted }

  start-IsRegistered :
      (id : ℕ) (resume : ℕ → Status) (o : Option Container)
      → Found id s.container_list o
      → IsRegistered (start_found s id resume o).1 lost
  unfolding start_found
  start-IsRegistered id resume none f = q
  start-IsRegistered id resume (some c) at = elim (Bool-cases (is_startable c.state)) [
    | inr e ↦ rw e q
    | inl e ↦
        let off = startable_not_active c.state e in
        let on = at.written_active (record c { state = running }) in
        let still = at.written_active (record c { state = stopped }) in
        rw e (
          either Kept (c.init_process == 0 || nt_success (resume c.init_process)) _ _
            (write-IsRegistered id _ c _ _ at (state-IsSane id c running at)
              (omega (arith, q.active, on, ap one_if off)))
            (write-IsRegistered id _ c _ _ at (state-IsSane id c stopped at)
              (q.active ∙ ap (λ n. (n + lost) % ulong_mod) (omega (arith, still, ap one_if off)))))
  ]

  stop-IsRegistered :
      (id : ℕ) (force : Bool) (o : Option Container)
      → Found id s.container_list o
      → IsRegistered (stop_found s id force o).1 lost
  unfolding stop_found
  stop-IsRegistered id force none f = q
  stop-IsRegistered id force (some c) at = elim (Bool-cases (is_running c.state)) [
    | inr e ↦ rw e q
    | inl e ↦
        let on = running_active c.state e in
        let off = at.written_active (record c { state = stopped }) in
        let total : (count_active s.container_list + lost)
            ≡ count_active (write_container id (record c { state = stopped }) s.container_list)
              + lost
              + 1 =
          omega (arith, off, ap one_if on) in
        rw e (
          write-IsRegistered id _ c _ _ at (state-IsSane id c stopped at)
            (omega (arith, q.active, total)))
  ]

  -- A state that is active in the same way.
  same-IsRegistered :
      (id : ℕ) (c : Container) (x : State) (es : List Event)
      → IsAt id s.container_list c
      → is_active c.state ≡ is_active x
      → IsRegistered
          (record s {
            container_list = write_container id (record c { state = x }) s.container_list;
            events = es;
          })
          lost
  same-IsRegistered id c x es at e =
      let kept = at.written_active (record c { state = x }) in
      write-IsRegistered id _ c _ es at (state-IsSane id c x at)
        (q.active ∙ ap (λ n. (n + lost) % ulong_mod) (omega (arith, kept, ap one_if e)))

  pause-IsRegistered :
      (id : ℕ) (o : Option Container)
      → Found id s.container_list o
      → IsRegistered (pause_found s id o).1 lost
  unfolding pause_found
  pause-IsRegistered id none f = q
  pause-IsRegistered id (some c) at = elim (Bool-cases (is_running c.state)) [
    | inr e ↦ rw e q
    | inl e ↦ rw e (same-IsRegistered id c paused _ at (running_active c.state e))
  ]

  resume-IsRegistered :
      (id : ℕ) (o : Option Container)
      → Found id s.container_list o
      → IsRegistered (resume_found s id o).1 lost
  unfolding resume_found
  resume-IsRegistered id none f = q
  resume-IsRegistered id (some c) at = elim (Bool-cases (is_paused c.state)) [
    | inr e ↦ rw e q
    | inl e ↦ rw e (same-IsRegistered id c running _ at (paused_active c.state e))
  ]

  set_limits-IsRegistered :
      (id : ℕ) (limits : Limits) (o : Option Container)
      → validate_limits limits ≡ success
      → Found id s.container_list o
      → IsRegistered (set_limits_found s id limits o).1 lost
  unfolding set_limits_found
  set_limits-IsRegistered id limits none valid f = q
  set_limits-IsRegistered id limits (some c) valid at =
      let kept = at.written_active (record c { limits = limits }) in
      write-IsRegistered id _ c _ _ at
        (record { limited = valid; counted = (at.sane q.sane).counted })
        (q.active ∙ ap (λ n. (n + lost) % ulong_mod) (omega (arith, kept)))

  add_volume-IsRegistered :
      (id : ℕ) (pool : Bool) (v : Volume) (o : Option Container)
      → Found id s.container_list o
      → IsRegistered (add_volume_found s id pool v o).1 lost
  unfolding add_volume_found
  add_volume-IsRegistered id pool v none f = q
  add_volume-IsRegistered id pool v (some c) at =
      let k = at.sane q.sane in
      let kept =
        at.written_active (record c {
          volume_list = c.volume_list ++ v ∷ [];
          volume_count = inc32 c.volume_count;
        }) in
      either Kept pool _ _
        (write-IsRegistered id _ c _ _ at
          (record {
            limited = k.limited;
            counted = omega (arith, k.counted, length-append c.volume_list (v ∷ []));
          })
          (q.active ∙ ap (λ n. (n + lost) % ulong_mod) (omega (arith, kept))))
        q

  destroy-IsRegistered :
      (id : ℕ) (force : Bool) (o : Option Container)
      → Found id s.container_list o
      → IsRegistered (destroy_found s id force o).1 (lost + lost_by_found force o)
  unfolding destroy_found
  destroy-IsRegistered id force none f = subst (IsRegistered s) (omega arith) q
  destroy-IsRegistered id force (some c) at =
      let gone = at.removed_written (record c { state = destroying }) at.numbered in
      elim (Bool-cases (not (is_empty c.child_containers) && not force)) [
        | inl e ↦ rw e (subst (IsRegistered s) (omega arith) q)
        | inr e ↦
            rw (e, gone)
              (record {
                sane = at.removed_sane q.sane;
                counted = omega (arith, q.counted, at.removed_length);
                active = q.active ∙ ap (λ n. n % ulong_mod) (omega (arith, at.removed_active));
              })
      ]

  create-IsRegistered :
      (pool configured : Bool) (normal : ℕ) (process : Status × ℕ)
      → IsRegistered (create s pool configured normal process).2 lost
  unfolding create
  create-IsRegistered pool configured normal process =
      let Kept : Status × ℕ × System → Type 0 = λ r. IsRegistered r.2 lost in
      let numbered : IsRegistered (record s { next_container_id = inc32 s.next_container_id })
          lost =
        record { sane = q.sane; counted = q.counted; active = q.active } in
      let c = new_container s.next_container_id (initial_limits configured normal) process.1 in
      either Kept (not s.initialized) _ _ q (
        either Kept (not pool) _ _ q (
          either Kept (not (nt_success (validate_limits (initial_limits configured normal)))) _ _
            numbered
            (either Kept (not (nt_success process.0)) _ _ numbered (record {
              sane =
                  All-append s.container_list c q.sane
                    (record { limited = initial_limits_valid configured normal; counted = refl });
              counted = omega (arith, q.counted, length-append s.container_list (c ∷ []));
              active = omega (arith, q.active, count_active-append s.container_list c);
            }))))

invalid_not_success : nt_success invalid_parameter ≡ true → invalid_parameter ≡ success
invalid_not_success e = absurd (ground arith)

valid_limits : (l : Limits) → nt_success (validate_limits l) ≡ true → validate_limits l ≡ success
unfolding validate_limits
valid_limits l =
    either (λ (x : Status). nt_success x ≡ true → x ≡ success) _ _ _ invalid_not_success (λ e. refl)

Step-IsRegistered :
    (s r : System) (lost k : ℕ) → Step s k r → IsRegistered s lost → IsRegistered r (lost + k)
Step-IsRegistered s r lost k step q = go step
  where
    stay : (r : System) → IsRegistered r lost → IsRegistered r (lost + 0)
    stay r p = subst (IsRegistered r) (omega arith) p

    both :
        (b : Bool) (x y : Status × System) (m n : ℕ)
        → IsRegistered x.1 (lost + m)
        → IsRegistered y.1 (lost + n)
        → IsRegistered (if b then x else y).1 (lost + (if b then m else n))
    both true x y m n p o = p
    both false x y m n p o = o

    called :
        (f : Option Container → Status × System) (o : Status × System) (id : ℕ)
        → IsRegistered o.1 lost
        → IsRegistered (f (find_by_id id s.container_list)).1 lost
        → IsRegistered
            (if s.initialized then f (find_by_id id s.container_list) else o).1
            (lost + 0)
    called f o id p found =
        stay _ (either (λ (x : Status × System). IsRegistered x.1 lost) s.initialized _ _ found p)

    at : (id : ℕ) → Found id s.container_list (find_by_id id s.container_list)
    at id = find_by_id-Found id s.container_list

    go : {k : ℕ} {r : System} → Step s k r → IsRegistered r (lost + k)
    go (creates pool configured normal process) =
        stay _ (create-IsRegistered s lost q pool configured normal process)
    go (starts id resume) =
        called (start_found s id resume) _ id q (start-IsRegistered s lost q id resume _ (at id))
    go (stops id force) =
        called (stop_found s id force) _ id q (stop-IsRegistered s lost q id force _ (at id))
    go (pauses id) = called (pause_found s id) _ id q (pause-IsRegistered s lost q id _ (at id))
    go (resumes id) = called (resume_found s id) _ id q (resume-IsRegistered s lost q id _ (at id))
    go (destroys id force) =
        both s.initialized _ _ _ 0 (destroy-IsRegistered s lost q id force _ (at id)) (stay s q)
    go (sets_limits id limits) =
        let Kept : Status × System → Type 0 = λ x. IsRegistered x.1 lost in
        stay _ (
          either Kept (not s.initialized) _ _ q
            (elim (Bool-cases (nt_success (validate_limits limits))) [
              | inl e ↦
                  rw e
                    (set_limits-IsRegistered s lost q id limits _ (valid_limits limits e) (at id))
              | inr e ↦ rw e q
            ]))
    go (adds_volume id pool v) =
        called (add_volume_found s id pool v) _ id q
          (add_volume-IsRegistered s lost q id pool v _ (at id))

-- In every state that the container system reaches, the containers are counted right, every container
-- has limits that pass the validation and its volumes are counted right; and the count of active
-- containers is the number of running and paused ones together with the number of containers that
-- were destroyed while they were running or paused, which CsDestroyContainer never counts down. All
-- counts are modulo the word size.
pub Reachable-IsRegistered : (lost : ℕ) (s : System) → Reachable lost s → IsRegistered s lost
unfolding count_active
Reachable-IsRegistered lost s (begins s₀ fresh) =
    otherwise (λ (x : Status × System). IsRegistered x.1 0) s₀.initialized _ _ fresh
      (record { sane = tt; counted = refl; active = refl })
Reachable-IsRegistered lost s (goes_on n k before r h step) =
    Step-IsRegistered before s n k step (Reachable-IsRegistered n before h)
