-- ===== src/Containers.antt =====
-- kernel/src/container_system.c: the registry of containers, and their states. A container is found by
-- its number; a process is named by its address and NULL is 0. What the process manager is told
-- to do is a list of events; whether a process can be resumed and created is an argument, as
-- PsResumeProcess and PsCreateContainerProcess are not in the repository. Locks are left out, and the
-- strings, handles and security fields are, as nothing is computed from them.
pub mod Registry
pub mod Steps
pub mod Lifecycle
mod Tests
use dsls_os.Base.{
  ℕ, ◌+◌, ◌*◌, ◌^◌, Bool, true, false, not, ◌&&◌, ◌||◌, Option, none, some, List, [], ◌∷◌, ◌++◌,
  map, ltb, ◌==◌, if◌then◌else◌, Status, success, unsuccessful, invalid_parameter,
  insufficient_resources, not_found, invalid_device_state, access_denied, nt_success, inc32, dec32,
}

-- CONTAINER_STATE
pub data State : Type 0 where
  created initializing running paused stopping stopped destroying destroyed : State

abbrev pub is_running : State → Bool
is_running running = true
is_running _ = false

abbrev pub is_paused : State → Bool
is_paused paused = true
is_paused _ = false

-- `State == CREATED || State == STOPPED`, which CsStartContainer asks for.
abbrev pub is_startable : State → Bool
is_startable created = true
is_startable stopped = true
is_startable _ = false

-- CONTAINER_LIMITS
pub record Limits : Type 0 where
  pub max_memory : ℕ
  pub max_cpu_time : ℕ
  pub max_disk_space : ℕ
  pub max_processes : ℕ
  pub max_threads : ℕ
  pub max_file_descriptors : ℕ
  pub max_network_connections : ℕ
  pub cpu_shares : ℕ
  pub priority : ℕ

-- CONTAINER_VOLUME; a path is named by its address.
pub record Volume : Type 0 where
  pub source_path : ℕ
  pub target_path : ℕ
  pub read_only : Bool

-- The fields of CONTAINER that the functions below read or write.
pub record Container : Type 0 where
  pub container_id : ℕ
  pub state : State
  pub limits : Limits
  pub init_process : ℕ
  pub process_list : List ℕ
  pub process_count : ℕ
  pub volume_list : List Volume
  pub volume_count : ℕ
  pub child_containers : List ℕ

-- What the process manager is told.
pub data Event : Type 0 where
  resumed suspended terminated : ℕ → Event

-- The static variables of the file, and the events so far.
pub record System : Type 0 where
  pub initialized : Bool
  pub next_container_id : ℕ
  pub container_list : List Container
  pub container_count : ℕ
  pub active_container_count : ℕ
  pub events : List Event

-- CsInitializeContainerSystem
abbrev pub initialize : System → Status × System
initialize s = if s.initialized then (success, s) else (
  success,
  record s {
    container_list = [];
    container_count = 0;
    active_container_count = 0;
    initialized = true;
  },
)

-- KiValidateContainerLimits; its test of a ULONG below 0 never holds.
unfoldable pub validate_limits : Limits → Status
validate_limits l =
    if ltb l.max_memory (1024 * 1024)
      || ltb l.max_processes 1
      || ltb l.max_threads 1
      || ltb l.max_file_descriptors 10
      || ltb l.cpu_shares 2
      || ltb 262144 l.cpu_shares
    then invalid_parameter
    else success

-- The limits that CsCreateContainer sets, with and without a configuration.
abbrev pub initial_limits : Bool → ℕ → Limits
initial_limits configured normal = record {
  max_memory = if configured then 512 * 1024 * 1024 else 256 * 1024 * 1024;
  max_cpu_time = 0;
  max_disk_space = if configured then 1024 * 1024 * 1024 else 512 * 1024 * 1024;
  max_processes = if configured then 100 else 50;
  max_threads = if configured then 500 else 200;
  max_file_descriptors = if configured then 1000 else 500;
  max_network_connections = if configured then 50 else 25;
  cpu_shares = 1024;
  priority = normal;
}

abbrev pub new_container : ℕ → Limits → ℕ → Container
new_container id limits process = record {
  container_id = id;
  state = created;
  limits = limits;
  init_process = process;
  process_list = process ∷ [];
  process_count = 1;
  volume_list = [];
  volume_count = 0;
  child_containers = [];
}

-- CsCreateContainer of names that are not NULL, given whether the pool has the container, the priority
-- THREAD_PRIORITY_NORMAL, and the process that PsCreateContainerProcess makes or its error. The
-- initialization of namespaces, resources, network and security always succeeds.
unfoldable pub create : System → Bool → Bool → ℕ → Status × ℕ → Status × ℕ × System
create s pool configured normal process =
    let limits = initial_limits configured normal in
    let numbered = record s { next_container_id = inc32 s.next_container_id } in
    if not s.initialized
    then (invalid_parameter, 0, s)
    else if not pool
    then (insufficient_resources, 0, s)
    else if not (nt_success (validate_limits limits))
    then (validate_limits limits, 0, numbered)
    else if not (nt_success process.0)
    then (process.0, 0, numbered)
    else (
      success,
      s.next_container_id,
      record numbered {
        container_list =
            s.container_list ++ new_container s.next_container_id limits process.1 ∷ [];
        container_count = inc32 s.container_count;
      },
    )

-- CsFindContainerById
unfoldable pub find_by_id : ℕ → List Container → Option Container
find_by_id id [] = none
find_by_id id (c ∷ cs) = if c.container_id == id then some c else find_by_id id cs

-- What is written through the pointer that CsFindContainerById has returned.
unfoldable pub write_container : ℕ → Container → List Container → List Container
write_container id v [] = []
write_container id v (c ∷ cs) = if c.container_id == id then v ∷ cs else c ∷ write_container id v cs

-- RemoveEntryList of that container.
unfoldable pub remove_container : ℕ → List Container → List Container
remove_container id [] = []
remove_container id (c ∷ cs) = if c.container_id == id then cs else c ∷ remove_container id cs

abbrev pub set_state : System → ℕ → Container → State → System
set_state s id c state = record s {
  container_list = write_container id (record c { state = state }) s.container_list;
}

abbrev pub tell : System → List Event → System
tell s es = record s { events = s.events ++ es }

-- CsStartContainer
unfoldable pub start_found : System → ℕ → (ℕ → Status) → Option Container → Status × System
start_found s id resume none = (not_found, s)
start_found s id resume (some c) =
    let told = tell s (if c.init_process == 0 then [] else resumed c.init_process ∷ []) in
    let started = set_state told id c running in
    if not (is_startable c.state)
    then (invalid_device_state, s)
    else if c.init_process == 0 || nt_success (resume c.init_process)
    then (success, record started { active_container_count = inc32 s.active_container_count })
    else (resume c.init_process, set_state told id c stopped)

abbrev pub start : System → ℕ → (ℕ → Status) → Status × System
start s id resume =
    if s.initialized
    then start_found s id resume (find_by_id id s.container_list)
    else (unsuccessful, s)

-- CsStopContainer
unfoldable pub stop_found : System → ℕ → Bool → Option Container → Status × System
stop_found s id force none = (not_found, s)
stop_found s id force (some c) =
    let told = tell s (map (λ p. if force then terminated p else suspended p) c.process_list) in
    if is_running c.state
    then (
      success,
      record (set_state told id c stopped) {
        active_container_count = dec32 s.active_container_count;
      },
    )
    else (invalid_device_state, s)

abbrev pub stop : System → ℕ → Bool → Status × System
stop s id force =
    if s.initialized
    then stop_found s id force (find_by_id id s.container_list)
    else (unsuccessful, s)

-- CsPauseContainer
unfoldable pub pause_found : System → ℕ → Option Container → Status × System
pause_found s id none = (not_found, s)
pause_found s id (some c) =
    if is_running c.state
    then (success, tell (set_state s id c paused) (map suspended c.process_list))
    else (invalid_device_state, s)

abbrev pub pause : System → ℕ → Status × System
pause s id =
    if s.initialized then pause_found s id (find_by_id id s.container_list) else (unsuccessful, s)

-- CsResumeContainer
unfoldable pub resume_found : System → ℕ → Option Container → Status × System
resume_found s id none = (not_found, s)
resume_found s id (some c) =
    if is_paused c.state
    then (success, tell (set_state s id c running) (map resumed c.process_list))
    else (invalid_device_state, s)

abbrev pub resume_container : System → ℕ → Status × System
resume_container s id =
    if s.initialized then resume_found s id (find_by_id id s.container_list) else (unsuccessful, s)

abbrev pub is_empty {ℓ} : {A : Type ℓ} → List A → Bool
is_empty [] = true
is_empty (x ∷ xs) = false

-- CsDestroyContainer. The state that decides whether the container is stopped first is read after it
-- has been set.
unfoldable pub destroy_found : System → ℕ → Bool → Option Container → Status × System
destroy_found s id force none = (not_found, s)
destroy_found s id force (some c) =
    let marked = set_state s id c destroying in
    let state = (record c { state = destroying }).state in
    let halted =
      if is_running state || is_paused state then stop marked id force else (success, marked) in
    let told = tell halted.1 (map terminated c.process_list) in
    if not (is_empty c.child_containers) && not force
    then (access_denied, s)
    else if not (nt_success halted.0) && not force
    then halted
    else (
      success,
      record told {
        container_list = remove_container id told.container_list;
        container_count = dec32 told.container_count;
      },
    )

abbrev pub destroy : System → ℕ → Bool → Status × System
destroy s id force =
    if s.initialized
    then destroy_found s id force (find_by_id id s.container_list)
    else (unsuccessful, s)

-- CsSetContainerLimits of limits that are not NULL
unfoldable pub set_limits_found : System → ℕ → Limits → Option Container → Status × System
set_limits_found s id limits none = (not_found, s)
set_limits_found s id limits (some c) = (
  success,
  record s { container_list = write_container id (record c { limits = limits }) s.container_list },
)

abbrev pub set_limits : System → ℕ → Limits → Status × System
set_limits s id limits =
    if not s.initialized
    then (invalid_parameter, s)
    else if nt_success (validate_limits limits)
    then set_limits_found s id limits (find_by_id id s.container_list)
    else (validate_limits limits, s)

-- CsAddContainerVolume of paths that are not NULL; `pool` says whether the volume is allocated.
unfoldable pub add_volume_found : System → ℕ → Bool → Volume → Option Container → Status × System
add_volume_found s id pool v none = (not_found, s)
add_volume_found s id pool v (some c) =
    if pool
    then (
      success,
      record s {
        container_list =
            write_container id
              (record c {
                volume_list = c.volume_list ++ v ∷ [];
                volume_count = inc32 c.volume_count;
              })
              s.container_list;
      },
    )
    else (insufficient_resources, s)

abbrev pub add_volume : System → ℕ → Bool → Volume → Status × System
add_volume s id pool v =
    if s.initialized
    then add_volume_found s id pool v (find_by_id id s.container_list)
    else (invalid_parameter, s)
