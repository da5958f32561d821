-- ===== src/Containers/Tests.antt =====
-- The theorems on containers at concrete states.
use dsls_os.Base.{ℕ, ◌+◌, ◌≡◌, refl, true, false, some, [], ◌∷◌, map, Status, success}
use dsls_os.Containers.{
  Container, System, initialize, create, validate_limits, find_by_id, start, start_found, pause,
  resume_container, destroy, tell, suspended, resumed, new_container, initial_limits, running,
  write_container,
}
use dsls_os.Containers.Registry.{IsRegistered}
use dsls_os.Containers.Steps.{
  Reachable, begins, goes_on, creates, starts, destroys, lost_by, Reachable-IsRegistered,
}
use dsls_os.Containers.Lifecycle.{resume_container-pause}

abbrev blank : System
blank = record {
  initialized = false;
  next_container_id = 1;
  container_list = [];
  container_count = 0;
  active_container_count = 0;
  events = [];
}

abbrev process : Status × ℕ
process = (success, 4096)

-- Container 1 with the process at 4096 is created and started.
abbrev one_created : System
one_created = (create (initialize blank).1 true false 8 process).2

abbrev one_running : System
one_running = (start one_created 1 (λ p. success)).1

one_running-Reachable : Reachable 0 one_running
one_running-Reachable =
    goes_on 0 0 one_created one_running
      (goes_on 0 0 (initialize blank).1 one_created (begins blank refl)
        (creates true false 8 process))
      (starts 1 (λ p. success))

one_destroyed-Reachable :
    Reachable (0 + lost_by one_running 1 false) (destroy one_running 1 false).1
one_destroyed-Reachable =
    goes_on 0 (lost_by one_running 1 false) one_running (destroy one_running 1 false).1
      one_running-Reachable (destroys 1 false)

Reachable-IsRegistered_example :
    IsRegistered (destroy one_running 1 false).1 (0 + lost_by one_running 1 false)
Reachable-IsRegistered_example =
    Reachable-IsRegistered (0 + lost_by one_running 1 false) (destroy one_running 1 false).1
      one_destroyed-Reachable

one_is_lost : lost_by one_running 1 false ≡ 1
unfolding create validate_limits find_by_id start_found write_container
one_is_lost = refl

abbrev running_container : Container
running_container = record (new_container 1 (initial_limits false 8) 4096) { state = running }

one_running_found : find_by_id 1 one_running.container_list ≡ some running_container
unfolding create validate_limits find_by_id start_found write_container
one_running_found = refl

one_running_ready : one_running.initialized ≡ true
unfolding create validate_limits find_by_id start_found write_container
one_running_ready = refl

resume_container-pause_example :
    resume_container (pause one_running 1).1 1
    ≡ (success, tell (tell one_running (map suspended (4096 ∷ []))) (map resumed (4096 ∷ [])))
resume_container-pause_example =
    resume_container-pause one_running 1 running_container one_running_ready one_running_found refl
