-- ===== src/Userland/Pablo/Supervisor.antt =====
-- userland/pablo/src/supervisor.c. What fork and waitpid return are arguments: of fork in the parent
-- a process id, `none` a failure; of waitpid the children that it reports, in order. The log is left
-- out, and so is the child's side of a fork, which ends in execve or _exit.
pub mod Restart
use narc_os.Common.{
  ℕ, zero, suc, ◌+◌, ◌/◌, ◌%◌, ◌^◌, Bool, true, false, ◌&&◌, ◌||◌, not, Option, none, some,
}
use narc_os.Common.{List, [], ◌∷◌, ◌==◌, leb, ltb, if◌then◌else◌, length, set, is_nil}
use narc_os.Userland.Pablo.Service.{Service, Config, Policy, once, respawn, State, stopped, running}
use narc_os.Userland.Pablo.Service.{backoff, complete, failed, service_at, pablo_service_find}

-- `struct pablo_supervisor`, the configuration in place.
pub record Supervisor : Type 0 where
  pub config : Config
  pub tick : ℕ
  pub quiescent_reported : Bool

abbrev pub is_running : State → Bool
is_running running = true
is_running _ = false

abbrev pub is_settled : State → Bool
is_settled complete = true
is_settled failed = true
is_settled _ = false

-- With the dependency's state: the result, and the service's own state. A missing dependency, which
-- the validation excludes, is not ready.
unfoldable pub dependency_state : Option Service → State → Bool × State
dependency_state none s = (false, s)
dependency_state (some d) s = elim d.state [
  | failed ↦ (false, failed)
  | running ↦ (true, s)
  | complete ↦ (true, s)
  | stopped ↦ (false, s)
  | backoff ↦ (false, s)
]

unfoldable pub dependency_ready : List Service → Service → Bool × State
dependency_ready services s =
    if is_nil s.after
    then (true, s.state)
    else dependency_state (pablo_service_find services s.after) s.state

-- spawn_service in the parent, and what start_ready does behind it.
unfoldable pub spawn_service : (retry : ℕ) → Service → Option ℕ → Service
spawn_service retry s none = record s { state = backoff; ready_tick = retry }
spawn_service retry s (some pid) = record s { pid = pid; state = running }

-- `unsigned long` addition.
abbrev pub tick_add : ℕ → ℕ → ℕ
tick_add a b = (a + b) % 2 ^ 64

-- Is the service waiting to be started, and due?
abbrev pub due : ℕ → Service → Bool
due tick s = elim s.state [ stopped ↦ true | backoff ↦ leb s.ready_tick tick | _ ↦ false ]

abbrev pub put_service : Config → ℕ → Service → Config
put_service c i s = record c { services = set c.services i s }

abbrev pub first_fork : List (Option ℕ) → Option ℕ
first_fork [] = none
first_fork (f ∷ l) = f

abbrev pub later_forks : List (Option ℕ) → List (Option ℕ)
later_forks [] = []
later_forks (f ∷ l) = l

-- One service of start_ready, with the forks that are left.
unfoldable pub start_one : ℕ → Config → ℕ → List (Option ℕ) → Config × List (Option ℕ)
start_one tick c i forks =
    let s = service_at c.services i in
    let (ready, state) = dependency_ready c.services s in
    let retry = tick_add tick c.restart_delay in
    if not (due tick s)
    then (c, forks)
    else if ready
    then (put_service c i (spawn_service retry s (first_fork forks)), later_forks forks)
    else (put_service c i (record s { state = state }), forks)

unfoldable pub start_from : ℕ → ℕ → Config → ℕ → List (Option ℕ) → Config × List (Option ℕ)
start_from zero tick c i forks = (c, forks)
start_from (suc n) tick c i forks =
    let (d, rest) = start_one tick c i forks in start_from n tick d (i + 1) rest

unfoldable pub start_ready : Supervisor → List (Option ℕ) → Supervisor × List (Option ℕ)
start_ready v forks =
    let (c, rest) = start_from (length v.config.services) v.tick v.config 0 forks in
    (record v { config = c }, rest)

-- The index of the running service with that process id.
unfoldable pub pid_from : List Service → ℕ → ℕ → Option ℕ
pid_from [] pid i = none
pid_from (s ∷ r) pid i =
    let rest = pid_from r pid (i + 1) in if is_running s.state && s.pid == pid then some i else rest

unfoldable pub service_by_pid : Config → ℕ → Option ℕ
service_by_pid c pid = pid_from c.services pid 0

-- WIFEXITED and WEXITSTATUS.
abbrev pub exit_code : ℕ → ℕ
exit_code status = if status % 128 == 0 then (status / 256) % 256 else 128

-- record_exit on the service.
unfoldable pub stop_service : ℕ → Config → Service → ℕ → Service
stop_service tick c s status =
    let code = exit_code status in
    let retry = tick_add tick c.restart_delay in
    elim s.policy [
      | once ↦ record s {
        pid = 0;
        exit_status = code;
        state = if code == 0 then complete else failed;
      }
      | respawn ↦
          if leb c.restart_limit s.restart_count
          then record s { pid = 0; exit_status = code; state = failed }
          else record s {
            pid = 0;
            exit_status = code;
            restart_count = s.restart_count + 1;
            ready_tick = retry;
            state = backoff;
          }
    ]

abbrev pub stop_at : ℕ → Config → Option ℕ → ℕ → Config
stop_at tick c none status = c
stop_at tick c (some i) status =
    put_service c i (stop_service tick c (service_at c.services i) status)

unfoldable pub record_exit : Supervisor → ℕ → ℕ → Supervisor
record_exit v pid status = record v {
  config = stop_at v.tick v.config (service_by_pid v.config pid) status;
}

-- The children reported, each a process id and a status.
unfoldable pub reap_children : Supervisor → List (ℕ × ℕ) → Supervisor
reap_children v [] = v
reap_children v ((pid, status) ∷ r) = reap_children (record_exit v pid status) r

unfoldable pub terminal : List Service → Bool
terminal [] = true
terminal (s ∷ r) = is_settled s.state && terminal r

unfoldable pub pablo_supervisor_init : Config → Supervisor
pablo_supervisor_init c = record { config = c; tick = 0; quiescent_reported = false }

-- One round of pablo_supervisor_run.
unfoldable pub round : Supervisor → List (ℕ × ℕ) → List (Option ℕ) → Supervisor
round v children forks =
    let w = (start_ready (reap_children v children) forks).0 in
    record w {
      tick = tick_add w.tick 1;
      quiescent_reported = w.quiescent_reported || terminal w.config.services;
    }
