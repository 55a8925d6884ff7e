-- ===== src/Userland/Pablo/Supervisor/Restart.antt =====
-- Restarts and starts in the supervisor.
use narc_os.Common.{ℕ, zero, suc, ◌+◌, ◌≤◌, ◌<◌, ◌≡◌, refl, ◌≢◌, ◌⊎◌, inl, inr, arith}
use narc_os.Common.{◌&&◌, not, Option, none, some, List, [], ◌∷◌, length, set, get_or}
use narc_os.Common.{get_or-set, get_or-set_self, Bool-cases, if◌then◌else◌, if_elim, ◌==◌, ◌∙◌}
use narc_os.Userland.Pablo.Service.{Service, Config, once, respawn, running}
use narc_os.Userland.Pablo.Service.{backoff, complete, failed, service_at, blank}
use narc_os.Userland.Pablo.Supervisor.{Supervisor, dependency_ready, spawn_service}
use narc_os.Userland.Pablo.Supervisor.{put_service, start_one, start_from, start_ready, record_exit}
use narc_os.Userland.Pablo.Supervisor.{service_by_pid, stop_service, stop_at, reap_children, round}
use narc_os.Userland.Pablo.Supervisor.{pid_from, is_running, first_fork, due, exit_code, tick_add}

-- No service has been restarted more often than the limit allows.
abbrev pub IsWithinLimit : Config → Type 0
IsWithinLimit c = (i : ℕ) → (service_at c.services i).restart_count ≤ c.restart_limit

put-IsWithinLimit :
    (c : Config) (i : ℕ) (s : Service)
    → IsWithinLimit c
    → s.restart_count ≤ c.restart_limit
    → IsWithinLimit (put_service c i s)
put-IsWithinLimit c i s w h j = go (get_or-set c.services i j s blank)
  where
    go :
        ((j ≢ i) × (get_or (set c.services i s) j blank ≡ get_or c.services j blank))
          ⊎ ((j ≡ i)
              × ((get_or (set c.services i s) j blank ≡ s)
                  ⊎ (get_or (set c.services i s) j blank ≡ blank)))
        → (get_or (set c.services i s) j blank).restart_count ≤ c.restart_limit
    go (inl (ne, e)) = rw e (w j)
    go (inr (e, inl f)) = rw f h
    go (inr (e, inr f)) = rw f (omega arith)

restart_count-spawn :
    (retry : ℕ) (s : Service) (f : Option ℕ)
    → (spawn_service retry s f).restart_count ≡ s.restart_count
unfolding spawn_service
restart_count-spawn retry s none = refl
restart_count-spawn retry s (some pid) = refl

restart_count-stop :
    (tick : ℕ) (c : Config) (s : Service) (status : ℕ)
    → s.restart_count ≤ c.restart_limit
    → (stop_service tick c s status).restart_count ≤ c.restart_limit
unfolding stop_service
restart_count-stop tick c s status h = ground arith

abbrev Keeps : Config × List (Option ℕ) → Type 0
Keeps r = IsWithinLimit r.0

start_one-IsWithinLimit :
    (tick : ℕ) (c : Config) (i : ℕ) (forks : List (Option ℕ))
    → IsWithinLimit c
    → IsWithinLimit (start_one tick c i forks).0
unfolding start_one
start_one-IsWithinLimit tick c i forks w =
    let s = service_at c.services i in
    let ready = dependency_ready c.services s in
    let retry = tick_add tick c.restart_delay in
    if_elim Keeps (not (due tick s)) _ _ (λ _. w)
      λ _.
        if_elim Keeps ready.0 _ _
          (λ _.
            put-IsWithinLimit c i (spawn_service retry s (first_fork forks)) w
              (omega (arith, w i, restart_count-spawn retry s (first_fork forks))))
          (λ _. put-IsWithinLimit c i (record s { state = ready.1 }) w (w i))

limit-start_one :
    (tick : ℕ) (c : Config) (i : ℕ) (forks : List (Option ℕ))
    → (start_one tick c i forks).0.restart_limit ≡ c.restart_limit
unfolding start_one
limit-start_one tick c i forks = ground arith

start_from-IsWithinLimit :
    (n tick : ℕ) (c : Config) (i : ℕ) (forks : List (Option ℕ))
    → IsWithinLimit c
    → IsWithinLimit (start_from n tick c i forks).0
      × ((start_from n tick c i forks).0.restart_limit ≡ c.restart_limit)
unfolding start_from
start_from-IsWithinLimit zero tick c i forks w = (w, refl)
start_from-IsWithinLimit (suc n) tick c i forks w =
    let d = start_one tick c i forks in
    let r =
      start_from-IsWithinLimit n tick d.0 (i + 1) d.1 (start_one-IsWithinLimit tick c i forks w) in
    (r.0, r.1 ∙ limit-start_one tick c i forks)

stop_at-IsWithinLimit :
    (tick : ℕ) (c : Config) (o : Option ℕ) (status : ℕ)
    → IsWithinLimit c
    → IsWithinLimit (stop_at tick c o status)
      × ((stop_at tick c o status).restart_limit ≡ c.restart_limit)
stop_at-IsWithinLimit tick c none status w = (w, refl)
stop_at-IsWithinLimit tick c (some i) status w =
    let s = service_at c.services i in
    (
      put-IsWithinLimit c i (stop_service tick c s status) w
          (restart_count-stop tick c s status (w i)),
      refl,
    )

reap-IsWithinLimit :
    (v : Supervisor) (children : List (ℕ × ℕ))
    → IsWithinLimit v.config
    → IsWithinLimit (reap_children v children).config
      × ((reap_children v children).config.restart_limit ≡ v.config.restart_limit)
unfolding reap_children record_exit
reap-IsWithinLimit v [] w = (w, refl)
reap-IsWithinLimit v ((pid, status) ∷ r) w =
    let one = stop_at-IsWithinLimit v.tick v.config (service_by_pid v.config pid) status w in
    let rest = reap-IsWithinLimit (record_exit v pid status) r one.0 in (rest.0, rest.1 ∙ one.1)

-- The rounds of pablo_supervisor_run, with what waitpid and fork return in each.
abbrev pub run : Supervisor → List (List (ℕ × ℕ) × List (Option ℕ)) → Supervisor
run v [] = v
run v ((children, forks) ∷ r) = run (round v children forks) r

round-IsWithinLimit :
    (v : Supervisor) (children : List (ℕ × ℕ)) (forks : List (Option ℕ))
    → IsWithinLimit v.config
    → IsWithinLimit (round v children forks).config
      × ((round v children forks).config.restart_limit ≡ v.config.restart_limit)
unfolding round start_ready
round-IsWithinLimit v children forks w =
    let reaped = reap-IsWithinLimit v children w in
    let u = reap_children v children in
    let started =
      start_from-IsWithinLimit (length u.config.services) u.tick u.config 0 forks reaped.0 in
    (started.0, started.1 ∙ reaped.1)

-- Whatever children end and whatever forks fail, over any number of rounds no service's restart
-- count comes to exceed the restart limit, and the limit stays as it was.
pub run-IsWithinLimit :
    (v : Supervisor) (rounds : List (List (ℕ × ℕ) × List (Option ℕ)))
    → IsWithinLimit v.config
    → IsWithinLimit (run v rounds).config
      × ((run v rounds).config.restart_limit ≡ v.config.restart_limit)
run-IsWithinLimit v [] w = (w, refl)
run-IsWithinLimit v ((children, forks) ∷ r) w =
    let one = round-IsWithinLimit v children forks w in
    let rest = run-IsWithinLimit (round v children forks) r one.0 in (rest.0, rest.1 ∙ one.1)

-- What service_by_pid finds.
pid_from_lem :
    (l : List Service) (pid k i : ℕ)
    → pid_from l pid k ≡ some i
    → (j : ℕ) × (i ≡ k + j)
      × (j < length l)
      × ((service_at l j).state ≡ running)
      × ((service_at l j).pid ≡ pid)
unfolding pid_from
pid_from_lem [] pid k i h = cc
pid_from_lem (s ∷ r) pid k i h = elim (Bool-cases (is_running s.state && s.pid == pid)) [
  | inl hit ↦ (0, ground arith, omega arith, ground arith, ground arith)
  | inr miss ↦
      let rest = pid_from_lem r pid (k + 1) i (ground arith) in
      (suc rest.0, omega (arith, rest.1), omega (arith, rest.2), rest.3, rest.4)
]

-- When a child ends that the supervisor knows, it is that of a running service with its process id;
-- the service keeps the exit code (128 if it was killed), and: one that runs once is complete after
-- code 0 and has failed otherwise; one that respawns backs off for the restart delay, with one more
-- restart counted, below the limit, and has failed at the limit.
pub record_exit_lem :
    (v : Supervisor) (pid status i : ℕ)
    → service_by_pid v.config pid ≡ some i
    → let s = service_at v.config.services i in
      let t = service_at (record_exit v pid status).config.services i in
      (s.state ≡ running)
      × (s.pid ≡ pid)
      × (t.pid ≡ 0)
      × (t.exit_status ≡ exit_code status)
      × (s.policy ≡ once → t.state ≡ (if exit_code status == 0 then complete else failed))
      × (s.policy ≡ respawn
          → v.config.restart_limit ≤ s.restart_count
          → (t.state ≡ failed) × (t.restart_count ≡ s.restart_count))
      × (s.policy ≡ respawn
          → s.restart_count < v.config.restart_limit
          → (t.state ≡ backoff)
            × (t.restart_count ≡ s.restart_count + 1)
            × (t.ready_tick ≡ tick_add v.tick v.config.restart_delay))
unfolding record_exit stop_service service_by_pid
record_exit_lem v pid status i found =
    let s = service_at v.config.services i in
    let (j, e, range, up, same) = pid_from_lem v.config.services pid 0 i found in
    let ij : i ≡ j = omega (arith, e) in
    let at =
      get_or-set_self v.config.services i (stop_service v.tick v.config s status) blank
        (omega (arith, range, ij)) in
    (
      ground (arith, up, ij),
      ground (arith, same, ij),
      ground (arith, at),
      ground (arith, at),
      λ p. ground (arith, at),
      λ p q. ground (arith, at),
      λ p q. ground (arith, at),
    )
