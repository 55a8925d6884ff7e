-- ===== src/Userland/Pablo/Tests.antt =====
-- Pablo on small inputs: two services, one of which waits for the other.
use narc_os.Common.{ℕ, ◌+◌, ◌≤◌, ◌<◌, ◌≡◌, refl, ◌≢◌, ◌↔◌, arith, none, some}
use narc_os.Common.{false, List, [], ◌∷◌, ◌++◌, get_or, All, bytes_eq, if◌then◌else◌, ◌==◌, ◌^◌}
use narc_os.Common.Text.{codes}
use mathlib.Core.List.{Perm, Pairwise}
use narc_os.Userland.Pablo.Text.{pablo_trim, pablo_parse_unsigned}
use narc_os.Userland.Pablo.Text.Trim.{IsSpace, NoSpaceFirst, NoSpaceLast, pablo_trim_lem}
use narc_os.Userland.Pablo.Text.Number.{value_from, IsDigit, pablo_parse_unsigned_iff}
use narc_os.Userland.Pablo.Service.{
  Service, once, respawn, blank, service_at, running, backoff, complete, failed,
}
use narc_os.Userland.Pablo.Service.{pablo_service_validate, check_services, check_service, is_named}
use narc_os.Userland.Pablo.Service.{pablo_service_find, service_index, index_from, visit_from}
use narc_os.Userland.Pablo.Service.{visit_dependency}
use narc_os.Userland.Pablo.Service.Order.{Grounded, validate_sound}
use narc_os.Userland.Pablo.Config.{is_after, sort_names}
use narc_os.Userland.Pablo.Config.Sort.{sort_names_lem}
use narc_os.Userland.Pablo.Supervisor.{
  Supervisor, service_by_pid, pid_from, record_exit, exit_code, tick_add,
}
use narc_os.Userland.Pablo.Supervisor.Restart.{
  IsWithinLimit, run, run-IsWithinLimit, record_exit_lem,
}

pablo_trim_lem_example :
    (before behind : List ℕ) × (codes "  a b " ≡ before ++ (pablo_trim (codes "  a b ") ++ behind))
    × All IsSpace before
    × All IsSpace behind
    × NoSpaceFirst (pablo_trim (codes "  a b "))
    × NoSpaceLast (pablo_trim (codes "  a b "))
pablo_trim_lem_example = pablo_trim_lem (codes "  a b ")

pablo_parse_unsigned_iff_example : (pablo_parse_unsigned (codes "42") ≡ some 42) ↔ (
    (codes "42" ≢ []) × All IsDigit (codes "42") × (value_from 0 (codes "42") ≡ 42) × (42 < 2 ^ 32))
pablo_parse_unsigned_iff_example = pablo_parse_unsigned_iff (codes "42") 42

abbrev names : List (List ℕ)
names = codes "shell" ∷ codes "log" ∷ codes "net" ∷ []

sort_names_lem_example :
    Pairwise (λ a b. is_after a b ≡ false) (sort_names names) × Perm (sort_names names) names
sort_names_lem_example = sort_names_lem names

abbrev log : Service
log = record blank { name = codes "log"; path = codes "/bin/log" }

abbrev shell : Service
shell = record blank {
  name = codes "shell";
  path = codes "/bin/sh";
  after = codes "log";
  policy = respawn;
  state = running;
  pid = 12;
}

abbrev services : List Service
services = shell ∷ log ∷ []

validate_sound_example :
    ((i j : ℕ) → i < j → j < 2 → (service_at services j).name ≢ (service_at services i).name)
    × ((i : ℕ)
        → i < 2
        → ((service_at services i).name ≢ [])
          × (get_or (service_at services i).path 0 0 ≡ b'/')
          × Grounded services i)
unfolding pablo_service_validate check_services check_service is_named bytes_eq pablo_service_find
    service_index index_from visit_from visit_dependency
validate_sound_example = validate_sound services refl

abbrev supervisor : Supervisor
supervisor = record {
  config = record { services = services; restart_limit = 5; restart_delay = 64 };
  tick = 100;
  quiescent_reported = false;
}

run-IsWithinLimit_example :
    IsWithinLimit (run supervisor (((12, 0) ∷ [], some 13 ∷ []) ∷ ([], none ∷ []) ∷ [])).config
    × ((run supervisor (((12, 0) ∷ [], some 13 ∷ []) ∷ ([], none ∷ []) ∷ [])).config.restart_limit
        ≡ 5)
run-IsWithinLimit_example =
    run-IsWithinLimit supervisor (((12, 0) ∷ [], some 13 ∷ []) ∷ ([], none ∷ []) ∷ [])
      (λ i. ground arith)

record_exit_lem_example :
    let t = service_at (record_exit supervisor 12 256).config.services 0 in
    (shell.state ≡ running)
    × (shell.pid ≡ 12)
    × (t.pid ≡ 0)
    × (t.exit_status ≡ exit_code 256)
    × (shell.policy ≡ once → t.state ≡ (if exit_code 256 == 0 then complete else failed))
    × (shell.policy ≡ respawn → 5 ≤ 0 → (t.state ≡ failed) × (t.restart_count ≡ 0))
    × (shell.policy ≡ respawn
        → 0 < 5
        → (t.state ≡ backoff) × (t.restart_count ≡ 0 + 1) × (t.ready_tick ≡ tick_add 100 64))
unfolding service_by_pid pid_from
record_exit_lem_example = record_exit_lem supervisor 12 256 0 refl
