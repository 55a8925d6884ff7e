-- ===== src/Userland/Pablo/Service.antt =====
-- userland/pablo/src/service.c and the data of pablo/service.h: services, and their validation. The
-- services of a configuration are the first `service_count` of its array, as a list.
pub mod Order
use narc_os.Common.{ℕ, zero, suc, ◌+◌, Bool, true, false, ◌&&◌, ◌||◌, not, Option, none, some}
use narc_os.Common.{
  List, [], ◌∷◌, ◌==◌, ◌!=◌, if◌then◌else◌, length, get_or, set, replicate, bytes_eq,
}
use narc_os.Common.{is_nil}

abbrev pub service_max : ℕ
service_max = 16

pub data Policy : Type 0 where
  once respawn : Policy

pub data State : Type 0 where
  stopped running backoff complete failed : State

-- `struct pablo_service`; `argument_count` is the length of `arguments`.
pub record Service : Type 0 where
  pub name : List ℕ
  pub path : List ℕ
  pub after : List ℕ
  pub arguments : List (List ℕ)
  pub policy : Policy
  pub state : State
  pub pid : ℕ
  pub restart_count : ℕ
  pub ready_tick : ℕ
  pub exit_status : ℕ

pub record Config : Type 0 where
  pub services : List Service
  pub restart_limit : ℕ
  pub restart_delay : ℕ

-- All bytes zero.
abbrev pub blank : Service
blank = record {
  name = [];
  path = [];
  after = [];
  arguments = [];
  policy = once;
  state = stopped;
  pid = 0;
  restart_count = 0;
  ready_tick = 0;
  exit_status = 0;
}

abbrev pub service_at : List Service → ℕ → Service
service_at services i = get_or services i blank

-- The index of the first service of that name, from index `i` on.
unfoldable pub index_from : List Service → List ℕ → ℕ → Option ℕ
index_from [] name i = none
index_from (s ∷ r) name i =
    let rest = index_from r name (i + 1) in if bytes_eq s.name name then some i else rest

unfoldable pub service_index : List Service → List ℕ → Option ℕ
service_index services name = index_from services name 0

unfoldable pub pablo_service_find : List Service → List ℕ → Option Service
pablo_service_find [] name = none
pablo_service_find (s ∷ r) name =
    let rest = pablo_service_find r name in if bytes_eq s.name name then some s else rest

abbrev pub finished : Option (List ℕ) → ℕ → Option (List ℕ)
finished none i = none
finished (some states) i = some (set states i 2)

abbrev pub follow : Option ℕ → (ℕ → Option (List ℕ)) → Option (List ℕ)
follow none visit = none
follow (some d) visit = visit d

-- `states` holds 1 for a service on the way, 2 for one that is done. The fuel bounds the chain.
unfoldable pub visit_dependency : ℕ → List Service → ℕ → List ℕ → Option (List ℕ)
visit_dependency zero services i states = none
visit_dependency (suc fuel) services i states =
    let marked = set states i 1 in
    let after = (service_at services i).after in
    let behind =
      follow (service_index services after) (λ d. visit_dependency fuel services d marked) in
    if get_or states i 0 == 1
    then none
    else if get_or states i 0 == 2
    then some states
    else if is_nil after
    then some (set marked i 2)
    else finished behind i

unfoldable pub visit_from : ℕ → ℕ → List Service → List ℕ → Option (List ℕ)
visit_from zero i services states = some states
visit_from (suc n) i services states =
    elim (visit_dependency (suc (length services)) services i states) [
      | none ↦ none
      | some next ↦ visit_from n (i + 1) services next
    ]

unfoldable pub is_named : List ℕ → List Service → Bool
is_named name [] = false
is_named name (s ∷ r) = bytes_eq name s.name || is_named name r

abbrev pub is_some {ℓ} : {A : Type ℓ} → Option A → Bool
is_some none = false
is_some (some a) = true

-- The checks on one service, with those behind it in `rest`.
unfoldable pub check_service : List Service → Service → List Service → Bool
check_service services s rest =
    if is_nil s.name || get_or s.path 0 0 != b'/'
    then false
    else if is_named s.name rest
    then false
    else not (
        not (is_nil s.after)
        && (bytes_eq s.after s.name || not (is_some (pablo_service_find services s.after))))

unfoldable pub check_services : List Service → List Service → Bool
check_services services [] = true
check_services services (s ∷ r) = check_service services s r && check_services services r

-- `true` is a result of 0.
unfoldable pub pablo_service_validate : List Service → Bool
pablo_service_validate services =
    if check_services services services
    then is_some (visit_from (length services) 0 services (replicate service_max 0))
    else false
