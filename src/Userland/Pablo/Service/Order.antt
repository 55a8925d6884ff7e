-- ===== src/Userland/Pablo/Service/Order.antt =====
-- A configuration that passes the validation: names, paths, and no cycle of dependencies.
use narc_os.Common.{ℕ, zero, suc, ◌+◌, ◌<◌, ◌≤◌, ◌≡◌, refl, ◌≢◌, ◌⊎◌, inl, inr, arith}
use narc_os.Common.{true, false, Option, none, some, List, [], ◌∷◌, length, get_or, set}
use narc_os.Common.{replicate, get_or-set, bytes_eq_refl, Bool-cases, is_nil, is_nil→nil, ◌==◌}
use narc_os.Userland.Pablo.Service.{
  Service, service_at, service_max, service_index, follow, finished,
}
use narc_os.Userland.Pablo.Service.{visit_dependency, visit_from, is_named, is_some, check_service}
use narc_os.Userland.Pablo.Service.{check_services, pablo_service_validate}

-- The chain of dependencies from a service ends.
pub data Grounded (services : List Service) : ℕ → Type 0 where
  alone : (i : ℕ) → (service_at services i).after ≡ [] → Grounded services i
  behind :
      (i d : ℕ)
      → service_index services (service_at services i).after ≡ some d
      → Grounded services d
      → Grounded services i

module _ (services : List Service) where
  abbrev DoneGrounded : List ℕ → Type 0
  DoneGrounded states = (j : ℕ) → get_or states j 0 ≡ 2 → Grounded services j

  mark-DoneGrounded :
      (states : List ℕ) (i : ℕ) → DoneGrounded states → DoneGrounded (set states i 1)
  mark-DoneGrounded states i inv j h = inv j (ground (arith, get_or-set states i j 1 0))

  done-DoneGrounded :
      (states : List ℕ) (i : ℕ)
      → DoneGrounded states
      → Grounded services i
      → DoneGrounded (set states i 2)
  done-DoneGrounded states i inv g j h = go (get_or-set states i j 2 0)
    where
      go :
          ((j ≢ i) × (get_or (set states i 2) j 0 ≡ get_or states j 0))
            ⊎ ((j ≡ i) × ((get_or (set states i 2) j 0 ≡ 2) ⊎ (get_or (set states i 2) j 0 ≡ 0)))
          → Grounded services j
      go (inl (ne, e)) = inv j (ground arith)
      go (inr (e, _)) = rw e g

  -- How a visit comes to succeed.
  data Visited (fuel i : ℕ) (states next : List ℕ) : Type 0 where
    before : get_or states i 0 ≡ 2 → next ≡ states → Visited fuel i states next
    free :
        (service_at services i).after ≡ []
        → next ≡ set (set states i 1) i 2
        → Visited fuel i states next
    through :
        (d : ℕ) (mid : List ℕ)
        → service_index services (service_at services i).after ≡ some d
        → visit_dependency fuel services d (set states i 1) ≡ some mid
        → next ≡ set mid i 2
        → Visited fuel i states next

  visit-Visited :
      (fuel i : ℕ) (states next : List ℕ)
      → visit_dependency (suc fuel) services i states ≡ some next
      → Visited fuel i states next
  unfolding visit_dependency
  visit-Visited fuel i states next h = elim (Bool-cases (get_or states i 0 == 2)) [
    | inl done ↦ before (ground arith) (ground arith)
    | inr fresh ↦ elim (Bool-cases (is_nil after)) [
      | inl none_after ↦ free (is_nil→nil after none_after) (ground arith)
      | inr some_after ↦ go (service_index services after) refl (ground arith)
    ]
  ]
    where
      after : List ℕ
      after = (service_at services i).after

      marked : List ℕ
      marked = set states i 1

      mid_case :
          (d : ℕ) (o : Option (List ℕ))
          → service_index services after ≡ some d
          → visit_dependency fuel services d marked ≡ o
          → finished o i ≡ some next
          → Visited fuel i states next
      mid_case d none e k f = cc
      mid_case d (some mid) e k f = through d mid e k (ground (arith, f))

      go :
          (o : Option ℕ)
          → service_index services after ≡ o
          → finished (follow o (λ d. visit_dependency fuel services d marked)) i ≡ some next
          → Visited fuel i states next
      go none e f = cc
      go (some d) e f = mid_case d (visit_dependency fuel services d marked) e refl f

  visit-Grounded :
      (fuel i : ℕ) (states next : List ℕ)
      → DoneGrounded states
      → visit_dependency fuel services i states ≡ some next
      → DoneGrounded next × Grounded services i
  visit-Grounded zero i states next inv h = unfold visit_dependency in cc
  visit-Grounded (suc fuel) i states next inv h =
      go (visit-Visited fuel i states next h)
        (λ d mid. visit-Grounded fuel d (set states i 1) mid (mark-DoneGrounded states i inv))
    where
      go :
          Visited fuel i states next
          → ((d : ℕ) (mid : List ℕ)
              → visit_dependency fuel services d (set states i 1) ≡ some mid
              → DoneGrounded mid × Grounded services d)
          → DoneGrounded next × Grounded services i
      go (before e same) ih = rw same (inv, inv i e)
      go (free e same) ih =
          let g = alone i e in
          rw same (done-DoneGrounded (set states i 1) i (mark-DoneGrounded states i inv) g, g)
      go (through d mid e k same) ih =
          let r = ih d mid k in
          let g = behind i d e r.1 in rw same (done-DoneGrounded mid i r.0 g, g)

  visit_from-Grounded :
      (n i : ℕ) (states next : List ℕ)
      → DoneGrounded states
      → visit_from n i services states ≡ some next
      → (k : ℕ) → i ≤ k
      → k < i + n
      → Grounded services k
  unfolding visit_from
  visit_from-Grounded zero i states next inv h k low high = absurd (omega arith)
  visit_from-Grounded (suc n) i states next inv h k low high =
      go (visit_dependency (suc (length services)) services i states) refl h
        (λ mid inv' h'. visit_from-Grounded n (i + 1) mid next inv' h' k)
    where
      go :
          (o : Option (List ℕ))
          → visit_dependency (suc (length services)) services i states ≡ o
          → ◌≡◌ {A = Option (List ℕ)}
              (elim o [ none ↦ none | some mid ↦ visit_from n (i + 1) services mid ])
              (some next)
          → ((mid : List ℕ)
              → DoneGrounded mid
              → visit_from n (i + 1) services mid ≡ some next
              → i + 1 ≤ k
              → k < i + 1 + n
              → Grounded services k)
          → Grounded services k
      go none e f ih = cc
      go (some mid) e f ih =
          let r = visit-Grounded (suc (length services)) i states mid inv e in
          elim (Bool-cases (k == i)) [
            | inl same ↦ let s : k ≡ i = ground arith in rw s r.1
            | inr other ↦ ih mid r.0 f (ground arith) (omega arith)
          ]

-- Two services at different indices have different names.
named_apart :
    (name : List ℕ) (r : List Service) (j : ℕ)
    → is_named name r ≡ false
    → j < length r
    → (service_at r j).name ≢ name
unfolding is_named
named_apart name [] j h lt = absurd (omega arith)
named_apart name (s ∷ r) zero h lt = λ e. ground (arith, bytes_eq_refl name, e)
named_apart name (s ∷ r) (suc j) h lt = named_apart name r j (ground arith) (omega arith)

abbrev HasNames : List Service → Type 0
HasNames services =
    (i j : ℕ)
    → i < j
    → j < length services
    → (service_at services j).name ≢ (service_at services i).name

check_services-HasNames : (all r : List Service) → check_services all r ≡ true → HasNames r
unfolding check_services check_service
check_services-HasNames all [] h i j lt le = absurd (omega arith)
check_services-HasNames all (s ∷ r) h zero zero lt le = absurd (omega arith)
check_services-HasNames all (s ∷ r) h zero (suc j) lt le =
    named_apart s.name r j (ground arith) (omega arith)
check_services-HasNames all (s ∷ r) h (suc i) zero lt le = absurd (omega arith)
check_services-HasNames all (s ∷ r) h (suc i) (suc j) lt le =
    check_services-HasNames all r (ground arith) i j (omega arith) (omega arith)

check_services-paths :
    (all r : List Service) (i : ℕ)
    → check_services all r ≡ true
    → i < length r
    → ((service_at r i).name ≢ []) × (get_or (service_at r i).path 0 0 ≡ b'/')
unfolding check_services check_service
check_services-paths all [] i h lt = absurd (omega arith)
check_services-paths all (s ∷ r) zero h lt = (ground arith, ground arith)
check_services-paths all (s ∷ r) (suc i) h lt =
    check_services-paths all r i (ground arith) (omega arith)

zeros : (n j : ℕ) → ◌≡◌ {A = ℕ} (get_or (replicate n 0) j 0) 0
zeros zero j = refl
zeros (suc n) zero = refl
zeros (suc n) (suc j) = zeros n j

-- In a configuration that pablo_service_validate accepts every service has a name and an absolute
-- path, no two have the same name, and from every service the chain of `after` entries leads over
-- services of the configuration to one that has none: there is no missing dependency and no cycle.
pub validate_sound :
    (services : List Service)
    → pablo_service_validate services ≡ true
    → ((i j : ℕ)
        → i < j
        → j < length services
        → (service_at services j).name ≢ (service_at services i).name)
      × ((i : ℕ)
          → i < length services
          → ((service_at services i).name ≢ [])
            × (get_or (service_at services i).path 0 0 ≡ b'/')
            × Grounded services i)
unfolding pablo_service_validate
validate_sound services h =
    go (visit_from (length services) 0 services (replicate service_max 0)) refl (ground arith)
  where
    go :
        (o : Option (List ℕ))
        → visit_from (length services) 0 services (replicate service_max 0) ≡ o
        → (check_services services services ≡ true) × (is_some o ≡ true)
        → HasNames services
          × ((i : ℕ)
              → i < length services
              → ((service_at services i).name ≢ [])
                × (get_or (service_at services i).path 0 0 ≡ b'/')
                × Grounded services i)
    go none e k = cc (k.1)
    go (some states) e k = (
      check_services-HasNames services services k.0,
      λ i lt.
          let p = check_services-paths services services i k.0 lt in
          (
            p.0,
            p.1,
            visit_from-Grounded services (length services) 0 (replicate service_max 0) states
                (λ j f. absurd (omega (arith, zeros service_max j))) e i (omega arith)
                (omega arith),
          ),
    )
