-- ===== src/Kernel/Vfs/Path/Resolve.antt =====
-- walk follows the components of the path, one after the other.
use narc_os.Common.{ℕ, zero, suc, ◌+◌, ◌≤◌, ◌<◌, ◌≡◌, refl, sym, ap, ap₂, fun_ext, ◌∙◌, arith}
use narc_os.Common.{List, [], ◌∷◌, ◌==◌, if◌then◌else◌, length, get_or}
use narc_os.Kernel.Vfs.State.{Vfs, invalid}
use narc_os.Kernel.Vfs.Path.{Found, found, failed, skip_slashes, component, after_component, step}
use narc_os.Kernel.Vfs.Path.{and_then, walk_loop, walk}

abbrev pub keep : List ℕ → List (List ℕ) → List (List ℕ)
keep [] names = names
keep (c ∷ cs) names = (c ∷ cs) ∷ names

-- The bytes before the first slash, and the components behind it.
abbrev pub split_next : ℕ → List ℕ × List (List ℕ) → List ℕ × List (List ℕ)
split_next c (name, names) = if c == b'/' then ([], keep name names) else (c ∷ name, names)

abbrev pub split : List ℕ → List ℕ × List (List ℕ)
split [] = ([], [])
split (c ∷ r) = split_next c (split r)

-- The parts of a path between slashes that are not empty.
abbrev pub components : List ℕ → List (List ℕ)
components path = keep (split path).0 (split path).1

-- Component by component, from a vnode.
abbrev pub resolve : Vfs → ℕ → List (List ℕ) → Found
resolve s node [] = found node
resolve s node (name ∷ names) = and_then (step s node name) λ next. resolve s next names

pub split-component :
    (r : List ℕ) → ((split r).0 ≡ component r) × ((split r).1 ≡ components (after_component r))
unfolding component after_component
split-component [] = (refl, refl)
split-component (c ∷ r) = ground (arith, split-component r)

pub components-skip : (r : List ℕ) → components (skip_slashes r) ≡ components r
unfolding skip_slashes
components-skip [] = refl
components-skip (c ∷ r) = ground (arith, components-skip r)

pub length-skip : (r : List ℕ) → length (skip_slashes r) ≤ length r
unfolding skip_slashes
length-skip [] = omega arith
length-skip (c ∷ r) = ground (arith, length-skip r)

pub length-after_component :
    (r : List ℕ) → length (after_component r) + length (component r) ≡ length r
unfolding after_component component
length-after_component [] = refl
length-after_component (c ∷ r) = ground (arith, length-after_component r)

-- The component at the start, and those behind it.
pub components-eq :
    (r : List ℕ)
    → components r
      ≡ keep (component (skip_slashes r)) (components (after_component (skip_slashes r)))
components-eq r =
    let t = skip_slashes r in
    sym (components-skip r) ∙ ap₂ keep (split-component t).0 (split-component t).1

after-skip : (r : List ℕ) → component (skip_slashes r) ≡ [] → after_component (skip_slashes r) ≡ []
unfolding skip_slashes component after_component
after-skip [] h = refl
after-skip (c ∷ r) h = ground (arith, after-skip r)

walk_loop-resolve :
    (fuel : ℕ) (s : Vfs) (node : ℕ) (path : List ℕ)
    → length path < fuel
    → walk_loop fuel s node path ≡ resolve s node (components path)
unfolding walk_loop
walk_loop-resolve zero s node path h = absurd (omega arith)
walk_loop-resolve (suc fuel) s node path h =
    let t = skip_slashes path in
    rw (components-eq path) (
      go (component t) (after_component t)
        (omega (arith, length-skip path, length-after_component t)) (after-skip path)
        (λ next. walk_loop-resolve fuel s next (after_component t)))
  where
    go :
        (name rest : List ℕ)
        → length rest + length name ≤ fuel
        → (name ≡ [] → rest ≡ [])
        → ((next : ℕ)
            → length rest < fuel
            → walk_loop fuel s next rest ≡ resolve s next (components rest))
        → ◌≡◌ {A = Found}
            (elim name [
              | [] ↦ found node
              | c ∷ cs ↦ and_then (step s node (c ∷ cs)) λ next. walk_loop fuel s next rest
            ])
            (resolve s node (keep name (components rest)))
    go [] rest k at_end ih = rw (at_end refl)
    go (c ∷ cs) rest k at_end ih =
        ap (and_then (step s node (c ∷ cs))) (fun_ext λ next. ih next (omega arith))

-- walk on a path that begins with a slash follows the components of the path from the root, one after
-- the other, whatever the number of slashes between and behind them; any other path is invalid.
pub walk-resolve :
    (s : Vfs) (path : List ℕ)
    → walk s path
      ≡ (if get_or path 0 0 == b'/' then resolve s s.root (components path) else failed invalid)
unfolding walk
walk-resolve s [] = refl
walk-resolve s (c ∷ r) =
    rw (← walk_loop-resolve (suc (length (c ∷ r))) s s.root (c ∷ r) (omega arith)) refl
