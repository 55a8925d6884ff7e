-- ===== src/Kernel/Vfs/Tree/Reach.antt =====
-- Path resolution in a well-formed tree leads to allocated vnodes.
use narc_os.Common.{ℕ, ◌≡◌, refl, ◌≢◌, arith, true, List, [], ◌∷◌, ◌++◌}
use narc_os.Common.{has, Option, none, some}
use narc_os.Kernel.Vfs.State.{Vfs, Vnode, is_dir}
use narc_os.Kernel.Vfs.Path.{Found, found, failed, and_then, step, child_in, child_named, lookup}
use narc_os.Kernel.Vfs.Path.{parent, parent_of, lookup_parent}
use narc_os.Kernel.Vfs.Path.Resolve.{resolve, components, walk-resolve}
use narc_os.Kernel.Vfs.Path.Last.{parent_spec, lookup_parent-spec}
use narc_os.Kernel.Vfs.Tree.WellFormed.{IsWellFormed}

pub child_in-has :
    (node : ℕ → Vnode) (cs : List ℕ) (name : List ℕ)
    → child_in node cs name ≢ 0
    → has (child_in node cs name) cs ≡ true
unfolding child_in has
child_in-has node [] name h = absurd (h refl)
child_in-has node (c ∷ cs) name h = ground (arith, child_in-has node cs name)

module _ {s : Vfs} (w : IsWellFormed s) where
  pub child_named-live :
      (d : ℕ) (name : List ℕ)
      → s.live d ≡ true
      → child_named s d name ≢ 0
      → (s.live (child_named s d name) ≡ true) × ((s.node (child_named s d name)).parent ≡ d)
  unfolding child_named
  child_named-live d name here h =
      let cs = (s.node d).children in
      let c = child_in s.node cs name in
      let m = child_in-has s.node cs name h in (w.child_live d c here m, w.child_up d c here m)

  pub step-live :
      (n m : ℕ) (name : List ℕ) → s.live n ≡ true → step s n name ≡ found m → s.live m ≡ true
  unfolding step
  step-live n m name here h = ground (arith, child_named-live n name here, w.up_live n here)

  pub resolve-live :
      (names : List (List ℕ)) (n m : ℕ)
      → s.live n ≡ true
      → resolve s n names ≡ found m
      → s.live m ≡ true
  resolve-live [] n m here h = ground arith
  resolve-live (name ∷ names) n m here h =
      go (step s n name) refl h (λ next. resolve-live names next m)
    where
      go :
          (f : Found)
          → step s n name ≡ f
          → and_then f (λ next. resolve s next names) ≡ found m
          → ((next : ℕ) → s.live next ≡ true → resolve s next names ≡ found m → s.live m ≡ true)
          → s.live m ≡ true
      go (found next) e k ih = ih next (step-live n next name here e) k
      go (failed e) _ k ih = cc

  parent_spec-live :
      (pre names : List (List ℕ)) (d : ℕ) (name : List ℕ)
      → parent_spec s pre names ≡ parent d name
      → (s.live d ≡ true) × (is_dir (s.node d).type ≡ true)
  parent_spec-live pre [] d name h = cc
  parent_spec-live pre (n ∷ []) d name h = go (resolve s s.root pre) refl (ground arith)
    where
      go :
          (f : Found)
          → resolve s s.root pre ≡ f
          → parent_of s n f ≡ parent d name
          → (s.live d ≡ true) × (is_dir (s.node d).type ≡ true)
      go (found m) e k = ground (arith, resolve-live pre s.root m w.root_live e)
      go (failed e) _ k = cc
  parent_spec-live pre (n ∷ next ∷ rest) d name h =
      parent_spec-live (pre ++ n ∷ []) (next ∷ rest) d name h

  pub lookup_parent-live :
      (path : Option (List ℕ)) (d : ℕ) (name : List ℕ)
      → lookup_parent s path ≡ parent d name
      → (s.live d ≡ true) × (is_dir (s.node d).type ≡ true)
  unfolding lookup_parent
  lookup_parent-live none d name h = cc
  lookup_parent-live (some path) d name h =
      parent_spec-live [] (components path) d name (ground (arith, lookup_parent-spec s path))

  pub lookup-live : (path : Option (List ℕ)) (p : ℕ) → lookup s path ≡ found p → s.live p ≡ true
  unfolding lookup
  lookup-live none p h = cc
  lookup-live (some path) p h =
      resolve-live (components path) s.root p w.root_live (ground (arith, walk-resolve s path))
