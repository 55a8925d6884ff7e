-- ===== src/Kernel/Vfs/Tree/Rooted.antt =====
-- The chains of parents in the tree of kernel/fs/vfs.c, and what moving a vnode does to them.
use narc_os.Common.{
  ℕ, zero, suc, ◌≡◌, refl, sym, ◌∙◌, ap, ◌≢◌, arith, true, false, List, [], ◌∷◌, ◌++◌,
}
use narc_os.Common.{inl, inr, Bool-cases, has, Option, none, some, ◌==◌, ◌!=◌, ◌&&◌, length}
use narc_os.Kernel.Vfs.State.{Vfs, is_dir}
use narc_os.Kernel.Vfs.Path.{
  Found, found, failed, and_then, step, dot_name, child_named, lookup_parent, parent, parent_of,
}
use narc_os.Kernel.Vfs.Path.Resolve.{resolve, components}
use narc_os.Kernel.Vfs.Path.Last.{parent_spec, lookup_parent-spec}
use narc_os.Kernel.Vfs.Ops.{on_chain}
use narc_os.Kernel.Vfs.Tree.WellFormed.{IsWellFormed}
use narc_os.Kernel.Vfs.Tree.Reach.{child_named-live, step-live}

-- The chain of parents from a vnode ends at the root.
pub data Under (s : Vfs) : ℕ → Type 0 where
  at_root : {q : ℕ} → q ≡ s.root → Under s q
  below : {q : ℕ} → (s.node q).parent ≢ 0 → Under s (s.node q).parent → Under s q

-- There is no cycle and nothing is cut off: every vnode that has a parent is under the root.
abbrev pub IsRooted : Vfs → Type 0
IsRooted s = (q : ℕ) → s.live q ≡ true → (s.node q).parent ≢ 0 → Under s q

-- Links that agree, and chains that all end at the root.
pub record IsTree (s : Vfs) : Type 0 where
  pub formed : IsWellFormed s
  pub rooted : IsRooted s

-- A path leads from the root to vnodes under it.
module _ {s : Vfs} (g : IsTree s) where
  Under-up : (n : ℕ) → Under s n → (s.node n).parent ≢ 0 → Under s (s.node n).parent
  Under-up n (at_root e) h = absurd (h (ap (λ q. (s.node q).parent) e ∙ g.formed.root_top))
  Under-up n (below _ u) h = u

  pub live-ne-zero : (q : ℕ) → s.live q ≡ true → q ≢ 0
  live-ne-zero q here z = let w = ap s.live z in ground (arith, w, here, g.formed.null_dead)

  child-Under : (n m : ℕ) → s.live n ≡ true → Under s n → (s.node m).parent ≡ n → Under s m
  child-Under n m here u e = below (λ z. live-ne-zero n here (sym e ∙ z)) (rw e u)

  step-Under :
      (n m : ℕ) (name : List ℕ) → s.live n ≡ true → Under s n → step s n name ≡ found m → Under s m
  unfolding step
  step-Under n m name here u h = elim (Bool-cases (is_dir (s.node n).type)) [
    | inr file ↦ absurd (ground (arith, h, file))
    | inl directory ↦ elim (Bool-cases (dot_name name)) [
      | inr named ↦ elim (Bool-cases (child_named s n name == 0)) [
        | inl missing ↦ absurd (ground (arith, h, directory, named, missing))
        | inr there ↦
            let e : child_named s n name ≡ m = ground (arith, h, directory, named, there) in
            let c = child_named-live g.formed n name here (ground (arith, there)) in
            rw (← e) (child-Under n (child_named s n name) here u c.1)
      ]
      | inl dot ↦ elim (Bool-cases (length name == 2 && (s.node n).parent != 0)) [
        | inr stay ↦ let e : n ≡ m = ground (arith, h, directory, dot, stay) in rw (← e) u
        | inl up ↦
            let e : (s.node n).parent ≡ m = ground (arith, h, directory, dot, up) in
            rw (← e) (Under-up n u (ground (arith, up)))
      ]
    ]
  ]

  resolve-Under :
      (names : List (List ℕ)) (n m : ℕ)
      → s.live n ≡ true
      → Under s n
      → resolve s n names ≡ found m
      → Under s m
  resolve-Under [] n m here u h = let e : n ≡ m = ground arith in rw (← e) u
  resolve-Under (name ∷ names) n m here u h =
      go (step s n name) refl h (λ next. resolve-Under names next m)
    where
      go :
          (f : Found)
          → step s n name ≡ f
          → and_then f (λ next. resolve s next names) ≡ found m
          → ((next : ℕ)
              → s.live next ≡ true
              → Under s next
              → resolve s next names ≡ found m
              → Under s m)
          → Under s m
      go (found next) e k ih =
          ih next (step-live g.formed n next name here e) (step-Under n next name here u e) k
      go (failed e) _ k ih = cc

  parent_spec-Under :
      (pre names : List (List ℕ)) (d : ℕ) (name : List ℕ)
      → parent_spec s pre names ≡ parent d name
      → Under s d
  parent_spec-Under pre [] d name h = cc
  parent_spec-Under pre (n ∷ []) d name h = go (resolve s s.root pre) refl (ground arith)
    where
      go : (f : Found) → resolve s s.root pre ≡ f → parent_of s n f ≡ parent d name → Under s d
      go (found m) e k =
          let same : m ≡ d = ground (arith, k) in
          rw (← same) (resolve-Under pre s.root m g.formed.root_live (at_root refl) e)
      go (failed e) _ k = cc
  parent_spec-Under pre (n ∷ next ∷ rest) d name h =
      parent_spec-Under (pre ++ n ∷ []) (next ∷ rest) d name h

  pub lookup_parent-Under :
      (path : Option (List ℕ)) (d : ℕ) (name : List ℕ)
      → lookup_parent s path ≡ parent d name
      → Under s d
  unfolding lookup_parent
  lookup_parent-Under none d name h = cc
  lookup_parent-Under (some path) d name h =
      parent_spec-Under [] (components path) d name (ground (arith, lookup_parent-spec s path))

-- A vnode without children is on no other vnode's chain.
pub childless-no-parent :
    {s : Vfs} (w : IsWellFormed s) (t q : ℕ)
    → (t ≢ 0 → (s.node t).children ≡ [])
    → s.live q ≡ true
    → (s.node q).parent ≢ 0
    → (s.node q).parent ≢ t
unfolding has
childless-no-parent {s} w t q leaf here h e =
    let listed = w.up_lists q here h in
    let empty = leaf (λ z. h (e ∙ z)) in ground (arith, rw e at listed, empty)

-- `p` moves below `d`, and `target` loses its parent.
module _ {s s' : Vfs} (p d target : ℕ) (g : IsTree s) (d_live : s.live d ≡ true)
    (leaf : target ≢ 0 → (s.node target).children ≡ []) (apart : d ≢ target)
    (same_root : s'.root ≡ s.root) (lives : (q : ℕ) → s'.live q ≡ true → s.live q ≡ true)
    (moved : (s'.node p).parent ≡ d) (dropped : target ≢ 0 → (s'.node target).parent ≡ 0)
    (kept : (q : ℕ) → q ≢ p → q ≢ target → (s'.node q).parent ≡ (s.node q).parent) where
  -- Chains that `p` is not on stay.
  off_chain-Under :
      (fuel a : ℕ)
      → s.live a ≡ true
      → a ≢ target
      → on_chain fuel s.node p a ≡ false
      → Under s a
      → Under s' a
  unfolding on_chain
  off_chain-Under zero a here ne off u = cc
  off_chain-Under (suc fuel) a here ne off (at_root e) = at_root (e ∙ sym same_root)
  off_chain-Under (suc fuel) a here ne off (below h u) =
      let other : a ≢ p = λ e. ground (arith, e, live-ne-zero g a here, off) in
      let same = kept a other ne in
      below (rw same h) (
        rw same (
          off_chain-Under fuel (s.node a).parent (g.formed.up_live a here h)
            (childless-no-parent g.formed target a leaf here h)
            (ground (arith, live-ne-zero g a here, other, off)) u))

  Under-d : Under s' d → Under s' p
  Under-d top = below (λ z. live-ne-zero g d d_live (sym moved ∙ z)) (rw moved top)

  -- All others lead there, or to `p` and then to `d`.
  moved-Under : (a : ℕ) → Under s' d → s.live a ≡ true → a ≢ target → Under s a → Under s' a
  moved-Under a top here ne (at_root e) = at_root (e ∙ sym same_root)
  moved-Under a top here ne (below h u) = elim (Bool-cases (a == p)) [
    | inl is_p ↦ let e : a ≡ p = ground (arith, is_p) in rw e (Under-d top)
    | inr other ↦
        let same = kept a (ground (arith, other)) ne in
        below (rw same h) (
          rw same (
            moved-Under (s.node a).parent top (g.formed.up_live a here h)
              (childless-no-parent g.formed target a leaf here h) u))
  ]

  pub moved-IsRooted : (fuel : ℕ) → on_chain fuel s.node p d ≡ false → Under s d → IsRooted s'
  moved-IsRooted fuel off u q here h =
      let top = off_chain-Under fuel d d_live apart off u in
      elim (Bool-cases (q == p)) [
        | inl is_p ↦ let e : q ≡ p = ground (arith, is_p) in rw e (Under-d top)
        | inr other ↦
            let was = lives q here in
            let ne : q ≢ target = λ e.
              h (ap (λ n. (s'.node n).parent) e ∙ dropped (λ z. live-ne-zero g q was (e ∙ z))) in
            let same = kept q (ground (arith, other)) ne in
            moved-Under q top was ne (g.rooted q was (λ z. h (same ∙ z)))
      ]

-- The chains are in the parents alone.
pub same-IsRooted :
    {s s' : Vfs}
    → IsRooted s
    → s'.root ≡ s.root
    → ((q : ℕ) → s'.live q ≡ s.live q)
    → ((q : ℕ) → (s'.node q).parent ≡ (s.node q).parent)
    → IsRooted s'
same-IsRooted {s} {s'} r roots lives ups q here h =
    carry q (r q (sym (lives q) ∙ here) (λ z. h (ups q ∙ z)))
  where
    carry : (a : ℕ) → Under s a → Under s' a
    carry a (at_root e) = at_root (e ∙ sym roots)
    carry a (below ne u) = below (rw (ups a) ne) (rw (ups a) (carry (s.node a).parent u))
