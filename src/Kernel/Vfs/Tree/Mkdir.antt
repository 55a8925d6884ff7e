-- ===== src/Kernel/Vfs/Tree/Mkdir.antt =====
-- What vfs_mkdir makes, a lookup finds.
use narc_os.Common.{ℕ, ◌+◌, ◌%◌, ◌≡◌, refl, ap, ◌∙◌, ◌≢◌, arith, true, false, List, [], ◌∷◌}
use narc_os.Common.{◌++◌, some, bytes_eq_refl}
use narc_os.Common.{get_or}
use mathlib.Core.List.{append_assoc}
use narc_os.Kernel.Vfs.State.{Vfs, dir, is_dir, answer, answered, fresh_node}
use narc_os.Kernel.Vfs.State.{ok}
use narc_os.Kernel.Vfs.Path.{Found, found, failed, and_then, step, child_named, lookup, name_eq}
use narc_os.Kernel.Vfs.Path.{Parent, parent, no_parent, parent_of, lookup_parent, dot_name}
use narc_os.Kernel.Vfs.Path.Resolve.{resolve, components, walk-resolve}
use narc_os.Kernel.Vfs.Path.Last.{parent_spec, parent_from, lookup_parent-spec}
use narc_os.Kernel.Vfs.Nodes.{attach, create, new_node}
use narc_os.Kernel.Vfs.Ops.{mkdir_in, vfs_mkdir, s_ifdir}
use narc_os.Kernel.Vfs.Tree.WellFormed.{IsWellFormed}
use narc_os.Kernel.Vfs.Tree.Keep.{IsFresh}
use narc_os.Kernel.Vfs.Tree.Reach.{resolve-live}
use narc_os.Kernel.Vfs.Tree.Find.{resolve-append, Grown, attach-Grown, child_named-Grown}
use narc_os.Kernel.Vfs.Tree.Find.{resolve-Grown}

-- What lookup_parent has found out when it succeeds.
pub record Split (s : Vfs) (path : List (List ℕ)) (d : ℕ) (name : List ℕ) : Type 0 where
  pub before : List (List ℕ)
  pub whole : path ≡ before ++ name ∷ []
  pub leads : resolve s s.root before ≡ found d
  pub proper : dot_name name ≡ false
  pub directory : is_dir (s.node d).type ≡ true

parent_from-Split :
    (s : Vfs) (pre : List (List ℕ)) (n : List ℕ) (d : ℕ) (name : List ℕ)
    → parent_from s pre n ≡ parent d name
    → Split s (pre ++ n ∷ []) d name
parent_from-Split s pre n d name h = go (resolve s s.root pre) refl (ground arith)
  where
    go :
        (f : Found)
        → resolve s s.root pre ≡ f
        → (parent_of s n f ≡ parent d name) × (dot_name n ≡ false)
        → Split s (pre ++ n ∷ []) d name
    go (found m) e k = record {
      before = pre;
      whole = ap (λ x. pre ++ x ∷ []) (ground (arith, k));
      leads = ground (arith, k);
      proper = ground (arith, k);
      directory = ground (arith, k);
    }
    go (failed e) _ k = ground (arith, k)

parent_spec-Split :
    (s : Vfs) (pre names : List (List ℕ)) (d : ℕ) (name : List ℕ)
    → parent_spec s pre names ≡ parent d name
    → Split s (pre ++ names) d name
parent_spec-Split s pre [] d name h = cc
parent_spec-Split s pre (n ∷ []) d name h = parent_from-Split s pre n d name h
parent_spec-Split s pre (n ∷ m ∷ rest) d name h =
    rw (append_assoc pre (n ∷ []) (m ∷ rest)) at
      (parent_spec-Split s (pre ++ n ∷ []) (m ∷ rest) d name h)

pub lookup_parent-Split :
    (s : Vfs) (path : List ℕ) (d : ℕ) (name : List ℕ)
    → lookup_parent s (some path) ≡ parent d name
    → (get_or path 0 0 ≡ b'/') × Split s (components path) d name
lookup_parent-Split s path d name h = (
  ground (arith, lookup_parent-spec s path),
  parent_spec-Split s [] (components path) d name (ground (arith, lookup_parent-spec s path)),
)

resolve-ne-ok : (s : Vfs) (names : List (List ℕ)) (n : ℕ) → resolve s n names ≢ failed ok
unfolding step
resolve-ne-ok s [] n h = cc
resolve-ne-ok s (name ∷ names) n h = go (step s n name) (ground arith) h (resolve-ne-ok s names)
  where
    go :
        (f : Found)
        → f ≢ failed ok
        → and_then f (λ next. resolve s next names) ≡ failed ok
        → ((next : ℕ) → resolve s next names ≢ failed ok)
        → ⊥
    go (found next) _ k ih = ih next k
    go (failed e) ne k ih = ne k

parent_spec-ne-ok : (s : Vfs) (pre names : List (List ℕ)) → parent_spec s pre names ≢ no_parent ok
parent_spec-ne-ok s pre [] h = cc
parent_spec-ne-ok s pre (n ∷ []) h =
    go (resolve s s.root pre) (resolve-ne-ok s pre s.root) (ground arith)
  where
    go : (f : Found) → f ≢ failed ok → parent_of s n f ≡ no_parent ok → ⊥
    go (found m) ne k = ground arith
    go (failed e) ne k = ground arith
parent_spec-ne-ok s pre (n ∷ m ∷ rest) h = parent_spec-ne-ok s (pre ++ n ∷ []) (m ∷ rest) h

pub lookup_parent-ne-ok : (s : Vfs) (path : List ℕ) → lookup_parent s (some path) ≢ no_parent ok
lookup_parent-ne-ok s path h =
    ground (arith, lookup_parent-spec s path, parent_spec-ne-ok s [] (components path))

-- A new vnode under the name that lookup_parent split off is what the path leads to.
pub lookup-Grown :
    {s t : Vfs} (d p : ℕ) (path name : List ℕ)
    → IsWellFormed s
    → Grown s t d p
    → s.live p ≡ false
    → p ≢ 0
    → (t.node p).name ≡ name
    → lookup_parent s (some path) ≡ parent d name
    → child_named s d name ≡ 0
    → lookup t (some path) ≡ found p
unfolding lookup step name_eq
lookup-Grown {s} {t} d p path name w g new ne named h missing =
    let (slash, split) = lookup_parent-Split s path d name h in
    let d_live = resolve-live w split.before s.root d w.root_live split.leads in
    let there = resolve-Grown d p w g new split.before s.root d w.root_live split.leads in
    let last : resolve t d (name ∷ []) ≡ found p = ground (
      arith,
      child_named-Grown d p w g new d name d_live,
      g.old_type d,
      split.directory,
      split.proper,
      bytes_eq_refl name,
    ) in
    ground (
      arith,
      walk-resolve t path,
      slash,
      g.root,
      ap (resolve t s.root) split.whole,
      resolve-append t split.before (name ∷ []) s.root d there,
      last,
    )

-- What mkdir_in has done when it succeeds.
record Made (s t : Vfs) (mode d : ℕ) (name : List ℕ) : Type 0 where
  missing : child_named s d name ≡ 0
  given : answer s ≢ 0
  grown :
      t
      ≡ attach
          (create
            (answered (answered s))
            (answer s)
            (fresh_node name s.next_inode dir (s_ifdir + mode % 0o1000)))
          d
          (answer s)

mkdir_in-Made :
    (s t : Vfs) (mode d : ℕ) (name : List ℕ)
    → mkdir_in s mode (parent d name) ≡ (ok, t)
    → Made s t mode d name
unfolding mkdir_in new_node
mkdir_in-Made s t mode d name h = record {
  missing = ground arith;
  given = ground arith;
  grown = ground arith;
}

-- vfs_mkdir that succeeds in a well-formed tree, with an allocator that hands out no vnode in use,
-- has made an empty directory with the mode's permission bits and the next inode number, and the same
-- path now leads to it.
pub lookup-mkdir :
    (s t : Vfs) (path : List ℕ) (mode : ℕ)
    → IsWellFormed s
    → IsFresh s
    → vfs_mkdir s (some path) mode ≡ (ok, t)
    → let p = answer s in
      (lookup t (some path) ≡ found p)
      × ((t.node p).type ≡ dir)
      × ((t.node p).mode ≡ s_ifdir + mode % 0o1000)
      × ((t.node p).ino ≡ s.next_inode)
      × ((t.node p).children ≡ [])
unfolding vfs_mkdir
lookup-mkdir s t path mode w fresh h = go (lookup_parent s (some path)) refl h
  where
    go :
        (r : Parent)
        → lookup_parent s (some path) ≡ r
        → mkdir_in s mode r ≡ (ok, t)
        → (lookup t (some path) ≡ found (answer s))
          × ((t.node (answer s)).type ≡ dir)
          × ((t.node (answer s)).mode ≡ s_ifdir + mode % 0o1000)
          × ((t.node (answer s)).ino ≡ s.next_inode)
          × ((t.node (answer s)).children ≡ [])
    go (no_parent e) lp k =
        absurd (lookup_parent-ne-ok s path (lp ∙ unfold mkdir_in in ground (arith, k)))
    go (parent d name) lp k =
        let made = mkdir_in-Made s t mode d name k in
        let p = answer s in
        let new = fresh made.given in
        let split = (lookup_parent-Split s path d name lp).1 in
        let d_live = resolve-live w split.before s.root d w.root_live split.leads in
        let v = fresh_node name s.next_inode dir (s_ifdir + mode % 0o1000) in
        let u = attach (create (answered (answered s)) p v) d p in
        let grown : Grown s u d p =
          attach-Grown s d p v (answered (answered s)).answers (ground arith) in
        rw made.grown (
          lookup-Grown d p path name w grown new made.given (unfold attach in ground arith) lp
              made.missing,
          unfold attach in ground arith,
          unfold attach in ground arith,
          unfold attach in ground arith,
          unfold attach in ground arith,
        )
