-- ===== src/Kernel/Vfs/Tree/Keep.antt =====
-- The operations of kernel/fs/vfs.c keep the tree well formed.
use narc_os.Common.{ℕ, ◌+◌, ◌%◌, ◌≡◌, refl, ◌≢◌, arith, Bool, true, false, List, [], ◌∷◌}
use narc_os.Common.{◌==◌, ◌!=◌, has, Option, Bool-cases, if_elim, inl, inr}
use narc_os.Common.{◌&&◌, not}
use narc_os.Kernel.String.{Memory}
use narc_os.Kernel.Vfs.State.{
  Vfs, NodeType, is_dir, answer, answered, Status, dir, fresh_node, no_pages,
}
use narc_os.Kernel.Vfs.Path.{Parent, parent, no_parent, child_named}
use narc_os.Kernel.Vfs.Path.{lookup_parent}
use narc_os.Kernel.Vfs.Nodes.{create, detach, new_node, release_pages, release_node, remove_node}
use narc_os.Kernel.Vfs.Ops.{mkdir_in, vfs_mkdir, unlink_in, vfs_unlink, is_empty, s_ifdir}
use narc_os.Kernel.Vfs.Tree.WellFormed.{IsWellFormed}
use narc_os.Kernel.Vfs.Tree.Edit.{attach-IsWellFormed, detach-IsWellFormed, put-IsWellFormed}
use narc_os.Kernel.Vfs.Tree.Edit.{kill-IsWellFormed, bring-IsWellFormed}
use narc_os.Kernel.Vfs.Tree.Reach.{child_named-live, lookup_parent-live}

-- The allocator does not hand out a vnode that is in use.
abbrev pub IsFresh : Vfs → Type 0
IsFresh s = answer s ≢ 0 → s.live (answer s) ≡ false

-- The invariant is about the vnodes only.
pub rest-IsWellFormed :
    {s : Vfs} (n : ℕ) (ram : Memory) (freed answers : List ℕ)
    → IsWellFormed s
    → IsWellFormed (record s { next_inode = n; ram = ram; freed = freed; answers = answers })
rest-IsWellFormed n ram freed answers w = record {
  root_live = w.root_live;
  null_dead = w.null_dead;
  root_top = w.root_top;
  root_dir = w.root_dir;
  child_live = w.child_live;
  child_up = w.child_up;
  up_live = w.up_live;
  up_lists = w.up_lists;
  distinct = w.distinct;
}

module _ {s : Vfs} (w : IsWellFormed s) where
  pub answered-IsWellFormed : IsWellFormed (answered s)
  answered-IsWellFormed = rest-IsWellFormed s.next_inode s.ram s.freed (answered s).answers w

  pub new_node-IsWellFormed :
      (d : ℕ) (name : List ℕ) (type : NodeType) (mode : ℕ)
      → s.live d ≡ true
      → IsFresh s
      → IsWellFormed (new_node s d name type mode).1
  unfolding new_node
  new_node-IsWellFormed d name type mode here fresh = elim (Bool-cases (answer s == 0)) [
    | inl e ↦ rw e answered-IsWellFormed
    | inr e ↦ rw e (elim (Bool-cases (answer (answered s) == 0)) [
      | inl e' ↦
          rw e' (rest-IsWellFormed s.next_inode s.ram s.freed (answered (answered s)).answers w)
      | inr e' ↦ rw e' (
          attach-IsWellFormed d (answer s) (made e) (ground arith) (ground arith) (ground arith)
            (ground (arith, w.root_live, fresh)))
    ])
  ]
    where
      made :
          (answer s == 0) ≡ false
          → IsWellFormed (
              create
                (answered (answered s))
                (answer s)
                (fresh_node name (answered (answered s)).next_inode type mode))
      made e =
          bring-IsWellFormed (answer s) _
            (rest-IsWellFormed s.next_inode s.ram s.freed (answered (answered s)).answers w)
            (ground arith) (fresh (ground arith)) refl refl

  pub release_node-IsWellFormed :
      (p : ℕ)
      → (s.node p).parent ≡ 0
      → p ≢ s.root
      → (s.node p).children ≡ []
      → IsWellFormed (release_node s p)
  unfolding release_node release_pages
  release_node-IsWellFormed p top p_ne_root childless =
      kill-IsWellFormed p
        (rest-IsWellFormed s.next_inode s.ram (release_pages s p).freed s.answers
          (put-IsWellFormed p (let v = s.node p in record v { pages = no_pages }) w refl refl refl))
        (ground arith) p_ne_root (ground arith)

  -- A vnode without children is not its own parent.
  pub up-ne :
      (p : ℕ)
      → s.live p ≡ true
      → (s.node p).parent ≢ 0
      → (s.node p).children ≡ []
      → (s.node p).parent ≢ p
  unfolding has
  up-ne p here below childless = ground (arith, w.up_lists p here below)

  pub detach_node :
      (p : ℕ)
      → s.live p ≡ true
      → (s.node p).parent ≢ 0
      → (s.node p).children ≡ []
      → (((detach s p).node p).parent ≡ 0) × (((detach s p).node p).children ≡ [])
  unfolding detach
  detach_node p here below childless = ground (arith, up-ne p here below childless)

pub remove_node-IsWellFormed :
    {s : Vfs} (p : ℕ)
    → IsWellFormed s
    → s.live p ≡ true
    → (s.node p).parent ≢ 0
    → (s.node p).children ≡ []
    → IsWellFormed (remove_node s p)
unfolding remove_node
remove_node-IsWellFormed {s} p w here below childless =
    let t = detach s p in
    let w' = detach-IsWellFormed p w here below in
    let alone = detach_node w p here below childless in
    elim (Bool-cases ((t.node p).refs == 0)) [
      | inr e ↦ rw e w'
      | inl e ↦ rw e (
          release_node-IsWellFormed w' p alone.0 (unfold detach in ground (arith, w.root_top))
            alone.1)
    ]

abbrev pub Good : Status × Vfs → Type 0
Good r = IsWellFormed r.1

pub is_empty→nil : (l : List ℕ) → is_empty l ≡ true → l ≡ []
is_empty→nil [] h = refl
is_empty→nil (x ∷ l) h = cc

mkdir_in-Good :
    {s : Vfs} (mode d : ℕ) (name : List ℕ)
    → IsWellFormed s
    → IsFresh s
    → s.live d ≡ true
    → Good (mkdir_in s mode (parent d name))
unfolding mkdir_in
mkdir_in-Good {s} mode d name w fresh here =
    let (p, t) = new_node s d name dir (s_ifdir + mode % 0o1000) in
    let made : IsWellFormed t =
      new_node-IsWellFormed w d name dir (s_ifdir + mode % 0o1000) here fresh in
    if_elim Good (child_named s d name != 0) _ _ (λ _. w)
      (λ _. if_elim Good (p == 0) _ _ (λ _. made) (λ _. made))

unlink_in-Good :
    {s : Vfs} (remove_directory : Bool) (d : ℕ) (name : List ℕ)
    → IsWellFormed s
    → s.live d ≡ true
    → Good (unlink_in s remove_directory (parent d name))
unfolding unlink_in
unlink_in-Good {s} remove_directory d name w here =
    let p = child_named s d name in
    let v = s.node p in
    if_elim Good (p == 0) _ _ (λ _. w)
      λ found.
        if_elim Good (remove_directory && not (is_dir v.type)) _ _ (λ _. w)
          λ _.
            if_elim Good (not remove_directory && is_dir v.type) _ _ (λ _. w)
              λ _.
                if_elim Good (not (is_empty v.children)) _ _ (λ _. w)
                  λ empty.
                    let child = child_named-live w d name here (ground arith) in
                    remove_node-IsWellFormed p w child.0 (ground (arith, w.null_dead))
                      (is_empty→nil v.children (ground arith))

module _ {s : Vfs} (w : IsWellFormed s) where
  -- With an allocator that hands out no vnode in use, vfs_mkdir keeps the tree well formed, whatever it
  -- returns: the links up and down agree and lead to allocated vnodes only.
  pub vfs_mkdir-IsWellFormed :
      (path : Option (List ℕ)) (mode : ℕ) → IsFresh s → IsWellFormed (vfs_mkdir s path mode).1
  unfolding vfs_mkdir
  vfs_mkdir-IsWellFormed path mode fresh = go (lookup_parent s path) refl
    where
      go : (r : Parent) → lookup_parent s path ≡ r → IsWellFormed (mkdir_in s mode r).1
      go (no_parent e) h = unfold mkdir_in in w
      go (parent d name) h =
          mkdir_in-Good mode d name w fresh (lookup_parent-live w path d name h).0

  -- vfs_unlink keeps the tree well formed, whatever it returns: the links up and down agree and lead to
  -- allocated vnodes only.
  pub vfs_unlink-IsWellFormed :
      (path : Option (List ℕ)) (remove_directory : Bool)
      → IsWellFormed (vfs_unlink s path remove_directory).1
  unfolding vfs_unlink
  vfs_unlink-IsWellFormed path remove_directory = go (lookup_parent s path) refl
    where
      go : (r : Parent) → lookup_parent s path ≡ r → IsWellFormed (unlink_in s remove_directory r).1
      go (no_parent e) h = unfold unlink_in in w
      go (parent d name) h =
          unlink_in-Good remove_directory d name w (lookup_parent-live w path d name h).0
