-- ===== src/Kernel/Vfs/Tests.antt =====
-- The operations of kernel/fs/vfs.c on a small tree: a directory `/a` with a file `/a/f` in it.
use narc_os.Common.{ℕ, ◌+◌, ◌-◌, ◌*◌, ◌/◌, ◌≤◌, ◌≡◌, refl, ◌↔◌, inl, inr, arith}
use narc_os.Common.{true, false, [], ◌∷◌, Option, none, some, ◌==◌, if◌then◌else◌, has, bytes_eq}
use narc_os.Common.Text.{codes}
use narc_os.Common.Int.{negsuc}
use narc_os.Common.Ranges.{bytes_from}
use narc_os.Kernel.Vfs.State.{Vfs, Vnode, File, reg, dir, ok, exists}
use narc_os.Kernel.Vfs.State.{not_empty, is_directory, file_max}
use narc_os.Kernel.Vfs.Path.{
  found, parent, lookup, lookup_parent, walk, walk_loop, step, child_named, child_in,
}
use narc_os.Kernel.Vfs.Path.{
  name_eq, skip_slashes, component, after_component, trim_end, name_start,
}
use narc_os.Kernel.Vfs.Path.{lookup_parent_at}
use narc_os.Kernel.Vfs.Nodes.{attach, new_node}
use narc_os.Kernel.Vfs.Ops.{mkdir_in, vfs_mkdir, unlink_in, vfs_unlink, rename_to, rename_from}
use narc_os.Kernel.Vfs.Ops.{vfs_rename, move, blocked, on_chain}
use narc_os.Kernel.Vfs.Content.{vfs_read, vfs_write, vfs_seek}
use narc_os.Kernel.Vfs.Content.Read.{content, vfs_read-content, vfs_read_unaligned}
use narc_os.Kernel.Vfs.Content.Write.{IsWritable, vfs_write-content}
use narc_os.Kernel.Vfs.Content.Seek.{vfs_seek_iff}
use narc_os.Kernel.Vfs.Path.Resolve.{walk-resolve}
use narc_os.Kernel.Vfs.Path.Last.{lookup_parent-spec}
use narc_os.Kernel.Vfs.Tree.WellFormed.{IsWellFormed}
use narc_os.Kernel.Vfs.Tree.Keep.{vfs_mkdir-IsWellFormed, vfs_unlink-IsWellFormed}
use narc_os.Kernel.Vfs.Tree.Rename.{vfs_rename-IsTree}
use narc_os.Kernel.Vfs.Tree.Rooted.{IsTree, Under, at_root, below}
use narc_os.Common.{Bool-cases, ◌≢◌}
use narc_os.Kernel.Vfs.State.{invalid}
use narc_os.Kernel.Vfs.Tree.Mkdir.{lookup-mkdir}
use narc_os.Kernel.Vfs.Tar.{
  next_offset, octal, octal_loop, header_at, zero_block, zero_from, tar_block, size_field,
}
use narc_os.Kernel.Vfs.Tar.Bounds.{header_at_bounds}

abbrev node_at : ℕ → Vnode
node_at p =
    if p == 1
    then record {
      parent = 0;
      children = 2 ∷ [];
      name = [];
      linked = true;
      refs = 0;
      size = 0;
      ino = 1;
      mode = 0o40755;
      type = dir;
      archive = none;
      pages = [];
    }
    else if p == 2
    then record {
      parent = 1;
      children = 3 ∷ [];
      name = codes "a";
      linked = true;
      refs = 0;
      size = 0;
      ino = 2;
      mode = 0o40755;
      type = dir;
      archive = none;
      pages = [];
    }
    else record {
      parent = 2;
      children = [];
      name = codes "f";
      linked = true;
      refs = 0;
      size = 5;
      ino = 3;
      mode = 0o100644;
      type = reg;
      archive = none;
      pages = 8192 ∷ [];
    }

-- The page at 8192 holds 0, 1, 2, …
abbrev sample : Vfs
sample = record {
  node = node_at;
  live = λ p. if p == 1 then true else if p == 2 then true else p == 3;
  root = 1;
  next_inode = 4;
  tar_data = λ i. 0;
  tar_size = 0;
  ram = λ a. a - 8192;
  freed = [];
  answers = 7 ∷ 8 ∷ [];
}

sample-IsWellFormed : IsWellFormed sample
unfolding has
sample-IsWellFormed = record {
  root_live = refl;
  null_dead = refl;
  root_top = refl;
  root_dir = refl;
  child_live = λ q c hq hc. ground arith;
  child_up = λ q c hq hc. ground arith;
  up_live = λ q hq h. ground arith;
  up_lists = λ q hq h. ground arith;
  distinct = λ q hq. ground arith;
}

abbrev grown : Vfs
grown = (vfs_mkdir sample (some (codes "/a//b/")) 0o1755).1

lookup-mkdir_example :
    (lookup grown (some (codes "/a//b/")) ≡ found 7)
    × ((grown.node 7).type ≡ dir)
    × ((grown.node 7).mode ≡ 0o40755)
    × ((grown.node 7).ino ≡ 4)
    × ((grown.node 7).children ≡ [])
unfolding vfs_mkdir mkdir_in lookup_parent lookup_parent_at trim_end name_start walk walk_loop step
    child_named child_in name_eq bytes_eq skip_slashes component after_component new_node attach
lookup-mkdir_example =
    lookup-mkdir sample grown (codes "/a//b/") 0o1755 sample-IsWellFormed (λ ne. refl) refl

vfs_mkdir-IsWellFormed_example : IsWellFormed (vfs_mkdir sample (some (codes "/a/b")) 0o755).1
vfs_mkdir-IsWellFormed_example =
    vfs_mkdir-IsWellFormed sample-IsWellFormed (some (codes "/a/b")) 0o755 (λ ne. refl)

vfs_unlink-IsWellFormed_example : IsWellFormed (vfs_unlink sample (some (codes "/a/f")) false).1
vfs_unlink-IsWellFormed_example =
    vfs_unlink-IsWellFormed sample-IsWellFormed (some (codes "/a/f")) false

-- The chain from /a/f goes over /a to the root.
a-Under : Under sample 2
a-Under = below (λ e. absurd (omega (arith, e))) (at_root refl)

sample-IsTree : IsTree sample
sample-IsTree = record { formed = sample-IsWellFormed; rooted = λ q here h. by_address q here h }
  where
    by_address : (q : ℕ) → sample.live q ≡ true → (sample.node q).parent ≢ 0 → Under sample q
    by_address q here h = elim (Bool-cases (q == 2)) [
      | inl e ↦ let is_a : q ≡ 2 = ground (arith, e) in rw is_a a-Under
      | inr other ↦
          let is_f : q ≡ 3 = ground (arith, here, h, other) in
          rw is_f (below (λ e. absurd (omega (arith, e))) a-Under)
    ]

vfs_rename-IsTree_example : IsTree (vfs_rename 9 sample (some (codes "/a/f")) (some (codes "/g"))).1
vfs_rename-IsTree_example =
    vfs_rename-IsTree 9 (some (codes "/a/f")) (some (codes "/g")) sample-IsTree

-- What they return there.
statuses :
    ((vfs_unlink sample (some (codes "/a/f")) false).0 ≡ ok)
    × ((vfs_unlink sample (some (codes "/a")) true).0 ≡ not_empty)
    × ((vfs_unlink sample (some (codes "/a")) false).0 ≡ is_directory)
    × ((vfs_rename 9 sample (some (codes "/a/f")) (some (codes "/g"))).0 ≡ ok)
    × ((vfs_rename 9 sample (some (codes "/a")) (some (codes "/a/b"))).0 ≡ invalid)
    × ((vfs_mkdir sample (some (codes "/a")) 0).0 ≡ exists)
unfolding vfs_mkdir mkdir_in lookup_parent lookup_parent_at trim_end name_start walk walk_loop step
    child_named child_in name_eq bytes_eq skip_slashes component after_component new_node attach
    vfs_unlink unlink_in vfs_rename rename_from rename_to move blocked on_chain
statuses = (refl, refl, refl, refl, refl, refl)

abbrev file : ℕ → File
file offset = record { node = 3; offset = offset; flags = 3 }

vfs_read-content_example : vfs_read sample (file 0) 9 ≡ some (0 ∷ 1 ∷ 2 ∷ 3 ∷ 4 ∷ [], file 5)
unfolding bytes_from
vfs_read-content_example = vfs_read-content sample (file 0) 9 refl (inr refl)

vfs_read_unaligned_example : vfs_read sample (file 2) 3 ≡ some (0 ∷ 1 ∷ 2 ∷ [], file 5)
unfolding bytes_from
vfs_read_unaligned_example =
    vfs_read_unaligned sample (file 2) 3 refl refl (omega arith) (omega arith) (omega arith)

-- Opened for appending, with its offset inside the five bytes of the file.
abbrev appending : File
appending = record { node = 3; offset = 1; flags = 67 }

sample-IsWritable : IsWritable sample appending 3
sample-IsWritable = record {
  opened = refl;
  paged = refl;
  fits = omega arith;
  small = omega arith;
  present = λ j h. ground arith;
  apart = λ i j hi hj ne. absurd (omega (arith, ne));
}

abbrev after_write : Option ℕ × File × Vfs
after_write = vfs_write sample appending (λ i. 65 + i) 3

vfs_write-content_example :
    let (count, g, t) = after_write in
    (count ≡ some 3)
    × (g ≡ record appending { offset = 8 })
    × ((t.node 3).size ≡ 8)
    × (content t (t.node 3) 6 ≡ 66)
vfs_write-content_example =
    vfs_write-content sample appending (λ i. 65 + i) 3 6 sample-IsWritable (omega arith)

vfs_seek_iff_example :
    (vfs_seek sample (file 4) (negsuc 1) 1 ≡ some (2, file 2))
    ↔ ((2 + 2 ≡ 4) × (2 ≤ file_max) × (file 2 ≡ record (file 4) { offset = 2 }))
vfs_seek_iff_example =
    vfs_seek_iff sample (file 4) (negsuc 1) 1 4 2 (file 2) (omega arith) refl (omega arith)
      (omega arith) (omega arith) (inr (inl (refl, refl)))

walk-resolve_example : walk sample (codes "/a/../a/f") ≡ found 3
unfolding step child_named child_in name_eq bytes_eq
walk-resolve_example = walk-resolve sample (codes "/a/../a/f")

lookup_parent-spec_example : lookup_parent sample (some (codes "/a/x//")) ≡ parent 2 (codes "x")
unfolding step child_named child_in name_eq bytes_eq
lookup_parent-spec_example = lookup_parent-spec sample (codes "/a/x//")

-- An archive of one empty file named `a`.
abbrev archived : Vfs
archived = record sample { tar_data = λ i. if i == 0 then b'a' else 0; tar_size = 1024 }

header_at_bounds_example :
    let next = next_offset archived.tar_data 0 in
    (next
      ≡ 0 + tar_block + (octal archived.tar_data (0 + size_field) 12 + 511) / tar_block * tar_block)
    × (0 + tar_block ≤ next)
    × (next ≤ 1024)
unfolding header_at zero_block zero_from next_offset octal octal_loop
header_at_bounds_example = header_at_bounds archived 0 (omega arith) refl
