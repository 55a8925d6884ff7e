-- ===== src/Kernel/Vfs/Ops.antt =====
-- The operations of kernel/fs/vfs.c on paths and open files: vfs_open, vfs_close, vfs_file_info,
-- vfs_readdir, vfs_mkdir, vfs_unlink, vfs_rename.
use narc_os.Common.{ℕ, zero, suc, ◌+◌, ◌-◌, ◌%◌, ◌^◌}
use narc_os.Common.{Bool, true, false, ◌&&◌, not, Option, none, some}
use narc_os.Common.{List, [], ◌∷◌, ◌==◌, ◌!=◌, if◌then◌else◌, get_elem?, bit}
use narc_os.Kernel.Vfs.State.{Vfs, Vnode, File, NodeType, reg, dir, is_dir, put, answer, answered}
use narc_os.Kernel.Vfs.State.{Status, ok, not_found, exists, not_directory, is_directory, no_space}
use narc_os.Kernel.Vfs.State.{not_empty, invalid}
use narc_os.Kernel.Vfs.Path.{Found, found, failed, Parent, parent, no_parent, child_named, lookup}
use narc_os.Kernel.Vfs.Path.{lookup_parent}
use narc_os.Kernel.Vfs.Content.{write_flag, append_flag}
use narc_os.Kernel.Vfs.Nodes.{attach, detach, new_node, release_pages, release_node, remove_node}

-- `S_IFREG` and `S_IFDIR`.
abbrev pub s_ifreg : ℕ
s_ifreg = 0o100000

abbrev pub s_ifdir : ℕ
s_ifdir = 0o40000

-- Numbers of the bits VFS_OPEN_CREATE, VFS_OPEN_DIRECTORY, VFS_OPEN_TRUNCATE, VFS_OPEN_EXCLUSIVE.
abbrev pub create_flag : ℕ
create_flag = 2

abbrev pub directory_flag : ℕ
directory_flag = 3

abbrev pub truncate_flag : ℕ
truncate_flag = 4

abbrev pub exclusive_flag : ℕ
exclusive_flag = 5

-- The status of an open, the file that it fills in on success, and the state.
abbrev pub Opened : Type 0
Opened = Status × Option File × Vfs

abbrev pub truncated : Vfs → ℕ → Vfs
truncated s p =
    let t = release_pages s p in put t p (let v = t.node p in record v { archive = none; size = 0 })

abbrev pub file : ℕ → ℕ → ℕ → File
file p offset flags = record { node = p; offset = offset; flags = flags }

-- vfs_open from the first check of `node` on.
unfoldable pub open_node : Vfs → ℕ → ℕ → Opened
open_node s flags p =
    let v = s.node p in
    let t = if bit flags truncate_flag && bit flags write_flag then truncated s p else s in
    let w = t.node p in
    let start = if bit flags append_flag then w.size else 0 in
    if bit flags directory_flag && not (is_dir v.type)
    then (not_directory, none, s)
    else if bit flags write_flag && is_dir v.type
    then (is_directory, none, s)
    else (ok, some (file p start flags), put t p (record w { refs = (w.refs + 1) % 2 ^ 32 }))

unfoldable pub create_node : Vfs → ℕ → Parent → Opened
create_node s flags (no_parent e) = (e, none, s)
create_node s flags (parent d name) =
    let (p, t) = new_node s d name reg (s_ifreg + 0o666) in
    if p == 0 then (no_space, none, t) else open_node t flags p

unfoldable pub open_found : Vfs → Option (List ℕ) → ℕ → Found → Opened
open_found s path flags (found p) =
    if bit flags create_flag && bit flags exclusive_flag
    then (exists, none, s)
    else open_node s flags p
open_found s path flags (failed not_found) =
    if bit flags create_flag
    then create_node s flags (lookup_parent s path)
    else (not_found, none, s)
open_found s path flags (failed e) = (e, none, s)

unfoldable pub vfs_open : Vfs → Option (List ℕ) → ℕ → Opened
vfs_open s path flags = open_found s path flags (lookup s path)

unfoldable pub vfs_close : Vfs → File → File × Vfs
vfs_close s f =
    let v = s.node f.node in
    let refs = if v.refs == 0 then 0 else v.refs - 1 in
    let t = put s f.node (record v { refs = refs }) in
    let u = if not v.linked && refs == 0 then release_node t f.node else t in
    if f.node == 0 then (f, s) else (record f { node = 0 }, u)

-- `struct vfs_info`.
pub record Info : Type 0 where
  pub size : ℕ
  pub ino : ℕ
  pub mode : ℕ
  pub type : NodeType

unfoldable pub vfs_file_info : Vfs → File → Info
vfs_file_info s f =
    let v = s.node f.node in record { size = v.size; ino = v.ino; mode = v.mode; type = v.type }

-- `struct vfs_dirent`.
pub record Dirent : Type 0 where
  pub ino : ℕ
  pub type : NodeType
  pub name : List ℕ

abbrev pub dirent : Vnode → Dirent
dirent v = record { ino = v.ino; type = v.type; name = v.name }

-- -1, 0 (no child is left), or 1 with the entry and the advanced file.
pub data Readdir : Type 0 where
  not_a_directory at_end : Readdir
  entry : Dirent → File → Readdir

unfoldable pub entry_of : Vfs → File → Option ℕ → Readdir
entry_of s f none = at_end
entry_of s f (some c) = entry (dirent (s.node c)) (record f { offset = f.offset + 1 })

-- The walk from the first child over `offset` siblings is an index into the list.
unfoldable pub vfs_readdir : Vfs → File → Readdir
vfs_readdir s f =
    let d = s.node f.node in
    if f.node != 0 && is_dir d.type
    then entry_of s f (get_elem? d.children f.offset)
    else not_a_directory

unfoldable pub mkdir_in : Vfs → ℕ → Parent → Status × Vfs
mkdir_in s mode (no_parent e) = (e, s)
mkdir_in s mode (parent d name) =
    let (p, t) = new_node s d name dir (s_ifdir + mode % 0o1000) in
    if child_named s d name != 0 then (exists, s) else if p == 0 then (no_space, t) else (ok, t)

unfoldable pub vfs_mkdir : Vfs → Option (List ℕ) → ℕ → Status × Vfs
vfs_mkdir s path mode = mkdir_in s mode (lookup_parent s path)

abbrev pub is_empty : List ℕ → Bool
is_empty [] = true
is_empty (x ∷ l) = false

unfoldable pub unlink_in : Vfs → Bool → Parent → Status × Vfs
unlink_in s remove_directory (no_parent e) = (e, s)
unlink_in s remove_directory (parent d name) =
    let p = child_named s d name in
    let v = s.node p in
    if p == 0
    then (not_found, s)
    else if remove_directory && not (is_dir v.type)
    then (not_directory, s)
    else if not remove_directory && is_dir v.type
    then (is_directory, s)
    else if not (is_empty v.children)
    then (not_empty, s)
    else (ok, remove_node s p)

unfoldable pub vfs_unlink : Vfs → Option (List ℕ) → Bool → Status × Vfs
vfs_unlink s path remove_directory = unlink_in s remove_directory (lookup_parent s path)

-- Is `p` on the chain of parents that starts at `ancestor`? The chain ends at the null pointer; the
-- fuel bounds its length.
unfoldable pub on_chain : ℕ → (ℕ → Vnode) → ℕ → ℕ → Bool
on_chain zero node p ancestor = true
on_chain (suc fuel) node p ancestor =
    let rest = on_chain fuel node p (node ancestor).parent in
    if ancestor == 0 then false else if ancestor == p then true else rest

-- Why `target` cannot give way to `p`; `none` if it can.
unfoldable pub blocked : Vfs → ℕ → ℕ → Option Status
blocked s p target =
    let v = s.node p in
    let t = s.node target in
    if target == 0
    then none
    else if is_dir v.type && not (is_dir t.type)
    then some not_directory
    else if not (is_dir v.type) && is_dir t.type
    then some is_directory
    else if not (is_empty t.children)
    then some not_empty
    else none

-- vfs_rename from copy_name on.
unfoldable pub move : Vfs → ℕ → ℕ → ℕ → List ℕ → Status × Vfs
move s p target d name =
    let t = answered s in
    let u = if target == 0 then t else remove_node t target in
    let w = detach u p in
    if answer s == 0
    then (no_space, t)
    else (ok, attach (put w p (let v = w.node p in record v { name = name })) d p)

unfoldable pub rename_to : ℕ → Vfs → ℕ → Parent → Status × Vfs
rename_to fuel s p (no_parent e) = (e, s)
rename_to fuel s p (parent d name) =
    let target = child_named s d name in
    if on_chain fuel s.node p d
    then (invalid, s)
    else if target == p
    then (ok, s)
    else elim (blocked s p target) [ some e ↦ (e, s) | none ↦ move s p target d name ]

unfoldable pub rename_from : ℕ → Vfs → Option (List ℕ) → Parent → Status × Vfs
rename_from fuel s new_path (no_parent e) = (e, s)
rename_from fuel s new_path (parent d name) =
    let p = child_named s d name in
    if p == 0 then (not_found, s) else rename_to fuel s p (lookup_parent s new_path)

-- `fuel` bounds the depth of the tree.
unfoldable pub vfs_rename : ℕ → Vfs → Option (List ℕ) → Option (List ℕ) → Status × Vfs
vfs_rename fuel s old_path new_path = rename_from fuel s new_path (lookup_parent s old_path)
