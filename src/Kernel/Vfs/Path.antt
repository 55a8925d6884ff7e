-- ===== src/Kernel/Vfs/Path.antt =====
-- Path resolution in kernel/fs/vfs.c: name_eq, dot_name, child_named, walk, lookup, lookup_parent.
-- A path is its bytes before the terminator, `none` the null pointer; the position `i` of the source
-- is the list of the bytes from there on.
pub mod Resolve
pub mod Last
use narc_os.Common.{ℕ, zero, suc, ◌-◌, Bool, ◌&&◌, ◌||◌, Option, none, some}
use narc_os.Common.{List, [], ◌∷◌, ◌==◌, ◌!=◌, leb, if◌then◌else◌, length, get_or, take, drop}
use narc_os.Common.{bytes_eq}
use narc_os.Kernel.Vfs.State.{Vfs, Vnode, Status, name_max, is_dir}
use narc_os.Kernel.Vfs.State.{not_found, not_directory, invalid}

-- A status other than VFS_OK, or VFS_OK with the vnode that goes through `result`.
pub data Found : Type 0 where
  found : ℕ → Found
  failed : Status → Found

-- Names and components hold no zero byte, so the shorter of two differs at its end.
unfoldable pub name_eq : List ℕ → List ℕ → Bool
name_eq name component = bytes_eq name component

abbrev pub dot_name : List ℕ → Bool
dot_name c =
    (length c == 1 && get_or c 0 0 == b'.')
    || (length c == 2 && get_or c 0 0 == b'.' && get_or c 1 0 == b'.')

-- Along a list of siblings.
unfoldable pub child_in : (ℕ → Vnode) → List ℕ → List ℕ → ℕ
child_in node [] name = 0
child_in node (c ∷ cs) name = if name_eq (node c).name name then c else child_in node cs name

unfoldable pub child_named : Vfs → ℕ → List ℕ → ℕ
child_named s directory name = child_in s.node (s.node directory).children name

-- `while (path[i] == '/') i++`, the component that starts there, and what follows it.
unfoldable pub skip_slashes : List ℕ → List ℕ
skip_slashes [] = []
skip_slashes (c ∷ r) = let rest = skip_slashes r in if c == b'/' then rest else c ∷ r

unfoldable pub component : List ℕ → List ℕ
component [] = []
component (c ∷ r) = let rest = component r in if c == b'/' then [] else c ∷ rest

unfoldable pub after_component : List ℕ → List ℕ
after_component [] = []
after_component (c ∷ r) = let rest = after_component r in if c == b'/' then c ∷ r else rest

-- One component of the walk, from `node`.
unfoldable pub step : Vfs → ℕ → List ℕ → Found
step s node name =
    let up = (s.node node).parent in
    let child = child_named s node name in
    if is_dir (s.node node).type
    then (if dot_name name
        then found (if length name == 2 && up != 0 then up else node)
        else if child == 0
        then failed not_found
        else found child)
    else failed not_directory

abbrev pub and_then : Found → (ℕ → Found) → Found
and_then (found n) k = k n
and_then (failed e) k = failed e

unfoldable pub walk_loop : ℕ → Vfs → ℕ → List ℕ → Found
walk_loop zero s node path = failed invalid
walk_loop (suc fuel) s node path =
    let rest = skip_slashes path in
    let name = component rest in
    elim name [
      | [] ↦ found node
      | c ∷ cs ↦
          and_then (step s node (c ∷ cs)) λ next. walk_loop fuel s next (after_component rest)
    ]

-- Every round takes a byte at least, so the path's length suffices.
unfoldable pub walk : Vfs → List ℕ → Found
walk s [] = failed invalid
walk s (c ∷ r) =
    if c == b'/' then walk_loop (suc (length (c ∷ r))) s s.root (c ∷ r) else failed invalid

unfoldable pub lookup : Vfs → Option (List ℕ) → Found
lookup s none = failed invalid
lookup s (some path) = walk s path

-- The parent and the last component of a path.
pub data Parent : Type 0 where
  parent : ℕ → List ℕ → Parent
  no_parent : Status → Parent

-- `while (end && path[end - 1] == '/') end--`.
unfoldable pub trim_end : List ℕ → ℕ → ℕ
trim_end path zero = 0
trim_end path (suc end) =
    let rest = trim_end path end in if get_or path end 0 == b'/' then rest else suc end

-- `while (start && path[start - 1] != '/') start--`.
unfoldable pub name_start : List ℕ → ℕ → ℕ
name_start path zero = 0
name_start path (suc start) =
    let rest = name_start path start in if get_or path start 0 != b'/' then rest else suc start

abbrev pub slice : List ℕ → ℕ → ℕ → List ℕ
slice path start end = take (end - start) (drop start path)

abbrev pub parent_of : Vfs → List ℕ → Found → Parent
parent_of s name (failed e) = no_parent e
parent_of s name (found p) =
    if is_dir (s.node p).type then parent p name else no_parent not_directory

unfoldable pub lookup_parent_at : Vfs → List ℕ → ℕ → ℕ → Parent
lookup_parent_at s path start end =
    let name = slice path start end in
    if start == end || dot_name name
    then no_parent invalid
    else if leb name_max (end - start)
    then no_parent invalid
    else parent_of s name (walk s (take start path))

unfoldable pub lookup_parent : Vfs → Option (List ℕ) → Parent
lookup_parent s none = no_parent invalid
lookup_parent s (some path) =
    let end = trim_end path (length path) in
    if get_or path 0 0 == b'/'
    then lookup_parent_at s path (name_start path end) end
    else no_parent invalid
