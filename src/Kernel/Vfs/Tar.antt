-- ===== src/Kernel/Vfs/Tar.antt =====
-- The archive in kernel/fs/vfs.c: octal, zero_block, next_offset, header_at, tar_path, tar_node,
-- vfs_init. A header is the offset of its first byte in the archive.
pub mod Bounds
use narc_os.Common.{ℕ, zero, suc, ◌+◌, ◌-◌, ◌*◌, ◌/◌, ◌%◌, ◌^◌}
use narc_os.Common.{Bool, true, false, ◌&&◌, ◌||◌, not, Option, none, some}
use narc_os.Common.{List, [], ◌∷◌, ◌++◌, ◌==◌, ◌!=◌, leb, ltb, if◌then◌else◌, length, get_or}
use narc_os.Kernel.Vfs.State.{Vfs, Vnode, NodeType, reg, dir, is_dir, same_type, put, answer}
use narc_os.Kernel.Vfs.State.{answered, set_live, fresh_node, file_max, name_max}
use narc_os.Kernel.Vfs.Path.{child_named, component, after_component, skip_slashes, dot_name}
use narc_os.Kernel.Vfs.Nodes.{new_node}
use narc_os.Kernel.Vfs.Ops.{s_ifreg, s_ifdir, is_empty}

-- TAR_BLOCK, and the places of the fields of `struct tar_header`.
abbrev pub tar_block : ℕ
tar_block = 512

abbrev pub mode_field : ℕ
mode_field = 100

abbrev pub size_field : ℕ
size_field = 124

abbrev pub type_field : ℕ
type_field = 156

abbrev pub magic_field : ℕ
magic_field = 257

abbrev pub prefix_field : ℕ
prefix_field = 345

-- `for (i = 0; i < length && string[i]; i++)`, with the string at `i` of `bytes`.
unfoldable pub octal_loop : (ℕ → ℕ) → ℕ → ℕ → ℕ → ℕ
octal_loop bytes i zero value = value
octal_loop bytes i (suc n) value =
    let c = bytes i in
    let next = (value * 8 + (c - b'0')) % 2 ^ 64 in
    let rest = octal_loop bytes (i + 1) n (if ltb c b'0' || ltb b'7' c then value else next) in
    if c == 0 then value else rest

unfoldable pub octal : (ℕ → ℕ) → ℕ → ℕ → ℕ
octal bytes i n = octal_loop bytes i n 0

unfoldable pub zero_from : (ℕ → ℕ) → ℕ → ℕ → Bool
zero_from bytes i zero = true
zero_from bytes i (suc n) = bytes i == 0 && zero_from bytes (i + 1) n

unfoldable pub zero_block : (ℕ → ℕ) → ℕ → Bool
zero_block bytes i = zero_from bytes i tar_block

-- `(size + TAR_BLOCK - 1) & ~(TAR_BLOCK - 1)` clears the low bits.
unfoldable pub next_offset : (ℕ → ℕ) → ℕ → ℕ
next_offset bytes offset =
    let size = octal bytes (offset + size_field) 12 in
    let rounded = (size + (tar_block - 1)) % 2 ^ 64 in
    (offset + tar_block + (rounded - rounded % tar_block)) % 2 ^ 64

-- Does a header stand at `offset`?
unfoldable pub header_at : Vfs → ℕ → Bool
header_at s offset =
    let next = next_offset s.tar_data offset in
    if ltb s.tar_size offset || ltb (s.tar_size - offset) tar_block
    then false
    else if zero_block s.tar_data offset
    then false
    else not (ltb next offset || ltb s.tar_size next)

-- The bytes of a field before its first zero byte.
unfoldable pub text_from : (ℕ → ℕ) → ℕ → ℕ → List ℕ
text_from bytes i zero = []
text_from bytes i (suc n) =
    let rest = text_from bytes (i + 1) n in if bytes i == 0 then [] else bytes i ∷ rest

unfoldable pub tar_path : (ℕ → ℕ) → ℕ → List ℕ
tar_path bytes header =
    let prefix = text_from bytes (header + prefix_field) 155 in
    let name = text_from bytes header 100 in if is_empty prefix then name else prefix ++ b'/' ∷ name

abbrev pub set_mode : Vfs → ℕ → ℕ → Vfs
set_mode s p mode = put s p (let v = s.node p in record v { mode = mode })

-- The child of that name, made if it is missing.
unfoldable pub ensure_child : Vfs → ℕ → List ℕ → NodeType → ℕ → ℕ × Vfs
ensure_child s d name type mode =
    let child = child_named s d name in
    if child == 0 then new_node s d name type mode else (child, s)

-- Every round takes a byte of the path at least. A null result is a failure.
unfoldable pub tar_node : ℕ → Vfs → ℕ → List ℕ → NodeType → ℕ → ℕ × Vfs
tar_node zero s node path type mode = (0, s)
tar_node (suc fuel) s node path type mode =
    let rest = skip_slashes path in
    let name = component rest in
    let cursor = skip_slashes (after_component rest) in
    let last = is_empty cursor in
    let here = tar_node fuel s node cursor type mode in
    let (child, t) =
      ensure_child s node name (if last then type else dir)
        (if last then mode else s_ifdir + 0o755) in
    let down = tar_node fuel t child cursor type mode in
    if is_empty name
    then (node, s)
    else if length name == 1 && get_or name 0 0 == b'.'
    then (if last then (node, s) else here)
    else if dot_name name || leb name_max (length name) || not (is_dir (s.node node).type)
    then (0, s)
    else if child == 0 || (last && not (same_type (t.node child).type type))
    then (0, t)
    else if last
    then (child, set_mode t child mode)
    else down

-- One header of vfs_init; `false` is its return of -1.
unfoldable pub load_header : Vfs → ℕ → Bool × Vfs
load_header s header =
    let at = λ (i : ℕ). s.tar_data (header + i) in
    let type = if at type_field == b'5' then dir else reg in
    let path = tar_path s.tar_data header in
    let kind = if at type_field == b'5' then s_ifdir else s_ifreg in
    let mode = kind + octal s.tar_data (header + mode_field) 8 % 0o1000 in
    let (p, t) = tar_node (suc (length path)) s s.root path type mode in
    let size = octal s.tar_data (header + size_field) 12 in
    let v = t.node p in
    let sized = put t p (record v { size = size }) in
    if at magic_field != b'u'
      || at (magic_field + 1) != b's'
      || at (magic_field + 2) != b't'
      || at (magic_field + 3) != b'a'
      || at (magic_field + 4) != b'r'
    then (false, s)
    else if p == 0
    then (false, t)
    else if not (same_type v.type type)
    then (false, t)
    else if is_dir type
    then (true, t)
    else if ltb file_max size
    then (false, sized)
    else (true, put t p (record v { size = size; archive = some (header + tar_block) }))

-- The loop over the headers. The offset grows by a block at least.
unfoldable pub load_headers : ℕ → Vfs → ℕ → Bool × Vfs
load_headers zero s offset = (true, s)
load_headers (suc fuel) s offset =
    let (done, t) = load_header s offset in
    let rest = load_headers fuel t (next_offset s.tar_data offset) in
    if not (header_at s offset) then (true, s) else if done then rest else (false, t)

abbrev pub root_node : Vnode
root_node = let v = fresh_node [] 1 dir (s_ifdir + 0o755) in record v { linked = true }

-- `none` is a null archive. The first two answers are the root and its name.
unfoldable pub vfs_init : Vfs → Option (ℕ → ℕ) → ℕ → Bool × Vfs
vfs_init s none size = (false, s)
vfs_init s (some archive) size =
    let t = record s { tar_data = archive; tar_size = size; next_inode = 2 } in
    let p = answer t in
    let u = record (answered t) { root = p } in
    let w = answered u in
    if ltb size (tar_block * 2)
    then (false, s)
    else if p == 0
    then (false, u)
    else if answer u == 0
    then (false, set_live w p true)
    else load_headers (suc (size / tar_block)) (put (set_live w p true) p root_node) 0
