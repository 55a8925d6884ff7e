-- ===== src/Kernel/Vfs/State.antt =====
-- The data of kernel/fs/vfs.c and kernel/include/kernel/vfs.h. A pointer to a vnode is an address, 0
-- the null pointer. The list that starts at `children` and goes on through `next` is the list of its
-- addresses. `char *name` is the bytes before the terminator, `archive` an offset into the archive.
-- What kmalloc, kzalloc and pmm_alloc_page return are the entries of `answers`, in the order of the
-- calls; 0, and an exhausted list, is a failure.
use narc_os.Common.{ℕ, ◌*◌, ◌/◌, Bool, true, false, Option, none}
use narc_os.Common.{List, [], ◌∷◌, ◌==◌, if◌then◌else◌, get_or, replicate}
use narc_os.Kernel.String.{Memory, memset}

abbrev pub page_size : ℕ
page_size = 4096

abbrev pub name_max : ℕ
name_max = 64

abbrev pub file_max : ℕ
file_max = 64 * 1024

abbrev pub page_max : ℕ
page_max = file_max / page_size

-- `enum vfs_status`.
pub data Status : Type 0 where
  ok not_found exists not_directory is_directory no_space not_empty invalid : Status

-- `VFS_REG` and `VFS_DIR`.
pub data NodeType : Type 0 where
  reg dir : NodeType

abbrev pub is_dir : NodeType → Bool
is_dir reg = false
is_dir dir = true

abbrev pub same_type : NodeType → NodeType → Bool
same_type reg reg = true
same_type dir dir = true
same_type _ _ = false

-- `struct vnode`.
pub record Vnode : Type 0 where
  pub parent : ℕ
  pub children : List ℕ
  pub name : List ℕ
  pub linked : Bool
  pub refs : ℕ
  pub size : ℕ
  pub ino : ℕ
  pub mode : ℕ
  pub type : NodeType
  pub archive : Option ℕ
  pub pages : List ℕ

-- `struct file`.
pub record File : Type 0 where
  pub node : ℕ
  pub offset : ℕ
  pub flags : ℕ

-- The file system's variables, the memory that its pages lie in, and the allocators' answers.
-- `freed` lists the pages given back by pmm_free_page, the latest first; `live` holds of the
-- addresses that are allocated vnodes.
pub record Vfs : Type 0 where
  pub node : ℕ → Vnode
  pub live : ℕ → Bool
  pub root : ℕ
  pub next_inode : ℕ
  pub tar_data : ℕ → ℕ
  pub tar_size : ℕ
  pub ram : Memory
  pub freed : List ℕ
  pub answers : List ℕ

abbrev pub no_pages : List ℕ
no_pages = replicate page_max 0

-- What kzalloc leaves in a vnode, with the fields set that new_node sets at once.
abbrev pub fresh_node : List ℕ → ℕ → NodeType → ℕ → Vnode
fresh_node name ino type mode = record {
  parent = 0;
  children = [];
  name = name;
  linked = false;
  refs = 0;
  size = 0;
  ino = ino;
  mode = mode;
  type = type;
  archive = none;
  pages = no_pages;
}

-- Writes a vnode.
abbrev pub put : Vfs → ℕ → Vnode → Vfs
put s p v = record s { node = λ q. if q == p then v else s.node q }

abbrev pub set_live : Vfs → ℕ → Bool → Vfs
set_live s p b = record s { live = λ q. if q == p then b else s.live q }

-- The next answer of an allocator.
abbrev pub answer : Vfs → ℕ
answer s = get_or s.answers 0 0

abbrev pub rest_of : List ℕ → List ℕ
rest_of [] = []
rest_of (a ∷ l) = l

abbrev pub answered : Vfs → Vfs
answered s = record s { answers = rest_of s.answers }

-- pmm_alloc_page clears the page that it hands out.
unfoldable pub alloc_page : Vfs → Vfs
alloc_page s =
    let t = answered s in
    if answer s == 0 then t else record t { ram = memset s.ram (answer s) 0 page_size }

abbrev pub page_of : Vnode → ℕ → ℕ
page_of v i = get_or v.pages i 0
