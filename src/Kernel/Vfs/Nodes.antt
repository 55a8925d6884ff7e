-- ===== src/Kernel/Vfs/Nodes.antt =====
-- Vnodes and the tree in kernel/fs/vfs.c: attach, detach, copy_name, new_node, release_pages,
-- release_node, remove_node.
use narc_os.Common.{ℕ, ◌+◌, ◌%◌, ◌^◌, true, false}
use narc_os.Common.{List, [], ◌∷◌, ◌++◌, ◌==◌, if◌then◌else◌}
use narc_os.Kernel.Vfs.State.{Vfs, Vnode, NodeType, fresh_node, put, set_live, answer, answered}
use narc_os.Kernel.Vfs.State.{no_pages}

-- The node goes behind the last child.
unfoldable pub attach : Vfs → ℕ → ℕ → Vfs
attach s directory p =
    let listed =
      put s directory
        (let d = s.node directory in record d { children = d.children ++ (p ∷ []) }) in
    put listed p (let v = listed.node p in record v { parent = directory; linked = true })

-- Takes one address out of a list of siblings.
unfoldable pub unlist : ℕ → List ℕ → List ℕ
unlist p [] = []
unlist p (c ∷ cs) = if c == p then cs else c ∷ unlist p cs

unfoldable pub detach : Vfs → ℕ → Vfs
detach s p =
    let up = (s.node p).parent in
    let unlisted = put s up (let d = s.node up in record d { children = unlist p d.children }) in
    put unlisted p (let v = unlisted.node p in record v { parent = 0; linked = false })

-- The vnode at `p` comes into use and takes the next inode number.
abbrev pub create : Vfs → ℕ → Vnode → Vfs
create s p v = record s {
  node = λ q. if q == p then v else s.node q;
  live = λ q. if q == p then true else s.live q;
  next_inode = (s.next_inode + 1) % 2 ^ 64;
}

-- `new_node`: kzalloc for the vnode, kmalloc for its name.
unfoldable pub new_node : Vfs → ℕ → List ℕ → NodeType → ℕ → ℕ × Vfs
new_node s directory name type mode =
    let p = answer s in
    let t = answered s in
    let u = answered t in
    if p == 0
    then (0, t)
    else if answer t == 0
    then (0, u)
    else (p, attach (create u p (fresh_node name u.next_inode type mode)) directory p)

-- The pages that are not null, the last first.
unfoldable pub give_back : List ℕ → List ℕ → List ℕ
give_back [] freed = freed
give_back (p ∷ ps) freed = give_back ps (if p == 0 then freed else p ∷ freed)

unfoldable pub release_pages : Vfs → ℕ → Vfs
release_pages s p = record (put s p (let v = s.node p in record v { pages = no_pages })) {
  freed = give_back (s.node p).pages s.freed;
}

unfoldable pub release_node : Vfs → ℕ → Vfs
release_node s p = set_live (release_pages s p) p false

unfoldable pub remove_node : Vfs → ℕ → Vfs
remove_node s p = let t = detach s p in if (t.node p).refs == 0 then release_node t p else t
