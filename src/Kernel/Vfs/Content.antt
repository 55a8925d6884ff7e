-- ===== src/Kernel/Vfs/Content.antt =====
-- The contents of files in kernel/fs/vfs.c: ensure_pages, vfs_read, vfs_write, vfs_seek. `none` is
-- the -1 that a function returns.
pub mod Seek
pub mod Read
pub mod Write
use narc_os.Common.{ℕ, zero, suc, ◌+◌, ◌-◌, ◌/◌, ◌%◌, ◌^◌}
use narc_os.Common.{Bool, true, false, ◌&&◌, not, Option, none, some}
use narc_os.Common.{List, [], ◌++◌, ◌==◌, ◌!=◌, leb, ltb, if◌then◌else◌, length, set}
use narc_os.Common.{add64, sub64, bit}
use narc_os.Common.Int.{ℤ, pos_part, neg_part}
use narc_os.Common.Ranges.{bytes_from}
use narc_os.Kernel.String.{Memory, memcpy}
use narc_os.Kernel.Vfs.State.{Vfs, Vnode, File, is_dir, file_max, page_size, put, page_of}
use narc_os.Kernel.Vfs.State.{alloc_page, answer}

-- A file that stands for a regular vnode and was opened with the flag of bit `k`.
abbrev pub usable : Vfs → File → ℕ → Bool
usable s f k = f.node != 0 && not (is_dir (s.node f.node).type) && bit f.flags k

abbrev pub read_flag : ℕ
read_flag = 0

abbrev pub write_flag : ℕ
write_flag = 1

abbrev pub append_flag : ℕ
append_flag = 6

abbrev pub set_page : Vfs → ℕ → ℕ → ℕ → Vfs
set_page s p i page = put s p (let v = s.node p in record v { pages = set v.pages i page })

-- The first loop of ensure_pages, for `n` pages from index `i` on.
unfoldable pub fill_pages : ℕ → ℕ → Vfs → ℕ → Bool × Vfs
fill_pages zero i s p = (true, s)
fill_pages (suc n) i s p =
    let t = set_page (alloc_page s) p i (answer s) in
    let skip = fill_pages n (i + 1) s p in
    let go = fill_pages n (i + 1) t p in
    if page_of (s.node p) i != 0 then skip else if answer s == 0 then (false, t) else go

-- Its second loop: `n` rounds over the archive's bytes, from `offset` on.
unfoldable pub unpack : ℕ → ℕ → Vfs → ℕ → ℕ → Memory → Memory
unpack zero offset s p base ram = ram
unpack (suc n) offset s p base ram =
    let v = s.node p in
    let amount = if ltb page_size (v.size - offset) then page_size else v.size - offset in
    let next =
      memcpy ram (page_of v (offset / page_size)) (λ i. s.tar_data (base + offset + i)) amount in
    let rest = unpack n (offset + page_size) s p base next in
    if ltb offset v.size then rest else ram

abbrev pub drop_archive : Vfs → ℕ → Vfs
drop_archive s p = put s p (let v = s.node p in record v { archive = none })

abbrev pub materialise : Vfs → ℕ → Option ℕ → Vfs
materialise s p none = s
materialise s p (some base) =
    drop_archive (record s { ram = unpack ((s.node p).size) 0 s p base s.ram }) p

unfoldable pub ensure_pages : Vfs → ℕ → ℕ → Bool × Vfs
ensure_pages s p end =
    let (done, t) = fill_pages ((end + page_size - 1) / page_size) 0 s p in
    if ltb file_max end
    then (false, s)
    else if done
    then (true, materialise t p (t.node p).archive)
    else (false, t)

-- The chunk of a transfer at `position`: up to the page's end, or all that is left.
abbrev pub chunk_at : ℕ → ℕ → ℕ
chunk_at position left =
    let room = page_size - position % page_size in if ltb left room then left else room

-- Where vfs_read finds the bytes of one chunk: `archive + position`, or the page at its start.
abbrev pub source_of : Vfs → Vnode → Option ℕ → ℕ → ℕ → ℕ
source_of s v (some base) position i = s.tar_data (base + position + i)
source_of s v none position i = s.ram (page_of v (position / page_size) + i)

-- The loop of vfs_read: what it copies into the buffer.
unfoldable pub read_loop : ℕ → Vfs → Vnode → (offset done length : ℕ) → List ℕ
read_loop zero s v offset done length = []
read_loop (suc fuel) s v offset done length =
    let position = offset + done in
    let chunk = chunk_at position (length - done) in
    let rest = read_loop fuel s v offset (done + chunk) length in
    if ltb done length then bytes_from (source_of s v v.archive position) 0 chunk ++ rest else []

abbrev pub clamp_length : ℕ → ℕ → ℕ
clamp_length available length = if ltb available length then available else length

-- The bytes read, and the file with its new offset.
unfoldable pub vfs_read : Vfs → File → ℕ → Option (List ℕ × File)
vfs_read s f length =
    let v = s.node f.node in
    let n = clamp_length (v.size - f.offset) length in
    if not (usable s f read_flag)
    then none
    else if leb v.size f.offset
    then some ([], f)
    else some (read_loop n s v f.offset 0 n, record f { offset = f.offset + n })

-- The loop of vfs_write, over the memory.
unfoldable pub write_loop : ℕ → Vnode → (buffer : ℕ → ℕ) (offset done length : ℕ) → Memory → Memory
write_loop zero v buffer offset done length ram = ram
write_loop (suc fuel) v buffer offset done length ram =
    let position = offset + done in
    let chunk = chunk_at position (length - done) in
    let next =
      memcpy ram (page_of v (position / page_size) + position % page_size) (λ i. buffer (done + i))
        chunk in
    let rest = write_loop fuel v buffer offset (done + chunk) length next in
    if ltb done length then rest else ram

-- What vfs_write does once `offset` is settled.
unfoldable pub write_at : Vfs → File → ℕ → (ℕ → ℕ) → ℕ → Option ℕ × File × Vfs
write_at s f offset buffer length =
    let g = record f { offset = offset } in
    let end = add64 offset length in
    let size = (s.node f.node).size in
    let grown = if ltb size end then end else size in
    let (done, t) = ensure_pages s f.node grown in
    let v = t.node f.node in
    let ram = write_loop length v buffer offset 0 length t.ram in
    if ltb (sub64 file_max offset) length
    then (none, g, s)
    else if done
    then (
      some length,
      record g { offset = end },
      put (record t { ram = ram }) f.node
          (record v { size = if ltb v.size end then end else v.size }),
    )
    else (none, g, t)

unfoldable pub vfs_write : Vfs → File → (ℕ → ℕ) → ℕ → Option ℕ × File × Vfs
vfs_write s f buffer length =
    let offset = if bit f.flags append_flag then (s.node f.node).size else f.offset in
    if usable s f write_flag then write_at s f offset buffer length else (none, f, s)

-- The origin's base; `none` is the -1 of an origin that is not known.
unfoldable pub seek_base : Vfs → File → ℕ → Option ℕ
seek_base s f origin =
    if origin == 0
    then some 0
    else if origin == 1
    then some f.offset
    else if origin == 2
    then some (s.node f.node).size
    else none

-- `(uint64_t)(base + offset)` wraps.
unfoldable pub seek_from : File → ℕ → ℤ → Option (ℕ × File)
seek_from f base offset =
    let next = (base + pos_part offset + 2 ^ 64 - neg_part offset) % 2 ^ 64 in
    if ltb base (neg_part offset)
    then none
    else if ltb file_max next
    then none
    else some (next, record f { offset = next })

unfoldable pub vfs_seek : Vfs → File → ℤ → ℕ → Option (ℕ × File)
vfs_seek s f offset origin =
    if f.node != 0 && not (is_dir (s.node f.node).type)
    then elim (seek_base s f origin) [ none ↦ none | some base ↦ seek_from f base offset ]
    else none
