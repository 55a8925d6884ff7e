-- ===== src/Kernel/Vfs/Content/Write.antt =====
-- vfs_write: which bytes of the memory change.
use narc_os.Common.{ℕ, zero, suc, ◌+◌, ◌-◌, ◌*◌, ◌/◌, ◌%◌, ◌≤◌, ◌<◌, ◌≡◌, refl, ap, ◌≢◌, arith}
use narc_os.Common.{true, none, some, ◌⊎◌, inl, inr, ◌&&◌}
use narc_os.Common.{◌==◌, ltb, leb, if◌then◌else◌, Bool-cases, ltb→lt, bit}
use Prim.Native.Nat.{max}
use narc_os.Kernel.String.{Memory, memcpy, memcpy_at, inside}
use narc_os.Kernel.Vfs.State.{Vfs, Vnode, File, page_of, page_size, file_max, put}
use narc_os.Kernel.Vfs.Content.{
  chunk_at, write_loop, fill_pages, ensure_pages, write_at, vfs_write, usable,
}
use narc_os.Kernel.Vfs.Content.{write_flag, append_flag}
use narc_os.Kernel.Vfs.Content.Read.{content}

-- The pages with indices below `n` do not overlap.
abbrev pub IsSeparate : Vnode → ℕ → Type 0
IsSeparate v n =
    (i j : ℕ)
    → i < n
    → j < n
    → i ≢ j
    → (page_of v i + page_size ≤ page_of v j) ⊎ (page_of v j + page_size ≤ page_of v i)

-- Where the byte at a position of the file lies.
abbrev pub place : Vnode → ℕ → ℕ
place v p = page_of v (p / page_size) + p % page_size

place-sub :
    (v : Vnode) (p q c : ℕ)
    → c ≤ page_size - p % page_size
    → p ≤ q
    → q < p + c
    → place v q - place v p ≡ q - p
place-sub v p q c le low high =
    let e : q / page_size ≡ p / page_size = omega arith in
    let f : page_of v (q / page_size) ≡ page_of v (p / page_size) = ap (page_of v) e in
    omega (arith, f)

module _ (v : Vnode) (n : ℕ) (apart : IsSeparate v n) where
  -- A chunk within one page covers the places of its positions, and no other position's.
  inside-place :
      (p q c : ℕ)
      → p / page_size < n
      → q / page_size < n
      → c ≤ page_size - p % page_size
      → inside (place v p) c (place v q) ≡ (leb p q && ltb q (p + c))
  inside-place p q c hp hq le = elim (Bool-cases (p / page_size == q / page_size)) [
    | inl same ↦
        let e : q / page_size ≡ p / page_size = ground arith in
        let f : page_of v (q / page_size) ≡ page_of v (p / page_size) = ap (page_of v) e in
        ground (arith, f)
    | inr other ↦ ground (arith, apart (p / page_size) (q / page_size))
  ]

  -- The loop of vfs_write puts the buffer's bytes at the places of the positions written, and leaves
  -- the places of all other positions of the file alone.
  pub write_loop_at :
      (fuel : ℕ) (buffer : ℕ → ℕ) (offset done length : ℕ) (ram : Memory) (q : ℕ)
      → length ≤ fuel + done
      → offset + length ≤ n * page_size
      → q < n * page_size
      → write_loop fuel v buffer offset done length ram (place v q) ≡ (
          if leb (offset + done) q && ltb q (offset + length)
          then buffer (q - offset)
          else ram (place v q))
  unfolding write_loop
  write_loop_at zero buffer offset done length ram q enough fits hq = ground arith
  write_loop_at (suc fuel) buffer offset done length ram q enough fits hq =
      elim (Bool-cases (ltb done length)) [
        | inr stop ↦ ground (arith, stop)
        | inl more ↦
            let lt = ltb→lt done length more in
            let p = offset + done in
            let c = chunk_at p (length - done) in
            let next = memcpy ram (place v p) (λ i. buffer (done + i)) c in
            let here = memcpy_at ram (place v p) (λ i. buffer (done + i)) c (place v q) in
            let covers = inside-place p q c (omega arith) (omega arith) (ground arith) in
            let rest =
              write_loop_at fuel buffer offset (done + c) length next q (ground arith) fits hq in
            ground (arith, more, rest, here, covers, place-sub v p q c)
      ]

-- No page is asked for where all are there.
fill_pages_full :
    (n i : ℕ) (s : Vfs) (p : ℕ)
    → ((j : ℕ) → i ≤ j → j < i + n → page_of (s.node p) j ≢ 0)
    → fill_pages n i s p ≡ (true, s)
unfolding fill_pages
fill_pages_full zero i s p h = refl
fill_pages_full (suc n) i s p h =
    ground (arith, h i, fill_pages_full n (i + 1) s p (λ j a b. h j (omega arith) (omega arith)))

-- How many pages hold so many bytes, and the size behind a write.
abbrev pub page_count : ℕ → ℕ
page_count size = (size + page_size - 1) / page_size

-- Where a write starts: at the file's offset, or at its end if it was opened for appending.
abbrev pub start_of : Vfs → File → ℕ
start_of s f = if bit f.flags append_flag then (s.node f.node).size else f.offset

abbrev pub end_of : Vfs → File → ℕ → ℕ
end_of s f length = max (s.node f.node).size (start_of s f + length)

-- What a write needs: an open regular file whose contents have left the archive, room below the limit,
-- and all pages up to the new end, none of which overlap.
pub record IsWritable (s : Vfs) (f : File) (length : ℕ) : Type 0 where
  pub opened : usable s f write_flag ≡ true
  pub paged : (s.node f.node).archive ≡ none
  pub fits : start_of s f + length ≤ file_max
  pub small : (s.node f.node).size ≤ file_max
  pub present :
      (j : ℕ)
      → (j * page_size < start_of s f + length) ⊎ (j * page_size < (s.node f.node).size)
      → page_of (s.node f.node) j ≢ 0
  pub apart : IsSeparate (s.node f.node) (page_count (end_of s f length))

module _ (s : Vfs) (f : File) (buffer : ℕ → ℕ) (length : ℕ) (w : IsWritable s f length) where
  ensure_pages_full :
      (end : ℕ)
      → (end ≡ start_of s f + length) ⊎ (end ≡ (s.node f.node).size)
      → ensure_pages s f.node end ≡ (true, s)
  unfolding ensure_pages
  ensure_pages_full end h =
      let full =
        fill_pages_full ((end + page_size - 1) / page_size) 0 s f.node
          (λ j a b. w.present j (ground arith)) in
      ground (arith, full, w.fits, w.small, w.paged)

  written_ram : Memory
  written_ram = write_loop length (s.node f.node) buffer (start_of s f) 0 length s.ram

  written : Vfs
  unfolding written_ram
  written =
      let v = s.node f.node in
      let end = start_of s f + length in
      put (record s { ram = written_ram }) f.node
        (record v { size = if ltb v.size end then end else v.size })

  vfs_write-eq :
      vfs_write s f buffer length
      ≡ (some length, record f { offset = start_of s f + length }, written)
  unfolding vfs_write write_at written
  vfs_write-eq = ground (
    arith,
    w.opened,
    w.fits,
    ensure_pages_full (start_of s f + length) (inl refl),
    ensure_pages_full (s.node f.node).size (inr refl),
  )

-- Where the file is open for writing and regular, its contents have left the archive, it and the write
-- end below the limit, and all pages up to there are present and do not overlap, vfs_write writes the whole
-- buffer, from the file's offset, or from its end if it was opened for appending. It returns the
-- length, moves the offset behind the bytes written and the size no less far. Of the bytes up to the
-- new end those from the start of the write to the new offset are the buffer's, and the others are as
-- they were.
pub vfs_write-content :
    (s : Vfs) (f : File) (buffer : ℕ → ℕ) (length q : ℕ)
    → IsWritable s f length
    → q < end_of s f length
    → let (count, g, t) = vfs_write s f buffer length in
      (count ≡ some length)
      × (g ≡ record f { offset = start_of s f + length })
      × ((t.node f.node).size ≡ end_of s f length)
      × (content t (t.node f.node) q ≡ (
          if leb (start_of s f) q && ltb q (start_of s f + length)
          then buffer (q - start_of s f)
          else content s (s.node f.node) q))
unfolding written written_ram
vfs_write-content s f buffer length q w small =
    let v = s.node f.node in
    let bytes =
      write_loop_at v (page_count (end_of s f length)) w.apart length buffer (start_of s f) 0 length
        s.ram q (omega arith) (ground arith) (ground arith) in
    rw (vfs_write-eq s f buffer length w) (refl, refl, ground arith, ground (arith, bytes, w.paged))
