-- ===== src/Kernel/Vfs/Content/Read.antt =====
-- vfs_read: which bytes of the file it returns.
use narc_os.Common.{
  ℕ, zero, suc, ◌+◌, ◌-◌, ◌/◌, ◌%◌, ◌≤◌, ◌<◌, ◌≡◌, refl, sym, ap, ap₂, ◌∙◌, ◌≢◌, arith,
}
use narc_os.Common.{true, false, [], Option, none, some, ◌⊎◌, inl, inr, min}
use narc_os.Common.{ltb, leb, Bool-cases, ltb→lt, lt→ltb}
use mathlib.Core.List.{append-nil}
use native.Mathlib.Nat.{add-zero}
use narc_os.Common.Ranges.{bytes_from, bytes_from-append, bytes_from-congr}
use narc_os.Kernel.Vfs.State.{Vfs, Vnode, File, page_of, page_size}
use narc_os.Kernel.Vfs.Content.{
  usable, read_flag, clamp_length, chunk_at, source_of, read_loop, vfs_read,
}

-- The byte of a file at a position: of the archive, or at its place in its page.
abbrev pub content_of : Vfs → Vnode → Option ℕ → ℕ → ℕ
content_of s v (some base) p = s.tar_data (base + p)
content_of s v none p = s.ram (page_of v (p / page_size) + p % page_size)

abbrev pub content : Vfs → Vnode → ℕ → ℕ
content s v = content_of s v v.archive

-- The positions from which vfs_read finds the right bytes.
abbrev pub IsAligned : Vnode → ℕ → Type 0
IsAligned v p = (v.archive ≢ none) ⊎ (p % page_size ≡ 0)

module _ (s : Vfs) (v : Vnode) where
  source-content :
      (o : Option ℕ) (p c k : ℕ)
      → (o ≢ none) ⊎ (p % page_size ≡ 0)
      → c ≤ page_size - p % page_size
      → k < c
      → source_of s v o p (0 + k) ≡ content_of s v o (p + k)
  source-content none p c k (inl h) le lt = absurd (h refl)
  source-content none p c k (inr h) le lt =
      let q : (p + k) / page_size ≡ p / page_size = omega arith in
      let r : (p + k) % page_size ≡ 0 + k = omega arith in
      ap₂ (λ a b. s.ram (page_of v a + b)) (sym q) (sym r)
  source-content (some base) p c k h le lt = ap s.tar_data (omega arith)

  -- The next chunk starts at a page's start, unless all is read.
  next-IsAligned :
      (offset done length : ℕ)
      → done < length
      → IsAligned v (offset + done)
      → done + chunk_at (offset + done) (length - done) < length
      → IsAligned v (offset + (done + chunk_at (offset + done) (length - done)))
  next-IsAligned offset done length lt (inl h) more = inl h
  next-IsAligned offset done length lt (inr h) more = inr (ground arith)

  read_loop-content :
      (fuel offset done length : ℕ)
      → length ≤ fuel + done
      → (done < length → IsAligned v (offset + done))
      → read_loop fuel s v offset done length
        ≡ bytes_from (content s v) (offset + done) (length - done)
  unfolding read_loop bytes_from
  read_loop-content zero offset done length enough al =
      let e : length - done ≡ 0 = omega arith in rw e refl
  read_loop-content (suc fuel) offset done length enough al = elim (Bool-cases (ltb done length)) [
    | inr stop ↦ let e : length - done ≡ 0 = ground arith in rw (stop, e) refl
    | inl more ↦
        let lt = ltb→lt done length more in
        let p = offset + done in
        let c = chunk_at p (length - done) in
        let now =
          bytes_from-congr (source_of s v v.archive p) (content s v) 0 p c
            (λ k k_lt. source-content v.archive p c k (al lt) (ground arith) k_lt) in
        let later =
          read_loop-content fuel offset (done + c) length (ground arith)
            (next-IsAligned offset done length lt (al lt)) in
        let sum : c + (length - (done + c)) ≡ length - done = ground arith in
        rw (more, now, later)
          (bytes_from-append (content s v) p (offset + (done + c)) c (length - (done + c))
              (omega arith)
            ∙ ap (bytes_from (content s v) p) sum)
  ]

-- vfs_read on an open regular file whose contents are in the archive, or from the start of a page,
-- returns the bytes of the file from the offset on, as many as asked for and as there are before the
-- end, and moves the offset behind them.
pub vfs_read-content :
    (s : Vfs) (f : File) (length : ℕ)
    → usable s f read_flag ≡ true
    → IsAligned (s.node f.node) f.offset
    → let v = s.node f.node in
      let n = min length (v.size - f.offset) in
      vfs_read s f length
      ≡ some (bytes_from (content s v) f.offset n, record f { offset = f.offset + n })
unfolding vfs_read bytes_from
vfs_read-content s f length readable al =
    let v = s.node f.node in
    let n = clamp_length (v.size - f.offset) length in
    let same : n - 0 ≡ n = omega arith in
    let whole : read_loop n s v f.offset 0 n ≡ bytes_from (content s v) f.offset n =
      read_loop-content s v n f.offset 0 n (omega arith) (λ _. start f.offset al)
      ∙ ap₂ (bytes_from (content s v)) (add-zero f.offset) same in
    let clamp : n ≡ min length (v.size - f.offset) = ground arith in
    elim (Bool-cases (leb v.size f.offset)) [
      | inl past ↦
          let none_left : min length (v.size - f.offset) ≡ 0 = ground arith in
          rw (readable, past, none_left, add-zero) refl
      | inr more ↦ rw (readable, more, whole, clamp) refl
    ]
  where
    start : (offset : ℕ) → IsAligned (s.node f.node) offset → IsAligned (s.node f.node) (offset + 0)
    start offset h = rw add-zero h

module _ (s : Vfs) (v : Vnode) where
  read_loop_end :
      (fuel offset done length : ℕ) → length ≤ done → read_loop fuel s v offset done length ≡ []
  unfolding read_loop
  read_loop_end zero offset done length h = refl
  read_loop_end (suc fuel) offset done length h = ground arith

  source_start :
      (o : Option ℕ) (p q c k : ℕ)
      → o ≡ none
      → q ≡ p
      → c ≤ page_size - p % page_size
      → k < c
      → source_of s v o q (0 + k) ≡ content_of s v o (p - p % page_size + k)
  source_start none p q c k h e le lt =
      let a : (p - p % page_size + k) / page_size ≡ q / page_size = omega arith in
      let b : (p - p % page_size + k) % page_size ≡ 0 + k = omega arith in
      ap₂ (λ x y. s.ram (page_of v x + y)) (sym a) (sym b)
  source_start (some base) p q c k h e le lt = cc

  read_loop_unaligned :
      (n offset : ℕ)
      → v.archive ≡ none
      → 0 < n
      → offset % page_size + n ≤ page_size
      → read_loop n s v offset 0 n ≡ bytes_from (content s v) (offset - offset % page_size) n
  unfolding read_loop
  read_loop_unaligned zero offset paged pos within = absurd (omega arith)
  read_loop_unaligned (suc n) offset paged pos within =
      let c = chunk_at (offset + 0) (suc n - 0) in
      let all : c ≡ suc n = ground arith in
      let first =
        bytes_from-congr (source_of s v v.archive (offset + 0)) (content s v) 0
          (offset - offset % page_size) (suc n)
          (λ k lt.
            source_start v.archive offset (offset + 0) (suc n) k paged (omega arith) (omega arith)
              lt) in
      let last = read_loop_end n offset (0 + c) (suc n) (omega arith) in
      rw (lt→ltb 0 (suc n) pos, last, append-nil, all) first

-- The same, from the middle of a page that is not in the archive, and within that page: vfs_read
-- returns the bytes from the start of the page.
pub vfs_read_unaligned :
    (s : Vfs) (f : File) (length : ℕ)
    → usable s f read_flag ≡ true
    → (s.node f.node).archive ≡ none
    → 0 < length
    → f.offset + length ≤ (s.node f.node).size
    → f.offset % page_size + length ≤ page_size
    → vfs_read s f length
      ≡ some (
        bytes_from (content s (s.node f.node)) (f.offset - f.offset % page_size) length,
        record f { offset = f.offset + length },
      )
unfolding vfs_read
vfs_read_unaligned s f length readable paged pos fits within =
    let v = s.node f.node in
    let clamp : clamp_length (v.size - f.offset) length ≡ length = ground arith in
    let more : leb v.size f.offset ≡ false = ground arith in
    rw (readable, more, clamp, read_loop_unaligned s v length f.offset paged pos within) refl
