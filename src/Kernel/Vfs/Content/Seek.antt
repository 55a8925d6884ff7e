-- ===== src/Kernel/Vfs/Content/Seek.antt =====
-- vfs_seek: which positions it accepts.
use narc_os.Common.{ℕ, ◌+◌, ◌^◌, ◌≤◌, ◌<◌, ◌≡◌, sym, ◌∙◌, ◌≢◌, ◌↔◌, ◌⊎◌, inl, inr, arith}
use narc_os.Common.{none, some}
use narc_os.Common.Int.{ℤ, pos_part, neg_part}
use narc_os.Kernel.Vfs.State.{Vfs, File, reg, file_max}
use narc_os.Kernel.Vfs.Content.{vfs_seek, seek_base, seek_from}

-- An offset that an int64_t holds.
abbrev pub IsInt64 : ℤ → Type 0
IsInt64 z = (pos_part z < 2 ^ 63) × (neg_part z ≤ 2 ^ 63)

module _ (f : File) (base : ℕ) (offset : ℤ) (small : base ≤ file_max) (range : IsInt64 offset) where
  seek_from-some :
      (n : ℕ) (g : File)
      → seek_from f base offset ≡ some (n, g)
      → (n + neg_part offset ≡ base + pos_part offset)
        × (n ≤ file_max)
        × (g ≡ record f { offset = n })
  unfolding seek_from
  seek_from-some n g = ground arith

  some-seek_from :
      (n : ℕ) (g : File)
      → (n + neg_part offset ≡ base + pos_part offset)
        × (n ≤ file_max)
        × (g ≡ record f { offset = n })
      → seek_from f base offset ≡ some (n, g)
  unfolding seek_from
  some-seek_from n g = ground arith

module _ (s : Vfs) (f : File) (offset : ℤ) (origin : ℕ) (open_file : f.node ≢ 0)
    (regular : (s.node f.node).type ≡ reg) where
  vfs_seek-eq :
      vfs_seek s f offset origin
      ≡ (elim (seek_base s f origin) [ none ↦ none | some base ↦ seek_from f base offset ])
  unfolding vfs_seek
  vfs_seek-eq = ground arith

-- On an open regular file whose offset and size are within the file limit, vfs_seek accepts a known
-- origin exactly if the signed sum of the origin's position and the offset lies between 0 and the
-- limit; it then returns that sum, and only the file's offset changes, to it.
pub vfs_seek_iff :
    (s : Vfs) (f : File) (offset : ℤ) (origin base n : ℕ) (g : File)
    → f.node ≢ 0
    → (s.node f.node).type ≡ reg
    → f.offset ≤ file_max
    → (s.node f.node).size ≤ file_max
    → IsInt64 offset
    → ((origin ≡ 0) × (base ≡ 0))
      ⊎ (((origin ≡ 1) × (base ≡ f.offset)) ⊎ ((origin ≡ 2) × (base ≡ (s.node f.node).size)))
    → (vfs_seek s f offset origin ≡ some (n, g)) ↔ (
        (n + neg_part offset ≡ base + pos_part offset)
        × (n ≤ file_max)
        × (g ≡ record f { offset = n }))
unfolding seek_base
vfs_seek_iff s f offset origin base n g open_file regular small fits range known =
    let from = base_of known in
    let low = within known in
    let eq = vfs_seek-eq s f offset origin open_file regular ∙ rw from in
    (
      λ h. seek_from-some f base offset low range n g (sym eq ∙ h),
      λ h. eq ∙ some-seek_from f base offset low range n g h,
    )
  where
    base_of :
        ((origin ≡ 0) × (base ≡ 0))
          ⊎ (((origin ≡ 1) × (base ≡ f.offset)) ⊎ ((origin ≡ 2) × (base ≡ (s.node f.node).size)))
        → seek_base s f origin ≡ some base
    base_of (inl (e, b)) = ground arith
    base_of (inr (inl (e, b))) = ground arith
    base_of (inr (inr (e, b))) = ground arith

    within :
        ((origin ≡ 0) × (base ≡ 0))
          ⊎ (((origin ≡ 1) × (base ≡ f.offset)) ⊎ ((origin ≡ 2) × (base ≡ (s.node f.node).size)))
        → base ≤ file_max
    within h = ground arith
