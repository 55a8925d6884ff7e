-- ===== src/Kernel/Vfs/Tree/WellFormed.antt =====
-- The invariant of the vnodes: the links up and down agree, and lead to allocated vnodes only.
use narc_os.Common.{ℕ, ◌≡◌, ◌≢◌, true, false, has}
use narc_os.Kernel.Vfs.State.{Vfs, is_dir}
use narc_os.Kernel.Vfs.Tree.Siblings.{Distinct}

pub record IsWellFormed (s : Vfs) : Type 0 where
  pub root_live : s.live s.root ≡ true
  pub null_dead : s.live 0 ≡ false
  pub root_top : (s.node s.root).parent ≡ 0
  pub root_dir : is_dir (s.node s.root).type ≡ true
  pub child_live : (q c : ℕ) → s.live q ≡ true → has c (s.node q).children ≡ true → s.live c ≡ true
  pub child_up :
      (q c : ℕ) → s.live q ≡ true → has c (s.node q).children ≡ true → (s.node c).parent ≡ q
  pub up_live : (q : ℕ) → s.live q ≡ true → (s.node q).parent ≢ 0 → s.live (s.node q).parent ≡ true
  pub up_lists :
      (q : ℕ)
      → s.live q ≡ true
      → (s.node q).parent ≢ 0
      → has q (s.node (s.node q).parent).children ≡ true
  pub distinct : (q : ℕ) → s.live q ≡ true → Distinct (s.node q).children
