-- ===== src/Kernel/Vfs/Tree/Edit.antt =====
-- attach, detach, new_node and the removal of a vnode keep the invariant.
use narc_os.Common.{ℕ, ◌≡◌, ◌≢◌, arith, true, false, []}
use narc_os.Common.{◌==◌, if◌then◌else◌, has}
use narc_os.Kernel.Vfs.State.{Vfs, Vnode, put, set_live}
use narc_os.Kernel.Vfs.Nodes.{attach, detach, create}
use narc_os.Kernel.Vfs.Tree.Siblings.{has-append_one, Distinct-append_one, has-unlist}
use narc_os.Kernel.Vfs.Tree.Siblings.{Distinct-unlist}
use narc_os.Kernel.Vfs.Tree.WellFormed.{IsWellFormed}

-- A vnode without a parent is nobody's child.
pub not_child :
    {s : Vfs} (p q : ℕ)
    → IsWellFormed s
    → (s.node p).parent ≡ 0
    → s.live q ≡ true
    → has p (s.node q).children ≡ false
not_child {s} p q w top here =
    ground (arith, IsWellFormed.child_up w q p here, IsWellFormed.null_dead w)

module _ {s : Vfs} (d p : ℕ) (w : IsWellFormed s) (d_live : s.live d ≡ true)
    (p_live : s.live p ≡ true) (top : (s.node p).parent ≡ 0) (p_ne_root : p ≢ s.root) where
  open w use {
    root_live, null_dead, root_top, root_dir, child_live, child_up, up_live, up_lists, distinct,
  }

  pub attach-IsWellFormed : IsWellFormed (attach s d p)
  unfolding attach
  attach-IsWellFormed = record {
    root_live = root_live;
    null_dead = null_dead;
    root_top = ground arith;
    root_dir = ground arith;
    child_live =
        λ q c hq hc. ground (arith, child_live q c hq, has-append_one c p (s.node d).children);
    child_up = λ q c hq hc.
        ground
          (arith, child_up q c hq, has-append_one c p (s.node d).children, not_child p q w top hq);
    up_live = λ q hq h. ground (arith, up_live q hq);
    up_lists = λ q hq h. ground (arith, up_lists q hq, has-append_one q p (s.node d).children);
    distinct = λ q hq.
        ground
          (arith, distinct q hq, Distinct-append_one p (s.node d).children, not_child p q w top hq);
  }

module _ {s : Vfs} (p : ℕ) (w : IsWellFormed s) (p_live : s.live p ≡ true)
    (below : (s.node p).parent ≢ 0) where
  open w use {
    root_live, null_dead, root_top, root_dir, child_live, child_up, up_live, up_lists, distinct,
  }

  -- Every other vnode's list keeps its members, and none holds `p`.
  detach-has :
      (q c : ℕ)
      → s.live q ≡ true
      → has c ((detach s p).node q).children ≡ (if c == p then false else has c (s.node q).children)
  unfolding detach
  detach-has q c hq =
      ground (arith, has-unlist c p (s.node q).children (distinct q hq), child_up q p hq)

  pub detach-IsWellFormed : IsWellFormed (detach s p)
  unfolding detach
  detach-IsWellFormed = record {
    root_live = root_live;
    null_dead = null_dead;
    root_top = ground arith;
    root_dir = ground arith;
    child_live = λ q c hq hc. ground (arith, child_live q c hq, detach-has q c hq);
    child_up = λ q c hq hc. ground (arith, child_up q c hq, detach-has q c hq);
    up_live = λ q hq h. ground (arith, up_live q hq);
    up_lists =
        λ q hq h. ground (arith, up_lists q hq, up_live q hq, detach-has (s.node q).parent q);
    distinct = λ q hq. ground (arith, distinct q hq, Distinct-unlist p (s.node q).children);
  }

-- Fields other than the links and the type are free.
module _ {s : Vfs} (p : ℕ) (v : Vnode) (w : IsWellFormed s) (same_up : v.parent ≡ (s.node p).parent)
    (same_children : v.children ≡ (s.node p).children) (same_kind : v.type ≡ (s.node p).type) where
  open w use {
    root_live, null_dead, root_top, root_dir, child_live, child_up, up_live, up_lists, distinct,
  }

  pub put-IsWellFormed : IsWellFormed (put s p v)
  put-IsWellFormed = record {
    root_live = root_live;
    null_dead = null_dead;
    root_top = ground arith;
    root_dir = ground arith;
    child_live = λ q c hq hc. ground (arith, child_live q c hq);
    child_up = λ q c hq hc. ground (arith, child_up q c hq);
    up_live = λ q hq h. ground (arith, up_live q hq);
    up_lists = λ q hq h. ground (arith, up_lists q hq);
    distinct = λ q hq. ground (arith, distinct q hq);
  }

-- A vnode with neither parent nor children can be given up.
module _ {s : Vfs} (p : ℕ) (w : IsWellFormed s) (top : (s.node p).parent ≡ 0)
    (p_ne_root : p ≢ s.root) (childless : (s.node p).children ≡ []) where
  open w use {
    root_live, null_dead, root_top, root_dir, child_live, child_up, up_live, up_lists, distinct,
  }

  pub kill-IsWellFormed : IsWellFormed (set_live s p false)
  unfolding has
  kill-IsWellFormed = record {
    root_live = ground arith;
    null_dead = ground arith;
    root_top = root_top;
    root_dir = root_dir;
    child_live = λ q c hq hc. ground (arith, child_live q c, not_child p q w top);
    child_up = λ q c hq hc. ground (arith, child_up q c);
    up_live = λ q hq h. ground (arith, up_live q, up_lists q);
    up_lists = λ q hq h. ground (arith, up_lists q);
    distinct = λ q hq. ground (arith, distinct q);
  }

-- A vnode that was not allocated, with no links, can be brought in.
module _ {s : Vfs} (p : ℕ) (v : Vnode) (w : IsWellFormed s) (p_ne_null : p ≢ 0)
    (p_dead : s.live p ≡ false) (no_parent : v.parent ≡ 0) (childless : v.children ≡ []) where
  open w use {
    root_live, null_dead, root_top, root_dir, child_live, child_up, up_live, up_lists, distinct,
  }

  pub bring-IsWellFormed : IsWellFormed (create s p v)
  unfolding has
  bring-IsWellFormed = record {
    root_live = ground arith;
    null_dead = ground arith;
    root_top = ground arith;
    root_dir = ground arith;
    child_live = λ q c hq hc. ground (arith, child_live q c);
    child_up = λ q c hq hc. ground (arith, child_up q c, child_live q c);
    up_live = λ q hq h. ground (arith, up_live q);
    up_lists = λ q hq h. ground (arith, up_lists q, up_live q);
    distinct = λ q hq. ground (arith, distinct q);
  }
