-- ===== src/Kernel/Paging/Grow.antt =====
-- kernel/mm/mm.c on x86-64: the invariant of the page tables, and a new table among them.
use narc_os.Common.{ℕ, ◌+◌, ◌-◌, ◌*◌, ◌%◌, ◌<◌, ◌≡◌, ◌≢◌, refl, ap, ◌∙◌, arith}
use narc_os.Common.{true, false, List, ◌∷◌, ◌==◌, if◌then◌else◌}
use narc_os.Common.{inl, inr, Bool-cases, has, ==_refl, ==_ne}
use narc_os.Kernel.Pages.{Pages, page, put_word, clear_page}
use narc_os.Kernel.Pages.Empty.{IsLow, put_word-HasPages}
use narc_os.Kernel.Pages.Fresh.{HasPages}
use narc_os.Kernel.Paging.{Paging, address, slot, word_of, put}
use narc_os.Kernel.Paging.Walk.{leads, value, HasTables, Down}
use narc_os.Kernel.Paging.Frame.{linked_old, linked_new}
use narc_os.Kernel.Paging.Frame.{value-linked, HasTables-linked, slot_eq}

-- The tables are in use, and form a tree.
pub record IsMapped (k : Paging) (role prefix : ℕ → ℕ) (free used : List ℕ) : Type 0 where
  pub tables : HasTables (word_of k) role prefix
  pub pages : HasPages k.pages free used
  pub low : IsLow k.pages
  pub in_use : (t : ℕ) → role t ≢ 0 → has t used ≡ true

-- The state after part of a walk from a table with role `s`: there may be new tables below it.
pub record Later (s : ℕ) (k l : Paging) (role prefix role' prefix' : ℕ → ℕ) (free used : List ℕ)
    : Type 0 where
  pub mapped : IsMapped l role' prefix' free used
  pub keeps : (q : ℕ) → role q ≢ 0 → (role' q ≡ role q) × (prefix' q ≡ prefix q)
  pub same :
      (r : List ℕ) (t v : ℕ) → Down r (role t) → value (word_of l) r t v ≡ value (word_of k) r t v
  pub above : (q j : ℕ) → j < 512 → s < role q → word_of l (slot q j) ≡ word_of k (slot q j)

pub Later-refl :
    (s : ℕ) (k : Paging) (role prefix : ℕ → ℕ) (free used : List ℕ)
    → IsMapped k role prefix free used
    → Later s k k role prefix role prefix free used
Later-refl s k role prefix free used g = record {
  mapped = g;
  keeps = λ q h. (refl, refl);
  same = λ r t v d. refl;
  above = λ q j h d. refl;
}

no_role :
    (k : Paging) (role prefix : ℕ → ℕ) (free used : List ℕ) (p : ℕ)
    → IsMapped k role prefix free used
    → has p used ≡ false
    → role p ≡ 0
no_role k role prefix free used p g unused = elim (Bool-cases (role p == 0)) [
  | inl none_yet ↦ ground (arith, none_yet)
  | inr some_role ↦
      let there = g.in_use p (ground (arith, some_role)) in absurd (ground (arith, there, unused))
]

has_cons : (q p : ℕ) (l : List ℕ) → has q l ≡ true → has q (p ∷ l) ≡ true
unfolding has
has_cons q p l h = ground (arith, h)

pub has_first : (p : ℕ) (l : List ℕ) → has p (p ∷ l) ≡ true
unfolding has
has_first p l = ground arith

module _ (s : ℕ) (k : Paging) (role prefix : ℕ → ℕ) (before free used : List ℕ) (t i v0 p : ℕ)
    (m : Pages) (g : IsMapped k role prefix before used) (rs : role t ≡ s) (deep : 12 < s)
    (hi : i < 512) (nowhere : leads (word_of k (slot t i)) ≡ false) (unused : has p used ≡ false)
    (pages : HasPages m free (p ∷ used)) (low : IsLow m)
    (words : m.word ≡ clear_page k.pages.word p) (leads_on : leads v0 ≡ true)
    (to_p : address v0 ≡ p) where
  grown : Paging
  grown = put (record k { pages = m }) (slot t i) v0

  some_role : role t ≢ 0
  some_role = omega (arith, rs, deep)

  not_yet : role p ≡ 0
  not_yet = no_role k role prefix before used p g unused

  unit : p % page ≡ 0
  unit = (pages.known p (inr (has_first p used))).1

  old :
      (u j : ℕ)
      → role u ≢ 0
      → j < 512
      → put_word m.word (slot t i) v0 (slot u j)
        ≡ (if slot u j == slot t i then v0 else word_of k (slot u j))
  old u j ru hj =
      ap (λ f. put_word f (slot t i) v0 (slot u j)) words
      ∙ linked_old (word_of k) role prefix p (slot t i) v0 u j g.tables not_yet unit ru hj

  new : (j : ℕ) → j < 512 → put_word m.word (slot t i) v0 (slot p j) ≡ 0
  new j hj =
      ap (λ f. put_word f (slot t i) v0 (slot p j)) words
      ∙ linked_new (word_of k) role prefix p t i v0 j g.tables not_yet unit some_role hi hj

  tables :
      HasTables
        (put_word m.word (slot t i) v0)
        (put_word role p (role t - 9))
        (put_word prefix p (prefix t * 512 + i))
  tables =
      HasTables-linked (word_of k) (put_word m.word (slot t i) v0) role prefix t i p v0 g.tables
        (omega (arith, rs, deep)) hi nowhere not_yet unit leads_on to_p old new

  pub grown-IsMapped :
      IsMapped
        (put (record k { pages = m }) (slot t i) v0)
        (put_word role p (role t - 9))
        (put_word prefix p (prefix t * 512 + i))
        free
        (p ∷ used)
  grown-IsMapped = record {
    tables = tables;
    pages =
        put_word-HasPages m free (p ∷ used) t i v0 pages (has_cons t p used (g.in_use t some_role))
          hi;
    low = low;
    in_use = λ q h. elim (Bool-cases (q == p)) [
      | inl is_new ↦ let e : q ≡ p = ground arith in rw e (has_first p used)
      | inr other ↦ has_cons q p used (g.in_use q (rw other at h))
    ];
  }

  pub grown-Later :
      Later s k
        (put (record k { pages = m }) (slot t i) v0)
        role
        prefix
        (put_word role p (role t - 9))
        (put_word prefix p (prefix t * 512 + i))
        free
        (p ∷ used)
  grown-Later = record {
    mapped = grown-IsMapped;
    keeps = λ q h.
        let other : (q == p) ≡ false = ==_ne q p (λ e. h (ap role e ∙ not_yet)) in
        rw other (refl, refl);
    same = λ r u x d.
        value-linked (word_of k) (put_word m.word (slot t i) v0) role prefix t i p v0 g.tables
          (omega (arith, rs, deep)) hi nowhere not_yet unit leads_on to_p old new r u x d;
    above = λ q j h d.
        let rq : role q ≢ 0 = omega (arith, d) in
        let apart : (slot q j == slot t i) ≡ false = ==_ne (slot q j) (slot t i) λ e.
          let (a, b) =
            slot_eq q t j i (g.tables.aligned q rq) (g.tables.aligned t some_role) h hi e in
          absurd (omega (arith, rs, d, ap role a)) in
        old q j rq h ∙ rw apart refl;
  }

  pub grown_place :
      (put_word role p (role t - 9) p + 9 ≡ s)
      × (put_word prefix p (prefix t * 512 + i) p ≡ prefix t * 512 + i)
      × (put_word m.word (slot t i) v0 (slot t i) ≡ v0)
  grown_place = rw (==_refl p, ==_refl (slot t i)) (omega (arith, rs, deep), refl, refl)
