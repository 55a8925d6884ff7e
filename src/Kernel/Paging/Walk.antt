-- ===== src/Kernel/Paging/Walk.antt =====
-- Walks through the page tables that change nothing, and the tree that the tables form.
use narc_os.Common.{ℕ, ◌+◌, ◌-◌, ◌*◌, ◌/◌, ◌%◌, ◌^◌, ◌<◌, ◌≡◌, ◌≢◌, refl, ap, ◌∙◌, arith}
use narc_os.Common.{Bool, true, false, ◌&&◌, not, Option, none, some, List, [], ◌∷◌, if◌then◌else◌}
use narc_os.Common.{◌⊎◌, inl, inr, Bool-cases}
use narc_os.Kernel.Pages.{page}
use narc_os.Kernel.Paging.{
  Paging, present, huge, address, slot, index_at, word_of, next_table, walk_tables,
}
use narc_os.Kernel.Paging.{entry_in, get_pte, pte_value, shifts}

abbrev pub leads : ℕ → Bool
leads e = present e && not (huge e)

-- The table that a walk ends at.
unfoldable pub find : List ℕ → (ℕ → ℕ) → (table virt : ℕ) → Option ℕ
find [] word t v = some t
find (s ∷ r) word t v =
    let e = word (slot t (index_at v s)) in if leads e then find r word (address e) v else none

abbrev pub read_at : (ℕ → ℕ) → ℕ → Option ℕ → ℕ
read_at word v none = 0
read_at word v (some pt) = word (slot pt (index_at v 12))

-- The value of the entry that a walk ends at, 0 if it does not get there.
abbrev pub value : (ℕ → ℕ) → List ℕ → (table virt : ℕ) → ℕ
value word r t v = read_at word v (find r word t v)

walk_tables-find :
    (r : List ℕ) (k : Paging) (t v : ℕ)
    → walk_tables r k t v false false ≡ (find r (word_of k) t v, k)
unfolding walk_tables find next_table
walk_tables-find [] k t v = refl
walk_tables-find (s ∷ r) k t v =
    ground (arith, walk_tables-find r k (address (word_of k (slot t (index_at v s)))) v)

pub pte_value-value :
    (k : Paging) (space v : ℕ) → pte_value k space v ≡ value (word_of k) shifts space v
unfolding pte_value get_pte
pte_value-value k space v =
    ap (λ o. at_entry (entry_in v o).0) (walk_tables-find shifts k space v)
    ∙ by_found (find shifts (word_of k) space v)
  where
    at_entry : Option ℕ → ℕ
    at_entry o = elim o [ none ↦ 0 | some at ↦ word_of k at ]

    by_found : (o : Option ℕ) → at_entry (entry_in v (o, k)).0 ≡ read_at (word_of k) v o
    by_found none = refl
    by_found (some pt) = refl

-- `role t` is the shift at which table `t` is indexed, 0 for what is no table, and `prefix t` what the
-- addresses that lead to it have above its index: so no table has two entries that lead to it.
pub record HasTables (word role prefix : ℕ → ℕ) : Type 0 where
  pub aligned : (t : ℕ) → role t ≢ 0 → t % page ≡ 0
  pub child :
      (t i : ℕ)
      → i < 512
      → 12 < role t
      → leads (word (slot t i)) ≡ true
      → (role (address (word (slot t i))) + 9 ≡ role t)
        × (prefix (address (word (slot t i))) ≡ prefix t * 512 + i)

abbrev pub IsShift : ℕ → Type 0
IsShift s = (s ≡ 39) ⊎ (s ≡ 30) ⊎ (s ≡ 21)

-- The shifts of a walk from a table with that role.
abbrev pub Down : List ℕ → ℕ → Type 0
Down [] s = s ≡ 12
Down (x ∷ r) s = (s ≡ x) × IsShift x × Down r (x - 9)

pub above_twelve : (s : ℕ) → IsShift s → 12 < s
above_twelve s (inl e) = omega arith
above_twelve s (inr (inl e)) = omega arith
above_twelve s (inr (inr e)) = omega arith

pub Down-ne-zero : (r : List ℕ) (s : ℕ) → Down r s → s ≢ 0
Down-ne-zero [] s d = omega arith
Down-ne-zero (x ∷ r) s d = omega (arith, d.0, above_twelve x d.1)

-- What an address has above its index at a shift.
abbrev pub upper : ℕ → ℕ → ℕ
upper v s = v / 2 ^ (s + 9)

pub upper_step : (v s : ℕ) → IsShift s → upper v s * 512 + index_at v s ≡ upper v (s - 9)
upper_step v s (inl e) = rw e (omega arith)
upper_step v s (inr (inl e)) = rw e (omega arith)
upper_step v s (inr (inr e)) = rw e (omega arith)

-- Addresses in one table's range have the same indices above.
same_index : (v v' s : ℕ) → IsShift s → v / 2 ^ 21 ≡ v' / 2 ^ 21 → index_at v s ≡ index_at v' s
same_index v v' s (inl e) h = rw e (omega (arith, h))
same_index v v' s (inr (inl e)) h = rw e (omega (arith, h))
same_index v v' s (inr (inr e)) h = rw e (omega (arith, h))

pub find_congr :
    (r : List ℕ) (word : ℕ → ℕ) (s t v v' : ℕ)
    → Down r s
    → v / 2 ^ 21 ≡ v' / 2 ^ 21
    → find r word t v ≡ find r word t v'
unfolding find
find_congr [] word s t v v' d h = refl
find_congr (x ∷ r) word s t v v' d h =
    let same = same_index v v' x d.1 h in
    rw (same, find_congr r word (x - 9) (address (word (slot t (index_at v' x)))) v v' d.2 h) refl

-- The table that a walk ends at is one for the last index, of the addresses with that prefix.
pub find_role :
    (r : List ℕ) (word role prefix : ℕ → ℕ) (t v pt : ℕ)
    → HasTables word role prefix
    → Down r (role t)
    → prefix t ≡ upper v (role t)
    → find r word t v ≡ some pt
    → (role pt ≡ 12) × (prefix pt ≡ v / 2 ^ 21)
unfolding find
find_role [] word role prefix t v pt w d p h =
    let e : pt ≡ t = ground (arith, h) in let q : prefix t ≡ upper v 12 = rw d at p in rw e (d, q)
find_role (x ∷ r) word role prefix t v pt w d p h =
    let e = word (slot t (index_at v x)) in
    elim (Bool-cases (leads e)) [
      | inr stop ↦ absurd (ground (arith, h, stop))
      | inl go ↦
          let (a, b) =
            w.child t (index_at v x) (omega arith) (omega (arith, d.0, above_twelve x d.1)) go in
          let lower : role (address e) ≡ x - 9 = omega (arith, a, d.0) in
          let at : prefix t ≡ upper v x = p ∙ ap (upper v) d.0 in
          find_role r word role prefix (address e) v pt w (rw lower d.2)
            (rw lower (b ∙ ap (λ q. q * 512 + index_at v x) at ∙ upper_step v x d.1)) (rw go at h)
    ]

-- Words whose entries above the last level lead to the same places.
abbrev pub SameTables : (word word' role : ℕ → ℕ) → Type 0
SameTables word word' role =
    (t i : ℕ)
    → i < 512
    → 12 < role t
    → (leads (word' (slot t i)) ≡ leads (word (slot t i)))
      × (address (word' (slot t i)) ≡ address (word (slot t i)))

pub find_same :
    (r : List ℕ) (word word' role prefix : ℕ → ℕ) (t v : ℕ)
    → HasTables word role prefix
    → SameTables word word' role
    → Down r (role t)
    → find r word' t v ≡ find r word t v
unfolding find
find_same [] word word' role prefix t v w same d = refl
find_same (x ∷ r) word word' role prefix t v w same d =
    let e = word (slot t (index_at v x)) in
    let deep : 12 < role t = omega (arith, d.0, above_twelve x d.1) in
    let (a, b) = same t (index_at v x) (omega arith) deep in
    elim (Bool-cases (leads e)) [
      | inr stop ↦ rw (a, stop) refl
      | inl go ↦
          let (c, _) = w.child t (index_at v x) (omega arith) deep go in
          let lower : role (address e) ≡ x - 9 = omega (arith, c, d.0) in
          rw (a, go, b) (find_same r word word' role prefix (address e) v w same (rw lower d.2))
    ]
