-- ===== src/Kernel/Paging/Map.antt =====
-- kernel/mm/mm.c on x86-64: what mapping a page does to the translation of addresses.
use narc_os.Common.{ℕ, ◌+◌, ◌-◌, ◌/◌, ◌%◌, ◌^◌, ◌≤◌, ◌<◌, ◌≡◌, ◌≢◌, refl, sym, ap, ◌∙◌, arith}
use narc_os.Common.{Bool, true, false, ◌&&◌, Option, none, some, List, [], ◌∷◌, ◌==◌, if◌then◌else◌}
use narc_os.Common.{inl, inr}
use narc_os.Kernel.Pages.{page, put_word}
use narc_os.Kernel.Paging.{
  Paging, address, slot, index_at, word_of, put, next_table, walk_tables, shifts, leaf,
}
use narc_os.Kernel.Paging.{
  get_pte, entry_in, map_at, vmm_map, vmm_map_user, vmm_user_phys, pte_value, is_user_page,
}
use narc_os.Kernel.Paging.Walk.{find, above_twelve, Down, Down-ne-zero, upper, pte_value-value}
use narc_os.Kernel.Paging.Walk.{find_role}
use narc_os.Kernel.Paging.Frame.{value-put, HasTables-same, SameTables-last}
use narc_os.Kernel.Paging.Grow.{IsMapped, Later, Later-refl}
use narc_os.Kernel.Paging.Step.{Stepped, next_table-Stepped, put-IsMapped}

Later-trans :
    (s s' : ℕ) (k l m : Paging) (role prefix role' prefix' role'' prefix'' : ℕ → ℕ)
    (free free' used used' : List ℕ)
    → s' ≤ s
    → Later s k l role prefix role' prefix' free used
    → ((r : List ℕ) (t : ℕ) → Down r (role t) → role t ≢ 0)
    → Later s' l m role' prefix' role'' prefix'' free' used'
    → Later s k m role prefix role'' prefix'' free' used'
Later-trans s s' k l m role prefix role' prefix' role'' prefix'' free free' used used' le a nz b =
    record {
      mapped = b.mapped;
      keeps = λ q h.
          let (x, y) = a.keeps q h in
          let (x', y') = b.keeps q (λ z. h (sym x ∙ z)) in (x' ∙ x, y' ∙ y);
      same = λ r t v d. let (x, _) = a.keeps t (nz r t d) in b.same r t v (rw x d) ∙ a.same r t v d;
      above = λ q j h d.
          let (x, _) = a.keeps q (omega (arith, d)) in
          b.above q j h (omega (arith, x, d, le)) ∙ a.above q j h d;
    }

-- What a walk leaves: a later state, in which the same walk finds the same table.
abbrev Walked :
    List ℕ → (t v : ℕ) → (k : Paging) → (role prefix : ℕ → ℕ) → Option ℕ × Paging → Type 0
Walked r t v k role prefix (o, l) =
    (role' : ℕ → ℕ) × (prefix' : ℕ → ℕ) × (free : List ℕ) × (used : List ℕ) × Later (role t) k l
      role prefix role' prefix' free used
    × ((pt : ℕ) → o ≡ some pt → find r (word_of l) t v ≡ some pt)

Walked-step :
    (x : ℕ) (r : List ℕ) (k : Paging) (t v : ℕ) (for_user : Bool) (role prefix : ℕ → ℕ) (l : Paging)
    (o : Option ℕ)
    → role t ≡ x
    → 12 < x
    → Down r (x - 9)
    → Stepped x (index_at v x) t k role prefix (o, l)
    → ((c : ℕ) (role' prefix' : ℕ → ℕ) (free used : List ℕ)
        → IsMapped l role' prefix' free used
        → Down r (role' c)
        → Walked r c v l role' prefix' (walk_tables r l c v true for_user))
    → Walked
        (x ∷ r)
        t
        v
        k
        role
        prefix
        (elim o [ none ↦ (none, l) | some c ↦ walk_tables r l c v true for_user ])
unfolding find
Walked-step x r k t v for_user role prefix l none rx deep down
      (role1, prefix1, free1, used1, first, place) rest =
    (role1, prefix1, free1, used1, rw rx first, λ pt e. cc)
Walked-step x r k t v for_user role prefix l (some c) rx deep down
      (role1, prefix1, free1, used1, first, place) rest =
    let (rc, pc, go, at) = place c refl in
    let lower : role1 c ≡ x - 9 = omega (arith, rc) in
    let first' : Later (role t) k l role prefix role1 prefix1 free1 used1 = rw rx first in
    let (role2, prefix2, free2, used2, later, found) =
      rest c role1 prefix1 free1 used1 first.mapped (rw lower down) in
    let m = (walk_tables r l c v true for_user).1 in
    let (rt, _) = first.keeps t (omega (arith, rx, deep)) in
    let kept = later.above t (index_at v x) (omega arith) (omega (arith, rt, rx, lower, deep)) in
    (
      role2,
      prefix2,
      free2,
      used2,
      Later-trans (role t) (role1 c) k l m role prefix role1 prefix1 role2 prefix2 free1 free2 used1
          used2 (omega (arith, lower, rx)) first' (λ r t d. Down-ne-zero r (role t) d) later,
      λ pt e. rw (kept, go, at) (found pt e),
    )

walk_tables-Walked :
    (r : List ℕ) (k : Paging) (t v : ℕ) (for_user : Bool) (role prefix : ℕ → ℕ) (free used : List ℕ)
    → IsMapped k role prefix free used
    → Down r (role t)
    → Walked r t v k role prefix (walk_tables r k t v true for_user)
unfolding walk_tables find
walk_tables-Walked [] k t v for_user role prefix free used g d =
    (role, prefix, free, used, Later-refl (role t) k role prefix free used g, λ pt e. e)
walk_tables-Walked (x ∷ r) k t v for_user role prefix free used g d =
    Walked-step x r k t v for_user role prefix (next_table k t (index_at v x) true for_user).1
      (next_table k t (index_at v x) true for_user).0 d.0 (above_twelve x d.1) d.2
      (next_table-Stepped x k role prefix free used t (index_at v x) for_user g d.0
        (above_twelve x d.1) (omega arith))
      (λ c role' prefix' free' used' g' d'.
        walk_tables-Walked r (next_table k t (index_at v x) true for_user).1 c v for_user role'
          prefix' free' used' g' d')

-- An address space: its root is a table for the highest index, and serves all addresses.
abbrev pub IsSpace : ℕ → (role prefix : ℕ → ℕ) → Type 0
IsSpace space role prefix = (role space ≡ 39) × (prefix space ≡ 0)

-- What mapping a page leaves, from the values of the entries before.
abbrev Mapped : (k : Paging) (space virt e : ℕ) → Bool × Paging → Type 0
Mapped k space virt e (done, l) =
    (role : ℕ → ℕ) × (prefix : ℕ → ℕ) × (free : List ℕ) × (used : List ℕ) × IsMapped l role prefix
      free used
    × IsSpace space role prefix
    × ((v : ℕ)
        → v < 2 ^ 48
        → pte_value l space v
          ≡ (if done && v / page == virt / page then e else pte_value k space v))

Down-root : (s : ℕ) → s ≡ 39 → Down shifts s
Down-root s rs = (rs, inl refl, (refl, inr (inl refl), (refl, inr (inr refl), refl)))

upper-root : (s u : ℕ) → s ≡ 39 → u < 2 ^ 48 → 0 ≡ upper u s
upper-root s u rs low = rw rs (omega (arith, low))

map_at-Mapped :
    (k l : Paging) (space virt phys : ℕ) (write for_user : Bool) (role prefix : ℕ → ℕ)
    (o : Option ℕ)
    → IsSpace space role prefix
    → virt < 2 ^ 48
    → Walked shifts space virt k role prefix (o, l)
    → Mapped k space virt
        (leaf phys write for_user)
        (map_at (entry_in virt (o, l)) phys write for_user)
map_at-Mapped k l space virt phys write for_user role prefix none (rs, ps) low
      (role', prefix', free, used, later, found) =
    let (a, b) = later.keeps space (omega (arith, rs)) in
    (
      role',
      prefix',
      free,
      used,
      later.mapped,
      (a ∙ rs, b ∙ ps),
      λ v lv.
          pte_value-value l space v
          ∙ later.same shifts space v (Down-root (role space) rs)
          ∙ sym (pte_value-value k space v),
    )
map_at-Mapped k l space virt phys write for_user role prefix (some pt) (rs, ps) low
      (role', prefix', free, used, later, found) =
    let (a, b) = later.keeps space (omega (arith, rs)) in
    let e = leaf phys write for_user in
    let at = slot pt (index_at virt 12) in
    let g = later.mapped in
    let down : Down shifts (role' space) = Down-root (role' space) (a ∙ rs) in
    let top : (u : ℕ) → u < 2 ^ 48 → prefix' space ≡ upper u (role' space) =
      λ u h. (b ∙ ps) ∙ upper-root (role' space) u (a ∙ rs) h in
    let there = found pt refl in
    let (last, _) =
      find_role shifts (word_of l) role' prefix' space virt pt g.tables down (top virt low) there in
    let same =
      SameTables-last (word_of l) role' prefix' pt (index_at virt 12) e g.tables last
        (omega arith) in
    (
      role',
      prefix',
      free,
      used,
      put-IsMapped l role' prefix' free used pt (index_at virt 12) e g (omega (arith, last))
          (omega arith)
          (HasTables-same (word_of l) (put_word (word_of l) at e) role' prefix' g.tables same),
      (a ∙ rs, b ∙ ps),
      λ v lv.
          pte_value-value (put l at e) space v
          ∙ value-put shifts (word_of l) role' prefix' space virt pt e v g.tables down top there low
              lv
          ∙ ap (λ q. if v / page == virt / page then e else q)
              (later.same shifts space v (Down-root (role space) rs)
                ∙ sym (pte_value-value k space v)),
    )

vmm_map-Mapped :
    (k : Paging) (space virt phys : ℕ) (write for_user : Bool) (role prefix : ℕ → ℕ)
    (free used : List ℕ)
    → IsMapped k role prefix free used
    → IsSpace space role prefix
    → virt < 2 ^ 48
    → Mapped k space virt (leaf phys write for_user) (vmm_map k space virt phys write for_user)
unfolding vmm_map get_pte
vmm_map-Mapped k space virt phys write for_user role prefix free used g (rs, ps) low =
    map_at-Mapped k (walk_tables shifts k space virt true for_user).1 space virt phys write for_user
      role prefix (walk_tables shifts k space virt true for_user).0 (rs, ps) low
      (walk_tables-Walked shifts k space virt for_user role prefix free used g
        (Down-root (role space) rs))

-- What mapping a page of a user leaves: tables again, and the page's address in place of what was there.
abbrev pub Translates : (k : Paging) (space virt phys : ℕ) → Bool × Paging → Type 0
Translates k space virt phys (done, l) =
    (role : ℕ → ℕ) × (prefix : ℕ → ℕ) × (free : List ℕ) × (used : List ℕ) × IsMapped l role prefix
      free used
    × IsSpace space role prefix
    × ((v : ℕ)
        → v < 2 ^ 48
        → vmm_user_phys l space v ≡ (
            if done && v / page == virt / page
            then address phys + v % page
            else vmm_user_phys k space v))

leaf_user :
    (phys : ℕ) (write : Bool)
    → (is_user_page (leaf phys write true) ≡ true) × (address (leaf phys write true) ≡ address phys)
leaf_user phys true = (ground arith, omega arith)
leaf_user phys false = (ground arith, omega arith)

abbrev phys_of : ℕ → ℕ → ℕ
phys_of v e = if is_user_page e then address e + v % page else 0

phys_of_choice :
    (b : Bool) (v phys e : ℕ) (write : Bool)
    → phys_of v (if b then leaf phys write true else e)
      ≡ (if b then address phys + v % page else phys_of v e)
phys_of_choice true v phys e write = let (a, b) = leaf_user phys write in rw (a, b) refl
phys_of_choice false v phys e write = refl

-- Where the page tables are a tree of pages in use with the root of the space on top, all memory ends
-- below 2^52 and `virt` is below 2^48, vmm_map_user leaves such tables. If it returns 0, vmm_user_phys then gives `phys` with the offset for each address on the
-- page of `virt`. Every other address below 2^48, and every one if it fails, is translated as before.
pub vmm_map_user-vmm_user_phys :
    (k : Paging) (space virt phys : ℕ) (write : Bool) (role prefix : ℕ → ℕ) (free used : List ℕ)
    → IsMapped k role prefix free used
    → IsSpace space role prefix
    → virt < 2 ^ 48
    → Translates k space virt phys (vmm_map_user k space virt phys write)
unfolding vmm_user_phys
vmm_map_user-vmm_user_phys k space virt phys write role prefix free used g root low =
    let (role', prefix', free', used', g', root', values) =
      vmm_map-Mapped k space virt phys write true role prefix free used g root low in
    (
      role',
      prefix',
      free',
      used',
      g',
      root',
      λ v lv.
          ap (phys_of v) (values v lv)
          ∙ phys_of_choice ((vmm_map k space virt phys write true).0 && v / page == virt / page) v
              phys (pte_value k space v) write,
    )
