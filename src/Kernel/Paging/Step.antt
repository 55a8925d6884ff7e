-- ===== src/Kernel/Paging/Step.antt =====
-- kernel/mm/mm.c on x86-64: what next_table does to the walks through the page tables.
use narc_os.Common.{ℕ, ◌+◌, ◌-◌, ◌*◌, ◌%◌, ◌^◌, ◌<◌, ◌≡◌, ◌≢◌, refl, sym, ap, ◌∙◌, arith}
use narc_os.Common.{Bool, true, false, ◌&&◌, Option, some, List, ◌∷◌, ◌==◌, if◌then◌else◌}
use narc_os.Common.{inl, inr, Bool-cases, ==_refl}
use narc_os.Kernel.Pages.{Pages, page, put_word, clear_page, pmm_alloc_page}
use narc_os.Kernel.Pages.Empty.{IsLow, pmm_alloc_page-IsLow, pmm_alloc_page-word, put_word-HasPages}
use narc_os.Kernel.Pages.Fresh.{HasPages, pmm_alloc_page-Allocated}
use narc_os.Kernel.Paging.{Paging, present, huge, user, address, slot, word_of, put, next_table}
use narc_os.Kernel.Paging.{with_flag, pte_user, only_if, fresh_table}
use narc_os.Kernel.Paging.Walk.{leads, value, HasTables}
use narc_os.Kernel.Paging.Frame.{value_same, HasTables-same, SameTables-put}
use narc_os.Kernel.Paging.Frame.{other_slot}
use narc_os.Kernel.Paging.Grow.{IsMapped, Later, Later-refl, grown-Later, grown_place, has_first}

-- What next_table leaves: a later state and, if it finds or makes a table, its place in the tree.
abbrev pub Stepped :
    (s i : ℕ) (t : ℕ) (k : Paging) (role prefix : ℕ → ℕ) → Option ℕ × Paging → Type 0
Stepped s i t k role prefix (o, l) =
    (role' : ℕ → ℕ) × (prefix' : ℕ → ℕ) × (free : List ℕ) × (used : List ℕ) × Later s k l role
      prefix role' prefix' free used
    × ((c : ℕ)
        → o ≡ some c
        → (role' c + 9 ≡ s)
          × (prefix' c ≡ prefix t * 512 + i)
          × (leads (word_of l (slot t i)) ≡ true)
          × (address (word_of l (slot t i)) ≡ c))

mark_bits :
    (e : ℕ)
    → (leads (with_flag (user e) pte_user e) ≡ leads e)
      × (address (with_flag (user e) pte_user e) ≡ address e)
mark_bits e = elim (Bool-cases (user e)) [
  | inl marked ↦ rw marked (refl, refl)
  | inr unmarked ↦ rw unmarked (ground (arith, unmarked), ground (arith, unmarked))
]

link_bits :
    (p : ℕ) (for_user : Bool)
    → p % page ≡ 0
    → p < 2 ^ 52
    → (leads (p + (1 + 2 + only_if for_user pte_user)) ≡ true)
      × (address (p + (1 + 2 + only_if for_user pte_user)) ≡ p)
link_bits p true a h = (ground (arith, a), omega (arith, a, h))
link_bits p false a h = (ground (arith, a), omega (arith, a, h))

pub put-IsMapped :
    (k : Paging) (role prefix : ℕ → ℕ) (free used : List ℕ) (t i v : ℕ)
    → IsMapped k role prefix free used
    → role t ≢ 0
    → i < 512
    → HasTables (put_word (word_of k) (slot t i) v) role prefix
    → IsMapped (put k (slot t i) v) role prefix free used
put-IsMapped k role prefix free used t i v g rt hi tables = record {
  tables = tables;
  pages = put_word-HasPages k.pages free used t i v g.pages (g.in_use t rt) hi;
  low = g.low;
  in_use = g.in_use;
}

-- An entry above the last level that goes on leading where it did.
relinked-Later :
    (s : ℕ) (k : Paging) (role prefix : ℕ → ℕ) (free used : List ℕ) (t i v : ℕ)
    → IsMapped k role prefix free used
    → role t ≡ s
    → 12 < s
    → i < 512
    → leads v ≡ leads (word_of k (slot t i))
    → address v ≡ address (word_of k (slot t i))
    → Later s k (put k (slot t i) v) role prefix role prefix free used
relinked-Later s k role prefix free used t i v g rs deep hi go at =
    let rt : role t ≢ 0 = omega (arith, rs, deep) in
    let same = SameTables-put (word_of k) role prefix t i v g.tables rt hi go at in
    let other = λ (q : ℕ) (j : ℕ) (h : j < 512) (ne : t ≢ q) (rq : role q ≢ 0).
      other_slot (word_of k) t q i j v (g.tables.aligned t rt) (g.tables.aligned q rq) hi h ne in
    record {
      mapped = put-IsMapped k role prefix free used t i v g rt hi (
          HasTables-same (word_of k) (put_word (word_of k) (slot t i) v) role prefix g.tables same);
      keeps = λ q h. (refl, refl);
      same = λ r u x d.
          value_same r (word_of k) (put_word (word_of k) (slot t i) v) role prefix u x g.tables same
            (λ pt j h last.
              other pt j h (λ e. absurd (omega (arith, rs, deep, last, ap role e)))
                (omega (arith, last)))
            d;
      above =
          λ q j h d. other q j h (λ e. absurd (omega (arith, rs, d, ap role e))) (omega (arith, d));
    }

-- A failed allocation.
allocated-Later :
    (s : ℕ) (k : Paging) (role prefix : ℕ → ℕ) (before free used : List ℕ) (m : Pages)
    → IsMapped k role prefix before used
    → HasPages m free used
    → IsLow m
    → m.word ≡ k.pages.word
    → Later s k (record k { pages = m }) role prefix role prefix free used
allocated-Later s k role prefix before free used m g pages low words = record {
  mapped = record {
    tables = coe 0 1 (i. HasTables (sym words i) role prefix) g.tables;
    pages = pages;
    low = low;
    in_use = g.in_use;
  };
  keeps = λ q h. (refl, refl);
  same = λ r u x d. ap (λ f. value f r u x) words;
  above = λ q j h d. ap (λ f. f (slot q j)) words;
}

fresh-Stepped :
    (s : ℕ) (k : Paging) (role prefix : ℕ → ℕ) (free used : List ℕ) (t i : ℕ) (for_user : Bool)
    → IsMapped k role prefix free used
    → role t ≡ s
    → 12 < s
    → i < 512
    → leads (word_of k (slot t i)) ≡ false
    → Stepped s i t k role prefix (fresh_table k (slot t i) for_user)
fresh-Stepped s k role prefix free used t i for_user g rs deep hi nowhere =
    let p = (pmm_alloc_page k.pages).0 in
    let m = (pmm_alloc_page k.pages).1 in
    let (unused, (free', pages)) = pmm_alloc_page-Allocated k.pages free used g.pages in
    let low = pmm_alloc_page-IsLow k.pages g.low in
    let words = pmm_alloc_page-word k.pages in
    elim (Bool-cases (p == 0)) [
      | inl null ↦
          let words' : m.word ≡ k.pages.word = rw null at words in
          let pages' : HasPages m free' used = rw null at pages in
          rw null (
            role,
            prefix,
            free',
            used,
            allocated-Later s k role prefix free free' used m g pages' low words',
            λ c e. cc,
          )
      | inr some_page ↦
          let pages' : HasPages m free' (p ∷ used) = rw some_page at pages in
          let words' : m.word ≡ clear_page k.pages.word p = rw some_page at words in
          let (a, b, c, d) = pages'.known p (inr (has_first p used)) in
          let (go, at) = link_bits p for_user b (omega (arith, d, low.0)) in
          let v0 = p + (3 + only_if for_user pte_user) in
          rw some_page (
            put_word role p (role t - 9),
            put_word prefix p (prefix t * 512 + i),
            free',
            p ∷ used,
            grown-Later s k role prefix free free' used t i v0 p m g rs deep hi nowhere unused
                pages' low words' go at,
            λ c' e.
                let (x, y, z) =
                  grown_place s k role prefix free free' used t i v0 p m g rs deep hi nowhere unused
                    pages' low words' go at in
                let same : p ≡ c' = ground (arith, e) in
                rw (← same) (x, y, ap leads z ∙ go, ap address z ∙ at),
          )
    ]

pub next_table-Stepped :
    (s : ℕ) (k : Paging) (role prefix : ℕ → ℕ) (free used : List ℕ) (t i : ℕ) (for_user : Bool)
    → IsMapped k role prefix free used
    → role t ≡ s
    → 12 < s
    → i < 512
    → Stepped s i t k role prefix (next_table k t i true for_user)
unfolding next_table
next_table-Stepped s k role prefix free used t i for_user g rs deep hi =
    let e = word_of k (slot t i) in
    elim (Bool-cases (present e)) [
      | inr absent ↦ rw absent (
          fresh-Stepped s k role prefix free used t i for_user g rs deep hi
            (ground (arith, absent)))
      | inl there ↦ elim (Bool-cases (huge e)) [
        | inl big ↦
            rw (there, big)
              (role, prefix, free, used, Later-refl s k role prefix free used g, λ c h. cc)
        | inr small ↦
            let go : leads e ≡ true = ground (arith, there, small) in
            let (x, y) = g.tables.child t i hi (omega (arith, rs, deep)) go in
            rw (there, small) (found for_user go x y)
      ]
    ]
  where
    found :
        (b : Bool)
        → leads (word_of k (slot t i)) ≡ true
        → role (address (word_of k (slot t i))) + 9 ≡ role t
        → prefix (address (word_of k (slot t i))) ≡ prefix t * 512 + i
        → Stepped s i t k role prefix (
          some (address (word_of k (slot t i))),
          if b && true
              then put k
                  (slot t i)
                  (with_flag (user (word_of k (slot t i))) pte_user (word_of k (slot t i)))
              else k,
        )
    found false go x y = (
      role,
      prefix,
      free,
      used,
      Later-refl s k role prefix free used g,
      λ c h.
          let same : address (word_of k (slot t i)) ≡ c = ground (arith, h) in
          rw (← same) (x ∙ rs, y, go, refl),
    )
    found true go x y =
        let e = word_of k (slot t i) in
        let (a, b) = mark_bits e in
        let put_here : word_of (put k (slot t i) (with_flag (user e) pte_user e)) (slot t i)
            ≡ with_flag (user e) pte_user e =
          rw (==_refl (slot t i)) refl in
        (
          role,
          prefix,
          free,
          used,
          relinked-Later s k role prefix free used t i (with_flag (user e) pte_user e) g rs deep hi
              a b,
          λ c h.
              let same : address e ≡ c = ground (arith, h) in
              rw (← same) (x ∙ rs, y, ap leads put_here ∙ a ∙ go, ap address put_here ∙ b),
        )
