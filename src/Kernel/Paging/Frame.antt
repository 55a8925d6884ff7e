-- ===== src/Kernel/Paging/Frame.antt =====
-- What a change to one entry of the page tables does to the walks through them.
use narc_os.Common.{ℕ, ◌+◌, ◌-◌, ◌*◌, ◌/◌, ◌%◌, ◌^◌, ◌<◌, ◌≡◌, ◌≢◌, refl, sym, ap, ◌∙◌, arith}
use narc_os.Common.{true, false, some, List, [], ◌∷◌, ◌==◌, if◌then◌else◌}
use narc_os.Common.{inl, inr, Bool-cases, Option-cases, ==_refl, ==_ne}
use narc_os.Kernel.Pages.{page, put_word, clear_page}
use narc_os.Kernel.String.{inside}
use narc_os.Kernel.Paging.{address, slot, index_at}
use narc_os.Kernel.Paging.Walk.{
  leads, find, read_at, value, HasTables, above_twelve, Down, Down-ne-zero,
}
use narc_os.Kernel.Paging.Walk.{upper, find_congr, find_role, SameTables, find_same}

pub slot_eq :
    (t t' i i' : ℕ)
    → t % page ≡ 0
    → t' % page ≡ 0
    → i < 512
    → i' < 512
    → slot t i ≡ slot t' i'
    → (t ≡ t') × (i ≡ i')
slot_eq t t' i i' a a' h h' e = omega arith

-- The word of a table's entry after a write to another table's.
pub other_slot :
    (word : ℕ → ℕ) (t t' i i' v : ℕ)
    → t % page ≡ 0
    → t' % page ≡ 0
    → i < 512
    → i' < 512
    → t ≢ t'
    → put_word word (slot t i) v (slot t' i') ≡ word (slot t' i')
other_slot word t t' i i' v a a' h h' ne =
    let apart : (slot t' i' == slot t i) ≡ false =
      ground (arith, slot_eq t t' i i' a a' h h', ne) in
    rw apart refl

find_last :
    (r : List ℕ) (word role prefix : ℕ → ℕ) (t v pt : ℕ)
    → HasTables word role prefix
    → Down r (role t)
    → find r word t v ≡ some pt
    → role pt ≡ 12
unfolding find
find_last [] word role prefix t v pt w d h = let e : pt ≡ t = ground (arith, h) in rw e d
find_last (x ∷ r) word role prefix t v pt w d h =
    let e = word (slot t (index_at v x)) in
    elim (Bool-cases (leads e)) [
      | inr stop ↦ absurd (ground (arith, h, stop))
      | inl go ↦
          let (a, _) =
            w.child t (index_at v x) (omega arith) (omega (arith, d.0, above_twelve x d.1)) go in
          let lower : role (address e) ≡ x - 9 = omega (arith, a, d.0) in
          find_last r word role prefix (address e) v pt w (rw lower d.2) (rw go at h)
    ]

-- Words that differ at most in what the tables above the last level do not say.
pub value_same :
    (r : List ℕ) (word word' role prefix : ℕ → ℕ) (t v : ℕ)
    → HasTables word role prefix
    → SameTables word word' role
    → ((pt i : ℕ) → i < 512 → role pt ≡ 12 → word' (slot pt i) ≡ word (slot pt i))
    → Down r (role t)
    → value word' r t v ≡ value word r t v
value_same r word word' role prefix t v w same last d =
    ap (read_at word' v) (find_same r word word' role prefix t v w same d)
    ∙ elim (Option-cases (find r word t v)) [
      | inl nowhere ↦ rw nowhere refl
      | inr (pt, there) ↦
          rw there
            (last pt (index_at v 12) (omega arith) (find_last r word role prefix t v pt w d there))
    ]

pub HasTables-same :
    (word word' role prefix : ℕ → ℕ)
    → HasTables word role prefix
    → SameTables word word' role
    → HasTables word' role prefix
HasTables-same word word' role prefix w same = record {
  aligned = w.aligned;
  child =
      λ t i hi deep go. let (a, b) = same t i hi deep in rw b (w.child t i hi deep (sym a ∙ go));
}

-- A write to an entry above the last level that still leads to the same place.
pub SameTables-put :
    (word role prefix : ℕ → ℕ) (t i v : ℕ)
    → HasTables word role prefix
    → role t ≢ 0
    → i < 512
    → leads v ≡ leads (word (slot t i))
    → address v ≡ address (word (slot t i))
    → SameTables word (put_word word (slot t i) v) role
SameTables-put word role prefix t i v w rt hi same at u j hj deep =
    elim (Bool-cases (slot u j == slot t i)) [
      | inr other ↦ rw other (refl, refl)
      | inl here ↦ let e : slot u j ≡ slot t i = ground arith in rw (here, e) (same, at)
    ]

-- A write to an entry of a last table.
pub SameTables-last :
    (word role prefix : ℕ → ℕ) (pt i v : ℕ)
    → HasTables word role prefix
    → role pt ≡ 12
    → i < 512
    → SameTables word (put_word word (slot pt i) v) role
SameTables-last word role prefix pt i v w last hi u j hj deep =
    let same =
      other_slot word pt u i j v (w.aligned pt (omega (arith, last)))
        (w.aligned u (omega (arith, deep))) hi hj
        (λ e. absurd (omega (arith, last, deep, ap role e))) in
    rw same (refl, refl)

-- A new table, empty, in an entry that leads nowhere.
abbrev pub linked_words : (ℕ → ℕ) → (p a v : ℕ) → ℕ → ℕ
linked_words word p a v = put_word (clear_page word p) a v

pub linked_old :
    (word role prefix : ℕ → ℕ) (p a v0 t i : ℕ)
    → HasTables word role prefix
    → role p ≡ 0
    → p % page ≡ 0
    → role t ≢ 0
    → i < 512
    → linked_words word p a v0 (slot t i) ≡ (if slot t i == a then v0 else word (slot t i))
linked_old word role prefix p a v0 t i w no_table unit rt hi =
    let ne : t ≢ p = λ e. rt (ap role e ∙ no_table) in
    let outside : inside p page (slot t i) ≡ false = ground (arith, w.aligned t rt, unit, ne, hi) in
    rw outside refl

pub linked_new :
    (word role prefix : ℕ → ℕ) (p t0 i0 v0 i : ℕ)
    → HasTables word role prefix
    → role p ≡ 0
    → p % page ≡ 0
    → role t0 ≢ 0
    → i0 < 512
    → i < 512
    → linked_words word p (slot t0 i0) v0 (slot p i) ≡ 0
linked_new word role prefix p t0 i0 v0 i w no_table unit rt hi0 hi =
    let ne : p ≢ t0 = λ e. rt (sym (ap role e) ∙ no_table) in
    let apart : (slot p i == slot t0 i0) ≡ false =
      ground (arith, slot_eq p t0 i i0 unit (w.aligned t0 rt) hi hi0, ne) in
    let within : inside p page (slot p i) ≡ true = ground (arith, hi) in rw (apart, within) refl

module _ (word word' role prefix : ℕ → ℕ) (t0 i0 p v0 : ℕ) (w : HasTables word role prefix)
    (deep : 12 < role t0) (hi0 : i0 < 512) (nowhere : leads (word (slot t0 i0)) ≡ false)
    (no_table : role p ≡ 0) (unit : p % page ≡ 0) (leads_on : leads v0 ≡ true)
    (to_p : address v0 ≡ p)
    (old : (t i : ℕ)
      → role t ≢ 0
      → i < 512
      → word' (slot t i) ≡ (if slot t i == slot t0 i0 then v0 else word (slot t i)))
    (new : (i : ℕ) → i < 512 → word' (slot p i) ≡ 0) where
  blank : (r : List ℕ) (v : ℕ) → value word' r p v ≡ 0
  unfolding find
  blank [] v = new (index_at v 12) (omega arith)
  blank (x ∷ r) v = let e = new (index_at v x) (omega arith) in rw e refl

  -- No walk finds anything new.
  pub value-linked : (r : List ℕ) (t v : ℕ) → Down r (role t) → value word' r t v ≡ value word r t v
  unfolding find
  value-linked [] t v d =
      let rt : role t ≢ 0 = omega (arith, d) in
      let ne : t ≢ t0 = λ e. absurd (omega (arith, d, deep, ap role e)) in
      let apart : (slot t (index_at v 12) == slot t0 i0) ≡ false = ground (
        arith,
        slot_eq t t0 (index_at v 12) i0 (w.aligned t rt) (w.aligned t0 (omega (arith, deep)))
            (omega arith) hi0,
        ne,
      ) in
      old t (index_at v 12) rt (omega arith) ∙ rw apart refl
  value-linked (x ∷ r) t v d =
      let i = index_at v x in
      let rt : role t ≢ 0 = Down-ne-zero (x ∷ r) (role t) d in
      let seen = old t i rt (omega arith) in
      elim (Bool-cases (slot t i == slot t0 i0)) [
        | inl here ↦
            let e : slot t i ≡ slot t0 i0 = ground arith in
            let now : word' (slot t i) ≡ v0 = seen ∙ rw here refl in
            let before : leads (word (slot t i)) ≡ false = ap (λ q. leads (word q)) e ∙ nowhere in
            rw (now, leads_on, before, to_p) (blank r v)
        | inr other ↦
            let now : word' (slot t i) ≡ word (slot t i) = seen ∙ rw other refl in
            elim (Bool-cases (leads (word (slot t i)))) [
              | inr stop ↦ rw (now, stop) refl
              | inl go ↦
                  let (a, _) =
                    w.child t i (omega arith) (omega (arith, d.0, above_twelve x d.1)) go in
                  let lower : role (address (word (slot t i))) ≡ x - 9 = omega (arith, a, d.0) in
                  rw (now, go) (value-linked r (address (word (slot t i))) v (rw lower d.2))
            ]
      ]

  -- The new table takes its place in the tree.
  child_of :
      (t i : ℕ)
      → i < 512
      → 12 < role t
      → (t == p) ≡ false
      → leads (word' (slot t i)) ≡ true
      → (put_word role p (role t0 - 9) (address (word' (slot t i))) + 9 ≡ role t)
        × (put_word prefix p (prefix t0 * 512 + i0) (address (word' (slot t i)))
            ≡ prefix t * 512 + i)
  child_of t i hi rt old_table go =
      let some_role : role t ≢ 0 = omega (arith, rt) in
      let seen = old t i some_role hi in
      elim (Bool-cases (slot t i == slot t0 i0)) [
        | inl here ↦
            let e : slot t i ≡ slot t0 i0 = ground arith in
            let now : word' (slot t i) ≡ v0 = seen ∙ rw here refl in
            let (x, y) =
              slot_eq t t0 i i0 (w.aligned t some_role) (w.aligned t0 (omega (arith, deep))) hi hi0
                e in
            rw (now, to_p, ==_refl p)
              (omega (arith, deep, ap role x), omega (arith, y, ap prefix x))
        | inr other ↦
            let now : word' (slot t i) ≡ word (slot t i) = seen ∙ rw other refl in
            let (a, b) = w.child t i hi rt (ap leads (sym now) ∙ go) in
            let ne : (address (word (slot t i)) == p) ≡ false =
              ==_ne (address (word (slot t i))) p
                (λ e. absurd (omega (arith, a, rt, ap role e, no_table))) in
            rw (now, ne) (a, b)
      ]

  pub HasTables-linked :
      HasTables word' (put_word role p (role t0 - 9)) (put_word prefix p (prefix t0 * 512 + i0))
  HasTables-linked = record {
    aligned = λ t rt. elim (Bool-cases (t == p)) [
      | inl is_new ↦ let e : t ≡ p = ground arith in rw e unit
      | inr old_table ↦ w.aligned t (λ z. rt (rw old_table z))
    ];
    child = λ t i hi rt go. elim (Bool-cases (t == p)) [
      | inl is_new ↦
          let e : t ≡ p = ground arith in
          let empty : word' (slot t i) ≡ 0 = ap (λ q. word' (slot q i)) e ∙ new i hi in
          absurd (ground (arith, ap leads empty, go))
      | inr old_table ↦
          let before : 12 < role t = rw old_table at rt in
          rw old_table (child_of t i hi before old_table go)
    ];
  }

-- A write to the last entry that a walk finds shows in the walks that end there, and in no other.
pub value-put :
    (r : List ℕ) (word role prefix : ℕ → ℕ) (root v0 pt x v : ℕ)
    → HasTables word role prefix
    → Down r (role root)
    → ((u : ℕ) → u < 2 ^ 48 → prefix root ≡ upper u (role root))
    → find r word root v0 ≡ some pt
    → v0 < 2 ^ 48
    → v < 2 ^ 48
    → value (put_word word (slot pt (index_at v0 12)) x) r root v
      ≡ (if v / page == v0 / page then x else value word r root v)
value-put r word role prefix root v0 pt x v w d top there low0 low =
    let word' = put_word word (slot pt (index_at v0 12)) x in
    let (last, at) = find_role r word role prefix root v0 pt w d (top v0 low0) there in
    let same = SameTables-last word role prefix pt (index_at v0 12) x w last (omega arith) in
    let walk = find_same r word word' role prefix root v w same d in
    ap (read_at word' v) walk ∙ elim (Bool-cases (v / page == v0 / page)) [
      | inl hit ↦
          let e : v / page ≡ v0 / page = ground arith in
          let congr = find_congr r word (role root) root v v0 d (omega (arith, e)) in
          let idx : index_at v 12 ≡ index_at v0 12 = omega (arith, e) in
          rw (hit, congr, there, idx, ==_refl (slot pt (index_at v0 12))) refl
      | inr miss ↦ rw miss (elim (Option-cases (find r word root v)) [
        | inl nowhere ↦ rw nowhere refl
        | inr (q, found) ↦
            let (q_last, q_at) = find_role r word role prefix root v q w d (top v low) found in
            let apart : (slot q (index_at v 12) == slot pt (index_at v0 12)) ≡ false =
              ==_ne (slot q (index_at v 12)) (slot pt (index_at v0 12)) λ e.
                let (a, b) =
                  slot_eq q pt (index_at v 12) (index_at v0 12)
                    (w.aligned q (omega (arith, q_last))) (w.aligned pt (omega (arith, last)))
                    (omega arith) (omega arith) e in
                let same_page : v / page ≡ v0 / page = omega (arith, b, at, q_at, ap prefix a) in
                absurd (ground (arith, miss, same_page)) in
            rw (found, apart) refl
      ])
    ]
