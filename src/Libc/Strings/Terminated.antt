-- ===== src/Libc/Strings/Terminated.antt =====
-- lib/libc/src/string: the functions on strings that a zero byte ends.
use narc_os.Common.{
  ℕ, zero, suc, ◌+◌, ◌-◌, ◌≤◌, ◌<◌, ◌≡◌, ◌≢◌, ◌↔◌, refl, sym, ◌∙◌, true, false, ◌==◌, ◌!=◌,
  if◌then◌else◌, arith,
}
use narc_os.Common.{==_ne, Bool-cases, inl, inr, ◌⊎◌, ap, some, ltb}
use narc_os.Kernel.String.{Memory, poke, inside}
use narc_os.Libc.Strings.{length_from, strlen, ncpy_from, strncpy, strcmp}

-- At `p` stands a string of `n` bytes, ended by a zero byte.
abbrev pub IsString : Memory → ℕ → ℕ → Type 0
IsString m p n = ((i : ℕ) → i < n → m (p + i) ≢ 0) × (m (p + n) ≡ 0)

length_from_lem :
    (m : Memory) (p i n fuel : ℕ)
    → ((j : ℕ) → j < i + n → m (p + j) ≢ 0)
    → m (p + (i + n)) ≡ 0
    → n < fuel
    → length_from fuel m p i ≡ some (i + n)
unfolding length_from
length_from_lem m p i n zero h z lt = absurd (omega arith)
length_from_lem m p i zero (suc fuel) h z lt =
    let e : i + 0 ≡ i = omega arith in let here : m (p + i) ≡ 0 = rw (e) at z in rw (e, here) refl
length_from_lem m p i (suc n) (suc fuel) h z lt =
    let e : i + suc n ≡ i + 1 + n = omega arith in
    let ne : m (p + i) == 0 ≡ false = ==_ne (m (p + i)) 0 (h i (omega arith)) in
    rw (ne, e)
      (length_from_lem m p (i + 1) n fuel (λ j k. h j (omega arith)) (rw e at z) (omega arith))

-- On a string with a zero byte strlen ends, within one round more than the length, and yields it.
pub strlen_lem : (m : Memory) (p n fuel : ℕ) → IsString m p n → n < fuel → strlen fuel m p ≡ some n
unfolding strlen
strlen_lem m p n fuel h lt =
    let e : 0 + n ≡ n = omega arith in
    rw (← e) (length_from_lem m p 0 n fuel (λ j k. h.0 j (omega arith)) (rw e h.1) lt)

IsString-tail : (m : Memory) (p n : ℕ) → IsString m p (suc n) → IsString m (p + 1) n
IsString-tail m p n h =
    let e : (i : ℕ) → p + 1 + i ≡ p + suc i = (λ i. omega arith) in
    (λ i lt. rw (e i) (h.0 (suc i) (omega arith)), rw (e n) h.1)

agree_from :
    (m : Memory) (left right n : ℕ)
    → m left ≡ m right
    → ((i : ℕ) → i ≤ n → m (left + 1 + i) ≡ m (right + 1 + i))
    → (i : ℕ) → i ≤ suc n
    → m (left + i) ≡ m (right + i)
agree_from m left right n h rest zero le =
    let e : (a : ℕ) → a + 0 ≡ a = (λ a. omega arith) in rw (e left, e right) h
agree_from m left right n h rest (suc i) le =
    let e : (a : ℕ) → a + suc i ≡ a + 1 + i = (λ a. omega arith) in
    rw (e left, e right) (rest i (omega arith))

-- strcmp on a string ends, within one round more than its length, and the difference that it yields
-- is 0 exactly when the other place holds the same string.
pub strcmp_lem :
    (m : Memory) (left right n fuel : ℕ)
    → IsString m left n
    → n < fuel
    → (x : ℕ) × (y : ℕ) × (strcmp fuel m left right ≡ some (x, y))
      × ((x ≡ y) ↔ ((i : ℕ) → i ≤ n → m (left + i) ≡ m (right + i)))
unfolding strcmp
strcmp_lem m left right n zero h lt = absurd (omega arith)
strcmp_lem m left right zero (suc fuel) h lt =
    let e : (a : ℕ) → a + 0 ≡ a = (λ a. omega arith) in
    let here : m left ≡ 0 = rw (e left) at h.1 in
    (
      0,
      m right,
      rw here refl,
      (
        λ s i le. let z : i ≡ 0 = omega arith in rw (z, e left, e right) (here ∙ s),
        λ s. sym here ∙ rw (e left, e right) at (s 0 (omega arith)),
      ),
    )
strcmp_lem m left right (suc n) (suc fuel) h lt =
    let zero_off : (a : ℕ) → a + 0 ≡ a = (λ a. omega arith) in
    let shift : (a i : ℕ) → a + 1 + i ≡ a + suc i = (λ a i. omega arith) in
    let some_byte : (m left != 0) ≡ true =
      ground (arith, rw (zero_off left) at (h.0 0 (omega arith))) in
    elim (Bool-cases (m left == m right)) [
      | inl same ↦
          let (x, y, result, both) =
            strcmp_lem m (left + 1) (right + 1) n fuel (IsString-tail m left n h) (omega arith) in
          (
            x,
            y,
            rw (some_byte, same) result,
            (
              λ s i le. agree_from m left right n (ground (arith, same)) (both.0 s) i le,
              λ s. both.1 λ i le. rw (shift left i, shift right i) (s (suc i) (omega arith)),
            ),
          )
      | inr differ ↦ (
        m left,
        m right,
        rw (some_byte, differ) refl,
        (
          λ s i le. absurd (ground (arith, s)),
          λ s. ground (arith, rw (zero_off left, zero_off right) at (s 0 (omega arith))),
        ),
      )
    ]

-- The rounds of strncpy after its source has ended, and those before.
padded :
    (m : Memory) (dst src i n a : ℕ)
    → ncpy_from m dst src true i n a ≡ (if inside (dst + i) n a then 0 else m a)
unfolding ncpy_from
padded m dst src i zero a = ground arith
padded m dst src i (suc n) a = ground (arith, padded (poke m (dst + i) 0) dst src (i + 1) n a)

-- The ranges of `n` bytes that the two pointers lead to do not overlap.
abbrev pub Apart : ℕ → ℕ → ℕ → Type 0
Apart dst src n = (dst + n ≤ src) ⊎ (src + n ≤ dst)

strncpy_from :
    (m : Memory) (f : ℕ → ℕ) (dst src i n limit len a : ℕ)
    → Apart dst src limit
    → i + n ≡ limit
    → ((j : ℕ) → j < limit → m (src + j) ≡ f j)
    → ((j : ℕ) → j < len → f j ≢ 0)
    → f len ≡ 0
    → i ≤ len
    → ncpy_from m dst src false i n a
      ≡ (if inside (dst + i) n a then (if ltb (a - dst) len then f (a - dst) else 0) else m a)
unfolding ncpy_from
strncpy_from m f dst src i zero limit len a apart e same h z le = ground arith
strncpy_from m f dst src i (suc n) limit len a apart e same h z le =
    let here : m (src + i) ≡ f i = same i (omega arith) in
    elim (Bool-cases (i == len)) [
      | inl ended ↦
          let at : i ≡ len = ground arith in
          let zero_byte : m (src + i) ≡ 0 = here ∙ ap f at ∙ z in
          rw zero_byte (padded (poke m (dst + i) 0) dst src (i + 1) n a ∙ ground (arith, at))
      | inr more ↦
          let lt : i < len = ground (arith, more) in
          let byte : (f i == 0) ≡ false = ==_ne (f i) 0 (h i lt) in
          rw (here, byte)
            (strncpy_from (poke m (dst + i) (f i)) f dst src (i + 1) n limit len a apart
                (omega arith)
                (λ j k.
                  let other : (src + j == dst + i) ≡ false = ground (arith, apart) in
                  rw other (same j k))
                h z (omega arith)
              ∙ written lt)
    ]
  where
    written :
        i < len
        → (if inside (dst + (i + 1)) n a
            then (if ltb (a - dst) len then f (a - dst) else 0)
            else poke m (dst + i) (f i) a)
          ≡ (if inside (dst + i) (suc n) a
              then (if ltb (a - dst) len then f (a - dst) else 0)
              else m a)
    written lt = elim (Bool-cases (a == dst + i)) [
      | inl at ↦ let e2 : a - dst ≡ i = ground arith in rw e2 (ground (arith, at, lt))
      | inr other ↦ ground (arith, other)
    ]

-- strncpy from a string of `len` bytes writes them, as far as they go, then zero bytes up to the limit,
-- and nothing else, when the destination is apart from the source.
pub strncpy_at :
    (m : Memory) (dst src limit len a : ℕ)
    → Apart dst src limit
    → IsString m src len
    → strncpy m dst src limit a
      ≡ (if inside dst limit a then (if ltb (a - dst) len then m (src + (a - dst)) else 0) else m a)
unfolding strncpy
strncpy_at m dst src limit len a apart h =
    strncpy_from m (λ j. m (src + j)) dst src 0 limit limit len a apart (omega arith) (λ j k. refl)
      h.0 h.1 (omega arith)
    ∙ ground arith
