-- ===== src/Kernel/Syscall/Copy.antt =====
-- The transfers between the kernel and a user's memory in kernel/syscall.c: copy_from_user,
-- copy_to_user, copy_string, copy_path, copy_string_list. What they fill in is a part of the result,
-- `none` is -1. vmm_space_current is the active address space.
pub mod Bytes
pub mod Back
use narc_os.Common.{
  ℕ, zero, suc, ◌+◌, ◌-◌, ◌*◌, ◌/◌, ◌%◌, ◌^◌, Bool, true, false, Option, none, some,
}
use narc_os.Common.{List, [], ◌∷◌, ◌++◌, ◌==◌, leb, if◌then◌else◌, get_or, has, length}
use narc_os.Common.Ranges.{bytes_from}
use narc_os.Kernel.String.{Memory, memcpy}
use narc_os.Kernel.Vfs.Content.{chunk_at}
use narc_os.Kernel.Task.State.{Kernel, Mmu, put_fs}
use narc_os.Kernel.Syscall.{narc_ok, narc_invalid_argument, narc_bad_address}

-- VFS_PATH_MAX.
abbrev pub vfs_path_max : ℕ
vfs_path_max = 128

abbrev pub after_bytes : List ℕ → Option (List ℕ) → Option (List ℕ)
after_bytes l none = none
after_bytes l (some r) = some (l ++ r)

-- The loop of copy_from_user, a chunk of a page in each round.
unfoldable pub from_pages : ℕ → Mmu → (space : ℕ) → Memory → (src len : ℕ) → Option (List ℕ)
from_pages zero mmu space ram src len = some []
from_pages (suc fuel) mmu space ram src len =
    let p = mmu.phys space src in
    let chunk = chunk_at src len in
    let rest = from_pages fuel mmu space ram (src + chunk) (len - chunk) in
    if len == 0
    then some []
    else if p == 0
    then none
    else after_bytes (bytes_from (λ i. ram (p + i)) 0 chunk) rest

unfoldable pub copy_from_user : Mmu → Kernel → (src len : ℕ) → Option (List ℕ)
copy_from_user mmu k src len =
    if mmu.range_ok k.active src len false
    then from_pages len mmu k.active k.fs.ram src len
    else none

-- The loop of copy_to_user, with `source i` the byte at `in + i`.
unfoldable pub to_pages : ℕ → Mmu → (space dst : ℕ) → (ℕ → ℕ) → (len : ℕ) → Memory → Bool × Memory
to_pages zero mmu space dst source len ram = (true, ram)
to_pages (suc fuel) mmu space dst source len ram =
    let p = mmu.phys space dst in
    let chunk = chunk_at dst len in
    let rest =
      to_pages fuel mmu space (dst + chunk) (λ i. source (chunk + i)) (len - chunk)
        (memcpy ram p source chunk) in
    if len == 0 then (true, ram) else if p == 0 then (false, ram) else rest

-- `true` is a result of 0.
unfoldable pub copy_to_user : Mmu → Kernel → ℕ → List ℕ → Bool × Kernel
copy_to_user mmu k dst bytes =
    let (done, ram) =
      to_pages (length bytes) mmu k.active dst (λ i. get_or bytes i 0) (length bytes) k.fs.ram in
    if mmu.range_ok k.active dst (length bytes) true
    then (done, put_fs k (record k.fs { ram = ram }))
    else (false, k)

-- The string before its terminator, of which one of the first `n` bytes is.
unfoldable pub copy_string : Mmu → Kernel → (src n : ℕ) → Option (List ℕ)
copy_string mmu k src zero = none
copy_string mmu k src (suc n) =
    let rest = copy_string mmu k (src + 1) n in
    elim (copy_from_user mmu k src 1) [
      | none ↦ none
      | some b ↦ let c = get_or b 0 0 in if c == 0 then some [] else after_bytes (c ∷ []) rest
    ]

abbrev pub checked_path : Option (List ℕ) → ℕ × List ℕ
checked_path none = (narc_bad_address, [])
checked_path (some path) = if has 0 path then (narc_invalid_argument, []) else (narc_ok, path)

-- The status, and the path before its terminator if that is NARC_OK.
unfoldable pub copy_path : Mmu → Kernel → (address len : ℕ) → ℕ × List ℕ
copy_path mmu k address len =
    if len == 0
    then (narc_invalid_argument, [])
    else if leb vfs_path_max len
    then (narc_invalid_argument, [])
    else checked_path (copy_from_user mmu k address len)

-- The `n` low bytes of a word, and the word of a list of bytes.
unfoldable pub bytes_of : ℕ → ℕ → List ℕ
bytes_of zero w = []
bytes_of (suc n) w = w % 256 ∷ bytes_of n (w / 256)

unfoldable pub of_bytes : List ℕ → ℕ
of_bytes [] = 0
of_bytes (b ∷ r) = b + 256 * of_bytes r

abbrev pub add_string : Option (List ℕ) → Option (List (List ℕ)) → Option (List (List ℕ))
add_string none strings = none
add_string (some s) none = none
add_string (some s) (some strings) = some (s ∷ strings)

abbrev pub ends_here : Option (List ℕ) → Option (List (List ℕ))
ends_here none = none
ends_here (some b) = if of_bytes b == 0 then some [] else none

-- The loop of copy_string_list from pointer number `count` on, and the check of the terminator.
unfoldable pub string_list : ℕ → Mmu → Kernel → (address count : ℕ) → Option (List (List ℕ))
string_list zero mmu k address count = ends_here (copy_from_user mmu k (address + count * 8) 8)
string_list (suc n) mmu k address count =
    let rest = string_list n mmu k address (count + 1) in
    elim (copy_from_user mmu k (address + count * 8) 8) [
      | none ↦ none
      | some b ↦
          if of_bytes b == 0
          then some []
          else add_string (copy_string mmu k (of_bytes b) vfs_path_max) rest
    ]

unfoldable pub copy_string_list : Mmu → Kernel → ℕ → Option (List (List ℕ))
copy_string_list mmu k address = if address == 0 then some [] else string_list 16 mmu k address 0
