-- ===== src/Userland/Pablo/Config.antt =====
-- userland/pablo/src/config.c. What pablo_read_file finds at a path and what readdir yields are
-- arguments; a file's text is its bytes before the first zero byte. `none` is a result of -1.
pub mod Sort
use narc_os.Common.{ℕ, zero, suc, ◌+◌, ◌-◌, Bool, true, false, ◌&&◌, ◌||◌, not, Option, none, some}
use narc_os.Common.{List, [], ◌∷◌, ◌++◌, ◌==◌, leb, ltb, if◌then◌else◌, length, get_or, take}
use narc_os.Common.{bytes_eq, is_nil}
use narc_os.Common.Text.{codes}
use Prim.Native.Nat.{compare, Ordering}
use mathlib.Core.List.{reverse}
use narc_os.Userland.Pablo.Text.{pablo_trim, pablo_copy, pablo_has_suffix, pablo_parse_unsigned}
use narc_os.Userland.Pablo.Service.{Service, Config, Policy, once, respawn, blank}
use narc_os.Userland.Pablo.Service.{pablo_service_validate}

-- PABLO_NAME_MAX, PABLO_SERVICE_FILE_MAX, PABLO_PATH_MAX, PABLO_ARG_MAX, PABLO_ARG_LENGTH.
abbrev pub name_max : ℕ
name_max = 32

abbrev pub service_file_max : ℕ
service_file_max = 40

abbrev pub path_max : ℕ
path_max = 128

abbrev pub arg_max : ℕ
arg_max = 8

abbrev pub arg_length : ℕ
arg_length = 64

abbrev pub service_max : ℕ
service_max = 16

-- What comes of reading a file or of opening a directory: ENOENT is told apart.
pub data Outcome {ℓ} (A : Type ℓ) : Type ℓ where
  got : A → Outcome A
  missing : Outcome A
  error : Outcome A

-- The text before the first byte `c`, and the text behind it if there is one.
unfoldable pub before_byte : ℕ → List ℕ → List ℕ
before_byte c [] = []
before_byte c (x ∷ r) = let rest = before_byte c r in if x == c then [] else x ∷ rest

unfoldable pub behind_byte : ℕ → List ℕ → Option (List ℕ)
behind_byte c [] = none
behind_byte c (x ∷ r) = let rest = behind_byte c r in if x == c then some r else rest

abbrev pub setting : List ℕ → List ℕ → Option (List ℕ × List ℕ)
setting key value = if is_nil key || is_nil value then none else some (key, value)

abbrev pub setting_behind : List ℕ → Option (List ℕ) → Option (List ℕ × List ℕ)
setting_behind key none = none
setting_behind key (some value) = setting (pablo_trim key) (pablo_trim value)

unfoldable pub split_setting : List ℕ → Option (List ℕ × List ℕ)
split_setting line = setting_behind (before_byte b'=' line) (behind_byte b'=' line)

-- next_line: where the cursor stands behind the line.
abbrev pub or_end : Option (List ℕ) → List ℕ
or_end none = []
or_end (some r) = r

abbrev pub next_cursor : List ℕ → List ℕ
next_cursor cursor = or_end (behind_byte 10 cursor)

-- A line with nothing to do: empty after trimming, or a comment.
abbrev pub idle : List ℕ → Bool
idle [] = true
idle (c ∷ r) = c == b'#'

abbrev pub bind {ℓ κ} : {A : Type ℓ} {B : Type κ} → Option A → (A → Option B) → Option B
bind none f = none
bind (some a) f = f a

-- `while (next_line(&cursor, &line))` over a state. Every line takes a byte of the text at least.
unfoldable pub each_line {ℓ} : {S : Type ℓ} → ℕ → (S → List ℕ → Option S) → S → List ℕ → Option S
each_line zero act s cursor = none
each_line (suc fuel) act s [] = some s
each_line (suc fuel) act s (c ∷ r) =
    let line = pablo_trim (before_byte 10 (c ∷ r)) in
    let skip = each_line fuel act s (next_cursor (c ∷ r)) in
    let go = bind (act s line) (λ t. each_line fuel act t (next_cursor (c ∷ r))) in
    if idle line then skip else go

abbrev pub lines {ℓ} : {S : Type ℓ} → (S → List ℕ → Option S) → S → List ℕ → Option S
lines act s text = each_line (suc (length text)) act s (before_byte 0 text)

unfoldable pub apply_setting : Config → List ℕ → ℕ → Option Config
apply_setting c key number =
    if bytes_eq key (codes "restart_limit")
    then some (record c { restart_limit = number })
    else if bytes_eq key (codes "restart_delay")
    then some (record c { restart_delay = number })
    else none

-- The body of the loop in load_settings.
unfoldable pub settings_line : Config → List ℕ → Option Config
settings_line c line =
    bind (split_setting line) λ kv. bind (pablo_parse_unsigned kv.1) λ n. apply_setting c kv.0 n

unfoldable pub load_settings : Config → Outcome (List ℕ) → Option Config
load_settings c missing = some c
load_settings c error = none
load_settings c (got text) = lines settings_line c text

abbrev pub suffix : List ℕ
suffix = codes ".service"

unfoldable pub service_name : List ℕ → Option (List ℕ)
service_name filename =
    let n = length filename - length suffix in
    if not (pablo_has_suffix filename suffix)
    then none
    else if n == 0 || leb name_max n
    then none
    else some (take n filename)

unfoldable pub parse_policy : List ℕ → Option Policy
parse_policy value =
    if bytes_eq value (codes "once")
    then some once
    else if bytes_eq value (codes "respawn")
    then some respawn
    else none

abbrev pub add_argument : Service → List ℕ → Option Service
add_argument s value =
    if leb arg_max (length s.arguments)
    then none
    else bind (pablo_copy arg_length value)
        λ a. some (record s { arguments = s.arguments ++ a ∷ [] })

unfoldable pub apply_entry : Service → List ℕ → List ℕ → Option Service
apply_entry s key value =
    if bytes_eq key (codes "exec")
    then bind (pablo_copy path_max value) (λ p. some (record s { path = p }))
    else if bytes_eq key (codes "after")
    then bind (pablo_copy name_max value) (λ a. some (record s { after = a }))
    else if bytes_eq key (codes "policy")
    then bind (parse_policy value) (λ p. some (record s { policy = p }))
    else if bytes_eq key (codes "arg")
    then add_argument s value
    else none

unfoldable pub parse_service_line : Service → List ℕ → Option Service
parse_service_line s line = bind (split_setting line) λ kv. apply_entry s kv.0 kv.1

abbrev pub with_path : Option Service → Option Service
with_path none = none
with_path (some s) = if is_nil s.path then none else some s

abbrev pub service_text : Service → Outcome (List ℕ) → Option Service
service_text s missing = none
service_text s error = none
service_text s (got text) = with_path (lines parse_service_line s text)

-- `read` is pablo_read_file.
unfoldable pub load_service : (read : List ℕ → Outcome (List ℕ)) → List ℕ → List ℕ → Option Service
load_service read directory filename = bind (service_name filename) λ name.
    if ltb path_max (length directory + length filename + 2)
    then none
    else service_text (record blank { name = name }) (read (directory ++ b'/' ∷ filename))

-- strcmp on bytes: the sign of its result.
unfoldable pub strcmp : List ℕ → List ℕ → Ordering
strcmp [] [] = Ordering.eq
strcmp [] (y ∷ ys) = Ordering.lt
strcmp (x ∷ xs) [] = Ordering.gt
strcmp (x ∷ xs) (y ∷ ys) =
    let rest = strcmp xs ys in
    elim (compare x y) [
      | Ordering.eq ↦ rest
      | Ordering.lt ↦ Ordering.lt
      | Ordering.gt ↦ Ordering.gt
    ]

abbrev pub is_after : List ℕ → List ℕ → Bool
is_after a b = elim (strcmp a b) [ Ordering.gt ↦ true | _ ↦ false ]

-- The inner loop of sort_names: `current` goes down from the end past the names that come after it.
-- The sorted names are held last name first.
unfoldable pub sink : List ℕ → List (List ℕ) → List (List ℕ)
sink current [] = current ∷ []
sink current (n ∷ r) = if is_after n current then n ∷ sink current r else current ∷ n ∷ r

unfoldable pub sort_onto : List (List ℕ) → List (List ℕ) → List (List ℕ)
sort_onto sorted [] = sorted
sort_onto sorted (n ∷ r) = sort_onto (sink n sorted) r

unfoldable pub sort_names : List (List ℕ) → List (List ℕ)
sort_names names = reverse (sort_onto [] names)

-- The loop over the directory's entries in load_services, with the names found so far.
unfoldable pub collect_names : List (List ℕ) → List (List ℕ) → Option (List (List ℕ))
collect_names names [] = some names
collect_names names (entry ∷ r) =
    let skip = collect_names names r in
    let add = collect_names (names ++ entry ∷ []) r in
    if get_or entry 0 0 == b'.' || not (pablo_has_suffix entry suffix)
    then skip
    else if leb service_max (length names) || leb service_file_max (length entry)
    then none
    else add

unfoldable pub load_each :
    (read : List ℕ → Outcome (List ℕ)) → List ℕ → Config → List (List ℕ) → Option Config
load_each read directory c [] = some c
load_each read directory c (n ∷ r) =
    bind (load_service read directory n)
      λ s. load_each read directory (record c { services = c.services ++ s ∷ [] }) r

-- `closed` says whether closedir succeeds.
unfoldable pub load_services :
    (read : List ℕ → Outcome (List ℕ))
    → Config
    → List ℕ
    → Outcome (List (List ℕ))
    → (closed : Bool) → Option Config
load_services read c directory missing closed = some c
load_services read c directory error closed = none
load_services read c directory (got entries) closed =
    bind (collect_names [] entries)
      λ names. if closed then load_each read directory c (sort_names names) else none

abbrev pub defaults : Config
defaults = record { services = []; restart_limit = 5; restart_delay = 64 }

-- `none` when the configuration is rejected.
unfoldable pub pablo_config_load :
    (read : List ℕ → Outcome (List ℕ))
    → List ℕ
    → List ℕ
    → Outcome (List (List ℕ))
    → (closed : Bool) → Option Config
pablo_config_load read settings_path services_path entries closed =
    bind (load_settings defaults (read settings_path)) λ c.
      bind (load_services read c services_path entries closed)
        λ d. if pablo_service_validate d.services then some d else none
