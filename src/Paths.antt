-- ===== src/Paths.antt =====
-- src/sysapi/posix/misc.cpp: file names.
pub mod Unsafe
pub mod Split
pub mod Trim
pub mod Make
use instant_send.Prelude.{
  ℕ, zero, suc, ◌+◌, ◌-◌, Bool, true, false, not, ◌&&◌, List, [], ◌∷◌, ◌++◌, Option, none, some,
  ltb, ◌==◌, if◌then◌else◌, Bytes, first_byte, length, take, drop, codes,
}

abbrev pub slash : ℕ
slash = b'/'

unfoldable pub combine_path : Bytes → Bytes → Bytes
combine_path dir file = dir ++ (slash ∷ file)

-- `path[i]`, NUL behind the end.
abbrev pub byte_at : Bytes → ℕ → ℕ
byte_at path i = first_byte (drop i path)

-- The loop of `getFileName`, from the index that it tests.
pub back_to_slash : Bytes → ℕ → ℕ
back_to_slash path zero = zero
back_to_slash path (suc i) = if byte_at path (suc i) == slash then suc i else back_to_slash path i

-- `none` is a read far outside the string: at an empty path the index wraps to its greatest value.
unfoldable pub get_file_name : Bytes → Option ℕ
get_file_name [] = none
get_file_name (c ∷ cs) =
    let i = back_to_slash (c ∷ cs) (length cs) in
    some (if byte_at (c ∷ cs) i == slash then i + 1 else i)

-- The loop of `trimSlashes`, from the index that it tests.
pub back_over_slashes : Bytes → ℕ → ℕ
back_over_slashes path zero = zero
back_over_slashes path (suc i) =
    if byte_at path (suc i) == slash then back_over_slashes path i else suc i

-- `none` as above.
unfoldable pub trim_slashes : Bytes → Option Bytes
trim_slashes [] = none
trim_slashes (c ∷ cs) =
    let path = c ∷ cs in
    let i = back_over_slashes path (length cs) in
    if i == 0
    then some (slash ∷ [])
    else if ltb (i + 1) (length path)
    then some (take (i + 1) path)
    else some path

-- `state` after a byte that is no slash.
unfoldable pub dots : ℕ → ℕ → ℕ
dots state c = if c == b'.' && (ltb 0 state && ltb state 3) then state + 1 else 0

-- The loop of `pathIsUnsafe`; `i` is what it compares with 3 at the end.
unfoldable pub scan_path : ℕ → ℕ → Bytes → Bool
scan_path i state [] = i == 3
scan_path i state (c ∷ cs) =
    if c == slash
    then (if state == 3 then true else scan_path (i + 1) 1 cs)
    else scan_path (i + 1) (dots state c) cs

unfoldable pub path_is_unsafe : Bytes → Bool
path_is_unsafe path = scan_path 0 1 path

-- `path.rfind('/')`
pub rfind_slash : Bytes → Option ℕ
rfind_slash [] = none
rfind_slash (c ∷ cs) = elim (rfind_slash cs) [
  | some i ↦ some (suc i)
  | none ↦ if c == slash then some 0 else none
]

-- The loop of `makePath`: what is given to `mkdir`, the part of `directory` before each slash.
pub prefixes : Bytes → Bytes → List Bytes
prefixes before [] = []
prefixes before (c ∷ cs) =
    let more = prefixes (before ++ c ∷ []) cs in if c == slash then before ∷ more else more

unfoldable pub directory_of : Bytes → Bytes
directory_of path = elim (rfind_slash path) [ some i ↦ take i path | none ↦ path ]

-- The calls of `mkdir` in their order, if none fails.
unfoldable pub make_path : Bytes → List Bytes
make_path path =
    let directory = directory_of path in
    let from : ℕ = if first_byte directory == slash then 1 else 0 in
    prefixes (take from directory) (drop from directory) ++ directory ∷ []
