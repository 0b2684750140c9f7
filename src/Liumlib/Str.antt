-- ===== src/Liumlib/Str.antt =====
-- The string functions of app/liumlib/liumlib.c, over a memory that they return.
-- A loop with no counter runs on fuel; `none` means that the fuel was used up.
pub mod Length
pub mod Copy
pub mod Compare
pub mod Search
pub mod Token
use liumos.Prelude.{
  ℕ, zero, suc, ◌+◌, ◌-◌, ◌%◌, ◌^◌, Bool, true, false, not, ◌||◌, Option, none, some, ltb, ◌==◌,
  if◌then◌else◌, ◌>>=◌,
}
use liumos.Prelude.Int.{ℤ, pos, negsuc, sub_ℕ}
use liumos.Memory.{Mem, Ptr, write}

strlen_loop : ℕ → Mem → (s : Ptr) → (len : ℕ) → Option ℕ
strlen_loop zero m s len = none
strlen_loop (suc f) m s len =
    let rest = strlen_loop f m (s + 1) ((len + 1) % 2 ^ 64) in if m s == 0 then some len else rest

unfoldable pub strlen : ℕ → Mem → Ptr → Option ℕ
unfolding strlen_loop
strlen f m s = strlen_loop f m s 0

strcpy_loop : ℕ → Mem → (dest src : Ptr) → Option Mem
strcpy_loop zero m dest src = none
strcpy_loop (suc f) m dest src =
    let rest = strcpy_loop f (write m dest (m src)) (dest + 1) (src + 1) in
    if m src == 0 then some m else rest

-- Each copying function returns its first argument, and so do these.
unfoldable pub strcpy : ℕ → Mem → (dest src : Ptr) → Option (Mem × Ptr)
unfolding strcpy_loop
strcpy f m dest src = do m' ← strcpy_loop f m dest src; some (m', dest)

strcat_loop : ℕ → Mem → (ptr src : Ptr) → Option Mem
strcat_loop zero m ptr src = none
strcat_loop (suc f) m ptr src =
    let rest = strcat_loop f (write m ptr (m src)) (ptr + 1) (src + 1) in
    if m src == 0 then some (write m ptr 0) else rest

unfoldable pub strcat : ℕ → Mem → (dest src : Ptr) → Option (Mem × Ptr)
unfolding strcat_loop
strcat f m dest src = do
  len ← strlen f m dest
  m' ← strcat_loop f m (dest + len) src
  some (m', dest)

strncat_loop : ℕ → Mem → (ptr src : Ptr) → (n : ℕ) → Option Mem
strncat_loop zero m ptr src n = none
strncat_loop (suc f) m ptr src n =
    let rest = strncat_loop f (write m ptr (m src)) (ptr + 1) (src + 1) (n - 1) in
    if m src == 0 || n == 0 then some (write m ptr 0) else rest

unfoldable pub strncat : ℕ → Mem → (dest src : Ptr) → (n : ℕ) → Option (Mem × Ptr)
unfolding strncat_loop
strncat f m dest src n = do
  len ← strlen f m dest
  m' ← strncat_loop f m (dest + len) src n
  some (m', dest)

-- The difference of the two bytes at which the loop stops, as `unsigned char`s.
unfoldable pub strcmp : ℕ → Mem → (s1 s2 : Ptr) → Option ℤ
strcmp zero m s1 s2 = none
strcmp (suc f) m s1 s2 =
    let rest = strcmp f m (s1 + 1) (s2 + 1) in
    if m s1 == 0 || not (m s1 == m s2) then some (sub_ℕ (m s1) (m s2)) else rest

-- The counter goes up to `n`; the first argument is what is left of it.
unfoldable pub strncmp : (n : ℕ) → Mem → (s1 s2 : Ptr) → ℕ
strncmp zero m s1 s2 = 0
strncmp (suc n) m s1 s2 =
    let rest = strncmp n m (s1 + 1) (s2 + 1) in
    if m s1 == 0 || m s2 == 0 then 0 else if not (m s1 == m s2) then 1 else rest

-- A `size_t` put into an `int` and handed on as an `unsigned long`.
abbrev pub through_int : ℕ → ℕ
through_int n = let low = n % 2 ^ 32 in if ltb low (2 ^ 31) then low else low + (2 ^ 64 - 2 ^ 32)

strstr_loop : ℕ → Mem → (haystack needle : Ptr) → (needle_len : ℕ) → Option Ptr
strstr_loop zero m haystack needle needle_len = none
strstr_loop (suc f) m haystack needle needle_len =
    let rest = strstr_loop f m (haystack + 1) needle needle_len in
    if m haystack == 0
    then some 0
    else if strncmp needle_len m haystack needle == 0
    then some haystack
    else rest

-- The result 0 is `NULL`.
unfoldable pub strstr : ℕ → Mem → (haystack needle : Ptr) → Option Ptr
unfolding strstr_loop strncmp
strstr f m haystack needle = do
  len ← strlen f m needle
  strstr_loop f m haystack needle (through_int len)

-- The loop of `strtok` over the delimiters; the first argument is how many are left.
is_delim : ℕ → Mem → (delim : Ptr) → (c : ℕ) → Bool
is_delim zero m delim c = false
is_delim (suc n) m delim c = c == m delim || is_delim n m (delim + 1) c

-- The memory, the new `save_ptr` and the token.
strtok_loop : ℕ → ℕ → Mem → (delim start str : Ptr) → Option (Mem × Ptr × Ptr)
strtok_loop g zero m delim start str = none
strtok_loop g (suc f) m delim start str =
    let rest = strtok_loop g f m delim start (str + 1) in
    if m str == 0 then some (m, str, start) else do
      len ← strlen g m delim
      if is_delim len m delim (m str) then some (write m str 0, str + 1, start) else rest

-- `save_ptr` is the static variable of the function.
unfoldable pub strtok : ℕ → Mem → (save_ptr : Ptr) → (str delim : Ptr) → Option (Mem × Ptr × Ptr)
unfolding strtok_loop strlen is_delim
strtok f m save_ptr str delim =
    let start = if str == 0 then save_ptr else str in strtok_loop f f m delim start start
