-- ===== src/Tests/Strings.antt =====
-- The string and block functions of app/liumlib/liumlib.c at small memories.
use liumos.Prelude.{ℕ, ◌+◌, ◌%◌, ◌-◌, ◌<◌, ◌≡◌, inl, inr, refl, some, [], ◌∷◌, ◌++◌, arith, codes}
use liumos.Prelude.Int.{ℤ}
use liumos.Memory.{Mem, Ptr, write, store, read, CString}
use liumos.Memory.Store.{Outside}
use liumos.Liumlib.Str.{strlen, strcpy, strcat, strcmp, strncmp, strstr, strtok}
use liumos.Liumlib.Str.Copy.{strcpy-CString_iff, strcat-append}
use liumos.Liumlib.Str.Compare.{Orders, strcmp-Orders}
use liumos.Liumlib.Str.Search.{Finds, strstr-Finds}
use liumos.Liumlib.Str.Token.{Token, strtok-Token}
use liumos.Liumlib.Block.{memmove}
use liumos.Liumlib.Block.Move.{memmove-store, memmove_overlap}

-- "ab c" at 100 and "ab" at 200, and zeros elsewhere.
abbrev m : Mem
m = store (store (λ _. 0) 100 (codes "ab c")) 200 (codes "ab")

abc : CString m 100 (codes "ab c")
unfolding store write
abc = omega arith

ab : CString m 200 (codes "ab")
unfolding store write
ab = omega arith

strcpy-CString_iff_example :
    (m' : Mem) × (strcpy 9 m 300 200 ≡ some (m', 300))
    × (CString m' 300 (codes "ab") → m (300 + 2) ≡ 0)
    × (m (300 + 2) ≡ 0 → CString m' 300 (codes "ab"))
strcpy-CString_iff_example =
    strcpy-CString_iff 9 (codes "ab") m 300 200 ab (omega arith) (inr (omega arith))

-- A copy over a longer string leaves its tail.
strcpy_keeps_tail : strcpy 9 m 100 200 ≡ some (store m 100 (codes "ab"), 100)
unfolding strcpy store write
strcpy_keeps_tail = refl

strcat-append_example :
    (strcat 9 m 100 200 ≡ some (store m 104 (codes "ab" ++ 0 ∷ []), 100))
    × CString (store m 104 (codes "ab" ++ 0 ∷ [])) 100 (codes "ab cab")
strcat-append_example =
    strcat-append 9 (codes "ab c") (codes "ab") m 100 200 abc ab (omega arith) (omega arith)
      (omega arith) (inl (omega arith))

strcmp-Orders_example :
    (z : ℤ) × (strcmp 9 m 100 200 ≡ some z) × Orders z (codes "ab c") (codes "ab")
strcmp-Orders_example = strcmp-Orders 9 (codes "ab c") (codes "ab") m 100 200 abc ab (omega arith)

-- A string and a longer one that begins with it are not told apart.
strncmp_prefix : strncmp 4 m 100 200 ≡ 0
unfolding strncmp store write
strncmp_prefix = refl

strstr-Finds_example :
    (r : Ptr) × (strstr 9 m 200 100 ≡ some r) × Finds (codes "ab c") (codes "ab") 200 r
strstr-Finds_example =
    strstr-Finds 9 (codes "ab") (codes "ab c") m 200 100 ab abc (omega arith) (omega arith)
      (omega arith)

-- "ab c" is said to be found in "ab".
strstr_short_haystack : strstr 9 m 200 100 ≡ some 200
unfolding strstr strlen store write
strstr_short_haystack = refl

-- A space, the delimiter, at 400.
abbrev spaced : Mem
spaced = store m 400 (codes " ")

strtok-Token_example : Token spaced (codes " ") (codes "ab c") 100 100 (strtok 9 spaced 0 100 400)
unfolding store write
strtok-Token_example =
    strtok-Token 9 (codes " ") (codes "ab c") spaced 0 100 400 100 (omega arith) (omega arith)
      (inl (refl, omega arith)) (omega arith) (omega arith) (omega arith)

memmove-store_example : memmove m 99 100 4 ≡ some (store m 99 (read m 100 4), 99)
memmove-store_example = memmove-store m 99 100 4 (inl (omega arith)) (omega arith)

memmove_overlap_example :
    (m' : Mem) × (memmove m 101 100 3 ≡ some (m', 101))
    × ((i : ℕ) → i < 3 → m' (101 + i) ≡ m (100 + i % (101 - 100)))
    × ((a : ℕ) → Outside a 101 3 → m' a ≡ m a)
memmove_overlap_example = memmove_overlap m 101 100 3 (omega arith) (omega arith) (omega arith)
