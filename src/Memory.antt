-- ===== src/Memory.antt =====
-- The address space of a user program: a byte at every address, as app/liumlib/liumlib.c sees it
-- through `char *`. Addresses are unbounded, so a pointer that is advanced never wraps.
pub mod Store
use liumos.Prelude.{ℕ, zero, suc, ◌+◌, ◌≡◌, ◌≢◌, List, [], ◌∷◌, ◌==◌, if◌then◌else◌}

abbrev pub Ptr : Type 0
Ptr = ℕ

abbrev pub Mem : Type 0
Mem = Ptr → ℕ

abbrev pub Bytes : Type 0
Bytes = List ℕ

-- `*p = v`, for a `v` that is a byte.
unfoldable pub write : Mem → Ptr → ℕ → Mem
write m p v a = if a == p then v else m a

-- `s` stands at `p`: its bytes are not NUL, and a NUL follows them.
abbrev pub CString : Mem → Ptr → Bytes → Type 0
CString m p [] = m p ≡ 0
CString m p (c ∷ cs) = (m p ≡ c) × (c ≢ 0) × CString m (p + 1) cs

-- The bytes of a list, written one after the other from `p` on.
unfoldable pub store : Mem → Ptr → Bytes → Mem
store m p [] = m
store m p (c ∷ cs) = store (write m p c) (p + 1) cs

-- The `n` bytes from `p` on.
unfoldable pub read : Mem → Ptr → ℕ → Bytes
read m p zero = []
read m p (suc n) = m p ∷ read m (p + 1) n
