-- ===== src/Liumlib/Str/Length.antt =====
-- What `strlen` returns.
use liumos.Prelude.{ℕ, zero, suc, ◌+◌, ◌%◌, ◌^◌, ◌<◌, ◌≡◌, [], ◌∷◌, some, arith, length, ap, ◌∙◌}
use liumos.Memory.{Mem, Ptr, Bytes, CString}
use liumos.Liumlib.Str.{strlen_loop, strlen}

strlen_loop-length :
    (f : ℕ) (s : Bytes) (m : Mem) (p : Ptr) (len : ℕ)
    → CString m p s
    → length s < f
    → len + length s < 2 ^ 64
    → strlen_loop f m p len ≡ some (len + length s)
unfolding strlen_loop
strlen_loop-length zero s m p len h fuel small = absurd (omega arith)
strlen_loop-length (suc f) [] m p len h fuel small = ground arith
strlen_loop-length (suc f) (c ∷ cs) m p len h fuel small =
    ground (arith, strlen_loop-length f cs m (p + 1) ((len + 1) % 2 ^ 64) h.2)

-- With fuel above the length of the string at `p`, and a length that a `size_t` holds, `strlen`
-- returns that length.
pub strlen-length :
    (f : ℕ) (s : Bytes) (m : Mem) (p : Ptr)
    → CString m p s
    → length s < f
    → length s < 2 ^ 64
    → strlen f m p ≡ some (length s)
unfolding strlen
strlen-length f s m p h fuel small =
    strlen_loop-length f s m p 0 h fuel (omega arith) ∙ ap some (omega arith)
