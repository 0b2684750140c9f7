-- ===== src/Liumlib/Str/Copy.antt =====
-- `strcpy`, `strcat` and `strncat`: the whole memory that they leave.
use liumos.Prelude.{
  ℕ, zero, suc, ◌+◌, ◌-◌, ◌^◌, ◌<◌, ◌≤◌, ◌≡◌, ◌≢◌, ◌⊎◌, inl, inr, [], ◌∷◌, ◌++◌, some, arith,
  length, sym, ◌∙◌, All, All-take, take,
}
use liumos.Memory.{Mem, Ptr, Bytes, CString, write, store}
use liumos.Memory.Store.{
  write_ne, store-Outside, CString-frame, CString-store, CString-nonzero, CString-end,
  CString-store_over, CString-join,
}
use liumos.Liumlib.Str.{strcpy_loop, strcpy, strcat_loop, strcat, strncat_loop, strncat}
use liumos.Liumlib.Str.Length.{strlen-length}

-- The `k` bytes from `dest` on spare the `n` bytes from `src` on and the byte behind those.
abbrev pub Apart : (dest : Ptr) (k : ℕ) (src : Ptr) (n : ℕ) → Type 0
Apart dest k src n = (dest + k ≤ src) ⊎ (src + n < dest)

CString-write :
    (s : Bytes) (m : Mem) (p dest : Ptr) (v : ℕ)
    → CString m p s
    → Apart dest 1 p (length s)
    → CString (write m dest v) p s
CString-write s m p dest v h apart =
    CString-frame s (write m dest v) p h (λ a lo hi. write_ne m dest v a (omega arith))

strcpy_loop-store :
    (f : ℕ) (s : Bytes) (m : Mem) (dest src : Ptr)
    → CString m src s
    → length s < f
    → Apart dest (length s) src (length s)
    → strcpy_loop f m dest src ≡ some (store m dest s)
unfolding strcpy_loop store
strcpy_loop-store zero s m dest src h fuel apart = absurd (omega arith)
strcpy_loop-store (suc f) [] m dest src h fuel apart = ground arith
strcpy_loop-store (suc f) (c ∷ cs) m dest src h fuel apart =
    let kept = CString-write cs m (src + 1) dest c h.2 (omega arith) in
    let rest =
      strcpy_loop-store f cs (write m dest c) (dest + 1) (src + 1) kept (omega arith)
        (omega arith) in
    ground (arith, rest)

strcat_loop-store :
    (f : ℕ) (s : Bytes) (m : Mem) (dest src : Ptr)
    → CString m src s
    → length s < f
    → Apart dest (length s) src (length s)
    → strcat_loop f m dest src ≡ some (store m dest (s ++ 0 ∷ []))
unfolding strcat_loop store
strcat_loop-store zero s m dest src h fuel apart = absurd (omega arith)
strcat_loop-store (suc f) [] m dest src h fuel apart = ground arith
strcat_loop-store (suc f) (c ∷ cs) m dest src h fuel apart =
    let kept = CString-write cs m (src + 1) dest c h.2 (omega arith) in
    let rest =
      strcat_loop-store f cs (write m dest c) (dest + 1) (src + 1) kept (omega arith)
        (omega arith) in
    ground (arith, rest)

-- With enough fuel, a source string of `s` and a destination apart from it, `strcpy` returns the
-- destination and writes the bytes of `s` there and nothing else: it writes no NUL behind them.
pub strcpy-store :
    (f : ℕ) (s : Bytes) (m : Mem) (dest src : Ptr)
    → CString m src s
    → length s < f
    → Apart dest (length s) src (length s)
    → strcpy f m dest src ≡ some (store m dest s, dest)
unfolding strcpy
strcpy-store f s m dest src h fuel apart =
    ground (arith, strcpy_loop-store f s m dest src h fuel apart)

-- What `dest` holds after `strcpy` is the string `s` exactly when the byte behind the copied ones
-- was NUL before the call.
pub strcpy-CString_iff :
    (f : ℕ) (s : Bytes) (m : Mem) (dest src : Ptr)
    → CString m src s
    → length s < f
    → Apart dest (length s) src (length s)
    → (m' : Mem) × (strcpy f m dest src ≡ some (m', dest))
      × (CString m' dest s → m (dest + length s) ≡ 0)
      × (m (dest + length s) ≡ 0 → CString m' dest s)
strcpy-CString_iff f s m dest src h fuel apart =
    let keeps = store-Outside s m dest (dest + length s) (inr (omega arith)) in
    (
      store m dest s,
      strcpy-store f s m dest src h fuel apart,
      (λ k. sym keeps ∙ CString-end s (store m dest s) dest k),
      (λ e. CString-store_over s m dest (CString-nonzero s m src h) e),
    )

CString-append :
    (d s : Bytes) (m : Mem) (dest : Ptr)
    → CString m dest d
    → All (λ c. c ≢ 0) s
    → CString (store m (dest + length d) (s ++ 0 ∷ [])) dest (d ++ s)
CString-append d s m dest h k =
    let m' = store m (dest + length d) (s ++ 0 ∷ []) in
    CString-join d s m m' dest h
      (λ a lt. store-Outside (s ++ 0 ∷ []) m (dest + length d) a (inl lt))
      (CString-store s m (dest + length d) k)

-- With enough fuel, strings `d` at the destination and `s` at a source that the appended bytes
-- spare, `strcat` returns the destination, writes `s` and a NUL behind `d` and nothing else, and
-- the destination then holds `d ++ s`.
pub strcat-append :
    (f : ℕ) (d s : Bytes) (m : Mem) (dest src : Ptr)
    → CString m dest d
    → CString m src s
    → length d < f
    → length s < f
    → length d < 2 ^ 64
    → Apart (dest + length d) (length s) src (length s)
    → (strcat f m dest src ≡ some (store m (dest + length d) (s ++ 0 ∷ []), dest))
      × CString (store m (dest + length d) (s ++ 0 ∷ [])) dest (d ++ s)
unfolding strcat
strcat-append f d s m dest src hd hs fd fs small apart = (
  ground (
    arith,
    strlen-length f d m dest hd fd small,
    strcat_loop-store f s m (dest + length d) src hs fs apart,
  ),
  CString-append d s m dest hd (CString-nonzero s m src hs),
)

strncat_loop-store :
    (f : ℕ) (n : ℕ) (s : Bytes) (m : Mem) (dest src : Ptr)
    → CString m src s
    → length s < f
    → Apart dest (length (take n s)) src (length s)
    → strncat_loop f m dest src n ≡ some (store m dest (take n s ++ 0 ∷ []))
unfolding strncat_loop store
strncat_loop-store zero n s m dest src h fuel apart = absurd (omega arith)
strncat_loop-store (suc f) zero s m dest src h fuel apart = ground arith
strncat_loop-store (suc f) (suc n) [] m dest src h fuel apart = ground arith
strncat_loop-store (suc f) (suc n) (c ∷ cs) m dest src h fuel apart =
    let kept = CString-write cs m (src + 1) dest c h.2 (omega arith) in
    let rest =
      strncat_loop-store f n cs (write m dest c) (dest + 1) (src + 1) kept (omega arith)
        (omega arith) in
    let e : suc n - 1 ≡ n = omega arith in rw (h.0, e) (ground (arith, rest))

-- Under the same conditions `strncat` appends the first `n` bytes of `s`, or all if there are
-- fewer, and a NUL.
pub strncat-append :
    (f n : ℕ) (d s : Bytes) (m : Mem) (dest src : Ptr)
    → CString m dest d
    → CString m src s
    → length d < f
    → length s < f
    → length d < 2 ^ 64
    → Apart (dest + length d) (length (take n s)) src (length s)
    → (strncat f m dest src n ≡ some (store m (dest + length d) (take n s ++ 0 ∷ []), dest))
      × CString (store m (dest + length d) (take n s ++ 0 ∷ [])) dest (d ++ take n s)
unfolding strncat
strncat-append f n d s m dest src hd hs fd fs small apart = (
  ground (
    arith,
    strlen-length f d m dest hd fd small,
    strncat_loop-store f n s m (dest + length d) src hs fs apart,
  ),
  CString-append d (take n s) m dest hd (All-take _ n s (CString-nonzero s m src hs)),
)
