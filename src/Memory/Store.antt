-- ===== src/Memory/Store.antt =====
-- What `store`, `read` and `CString` say of single bytes.
use liumos.Prelude.{
  ℕ, zero, suc, ◌+◌, ◌≤◌, ◌<◌, ◌≡◌, ◌≢◌, ◌⊎◌, inl, refl, sym, ap, ◌∙◌, [], ◌∷◌, ◌++◌, arith, length,
  get_or, All,
}
use mathlib.Core.Path.{subst}
use liumos.Memory.{Mem, Ptr, Bytes, write, CString, store, read}

abbrev pub Outside : ℕ → Ptr → ℕ → Type 0
Outside a p n = (a < p) ⊎ (p + n ≤ a)

pub write_self : (m : Mem) (p : Ptr) (v : ℕ) → write m p v p ≡ v
unfolding write
write_self m p v = ground arith

pub write_ne : (m : Mem) (p : Ptr) (v : ℕ) (a : ℕ) → a ≢ p → write m p v a ≡ m a
unfolding write
write_ne m p v a h = ground arith

pub store-Outside :
    (s : Bytes) (m : Mem) (p : Ptr) (a : ℕ) → Outside a p (length s) → store m p s a ≡ m a
unfolding store
store-Outside [] m p a h = refl
store-Outside (c ∷ cs) m p a h =
    store-Outside cs (write m p c) (p + 1) a (omega arith) ∙ write_ne m p c a (omega arith)

pub store_inside :
    (s : Bytes) (m : Mem) (p : Ptr) (i : ℕ) → i < length s → store m p s (p + i) ≡ get_or s i 0
unfolding store
store_inside [] m p i h = elim h [ ]
store_inside (c ∷ cs) m p zero h =
    store-Outside cs (write m p c) (p + 1) (p + 0) (inl (omega arith))
    ∙ ap (write m p c) (omega arith)
    ∙ write_self m p c
store_inside (c ∷ cs) m p (suc i) h =
    ap (store (write m p c) (p + 1) cs) (omega arith)
    ∙ store_inside cs (write m p c) (p + 1) i (omega arith)

pub store-append :
    (s t : Bytes) (m : Mem) (p : Ptr) → store m p (s ++ t) ≡ store (store m p s) (p + length s) t
unfolding store
store-append [] t m p = ap (λ q. store m q t) (omega arith)
store-append (c ∷ cs) t m p =
    store-append cs t (write m p c) (p + 1)
    ∙ ap (λ q. store (store (write m p c) (p + 1) cs) q t) (omega arith)

-- A string survives whatever spares its bytes and its NUL.
pub CString-frame :
    (s : Bytes) {m : Mem} (m' : Mem) (p : Ptr)
    → CString m p s
    → ((a : ℕ) → p ≤ a → a ≤ p + length s → m' a ≡ m a)
    → CString m' p s
CString-frame [] m' p h same = same p (omega arith) (omega arith) ∙ h
CString-frame (c ∷ cs) m' p h same = (
  same p (omega arith) (omega arith) ∙ h.0,
  h.1,
  CString-frame cs m' (p + 1) h.2 (λ a lo hi. same a (omega arith) (omega arith)),
)

pub CString-store :
    (s : Bytes) (m : Mem) (p : Ptr) → All (λ c. c ≢ 0) s → CString (store m p (s ++ 0 ∷ [])) p s
unfolding store
CString-store [] m p h = write_self m p 0
CString-store (c ∷ cs) m p h = (
  store-Outside (cs ++ 0 ∷ []) (write m p c) (p + 1) p (inl (omega arith)) ∙ write_self m p c,
  h.0,
  CString-store cs (write m p c) (p + 1) h.1,
)

pub CString-nonzero : (s : Bytes) (m : Mem) (p : Ptr) → CString m p s → All (λ c. c ≢ 0) s
CString-nonzero [] m p h = tt
CString-nonzero (c ∷ cs) m p h = (h.1, CString-nonzero cs m (p + 1) h.2)

pub CString-end : (s : Bytes) (m : Mem) (p : Ptr) → CString m p s → m (p + length s) ≡ 0
CString-end [] m p h = ap m (omega arith) ∙ h
CString-end (c ∷ cs) m p h = ap m (omega arith) ∙ CString-end cs m (p + 1) h.2

-- A memory holds one string at an address.
pub CString-unique : (s t : Bytes) (m : Mem) (p : Ptr) → CString m p s → CString m p t → s ≡ t
CString-unique [] [] m p h k = refl
CString-unique [] (d ∷ ds) m p h k = absurd (k.1 (sym k.0 ∙ h))
CString-unique (c ∷ cs) [] m p h k = absurd (h.1 (sym h.0 ∙ k))
CString-unique (c ∷ cs) (d ∷ ds) m p h k =
    let e : cs ≡ ds = CString-unique cs ds m (p + 1) h.2 k.2 in let f : c ≡ d = sym h.0 ∙ k.0 in cc

pub length-read : (n : ℕ) (m : Mem) (p : Ptr) → length (read m p n) ≡ n
unfolding read
length-read zero m p = refl
length-read (suc n) m p = ap suc (length-read n m (p + 1))

pub get_or-read : (n : ℕ) (m : Mem) (p : Ptr) (i : ℕ) → i < n → get_or (read m p n) i 0 ≡ m (p + i)
unfolding read
get_or-read zero m p i h = elim h [ ]
get_or-read (suc n) m p zero h = ap m (omega arith)
get_or-read (suc n) m p (suc i) h = get_or-read n m (p + 1) i (omega arith) ∙ ap m (omega arith)

pub read_frame :
    (n : ℕ) (m m' : Mem) (p : Ptr)
    → ((a : ℕ) → p ≤ a → a < p + n → m' a ≡ m a)
    → read m' p n ≡ read m p n
unfolding read
read_frame zero m m' p same = refl
read_frame (suc n) m m' p same =
    let e : m' p ≡ m p = same p (omega arith) (omega arith) in
    let f : read m' (p + 1) n ≡ read m (p + 1) n =
      read_frame n m m' (p + 1) (λ a lo hi. same a (omega arith) (omega arith)) in
    cc

-- Stored bytes are a string where a NUL stands behind them already.
pub CString-store_over :
    (s : Bytes) (m : Mem) (p : Ptr)
    → All (λ c. c ≢ 0) s
    → m (p + length s) ≡ 0
    → CString (store m p s) p s
unfolding store
CString-store_over [] m p h e = ap m (omega arith) ∙ e
CString-store_over (c ∷ cs) m p h e = (
  store-Outside cs (write m p c) (p + 1) p (inl (omega arith)) ∙ write_self m p c,
  h.0,
  CString-store_over cs (write m p c) (p + 1) h.1
      (write_ne m p c (p + 1 + length cs) (omega arith) ∙ ap m (omega arith) ∙ e),
)

CString-at : (s : Bytes) (m : Mem) (p q : Ptr) → p ≡ q → CString m p s → CString m q s
CString-at s m p q e h = subst (λ r. CString m r s) e h

-- A string runs on through the NUL that another replaces.
pub CString-join :
    (d s : Bytes) (m m' : Mem) (p : Ptr)
    → CString m p d
    → ((a : ℕ) → a < p + length d → m' a ≡ m a)
    → CString m' (p + length d) s
    → CString m' p (d ++ s)
CString-join [] s m m' p h same k = CString-at s m' (p + 0) p (omega arith) k
CString-join (c ∷ cs) s m m' p h same k = (
  same p (omega arith) ∙ h.0,
  h.1,
  CString-join cs s m m' (p + 1) h.2 (λ a lt. same a (omega arith))
      (CString-at s m' (p + suc (length cs)) (p + 1 + length cs) (omega arith) k),
)

-- The rest of a string is a string.
pub CString-drop :
    (d s : Bytes) (m : Mem) (p : Ptr) → CString m p (d ++ s) → CString m (p + length d) s
CString-drop [] s m p h = CString-at s m p (p + 0) (omega arith) h
CString-drop (c ∷ cs) s m p h =
    CString-at s m (p + 1 + length cs) (p + suc (length cs)) (omega arith)
      (CString-drop cs s m (p + 1) h.2)
