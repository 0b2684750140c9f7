-- ===== src/Http/Append.antt =====
-- Texts that app/httpserver and app/httpclient put together in a buffer by `strcpy` and `strcat`.
use liumos.Prelude.{
  ℕ, ◌+◌, ◌^◌, ◌≤◌, ◌<◌, ◌≡◌, refl, ◌⊎◌, Option, some, ◌>>=◌, [], ◌∷◌, ◌++◌, length, length-append,
  arith, ◌∙◌,
}
use liumos.Memory.{Mem, Ptr, Bytes, CString, store}
use liumos.Memory.Store.{Outside, store-Outside, CString-frame, CString-nonzero, CString-store_over}
use liumos.Liumlib.Str.{strcpy, strcat}
use liumos.Liumlib.Str.Copy.{strcpy-store, strcat-append}

-- `strcat`, whose result is not used.
abbrev pub append : ℕ → Mem → (dest src : Ptr) → Option Mem
append f m dest src = do (m', _) ← strcat f m dest src; some m'

-- A string outside the buffer of `cap` bytes at `dest`, with fuel for it.
pub record Placed (f : ℕ) (m : Mem) (dest : Ptr) (cap : ℕ) (p : Ptr) (s : Bytes) : Type 0 where
  pub held : CString m p s
  pub apart : (dest + cap ≤ p) ⊎ (p + length s < dest)
  pub fuel : length s < f

-- The buffer holds `d`, and `m'` is as `m` outside it.
pub record Holds (m m' : Mem) (dest : Ptr) (cap : ℕ) (d : Bytes) : Type 0 where
  pub held : CString m' dest d
  pub same : (a : ℕ) → Outside a dest cap → m' a ≡ m a
  pub fits : length d < cap

module _ (f : ℕ) (m : Mem) (dest : Ptr) (cap : ℕ) where
  -- A first text, in a buffer with a NUL where that text ends.
  pub strcpy-Holds :
      {p : Ptr} {s : Bytes}
      → Placed f m dest cap p s
      → m (dest + length s) ≡ 0
      → length s < cap
      → (m' : Mem) × (strcpy f m dest p ≡ some (m', dest)) × Holds m m' dest cap s
  strcpy-Holds {p} {s} h z fits = (
    store m dest s,
    strcpy-store f s m dest p h.held h.fuel (omega (arith, h.apart)),
    record {
      held = CString-store_over s m dest (CString-nonzero s m p h.held) z;
      same = λ a o. store-Outside s m dest a (omega arith);
      fits = fits;
    },
  )

  -- A text behind those that are there.
  pub strcat-Holds :
      {p : Ptr} {s d : Bytes} {m' : Mem}
      → cap < f
      → cap < 2 ^ 64
      → Placed f m dest cap p s
      → Holds m m' dest cap d
      → length d + length s < cap
      → (m'' : Mem) × (strcat f m' dest p ≡ some (m'', dest)) × Holds m m'' dest cap (d ++ s)
  strcat-Holds {p} {s} {d} {m'} enough small h k fits =
      let there = CString-frame s m' p h.held (λ a lo hi. k.same a (omega (arith, h.apart))) in
      let both =
        strcat-append f d s m' dest p k.held there (omega arith) h.fuel (omega arith)
          (omega (arith, h.apart)) in
      (
        store m' (dest + length d) (s ++ 0 ∷ []),
        both.0,
        record {
          held = both.1;
          same = λ a o.
              store-Outside (s ++ 0 ∷ []) m' (dest + length d) a
                (omega (arith, length-append s (0 ∷ [])))
              ∙ k.same a o;
          fits = omega (arith, length-append d s);
        },
      )

  pub append-Holds :
      {p : Ptr} {s d : Bytes} {m' : Mem}
      → cap < f
      → cap < 2 ^ 64
      → Placed f m dest cap p s
      → Holds m m' dest cap d
      → length d + length s < cap
      → (m'' : Mem) × (append f m' dest p ≡ some m'') × Holds m m'' dest cap (d ++ s)
  append-Holds enough small h k fits =
      let (m'', e, held) = strcat-Holds enough small h k fits in (m'', rw e refl, held)
