-- ===== src/Kernel/StringBuffer/Written.antt =====
-- Every operation of src/string_buffer.h writes a text, of which the buffer keeps what fits.
use liumos.Prelude.{
  ℕ, zero, suc, ◌+◌, ◌<◌, ◌≤◌, ◌≡◌, ◌≢◌, refl, sym, ap, ◌∙◌, inl, inr, true, false, some, [], ◌∷◌,
  ◌++◌, length, take, leb, append_assoc, append-nil, length-append, arith, Bool-cases, ◌==◌,
}
use liumos.Memory.{Mem, Ptr, Bytes, CString}
use liumos.Kernel.StringBuffer.{StringBuffer, write_char, write_string}

-- A text behind what is there, cut off at the capacity.
abbrev pub written : (capacity : ℕ) → Bytes → StringBuffer → StringBuffer
written capacity text b = record { buf = take capacity (b.buf ++ text) }

pub take-all : (n : ℕ) (xs : Bytes) → length xs ≤ n → take n xs ≡ xs
take-all zero [] h = refl
take-all (suc n) [] h = refl
take-all zero (x ∷ xs) h = absurd (omega arith)
take-all (suc n) (x ∷ xs) h = ap (λ t. x ∷ t) (take-all n xs (omega arith))

take_append-take : (n : ℕ) (xs ys : Bytes) → take n (take n xs ++ ys) ≡ take n (xs ++ ys)
take_append-take zero xs ys = refl
take_append-take (suc n) [] ys = refl
take_append-take (suc n) (x ∷ xs) ys = ap (λ t. x ∷ t) (take_append-take n xs ys)

take_full : (n : ℕ) (xs ys : Bytes) → n ≤ length xs → take n (xs ++ ys) ≡ take n xs
take_full zero xs ys h = refl
take_full (suc n) [] ys h = absurd (omega arith)
take_full (suc n) (x ∷ xs) ys h = ap (λ t. x ∷ t) (take_full n xs ys (omega arith))

-- The buffer is not over-full.
abbrev pub Fits : ℕ → StringBuffer → Type 0
Fits capacity b = length b.buf ≤ capacity

module _ (capacity : ℕ) where
  pub written_none : (b : StringBuffer) → Fits capacity b → written capacity [] b ≡ b
  written_none b h =
      ap (λ t. record { buf = t })
        (ap (take capacity) (append-nil b.buf) ∙ take-all capacity b.buf h)

  pub written_twice :
      (s t : Bytes) (b : StringBuffer)
      → written capacity t (written capacity s b) ≡ written capacity (s ++ t) b
  written_twice s t b =
      ap (λ (u : Bytes). record { buf = u })
        (take_append-take capacity (b.buf ++ s) t ∙ ap (take capacity) (append_assoc b.buf s t))

  pub length-take_bound : (n : ℕ) (xs : Bytes) → length (take n xs) ≤ n
  length-take_bound zero xs = omega arith
  length-take_bound (suc n) [] = omega arith
  length-take_bound (suc n) (x ∷ xs) = omega (arith, length-take_bound n xs)

  pub write_char-written :
      (c : ℕ) (b : StringBuffer)
      → Fits capacity b
      → write_char capacity c b ≡ written capacity (c ∷ []) b
  unfolding write_char
  write_char-written c b h = elim (Bool-cases (leb capacity (length b.buf))) [
    | inl full ↦ rw full (
        ap (λ t. record { buf = t })
          (sym (
            take_full capacity b.buf (c ∷ []) (reached (length b.buf) full)
            ∙ take-all capacity b.buf h)))
    | inr room ↦ rw room (
        ap (λ t. record { buf = t })
          (sym (take-all capacity (b.buf ++ c ∷ []) (one_more (length b.buf) room refl))))
  ]
    where
      reached : (n : ℕ) → leb capacity n ≡ true → capacity ≤ n
      reached n full = ground arith

      below : (n : ℕ) → leb capacity n ≡ false → n + 1 ≤ capacity
      below n room = ground arith

      one_more :
          (n : ℕ) → leb capacity n ≡ false → n ≡ length b.buf → length (b.buf ++ c ∷ []) ≤ capacity
      one_more n room e = omega (arith, length-append b.buf (c ∷ []), below n room)

  -- One more byte behind a text.
  pub write_char-more :
      (c : ℕ) (t : Bytes) (b : StringBuffer)
      → write_char capacity c (written capacity t b) ≡ written capacity (t ++ c ∷ []) b
  write_char-more c t b =
      write_char-written c (written capacity t b) (length-take_bound capacity (b.buf ++ t))
      ∙ written_twice t (c ∷ []) b

  -- A byte, and what an operation writes behind it.
  pub write_char-then :
      (c : ℕ) (t : Bytes) (b : StringBuffer)
      → Fits capacity b
      → written capacity t (write_char capacity c b) ≡ written capacity (c ∷ t) b
  write_char-then c t b h =
      ap (written capacity t) (write_char-written c b h) ∙ written_twice (c ∷ []) t b

  pub write_char-Fits :
      (c : ℕ) (b : StringBuffer) → Fits capacity b → Fits capacity (write_char capacity c b)
  write_char-Fits c b h =
      rw (write_char-written c b h) (length-take_bound capacity (b.buf ++ c ∷ []))

  -- `WriteString` ends, and appends the string as far as it fits.
  pub write_string-written :
      (f : ℕ) (t : Bytes) (m : Mem) (s : Ptr) (b : StringBuffer)
      → CString m s t
      → length t < f
      → Fits capacity b
      → write_string capacity f m s b ≡ some (written capacity t b)
  unfolding write_string
  write_string-written zero t m s b h fuel fits = absurd (omega arith)
  write_string-written (suc f) [] m s b h fuel fits = rw h (ap some (sym (written_none b fits)))
  write_string-written (suc f) (c ∷ t) m s b h fuel fits =
      rw (h.0, is_end c h.1)
        (write_string-written f t m (s + 1) (write_char capacity c b) h.2 (omega arith)
            (write_char-Fits c b fits)
          ∙ ap some (write_char-then c t b fits))
    where
      is_end : (c : ℕ) → c ≢ 0 → (c == 0) ≡ false
      is_end c h = ground arith
