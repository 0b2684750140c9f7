-- ===== src/Kernel/Network/Addresses.antt =====
-- src/network.h: an address that `WriteString` writes, and `CreateFromString` reads.
use liumos.Prelude.{
  ℕ, zero, suc, ◌+◌, ◌%◌, ◌^◌, ◌<◌, ◌≡◌, refl, sym, ap, ◌∙◌, Option, none, some, [], ◌∷◌, ◌++◌,
  length, take, append_assoc, append-nil, length-append, arith, All, ◌>>=◌,
}
use mathlib.Core.Path.{subst}
use liumos.Memory.{Mem, Ptr, Bytes, CString}
use liumos.Memory.Store.{CString-drop}
use liumos.Liumlib.Output.Decimal.{IsDecimal, value}
use liumos.Liumlib.Number.Digits.{str_to_num-value}
use liumos.Kernel.StringBuffer.{StringBuffer, write_char}
use liumos.Kernel.StringBuffer.Written.{
  written, Fits, length-take_bound, written_twice, write_char-more,
}
use liumos.Kernel.StringBuffer.Decimal.{write_decimal64-IsDecimal}
use liumos.Kernel.Network.{create_loop, create_from_string, write_octets}

-- The decimal texts of bytes with dots between them.
pub data Dotted : Bytes → Bytes → Type 0 where
  last : {v : ℕ} {ds : Bytes} → IsDecimal v ds → Dotted (v ∷ []) ds
  dot :
      {v w : ℕ} {vs ds rest : Bytes}
      → IsDecimal v ds
      → Dotted (w ∷ vs) rest
      → Dotted (v ∷ w ∷ vs) (ds ++ b'.' ∷ rest)

write_octets-Dotted :
    (capacity v : ℕ) (vs : Bytes) (b : StringBuffer)
    → All (λ v. v < 256) (v ∷ vs)
    → Fits capacity b
    → (text : Bytes) × (write_octets capacity (v ∷ vs) b ≡ some (written capacity text b))
      × Dotted (v ∷ vs) text
unfolding write_octets
write_octets-Dotted capacity v [] b all fits =
    let (text, e, k) = write_decimal64-IsDecimal capacity v b (omega (arith, all.0)) fits in
    (text, e, last k)
write_octets-Dotted capacity v (w ∷ vs) b all fits =
    let (ds, e, k) = write_decimal64-IsDecimal capacity v b (omega (arith, all.0)) fits in
    let dotted = write_char-more capacity (b'.') ds b in
    let (rest, e', k') =
      write_octets-Dotted capacity w vs (written capacity (ds ++ b'.' ∷ []) b) all.1
        (length-take_bound capacity capacity (b.buf ++ (ds ++ b'.' ∷ []))) in
    (
      ds ++ b'.' ∷ rest,
      ap (λ o. o >>= λ b'. write_octets capacity (w ∷ vs) (write_char capacity (b'.') b')) e
          ∙ ap (write_octets capacity (w ∷ vs)) dotted
          ∙ e'
          ∙ ap some (
              written_twice capacity (ds ++ b'.' ∷ []) rest b
              ∙ ap (λ t. written capacity t b) (append_assoc ds (b'.' ∷ []) rest)),
      dot k k',
    )

-- The loop reads them back, from anywhere on.
create_loop-Dotted :
    (f : ℕ) (vs text : Bytes) (i : ℕ) (m : Mem) (p : Ptr) (addr : Bytes)
    → Dotted vs text
    → length vs ≡ suc i
    → All (λ v. v < 256) vs
    → CString m p text
    → length text < f
    → create_loop f i m p addr ≡ some (some (addr ++ vs))
unfolding create_loop
create_loop-Dotted f [] text i m p addr d len all h fuel = elim d [ ]
create_loop-Dotted f (v ∷ []) ds zero m p addr (last k) len all h fuel =
    let h' = subst (CString m p) (sym (append-nil ds)) h in
    let read = (str_to_num-value f ds [] m p h' k.digits tt fuel).0 in
    let byte = small_value v ds k all.0 in
    let stop : m (p + length ds) ≡ 0 = CString-drop ds [] m p h' in rw read (rw (byte, stop) refl)
  where
    small_value : (v : ℕ) (ds : Bytes) → IsDecimal v ds → v < 256 → value 0 ds % 2 ^ 8 ≡ v
    small_value v ds k lt = omega (arith, k.value_is)
create_loop-Dotted f (v ∷ []) ds (suc i) m p addr (last k) len all h fuel =
    absurd (omega (arith, len))
create_loop-Dotted f (v ∷ w ∷ vs) text zero m p addr (dot k d) len all h fuel =
    absurd (omega (arith, len))
create_loop-Dotted f (v ∷ w ∷ vs) text (suc i) m p addr (dot {ds = ds} {rest = rest} k d) len all h
      fuel =
    let size = length-append ds (b'.' ∷ rest) in
    let read =
      (str_to_num-value f ds (b'.' ∷ rest) m p h k.digits refl (omega (arith, fuel, size))).0 in
    let byte = small_value v ds k all.0 in
    let behind = CString-drop ds (b'.' ∷ rest) m p h in
    let dot_there : m (p + length ds) ≡ b'.' = behind.0 in
    rw read (
      rw (byte, dot_there)
        (create_loop-Dotted f (w ∷ vs) rest i m (p + length ds + 1) (addr ++ v ∷ []) d
            (omega (arith, len)) all.1 behind.2 (omega (arith, fuel, size))
          ∙ ap (λ t. some (some t)) (append_assoc addr (v ∷ []) (w ∷ vs))))
  where
    small_value : (v : ℕ) (ds : Bytes) → IsDecimal v ds → v < 256 → value 0 ds % 2 ^ 8 ≡ v
    small_value v ds k lt = omega (arith, k.value_is)

not_cut : (n : ℕ) (xs : Bytes) → length (take n xs) < n → take n xs ≡ xs
not_cut zero xs h = absurd (omega arith)
not_cut (suc n) [] h = refl
not_cut (suc n) (x ∷ xs) h = ap (λ t. x ∷ t) (not_cut n xs (omega arith))

-- An address of four bytes that `WriteString` has written to an empty buffer, without filling it,
-- is read back from its text by `CreateFromString`.
pub create_from_string-write_octets :
    (f capacity : ℕ) (addr text : Bytes) (m : Mem) (p : Ptr)
    → length addr ≡ 4
    → All (λ v. v < 256) addr
    → write_octets capacity addr (record { buf = [] }) ≡ some (record { buf = text })
    → length text < capacity
    → CString m p text
    → length text < f
    → create_from_string f m p ≡ some (some addr)
unfolding create_from_string
create_from_string-write_octets f capacity [] text m p four all w room h fuel =
    absurd (omega (arith, four))
create_from_string-write_octets f capacity (v ∷ vs) text m p four all w room h fuel =
    let (whole, e, d) = write_octets-Dotted capacity v vs (record { buf = [] }) all (omega arith) in
    let cut : take capacity whole ≡ text = ap text_of (sym e ∙ w) in
    let same : whole ≡ text =
      sym (not_cut capacity whole (subst (λ t. length t < capacity) (sym cut) room)) ∙ cut in
    create_loop-Dotted f (v ∷ vs) text 3 m p [] (subst (Dotted (v ∷ vs)) same d) four all h fuel
  where
    text_of : Option StringBuffer → Bytes
    text_of (some b) = b.buf
    text_of none = []
