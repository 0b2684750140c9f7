-- ===== src/Liumlib/Number/Address.antt =====
-- `inet_addr` on a dotted address.
use Prim.Native.Nat.{bit_or}
use liumos.Prelude.{
  ℕ, zero, suc, ◌+◌, ◌-◌, ◌*◌, ◌%◌, ◌^◌, ◌<◌, ◌≤◌, ◌≡◌, refl, ap, ◌∙◌, some, [], ◌∷◌, ◌++◌, arith,
  All, length, set, append-nil,
}
use liumos.Memory.{Mem, Ptr, Bytes, CString}
use liumos.Memory.Store.{CString-drop, CString-end}
use liumos.Liumlib.Output.Decimal.{IsDigit, value}
use liumos.Liumlib.Number.{
  Inet, inet_step, inet_loop, inet_result, inet_addr, initial, next_part, shl32,
}
use liumos.Liumlib.Number.Digits.{value_mod}

inet_loop_digit :
    (f c : ℕ) (m : Mem) (p : Ptr) (st : Inet)
    → m p ≡ c
    → IsDigit c
    → inet_loop (suc f) m p st
      ≡ inet_loop f m (p + 1) (record st { acc = (st.acc * 10 + (c - b'0')) % 2 ^ 32 })
unfolding inet_loop inet_step
inet_loop_digit f c m p st e d = ground arith

inet_loop_dot :
    (f : ℕ) (m : Mem) (p : Ptr) (st : Inet)
    → m p ≡ b'.'
    → st.dots < 3
    → inet_loop (suc f) m p st
      ≡ inet_loop f m (p + 1) (next_part (record st { dots = st.dots + 1 }))
unfolding inet_loop inet_step
inet_loop_dot f m p st e lt = ground arith

inet_loop_end :
    (f : ℕ) (m : Mem) (p : Ptr) (st : Inet)
    → m p ≡ 0
    → inet_loop (suc f) m p st ≡ some (inet_result st)
unfolding inet_loop
inet_loop_end f m p st e = ground arith

inet_loop-digits :
    (ds rest : Bytes) (f : ℕ) (m : Mem) (p : Ptr) (st : Inet)
    → CString m p (ds ++ rest)
    → All IsDigit ds
    → length ds ≤ f
    → st.acc < 2 ^ 32
    → inet_loop f m p st
      ≡ inet_loop (f - length ds) m (p + length ds) (record st { acc = value st.acc ds % 2 ^ 32 })
unfolding value
inet_loop-digits [] rest f m p st h d fuel small =
    let e : f - 0 ≡ f = omega arith in
    let e' : p + 0 ≡ p = omega arith in
    let e'' : st.acc % 2 ^ 32 ≡ st.acc = omega arith in rw (e, e', e'')
inet_loop-digits (c ∷ cs) rest zero m p st h d fuel small = absurd (omega arith)
inet_loop-digits (c ∷ cs) rest (suc f) m p st h d fuel small =
    let acc = (st.acc * 10 + (c - b'0')) % 2 ^ 32 in
    let e : suc f - suc (length cs) ≡ f - length cs = omega arith in
    let e' : p + 1 + length cs ≡ p + suc (length cs) = omega arith in
    let e'' : value acc cs % 2 ^ 32 ≡ value (st.acc * 10 + (c - b'0')) cs % 2 ^ 32 =
      value_mod cs acc (st.acc * 10 + (c - b'0')) (omega arith) in
    inet_loop_digit f c m p st h.0 d.0
    ∙ inet_loop-digits cs rest f m (p + 1) (record st { acc = acc }) h.2 d.1 (omega arith)
        (omega arith)
    ∙ rw (e, e', e'')

abbrev after_part : Inet → ℕ → Inet
after_part st v = record {
  dots = st.dots + 1;
  acc = 0;
  addrs = set st.addrs st.index v;
  index = st.index + 1;
}

-- The loop over one part of the address and the dot behind it.
inet_loop-part :
    (ds rest : Bytes) (f v : ℕ) (m : Mem) (p : Ptr) (st : Inet)
    → CString m p (ds ++ b'.' ∷ rest)
    → All IsDigit ds
    → length ds < f
    → st.acc ≡ 0
    → st.dots < 3
    → value 0 ds % 2 ^ 32 ≡ v
    → inet_loop f m p st ≡ inet_loop (f - length ds - 1) m (p + length ds + 1) (after_part st v)
inet_loop-part ds rest f v m p st h d fuel zero_acc lt val =
    let e : f - length ds ≡ suc (f - length ds - 1) = omega arith in
    let acc : value st.acc ds % 2 ^ 32 ≡ v = rw (zero_acc, val) refl in
    let dot = (CString-drop ds (b'.' ∷ rest) m p h).0 in
    let st' : Inet = record st { acc = v } in
    inet_loop-digits ds (b'.' ∷ rest) f m p st h d (omega arith) (omega arith)
    ∙ ap (λ (k : ℕ). inet_loop k m (p + length ds) (record st { acc = value st.acc ds % 2 ^ 32 })) e
    ∙ rw acc (inet_loop_dot (f - length ds - 1) m (p + length ds) st' dot lt)

-- The last part, and the end of the string.
inet_loop-last :
    (ds : Bytes) (f v : ℕ) (m : Mem) (p : Ptr) (st : Inet)
    → CString m p ds
    → All IsDigit ds
    → length ds < f
    → st.acc ≡ 0
    → value 0 ds % 2 ^ 32 ≡ v
    → inet_loop f m p st ≡ some (inet_result (record st { acc = v }))
inet_loop-last ds f v m p st h d fuel zero_acc val =
    let e : f - length ds ≡ suc (f - length ds - 1) = omega arith in
    let acc : value st.acc ds % 2 ^ 32 ≡ v = rw (zero_acc, val) refl in
    let h' : CString m p (ds ++ []) = rw append-nil h in
    inet_loop-digits ds [] f m p st h' d (omega arith) (omega arith)
    ∙ ap (λ (k : ℕ). inet_loop k m (p + length ds) (record st { acc = value st.acc ds % 2 ^ 32 })) e
    ∙ rw acc (
        inet_loop_end (f - length ds - 1) m (p + length ds) (record st { acc = v })
          (CString-end ds m p h))

-- The text of an address: four rows of digits and the dots between them.
abbrev pub dotted : (da db dc dd : Bytes) → Bytes
dotted da db dc dd = da ++ b'.' ∷ (db ++ b'.' ∷ (dc ++ b'.' ∷ dd))

-- A row of digits, also an empty one, and the number that it stands for, as an `unsigned int`.
abbrev pub Part : Bytes → ℕ → Type 0
Part ds v = All IsDigit ds × (value 0 ds % 2 ^ 32 ≡ v)

-- For four rows of digits with dots between them `inet_addr` joins their values modulo 2 ^ 32, each
-- cut to what is left of 32 bits behind its shift. It refuses none of them, however large the values
-- and however long the rows are.
pub inet_addr-dotted :
    (f : ℕ) (da db dc dd : Bytes) (a b c d : ℕ) (m : Mem) (p : Ptr)
    → CString m p (dotted da db dc dd)
    → Part da a
    → Part db b
    → Part dc c
    → Part dd d
    → length da + length db + length dc + length dd + 3 < f
    → inet_addr f m p ≡ some (bit_or (bit_or (bit_or (shl32 d 24) (shl32 c 16)) (shl32 b 8)) a)
unfolding inet_addr inet_result
inet_addr-dotted f da db dc dd a b c d m p h pa pb pc pd fuel =
    let p2 = p + length da + 1 in
    let p3 = p2 + length db + 1 in
    let p4 = p3 + length dc + 1 in
    let f2 = f - length da - 1 in
    let f3 = f2 - length db - 1 in
    let f4 = f3 - length dc - 1 in
    let h2 = (CString-drop da _ m p h).2 in
    let h3 = (CString-drop db _ m p2 h2).2 in
    let h4 = (CString-drop dc (b'.' ∷ dd) m p3 h3).2 in
    let st2 = after_part initial a in
    let st3 = after_part st2 b in
    let st4 = after_part st3 c in
    inet_loop-part da _ f a m p initial h pa.0 (omega arith) refl (omega arith) pa.1
    ∙ inet_loop-part db _ f2 b m p2 st2 h2 pb.0 (omega arith) refl (omega arith) pb.1
    ∙ inet_loop-part dc dd f3 c m p3 st3 h3 pc.0 (omega arith) refl (omega arith) pc.1
    ∙ inet_loop-last dd f4 d m p4 st4 h4 pd.0 (omega arith) refl pd.1
