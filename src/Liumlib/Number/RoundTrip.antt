-- ===== src/Liumlib/Number/RoundTrip.antt =====
-- What the printing functions print, the reading functions read back.
use Prim.Native.Nat.{bit_or}
use liumos.Prelude.{
  ℕ, suc, ◌+◌, ◌*◌, ◌/◌, ◌%◌, ◌^◌, ◌<◌, ◌≡◌, refl, ap, ◌∙◌, some, [], ◌∷◌, ◌++◌, arith, length,
  length-append, append-nil,
}
use liumos.Prelude.Bits.{bit_or_fields}
use liumos.Prelude.Int.{pos}
use liumos.Memory.{Mem, Ptr, Bytes, CString}
use liumos.Memory.Store.{CString-drop}
use liumos.Liumlib.Alloc.{returned}
use liumos.Liumlib.Output.{print_num, print_ipv4_addr}
use liumos.Liumlib.Output.Decimal.{value, IsDecimal, print_num-IsDecimal}
use liumos.Liumlib.Number.{
  str_to_num16, octets_loop, make_ipv4_addr_from_string, make_ipv4_addr, inet_addr, shl32,
}
use liumos.Liumlib.Number.Digits.{Stops, str_to_num-value}
use liumos.Liumlib.Number.Address.{dotted, Part, inet_addr-dotted}

-- `StrToNum16` reads a port back from what `PrintNum` printed for it, before any text that does
-- not go on with a digit, and stops behind it.
pub str_to_num16-print_num :
    (v : ℕ)
    → v < 2 ^ 16
    → (ds : Bytes) × (print_num (pos v) ≡ some ds)
      × ((f : ℕ) (rest : Bytes) (m : Mem) (p : Ptr)
          → CString m p (ds ++ rest)
          → Stops rest
          → length ds < f
          → str_to_num16 f m p ≡ some (v, p + length ds))
str_to_num16-print_num v h =
    let (ds, e, k) = (print_num-IsDecimal v (omega arith)).0 in
    (
      ds,
      e,
      λ f rest m p s stops fuel.
          (str_to_num-value f ds rest m p s k.digits stops fuel).1
          ∙ ap (λ (n : ℕ). some (n, p + length ds)) (omega (arith, k.value_is)),
    )

octets_join :
    (a b c d : ℕ)
    → a < 256
    → b < 256
    → c < 256
    → d < 256
    → bit_or (bit_or (bit_or (shl32 d 24) (shl32 c 16)) (shl32 b 8)) a ≡ make_ipv4_addr a b c d
unfolding make_ipv4_addr
octets_join a b c d ha hb hc hd =
    let e3 : shl32 d 24 ≡ d * 2 ^ 24 = omega arith in
    let e2 : shl32 c 16 ≡ c * 2 ^ 16 = omega arith in
    let e1 : shl32 b 8 ≡ b * 2 ^ 8 = omega arith in
    let j2 = (bit_or_fields 24 d (c * 2 ^ 16) (omega arith)).0 in
    let s2 : d * 2 ^ 24 + c * 2 ^ 16 ≡ (d * 2 ^ 8 + c) * 2 ^ 16 = omega arith in
    let j1 = (bit_or_fields 16 (d * 2 ^ 8 + c) (b * 2 ^ 8) (omega arith)).0 in
    let s1 : (d * 2 ^ 8 + c) * 2 ^ 16 + b * 2 ^ 8 ≡ (d * 2 ^ 16 + c * 2 ^ 8 + b) * 2 ^ 8 =
      omega arith in
    let j0 = (bit_or_fields 8 (d * 2 ^ 16 + c * 2 ^ 8 + b) a (omega arith)).0 in
    rw (e3, e2, e1, j2, s2, j1, s1, j0) (omega arith)

-- For four rows of digits whose values are at most 255, with dots between them, `inet_addr`
-- returns the address that `MakeIPv4Addr` makes of the values.
pub inet_addr-make_ipv4_addr :
    (f : ℕ) (da db dc dd : Bytes) (a b c d : ℕ) (m : Mem) (p : Ptr)
    → CString m p (dotted da db dc dd)
    → Part da a
    → Part db b
    → Part dc c
    → Part dd d
    → (a < 256) × (b < 256) × (c < 256) × (d < 256)
    → length da + length db + length dc + length dd + 3 < f
    → inet_addr f m p ≡ some (make_ipv4_addr a b c d)
inet_addr-make_ipv4_addr f da db dc dd a b c d m p h pa pb pc pd small fuel =
    inet_addr-dotted f da db dc dd a b c d m p h pa pb pc pd fuel
    ∙ ap some (octets_join a b c d small.0 small.1 small.2 small.3)

-- One round of the loop over the octets.
octets_loop-Part :
    (file : Bytes) (i f : ℕ) (ds rest : Bytes) (v : ℕ) (m : Mem) (p : Ptr) (buf : Bytes)
    → CString m p (ds ++ b'.' ∷ rest)
    → Part ds v
    → v < 256
    → length ds < f
    → octets_loop file (suc i) f m p buf
      ≡ octets_loop file i f m (p + length ds + 1) (buf ++ v ∷ [])
unfolding octets_loop
octets_loop-Part file i f ds rest v m p buf h part small fuel =
    let read = (str_to_num-value f ds (b'.' ∷ rest) m p h part.0 refl fuel).0 in
    let byte : value 0 ds % 2 ^ 8 ≡ v = omega (arith, part.1) in
    let dot = (CString-drop ds (b'.' ∷ rest) m p h).0 in ground arith

octets_loop-last :
    (file : Bytes) (f : ℕ) (ds : Bytes) (v : ℕ) (m : Mem) (p : Ptr) (buf : Bytes)
    → CString m p ds
    → Part ds v
    → v < 256
    → length ds < f
    → octets_loop file 0 f m p buf ≡ some (returned (buf ++ v ∷ []))
unfolding octets_loop
octets_loop-last file f ds v m p buf h part small fuel =
    let h' : CString m p (ds ++ []) = rw append-nil h in
    let read = (str_to_num-value f ds [] m p h' part.0 tt fuel).0 in
    let byte : value 0 ds % 2 ^ 8 ≡ v = omega (arith, part.1) in ground arith

-- For such a text `MakeIPv4AddrFromString` returns the same address.
pub make_ipv4_addr_from_string_lem :
    (file : Bytes) (f : ℕ) (da db dc dd : Bytes) (a b c d : ℕ) (m : Mem) (p : Ptr)
    → CString m p (dotted da db dc dd)
    → Part da a
    → Part db b
    → Part dc c
    → Part dd d
    → (a < 256) × (b < 256) × (c < 256) × (d < 256)
    → length da + length db + length dc + length dd + 3 < f
    → make_ipv4_addr_from_string file f m p ≡ some (returned (make_ipv4_addr a b c d))
unfolding make_ipv4_addr_from_string make_ipv4_addr
make_ipv4_addr_from_string_lem file f da db dc dd a b c d m p h pa pb pc pd small fuel =
    let p2 = p + length da + 1 in
    let p3 = p2 + length db + 1 in
    let p4 = p3 + length dc + 1 in
    let h2 = (CString-drop da _ m p h).2 in
    let h3 = (CString-drop db _ m p2 h2).2 in
    let h4 = (CString-drop dc (b'.' ∷ dd) m p3 h3).2 in
    let loop =
      octets_loop-Part file 2 f da _ a m p [] h pa small.0 (omega arith)
      ∙ octets_loop-Part file 1 f db _ b m p2 (a ∷ []) h2 pb small.1 (omega arith)
      ∙ octets_loop-Part file 0 f dc dd c m p3 (a ∷ b ∷ []) h3 pc small.2 (omega arith)
      ∙ octets_loop-last file f dd d m p4 (a ∷ b ∷ c ∷ []) h4 pd small.3 (omega arith) in
    rw loop

print_ipv4_addr-dotted :
    (addr : ℕ)
    → (da : Bytes) × (db : Bytes) × (dc : Bytes) × (dd : Bytes) × (print_ipv4_addr addr
        ≡ some (dotted da db dc dd))
      × IsDecimal (addr % 256) da
      × IsDecimal (addr / 65536 % 256) dc
      × IsDecimal (addr / 256 % 256) db
      × IsDecimal (addr / 16777216 % 256) dd
unfolding print_ipv4_addr
print_ipv4_addr-dotted addr =
    let (da, ea, ka) = (print_num-IsDecimal (addr % 256) (omega arith)).0 in
    let (db, eb, kb) = (print_num-IsDecimal (addr / 256 % 256) (omega arith)).0 in
    let (dc, ec, kc) = (print_num-IsDecimal (addr / 65536 % 256) (omega arith)).0 in
    let (dd, ed, kd) = (print_num-IsDecimal (addr / 16777216 % 256) (omega arith)).0 in
    (da, db, dc, dd, rw (ea, eb, ec, ed), ka, kc, kb, kd)

make_ipv4_addr_bytes :
    (addr : ℕ)
    → addr < 2 ^ 32
    → make_ipv4_addr (addr % 256) (addr / 256 % 256) (addr / 65536 % 256) (addr / 16777216 % 256)
      ≡ addr
unfolding make_ipv4_addr
make_ipv4_addr_bytes addr h = omega arith

-- Whatever 32-bit address `PrintIPv4Addr` prints, `MakeIPv4AddrFromString` and `inet_addr` read
-- it back from that text.
pub print_ipv4_addr_round_trip :
    (addr : ℕ)
    → addr < 2 ^ 32
    → (text : Bytes) × (print_ipv4_addr addr ≡ some text)
      × ((file : Bytes) (f : ℕ) (m : Mem) (p : Ptr)
          → CString m p text
          → length text < f
          → (make_ipv4_addr_from_string file f m p ≡ some (returned addr))
            × (inet_addr f m p ≡ some addr))
print_ipv4_addr_round_trip addr h =
    let (da, db, dc, dd, e, ka, kc, kb, kd) = print_ipv4_addr-dotted addr in
    let back = make_ipv4_addr_bytes addr h in
    (
      dotted da db dc dd,
      e,
      λ file f m p s fuel.
          let pa : Part da (addr % 256) = (ka.digits, rw ka.value_is (omega arith)) in
          let pb : Part db (addr / 256 % 256) = (kb.digits, rw kb.value_is (omega arith)) in
          let pc : Part dc (addr / 65536 % 256) = (kc.digits, rw kc.value_is (omega arith)) in
          let pd : Part dd (addr / 16777216 % 256) = (kd.digits, rw kd.value_is (omega arith)) in
          let small : (addr % 256 < 256)
              × (addr / 256 % 256 < 256)
              × (addr / 65536 % 256 < 256)
              × (addr / 16777216 % 256 < 256) =
            omega arith in
          let room : length da + length db + length dc + length dd + 3 < f = omega (
            arith,
            length-append da (b'.' ∷ (db ++ b'.' ∷ (dc ++ b'.' ∷ dd))),
            length-append db (b'.' ∷ (dc ++ b'.' ∷ dd)),
            length-append dc (b'.' ∷ dd),
          ) in
          (
            make_ipv4_addr_from_string_lem file f da db dc dd _ _ _ _ m p s pa pb pc pd small room
                ∙ ap (λ (a : ℕ). some (returned a)) back,
            inet_addr-make_ipv4_addr f da db dc dd _ _ _ _ m p s pa pb pc pd small room
                ∙ ap some back,
          ),
    )
