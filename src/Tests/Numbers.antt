-- ===== src/Tests/Numbers.antt =====
-- Numbers and addresses of app/liumlib/liumlib.c at small inputs.
use Prim.Native.Nat.{bit_or}
use liumos.Prelude.{ℕ, ◌<◌, ◌≡◌, refl, some, arith, codes, length}
use liumos.Memory.{Mem, Ptr, Bytes, store, write, CString}
use liumos.Liumlib.Alloc.{returned}
use liumos.Liumlib.Output.{print_num, print_ipv4_addr}
use liumos.Liumlib.Output.Decimal.{value}
use liumos.Liumlib.Number.{make_ipv4_addr_from_string, inet_addr, shl32}
use liumos.Liumlib.Number.Address.{inet_addr-dotted}
use liumos.Liumlib.Number.RoundTrip.{print_ipv4_addr_round_trip}

-- An address at 100, one with a part that is too great at 200.
abbrev m : Mem
m = store (store (λ _. 0) 100 (codes "127.0.0.1")) 200 (codes "256.0.0.0")

home : CString m 100 (codes "127.0.0.1")
unfolding store write
home = omega arith

great : CString m 200 (codes "256.0.0.0")
unfolding store write
great = omega arith

print_addr : print_ipv4_addr 0x0100007f ≡ some (codes "127.0.0.1")
unfolding print_ipv4_addr print_num
print_addr = refl

-- "256" is taken as the first byte of an address.
inet_addr-dotted_example :
    inet_addr 20 m 200 ≡ some (bit_or (bit_or (bit_or (shl32 0 24) (shl32 0 16)) (shl32 0 8)) 256)
unfolding value
inet_addr-dotted_example =
    inet_addr-dotted 20 (codes "256") (codes "0") (codes "0") (codes "0") 256 0 0 0 m 200 great
      (omega arith) (omega arith) (omega arith) (omega arith) (omega arith)

print_ipv4_addr_round_trip_example :
    (text : Bytes) × (print_ipv4_addr 0x0100007f ≡ some text)
    × ((file : Bytes) (f : ℕ) (m : Mem) (p : Ptr)
        → CString m p text
        → length text < f
        → (make_ipv4_addr_from_string file f m p ≡ some (returned 0x0100007f))
          × (inet_addr f m p ≡ some 0x0100007f))
print_ipv4_addr_round_trip_example = print_ipv4_addr_round_trip 0x0100007f (omega arith)
