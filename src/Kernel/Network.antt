-- ===== src/Kernel/Network.antt =====
-- Parts of src/network.h: addresses, ARP packets, fields of UDP and IPv4 headers, the table of
-- resolved addresses, and the sockets.
pub mod Sockets
pub mod Addresses
use liumos.Prelude.{
  ℕ, zero, suc, ◌+◌, ◌/◌, ◌%◌, ◌^◌, ◌*◌, Bool, true, false, ◌&&◌, Option, none, some, List, [], ◌∷◌,
  ◌++◌, replicate, ◌==◌, if◌then◌else◌, ◌>>=◌,
}
use liumos.Memory.{Mem, Ptr, Bytes}
use liumos.Liumlib.Number.{str_to_byte}
use liumos.Kernel.StringBuffer.{StringBuffer, write_char, write_decimal64, write_hex8_zero_filled}

-- `IPv4Addr::CreateFromString`, with what is left of the count; the inner `none` is `nullopt`, the
-- outer one fuel that does not suffice.
pub create_loop : ℕ → (i : ℕ) → Mem → (s : Ptr) → (addr : Bytes) → Option (Option Bytes)
create_loop f zero m s addr = do
  (v, next) ← str_to_byte f m s
  some (if m next == 0 then some (addr ++ v ∷ []) else none)
create_loop f (suc i) m s addr = do
  (v, next) ← str_to_byte f m s
  if m next == b'.' then create_loop f i m (next + 1) (addr ++ v ∷ []) else some none

unfoldable pub create_from_string : ℕ → Mem → (s : Ptr) → Option (Option Bytes)
unfolding create_loop
create_from_string f m s = create_loop f 3 m s []

-- `IPv4Addr::WriteString` and `IPv4NetMask::WriteString`.
unfoldable pub write_octets : (capacity : ℕ) → Bytes → StringBuffer → Option StringBuffer
write_octets capacity [] b = some b
write_octets capacity (v ∷ []) b = write_decimal64 capacity v b
write_octets capacity (v ∷ w ∷ vs) b = do
  b' ← write_decimal64 capacity v b
  write_octets capacity (w ∷ vs) (write_char capacity (b'.') b')

-- `EtherAddr::WriteString`.
pub write_ether_addr : (capacity : ℕ) → Bytes → StringBuffer → StringBuffer
write_ether_addr capacity [] b = b
write_ether_addr capacity (v ∷ []) b = write_hex8_zero_filled capacity v b
write_ether_addr capacity (v ∷ w ∷ vs) b =
    write_ether_addr capacity (w ∷ vs)
      (write_char capacity (b':') (write_hex8_zero_filled capacity v b))

-- An `EtherAddr` is six bytes, an `IPv4Addr` four, a field of two bytes has the higher one first.
pub record ArpPacket : Type 0 where
  pub dst : Bytes
  pub src : Bytes
  pub eth_type : Bytes
  pub hw_type : Bytes
  pub proto_type : Bytes
  pub hw_addr_len : ℕ
  pub proto_addr_len : ℕ
  pub op : ℕ × ℕ
  pub sender_eth_addr : Bytes
  pub sender_proto_addr : Bytes
  pub target_eth_addr : Bytes
  pub target_proto_addr : Bytes

pub data ArpOperation : Type 0 where
  unknown request reply : ArpOperation

unfoldable pub get_operation : ArpPacket → ArpOperation
get_operation p =
    if p.op.0 == 0
    then (if p.op.1 == 1 then request else if p.op.1 == 2 then reply else unknown)
    else unknown

unfoldable pub setup_request : (target_ip src_ip src_mac : Bytes) → ArpPacket
setup_request target_ip src_ip src_mac = record {
  dst = replicate 6 0xFF;
  src = src_mac;
  eth_type = 0x08 ∷ 0x06 ∷ [];
  hw_type = 0 ∷ 1 ∷ [];
  proto_type = 0x08 ∷ 0x00 ∷ [];
  hw_addr_len = 6;
  proto_addr_len = 4;
  op = (0, 1);
  sender_eth_addr = src_mac;
  sender_proto_addr = src_ip;
  target_eth_addr = replicate 6 0;
  target_proto_addr = target_ip;
}

unfoldable pub setup_reply : (target_ip src_ip target_mac src_mac : Bytes) → ArpPacket
setup_reply target_ip src_ip target_mac src_mac = record {
  dst = target_mac;
  src = src_mac;
  eth_type = 0x08 ∷ 0x06 ∷ [];
  hw_type = 0 ∷ 1 ∷ [];
  proto_type = 0x08 ∷ 0x00 ∷ [];
  hw_addr_len = 6;
  proto_addr_len = 4;
  op = (0, 2);
  sender_eth_addr = src_mac;
  sender_proto_addr = src_ip;
  target_eth_addr = target_mac;
  target_proto_addr = target_ip;
}

-- `SetSourcePort`, `SetDestinationPort` and the functions that read the ports back.
unfoldable pub set_port : (port : ℕ) → ℕ × ℕ
set_port port = (port / 256 % 256, port % 256)

unfoldable pub get_port : ℕ × ℕ → ℕ
get_port p = p.0 * 256 + p.1

-- `SetDataSize`: the header's eight bytes are added to the `uint16_t`, and the sum is rounded up to
-- an even number.
unfoldable pub set_data_size : (size : ℕ) → ℕ × ℕ
set_data_size size =
    let whole = (size + 8) % 2 ^ 16 in
    let even = (whole + 1) / 2 * 2 % 2 ^ 16 in (even / 256, even % 256)

-- `arp_table_`, as the map that it is.
abbrev pub ArpTable : Type 0
ArpTable = Bytes → Option Bytes

pub data SocketType : Type 0 where
  icmp_raw icmp_datagram udp : SocketType

-- `fd` is not negative.
pub record Socket : Type 0 where
  pub pid : ℕ
  pub fd : ℕ
  pub listen_port : ℕ
  pub type_ : SocketType

abbrev pub is_socket : (pid fd : ℕ) → Socket → Bool
is_socket pid fd s = s.pid == pid && s.fd == fd

unfoldable pub find_socket : (pid fd : ℕ) → List Socket → Option Socket
find_socket pid fd [] = none
find_socket pid fd (s ∷ ss) =
    let rest = find_socket pid fd ss in if is_socket pid fd s then some s else rest

abbrev pub is_none {ℓ} : {A : Type ℓ} → Option A → Bool
is_none none = true
is_none (some a) = false

-- Both calls return true on failure.
unfoldable pub register_socket : (pid fd : ℕ) → SocketType → List Socket → List Socket × Bool
unfolding find_socket
register_socket pid fd type_ sockets =
    if is_none (find_socket pid fd sockets)
    then (sockets ++ record { pid = pid; fd = fd; listen_port = 12345; type_ = type_ } ∷ [], false)
    else (sockets, true)

unfoldable pub bind_to_port : (pid fd port : ℕ) → List Socket → List Socket × Bool
bind_to_port pid fd port [] = ([], true)
bind_to_port pid fd port (s ∷ ss) =
    let rest = bind_to_port pid fd port ss in
    if is_socket pid fd s
    then (record s { listen_port = port } ∷ ss, false)
    else (s ∷ rest.0, rest.1)
