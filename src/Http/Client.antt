-- ===== src/Http/Client.antt =====
-- app/httpclient/httpclient.c: the request that the client sends, and its options. A string literal
-- stands at an address that the compiler chose.
pub mod Request
pub mod Arguments
use liumos.Prelude.{
  ℕ, ◌+◌, Bool, true, false, Option, none, some, List, [], ◌∷◌, ◌==◌, if◌then◌else◌, ◌>>=◌, codes,
}
use liumos.Memory.{Mem, Ptr}
use liumos.Liumlib.Str.{strcpy}
use liumos.Liumlib.Alloc.{Libc, Call, returned, exited, overran, malloc}
use liumos.Liumlib.Number.{str_to_num16}
use liumos.Http.Append.{append}
use liumos.Http.Arguments.{equal, either_equal}

-- The string literals that are put into requests and settings.
pub data Literal : Type 0 where
  get_space version host_colon newline local_ip empty root_path long_ip short_ip long_port
        short_port long_host short_host long_path short_path long_tcp :
      Literal

abbrev pub text : Literal → List ℕ
text get_space = codes "GET "
text version = codes " HTTP/1.1\n"
text host_colon = codes "Host: "
text newline = codes "\n"
text local_ip = codes "127.0.0.1"
text empty = []
text root_path = codes "/"
text long_ip = codes "--ip"
text short_ip = codes "-i"
text long_port = codes "--port"
text short_port = codes "-p"
text long_host = codes "--host"
text short_host = codes "-h"
text long_path = codes "--path"
text short_path = codes "-P"
text long_tcp = codes "--tcp"

abbrev pub size_request : ℕ
size_request = 1000

-- The variables of the file.
pub record Settings : Type 0 where
  pub host : Ptr
  pub path : Ptr
  pub ip : Ptr
  pub port : ℕ
  pub tcp : Bool

-- Which option an argument is.
pub data Flag : Type 0 where
  ip_flag port_flag host_flag path_flag tcp_flag no_flag : Flag

abbrev pub is_flag : Flag → Bool
is_flag no_flag = false
is_flag flag = true

-- What follows an option: the arguments behind its value, those behind it, or an end.
abbrev pub go_on {ℓ} : {A : Type ℓ} → Flag → A → A → A → A
go_on ip_flag two one stop = two
go_on port_flag two one stop = two
go_on host_flag two one stop = two
go_on path_flag two one stop = two
go_on tcp_flag two one stop = one
go_on no_flag two one stop = stop

-- `f` is the fuel of the string functions.
module _ (f : ℕ) (literal : Literal → Ptr) where
  unfoldable pub request_line : Settings → Mem → (request : Ptr) → Option Mem
  request_line s m request = do
    (m1, _) ← strcpy f m request (literal get_space)
    m2 ← append f m1 request s.path
    append f m2 request (literal version)

  unfoldable pub headers : Settings → Mem → (request : Ptr) → Option Mem
  headers s m request = do
    m1 ← append f m request (literal host_colon)
    m2 ← append f m1 request s.host
    append f m2 request (literal newline)

  unfoldable pub crlf : Mem → (request : Ptr) → Option Mem
  crlf m request = append f m request (literal newline)

  -- The part of `main` that fills the request.
  unfoldable pub fill_request : Settings → Mem → (request : Ptr) → Option Mem
  unfolding request_line headers crlf
  fill_request s m request = do
    m1 ← request_line s m request
    m2 ← headers s m1 request
    crlf m2 request

  abbrev pub filled : Settings → Call (Libc × Ptr) → Option (Call (Libc × Ptr))
  filled s (exited output status) = some (exited output status)
  filled s overran = some overran
  filled s (returned (st, request)) = do
    m ← fill_request s st.mem request
    some (returned (record st { mem = m }, request))

  unfoldable pub build_request : (malloc_array : Ptr) → Settings → Libc → Option (Call (Libc × Ptr))
  unfolding fill_request
  build_request malloc_array s st = filled s (malloc malloc_array st size_request)

  abbrev pub default_settings : Settings
  default_settings = record {
    host = literal empty;
    path = literal root_path;
    ip = literal local_ip;
    port = 8888;
    tcp = false;
  }

  -- The tests of `ParseArgs` for one argument.
  unfoldable pub flag_of : Mem → (arg : Ptr) → Option Flag
  flag_of m a = do
    ip ← either_equal f m (literal long_ip) a (literal short_ip) a
    if ip then some ip_flag else do
      port ← either_equal f m (literal long_port) a (literal short_port) a
      if port then some port_flag else do
        host ← either_equal f m (literal long_host) a (literal short_host) a
        if host then some host_flag else do
          path ← either_equal f m (literal long_path) a (literal short_path) a
          if path
              then some path_flag
              else do tcp ← equal f m (literal long_tcp) a; some (if tcp then tcp_flag else no_flag)

  -- The effect of an option with `value` behind it.
  unfoldable pub set_option : Mem → Flag → (value : Ptr) → Settings → Option Settings
  set_option m ip_flag value s = some (record s { ip = value })
  set_option m port_flag value s = do (v, _) ← str_to_num16 f m value; some (record s { port = v })
  set_option m host_flag value s = some (record s { host = value })
  set_option m path_flag value s = some (record s { path = value })
  set_option m tcp_flag value s = some (record s { tcp = true })
  set_option m no_flag value s = some s

  -- The loop over the arguments that are left; `behind` stands behind the last one.
  pub settings_loop : Mem → (behind : Ptr) → (argv : List Ptr) → Settings → Option (Bool × Settings)
  unfolding set_option
  settings_loop m behind [] s = some (true, s)
  settings_loop m behind (a ∷ []) s = do
    flag ← flag_of m a
    s' ← set_option m flag behind s
    some (is_flag flag, s')
  settings_loop m behind (a ∷ b ∷ rest) s =
      let after_two = λ (s' : Settings). settings_loop m behind rest s' in
      let after_one = λ (s' : Settings). settings_loop m behind (b ∷ rest) s' in
      do
        flag ← flag_of m a
        s' ← set_option m flag b s
        go_on flag (after_two s') (after_one s') (some (false, s'))

  unfoldable pub parse_args : Mem → (behind : Ptr) → (argv : List Ptr) → Option (Bool × Settings)
  unfolding settings_loop
  parse_args m behind argv = settings_loop m behind argv default_settings
