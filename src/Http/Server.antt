-- ===== src/Http/Server.antt =====
-- app/httpserver/httpserver.c: what the server answers, and its options. A string literal stands at
-- an address that the compiler chose.
pub mod Build
pub mod Routes
pub mod Respond
pub mod Arguments
use liumos.Prelude.{
  ℕ, ◌+◌, Bool, true, false, Option, none, some, List, [], ◌∷◌, ◌==◌, if◌then◌else◌, ◌>>=◌, codes,
}
use liumos.Prelude.Int.{ℤ, pos, negsuc}
use liumos.Memory.{Mem, Ptr, Bytes}
use liumos.Liumlib.Str.{strcpy, strtok}
use liumos.Liumlib.Alloc.{Libc, Call, returned, exited, overran, malloc}
use liumos.Liumlib.Number.{str_to_num16}
use liumos.Http.Append.{append}
use liumos.Http.Arguments.{equal, either_equal}

-- The string literals of the file.
pub data Literal : Type 0 where
  ok_line not_found_line error_line content_type newline root_path index_path page1_path page2_path
        home_body page1_body page2_body error_body get_method only_get delimiter long_port
        short_port long_tcp :
      Literal

abbrev pub text : Literal → Bytes
text ok_line = codes "HTTP/1.1 200 OK\n"
text not_found_line = codes "HTTP/1.1 404 Not Found\n"
text error_line = codes "HTTP/1.1 500 Internal Server Error\n"
text content_type = codes "Content-Type: text/html; charset=UTF-8\n"
text newline = codes "\n"
text root_path = codes "/"
text index_path = codes "/index.html"
text page1_path = codes "/page1.html"
text page2_path = codes "/page2.html"
text home_body =
    codes
      "<html>\n  <body>\n    <h1>Hello World</h1>\n    <div>\n      <p>This is a sample paragraph.</p>\n      <ul>\n        <li>List 1</li>\n        <li>List 2</li>\n        <li>List 3</li>\n      </ul>\n    </div>\n  </body>\n</html>\n"
text page1_body =
    codes
      "<html>\n  <body>\n    <h1>Example Page 1</h1>\n    <div>\n      <p>This is a sample paragraph.</p>\n      <ul>\n        <li>List 1</li>\n        <li>List 2</li>\n      </ul>\n      <ul>\n        <li>List 3</li>\n        <li>List 4</li>\n      </ul>\n    </div>\n  </body>\n</html>\n"
text page2_body =
    codes
      "<html>\n  <body>\n    <h1>Example Page 2</h1>\n    <div>\n      <p>This is the first paragraph.</p>\n    </div>\n    <ul>\n      <li>List 1</li>\n      <li>List 2</li>\n    </ul>\n    <div>\n      <p>This is the second paragraph.</p>\n    </div>\n  </body>\n</html>\n"
text error_body =
    codes
      "<html>\n  <body>\n    <h1>Error!</h1>\n    <p>Page is not found.</p>\n </body>\n</html>\n"
text get_method = codes "GET"
text only_get = codes "Only GET method is supported."
text delimiter = codes " "
text long_port = codes "--port"
text short_port = codes "-p"
text long_tcp = codes "--tcp"

abbrev pub size_response : ℕ
size_response = 2000

-- The options: the variables `port` and `tcp`.
pub record Options : Type 0 where
  pub port : ℕ
  pub tcp : Bool

abbrev pub default_options : Options
default_options = record { port = 8888; tcp = false }

-- `f` is the fuel of the string functions.
module _ (f : ℕ) (literal : Literal → Ptr) where
  abbrev pub line_of : (status : ℕ) → Literal
  line_of status =
      if status == 200 then ok_line else if status == 404 then not_found_line else error_line

  unfoldable pub status_line : Mem → (response : Ptr) → (status : ℕ) → Option Mem
  status_line m response status = do
    (m', _) ← strcpy f m response (literal (line_of status))
    some m'

  unfoldable pub headers : Mem → (response : Ptr) → Option Mem
  headers m response = append f m response (literal content_type)

  unfoldable pub crlf : Mem → (response : Ptr) → Option Mem
  crlf m response = append f m response (literal newline)

  unfoldable pub body : Mem → (response message : Ptr) → Option Mem
  body m response message = append f m response message

  unfoldable pub build_response :
      Mem → (response : Ptr) → (status : ℕ) → (message : Ptr) → Option Mem
  unfolding status_line headers crlf body
  build_response m response status message = do
    m1 ← status_line m response status
    m2 ← headers m1 response
    m3 ← crlf m2 response
    body m3 response message

  unfoldable pub route : Mem → (response path : Ptr) → Option Mem
  unfolding build_response either_equal
  route m response path = do
    home ← either_equal f m path (literal root_path) path (literal index_path)
    if home then build_response m response 200 (literal home_body) else do
      first ← equal f m path (literal page1_path)
      if first then build_response m response 200 (literal page1_body) else do
        second ← equal f m path (literal page2_path)
        if second
            then build_response m response 200 (literal page2_body)
            else build_response m response 404 (literal error_body)

  -- The part of the loop of `StartServer` between the request and the response; `malloc_array` is
  -- the heap's array and `save_ptr` the variable of `strtok`.
  abbrev pub answer : Call (Libc × Ptr) → (method path : Ptr) → Option (Call (Libc × Ptr))
  answer (exited output status) method path = some (exited output status)
  answer overran method path = some overran
  answer (returned (st, response)) method path = do
    get ← equal f st.mem method (literal get_method)
    m ←
        if get
        then route st.mem response path
        else build_response st.mem response 500 (literal only_get)
    some (returned (record st { mem = m }, response))

  unfoldable pub respond :
      (malloc_array : Ptr) → Libc → (save_ptr request : Ptr) → Option (Call (Libc × Ptr))
  unfolding route
  respond malloc_array st save_ptr request = do
    (m1, save1, method) ← strtok f st.mem save_ptr request (literal delimiter)
    (m2, save2, path) ← strtok f m1 save1 0 (literal delimiter)
    answer (malloc malloc_array (record st { mem = m2 }) size_response) method path

  -- The loop of `ParseArgs` over the arguments that are left; `behind` stands behind the last one.
  pub options_loop : Mem → (behind : Ptr) → (argv : List Ptr) → Options → Option (Bool × Options)
  options_loop m behind [] o = some (true, o)
  options_loop m behind (a ∷ []) o = do
    port ← either_equal f m (literal long_port) a (literal short_port) a
    if port then (do (v, _) ← str_to_num16 f m behind; some (true, record o { port = v })) else do
      tcp ← equal f m (literal long_tcp) a
      some (if tcp then (true, record o { tcp = true }) else (false, o))
  options_loop m behind (a ∷ b ∷ rest) o =
      let after_two = λ (o' : Options). options_loop m behind rest o' in
      let after_one = λ (o' : Options). options_loop m behind (b ∷ rest) o' in
      do
        port ← either_equal f m (literal long_port) a (literal short_port) a
        if port then (do (v, _) ← str_to_num16 f m b; after_two (record o { port = v })) else do
          tcp ← equal f m (literal long_tcp) a
          if tcp then after_one (record o { tcp = true }) else some (false, o)

  unfoldable pub parse_args : Mem → (behind : Ptr) → (argv : List Ptr) → Option (Bool × Options)
  unfolding options_loop
  parse_args m behind argv = options_loop m behind argv default_options
