-- ===== src/Tests/Exchange.antt =====
-- A request that the client of app/httpclient builds and the server of app/httpserver answers, and
-- arguments of both.
use liumos.Prelude.{
  ℕ, ◌+◌, ◌*◌, ◌<◌, ◌≡◌, refl, inl, inr, Bool, true, false, some, List, [], ◌∷◌, ◌++◌, length,
  codes, arith,
}
use liumos.Memory.{Mem, Ptr, Bytes, CString}
use liumos.Liumlib.Alloc.{Libc, returned}
use liumos.Http.Append.{Placed}
use liumos.Liumlib.Str.{strcmp}
use liumos.Liumlib.Number.{str_to_num16}
use liumos.Http.Arguments.{either_equal}
use liumos.Http.Client
use liumos.Http.Client.Request.{HasRoom, request_rest, build_request-words}
use liumos.Http.Server
use liumos.Http.Server.Build.{response_text}
use liumos.Http.Server.Routes.{Serves}
use liumos.Http.Server.Respond.{IsReady, Answers, respond-Answers}
use liumos.Http.Server.Arguments.{Reads, parse_args-Reads}
use liumos.Http.Exchange.{exchange-Serves}
use liumos.Tests.Texts.{hold, hold-CString, hold-Placed}

-- The client's literals stand at 0 to 150000, its path and host behind them.
abbrev client_place : Client.Literal → ℕ
client_place Client.get_space = 0
client_place Client.version = 1
client_place Client.host_colon = 2
client_place Client.newline = 3
client_place Client.local_ip = 4
client_place Client.empty = 5
client_place Client.root_path = 6
client_place Client.long_ip = 7
client_place Client.short_ip = 8
client_place Client.long_port = 9
client_place Client.short_port = 10
client_place Client.long_host = 11
client_place Client.short_host = 12
client_place Client.long_path = 13
client_place Client.short_path = 14
client_place Client.long_tcp = 15

abbrev client_texts : List Bytes
client_texts =
    Client.text Client.get_space
    ∷ Client.text Client.version
    ∷ Client.text Client.host_colon
    ∷ Client.text Client.newline
    ∷ Client.text Client.local_ip
    ∷ Client.text Client.empty
    ∷ Client.text Client.root_path
    ∷ Client.text Client.long_ip
    ∷ Client.text Client.short_ip
    ∷ Client.text Client.long_port
    ∷ Client.text Client.short_port
    ∷ Client.text Client.long_host
    ∷ Client.text Client.short_host
    ∷ Client.text Client.long_path
    ∷ Client.text Client.short_path
    ∷ Client.text Client.long_tcp
    ∷ codes "/page1.html"
    ∷ codes "liumos"
    ∷ []

abbrev client_literal : Client.Literal → Ptr
client_literal l = 10000 * client_place l

client_there :
    (l : Client.Literal)
    → Placed 3000 (hold client_texts) 500000 Client.size_request (client_literal l) (Client.text l)
client_there Client.get_space =
    hold-Placed client_texts 0 500000 Client.size_request refl (omega arith)
client_there Client.version =
    hold-Placed client_texts 1 500000 Client.size_request refl (omega arith)
client_there Client.host_colon =
    hold-Placed client_texts 2 500000 Client.size_request refl (omega arith)
client_there Client.newline =
    hold-Placed client_texts 3 500000 Client.size_request refl (omega arith)
client_there Client.local_ip =
    hold-Placed client_texts 4 500000 Client.size_request refl (omega arith)
client_there Client.empty = hold-Placed client_texts 5 500000 Client.size_request refl (omega arith)
client_there Client.root_path =
    hold-Placed client_texts 6 500000 Client.size_request refl (omega arith)
client_there Client.long_ip =
    hold-Placed client_texts 7 500000 Client.size_request refl (omega arith)
client_there Client.short_ip =
    hold-Placed client_texts 8 500000 Client.size_request refl (omega arith)
client_there Client.long_port =
    hold-Placed client_texts 9 500000 Client.size_request refl (omega arith)
client_there Client.short_port =
    hold-Placed client_texts 10 500000 Client.size_request refl (omega arith)
client_there Client.long_host =
    hold-Placed client_texts 11 500000 Client.size_request refl (omega arith)
client_there Client.short_host =
    hold-Placed client_texts 12 500000 Client.size_request refl (omega arith)
client_there Client.long_path =
    hold-Placed client_texts 13 500000 Client.size_request refl (omega arith)
client_there Client.short_path =
    hold-Placed client_texts 14 500000 Client.size_request refl (omega arith)
client_there Client.long_tcp =
    hold-Placed client_texts 15 500000 Client.size_request refl (omega arith)

abbrev settings : Client.Settings
settings = record { host = 170000; path = 160000; ip = 0; port = 8888; tcp = false }

abbrev client : Libc
client = record { mem = hold client_texts; malloc_size = 0 }

client-HasRoom :
    HasRoom 3000 client_literal 500000 settings client (codes "/page1.html") (codes "liumos")
client-HasRoom = record {
  heap = record { array = omega arith; within = omega arith };
  room = omega arith;
  literals = client_there;
  path_there = hold-Placed client_texts 16 500000 Client.size_request refl (omega arith);
  host_there = hold-Placed client_texts 17 500000 Client.size_request refl (omega arith);
  fits = omega arith;
}

-- The server's literals stand at 0 to 180000, the request and an argument behind them.
abbrev server_place : Server.Literal → ℕ
server_place Server.ok_line = 0
server_place Server.not_found_line = 1
server_place Server.error_line = 2
server_place Server.content_type = 3
server_place Server.newline = 4
server_place Server.root_path = 5
server_place Server.index_path = 6
server_place Server.page1_path = 7
server_place Server.page2_path = 8
server_place Server.home_body = 9
server_place Server.page1_body = 10
server_place Server.page2_body = 11
server_place Server.error_body = 12
server_place Server.get_method = 13
server_place Server.only_get = 14
server_place Server.delimiter = 15
server_place Server.long_port = 16
server_place Server.short_port = 17
server_place Server.long_tcp = 18

abbrev request : Bytes
request = codes "GET" ++ b' ' ∷ (codes "/page1.html" ++ b' ' ∷ request_rest (codes "liumos"))

abbrev server_texts : List Bytes
server_texts =
    Server.text Server.ok_line
    ∷ Server.text Server.not_found_line
    ∷ Server.text Server.error_line
    ∷ Server.text Server.content_type
    ∷ Server.text Server.newline
    ∷ Server.text Server.root_path
    ∷ Server.text Server.index_path
    ∷ Server.text Server.page1_path
    ∷ Server.text Server.page2_path
    ∷ Server.text Server.home_body
    ∷ Server.text Server.page1_body
    ∷ Server.text Server.page2_body
    ∷ Server.text Server.error_body
    ∷ Server.text Server.get_method
    ∷ Server.text Server.only_get
    ∷ Server.text Server.delimiter
    ∷ Server.text Server.long_port
    ∷ Server.text Server.short_port
    ∷ Server.text Server.long_tcp
    ∷ request
    ∷ codes "8080"
    ∷ codes "-v"
    ∷ []

abbrev server_literal : Server.Literal → Ptr
server_literal l = 10000 * server_place l

server_there :
    (l : Server.Literal)
    → Placed 3000 (hold server_texts) 500000 Server.size_response (server_literal l) (Server.text l)
server_there Server.ok_line =
    hold-Placed server_texts 0 500000 Server.size_response refl (omega arith)
server_there Server.not_found_line =
    hold-Placed server_texts 1 500000 Server.size_response refl (omega arith)
server_there Server.error_line =
    hold-Placed server_texts 2 500000 Server.size_response refl (omega arith)
server_there Server.content_type =
    hold-Placed server_texts 3 500000 Server.size_response refl (omega arith)
server_there Server.newline =
    hold-Placed server_texts 4 500000 Server.size_response refl (omega arith)
server_there Server.root_path =
    hold-Placed server_texts 5 500000 Server.size_response refl (omega arith)
server_there Server.index_path =
    hold-Placed server_texts 6 500000 Server.size_response refl (omega arith)
server_there Server.page1_path =
    hold-Placed server_texts 7 500000 Server.size_response refl (omega arith)
server_there Server.page2_path =
    hold-Placed server_texts 8 500000 Server.size_response refl (omega arith)
server_there Server.home_body =
    hold-Placed server_texts 9 500000 Server.size_response refl (omega arith)
server_there Server.page1_body =
    hold-Placed server_texts 10 500000 Server.size_response refl (omega arith)
server_there Server.page2_body =
    hold-Placed server_texts 11 500000 Server.size_response refl (omega arith)
server_there Server.error_body =
    hold-Placed server_texts 12 500000 Server.size_response refl (omega arith)
server_there Server.get_method =
    hold-Placed server_texts 13 500000 Server.size_response refl (omega arith)
server_there Server.only_get =
    hold-Placed server_texts 14 500000 Server.size_response refl (omega arith)
server_there Server.delimiter =
    hold-Placed server_texts 15 500000 Server.size_response refl (omega arith)
server_there Server.long_port =
    hold-Placed server_texts 16 500000 Server.size_response refl (omega arith)
server_there Server.short_port =
    hold-Placed server_texts 17 500000 Server.size_response refl (omega arith)
server_there Server.long_tcp =
    hold-Placed server_texts 18 500000 Server.size_response refl (omega arith)

server_apart : (l : Server.Literal) → server_literal l + length (Server.text l) < 190000
server_apart Server.ok_line = omega arith
server_apart Server.not_found_line = omega arith
server_apart Server.error_line = omega arith
server_apart Server.content_type = omega arith
server_apart Server.newline = omega arith
server_apart Server.root_path = omega arith
server_apart Server.index_path = omega arith
server_apart Server.page1_path = omega arith
server_apart Server.page2_path = omega arith
server_apart Server.home_body = omega arith
server_apart Server.page1_body = omega arith
server_apart Server.page2_body = omega arith
server_apart Server.error_body = omega arith
server_apart Server.get_method = omega arith
server_apart Server.only_get = omega arith
server_apart Server.delimiter = omega arith
server_apart Server.long_port = omega arith
server_apart Server.short_port = omega arith
server_apart Server.long_tcp = omega arith

abbrev server : Libc
server = record { mem = hold server_texts; malloc_size = 0 }

server-IsReady :
    IsReady 3000 server_literal 500000 server 190000
      (codes "GET")
      (codes "/page1.html")
      (request_rest (codes "liumos"))
server-IsReady = record {
  heap = record { array = omega arith; within = omega arith };
  room = omega arith;
  request = hold-CString server_texts 19 refl;
  address = omega arith;
  method_word = omega arith;
  path_word = omega arith;
  fuel = omega arith;
  outside = inl (omega arith);
  literals = server_there;
  literals_apart = λ l. inr (server_apart l);
}

respond-Answers_example :
    (t : Bytes) × (m' : Mem) × (Server.respond 3000 server_literal 500000 server 0 190000
      ≡ some (returned (record { mem = m'; malloc_size = 2000 }, 500000)))
    × Answers 3000 server_literal (codes "GET") (codes "/page1.html") t
    × CString m' 500000 t
    × (length t < 2000)
respond-Answers_example =
    respond-Answers 3000 server_literal 500000 server 190000 (codes "GET") (codes "/page1.html")
      (request_rest (codes "liumos")) 0 (omega arith) server-IsReady

abbrev built :
    (m' : Mem) × (Client.build_request 3000 client_literal 500000 settings client
      ≡ some (returned (record { mem = m'; malloc_size = 0 + 1000 }, 500000 + 0)))
    × CString m' (500000 + 0) request
built =
    build_request-words 3000 client_literal 500000 settings client (codes "/page1.html")
      (codes "liumos") (omega arith) client-HasRoom

exchange-Serves_example :
    (status : ℕ) × (page : Server.Literal) × (server' : Libc) × (response : Ptr) × (Server.respond
        3000 server_literal 500000 server 0 190000
      ≡ some (returned (server', response)))
    × Serves (codes "/page1.html") status page
    × CString server'.mem response (response_text 3000 server_literal status (Server.text page))
exchange-Serves_example =
    exchange-Serves 3000 client_literal server_literal 500000 500000 settings client
      (record { mem = built.0; malloc_size = 0 + 1000 }) server (500000 + 0) 0 190000
      (codes "/page1.html") (codes "liumos") (codes "GET") (codes "/page1.html")
      (request_rest (codes "liumos")) (omega arith) client-HasRoom (omega arith) built.1 built.2
      server-IsReady

-- `--port 8080 --tcp -v`
parse_args-Reads_example :
    (b : Bool) × (o : Server.Options) × (Server.parse_args 3000 server_literal
        (hold server_texts)
        0
        (160000 ∷ 200000 ∷ 180000 ∷ 210000 ∷ [])
      ≡ some (b, o))
    × Reads
        (Server.text Server.ok_line)
        (codes "--port" ∷ codes "8080" ∷ codes "--tcp" ∷ codes "-v" ∷ [])
        Server.default_options
        b
        o
parse_args-Reads_example =
    parse_args-Reads 3000 server_literal (hold server_texts) 0 (Server.text Server.ok_line)
      (160000 ∷ 200000 ∷ 180000 ∷ 210000 ∷ [])
      (codes "--port" ∷ codes "8080" ∷ codes "--tcp" ∷ codes "-v" ∷ []) (omega arith)
      (
        hold-CString server_texts 16 refl,
        hold-CString server_texts 17 refl,
        hold-CString server_texts 18 refl,
        hold-CString server_texts 0 refl,
        omega arith,
      )
      (
        hold-CString server_texts 16 refl,
        omega arith,
        (
          hold-CString server_texts 20 refl,
          omega arith,
          (
            hold-CString server_texts 18 refl,
            omega arith,
            (hold-CString server_texts 21 refl, omega arith, tt),
          ),
        ),
      )

-- The third argument is refused.
arguments_read :
    Server.parse_args 3000 server_literal
      (hold server_texts)
      0
      (160000 ∷ 200000 ∷ 180000 ∷ 210000 ∷ [])
    ≡ some (false, record { port = 8080; tcp = true })
unfolding Server.parse_args hold either_equal strcmp str_to_num16
arguments_read = refl
