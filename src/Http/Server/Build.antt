-- ===== src/Http/Server/Build.antt =====
-- `BuildResponse` of app/httpserver/httpserver.c, and the buffer.
use liumos.Prelude.{ℕ, ◌+◌, ◌^◌, ◌<◌, ◌≡◌, refl, some, ◌++◌, length, length-append, arith}
use liumos.Memory.{Mem, Ptr, Bytes}
use liumos.Http.Append.{Placed, Holds, strcpy-Holds, strcat-Holds}
use liumos.Http.Server.{
  Literal, text, content_type, newline, line_of, status_line, headers, crlf, body, build_response,
}

-- The status line, the header, an empty line and the message.
abbrev pub response_text :
    (f : ℕ) (literal : Literal → Ptr) → (status : ℕ) → (message : Bytes) → Bytes
response_text f literal status message =
    ((text (line_of f literal status) ++ text content_type) ++ text newline) ++ message

module _ (f : ℕ) (literal : Literal → Ptr) (m : Mem) (dest : Ptr) (cap : ℕ) where
  -- Where the buffer has room for the response, holds a NUL where the status line ends, and spares
  -- the literals and the message, `BuildResponse` leaves the status line, the header, an empty line
  -- and the message there, and changes nothing outside the buffer.
  pub build_response-Holds :
      {q : Ptr} {message : Bytes} (status : ℕ)
      → cap < f
      → cap < 2 ^ 64
      → ((l : Literal) → Placed f m dest cap (literal l) (text l))
      → Placed f m dest cap q message
      → m (dest + length (text (line_of f literal status))) ≡ 0
      → length (response_text f literal status message) < cap
      → (m' : Mem) × (build_response f literal m dest status q ≡ some m')
        × Holds m m' dest cap (response_text f literal status message)
  unfolding build_response status_line headers crlf body
  build_response-Holds {q} {message} status enough small lits h z fits =
      let line = text (line_of f literal status) in
      let len1 = length-append line (text content_type) in
      let len2 = length-append (line ++ text content_type) (text newline) in
      let len3 = length-append ((line ++ text content_type) ++ text newline) message in
      let (m1, e1, k1) =
        strcpy-Holds f m dest cap (lits (line_of f literal status)) z
          (omega (arith, len1, len2, len3)) in
      let (m2, e2, k2) =
        strcat-Holds f m dest cap enough small (lits content_type) k1
          (omega (arith, len1, len2, len3)) in
      let (m3, e3, k3) =
        strcat-Holds f m dest cap enough small (lits newline) k2 (omega (arith, len2, len3)) in
      let (m4, e4, k4) = strcat-Holds f m dest cap enough small h k3 (omega (arith, len3)) in
      (m4, rw (e1, e2, e3, e4) refl, k4)
