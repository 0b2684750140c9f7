-- ===== src/Http/Client/Request.antt =====
-- The request of app/httpclient/httpclient.c.
use liumos.Prelude.{
  ℕ, ◌+◌, ◌<◌, ◌≤◌, ◌≡◌, refl, some, ◌∷◌, ◌++◌, length, length-append, append_assoc, arith, codes,
}
use mathlib.Core.Path.{subst}
use liumos.Memory.{Mem, Ptr, Bytes, CString}
use liumos.Memory.Store.{Outside, CString-frame}
use liumos.Liumlib.Alloc.{Libc, returned, malloc_max_size, IsHeap}
use liumos.Liumlib.Alloc.Blocks.{malloc_block}
use liumos.Http.Append.{Placed, Holds, strcpy-Holds, append-Holds}
use liumos.Http.Client.{
  Literal, get_space, version, host_colon, newline, text, size_request, Settings, request_line,
  headers, crlf, fill_request, build_request,
}

-- The request as its bytes: the request line, the header with the host, and an empty line.
abbrev pub request_text : (path host : Bytes) → Bytes
request_text path host =
    (((((text get_space ++ path) ++ text version) ++ text host_colon) ++ host) ++ text newline)
    ++ text newline

length-request_text :
    (path host : Bytes) → length (request_text path host) ≡ length path + length host + 22
length-request_text path host = simp length-append (omega arith)

module _ (f : ℕ) (literal : Literal → Ptr) (s : Settings) (m : Mem) (dest : Ptr)
    (path host : Bytes) where
  fill_request-Holds :
      size_request < f
      → ((l : Literal) → Placed f m dest size_request (literal l) (text l))
      → Placed f m dest size_request s.path path
      → Placed f m dest size_request s.host host
      → m (dest + 4) ≡ 0
      → length (request_text path host) < size_request
      → (m' : Mem) × (fill_request f literal s m dest ≡ some m')
        × Holds m m' dest size_request (request_text path host)
  unfolding fill_request request_line headers crlf
  fill_request-Holds enough lits hp hh z fits =
      let t1 = text get_space ++ path in
      let t2 = t1 ++ text version in
      let t3 = t2 ++ text host_colon in
      let t4 = t3 ++ host in
      let t5 = t4 ++ text newline in
      let len1 = length-append (text get_space) path in
      let len2 = length-append t1 (text version) in
      let len3 = length-append t2 (text host_colon) in
      let len4 = length-append t3 host in
      let len5 = length-append t4 (text newline) in
      let len6 = length-append t5 (text newline) in
      let (m1, e1, k1) = strcpy-Holds f m dest size_request (lits get_space) z (omega arith) in
      let (m2, e2, k2) =
        append-Holds f m dest size_request enough (omega arith) hp k1
          (omega (arith, len1, len2, len3, len4, len5, len6, fits)) in
      let (m3, e3, k3) =
        append-Holds f m dest size_request enough (omega arith) (lits version) k2
          (omega (arith, len2, len3, len4, len5, len6, fits)) in
      let (m4, e4, k4) =
        append-Holds f m dest size_request enough (omega arith) (lits host_colon) k3
          (omega (arith, len3, len4, len5, len6, fits)) in
      let (m5, e5, k5) =
        append-Holds f m dest size_request enough (omega arith) hh k4
          (omega (arith, len4, len5, len6, fits)) in
      let (m6, e6, k6) =
        append-Holds f m dest size_request enough (omega arith) (lits newline) k5
          (omega (arith, len5, len6, fits)) in
      let (m7, e7, k7) =
        append-Holds f m dest size_request enough (omega arith) (lits newline) k6
          (omega (arith, len6, fits)) in
      (m7, rw (e1, e2, e3, e4, e5, e6, e7) refl, k7)

-- What is behind the path.
abbrev pub request_rest : (host : Bytes) → Bytes
request_rest host = codes "HTTP/1.1\nHost: " ++ (host ++ codes "\n\n")

request_words :
    (path host : Bytes)
    → request_text path host ≡ codes "GET" ++ b' ' ∷ (path ++ b' ' ∷ request_rest host)
request_words path host = simp append_assoc

module _ (f : ℕ) (literal : Literal → Ptr) (malloc_array : Ptr) (s : Settings) (st : Libc)
    (path host : Bytes) where
  -- A heap with room for the request, and strings outside it.
  pub record HasRoom : Type 0 where
    pub heap : IsHeap malloc_array st
    pub room : st.malloc_size + size_request ≤ malloc_max_size
    pub literals :
        (l : Literal)
        → Placed f st.mem (malloc_array + st.malloc_size) size_request (literal l) (text l)
    pub path_there : Placed f st.mem (malloc_array + st.malloc_size) size_request s.path path
    pub host_there : Placed f st.mem (malloc_array + st.malloc_size) size_request s.host host
    pub fits : length path + length host + 22 < size_request

  Placed-frame :
      {p : Ptr} {t : Bytes} (m : Mem)
      → ((a : ℕ) → Outside a (malloc_array + st.malloc_size) size_request → m a ≡ st.mem a)
      → Placed f st.mem (malloc_array + st.malloc_size) size_request p t
      → Placed f m (malloc_array + st.malloc_size) size_request p t
  Placed-frame {p} {t} m same h = record {
    held = CString-frame t m p h.held (λ a lo hi. same a (omega (arith, h.apart)));
    apart = h.apart;
    fuel = h.fuel;
  }

  -- Where the settings' path and host fit the buffer with the 22 bytes around them, the client
  -- allocates the request and leaves in it the words GET and path, and the rest of the request
  -- line, the header with the host and an empty line.
  pub build_request-words :
      size_request < f
      → HasRoom
      → (m' : Mem) × (build_request f literal malloc_array s st
          ≡ some (
              returned (
                record { mem = m'; malloc_size = st.malloc_size + size_request },
                malloc_array + st.malloc_size,
              )))
        × CString m'
            (malloc_array + st.malloc_size)
            (codes "GET" ++ b' ' ∷ (path ++ b' ' ∷ request_rest host))
  unfolding build_request
  build_request-words enough h =
      let (m, e, zeros, kept) = malloc_block malloc_array st size_request h.heap h.room in
      let (m', run, k) =
        fill_request-Holds f literal s m (malloc_array + st.malloc_size) path host enough
          (λ l. Placed-frame m kept (h.literals l)) (Placed-frame m kept h.path_there)
          (Placed-frame m kept h.host_there) (zeros 4 (omega arith))
          (omega (arith, h.fits, length-request_text path host)) in
      (
        m',
        rw (e, run) refl,
        subst (CString m' (malloc_array + st.malloc_size)) (request_words path host) k.held,
      )
