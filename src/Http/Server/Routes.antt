-- ===== src/Http/Server/Routes.antt =====
-- `Route` of app/httpserver/httpserver.c: which page is served for a path.
use liumos.Prelude.{ℕ, ◌+◌, ◌<◌, ◌≡◌, ◌≢◌, ◌⊎◌, inl, inr, some, length, arith}
use liumos.Memory.{Mem, Ptr, Bytes, CString}
use liumos.Http.Arguments.{equal-decides, either_equal-decides}
use liumos.Http.Append.{Placed, Holds}
use liumos.Http.Server.{
  Literal, root_path, index_path, page1_path, page2_path, home_body, page1_body, page2_body,
  error_body, text, size_response, line_of, build_response, route,
}
use liumos.Http.Server.Build.{response_text, build_response-Holds}

-- The pages: a path, the status and the body of the answer.
pub data Serves (path : Bytes) : (status : ℕ) → (page : Literal) → Type 0 where
  home : (path ≡ text root_path) ⊎ (path ≡ text index_path) → Serves path 200 home_body
  page1 : path ≡ text page1_path → Serves path 200 page1_body
  page2 : path ≡ text page2_path → Serves path 200 page2_body
  missing :
      path ≢ text root_path
      → path ≢ text index_path
      → path ≢ text page1_path
      → path ≢ text page2_path
      → Serves path 404 error_body

-- A buffer of zeros.
abbrev pub IsBlank : (m : Mem) (dest : Ptr) → Type 0
IsBlank m dest = (i : ℕ) → i < size_response → m (dest + i) ≡ 0

module _ (f : ℕ) (literal : Literal → Ptr) (m : Mem) (dest : Ptr) where
  page-Holds :
      (status : ℕ) (page : Literal)
      → 2000 < f
      → ((l : Literal) → Placed f m dest size_response (literal l) (text l))
      → IsBlank m dest
      → length (text (line_of f literal status)) < 2000
      → length (response_text f literal status (text page)) < 2000
      → (m' : Mem) × (build_response f literal m dest status (literal page) ≡ some m')
        × Holds m m' dest size_response (response_text f literal status (text page))
  page-Holds status page enough lits blank short fits =
      build_response-Holds f literal m dest size_response status enough (omega arith) lits
        (lits page) (blank _ short) fits

  -- In a blank buffer of `SIZE_RESPONSE` bytes, which the literals and the path lie outside of,
  -- `Route` leaves the response with the page of the path, or the page for an error with the
  -- status 404 if there is none; the response fits the buffer, and nothing else is changed.
  pub route-Serves :
      (q : Ptr) (path : Bytes)
      → 2000 < f
      → ((l : Literal) → Placed f m dest size_response (literal l) (text l))
      → CString m q path
      → length path < f
      → IsBlank m dest
      → (status : ℕ) × (page : Literal) × (m' : Mem) × (route f literal m dest q ≡ some m')
        × Serves path status page
        × Holds m m' dest size_response (response_text f literal status (text page))
  unfolding route
  route-Serves q path enough lits held fuel blank =
      elim (either_equal-decides f m q (literal root_path) q (literal index_path) path
        (text root_path) path (text index_path) held (lits root_path).held held
        (lits index_path).held fuel fuel) [
          | inl (e, which) ↦ rw e (
              let (m', b, h) =
                page-Holds 200 home_body enough lits blank (omega arith) (omega arith) in
              (200, home_body, m', b, home which, h))
          | inr (e, no_root, no_index) ↦
              rw e
                (elim (equal-decides f m q (literal page1_path) path (text page1_path) held
                  (lits page1_path).held fuel) [
                    | inl (e1, same) ↦ rw e1 (
                        let (m', b, h) =
                          page-Holds 200 page1_body enough lits blank (omega arith) (omega arith) in
                        (200, page1_body, m', b, page1 same, h))
                    | inr (e1, no1) ↦
                        rw e1
                          (elim (equal-decides f m q (literal page2_path) path (text page2_path)
                            held (lits page2_path).held fuel) [
                              | inl (e2, same) ↦ rw e2 (
                                  let (m', b, h) =
                                    page-Holds 200 page2_body enough lits blank (omega arith)
                                      (omega arith) in
                                  (200, page2_body, m', b, page2 same, h))
                              | inr (e2, no2) ↦ rw e2 (
                                  let (m', b, h) =
                                    page-Holds 404 error_body enough lits blank (omega arith)
                                      (omega arith) in
                                  (404, error_body, m', b, missing no_root no_index no1 no2, h))
                            ])
                  ])
        ]
