-- ===== src/Http/Exchange.antt =====
-- A request of app/httpclient/httpclient.c, answered by app/httpserver/httpserver.c.
use liumos.Prelude.{
  ℕ, ◌+◌, ◌<◌, ◌≡◌, refl, sym, ap, ◌∙◌, true, Option, some, [], arith, ◌∷◌, ◌++◌, codes,
}
use mathlib.Core.Path.{subst}
use liumos.Memory.{Mem, Ptr, Bytes, CString}
use liumos.Memory.Store.{CString-unique}
use liumos.Liumlib.Str.Token.{contains}
use liumos.Liumlib.Alloc.{Libc, Call, returned}
use liumos.Http.Client
use liumos.Http.Client.Request.{HasRoom, request_rest, build_request-words}
use liumos.Http.Server
use liumos.Http.Server.Build.{response_text}
use liumos.Http.Server.Routes.{Serves}
use liumos.Http.Server.Respond.{
  IsWord, IsReady, Answers, gets, refuses, before_stop, word_clean, respond-Answers,
}

words_unique :
    (a b c d r s : Bytes)
    → IsWord a
    → IsWord b
    → IsWord c
    → IsWord d
    → a ++ b' ' ∷ (b ++ b' ' ∷ r) ≡ c ++ b' ' ∷ (d ++ b' ' ∷ s)
    → (a ≡ c) × (b ≡ d)
words_unique a b c d r s wa wb wc wd e =
    let stop : contains (b' ' ∷ []) (b' ') ≡ true = unfold contains in refl in
    let (first, tails) =
      before_stop (b' ' ∷ []) a _ c _ (b' ') (b' ') (word_clean a wa) (word_clean c wc) stop stop
        e in
    (
      first,
      (before_stop (b' ' ∷ []) b r d s (b' ') (b' ') (word_clean b wb) (word_clean d wd) stop stop
          tails).0,
    )

module _ (f : ℕ) (client_literal : Client.Literal → Ptr)
    (server_literal : Server.Literal → Ptr) where
  get_answer :
      (method path : Bytes) (t : Bytes)
      → method ≡ codes "GET"
      → Answers f server_literal method path t
      → (status : ℕ) × (page : Server.Literal) × Serves path status page
        × (t ≡ response_text f server_literal status (Server.text page))
  get_answer method path t is_get (gets status page e serves) = (status, page, serves, refl)
  get_answer method path t is_get (refuses other) = absurd (other is_get)

  -- Where the client has built a request for a path that is one word, and its bytes stand in the
  -- server's memory as a request, the server answers with the page of the client's path, or with
  -- the page for an error and the status 404 if there is none.
  pub exchange-Serves :
      (client_array server_array : Ptr) (settings : Client.Settings) (client client' server : Libc)
      (buffer save_ptr p : Ptr) (path host method word rest : Bytes)
      → 2000 < f
      → HasRoom f client_literal client_array settings client path host
      → IsWord path
      → Client.build_request f client_literal client_array settings client
        ≡ some (returned (client', buffer))
      → CString client'.mem buffer (method ++ b' ' ∷ (word ++ b' ' ∷ rest))
      → IsReady f server_literal server_array server p method word rest
      → (status : ℕ) × (page : Server.Literal) × (server' : Libc) × (response : Ptr)
        × (Server.respond f server_literal server_array server save_ptr p
            ≡ some (returned (server', response)))
        × Serves path status page
        × CString server'.mem response (response_text f server_literal status (Server.text page))
  exchange-Serves client_array server_array settings client client' server buffer save_ptr p path
        host method word rest enough room path_word built sent ready =
      let (m, run, held) =
        build_request-words f client_literal client_array settings client path host (omega arith)
          room in
      let same = sym run ∙ built in
      let mems : m ≡ client'.mem = ap mem_of same in
      let places : client_array + client.malloc_size ≡ buffer = ap place_of same in
      let there =
        subst
          (λ q. CString client'.mem q (codes "GET" ++ b' ' ∷ (path ++ b' ' ∷ request_rest host)))
          places
          (subst
            (λ k.
              CString k (client_array + client.malloc_size)
                (codes "GET" ++ b' ' ∷ (path ++ b' ' ∷ request_rest host)))
            mems held) in
      let (is_get, is_path) =
        words_unique method word (codes "GET") path rest (request_rest host) ready.method_word
          ready.path_word (omega arith) path_word
          (CString-unique _ _ client'.mem buffer sent there) in
      let (t, m', answered, answers, response, fits) =
        respond-Answers f server_literal server_array server p method word rest save_ptr enough
          ready in
      let (status, page, serves, t_is) = get_answer method word t is_get answers in
      (
        status,
        page,
        _,
        _,
        answered,
        subst (λ w. Serves w status page) is_path serves,
        subst (CString m' _) t_is response,
      )
    where
      mem_of : Option (Call (Libc × Ptr)) → Mem
      mem_of (some (returned (st, q))) = st.mem
      mem_of _ = λ _. 0

      place_of : Option (Call (Libc × Ptr)) → Ptr
      place_of (some (returned (st, q))) = q
      place_of _ = 0
