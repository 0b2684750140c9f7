-- ===== src/Http/Server/Respond.antt =====
-- The loop of `StartServer` of app/httpserver/httpserver.c, from a request to its response.
use liumos.Prelude.{
  ℕ, ◌+◌, ◌<◌, ◌≤◌, ◌≡◌, ◌≢◌, ◌⊎◌, inl, inr, refl, ap, sym, ◌∙◌, true, false, some, [], ◌∷◌, ◌++◌,
  length, length-append, arith, All,
}
use liumos.Memory.{Mem, Ptr, Bytes, CString, write}
use liumos.Memory.Store.{Outside, write_ne, CString-frame}
use liumos.Liumlib.Str.{strtok}
use liumos.Liumlib.Str.Token.{contains, strtok-Token}
use liumos.Liumlib.Alloc.{Libc, returned, malloc_max_size, IsHeap}
use liumos.Liumlib.Alloc.Blocks.{malloc_block}
use liumos.Http.Arguments.{equal-decides}
use liumos.Http.Append.{Placed, Holds}
use liumos.Http.Server.{
  Literal, delimiter, get_method, only_get, text, size_response, answer, respond,
}
use liumos.Http.Server.Build.{response_text, build_response-Holds}
use liumos.Http.Server.Routes.{Serves, IsBlank, route-Serves}

-- A word that a space ends.
abbrev pub IsWord : Bytes → Type 0
IsWord w = All (λ c. c ≢ b' ') w

pub before_stop :
    (d a b t r : Bytes) (x y : ℕ)
    → All (λ c. contains d c ≡ false) a
    → All (λ c. contains d c ≡ false) t
    → contains d x ≡ true
    → contains d y ≡ true
    → a ++ x ∷ b ≡ t ++ y ∷ r
    → (a ≡ t) × (b ≡ r)
before_stop d [] b [] r x y ca ct sx sy e = (refl, cc)
before_stop d [] b (c ∷ t) r x y ca ct sx sy e =
    let same : x ≡ c = cc in absurd (cc (sym sx ∙ ap (contains d) same ∙ ct.0))
before_stop d (c ∷ a) b [] r x y ca ct sx sy e =
    let same : c ≡ y = cc in absurd (cc (sym ca.0 ∙ ap (contains d) same ∙ sy))
before_stop d (c ∷ a) b (c' ∷ t) r x y ca ct sx sy e =
    let tails : a ++ x ∷ b ≡ t ++ y ∷ r = cc in
    let (same, rest) = before_stop d a b t r x y ca.1 ct.1 sx sy tails in
    let heads : c ≡ c' = cc in (cc, rest)

not_clean :
    (d a b : Bytes) (x : ℕ) → contains d x ≡ true → All (λ c. contains d c ≡ false) (a ++ x ∷ b) → ⊥
not_clean d [] b x s h = absurd (cc (sym s ∙ h.0))
not_clean d (c ∷ a) b x s h = not_clean d a b x s h.1

pub word_clean : (w : Bytes) → IsWord w → All (λ c. contains (b' ' ∷ []) c ≡ false) w
unfolding contains
word_clean [] h = tt
word_clean (c ∷ w) h = (let ne : c ≢ b' ' = h.0 in ground arith, word_clean w h.1)

-- `strtok` cuts a string at its first space.
strtok_word :
    (f : ℕ) (w rest : Bytes) (m : Mem) (save str delim p : Ptr)
    → CString m delim (b' ' ∷ [])
    → CString m p (w ++ b' ' ∷ rest)
    → IsWord w
    → ((str ≡ p) × (p ≢ 0)) ⊎ ((str ≡ 0) × (save ≡ p))
    → length (w ++ b' ' ∷ rest) < f
    → (strtok f m save str delim ≡ some (write m (p + length w) 0, p + length w + 1, p))
      × CString (write m (p + length w) 0) p w
      × CString (write m (p + length w) 0) (p + length w + 1) rest
strtok_word f w rest m save str delim p hd hs word which fuel =
    elim (strtok-Token f (b' ' ∷ []) (w ++ b' ' ∷ rest) m save str delim p hd hs which
      (omega (arith, length-append w (b' ' ∷ rest))) (omega arith) fuel) [
        | inl (token, r, k, e) ↦
            let (same, tails) =
              before_stop (b' ' ∷ []) w rest token r (b' ') k.splits.delimiter (word_clean w word)
                k.splits.clean (unfold contains in refl) k.splits.stops k.splits.whole in
            rw (same, tails) (e, k.token_at, k.rest_at)
        | inr (clean, e) ↦
            absurd (not_clean (b' ' ∷ []) w rest (b' ') (unfold contains in refl) clean)
      ]

module _ (f : ℕ) (literal : Literal → Ptr) where
  -- What the server has to answer.
  pub data Answers (method path : Bytes) : Bytes → Type 0 where
    gets :
        (status : ℕ) (page : Literal)
        → method ≡ text get_method
        → Serves path status page
        → Answers method path (response_text f literal status (text page))
    refuses :
        method ≢ text get_method → Answers method path (response_text f literal 500 (text only_get))

  -- A request at `p`, a heap with room for a response, and literals outside both.
  pub record IsReady (malloc_array : Ptr) (st : Libc) (p : Ptr) (method path rest : Bytes)
      : Type 0 where
    pub heap : IsHeap malloc_array st
    pub room : st.malloc_size + size_response ≤ malloc_max_size
    pub request : CString st.mem p (method ++ b' ' ∷ (path ++ b' ' ∷ rest))
    pub address : p ≢ 0
    pub method_word : IsWord method
    pub path_word : IsWord path
    pub fuel : length (method ++ b' ' ∷ (path ++ b' ' ∷ rest)) < f
    pub outside :
        (p + length (method ++ b' ' ∷ (path ++ b' ' ∷ rest)) < malloc_array + st.malloc_size)
        ⊎ (malloc_array + st.malloc_size + size_response ≤ p)
    pub literals :
        (l : Literal)
        → Placed f st.mem (malloc_array + st.malloc_size) size_response (literal l) (text l)
    pub literals_apart :
        (l : Literal)
        → (p + length (method ++ b' ' ∷ (path ++ b' ' ∷ rest)) < literal l)
          ⊎ (literal l + length (text l) < p)

  module _ (malloc_array : Ptr) (st : Libc) (p : Ptr) (method path rest : Bytes) where
    dest : Ptr
    dest = malloc_array + st.malloc_size

    Placed-frame :
        (l : Literal) (m' : Mem)
        → IsReady malloc_array st p method path rest
        → ((a : ℕ)
            → Outside a p (length (method ++ b' ' ∷ (path ++ b' ' ∷ rest)))
            → Outside a dest size_response
            → m' a ≡ st.mem a)
        → Placed f m' dest size_response (literal l) (text l)
    unfolding dest
    Placed-frame l m' h same = record {
      held = CString-frame (text l) m' (literal l) (h.literals l).held (λ a lo hi.
          same a (omega (arith, h.literals_apart l)) (omega (arith, (h.literals l).apart)));
      apart = (h.literals l).apart;
      fuel = (h.literals l).fuel;
    }

    -- In the buffer that `malloc` gave.
    answer-Answers :
        (st' : Libc) (q : Ptr)
        → 2000 < f
        → ((l : Literal) → Placed f st'.mem dest size_response (literal l) (text l))
        → CString st'.mem p method
        → CString st'.mem q path
        → length method < f
        → length path < f
        → IsBlank st'.mem dest
        → (t : Bytes) × (m' : Mem) × (answer f literal (returned (st', dest)) p q
            ≡ some (returned (record st' { mem = m' }, dest)))
          × Answers method path t
          × Holds st'.mem m' dest size_response t
    answer-Answers st' q enough lits hm hp fm fp blank =
        elim (equal-decides f st'.mem p (literal get_method) method (text get_method) hm
          (lits get_method).held fm) [
            | inl (e, same) ↦ rw e (
                let (status, page, m', r, serves, k) =
                  route-Serves f literal st'.mem dest q path enough lits hp fp blank in
                (_, m', rw r refl, gets status page same serves, k))
            | inr (e, other) ↦ rw e (
                let (m', r, k) =
                  build_response-Holds f literal st'.mem dest size_response 500 enough (omega arith)
                    lits (lits only_get) (blank _ (omega arith)) (omega arith) in
                (_, m', rw r refl, refuses other, k))
          ]

    -- For a request that begins with two words and spaces behind them, a heap with room and literals
    -- apart, the server answers with the page of the second word if the first is GET, and with the
    -- status 500 otherwise: the response is a string in a new block of `SIZE_RESPONSE` bytes.
    pub respond-Answers :
        (save_ptr : Ptr)
        → 2000 < f
        → IsReady malloc_array st p method path rest
        → (t : Bytes) × (m' : Mem) × (respond f literal malloc_array st save_ptr p
            ≡ some (
                returned (
                  record { mem = m'; malloc_size = st.malloc_size + size_response },
                  malloc_array + st.malloc_size,
                )))
          × Answers method path t
          × CString m' (malloc_array + st.malloc_size) t
          × (length t < size_response)
    unfolding respond dest
    respond-Answers save_ptr enough h =
        let len1 = length-append method (b' ' ∷ (path ++ b' ' ∷ rest)) in
        let len2 = length-append path (b' ' ∷ rest) in
        let m1 : Mem = write st.mem (p + length method) 0 in
        let q : Ptr = p + length method + 1 in
        let m2 : Mem = write m1 (q + length path) 0 in
        let (e1, hm1, ht1) =
          strtok_word f method (path ++ b' ' ∷ rest) st.mem save_ptr p (literal delimiter) p
            (h.literals delimiter).held h.request h.method_word (inl (refl, h.address)) h.fuel in
        let kept1 : (a : ℕ)
            → Outside a p (length (method ++ b' ' ∷ (path ++ b' ' ∷ rest)))
            → m1 a ≡ st.mem a =
          λ a o. write_ne st.mem (p + length method) 0 a (omega (arith, o, len1)) in
        let space =
          CString-frame (text delimiter) m1 (literal delimiter) (h.literals delimiter).held
            (λ a lo hi. kept1 a (omega (arith, h.literals_apart delimiter))) in
        let (e2, hp2, hr2) =
          strtok_word f path rest m1 q 0 (literal delimiter) q space ht1 h.path_word
            (inr (refl, refl)) (omega (arith, len1, len2, h.fuel)) in
        let kept2 : (a : ℕ)
            → Outside a p (length (method ++ b' ' ∷ (path ++ b' ' ∷ rest)))
            → m2 a ≡ st.mem a =
          λ a o. write_ne m1 (q + length path) 0 a (omega (arith, o, len1, len2)) ∙ kept1 a o in
        let hm2 : CString m2 p method =
          CString-frame method m2 p hm1
            (λ a lo hi. write_ne m1 (q + length path) 0 a (omega arith)) in
        let st2 : Libc = record { mem = m2; malloc_size = st.malloc_size } in
        let (m3, e3, zero3, kept3) =
          malloc_block malloc_array st2 size_response
            (record { array = h.heap.array; within = h.heap.within }) h.room in
        let lits3 : (l : Literal) → Placed f m3 dest size_response (literal l) (text l) =
          λ l. Placed-frame l m3 h (λ a o o'. kept3 a o' ∙ kept2 a o) in
        let hm3 =
          CString-frame method m3 p hm2 (λ a lo hi. kept3 a (omega (arith, h.outside, len1))) in
        let hp3 =
          CString-frame path m3 q hp2 (λ a lo hi. kept3 a (omega (arith, h.outside, len1, len2))) in
        let (t, m', e4, answers, k) =
          answer-Answers (record { mem = m3; malloc_size = st.malloc_size + size_response }) q
            enough lits3 hm3 hp3 (omega (arith, h.fuel, len1)) (omega (arith, h.fuel, len1, len2))
            zero3 in
        (t, m', rw (e1, e2, e3) e4, answers, k.held, k.fits)
