-- ===== src/Http/Server/Arguments.antt =====
-- `ParseArgs` of app/httpserver/httpserver.c.
use liumos.Prelude.{
  ℕ, ◌<◌, ◌≡◌, ◌≢◌, ◌⊎◌, inl, inr, refl, Bool, true, false, some, List, [], ◌∷◌, length, arith,
}
use liumos.Memory.{Mem, Ptr, Bytes, CString}
use liumos.Http.Server.{
  Literal, long_port, short_port, long_tcp, text, Options, default_options, options_loop,
  parse_args,
}
use liumos.Http.Arguments.{number, str_to_num16-number, Texts, equal-decides, either_equal-decides}

-- What the arguments say: `last` is the text behind them, which stands in for a missing number.
pub data Reads (last : Bytes) : (args : List Bytes) → Options → Bool → Options → Type 0 where
  ends : {o : Options} → Reads last [] o true o
  gives_port :
      {flag v : Bytes} {rest : List Bytes} {o o' : Options} {b : Bool}
      → (text long_port ≡ flag) ⊎ (text short_port ≡ flag)
      → Reads last rest (record o { port = number v }) b o'
      → Reads last (flag ∷ v ∷ rest) o b o'
  lacks_port :
      {flag : Bytes} {o : Options}
      → (text long_port ≡ flag) ⊎ (text short_port ≡ flag)
      → Reads last (flag ∷ []) o true (record o { port = number last })
  gives_tcp :
      {flag : Bytes} {rest : List Bytes} {o o' : Options} {b : Bool}
      → text long_tcp ≡ flag
      → Reads last rest (record o { tcp = true }) b o'
      → Reads last (flag ∷ rest) o b o'
  unknown :
      {flag : Bytes} {rest : List Bytes} {o : Options}
      → text long_port ≢ flag
      → text short_port ≢ flag
      → text long_tcp ≢ flag
      → Reads last (flag ∷ rest) o false o

module _ (f : ℕ) (literal : Literal → Ptr) (m : Mem) (behind : Ptr) (last : Bytes) where
  -- The literals that the arguments are compared with.
  abbrev pub HasOptions : Type 0
  HasOptions =
      CString m (literal long_port) (text long_port)
      × CString m (literal short_port) (text short_port)
      × CString m (literal long_tcp) (text long_tcp)
      × CString m behind last
      × (length last < f)

  options_loop-Reads :
      (argv : List Ptr) (args : List Bytes) (o : Options)
      → 6 < f
      → HasOptions
      → Texts f m argv args
      → (b : Bool) × (o' : Options) × (options_loop f literal m behind argv o ≡ some (b, o'))
        × Reads last args o b o'
  unfolding options_loop
  options_loop-Reads [] [] o enough h t = (true, o, refl, ends)
  options_loop-Reads [] (s ∷ ss) o enough h t = absurd t
  options_loop-Reads (p ∷ ps) [] o enough h t = absurd t
  options_loop-Reads (p ∷ []) (s ∷ s' ∷ ss) o enough h t = absurd t.2
  options_loop-Reads (p ∷ q ∷ ps) (s ∷ []) o enough h t = absurd t.2
  options_loop-Reads (p ∷ []) (s ∷ []) o enough h t =
      elim (either_equal-decides f m (literal long_port) p (literal short_port) p (text long_port) s
        (text short_port) s h.0 t.0 h.1 t.0 (omega (arith, enough)) (omega (arith, enough))) [
          | inl (e, is) ↦
              (let (next, n) = str_to_num16-number f last m behind h.3 h.4 in
                (_, _, rw (e, n) refl, lacks_port is))
          | inr (e, no_long, no_short) ↦
              elim (equal-decides f m (literal long_tcp) p (text long_tcp) s h.2 t.0
                (omega (arith, enough))) [
                  | inl (e', is) ↦ (_, _, rw (e, e') refl, gives_tcp is ends)
                  | inr (e', other) ↦ (_, _, rw (e, e') refl, unknown no_long no_short other)
                ]
        ]
  options_loop-Reads (p ∷ q ∷ ps) (s ∷ v ∷ ss) o enough h t =
      elim (either_equal-decides f m (literal long_port) p (literal short_port) p (text long_port) s
        (text short_port) s h.0 t.0 h.1 t.0 (omega (arith, enough)) (omega (arith, enough))) [
          | inl (e, is) ↦
              (let (next, n) = str_to_num16-number f v m q t.2.0 t.2.1 in
                let (b, o', run, reads) =
                  options_loop-Reads ps ss (record o { port = number v }) enough h t.2.2 in
                (b, o', rw (e, n) run, gives_port is reads))
          | inr (e, no_long, no_short) ↦
              elim (equal-decides f m (literal long_tcp) p (text long_tcp) s h.2 t.0
                (omega (arith, enough))) [
                  | inl (e', is) ↦
                      (let (b, o', run, reads) =
                          options_loop-Reads (q ∷ ps) (v ∷ ss) (record o { tcp = true }) enough h
                            t.2 in
                        (b, o', rw (e, e') run, gives_tcp is reads))
                  | inr (e', other) ↦ (_, _, rw (e, e') refl, unknown no_long no_short other)
                ]
        ]

  -- `ParseArgs` ends, and its result and the options that it leaves are those that the arguments
  -- say, read from the left: a number behind `--port` or `-p`, `--tcp`, and a refusal at the first
  -- argument that is neither. Without arguments the port is 8888. Where the number is missing, it
  -- is read from what stands behind the arguments.
  pub parse_args-Reads :
      (argv : List Ptr) (args : List Bytes)
      → 6 < f
      → HasOptions
      → Texts f m argv args
      → (b : Bool) × (o : Options) × (parse_args f literal m behind argv ≡ some (b, o))
        × Reads last args default_options b o
  unfolding parse_args
  parse_args-Reads argv args enough h t = options_loop-Reads argv args default_options enough h t
