-- ===== src/Http/Client/Arguments.antt =====
-- `ParseArgs` of app/httpclient/httpclient.c.
use liumos.Prelude.{
  ℕ, ◌<◌, ◌≡◌, ◌≢◌, ◌⊎◌, inl, inr, refl, Bool, true, false, Option, some, List, [], ◌∷◌, length,
  map, arith,
}
use liumos.Memory.{Mem, Ptr, Bytes, CString}
use liumos.Http.Arguments.{
  either_equal, number, str_to_num16-number, Texts, equal-decides, either_equal-decides,
}
use liumos.Http.Client.{
  Literal, long_ip, short_ip, long_port, short_port, long_host, short_host, long_path, short_path,
  long_tcp, text, Settings, Flag, ip_flag, port_flag, host_flag, path_flag, tcp_flag, no_flag,
  is_flag, go_on, default_settings, flag_of, set_option, settings_loop, parse_args,
}

abbrev pub Either : Literal → Literal → Bytes → Type 0
Either l l' t = (text l ≡ t) ⊎ (text l' ≡ t)

abbrev pub Neither : Literal → Literal → Bytes → Type 0
Neither l l' t = (text l ≢ t) × (text l' ≢ t)

-- The texts of an option.
abbrev pub Names : Flag → Bytes → Type 0
Names ip_flag t = Either long_ip short_ip t
Names port_flag t = Either long_port short_port t
Names host_flag t = Either long_host short_host t
Names path_flag t = Either long_path short_path t
Names tcp_flag t = text long_tcp ≡ t
Names no_flag t =
    Neither long_ip short_ip t
    × Neither long_port short_port t
    × Neither long_host short_host t
    × Neither long_path short_path t
    × (text long_tcp ≢ t)

-- An argument: its address and its text.
abbrev pub Arg : Type 0
Arg = Ptr × Bytes

abbrev pub with_option : Flag → Arg → Settings → Settings
with_option ip_flag (p, t) s = record s { ip = p }
with_option port_flag (p, t) s = record s { port = number t }
with_option host_flag (p, t) s = record s { host = p }
with_option path_flag (p, t) s = record s { path = p }
with_option tcp_flag (p, t) s = record s { tcp = true }
with_option no_flag (p, t) s = s

abbrev pub HasValue : Flag → Type 0
HasValue tcp_flag = ⊥
HasValue no_flag = ⊥
HasValue flag = Unit

-- What the arguments say: `last` is what stands behind them, in place of a missing value.
pub data Says (last : Arg) : List Arg → Settings → Bool → Settings → Type 0 where
  ends : {s : Settings} → Says last [] s true s
  lacks :
      (flag : Flag) {a : Arg} {s : Settings}
      → Names flag a.1
      → Says last (a ∷ []) s (is_flag flag) (with_option flag last s)
  takes_value :
      (flag : Flag) {a v : Arg} {rest : List Arg} {s s' : Settings} {b : Bool}
      → Names flag a.1
      → HasValue flag
      → Says last rest (with_option flag v s) b s'
      → Says last (a ∷ v ∷ rest) s b s'
  switches :
      {a v : Arg} {rest : List Arg} {s s' : Settings} {b : Bool}
      → Names tcp_flag a.1
      → Says last (v ∷ rest) (with_option tcp_flag v s) b s'
      → Says last (a ∷ v ∷ rest) s b s'
  refuses :
      {a v : Arg} {rest : List Arg} {s : Settings}
      → Names no_flag a.1
      → Says last (a ∷ v ∷ rest) s false s

module _ (f : ℕ) (literal : Literal → Ptr) (m : Mem) where
  flag_of-Names :
      (p : Ptr) (t : Bytes)
      → 6 < f
      → ((l : Literal) → CString m (literal l) (text l))
      → CString m p t
      → (flag : Flag) × (flag_of f literal m p ≡ some flag) × Names flag t
  unfolding flag_of
  flag_of-Names p t enough lits h =
      elim (decide long_ip short_ip (omega (arith, enough)) (omega (arith, enough))) [
        | inl (e, is) ↦ (ip_flag, rw e refl, is)
        | inr (e, no_ip) ↦
            elim (decide long_port short_port (omega (arith, enough)) (omega (arith, enough))) [
              | inl (e1, is) ↦ (port_flag, rw (e, e1) refl, is)
              | inr (e1, no_port) ↦
                  elim (decide long_host short_host (omega (arith, enough))
                    (omega (arith, enough))) [
                      | inl (e2, is) ↦ (host_flag, rw (e, e1, e2) refl, is)
                      | inr (e2, no_host) ↦
                          elim (decide long_path short_path (omega (arith, enough))
                            (omega (arith, enough))) [
                              | inl (e3, is) ↦ (path_flag, rw (e, e1, e2, e3) refl, is)
                              | inr (e3, no_path) ↦
                                  elim (equal-decides f m (literal long_tcp) p (text long_tcp) t
                                    (lits long_tcp) h (omega (arith, enough))) [
                                      | inl (e4, is) ↦ (tcp_flag, rw (e, e1, e2, e3, e4) refl, is)
                                      | inr (e4, no_tcp) ↦ (
                                        no_flag,
                                        rw (e, e1, e2, e3, e4) refl,
                                        (no_ip, no_port, no_host, no_path, no_tcp),
                                      )
                                    ]
                            ]
                    ]
            ]
      ]
    where
      decide :
          (l l' : Literal)
          → length (text l) < f
          → length (text l') < f
          → (either_equal f m (literal l) p (literal l') p ≡ some true) × Either l l' t
            ⊎ (either_equal f m (literal l) p (literal l') p ≡ some false) × Neither l l' t
      decide l l' fl fl' =
          elim (either_equal-decides f m (literal l) p (literal l') p (text l) t (text l') t
            (lits l) h (lits l') h fl fl') [
              | inl both ↦ inl both
              | inr (e, one, two) ↦ inr (e, (one, two))
            ]

  set_option-with_option :
      (flag : Flag) (a : Arg) (s : Settings)
      → CString m a.0 a.1
      → length a.1 < f
      → set_option f literal m flag a.0 s ≡ some (with_option flag a s)
  unfolding set_option
  set_option-with_option ip_flag a s h fuel = refl
  set_option-with_option port_flag a s h fuel =
      let (next, n) = str_to_num16-number f a.1 m a.0 h fuel in rw n refl
  set_option-with_option host_flag a s h fuel = refl
  set_option-with_option path_flag a s h fuel = refl
  set_option-with_option tcp_flag a s h fuel = refl
  set_option-with_option no_flag a s h fuel = refl

  module _ (last : Arg) where
    settings_loop-Says :
        (args : List Arg) (s : Settings)
        → 6 < f
        → ((l : Literal) → CString m (literal l) (text l))
        → CString m last.0 last.1
        → length last.1 < f
        → Texts f m (map (λ a. a.0) args) (map (λ a. a.1) args)
        → (b : Bool) × (s' : Settings) × (settings_loop f literal m last.0 (map (λ a. a.0) args) s
            ≡ some (b, s'))
          × Says last args s b s'
    unfolding settings_loop
    settings_loop-Says [] s enough lits hl fl t = (true, s, refl, ends)
    settings_loop-Says (a ∷ []) s enough lits hl fl t =
        let (flag, e, names) = flag_of-Names a.0 a.1 enough lits t.0 in
        (
          is_flag flag,
          with_option flag last s,
          rw (e, set_option-with_option flag last s hl fl) refl,
          lacks flag names,
        )
    settings_loop-Says (a ∷ v ∷ rest) s enough lits hl fl t =
        let (flag, e, names) = flag_of-Names a.0 a.1 enough lits t.0 in
        let effect = set_option-with_option flag v s t.2.0 t.2.1 in
        rw (e, effect)
          (split flag names (settings_loop-Says rest (with_option flag v s) enough lits hl fl t.2.2)
            (settings_loop-Says (v ∷ rest) (with_option flag v s) enough lits hl fl t.2))
      where
        Outcome : Option (Bool × Settings) → List Arg → Settings → Type 0
        Outcome r args s = (b : Bool) × (s' : Settings) × (r ≡ some (b, s')) × Says last args s b s'

        split :
            (flag : Flag)
            → Names flag a.1
            → Outcome
                (settings_loop f literal m last.0 (map (λ a. a.0) rest) (with_option flag v s))
                rest
                (with_option flag v s)
            → Outcome
                (settings_loop f literal m last.0
                  (v.0 ∷ map (λ a. a.0) rest)
                  (with_option flag v s))
                (v ∷ rest)
                (with_option flag v s)
            → Outcome
                (go_on flag
                  (settings_loop f literal m last.0 (map (λ a. a.0) rest) (with_option flag v s))
                  (settings_loop f literal m last.0
                    (v.0 ∷ map (λ a. a.0) rest)
                    (with_option flag v s))
                  (some (false, with_option flag v s)))
                (a ∷ v ∷ rest)
                s
        split ip_flag n (b, s', r, k) one = (b, s', r, takes_value ip_flag n tt k)
        split port_flag n (b, s', r, k) one = (b, s', r, takes_value port_flag n tt k)
        split host_flag n (b, s', r, k) one = (b, s', r, takes_value host_flag n tt k)
        split path_flag n (b, s', r, k) one = (b, s', r, takes_value path_flag n tt k)
        split tcp_flag n two (b, s', r, k) = (b, s', r, switches n k)
        split no_flag n two one = (false, s, refl, refuses n)

    -- `ParseArgs` ends, and its result and the settings that it leaves are those that the arguments
    -- say, read from the left, each option with its value; it refuses the first argument that names
    -- no option.
    pub parse_args-Says :
        (args : List Arg)
        → 6 < f
        → ((l : Literal) → CString m (literal l) (text l))
        → CString m last.0 last.1
        → length last.1 < f
        → Texts f m (map (λ a. a.0) args) (map (λ a. a.1) args)
        → (b : Bool) × (s : Settings) × (parse_args f literal m last.0 (map (λ a. a.0) args)
            ≡ some (b, s))
          × Says last args (default_settings f literal) b s
    unfolding parse_args
    parse_args-Says args enough lits hl fl t =
        settings_loop-Says args (default_settings f literal) enough lits hl fl t
