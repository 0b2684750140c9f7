-- ===== src/Kernel/Network/Sockets.antt =====
-- The sockets of src/network.h as a map from processes and descriptors to sockets.
use liumos.Prelude.{
  ℕ, ◌≡◌, refl, sym, ap, ◌∙◌, inl, inr, Bool, true, false, ◌&&◌, Option, none, some, List, [], ◌∷◌,
  ◌++◌, ◌==◌, if◌then◌else◌, Bool-cases, arith,
}
use liumos.Kernel.Network.{
  SocketType, Socket, is_socket, find_socket, is_none, register_socket, bind_to_port,
}

-- The map, and what the two calls do to it.
abbrev pub SocketMap : Type 0
SocketMap = (pid fd : ℕ) → Option Socket

abbrev pub insert : (pid fd : ℕ) → Socket → SocketMap → SocketMap
insert pid fd s map pid' fd' = if pid' == pid && fd' == fd then some s else map pid' fd'

pub data Call : Type 0 where
  registers : (pid fd : ℕ) → SocketType → Call
  binds : (pid fd port : ℕ) → Call

abbrev pub map_bind : (pid fd port : ℕ) → Option Socket → SocketMap → SocketMap × Bool
map_bind pid fd port none map = (map, true)
map_bind pid fd port (some s) map = (insert pid fd (record s { listen_port = port }) map, false)

abbrev pub map_call : Call → SocketMap → SocketMap × Bool
map_call (registers pid fd type_) map =
    if is_none (map pid fd)
    then (
      insert pid fd (record { pid = pid; fd = fd; listen_port = 12345; type_ = type_ }) map,
      false,
    )
    else (map, true)
map_call (binds pid fd port) map = map_bind pid fd port (map pid fd) map

abbrev pub call : Call → List Socket → List Socket × Bool
call (registers pid fd type_) sockets = register_socket pid fd type_ sockets
call (binds pid fd port) sockets = bind_to_port pid fd port sockets

-- The list stands for the map.
abbrev pub Represents : List Socket → SocketMap → Type 0
Represents sockets map = (pid fd : ℕ) → find_socket pid fd sockets ≡ map pid fd

find_socket-append :
    (pid fd : ℕ) (ss : List Socket) (s : Socket)
    → find_socket pid fd (ss ++ s ∷ []) ≡ (
        if is_none (find_socket pid fd ss)
        then (if is_socket pid fd s then some s else none)
        else find_socket pid fd ss)
unfolding find_socket
find_socket-append pid fd [] s = refl
find_socket-append pid fd (t ∷ ss) s = elim (Bool-cases (is_socket pid fd t)) [
  | inl e ↦ rw e refl
  | inr e ↦ rw e (find_socket-append pid fd ss s)
]

other_pair : (a b c d : ℕ) → (a == b && c == d) ≡ false → (b == a && d == c) ≡ false
other_pair a b c d h = ground arith

abbrev pub with_port : (port : ℕ) → Option Socket → Option Socket
with_port port none = none
with_port port (some s) = some (record s { listen_port = port })

bind_to_port-result :
    (pid fd port : ℕ) (ss : List Socket)
    → (bind_to_port pid fd port ss).1 ≡ is_none (find_socket pid fd ss)
unfolding find_socket bind_to_port
bind_to_port-result pid fd port [] = refl
bind_to_port-result pid fd port (s ∷ ss) = elim (Bool-cases (is_socket pid fd s)) [
  | inl e ↦ rw e refl
  | inr e ↦ rw e (bind_to_port-result pid fd port ss)
]

-- The same name finds the same socket, and a socket has one name.
same_name :
    (pid fd p q : ℕ) (s : Socket)
    → (p == pid && q == fd) ≡ true
    → is_socket p q s ≡ is_socket pid fd s
same_name pid fd p q s h =
    let a : p ≡ pid = ground arith in let b : q ≡ fd = ground arith in rw (a, b) refl

one_name :
    (pid fd p q : ℕ) (s : Socket)
    → is_socket pid fd s ≡ true
    → is_socket p q s ≡ true
    → (p == pid && q == fd) ≡ true
one_name pid fd p q s h k = ground arith

find_socket-bind_to_port :
    (pid fd port p q : ℕ) (ss : List Socket)
    → find_socket p q (bind_to_port pid fd port ss).0
      ≡ (if p == pid && q == fd then with_port port (find_socket pid fd ss) else find_socket p q ss)
unfolding find_socket bind_to_port
find_socket-bind_to_port pid fd port p q [] = elim (Bool-cases (p == pid && q == fd)) [
  | inl e ↦ rw e refl
  | inr e ↦ rw e refl
]
find_socket-bind_to_port pid fd port p q (s ∷ ss) = elim (Bool-cases (is_socket pid fd s)) [
  | inl e ↦ elim (Bool-cases (p == pid && q == fd)) [
    | inl h ↦ (let k : is_socket p q s ≡ true = same_name pid fd p q s h ∙ e in rw (e, h, k) refl)
    | inr h ↦ (let k : is_socket p q s ≡ false = not_both e h in rw (e, h, k) refl)
  ]
  | inr e ↦ elim (Bool-cases (p == pid && q == fd)) [
    | inl h ↦
        (let k : is_socket p q s ≡ false = same_name pid fd p q s h ∙ e in
          rw (e, h, k) (find_socket-bind_to_port pid fd port p q ss ∙ rw h refl))
    | inr h ↦ elim (Bool-cases (is_socket p q s)) [
      | inl k ↦ rw (e, h, k) refl
      | inr k ↦ rw (e, h, k) (find_socket-bind_to_port pid fd port p q ss ∙ rw h refl)
    ]
  ]
]
  where
    not_both : is_socket pid fd s ≡ true → (p == pid && q == fd) ≡ false → is_socket p q s ≡ false
    not_both e h = elim (Bool-cases (is_socket p q s)) [
      | inl k ↦ absurd (cc (sym h ∙ one_name pid fd p q s e k))
      | inr k ↦ k
    ]

call-map_call :
    (c : Call) (ss : List Socket) (map : SocketMap)
    → Represents ss map
    → Represents (call c ss).0 (map_call c map).0 × ((call c ss).1 ≡ (map_call c map).1)
unfolding register_socket
call-map_call (registers pid fd type_) ss map h = elim (Bool-cases (is_none (map pid fd))) [
  | inl e ↦
      (let found : is_none (find_socket pid fd ss) ≡ true = ap is_none (h pid fd) ∙ e in
        rw (found, e)
          (
            λ p q.
                find_socket-append p q ss
                  (record { pid = pid; fd = fd; listen_port = 12345; type_ = type_ })
                ∙ added p q found,
            refl,
          ))
  | inr e ↦
      (let found : is_none (find_socket pid fd ss) ≡ false = ap is_none (h pid fd) ∙ e in
        rw (found, e) (h, refl))
]
  where
    new : Socket
    new = record { pid = pid; fd = fd; listen_port = 12345; type_ = type_ }

    none_there : (o : Option Socket) → is_none o ≡ true → o ≡ none
    none_there none e = refl
    none_there (some s) e = absurd (cc e)

    turned : (p q : ℕ) → is_socket p q new ≡ (p == pid && q == fd)
    turned p q = elim (Bool-cases (p == pid && q == fd)) [
      | inl e ↦
          (let a : p ≡ pid = ground arith in
            let b : q ≡ fd = ground arith in rw (a, b) (ground arith))
      | inr e ↦ rw e (other_pair p pid q fd e)
    ]

    if_none : (o : Option Socket) → (if is_none o then none else o) ≡ o
    if_none none = refl
    if_none (some s) = refl

    added :
        (p q : ℕ)
        → is_none (find_socket pid fd ss) ≡ true
        → (if is_none (find_socket p q ss)
            then (if is_socket p q new then some new else none)
            else find_socket p q ss)
          ≡ insert pid fd new map p q
    added p q found = elim (Bool-cases (p == pid && q == fd)) [
      | inl e ↦
          (let a : p ≡ pid = ground arith in
            let b : q ≡ fd = ground arith in
            let k : is_socket p q new ≡ true = turned p q ∙ e in
            let n : is_none (find_socket p q ss) ≡ true = rw (a, b) found in rw (n, k, e) refl)
      | inr e ↦
          (let k : is_socket p q new ≡ false = turned p q ∙ e in
            rw (k, e) (if_none (find_socket p q ss) ∙ h p q))
    ]
call-map_call (binds pid fd port) ss map h = bound (map pid fd) (h pid fd)
  where
    bound :
        (o : Option Socket)
        → find_socket pid fd ss ≡ o
        → Represents (bind_to_port pid fd port ss).0 (map_bind pid fd port o map).0
          × ((bind_to_port pid fd port ss).1 ≡ (map_bind pid fd port o map).1)
    bound none e = (
      λ p q. find_socket-bind_to_port pid fd port p q ss ∙ unchanged p q,
      bind_to_port-result pid fd port ss ∙ ap is_none e,
    )
      where
        unchanged :
            (p q : ℕ)
            → (if p == pid && q == fd
                then with_port port (find_socket pid fd ss)
                else find_socket p q ss)
              ≡ map p q
        unchanged p q = elim (Bool-cases (p == pid && q == fd)) [
          | inl k ↦
              (let a : p ≡ pid = ground arith in
                let b : q ≡ fd = ground arith in
                rw k (ap (with_port port) e ∙ sym (rw (a, b) (sym (h pid fd) ∙ e))))
          | inr k ↦ rw k (h p q)
        ]
    bound (some s) e = (
      λ p q. find_socket-bind_to_port pid fd port p q ss ∙ changed p q,
      bind_to_port-result pid fd port ss ∙ ap is_none e,
    )
      where
        changed :
            (p q : ℕ)
            → (if p == pid && q == fd
                then with_port port (find_socket pid fd ss)
                else find_socket p q ss)
              ≡ insert pid fd (record s { listen_port = port }) map p q
        changed p q = elim (Bool-cases (p == pid && q == fd)) [
          | inl k ↦ rw k (ap (with_port port) e)
          | inr k ↦ rw k (h p q)
        ]

-- What is there after a row of calls, and the results.
abbrev pub run : List Call → List Socket → List Socket × List Bool
run [] ss = (ss, [])
run (c ∷ cs) ss = let later = run cs (call c ss).0 in (later.0, (call c ss).1 ∷ later.1)

abbrev pub map_run : List Call → SocketMap → SocketMap × List Bool
map_run [] map = (map, [])
map_run (c ∷ cs) map =
    let later = map_run cs (map_call c map).0 in (later.0, (map_call c map).1 ∷ later.1)

run-Represents :
    (cs : List Call) (ss : List Socket) (map : SocketMap)
    → Represents ss map
    → Represents (run cs ss).0 (map_run cs map).0 × ((run cs ss).1 ≡ (map_run cs map).1)
run-Represents [] ss map h = (h, refl)
run-Represents (c ∷ cs) ss map h =
    let (next, result) = call-map_call c ss map h in
    let (last, results) = run-Represents cs (call c ss).0 (map_call c map).0 next in
    (last, ap (λ b. b ∷ (run cs (call c ss).0).1) result ∙ ap (λ t. (map_call c map).1 ∷ t) results)

-- From no sockets on, any row of calls of RegisterSocket and BindToPort returns what a map from
-- processes and descriptors to sockets returns, in which a call for a name that is taken, or is
-- not there, fails; and FindSocket then finds what is in the map.
pub run-map_run :
    (cs : List Call)
    → Represents (run cs []).0 (map_run cs (λ pid fd. none)).0
      × ((run cs []).1 ≡ (map_run cs (λ pid fd. none)).1)
unfolding find_socket
run-map_run cs = run-Represents cs [] (λ pid fd. none) (λ pid fd. refl)
