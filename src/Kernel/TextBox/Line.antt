-- ===== src/Kernel/TextBox/Line.antt =====
-- src/text_box.cc and WaitAndProcess of src/command.cc: the line that is recorded is the one that the
-- screen shows.
use Prim.Native.Nat.{bit_and}
use liumos.Prelude.{
  ℕ, zero, suc, ◌+◌, ◌-◌, ◌%◌, ◌≤◌, ◌<◌, ◌≡◌, refl, sym, ap, ◌∙◌, inl, inr, Bool, true, false, not,
  ◌≢◌, some, List, [], ◌∷◌, ◌++◌, append_assoc, length, length-append, length-take, take, All,
  codes, leb, ◌==◌, if◌then◌else◌, Bool-cases, arith,
}
use liumos.Memory.{Mem, Ptr, Bytes, write, read}
use liumos.Memory.Store.{Outside, write_self, write_ne, read_frame}
use liumos.Kernel.Keyboard.Keys.{is_break, mask_extended, k_backspace, k_no_input}
use liumos.Kernel.TextBox.{
  TextBox, size_of_buffer, putc, start_recording, stop_recording, wait_loop, wait_and_process,
}

-- What a key does to a line.
pub data Stroke : Type 0 where
  character : ℕ → Stroke
  erase other : Stroke

abbrev pub stroke : (keyid : ℕ) → Stroke
stroke keyid =
    if is_break keyid
    then other
    else if keyid == k_backspace
    then erase
    else if not (bit_and keyid mask_extended == 0)
    then other
    else character (keyid % 256)

-- The line after it, and its echo: a full line takes no more characters, an empty one loses none.
abbrev pub edit : Bytes → Stroke → Bytes × Bytes
edit line (character c) =
    if leb size_of_buffer (length line) then (line, []) else (line ++ c ∷ [], c ∷ [])
edit line erase = if length line == 0 then (line, []) else (take (length line - 1) line, 8 ∷ [])
edit line other = (line, [])

-- A row of keys; those that stand for no input are passed over.
abbrev pub edit_all : Bytes → List ℕ → Bytes × Bytes
edit_all line [] = (line, [])
edit_all line (k ∷ keys) = if k == k_no_input then edit_all line keys else (
  (edit_all (edit line (stroke k)).0 keys).0,
  (edit line (stroke k)).1 ++ (edit_all (edit line (stroke k)).0 keys).1,
)

-- What a screen shows after `line` when characters are put out: 8 takes the last one away.
abbrev pub shown : (line : Bytes) → Bytes → Bytes
shown line [] = line
shown line (c ∷ cs) = shown (if c == 8 then take (length line - 1) line else line ++ c ∷ []) cs

abbrev box : Mem → Ptr → Bytes → TextBox
box m p line = record { mem = m; buf = p; buf_used = length line; is_recording_enabled = true }

-- The line stands at `p` with a NUL behind it, and nothing but the 129 bytes there differs from `m0`.
abbrev pub IsLine : (m0 m : Mem) → Ptr → Bytes → Type 0
IsLine m0 m p line =
    (length line ≤ size_of_buffer)
    × (read m p (length line) ≡ line)
    × (m (p + length line) ≡ 0)
    × ((a : ℕ) → Outside a p (size_of_buffer + 1) → m a ≡ m0 a)

stroke_of : Stroke → TextBox → TextBox × Bytes
stroke_of (character c) t =
    if t.is_recording_enabled
    then (if leb size_of_buffer t.buf_used then (t, []) else (
      record t {
        mem = write (write t.mem (t.buf + t.buf_used) c) (t.buf + (t.buf_used + 1)) 0;
        buf_used = t.buf_used + 1;
      },
      c ∷ [],
    ))
    else (t, c ∷ [])
stroke_of erase t =
    if t.is_recording_enabled
    then (if t.buf_used == 0 then (t, []) else (
      record t { mem = write t.mem (t.buf + (t.buf_used - 1)) 0; buf_used = t.buf_used - 1 },
      8 ∷ [],
    ))
    else (t, 8 ∷ [])
stroke_of other t = (t, [])

putc-stroke_of : (k : ℕ) (t : TextBox) → putc k t ≡ stroke_of (stroke k) t
unfolding putc stroke_of
putc-stroke_of k t = ground arith

read_last : (n : ℕ) (m : Mem) (p : Ptr) → read m p (suc n) ≡ read m p n ++ m (p + n) ∷ []
unfolding read
read_last zero m p = ap (λ a. m a ∷ []) (omega arith)
read_last (suc n) m p =
    ap (◌∷◌ (m p)) (read_last n m (p + 1) ∙ ap (λ a. read m (p + 1) n ++ m a ∷ []) (omega arith))

take-read : (n : ℕ) (m : Mem) (p : Ptr) → take n (read m p (suc n)) ≡ read m p n
unfolding read
take-read zero m p = refl
take-read (suc n) m p = ap (◌∷◌ (m p)) (take-read n m (p + 1))

module _ (m0 m : Mem) (p : Ptr) (line : Bytes) (h : IsLine m0 m p line) where
  add_mem : ℕ → Mem
  add_mem c = write (write m (p + length line) c) (p + (length line + 1)) 0

  add-IsLine : (c : ℕ) → length line < size_of_buffer → IsLine m0 (add_mem c) p (line ++ c ∷ [])
  unfolding add_mem
  add-IsLine c room =
      let n = length line in
      let longer : length (line ++ c ∷ []) ≡ suc n = omega (arith, length-append line (c ∷ [])) in
      let spared : (a : ℕ) → a ≢ p + n → a ≢ p + (n + 1) → add_mem c a ≡ m a =
        λ a x y. write_ne (write m (p + n) c) (p + (n + 1)) 0 a y ∙ write_ne m (p + n) c a x in
      let here : add_mem c (p + n) ≡ c =
        write_ne (write m (p + n) c) (p + (n + 1)) 0 (p + n) (omega arith)
        ∙ write_self m (p + n) c in
      let old : read (add_mem c) p n ≡ line =
        read_frame n m (add_mem c) p (λ a lo hi. spared a (omega arith) (omega arith)) ∙ h.1 in
      (
        omega arith,
        ap (read (add_mem c) p) longer ∙ read_last n (add_mem c) p ∙ cc,
        ap (λ k. add_mem c (p + k)) longer
            ∙ ap (add_mem c) (omega arith)
            ∙ write_self (write m (p + n) c) (p + (n + 1)) 0,
        (λ a out. spared a (omega arith) (omega arith) ∙ h.3 a out),
      )

  erase_mem : Mem
  erase_mem = write m (p + (length line - 1)) 0

  shorter : (length line == 0) ≡ false → length (take (length line - 1) line) ≡ length line - 1
  shorter e = length-take (length line - 1) line (ground arith)

  erase-IsLine : (length line == 0) ≡ false → IsLine m0 erase_mem p (take (length line - 1) line)
  unfolding erase_mem
  erase-IsLine e =
      let n = length line - 1 in
      let whole : suc n ≡ length line = ground arith in
      let spared : (a : ℕ) → a ≢ p + n → erase_mem a ≡ m a = write_ne m (p + n) 0 in
      let kept : read erase_mem p n ≡ take n line =
        read_frame n m erase_mem p (λ a lo hi. spared a (omega arith))
        ∙ sym (take-read n m p)
        ∙ ap (take n) (ap (read m p) whole ∙ h.1) in
      (
        omega (arith, shorter e),
        ap (read erase_mem p) (shorter e) ∙ kept,
        ap (λ k. erase_mem (p + k)) (shorter e) ∙ write_self m (p + n) 0,
        (λ a out. spared a (omega arith) ∙ h.3 a out),
      )

  -- What a key does to the box is what it does to the line.
  stroke_of-edit :
      (s : Stroke)
      → (m' : Mem) × (stroke_of s (box m p line) ≡ (box m' p (edit line s).0, (edit line s).1))
        × IsLine m0 m' p (edit line s).0
  unfolding stroke_of add_mem erase_mem
  stroke_of-edit (character c) = elim (Bool-cases (leb size_of_buffer (length line))) [
    | inl e ↦ (m, rw e refl, rw e h)
    | inr e ↦ (
      add_mem c,
      rw e (
          ap (λ n. (record (box m p line) { mem = add_mem c; buf_used = n }, c ∷ []))
            (sym (length-append line (c ∷ [])))),
      rw e (add-IsLine c (ground arith)),
    )
  ]
  stroke_of-edit erase = elim (Bool-cases (length line == 0)) [
    | inl e ↦ (m, rw e refl, rw e h)
    | inr e ↦ (
      erase_mem,
      rw e (
          ap (λ n. (record (box m p line) { mem = erase_mem; buf_used = n }, 8 ∷ []))
            (sym (shorter e))),
      rw e (erase-IsLine e),
    )
  ]
  stroke_of-edit other = (m, refl, h)

-- The box after Enter.
abbrev pub closed : Mem → Ptr → Bytes → TextBox
closed m p line = record (box m p line) { is_recording_enabled = false }

abbrev pub is_back : Stroke → Bool
is_back (character c) = c == 8
is_back erase = false
is_back other = false

-- A key that does not end the line.
abbrev pub NotEnter : ℕ → Type 0
NotEnter keyid = (keyid == 10) ≡ false

-- A key that is not the character 8, which the screen takes for a backspace.
abbrev pub NotBack : ℕ → Type 0
NotBack keyid = is_back (stroke keyid) ≡ false

wait_step :
    (k : ℕ) (input : List ℕ) (t next last : TextBox) (echo out : Bytes) (left : List ℕ)
    → (k == k_no_input) ≡ false
    → (k == 10) ≡ false
    → putc k t ≡ (next, echo)
    → wait_loop input next ≡ some (last, out, left)
    → wait_loop (k ∷ input) t ≡ some (last, echo ++ out, left)
unfolding wait_loop
wait_step k input t next last echo out left e ne once h = rw (e, ne, once, h) refl

wait_idle :
    (k : ℕ) (input : List ℕ) (t : TextBox)
    → (k == k_no_input) ≡ true
    → wait_loop (k ∷ input) t ≡ wait_loop input t
unfolding wait_loop
wait_idle k input t e = rw e refl

wait_end :
    (rest : List ℕ) (m : Mem) (p : Ptr) (line : Bytes)
    → wait_loop (10 ∷ rest) (box m p line) ≡ some (closed m p line, 10 ∷ [], rest)
unfolding wait_loop putc stop_recording is_break
wait_end rest m p line = refl

wait_loop-edit_all :
    (keys rest : List ℕ) (m0 m : Mem) (p : Ptr) (line : Bytes)
    → All NotEnter keys
    → IsLine m0 m p line
    → (m' : Mem) × (wait_loop (keys ++ 10 ∷ rest) (box m p line)
        ≡ some (closed m' p (edit_all line keys).0, (edit_all line keys).1 ++ 10 ∷ [], rest))
      × IsLine m0 m' p (edit_all line keys).0
wait_loop-edit_all [] rest m0 m p line plain h = (m, wait_end rest m p line, h)
wait_loop-edit_all (k ∷ keys) rest m0 m p line plain h = elim (Bool-cases (k == k_no_input)) [
  | inl e ↦
      (let (m', same, h') = wait_loop-edit_all keys rest m0 m p line plain.1 h in
        (m', wait_idle k (keys ++ 10 ∷ rest) (box m p line) e ∙ rw e same, rw e h'))
  | inr e ↦
      (let (m1, once, h1) = stroke_of-edit m0 m p line h (stroke k) in
        let (m', same, h') =
          wait_loop-edit_all keys rest m0 m1 p (edit line (stroke k)).0 plain.1 h1 in
        let line' = edit_all (edit line (stroke k)).0 keys in
        (
          m',
          rw e (
              wait_step k (keys ++ 10 ∷ rest) (box m p line) (box m1 p (edit line (stroke k)).0)
                (closed m' p line'.0) (edit line (stroke k)).1 (line'.1 ++ 10 ∷ []) rest e plain.0
                (putc-stroke_of k (box m p line) ∙ once) same
              ∙ ap (λ out. some (closed m' p line'.0, out, rest))
                  (sym (append_assoc (edit line (stroke k)).1 line'.1 (10 ∷ [])))),
          rw e h',
        ))
]

shown-append : (xs ys line : Bytes) → shown line (xs ++ ys) ≡ shown (shown line xs) ys
shown-append [] ys line = refl
shown-append (x ∷ xs) ys line =
    shown-append xs ys (if x == 8 then take (length line - 1) line else line ++ x ∷ [])

shown-edit :
    (s : Stroke) (line : Bytes) → is_back s ≡ false → shown line (edit line s).1 ≡ (edit line s).0
shown-edit (character c) line plain = elim (Bool-cases (leb size_of_buffer (length line))) [
  | inl e ↦ rw e refl
  | inr e ↦ rw (e, plain) refl
]
shown-edit erase line plain = elim (Bool-cases (length line == 0)) [
  | inl e ↦ rw e refl
  | inr e ↦ rw e refl
]
shown-edit other line plain = refl

shown-edit_all :
    (keys : List ℕ) (line : Bytes)
    → All NotBack keys
    → shown line (edit_all line keys).1 ≡ (edit_all line keys).0
shown-edit_all [] line plain = refl
shown-edit_all (k ∷ keys) line plain = elim (Bool-cases (k == k_no_input)) [
  | inl e ↦ rw e (shown-edit_all keys line plain.1)
  | inr e ↦
      rw
        (
          e,
          shown-append (edit line (stroke k)).1 (edit_all (edit line (stroke k)).0 keys).1 line,
          shown-edit (stroke k) line plain.0,
        )
        (shown-edit_all keys (edit line (stroke k)).0 plain.1)
]

-- Whatever keys come before Enter, the loop of the prompt ends with it and leaves the input behind it.
-- It puts out the prompt, the echo of the keys and a line feed. The bytes recorded are the line that
-- the keys edit, where the backspace key takes the last character away and a full line of 128 takes no
-- more; a NUL stands behind them, and no byte outside the 129 of the buffer has changed.
pub wait_and_process-IsLine :
    (keys rest : List ℕ) (t : TextBox)
    → All NotEnter keys
    → (m : Mem) × (wait_and_process (keys ++ 10 ∷ rest) t
        ≡ some (
          closed m t.buf (edit_all [] keys).0,
          codes "(liumos)$ " ++ (edit_all [] keys).1 ++ 10 ∷ [],
          rest,
        ))
      × IsLine t.mem m t.buf (edit_all [] keys).0
unfolding wait_and_process start_recording read
wait_and_process-IsLine keys rest t enter =
    let first : IsLine t.mem (write t.mem (t.buf + 0) 0) t.buf [] = (
      omega arith,
      refl,
      write_self t.mem (t.buf + 0) 0,
      (λ a out. write_ne t.mem (t.buf + 0) 0 a (omega arith)),
    ) in
    let (m, same, h) =
      wait_loop-edit_all keys rest t.mem (write t.mem (t.buf + 0) 0) t.buf [] enter first in
    (m, rw same refl, h)

-- If no key before Enter is the character 8, then after the call of `WaitAndProcess` the bytes that
-- are recorded are what a screen shows of the output between the prompt and the line feed.
pub wait_and_process-shown :
    (keys rest : List ℕ) (t : TextBox)
    → All NotEnter keys
    → All NotBack keys
    → (t' : TextBox) × (echo : Bytes) × (wait_and_process (keys ++ 10 ∷ rest) t
        ≡ some (t', codes "(liumos)$ " ++ echo ++ 10 ∷ [], rest))
      × (read t'.mem t'.buf t'.buf_used ≡ shown [] echo)
      × (t'.mem (t'.buf + t'.buf_used) ≡ 0)
wait_and_process-shown keys rest t enter back =
    let (m, same, line) = wait_and_process-IsLine keys rest t enter in
    (
      closed m t.buf (edit_all [] keys).0,
      (edit_all [] keys).1,
      same,
      line.1 ∙ sym (shown-edit_all keys [] back),
      line.2,
    )
