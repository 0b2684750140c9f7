-- ===== src/Kernel/TextBox.antt =====
-- The class TextBox of src/text_box.h and src/text_box.cc, the line that is typed at the prompt, and
-- WaitAndProcess of src/command.cc, which reads one.
pub mod Line
use Prim.Native.Nat.{bit_and}
use liumos.Prelude.{
  ℕ, ◌+◌, ◌-◌, ◌%◌, Bool, true, false, not, List, [], ◌∷◌, ◌++◌, Option, none, some, codes, leb,
  ◌==◌, if◌then◌else◌, ◌>>=◌,
}
use liumos.Memory.{Mem, Ptr, Bytes, write}
use liumos.Kernel.Keyboard.Keys.{is_break, mask_extended, k_backspace, k_no_input}

abbrev pub size_of_buffer : ℕ
size_of_buffer = 128

-- The array `buf_`, of one byte more than that, stands at `buf` in `mem`.
pub record TextBox : Type 0 where
  pub mem : Mem
  pub buf : Ptr
  pub buf_used : ℕ
  pub is_recording_enabled : Bool

-- The box, and the characters that are handed to `PutChar`.
unfoldable pub putc : (keyid : ℕ) → TextBox → TextBox × Bytes
unfolding is_break
putc keyid t =
    let before = t.buf_used - 1 in
    let erased = record t { mem = write t.mem (t.buf + before) 0; buf_used = before } in
    let added = write t.mem (t.buf + t.buf_used) (keyid % 256) in
    let typed = record t {
      mem = write added (t.buf + (t.buf_used + 1)) 0;
      buf_used = t.buf_used + 1;
    } in
    if is_break keyid
    then (t, [])
    else if keyid == k_backspace
    then (if t.is_recording_enabled
        then (if t.buf_used == 0 then (t, []) else (erased, 8 ∷ []))
        else (t, 8 ∷ []))
    else if not (bit_and keyid mask_extended == 0)
    then (t, [])
    else if t.is_recording_enabled
    then (if leb size_of_buffer t.buf_used then (t, []) else (typed, keyid % 256 ∷ []))
    else (t, keyid % 256 ∷ [])

unfoldable pub start_recording : TextBox → TextBox
start_recording t = record t {
  mem = write t.mem (t.buf + 0) 0;
  buf_used = 0;
  is_recording_enabled = true;
}

unfoldable pub stop_recording : TextBox → TextBox
stop_recording t = record t { is_recording_enabled = false }

-- The loop of `WaitAndProcess` on what `GetCharWithoutBlocking` gives, up to the call of `Run`: the
-- box, what is put out and the input that is left. `none`: the input ends, and the loop waits.
unfoldable pub wait_loop : List ℕ → TextBox → Option (TextBox × Bytes × List ℕ)
unfolding putc stop_recording
wait_loop [] t = none
wait_loop (keyid ∷ input) t =
    let idle = wait_loop input t in
    let (ended, newline) = putc 10 (stop_recording t) in
    let (next, echo) = putc keyid t in
    let rest = wait_loop input next in
    if keyid == k_no_input
    then idle
    else if keyid == 10
    then some (ended, newline, input)
    else (do (last, out, left) ← rest; some (last, echo ++ out, left))

unfoldable pub wait_and_process : List ℕ → TextBox → Option (TextBox × Bytes × List ℕ)
unfolding wait_loop start_recording
wait_and_process input t = do
  (last, out, left) ← wait_loop input (start_recording t)
  some (last, codes "(liumos)$ " ++ out, left)
