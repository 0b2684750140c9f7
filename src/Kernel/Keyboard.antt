-- ===== src/Kernel/Keyboard.antt =====
-- The class KeyboardController of src/keyboard.h and keyboard.cc: scan codes from the interrupt
-- handler to keys with the state of the Shift and Ctrl keys.
pub mod Keys
pub mod Held
use Prim.Native.Nat.{bit_and, bit_or}
use liumos.Prelude.{
  ℕ, zero, suc, ◌+◌, ◌%◌, Bool, true, false, ◌&&◌, Option, none, some, List, [], ◌∷◌, get_or, leb,
  ◌==◌, if◌then◌else◌,
}
use liumos.Kernel.RingBuffer.{RingBuffer, new_ring_buffer, is_empty, push, pop}
use liumos.Kernel.Keyboard.Keys.{
  mask_break, attr_shift, attr_ctrl, k_shift_l, k_shift_r, k_ctrl_l, mask_extended, without_attr,
  key_code_table, key_code_table_with_shift,
}

-- The states are bytes: bit 0 for the left key, bit 1 for the right one.
pub record KeyboardController : Type 0 where
  pub keycode_buffer : RingBuffer ℕ
  pub state_shift : ℕ
  pub state_ctrl : ℕ

-- The handler and the registers are not part of the state. `elements` is what the array holds.
abbrev pub init : List ℕ → KeyboardController
init elements = record {
  keycode_buffer = new_ring_buffer 16 0 elements;
  state_shift = 0;
  state_ctrl = 0;
}

-- `code` is what the port gives.
unfoldable pub int_handler_sub : (code : ℕ) → KeyboardController → KeyboardController
int_handler_sub code k = record k { keycode_buffer = push 16 0 code k.keycode_buffer }

-- The key of a scan code without its highest bit; 0 stands for none.
abbrev pub key_of : (state_shift code : ℕ) → ℕ
key_of state_shift code =
    let plain = get_or key_code_table code 0 in
    let shifted = get_or key_code_table_with_shift code 0 in
    if state_shift == 0 then plain else if shifted == 0 then plain else shifted

abbrev pub lower_case : (state_shift keyid : ℕ) → ℕ
lower_case state_shift keyid =
    if leb b'A' keyid && leb keyid b'Z' && state_shift == 0 then keyid + 0x20 else keyid

-- One of the two `switch`es: the left and the right key, and their state.
abbrev pub next_state : (left right keyid state : ℕ) → ℕ
next_state left right keyid state =
    let key = without_attr keyid in
    if key == left
    then bit_or state 1
    else if key == right
    then bit_or state 2
    else if key == bit_or left mask_break
    then bit_and state 0xFE
    else if key == bit_or right mask_break
    then bit_and state 0xFD
    else state

abbrev pub with_attr : (state attr keyid : ℕ) → ℕ
with_attr state attr keyid = if state == 0 then keyid else bit_or keyid attr

-- `kCtrlR`, which no scan code of the tables gives.
abbrev pub k_ctrl_r : ℕ
k_ctrl_r = mask_extended + 0x13

-- The new states and the key.
unfoldable pub parse_states : (keycode state_shift state_ctrl : ℕ) → ℕ × ℕ × ℕ
unfolding without_attr
parse_states keycode state_shift state_ctrl =
    let found = key_of state_shift (keycode % 128) in
    let named = lower_case state_shift found in
    let made = if leb 128 keycode then bit_or named mask_break else named in
    let shift = next_state k_shift_l k_shift_r made state_shift in
    let with_shift = with_attr shift attr_shift made in
    let ctrl = next_state k_ctrl_l k_ctrl_r with_shift state_ctrl in
    if found == 0
    then (state_shift, state_ctrl, 0)
    else (shift, ctrl, with_attr ctrl attr_ctrl with_shift)

unfoldable pub parse_key_code : (keycode : ℕ) → KeyboardController → KeyboardController × ℕ
unfolding parse_states
parse_key_code keycode k =
    let (shift, ctrl, keyid) = parse_states keycode k.state_shift k.state_ctrl in
    (record k { state_shift = shift; state_ctrl = ctrl }, keyid)

-- `none` is fuel that does not suffice.
unfoldable pub read_key_id : ℕ → KeyboardController → Option (KeyboardController × ℕ)
unfolding parse_key_code pop
read_key_id zero k = none
read_key_id (suc f) k =
    let (buffer, code) = pop 16 0 k.keycode_buffer in
    let (next, keyid) = parse_key_code code (record k { keycode_buffer = buffer }) in
    let rest = read_key_id f next in
    if is_empty 16 0 k.keycode_buffer
    then some (k, 0)
    else if keyid == 0
    then rest
    else some (next, keyid)
