-- ===== src/Tests/Devices.antt =====
-- The keyboard, the mouse and the network of src at small inputs.
use liumos.Prelude.{
  ℕ, ◌+◌, ◌≡◌, refl, true, false, none, some, List, [], ◌∷◌, ◌++◌, replicate, codes, arith, map,
  All,
}
use liumos.Prelude.Int.{pos, negsuc}
use liumos.Memory.{Mem, Bytes, store, write, read}
use liumos.Kernel.RingBuffer.{new_ring_buffer}
use liumos.Kernel.StringBuffer.{write_char, write_decimal64}
use liumos.Kernel.Keyboard
use liumos.Kernel.Keyboard.{parse_states}
use liumos.Kernel.Keyboard.Held.{parse_all, bits, held_after, AllMarked, parse_all-held}
use liumos.Kernel.Keyboard.Keys.{k_backspace, k_no_input, is_break}
use liumos.Kernel.TextBox.{TextBox, wait_and_process}
use liumos.Kernel.TextBox.Line.{
  closed, edit_all, shown, IsLine, NotEnter, NotBack, wait_and_process-IsLine,
  wait_and_process-shown,
}
use liumos.Kernel.Mouse
use liumos.Kernel.Mouse.{is_first}
use liumos.Kernel.Mouse.Stream.{answers, stream_bytes, handle_all}
use liumos.Kernel.Mouse.Packets.{
  Sent, movement, noise, item_of, push_movements, int_handler-movements,
}
use liumos.Kernel.Network.{
  icmp_raw, udp, write_octets, create_from_string, get_operation, setup_request, setup_reply,
  request, reply,
}
use liumos.Kernel.Network.Sockets.{Call, registers, binds, Represents, run, map_run, run-map_run}
use liumos.Kernel.Network.Addresses.{create_from_string-write_octets}

-- Shift, A, Shift released, A, Ctrl.
abbrev scan_codes : List ℕ
scan_codes = 0x2A ∷ 0x1E ∷ 0xAA ∷ 0x1E ∷ 0x1D ∷ []

parse_all-held_example :
    ((parse_all scan_codes (Keyboard.init [])).0.state_shift
      ≡ bits (held_after 0x2A false scan_codes) (held_after 0x36 false scan_codes))
    × ((parse_all scan_codes (Keyboard.init [])).0.state_ctrl
        ≡ bits (held_after 0x1D false scan_codes) false)
    × AllMarked false scan_codes (parse_all scan_codes (Keyboard.init [])).1
parse_all-held_example = parse_all-held [] scan_codes (omega arith)

keys : (parse_all scan_codes (Keyboard.init [])).1 ≡ 0x4110 ∷ 0x0141 ∷ 0xC010 ∷ b'a' ∷ 0x4212 ∷ []
unfolding parse_all parse_states
keys = refl

abbrev mouse : Mouse.MouseController
mouse = record {
  buffer = new_ring_buffer 32 Mouse.no_event (replicate 32 Mouse.no_event);
  phase = Mouse.initial_state;
  data0 = 0;
  data1 = 0;
  data2 = 0;
  sent = [];
}

abbrev sent : List Sent
sent =
    movement true false false (pos 5) (negsuc 5)
    ∷ noise 0
    ∷ movement false false true (negsuc 0) (pos 1)
    ∷ []

int_handler-movements_example :
    ((handle_all (answers 0 ++ stream_bytes (map item_of sent)) (Mouse.init mouse)).buffer
      ≡ push_movements sent mouse.buffer)
    × ((handle_all (answers 0 ++ stream_bytes (map item_of sent)) (Mouse.init mouse)).phase
        ≡ Mouse.waiting_first_byte)
    × ((handle_all (answers 0 ++ stream_bytes (map item_of sent)) (Mouse.init mouse)).sent
        ≡ [] ++ 0xFF ∷ 0xF3 ∷ 100 ∷ 0xF2 ∷ 0xF4 ∷ [])
unfolding is_first
int_handler-movements_example =
    int_handler-movements mouse 0 sent
      ((omega arith, omega arith), (refl, ((omega arith, omega arith), tt)))

first_event :
    Mouse.event_of 9 5 250
    ≡ record { button_l = true; button_c = false; button_r = false; dx = pos 5; dy = pos 6 }
unfolding Mouse.event_of
first_event = refl

abbrev socket_calls : List Call
socket_calls = registers 1 3 udp ∷ registers 1 3 icmp_raw ∷ binds 1 3 80 ∷ binds 2 3 80 ∷ []

run-map_run_example :
    Represents (run socket_calls []).0 (map_run socket_calls (λ pid fd. none)).0
    × ((run socket_calls []).1 ≡ (map_run socket_calls (λ pid fd. none)).1)
run-map_run_example = run-map_run socket_calls

call_results : (map_run socket_calls (λ pid fd. none)).1 ≡ false ∷ true ∷ false ∷ true ∷ []
call_results = refl

abbrev address : Mem
address = store (λ _. 0) 100 (codes "10.0.2.15")

create_from_string-write_octets_example :
    create_from_string 20 address 100 ≡ some (some (10 ∷ 0 ∷ 2 ∷ 15 ∷ []))
unfolding store write write_octets write_decimal64 write_char
create_from_string-write_octets_example =
    create_from_string-write_octets 20 128 (10 ∷ 0 ∷ 2 ∷ 15 ∷ []) (codes "10.0.2.15") address 100
      refl (omega arith) refl (omega arith) (omega arith) (omega arith)

operations :
    (get_operation (setup_request [] [] []) ≡ request)
    × (get_operation (setup_reply [] [] [] []) ≡ reply)
unfolding get_operation setup_request setup_reply
operations = (refl, refl)

abbrev typed_keys : List ℕ
typed_keys = b'l' ∷ k_no_input ∷ b'a' ∷ k_backspace ∷ (0x8000 + b'a') ∷ b's' ∷ []

abbrev text_box : TextBox
text_box = record { mem = address; buf = 500; buf_used = 7; is_recording_enabled = false }

typed-NotEnter : All NotEnter typed_keys
typed-NotEnter = (refl, (refl, (refl, (refl, (refl, (refl, tt))))))

typed-NotBack : All NotBack typed_keys
unfolding is_break
typed-NotBack = (refl, (refl, (refl, (refl, (refl, (refl, tt))))))

wait_and_process-IsLine_example :
    (m : Mem) × (wait_and_process (typed_keys ++ 10 ∷ b'x' ∷ []) text_box
      ≡ some (
        closed m 500 (edit_all [] typed_keys).0,
        codes "(liumos)$ " ++ (edit_all [] typed_keys).1 ++ 10 ∷ [],
        b'x' ∷ [],
      ))
    × IsLine address m 500 (edit_all [] typed_keys).0
wait_and_process-IsLine_example =
    wait_and_process-IsLine typed_keys (b'x' ∷ []) text_box typed-NotEnter

wait_and_process-shown_example :
    (t' : TextBox) × (echo : Bytes) × (wait_and_process (typed_keys ++ 10 ∷ b'x' ∷ []) text_box
      ≡ some (t', codes "(liumos)$ " ++ echo ++ 10 ∷ [], b'x' ∷ []))
    × (read t'.mem t'.buf t'.buf_used ≡ shown [] echo)
    × (t'.mem (t'.buf + t'.buf_used) ≡ 0)
wait_and_process-shown_example =
    wait_and_process-shown typed_keys (b'x' ∷ []) text_box typed-NotEnter typed-NotBack

typed_line : (edit_all [] typed_keys).0 ≡ codes "ls"
unfolding is_break
typed_line = refl
