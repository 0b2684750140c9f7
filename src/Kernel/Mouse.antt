-- ===== src/Kernel/Mouse.antt =====
-- The class PS2MouseController of src/ps2_mouse.h and ps2_mouse.cc: the bytes that the interrupt
-- handler reads, as a state machine. `sent` is what has been sent to the mouse.
pub mod Stream
pub mod Packets
use Prim.Native.Nat.{bit_and}
use liumos.Prelude.{
  ℕ, ◌+◌, ◌-◌, ◌%◌, Bool, false, not, List, [], ◌∷◌, ◌++◌, ltb, ◌==◌, if◌then◌else◌,
}
use liumos.Prelude.Int.{ℤ, pos, negsuc}
use liumos.Memory.{Bytes}
use liumos.Kernel.RingBuffer.{RingBuffer, new_ring_buffer, push}

pub record MouseEvent : Type 0 where
  pub button_l : Bool
  pub button_c : Bool
  pub button_r : Bool
  pub dx : ℤ
  pub dy : ℤ

pub data Phase : Type 0 where
  initial_state waiting_ack_for_init_command waiting_init_success waiting_ack_for_sampling_rate_cmd
        waiting_ack_for_sampling_rate_data waiting_ack_for_get_device_id_cmd waiting_device_id
        waiting_ack_for_start_data_reporting_cmd waiting_first_byte waiting_second_byte
        waiting_third_byte :
      Phase

-- `data0` to `data2` are the array `data`.
pub record MouseController : Type 0 where
  pub buffer : RingBuffer MouseEvent
  pub phase : Phase
  pub data0 : ℕ
  pub data1 : ℕ
  pub data2 : ℕ
  pub sent : Bytes

abbrev pub no_event : MouseEvent
no_event = record { button_l = false; button_c = false; button_r = false; dx = pos 0; dy = pos 0 }

abbrev pub send_to_mouse : ℕ → MouseController → MouseController
send_to_mouse v c = record c { sent = c.sent ++ v ∷ [] }

abbrev pub init : MouseController → MouseController
init c = record (send_to_mouse 0xFF c) { phase = waiting_ack_for_init_command }

-- A byte as an `int8_t`.
abbrev pub to_int8 : ℕ → ℤ
to_int8 v = if ltb v 128 then pos v else negsuc (255 - v)

-- The event of three bytes; the negation of -128 is -128 again.
unfoldable pub event_of : (first second third : ℕ) → MouseEvent
event_of first second third = record {
  button_l = not (bit_and first 1 == 0);
  button_c = not (bit_and first 4 == 0);
  button_r = not (bit_and first 2 == 0);
  dx = to_int8 second;
  dy = to_int8 ((256 - third) % 256);
}

-- Expected bits of a first byte: 00XY1CRL.
unfoldable pub is_first : ℕ → Bool
is_first value = bit_and value 200 == 8

-- `value` is what the port gives. The end of the interrupt is not part of the state.
abbrev pub handle : Phase → (value : ℕ) → MouseController → MouseController
handle initial_state value c = c
handle waiting_ack_for_init_command value c =
    if value == 0xFA then record c { phase = waiting_init_success } else c
handle waiting_init_success value c =
    if value == 0xAA
    then record (send_to_mouse 0xF3 c) { phase = waiting_ack_for_sampling_rate_cmd }
    else c
handle waiting_ack_for_sampling_rate_cmd value c =
    if value == 0xFA
    then record (send_to_mouse 100 c) { phase = waiting_ack_for_sampling_rate_data }
    else c
handle waiting_ack_for_sampling_rate_data value c =
    if value == 0xFA
    then record (send_to_mouse 0xF2 c) { phase = waiting_ack_for_get_device_id_cmd }
    else c
handle waiting_ack_for_get_device_id_cmd value c =
    if value == 0xFA then record c { phase = waiting_device_id } else c
handle waiting_device_id value c = record (send_to_mouse 0xF4 c) {
  phase = waiting_ack_for_start_data_reporting_cmd;
}
handle waiting_ack_for_start_data_reporting_cmd value c =
    if value == 0xFA then record c { phase = waiting_first_byte } else c
handle waiting_first_byte value c =
    if is_first value
    then record c { data0 = value; phase = waiting_second_byte }
    else record c { data0 = value }
handle waiting_second_byte value c = record c { data1 = value; phase = waiting_third_byte }
handle waiting_third_byte value c = record c {
  data2 = value;
  buffer = push 32 no_event (event_of c.data0 c.data1 value) c.buffer;
  phase = waiting_first_byte;
}

unfoldable pub int_handler : (value : ℕ) → MouseController → MouseController
int_handler value c = handle c.phase value c
