-- ===== src/Kernel/Mouse/Packets.antt =====
-- src/ps2_mouse.cc: movements of a mouse, as the packets that it sends and the events that they become.
use Prim.Native.Nat.{bit_and}
use liumos.Prelude.{
  ℕ, zero, suc, ◌+◌, ◌-◌, ◌%◌, ◌<◌, ◌≡◌, refl, ◌∙◌, Bool, true, false, not, List, [], ◌∷◌, ◌++◌,
  All, ◌==◌, if◌then◌else◌, arith, map,
}
use liumos.Prelude.Int.{ℤ, pos, negsuc}
use liumos.Kernel.RingBuffer.{RingBuffer, push}
use liumos.Kernel.Mouse.{
  MouseEvent, waiting_first_byte, MouseController, no_event, init, event_of, is_first, to_int8,
}
use liumos.Kernel.Mouse.Stream.{
  Item, packet, stray, IsItem, stream_bytes, push_events, answers, handle_all, int_handler-stream,
}

-- What a mouse sends: a movement with the state of its buttons, or a byte that begins no packet.
pub data Sent : Type 0 where
  movement : (l c r : Bool) (dx dy : ℤ) → Sent
  noise : ℕ → Sent

-- From -127 to 127.
abbrev pub IsStep : ℤ → Type 0
IsStep (pos n) = n < 128
IsStep (negsuc n) = n < 127

abbrev pub IsSent : Sent → Type 0
IsSent (movement l c r dx dy) = IsStep dx × IsStep dy
IsSent (noise v) = is_first v ≡ false

abbrev is_negative : ℤ → Bool
is_negative (pos n) = false
is_negative (negsuc n) = true

abbrev opposite : ℤ → ℤ
opposite (pos zero) = pos 0
opposite (pos (suc n)) = negsuc n
opposite (negsuc n) = pos (n + 1)

-- In two's complement.
abbrev step_byte : ℤ → ℕ
step_byte (pos n) = n
step_byte (negsuc n) = 255 - n

-- The signs and the buttons, behind the bit that is always set.
abbrev first_byte : (l c r x y : Bool) → ℕ
first_byte l c r x y =
    8
    + (if l then 1 else 0)
    + (if r then 2 else 0)
    + (if c then 4 else 0)
    + (if x then 16 else 0)
    + (if y then 32 else 0)

abbrev pub item_of : Sent → Item
item_of (movement l c r dx dy) =
    packet (first_byte l c r (is_negative dx) (is_negative dy)) (step_byte dx) (step_byte dy)
item_of (noise v) = stray v

-- On the screen y grows downwards.
abbrev pub push_movements : List Sent → RingBuffer MouseEvent → RingBuffer MouseEvent
push_movements [] b = b
push_movements (movement l c r dx dy ∷ ss) b = push_movements ss (
    push 32 no_event
      (record { button_l = l; button_c = c; button_r = r; dx = dx; dy = opposite dy }) b)
push_movements (noise v ∷ ss) b = push_movements ss b

-- The first byte is known as one, and shows the buttons.
abbrev Shows : (l c r x y : Bool) → Type 0
Shows l c r x y =
    let first = first_byte l c r x y in
    (is_first first ≡ true)
    × (not (bit_and first 1 == 0) ≡ l)
    × (not (bit_and first 4 == 0) ≡ c)
    × (not (bit_and first 2 == 0) ≡ r)

first_byte-Shows : (l c r x y : Bool) → Shows l c r x y
unfolding is_first
first_byte-Shows l c r x y = ground arith

to_int8-step_byte : (d : ℤ) → IsStep d → to_int8 (step_byte d) ≡ d
to_int8-step_byte (pos n) h = ground arith
to_int8-step_byte (negsuc n) h = ground arith

to_int8-opposite : (d : ℤ) → IsStep d → to_int8 ((256 - step_byte d) % 256) ≡ opposite d
to_int8-opposite (pos zero) h = refl
to_int8-opposite (pos (suc n)) h = ground arith
to_int8-opposite (negsuc n) h = ground arith

event_of-movement :
    (l c r : Bool) (dx dy : ℤ)
    → IsStep dx
    → IsStep dy
    → event_of (first_byte l c r (is_negative dx) (is_negative dy)) (step_byte dx) (step_byte dy)
      ≡ record { button_l = l; button_c = c; button_r = r; dx = dx; dy = opposite dy }
unfolding event_of
event_of-movement l c r dx dy hx hy =
    let (first, left, centre, right) = first_byte-Shows l c r (is_negative dx) (is_negative dy) in
    rw (left, centre, right, to_int8-step_byte dx hx, to_int8-opposite dy hy) refl

movements-IsItem : (ss : List Sent) → All IsSent ss → All IsItem (map item_of ss)
movements-IsItem [] h = tt
movements-IsItem (movement l c r dx dy ∷ ss) h =
    ((first_byte-Shows l c r (is_negative dx) (is_negative dy)).0, movements-IsItem ss h.1)
movements-IsItem (noise v ∷ ss) h = (h.0, movements-IsItem ss h.1)

push_events-map :
    (ss : List Sent) (b : RingBuffer MouseEvent)
    → All IsSent ss
    → push_events (map item_of ss) b ≡ push_movements ss b
push_events-map [] b h = refl
push_events-map (movement l c r dx dy ∷ ss) b h = rw (event_of-movement l c r dx dy h.0.0 h.0.1) (
    push_events-map ss
      (push 32 no_event
        (record { button_l = l; button_c = c; button_r = r; dx = dx; dy = opposite dy }) b)
      h.1)
push_events-map (noise v ∷ ss) b h = push_events-map ss b h.1

-- After `Init`, the answers of a mouse and any row of movements by -127 to 127 and of bytes that
-- begin no packet, the mouse has been sent the five commands, the controller waits for a first byte
-- again, and the movements have been pushed in their order, each with its buttons and with y turned
-- around.
pub int_handler-movements :
    (c : MouseController) (id : ℕ) (ss : List Sent)
    → All IsSent ss
    → (let after = handle_all (answers id ++ stream_bytes (map item_of ss)) (init c) in
        (after.buffer ≡ push_movements ss c.buffer)
        × (after.phase ≡ waiting_first_byte)
        × (after.sent ≡ c.sent ++ 0xFF ∷ 0xF3 ∷ 100 ∷ 0xF2 ∷ 0xF4 ∷ []))
int_handler-movements c id ss h =
    let (buffer, phase, sent) = int_handler-stream c id (map item_of ss) (movements-IsItem ss h) in
    (buffer ∙ push_events-map ss c.buffer h, phase, sent)
