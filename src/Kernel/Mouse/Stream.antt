-- ===== src/Kernel/Mouse/Stream.antt =====
-- src/ps2_mouse.cc: from the first command to the events of a row of packets.
use liumos.Prelude.{ℕ, ◌≡◌, refl, ◌∙◌, true, false, List, [], ◌∷◌, ◌++◌, All, append_assoc}
use liumos.Memory.{Bytes}
use liumos.Kernel.RingBuffer.{RingBuffer, push}
use liumos.Kernel.Mouse.{
  MouseEvent, waiting_first_byte, MouseController, no_event, init, event_of, is_first, int_handler,
}

pub handle_all : Bytes → MouseController → MouseController
unfolding int_handler
handle_all [] c = c
handle_all (v ∷ vs) c = handle_all vs (int_handler v c)

handle_all-append :
    (vs ws : Bytes) (c : MouseController)
    → handle_all (vs ++ ws) c ≡ handle_all ws (handle_all vs c)
unfolding handle_all
handle_all-append [] ws c = refl
handle_all-append (v ∷ vs) ws c = handle_all-append vs ws (int_handler v c)

-- What the mouse sends: a packet of three bytes, or a byte that cannot begin one.
pub data Item : Type 0 where
  packet : (first second third : ℕ) → Item
  stray : ℕ → Item

abbrev pub IsItem : Item → Type 0
IsItem (packet first second third) = is_first first ≡ true
IsItem (stray v) = is_first v ≡ false

abbrev pub item_bytes : Item → Bytes
item_bytes (packet first second third) = first ∷ second ∷ third ∷ []
item_bytes (stray v) = v ∷ []

abbrev pub stream_bytes : List Item → Bytes
stream_bytes [] = []
stream_bytes (item ∷ items) = item_bytes item ++ stream_bytes items

-- The events of the packets, put into the buffer one after the other.
abbrev pub push_events : List Item → RingBuffer MouseEvent → RingBuffer MouseEvent
push_events [] b = b
push_events (packet first second third ∷ items) b =
    push_events items (push 32 no_event (event_of first second third) b)
push_events (stray v ∷ items) b = push_events items b

stream-push_events :
    (items : List Item) (c : MouseController)
    → All IsItem items
    → c.phase ≡ waiting_first_byte
    → ((handle_all (stream_bytes items) c).buffer ≡ push_events items c.buffer)
      × ((handle_all (stream_bytes items) c).phase ≡ waiting_first_byte)
      × ((handle_all (stream_bytes items) c).sent ≡ c.sent)
unfolding handle_all int_handler
stream-push_events [] c all e = (refl, e, refl)
stream-push_events (packet first second third ∷ items) c all e =
    rw (e, all.0)
      (stream-push_events items
        (record c {
          data0 = first;
          data1 = second;
          data2 = third;
          buffer = push 32 no_event (event_of first second third) c.buffer;
          phase = waiting_first_byte;
        })
        all.1 refl)
stream-push_events (stray v ∷ items) c all e =
    rw (e, all.0)
      (stream-push_events items (record c { data0 = v; phase = waiting_first_byte }) all.1 refl)

-- The answers of a mouse to the commands; `id` is its device ID.
abbrev pub answers : (id : ℕ) → Bytes
answers id = 0xFA ∷ 0xAA ∷ 0xFA ∷ 0xFA ∷ 0xFA ∷ id ∷ 0xFA ∷ []

-- After `Init`, the answers of a mouse and any row of packets and of bytes that begin none, the
-- mouse has been sent the five commands, the events of the packets have been pushed in their order,
-- and the controller waits for a first byte again.
pub int_handler-stream :
    (c : MouseController) (id : ℕ) (items : List Item)
    → All IsItem items
    → ((handle_all (answers id ++ stream_bytes items) (init c)).buffer ≡ push_events items c.buffer)
      × ((handle_all (answers id ++ stream_bytes items) (init c)).phase ≡ waiting_first_byte)
      × ((handle_all (answers id ++ stream_bytes items) (init c)).sent
          ≡ c.sent ++ 0xFF ∷ 0xF3 ∷ 100 ∷ 0xF2 ∷ 0xF4 ∷ [])
unfolding handle_all int_handler
int_handler-stream c id items all =
    let (buffer, phase, sent) =
      stream-push_events items (handle_all (answers id) (init c)) all refl in
    (buffer, phase, sent ∙ simp append_assoc)
