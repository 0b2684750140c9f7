-- ===== src/Tests/System.antt =====
-- Parts of src at small inputs: the scheduler, the command line, the string buffer, rectangles, the
-- ring of transfer requests and the checksum.
use liumos.Prelude.{
  ℕ, ◌+◌, Bool, ◌&&◌, ◌-◌, ◌*◌, ◌<◌, ◌≡◌, refl, true, Option, none, some, [], ◌∷◌, ◌++◌, length,
  codes, arith, if◌then◌else◌, ◌==◌,
}
use liumos.Prelude.Int.{pos, negsuc, max_ℤ, min_ℤ, ◌+ℤ◌, ◌-ℤ◌}
use liumos.Memory.{Mem, Bytes, store, write}
use liumos.Kernel.Scheduler.{
  not_scheduled, Processes, Scheduler, register_process, new_scheduler, switch_process,
}
use liumos.Kernel.Scheduler.Statuses.{IsSchedule}
use liumos.Kernel.Scheduler.Switch.{IsNext, switch_process-IsNext}
use liumos.Kernel.Scheduler.Reach.{registers, switches, Reach, here, next, scheduler-IsSchedule}
use liumos.Kernel.CommandLine.{CommandLineArgs, done, overflow, parse}
use liumos.Kernel.CommandLine.Words.{words, Stored, parse-words}
use liumos.Kernel.CommandLine.Overflow.{parse_overflow}
use liumos.Kernel.StringBuffer.{StringBuffer, write_decimal64}
use liumos.Kernel.StringBuffer.Written.{written}
use liumos.Kernel.StringBuffer.Decimal.{write_decimal64-IsDecimal}
use liumos.Liumlib.Output.Decimal.{IsDecimal}
use liumos.Kernel.Rect.{Rect, get_intersection_with, is_point_in_rect}
use liumos.Kernel.Rect.Intersection.{get_intersection_with-points}
use liumos.Kernel.TrbRing.{BasicTrb, Ring, push, init}
use liumos.Kernel.TrbRing.Cycle.{IsRing, push-IsRing, init-IsRing}
use liumos.Kernel.Checksum.{calc}
use liumos.Kernel.Checksum.Verified.{calc-verified}

-- Three processes, at the pointers 1 to 3, and nothing registered.
abbrev processes : Processes
processes p = record { id = p + 10; status = not_scheduled; scheduler_index = 0 }

abbrev or_else : Option Scheduler → Scheduler
or_else none = record { processes = processes; process = []; current = 0 }
or_else (some s) = s

abbrev started : Scheduler
started = or_else (new_scheduler 1 processes)

abbrev with_second : Scheduler
with_second = or_else (register_process 2 started)

abbrev with_third : Scheduler
with_third = or_else (register_process 3 (switch_process with_second).0)

-- The second process is registered and runs, and then a third one is registered.
abbrev calls : Reach started with_third
calls =
    next
      (next (next here (registers 2 with_second (unfold new_scheduler register_process in refl)))
        switches)
      (registers 3 with_third (unfold new_scheduler register_process switch_process in refl))

scheduler-IsSchedule_example : IsSchedule with_third
scheduler-IsSchedule_example =
    scheduler-IsSchedule 1 processes started with_third
      (unfold new_scheduler register_process in refl) calls

switch_process-IsNext_example :
    IsNext with_second
      (with_second.processes with_second.current).scheduler_index
      1
      (length with_second.process - 1)
      (switch_process with_second).1
switch_process-IsNext_example = switch_process-IsNext with_second

second_runs : (switch_process with_second).1 ≡ some 2
unfolding switch_process new_scheduler register_process
second_runs = refl

parse-words_example :
    (a : CommandLineArgs) × (parse (codes " cp  a.txt b") ≡ done true a)
    × Stored a.buf a.argv (words (codes " cp  a.txt b"))
parse-words_example = parse-words (codes " cp  a.txt b") (omega arith) (omega arith)

three_words : words (codes " cp  a.txt b") ≡ codes "cp" ∷ codes "a.txt" ∷ codes "b" ∷ []
three_words = refl

parse_overflow_example :
    parse
      (codes "aaaaaaaaaaaaaaaaaaaaaaaaaaaaaaaaaaaaaaaaaaaaaaaaaaaaaaaaaaaaaaa" ++ b' ' ∷ b'b' ∷ [])
    ≡ overflow
parse_overflow_example =
    parse_overflow (b'a') (codes "aaaaaaaaaaaaaaaaaaaaaaaaaaaaaaaaaaaaaaaaaaaaaaaaaaaaaaaaaaaaaa")
      (b'b') [] (omega arith) (omega arith) (omega arith)

abbrev two_bytes : StringBuffer
two_bytes = record { buf = codes "n=" }

write_decimal64-IsDecimal_example :
    (text : Bytes) × (write_decimal64 8 18446744073709551615 two_bytes
      ≡ some (written 8 text two_bytes))
    × IsDecimal 18446744073709551615 text
write_decimal64-IsDecimal_example =
    write_decimal64-IsDecimal 8 18446744073709551615 two_bytes (omega arith) (omega arith)

-- The digits that do not fit are dropped.
first_digits :
    write_decimal64 8 18446744073709551615 two_bytes ≡ some (record { buf = codes "n=184467" })
unfolding write_decimal64
first_digits = refl

abbrev left_rect : Rect
left_rect = record { x = negsuc 2; y = pos 0; xsize = pos 10; ysize = pos 5 }

abbrev right_rect : Rect
right_rect = record { x = pos 4; y = negsuc 0; xsize = pos 10; ysize = pos 3 }

get_intersection_with-points_example :
    (i : Rect) × (a : Bool) × (b : Bool) × (get_intersection_with left_rect right_rect ≡ some i)
    × (is_point_in_rect (pos 5) (pos 1) left_rect ≡ some a)
    × (is_point_in_rect (pos 5) (pos 1) right_rect ≡ some b)
    × (is_point_in_rect (pos 5) (pos 1) i ≡ some (a && b))
get_intersection_with-points_example =
    get_intersection_with-points (pos 5) (pos 1) left_rect right_rect (omega arith) (omega arith)

intersection :
    get_intersection_with left_rect right_rect
    ≡ some (record { x = pos 4; y = pos 0; xsize = pos 3; ysize = pos 2 })
unfolding get_intersection_with max_ℤ ◌+ℤ◌ min_ℤ ◌-ℤ◌
intersection = refl

-- The sum of the right edge overflows.
overflowing :
    get_intersection_with left_rect
      (record { x = pos 2147483640; y = pos 0; xsize = pos 100; ysize = pos 1 })
    ≡ none
unfolding get_intersection_with max_ℤ ◌+ℤ◌ min_ℤ ◌-ℤ◌
overflowing = refl

abbrev garbage : BasicTrb
garbage = record { data_ = 7; option = 7; control = 7 }

abbrev raw_ring : Ring
raw_ring = record {
  entry = garbage ∷ garbage ∷ garbage ∷ garbage ∷ [];
  next_enqueue_idx = 9;
  current_cycle_state = 9;
  paddr = 9;
}

push-IsRing_example :
    IsRing 3 (push 3 (init 3 4096 raw_ring)).0
    × ((push 3 (init 3 4096 raw_ring)).1 ≡ (init 3 4096 raw_ring).current_cycle_state)
    × ((push 3 (init 3 4096 raw_ring)).0.next_enqueue_idx ≡ (
        if (init 3 4096 raw_ring).next_enqueue_idx + 1 == 3
        then 0
        else (init 3 4096 raw_ring).next_enqueue_idx + 1))
push-IsRing_example =
    push-IsRing 3 (init 3 4096 raw_ring) (init-IsRing 3 4096 raw_ring refl (omega arith)).0

-- A message of four words, the second of which is for the checksum.
abbrev message : Mem
message = store (λ _. 0) 100 (69 ∷ 0 ∷ 0 ∷ 0 ∷ 255 ∷ 255 ∷ 18 ∷ 52 ∷ [])

message-IsBytes : (a : ℕ) → message a < 256
unfolding store write
message-IsBytes a = ground arith

calc-verified_example :
    (hi : ℕ) × (lo : ℕ) × (calc 3 message 96 4 (4 + 2 * 4) ≡ some (hi ∷ lo ∷ []))
    × (calc 3 (store message (96 + 4 + 2 * 1) (hi ∷ lo ∷ [])) 96 4 (4 + 2 * 4) ≡ some (0 ∷ 0 ∷ []))
unfolding store write
calc-verified_example =
    calc-verified 3 4 1 message 96 4 message-IsBytes (omega arith) (omega arith) (omega arith) refl
      refl

checksum_of_message : calc 3 message 96 4 12 ≡ some (168 ∷ 203 ∷ [])
unfolding calc store write
checksum_of_message = refl
