-- ===== src/Kernel/CommandLine.antt =====
-- src/command_line_args.h: a command line, split at spaces into a buffer of 64 bytes. `argv` holds
-- offsets in the buffer, and its length is `argc_`; `buf` is the part of the buffer that has been
-- written, and its length is `buf_used`. The text `s` is given without its NUL.
pub mod Words
pub mod Overflow
use liumos.Prelude.{
  ℕ, ◌+◌, Bool, true, false, Option, none, some, List, [], ◌∷◌, ◌++◌, length, ltb, leb, ◌==◌,
  if◌then◌else◌, get_elem?,
}
use liumos.Memory.{Bytes}

pub record CommandLineArgs : Type 0 where
  pub argv : List ℕ
  pub buf : Bytes

-- `done` with what `Parse` returns; `overflow` is a write behind the buffer.
pub data Parsed : Type 0 where
  done : Bool → CommandLineArgs → Parsed
  overflow : Parsed

-- `index` is not negative.
abbrev pub get_arg : CommandLineArgs → (index : ℕ) → Option ℕ
get_arg a index = if leb (length a.argv) index then none else get_elem? a.argv index

abbrev pub put : ℕ → CommandLineArgs → CommandLineArgs
put c a = record a { buf = a.buf ++ c ∷ [] }

abbrev pub start_word : CommandLineArgs → CommandLineArgs
start_word a = record a { argv = a.argv ++ length a.buf ∷ [] }

-- A byte of a word, and the test behind it.
abbrev pub copy : ℕ → CommandLineArgs → (CommandLineArgs → Parsed) → Parsed
copy c a rest =
    if leb 64 (length a.buf)
    then overflow
    else if leb 64 (length a.buf + 1)
    then done false (put c a)
    else rest (put c a)

abbrev pub end_word : CommandLineArgs → (CommandLineArgs → Parsed) → Parsed
end_word a rest = if leb 64 (length a.buf) then overflow else rest (put 0 a)

-- The loops of `Parse`: the flag tells whether a word is being copied.
pub parse_loop : Bytes → (in_word : Bool) → CommandLineArgs → Parsed
parse_loop [] false a = done true a
parse_loop [] true a = end_word a (done true)
parse_loop (c ∷ cs) false a =
    let skipped = parse_loop cs false a in
    let word = copy c (start_word a) (λ a'. parse_loop cs true a') in
    if c == b' ' then skipped else if leb 16 (length a.argv) then done false a else word
parse_loop (c ∷ cs) true a =
    let ended = end_word a (λ a'. parse_loop cs false a') in
    let copied = copy c a (λ a'. parse_loop cs true a') in if c == b' ' then ended else copied

unfoldable pub parse : Bytes → Parsed
unfolding parse_loop
parse s = parse_loop s false (record { argv = []; buf = [] })
