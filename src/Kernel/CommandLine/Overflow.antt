-- ===== src/Kernel/CommandLine/Overflow.antt =====
-- `Parse` of src/command_line_args.h where the text does not fit.
use liumos.Prelude.{
  ℕ, ◌+◌, ◌<◌, ◌≡◌, ◌≢◌, ◌∙◌, refl, true, false, [], ◌∷◌, ◌++◌, length, leb, ◌==◌, All,
  length-append, arith,
}
use liumos.Memory.{Bytes}
use liumos.Kernel.CommandLine.{CommandLineArgs, overflow, put, start_word, parse_loop, parse}
use liumos.Kernel.CommandLine.Words.{copy_room, end_word_room, length-put, few_words}

abbrev pub IsWordByte : ℕ → Type 0
IsWordByte c = c ≢ b' '

no_space : (c : ℕ) → IsWordByte c → (c == b' ') ≡ false
no_space c ne = ground arith

-- A word that fills the buffer up to its last place, and a further word.
loop_overflow :
    (w : Bytes) (d : ℕ) (rest : Bytes) (a : CommandLineArgs)
    → All IsWordByte w
    → IsWordByte d
    → length a.buf + length w ≡ 63
    → length a.argv < 16
    → parse_loop (w ++ b' ' ∷ d ∷ rest) true a ≡ overflow
unfolding parse_loop
loop_overflow [] d rest a all other len few =
    end_word_room a (λ a'. parse_loop (d ∷ rest) false a') (omega (arith, len))
    ∙ rw
        (
          no_space d other,
          few_words (length a.argv) few,
          full (length (a.buf ++ 0 ∷ [])) (omega (arith, len, length-append {0} a.buf (0 ∷ []))),
        )
        refl
  where
    full : (n : ℕ) → n ≡ 64 → leb 64 n ≡ true
    full n h = ground arith
loop_overflow (c ∷ w) d rest a all other len few = rw (no_space c all.0) (
    copy_room c a (λ a'. parse_loop (w ++ b' ' ∷ d ∷ rest) true a') (omega (arith, len))
    ∙ loop_overflow w d rest (put c a) all.1 other (omega (arith, len, length-put c a)) few)

-- A first word of 63 bytes fills the buffer with its NUL; the first byte of a second word is then
-- written behind the buffer.
pub parse_overflow :
    (c : ℕ) (w : Bytes) (d : ℕ) (rest : Bytes)
    → All IsWordByte (c ∷ w)
    → IsWordByte d
    → length (c ∷ w) ≡ 63
    → parse ((c ∷ w) ++ b' ' ∷ d ∷ rest) ≡ overflow
unfolding parse parse_loop
parse_overflow c w d rest all other len = rw (no_space c all.0) (
    loop_overflow w d rest (put c (start_word (record { argv = []; buf = [] }))) all.1 other
      (omega (arith, len)) (omega arith))
