-- ===== src/Kernel/CommandLine/Words.antt =====
-- `Parse` of src/command_line_args.h against a splitter of texts into words.
use liumos.Prelude.{
  ℕ, ◌+◌, ◌≤◌, ◌<◌, ◌≡◌, refl, sym, ap, ◌∙◌, true, false, List, [], ◌∷◌, ◌++◌, length, leb, ◌==◌,
  if◌then◌else◌, length-append, append_assoc, append-nil, arith, Bool-cases, inl, inr,
}
use mathlib.Core.Path.{subst}
use liumos.Memory.{Bytes}
use liumos.Kernel.CommandLine.{
  CommandLineArgs, Parsed, done, put, start_word, copy, end_word, parse_loop, parse,
}

-- A word before others; a word without bytes is none.
abbrev pub push_word : Bytes → List Bytes → List Bytes
push_word [] ws = ws
push_word (c ∷ cs) ws = (c ∷ cs) ∷ ws

-- The word with which a text begins, and the words behind it.
abbrev pub parts : Bytes → Bytes × List Bytes
parts [] = ([], [])
parts (c ∷ cs) =
    if c == b' '
    then ([], push_word (parts cs).0 (parts cs).1)
    else (c ∷ (parts cs).0, (parts cs).1)

abbrev pub words : Bytes → List Bytes
words text = push_word (parts text).0 (parts text).1

-- The bytes of words with a NUL behind each.
abbrev pub size : List Bytes → ℕ
size [] = 0
size (w ∷ ws) = length w + 1 + size ws

abbrev pub finish : Bytes → CommandLineArgs → CommandLineArgs
finish w a = record a { buf = a.buf ++ (w ++ 0 ∷ []) }

-- The words stored behind what is there.
abbrev pub store_words : List Bytes → CommandLineArgs → CommandLineArgs
store_words [] a = a
store_words (w ∷ ws) a = store_words ws (finish w (start_word a))

pub copy_room :
    (c : ℕ) (a : CommandLineArgs) (rest : CommandLineArgs → Parsed)
    → length a.buf + 1 < 64
    → copy c a rest ≡ rest (put c a)
copy_room c a rest lt = rw (below (length a.buf) (omega arith), below (length a.buf + 1) lt) refl
  where
    below : (n : ℕ) → n < 64 → leb 64 n ≡ false
    below n h = ground arith

pub end_word_room :
    (a : CommandLineArgs) (rest : CommandLineArgs → Parsed)
    → length a.buf < 64
    → end_word a rest ≡ rest (put 0 a)
end_word_room a rest lt = rw (below (length a.buf) lt) refl
  where
    below : (n : ℕ) → n < 64 → leb 64 n ≡ false
    below n h = ground arith

pub length-put : (c : ℕ) (a : CommandLineArgs) → length (put c a).buf ≡ length a.buf + 1
length-put c a = length-append a.buf (c ∷ []) ∙ omega arith

finish-put : (c : ℕ) (w : Bytes) (a : CommandLineArgs) → finish w (put c a) ≡ finish (c ∷ w) a
finish-put c w a = ap (λ b. record a { buf = b }) (append_assoc a.buf (c ∷ []) (w ++ 0 ∷ []))

pub few_words : (n : ℕ) → n < 16 → leb 16 n ≡ false
few_words n h = ground arith

-- Both loops, on a rest of the text for which there is room.
loop-store_words :
    (cs : Bytes)
    → ((a : CommandLineArgs)
        → length a.argv + length (words cs) ≤ 16
        → length a.buf + size (words cs) ≤ 64
        → parse_loop cs false a ≡ done true (store_words (words cs) a))
      × ((a : CommandLineArgs)
          → length a.argv + length (parts cs).1 ≤ 16
          → length a.buf + length (parts cs).0 + 1 + size (parts cs).1 ≤ 64
          → parse_loop cs true a ≡ done true (store_words (parts cs).1 (finish (parts cs).0 a)))
unfolding parse_loop
loop-store_words [] = ((λ a h k. refl), (λ a h k. end_word_room a (done true) (omega (arith, k))))
loop-store_words (c ∷ cs) = elim (Bool-cases (c == b' ')) [
  | inl e ↦ (
    (λ a. rw e ((loop-store_words cs).0 a)),
    (λ a. rw e (λ h k.
        end_word_room a (λ a'. parse_loop cs false a') (omega (arith, k))
        ∙ (loop-store_words cs).0 (put 0 a) h (omega (arith, k, length-put 0 a)))),
  )
  | inr e ↦ (
    (λ a. rw e (λ h k.
        let few : length a.argv < 16 = omega (arith, h) in
        rw (few_words (length a.argv) few) (
          copy_room c (start_word a) (λ a'. parse_loop cs true a') (omega (arith, k))
          ∙ (loop-store_words cs).1 (put c (start_word a))
              (omega (arith, h, length-append {0} a.argv (length a.buf ∷ [])))
              (omega (arith, k, length-put c (start_word a)))
          ∙ ap (λ x. done true (store_words (parts cs).1 x))
              (finish-put c (parts cs).0 (start_word a))))),
    (λ a. rw e (λ h k.
        copy_room c a (λ a'. parse_loop cs true a') (omega (arith, k))
        ∙ (loop-store_words cs).1 (put c a) h (omega (arith, k, length-put c a))
        ∙ ap (λ x. done true (store_words (parts cs).1 x)) (finish-put c (parts cs).0 a))),
  )
]

-- The word stands at offset `o`, with its NUL.
abbrev pub StoredAt : Bytes → ℕ → Bytes → Type 0
StoredAt buf o w =
    (before : Bytes) × (after : Bytes) × (length before ≡ o) × (buf ≡ before ++ (w ++ 0 ∷ after))

-- Each entry of `argv` is the offset of one word.
abbrev pub Stored : Bytes → List ℕ → List Bytes → Type 0
Stored buf [] [] = Unit
Stored buf (o ∷ os) (w ∷ ws) = StoredAt buf o w × Stored buf os ws
Stored buf _ _ = ⊥

Stored-append :
    (buf more : Bytes) (os : List ℕ) (ws : List Bytes)
    → Stored buf os ws
    → Stored (buf ++ more) os ws
Stored-append buf more [] [] h = tt
Stored-append buf more (o ∷ os) (w ∷ ws) h =
    let (before, after, len, e) = h.0 in
    (
      (
        before,
        after ++ more,
        len,
        rw e (
            append_assoc before (w ++ 0 ∷ after) more
            ∙ ap (λ t. before ++ t) (append_assoc w (0 ∷ after) more)),
      ),
      Stored-append buf more os ws h.1,
    )
Stored-append buf more [] (w ∷ ws) h = h
Stored-append buf more (o ∷ os) [] h = h

Stored-snoc :
    (buf : Bytes) (os : List ℕ) (ws : List Bytes) (o : ℕ) (w : Bytes)
    → Stored buf os ws
    → StoredAt buf o w
    → Stored buf (os ++ o ∷ []) (ws ++ w ∷ [])
Stored-snoc buf [] [] o w h k = (k, tt)
Stored-snoc buf (p ∷ os) (v ∷ ws) o w h k = (h.0, Stored-snoc buf os ws o w h.1 k)
Stored-snoc buf [] (v ∷ ws) o w h k = absurd h
Stored-snoc buf (p ∷ os) [] o w h k = absurd h

store_words-Stored :
    (ws old : List Bytes) (a : CommandLineArgs)
    → Stored a.buf a.argv old
    → Stored (store_words ws a).buf (store_words ws a).argv (old ++ ws)
store_words-Stored [] old a h = subst (Stored a.buf a.argv) (sym (append-nil old)) h
store_words-Stored (w ∷ ws) old a h =
    subst
      (Stored (store_words ws (finish w (start_word a))).buf
        (store_words ws (finish w (start_word a))).argv)
      (append_assoc old (w ∷ []) ws)
      (store_words-Stored ws (old ++ w ∷ []) (finish w (start_word a)) (
        Stored-snoc _ a.argv old (length a.buf) w (Stored-append a.buf (w ++ 0 ∷ []) a.argv old h)
          (a.buf, [], refl, refl)))

-- If a text has at most 16 words, which fit the buffer with a NUL behind each, then `Parse` returns
-- true and leaves an argument for each word, the offset at which the word stands with its NUL.
pub parse-words :
    (text : Bytes)
    → length (words text) ≤ 16
    → size (words text) ≤ 64
    → (a : CommandLineArgs) × (parse text ≡ done true a) × Stored a.buf a.argv (words text)
unfolding parse
parse-words text few fits =
    let start : CommandLineArgs = record { argv = []; buf = [] } in
    (
      store_words (words text) start,
      (loop-store_words text).0 start (omega (arith, few)) (omega (arith, fits)),
      store_words-Stored (words text) [] start tt,
    )
