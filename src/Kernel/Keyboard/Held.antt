-- ===== src/Kernel/Keyboard/Held.antt =====
-- src/keyboard.cc: the states tell which of the Shift and Ctrl keys are held.
use liumos.Prelude.{
  ℕ, zero, suc, ◌+◌, ◌-◌, ◌%◌, ◌<◌, ◌≡◌, ◌≢◌, inl, inr, refl, sym, ap, ◌∙◌, Bool, true, false, not,
  ◌&&◌, ◌||◌, some, List, [], ◌∷◌, All, ltb, leb, ◌==◌, if◌then◌else◌, arith, Bool-cases, get_or,
}
use liumos.Kernel.RingBuffer.{RingBuffer, pop}
use liumos.Kernel.Keyboard.Keys.{is_break, is_with_ctrl}
use mathlib.Core.Path.{subst}
use liumos.Kernel.Keyboard.{KeyboardController, init, parse_states, parse_key_code, read_key_id}

-- Whether a key is held, after one code and after a row of codes: its own code comes when it is
-- pressed, and 128 more when it is released.
abbrev pub holds : (key : ℕ) → Bool → (code : ℕ) → Bool
holds key held code = if code == key then true else if code == key + 128 then false else held

abbrev pub held_after : (key : ℕ) → Bool → List ℕ → Bool
held_after key held [] = held
held_after key held (c ∷ codes) = held_after key (holds key held c) codes

abbrev pub bits : (left right : Bool) → ℕ
bits left right = (if left then 1 else 0) + (if right then 2 else 0)

-- A key bears the mark of a release exactly if its code has the highest bit, and the mark of Ctrl
-- exactly if that key is held.
abbrev pub is_marked : (code : ℕ) → (ctrl : Bool) → (keyid : ℕ) → Bool
is_marked code ctrl keyid =
    keyid == 0 || same (is_break keyid) (leb 128 code) && same (is_with_ctrl keyid) ctrl
  where
    same : Bool → Bool → Bool
    same true b = b
    same false b = not b

-- The states and the key after a code.
abbrev is_right : (l r c : Bool) → ℕ → Bool
is_right l r c code =
    let (shift, ctrl, keyid) = parse_states code (bits l r) (bits c false) in
    shift == bits (holds 0x2A l code) (holds 0x36 r code)
    && ctrl == bits (holds 0x1D c code) false
    && is_marked code (holds 0x1D c code) keyid

abbrev both : (Bool → Bool) → Bool
both p = p false && p true

abbrev is_right_for_all : ℕ → Bool
is_right_for_all code = both (λ l. both (λ r. both (λ c. is_right l r c code)))

abbrev below_all : ℕ → (ℕ → Bool) → Bool
below_all zero p = true
below_all (suc n) p = p n && below_all n p

all_codes : below_all 256 is_right_for_all ≡ true
unfolding parse_states is_break is_with_ctrl
all_codes = refl

and_split : (b c : Bool) → (b && c) ≡ true → (b ≡ true) × (c ≡ true)
and_split true c h = (refl, h)
and_split false c h = absurd (cc h)

below_one : (n : ℕ) (p : ℕ → Bool) (i : ℕ) → below_all n p ≡ true → i < n → p i ≡ true
below_one zero p i h lt = absurd (omega arith)
below_one (suc n) p i h lt = elim (Bool-cases (ltb i n)) [
  | inl e ↦ below_one n p i (and_split (p n) (below_all n p) h).1 (ground arith)
  | inr e ↦
      (let same : n ≡ i = ground arith in ap p (sym same) ∙ (and_split (p n) (below_all n p) h).0)
]

both_one : (p : Bool → Bool) (b : Bool) → both p ≡ true → p b ≡ true
both_one p true h = (and_split (p false) (p true) h).1
both_one p false h = (and_split (p false) (p true) h).0

-- The states tell what is held, and the key is marked accordingly.
pub record Tells (code : ℕ) (l r c : Bool) (result : ℕ × ℕ × ℕ) : Type 0 where
  pub shift : result.0 ≡ bits (holds 0x2A l code) (holds 0x36 r code)
  pub ctrl : result.1 ≡ bits (holds 0x1D c code) false
  pub marked : is_marked code (holds 0x1D c code) result.2 ≡ true

parse_states-Tells :
    (code : ℕ) (l r c : Bool)
    → code < 256
    → Tells code l r c (parse_states code (bits l r) (bits c false))
parse_states-Tells code l r c small =
    let one =
      both_one (λ c. is_right l r c code) c
        (both_one (λ r. both (λ c. is_right l r c code)) r
          (both_one (λ l. both (λ r. both (λ c. is_right l r c code))) l
            (below_one 256 is_right_for_all code all_codes small))) in
    take_apart (parse_states code (bits l r) (bits c false)) one
  where
    equal_numbers : (m n : ℕ) → (m == n) ≡ true → m ≡ n
    equal_numbers m n e = ground arith

    take_apart :
        (result : ℕ × ℕ × ℕ)
        → (result.0 == bits (holds 0x2A l code) (holds 0x36 r code)
            && result.1 == bits (holds 0x1D c code) false
            && is_marked code (holds 0x1D c code) result.2)
          ≡ true
        → Tells code l r c result
    take_apart result h =
        let (front, marked) =
          and_split
            (result.0 == bits (holds 0x2A l code) (holds 0x36 r code)
              && result.1 == bits (holds 0x1D c code) false)
            _ h in
        let (first, second) =
          and_split (result.0 == bits (holds 0x2A l code) (holds 0x36 r code)) _ front in
        record { shift = equal_numbers _ _ first; ctrl = equal_numbers _ _ second; marked = marked }

-- The controller after a row of codes, and the keys.
unfoldable pub parse_all : List ℕ → KeyboardController → KeyboardController × List ℕ
unfolding parse_key_code
parse_all [] k = (k, [])
parse_all (code ∷ codes) k =
    let (next, keyid) = parse_key_code code k in
    let (last, keyids) = parse_all codes next in (last, keyid ∷ keyids)

-- Each key is marked as the codes up to its own say.
abbrev pub AllMarked : (held : Bool) → List ℕ → List ℕ → Type 0
AllMarked held [] [] = Unit
AllMarked held (code ∷ codes) (keyid ∷ keyids) =
    (is_marked code (holds 0x1D held code) keyid ≡ true)
    × AllMarked (holds 0x1D held code) codes keyids
AllMarked held _ _ = ⊥

parse_all-AllMarked :
    (codes : List ℕ) (l r c : Bool) (k : KeyboardController)
    → All (λ code. code < 256) codes
    → k.state_shift ≡ bits l r
    → k.state_ctrl ≡ bits c false
    → ((parse_all codes k).0.state_shift ≡ bits (held_after 0x2A l codes) (held_after 0x36 r codes))
      × ((parse_all codes k).0.state_ctrl ≡ bits (held_after 0x1D c codes) false)
      × AllMarked c codes (parse_all codes k).1
unfolding parse_all parse_key_code
parse_all-AllMarked [] l r c k all es ec = (es, ec, tt)
parse_all-AllMarked (code ∷ codes) l r c k all es ec =
    let result = parse_states code k.state_shift k.state_ctrl in
    let same : result ≡ parse_states code (bits l r) (bits c false) =
      ap (λ s. parse_states code s k.state_ctrl) es ∙ ap (parse_states code (bits l r)) ec in
    let tells = subst (Tells code l r c) (sym same) (parse_states-Tells code l r c all.0) in
    let (shift, ctrl, marked) =
      parse_all-AllMarked codes (holds 0x2A l code) (holds 0x36 r code) (holds 0x1D c code)
        (record k { state_shift = result.0; state_ctrl = result.1 }) all.1 tells.shift tells.ctrl in
    (shift, ctrl, (tells.marked, marked))

-- After any row of scan codes, the state of Shift tells which of the two Shift keys are held and
-- the state of Ctrl whether the left Ctrl key is; each key on the way bears the mark of a release
-- exactly if its code is one, and that of Ctrl exactly if Ctrl is held.
pub parse_all-held :
    (elements codes : List ℕ)
    → All (λ code. code < 256) codes
    → ((parse_all codes (init elements)).0.state_shift
        ≡ bits (held_after 0x2A false codes) (held_after 0x36 false codes))
      × ((parse_all codes (init elements)).0.state_ctrl ≡ bits (held_after 0x1D false codes) false)
      × AllMarked false codes (parse_all codes (init elements)).1
parse_all-held elements codes all =
    parse_all-AllMarked codes false false false (init elements) all refl refl

-- How many codes are in the buffer.
abbrev pub waiting : RingBuffer ℕ → ℕ
waiting r = (r.writep + 16 - r.readp) % 16

read_key_id-some :
    (f : ℕ) (k : KeyboardController)
    → k.keycode_buffer.readp < 16
    → k.keycode_buffer.writep < 16
    → waiting k.keycode_buffer < f
    → (k' : KeyboardController) × (keyid : ℕ) × (read_key_id f k ≡ some (k', keyid))
unfolding read_key_id pop parse_key_code
read_key_id-some zero k r w enough = absurd (omega arith)
read_key_id-some (suc f) k r w enough =
    elim (Bool-cases (k.keycode_buffer.readp == k.keycode_buffer.writep)) [
      | inl e ↦ (k, 0, rw e refl)
      | inr e ↦
          (let code = get_or k.keycode_buffer.elements k.keycode_buffer.readp 0 in
            let result = parse_states code k.state_shift k.state_ctrl in
            elim (Bool-cases (result.2 == 0)) [
              | inl z ↦
                  (let (k', keyid, done) =
                      read_key_id-some f (after k result) (omega arith) w
                        (fewer k.keycode_buffer.readp k.keycode_buffer.writep r w enough e) in
                    (k', keyid, rw (e, z) done))
              | inr z ↦ (after k result, result.2, rw (e, z) refl)
            ])
    ]
  where
    after : KeyboardController → ℕ × ℕ × ℕ → KeyboardController
    after k result = record k {
      keycode_buffer = record (k.keycode_buffer) { readp = (k.keycode_buffer.readp + 1) % 16 };
      state_shift = result.0;
      state_ctrl = result.1;
    }

    fewer :
        (readp writep : ℕ)
        → readp < 16
        → writep < 16
        → (writep + 16 - readp) % 16 < suc f
        → (readp == writep) ≡ false
        → (writep + 16 - (readp + 1) % 16) % 16 < f
    fewer readp writep r w enough e = let ne : readp ≢ writep = ground arith in omega (arith, ne)

-- `ReadKeyID` ends within sixteen codes, as many as the buffer has places.
pub read_key_id_ends :
    (k : KeyboardController)
    → k.keycode_buffer.readp < 16
    → k.keycode_buffer.writep < 16
    → (k' : KeyboardController) × (keyid : ℕ) × (read_key_id 16 k ≡ some (k', keyid))
read_key_id_ends k r w = read_key_id-some 16 k r w (omega arith)
