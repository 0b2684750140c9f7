-- ===== src/Tests/Texts.antt =====
-- A memory with texts at the multiples of 10000, for tests.
use liumos.Prelude.{
  ℕ, suc, ◌+◌, ◌*◌, ◌/◌, ◌%◌, ◌≤◌, ◌<◌, ◌≡◌, ◌≢◌, inr, refl, ap, ◌∙◌, Bool, true, false, not, ◌&&◌,
  List, [], ◌∷◌, length, get_or, ltb, leb, ◌==◌, arith,
}
use liumos.Memory.{Mem, Ptr, Bytes, CString}
use liumos.Http.Append.{Placed}

unfoldable pub hold : List Bytes → Mem
hold texts a = get_or (get_or texts (a / 10000) []) (a % 10000) 0

-- No byte of a text is 0, and the text is not too long.
abbrev pub no_nul : Bytes → Bool
no_nul [] = true
no_nul (c ∷ cs) = not (c == 0) && no_nul cs

abbrev pub is_text : ℕ → Bytes → Bool
is_text k s = no_nul s && leb k 30 && ltb (length s) 900

and_split : (b c : Bool) → (b && c) ≡ true → (b ≡ true) × (c ≡ true)
and_split true c h = (refl, h)
and_split false c h = absurd (cc h)

entries-CString :
    (s : Bytes) (m : Mem) (p : Ptr)
    → no_nul s ≡ true
    → ((i : ℕ) → i ≤ length s → m (p + i) ≡ get_or s i 0)
    → CString m p s
entries-CString [] m p ok h = ap m (omega arith) ∙ h 0 (omega arith)
entries-CString (c ∷ cs) m p ok h =
    let (first, rest) = and_split (not (c == 0)) (no_nul cs) ok in
    (
      ap m (omega arith) ∙ h 0 (omega arith),
      not_zero c first,
      entries-CString cs m (p + 1) rest (λ i le. ap m (omega arith) ∙ h (suc i) (omega arith)),
    )
  where
    not_zero : (c : ℕ) → not (c == 0) ≡ true → c ≢ 0
    not_zero c e = ground arith

pub hold-CString :
    (texts : List Bytes) (k : ℕ)
    → is_text k (get_or texts k []) ≡ true
    → CString (hold texts) (10000 * k) (get_or texts k [])
unfolding hold
hold-CString texts k ok =
    let s = get_or texts k [] in
    let (front, short) = and_split (no_nul s && leb k 30) (ltb (length s) 900) ok in
    entries-CString s (hold texts) (10000 * k) (and_split (no_nul s) (leb k 30) front).0
      (λ i le. entry s i le short)
  where
    entry :
        (s : Bytes) (i : ℕ)
        → i ≤ length s
        → ltb (length s) 900 ≡ true
        → get_or (get_or texts ((10000 * k + i) / 10000) []) ((10000 * k + i) % 10000) 0
          ≡ get_or (get_or texts k []) i 0
    entry s i le short =
        let below : length s < 900 = ground arith in
        let place : (10000 * k + i) / 10000 ≡ k = omega arith in
        let offset : (10000 * k + i) % 10000 ≡ i = omega arith in rw (place, offset) refl

-- Outside a buffer that lies behind the texts.
pub hold-Placed :
    (texts : List Bytes) (k dest cap : ℕ)
    → is_text k (get_or texts k []) ≡ true
    → 400000 ≤ dest
    → Placed 3000 (hold texts) dest cap (10000 * k) (get_or texts k [])
hold-Placed texts k dest cap ok far =
    let s = get_or texts k [] in
    let (front, short) = and_split (no_nul s && leb k 30) (ltb (length s) 900) ok in
    record {
      held = hold-CString texts k ok;
      apart = inr (behind (length s) (and_split (no_nul s) (leb k 30) front).1 short);
      fuel = small (length s) short;
    }
  where
    behind : (n : ℕ) → leb k 30 ≡ true → ltb n 900 ≡ true → 10000 * k + n < dest
    behind n low short = ground arith

    small : (n : ℕ) → ltb n 900 ≡ true → n < 3000
    small n short = ground arith
