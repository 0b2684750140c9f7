-- ===== src/Kernel/Scheduler/Switch.antt =====
-- src/scheduler.cc: `SwitchProcess` chooses the next process that sleeps and keeps the table in order.
use liumos.Prelude.{
  ℕ, zero, suc, ◌+◌, ◌-◌, ◌%◌, ◌≤◌, ◌<◌, ◌≡◌, ◌≢◌, ◌⊎◌, inl, inr, refl, sym, ap, ◌∙◌, true, false,
  Option, none, some, List, [], ◌∷◌, length, get_or, ltb, ◌==◌, arith, get_elem?, Bool-cases,
}
use mathlib.Core.Path.{subst}
use native.Mathlib.Nat.{mod-lt}
use liumos.Kernel.Scheduler.{
  Status, sleeping, running, Process, update, Scheduler, is_status, set_status, next_sleeping,
  suspended, switched, switch_process,
}
use liumos.Kernel.Scheduler.Statuses.{
  IsIdle, At, IsSchedule, update_self, update_other, update_index, suspended-IsIdle,
}

is_sleeping : (s : Status) → is_status s sleeping ≡ true → s ≡ sleeping
is_sleeping sleeping e = refl
is_sleeping s e = ground arith

get_or-get_elem? : (xs : List ℕ) (i : ℕ) → i < length xs → get_elem? xs i ≡ some (get_or xs i 0)
get_or-get_elem? [] i lt = absurd (omega arith)
get_or-get_elem? (x ∷ xs) zero lt = refl
get_or-get_elem? (x ∷ xs) (suc i) lt = get_or-get_elem? xs i (omega arith)

-- The process `j` entries behind `base`, round the table.
abbrev pub entry : Scheduler → (base j : ℕ) → ℕ
entry s base j = get_or s.process ((base + j) % length s.process) 0

-- What `SwitchProcess` finds from entry `i` on: the first that sleeps, or that none does.
abbrev pub IsNext : Scheduler → (base i rounds : ℕ) → Option ℕ → Type 0
IsNext s base i rounds (some p) =
    (j : ℕ) × (i ≤ j)
    × (j < i + rounds)
    × (p ≡ entry s base j)
    × ((s.processes p).status ≡ sleeping)
    × ((k : ℕ) → i ≤ k → k < j → (s.processes (entry s base k)).status ≢ sleeping)
IsNext s base i rounds none =
    (k : ℕ) → i ≤ k → k < i + rounds → (s.processes (entry s base k)).status ≢ sleeping

not_sleeping : (s : Status) → is_status s sleeping ≡ false → s ≢ sleeping
not_sleeping s e q = absurd (cc (sym e ∙ ap (λ t. is_status t sleeping) q))

next_sleeping-IsNext :
    (rounds i base : ℕ) (s : Scheduler) → IsNext s base i rounds (next_sleeping rounds i base s)
next_sleeping-IsNext zero i base s = λ k lo hi. absurd (omega arith)
next_sleeping-IsNext (suc rounds) i base s =
    elim (Bool-cases (is_status (s.processes (entry s base i)).status sleeping)) [
      | inl e ↦
          rw e (i, omega arith, omega arith, refl, is_sleeping _ e, λ k lo hi. absurd (omega arith))
      | inr e ↦ rw e (
          later (next_sleeping rounds (i + 1) base s) (next_sleeping-IsNext rounds (i + 1) base s)
            (not_sleeping _ e))
    ]
  where
    here_or_later : (k : ℕ) → i ≤ k → (i ≡ k) ⊎ (i + 1 ≤ k)
    here_or_later k lo = elim (Bool-cases (ltb i k)) [
      | inl h ↦ inr (ground arith)
      | inr h ↦ inl (ground arith)
    ]

    later :
        (o : Option ℕ)
        → IsNext s base (i + 1) rounds o
        → (s.processes (entry s base i)).status ≢ sleeping
        → IsNext s base i (suc rounds) o
    later none n first = λ k lo hi. elim (here_or_later k lo) [
      | inl same ↦ subst (λ r. (s.processes (entry s base r)).status ≢ sleeping) same first
      | inr more ↦ n k more (omega arith)
    ]
    later (some p) (j, lo, hi, pe, st, before) first = (
      j,
      omega arith,
      omega arith,
      pe,
      st,
      λ k lo' hi'. elim (here_or_later k lo') [
        | inl same ↦ subst (λ r. (s.processes (entry s base r)).status ≢ sleeping) same first
        | inr more ↦ before k more hi'
      ],
    )

-- `SwitchProcess` returns the first process behind the current one, round the table, that sleeps,
-- and the null pointer exactly if no other process of the table does.
pub switch_process-IsNext :
    (s : Scheduler)
    → IsNext s (s.processes s.current).scheduler_index 1 (length s.process - 1) (switch_process s).1
unfolding switch_process
switch_process-IsNext s =
    next_sleeping-IsNext (length s.process - 1) 1 (s.processes s.current).scheduler_index s

switched-IsSchedule :
    (s : Scheduler) (base i rounds : ℕ) (o : Option ℕ)
    → 0 < length s.process
    → IsNext s base i rounds o
    → IsSchedule s
    → IsSchedule (switched o s)
unfolding switched
switched-IsSchedule s base i rounds none pos n h = h
switched-IsSchedule s base i rounds (some p) pos (j, lo, hi, pe, st, before) h = record {
  size = h.size;
  own = rw (index_kept p, h.index place p at) at;
  active = inl (ap (λ r. r.status) (update_self (update s.processes s.current stop) p run));
  index = λ k q a. index_kept q ∙ h.index k q a;
  others = λ k q a ne. others k q a ne;
}
  where
    stop : Process → Process
    stop q = set_status (suspended q.status) q

    run : Process → Process
    run q = set_status running q

    place : ℕ
    place = (base + j) % length s.process

    at : At s place p
    at = get_or-get_elem? s.process place (mod-lt (base + j) pos) ∙ ap some (sym pe)

    index_kept :
        (q : ℕ)
        → (update (update s.processes s.current stop) p run q).scheduler_index
          ≡ (s.processes q).scheduler_index
    index_kept q =
        update_index (update s.processes s.current stop) p run q refl
        ∙ update_index s.processes s.current stop q refl

    others :
        (k q : ℕ)
        → At s k q
        → q ≢ p
        → IsIdle (update (update s.processes s.current stop) p run q).status
    others k q a ne =
        rw (update_other (update s.processes s.current stop) p run q ne)
          (elim (Bool-cases (q == s.current)) [
            | inl c ↦
                (let same : q ≡ s.current = ground arith in
                  rw (same, update_self s.processes s.current stop) (suspended-IsIdle _ h.active))
            | inr c ↦
                (let other : q ≢ s.current = ground arith in
                  rw (update_other s.processes s.current stop q other) (h.others k q a other))
          ])

pub switch_process-IsSchedule : (s : Scheduler) → IsSchedule s → IsSchedule (switch_process s).0
unfolding switch_process
switch_process-IsSchedule s h =
    switched-IsSchedule s (s.processes s.current).scheduler_index 1 (length s.process - 1) _
      (some_entry s.process _ _ h.own) (switch_process-IsNext s) h
  where
    some_entry : (xs : List ℕ) (i p : ℕ) → get_elem? xs i ≡ some p → 0 < length xs
    some_entry [] i p e = absurd (cc e)
    some_entry (x ∷ xs) i p e = omega arith
