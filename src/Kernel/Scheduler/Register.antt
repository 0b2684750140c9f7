-- ===== src/Kernel/Scheduler/Register.antt =====
-- src/scheduler.cc: `RegisterProcess` keeps the table in order.
use liumos.Prelude.{
  ℕ, zero, suc, ◌+◌, ◌≤◌, ◌<◌, ◌≡◌, ◌≢◌, ◌⊎◌, inl, inr, refl, sym, ap, ◌∙◌, true, Option, none,
  some, List, [], ◌∷◌, ◌++◌, length, set, ltb, ltb→lt, ◌==◌, arith, get_elem?, Bool-cases,
  length-append,
}
use mathlib.Core.Path.{subst}
use liumos.Kernel.Scheduler.{
  Status, not_scheduled, sleeping, stopped, Process, Processes, update, Scheduler, is_status,
  find_stopped, register_at, registered, register_process,
}
use liumos.Kernel.Scheduler.Statuses.{
  IsActive, IsIdle, At, IsSchedule, update_self, update_other, get_elem?-append,
  get_elem?-append_old, get_elem?-set, get_elem?-set_other,
}

is_stopped : (s : Status) → is_status s stopped ≡ true → s ≡ stopped
is_stopped stopped e = refl
is_stopped s e = ground arith

pub is_not_scheduled : (s : Status) → is_status s not_scheduled ≡ true → s ≡ not_scheduled
is_not_scheduled not_scheduled e = refl
is_not_scheduled s e = ground arith

IsActive-not-IsIdle : (s : Status) → IsActive s → IsIdle s → ⊥
IsActive-not-IsIdle s (inl e) (inl k) = absurd (cc (sym e ∙ k))
IsActive-not-IsIdle s (inl e) (inr k) = absurd (cc (sym e ∙ k))
IsActive-not-IsIdle s (inr e) (inl k) = absurd (cc (sym e ∙ k))
IsActive-not-IsIdle s (inr e) (inr k) = absurd (cc (sym e ∙ k))

not_scheduled-IsActive : (s : Status) → s ≡ not_scheduled → IsActive s → ⊥
not_scheduled-IsActive s e (inl k) = absurd (cc (sym e ∙ k))
not_scheduled-IsActive s e (inr k) = absurd (cc (sym e ∙ k))

not_scheduled-IsIdle : (s : Status) → s ≡ not_scheduled → IsIdle s → ⊥
not_scheduled-IsIdle s e (inl k) = absurd (cc (sym e ∙ k))
not_scheduled-IsIdle s e (inr k) = absurd (cc (sym e ∙ k))

-- A process that neither runs nor waits is not in the table.
pub outside_table :
    (s : Scheduler) (p : ℕ)
    → IsSchedule s
    → (IsActive (s.processes p).status → ⊥)
    → (IsIdle (s.processes p).status → ⊥)
    → (p ≢ s.current) × ((i q : ℕ) → At s i q → q ≢ p)
outside_table s p h no_active no_idle = (
  not_current,
  λ i q a same. elim (Bool-cases (q == s.current)) [
    | inl c ↦ not_current (sym same ∙ ground arith)
    | inr c ↦
        no_idle (subst (λ r. IsIdle (s.processes r).status) same (h.others i q a (ground arith)))
  ],
)
  where
    not_current : p ≢ s.current
    not_current same = no_active (subst (λ r. IsActive (s.processes r).status) (sym same) h.active)

-- A new process at one entry, and the others as they were.
register_at-IsSchedule :
    (p i : ℕ) (table : List ℕ) (s : Scheduler)
    → IsSchedule s
    → (s.processes p).status ≡ not_scheduled
    → length table ≤ 256
    → get_elem? table (s.processes s.current).scheduler_index ≡ some s.current
    → ((j q : ℕ) → get_elem? table j ≡ some q → ((j ≡ i) × (p ≡ q)) ⊎ At s j q)
    → IsSchedule (register_at p i table s)
register_at-IsSchedule p i table s h e size own old = record {
  size = size;
  own = rw (update_other s.processes p new s.current (λ q. apart.0 (sym q))) own;
  active = rw (update_other s.processes p new s.current (λ q. apart.0 (sym q))) h.active;
  index = λ j q a. index j q (old j q a);
  others = λ j q a ne. others j q (old j q a) ne;
}
  where
    new : Process → Process
    new q = record q { status = sleeping; scheduler_index = i }

    apart : (p ≢ s.current) × ((i q : ℕ) → At s i q → q ≢ p)
    apart = outside_table s p h (not_scheduled-IsActive _ e) (not_scheduled-IsIdle _ e)

    index :
        (j q : ℕ)
        → ((j ≡ i) × (p ≡ q)) ⊎ At s j q
        → (update s.processes p new q).scheduler_index ≡ j
    index j q (inl (ji, pq)) =
        subst (λ r. (update s.processes p new r).scheduler_index ≡ j) pq
          (ap (λ r. r.scheduler_index) (update_self s.processes p new) ∙ sym ji)
    index j q (inr a) =
        ap (λ r. r.scheduler_index) (update_other s.processes p new q (apart.1 j q a))
        ∙ h.index j q a

    others :
        (j q : ℕ)
        → ((j ≡ i) × (p ≡ q)) ⊎ At s j q
        → q ≢ s.current
        → IsIdle (update s.processes p new q).status
    others j q (inl (ji, pq)) ne = inl (
        subst (λ r. (update s.processes p new r).status ≡ sleeping) pq
          (ap (λ r. r.status) (update_self s.processes p new)))
    others j q (inr a) ne =
        rw (update_other s.processes p new q (apart.1 j q a)) (h.others j q a ne)

find_stopped_entry :
    (ps : Processes) (k : ℕ) (xs : List ℕ) (i : ℕ)
    → find_stopped ps k xs ≡ some i
    → (j : ℕ) × (q : ℕ) × (i ≡ k + j) × (get_elem? xs j ≡ some q) × ((ps q).status ≡ stopped)
find_stopped_entry ps k [] i e = absurd (cc e)
find_stopped_entry ps k (p ∷ xs) i e = elim (Bool-cases (is_status (ps p).status stopped)) [
  | inl c ↦ (0, p, ground arith, refl, is_stopped _ c)
  | inr c ↦
      (let (j, q, ij, at, st) = find_stopped_entry ps (k + 1) xs i (ground arith) in
        (suc j, q, omega (arith, ij), at, st))
]

length-set : (xs : List ℕ) (k x : ℕ) → length (set xs k x) ≡ length xs
length-set [] k x = refl
length-set (y ∷ xs) zero x = refl
length-set (y ∷ xs) (suc k) x = ap suc (length-set xs k x)

get_elem?-set_self :
    (xs : List ℕ) (k x q : ℕ) → get_elem? xs k ≡ some q → get_elem? (set xs k x) k ≡ some x
get_elem?-set_self [] k x q e = absurd (cc e)
get_elem?-set_self (y ∷ xs) zero x q e = refl
get_elem?-set_self (y ∷ xs) (suc k) x q e = get_elem?-set_self xs k x q e

registered-IsSchedule :
    (p : ℕ) (s : Scheduler) (o : Option ℕ)
    → find_stopped s.processes 0 s.process ≡ o
    → length s.process < 256
    → (s.processes p).status ≡ not_scheduled
    → IsSchedule s
    → IsSchedule (registered p o s)
unfolding registered
registered-IsSchedule p s none e room st h =
    register_at-IsSchedule p (length s.process) (s.process ++ p ∷ []) s h st
      (omega (arith, length-append {0} s.process (p ∷ [])))
      (get_elem?-append_old s.process p _ _ h.own)
      (λ j q a. elim (get_elem?-append s.process p j q a) [ inl k ↦ inr k | inr k ↦ inl k ])
registered-IsSchedule p s (some i) e room st h =
    let (j, q, ij, at, stop) = find_stopped_entry s.processes 0 s.process i e in
    let same : i ≡ j = omega (arith, ij) in
    register_at-IsSchedule p i (set s.process i p) s h st (omega (arith, length-set s.process i p))
      (get_elem?-set_other s.process i p _ _ (λ c. current_runs j q at stop (c ∙ same)) h.own)
      (λ j' q' a. elim (get_elem?-set s.process i p j' q' a) [ inl k ↦ inr k.1 | inr k ↦ inl k ])
  where
    current_runs :
        (j q : ℕ)
        → At s j q
        → (s.processes q).status ≡ stopped
        → (s.processes s.current).scheduler_index ≡ j
        → ⊥
    current_runs j q at stop c =
        let two : some q ≡ some s.current = sym at ∙ subst (λ r. At s r s.current) c h.own in
        let one : q ≡ s.current = cc two in
        IsActive-not-IsIdle _ h.active
          (inr (subst (λ r. (s.processes r).status ≡ stopped) one stop))

pub register_process-IsSchedule :
    (p : ℕ) (s s' : Scheduler) → IsSchedule s → register_process p s ≡ some s' → IsSchedule s'
unfolding register_process
register_process-IsSchedule p s s' h e = elim (Bool-cases (ltb (length s.process) 256)) [
  | inl room ↦ elim (Bool-cases (is_status (s.processes p).status not_scheduled)) [
    | inl st ↦
        (let result : registered p (find_stopped s.processes 0 s.process) s ≡ s' = ground arith in
          subst IsSchedule result (
            registered-IsSchedule p s (find_stopped s.processes 0 s.process) refl (ltb→lt _ _ room)
              (is_not_scheduled _ st) h))
    | inr st ↦ absurd (ground arith)
  ]
  | inr room ↦ absurd (ground arith)
]
