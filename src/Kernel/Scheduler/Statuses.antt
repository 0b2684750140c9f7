-- ===== src/Kernel/Scheduler/Statuses.antt =====
-- src/scheduler.cc: the statuses of the processes in the table.
use liumos.Prelude.{
  ℕ, zero, suc, ◌≤◌, ◌≡◌, ◌≢◌, ◌⊎◌, inl, inr, refl, ap, ◌∙◌, Option, none, some, List, [], ◌∷◌,
  ◌++◌, length, set, ◌==◌, arith, get_elem?, Bool-cases,
}
use mathlib.Core.Path.{subst}
use liumos.Kernel.Scheduler.{
  Status, sleeping, running, stopping, stopped, Process, Processes, update, Scheduler, set_status,
  killed, find_pid, suspended, kill_found, kill_current_process, kill,
}

-- The process runs, also if it is to stop.
abbrev pub IsActive : Status → Type 0
IsActive s = (s ≡ running) ⊎ (s ≡ stopping)

-- It waits for its turn or has ended.
abbrev pub IsIdle : Status → Type 0
IsIdle s = (s ≡ sleeping) ⊎ (s ≡ stopped)

-- Entry `i` of the table is the process `p`.
abbrev pub At : Scheduler → ℕ → ℕ → Type 0
At s i p = get_elem? s.process i ≡ some p

-- The current process is the only one that runs, it is in the table, and each process in the
-- table knows its entry.
pub record IsSchedule (s : Scheduler) : Type 0 where
  pub size : length s.process ≤ 256
  pub own : At s (s.processes s.current).scheduler_index s.current
  pub active : IsActive (s.processes s.current).status
  pub index : (i p : ℕ) → At s i p → (s.processes p).scheduler_index ≡ i
  pub others : (i p : ℕ) → At s i p → p ≢ s.current → IsIdle (s.processes p).status

killed-IsActive : (s : Status) → IsActive s → IsActive (killed s)
killed-IsActive s (inl e) = inr (ap killed e)
killed-IsActive s (inr e) = inr (ap killed e)

killed-IsIdle : (s : Status) → IsIdle s → IsIdle (killed s)
killed-IsIdle s (inl e) = inr (ap killed e)
killed-IsIdle s (inr e) = inr (ap killed e)

pub suspended-IsIdle : (s : Status) → IsActive s → IsIdle (suspended s)
suspended-IsIdle s (inl e) = inl (ap suspended e)
suspended-IsIdle s (inr e) = inr (ap suspended e)

pub update_self : (ps : Processes) (p : ℕ) (f : Process → Process) → update ps p f p ≡ f (ps p)
update_self ps p f = ground arith

pub update_other :
    (ps : Processes) (p : ℕ) (f : Process → Process) (q : ℕ) → q ≢ p → update ps p f q ≡ ps q
update_other ps p f q ne = ground arith

-- A change that keeps the entry of a process keeps that of all.
pub update_index :
    (ps : Processes) (p : ℕ) (f : Process → Process) (q : ℕ)
    → (f (ps p)).scheduler_index ≡ (ps p).scheduler_index
    → (update ps p f q).scheduler_index ≡ (ps q).scheduler_index
update_index ps p f q e = elim (Bool-cases (q == p)) [
  | inl same ↦ (let pq : q ≡ p = ground arith in rw (pq, update_self ps p f) e)
  | inr other ↦ ap (λ r. r.scheduler_index) (update_other ps p f q (ground arith))
]

-- Only the status of `c` changes: it stays a schedule if that keeps its kind.
pub status-IsSchedule :
    (s : Scheduler) (c : ℕ) (new : Status → Status)
    → ((t : Status) → IsActive t → IsActive (new t))
    → ((t : Status) → IsIdle t → IsIdle (new t))
    → IsSchedule s
    → IsSchedule (record s { processes = update s.processes c (λ q. set_status (new q.status) q) })
status-IsSchedule s c new act idl h = record {
  size = h.size;
  own = rw (update_index s.processes c (λ q. set_status (new q.status) q) s.current refl) h.own;
  active = kept IsActive act s.current h.active;
  index =
      λ i p a. update_index s.processes c (λ q. set_status (new q.status) q) p refl ∙ h.index i p a;
  others = λ i p a ne. kept IsIdle idl p (h.others i p a ne);
}
  where
    kept :
        (P : Status → Type 0)
        → ((t : Status) → P t → P (new t))
        → (p : ℕ) → P (s.processes p).status
        → P (update s.processes c (λ q. set_status (new q.status) q) p).status
    kept P k p hp = elim (Bool-cases (p == c)) [
      | inl e ↦
          (let same : p ≡ c = ground arith in
            rw (same, update_self s.processes c (λ q. set_status (new q.status) q))
              (k _ (subst (λ r. P (s.processes r).status) same hp)))
      | inr e ↦
          rw (update_other s.processes c (λ q. set_status (new q.status) q) p (ground arith)) hp
    ]

pub kill_current-IsSchedule : (s : Scheduler) → IsSchedule s → IsSchedule (kill_current_process s)
unfolding kill_current_process
kill_current-IsSchedule s h = status-IsSchedule s s.current killed killed-IsActive killed-IsIdle h

pub kill-IsSchedule : (pid : ℕ) (s : Scheduler) → IsSchedule s → IsSchedule (kill pid s)
unfolding kill
kill-IsSchedule pid s h = by_found (find_pid s.processes pid s.process)
  where
    by_found : (o : Option ℕ) → IsSchedule (kill_found o s)
    by_found none = h
    by_found (some p) = status-IsSchedule s p killed killed-IsActive killed-IsIdle h

-- The table.
pub get_elem?-append :
    (xs : List ℕ) (x i p : ℕ)
    → get_elem? (xs ++ x ∷ []) i ≡ some p
    → (get_elem? xs i ≡ some p) ⊎ ((i ≡ length xs) × (x ≡ p))
get_elem?-append [] x zero p e = inr (refl, (cc e))
get_elem?-append [] x (suc i) p e = absurd (cc e)
get_elem?-append (y ∷ xs) x zero p e = inl e
get_elem?-append (y ∷ xs) x (suc i) p e = elim (get_elem?-append xs x i p e) [
  | inl k ↦ inl k
  | inr (k, k') ↦ inr (ap suc k, k')
]

pub get_elem?-append_old :
    (xs : List ℕ) (x i p : ℕ) → get_elem? xs i ≡ some p → get_elem? (xs ++ x ∷ []) i ≡ some p
get_elem?-append_old [] x i p e = absurd (cc e)
get_elem?-append_old (y ∷ xs) x zero p e = e
get_elem?-append_old (y ∷ xs) x (suc i) p e = get_elem?-append_old xs x i p e

pub get_elem?-append_new : (xs : List ℕ) (x : ℕ) → get_elem? (xs ++ x ∷ []) (length xs) ≡ some x
get_elem?-append_new [] x = refl
get_elem?-append_new (y ∷ xs) x = get_elem?-append_new xs x

pub get_elem?-set :
    (xs : List ℕ) (k x i p : ℕ)
    → get_elem? (set xs k x) i ≡ some p
    → (i ≢ k × (get_elem? xs i ≡ some p)) ⊎ ((i ≡ k) × (x ≡ p))
get_elem?-set [] k x i p e = absurd (cc e)
get_elem?-set (y ∷ xs) zero x zero p e = inr (refl, (cc e))
get_elem?-set (y ∷ xs) zero x (suc i) p e = inl ((λ q. absurd (omega (arith, q))), e)
get_elem?-set (y ∷ xs) (suc k) x zero p e = inl ((λ q. absurd (omega (arith, q))), e)
get_elem?-set (y ∷ xs) (suc k) x (suc i) p e = elim (get_elem?-set xs k x i p e) [
  | inl (ne, k') ↦ inl ((λ q. ne (omega (arith, q))), k')
  | inr (q, k') ↦ inr (ap suc q, k')
]

pub get_elem?-set_other :
    (xs : List ℕ) (k x i p : ℕ)
    → i ≢ k
    → get_elem? xs i ≡ some p
    → get_elem? (set xs k x) i ≡ some p
get_elem?-set_other [] k x i p ne e = e
get_elem?-set_other (y ∷ xs) zero x zero p ne e = absurd (ne refl)
get_elem?-set_other (y ∷ xs) zero x (suc i) p ne e = e
get_elem?-set_other (y ∷ xs) (suc k) x zero p ne e = e
get_elem?-set_other (y ∷ xs) (suc k) x (suc i) p ne e =
    get_elem?-set_other xs k x i p (λ q. ne (ap suc q)) e
