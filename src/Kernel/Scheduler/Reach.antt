-- ===== src/Kernel/Scheduler/Reach.antt =====
-- src/scheduler.cc: every state of the scheduler that its operations lead to.
use liumos.Prelude.{
  ℕ, zero, suc, ◌≡◌, ◌≢◌, refl, sym, ap, ◌∙◌, inl, inr, true, false, some, [], ◌∷◌, get_elem?,
  arith, Bool-cases,
}
use mathlib.Core.Path.{subst}
use liumos.Kernel.Scheduler.{
  Status, not_initialized, not_scheduled, sleeping, running, Process, Processes, Scheduler, update,
  set_status, is_status, register_process, registered, new_scheduler, switch_process,
  kill_current_process, kill,
}
use liumos.Kernel.Scheduler.Statuses.{
  IsActive, IsIdle, At, IsSchedule, update_self, update_other, kill_current-IsSchedule,
  kill-IsSchedule,
}
use liumos.Kernel.Scheduler.Register.{register_process-IsSchedule, outside_table}
use liumos.Kernel.Scheduler.Switch.{switch_process-IsSchedule}

-- The calls that the kernel makes, in any order. A new process comes into being not initialized,
-- and `InitAs...Process` lets it be scheduled.
pub data Step (s : Scheduler) : Scheduler → Type 0 where
  registers : (p : ℕ) (s' : Scheduler) → register_process p s ≡ some s' → Step s s'
  initializes :
      (p : ℕ)
      → (s.processes p).status ≡ not_initialized
      → Step s (record s { processes = update s.processes p (set_status not_scheduled) })
  switches : Step s (switch_process s).0
  kills_current : Step s (kill_current_process s)
  kills : (pid : ℕ) → Step s (kill pid s)

pub data Reach (s : Scheduler) : Scheduler → Type 0 where
  here : Reach s s
  next : {t u : Scheduler} → Reach s t → Step t u → Reach s u

not_initialized-IsActive : (s : Status) → s ≡ not_initialized → IsActive s → ⊥
not_initialized-IsActive s e (inl k) = absurd (cc (sym e ∙ k))
not_initialized-IsActive s e (inr k) = absurd (cc (sym e ∙ k))

not_initialized-IsIdle : (s : Status) → s ≡ not_initialized → IsIdle s → ⊥
not_initialized-IsIdle s e (inl k) = absurd (cc (sym e ∙ k))
not_initialized-IsIdle s e (inr k) = absurd (cc (sym e ∙ k))

initializes-IsSchedule :
    (p : ℕ) (s : Scheduler)
    → (s.processes p).status ≡ not_initialized
    → IsSchedule s
    → IsSchedule (record s { processes = update s.processes p (set_status not_scheduled) })
initializes-IsSchedule p s e h = record {
  size = h.size;
  own = rw (same s.current (λ q. apart.0 (sym q))) h.own;
  active = rw (same s.current (λ q. apart.0 (sym q))) h.active;
  index = λ i q a. rw (same q (apart.1 i q a)) (h.index i q a);
  others = λ i q a ne. rw (same q (apart.1 i q a)) (h.others i q a ne);
}
  where
    apart : (p ≢ s.current) × ((i q : ℕ) → At s i q → q ≢ p)
    apart = outside_table s p h (not_initialized-IsActive _ e) (not_initialized-IsIdle _ e)

    same : (q : ℕ) → q ≢ p → update s.processes p (set_status not_scheduled) q ≡ s.processes q
    same q ne = update_other s.processes p (set_status not_scheduled) q ne

only_entry : (root i p : ℕ) → get_elem? (root ∷ []) i ≡ some p → (i ≡ 0) × (root ≡ p)
only_entry root zero p e = (refl, (cc e))
only_entry root (suc i) p e = absurd (cc e)

-- The root process alone, which runs.
alone-IsSchedule :
    (root : ℕ) (ps : Processes)
    → (ps root).status ≡ running
    → (ps root).scheduler_index ≡ 0
    → IsSchedule (record { processes = ps; process = root ∷ []; current = root })
alone-IsSchedule root ps run zero_index = record {
  size = omega arith;
  own = rw zero_index refl;
  active = inl run;
  index = λ i p a.
      let (i0, rp) = only_entry root i p a in
      subst (λ q. (ps q).scheduler_index ≡ i) rp (zero_index ∙ sym i0);
  others = λ i p a ne. absurd (ne (sym (only_entry root i p a).1));
}

Step-IsSchedule : {s t : Scheduler} → Step s t → IsSchedule s → IsSchedule t
Step-IsSchedule {s} (registers p s' e) h = register_process-IsSchedule p s s' h e
Step-IsSchedule {s} (initializes p e) h = initializes-IsSchedule p s e h
Step-IsSchedule {s} switches h = switch_process-IsSchedule s h
Step-IsSchedule {s} kills_current h = kill_current-IsSchedule s h
Step-IsSchedule {s} (kills pid) h = kill-IsSchedule pid s h

Reach-IsSchedule : {s t : Scheduler} → Reach s t → IsSchedule s → IsSchedule t
Reach-IsSchedule here h = h
Reach-IsSchedule (next r st) h = Step-IsSchedule st (Reach-IsSchedule r h)

new_scheduler-IsSchedule :
    (root : ℕ) (ps : Processes) (s : Scheduler) → new_scheduler root ps ≡ some s → IsSchedule s
unfolding new_scheduler registered
new_scheduler-IsSchedule root ps s e =
    elim (Bool-cases (is_status (ps root).status not_scheduled)) [
      | inl st ↦ subst IsSchedule (made st) (
          alone-IsSchedule root (update asleep root (set_status running))
            (ap (λ r. r.status) (update_self asleep root (set_status running)))
            (ap (λ r. r.scheduler_index)
              (update_self asleep root (set_status running)
                ∙ ap (set_status running) (update_self ps root new))))
      | inr st ↦ absurd (refuses st)
    ]
  where
    new : Process → Process
    new q = record q { status = sleeping; scheduler_index = 0 }

    asleep : Processes
    asleep = update ps root new

    made :
        is_status (ps root).status not_scheduled ≡ true
        → record {
          processes = update asleep root (set_status running);
          process = root ∷ [];
          current = root;
        }
          ≡ s
    made st = ground arith

    refuses : is_status (ps root).status not_scheduled ≡ false → ⊥
    refuses st = ground arith

-- From the scheduler that the constructor makes on, after any row of calls, the current process is
-- in the table and the only one there that runs; every other one sleeps or has stopped, and each
-- knows its entry.
pub scheduler-IsSchedule :
    (root : ℕ) (ps : Processes) (s t : Scheduler)
    → new_scheduler root ps ≡ some s
    → Reach s t
    → IsSchedule t
scheduler-IsSchedule root ps s t e r = Reach-IsSchedule r (new_scheduler-IsSchedule root ps s e)
