-- ===== src/Kernel/Scheduler.antt =====
-- src/scheduler.cc, scheduler.h and Process::Kill of process.cc: the table of the processes, and the
-- status of each. A `Process *` is a number, and the store gives the process at each. The part of
-- `process_` below `number_of_process_` is a list, and holds no null pointer. Each operation is one
-- step: what stands between `lock_.Lock()` and `lock_.Unlock()`. `none` is a failed assertion.
pub mod Statuses
pub mod Register
pub mod Switch
pub mod Reach
use liumos.Prelude.{
  ℕ, zero, suc, ◌+◌, ◌-◌, ◌%◌, Bool, true, false, not, ◌||◌, Option, none, some, List, [], ◌∷◌,
  ◌++◌, length, get_or, get_elem?, set, ltb, ◌==◌, if◌then◌else◌, ◌>>=◌,
}

pub data Status : Type 0 where
  not_initialized not_scheduled sleeping running stopping stopped : Status

pub record Process : Type 0 where
  pub id : ℕ
  pub status : Status
  pub scheduler_index : ℕ

abbrev pub Processes : Type 0
Processes = ℕ → Process

-- A change of the process at a pointer.
abbrev pub update : Processes → ℕ → (Process → Process) → Processes
update ps p f q = if q == p then f (ps q) else ps q

-- `process` is `process_`, its length `number_of_process_`.
pub record Scheduler : Type 0 where
  pub processes : Processes
  pub process : List ℕ
  pub current : ℕ

abbrev pub is_status : Status → Status → Bool
is_status not_initialized not_initialized = true
is_status not_scheduled not_scheduled = true
is_status sleeping sleeping = true
is_status running running = true
is_status stopping stopping = true
is_status stopped stopped = true
is_status _ _ = false

abbrev pub set_status : Status → Process → Process
set_status s p = record p { status = s }

-- `Process::Kill`.
abbrev pub killed : Status → Status
killed sleeping = stopped
killed running = stopping
killed s = s

abbrev pub kill_process : Process → Process
kill_process p = set_status (killed p.status) p

abbrev number_of_process : Scheduler → ℕ
number_of_process s = length s.process

-- The loop of `RegisterProcess`: the first entry from `i` on whose process has stopped.
abbrev pub find_stopped : Processes → (i : ℕ) → List ℕ → Option ℕ
find_stopped ps i [] = none
find_stopped ps i (p ∷ rest) =
    if is_status (ps p).status stopped then some i else find_stopped ps (i + 1) rest

-- The process in the table at entry `i`, asleep.
abbrev pub register_at : (p i : ℕ) → List ℕ → Scheduler → Scheduler
register_at p i table s = record s {
  processes = update s.processes p (λ q. record q { status = sleeping; scheduler_index = i });
  process = table;
}

unfoldable pub registered : (p : ℕ) → Option ℕ → Scheduler → Scheduler
registered p (some i) s = register_at p i (set s.process i p) s
registered p none s = register_at p (length s.process) (s.process ++ p ∷ []) s

unfoldable pub register_process : (p : ℕ) → Scheduler → Option Scheduler
unfolding registered
register_process p s =
    if not (ltb (number_of_process s) 256) || not (is_status (s.processes p).status not_scheduled)
    then none
    else some (registered p (find_stopped s.processes 0 s.process) s)

-- The constructor: the root process is registered and runs.
unfoldable pub new_scheduler : (root_process : ℕ) → Processes → Option Scheduler
unfolding register_process
new_scheduler root ps = do
  s ← register_process root (record { processes = ps; process = []; current = root })
  some (record s { processes = update s.processes root (set_status running) })

-- The loop of `SwitchProcess`, over the rounds that are left, `i` in C.
abbrev pub next_sleeping : (rounds i base : ℕ) → Scheduler → Option ℕ
next_sleeping zero i base s = none
next_sleeping (suc rounds) i base s =
    let p = get_or s.process ((base + i) % length s.process) 0 in
    let rest = next_sleeping rounds (i + 1) base s in
    if is_status (s.processes p).status sleeping then some p else rest

-- What becomes of the process that ran.
abbrev pub suspended : Status → Status
suspended running = sleeping
suspended stopping = stopped
suspended s = s

unfoldable pub switched : Option ℕ → Scheduler → Scheduler
switched none s = s
switched (some p) s =
    let ps = update s.processes s.current (λ q. set_status (suspended q.status) q) in
    record s { processes = update ps p (set_status running); current = p }

unfoldable pub switch_process : Scheduler → Scheduler × Option ℕ
unfolding switched
switch_process s =
    let base = (s.processes s.current).scheduler_index in
    let next = next_sleeping (number_of_process s - 1) 1 base s in (switched next s, next)

unfoldable pub kill_current_process : Scheduler → Scheduler
kill_current_process s = record s { processes = update s.processes s.current kill_process }

-- `none` is the null pointer; an `id` that is negative is not modelled.
abbrev pub get_process : (id : ℕ) → Scheduler → Option ℕ
get_process id s = get_elem? s.process id

abbrev pub find_pid : Processes → (pid : ℕ) → List ℕ → Option ℕ
find_pid ps pid [] = none
find_pid ps pid (p ∷ rest) = if (ps p).id == pid then some p else find_pid ps pid rest

unfoldable pub kill_found : Option ℕ → Scheduler → Scheduler
kill_found none s = s
kill_found (some p) s = record s { processes = update s.processes p kill_process }

unfoldable pub kill : (pid : ℕ) → Scheduler → Scheduler
unfolding kill_found
kill pid s = kill_found (find_pid s.processes pid s.process) s
