-- ===== src/Kernel/Sched/Switch.antt =====
-- task_switch_isr of src/sched.c: the invariant of the scheduler and the task that is chosen.
use native.Mathlib.Decide.{ℕ_discrete}
use beaveros.Base.{ℕ, suc, ◌+◌, ◌<◌, ◌≤◌, ◌≡◌, ◌≢◌, refl, ap, ◌∙◌, arith, false, ◌==◌, some}
use beaveros.Base.Memory.{Memory}
use beaveros.Base.Run.{Returns, returns, Returns-bind}
use beaveros.Data.Heap.{MinHeap}
use beaveros.Data.Heap.Items.{count, one_if, count-found, count-here}
use beaveros.Data.Heap.Order.{ComparesBy, IsValid}
use beaveros.Data.Heap.Ops.{Popped, heap_pop_correct}
use beaveros.Kernel.Sched.{
  Task, running, in_queue, Sched, SaveMode, set_task, compare_tasks, save_by, restore_by,
  fxsave_lazy, xsave_eager, xsaveopt_eager, pick_task, begin_task, enter_task,
}
use beaveros.Kernel.Sched.Order.{vtime_of}

-- Each item of the heap is a task that waits in the queue, and is there once.
pub record IsQueued (tasks : ℕ → Task) (current : ℕ) (h : MinHeap) : Type 0 where
  pub waits : (i : ℕ) → i < h.size → (tasks (h.data_block i)).state ≡ in_queue
  pub not_null : (i : ℕ) → i < h.size → h.data_block i ≢ 0
  pub once : (x : ℕ) → count h.data_block h.size x ≤ 1
  pub absent : count h.data_block h.size current ≡ 0

-- The current task runs, and the others wait in a heap that is ordered by their times.
pub record IsScheduling (s : Sched) (h : MinHeap) : Type 0 where
  pub queue : s.task_queue ≡ some h
  pub unlocked : s.queue_lock ≡ 0
  pub valid : IsValid (vtime_of s.tasks) h
  pub queued : IsQueued s.tasks s.current_task h
  pub current : s.current_task ≢ 0
  pub runs : (s.tasks s.current_task).state ≡ running

-- What a heap says of its items, a heap with the same items says too.
module _ (P : ℕ → Type 0) (d : Memory) (n : ℕ) (all : (i : ℕ) → i < n → P (d i)) where
  pub All-counted : (x : ℕ) → 0 < count d n x → P x
  All-counted x h = let (i, below, at) = count-found d n x h in rw at at (all i below)

  pub All-pushed :
      (d' : Memory) (n' item : ℕ)
      → P item
      → ((x : ℕ) → count d' n' x ≡ count d n x + one_if item x)
      → (i : ℕ) → i < n'
      → P (d' i)
  All-pushed d' n' item p items i below = elim (ℕ_discrete item (d' i)) [
    | yes same ↦ rw same at p
    | no other ↦ All-counted (d' i) (ground (arith, items (d' i), count-here d' n' i below))
  ]

  pub All-popped :
      (d' : Memory) (n' r : ℕ)
      → ((x : ℕ) → count d' n' x + one_if r x ≡ count d n x)
      → P r × ((i : ℕ) → i < n' → P (d' i))
  All-popped d' n' r items = (
    All-counted r (ground (arith, items r)),
    λ i below. All-counted (d' i) (omega (arith, items (d' i), count-here d' n' i below)),
  )

-- Saving the extended state leaves the scheduler's own state alone.
pub save_by-same :
    (mode : SaveMode) (s : Sched)
    → ((save_by mode s).tasks ≡ s.tasks)
      × ((save_by mode s).current_task ≡ s.current_task)
      × ((save_by mode s).task_queue ≡ s.task_queue)
      × ((save_by mode s).queue_lock ≡ s.queue_lock)
unfolding save_by
save_by-same fxsave_lazy s = (refl, refl, refl, refl)
save_by-same xsave_eager s = (refl, refl, refl, refl)
save_by-same xsaveopt_eager s = (refl, refl, refl, refl)

restore_by-same :
    (mode : SaveMode) (s : Sched)
    → ((restore_by mode s).tasks ≡ s.tasks)
      × ((restore_by mode s).current_task ≡ s.current_task)
      × ((restore_by mode s).task_queue ≡ s.task_queue)
      × ((restore_by mode s).queue_lock ≡ s.queue_lock)
unfolding restore_by
restore_by-same fxsave_lazy s = (refl, refl, refl, refl)
restore_by-same xsave_eager s = (refl, refl, refl, refl)
restore_by-same xsaveopt_eager s = (refl, refl, refl, refl)

-- The first task of a heap of waiting tasks is picked in the first round.
pub pick_task-Returns :
    (k : ℕ) (tasks : ℕ → Task) (h : MinHeap)
    (by : ComparesBy (compare_tasks tasks) (vtime_of tasks))
    → IsValid (vtime_of tasks) h
    → 0 < h.size
    → ((i : ℕ) → i < h.size → ((tasks (h.data_block i)).state ≡ in_queue) × (h.data_block i ≢ 0))
    → Returns (Popped (compare_tasks tasks) (vtime_of tasks) by h) (pick_task (suc k) tasks h)
unfolding pick_task
pick_task-Returns k tasks h by v some_task all =
    Returns-bind (heap_pop_correct (compare_tasks tasks) (vtime_of tasks) by h v some_task) λ r p.
      let chosen =
        (All-popped (λ x. ((tasks x).state ≡ in_queue) × (x ≢ 0)) h.data_block h.size all
          r.1.data_block r.1.size r.0 p.items).0 in
      let nonzero : (r.0 == 0) ≡ false = ground (arith, chosen.1) in
      rw nonzero (rw (chosen.0) (returns p))

-- The tasks that `enter_task` leaves.
abbrev pub entered : (ℕ → Task) → (t now : ℕ) → ℕ → Task
entered tasks t now =
    let chosen = set_task t (record (tasks t) { state = running }) tasks in
    set_task t (record (chosen t) { started_at = now }) chosen

begin_task-restore_by :
    (mode : SaveMode) (now : ℕ) (s : Sched)
    → let r = begin_task now (restore_by mode s) in
      let t = record (s.tasks s.current_task) { started_at = now } in
      (r.0 ≡ (s.tasks s.current_task).saved_state)
      × (r.1.tasks ≡ set_task s.current_task t s.tasks)
      × (r.1.current_task ≡ s.current_task)
      × (r.1.task_queue ≡ s.task_queue)
      × (r.1.queue_lock ≡ s.queue_lock)
unfolding begin_task restore_by
begin_task-restore_by fxsave_lazy now s = (refl, refl, refl, refl, refl)
begin_task-restore_by xsave_eager now s = (refl, refl, refl, refl, refl)
begin_task-restore_by xsaveopt_eager now s = (refl, refl, refl, refl, refl)

pub set_task_self : (a : ℕ) (t : Task) (tasks : ℕ → Task) → set_task a t tasks a ≡ t
set_task_self a t tasks = ground arith

pub set_task_ne :
    (a : ℕ) (t : Task) (tasks : ℕ → Task) (b : ℕ) → b ≢ a → set_task a t tasks b ≡ tasks b
set_task_ne a t tasks b h = ground arith

-- What `enter_task` does, but for the processor's state.
pub enter_task_lem :
    (now : ℕ) (s : Sched)
    → ((enter_task now s).0 ≡ (s.tasks s.current_task).saved_state)
      × ((enter_task now s).1.tasks ≡ entered s.tasks s.current_task now)
      × ((enter_task now s).1.current_task ≡ s.current_task)
      × ((enter_task now s).1.task_queue ≡ s.task_queue)
      × ((enter_task now s).1.queue_lock ≡ s.queue_lock)
unfolding enter_task
enter_task_lem now s =
    let chosen = record (s.tasks s.current_task) { state = running } in
    let s' = record s { tasks = set_task s.current_task chosen s.tasks } in
    let r = begin_task-restore_by s.extended_state_save_mode now s' in
    (
      r.0 ∙ ap (λ (t : Task). t.saved_state) (set_task_self s.current_task chosen s.tasks),
      r.1,
      r.2,
      r.3,
      r.4,
    )

pub entered-vtime :
    (tasks : ℕ → Task) (t now a : ℕ) → vtime_of (entered tasks t now) a ≡ vtime_of tasks a
entered-vtime tasks t now a = elim (ℕ_discrete a t) [
  | yes same ↦ ground arith
  | no other ↦ ground arith
]

pub entered-state :
    (tasks : ℕ → Task) (t now a : ℕ) → a ≢ t → (entered tasks t now a).state ≡ (tasks a).state
entered-state tasks t now a other = ground arith

pub entered-runs : (tasks : ℕ → Task) (t now : ℕ) → (entered tasks t now t).state ≡ running
entered-runs tasks t now = ground arith
