-- ===== src/Kernel/Mutex/Lost.antt =====
-- Tasks that src/sched.c and src/mutex.c lose: one that is neither current nor in the heap.
use beaveros.Base.{
  ℕ, zero, suc, ◌+◌, ◌≡◌, ◌≢◌, ◌/◌, refl, sym, ◌∙◌, Bool, some, ◌==◌, if◌then◌else◌,
}
use mathlib.Core.Path.{subst}
use beaveros.Base.Run.{
  ok, Ensures, ensures, in_panic, no_end, Ensures-bind, Ensures-if, Ensures-any, Ensures-value,
}
use beaveros.Data.Heap.{MinHeap, Allocator}
use beaveros.Data.Heap.Misses.{Misses, IsSound, heap_pop-Ensures, heap_push-Ensures}
use beaveros.Data.Queue.{Queue, Nodes, enqueue, dequeue}
use beaveros.Kernel.Idt.{InterruptFrame}
use beaveros.Kernel.Sched.{
  Sched, Task, SaveMode, fxsave_lazy, xsave_eager, xsaveopt_eager, compare_tasks, is_in_queue,
  spinlock_lock, save_by, leave_task, pick_task, enter_task, switch_task, task_switch_isr, in_queue,
  frozen, set_task,
}
use beaveros.Kernel.Sched.Switch.{enter_task_lem}
use beaveros.Kernel.Sched.Tasks.{TaskMemory, start_task, new_task, mark_terminated}
use beaveros.Kernel.Mutex.{Mutex, set_state, wake_loop, mutex_unlock, mutex_lock_round}

-- Neither the current task nor one of the heap's.
pub record IsLost (x : ℕ) (s : Sched) : Type 0 where
  pub heap : MinHeap
  pub queue : s.task_queue ≡ some heap
  pub misses : Misses x heap
  pub sound : IsSound heap
  pub other : s.current_task ≢ x

-- What the kernel's code does to the scheduler's state: a task switch, a round of mutex_lock,
-- mutex_unlock, and the start and the end of tasks. The task `x` is not started again.
pub data Step (alloc : Allocator) (x : ℕ) (s s' : Sched) : Type 0 where
  switched :
      (left_at started_at : ℕ) (frame f : InterruptFrame)
      → task_switch_isr alloc left_at started_at frame s ≡ ok (f, s')
      → Step alloc x s s'
  locked :
      (fresh : ℕ) (nodes nodes' : Nodes) (mutex mutex' : Mutex) (taken : Bool)
      → mutex_lock_round fresh nodes mutex s ≡ ok (taken, nodes', mutex', s')
      → Step alloc x s s'
  unlocked :
      (k : ℕ) (nodes nodes' : Nodes) (mutex mutex' : Mutex)
      → mutex_unlock k nodes mutex s ≡ ok (nodes', mutex', s')
      → Step alloc x s s'
  started :
      (a : TaskMemory) (start context ring t : ℕ)
      → a.task ≢ x
      → start_task alloc a start context ring s ≡ ok (t, s')
      → Step alloc x s s'
  ended : (t : ℕ) → s' ≡ mark_terminated t s → Step alloc x s s'

pub data Reach (alloc : Allocator) (x : ℕ) (s : Sched) : Sched → Type 0 where
  here : Reach alloc x s s
  next : {t u : Sched} → Reach alloc x s t → Step alloc x t u → Reach alloc x s u

pick_task-Ensures :
    (x k : ℕ) (tasks : ℕ → Task) (h : MinHeap)
    → Misses x h
    → IsSound h
    → Ensures (λ (t, h'). (t ≢ x) × Misses x h' × IsSound h') (pick_task k tasks h)
unfolding pick_task
pick_task-Ensures x zero tasks h misses sound = no_end
pick_task-Ensures x (suc k) tasks h misses sound =
    Ensures-bind (heap_pop-Ensures x (compare_tasks tasks) h misses sound) λ (t, h') p.
      Ensures-if (t == 0) (λ _. in_panic)
        λ _.
          Ensures-if (is_in_queue (tasks t).state) (λ _. ensures p)
            λ _. pick_task-Ensures x k tasks h' (p.1) (p.2)

entered-IsLost :
    (x now : ℕ) (s : Sched) (h : MinHeap)
    → s.task_queue ≡ some h
    → Misses x h
    → IsSound h
    → s.current_task ≢ x
    → IsLost x (enter_task now s).1
entered-IsLost x now s h queue misses sound other =
    let e = enter_task_lem now s in
    record {
      heap = h;
      queue = e.3 ∙ queue;
      misses = misses;
      sound = sound;
      other = λ z. other (sym (e.2) ∙ z);
    }

switch_task-Ensures :
    (alloc : Allocator) (x started_at : ℕ) (s : Sched)
    → IsLost x s
    → Ensures (λ (f, s'). IsLost x s') (switch_task alloc started_at s)
unfolding switch_task
switch_task-Ensures alloc x started_at s l =
    Ensures-bind (Ensures-any (spinlock_lock s.queue_lock 1)) λ _ _. rw (l.queue) (
      Ensures-bind
        (heap_push-Ensures x (compare_tasks s.tasks) alloc l.heap s.current_task l.misses l.sound
          l.other)
        λ p m. Ensures-bind (pick_task-Ensures x (p.size + 1) s.tasks p (m.0) (m.1)) λ (t, h') q.
          let s' = record s { queue_lock = 0; task_queue = some h'; current_task = t } in
          ensures (entered-IsLost x started_at s' h' refl (q.1) (q.2) (q.0)))

-- Leaving the current task changes neither the queue nor whose turn it is.
left-same :
    (mode : SaveMode) (now : ℕ) (frame : InterruptFrame) (s : Sched)
    → ((leave_task now frame (save_by mode s)).task_queue ≡ s.task_queue)
      × ((leave_task now frame (save_by mode s)).current_task ≡ s.current_task)
unfolding leave_task save_by
left-same fxsave_lazy now frame s = (refl, refl)
left-same xsave_eager now frame s = (refl, refl)
left-same xsaveopt_eager now frame s = (refl, refl)

IsLost-same :
    (x : ℕ) (s s' : Sched)
    → IsLost x s
    → s'.task_queue ≡ s.task_queue
    → s'.current_task ≡ s.current_task
    → IsLost x s'
IsLost-same x s s' l queue current = record {
  heap = l.heap;
  queue = queue ∙ l.queue;
  misses = l.misses;
  sound = l.sound;
  other = λ e. l.other (sym current ∙ e);
}

task_switch_isr-Ensures :
    (alloc : Allocator) (x left_at started_at : ℕ) (frame : InterruptFrame) (s : Sched)
    → IsLost x s
    → Ensures (λ (f, s'). IsLost x s') (task_switch_isr alloc left_at started_at frame s)
unfolding task_switch_isr
task_switch_isr-Ensures alloc x left_at started_at frame s l =
    let s' = leave_task left_at frame (save_by s.extended_state_save_mode s) in
    let same = left-same s.extended_state_save_mode left_at frame s in
    switch_task-Ensures alloc x started_at s' (IsLost-same x s s' l (same.0) (same.1))

wake_loop-Ensures :
    (x k : ℕ) (nodes : Nodes) (q : Queue) (s : Sched)
    → IsLost x s
    → Ensures (λ (nodes', q', s'). IsLost x s') (wake_loop k nodes q s)
unfolding wake_loop
wake_loop-Ensures x zero nodes q s l = no_end
wake_loop-Ensures x (suc k) nodes q s l =
    Ensures-bind (Ensures-any (dequeue nodes q)) λ (t, q', nodes') _.
      let woken = set_state t in_queue s in
      Ensures-if (t == 0) (λ _. ensures l)
        λ _. wake_loop-Ensures x k nodes' q' woken (IsLost-same x s woken l refl refl)

mutex_unlock-Ensures :
    (x k : ℕ) (nodes : Nodes) (mutex : Mutex) (s : Sched)
    → IsLost x s
    → Ensures (λ (nodes', mutex', s'). IsLost x s') (mutex_unlock k nodes mutex s)
unfolding mutex_unlock
mutex_unlock-Ensures x k nodes mutex s l =
    Ensures-bind (Ensures-any (spinlock_lock mutex.lock 1)) λ _ _.
      Ensures-bind (wake_loop-Ensures x k nodes mutex.waiting_tasks s l) λ (n, q, s') l'. ensures l'

mutex_lock_round-Ensures :
    (x fresh : ℕ) (nodes : Nodes) (mutex : Mutex) (s : Sched)
    → IsLost x s
    → Ensures (λ (taken, nodes', mutex', s'). IsLost x s') (mutex_lock_round fresh nodes mutex s)
unfolding mutex_lock_round
mutex_lock_round-Ensures x fresh nodes mutex s l =
    Ensures-bind (Ensures-any (spinlock_lock mutex.lock 1)) λ _ _.
      Ensures-if (mutex.locked == 0) (λ _. ensures l)
        λ _.
          Ensures-bind (Ensures-any (enqueue fresh nodes mutex.waiting_tasks s.current_task))
            λ _ _. ensures (IsLost-same x s (set_state s.current_task frozen s) l refl refl)

start_task-Ensures :
    (alloc : Allocator) (x : ℕ) (a : TaskMemory) (start context ring : ℕ) (s : Sched)
    → a.task ≢ x
    → IsLost x s
    → Ensures (λ (t, s'). IsLost x s') (start_task alloc a start context ring s)
unfolding start_task
start_task-Ensures alloc x a start context ring s new l =
    let average = if s.num_tasks == 0 then 0 else s.total_vtime / s.num_tasks in
    let tasks = set_task a.task (new_task a start context average) s.tasks in
    Ensures-if (ring == 0)
      (λ _. Ensures-bind (Ensures-any (spinlock_lock s.queue_lock 1)) λ _ _. rw (l.queue) (
        Ensures-bind
          (heap_push-Ensures x (compare_tasks tasks) alloc l.heap a.task l.misses l.sound new)
          λ h m.
            ensures
              (record { heap = h; queue = refl; misses = m.0; sound = m.1; other = l.other })))
      (λ _. in_panic)

marked-IsLost : (x t : ℕ) (s : Sched) → IsLost x s → IsLost x (mark_terminated t s)
unfolding mark_terminated
marked-IsLost x t s l = IsLost-same x s _ l refl refl

Step-IsLost :
    (alloc : Allocator) (x : ℕ) (s s' : Sched) → Step alloc x s s' → IsLost x s → IsLost x s'
Step-IsLost alloc x s s' (switched left_at started_at frame f e) l =
    Ensures-value (rw e at (task_switch_isr-Ensures alloc x left_at started_at frame s l))
Step-IsLost alloc x s s' (locked fresh nodes nodes' mutex mutex' taken e) l =
    Ensures-value (rw e at (mutex_lock_round-Ensures x fresh nodes mutex s l))
Step-IsLost alloc x s s' (unlocked k nodes nodes' mutex mutex' e) l =
    Ensures-value (rw e at (mutex_unlock-Ensures x k nodes mutex s l))
Step-IsLost alloc x s s' (started a start context ring t new e) l =
    Ensures-value (rw e at (start_task-Ensures alloc x a start context ring s new l))
Step-IsLost alloc x s s' (ended t e) l = subst (IsLost x) (sym e) (marked-IsLost x t s l)

-- A task that is neither current nor in the heap, as one that was frozen when the heap gave it, never
-- becomes current again: not by task switches, mutex_lock, mutex_unlock, which sets its state to that
-- of the run queue, or the start and the end of other tasks, in any number and order.
pub IsLost-never_runs :
    (alloc : Allocator) (x : ℕ) (s s' : Sched)
    → IsLost x s
    → Reach alloc x s s'
    → (s'.current_task ≢ x) × IsLost x s'
IsLost-never_runs alloc x s s' l here = (l.other, l)
IsLost-never_runs alloc x s s' l (next {t} r step) =
    let lost = Step-IsLost alloc x t s' step (IsLost-never_runs alloc x s t l r).1 in
    (lost.other, lost)
