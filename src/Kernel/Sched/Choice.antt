-- ===== src/Kernel/Sched/Choice.antt =====
-- task_switch_isr of src/sched.c runs a task that has run for the least time.
use native.Mathlib.Decide.{ℕ_discrete}
use mathlib.Core.Path.{subst}
use beaveros.Base.{ℕ, suc, ◌+◌, ◌^◌, ◌<◌, ◌≤◌, ◌≡◌, ◌≢◌, refl, sym, ap, ◌∙◌, arith, some}
use beaveros.Base.Run.{Returns, returns, Returns-bind}
use beaveros.Data.Heap.{MinHeap, Allocator}
use beaveros.Data.Heap.Items.{count, one_if, count-here}
use beaveros.Data.Heap.Order.{IsValid}
use beaveros.Data.Heap.Ops.{heap_push_correct}
use beaveros.Kernel.Idt.{InterruptFrame}
use beaveros.Kernel.Sched.{
  Task, running, in_queue, SaveMode, fxsave_lazy, xsave_eager, xsaveopt_eager, Sched, compare_tasks,
  spinlock_lock, save_by, leave_task, enter_task, task_switch_isr, switch_task,
}
use beaveros.Kernel.Sched.Order.{vtime_of, IsWindow, compare_tasks-ComparesBy, IsValid-same}
use beaveros.Kernel.Sched.Switch.{
  IsQueued, IsScheduling, All-counted, All-pushed, All-popped, pick_task-Returns, set_task_ne,
  enter_task_lem, entered, entered-vtime, entered-state, entered-runs,
}

-- The state after the current task is left.
abbrev pub left : (now : ℕ) → InterruptFrame → Sched → Sched
left now frame s = leave_task now frame (save_by s.extended_state_save_mode s)

-- The frame and the state that `task_switch_isr` returns: the chosen task is one of the queue or the
-- old one, none of these has run for less time, its saved frame is returned, and the others wait.
pub record Switched (tasks : ℕ → Task) (current : ℕ) (h : MinHeap) (r : InterruptFrame × Sched)
    : Type 0 where
  pub queue : MinHeap
  pub scheduling : IsScheduling r.1 queue
  pub frame : r.0 ≡ (tasks r.1.current_task).saved_state
  pub items :
      (x : ℕ)
      → count queue.data_block queue.size x + one_if r.1.current_task x
        ≡ count h.data_block h.size x + one_if current x
  pub least :
      (i : ℕ) → i < h.size → vtime_of tasks r.1.current_task ≤ vtime_of tasks (h.data_block i)
  pub least_current : vtime_of tasks r.1.current_task ≤ vtime_of tasks current

not-current :
    (tasks : ℕ → Task) (c : ℕ) (h : MinHeap)
    → IsQueued tasks c h
    → (i : ℕ) → i < h.size
    → h.data_block i ≢ c
not-current tasks c h q i below e =
    let seen = count-here h.data_block h.size i below in
    absurd (omega (arith, rw e at seen, q.absent))

-- The chosen task enters, and the others wait in the queue.
enter_task-IsScheduling :
    (now : ℕ) (s : Sched) (h : MinHeap)
    → s.task_queue ≡ some h
    → s.queue_lock ≡ 0
    → IsValid (vtime_of s.tasks) h
    → IsQueued s.tasks s.current_task h
    → s.current_task ≢ 0
    → IsScheduling (enter_task now s).1 h
enter_task-IsScheduling now s h queue lock valid queued nonzero =
    let e = enter_task_lem now s in
    let t = s.current_task in
    record {
      queue = e.3 ∙ queue;
      unlocked = e.4 ∙ lock;
      valid = rw (e.1) (
          IsValid-same (vtime_of s.tasks) (vtime_of (entered s.tasks t now)) h valid
            λ i below. entered-vtime s.tasks t now (h.data_block i));
      queued =
          rw (e.1, e.2)
            (record {
              waits = λ i below.
                  entered-state s.tasks t now (h.data_block i)
                    (not-current s.tasks t h queued i below)
                  ∙ queued.waits i below;
              not_null = queued.not_null;
              once = queued.once;
              absent = queued.absent;
            });
      current = rw (e.2) nonzero;
      runs = rw (e.1, e.2) (entered-runs s.tasks t now);
    }

-- The rest of the heap, once a task is taken off it that was there once.
rest-IsQueued :
    (tasks : ℕ → Task) (c : ℕ) (h p h' : MinHeap) (t : ℕ)
    → IsQueued tasks c h
    → (tasks c).state ≡ in_queue
    → c ≢ 0
    → ((x : ℕ) → count p.data_block p.size x ≡ count h.data_block h.size x + one_if c x)
    → ((x : ℕ) → count h'.data_block h'.size x + one_if t x ≡ count p.data_block p.size x)
    → IsQueued tasks t h' × (t ≢ 0)
rest-IsQueued tasks c h p h' t q waits nonzero pushed popped =
    let Waits = λ (x : ℕ). ((tasks x).state ≡ in_queue) × (x ≢ 0) in
    let all =
      All-pushed Waits h.data_block h.size (λ i b. (q.waits i b, q.not_null i b)) p.data_block
        p.size c (waits, nonzero) pushed in
    let (chosen, others) =
      All-popped Waits p.data_block p.size all h'.data_block h'.size t popped in
    let once : (x : ℕ) → count p.data_block p.size x ≤ 1 = λ x. elim (ℕ_discrete c x) [
      | yes same ↦ ground (arith, pushed x, q.absent)
      | no other ↦ ground (arith, pushed x, q.once x)
    ] in
    (
      record {
        waits = λ i b. (others i b).0;
        not_null = λ i b. (others i b).1;
        once = λ x. omega (arith, popped x, once x);
        absent = ground (arith, popped t, once t);
      },
      chosen.1,
    )

Switched-chosen :
    (s : Sched) (h p h' : MinHeap) (t started_at : ℕ)
    → IsQueued s.tasks s.current_task h
    → (s.tasks s.current_task).state ≡ in_queue
    → s.current_task ≢ 0
    → IsValid (vtime_of s.tasks) h'
    → ((x : ℕ)
        → count p.data_block p.size x ≡ count h.data_block h.size x + one_if s.current_task x)
    → ((x : ℕ) → count h'.data_block h'.size x + one_if t x ≡ count p.data_block p.size x)
    → ((i : ℕ) → i < p.size → vtime_of s.tasks t ≤ vtime_of s.tasks (p.data_block i))
    → Switched s.tasks s.current_task h (
        enter_task started_at (record s { queue_lock = 0; task_queue = some h'; current_task = t }))
Switched-chosen s h p h' t started_at queued waits nonzero valid pushed popped least =
    let s' = record s { queue_lock = 0; task_queue = some h'; current_task = t } in
    let e = enter_task_lem started_at s' in
    let key = vtime_of s.tasks in
    let rest = rest-IsQueued s.tasks s.current_task h p h' t queued waits nonzero pushed popped in
    let below = All-counted (λ x. key t ≤ key x) p.data_block p.size least in
    record {
      queue = h';
      scheduling = enter_task-IsScheduling started_at s' h' refl refl valid rest.0 rest.1;
      frame = rw (e.2) (e.0);
      items = λ x. rw (e.2) (popped x ∙ pushed x);
      least = λ i b. rw (e.2) (
          below (h.data_block i)
            (omega (arith, pushed (h.data_block i), count-here h.data_block h.size i b)));
      least_current = rw (e.2) (below s.current_task (ground (arith, pushed s.current_task)));
    }

-- Leaving the current task puts it into the state of the queue, and changes no other task.
abbrev IsLeft : Sched → Sched → Type 0
IsLeft s s' =
    ((s'.tasks s.current_task).state ≡ in_queue)
    × ((b : ℕ) → b ≢ s.current_task → s'.tasks b ≡ s.tasks b)
    × (s'.current_task ≡ s.current_task)
    × (s'.task_queue ≡ s.task_queue)
    × (s'.queue_lock ≡ s.queue_lock)

IsLeft-by :
    (mode : SaveMode) (now : ℕ) (frame : InterruptFrame) (s : Sched)
    → (s.tasks s.current_task).state ≡ running
    → let s' = leave_task now frame (save_by mode s) in IsLeft s s'
unfolding leave_task save_by
IsLeft-by fxsave_lazy now frame s r =
    (ground arith, λ b o. set_task_ne s.current_task _ s.tasks b o, refl, refl, refl)
IsLeft-by xsave_eager now frame s r =
    (ground arith, λ b o. set_task_ne s.current_task _ s.tasks b o, refl, refl, refl)
IsLeft-by xsaveopt_eager now frame s r =
    (ground arith, λ b o. set_task_ne s.current_task _ s.tasks b o, refl, refl, refl)

switch_task-Switched :
    (alloc : Allocator) (started_at : ℕ) (s : Sched) (h : MinHeap)
    → s.queue_lock ≡ 0
    → s.task_queue ≡ some h
    → IsValid (vtime_of s.tasks) h
    → IsQueued s.tasks s.current_task h
    → (s.tasks s.current_task).state ≡ in_queue
    → s.current_task ≢ 0
    → IsWindow s.tasks
    → h.capacity < 2 ^ 62
    → Returns (Switched s.tasks s.current_task h) (switch_task alloc started_at s)
unfolding switch_task spinlock_lock
switch_task-Switched alloc started_at s h lock queue valid queued waits nonzero w small =
    let cmp = compare_tasks s.tasks in
    let key = vtime_of s.tasks in
    let by = compare_tasks-ComparesBy s.tasks w in
    rw (lock, queue)
      (Returns-bind (heap_push_correct cmp key by alloc h s.current_task valid small) λ p pushed.
        let waiting =
          All-pushed (λ x. ((s.tasks x).state ≡ in_queue) × (x ≢ 0)) h.data_block h.size
            (λ i b. (queued.waits i b, queued.not_null i b)) p.data_block p.size s.current_task
            (waits, nonzero) pushed.items in
        let rounds : p.size + 1 ≡ suc p.size = omega arith in
        rw rounds (
          Returns-bind
            (pick_task-Returns p.size s.tasks p by pushed.valid (omega (arith, pushed.size))
              waiting)
            λ r popped. returns (
              Switched-chosen s h p r.1 r.0 started_at queued waits nonzero popped.valid
                pushed.items popped.items popped.least)))

switch_left :
    (alloc : Allocator) (started_at : ℕ) (s s' : Sched) (h : MinHeap)
    → IsScheduling s h
    → IsLeft s s'
    → IsWindow s'.tasks
    → h.capacity < 2 ^ 62
    → Returns (Switched s'.tasks s.current_task h) (switch_task alloc started_at s')
switch_left alloc started_at s s' h i l w small =
    let same : (j : ℕ) → j < h.size → s'.tasks (h.data_block j) ≡ s.tasks (h.data_block j) =
      λ j b. l.1 (h.data_block j) (not-current s.tasks s.current_task h i.queued j b) in
    let valid =
      IsValid-same (vtime_of s.tasks) (vtime_of s'.tasks) h i.valid
        λ j b. ap (λ (t : Task). t.vtime) (same j b) in
    let queued : IsQueued s'.tasks s.current_task h = record {
      waits = λ j b. ap (λ (t : Task). t.state) (same j b) ∙ i.queued.waits j b;
      not_null = i.queued.not_null;
      once = i.queued.once;
      absent = i.queued.absent;
    } in
    subst (λ c. Returns (Switched s'.tasks c h) (switch_task alloc started_at s')) (l.2)
      (switch_task-Switched alloc started_at s' h (l.4 ∙ i.unlocked) (l.3 ∙ i.queue) valid
        (subst (λ c. IsQueued s'.tasks c h) (sym (l.2)) queued)
        (ap (λ c. (s'.tasks c).state) (l.2) ∙ l.0) (λ z. i.current (sym (l.2) ∙ z)) w small)

-- A task switch in a scheduler whose current task runs and whose other tasks wait once each: it
-- returns, the chosen task is the old one or one that waited, and none of these has run for less
-- time; its saved frame is returned, and again the current task runs and the others wait. This holds
-- while the times of the tasks are words within 2 ^ 31 of one another and the heap has fewer than
-- 2 ^ 62 cells.
pub task_switch_isr_correct :
    (alloc : Allocator) (left_at started_at : ℕ) (frame : InterruptFrame) (s : Sched) (h : MinHeap)
    → IsScheduling s h
    → IsWindow (left left_at frame s).tasks
    → h.capacity < 2 ^ 62
    → Returns
        (Switched (left left_at frame s).tasks s.current_task h)
        (task_switch_isr alloc left_at started_at frame s)
unfolding task_switch_isr
task_switch_isr_correct alloc left_at started_at frame s h i w small =
    switch_left alloc started_at s (left left_at frame s) h i
      (IsLeft-by s.extended_state_save_mode left_at frame s i.runs) w small
