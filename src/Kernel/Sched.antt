-- ===== src/Kernel/Sched.antt =====
-- src/sched.c on one processor. Tasks live in a store by address, 0 is NULL. The processor's part of
-- the state is its extended registers, of which only the contents as a whole count, the
-- control register cr0, and the count that the APIC's timer was given. `rdtsc` and the addresses that the allocator
-- returns are arguments. A spinlock that is held spins for ever, which the fuel's end stands for.
pub mod Order
pub mod Switch
pub mod Choice
pub mod Tasks
pub mod Main
mod Tests
use beaveros.Base.{
  ℕ, zero, suc, ◌+◌, ◌-◌, ◌*◌, ◌/◌, ◌^◌, Bool, true, false, not, Option, none, some, ltb, ◌==◌,
  if◌then◌else◌, u32, u64, bit_and, bit_or,
}
use beaveros.Base.Int.{ℤ, signed32}
use beaveros.Base.Memory.{Memory, store}
use beaveros.Base.Run.{Run, ok, panic, fault, out_of_fuel, ◌>>=◌}
use beaveros.Data.Heap.{MinHeap, Allocator, make_heap, heap_push, heap_pop}
use beaveros.Kernel.Idt.{InterruptFrame, zero_frame}

pub data TaskState : Type 0 where
  running in_queue terminated frozen : TaskState

-- `CR0_TASK_SWITCHED` of src/include/cpu.h
abbrev pub cr0_task_switched : ℕ
cr0_task_switched = 2 ^ 3

-- `task_t`. `nice` is the pattern of an `int`.
pub record Task : Type 0 where
  pub saved_state : InterruptFrame
  pub stack : ℕ
  pub processor_extended_state : ℕ
  pub vtime : ℕ
  pub started_at : ℕ
  pub nice : ℕ
  pub state : TaskState

pub data SaveMode : Type 0 where
  fxsave_lazy xsave_eager xsaveopt_eager : SaveMode

pub record Sched : Type 0 where
  pub extended_state_save_mode : SaveMode
  pub extended_state_size : ℕ
  pub enabled_extended_states : ℕ
  pub queue_lock : ℕ
  -- `none` is NULL.
  pub task_queue : Option MinHeap
  pub total_vtime : ℕ
  pub num_tasks : ℕ
  -- The processor's local state.
  pub current_task : ℕ
  pub sse_state_owner : ℕ
  pub tasks : ℕ → Task
  -- The contents of the saved extended states, by address.
  pub areas : Memory
  pub registers : ℕ
  pub cr0 : ℕ
  pub initial_count : ℕ

abbrev pub set_task : ℕ → Task → (ℕ → Task) → ℕ → Task
set_task a t tasks b = if b == a then t else tasks b

abbrev pub is_in_queue : TaskState → Bool
is_in_queue in_queue = true
is_in_queue running = false
is_in_queue terminated = false
is_in_queue frozen = false

abbrev pub is_running : TaskState → Bool
is_running running = true
is_running in_queue = false
is_running terminated = false
is_running frozen = false

abbrev pub is_terminated : TaskState → Bool
is_terminated terminated = true
is_terminated running = false
is_terminated in_queue = false
is_terminated frozen = false

-- The difference of two `uint64_t`, returned as an `int`.
unfoldable pub compare_tasks : (ℕ → Task) → (a b : ℕ) → ℤ
compare_tasks tasks a b = signed32 (u32 (u64 ((tasks a).vtime + 2 ^ 64 - (tasks b).vtime)))

-- `spinlock_lock` and `spinlock_unlock` of src/include/threading/spinlock.h
unfoldable pub spinlock_lock : (lock value : ℕ) → Run ℕ
spinlock_lock lock value = if lock == 0 then ok value else out_of_fuel

abbrev pub spinlock_unlock : ℕ
spinlock_unlock = 0

-- A `task_queue` of NULL is no heap to work on.
abbrev pub queue_of : Option MinHeap → Run MinHeap
queue_of none = fault
queue_of (some h) = ok h

-- What `task_switch_isr` saves before the switch, by the mode.
unfoldable pub save_by : SaveMode → Sched → Sched
save_by fxsave_lazy s = record s { cr0 = bit_or s.cr0 cr0_task_switched }
save_by xsave_eager s =
    let area = (s.tasks s.current_task).processor_extended_state in
    record s { areas = store s.areas area s.registers }
save_by xsaveopt_eager s = s

-- What it restores behind the switch.
unfoldable pub restore_by : SaveMode → Sched → Sched
restore_by fxsave_lazy s = s
restore_by xsave_eager s = record s {
  registers = s.areas (s.tasks s.current_task).processor_extended_state;
}
restore_by xsaveopt_eager s = s

-- The frame, the state and the time of the task that is switched away.
unfoldable pub leave_task : (now : ℕ) → InterruptFrame → Sched → Sched
leave_task now frame s =
    let task = s.tasks s.current_task in
    let vtime_delta = u64 (now + 2 ^ 64 - task.started_at) in
    let left = record task {
      saved_state = frame;
      state = if is_running task.state then in_queue else task.state;
      vtime = u64 (task.vtime + vtime_delta);
    } in
    record s {
      tasks = set_task s.current_task left s.tasks;
      total_vtime = u64 (s.total_vtime + vtime_delta);
    }

-- `for (;;)`: tasks that are not in the queue are dropped. A heap gives NULL only as an item.
unfoldable pub pick_task : ℕ → (ℕ → Task) → MinHeap → Run (ℕ × MinHeap)
unfolding heap_pop compare_tasks
pick_task zero tasks h = out_of_fuel
pick_task (suc k) tasks h = do
  (t, h') ← heap_pop (compare_tasks tasks) h
  let rest = pick_task k tasks h'
  if t == 0 then panic else if is_in_queue (tasks t).state then ok (t, h') else rest

-- `BASE_TIME_QUANTUM * (20 - nice)`, computed as an `int` and extended to 64 bits.
unfoldable pub time_quantum : (nice : ℕ) → ℕ
time_quantum nice =
    let count = u32 (5000 * u32 (20 + 2 ^ 32 - nice)) in
    if ltb count (2 ^ 31) then count else count + 2 ^ 64 - 2 ^ 32

-- The frame to return to, the time and the timer of the task that is switched to.
unfoldable pub begin_task : (now : ℕ) → Sched → InterruptFrame × Sched
unfolding time_quantum
begin_task now s =
    let started = record (s.tasks s.current_task) { started_at = now } in
    (
      started.saved_state,
      record s {
        tasks = set_task s.current_task started s.tasks;
        initial_count = time_quantum started.nice;
      },
    )

-- The lines behind the unlocked queue.
unfoldable pub enter_task : (now : ℕ) → Sched → InterruptFrame × Sched
unfolding restore_by begin_task
enter_task now s =
    let chosen = record (s.tasks s.current_task) { state = running } in
    let s' = record s { tasks = set_task s.current_task chosen s.tasks } in
    begin_task now (restore_by s.extended_state_save_mode s')

-- From the lock to the end, with a round of `pick_task` for each task of the heap.
unfoldable pub switch_task : Allocator → (started_at : ℕ) → Sched → Run (InterruptFrame × Sched)
unfolding heap_push compare_tasks spinlock_lock pick_task enter_task
switch_task alloc started_at s = do
  lock ← spinlock_lock s.queue_lock 1
  h ← queue_of s.task_queue
  pushed ← heap_push (compare_tasks s.tasks) alloc h s.current_task
  (t, popped) ← pick_task (pushed.size + 1) s.tasks pushed
  ok (
      enter_task started_at
        (record s { queue_lock = spinlock_unlock; task_queue = some popped; current_task = t }))

unfoldable pub task_switch_isr :
    Allocator → (left_at started_at : ℕ) → InterruptFrame → Sched → Run (InterruptFrame × Sched)
unfolding save_by leave_task switch_task
task_switch_isr alloc left_at started_at frame s =
    switch_task alloc started_at (leave_task left_at frame (save_by s.extended_state_save_mode s))
