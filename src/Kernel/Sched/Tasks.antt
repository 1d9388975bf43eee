-- ===== src/Kernel/Sched/Tasks.antt =====
-- The start and the end of tasks in src/sched.c, the lazy switch of the extended state, and the start
-- of the scheduler. What `cpuid` answers and the addresses that the allocator returns are arguments.
use beaveros.Base.{
  ℕ, ◌+◌, ◌-◌, ◌*◌, ◌/◌, ◌^◌, Option, none, some, ◌==◌, if◌then◌else◌, u64, bit_and, bit_or,
}
use beaveros.Base.Memory.{Memory, store}
use beaveros.Base.Run.{Run, ok, panic, ◌>>=◌}
use beaveros.Data.Heap.{MinHeap, Allocator, make_heap, heap_push}
use beaveros.Kernel.Idt.{InterruptFrame, zero_frame}
use beaveros.Kernel.Sched.{
  Task, in_queue, terminated, fxsave_lazy, xsave_eager, xsaveopt_eager, Sched, set_task,
  is_terminated, compare_tasks, spinlock_lock, spinlock_unlock, cr0_task_switched, task_switch_isr,
}

-- `RFLAGS_INTERRUPT_FLAG` of src/include/cpu.h
abbrev pub rflags_interrupt_flag : ℕ
rflags_interrupt_flag = 2 ^ 9

-- What the allocator returns to `start_task`: the task, its extended state and its stack, and the
-- array of a new heap.
pub record TaskMemory : Type 0 where
  pub task : ℕ
  pub area : ℕ
  pub stack : ℕ
  pub fresh : Memory

-- The task that `start_task` fills in.
unfoldable pub new_task : TaskMemory → (start context vtime : ℕ) → Task
new_task a start context vtime = record {
  saved_state = record zero_frame {
    rsp = u64 (a.stack + 4096);
    rdi = context;
    rip = start;
    cs = 0x08;
    ss = 0x10;
    rflags = rflags_interrupt_flag;
  };
  stack = a.stack;
  processor_extended_state = a.area;
  vtime = vtime;
  started_at = 0;
  nice = 0;
  state = in_queue;
}

-- `if (!task_queue) task_queue = make_heap(compare_tasks);`
unfoldable pub queue_or_new : (fresh : Memory) → Option MinHeap → MinHeap
unfolding make_heap
queue_or_new fresh none = make_heap fresh
queue_or_new fresh (some h) = h

unfoldable pub start_task :
    Allocator → TaskMemory → (start context ring : ℕ) → Sched → Run (ℕ × Sched)
unfolding new_task queue_or_new heap_push compare_tasks spinlock_lock
start_task alloc a start context ring s =
    let average = if s.num_tasks == 0 then 0 else s.total_vtime / s.num_tasks in
    let tasks = set_task a.task (new_task a start context average) s.tasks in
    let queued = do
      lock ← spinlock_lock s.queue_lock 1
      h ← heap_push (compare_tasks tasks) alloc (queue_or_new a.fresh s.task_queue) a.task
      ok (
        a.task,
        record s {
          tasks = tasks;
          areas = store s.areas a.area 0;
          num_tasks = u64 (s.num_tasks + 1);
          task_queue = some h;
          queue_lock = spinlock_unlock;
        },
      )
    in if ring == 0 then queued else panic

-- What `terminate_task` does before it looks whose task it is.
unfoldable pub mark_terminated : (task : ℕ) → Sched → Sched
mark_terminated task s = record s {
  tasks = set_task task (record (s.tasks task) { state = terminated }) s.tasks;
  total_vtime = u64 (s.total_vtime + 2 ^ 64 - (s.tasks task).vtime);
  num_tasks = u64 (s.num_tasks + 2 ^ 64 - 1);
}

-- `yield` is the interrupt of a task switch with the frame of the caller; the result is the frame that
-- runs on, `none` for the caller's own.
unfoldable pub terminate_task :
    Allocator
    → (left_at started_at : ℕ) → InterruptFrame
    → (task : ℕ) → Sched
    → Run (Option InterruptFrame × Sched)
unfolding mark_terminated task_switch_isr
terminate_task alloc left_at started_at frame task s =
    let s' = mark_terminated task s in
    let yielded = do
      (next, s'') ← task_switch_isr alloc left_at started_at frame s'
      ok (some next, s'')
    in if task == s.current_task then yielded else ok (none, s')

-- `save_extended_state_isr`, at the first use of the extended registers behind a lazy switch.
unfoldable pub save_extended_state_isr : Sched → Sched
save_extended_state_isr s =
    let owner = s.tasks s.sse_state_owner in
    let saved =
      if is_terminated owner.state
      then s.areas
      else store s.areas owner.processor_extended_state s.registers in
    elim s.extended_state_save_mode [
      | fxsave_lazy ↦ record s {
        cr0 = bit_and s.cr0 (2 ^ 64 - 1 - cr0_task_switched);
        areas = saved;
        sse_state_owner = s.current_task;
        registers = saved (s.tasks s.current_task).processor_extended_state;
      }
      | xsave_eager ↦ s
      | xsaveopt_eager ↦ s
    ]

-- `cpuid`: ecx of the leaf 1, eax of the leaf 0x0d with 1, and eax, ebx and edx of it with 0; ebx is
-- read behind `xsetbv`.
pub record Cpuid : Type 0 where
  pub leaf_1_ecx : ℕ
  pub leaf_0d_1_eax : ℕ
  pub leaf_0d_0_eax : ℕ
  pub leaf_0d_0_ebx : ℕ
  pub leaf_0d_0_edx : ℕ

abbrev pub cpuid_1_ecx_xsave_bit : ℕ
cpuid_1_ecx_xsave_bit = 2 ^ 26

abbrev pub cpuid_0d_1_eax_xsaveopt_bit : ℕ
cpuid_0d_1_eax_xsaveopt_bit = 1

-- The choice of the mode in `main_loop`, with the size and the mask that go with it.
unfoldable pub choose_save_mode : Cpuid → Sched → Sched
choose_save_mode c s =
    let mode =
      if bit_and c.leaf_0d_1_eax cpuid_0d_1_eax_xsaveopt_bit == 0
      then xsave_eager
      else xsaveopt_eager in
    if bit_and c.leaf_1_ecx cpuid_1_ecx_xsave_bit == 0
    then record s { extended_state_save_mode = fxsave_lazy; extended_state_size = 512 }
    else record s {
      extended_state_save_mode = mode;
      enabled_extended_states = bit_or (c.leaf_0d_0_edx * 2 ^ 32) c.leaf_0d_0_eax;
      extended_state_size = c.leaf_0d_0_ebx;
    }

-- The end of `main_loop`: the first task stands for the boot code, and terminates.
unfoldable pub start_scheduling :
    Allocator
    → TaskMemory
    → (left_at started_at : ℕ) → InterruptFrame
    → Sched
    → Run (Option InterruptFrame × Sched)
unfolding start_task terminate_task
start_scheduling alloc a left_at started_at frame s = do
  (t, s') ← start_task alloc a 0 0 0 s
  terminate_task alloc left_at started_at frame t
      (record s' { current_task = t; sse_state_owner = t })
