-- ===== src/Kernel/Sched/Tests.antt =====
-- Runs of src/sched.c with two tasks, and its theorems there.
use beaveros.Base.{ℕ, ◌≡◌, refl, arith, true, false, Option, some, none, ◌==◌, if◌then◌else◌}
use beaveros.Base.Int.{is_neg}
use beaveros.Base.Run.{Run, ok, fault, ◌>>=◌, Returns}
use beaveros.Data.Heap.{MinHeap, Allocator}
use beaveros.Data.Heap.Items.{count}
use beaveros.Kernel.Idt.{InterruptFrame, zero_frame}
use beaveros.Kernel.Sched.{
  Task, TaskState, running, in_queue, xsave_eager, Sched, compare_tasks, leave_task, save_by,
  task_switch_isr,
}
use beaveros.Kernel.Sched.Order.{IsWindow, compare_tasks-far}
use beaveros.Kernel.Sched.Switch.{IsScheduling}
use beaveros.Kernel.Sched.Choice.{Switched, left, task_switch_isr_correct}
use beaveros.Kernel.Sched.Tasks.{start_scheduling}

abbrev alloc : Allocator
alloc = record { realloc = λ m old new. m; realloc_keeps = λ m old new i p q. refl }

abbrev task_at : (rip vtime : ℕ) → TaskState → Task
task_at rip vtime state = record {
  saved_state = record zero_frame { rip = rip };
  stack = 0;
  processor_extended_state = rip;
  vtime = vtime;
  started_at = 1000;
  nice = 0;
  state = state;
}

-- The task 100 runs, and the task 200 has run for less time.
abbrev two_tasks : ℕ → Task
two_tasks a = if a == 100 then task_at 7 50 running else task_at 9 20 in_queue

abbrev one_waits : MinHeap
one_waits = record { data_block = λ _. 200; size = 1; capacity = 1 }

abbrev two_tasks_state : Sched
two_tasks_state = record {
  extended_state_save_mode = xsave_eager;
  extended_state_size = 512;
  enabled_extended_states = 7;
  queue_lock = 0;
  task_queue = some one_waits;
  total_vtime = 70;
  num_tasks = 2;
  current_task = 100;
  sse_state_owner = 100;
  tasks = two_tasks;
  areas = λ _. 0;
  registers = 3;
  cr0 = 0;
  initial_count = 0;
}

switched_rip : Run (ℕ × ℕ × ℕ)
unfolding task_switch_isr
switched_rip = do
  (f, s) ← task_switch_isr alloc 1010 1020 zero_frame two_tasks_state
  ok (f.rip, s.current_task, s.initial_count)

switched_rip_result : switched_rip ≡ ok (9, 200, 100000)
unfolding switched_rip
switched_rip_result = refl

-- With no other task, the first task's end is not the panic that is meant, but an access outside the
-- heap's array.
alone : Run (Option InterruptFrame × Sched)
unfolding start_scheduling
alone =
    start_scheduling alloc (record { task = 100; area = 200; stack = 300; fresh = λ _. 0 }) 0 0
      zero_frame (record two_tasks_state { task_queue = none; num_tasks = 0; total_vtime = 0 })

alone_result : alone ≡ fault
unfolding alone
alone_result = refl

abbrev far_tasks : ℕ → Task
far_tasks a = if a == 100 then task_at 7 50 running else task_at 9 3_000_000_000 in_queue

compare_tasks-far_example :
    (is_neg (compare_tasks far_tasks 200 100) ≡ true)
    × (is_neg (compare_tasks far_tasks 100 200) ≡ false)
compare_tasks-far_example =
    compare_tasks-far far_tasks 100 200 (omega arith) (omega arith) (omega arith)

two_tasks-IsScheduling : IsScheduling two_tasks_state one_waits
unfolding count
two_tasks-IsScheduling = record {
  queue = refl;
  unlocked = refl;
  valid = record {
    ordered = λ c p q. ground arith;
    fits = omega arith;
    room = omega arith;
    bounded = omega arith;
  };
  queued = record {
    waits = λ i p. refl;
    not_null = λ i p. omega arith;
    once = λ x. ground arith;
    absent = refl;
  };
  current = omega arith;
  runs = refl;
}

left-IsWindow : IsWindow (left 1010 zero_frame two_tasks_state).tasks
unfolding leave_task save_by
left-IsWindow = record { words = λ a. ground arith; near = λ a b. ground arith }

task_switch_isr_correct_example :
    Returns
      (Switched (left 1010 zero_frame two_tasks_state).tasks 100 one_waits)
      (task_switch_isr alloc 1010 1020 zero_frame two_tasks_state)
task_switch_isr_correct_example =
    task_switch_isr_correct alloc 1010 1020 zero_frame two_tasks_state one_waits
      two_tasks-IsScheduling left-IsWindow (omega arith)
