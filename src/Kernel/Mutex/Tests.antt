-- ===== src/Kernel/Mutex/Tests.antt =====
-- Runs of src/mutex.c, and its theorems there: the task 100 holds the mutex, and 200 waits for it.
use beaveros.Base.{ℕ, ◌≡◌, ◌≢◌, refl, arith, false, some, none, [], ◌∷◌, ◌==◌, if◌then◌else◌, Bool}
use beaveros.Base.Run.{Run, ok, ◌>>=◌, Returns}
use beaveros.Data.Heap.{MinHeap, Allocator}
use beaveros.Data.Queue.{node, Nodes, update, queue}
use beaveros.Data.Queue.Chain.{Cells}
use beaveros.Data.Queue.Fifo.{IsQueue}
use beaveros.Kernel.Idt.{zero_frame}
use beaveros.Kernel.Sched.{Task, TaskState, running, in_queue, frozen, xsave_eager, Sched}
use beaveros.Kernel.Mutex.{Mutex, mutex_lock_round, mutex_unlock}
use beaveros.Kernel.Mutex.Wake.{woken, mutex_unlock_correct}
use beaveros.Kernel.Mutex.Lost.{IsLost, Step, unlocked, here, next, IsLost-never_runs}

abbrev alloc : Allocator
alloc = record { realloc = λ m old new. m; realloc_keeps = λ m old new i p q. refl }

abbrev task_at : (vtime : ℕ) → TaskState → Task
task_at vtime state = record {
  saved_state = zero_frame;
  stack = 0;
  processor_extended_state = 0;
  vtime = vtime;
  started_at = 0;
  nice = 0;
  state = state;
}

-- The heap has the task 300 alone.
abbrev queue_of_300 : MinHeap
queue_of_300 = record { data_block = λ _. 300; size = 1; capacity = 2 }

-- The task 200 is frozen.
abbrev holding : Sched
holding = record {
  extended_state_save_mode = xsave_eager;
  extended_state_size = 512;
  enabled_extended_states = 7;
  queue_lock = 0;
  task_queue = some queue_of_300;
  total_vtime = 0;
  num_tasks = 3;
  current_task = 100;
  sse_state_owner = 100;
  tasks = λ a.
      if a == 100
      then task_at 9 running
      else if a == 200
      then task_at 5 frozen
      else task_at 7 in_queue;
  areas = λ _. 0;
  registers = 0;
  cr0 = 0;
  initial_count = 0;
}

abbrev nodes : Nodes
nodes = update (λ _. none) 16 (some (node 200 0))

abbrev mutex : Mutex
mutex = record { waiting_tasks = queue 16 16; lock = 0; locked = 1 }

abbrev waiting : Cells
waiting = (16, 200) ∷ []

waiting-IsQueue : IsQueue nodes (queue 16 16) waiting
waiting-IsQueue = record { starts = refl; chain = ground arith; ends = refl }

mutex_unlock_correct_example :
    Returns
      (λ (nodes', mutex', s').
        (mutex'.locked ≡ 0)
        × (mutex'.lock ≡ 0)
        × IsQueue nodes' mutex'.waiting_tasks []
        × (s' ≡ woken (200 ∷ []) holding)
        × (s'.task_queue ≡ some queue_of_300))
      (mutex_unlock 2 nodes mutex holding)
mutex_unlock_correct_example =
    mutex_unlock_correct waiting 2 nodes mutex holding refl waiting-IsQueue (omega arith)
      (omega arith)

holding-IsLost : IsLost 200 holding
holding-IsLost = record {
  heap = queue_of_300;
  queue = refl;
  misses = λ i p. omega arith;
  sound = omega arith;
  other = omega arith;
}

-- mutex_unlock wakes the task 200, and it is lost all the same.
unlocking : Step alloc 200 holding (woken (200 ∷ []) holding)
unfolding mutex_unlock
unlocking =
    unlocked 2 nodes (update nodes 16 none) mutex
      (record { waiting_tasks = queue 0 16; lock = 0; locked = 0 }) refl

IsLost-never_runs_example : (◌≢◌ {A = ℕ} 100 200) × IsLost 200 (woken (200 ∷ []) holding)
IsLost-never_runs_example =
    IsLost-never_runs alloc 200 holding (woken (200 ∷ []) holding) holding-IsLost
      (next here unlocking)

-- The round of mutex_lock that the task 200 froze in.
lock_round : Run (Bool × ℕ)
unfolding mutex_lock_round
lock_round = do
  (taken, n, m, s) ←
      mutex_lock_round 16 (λ _. none) (record mutex { waiting_tasks = queue 0 0 }) holding
  ok (taken, m.waiting_tasks.head)

lock_round_result : lock_round ≡ ok (false, 16)
unfolding lock_round
lock_round_result = refl
