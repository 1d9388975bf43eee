-- ===== src/Kernel/Mutex.antt =====
-- src/mutex.c, with src/include/threading/mutex.h. The scheduler's state and the nodes of the waiting
-- queue are passed along; `fresh` is the node that malloc returns.
pub mod Wake
pub mod Lost
mod Tests
use beaveros.Base.{ℕ, zero, suc, Bool, true, false, ◌==◌, if◌then◌else◌}
use beaveros.Base.Run.{Run, ok, out_of_fuel, ◌>>=◌}
use beaveros.Data.Queue.{Queue, Nodes, enqueue, dequeue}
use beaveros.Kernel.Sched.{
  Task, TaskState, in_queue, frozen, Sched, set_task, spinlock_lock, spinlock_unlock,
}

-- `mutex_t`
pub record Mutex : Type 0 where
  pub waiting_tasks : Queue
  pub lock : ℕ
  pub locked : ℕ

-- `t->state = state`
abbrev pub set_state : (t : ℕ) → TaskState → Sched → Sched
set_state t state s = record s { tasks = set_task t (record (s.tasks t) { state = state }) s.tasks }

-- One round of the loop in `mutex_lock`: whether the mutex is the caller's now. If not, the caller
-- is frozen, and yields next.
unfoldable pub mutex_lock_round :
    (fresh : ℕ) → Nodes → Mutex → Sched → Run (Bool × Nodes × Mutex × Sched)
unfolding enqueue spinlock_lock
mutex_lock_round fresh nodes mutex s = do
  lock ← spinlock_lock mutex.lock 1
  let taken = ok (true, nodes, record mutex { locked = 1; lock = spinlock_unlock }, s)
  let waits = do
    (q, nodes) ← enqueue fresh nodes mutex.waiting_tasks s.current_task
    ok (
      false,
      nodes,
      record mutex { waiting_tasks = q; lock = spinlock_unlock },
      set_state s.current_task frozen s,
    )
  if mutex.locked == 0 then taken else waits

-- `for (;;)` of `mutex_unlock`: dequeue gives 0 for NULL.
unfoldable pub wake_loop : ℕ → Nodes → Queue → Sched → Run (Nodes × Queue × Sched)
unfolding dequeue
wake_loop zero nodes q s = out_of_fuel
wake_loop (suc k) nodes q s = do
  (t, q', nodes') ← dequeue nodes q
  let rest = wake_loop k nodes' q' (set_state t in_queue s)
  if t == 0 then ok (nodes', q', s) else rest

unfoldable pub mutex_unlock : ℕ → Nodes → Mutex → Sched → Run (Nodes × Mutex × Sched)
unfolding wake_loop spinlock_lock
mutex_unlock k nodes mutex s = do
  lock ← spinlock_lock mutex.lock 1
  (nodes, q, s) ← wake_loop k nodes mutex.waiting_tasks s
  ok (nodes, record mutex { waiting_tasks = q; locked = 0; lock = spinlock_unlock }, s)
