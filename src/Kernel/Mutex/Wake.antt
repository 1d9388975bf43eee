-- ===== src/Kernel/Mutex/Wake.antt =====
-- What mutex_unlock of src/mutex.c does to the tasks that wait, and what becomes of them in
-- src/sched.c.
use beaveros.Base.{
  ℕ, zero, suc, ◌<◌, ◌≡◌, ◌≢◌, refl, ◌∙◌, ap, arith, false, List, [], ◌∷◌, length, ◌==◌,
}
use beaveros.Base.Run.{Returns, returns, Returns-bind}
use beaveros.Data.Queue.{Queue, Nodes}
use beaveros.Data.Queue.Chain.{Cells, items}
use beaveros.Data.Queue.Fifo.{IsQueue, dequeue_correct, dequeue-empty}
use beaveros.Kernel.Sched.{Sched, in_queue, spinlock_lock}
use beaveros.Kernel.Mutex.{Mutex, set_state, wake_loop, mutex_unlock}

-- The waiting tasks are set to the state of the run queue, one after the other.
abbrev pub woken : List ℕ → Sched → Sched
woken [] s = s
woken (t ∷ ts) s = woken ts (set_state t in_queue s)

woken-queue : (ts : List ℕ) (s : Sched) → (woken ts s).task_queue ≡ s.task_queue
woken-queue [] s = refl
woken-queue (t ∷ ts) s = woken-queue ts (set_state t in_queue s)

abbrev pub NoNull : List ℕ → Type 0
NoNull [] = Unit {0}
NoNull (t ∷ ts) = (t ≢ 0) × NoNull ts

wake_loop-Returns :
    (xs : Cells) (k : ℕ) (nodes : Nodes) (q : Queue) (s : Sched)
    → IsQueue nodes q xs
    → NoNull (items xs)
    → length xs < k
    → Returns
        (λ (nodes', q', s'). IsQueue nodes' q' [] × (s' ≡ woken (items xs) s))
        (wake_loop k nodes q s)
unfolding wake_loop
wake_loop-Returns xs zero nodes q s v n fuel = absurd (omega arith)
wake_loop-Returns [] (suc k) nodes q s v n fuel = rw (dequeue-empty nodes q v) (returns (v, refl))
wake_loop-Returns ((a, t) ∷ xs) (suc k) nodes q s v n fuel =
    Returns-bind (dequeue_correct nodes q a t xs v) λ (r, q', nodes') d.
      let nonzero : (r == 0) ≡ false = ground (arith, d.0, n.0) in
      let rest =
        wake_loop-Returns xs k nodes' q' (set_state t in_queue s) (d.1) (n.1) (omega arith) in
      rw (nonzero, d.0) rest

-- mutex_unlock of a mutex whose spinlock is free returns with the mutex free, nobody waiting, and
-- exactly the tasks that waited set to the state of the run queue; in as many rounds as tasks wait
-- and one more. The run queue itself is left alone.
pub mutex_unlock_correct :
    (xs : Cells) (k : ℕ) (nodes : Nodes) (mutex : Mutex) (s : Sched)
    → mutex.lock ≡ 0
    → IsQueue nodes mutex.waiting_tasks xs
    → NoNull (items xs)
    → length xs < k
    → Returns
        (λ (nodes', mutex', s').
          (mutex'.locked ≡ 0)
          × (mutex'.lock ≡ 0)
          × IsQueue nodes' mutex'.waiting_tasks []
          × (s' ≡ woken (items xs) s)
          × (s'.task_queue ≡ s.task_queue))
        (mutex_unlock k nodes mutex s)
unfolding mutex_unlock spinlock_lock
mutex_unlock_correct xs k nodes mutex s free v n fuel = rw free (
    Returns-bind (wake_loop-Returns xs k nodes mutex.waiting_tasks s v n fuel) λ (nodes', q', s') w.
      returns
        (refl, refl, w.0, w.1, ap (λ (t : Sched). t.task_queue) (w.1) ∙ woken-queue (items xs) s))
