-- ===== src/Kernel/Sched/Order.antt =====
-- The order that compare_tasks of src/sched.c gives the run queue.
use native.Mathlib.Decide.{dec_lt}
use beaveros.Base.{ℕ, ◌+◌, ◌-◌, ◌/◌, ◌^◌, ◌<◌, ◌≤◌, ◌≡◌, arith, true, false, ltb, leb, u32, u64}
use beaveros.Base.Int.{is_neg, signed32}
use beaveros.Data.Heap.{MinHeap}
use beaveros.Data.Heap.Order.{ComparesBy, IsValid}
use beaveros.Kernel.Sched.{Task, compare_tasks}

abbrev pub vtime_of : (ℕ → Task) → ℕ → ℕ
vtime_of tasks a = (tasks a).vtime

-- The times of all tasks lie within 2 ^ 31 of one another, and are words.
pub record IsWindow (tasks : ℕ → Task) : Type 0 where
  pub words : (a : ℕ) → vtime_of tasks a < 2 ^ 64
  pub near : (a b : ℕ) → vtime_of tasks a < vtime_of tasks b + 2 ^ 31

is_neg-signed32 : (w : ℕ) → w < 2 ^ 32 → is_neg (signed32 w) ≡ leb (2 ^ 31) w
is_neg-signed32 w h = ground arith

-- The 32-bit pattern of a difference of words.
lower :
    (a b : ℕ) → a < b → b < 2 ^ 64 → b < a + 2 ^ 32 → u32 (u64 (a + 2 ^ 64 - b)) ≡ a + 2 ^ 32 - b
lower a b h word near = omega arith

higher : (a b : ℕ) → b ≤ a → a < 2 ^ 64 → a < b + 2 ^ 32 → u32 (u64 (a + 2 ^ 64 - b)) ≡ a - b
higher a b h word near = omega arith

difference_sign :
    (a b : ℕ)
    → a < 2 ^ 64
    → b < 2 ^ 64
    → a < b + 2 ^ 31
    → b < a + 2 ^ 31
    → is_neg (signed32 (u32 (u64 (a + 2 ^ 64 - b)))) ≡ ltb a b
difference_sign a b p q r t = elim (dec_lt a b) [
  | yes before ↦
      rw (lower a b before q (omega arith), is_neg-signed32 (a + 2 ^ 32 - b) (omega arith))
        (ground arith)
  | no behind ↦
      rw (higher a b (omega arith) p (omega arith), is_neg-signed32 (a - b) (omega arith))
        (ground arith)
]

-- While the times of all tasks lie within 2 ^ 31 of one another, compare_tasks orders tasks by their
-- time.
pub compare_tasks-ComparesBy :
    (tasks : ℕ → Task) → IsWindow tasks → ComparesBy (compare_tasks tasks) (vtime_of tasks)
unfolding compare_tasks
compare_tasks-ComparesBy tasks w a b =
    difference_sign (vtime_of tasks a) (vtime_of tasks b) (w.words a) (w.words b) (w.near a b)
      (w.near b a)

-- Of two tasks whose times lie more than 2 ^ 31 and less than 2 ^ 32 apart, compare_tasks puts the
-- later one first.
pub compare_tasks-far :
    (tasks : ℕ → Task) (a b : ℕ)
    → vtime_of tasks b < 2 ^ 64
    → vtime_of tasks a + 2 ^ 31 < vtime_of tasks b
    → vtime_of tasks b < vtime_of tasks a + 2 ^ 32
    → (is_neg (compare_tasks tasks b a) ≡ true) × (is_neg (compare_tasks tasks a b) ≡ false)
unfolding compare_tasks
compare_tasks-far tasks a b word far near =
    let x = vtime_of tasks a in
    let y = vtime_of tasks b in
    (
      rw (higher y x (omega arith) word near, is_neg-signed32 (y - x) (omega arith)) (ground arith),
      rw (lower x y (omega arith) word near, is_neg-signed32 (x + 2 ^ 32 - y) (omega arith))
          (ground arith),
    )

-- The order of a heap hangs on the times of its own items alone.
pub IsValid-same :
    (f g : ℕ → ℕ) (h : MinHeap)
    → IsValid f h
    → ((i : ℕ) → i < h.size → g (h.data_block i) ≡ f (h.data_block i))
    → IsValid g h
IsValid-same f g h v same = record {
  ordered = λ c p q. omega (arith, v.ordered c p q, same c q, same (c / 2) (omega arith));
  fits = v.fits;
  room = v.room;
  bounded = v.bounded;
}
