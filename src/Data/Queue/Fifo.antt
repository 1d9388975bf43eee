-- ===== src/Data/Queue/Fifo.antt =====
-- `enqueue` and `dequeue` of src/data/queue.c are those of a first-in, first-out queue.
use native.Mathlib.Decide.{ℕ_discrete}
use beaveros.Base.{
  ℕ, ◌≡◌, ◌≢◌, refl, arith, ◌||◌, true, false, none, some, List, [], ◌∷◌, ◌++◌, ◌==◌, ap,
}
use beaveros.Base.Run.{ok, Returns, returns, Returns-map}
use beaveros.Data.Queue.{node, Nodes, update, Queue, enqueue, dequeue}
use beaveros.Data.Queue.Chain.{Cells, has, first, last, Chain, items, Chain-frame, not-has_of_none}

abbrev pub TailIs : ℕ → Cells → Type 0
TailIs t [] = Unit {0}
TailIs t ((a, e) ∷ xs) = t ≡ last a xs

-- The queue holds the cells: `head` leads to them, `tail` is the last node, unless there is none.
pub record IsQueue (s : Nodes) (q : Queue) (xs : Cells) : Type 0 where
  pub starts : q.head ≡ first xs
  pub chain : Chain s xs 0
  pub ends : TailIs q.tail xs

-- The item of the last cell.
abbrev last_item : ℕ → Cells → ℕ
last_item e [] = e
last_item e ((_, f) ∷ xs) = last_item f xs

last-cell :
    (s : Nodes) (a e : ℕ) (xs : Cells) (end : ℕ)
    → Chain s ((a, e) ∷ xs) end
    → (s (last a xs) ≡ some (node (last_item e xs) end)) × (has (last a xs) ((a, e) ∷ xs) ≡ true)
last-cell s a e [] end c = (c.1, ground arith)
last-cell s a e ((b, f) ∷ xs) end c =
    let (at, mem) = last-cell s b f xs end c.3 in (at, ground arith)

has-ne : (a b : ℕ) (xs : Cells) → has b xs ≡ true → has a xs ≡ false → (a == b) ≡ false
has-ne a b xs mem out = elim (ℕ_discrete a b) [
  | yes e ↦ cc (ap (λ (t : ℕ). has t xs) e)
  | no ne ↦ ground arith
]

has-ne' : (a b : ℕ) (xs : Cells) → has b xs ≡ true → has a xs ≡ false → (b == a) ≡ false
has-ne' a b xs mem out = ground (arith, has-ne a b xs mem out)

Chain-head : (s : Nodes) (a e : ℕ) (xs : Cells) (end : ℕ) → Chain s ((a, e) ∷ xs) end → a ≢ 0
Chain-head s a e [] end c = c.0
Chain-head s a e ((b, f) ∷ xs) end c = c.0

has-append : (a : ℕ) (xs ys : Cells) → has a (xs ++ ys) ≡ (has a xs || has a ys)
has-append a [] ys = refl
has-append a ((b, e) ∷ xs) ys = ground (arith, has-append a xs ys)

-- A write of the last node's link.
relink-Chain :
    (s : Nodes) (a e : ℕ) (xs : Cells) (end f : ℕ)
    → Chain s ((a, e) ∷ xs) end
    → Chain (update s (last a xs) (some (node (last_item e xs) f))) ((a, e) ∷ xs) f
relink-Chain s a e [] end f c = ground arith
relink-Chain s a e ((b, g) ∷ xs) end f c =
    let mem = (last-cell s b g xs end c.3).1 in
    let apart : (a == last b xs) ≡ false = has-ne a (last b xs) ((b, g) ∷ xs) mem c.2 in
    (c.0, ground arith, c.2, relink-Chain s b g xs end f c.3)

-- One node more, to which the last link leads.
Chain-snoc :
    (s : Nodes) (a e : ℕ) (xs : Cells) (f g : ℕ)
    → Chain s ((a, e) ∷ xs) f
    → f ≢ 0
    → s f ≡ some (node g 0)
    → has f ((a, e) ∷ xs) ≡ false
    → Chain s ((a, e) ∷ xs ++ (f, g) ∷ []) 0
Chain-snoc s a e [] f g c p h out = ground arith
Chain-snoc s a e ((b, d) ∷ xs) f g c p h out = (
  c.0,
  c.1,
  ground (arith, has-append a ((b, d) ∷ xs) ((f, g) ∷ [])),
  Chain-snoc s b d xs f g c.3 p h (ground arith),
)

items-append : (xs ys : Cells) → items (xs ++ ys) ≡ items xs ++ items ys
items-append [] ys = refl
items-append ((a, e) ∷ xs) ys = ap (λ (l : List ℕ). e ∷ l) (items-append xs ys)

last-snoc : (a e f g : ℕ) (xs : Cells) → TailIs f ((a, e) ∷ xs ++ (f, g) ∷ [])
last-snoc a e f g [] = refl
last-snoc a e f g ((b, d) ∷ xs) = last-snoc b d f g xs

-- `enqueue` links the new node behind the others.
enqueue-cells :
    (fresh : ℕ) (s : Nodes) (q : Queue) (e : ℕ) (xs : Cells)
    → IsQueue s q xs
    → fresh ≢ 0
    → s fresh ≡ none
    → Returns (λ (q', s'). IsQueue s' q' (xs ++ (fresh, e) ∷ [])) (enqueue fresh s q e)
unfolding enqueue
enqueue-cells fresh s q e [] v p unused =
    let empty : (q.head == 0) ≡ true = ground (arith, v.starts) in
    rw empty (returns (record { starts = refl; chain = ground arith; ends = refl }))
enqueue-cells fresh s q e ((a, d) ∷ xs) v p unused =
    let z = last a xs in
    let s' = update s fresh (some (node e 0)) in
    let out = not-has_of_none s ((a, d) ∷ xs) 0 fresh v.chain unused in
    let chain =
      Chain-frame s s' ((a, d) ∷ xs) 0 v.chain
        λ b mem. rw (has-ne' fresh b ((a, d) ∷ xs) mem out) refl in
    let (at, mem) = last-cell s' a d xs 0 chain in
    let full : (q.head == 0) ≡ false = ground (arith, v.starts, Chain-head s a d xs 0 v.chain) in
    let apart = has-ne fresh z ((a, d) ∷ xs) mem out in
    rw (full, v.ends, at)
      (returns (record {
        starts = v.starts;
        chain =
            Chain-snoc (update s' z (some (node (last_item d xs) fresh))) a d xs fresh e
              (relink-Chain s' a d xs 0 fresh chain) p (ground arith) out;
        ends = last-snoc a d fresh e xs;
      }))

-- `enqueue` puts the item behind the others, at an address that `malloc` gives.
pub enqueue_correct :
    (fresh : ℕ) (s : Nodes) (q : Queue) (e : ℕ) (xs : Cells)
    → IsQueue s q xs
    → fresh ≢ 0
    → s fresh ≡ none
    → Returns
        (λ (q', s'). (ys : Cells) × IsQueue s' q' ys × (items ys ≡ items xs ++ e ∷ []))
        (enqueue fresh s q e)
enqueue_correct fresh s q e xs v p unused =
    Returns-map (enqueue-cells fresh s q e xs v p unused)
      λ (q', s') w. (xs ++ (fresh, e) ∷ [], w, items-append xs ((fresh, e) ∷ []))

-- `dequeue` of a queue that is not empty returns its first item, leaves the others in order, and
-- frees the item's node.
pub dequeue_correct :
    (s : Nodes) (q : Queue) (a e : ℕ) (xs : Cells)
    → IsQueue s q ((a, e) ∷ xs)
    → Returns (λ (r, q', s'). (r ≡ e) × IsQueue s' q' xs × (s' a ≡ none)) (dequeue s q)
unfolding dequeue
dequeue_correct s q a e [] v =
    let full : (q.head == 0) ≡ false = ground (arith, v.starts, v.chain) in
    rw (full, v.starts, v.chain.1)
      (returns (refl, record { starts = refl; chain = tt; ends = tt }, ground arith))
dequeue_correct s q a e ((b, d) ∷ xs) v =
    let full : (q.head == 0) ≡ false = ground (arith, v.starts, v.chain.0) in
    let chain =
      Chain-frame s (update s a none) ((b, d) ∷ xs) 0 v.chain.3
        λ i mem. rw (has-ne' a i ((b, d) ∷ xs) mem v.chain.2) refl in
    rw (full, v.starts, v.chain.1)
      (returns (refl, record { starts = refl; chain = chain; ends = v.ends }, ground arith))

-- `dequeue` of an empty queue returns NULL and changes nothing.
pub dequeue-empty : (s : Nodes) (q : Queue) → IsQueue s q [] → dequeue s q ≡ ok (0, q, s)
unfolding dequeue
dequeue-empty s q v = ground (arith, v.starts)
