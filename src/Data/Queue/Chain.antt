-- ===== src/Data/Queue/Chain.antt =====
-- The list that the nodes of src/data/queue.c form.
use beaveros.Base.{
  ℕ, ◌≡◌, ◌≢◌, refl, arith, Bool, true, false, ◌||◌, none, some, List, [], ◌∷◌, ◌==◌,
}
use beaveros.Data.Queue.{node, Nodes}

-- Address and item of each node, in order.
abbrev pub Cells : Type 0
Cells = List (ℕ × ℕ)

abbrev pub has : ℕ → Cells → Bool
has a [] = false
has a ((p, _) ∷ xs) = (a == p) || has a xs

-- The address that leads to the cells, and that of the last of them.
abbrev pub first : Cells → ℕ
first [] = 0
first ((a, _) ∷ xs) = a

abbrev pub last : ℕ → Cells → ℕ
last a [] = a
last a ((b, _) ∷ xs) = last b xs

-- The nodes at the cells are linked in order, at distinct addresses that are not NULL, with the
-- link `end` at the last.
abbrev pub Chain : Nodes → Cells → ℕ → Type 0
Chain s [] end = Unit {0}
Chain s ((a, e) ∷ []) end = (a ≢ 0) × (s a ≡ some (node e end)) × Unit {0}
Chain s ((a, e) ∷ (b, f) ∷ xs) end =
    (a ≢ 0) × (s a ≡ some (node e b)) × (has a ((b, f) ∷ xs) ≡ false) × Chain s ((b, f) ∷ xs) end

-- The items of the cells.
abbrev pub items : Cells → List ℕ
items [] = []
items ((_, e) ∷ xs) = e ∷ items xs

-- A change outside the cells leaves the chain.
pub Chain-frame :
    (s t : Nodes) (xs : Cells) (end : ℕ)
    → Chain s xs end
    → ((a : ℕ) → has a xs ≡ true → t a ≡ s a)
    → Chain t xs end
Chain-frame s t [] end c same = tt
Chain-frame s t ((a, e) ∷ []) end c same = ground (arith, same a)
Chain-frame s t ((a, e) ∷ (b, f) ∷ xs) end c same = (
  c.0,
  ground (arith, same a),
  c.2,
  Chain-frame s t ((b, f) ∷ xs) end c.3 λ i h. same i (ground arith),
)

pub not-has_of_none :
    (s : Nodes) (xs : Cells) (end a : ℕ) → Chain s xs end → s a ≡ none → has a xs ≡ false
not-has_of_none s [] end a c h = refl
not-has_of_none s ((b, e) ∷ []) end a c h = ground arith
not-has_of_none s ((b, e) ∷ (d, f) ∷ xs) end a c h =
    ground (arith, not-has_of_none s ((d, f) ∷ xs) end a c.3 h)
