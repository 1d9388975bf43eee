-- ===== src/Kernel/Break/Pages.antt =====
-- Which pages `sbrk` of src/memory/memory.c maps and unmaps.
use native.Mathlib.Decide.{dec_lt}
use beaveros.Base.{
  ℕ, zero, suc, ◌+◌, ◌-◌, ◌*◌, ◌/◌, ◌%◌, ◌^◌, ◌<◌, ◌≤◌, ◌≡◌, ◌⊎◌, ◌∙◌, refl, sym, ap, arith, true,
  false, not, ◌&&◌, ◌||◌, ◌==◌, if◌then◌else◌, ltb, List, [], ◌∷◌, inl, inr, ltb→lt, Bool-cases,
  u64, neg64, if-true, if-false,
}
use beaveros.Base.Int.{signed64, is_neg}
use beaveros.Base.Run.{Run, ok, panic, ◌>>=◌, bind_assoc, bind-same}
use beaveros.Kernel.Mapper.{Mapper, map_anon, map_page}
use beaveros.Kernel.Boot.{kernel_page}
use beaveros.Kernel.Break.{Break, round_up, grow_loop, shrink_loop, sbrk}

-- `n` pages from `a` up, and from below `a` down.
abbrev pub pages_up : (a n : ℕ) → List ℕ
pages_up a zero = []
pages_up a (suc n) = a ∷ pages_up (a + 4096) n

abbrev pub pages_down : (a n : ℕ) → List ℕ
pages_down a zero = []
pages_down a (suc n) = (a - 4096) ∷ pages_down (a - 4096) n

-- `map_page` on each of the pages, with these flags and no page of its own.
abbrev pub map_each : (flags : ℕ) → List ℕ → Mapper → Run Mapper
map_each flags [] m = ok m
map_each flags (virt ∷ rest) m = map_page virt map_anon flags m >>= map_each flags rest

-- The break at `a` with these page tables.
abbrev pub break_at : ℕ → Mapper → Run Break
break_at a m = ok (record { prog_break = a; mapper = m })

-- The loops are the calls for the pages, and end at the new break.
grow_loop_lem :
    (k n a new_break : ℕ) (m : Mapper)
    → n < k
    → new_break ≡ a + 4096 * n
    → new_break < 2 ^ 64
    → grow_loop k new_break (record { prog_break = a; mapper = m })
      ≡ map_each kernel_page (pages_up a n) m >>= break_at new_break
unfolding grow_loop
grow_loop_lem zero n a e m h same w = absurd (omega arith)
grow_loop_lem (suc k) zero a e m h same w =
    let done : ltb a e ≡ false = ground arith in
    let at : a ≡ e = omega arith in if-false _ _ (ltb a e) done ∙ ap (λ (x : ℕ). break_at x m) at
grow_loop_lem (suc k) (suc n) a e m h same w =
    let more : ltb a e ≡ true = ground arith in
    let next : u64 (a + 4096) ≡ a + 4096 = omega arith in
    if-true _ _ (ltb a e) more
    ∙ bind-same (map_page a map_anon kernel_page m) _ _
        (λ m'. rw next (grow_loop_lem k n (a + 4096) e m' (omega arith) (omega arith) w))
    ∙ sym (bind_assoc (map_page a map_anon kernel_page m) _ _)

shrink_loop_lem :
    (k n a new_break : ℕ) (m : Mapper)
    → n < k
    → a ≡ new_break + 4096 * n
    → a < 2 ^ 64
    → shrink_loop k new_break (record { prog_break = a; mapper = m })
      ≡ map_each 0 (pages_down a n) m >>= break_at new_break
unfolding shrink_loop
shrink_loop_lem zero n a e m h same w = absurd (omega arith)
shrink_loop_lem (suc k) zero a e m h same w =
    let done : ltb e a ≡ false = ground arith in
    let at : a ≡ e = omega arith in if-false _ _ (ltb e a) done ∙ ap (λ (x : ℕ). break_at x m) at
shrink_loop_lem (suc k) (suc n) a e m h same w =
    let more : ltb e a ≡ true = ground arith in
    let next : u64 (a + (2 ^ 64 - 4096)) ≡ a - 4096 = omega arith in
    if-true _ _ (ltb e a) more
    ∙ ap
        (λ (x : ℕ).
          map_page x map_anon 0 m
          >>= (λ m'. shrink_loop k e (record { prog_break = x; mapper = m' })))
        next
    ∙ bind-same (map_page (a - 4096) map_anon 0 m) _ _
        (λ m'. shrink_loop_lem k n (a - 4096) e m' (omega arith) (omega arith) (omega arith))
    ∙ sym (bind_assoc (map_page (a - 4096) map_anon 0 m) _ _)

-- The previous break, with the break at `new_break`.
abbrev pub answer : (old_break new_break : ℕ) → Mapper → Run (ℕ × Break)
answer old_break new_break m = ok (old_break, record { prog_break = new_break; mapper = m })

-- `sbrk` once the new break is known: outside the bounds, and inside them in each direction.
module _ (k b e d new_break : ℕ) (s : Break)
    (at : round_up (u64 (s.prog_break + d)) ≡ new_break) where
  sbrk-outside : (ltb e new_break || ltb new_break b) ≡ true → sbrk k b e d s ≡ panic
  unfolding sbrk
  sbrk-outside out =
      if-true _ _
        (ltb e (round_up (u64 (s.prog_break + d))) || ltb (round_up (u64 (s.prog_break + d))) b)
        (rw at out)

  sbrk-up :
      (ltb e new_break || ltb new_break b) ≡ false
      → (not (is_neg (signed64 d)) && not (d == 0)) ≡ true
      → sbrk k b e d s ≡ grow_loop k new_break s >>= λ s'. ok (s.prog_break, s')
  unfolding sbrk
  sbrk-up inside up =
      let new = round_up (u64 (s.prog_break + d)) in
      if-false _ _ (ltb e new || ltb new b) (rw at inside)
      ∙ if-true _ _ (not (is_neg (signed64 d)) && not (d == 0)) up
      ∙ ap (λ (x : ℕ). grow_loop k x s >>= (λ s'. ok (s.prog_break, s'))) at

  sbrk-down :
      (ltb e new_break || ltb new_break b) ≡ false
      → (not (is_neg (signed64 d)) && not (d == 0)) ≡ false
      → sbrk k b e d s ≡ shrink_loop k new_break s >>= λ s'. ok (s.prog_break, s')
  unfolding sbrk
  sbrk-down inside down =
      let new = round_up (u64 (s.prog_break + d)) in
      if-false _ _ (ltb e new || ltb new b) (rw at inside)
      ∙ if-false _ _ (not (is_neg (signed64 d)) && not (d == 0)) down
      ∙ ap (λ (x : ℕ). shrink_loop k x s >>= (λ s'. ok (s.prog_break, s'))) at

module _ (k b e n : ℕ) (s : Break) (aligned : s.prog_break % 4096 ≡ 0) (first : b % 4096 ≡ 0)
    (room : n + 4096 ≤ b) (above : b ≤ s.prog_break) (below : s.prog_break ≤ e) (w : e < 2 ^ 64)
    (small : n < 2 ^ 63) (positive : 0 < n) (enough : n / 4096 + 1 < k) where
  abbrev pub grown : ℕ
  grown = s.prog_break + 4096 * ((n + 4095) / 4096)

  grow_new : grown ≤ e → round_up (u64 (s.prog_break + n)) ≡ grown
  unfolding round_up
  grow_new fits = omega arith

  -- A break above the address space wraps around, to below the heap.
  grow_out : e < grown → let new = round_up (u64 (s.prog_break + n)) in (new ≡ grown) ⊎ (new < b)
  unfolding round_up
  grow_out over = elim (dec_lt grown (2 ^ 64)) [
    | yes near ↦ inl (omega arith)
    | no far ↦ inr (omega arith)
  ]

  grow_panics : e < grown → sbrk k b e n s ≡ panic
  grow_panics over =
      let side = grow_out over in
      sbrk-outside k b e n (round_up (u64 (s.prog_break + n))) s refl (ground arith)

  sbrk-grow : sbrk k b e n s ≡ (
      if ltb e grown
      then panic
      else (map_each kernel_page (pages_up s.prog_break ((n + 4095) / 4096)) s.mapper
          >>= answer s.prog_break grown))
  sbrk-grow = elim (Bool-cases (ltb e grown)) [
    | inl over ↦ grow_panics (ltb→lt _ _ over) ∙ sym (if-true _ _ (ltb e grown) over)
    | inr fits ↦
        let within : grown ≤ e = ground arith in
        let up : (not (is_neg (signed64 n)) && not (n == 0)) ≡ true = ground arith in
        sbrk-up k b e n grown s (grow_new within) (ground arith) up
        ∙ ap (λ (r : Run Break). r >>= (λ s'. ok (s.prog_break, s')))
            (grow_loop_lem k ((n + 4095) / 4096) s.prog_break grown s.mapper (omega arith) refl
              (ground arith))
        ∙ bind_assoc (map_each kernel_page (pages_up s.prog_break ((n + 4095) / 4096)) s.mapper)
            (break_at grown) (λ s'. ok (s.prog_break, s'))
        ∙ sym (if-false _ _ (ltb e grown) fits)
  ]

  abbrev pub shrunk : ℕ
  shrunk = s.prog_break - 4096 * (n / 4096)

  shrink_new : round_up (u64 (s.prog_break + neg64 n)) ≡ shrunk
  unfolding round_up
  shrink_new = omega arith

  sbrk-shrink : sbrk k b e (neg64 n) s ≡ (
      if ltb s.prog_break (b + 4096 * (n / 4096))
      then panic
      else (map_each 0 (pages_down s.prog_break (n / 4096)) s.mapper
          >>= answer s.prog_break shrunk))
  sbrk-shrink = elim (Bool-cases (ltb s.prog_break (b + 4096 * (n / 4096)))) [
    | inl out ↦
        sbrk-outside k b e (neg64 n) shrunk s shrink_new (ground arith) ∙ sym (if-true _ _ _ out)
    | inr inside ↦
        let down : (not (is_neg (signed64 (neg64 n))) && not (neg64 n == 0)) ≡ false =
          ground arith in
        sbrk-down k b e (neg64 n) shrunk s shrink_new (ground arith) down
        ∙ ap (λ (r : Run Break). r >>= (λ s'. ok (s.prog_break, s')))
            (shrink_loop_lem k (n / 4096) s.prog_break shrunk s.mapper (omega arith) (ground arith)
              (omega arith))
        ∙ bind_assoc (map_each 0 (pages_down s.prog_break (n / 4096)) s.mapper) (break_at shrunk)
            (λ s'. ok (s.prog_break, s'))
        ∙ sym (if-false _ _ (ltb s.prog_break (b + 4096 * (n / 4096))) inside)
  ]

-- In a heap of 64-bit addresses whose start and whose break are multiples of the page size, with
-- the break in the heap, and for `n` bytes, more than 0, less than 2 ^ 63, and at least a page less
-- than the address at which the heap starts: `sbrk` by `n` bytes up maps the fewest new pages above
-- the break that hold them, lowest first, and `sbrk` by `n` bytes down unmaps the whole pages that
-- are below the break in that many bytes, highest first. Each moves the break by these pages and
-- returns the previous one, with fuel for two rounds more than `n` bytes have whole pages, and
-- panics if the break would leave the heap.
pub sbrk_correct :
    (k b e n : ℕ) (s : Break)
    → s.prog_break % 4096 ≡ 0
    → b % 4096 ≡ 0
    → n + 4096 ≤ b
    → b ≤ s.prog_break
    → s.prog_break ≤ e
    → e < 2 ^ 64
    → n < 2 ^ 63
    → 0 < n
    → n / 4096 + 1 < k
    → let up = (n + 4095) / 4096 in
      let down = n / 4096 in
      (sbrk k b e n s ≡ (
        if ltb e (s.prog_break + 4096 * up)
        then panic
        else (map_each kernel_page (pages_up s.prog_break up) s.mapper
            >>= answer s.prog_break (s.prog_break + 4096 * up))))
      × (sbrk k b e (neg64 n) s ≡ (
          if ltb s.prog_break (b + 4096 * down)
          then panic
          else (map_each 0 (pages_down s.prog_break down) s.mapper
              >>= answer s.prog_break (s.prog_break - 4096 * down))))
sbrk_correct k b e n s aligned first room above below w small positive enough = (
  sbrk-grow k b e n s aligned first room above below w small positive enough,
  sbrk-shrink k b e n s aligned first room above below w small positive enough,
)
