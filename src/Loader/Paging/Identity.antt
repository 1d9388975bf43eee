-- ===== src/Loader/Paging/Identity.antt =====
-- `setup_identity_paging` of src/loader/paging.c: every page of the memory in use is mapped to
-- itself, those of the tables that the loop makes included.
use mathlib.Core.Path.{subst}
use native.Mathlib.Decide.{ℕ_discrete}
use beaveros.Base.{
  ℕ, zero, suc, ◌+◌, ◌-◌, ◌*◌, ◌/◌, ◌%◌, ◌^◌, ◌<◌, ◌≤◌, ◌≡◌, ◌≢◌, ◌∙◌, sym, ap, refl, arith, Bool,
  false, Option, some, inl, inr, bit_or, ltb, u64, if◌then◌else◌, if-true, if-false, Bool-cases,
}
use beaveros.Base.Run.{Returns, returns, Returns-bind}
use beaveros.Kernel.Mapper.{page_p_bit}
use beaveros.Kernel.Mapper.Leaf.{leaf, arguments_ok-canonical}
use beaveros.Paging.{index-lt, path, page_number, page_number-path, walk}
use beaveros.Paging.Same.{walk-page}
use beaveros.Paging.Layout.{Layout}
use beaveros.Loader.Paging.{Loader, entry_at, rw_global, identity_loop, setup_identity_paging}
use beaveros.Loader.Paging.Open.{IsSpace}
use beaveros.Loader.Paging.Space.{Mapped, map_page_refines}

-- The entry that maps a page to itself.
abbrev pub identity_entry : ℕ → ℕ
identity_entry page = leaf (page * 4096) (bit_or rw_global page_p_bit)

-- The entry for an address where the memory under `top` is mapped to itself, and all other pages as
-- the state `s` maps them.
abbrev pub identity_walk : (top : ℕ) → Loader → (virt : ℕ) → Option ℕ
identity_walk top s virt =
    if ltb (page_number virt * 4096) top
    then some (identity_entry (page_number virt))
    else walk 3 (entry_at s) s.pml4 virt

-- The pages in use at most when the loop has come to the address `i`, from `u` at the start: three
-- for each lowest table.
abbrev used_by : (u i : ℕ) → ℕ
used_by u i = u + 3 * 4096 * ((i / 4096 + 511) / 512)

-- What the loop has done at the address `i`.
record Under (s0 : Loader) (i : ℕ) (s : Loader) : Type 0 where
  pub layout : Layout
  pub space : IsSpace layout s
  pub root : s.pml4 ≢ 0
  pub page : i % 4096 ≡ 0
  pub used :
      (s.used_memory % 4096 ≡ 0)
      × (s0.used_memory ≤ s.used_memory)
      × (s.used_memory ≤ used_by s0.used_memory i)
      × (i ≤ s.used_memory)
  pub walks : (v : ℕ) → walk 3 (entry_at s) s.pml4 v ≡ identity_walk i s0 v

page_number-small : (i : ℕ) → i < 2 ^ 32 → page_number i ≡ i / 4096
page_number-small i h = omega arith

-- The page before is under the same lowest table.
path-before :
    (i : ℕ) → i % 4096 ≡ 0 → i < 2 ^ 32 → i / 4096 % 512 ≢ 0 → path 0 (i - 4096) ≡ path 0 i
path-before i page small inner =
    let a = page_number-path i in
    let b = page_number-path (i - 4096) in
    let a0 = index-lt 0 i in let b0 = index-lt 0 (i - 4096) in omega arith

module _ (s0 : Loader) (i : ℕ) (s s' : Loader) (under : Under s0 i s) (before : i < s.used_memory)
    (small : i < 2 ^ 32)
    (mapped : Mapped under.layout i (leaf i (bit_or rw_global page_p_bit)) s s') where
  step-used : s'.used_memory ≤ used_by s0.used_memory (i + 4096)
  step-used = elim (ℕ_discrete (i / 4096 % 512) 0) [
    | yes first ↦ omega (arith, under.used, under.page, mapped.used)
    | no inner ↦
        let prev : page_number (i - 4096) * 4096 < i =
          omega (arith, under.page, page_number-small (i - 4096) (omega arith)) in
        let found =
          under.walks (i - 4096)
          ∙ if-true _ _ (ltb (page_number (i - 4096) * 4096) i) (ground arith) in
        let same = mapped.none_new (i - 4096) _ (path-before i under.page small inner) found in
        omega (arith, under.used, under.page)
  ]

  step-walks : (v : ℕ) → walk 3 (entry_at s') s'.pml4 v ≡ identity_walk (i + 4096) s0 v
  step-walks v = elim (ℕ_discrete (page_number v) (page_number i)) [
    | yes here ↦
        let number = page_number-small i small in
        let at : i ≡ page_number v * 4096 = omega (arith, under.page) in
        walk-page (entry_at s') s'.pml4 v i here
        ∙ mapped.here
        ∙ ap (λ (x : ℕ). some (leaf x (bit_or rw_global page_p_bit))) at
        ∙ sym (if-true _ _ (ltb (page_number v * 4096) (i + 4096)) (ground arith))
    | no other ↦
        let number = page_number-small i small in
        let same : ltb (page_number v * 4096) i ≡ ltb (page_number v * 4096) (i + 4096) =
          ground (arith, under.page) in
        mapped.elsewhere v other
        ∙ under.walks v
        ∙ ap
            (λ (b : Bool).
              if b then some (identity_entry (page_number v)) else walk 3 (entry_at s0) s0.pml4 v)
            same
  ]

  step : Under s0 (i + 4096) s'
  step =
      let used = under.used in
      let used' = mapped.used in
      record {
        layout = mapped.layout;
        space = mapped.space;
        root = λ e. under.root (sym mapped.root ∙ e);
        page = omega (arith, under.page);
        used = (omega arith, omega arith, step-used, omega (arith, under.page));
        walks = step-walks;
      }

-- The state after the loop.
pub record IdentityMapped (s s' : Loader) : Type 0 where
  pub layout : Layout
  pub space : IsSpace layout s'
  pub used :
      (s'.used_memory % 4096 ≡ 0)
      × (s.used_memory ≤ s'.used_memory)
      × (s'.used_memory ≤ 2 * s.used_memory + 8 * 4096)
  pub walks : (v : ℕ) → walk 3 (entry_at s') s'.pml4 v ≡ identity_walk s'.used_memory s v

module _ (s0 : Loader) (small : s0.used_memory + 2 ^ 16 ≤ 2 ^ 31) where
  done :
      (i : ℕ) (s : Loader)
      → i ≤ 2 * s0.used_memory + 8 * 4096
      → Under s0 i s
      → ltb i s.used_memory ≡ false
      → IdentityMapped s0 s
  done i s low under at_end =
      let at : i ≡ s.used_memory = ground (arith, under.used) in
      record {
        layout = under.layout;
        space = under.space;
        used = (omega (arith, under.used), omega (arith, under.used), omega arith);
        walks = λ v. under.walks v ∙ ap (λ (x : ℕ). identity_walk x s0 v) at;
      }

  identity_loop-IdentityMapped :
      (k i : ℕ) (s : Loader)
      → i ≤ 2 * s0.used_memory + 8 * 4096
      → 2 * s0.used_memory + 8 * 4096 < k * 4096 + i
      → Under s0 i s
      → Returns (IdentityMapped s0) (identity_loop k i s)
  unfolding identity_loop
  identity_loop-IdentityMapped zero i s low fuel under = absurd (omega arith)
  identity_loop-IdentityMapped (suc k) i s low fuel under =
      elim (Bool-cases (ltb i s.used_memory)) [
        | inr at_end ↦
            subst (λ r. Returns (IdentityMapped s0) r)
              (sym (if-false _ _ (ltb i s.used_memory) at_end))
              (returns (done i s low under at_end))
        | inl inside ↦
            let before : i < s.used_memory = ground arith in
            let used = under.used in
            let next : u64 (i + 4096) ≡ i + 4096 = omega arith in
            subst (λ r. Returns (IdentityMapped s0) r)
              (sym (if-true _ _ (ltb i s.used_memory) inside))
              (Returns-bind
                (map_page_refines under.layout i i rw_global s under.space
                  (record { page = used.0; room = omega arith }) under.root (omega arith)
                  (arguments_ok-canonical i i under.page (omega arith) (inl (omega arith))
                    (omega (arith, under.page))))
                (λ s' mapped.
                  subst (λ (x : ℕ). Returns (IdentityMapped s0) (identity_loop k x s')) (sym next)
                    (identity_loop-IdentityMapped k (i + 4096) s' (omega (arith, under.page))
                      (omega arith) (step s0 i s s' under before (omega arith) mapped))))
      ]

-- `setup_identity_paging` where the page tables are a tree, whole pages are in use, and these and
-- 64 KiB more are at most 2 GiB: with fuel for 2 ^ 20 rounds it returns, although each page that it
-- maps may take pages that are to be mapped too. The page tables are a tree then, at most as much memory again and eight pages more
-- are in use, every page of the memory in use, the new tables included, is mapped to itself with
-- the flags for global data that can be written, and every other page is mapped as it was.
pub setup_identity_paging_correct :
    (l : Layout) (s : Loader) (k : ℕ)
    → IsSpace l s
    → s.used_memory % 4096 ≡ 0
    → s.used_memory + 2 ^ 16 ≤ 2 ^ 31
    → s.pml4 ≢ 0
    → 2 ^ 20 ≤ k
    → Returns (IdentityMapped s) (setup_identity_paging k s)
unfolding setup_identity_paging
setup_identity_paging_correct l s k space page small root fuel =
    identity_loop-IdentityMapped s small k 0 s (omega arith) (omega arith) (record {
      layout = l;
      space = space;
      root = root;
      page = refl;
      used = (page, omega arith, omega arith, omega arith);
      walks = λ v. sym (if-false _ _ (ltb (page_number v * 4096) 0) (ground arith));
    })
