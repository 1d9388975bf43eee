-- ===== src/Loader/Paging/Open.antt =====
-- One level of `map_page` of src/loader/paging.c in page tables that are a tree: the entry leads to
-- the table below, which is new if there was none.
use mathlib.Core.Path.{subst}
use native.Mathlib.Decide.{ℕ_discrete}
use beaveros.Base.{
  ℕ, suc, ◌+◌, ◌*◌, ◌%◌, ◌<◌, ◌≤◌, ◌≡◌, ◌∙◌, sym, ap, refl, arith, Bool, true, false, inl, inr,
  Bool-cases, if-true,
}
use beaveros.Base.Memory.{store_self, store_ne}
use beaveros.Base.Bytes.{IsBytes}
use beaveros.Kernel.Mapper.{has, page_p_bit}
use beaveros.Kernel.Mapper.Tables.{target}
use beaveros.Kernel.Mapper.Window.{has_p, addr_of_page}
use beaveros.Paging.{walk}
use beaveros.Paging.Layout.{Layout, IsTree, IsBlank, page_of, outside_tables}
use beaveros.Paging.Kept.{Keeps, same, still_missing, walk-Keeps}
use beaveros.Paging.Steps.{SameElsewhere, LeadsDown, add_table, old_level, old_prefix, IsTree-grow}
use beaveros.Paging.Link.{Link, Extends}
use beaveros.Loader.Paging.{Loader, entry_at, fill_entry, table_of}
use beaveros.Loader.Paging.Entries.{HasRoom, Filled, fill_entry-Filled}

-- The loader's memory is bytes, and its page tables are a tree.
pub record IsSpace (l : Layout) (s : Loader) : Type 0 where
  pub tree : IsTree l s.pml4 s.used_memory (entry_at s)
  pub bytes : IsBytes s.memory

-- The bytes in use outside the tables stay, and their pages stay outside.
pub record KeepsPages (l l' : Layout) (s s' : Loader) : Type 0 where
  pub byte : (a : ℕ) → a < s.used_memory → 4 ≤ l.level (page_of a) → s'.memory a ≡ s.memory a
  pub free : (p : ℕ) → p < s.used_memory → 4 ≤ l.level p → 4 ≤ l'.level p

-- The state after a level of the walk was opened.
pub record Opened (l l' : Layout) (t i k : ℕ) (s s' : Loader) : Type 0 where
  pub space : IsSpace l' s'
  pub root : s'.pml4 ≡ s.pml4
  pub used :
      (s.used_memory ≤ s'.used_memory)
      × (s'.used_memory ≤ s.used_memory + 4096)
      × (s'.used_memory % 4096 ≡ 0)
  pub more : Extends l l'
  pub link : Link l' (entry_at s') t i k
  pub elsewhere : SameElsewhere l (t + 8 * i) (entry_at s) (entry_at s')
  pub quiet : has (entry_at s' (t + 8 * i)) page_p_bit ≡ has (entry_at s (t + 8 * i)) page_p_bit
  pub table : table_of s' (t + 8 * i) ≡ target (entry_at s' (t + 8 * i))
  pub walks : (v : ℕ) → walk 3 (entry_at s') s'.pml4 v ≡ walk 3 (entry_at s) s.pml4 v
  pub keeps : KeepsPages l l' s s'

module _ (l : Layout) (t i k : ℕ) (s : Loader) (space : IsSpace l s) (room : HasRoom s 1)
    (at : l.level t ≡ suc k) (small : suc k < 4) (hi : i < 512) where
  abbrev e : ℕ
  e = t + 8 * i

  abbrev u : ℕ
  u = s.used_memory

  abbrev l' : Layout
  l' = add_table l u k (l.prefix t * 512 + i)

  open_present : has (entry_at s e) page_p_bit ≡ true → Opened l l t i k s s
  unfolding table_of
  open_present on =
      let down = space.tree.child t i k at small hi on in
      let end = space.tree.inside (target (entry_at s e)) (omega arith) in
      record {
        space = space;
        root = refl;
        used = (omega arith, omega arith, room.page);
        more = λ x h. (refl, refl);
        link = record { down = down; ready = inl on };
        elsewhere = λ x j hx hj ne. refl;
        quiet = refl;
        table = omega (arith, room.room);
        walks = λ v. refl;
        keeps = record { byte = λ a h out. refl; free = λ p h out. out };
      }

  module _ (s' : Loader) (f : Filled e s s') (off : has (entry_at s e) page_p_bit ≡ false) where
    new_entry_off : has (entry_at s' e) page_p_bit ≡ false
    new_entry_off = ap (λ (w : ℕ). has w page_p_bit) f.entry ∙ ground (arith, has_p u, room.page)

    new-IsBlank : IsBlank (entry_at s') u
    new-IsBlank j hj =
        ap (λ (w : ℕ). has w page_p_bit) (f.clear (u + 8 * j) (omega arith) (omega arith))

    new_elsewhere : SameElsewhere l e (entry_at s) (entry_at s')
    new_elsewhere x j hx hj ne =
        let (aligned, end) = space.tree.inside x hx in
        let (aligned', end') = space.tree.inside t (omega arith) in
        f.same (x + 8 * j) (omega arith) (ground arith)

    new_target : target (entry_at s' e) ≡ u
    new_target = ap target f.entry ∙ addr_of_page u (omega (arith, room.page, room.room))

    new_present :
        (x j : ℕ)
        → l.level x < 4
        → j < 512
        → has (entry_at s' (x + 8 * j)) page_p_bit ≡ true
        → entry_at s' (x + 8 * j) ≡ entry_at s (x + 8 * j)
    new_present x j hx hj on = elim (ℕ_discrete (x + 8 * j) e) [
      | yes here ↦
          absurd (clash _ on (ap (λ (a : ℕ). has (entry_at s' a) page_p_bit) here ∙ new_entry_off))
      | no other ↦ new_elsewhere x j hx hj other
    ]
      where
        clash : (b : Bool) → b ≡ true → b ≡ false → ⊥
        clash true p q = absurd (ground arith)
        clash false p q = absurd (ground arith)

    new-Keeps :
        (x j : ℕ)
        → l.level x < 4
        → j < 512
        → Keeps (entry_at s) (entry_at s') (l.level x) (x + 8 * j)
    new-Keeps x j hx hj = elim (ℕ_discrete (x + 8 * j) e) [
      | yes here ↦
          subst (λ (a : ℕ). Keeps (entry_at s) (entry_at s') (l.level x) a) (sym here)
            (still_missing off new_entry_off)
      | no other ↦ same (new_elsewhere x j hx hj other)
    ]

    open_missing : Opened l l' t i k s s'
    unfolding table_of
    open_missing =
        let tree = space.tree in
        let root = s.pml4 in
        let grown =
          IsTree-grow l root u (entry_at s) (entry_at s') tree k (l.prefix t * 512 + i) room.page
            (omega arith) new-IsBlank new_present in
        let prefix_t =
          old_prefix l root u (entry_at s) (entry_at s') tree k (l.prefix t * 512 + i) room.page t
            (omega arith) in
        record {
          space = record {
            tree =
                subst (λ (x : ℕ). IsTree l' x s'.used_memory (entry_at s')) (sym f.root)
                  (subst (λ (x : ℕ). IsTree l' root x (entry_at s')) (sym f.used) grown);
            bytes = f.bytes space.bytes;
          };
          root = f.root;
          used = (omega (arith, f.used), omega (arith, f.used), omega (arith, f.used, room.page));
          more = λ x h. (
            old_level l root u (entry_at s) (entry_at s') tree k (l.prefix t * 512 + i) room.page x
                h,
            old_prefix l root u (entry_at s) (entry_at s') tree k (l.prefix t * 512 + i) room.page x
                h,
          );
          link = record {
            down =
                subst (λ (c : ℕ). LeadsDown l' t i k c) (sym new_target)
                  (
                    store_self l.level u k,
                    store_self l.prefix u _ ∙ ap (λ (x : ℕ). x * 512 + i) (sym prefix_t),
                  );
            ready = inr (
              new_entry_off,
              subst (λ (c : ℕ). IsBlank (entry_at s') c) (sym new_target) new-IsBlank,
            );
          };
          elsewhere = new_elsewhere;
          quiet = new_entry_off ∙ sym off;
          table = omega (arith, new_target, room.room);
          walks = λ v.
              ap (λ (x : ℕ). walk 3 (entry_at s') x v) f.root
              ∙ walk-Keeps l root u (entry_at s) (entry_at s') tree new-Keeps 3 root v tree.top.0
                  (omega arith);
          keeps = record {
            byte = λ a h out.
                f.kept a h (outside_tables l root u (entry_at s) t i a tree (omega arith) hi out);
            free = λ p h out. rw (store_ne l.level u k p (λ e. absurd (omega arith))) out;
          };
        }

  -- `fill_entry` opens the level.
  pub fill_entry-Opened : (l' : Layout) × Opened l l' t i k s (fill_entry e s)
  unfolding fill_entry
  fill_entry-Opened = elim (Bool-cases (has (entry_at s e) page_p_bit)) [
    | inl on ↦
        (l, subst (λ (x : Loader). Opened l l t i k s x) (sym (if-true _ _ _ on)) (open_present on))
    | inr off ↦
        let end = space.tree.inside t (omega arith) in
        let f = fill_entry-Filled e s room (omega arith) off in
        (l', open_missing (fill_entry e s) f off)
  ]
