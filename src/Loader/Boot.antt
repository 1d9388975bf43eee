-- ===== src/Loader/Boot.antt =====
-- `loader_main` of src/loader/boot/main.c. What GRUB leaves in the registers and what the two tests
-- of the processor answer are arguments; the result is what is passed to `enable_long_mode`.
use beaveros.Base.{ℕ, zero, suc, ◌+◌, Bool, not, ◌==◌, if◌then◌else◌, bit_and, u32}
use beaveros.Base.Memory.{Memory}
use beaveros.Base.Bytes.{load}
use beaveros.Base.Run.{Run, ok, panic, out_of_fuel, ◌>>=◌}
use beaveros.Kernel.Multiboot.{
  multiboot2_end_tag, multiboot2_module_tag, tag_at, module_tag_at, multiboot2_next_tag,
}
use beaveros.Loader.Paging.{Loader, extend_used_memory, setup_identity_paging}
use beaveros.Loader.Elf.{is_loaded}
use beaveros.Loader.Elf.Load.{Literals, same_text, load_kernel}

-- `kernel_start` and `kernel_end`
pub record KernelModule : Type 0 where
  pub kernel_start : ℕ
  pub kernel_end : ℕ

-- A module tag whose string is "BEAVEROS", which lies at `name`.
unfoldable pub see_module : (chars : ℕ) → Memory → (name tag : ℕ) → KernelModule → Run KernelModule
unfolding module_tag_at same_text
see_module chars m name tag found = do
  same ← same_text chars m name (u32 (tag + 16))
  let t = module_tag_at m tag
  ok (if same then record { kernel_start = t.mod_start; kernel_end = t.mod_end } else found)

-- The loop over the tags.
unfoldable pub find_kernel :
    (fuel chars : ℕ) → Memory → (name tag : ℕ) → KernelModule → Run KernelModule
unfolding tag_at see_module multiboot2_next_tag
find_kernel zero chars m name tag found = out_of_fuel
find_kernel (suc k) chars m name tag found =
    if (tag_at m tag).type == multiboot2_end_tag then ok found else (do
      found' ←
          if (tag_at m tag).type == multiboot2_module_tag
          then see_module chars m name tag found
          else ok found
      find_kernel k chars m name (multiboot2_next_tag 32 m tag) found')

-- `kernel_entry`, `ebx` and the memory in use.
pub record LongMode : Type 0 where
  pub entry : ℕ
  pub multiboot : ℕ
  pub used_mem : ℕ
  pub loader : Loader

-- The fuels of the loops, and the tests of the processor.
pub record Start : Type 0 where
  pub tags : ℕ
  pub chars : ℕ
  pub headers : ℕ
  pub pages : ℕ
  pub identity : ℕ
  pub check_cpuid : Bool
  pub check_long_mode : Bool

-- From the memory in use on.
unfoldable pub start_kernel : Start → Literals → (ebx : ℕ) → KernelModule → Loader → Run LongMode
unfolding extend_used_memory load_kernel is_loaded setup_identity_paging
start_kernel c l ebx found s =
    if found.kernel_start == 0
    then panic
    else if not (bit_and found.kernel_start 0xfff == 0)
    then panic
    else (do
      (outcome, s1) ←
          load_kernel c.headers c.pages c.chars l found.kernel_start
            (extend_used_memory found.kernel_end s)
      if not (is_loaded outcome) then panic else (do
        s2 ← setup_identity_paging c.identity s1
        ok (record {
          entry = s2.kernel_entry;
          multiboot = ebx;
          used_mem = s2.used_memory;
          loader = s2;
        })))

unfoldable pub loader_main : Start → Literals → (name eax ebx : ℕ) → Loader → Run LongMode
unfolding extend_used_memory load find_kernel start_kernel
loader_main c l name eax ebx s =
    if not (eax == 0x36d7_6289)
    then panic
    else if not c.check_cpuid
    then panic
    else if not c.check_long_mode
    then panic
    else (do
      let s1 = extend_used_memory (u32 (ebx + load 4 s.memory ebx)) s
      found ←
          find_kernel c.tags c.chars s1.memory name (u32 (ebx + 8))
            (record { kernel_start = 0; kernel_end = 0 })
      start_kernel c l ebx found s1)
