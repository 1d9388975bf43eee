-- ===== src/Kernel/Multiboot/Tests.antt =====
-- src/multiboot2.c on a small tag.
use beaveros.Base.{◌≡◌, refl}
use beaveros.Base.Memory.{Memory, store}
use beaveros.Base.Bytes.{load}
use beaveros.Kernel.Multiboot.{tag_at, multiboot2_next_tag}

-- A tag of 12 bytes at 8.
abbrev tag_of_12 : Memory
tag_of_12 = store (λ _. 0) 12 12

next_tag_result : multiboot2_next_tag 32 tag_of_12 8 ≡ 24
unfolding multiboot2_next_tag tag_at load
next_tag_result = refl
