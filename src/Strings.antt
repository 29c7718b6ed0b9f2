-- ===== src/Strings.antt =====
-- libs/string.c; tiny_libc/string.c has the same text. The memory is a function from addresses to
-- bytes; `char` is unsigned, as on RISC-V. A loop that ends at a NUL byte has fuel, and `none` is a
-- loop that outlasts it.
pub mod Copy
pub mod Text
pub mod Compare
pub mod Build
use ucas_oslab_project.Common.{
  ℕ, zero, suc, ◌+◌, ◌-◌, Bool, true, false, ◌&&◌, ◌||◌, not, ◌==◌, Option, none, some,
  if◌then◌else◌,
}
use ucas_oslab_project.Common.Int.{ℤ, pos, sub_ℕ}
use ucas_oslab_project.LinkedList.{Ptr, update}

abbrev pub Mem : Type 0
Mem = Ptr → ℕ

-- One byte at a time, from the first.
unfoldable pub memcpy : (dest src : Ptr) (len : ℕ) → Mem → Mem
memcpy dest src zero mem = mem
memcpy dest src (suc len) mem = memcpy (dest + 1) (src + 1) len (update mem dest (mem src))

unfoldable pub memset : (dest : Ptr) (val len : ℕ) → Mem → Mem
memset dest val zero mem = mem
memset dest val (suc len) mem = memset (dest + 1) val len (update mem dest val)

unfoldable pub bzero : (dest : Ptr) (len : ℕ) → Mem → Mem
bzero dest len mem = memset dest 0 len mem

-- The loop of `strlen`, and of `mini_strlen` in libs/printk.c.
unfoldable pub strlen_loop : ℕ → (src : Ptr) (i : ℕ) → Mem → Option ℕ
strlen_loop zero src i mem = none
strlen_loop (suc fuel) src i mem =
    let rest = strlen_loop fuel src (i + 1) mem in if mem (src + i) == 0 then some i else rest

unfoldable pub strlen : ℕ → Ptr → Mem → Option ℕ
unfolding strlen_loop
strlen fuel src mem = strlen_loop fuel src 0 mem

unfoldable pub strcmp : ℕ → (str1 str2 : Ptr) → Mem → Option ℤ
strcmp zero str1 str2 mem = none
strcmp (suc fuel) str1 str2 mem =
    let rest = strcmp fuel (str1 + 1) (str2 + 1) mem in
    if not (mem str1 == 0) && not (mem str2 == 0)
    then (if not (mem str1 == mem str2) then some (sub_ℕ (mem str1) (mem str2)) else rest)
    else some (sub_ℕ (mem str1) (mem str2))

-- The rounds of `strncmp` that are left, at the index `i`.
unfoldable pub strncmp_loop : ℕ → (str1 str2 : Ptr) (i : ℕ) → Mem → ℤ
strncmp_loop zero str1 str2 i mem = pos 0
strncmp_loop (suc n) str1 str2 i mem =
    let rest = strncmp_loop n str1 str2 (i + 1) mem in
    if not (mem (str1 + i) == mem (str2 + i)) then sub_ℕ (mem (str1 + i)) (mem (str2 + i)) else rest

unfoldable pub strncmp : (str1 str2 : Ptr) (n : ℕ) → Mem → ℤ
unfolding strncmp_loop
strncmp str1 str2 n mem = strncmp_loop n str1 str2 0 mem

-- The loop of `strcpy`, which is that of `strcat` too, and the NUL after it.
unfoldable pub strcpy : ℕ → (dest src : Ptr) → Mem → Option Mem
strcpy zero dest src mem = none
strcpy (suc fuel) dest src mem =
    let rest = strcpy fuel (dest + 1) (src + 1) (update mem dest (mem src)) in
    if mem src == 0 then some (update mem dest 0) else rest

-- The first loop of `strncpy`, with its second one, which pads with NULs, in place of its end.
unfoldable pub strncpy : (dest src : Ptr) (n : ℕ) → Mem → Mem
strncpy dest src zero mem = mem
strncpy dest src (suc n) mem =
    let rest = strncpy (dest + 1) (src + 1) n (update mem dest (mem src)) in
    if mem src == 0 then memset dest 0 (suc n) mem else rest

unfoldable pub strcat : ℕ → (dest src : Ptr) → Mem → Option Mem
strcat zero dest src mem = none
strcat (suc fuel) dest src mem =
    let copied = strcpy (suc fuel) dest src mem in
    let rest = strcat fuel (dest + 1) src mem in if mem dest == 0 then copied else rest
