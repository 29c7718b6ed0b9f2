-- ===== src/Printk.antt =====
-- libs/printk.c: the functions that pass a text to the screen, the firmware and the log.
pub mod Text
pub mod Show
pub mod Lines
use ucas_oslab_project.Common.{ℕ, ◌+◌, Option, none, some, List}
use ucas_oslab_project.LinkedList.{Ptr, update}
use ucas_oslab_project.Kernel.{Kernel}
use ucas_oslab_project.Strings.{Mem}
use ucas_oslab_project.Screen.{Screen, screen_write, screen_reflush}
use ucas_oslab_project.Format.{mini_itoa}
use ucas_oslab_project.Format.Output.{vsnprintf}

-- The arrays on the stack, `buff` of `_vprint` and `bf` of `mini_vsnprintf`, and the fuel for texts.
pub record Frame : Type 0 where
  pub buff : Ptr
  pub bf : Ptr
  pub fuel : ℕ

unfoldable pub mini_vsnprintf :
    Frame → (buffer : Ptr) (buffer_len : ℕ) (fmt : Ptr) (va : List ℕ) → Mem → Option (ℕ × Mem)
mini_vsnprintf fr buffer buffer_len fmt va mem =
    vsnprintf mini_itoa fr.bf fr.fuel buffer buffer_len fmt va mem

-- What an `output` function does to the rest of the world; `none` is one that does not return.
abbrev pub Output {ℓ} : Type ℓ → Type ℓ
Output S = Ptr → Mem → S → Option S

unfoldable pub vprint {ℓ} :
    {S : Type ℓ} → Frame → (fmt : Ptr) (va : List ℕ) → Output S → Mem → S → Option (ℕ × Mem × S)
vprint fr fmt va output mem s = elim (mini_vsnprintf fr fr.buff 256 fmt va mem) [
  | none ↦ none
  | some (ret, mem1) ↦
      let mem2 = update mem1 (fr.buff + ret) 0 in
      elim (output fr.buff mem2 s) [ none ↦ none | some s' ↦ some (ret, mem2, s') ]
]

unfoldable pub output_wrapper : ℕ → Output (Kernel × Screen)
output_wrapper fuel buff mem (k, s) = elim (screen_write fuel buff mem k s) [
  | none ↦ none
  | some (k', s') ↦ some (k', screen_reflush k' s')
]

unfoldable pub vprintk :
    Frame → (fmt : Ptr) (va : List ℕ) → Mem → Kernel × Screen → Option (ℕ × Mem × (Kernel × Screen))
vprintk fr fmt va mem w = vprint fr fmt va (output_wrapper fr.fuel) mem w

unfoldable pub printk :
    Frame → (fmt : Ptr) (va : List ℕ) → Mem → Kernel × Screen → Option (ℕ × Mem × (Kernel × Screen))
printk fr fmt va mem w = vprintk fr fmt va mem w

-- `bios_putstr` and `bios_logging` call the firmware.
unfoldable pub printv {ℓ} :
    {S : Type ℓ}
    → (bios_putstr : Output S) → Frame
    → (fmt : Ptr) (va : List ℕ) → Mem
    → S
    → Option (ℕ × Mem × S)
printv bios_putstr fr fmt va mem s = vprint fr fmt va bios_putstr mem s

unfoldable pub printl {ℓ} :
    {S : Type ℓ}
    → (bios_logging : Output S) → Frame
    → (fmt : Ptr) (va : List ℕ) → Mem
    → S
    → Option (ℕ × Mem × S)
printl bios_logging fr fmt va mem s = vprint fr fmt va bios_logging mem s
