-- ===== src/CreateImage/Begin.antt =====
-- tools/createimage.c: the loop over the files, up to the kernel.
use mathlib.Core.Path.{subst}
use ucas_oslab_project.Common.{
  ℕ, ◌+◌, ◌-◌, ◌^◌, ◌≤◌, ◌<◌, ◌≡◌, refl, ap, ◌∙◌, inl, true, false, List, ◌∷◌, arith, length,
  if◌then◌else◌,
}
use ucas_oslab_project.Format.Digits.{Holds, Holds-frame}
use ucas_oslab_project.CreateImage.{
  ok, InputFile, Build, same_name, main, bootblock, write_padding, begin_task, end_task, put_file,
  files_loop, start,
}
use ucas_oslab_project.CreateImage.Files.{length-zeros, zero_bytes-Grown}
use ucas_oslab_project.CreateImage.Segments.{Content, counted, put_file-Filed, no_padding}
use ucas_oslab_project.CreateImage.Tasks.{Sized}

-- After the boot block and its padding, with the boot code `s0`.
pub record Booted (s0 : List ℕ) (b : Build) : Type 0 where
  pub pos : b.img.pos ≡ 1024
  pub size : b.phyaddr ≡ 1024
  pub bytes : Holds b.img.byte 0 s0
  pub kernel : b.nbytes_kernel ≡ 0

start_begun : (fidx : ℕ) (name : List ℕ) (b : Build) → fidx < 2 → begin_task fidx name b ≡ ok b
unfolding begin_task
start_begun fidx name b low = ground arith

start_ended : (fidx : ℕ) (b : Build) → fidx < 2 → end_task fidx b ≡ b
unfolding end_task
start_ended fidx b low = ground arith

named_bootblock :
    (name : List ℕ)
    → name ≡ bootblock
    → (same_name name bootblock ≡ true) × (same_name name main ≡ false)
unfolding same_name
named_bootblock name e = rw e (refl, refl)

named_main : (name : List ℕ) → name ≡ main → same_name name main ≡ true
unfolding same_name
named_main name e = rw e

pub put_boot-Booted :
    (boot : InputFile) (s0 : List ℕ)
    → boot.name ≡ bootblock
    → Content boot s0
    → length s0 ≤ 1024
    → (b : Build) × (put_file 0 boot start ≡ ok b) × Booted s0 b
unfolding write_padding
put_boot-Booted boot s0 name content short =
    let (b2, filed, goes) =
      put_file-Filed 0 boot s0 start start content (start_begun 0 boot.name start (omega arith)) in
    let g = filed.grown in
    let n = 1024 - b2.phyaddr in
    let (padded, same) = zero_bytes-Grown n b2 in
    let (is_boot, not_main) = named_bootblock boot.name name in
    let size = length-zeros n in
    (
      write_padding 1024 b2,
      goes
          ∙ ap (λ c. ok (end_task 0 (if c then write_padding 1024 b2 else b2))) is_boot
          ∙ ap ok (start_ended 0 (write_padding 1024 b2) (omega arith)),
      record {
        pos = omega (arith, padded.put.pos, g.put.pos, g.phyaddr, size);
        size = omega (arith, padded.phyaddr, g.phyaddr, size);
        bytes =
            Holds-frame b2.img.byte _ 0 s0
              (λ q lo hi. padded.put.rest q (inl (omega (arith, g.put.pos)))) g.put.bytes;
        kernel = same ∙ filed.kernel (omega arith) ∙ ap (λ c. counted c 0 (length s0)) not_main;
      },
    )

-- After the kernel, with the bytes `s1`.
pub record Kerneled (s0 s1 : List ℕ) (b : Build) : Type 0 where
  pub sized : Sized b
  pub size : b.phyaddr ≡ 1024 + length s1
  pub boot : Holds b.img.byte 0 s0
  pub bytes : Holds b.img.byte 1024 s1
  pub kernel : b.nbytes_kernel ≡ length s1

pub put_kernel-Kerneled :
    (kernel : InputFile) (s0 s1 : List ℕ) (b : Build)
    → kernel.name ≡ main
    → Content kernel s1
    → length s0 ≤ 1024
    → length s1 < 2 ^ 31
    → Booted s0 b
    → (b' : Build) × (put_file 1 kernel b ≡ ok b') × Kerneled s0 s1 b'
put_kernel-Kerneled kernel s0 s1 b name content short low booted =
    let (b2, filed, goes) =
      put_file-Filed 1 kernel s1 b b content (start_begun 1 kernel.name b (omega arith)) in
    let g = filed.grown in
    let full : 1024 ≤ b2.phyaddr = omega (arith, g.phyaddr, booted.size) in
    (
      b2,
      goes
          ∙ ap (λ c. ok (end_task 1 c)) (no_padding (same_name kernel.name bootblock) b2 full)
          ∙ ap ok (start_ended 1 b2 (omega arith)),
      record {
        sized = record {
          pos = omega (arith, g.put.pos, g.phyaddr, booted.pos, booted.size);
          boot = full;
        };
        size = omega (arith, g.phyaddr, booted.size);
        boot =
            Holds-frame b.img.byte b2.img.byte 0 s0
              (λ q lo hi. g.put.rest q (inl (omega (arith, booted.pos)))) booted.bytes;
        bytes = subst (λ p. Holds b2.img.byte p s1) booted.pos g.put.bytes;
        kernel =
            filed.kernel (omega (arith, booted.kernel))
            ∙ ap (λ c. counted c b.nbytes_kernel (length s1)) (named_main kernel.name name)
            ∙ ap (λ n. n + length s1) booted.kernel
            ∙ omega arith;
      },
    )

pub files_loop-step :
    (fidx : ℕ) (fp : InputFile) (files : List InputFile) (b b' : Build)
    → put_file fidx fp b ≡ ok b'
    → files_loop fidx (fp ∷ files) b ≡ files_loop (fidx + 1) files b'
unfolding files_loop
files_loop-step fidx fp files b b' e = rw (e, files_loop)
