-- ===== src/CreateImage/Layout.antt =====
-- tools/createimage.c: the image as the boot loader and the kernel read it.
use mathlib.Core.Path.{subst}
use ucas_oslab_project.Common.{
  ℕ, ◌+◌, ◌-◌, ◌^◌, ◌≤◌, ◌<◌, ◌≡◌, ap, ◌∙◌, inl, inr, List, [], ◌∷◌, ◌++◌, arith, length,
}
use ucas_oslab_project.Format.Digits.{Holds, Holds-frame}
use ucas_oslab_project.Format.Output.Reading.{Holds-split}
use ucas_oslab_project.Loader.{nbytes2sec}
use ucas_oslab_project.CreateImage.{
  ok, InputFile, Output, Entry, strncpy_bytes, same_name, main, bootblock, le32, entry_bytes,
  write_img_info, start, create_image,
}
use ucas_oslab_project.CreateImage.Segments.{Content, counted}
use ucas_oslab_project.CreateImage.Tasks.{
  Contents, total, kernel_size, entry_of, Placed, files_loop-Stored,
}
use ucas_oslab_project.CreateImage.Info.{
  word32, word32-le32, length-strncpy_bytes, Named, Table, write_img_info-Informed,
}
use ucas_oslab_project.CreateImage.Begin.{put_boot-Booted, put_kernel-Kerneled, files_loop-step}

-- From the table's row at `p` on: the task's name, its start and its end, and there its bytes; the
-- next task begins where it ends.
abbrev pub Laid : (byte : ℕ → ℕ) (p base : ℕ) → List InputFile → List (List ℕ) → Type 0
Laid byte p base (f ∷ fs) (s ∷ ss) =
    Holds byte p (strncpy_bytes 24 f.name)
    × (word32 byte (p + 24) ≡ base)
    × (word32 byte (p + 28) ≡ base + length s)
    × Holds byte base s
    × Laid byte (p + 32) (base + length s) fs ss
Laid byte p base fs ss = Unit {0}

row-reads :
    (byte : ℕ → ℕ) (p base : ℕ) (f : InputFile) (s : List ℕ)
    → base + length s < 2 ^ 32
    → Holds byte p (entry_bytes (entry_of f base s))
    → Holds byte p (strncpy_bytes 24 f.name)
      × (word32 byte (p + 24) ≡ base)
      × (word32 byte (p + 28) ≡ base + length s)
row-reads byte p base f s low h =
    let name = strncpy_bytes 24 f.name in
    let (named, words) = Holds-split byte p name (le32 base ++ le32 (base + length s)) h in
    let (begin, end) =
      Holds-split byte (p + length name) (le32 base) (le32 (base + length s)) words in
    let size = length-strncpy_bytes 24 f.name in
    let place : p + length name + 4 ≡ p + 28 = omega (arith, size) in
    (
      named,
      word32-le32 byte (p + 24) base (omega arith)
          (subst (λ n. Holds byte (p + n) (le32 base)) size begin),
      word32-le32 byte (p + 28) (base + length s) low
          (subst (λ n. Holds byte n (le32 (base + length s))) place end),
    )

-- The rows and the tasks, when the tasks stand behind what is written over.
Placed-Laid :
    (fs : List InputFile) (ss : List (List ℕ)) (byte byte' : ℕ → ℕ) (taskinfo : ℕ → Entry)
    (p j base : ℕ)
    → Contents fs ss
    → base + total ss < 2 ^ 32
    → ((q : ℕ) → base ≤ q → byte' q ≡ byte q)
    → Placed byte taskinfo j base fs ss
    → Table byte' p (length fs) j taskinfo
    → Laid byte' p base fs ss
Placed-Laid [] ss byte byte' taskinfo p j base contents low same placed table = tt
Placed-Laid (f ∷ fs) [] byte byte' taskinfo p j base contents low same placed table = tt
Placed-Laid (f ∷ fs) (s ∷ ss) byte byte' taskinfo p j base contents low same placed table =
    let (named, begin, end) =
      row-reads byte' p base f s (omega arith)
        (subst (λ t. Holds byte' p (entry_bytes t)) placed.0 table.0) in
    (
      named,
      begin,
      end,
      Holds-frame byte byte' base s (λ q lo hi. same q lo) placed.1,
      Placed-Laid fs ss byte byte' taskinfo (p + 32) (j + 1) (base + length s) contents.1
          (omega arith) (λ q lo. same q (omega arith)) placed.2 table.1,
    )

Placed-Named :
    (fs : List InputFile) (ss : List (List ℕ)) (byte : ℕ → ℕ) (taskinfo : ℕ → Entry) (j base : ℕ)
    → Contents fs ss
    → Placed byte taskinfo j base fs ss
    → Named (length fs) j taskinfo
Placed-Named [] ss byte taskinfo j base contents placed = tt
Placed-Named (f ∷ fs) [] byte taskinfo j base contents placed = absurd contents
Placed-Named (f ∷ fs) (s ∷ ss) byte taskinfo j base contents placed = (
  ap (λ (t : Entry). length t.name) placed.0 ∙ length-strncpy_bytes 24 f.name,
  Placed-Named fs ss byte taskinfo (j + 1) (base + length s) contents.1 placed.2,
)

-- The image of a boot block, a kernel and tasks.
pub record IsImage (s0 s1 : List ℕ) (fs : List InputFile) (ss : List (List ℕ)) (byte : ℕ → ℕ)
    : Type 0 where
  pub boot : Holds byte 0 s0
  pub task_num : word32 byte 0x1f8 ≡ length fs
  pub os_size : word32 byte 0x1fc ≡ nbytes2sec (kernel_size fs ss (length s1))
  pub kernel : Holds byte 1024 s1
  pub tasks : Laid byte 0x200 (1024 + length s1) fs ss

sectors_low : (n : ℕ) → n < 2 ^ 32 → nbytes2sec n < 2 ^ 32
unfolding nbytes2sec
sectors_low n low = ground arith

kernel_size_low :
    (fs : List InputFile) (ss : List (List ℕ)) (n : ℕ) → kernel_size fs ss n ≤ n + total ss
kernel_size_low [] ss n = omega arith
kernel_size_low (f ∷ fs) [] n = omega arith
kernel_size_low (f ∷ fs) (s ∷ ss) n =
    ground (arith, kernel_size_low fs ss (counted (same_name f.name main) n (length s)))

-- Of a boot block of at most 0x1f8 bytes, a kernel and at most 16 tasks, below 2^31 bytes in all,
-- whose headers can be read, create_image makes an image: the boot code from byte 0 on, the number
-- of tasks at 0x1f8, the number of the kernel's sectors (with tasks that are called main as well)
-- at 0x1fc, the table of names, starts and ends from 0x200 on, the kernel from 1024 on, and behind
-- it the tasks, each where the table says.
pub create_image-IsImage :
    (boot kernel : InputFile) (fs : List InputFile) (s0 s1 : List ℕ) (ss : List (List ℕ))
    → boot.name ≡ bootblock
    → kernel.name ≡ main
    → Content boot s0
    → Content kernel s1
    → Contents fs ss
    → length s0 ≤ 0x1f8
    → length fs ≤ 16
    → 1024 + length s1 + total ss < 2 ^ 31
    → (img : Output) × (create_image (boot ∷ kernel ∷ fs) ≡ ok img) × IsImage s0 s1 fs ss img.byte
unfolding create_image
create_image-IsImage boot kernel fs s0 s1 ss name0 name1 content0 content1 contents short few low =
    let (b0, put0, booted) = put_boot-Booted boot s0 name0 content0 (omega arith) in
    let (b1, put1, kerneled) =
      put_kernel-Kerneled kernel s0 s1 b0 name1 content1 (omega arith) (omega arith) booted in
    let (b, goes, stored) = files_loop-Stored fs ss 0 b1 (omega arith) kerneled.sized contents in
    let whole =
      files_loop-step 0 boot (kernel ∷ fs) start b0 put0
      ∙ files_loop-step 1 kernel fs b0 b1 put1
      ∙ goes in
    let named = Placed-Named fs ss b.img.byte b.taskinfo 0 b1.phyaddr contents stored.placed in
    let done = write_img_info-Informed b.nbytes_kernel b.taskinfo (length fs) b.img named in
    let img = write_img_info b.nbytes_kernel b.taskinfo (length fs) b.img in
    let behind : (q : ℕ) → 1024 ≤ q → img.byte q ≡ b.img.byte q =
      λ q lo. done.rest q (inr (omega arith)) in
    let count : length (boot ∷ kernel ∷ fs) - 2 ≡ length fs = omega arith in
    let size = kernel_size_low fs ss (length s1) in
    let counted_all =
      stored.kernel (omega (arith, kerneled.kernel)) ∙ ap (kernel_size fs ss) kerneled.kernel in
    (
      img,
      rw (whole, create_image)
          (ap (λ n. ok (write_img_info b.nbytes_kernel b.taskinfo n b.img)) count),
      record {
        boot =
            Holds-frame b1.img.byte img.byte 0 s0
              (λ q lo hi.
                done.rest q (inl (omega arith)) ∙ stored.below q (omega (arith, kerneled.size)))
              kerneled.boot;
        task_num = word32-le32 img.byte 0x1f8 (length fs) (omega arith) done.task_num;
        os_size =
            word32-le32 img.byte 0x1fc (nbytes2sec b.nbytes_kernel)
              (sectors_low b.nbytes_kernel (omega (arith, counted_all, size))) done.os_size
            ∙ ap nbytes2sec counted_all;
        kernel =
            Holds-frame b1.img.byte img.byte 1024 s1
              (λ q lo hi. behind q lo ∙ stored.below q (omega (arith, kerneled.size)))
              kerneled.bytes;
        tasks =
            subst (λ base. Laid img.byte 0x200 base fs ss) kerneled.size
              (Placed-Laid fs ss b.img.byte img.byte b.taskinfo 0x200 0 b1.phyaddr contents
                (omega (arith, kerneled.size)) (λ q lo. behind q (omega (arith, kerneled.size)))
                stored.placed done.table);
      },
    )
