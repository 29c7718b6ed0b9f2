-- ===== src/CreateImage/Full.antt =====
-- tools/createimage.c: more tasks than the array of their descriptions has entries.
use ucas_oslab_project.Common.{ℕ, ◌^◌, ◌≤◌, ◌<◌, ◌≡◌, ◌∙◌, List, ◌∷◌, arith, length}
use ucas_oslab_project.CreateImage.{outside_array, InputFile, main, bootblock, start, create_image}
use ucas_oslab_project.CreateImage.Segments.{Content}
use ucas_oslab_project.CreateImage.Tasks.{Contents, files_loop-full}
use ucas_oslab_project.CreateImage.Begin.{put_boot-Booted, put_kernel-Kerneled, files_loop-step}

-- With more than 16 tasks behind a boot block of at most 1024 bytes and a kernel below 2^31, all
-- files in order, create_image does not end with an image or a failed assertion, but assigns to an
-- entry that the array taskinfo does not have.
pub create_image-full :
    (boot kernel : InputFile) (fs : List InputFile) (s0 s1 : List ℕ) (ss : List (List ℕ))
    → boot.name ≡ bootblock
    → kernel.name ≡ main
    → Content boot s0
    → Content kernel s1
    → Contents fs ss
    → length s0 ≤ 1024
    → length s1 < 2 ^ 31
    → 16 < length fs
    → create_image (boot ∷ kernel ∷ fs) ≡ outside_array
unfolding create_image
create_image-full boot kernel fs s0 s1 ss name0 name1 content0 content1 contents short low many =
    let (b0, put0, booted) = put_boot-Booted boot s0 name0 content0 short in
    let (b1, put1, kerneled) =
      put_kernel-Kerneled kernel s0 s1 b0 name1 content1 short low booted in
    let whole =
      files_loop-step 0 boot (kernel ∷ fs) start b0 put0
      ∙ files_loop-step 1 kernel fs b0 b1 put1
      ∙ files_loop-full fs ss 0 b1 (omega arith) (omega arith) kerneled.sized contents in
    rw (whole, create_image)
