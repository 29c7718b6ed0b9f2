-- ===== src/CreateImage/Runs.antt =====
-- tools/createimage.c and kernel/loader/loader.c: what the builder puts into the image is what the
-- loader takes from it.
use mathlib.Core.Path.{subst}
use ucas_oslab_project.Common.{
  ℕ, zero, suc, ◌+◌, ◌-◌, ◌*◌, ◌%◌, ◌^◌, ◌≤◌, ◌<◌, ◌≡◌, ◌≢◌, sym, ap, ◌∙◌, List, [], ◌∷◌, arith,
  length,
}
use ucas_oslab_project.Strings.{Mem}
use ucas_oslab_project.Strings.Build.{byte_at}
use ucas_oslab_project.Loader.{TaskInfo, task_mem_base, load_task}
use ucas_oslab_project.Loader.Image.{SdRead, load_task-exact}
use ucas_oslab_project.Format.Digits.{Holds}
use ucas_oslab_project.Format.Reverse.{Holds-at}
use ucas_oslab_project.CreateImage.{
  Outcome, ok, assert_failed, outside_array, InputFile, Output, bootblock, main, create_image,
}
use ucas_oslab_project.CreateImage.Segments.{Content}
use ucas_oslab_project.CreateImage.Tasks.{Contents, total}
use ucas_oslab_project.CreateImage.Info.{word32}
use ucas_oslab_project.CreateImage.Layout.{Laid, IsImage, create_image-IsImage}

abbrev pub content_at : List (List ℕ) → ℕ → List ℕ
content_at [] j = []
content_at (s ∷ ss) zero = s
content_at (s ∷ ss) (suc j) = content_at ss j

-- Where the content number `j` begins, when the first one begins at `base`.
abbrev pub begin_at : (base : ℕ) → List (List ℕ) → ℕ → ℕ
begin_at base [] j = base
begin_at base (s ∷ ss) zero = base
begin_at base (s ∷ ss) (suc j) = begin_at (base + length s) ss j

-- `tasks[j]`, from the image's second sector.
abbrev pub task_info_at : (ℕ → ℕ) → ℕ → TaskInfo
task_info_at byte j = record {
  begin = word32 byte (0x200 + 32 * j + 24);
  end = word32 byte (0x200 + 32 * j + 28);
}

-- The row of task `j`, and its bytes.
record RowAt (byte : ℕ → ℕ) (p base : ℕ) (ss : List (List ℕ)) (j : ℕ) : Type 0 where
  begin : word32 byte (p + 32 * j + 24) ≡ begin_at base ss j
  end : word32 byte (p + 32 * j + 28) ≡ begin_at base ss j + length (content_at ss j)
  bytes : Holds byte (begin_at base ss j) (content_at ss j)
  inside : begin_at base ss j + length (content_at ss j) ≤ base + total ss

Laid-RowAt :
    (fs : List InputFile) (ss : List (List ℕ)) (byte : ℕ → ℕ) (p base j : ℕ)
    → Contents fs ss
    → j < length fs
    → Laid byte p base fs ss
    → RowAt byte p base ss j
Laid-RowAt [] ss byte p base j contents low laid = absurd (omega arith)
Laid-RowAt (f ∷ fs) [] byte p base j contents low laid = absurd contents
Laid-RowAt (f ∷ fs) (s ∷ ss) byte p base zero contents low (name, begin, end, bytes, more) =
    record {
      begin = ap (λ q. word32 byte (q + 24)) (omega arith) ∙ begin;
      end = ap (λ q. word32 byte (q + 28)) (omega arith) ∙ end;
      bytes = bytes;
      inside = omega arith;
    }
Laid-RowAt (f ∷ fs) (s ∷ ss) byte p base (suc j) contents low (name, begin, end, bytes, more) =
    let r = Laid-RowAt fs ss byte (p + 32) (base + length s) j contents.1 (omega arith) more in
    let place : p + 32 * suc j ≡ p + 32 + 32 * j = omega arith in
    record {
      begin = ap (λ q. word32 byte (q + 24)) place ∙ r.begin;
      end = ap (λ q. word32 byte (q + 28)) place ∙ r.end;
      bytes = r.bytes;
      inside = omega (arith, r.inside);
    }

image_of : Output → Outcome Output → Output
image_of other (ok img) = img
image_of other assert_failed = other
image_of other outside_array = other

same_image : (o : Outcome Output) (img img' : Output) → o ≡ ok img → o ≡ ok img' → img ≡ img'
unfolding image_of
same_image o img img' e e' = sym (ap (image_of img) e) ∙ ap (image_of img) e'

module _ (sd_read : (mem_address num_of_blocks block_id : ℕ) → Mem → Mem) where
  load-task_at :
      (byte : ℕ → ℕ) (s0 s1 : List ℕ) (fs : List InputFile) (ss : List (List ℕ)) (mem : Mem)
      (j q : ℕ)
      → Contents fs ss
      → SdRead sd_read byte
      → IsImage s0 s1 fs ss byte
      → 1024 + length s1 + total ss < 2 ^ 31
      → j < length fs
      → length (content_at ss j) ≤ 2 ^ 16
      → begin_at (1024 + length s1) ss j % 512 ≢ 0
      → (begin_at (1024 + length s1) ss j + length (content_at ss j) - 1) % 512 ≢ 0
      → q < length (content_at ss j)
      → load_task sd_read
          (word32 byte 0x1f8)
          j
          (task_info_at byte j)
          mem
          (task_mem_base + j * 2 ^ 16 + q)
        ≡ byte_at (content_at ss j) q
  load-task_at byte s0 s1 fs ss mem j q contents reads image low listed size first last lt =
      let r = Laid-RowAt fs ss byte 0x200 (1024 + length s1) j contents listed image.tasks in
      let t = task_info_at byte j in
      let begin_first : t.begin % 512 ≢ 0 = λ e. first (ap (λ n. n % 512) (sym r.begin) ∙ e) in
      let end_last : (t.end - 1) % 512 ≢ 0 = λ e. last (ap (λ n. (n - 1) % 512) (sym r.end) ∙ e) in
      load_task-exact sd_read byte reads (word32 byte 0x1f8) j t mem (omega (arith, image.task_num))
        (omega (arith, r.begin, r.end)) (omega (arith, r.end, r.inside)) begin_first end_last q
        (omega (arith, r.begin, r.end))
      ∙ ap (λ n. byte (n + q)) r.begin
      ∙ Holds-at byte (begin_at (1024 + length s1) ss j) (content_at ss j) q r.bytes lt

-- For an image that create_image made of a boot block of at most 0x1f8 bytes, a kernel and at most
-- 16 tasks, below 2^31 bytes in all, and a firmware that reads its sectors: load_task puts each
-- byte of the task j, of at most 2^16 bytes, at its place from task_mem_base + j * 2^16 on, if
-- neither the task's first byte nor its last is the first of a sector.
pub create_image-load_task :
    (boot kernel : InputFile) (fs : List InputFile) (s0 s1 : List ℕ) (ss : List (List ℕ))
    (img : Output) (sd_read : (mem_address num_of_blocks block_id : ℕ) → Mem → Mem) (mem : Mem)
    (j q : ℕ)
    → boot.name ≡ bootblock
    → kernel.name ≡ main
    → Content boot s0
    → Content kernel s1
    → Contents fs ss
    → length s0 ≤ 0x1f8
    → length fs ≤ 16
    → 1024 + length s1 + total ss < 2 ^ 31
    → create_image (boot ∷ kernel ∷ fs) ≡ ok img
    → SdRead sd_read img.byte
    → j < length fs
    → length (content_at ss j) ≤ 2 ^ 16
    → begin_at (1024 + length s1) ss j % 512 ≢ 0
    → (begin_at (1024 + length s1) ss j + length (content_at ss j) - 1) % 512 ≢ 0
    → q < length (content_at ss j)
    → load_task sd_read
        (word32 img.byte 0x1f8)
        j
        (task_info_at img.byte j)
        mem
        (task_mem_base + j * 2 ^ 16 + q)
      ≡ byte_at (content_at ss j) q
create_image-load_task boot kernel fs s0 s1 ss img sd_read mem j q name0 name1 content0 content1
      contents short few low built reads listed size first last lt =
    let (img', built', image') =
      create_image-IsImage boot kernel fs s0 s1 ss name0 name1 content0 content1 contents short few
        low in
    let same = same_image (create_image (boot ∷ kernel ∷ fs)) img' img built' built in
    let image = subst (λ (o : Output). IsImage s0 s1 fs ss o.byte) same image' in
    load-task_at sd_read img.byte s0 s1 fs ss mem j q contents reads image low listed size first
      last lt
