-- ===== src/Examples/Building.antt =====
-- The theorems on tools/createimage.c for a boot block of three bytes, a kernel of five and tasks of
-- seven, each of them one segment.
use mathlib.Core.List.{append-nil}
use ucas_oslab_project.Common.{
  ℕ, zero, suc, ◌+◌, ◌^◌, ◌≡◌, refl, sym, some, List, [], ◌∷◌, leb, ltb, ◌&&◌, if◌then◌else◌, ◌*◌,
  ◌-◌, arith,
}
use ucas_oslab_project.Strings.{Mem}
use ucas_oslab_project.Loader.{load_task}
use ucas_oslab_project.Loader.Image.{SdRead}
use ucas_oslab_project.CreateImage.{
  ok, outside_array, InputFile, Output, bootblock, main, read_ehdr, read_phdr, create_image,
}
use ucas_oslab_project.CreateImage.Segments.{Content}
use ucas_oslab_project.CreateImage.Tasks.{Contents}
use ucas_oslab_project.CreateImage.Files.{part}
use ucas_oslab_project.CreateImage.Layout.{IsImage, create_image-IsImage}
use ucas_oslab_project.CreateImage.Full.{create_image-full}
use ucas_oslab_project.CreateImage.Info.{word32}
use ucas_oslab_project.CreateImage.Runs.{task_info_at, create_image-load_task}

-- One program header, of a segment of `n` bytes from byte 2 on.
abbrev file : List ℕ → ℕ → InputFile
file name n = record {
  name = name;
  ehdr = some (record {
    ident1 = b'E';
    ident2 = b'L';
    ident3 = b'F';
    e_phoff = 64;
    e_phentsize = 56;
    e_phnum = 1;
  });
  phdr_at = λ p. some (record { p_type = 1; p_offset = 2; p_filesz = n; p_memsz = n + 8 });
  byte = λ p. p + 1;
}

file-Content : (name : List ℕ) (n : ℕ) → Content (file name n) (part n (file name n) 2)
unfolding read_ehdr read_phdr
file-Content name n = (
  record {
    ident1 = b'E';
    ident2 = b'L';
    ident3 = b'F';
    e_phoff = 64;
    e_phentsize = 56;
    e_phnum = 1;
  },
  refl,
  (
    record { p_type = 1; p_offset = 2; p_filesz = n; p_memsz = n + 8 },
    [],
    refl,
    omega arith,
    sym (append-nil (part n (file name n) 2)),
    refl,
  ),
)

abbrev boot : InputFile
boot = file bootblock 3

abbrev kernel : InputFile
kernel = file main 5

abbrev task : InputFile
task = file (b'a' ∷ []) 7

abbrev bytes : ℕ → List ℕ
bytes n = part n (file [] n) 2

abbrev tasks : ℕ → List InputFile
tasks zero = []
tasks (suc n) = task ∷ tasks n

abbrev contents : ℕ → List (List ℕ)
contents zero = []
contents (suc n) = bytes 7 ∷ contents n

tasks-Contents : (n : ℕ) → Contents (tasks n) (contents n)
tasks-Contents zero = tt
tasks-Contents (suc n) = (file-Content (b'a' ∷ []) 7, tasks-Contents n)

create_image-IsImage_example :
    (img : Output) × (create_image (boot ∷ kernel ∷ tasks 2) ≡ ok img)
    × IsImage (bytes 3) (bytes 5) (tasks 2) (contents 2) img.byte
create_image-IsImage_example =
    create_image-IsImage boot kernel (tasks 2) (bytes 3) (bytes 5) (contents 2) refl refl
      (file-Content bootblock 3) (file-Content main 5) (tasks-Contents 2) (omega arith)
      (omega arith) (omega arith)

create_image-full_example : create_image (boot ∷ kernel ∷ tasks 17) ≡ outside_array
create_image-full_example =
    create_image-full boot kernel (tasks 17) (bytes 3) (bytes 5) (contents 17) refl refl
      (file-Content bootblock 3) (file-Content main 5) (tasks-Contents 17) (omega arith)
      (omega arith) (omega arith)

built :
    (img : Output) × (create_image (boot ∷ kernel ∷ tasks 1) ≡ ok img)
    × IsImage (bytes 3) (bytes 5) (tasks 1) (contents 1) img.byte
built =
    create_image-IsImage boot kernel (tasks 1) (bytes 3) (bytes 5) (contents 1) refl refl
      (file-Content bootblock 3) (file-Content main 5) (tasks-Contents 1) (omega arith)
      (omega arith) (omega arith)

-- The firmware reads the image.
sd_read : (mem_address num_of_blocks block_id : ℕ) → Mem → Mem
sd_read addr n block mem q =
    if leb addr q && ltb q (addr + n * 512) then built.0.byte (block * 512 + (q - addr)) else mem q

sd_read-SdRead : SdRead sd_read built.0.byte
unfolding sd_read
sd_read-SdRead addr n block mem j h = ground arith

-- The fifth byte of the task is the seventh of its file.
create_image-load_task_example :
    load_task sd_read
      (word32 built.0.byte 0x1f8)
      0
      (task_info_at built.0.byte 0)
      (λ q. 0)
      (0x52000000 + 0 * 2 ^ 16 + 4)
    ≡ 7
create_image-load_task_example =
    create_image-load_task boot kernel (tasks 1) (bytes 3) (bytes 5) (contents 1) built.0 sd_read
      (λ q. 0) 0 4 refl refl (file-Content bootblock 3) (file-Content main 5) (tasks-Contents 1)
      (omega arith) (omega arith) (omega arith) built.1 sd_read-SdRead (omega arith) (omega arith)
      (λ e. omega arith) (λ e. omega arith) (omega arith)
