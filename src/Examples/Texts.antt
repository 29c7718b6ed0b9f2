-- ===== src/Examples/Texts.antt =====
-- The theorems on libs/string.c at the texts "ab" at 100 and "b" at 200, each alone in its memory.
use ucas_oslab_project.Common.{
  ℕ, zero, suc, ◌+◌, ◌*◌, ◌^◌, ◌<◌, ◌≡◌, ◌≢◌, refl, inr, some, List, [], ◌∷◌, ◌==◌, if◌then◌else◌,
  arith,
}
use ucas_oslab_project.Common.Int.{ℤ, pos}
use ucas_oslab_project.Strings.{Mem, strlen, strcmp, strncmp, strncpy}
use ucas_oslab_project.Strings.Text.{IsString, SameBut}
use ucas_oslab_project.Strings.Compare.{Orders, strcmp-Orders}
use ucas_oslab_project.Strings.Build.{byte_at, strncpy_lem}
use ucas_oslab_project.Loader.{Disk, task_mem_base, load_task, load_task_img}
use ucas_oslab_project.Loader.Find.{Named, load_task_img-finds}
use ucas_oslab_project.Examples.Images.{sd_read, inside, aligned}

abbrev pub ab : List ℕ
ab = b'a' ∷ b'b' ∷ []

abbrev b : List ℕ
b = b'b' ∷ []

abbrev pub words : Mem
words q =
    if q == 100
    then b'a'
    else if q == 101
    then b'b'
    else if q == 200
    then b'b'
    else if q == 202
    then 7
    else 0

pub ab-IsString : IsString words 100 ab
ab-IsString = (refl, (λ e. omega arith), (refl, (λ e. omega arith), refl))

b-IsString : IsString words 200 b
b-IsString = (refl, (λ e. omega arith), refl)

strlen_run : strlen 5 100 words ≡ some 2
unfolding strlen
strlen_run = refl

-- Behind the text "b", at 200 and at 300, the bytes differ.
strncmp_run : strncmp 200 101 3 words ≢ pos 0
unfolding strncmp
strncmp_run e = cc

strcmp-Orders_example : (r : ℤ) × (strcmp 3 100 200 words ≡ some r) × Orders ab b r
strcmp-Orders_example = strcmp-Orders 3 words 100 200 ab b ab-IsString b-IsString (omega arith)

strncpy_lem_example :
    ((i : ℕ) → i < 4 → strncpy 300 100 4 words (300 + i) ≡ byte_at ab i)
    × SameBut 300 4 words (strncpy 300 100 4 words)
strncpy_lem_example = strncpy_lem words 300 100 4 ab ab-IsString (inr (omega arith))

-- The first task is "ab", and the second "b", at 132.
abbrev files : Mem
files q =
    if q == 100
    then b'a'
    else if q == 101
    then b'b'
    else if q == 132
    then b'b'
    else if q == 900
    then b'b'
    else 0

abbrev names : ℕ → List ℕ
names i = if i == 0 then ab else b

abbrev disk : Disk
disk = record {
  tasks = 100;
  info = λ i. if i == 0 then inside else aligned;
  task_num = 2;
  sd_read = sd_read;
  fuel = 24;
}

names-IsString : (i : ℕ) → i < 2 → IsString files (100 + 32 * i) (names i)
names-IsString zero lt = (refl, (λ e. omega arith), (refl, (λ e. omega arith), refl))
names-IsString (suc zero) lt = (refl, (λ e. omega arith), refl)
names-IsString (suc (suc i)) lt = absurd (omega arith)

names-Named : Named disk names files
names-Named = record { text = names-IsString; short = λ i lt. ground arith }

b_asked : IsString files 900 b
b_asked = (refl, (λ e. omega arith), refl)

load_task_img-finds_example :
    ((k : ℕ)
      → k < 2
      → ((j : ℕ) → j < k → names j ≢ b)
      → names k ≡ b
      → load_task_img disk 900 files
        ≡ some (task_mem_base + k * 2 ^ 16, load_task sd_read 2 k (disk.info k) files))
    × (((j : ℕ) → j < 2 → names j ≢ b) → load_task_img disk 900 files ≡ some (0, files))
load_task_img-finds_example = load_task_img-finds disk names files 900 b names-Named b_asked
