-- ===== src/CreateImage.antt =====
-- tools/createimage.c, which runs on the host. Of an input file it has what the C library reads from
-- it; the image is a file that was empty. What is printed is left out, and so is the overflow of an
-- `int`, for images below 2 ^ 31 bytes. A failed `assert` and a write outside `taskinfo` are outcomes
-- of their own.
pub mod Files
pub mod Segments
pub mod Tasks
pub mod Info
pub mod Begin
pub mod Layout
pub mod Full
pub mod Runs
pub mod Args
use ucas_oslab_project.Common.{
  ℕ, zero, suc, ◌+◌, ◌-◌, ◌*◌, ◌/◌, ◌%◌, ◌^◌, Bool, true, false, not, ◌&&◌, ◌||◌, ◌==◌, ltb, leb,
  Option, none, some, List, [], ◌∷◌, ◌++◌, length, if◌then◌else◌,
}
use ucas_oslab_project.LinkedList.{update}
use ucas_oslab_project.Loader.{nbytes2sec}

-- The fields of the two headers of <elf.h> that are read.
pub record Ehdr : Type 0 where
  pub ident1 : ℕ
  pub ident2 : ℕ
  pub ident3 : ℕ
  pub e_phoff : ℕ
  pub e_phentsize : ℕ
  pub e_phnum : ℕ

pub record Phdr : Type 0 where
  pub p_type : ℕ
  pub p_offset : ℕ
  pub p_filesz : ℕ
  pub p_memsz : ℕ

abbrev pub pt_load : ℕ
pt_load = 1

-- What `fread` gives at the start and at an offset, `none` where it or `fopen` fails, and the
-- bytes that `fgetc` gives, or 255 behind the end, which is what `fputc` makes of its -1.
pub record InputFile : Type 0 where
  pub name : List ℕ
  pub ehdr : Option Ehdr
  pub phdr_at : ℕ → Option Phdr
  pub byte : ℕ → ℕ

-- A file that is written, with the position in it.
pub record Output : Type 0 where
  pub byte : ℕ → ℕ
  pub pos : ℕ

unfoldable pub fputc : ℕ → Output → Output
fputc c img = record { byte = update img.byte img.pos c; pos = img.pos + 1 }

unfoldable pub fwrite : List ℕ → Output → Output
fwrite [] img = img
fwrite (c ∷ s) img = fwrite s (fputc c img)

abbrev pub fseek : ℕ → Output → Output
fseek pos img = record img { pos = pos }

-- `task_info_t`
pub record Entry : Type 0 where
  pub name : List ℕ
  pub begin : ℕ
  pub end : ℕ

abbrev pub task_maxnum : ℕ
task_maxnum = 16

-- The bytes that `strncpy` writes.
unfoldable pub strncpy_bytes : ℕ → List ℕ → List ℕ
strncpy_bytes zero s = []
strncpy_bytes (suc n) [] = 0 ∷ strncpy_bytes n []
strncpy_bytes (suc n) (c ∷ s) = c ∷ strncpy_bytes n s

-- `strcmp(s, t) == 0`
unfoldable pub same_name : List ℕ → List ℕ → Bool
same_name [] [] = true
same_name [] (d ∷ t) = false
same_name (c ∷ s) [] = false
same_name (c ∷ s) (d ∷ t) = c == d && same_name s t

abbrev pub bootblock : List ℕ
bootblock = b'b' ∷ b'o' ∷ b'o' ∷ b't' ∷ b'b' ∷ b'l' ∷ b'o' ∷ b'c' ∷ b'k' ∷ []

abbrev pub main : List ℕ
main = b'm' ∷ b'a' ∷ b'i' ∷ b'n' ∷ []

-- How a part of the program ends: with a result, with a failed `assert`, or at an assignment to an
-- entry that `taskinfo` does not have, for which C defines no behaviour.
pub data Outcome {ℓ} (A : Type ℓ) : Type ℓ where
  ok : A → Outcome A
  assert_failed : Outcome A
  outside_array : Outcome A

-- The variables of `create_image`.
pub record Build : Type 0 where
  pub img : Output
  pub phyaddr : ℕ
  pub nbytes_kernel : ℕ
  pub taskinfo : ℕ → Entry

unfoldable pub read_ehdr : InputFile → Outcome Ehdr
read_ehdr fp = elim fp.ehdr [
  | none ↦ assert_failed
  | some e ↦
      if e.ident1 == b'E' && e.ident2 == b'L' && e.ident3 == b'F' then ok e else assert_failed
]

unfoldable pub read_phdr : InputFile → (ph : ℕ) → Ehdr → Outcome Phdr
read_phdr fp ph ehdr = elim (fp.phdr_at (ehdr.e_phoff + ph * ehdr.e_phentsize)) [
  | none ↦ assert_failed
  | some phdr ↦ ok phdr
]

abbrev pub get_filesz : Phdr → ℕ
get_filesz phdr = phdr.p_filesz % 2 ^ 32

-- The byte of the input at `offset` goes to the image; `n` rounds are left.
unfoldable pub copy_bytes : ℕ → InputFile → (offset : ℕ) → Build → Build
copy_bytes zero fp offset b = b
copy_bytes (suc n) fp offset b =
    copy_bytes n fp (offset + 1)
      (record b { img = fputc (fp.byte offset) b.img; phyaddr = b.phyaddr + 1 })

unfoldable pub write_segment : Phdr → InputFile → Build → Build
write_segment phdr fp b =
    if not (phdr.p_memsz == 0) && phdr.p_type == pt_load
    then copy_bytes phdr.p_filesz fp phdr.p_offset b
    else b

-- The zeros: `n` rounds are left.
unfoldable pub zero_bytes : ℕ → Build → Build
zero_bytes zero b = b
zero_bytes (suc n) b = zero_bytes n (record b { img = fputc 0 b.img; phyaddr = b.phyaddr + 1 })

unfoldable pub write_padding : (new_phyaddr : ℕ) → Build → Build
write_padding new_phyaddr b = zero_bytes (new_phyaddr - b.phyaddr) b

-- The loop over the program headers: its body, and its rounds that are left.
unfoldable pub put_phdr : InputFile → Phdr → Build → Build
put_phdr fp phdr b =
    if not (phdr.p_type == pt_load)
    then b
    else let b1 = write_segment phdr fp b in
      if same_name fp.name main
      then record b1 { nbytes_kernel = (b1.nbytes_kernel + get_filesz phdr) % 2 ^ 32 }
      else b1

unfoldable pub phdr_loop : ℕ → InputFile → (ph : ℕ) → Ehdr → Build → Outcome Build
phdr_loop zero fp ph ehdr b = ok b
phdr_loop (suc n) fp ph ehdr b = elim (read_phdr fp ph ehdr) [
  | ok phdr ↦ phdr_loop n fp (ph + 1) ehdr (put_phdr fp phdr b)
  | assert_failed ↦ assert_failed
  | outside_array ↦ outside_array
]

-- `taskinfo[fidx - 2]` gets its start and its name, and later its end. No code tests the index.
unfoldable pub begin_task : (fidx : ℕ) → List ℕ → Build → Outcome Build
begin_task fidx name b =
    if ltb fidx 2
    then ok b
    else if leb task_maxnum (fidx - 2)
    then outside_array
    else ok (record b {
      taskinfo =
          update b.taskinfo (fidx - 2)
            (record (b.taskinfo (fidx - 2)) { name = strncpy_bytes 24 name; begin = b.phyaddr });
    })

unfoldable pub end_task : (fidx : ℕ) → Build → Build
end_task fidx b = if ltb fidx 2 then b else record b {
  taskinfo = update b.taskinfo (fidx - 2) (record (b.taskinfo (fidx - 2)) { end = b.phyaddr });
}

unfoldable pub put_file : (fidx : ℕ) → InputFile → Build → Outcome Build
put_file fidx fp b = elim (begin_task fidx fp.name b) [
  | ok b1 ↦ elim (read_ehdr fp) [
    | ok ehdr ↦ elim (phdr_loop ehdr.e_phnum fp 0 ehdr b1) [
      | ok b2 ↦
          let b3 = (if same_name fp.name bootblock then write_padding 1024 b2 else b2) in
          ok (end_task fidx b3)
      | assert_failed ↦ assert_failed
      | outside_array ↦ outside_array
    ]
    | assert_failed ↦ assert_failed
    | outside_array ↦ outside_array
  ]
  | assert_failed ↦ assert_failed
  | outside_array ↦ outside_array
]

unfoldable pub files_loop : (fidx : ℕ) → List InputFile → Build → Outcome Build
files_loop fidx [] b = ok b
files_loop fidx (fp ∷ files) b = elim (put_file fidx fp b) [
  | ok b' ↦ files_loop (fidx + 1) files b'
  | assert_failed ↦ assert_failed
  | outside_array ↦ outside_array
]

-- A `uint32_t` in memory, lowest byte first.
abbrev pub le32 : ℕ → List ℕ
le32 v = v % 256 ∷ v / 256 % 256 ∷ v / 65536 % 256 ∷ v / 16777216 % 256 ∷ []

abbrev pub entry_bytes : Entry → List ℕ
entry_bytes t = t.name ++ (le32 t.begin ++ le32 t.end)

-- `fwrite` of the array: `n` entries are left, from `taskinfo[i]` on.
unfoldable pub write_entries : ℕ → (i : ℕ) (taskinfo : ℕ → Entry) → Output → Output
write_entries zero i taskinfo img = img
write_entries (suc n) i taskinfo img =
    write_entries n (i + 1) taskinfo (fwrite (entry_bytes (taskinfo i)) img)

unfoldable pub write_img_info :
    (nbytes_kernel : ℕ) (taskinfo : ℕ → Entry) (tasknum : ℕ) → Output → Output
write_img_info nbytes_kernel taskinfo tasknum img =
    let img1 = fwrite (le32 tasknum) (fseek 0x1f8 img) in
    let img2 = fwrite (le32 (nbytes2sec nbytes_kernel)) img1 in
    write_entries tasknum 0 taskinfo img2

abbrev pub start : Build
start = record {
  img = record { byte = λ p. 0; pos = 0 };
  phyaddr = 0;
  nbytes_kernel = 0;
  taskinfo = λ i. record { name = strncpy_bytes 24 []; begin = 0; end = 0 };
}

unfoldable pub create_image : List InputFile → Outcome Output
create_image files = elim (files_loop 0 files start) [
  | ok b ↦ ok (write_img_info b.nbytes_kernel b.taskinfo (length files - 2) b.img)
  | assert_failed ↦ assert_failed
  | outside_array ↦ outside_array
]
