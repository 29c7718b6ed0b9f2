-- ===== src/CreateImage/Segments.antt =====
-- tools/createimage.c: the segments of one input file.
use mathlib.Core.Path.{subst}
use ucas_oslab_project.Common.{
  ℕ, zero, suc, ◌+◌, ◌-◌, ◌^◌, ◌≤◌, ◌<◌, ◌≡◌, refl, sym, ap, ◌∙◌, Bool, true, false, ◌==◌,
  if◌then◌else◌, inl, inr, Bool-cases, List, [], ◌++◌, arith, length, length-append,
}
use ucas_oslab_project.CreateImage.{
  ok, Ehdr, Phdr, InputFile, Build, pt_load, same_name, main, bootblock, read_ehdr, read_phdr,
  write_segment, write_padding, zero_bytes, put_phdr, phdr_loop, begin_task, end_task, put_file,
}
use ucas_oslab_project.CreateImage.Files.{Grown, none-Grown, append-Grown, part, copy_bytes-Grown}

-- The bytes that a program header puts into the image.
abbrev pub loaded : InputFile → Phdr → List ℕ
loaded fp phdr = if phdr.p_type == pt_load then part phdr.p_filesz fp phdr.p_offset else []

pub length-part : (n : ℕ) (fp : InputFile) (offset : ℕ) → length (part n fp offset) ≡ n
length-part zero fp offset = refl
length-part (suc n) fp offset = ap suc (length-part n fp (offset + 1))

-- The kernel's size after `more` bytes of a file.
abbrev pub counted : Bool → (nbytes more : ℕ) → ℕ
counted is_main nbytes more = if is_main then nbytes + more else nbytes

write_segment-Grown :
    (phdr : Phdr) (fp : InputFile) (b : Build)
    → phdr.p_filesz ≤ phdr.p_memsz
    → (phdr.p_type == pt_load) ≡ true
    → Grown (part phdr.p_filesz fp phdr.p_offset) b (write_segment phdr fp b)
      × ((write_segment phdr fp b).nbytes_kernel ≡ b.nbytes_kernel)
unfolding write_segment
write_segment-Grown phdr fp b fits load = elim (Bool-cases (phdr.p_memsz == 0)) [
  | inl empty ↦
      let none_left : phdr.p_filesz ≡ 0 = ground arith in rw (empty, none_left) (none-Grown b, refl)
  | inr some_bytes ↦ rw (some_bytes, load) (copy_bytes-Grown phdr.p_filesz fp phdr.p_offset b)
]

put_phdr-Grown :
    (phdr : Phdr) (fp : InputFile) (b : Build)
    → phdr.p_filesz ≤ phdr.p_memsz
    → Grown (loaded fp phdr) b (put_phdr fp phdr b)
      × (b.nbytes_kernel + length (loaded fp phdr) < 2 ^ 32
          → (put_phdr fp phdr b).nbytes_kernel
            ≡ counted (same_name fp.name main) b.nbytes_kernel (length (loaded fp phdr)))
unfolding put_phdr
put_phdr-Grown phdr fp b fits = elim (Bool-cases (phdr.p_type == pt_load)) [
  | inl load ↦
      let (g, same) = write_segment-Grown phdr fp b fits load in
      let size = length-part phdr.p_filesz fp phdr.p_offset in
      elim (Bool-cases (same_name fp.name main)) [
        | inl is_main ↦
            rw (load, is_main)
              (
                record { put = g.put; phyaddr = g.phyaddr; taskinfo = g.taskinfo },
                λ low. omega (arith, same, size),
              )
        | inr other ↦ rw (load, other) (g, λ low. same)
      ]
  | inr skip ↦ rw skip (none-Grown b, λ low. ground arith)
]

-- The program headers from `ph` on, `n` of them, can be read, and put `s` into the image.
abbrev pub Segs : InputFile → Ehdr → ℕ → ℕ → List ℕ → Type 0
Segs fp e zero ph s = s ≡ []
Segs fp e (suc n) ph s =
    (phdr : Phdr) × (v : List ℕ) × (read_phdr fp ph e ≡ ok phdr)
    × (phdr.p_filesz ≤ phdr.p_memsz)
    × (s ≡ loaded fp phdr ++ v)
    × Segs fp e n (ph + 1) v

-- The file is an ELF file, whose segments in memory are `s`.
abbrev pub Content : InputFile → List ℕ → Type 0
Content fp s = (e : Ehdr) × (read_ehdr fp ≡ ok e) × Segs fp e e.e_phnum 0 s

-- What a file leaves: the bytes `s` behind those before, and the kernel's size.
pub record Filed (fp : InputFile) (s : List ℕ) (b b' : Build) : Type 0 where
  pub grown : Grown s b b'
  pub kernel :
      b.nbytes_kernel + length s < 2 ^ 32
      → b'.nbytes_kernel ≡ counted (same_name fp.name main) b.nbytes_kernel (length s)

counted-append : (m : Bool) (a x y : ℕ) → counted m (counted m a x) y ≡ counted m a (x + y)
counted-append true a x y = omega arith
counted-append false a x y = refl

counted-low : (m : Bool) (a x : ℕ) → counted m a x ≤ a + x
counted-low true a x = omega arith
counted-low false a x = omega arith

phdr_loop-Filed :
    (n : ℕ) (fp : InputFile) (ph : ℕ) (e : Ehdr) (s : List ℕ) (b : Build)
    → Segs fp e n ph s
    → (b' : Build) × (phdr_loop n fp ph e b ≡ ok b') × Filed fp s b b'
unfolding phdr_loop
phdr_loop-Filed zero fp ph e s b empty = (
  b,
  refl,
  subst (λ s. Filed fp s b b) (sym empty)
      (record { grown = none-Grown b; kernel = λ low. ground arith }),
)
phdr_loop-Filed (suc n) fp ph e s b (phdr, v, reads, fits, whole, more) =
    let u = loaded fp phdr in
    let m = same_name fp.name main in
    let (g, count) = put_phdr-Grown phdr fp b fits in
    let (b', goes, f) = phdr_loop-Filed n fp (ph + 1) e v (put_phdr fp phdr b) more in
    let size = length-append u v in
    (
      b',
      rw (reads, phdr_loop) goes,
      subst (λ s. Filed fp s b b') (sym whole)
          (record {
            grown = append-Grown u v b (put_phdr fp phdr b) b' g f.grown;
            kernel = λ low.
                let first = count (omega (arith, size)) in
                f.kernel (omega (arith, size, first, counted-low m b.nbytes_kernel (length u)))
                ∙ ap (λ z. counted m z (length v)) first
                ∙ counted-append m b.nbytes_kernel (length u) (length v)
                ∙ ap (counted m b.nbytes_kernel) (sym size);
          }),
    )

pub put_file-Filed :
    (fidx : ℕ) (fp : InputFile) (s : List ℕ) (b b1 : Build)
    → Content fp s
    → begin_task fidx fp.name b ≡ ok b1
    → (b2 : Build) × Filed fp s b1 b2
      × (put_file fidx fp b
          ≡ ok (end_task fidx (if same_name fp.name bootblock then write_padding 1024 b2 else b2)))
unfolding put_file
put_file-Filed fidx fp s b b1 (e, is_elf, segs) begun =
    let (b2, goes, f) = phdr_loop-Filed e.e_phnum fp 0 e s b1 segs in
    (b2, f, rw (begun, put_file) (rw (is_elf, put_file) (rw (goes, put_file))))

pub write_padding-full : (b : Build) → 1024 ≤ b.phyaddr → write_padding 1024 b ≡ b
unfolding write_padding zero_bytes
write_padding-full b h = let no_rounds : 1024 - b.phyaddr ≡ 0 = omega arith in rw no_rounds

pub no_padding :
    (m : Bool) (b : Build) → 1024 ≤ b.phyaddr → (if m then write_padding 1024 b else b) ≡ b
no_padding true b h = write_padding-full b h
no_padding false b h = refl
