-- ===== src/CreateImage/Tasks.antt =====
-- tools/createimage.c: the tasks in the image, and their places in `taskinfo`.
use mathlib.Core.Path.{subst}
use ucas_oslab_project.Common.{
  ℕ, ◌+◌, ◌-◌, ◌^◌, ◌≤◌, ◌<◌, ◌≡◌, refl, ap, ◌∙◌, inl, inr, false, ltb, leb, ◌==◌, Bool-cases, List,
  [], ◌∷◌, arith, length,
}
use ucas_oslab_project.LinkedList.{update}
use ucas_oslab_project.Format.Digits.{Holds, Holds-frame}
use ucas_oslab_project.CreateImage.{
  ok, outside_array, InputFile, Entry, Build, strncpy_bytes, same_name, main, bootblock, begin_task,
  end_task, put_file, files_loop,
}
use ucas_oslab_project.CreateImage.Segments.{Content, counted, put_file-Filed, no_padding}

abbrev pub Contents : List InputFile → List (List ℕ) → Type 0
Contents [] [] = Unit {0}
Contents (f ∷ fs) (s ∷ ss) = Content f s × Contents fs ss
Contents fs ss = ⊥

abbrev pub total : List (List ℕ) → ℕ
total [] = 0
total (s ∷ ss) = length s + total ss

abbrev pub kernel_size : List InputFile → List (List ℕ) → ℕ → ℕ
kernel_size (f ∷ fs) (s ∷ ss) n = kernel_size fs ss (counted (same_name f.name main) n (length s))
kernel_size fs ss n = n

-- The entry of a file with the bytes `s` from `base` on.
abbrev pub entry_of : InputFile → (base : ℕ) → List ℕ → Entry
entry_of f base s = record { name = strncpy_bytes 24 f.name; begin = base; end = base + length s }

-- From task `j` on the files stand in the image one behind another from `base` on.
abbrev pub Placed :
    (byte : ℕ → ℕ) (taskinfo : ℕ → Entry) (j base : ℕ) → List InputFile → List (List ℕ) → Type 0
Placed byte taskinfo j base (f ∷ fs) (s ∷ ss) =
    (taskinfo j ≡ entry_of f base s)
    × Holds byte base s
    × Placed byte taskinfo (j + 1) (base + length s) fs ss
Placed byte taskinfo j base fs ss = Unit {0}

-- The position in the image is its size, and the boot block's two sectors are there.
pub record Sized (b : Build) : Type 0 where
  pub pos : b.img.pos ≡ b.phyaddr
  pub boot : 1024 ≤ b.phyaddr

-- The task `j` with the bytes `s` has been added.
record Added (j : ℕ) (f : InputFile) (s : List ℕ) (b b' : Build) : Type 0 where
  sized : Sized b'
  size : b'.phyaddr ≡ b.phyaddr + length s
  entry : b'.taskinfo j ≡ entry_of f b.phyaddr s
  earlier : (i : ℕ) → i < j → b'.taskinfo i ≡ b.taskinfo i
  bytes : Holds b'.img.byte b.phyaddr s
  below : (q : ℕ) → q < b.phyaddr → b'.img.byte q ≡ b.img.byte q
  kernel :
      b.nbytes_kernel + length s < 2 ^ 32
      → b'.nbytes_kernel ≡ counted (same_name f.name main) b.nbytes_kernel (length s)

begun : (j : ℕ) → List ℕ → Build → Build
begun j name b = record b {
  taskinfo =
      update b.taskinfo j
        (record (b.taskinfo j) { name = strncpy_bytes 24 name; begin = b.phyaddr });
}

begin_task-begun :
    (j : ℕ) (name : List ℕ) (b : Build) → j < 16 → begin_task (j + 2) name b ≡ ok (begun j name b)
unfolding begin_task begun
begin_task-begun j name b low =
    let e1 : ltb (j + 2) 2 ≡ false = ground arith in
    let e2 : leb 16 (j + 2 - 2) ≡ false = ground arith in
    let e3 : j + 2 - 2 ≡ j = omega arith in rw (e1, e2, e3)

put_task-Added :
    (j : ℕ) (f : InputFile) (s : List ℕ) (b : Build)
    → j < 16
    → Sized b
    → Content f s
    → (b' : Build) × (put_file (j + 2) f b ≡ ok b') × Added j f s b b'
unfolding end_task begun
put_task-Added j f s b low sized content =
    let (b2, filed, goes) =
      put_file-Filed (j + 2) f s b (begun j f.name b) content (begin_task-begun j f.name b low) in
    let g = filed.grown in
    let full : 1024 ≤ b2.phyaddr = omega (arith, g.phyaddr, sized.boot) in
    let e1 : ltb (j + 2) 2 ≡ false = ground arith in
    let e3 : j + 2 - 2 ≡ j = omega arith in
    (
      end_task (j + 2) b2,
      goes ∙ ap (λ z. ok (end_task (j + 2) z)) (no_padding (same_name f.name bootblock) b2 full),
      rw (e1, e3)
          (record {
            sized = record { pos = omega (arith, g.put.pos, g.phyaddr, sized.pos); boot = full };
            size = g.phyaddr;
            entry = ground (arith, ap (λ (t : ℕ → Entry). t j) g.taskinfo, g.phyaddr);
            earlier = λ i lt. ground (arith, ap (λ t. t i) g.taskinfo);
            bytes = subst (λ p. Holds b2.img.byte p s) sized.pos g.put.bytes;
            below = λ q lt. g.put.rest q (inl (omega (arith, sized.pos)));
            kernel = filed.kernel;
          }),
    )

-- The tasks from `j` on have been added.
pub record Stored (j : ℕ) (fs : List InputFile) (ss : List (List ℕ)) (b b' : Build) : Type 0 where
  pub sized : Sized b'
  pub size : b'.phyaddr ≡ b.phyaddr + total ss
  pub placed : Placed b'.img.byte b'.taskinfo j b.phyaddr fs ss
  pub earlier : (i : ℕ) → i < j → b'.taskinfo i ≡ b.taskinfo i
  pub below : (q : ℕ) → q < b.phyaddr → b'.img.byte q ≡ b.img.byte q
  pub kernel :
      b.nbytes_kernel + total ss < 2 ^ 32 → b'.nbytes_kernel ≡ kernel_size fs ss b.nbytes_kernel

counted_low :
    (f : InputFile) (n : ℕ) (s : List ℕ)
    → counted (same_name f.name main) n (length s) ≤ n + length s
counted_low f n s = ground arith

Stored-cons :
    (j : ℕ) (f : InputFile) (s : List ℕ) (fs : List InputFile) (ss : List (List ℕ))
    (b b1 b' : Build)
    → Added j f s b b1
    → Stored (j + 1) fs ss b1 b'
    → Stored j (f ∷ fs) (s ∷ ss) b b'
Stored-cons j f s fs ss b b1 b' a r = record {
  sized = r.sized;
  size = omega (arith, r.size, a.size);
  placed = (
    r.earlier j (omega arith) ∙ a.entry,
    Holds-frame b1.img.byte b'.img.byte b.phyaddr s (λ q lo hi. r.below q (omega (arith, a.size)))
        a.bytes,
    subst (λ base. Placed b'.img.byte b'.taskinfo (j + 1) base fs ss) a.size r.placed,
  );
  earlier = λ i lt. r.earlier i (omega arith) ∙ a.earlier i lt;
  below = λ q lt. r.below q (omega (arith, a.size)) ∙ a.below q lt;
  kernel = λ low.
      let first = a.kernel (omega arith) in
      r.kernel (omega (arith, first, counted_low f b.nbytes_kernel s))
      ∙ ap (kernel_size fs ss) first;
}

pub files_loop-Stored :
    (fs : List InputFile) (ss : List (List ℕ)) (j : ℕ) (b : Build)
    → j + length fs ≤ 16
    → Sized b
    → Contents fs ss
    → (b' : Build) × (files_loop (j + 2) fs b ≡ ok b') × Stored j fs ss b b'
unfolding files_loop
files_loop-Stored [] [] j b few sized contents = (
  b,
  refl,
  record {
    sized = sized;
    size = omega arith;
    placed = tt;
    earlier = λ i lt. refl;
    below = λ q lt. refl;
    kernel = λ low. refl;
  },
)
files_loop-Stored [] (s ∷ ss) j b few sized contents = absurd contents
files_loop-Stored (f ∷ fs) [] j b few sized contents = absurd contents
files_loop-Stored (f ∷ fs) (s ∷ ss) j b few sized contents =
    let (b1, put, added) = put_task-Added j f s b (omega arith) sized contents.0 in
    let (b', goes, stored) =
      files_loop-Stored fs ss (j + 1) b1 (omega arith) added.sized contents.1 in
    let next : j + 2 + 1 ≡ j + 1 + 2 = omega arith in
    (
      b',
      rw (put, files_loop) (ap (λ i. files_loop i fs b1) next ∙ goes),
      Stored-cons j f s fs ss b b1 b' added stored,
    )

put_file-full : (f : InputFile) (b : Build) → put_file (16 + 2) f b ≡ outside_array
unfolding put_file begin_task
put_file-full f b = refl

-- The seventeenth task is beyond the array.
pub files_loop-full :
    (fs : List InputFile) (ss : List (List ℕ)) (j : ℕ) (b : Build)
    → j ≤ 16
    → 16 < j + length fs
    → Sized b
    → Contents fs ss
    → files_loop (j + 2) fs b ≡ outside_array
unfolding files_loop
files_loop-full [] ss j b low many sized contents = absurd (omega arith)
files_loop-full (f ∷ fs) [] j b low many sized contents = absurd contents
files_loop-full (f ∷ fs) (s ∷ ss) j b low many sized contents = elim (Bool-cases (j == 16)) [
  | inl last ↦ let e : j + 2 ≡ 16 + 2 = ground arith in rw e (rw (put_file-full f b, files_loop))
  | inr before ↦
      let (b1, put, added) = put_task-Added j f s b (ground arith) sized contents.0 in
      let next : j + 2 + 1 ≡ j + 1 + 2 = omega arith in
      rw (put, files_loop)
        (ap (λ i. files_loop i fs b1) next
          ∙ files_loop-full fs ss (j + 1) b1 (ground arith) (omega arith) added.sized contents.1)
]
