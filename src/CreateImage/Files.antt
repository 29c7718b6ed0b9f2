-- ===== src/CreateImage/Files.antt =====
-- tools/createimage.c: bytes that are written one behind another.
use mathlib.Core.Path.{subst}
use ucas_oslab_project.Common.{
  ℕ, zero, suc, ◌+◌, ◌≡◌, refl, ap, ◌∙◌, inl, List, [], ◌∷◌, ◌++◌, arith, length, length-append,
}
use ucas_oslab_project.Strings.Text.{SameBut}
use ucas_oslab_project.Format.Digits.{Holds, Holds-frame}
use ucas_oslab_project.Format.Number.{Holds-append}
use ucas_oslab_project.CreateImage.{Output, fputc, fwrite, InputFile, Build, copy_bytes, zero_bytes}

-- `s` has gone to the file's position, and nothing else.
pub record Put (s : List ℕ) (img img' : Output) : Type 0 where
  pub pos : img'.pos ≡ img.pos + length s
  pub bytes : Holds img'.byte img.pos s
  pub rest : SameBut img.pos (length s) img.byte img'.byte

pub none-Put : (img : Output) → Put [] img img
none-Put img = record { pos = omega arith; bytes = tt; rest = λ q out. refl }

pub cons-Put :
    (c : ℕ) (s : List ℕ) (img img' : Output) → Put s (fputc c img) img' → Put (c ∷ s) img img'
unfolding fputc
cons-Put c s img img' p = record {
  pos = omega (arith, p.pos);
  bytes = (p.rest img.pos (inl (omega arith)) ∙ ground arith, p.bytes);
  rest = λ q out. p.rest q (ground arith) ∙ ground arith;
}

pub append-Put :
    (s t : List ℕ) (img img1 img2 : Output)
    → Put s img img1
    → Put t img1 img2
    → Put (s ++ t) img img2
append-Put s t img img1 img2 p q =
    let size = length-append s t in
    record {
      pos = omega (arith, size, p.pos, q.pos);
      bytes =
          Holds-append img2.byte img.pos s t
            (Holds-frame img1.byte img2.byte img.pos s
              (λ a lo hi. q.rest a (inl (omega (arith, p.pos)))) p.bytes)
            (subst (λ a. Holds img2.byte a t) p.pos q.bytes);
      rest =
          λ a out. q.rest a (ground (arith, size, p.pos)) ∙ p.rest a (ground (arith, size, p.pos));
    }

pub fwrite-Put : (s : List ℕ) (img : Output) → Put s img (fwrite s img)
unfolding fwrite
fwrite-Put [] img = none-Put img
fwrite-Put (c ∷ s) img = cons-Put c s img (fwrite s (fputc c img)) (fwrite-Put s (fputc c img))

-- `s` has gone to the image, whose position and size go together.
pub record Grown (s : List ℕ) (b b' : Build) : Type 0 where
  pub put : Put s b.img b'.img
  pub phyaddr : b'.phyaddr ≡ b.phyaddr + length s
  pub taskinfo : b'.taskinfo ≡ b.taskinfo

pub none-Grown : (b : Build) → Grown [] b b
none-Grown b = record { put = none-Put b.img; phyaddr = omega arith; taskinfo = refl }

pub append-Grown :
    (s t : List ℕ) (b b1 b2 : Build) → Grown s b b1 → Grown t b1 b2 → Grown (s ++ t) b b2
append-Grown s t b b1 b2 g h = record {
  put = append-Put s t b.img b1.img b2.img g.put h.put;
  phyaddr = omega (arith, g.phyaddr, h.phyaddr, length-append s t);
  taskinfo = h.taskinfo ∙ g.taskinfo;
}

-- `n` bytes of an input file from `offset` on.
abbrev pub part : (n : ℕ) → InputFile → (offset : ℕ) → List ℕ
part zero fp offset = []
part (suc n) fp offset = fp.byte offset ∷ part n fp (offset + 1)

abbrev pub zeros : ℕ → List ℕ
zeros zero = []
zeros (suc n) = 0 ∷ zeros n

pub length-zeros : (n : ℕ) → length (zeros n) ≡ n
length-zeros zero = refl
length-zeros (suc n) = ap suc (length-zeros n)

pub copy_bytes-Grown :
    (n : ℕ) (fp : InputFile) (offset : ℕ) (b : Build)
    → Grown (part n fp offset) b (copy_bytes n fp offset b)
      × ((copy_bytes n fp offset b).nbytes_kernel ≡ b.nbytes_kernel)
unfolding copy_bytes
copy_bytes-Grown zero fp offset b = (none-Grown b, refl)
copy_bytes-Grown (suc n) fp offset b =
    let c = fp.byte offset in
    let b1 : Build = record b { img = fputc c b.img; phyaddr = b.phyaddr + 1 } in
    let (g, same) = copy_bytes-Grown n fp (offset + 1) b1 in
    (
      record {
        put = cons-Put c (part n fp (offset + 1)) b.img _ g.put;
        phyaddr = omega (arith, g.phyaddr);
        taskinfo = g.taskinfo;
      },
      same,
    )

pub zero_bytes-Grown :
    (n : ℕ) (b : Build)
    → Grown (zeros n) b (zero_bytes n b) × ((zero_bytes n b).nbytes_kernel ≡ b.nbytes_kernel)
unfolding zero_bytes
zero_bytes-Grown zero b = (none-Grown b, refl)
zero_bytes-Grown (suc n) b =
    let b1 : Build = record b { img = fputc 0 b.img; phyaddr = b.phyaddr + 1 } in
    let (g, same) = zero_bytes-Grown n b1 in
    (
      record {
        put = cons-Put 0 (zeros n) b.img _ g.put;
        phyaddr = omega (arith, g.phyaddr);
        taskinfo = g.taskinfo;
      },
      same,
    )
