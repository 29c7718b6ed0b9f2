-- ===== src/CreateImage/Info.antt =====
-- tools/createimage.c: what `write_img_info` writes over the second half of the boot block.
use mathlib.Core.Path.{subst}
use ucas_oslab_project.Common.{
  ℕ, zero, suc, ◌+◌, ◌*◌, ◌^◌, ◌<◌, ◌≡◌, refl, ap, ◌∙◌, List, [], ◌∷◌, ◌++◌, arith, length,
  length-append,
}
use ucas_oslab_project.Strings.Text.{SameBut}
use ucas_oslab_project.Format.Digits.{Holds}
use ucas_oslab_project.Format.Output.Reading.{Holds-split}
use ucas_oslab_project.Loader.{nbytes2sec}
use ucas_oslab_project.CreateImage.{
  Output, Entry, fwrite, fseek, strncpy_bytes, le32, entry_bytes, write_entries, write_img_info,
}
use ucas_oslab_project.CreateImage.Files.{Put, none-Put, append-Put, fwrite-Put}

-- The `uint32_t` at an address.
abbrev pub word32 : (ℕ → ℕ) → ℕ → ℕ
word32 byte p =
    byte p + 256 * byte (p + 1) + 65536 * byte (p + 1 + 1) + 16777216 * byte (p + 1 + 1 + 1)

pub word32-le32 : (byte : ℕ → ℕ) (p v : ℕ) → v < 2 ^ 32 → Holds byte p (le32 v) → word32 byte p ≡ v
word32-le32 byte p v low h = omega (arith, h.0, h.1.0, h.1.1.0, h.1.1.1.0)

abbrev pub entries : ℕ → ℕ → (ℕ → Entry) → List ℕ
entries zero i taskinfo = []
entries (suc n) i taskinfo = entry_bytes (taskinfo i) ++ entries n (i + 1) taskinfo

write_entries-Put :
    (n i : ℕ) (taskinfo : ℕ → Entry) (img : Output)
    → Put (entries n i taskinfo) img (write_entries n i taskinfo img)
unfolding write_entries
write_entries-Put zero i taskinfo img = none-Put img
write_entries-Put (suc n) i taskinfo img =
    let img1 = fwrite (entry_bytes (taskinfo i)) img in
    append-Put (entry_bytes (taskinfo i)) (entries n (i + 1) taskinfo) img img1
      (write_entries n (i + 1) taskinfo img1) (fwrite-Put (entry_bytes (taskinfo i)) img)
      (write_entries-Put n (i + 1) taskinfo img1)

pub length-strncpy_bytes : (n : ℕ) (s : List ℕ) → length (strncpy_bytes n s) ≡ n
unfolding strncpy_bytes
length-strncpy_bytes zero s = refl
length-strncpy_bytes (suc n) [] = ap suc (length-strncpy_bytes n [])
length-strncpy_bytes (suc n) (c ∷ s) = ap suc (length-strncpy_bytes n s)

-- The `n` entries from `i` on have names of 24 bytes.
abbrev pub Named : ℕ → ℕ → (ℕ → Entry) → Type 0
Named zero i taskinfo = Unit {0}
Named (suc n) i taskinfo = (length (taskinfo i).name ≡ 24) × Named n (i + 1) taskinfo

length-entry_bytes : (t : Entry) → length t.name ≡ 24 → length (entry_bytes t) ≡ 32
length-entry_bytes t e = length-append t.name (le32 t.begin ++ le32 t.end) ∙ ap (λ n. n + 8) e

length-entries :
    (n i : ℕ) (taskinfo : ℕ → Entry) → Named n i taskinfo → length (entries n i taskinfo) ≡ 32 * n
length-entries zero i taskinfo named = refl
length-entries (suc n) i taskinfo named = omega (
  arith,
  length-append (entry_bytes (taskinfo i)) (entries n (i + 1) taskinfo),
  length-entry_bytes (taskinfo i) named.0,
  length-entries n (i + 1) taskinfo named.1,
)

-- From entry `i` on, at `p`, each of the `n` entries stands in the image.
abbrev pub Table : (byte : ℕ → ℕ) (p n i : ℕ) → (ℕ → Entry) → Type 0
Table byte p zero i taskinfo = Unit {0}
Table byte p (suc n) i taskinfo =
    Holds byte p (entry_bytes (taskinfo i)) × Table byte (p + 32) n (i + 1) taskinfo

entries-Table :
    (byte : ℕ → ℕ) (p n i : ℕ) (taskinfo : ℕ → Entry)
    → Named n i taskinfo
    → Holds byte p (entries n i taskinfo)
    → Table byte p n i taskinfo
entries-Table byte p zero i taskinfo named h = tt
entries-Table byte p (suc n) i taskinfo named h =
    let (here, more) =
      Holds-split byte p (entry_bytes (taskinfo i)) (entries n (i + 1) taskinfo) h in
    (
      here,
      entries-Table byte (p + 32) n (i + 1) taskinfo named.1 (
          subst (λ k. Holds byte (p + k) (entries n (i + 1) taskinfo))
            (length-entry_bytes (taskinfo i) named.0) more),
    )

-- The image after `write_img_info`.
pub record Informed (nbytes_kernel : ℕ) (taskinfo : ℕ → Entry) (n : ℕ) (img img' : Output)
    : Type 0 where
  pub task_num : Holds img'.byte 0x1f8 (le32 n)
  pub os_size : Holds img'.byte 0x1fc (le32 (nbytes2sec nbytes_kernel))
  pub table : Table img'.byte 0x200 n 0 taskinfo
  pub rest : SameBut 0x1f8 (8 + 32 * n) img.byte img'.byte

pub write_img_info-Informed :
    (nbytes_kernel : ℕ) (taskinfo : ℕ → Entry) (n : ℕ) (img : Output)
    → Named n 0 taskinfo
    → Informed nbytes_kernel taskinfo n img (write_img_info nbytes_kernel taskinfo n img)
unfolding write_img_info
write_img_info-Informed nbytes_kernel taskinfo n img named =
    let a = le32 n in
    let b = le32 (nbytes2sec nbytes_kernel) in
    let img0 = fseek 0x1f8 img in
    let img1 = fwrite a img0 in
    let img2 = fwrite b img1 in
    let img3 = write_entries n 0 taskinfo img2 in
    let p = append-Put a (b ++ entries n 0 taskinfo) img0 img1 img3 (fwrite-Put a img0) (
      append-Put b (entries n 0 taskinfo) img1 img2 img3 (fwrite-Put b img1)
        (write_entries-Put n 0 taskinfo img2)) in
    let size = length-entries n 0 taskinfo named in
    let (num, more) = Holds-split img3.byte 0x1f8 a (b ++ entries n 0 taskinfo) p.bytes in
    let (os, table) = Holds-split img3.byte 0x1fc b (entries n 0 taskinfo) more in
    record {
      task_num = num;
      os_size = os;
      table = entries-Table img3.byte 0x200 n 0 taskinfo named table;
      rest = λ q out. p.rest q (ground (arith, size));
    }
