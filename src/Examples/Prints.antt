-- ===== src/Examples/Prints.antt =====
-- The theorems on libs/printk.c and tiny_libc/printf.c for the format "n=%d" at 100, the arrays `buff`
-- at 1000 and `bf` at 2000.
use ucas_oslab_project.Common.{
  ℕ, ◌+◌, ◌-◌, ◌≤◌, ◌<◌, ◌≡◌, ◌^◌, refl, inl, inr, true, false, none, some, List, [], ◌∷◌, ◌==◌,
  if◌then◌else◌, arith, length,
}
use ucas_oslab_project.Strings.{Mem}
use ucas_oslab_project.Strings.Text.{SameBut}
use ucas_oslab_project.Format
use ucas_oslab_project.Format.{mini_itoa}
use ucas_oslab_project.Format.Digits.{Holds}
use ucas_oslab_project.Format.Number.{Printed}
use ucas_oslab_project.Format.Itoa.{mini_itoa-Printed}
use ucas_oslab_project.Format.Output.Puts.{take}
use ucas_oslab_project.Format.Output.Pieces.{Piece, plain, number, signed}
use ucas_oslab_project.Format.Output.Clear.{Untouched}
use ucas_oslab_project.Format.Output.Run.{PrintsAll}
use ucas_oslab_project.Printk.{Frame, mini_vsnprintf}
use ucas_oslab_project.Printk.Text.{Request, mini_vsnprintf-prints}
use ucas_oslab_project.Printf
use ucas_oslab_project.Printf.Number.{mini_itoa-same}

abbrev format : Mem
format p =
    if p == 100
    then b'n'
    else if p == 101
    then b'='
    else if p == 102
    then b'%'
    else if p == 103
    then b'd'
    else 0

abbrev pieces : List Piece
pieces = plain b'n' ∷ plain b'=' ∷ number signed false none 42 ∷ []

abbrev frame : Frame
frame = record { buff = 1000; bf = 2000; fuel = 100 }

request : (n : ℕ) → 0 < n → n ≤ 256 → Request frame 1000 n 100 pieces format
request n room low = record {
  room = room;
  n_word = omega arith;
  apart = inr (omega arith);
  enough = omega arith;
  good = (
    (omega arith, (λ e. omega arith), (λ e. omega arith)),
    (
      (omega arith, (λ e. omega arith), (λ e. omega arith)),
      ((tt, omega arith, inr (λ e. omega arith)), tt),
    ),
  );
  text = (refl, (refl, (refl, (refl, (refl, tt)))));
  clear = (inl (omega arith), inl (omega arith));
}

mini_itoa-Printed_example :
    (len : ℕ) × (last : Mem) × (digits : List ℕ) × (mini_itoa
        (2 ^ 64 - 42)
        10
        false
        false
        1000
        4
        format
      ≡ some (len, last))
    × Printed false 10 42 true 4 last 1000 len digits
    × SameBut 1000 (len + 1) format last
mini_itoa-Printed_example =
    mini_itoa-Printed (2 ^ 64 - 42) 10 false false 1000 4 format (inl refl) (omega arith)
      (inr (λ e. omega arith))

-- Three bytes are too few for the whole text.
mini_vsnprintf-prints_example :
    (t : List ℕ) × (mem' : Mem) × (mini_vsnprintf frame 1000 3 100 (42 ∷ []) format
      ≡ some (length (take 2 t), mem'))
    × PrintsAll pieces t
    × Holds mem' 1000 (take 2 t)
    × Untouched 1000 3 2000 format mem'
mini_vsnprintf-prints_example =
    mini_vsnprintf-prints frame 1000 3 100 pieces format (request 3 (omega arith) (omega arith))

mini_itoa-same_example :
    Printf.mini_itoa 255 16 true true 1000 4 format
    ≡ Format.mini_itoa 255 16 true true 1000 4 format
mini_itoa-same_example =
    mini_itoa-same 255 16 true true 1000 4 format (inr refl) (omega arith) (inl (omega arith))
