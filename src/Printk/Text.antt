-- ===== src/Printk/Text.antt =====
-- libs/printk.c: the text that `mini_vsnprintf` leaves, with the kernel's `mini_itoa`.
use ucas_oslab_project.Common.{
  ℕ, ◌+◌, ◌-◌, ◌^◌, ◌≤◌, ◌<◌, ◌≡◌, ◌≢◌, ◌⊎◌, Bool, true, some, List, [], ◌∷◌, ◌++◌, length,
}
use ucas_oslab_project.LinkedList.{Ptr}
use ucas_oslab_project.Strings.{Mem}
use ucas_oslab_project.Format.{mini_itoa}
use ucas_oslab_project.Format.Digits.{Holds}
use ucas_oslab_project.Format.Itoa.{mini_itoa-Printed}
use ucas_oslab_project.Format.Output.Puts.{take}
use ucas_oslab_project.Format.Output.Pieces.{ItoaLaw, Piece}
use ucas_oslab_project.Format.Output.Clear.{Untouched, Clear}
use ucas_oslab_project.Format.Output.Run.{formats, all_args, AllGood, PrintsAll, vsnprintf-prints}
use ucas_oslab_project.Printk.{Frame, mini_vsnprintf}

-- Every value but the least one, which has no opposite.
abbrev pub Accepts : ℕ → Bool → Type 0
Accepts value unsig = (unsig ≡ true) ⊎ (value ≢ 2 ^ 63)

pub itoa_law : ItoaLaw mini_itoa Accepts
itoa_law = record { prints = mini_itoa-Printed }

-- The format is at `fmt`, apart from the arrays, and its pieces can be printed into `n` bytes.
pub record Request (fr : Frame) (buffer : Ptr) (n : ℕ) (fmt : Ptr) (ps : List Piece) (mem : Mem)
    : Type 0 where
  pub room : 0 < n
  pub n_word : n < 2 ^ 32
  pub apart : (fr.bf + 24 ≤ buffer) ⊎ (buffer + n ≤ fr.bf)
  pub enough : length (formats ps) < fr.fuel
  pub good : AllGood Accepts buffer n fr.bf fr.fuel mem ps
  pub text : Holds mem fmt (formats ps ++ 0 ∷ [])
  pub clear : Clear buffer n fr.bf fmt (length (formats ps) + 1)

-- On a format made of pieces that the arguments fit (plain characters, %u, %d, %x and %X with l,
-- with a width of at most 22 or with neither, %c, %s, and a % before another character), all apart
-- from the arrays, mini_vsnprintf ends, given more fuel than the format and each text are long,
-- and leaves in the buffer what fits of the texts of the pieces in their order; its result is the
-- length of what it leaves, and it writes to no byte outside the n bytes of the buffer and the 24
-- of bf. A number is its digits, '0' to '9' and besides, for %x, 'a' to 'f' and, for %X, 'A' to
-- 'F'. A signed number is not the least 64-bit one.
pub mini_vsnprintf-prints :
    (fr : Frame) (buffer : Ptr) (n : ℕ) (fmt : Ptr) (ps : List Piece) (mem : Mem)
    → Request fr buffer n fmt ps mem
    → (t : List ℕ) × (mem' : Mem) × (mini_vsnprintf fr buffer n fmt (all_args ps) mem
        ≡ some (length (take (n - 1) t), mem'))
      × PrintsAll ps t
      × Holds mem' buffer (take (n - 1) t)
      × Untouched buffer n fr.bf mem mem'
unfolding mini_vsnprintf
mini_vsnprintf-prints fr buffer n fmt ps mem r =
    vsnprintf-prints itoa_law buffer n r.room r.n_word fr.bf fr.fuel r.apart ps fmt mem r.enough
      r.good r.text r.clear
