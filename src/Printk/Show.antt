-- ===== src/Printk/Show.antt =====
-- libs/printk.c: what `printk` puts on the terminal.
use mathlib.Core.Path.{subst}
use ucas_oslab_project.Common.{
  ℕ, ◌+◌, ◌-◌, ◌≤◌, ◌<◌, ◌≡◌, ◌≢◌, sym, ap, ◌∙◌, leb, ltb, ◌&&◌, if◌then◌else◌, some, List, [], ◌∷◌,
  arith, length,
}
use ucas_oslab_project.Common.Int.{pos}
use ucas_oslab_project.LinkedList.{Ptr, update}
use ucas_oslab_project.Kernel.{Kernel}
use ucas_oslab_project.Strings.{Mem}
use ucas_oslab_project.Strings.Text.{IsString}
use ucas_oslab_project.Strings.Build.{byte_at}
use ucas_oslab_project.Screen.{Screen, screen_loc, cursor_x, cursor_y, screen_write, screen_reflush}
use ucas_oslab_project.Screen.Terminal.{Terminal}
use ucas_oslab_project.Screen.Refresh.{at, screen_reflush-shows}
use ucas_oslab_project.Screen.Write.{OneLine, screen_write-Typed}
use ucas_oslab_project.Format.Digits.{Holds, Holds-frame}
use ucas_oslab_project.Format.Output.Puts.{take-all}
use ucas_oslab_project.Format.Output.Pieces.{Piece}
use ucas_oslab_project.Format.Output.Run.{all_args, PrintsAll}
use ucas_oslab_project.Printk.{Frame, Output, vprint, output_wrapper, vprintk, printk}
use ucas_oslab_project.Printk.Text.{Request, mini_vsnprintf-prints}

abbrev pub NoNul : List ℕ → Type 0
NoNul [] = Unit {0}
NoNul (c ∷ t) = (c ≢ 0) × NoNul t

NoNul-IsString :
    (mem : Mem) (p : Ptr) (t : List ℕ)
    → Holds mem p t
    → NoNul t
    → mem (p + length t) ≡ 0
    → IsString mem p t
NoNul-IsString mem p [] h texts end = ground arith
NoNul-IsString mem p (c ∷ t) h texts end =
    (h.0, texts.0, NoNul-IsString mem (p + 1) t h.1 texts.1 (ground arith))

-- The text, with the NUL that `_vprint` puts behind it, goes to `output`.
pub vprint-outputs :
    {S : Type 0} (fr : Frame) (fmt : Ptr) (ps : List Piece) (output : Output S) (mem : Mem) (s : S)
    → Request fr fr.buff 256 fmt ps mem
    → ((t : List ℕ) → PrintsAll ps t → NoNul t × (length t < 256))
    → (t : List ℕ) × (mem' : Mem) × PrintsAll ps t
      × IsString mem' fr.buff t
      × ((s' : S)
          → output fr.buff mem' s ≡ some s'
          → vprint fr fmt (all_args ps) output mem s ≡ some (length t, mem', s'))
unfolding vprint
vprint-outputs fr fmt ps output mem s r fits =
    let (t, mem1, goes, prints, held, same) = mini_vsnprintf-prints fr fr.buff 256 fmt ps mem r in
    let (texts, short) = fits t prints in
    let whole = take-all 255 t (omega arith) in
    let len = ap (length {A = ℕ}) whole in
    let mem2 = update mem1 (fr.buff + length t) 0 in
    (
      t,
      mem2,
      prints,
      NoNul-IsString mem2 fr.buff t
          (Holds-frame mem1 mem2 fr.buff t (λ q low high. ground arith)
            (subst (Holds mem1 fr.buff) whole held))
          texts (ground arith),
      λ s' shown.
          let ends = goes ∙ ap (λ l. some (l, mem1)) len in rw (ends, vprint) (rw (shown, vprint)),
    )

pub output_wrapper-writes :
    (fuel : ℕ) (buff : Ptr) (mem : Mem) (k k' : Kernel) (s s' : Screen)
    → screen_write fuel buff mem k s ≡ some (k', s')
    → output_wrapper fuel buff mem (k, s) ≡ some (k', screen_reflush k' s')
unfolding output_wrapper
output_wrapper-writes fuel buff mem k k' s s' e = rw (e, output_wrapper)

pub at-port : (t0 : Terminal) (s s' : Screen) (q : ℕ) → s'.port ≡ s.port → at t0 s' q ≡ at t0 s q
at-port t0 s s' q e = rw e

-- Every text that the pieces may print fits into the row behind column `x`.
abbrev pub FitsRow : List Piece → ℕ → Type 0
FitsRow ps x = (t : List ℕ) → PrintsAll ps t → NoNul t × OneLine t × (x + length t ≤ 80)

-- Printk of such a format, whose texts all fit into the cursor's row and have no NUL or newline,
-- from a cursor in rows 0 to 49 and with a terminal that shows the old screen, ends, given more
-- fuel than 80; then the terminal shows the printed text from the cursor on and the screen's
-- buffer elsewhere, and the task's cursor stands behind the text.
pub printk-shows :
    (fr : Frame) (fmt : Ptr) (ps : List Piece) (mem : Mem) (k : Kernel) (s : Screen) (x y : ℕ)
    (t0 : Terminal)
    → Request fr fr.buff 256 fmt ps mem
    → FitsRow ps x
    → 80 < fr.fuel
    → cursor_x k ≡ pos x
    → cursor_y k ≡ pos y
    → y < 50
    → ((q : ℕ) → q < 4000 → at t0 s q ≡ s.old_screen q)
    → (t : List ℕ) × (mem' : Mem) × (k' : Kernel) × (s' : Screen) × (printk fr fmt
          (all_args ps)
          mem
          (k, s)
        ≡ some (length t, mem', (k', s')))
      × PrintsAll ps t
      × (cursor_x k' ≡ pos (x + length t))
      × (cursor_y k' ≡ pos y)
      × ((q : ℕ)
          → q < 4000
          → at t0 s' q ≡ (
              if leb (screen_loc x y) q && ltb q (screen_loc x y + length t)
              then byte_at t (q - screen_loc x y)
              else s.new_screen q))
unfolding printk vprintk
printk-shows fr fmt ps mem k s x y t0 r fits fuel hx hy high before =
    let (t, mem', prints, is, ends) =
      vprint-outputs fr fmt ps (output_wrapper fr.fuel) mem (k, s) r
        (λ t h. ((fits t h).0, omega (arith, (fits t h).2))) in
    let (no_nul, one, wide) = fits t prints in
    let (k', s', goes, typed) =
      screen_write-Typed fr.fuel t fr.buff mem' k s x y is (omega arith) one hx hy wide high in
    (
      t,
      mem',
      k',
      screen_reflush k' s',
      ends (k', screen_reflush k' s') (output_wrapper-writes fr.fuel fr.buff mem' k k' s s' goes),
      prints,
      typed.column,
      typed.row,
      λ q low.
          (screen_reflush-shows t0 k' s'
            (λ q low. at-port t0 s s' q typed.port ∙ before q low ∙ sym (ap (λ o. o q) typed.old)) q
            low).0
          ∙ typed.cells q,
    )
