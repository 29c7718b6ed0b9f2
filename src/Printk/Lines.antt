-- ===== src/Printk/Lines.antt =====
-- libs/printk.c: what `printk` of a text of several lines puts on the terminal.
use ucas_oslab_project.Common.{ℕ, ◌<◌, ◌≡◌, sym, ap, ◌∙◌, some, List, arith, length}
use ucas_oslab_project.Common.Int.{pos}
use ucas_oslab_project.LinkedList.{Ptr}
use ucas_oslab_project.Kernel.{Kernel}
use ucas_oslab_project.Strings.{Mem}
use ucas_oslab_project.Screen.{Screen, cursor_x, cursor_y, screen_reflush}
use ucas_oslab_project.Screen.Terminal.{Terminal}
use ucas_oslab_project.Screen.Refresh.{at, screen_reflush-shows}
use ucas_oslab_project.Screen.Lines.{lay, FitsPage, screen_write-Laid}
use ucas_oslab_project.Format.Output.Pieces.{Piece}
use ucas_oslab_project.Format.Output.Run.{all_args, PrintsAll}
use ucas_oslab_project.Printk.{Frame, output_wrapper, vprintk, printk}
use ucas_oslab_project.Printk.Text.{Request}
use ucas_oslab_project.Printk.Show.{NoNul, vprint-outputs, output_wrapper-writes, at-port}

-- Every text that the pieces may print is shorter than `buff` and fits the screen from (x, y) on.
abbrev pub FitsLines : List Piece → (x y : ℕ) → Type 0
FitsLines ps x y = (t : List ℕ) → PrintsAll ps t → NoNul t × (length t < 256) × FitsPage t x y

-- Printk of a format made of pieces that the arguments fit, all apart from the arrays, whose texts
-- have no NUL, are shorter than 256 and of which no character but a newline falls outside the 80
-- columns and 50 rows from the cursor on, with a terminal that shows the old screen, ends, given
-- more fuel than 255 and than the format and each text argument are long; then the cursor stands,
-- and the terminal shows, what laying out the printed text on the screen's buffer gives: a newline
-- goes to the start of the next row, any other character fills a cell. A number's digits are '0'
-- to '9' and besides, for %x, 'a' to 'f' and, for %X, 'A' to 'F'.
pub printk-lays :
    (fr : Frame) (fmt : Ptr) (ps : List Piece) (mem : Mem) (k : Kernel) (s : Screen) (x y : ℕ)
    (t0 : Terminal)
    → Request fr fr.buff 256 fmt ps mem
    → FitsLines ps x y
    → 255 < fr.fuel
    → cursor_x k ≡ pos x
    → cursor_y k ≡ pos y
    → ((q : ℕ) → q < 4000 → at t0 s q ≡ s.old_screen q)
    → (t : List ℕ) × (mem' : Mem) × (k' : Kernel) × (s' : Screen) × (printk fr fmt
          (all_args ps)
          mem
          (k, s)
        ≡ some (length t, mem', (k', s')))
      × PrintsAll ps t
      × (let page = lay t (record { cells = s.new_screen; x = x; y = y }) in
          (cursor_x k' ≡ pos page.x)
          × (cursor_y k' ≡ pos page.y)
          × ((q : ℕ) → q < 4000 → at t0 s' q ≡ page.cells q))
unfolding printk vprintk
printk-lays fr fmt ps mem k s x y t0 r fits fuel hx hy before =
    let (t, mem', prints, is, ends) =
      vprint-outputs fr fmt ps (output_wrapper fr.fuel) mem (k, s) r
        (λ t h. ((fits t h).0, (fits t h).1)) in
    let (no_nul, short, page) = fits t prints in
    let (k', s', goes, laid) =
      screen_write-Laid fr.fuel t fr.buff mem' k s x y is (omega arith) page hx hy in
    (
      t,
      mem',
      k',
      screen_reflush k' s',
      ends (k', screen_reflush k' s') (output_wrapper-writes fr.fuel fr.buff mem' k k' s s' goes),
      prints,
      (
        laid.column,
        laid.row,
        λ q low.
            (screen_reflush-shows t0 k' s'
              (λ q low. at-port t0 s s' q laid.port ∙ before q low ∙ sym (ap (λ o. o q) laid.old)) q
              low).0
            ∙ ap (λ o. o q) laid.cells,
      ),
    )
