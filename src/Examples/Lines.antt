-- ===== src/Examples/Lines.antt =====
-- The theorems on a text of two lines, "a", a newline and "b" at 100, for a task with its cursor at
-- (3, 2).
use mathlib.Core.Path.{subst}
use ucas_oslab_project.Common.{
  ℕ, ◌≡◌, ◌<◌, refl, sym, ◌∙◌, inl, inr, some, List, [], ◌∷◌, ◌==◌, if◌then◌else◌, arith, length,
}
use ucas_oslab_project.Common.Int.{pos}
use ucas_oslab_project.Kernel.{Kernel}
use ucas_oslab_project.Strings.{Mem}
use ucas_oslab_project.Screen.{Screen, cursor_x, cursor_y, set_cursor, screen_write}
use ucas_oslab_project.Screen.Terminal.{Terminal, shown}
use ucas_oslab_project.Screen.Refresh.{at}
use ucas_oslab_project.Screen.Lines.{Page, lay, FitsPage, Laid, screen_write-Laid}
use ucas_oslab_project.Format.Output.Pieces.{Piece, plain}
use ucas_oslab_project.Format.Output.Run.{PrintsAll}
use ucas_oslab_project.Printk.{Frame, printk}
use ucas_oslab_project.Printk.Text.{Request}
use ucas_oslab_project.Printk.Show.{NoNul}
use ucas_oslab_project.Printk.Lines.{FitsLines, printk-lays}
use ucas_oslab_project.Examples.States.{alone}

abbrev text : Mem
text p = if p == 100 then b'a' else if p == 101 then b'\n' else if p == 102 then b'b' else 0

abbrev lines : List ℕ
lines = b'a' ∷ b'\n' ∷ b'b' ∷ []

abbrev writer : Kernel
writer = set_cursor (pos 3) (pos 2) alone

abbrev dark : Terminal
dark = record { cell = λ c r. 0; column = 7; row = 7 }

abbrev screen : Screen
screen = record { new_screen = λ q. 0; old_screen = λ q. 0; port = [] }

dark_at : (q : ℕ) → at dark screen q ≡ screen.old_screen q
unfolding shown
dark_at q = refl

-- The cells 163 and 240 are those at (3, 2) and (0, 3).
abbrev page : Page
page = record { cells = λ q. if q == 240 then b'b' else if q == 163 then b'a' else 0; x = 1; y = 3 }

screen_write-Laid_example :
    (k' : Kernel) × (s' : Screen) × (screen_write 5 100 text writer screen ≡ some (k', s'))
    × Laid writer k' screen s' page
screen_write-Laid_example =
    screen_write-Laid 5 lines 100 text writer screen 3 2
      (refl, (λ e. omega arith), (refl, (λ e. omega arith), (refl, (λ e. omega arith), refl)))
      (omega arith) (omega arith, omega arith, (omega arith, omega arith, tt)) refl refl

abbrev pieces : List Piece
pieces = plain b'a' ∷ plain b'\n' ∷ plain b'b' ∷ []

abbrev frame : Frame
frame = record { buff = 1000; bf = 2000; fuel = 300 }

request : Request frame 1000 256 100 pieces text
request = record {
  room = omega arith;
  n_word = omega arith;
  apart = inr (omega arith);
  enough = omega arith;
  good = (
    (omega arith, (λ e. omega arith), (λ e. omega arith)),
    (
      (omega arith, (λ e. omega arith), (λ e. omega arith)),
      ((omega arith, (λ e. omega arith), (λ e. omega arith)), tt),
    ),
  );
  text = (refl, (refl, (refl, (refl, tt))));
  clear = (inl (omega arith), inl (omega arith));
}

pieces-FitsLines : FitsLines pieces 3 2
pieces-FitsLines t (u1, v1, e1, p1, (u2, v2, e2, p2, (u3, v3, e3, p3, e4))) =
    let whole : t ≡ lines = e1 ∙ rw (p1, e2, p2, e3, p3, e4) in
    subst (λ t. NoNul t × (length t < 256) × FitsPage t 3 2) (sym whole)
      (
        ((λ e. omega arith), ((λ e. omega arith), ((λ e. omega arith), tt))),
        omega arith,
        (omega arith, omega arith, (omega arith, omega arith, tt)),
      )

printk-lays_example :
    (t : List ℕ) × (mem' : Mem) × (k' : Kernel) × (s' : Screen) × (printk frame 100 [] text
        (writer, screen)
      ≡ some (length t, mem', (k', s')))
    × PrintsAll pieces t
    × (let after = lay t (record { cells = screen.new_screen; x = 3; y = 2 }) in
        (cursor_x k' ≡ pos after.x)
        × (cursor_y k' ≡ pos after.y)
        × ((q : ℕ) → q < 4000 → at dark s' q ≡ after.cells q))
printk-lays_example =
    printk-lays frame 100 pieces text writer screen 3 2 dark request pieces-FitsLines (omega arith)
      refl refl (λ q low. dark_at q)
