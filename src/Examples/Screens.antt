-- ===== src/Examples/Screens.antt =====
-- The theorems on drivers/screen.c for a task with its cursor at (3, 2), and the text "ab".
use ucas_oslab_project.Common.{ℕ, ◌≡◌, refl, none, [], ◌∷◌, ◌==◌, if◌then◌else◌, arith}
use ucas_oslab_project.Common.Int.{pos}
use ucas_oslab_project.Kernel.{Kernel}
use ucas_oslab_project.Screen.{Screen, set_cursor, screen_reflush, screen_write, screen_move_cursor}
use ucas_oslab_project.Screen.Terminal.{Terminal, shown}
use ucas_oslab_project.Screen.Refresh.{at, screen_reflush-shows}
use ucas_oslab_project.Screen.Write.{screen_write-below}
use ucas_oslab_project.Screen.Cursor.{CursorAt, screen_reflush-CursorAt}
use ucas_oslab_project.Examples.States.{alone}
use ucas_oslab_project.Examples.Texts.{words, ab-IsString}

abbrev writer : Kernel
writer = set_cursor (pos 3) (pos 2) alone

abbrev below : Kernel
below = set_cursor (pos 3) (pos 50) alone

abbrev dark : Terminal
dark = record { cell = λ c r. 0; column = 7; row = 7 }

-- The first cell has changed.
abbrev screen : Screen
screen = record { new_screen = λ q. if q == 0 then b'x' else 0; old_screen = λ q. 0; port = [] }

dark_at : (q : ℕ) → at dark screen q ≡ screen.old_screen q
unfolding shown
dark_at q = refl

screen_reflush-shows_example :
    (at dark (screen_reflush writer screen) 0 ≡ b'x')
    × ((screen_reflush writer screen).old_screen 0 ≡ b'x')
screen_reflush-shows_example =
    screen_reflush-shows dark writer screen (λ q low. dark_at q) 0 (omega arith)

screen_write-below_example : screen_write 5 100 words below screen ≡ none
screen_write-below_example =
    screen_write-below 5 b'a' (b'b' ∷ []) 100 words below screen 3 50 ab-IsString (omega arith)
      (λ e. omega arith) refl refl (omega arith)

screen_reflush-CursorAt_example :
    let (k1, s1) = screen_move_cursor (pos 3) (pos 2) alone screen in
    CursorAt dark s1 3 2 × CursorAt dark (screen_reflush k1 s1) 2 1
screen_reflush-CursorAt_example = screen_reflush-CursorAt dark alone screen 3 2
