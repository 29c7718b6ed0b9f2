-- ===== src/Screen/Clear.antt =====
-- drivers/screen.c: a cleared screen, and the terminal after `init_screen`.
use mathlib.Core.Path.{subst}
use ucas_oslab_project.Common.{
  ℕ, zero, suc, ◌+◌, ◌/◌, ◌%◌, ◌<◌, ◌≡◌, refl, ap, ◌∙◌, ltb, if◌then◌else◌, arith,
}
use ucas_oslab_project.Common.Int.{pos}
use ucas_oslab_project.Kernel.{Kernel}
use ucas_oslab_project.Screen.{
  Screen, cursor_x, cursor_y, set_cursor, screen_loc, clear_cell, clear_row, clear_rows,
  screen_clear, vt100_clear, vt100_hidden_cursor, init_screen,
}
use ucas_oslab_project.Screen.Terminal.{Terminal, obey, shown}
use ucas_oslab_project.Screen.Refresh.{at, screen_reflush-Refreshed}

-- The places below `n` are spaces.
record Cleared (n : ℕ) (s s' : Screen) : Type 0 where
  new : (q : ℕ) → s'.new_screen q ≡ (if ltb q n then b' ' else s.new_screen q)
  old : s'.old_screen ≡ s.old_screen
  port : s'.port ≡ s.port

Cleared-move : {m n : ℕ} {s s' : Screen} → m ≡ n → Cleared m s s' → Cleared n s s'
Cleared-move {s = s} {s' = s'} e d = subst (λ n. Cleared n s s') e d

clear_cell-Cleared :
    (j i : ℕ) (s s' : Screen)
    → Cleared (screen_loc j i) s s'
    → Cleared (screen_loc j i + 1) s (clear_cell j i s')
unfolding clear_cell
clear_cell-Cleared j i s s' d = record {
  new = λ q. ground (arith, d.new q);
  old = d.old;
  port = d.port;
}

clear_row-Cleared :
    (n j i : ℕ) (s s' : Screen)
    → j + n ≡ 80
    → Cleared (screen_loc j i) s s'
    → Cleared (screen_loc 80 i) s (clear_row n j i s')
unfolding clear_row
clear_row-Cleared zero j i s s' len d = Cleared-move (omega (arith, ap (λ j. screen_loc j i) len)) d
clear_row-Cleared (suc n) j i s s' len d =
    clear_row-Cleared n (j + 1) i s (clear_cell j i s') (omega arith)
      (Cleared-move (omega arith) (clear_cell-Cleared j i s s' d))

clear_rows-Cleared :
    (n i : ℕ) (s s' : Screen)
    → Cleared (screen_loc 0 i) s s'
    → Cleared (screen_loc 0 (i + n)) s (clear_rows n i s')
unfolding clear_rows
clear_rows-Cleared zero i s s' d = Cleared-move (omega arith) d
clear_rows-Cleared (suc n) i s s' d = Cleared-move (omega arith) (
    clear_rows-Cleared n (i + 1) s (clear_row 80 0 i s')
      (Cleared-move (omega arith) (clear_row-Cleared 80 0 i s s' (omega arith) d)))

cleared : (s : Screen) → Cleared 4000 s (clear_rows 50 0 s)
cleared s =
    clear_rows-Cleared 50 0 s s (record { new = λ q. ground arith; old = refl; port = refl })

-- The terminal shows spaces, and so do both buffers.
pub record Blank (t : Terminal) (k : Kernel) (s : Screen) : Type 0 where
  pub new : (q : ℕ) → q < 4000 → s.new_screen q ≡ b' '
  pub old : (q : ℕ) → q < 4000 → s.old_screen q ≡ b' '
  pub cell : (q : ℕ) → q < 4000 → at t s q ≡ b' '
  pub column : cursor_x k ≡ pos 0
  pub row : cursor_y k ≡ pos 0

screen_clear-Blank :
    (t : Terminal) (k : Kernel) (s : Screen)
    → ((q : ℕ) → q < 4000 → (at t s q ≡ b' '))
    → Blank t (screen_clear k s).0 (screen_clear k s).1
unfolding screen_clear
screen_clear-Blank t k s before =
    let s1 = clear_rows 50 0 s in
    let c = cleared s in
    let k1 = set_cursor (pos 0) (pos 0) k in
    let r = screen_reflush-Refreshed t k1 s1 in
    record {
      new = λ q low. r.new q ∙ ground (arith, c.new q);
      old = λ q low. r.old q low ∙ ground (arith, c.new q);
      cell = λ q low.
          r.cell q low
          ∙ ground
              (arith, c.new q, before q low, ap (λ p. (shown t p).cell (q % 80) (q / 80)) c.port);
      column = ground arith;
      row = ground arith;
    }

wiped : (t : Terminal) (s : Screen) (q : ℕ) → at t (vt100_clear (vt100_hidden_cursor s)) q ≡ b' '
unfolding vt100_clear vt100_hidden_cursor shown obey
wiped t s q = refl

-- Whatever the terminal and the two buffers had before, after init_screen the terminal and both
-- buffers have spaces alone, and the current task's cursor stands at (0, 0).
pub init_screen-Blank :
    (t : Terminal) (k : Kernel) (s : Screen) → Blank t (init_screen k s).0 (init_screen k s).1
unfolding init_screen
init_screen-Blank t k s =
    screen_clear-Blank t k (vt100_clear (vt100_hidden_cursor s)) (λ q low. wiped t s q)
