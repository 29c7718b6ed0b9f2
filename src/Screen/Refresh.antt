-- ===== src/Screen/Refresh.antt =====
-- drivers/screen.c: after a refresh the terminal shows the new screen.
use mathlib.Core.Path.{subst}
use ucas_oslab_project.Common.{
  ℕ, zero, suc, ◌+◌, ◌/◌, ◌%◌, ◌≤◌, ◌<◌, ◌≡◌, refl, ap, ◌∙◌, ◌-◌, ltb, ◌==◌, ◌&&◌, not,
  if◌then◌else◌, arith,
}
use ucas_oslab_project.Common.Int.{pos_part}
use ucas_oslab_project.Kernel.{Kernel}
use ucas_oslab_project.Screen.{
  Screen, screen_loc, vt100_move_cursor, reflush_cell, reflush_row, reflush_rows, screen_reflush,
  cursor_x, cursor_y,
}
use ucas_oslab_project.Screen.Terminal.{Terminal, obey, shown}

-- What the terminal, which was `t` at first, shows at a place of the buffer.
abbrev pub at : Terminal → Screen → ℕ → ℕ
at t s q = (shown t s.port).cell (q % 80) (q / 80)

-- The places below `n` are refreshed: `s'` is `s` with them sent to the port.
record Done (t : Terminal) (n : ℕ) (s s' : Screen) : Type 0 where
  new : (q : ℕ) → s'.new_screen q ≡ s.new_screen q
  old : (q : ℕ) → s'.old_screen q ≡ (if ltb q n then s.new_screen q else s.old_screen q)
  cell :
      (q : ℕ)
      → q < 4000
      → at t s' q ≡ (
          if ltb q n
          then (if s.new_screen q == s.old_screen q then at t s q else s.new_screen q)
          else at t s q)

-- One cell: the same, or sent to its place.
module _ (t : Terminal) (j i : ℕ) (s : Screen) (lt : j < 80) where
  cell-new : (reflush_cell j i s).new_screen ≡ s.new_screen
  unfolding reflush_cell vt100_move_cursor
  cell-new = ground arith

  cell-old :
      (q : ℕ)
      → (reflush_cell j i s).old_screen q
        ≡ (if q == screen_loc j i then s.new_screen q else s.old_screen q)
  unfolding reflush_cell vt100_move_cursor
  cell-old q = ground arith

  cell-at :
      (q : ℕ)
      → at t (reflush_cell j i s) q ≡ (
          if q == screen_loc j i && not (s.new_screen q == s.old_screen q)
          then s.new_screen q
          else at t s q)
  unfolding reflush_cell vt100_move_cursor obey shown
  cell-at q = ground arith

reflush_cell-Done :
    (t : Terminal) (j i : ℕ) (s s' : Screen)
    → j < 80
    → Done t (screen_loc j i) s s'
    → Done t (screen_loc j i + 1) s (reflush_cell j i s')
reflush_cell-Done t j i s s' lt d = record {
  new = λ q. ap (λ f. f q) (cell-new t j i s' lt) ∙ d.new q;
  old = λ q. ground (arith, cell-old t j i s' lt q, d.old q, d.new q);
  cell = λ q low. ground (arith, cell-at t j i s' lt q, d.cell q low, d.old q, d.new q);
}

Done-move : (t : Terminal) {m n : ℕ} {s s' : Screen} → m ≡ n → Done t m s s' → Done t n s s'
Done-move t {s = s} {s' = s'} e d = subst (λ n. Done t n s s') e d

reflush_row-Done :
    (t : Terminal) (n j i : ℕ) (s s' : Screen)
    → j + n ≡ 80
    → Done t (screen_loc j i) s s'
    → Done t (screen_loc 80 i) s (reflush_row n j i s')
unfolding reflush_row
reflush_row-Done t zero j i s s' len d = Done-move t (omega (arith, ap (λ j. screen_loc j i) len)) d
reflush_row-Done t (suc n) j i s s' len d =
    reflush_row-Done t n (j + 1) i s (reflush_cell j i s') (omega arith)
      (Done-move t (omega arith) (reflush_cell-Done t j i s s' (omega arith) d))

reflush_rows-Done :
    (t : Terminal) (n i : ℕ) (s s' : Screen)
    → Done t (screen_loc 0 i) s s'
    → Done t (screen_loc 0 (i + n)) s (reflush_rows n i s')
unfolding reflush_rows
reflush_rows-Done t zero i s s' d = Done-move t (omega arith) d
reflush_rows-Done t (suc n) i s s' d = Done-move t (omega arith) (
    reflush_rows-Done t n (i + 1) s (reflush_row 80 0 i s')
      (Done-move t (omega arith) (reflush_row-Done t 80 0 i s s' (omega arith) d)))

none-Done : (t : Terminal) (s : Screen) → Done t 0 s s
none-Done t s = record { new = λ q. refl; old = λ q. ground arith; cell = λ q low. ground arith }

-- What a refresh leaves on the terminal and in the two buffers.
pub record Refreshed (t : Terminal) (k : Kernel) (s s' : Screen) : Type 0 where
  pub new : (q : ℕ) → s'.new_screen q ≡ s.new_screen q
  pub old : (q : ℕ) → q < 4000 → s'.old_screen q ≡ s.new_screen q
  pub outside : (q : ℕ) → 4000 ≤ q → s'.old_screen q ≡ s.old_screen q
  pub cell :
      (q : ℕ)
      → q < 4000
      → at t s' q ≡ (if s.new_screen q == s.old_screen q then at t s q else s.new_screen q)
  pub column : (shown t s'.port).column ≡ pos_part (cursor_x k) - 1
  pub row : (shown t s'.port).row ≡ pos_part (cursor_y k) - 1

pub screen_reflush-Refreshed :
    (t : Terminal) (k : Kernel) (s : Screen) → Refreshed t k s (screen_reflush k s)
unfolding screen_reflush vt100_move_cursor shown obey
screen_reflush-Refreshed t k s =
    let d = reflush_rows-Done t 50 0 s s (none-Done t s) in
    record {
      new = d.new;
      old = λ q low. ground (arith, d.old q);
      outside = λ q low. ground (arith, d.old q);
      cell = λ q low. ground (arith, d.cell q low);
      column = refl;
      row = refl;
    }

-- If the terminal shows the old screen, then after screen_reflush it shows the new screen, and the
-- old screen's buffer has the new one's bytes.
pub screen_reflush-shows :
    (t : Terminal) (k : Kernel) (s : Screen)
    → ((q : ℕ) → q < 4000 → at t s q ≡ s.old_screen q)
    → ((q : ℕ)
        → q < 4000
        → (at t (screen_reflush k s) q ≡ s.new_screen q)
          × ((screen_reflush k s).old_screen q ≡ s.new_screen q))
screen_reflush-shows t k s before q low =
    let r = screen_reflush-Refreshed t k s in
    (ground (arith, r.cell q low, before q low), r.old q low)
