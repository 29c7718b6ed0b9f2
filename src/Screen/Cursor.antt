-- ===== src/Screen/Cursor.antt =====
-- drivers/screen.c: where the terminal's cursor stands after a move and after the next refresh.
use ucas_oslab_project.Common.{ℕ, ◌-◌, ◌≡◌, ap, ◌∙◌, arith}
use ucas_oslab_project.Common.Int.{pos, pos_part, pos-add}
use ucas_oslab_project.Kernel.{Kernel}
use ucas_oslab_project.Screen.{
  Screen, cursor_x, cursor_y, vt100_move_cursor, screen_move_cursor, screen_reflush,
}
use ucas_oslab_project.Screen.Terminal.{Terminal, obey, shown}
use ucas_oslab_project.Screen.Refresh.{screen_reflush-Refreshed}

-- The terminal's cursor stands at a column and a row, counted from 0.
pub record CursorAt (t : Terminal) (s : Screen) (x y : ℕ) : Type 0 where
  pub column : (shown t s.port).column ≡ x
  pub row : (shown t s.port).row ≡ y

module _ (t : Terminal) (k : Kernel) (s : Screen) (x y : ℕ) where
  moved : CursorAt t (screen_move_cursor (pos x) (pos y) k s).1 x y
  unfolding screen_move_cursor vt100_move_cursor shown obey
  moved = record {
    column = ap (λ z. pos_part z - 1) (pos-add x 1) ∙ omega arith;
    row = ap (λ z. pos_part z - 1) (pos-add y 1) ∙ omega arith;
  }

  kept :
      let k1 = (screen_move_cursor (pos x) (pos y) k s).0 in
      (cursor_x k1 ≡ pos x) × (cursor_y k1 ≡ pos y)
  unfolding screen_move_cursor
  kept = (ground arith, ground arith)

  -- screen_move_cursor to a column and a row puts the terminal's cursor there, and the next
  -- screen_reflush puts it one column to the left and one row up (or leaves it at the edge).
  pub screen_reflush-CursorAt :
      let (k1, s1) = screen_move_cursor (pos x) (pos y) k s in
      CursorAt t s1 x y × CursorAt t (screen_reflush k1 s1) (x - 1) (y - 1)
  screen_reflush-CursorAt =
      let k1 = (screen_move_cursor (pos x) (pos y) k s).0 in
      let s1 = (screen_move_cursor (pos x) (pos y) k s).1 in
      let r = screen_reflush-Refreshed t k1 s1 in
      (
        moved,
        record {
          column = r.column ∙ ap (λ z. pos_part z - 1) kept.0;
          row = r.row ∙ ap (λ z. pos_part z - 1) kept.1;
        },
      )
