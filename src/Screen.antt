-- ===== src/Screen.antt =====
-- drivers/screen.c. What `printv` and `bios_putchar` send to the serial port is a list of commands,
-- the last one first. `none` is a write outside the screen buffer, or a text that outlasts the fuel.
pub mod Terminal
pub mod Refresh
pub mod Write
pub mod Lines
pub mod Clear
pub mod Cursor
use ucas_oslab_project.Common.{
  ℕ, zero, suc, ◌+◌, ◌*◌, ◌==◌, Option, none, some, List, ◌∷◌, ltb, if◌then◌else◌,
}
use ucas_oslab_project.Common.Int.{ℤ, pos, negsuc, ◌+ℤ◌, ◌*ℤ◌}
use ucas_oslab_project.LinkedList.{Ptr, update}
use ucas_oslab_project.Kernel.{Kernel}
use ucas_oslab_project.Strings.{Mem, strlen}

abbrev pub screen_width : ℕ
screen_width = 80

abbrev pub screen_height : ℕ
screen_height = 50

abbrev pub screen_loc : ℕ → ℕ → ℕ
screen_loc x y = y * screen_width + x

-- `\033[y;xH`, `\033[2J`, `\033[?25l`, and a character.
pub data Command : Type 0 where
  move_cursor : (x y : ℤ) → Command
  clear : Command
  hide_cursor : Command
  put_char : ℕ → Command

pub record Screen : Type 0 where
  pub new_screen : ℕ → ℕ
  pub old_screen : ℕ → ℕ
  pub port : List Command

abbrev pub send : Command → Screen → Screen
send c s = record s { port = c ∷ s.port }

unfoldable pub vt100_move_cursor : (x y : ℤ) → Screen → Screen
vt100_move_cursor x y s = send (move_cursor x y) s

unfoldable pub vt100_clear : Screen → Screen
vt100_clear s = send clear s

unfoldable pub vt100_hidden_cursor : Screen → Screen
vt100_hidden_cursor s = send hide_cursor s

-- The cursor of the current task.
abbrev pub cursor_x : Kernel → ℤ
cursor_x k = (k.pcb k.current_running).cursor_x

abbrev pub cursor_y : Kernel → ℤ
cursor_y k = (k.pcb k.current_running).cursor_y

abbrev pub set_cursor : (x y : ℤ) → Kernel → Kernel
set_cursor x y k =
    let p = k.current_running in
    record k { pcb = update k.pcb p (record (k.pcb p) { cursor_x = x; cursor_y = y }) }

-- `new_screen[l] = ch`
unfoldable pub write_cell : ℤ → (ch : ℕ) → Screen → Option Screen
write_cell (pos l) ch s =
    if ltb l (screen_height * screen_width)
    then some (record s { new_screen = update s.new_screen l ch })
    else none
write_cell (negsuc l) ch s = none

unfoldable pub screen_write_ch : (ch : ℕ) → Kernel → Screen → Option (Kernel × Screen)
screen_write_ch ch k s =
    if ch == b'\n'
    then some (set_cursor (pos 0) (cursor_y k +ℤ pos 1) k, s)
    else elim (write_cell ((cursor_y k *ℤ pos screen_width) +ℤ cursor_x k) ch s) [
      | none ↦ none
      | some s' ↦ some (set_cursor (cursor_x k +ℤ pos 1) (cursor_y k) k, s')
    ]

-- The body of the loops of `screen_reflush`, and the rounds that are left of each.
unfoldable pub reflush_cell : (j i : ℕ) → Screen → Screen
reflush_cell j i s =
    let l = screen_loc j i in
    if s.new_screen l == s.old_screen l
    then s
    else let s1 = vt100_move_cursor (pos (j + 1)) (pos (i + 1)) s in
      let s2 = send (put_char (s1.new_screen l)) s1 in
      record s2 { old_screen = update s2.old_screen l (s2.new_screen l) }

unfoldable pub reflush_row : ℕ → (j i : ℕ) → Screen → Screen
reflush_row zero j i s = s
reflush_row (suc n) j i s = reflush_row n (j + 1) i (reflush_cell j i s)

unfoldable pub reflush_rows : ℕ → (i : ℕ) → Screen → Screen
reflush_rows zero i s = s
reflush_rows (suc n) i s = reflush_rows n (i + 1) (reflush_row screen_width 0 i s)

unfoldable pub screen_reflush : Kernel → Screen → Screen
screen_reflush k s =
    let s1 = reflush_rows screen_height 0 s in vt100_move_cursor (cursor_x k) (cursor_y k) s1

-- The body of the loops of `screen_clear`, and the rounds that are left of each.
unfoldable pub clear_cell : (j i : ℕ) → Screen → Screen
clear_cell j i s = record s { new_screen = update s.new_screen (screen_loc j i) b' ' }

unfoldable pub clear_row : ℕ → (j i : ℕ) → Screen → Screen
clear_row zero j i s = s
clear_row (suc n) j i s = clear_row n (j + 1) i (clear_cell j i s)

unfoldable pub clear_rows : ℕ → (i : ℕ) → Screen → Screen
clear_rows zero i s = s
clear_rows (suc n) i s = clear_rows n (i + 1) (clear_row screen_width 0 i s)

unfoldable pub screen_clear : Kernel → Screen → Kernel × Screen
screen_clear k s =
    let s1 = clear_rows screen_height 0 s in
    let k1 = set_cursor (pos 0) (pos 0) k in (k1, screen_reflush k1 s1)

unfoldable pub init_screen : Kernel → Screen → Kernel × Screen
init_screen k s = screen_clear k (vt100_clear (vt100_hidden_cursor s))

-- The overflow of an `int`, which C leaves undefined, is left out.
unfoldable pub screen_move_cursor : (x y : ℤ) → Kernel → Screen → Kernel × Screen
screen_move_cursor x y k s = (set_cursor x y k, vt100_move_cursor (x +ℤ pos 1) (y +ℤ pos 1) s)

-- The rounds of the loop of `screen_write` that are left, at the index `i`.
unfoldable pub write_loop :
    ℕ → (i : ℕ) (buff : Ptr) → Mem → Kernel → Screen → Option (Kernel × Screen)
write_loop zero i buff mem k s = some (k, s)
write_loop (suc n) i buff mem k s = elim (screen_write_ch (mem (buff + i)) k s) [
  | none ↦ none
  | some (k', s') ↦ write_loop n (i + 1) buff mem k' s'
]

unfoldable pub screen_write : ℕ → (buff : Ptr) → Mem → Kernel → Screen → Option (Kernel × Screen)
screen_write fuel buff mem k s = elim (strlen fuel buff mem) [
  | none ↦ none
  | some l ↦ write_loop l 0 buff mem k s
]
