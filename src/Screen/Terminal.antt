-- ===== src/Screen/Terminal.antt =====
-- The terminal at the other end of the serial port, as the commands of drivers/screen.c need it.
use ucas_oslab_project.Common.{ℕ, ◌+◌, ◌-◌, ◌==◌, ◌&&◌, List, [], ◌∷◌, if◌then◌else◌}
use ucas_oslab_project.Common.Int.{pos_part}
use ucas_oslab_project.Screen.{Command, move_cursor, clear, hide_cursor, put_char}

-- Columns and rows count from 0.
pub record Terminal : Type 0 where
  pub cell : (column row : ℕ) → ℕ
  pub column : ℕ
  pub row : ℕ

-- A command counts columns and rows from 1, and takes less for 1. A character fills a cell; what a
-- terminal does with a control character is left out.
unfoldable pub obey : Command → Terminal → Terminal
obey (move_cursor x y) t = record t { column = pos_part x - 1; row = pos_part y - 1 }
obey clear t = record t { cell = λ c r. b' ' }
obey hide_cursor t = t
obey (put_char ch) t = record t {
  cell = λ c r. if c == t.column && r == t.row then ch else t.cell c r;
  column = t.column + 1;
}

-- The terminal after commands, the last one first.
unfoldable pub shown : Terminal → List Command → Terminal
shown t [] = t
shown t (c ∷ cs) = obey c (shown t cs)
