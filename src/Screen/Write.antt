-- ===== src/Screen/Write.antt =====
-- drivers/screen.c: the cells that a text goes to, and a cleared screen.
use mathlib.Core.Path.{subst}
use ucas_oslab_project.Common.{
  ℕ, suc, ◌+◌, ◌-◌, ◌*◌, ◌≤◌, ◌<◌, ◌≡◌, ◌≢◌, refl, ap, ◌∙◌, leb, ltb, inl, inr, Bool-cases, ◌==◌,
  ◌&&◌, false, if◌then◌else◌, none, some, List, [], ◌∷◌, arith, length,
}
use ucas_oslab_project.Common.Int.{pos, pos-add, pos-mul}
use ucas_oslab_project.LinkedList.{Ptr}
use ucas_oslab_project.Kernel.{Kernel}
use ucas_oslab_project.Strings.{Mem}
use ucas_oslab_project.Strings.Text.{IsString, strlen-IsString}
use ucas_oslab_project.Strings.Build.{byte_at}
use ucas_oslab_project.Screen.{
  Screen, cursor_x, cursor_y, set_cursor, screen_loc, write_cell, screen_write_ch, write_loop,
  screen_write,
}

write_cell-inside :
    (l ch : ℕ) (s : Screen)
    → l < 4000
    → write_cell (pos l) ch s
      ≡ some (record s { new_screen = λ q. if q == l then ch else s.new_screen q })
unfolding write_cell
write_cell-inside l ch s h = ground arith

-- A character that is no newline, at a cursor inside the screen.
pub screen_write_ch-inside :
    (ch : ℕ) (k : Kernel) (s : Screen) (x y : ℕ)
    → ch ≢ b'\n'
    → cursor_x k ≡ pos x
    → cursor_y k ≡ pos y
    → x < 80
    → y < 50
    → screen_write_ch ch k s
      ≡ some (
        set_cursor (pos (x + 1)) (pos y) k,
        record s { new_screen = λ q. if q == screen_loc x y then ch else s.new_screen q },
      )
unfolding screen_write_ch
screen_write_ch-inside ch k s x y plain hx hy lx ly =
    let no_newline : (ch == b'\n') ≡ false = ground arith in
    rw (
      no_newline,
      hx,
      hy,
      pos-mul y 80,
      pos-add (y * 80) x,
      write_cell-inside (y * 80 + x) ch s (omega arith),
      hx,
      hy,
      pos-add x 1,
    )

-- A text that goes to one line, from the cursor at (x, y) on: `k'` and `s'` are the states after it.
pub record Typed (k k' : Kernel) (s s' : Screen) (x y : ℕ) (text : List ℕ) : Type 0 where
  pub column : cursor_x k' ≡ pos (x + length text)
  pub row : cursor_y k' ≡ pos y
  pub current : k'.current_running ≡ k.current_running
  pub others : (p : Ptr) → (p == k.current_running) ≡ false → k'.pcb p ≡ k.pcb p
  pub cells :
      (q : ℕ)
      → s'.new_screen q ≡ (
          if leb (screen_loc x y) q && ltb q (screen_loc x y + length text)
          then byte_at text (q - screen_loc x y)
          else s.new_screen q)
  pub old : s'.old_screen ≡ s.old_screen
  pub port : s'.port ≡ s.port

abbrev pub OneLine : List ℕ → Type 0
OneLine [] = Unit {0}
OneLine (c ∷ text) = (c ≢ b'\n') × OneLine text

pub write_loop-step :
    (n i : ℕ) (buff : Ptr) (mem : Mem) (k k1 : Kernel) (s s1 : Screen)
    → screen_write_ch (mem (buff + i)) k s ≡ some (k1, s1)
    → write_loop (suc n) i buff mem k s ≡ write_loop n (i + 1) buff mem k1 s1
unfolding write_loop
write_loop-step n i buff mem k k1 s s1 h = rw (h, write_loop)

-- The cells of a text are its first byte's cell and those of the rest.
typed_cell :
    (c : ℕ) (text : List ℕ) (l q old : ℕ)
    → (if leb (l + 1) q && ltb q (l + 1 + length text)
        then byte_at text (q - (l + 1))
        else (if q == l then c else old))
      ≡ (if leb l q && ltb q (l + suc (length text)) then byte_at (c ∷ text) (q - l) else old)
typed_cell c text l q old = elim (Bool-cases (leb (l + 1) q)) [
  | inl later ↦ let e : q - l ≡ suc (q - (l + 1)) = ground arith in rw e (ground arith)
  | inr early ↦ elim (Bool-cases (q == l)) [
    | inl here ↦ let e : q - l ≡ 0 = ground arith in rw e (ground arith)
    | inr before ↦ ground arith
  ]
]

write_loop-Typed :
    (text : List ℕ) (i : ℕ) (buff : Ptr) (mem : Mem) (k : Kernel) (s : Screen) (x y : ℕ)
    → IsString mem (buff + i) text
    → OneLine text
    → cursor_x k ≡ pos x
    → cursor_y k ≡ pos y
    → x + length text ≤ 80
    → y < 50
    → (k' : Kernel) × (s' : Screen) × (write_loop (length text) i buff mem k s ≡ some (k', s'))
      × Typed k k' s s' x y text
unfolding write_loop
write_loop-Typed [] i buff mem k s x y is plain hx hy wide high = (
  k,
  s,
  refl,
  record {
    column = ground arith;
    row = hy;
    current = refl;
    others = λ p ne. refl;
    cells = λ q. ground arith;
    old = refl;
    port = refl;
  },
)
write_loop-Typed (c ∷ text) i buff mem k s x y is plain hx hy wide high =
    let k1 = set_cursor (pos (x + 1)) (pos y) k in
    let s1 = record s { new_screen = λ q. if q == screen_loc x y then c else s.new_screen q } in
    let after : buff + i + 1 ≡ buff + (i + 1) = omega arith in
    let (k', s', goes, w) =
      write_loop-Typed text (i + 1) buff mem k1 s1 (x + 1) y
        (subst (λ p. IsString mem p text) after is.2) plain.1 (ground arith) (ground arith)
        (omega arith) high in
    let move_cells : (q : ℕ)
        → (if leb (screen_loc (x + 1) y) q && ltb q (screen_loc (x + 1) y + length text)
            then byte_at text (q - screen_loc (x + 1) y)
            else s1.new_screen q)
          ≡ (if leb (screen_loc x y) q && ltb q (screen_loc x y + suc (length text))
              then byte_at (c ∷ text) (q - screen_loc x y)
              else s.new_screen q) =
      λ q.
        let e : screen_loc (x + 1) y ≡ screen_loc x y + 1 = omega arith in
        rw e (typed_cell c text (screen_loc x y) q (s.new_screen q)) in
    (
      k',
      s',
      write_loop-step (length text) i buff mem k k1 s s1 (
            ap (λ ch. screen_write_ch ch k s) is.0
            ∙ screen_write_ch-inside c k s x y plain.0 hx hy (omega arith) high)
          ∙ goes,
      record {
        column = ground (arith, w.column);
        row = w.row;
        current = w.current;
        others = λ p ne. w.others p ne ∙ ground arith;
        cells = λ q. w.cells q ∙ move_cells q;
        old = w.old;
        port = w.port;
      },
    )

-- screen_write of a text without a newline, from a cursor in rows 0 to 49 from which the text fits
-- into the row, ends (given more fuel than the text is long), puts the text's bytes into the cells
-- from the cursor on, moves the current task's cursor behind them and changes no other cell, no
-- other task, neither the old screen nor the serial port.
pub screen_write-Typed :
    (fuel : ℕ) (text : List ℕ) (buff : Ptr) (mem : Mem) (k : Kernel) (s : Screen) (x y : ℕ)
    → IsString mem buff text
    → length text < fuel
    → OneLine text
    → cursor_x k ≡ pos x
    → cursor_y k ≡ pos y
    → x + length text ≤ 80
    → y < 50
    → (k' : Kernel) × (s' : Screen) × (screen_write fuel buff mem k s ≡ some (k', s'))
      × Typed k k' s s' x y text
unfolding screen_write
screen_write-Typed fuel text buff mem k s x y is enough plain hx hy wide high =
    let start : buff ≡ buff + 0 = omega arith in
    let (k', s', goes, w) =
      write_loop-Typed text 0 buff mem k s x y (subst (λ p. IsString mem p text) start is) plain hx
        hy wide high in
    (k', s', rw (strlen-IsString fuel mem buff text is enough, screen_write) goes, w)

write_cell-below : (l ch : ℕ) (s : Screen) → 4000 ≤ l → write_cell (pos l) ch s ≡ none
unfolding write_cell
write_cell-below l ch s h = ground arith

screen_write_ch-below :
    (ch : ℕ) (k : Kernel) (s : Screen) (x y : ℕ)
    → ch ≢ b'\n'
    → cursor_x k ≡ pos x
    → cursor_y k ≡ pos y
    → 50 ≤ y
    → screen_write_ch ch k s ≡ none
unfolding screen_write_ch
screen_write_ch-below ch k s x y plain hx hy low =
    let no_newline : (ch == b'\n') ≡ false = ground arith in
    rw (
      no_newline,
      hx,
      hy,
      pos-mul y 80,
      pos-add (y * 80) x,
      write_cell-below (y * 80 + x) ch s (omega arith),
    )

write_loop-none :
    (n i : ℕ) (buff : Ptr) (mem : Mem) (k : Kernel) (s : Screen)
    → screen_write_ch (mem (buff + i)) k s ≡ none
    → write_loop (suc n) i buff mem k s ≡ none
unfolding write_loop
write_loop-none n i buff mem k s h = rw (h, write_loop)

-- screen_write of a text that does not begin with a newline, from a cursor below the last row,
-- writes outside the screen's buffer.
pub screen_write-below :
    (fuel : ℕ) (c : ℕ) (text : List ℕ) (buff : Ptr) (mem : Mem) (k : Kernel) (s : Screen) (x y : ℕ)
    → IsString mem buff (c ∷ text)
    → length text + 1 < fuel
    → c ≢ b'\n'
    → cursor_x k ≡ pos x
    → cursor_y k ≡ pos y
    → 50 ≤ y
    → screen_write fuel buff mem k s ≡ none
unfolding screen_write
screen_write-below fuel c text buff mem k s x y is enough plain hx hy low =
    let start : mem (buff + 0) ≡ c = ap mem (omega arith) ∙ is.0 in
    rw (strlen-IsString fuel mem buff (c ∷ text) is (omega arith), screen_write)
      (write_loop-none (length text) 0 buff mem k s
        (ap (λ ch. screen_write_ch ch k s) start ∙ screen_write_ch-below c k s x y plain hx hy low))
