-- ===== src/Screen/Lines.antt =====
-- drivers/screen.c: a text of several lines.
use mathlib.Core.Path.{subst}
use ucas_oslab_project.Common.{
  ℕ, ◌+◌, ◌<◌, ◌≡◌, ◌≢◌, refl, sym, ap, ◌∙◌, inl, inr, Bool-cases, ◌==◌, Bool, false, if◌then◌else◌,
  some, List, [], ◌∷◌, arith, length,
}
use ucas_oslab_project.Common.Int.{pos, pos-add}
use ucas_oslab_project.LinkedList.{Ptr}
use ucas_oslab_project.Kernel.{Kernel}
use ucas_oslab_project.Strings.{Mem}
use ucas_oslab_project.Strings.Text.{IsString, strlen-IsString}
use ucas_oslab_project.Screen.{
  Screen, cursor_x, cursor_y, set_cursor, screen_loc, screen_write_ch, write_loop, screen_write,
}
use ucas_oslab_project.Screen.Write.{screen_write_ch-inside, write_loop-step}

-- A page of cells, and the place of the next character.
pub record Page : Type 0 where
  pub cells : ℕ → ℕ
  pub x : ℕ
  pub y : ℕ

-- A newline goes to the start of the next row; any other character fills a cell.
abbrev pub lay : List ℕ → Page → Page
lay [] p = p
lay (c ∷ text) p =
    if c == b'\n'
    then lay text (record p { x = 0; y = p.y + 1 })
    else lay text
        (record p { cells = λ q. if q == screen_loc p.x p.y then c else p.cells q; x = p.x + 1 })

-- No character but a newline stands outside the screen's rows and columns.
abbrev pub FitsPage : List ℕ → (x y : ℕ) → Type 0
FitsPage [] x y = Unit {0}
FitsPage (c ∷ text) x y =
    if c == b'\n' then FitsPage text 0 (y + 1) else (x < 80) × (y < 50) × FitsPage text (x + 1) y

-- The states before and after a text that starts on the page `p`, at the cursor.
pub record Laid (k k' : Kernel) (s s' : Screen) (p : Page) : Type 0 where
  pub column : cursor_x k' ≡ pos p.x
  pub row : cursor_y k' ≡ pos p.y
  pub cells : s'.new_screen ≡ p.cells
  pub current : k'.current_running ≡ k.current_running
  pub others : (q : Ptr) → (q == k.current_running) ≡ false → k'.pcb q ≡ k.pcb q
  pub old : s'.old_screen ≡ s.old_screen
  pub port : s'.port ≡ s.port

screen_write_ch-newline :
    (k : Kernel) (s : Screen) (y : ℕ)
    → cursor_y k ≡ pos y
    → screen_write_ch b'\n' k s ≡ some (set_cursor (pos 0) (pos (y + 1)) k, s)
unfolding screen_write_ch
screen_write_ch-newline k s y hy = rw (hy, pos-add y 1)

write_loop-Laid :
    (text : List ℕ) (i : ℕ) (buff : Ptr) (mem : Mem) (k : Kernel) (s : Screen) (x y : ℕ)
    → IsString mem (buff + i) text
    → FitsPage text x y
    → cursor_x k ≡ pos x
    → cursor_y k ≡ pos y
    → (k' : Kernel) × (s' : Screen) × (write_loop (length text) i buff mem k s ≡ some (k', s'))
      × Laid k k' s s' (lay text (record { cells = s.new_screen; x = x; y = y }))
unfolding write_loop
write_loop-Laid [] i buff mem k s x y is fits hx hy = (
  k,
  s,
  refl,
  record {
    column = hx;
    row = hy;
    cells = refl;
    current = refl;
    others = λ p ne. refl;
    old = refl;
    port = refl;
  },
)
write_loop-Laid (c ∷ text) i buff mem k s x y is fits hx hy =
    let after : buff + i + 1 ≡ buff + (i + 1) = omega arith in
    let is' = subst (λ p. IsString mem p text) after is.2 in
    let line_page : Page = record { cells = s.new_screen; x = 0; y = y + 1 } in
    let typed : ℕ → ℕ = λ q. if q == screen_loc x y then c else s.new_screen q in
    let next_page : Page = record { cells = typed; x = x + 1; y = y } in
    let fits_if : Bool → Type 0 =
      λ b. if b then FitsPage text 0 (y + 1) else (x < 80) × (y < 50) × FitsPage text (x + 1) y in
    let page_if : Bool → Page = λ b. if b then lay text line_page else lay text next_page in
    elim (Bool-cases (c == b'\n')) [
      | inl line ↦
          let k1 = set_cursor (pos 0) (pos (y + 1)) k in
          let fits' : FitsPage text 0 (y + 1) = subst fits_if line fits in
          let is_line : c ≡ b'\n' = ground (arith, line) in
          let (k', s', goes, w) =
            write_loop-Laid text (i + 1) buff mem k1 s 0 (y + 1) is' fits' (ground arith)
              (ground arith) in
          (
            k',
            s',
            write_loop-step (length text) i buff mem k k1 s s (
                  ap (λ ch. screen_write_ch ch k s) (is.0 ∙ is_line)
                  ∙ screen_write_ch-newline k s y hy)
                ∙ goes,
            subst (λ b. Laid k k' s s' (page_if b)) (sym line)
                (record {
                  column = w.column;
                  row = w.row;
                  cells = w.cells;
                  current = w.current;
                  others = λ p ne. w.others p ne ∙ ground arith;
                  old = w.old;
                  port = w.port;
                }),
          )
      | inr char ↦
          let k1 = set_cursor (pos (x + 1)) (pos y) k in
          let s1 = record s { new_screen = typed } in
          let fits' : (x < 80) × (y < 50) × FitsPage text (x + 1) y = subst fits_if char fits in
          let no_line : c ≢ b'\n' = ground (arith, char) in
          let (k', s', goes, w) =
            write_loop-Laid text (i + 1) buff mem k1 s1 (x + 1) y is' fits'.2 (ground arith)
              (ground arith) in
          (
            k',
            s',
            write_loop-step (length text) i buff mem k k1 s s1 (
                  ap (λ ch. screen_write_ch ch k s) is.0
                  ∙ screen_write_ch-inside c k s x y no_line hx hy fits'.0 fits'.1)
                ∙ goes,
            subst (λ b. Laid k k' s s' (page_if b)) (sym char)
                (record {
                  column = w.column;
                  row = w.row;
                  cells = w.cells;
                  current = w.current;
                  others = λ p ne. w.others p ne ∙ ground arith;
                  old = w.old;
                  port = w.port;
                }),
          )
    ]

-- screen_write of a text of which no character but a newline falls outside the 80 columns and 50
-- rows from the cursor on ends (given more fuel than the text is long), leaves in the buffer and
-- the cursor what laying out the text from there gives, and changes no other task, neither the old
-- screen nor the serial port.
pub screen_write-Laid :
    (fuel : ℕ) (text : List ℕ) (buff : Ptr) (mem : Mem) (k : Kernel) (s : Screen) (x y : ℕ)
    → IsString mem buff text
    → length text < fuel
    → FitsPage text x y
    → cursor_x k ≡ pos x
    → cursor_y k ≡ pos y
    → (k' : Kernel) × (s' : Screen) × (screen_write fuel buff mem k s ≡ some (k', s'))
      × Laid k k' s s' (lay text (record { cells = s.new_screen; x = x; y = y }))
unfolding screen_write
screen_write-Laid fuel text buff mem k s x y is enough fits hx hy =
    let start : buff ≡ buff + 0 = omega arith in
    let (k', s', goes, w) =
      write_loop-Laid text 0 buff mem k s x y (subst (λ p. IsString mem p text) start is) fits hx
        hy in
    (k', s', rw (strlen-IsString fuel mem buff text is enough, screen_write) goes, w)
