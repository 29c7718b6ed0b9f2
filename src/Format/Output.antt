-- ===== src/Format/Output.antt =====
-- libs/printk.c, and tiny_libc/printf.c, from `struct mini_buff` to the end of `mini_vsnprintf`. The
-- two differ in `mini_itoa` only, which is a parameter here. The variable arguments are a list of
-- 64-bit values, and `bf` is the address of the array of this name on the stack.
pub mod Puts
pub mod Pieces
pub mod Reading
pub mod Clear
pub mod Step
pub mod Round
pub mod Run
use ucas_oslab_project.Common.{
  ℕ, zero, suc, ◌+◌, ◌-◌, ◌*◌, ◌%◌, ◌^◌, Bool, true, false, not, ◌&&◌, ◌||◌, ◌==◌, ltb, leb, Option,
  none, some, List, [], ◌∷◌, if◌then◌else◌,
}
use ucas_oslab_project.LinkedList.{Ptr, update}
use ucas_oslab_project.Strings.{Mem}
use ucas_oslab_project.Format.{mini_strlen}

pub record MiniBuff : Type 0 where
  pub buffer : Ptr
  pub pbuffer : Ptr
  pub buffer_len : ℕ

-- `b->pbuffer - b->buffer`
abbrev pub used : MiniBuff → ℕ
used b = b.pbuffer - b.buffer

abbrev pub full : MiniBuff → Bool
full b = leb b.buffer_len (used b + 1)

unfoldable pub putc : (ch : ℕ) → MiniBuff → Mem → ℕ × MiniBuff × Mem
putc ch b mem = if full b then (0, b, mem) else (
  1,
  record b { pbuffer = b.pbuffer + 1 },
  update (update mem b.pbuffer (ch % 256)) (b.pbuffer + 1) 0,
)

-- The loop of `_puts`: `n` rounds are left, at the index `i`.
unfoldable pub puts_loop : ℕ → (s : Ptr) (i : ℕ) (pbuffer : Ptr) → Mem → Ptr × Mem
puts_loop zero s i pbuffer mem = (pbuffer, mem)
puts_loop (suc n) s i pbuffer mem =
    puts_loop n s (i + 1) (pbuffer + 1) (update mem pbuffer (mem (s + i)))

-- The length of what is copied; the difference may be negative, and wraps around in `len`.
unfoldable pub puts_len : (len : ℕ) → MiniBuff → ℕ
puts_len len b =
    if ltb b.buffer_len (used b + 1 + len)
    then (2 ^ 32 + b.buffer_len - used b - 1) % 2 ^ 32
    else len

unfoldable pub puts : (s : Ptr) (len : ℕ) → MiniBuff → Mem → ℕ × MiniBuff × Mem
puts s len b mem =
    let n = puts_len len b in
    let (p, mem') = puts_loop n s 0 b.pbuffer mem in (n, record b { pbuffer = p }, update mem' p 0)

-- The loop that reads the width behind a '0': the next character, the format behind it, the width.
unfoldable pub pad_loop : ℕ → (fmt : Ptr) (zero_pad : ℕ) → Mem → Option (ℕ × Ptr × ℕ)
pad_loop zero fmt zero_pad mem = none
pad_loop (suc fuel) fmt zero_pad mem =
    let ch = mem fmt in
    let rest = pad_loop fuel (fmt + 1) ((zero_pad * 10 + ch - b'0') % 256) mem in
    if ch == 0
    then some (0, fmt + 1, zero_pad)
    else if leb b'0' ch && leb ch b'9'
    then rest
    else some (ch, fmt + 1, zero_pad)

-- What stands behind a '%'.
pub record Directive : Type 0 where
  pub ch : ℕ
  pub fmt : Ptr
  pub zero_pad : ℕ
  pub longflag : Bool

unfoldable pub read_long : (ch : ℕ) (fmt : Ptr) (zero_pad : ℕ) → Mem → Directive
read_long ch fmt zero_pad mem =
    if ch == b'l'
    then record { ch = mem fmt; fmt = fmt + 1; zero_pad = zero_pad; longflag = true }
    else record { ch = ch; fmt = fmt; zero_pad = zero_pad; longflag = false }

unfoldable pub read_directive : ℕ → (fmt : Ptr) → Mem → Option Directive
read_directive fuel fmt mem =
    let ch = mem fmt in
    if ch == b'0'
    then elim (pad_loop fuel (fmt + 1) 0 mem) [
      | none ↦ none
      | some (ch', fmt', zero_pad) ↦ some (read_long ch' fmt' zero_pad mem)
    ]
    else some (read_long ch (fmt + 1) 0 mem)

-- `value`, `radix`, `uppercase`, `unsig`, `buffer` and `zero_pad` of `mini_itoa`.
abbrev pub Itoa : Type 0
Itoa = ℕ → ℕ → Bool → Bool → Ptr → ℕ → Mem → Option (ℕ × Mem)

-- The arguments that are left, the buffer and the memory.
abbrev pub Out : Type 0
Out = List ℕ × MiniBuff × Mem

-- The number that `_putc` and `_puts` return is not used.
abbrev pub resume : List ℕ → ℕ × MiniBuff × Mem → Out
resume va (ret, b, mem) = (va, b, mem)

module _ (itoa : Itoa) (bf : Ptr) where
  -- `%u`, `%d`, `%x` and `%X`
  unfoldable pub print_number :
      (radix : ℕ) (uppercase unsig longflag : Bool) (zero_pad : ℕ) → Out → Option Out
  print_number radix uppercase unsig longflag zero_pad ([], b, mem) = none
  print_number radix uppercase unsig longflag zero_pad (arg ∷ va, b, mem) =
      let value = (if longflag then arg else arg % 2 ^ 32) in
      elim (itoa value radix uppercase unsig bf zero_pad mem) [
        | none ↦ none
        | some (len, mem') ↦ some (resume va (puts bf len b mem'))
      ]

  unfoldable pub print_char : Out → Option Out
  print_char ([], b, mem) = none
  print_char (arg ∷ va, b, mem) = some (resume va (putc (arg % 256) b mem))

  unfoldable pub print_string : ℕ → Out → Option Out
  print_string fuel ([], b, mem) = none
  print_string fuel (arg ∷ va, b, mem) = elim (mini_strlen fuel arg mem) [
    | none ↦ none
    | some len ↦ some (resume va (puts arg len b mem))
  ]

  -- The `switch`, but for its `case 0`.
  unfoldable pub print_directive : ℕ → Directive → Out → Option Out
  print_directive fuel d (va, b, mem) =
      if d.ch == b'l'
      then some (va, b, mem)
      else if d.ch == b'u' || d.ch == b'd'
      then print_number 10 false (d.ch == b'u') d.longflag d.zero_pad (va, b, mem)
      else if d.ch == b'x' || d.ch == b'X'
      then print_number 16 (d.ch == b'X') true d.longflag d.zero_pad (va, b, mem)
      else if d.ch == b'c'
      then print_char (va, b, mem)
      else if d.ch == b's'
      then print_string fuel (va, b, mem)
      else some (resume va (putc d.ch b mem))

  -- The loop on the format, and its round; `none` as the next format is the end.
  unfoldable pub format_step : ℕ → (fmt : Ptr) → Out → Option (Option Ptr × Out)
  format_step fuel fmt (va, b, mem) =
      let ch = mem fmt in
      if ch == 0 || full b
      then some (none, (va, b, mem))
      else if not (ch == b'%')
      then some (some (fmt + 1), resume va (putc ch b mem))
      else elim (read_directive fuel (fmt + 1) mem) [
        | none ↦ none
        | some d ↦
            if d.ch == 0
            then some (none, (va, b, mem))
            else elim (print_directive fuel d (va, b, mem)) [
              | none ↦ none
              | some out ↦ some (some d.fmt, out)
            ]
      ]

  unfoldable pub format_loop : ℕ → ℕ → (fmt : Ptr) → Out → Option Out
  format_loop zero fuel fmt out = none
  format_loop (suc rounds) fuel fmt out = elim (format_step fuel fmt out) [
    | none ↦ none
    | some (none, out') ↦ some out'
    | some (some fmt', out') ↦ format_loop rounds fuel fmt' out'
  ]

  unfoldable pub vsnprintf :
      ℕ → (buffer : Ptr) (buffer_len : ℕ) (fmt : Ptr) (va : List ℕ) → Mem → Option (ℕ × Mem)
  vsnprintf fuel buffer buffer_len fmt va mem =
      let b : MiniBuff = record { buffer = buffer; pbuffer = buffer; buffer_len = buffer_len } in
      elim (format_loop fuel fuel fmt (va, b, mem)) [
        | none ↦ none
        | some (va', b', mem') ↦ some (used b', mem')
      ]
