-- ===== src/CreateImage/Args.antt =====
-- tools/createimage.c: the command line, and what `error` ends. An argument is a list of bytes.
use ucas_oslab_project.Common.{
  ℕ, ◌≡◌, refl, ◌∙◌, inl, inr, Bool, true, false, ◌&&◌, ◌==◌, ltb, if◌then◌else◌, Bool-cases, List,
  [], ◌∷◌, length,
}
use ucas_oslab_project.CreateImage.{same_name}

pub record Options : Type 0 where
  pub vm : Bool
  pub extended : Bool

-- The end of the program with a message, or a call of `create_image` with these file names.
pub data Run : Type 0 where
  error : Run
  create : Options → List (List ℕ) → Run

unfoldable pub is_option : List ℕ → Bool
is_option (c ∷ d ∷ option) = c == b'-' && d == b'-'
is_option arg = false

unfoldable pub option_name : List ℕ → List ℕ
option_name (c ∷ d ∷ option) = option
option_name arg = []

abbrev pub vm_name : List ℕ
vm_name = b'v' ∷ b'm' ∷ []

abbrev pub extended_name : List ℕ
extended_name = b'e' ∷ b'x' ∷ b't' ∷ b'e' ∷ b'n' ∷ b'd' ∷ b'e' ∷ b'd' ∷ []

-- The tests behind the loop.
unfoldable pub finish_args : List (List ℕ) → Options → Run
finish_args args o = if o.vm then error else if ltb (length args) 2 then error else create o args

-- The loop over the options; `args` are those behind the program's name.
unfoldable pub options_loop : List (List ℕ) → Options → Run
options_loop [] o = finish_args [] o
options_loop (arg ∷ args) o =
    let with_vm = options_loop args (record o { vm = true }) in
    let with_extended = options_loop args (record o { extended = true }) in
    if is_option arg
    then (if same_name (option_name arg) vm_name
        then with_vm
        else if same_name (option_name arg) extended_name
        then with_extended
        else error)
    else finish_args (arg ∷ args) o

unfoldable pub parse_args : List (List ℕ) → Run
parse_args args = options_loop args (record { vm = false; extended = false })

-- `--extended` and `--vm`, as they are written.
abbrev pub extended_arg : List ℕ
extended_arg = b'-' ∷ b'-' ∷ extended_name

abbrev pub vm_arg : List ℕ
vm_arg = b'-' ∷ b'-' ∷ vm_name

-- Any number of the two options before the files.
abbrev pub switches : List Bool → List (List ℕ) → List (List ℕ)
switches [] files = files
switches (vm ∷ more) files = (if vm then vm_arg else extended_arg) ∷ switches more files

abbrev pub any : List Bool → Bool
any [] = false
any (true ∷ more) = true
any (false ∷ more) = any more

abbrev pub set_options : List Bool → Options → Options
set_options [] o = o
set_options (true ∷ more) o = set_options more (record o { vm = true })
set_options (false ∷ more) o = set_options more (record o { extended = true })

options_loop-switches :
    (more : List Bool) (files : List (List ℕ)) (o : Options)
    → options_loop (switches more files) o ≡ options_loop files (set_options more o)
unfolding options_loop is_option option_name same_name
options_loop-switches [] files o = refl
options_loop-switches (true ∷ more) files o =
    options_loop-switches more files (record o { vm = true })
options_loop-switches (false ∷ more) files o =
    options_loop-switches more files (record o { extended = true })

options_loop-files :
    (f : List ℕ) (files : List (List ℕ)) (o : Options)
    → is_option f ≡ false
    → options_loop (f ∷ files) o ≡ finish_args (f ∷ files) o
unfolding options_loop
options_loop-files f files o plain = rw plain

set_options-vm : (more : List Bool) (o : Options) → o.vm ≡ true → (set_options more o).vm ≡ true
set_options-vm [] o e = e
set_options-vm (true ∷ more) o e = set_options-vm more (record o { vm = true }) refl
set_options-vm (false ∷ more) o e = set_options-vm more (record o { extended = true }) e

set_options-any :
    (more : List Bool) (o : Options) → any more ≡ true → (set_options more o).vm ≡ true
set_options-any [] o e = cc
set_options-any (true ∷ more) o e = set_options-vm more (record o { vm = true }) refl
set_options-any (false ∷ more) o e = set_options-any more (record o { extended = true }) e

set_options-none :
    (more : List Bool) (o : Options)
    → any more ≡ false
    → o.vm ≡ false
    → (set_options more o).vm ≡ false
set_options-none [] o e h = h
set_options-none (true ∷ more) o e h = cc
set_options-none (false ∷ more) o e h = set_options-none more (record o { extended = true }) e h

-- The second option is set by its presence, and `--vm` is refused.
abbrev pub result : List Bool → List (List ℕ) → Run
result more files =
    if any more
    then error
    else if ltb (length files) 2
    then error
    else create (set_options more (record { vm = false; extended = false })) files

-- Any number of options before the first file: refused with --vm or fewer than two files, else
-- create_image gets the files.
parse_args-switches :
    (more : List Bool) (f : List ℕ) (files : List (List ℕ))
    → is_option f ≡ false
    → parse_args (switches more (f ∷ files)) ≡ result more (f ∷ files)
unfolding parse_args finish_args
parse_args-switches more f files plain =
    let o : Options = record { vm = false; extended = false } in
    options_loop-switches more (f ∷ files) o
    ∙ options_loop-files f files (set_options more o) plain
    ∙ elim (Bool-cases (any more)) [
      | inl vm ↦ let e = set_options-any more o vm in rw (vm, e)
      | inr no_vm ↦ let e = set_options-none more o no_vm refl in rw (no_vm, e)
    ]
