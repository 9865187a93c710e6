-- ===== src/Utils/Args.antt =====
-- src/utils/exec.c (_append_extra_args) and src/utils/extra_arg.h: the argument vector of a
-- command, a NULL-terminated array, is a list without the NULL.
use libblockdev.Base.{
  ℕ, ◌+◌, Option, none, some, List, [], ◌∷◌, ◌++◌, Bool, false, not, ◌≡◌, refl, sym, append-nil,
  ◌∙◌, arith, Bytes, is_empty, if◌then◌else◌, length, length-append, append_assoc,
}

pub record ExtraArg : Type 0 where
  pub opt : Option Bytes
  pub val : Option Bytes

-- `p && g_strcmp0 (p, "") != 0`
abbrev pub given : Option Bytes → Bool
given none = false
given (some s) = not (is_empty s)

-- One slot for each string that is given.
abbrev pub slots : Option Bytes → ℕ
slots p = if given p then 1 else 0

-- The second loop writes `args[i++] = p` where `p` is given.
abbrev pub written : Option Bytes → List Bytes
written none = []
written (some s) = if is_empty s then [] else s ∷ []

-- The first loop over `extra`, from the length so far.
pub count_extra : ℕ → List ExtraArg → ℕ
count_extra n [] = n
count_extra n (x ∷ xs) = count_extra (n + slots x.opt + slots x.val) xs

-- The second loop over `extra`, behind what is written so far.
pub write_extra : List Bytes → List ExtraArg → List Bytes
write_extra args [] = args
write_extra args (x ∷ xs) = write_extra ((args ++ written x.opt) ++ written x.val) xs

-- The number of slots allocated, and the vector that is written into them.
pub record ArgBuffer : Type 0 where
  pub allocated : ℕ
  pub args : List Bytes

unfoldable pub append_extra_args : List Bytes → Option (List ExtraArg) → Option ArgBuffer
unfolding count_extra write_extra
append_extra_args argv none = none
append_extra_args argv (some extra) =
    some (record { allocated = count_extra (length argv) extra + 1; args = write_extra argv extra })

-- `args ? args : argv`
abbrev pub effective_argv : List Bytes → Option (List ExtraArg) → List Bytes
effective_argv argv extra = elim (append_extra_args argv extra) [ none ↦ argv | some b ↦ b.args ]

pub length-written : (p : Option Bytes) → length (written p) ≡ slots p
length-written none = refl
length-written (some []) = refl
length-written (some (c ∷ s)) = refl

length-write_extra :
    (args : List Bytes) (xs : List ExtraArg)
    → length (write_extra args xs) ≡ count_extra (length args) xs
unfolding write_extra count_extra
length-write_extra args [] = refl
length-write_extra args (x ∷ xs) =
    let e : length ((args ++ written x.opt) ++ written x.val)
        ≡ length args + slots x.opt + slots x.val =
      omega (
        arith,
        length-append (args ++ written x.opt) (written x.val),
        length-append args (written x.opt),
        length-written x.opt,
        length-written x.val,
      ) in
    rw (← e) (length-write_extra ((args ++ written x.opt) ++ written x.val) xs)

-- For extra arguments that are not NULL, the loop that fills the new vector writes exactly as many
-- strings as the first loop counted, so that with the closing NULL it fills what was allocated.
pub append_extra_args_fits :
    (argv : List Bytes) (extra : List ExtraArg) {b : ArgBuffer}
    → append_extra_args argv (some extra) ≡ some b
    → length b.args + 1 ≡ b.allocated
unfolding append_extra_args
append_extra_args_fits argv extra h = ground (arith, length-write_extra argv extra)

-- What is appended: the strings that are given and not empty, in order.
abbrev pub flat_args : List ExtraArg → List Bytes
flat_args [] = []
flat_args (x ∷ xs) = written x.opt ++ (written x.val ++ flat_args xs)

write_extra-append :
    (args : List Bytes) (xs : List ExtraArg) → write_extra args xs ≡ args ++ flat_args xs
unfolding write_extra
write_extra-append args [] = sym (append-nil args)
write_extra-append args (x ∷ xs) =
    write_extra-append ((args ++ written x.opt) ++ written x.val) xs
    ∙ (append_assoc (args ++ written x.opt) (written x.val) (flat_args xs)
        ∙ append_assoc args (written x.opt) (written x.val ++ flat_args xs))

-- The command line is `argv` followed by the strings of `extra` that are given and not empty, in
-- their order; with no extra arguments it is `argv` itself.
pub effective_argv_lem :
    (argv : List Bytes) (extra : List ExtraArg)
    → (effective_argv argv (some extra) ≡ argv ++ flat_args extra)
      × (effective_argv argv none ≡ argv)
unfolding append_extra_args
effective_argv_lem argv extra = (write_extra-append argv extra, refl)
