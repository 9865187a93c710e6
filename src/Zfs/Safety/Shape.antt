-- ===== src/Zfs/Safety/Shape.antt =====
-- What an array may hold: the option words of the operation, what the caller gives on purpose, and
-- strings that no program takes for an option.
use libblockdev.Base.{
  ℕ, ◌+◌, ◌≤◌, List, [], ◌∷◌, ◌++◌, Bool, true, false, Bytes, ◌==◌, length, length-append, codes,
  ◌≡◌, refl, arith, All, Option, none, some, append_assoc,
}
use libblockdev.Utils.Args.{ExtraArg}
use libblockdev.Zfs.Names.{NotOption}
use libblockdev.Zfs.Pool.{Argv, optional, append_extra_args, count_extra_args, search_args}
use libblockdev.Zfs.Pool.Guards.{append_extra_args_lem, count_extra_args_lem, extra_of}
use libblockdev.Zfs.Ops.{flag, slots_for}
use libblockdev.Zfs.Ops.Datasets.{behind_dashes}

-- The array holds each of the option words and each of the given strings once and in order, and
-- besides them, and behind `--`, only strings that are not empty and do not begin with a dash.
pub data Shape : List Bytes → List Bytes → List Bytes → Type 0 where
  end : Shape [] [] []
  operands : {names : List Bytes} → All NotOption names → Shape [] [] (codes "--" ∷ names)
  plain :
      {words given args : List Bytes} {s : Bytes}
      → NotOption s
      → Shape words given args
      → Shape words given (s ∷ args)
  word :
      {words given args : List Bytes} {s : Bytes}
      → Shape words given args
      → Shape (s ∷ words) given (s ∷ args)
  trusted :
      {words given args : List Bytes} {s : Bytes}
      → Shape words given args
      → Shape words (s ∷ given) (s ∷ args)

-- A well-shaped array that, with its closing NULL, fits into its slots.
abbrev pub IsFine : List Bytes → List Bytes → Argv → Type 0
IsFine words given a = Shape words given a.args × (length a.args + 1 ≤ a.allocated)

pub letter : (c : ℕ) (s : Bytes) → (c == b'-') ≡ false → NotOption (c ∷ s)
letter c s h = (λ e. cc, h)

-- A word of the code that is no option.
pub literal :
    {words given args : List Bytes} {c : ℕ} {s : Bytes}
    → (c == b'-') ≡ false
    → Shape words given args
    → Shape words given ((c ∷ s) ∷ args)
literal {c} {s} h rest = plain (letter c s h) rest

-- A string that begins with one that is no option is none.
pub NotOption-append : (s t : Bytes) → NotOption s → NotOption (s ++ t)
NotOption-append [] t h = absurd (h.0 refl)
NotOption-append (c ∷ s) t h = (λ e. cc, h.1)

pub flag-Shape :
    {words given args : List Bytes} (b : Bool) (w : Bytes)
    → Shape words given args
    → Shape (flag b w ++ words) given (flag b w ++ args)
flag-Shape true w rest = word rest
flag-Shape false w rest = rest

pub last_flag-Shape :
    {given args : List Bytes} (b : Bool) (w : Bytes)
    → Shape [] given args
    → Shape (flag b w) given (flag b w ++ args)
last_flag-Shape true w rest = word rest
last_flag-Shape false w rest = rest

pub behind_dashes-Shape :
    (name : Option Bytes) → All NotOption (optional name) → Shape [] [] (behind_dashes name)
behind_dashes-Shape none h = end
behind_dashes-Shape (some n) h = operands h

pub trusted_all :
    {words args : List Bytes} (given : List Bytes)
    → Shape words [] args
    → Shape words given (given ++ args)
trusted_all [] rest = rest
trusted_all (s ∷ given) rest = trusted (trusted_all given rest)

pub plain_all :
    {words given args : List Bytes} (ss : List Bytes)
    → All NotOption ss
    → Shape words given args
    → Shape words given (ss ++ args)
plain_all [] h rest = rest
plain_all (s ∷ ss) h rest = plain h.0 (plain_all ss h.1 rest)

-- `-d` in front of each directory.
abbrev pub dir_words : List Bytes → List Bytes
dir_words [] = []
dir_words (d ∷ ds) = codes "-d" ∷ dir_words ds

pub search_args-Shape :
    {words given args : List Bytes} (ds : List Bytes)
    → Shape words given args
    → Shape (dir_words ds ++ words) (ds ++ given) (search_args ds ++ args)
unfolding search_args
search_args-Shape [] rest = rest
search_args-Shape (d ∷ ds) rest = word (trusted (search_args-Shape ds rest))

-- The extra arguments between the front of an array and its tail.
module _ (front : List Bytes) (extra : Option (List ExtraArg)) (tail : List Bytes) where
  pub appended : append_extra_args front extra ++ tail ≡ front ++ (extra_of extra ++ tail)
  appended = rw (append_extra_args_lem front extra) (append_assoc front (extra_of extra) tail)

  pub length-appended :
      length (append_extra_args front extra ++ tail)
      ≡ length front + count_extra_args extra + length tail
  length-appended = rw appended (
      omega (
        arith,
        length-append front (extra_of extra ++ tail),
        length-append (extra_of extra) tail,
        count_extra_args_lem extra,
      ))

pub length-flag : (b : Bool) (w : Bytes) → length (flag b w) ≤ 1
length-flag true w = omega arith
length-flag false w = omega arith

-- An array with the extra arguments in it.
pub appended-IsFine :
    (front : List Bytes) (extra : Option (List ExtraArg)) (tail : List Bytes) {words : List Bytes}
    {n : ℕ}
    → Shape words (extra_of extra) (front ++ (extra_of extra ++ tail))
    → length front + count_extra_args extra + length tail + 1 ≤ n
    → IsFine words (extra_of extra) (slots_for n (append_extra_args front extra ++ tail))
appended-IsFine front extra tail s fits =
    (rw (appended front extra tail) s, omega (arith, length-appended front extra tail))

pub length-optional : (name : Option Bytes) → length (optional name) ≤ 1
length-optional none = omega arith
length-optional (some n) = omega arith

-- An array that is shorter by the words of one flag, or of two.
module _ (b : Bool) (w : Bytes) (args : List Bytes) where
  pub length-flag-append : length (flag b w ++ args) ≤ 1 + length args
  length-flag-append = omega (arith, length-append (flag b w) args, length-flag b w)

-- `--` and the one, two or three names behind it.
pub one_name : {a : Bytes} → NotOption a → Shape [] [] (codes "--" ∷ a ∷ [])
one_name {a} h = operands {names = a ∷ []} (h, tt)

pub two_names : {a b : Bytes} → NotOption a → NotOption b → Shape [] [] (codes "--" ∷ a ∷ b ∷ [])
two_names {a} {b} h k = operands {names = a ∷ b ∷ []} (h, (k, tt))

pub three_names :
    {a b c : Bytes}
    → NotOption a
    → NotOption b
    → NotOption c
    → Shape [] [] (codes "--" ∷ a ∷ b ∷ c ∷ [])
three_names {a} {b} {c} h k l = operands {names = a ∷ b ∷ c ∷ []} (h, (k, (l, tt)))

pub name_and :
    {a : Bytes} {others : List Bytes}
    → NotOption a
    → All NotOption others
    → Shape [] [] (codes "--" ∷ a ∷ others)
name_and {a} {others} h k = operands {names = a ∷ others} (h, k)
