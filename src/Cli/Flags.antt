-- ===== src/Cli/Flags.antt =====
-- Package flag, as cmd/a10-certctl/main.go uses it: `FlagSet.Parse` and the values of the flags.
use a10_certctl.Base.{
  Bool, true, false, ◌||◌, List, [], ◌∷◌, Option, none, some, is_nil, eqb, if◌then◌else◌,
}
use a10_certctl.Base.Int.{ℤ}
use a10_certctl.Text.{Text, ◌==◌, codes}
use a10_certctl.Errors.{Error, failed, Result, ok, err}

-- `String` and `Var`, `Bool`, `Duration`
pub data FlagKind : Type 0 where
  text_flag bool_flag duration_flag : FlagKind

pub record Flag : Type 0 where
  pub name : Text
  pub kind : FlagKind

abbrev pub text_of_flag : Text → Flag
text_of_flag name = record { name = name; kind = text_flag }

abbrev pub bool_of_flag : Text → Flag
bool_of_flag name = record { name = name; kind = bool_flag }

pub data Value : Type 0 where
  text : Text → Value
  switch : Bool → Value
  span : ℤ → Value

-- What the command line sets, in its order.
abbrev pub Settings : Type 0
Settings = List (Text × Value)

-- `strconv.ParseBool`
unfoldable pub parse_bool : Text → Option Bool
parse_bool s =
    if s == codes "1"
      || s == codes "t"
      || s == codes "T"
      || s == codes "true"
      || s == codes "TRUE"
      || s == codes "True"
    then some true
    else if s == codes "0"
        || s == codes "f"
        || s == codes "F"
        || s == codes "false"
        || s == codes "FALSE"
        || s == codes "False"
    then some false
    else none

-- What an argument is: no flag, `--`, a flag with all its value, or a flag that the next argument
-- completes.
pub data Argument : Type 0 where
  positional terminator : Argument
  bad : Error → Argument
  set : Text → Value → Argument
  awaits : Flag → Argument

-- The text before the first `=`, and the text after it.
unfoldable pub cut_equals : Text → Text × Option Text
cut_equals [] = ([], none)
cut_equals (c ∷ s) =
    let (front, value) = cut_equals s in if eqb c b'=' then ([], some s) else (c ∷ front, value)

unfoldable pub find_flag : List Flag → Text → Option Flag
find_flag [] name = none
find_flag (f ∷ flags) name = if f.name == name then some f else find_flag flags name

-- `flag.Value.Set`
module _ (parse_duration : Text → Option ℤ) where
  unfoldable pub set_value : FlagKind → Text → Result Value
  unfolding parse_bool
  set_value text_flag s = ok (text s)
  set_value bool_flag s = elim (parse_bool s) [
    | none ↦ err (failed "invalid boolean value")
    | some b ↦ ok (switch b)
  ]
  set_value duration_flag s = elim (parse_duration s) [
    | none ↦ err (failed "invalid value")
    | some d ↦ ok (span d)
  ]

  unfoldable pub set_argument : Flag → Text → Argument
  unfolding set_value
  set_argument f s = elim (set_value f.kind s) [ err e ↦ bad e | ok v ↦ set f.name v ]

  -- A flag that the set has, with the value behind `=` or without one.
  unfoldable pub flag_argument : Flag → Option Text → Argument
  unfolding set_argument
  flag_argument f (some s) = set_argument f s
  flag_argument f none = elim f.kind [
    | bool_flag ↦ set f.name (switch true)
    | text_flag ↦ awaits f
    | duration_flag ↦ awaits f
  ]

  -- A flag that the set does not have: `-h` and `-help` are errors of their own.
  unfoldable pub unknown_argument : Text → Argument
  unknown_argument name =
      if name == codes "help" || name == codes "h"
      then bad (failed "flag: help requested")
      else bad (failed "flag provided but not defined")

  unfoldable pub found_argument : Text → Option Text → Option Flag → Argument
  unfolding flag_argument unknown_argument
  found_argument name value none = unknown_argument name
  found_argument name value (some f) = flag_argument f value

  -- What follows the one or two dashes.
  unfoldable pub named_argument : List Flag → Text → Argument
  unfolding found_argument find_flag cut_equals
  named_argument flags [] = bad (failed "bad flag syntax")
  named_argument flags (c ∷ s) =
      let (front, value) = cut_equals s in
      if eqb c b'-' || eqb c b'='
      then bad (failed "bad flag syntax")
      else found_argument (c ∷ front) value (find_flag flags (c ∷ front))

  unfoldable pub read_argument : List Flag → Text → Argument
  unfolding named_argument
  read_argument flags [] = positional
  read_argument flags (c ∷ []) = positional
  read_argument flags (c ∷ d ∷ s) =
      if eqb c b'-'
      then (if eqb d b'-'
          then (if is_nil s then terminator else named_argument flags s)
          else named_argument flags (d ∷ s))
      else positional

  abbrev with_setting : Text × Value → Result (Settings × List Text) → Result (Settings × List Text)
  with_setting setting (err e) = err e
  with_setting setting (ok (settings, rest)) = ok (setting ∷ settings, rest)

  -- `FlagSet.Parse`: the settings and `Args()`. The flag at hand waits for its value.
  unfoldable pub parse_from : List Flag → Option Flag → List Text → Result (Settings × List Text)
  unfolding read_argument set_value
  parse_from flags none [] = ok ([], [])
  parse_from flags (some f) [] = err (failed "flag needs an argument")
  parse_from flags (some f) (s ∷ args) = elim (set_value f.kind s) [
    | err e ↦ err e
    | ok v ↦ with_setting (f.name, v) (parse_from flags none args)
  ]
  parse_from flags none (s ∷ args) = elim (read_argument flags s) [
    | positional ↦ ok ([], s ∷ args)
    | terminator ↦ ok ([], args)
    | bad e ↦ err e
    | set name v ↦ with_setting (name, v) (parse_from flags none args)
    | awaits f ↦ parse_from flags (some f) args
  ]

  unfoldable pub parse_flags : List Flag → List Text → Result (Settings × List Text)
  unfolding parse_from
  parse_flags flags args = parse_from flags none args

-- The value of a flag: the last one set, or the default.
unfoldable pub text_setting : Text → Text → Settings → Text
text_setting name value [] = value
text_setting name value ((other, text s) ∷ settings) =
    text_setting name (if other == name then s else value) settings
text_setting name value ((other, switch _) ∷ settings) = text_setting name value settings
text_setting name value ((other, span _) ∷ settings) = text_setting name value settings

unfoldable pub bool_setting : Text → Bool → Settings → Bool
bool_setting name value [] = value
bool_setting name value ((other, switch b) ∷ settings) =
    bool_setting name (if other == name then b else value) settings
bool_setting name value ((other, text _) ∷ settings) = bool_setting name value settings
bool_setting name value ((other, span _) ∷ settings) = bool_setting name value settings

unfoldable pub span_setting : Text → ℤ → Settings → ℤ
span_setting name value [] = value
span_setting name value ((other, span d) ∷ settings) =
    span_setting name (if other == name then d else value) settings
span_setting name value ((other, text _) ∷ settings) = span_setting name value settings
span_setting name value ((other, switch _) ∷ settings) = span_setting name value settings

-- `stringList.Set`: every value of the flag, in its order
unfoldable pub list_setting : Text → Settings → List Text
list_setting name [] = []
list_setting name ((other, text s) ∷ settings) =
    let rest = list_setting name settings in if other == name then s ∷ rest else rest
list_setting name ((other, switch _) ∷ settings) = list_setting name settings
list_setting name ((other, span _) ∷ settings) = list_setting name settings
