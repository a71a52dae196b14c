-- ===== src/Util/Logger/Debugging.antt =====
-- core/core/util/logger: the macros of Logger.h, which log and print for debugging, and the traits of
-- LogHelper.h by which they choose how a value is printed.
use cpp_grcp_testground.Prelude.{
  ℕ, ◌≡◌, refl, Bool, true, false, Option, none, some, List, [], ◌∷◌, ◌++◌, Str, leb, if◌then◌else◌,
}
use cpp_grcp_testground.Util.Logger.{Spdlog, Logger, log, debug, set_level, map_to_string}

-- A line that the logging library is given: the logger's name, the level and the message.
pub record Line : Type 0 where
  pub logger_name : Str
  pub level : ℕ
  pub message : Str

-- A logger of the logging library writes a message whose level is not below its own.
abbrev pub write : Spdlog → ℕ → Str → List Line
write to level message =
    if leb to.level level
    then record { logger_name = to.name; level = level; message = message } ∷ []
    else []

-- The levels of the logging library.
abbrev pub debug_level : ℕ
debug_level = 1

abbrev pub info_level : ℕ
info_level = 2

abbrev pub warn_level : ℕ
warn_level = 3

abbrev pub error_level : ℕ
error_level = 4

-- A macro of the logging library below the level that was active when the program was compiled is
-- nothing.
abbrev pub compiled : ℕ → ℕ → List Line → List Line
compiled active level lines = if leb active level then lines else []

module _ (active : ℕ) (l : Logger) where
  unfoldable pub core_info : Str → List Line
  core_info message = compiled active info_level (write (log l) info_level message)

  unfoldable pub core_debug : Str → List Line
  core_debug message = compiled active debug_level (write (log l) debug_level message)

  unfoldable pub core_warn : Str → List Line
  core_warn message = compiled active warn_level (write (log l) warn_level message)

  unfoldable pub core_error : Str → List Line
  core_error message = compiled active error_level (write (log l) error_level message)

-- What the traits ask of a type: whether `begin`, `end`, `!=`, `++` and `*` can be used as a loop does,
-- and whether the values of its `iterator`, if it has one, are pairs.
pub record Shape : Type 0 where
  pub can_loop : Bool
  pub iterator_of_pairs : Option Bool

unfoldable pub is_iterable : Shape → Bool
is_iterable s = s.can_loop

unfoldable pub is_mapping : Shape → Bool
is_mapping s = elim s.iterator_of_pairs [ none ↦ false | some pairs ↦ pairs ]

-- A variable: its type's shape, its value, and how the formatting library writes it, its elements and
-- its entries, as far as there are any.
pub record Variable {ℓ} (A : Type ℓ) : Type ℓ where
  pub shape : Shape
  pub value : A
  pub text : Str
  pub elements : List Str
  pub entries : List (Str × Str)

-- `fmt::join(x, ", ")`
abbrev pub comma_join : List Str → Str
comma_join [] = []
comma_join (x ∷ []) = x
comma_join (x ∷ y ∷ xs) = x ++ (44 ∷ 32 ∷ comma_join (y ∷ xs))

abbrev pub bracketed : Str → Str
bracketed text = 91 ∷ text ++ (93 ∷ [])

module _ {ℓ} {A : Type ℓ} where
  -- How a variable is printed: a mapping and a sequence in brackets.
  unfoldable pub printed : Variable A → Str
  printed x =
      if is_mapping x.shape
      then bracketed (map_to_string x.entries)
      else if is_iterable x.shape
      then bracketed (comma_join x.elements)
      else x.text

  -- `dbg`: the lines, and the value of the macro. `name` is the text of its argument.
  unfoldable pub dbg : ℕ → Logger → Str → Variable A → List Line × A
  dbg active l name x = (
    compiled active info_level (write (debug l) info_level (name ++ (32 ∷ 61 ∷ 32 ∷ printed x))),
    x.value,
  )

  -- `dbg_if`, with its condition and the text of it.
  unfoldable pub dbg_if : ℕ → Logger → Bool → Str → Str → Variable A → List Line × A
  dbg_if active l false condition name x = ([], x.value)
  dbg_if active l true condition name x = (
    compiled active info_level (
        write (debug l) info_level
          (condition ++ (32 ∷ 45 ∷ 62 ∷ 32 ∷ name ++ (32 ∷ 61 ∷ 32 ∷ printed x)))),
    x.value,
  )

  -- With `CORE_DBG_DISABLED` the macros are the variable.
  unfoldable pub dbg_disabled : Variable A → List Line × A
  dbg_disabled x = ([], x.value)

-- A level set on the logger decides which lines of it are written from then on, and none of the debug
-- logger's.
pub set_level-lines :
    (active level : ℕ) (l : Logger) (message : Str)
    → (core_info active (set_level level l) message
        ≡ compiled active info_level (
            if leb level info_level
            then record { logger_name = l.logger.name; level = info_level; message = message } ∷ []
            else []))
      × (debug (set_level level l) ≡ debug l)
unfolding core_info set_level log debug
set_level-lines active level l message = (refl, refl)

-- A text is a sequence of its characters, and no mapping: it is printed with a comma and a space
-- between any two of them.
pub dbg-text :
    (active : ℕ) (l : Logger) (name text : Str) (elements : List Str) (entries : List (Str × Str))
    → (dbg active l name (record {
      shape = record { can_loop = true; iterator_of_pairs = some false };
      value = text;
      text = text;
      elements = elements;
      entries = entries;
    })).0
      ≡ compiled active info_level
          (write (debug l) info_level (name ++ (32 ∷ 61 ∷ 32 ∷ bracketed (comma_join elements))))
unfolding dbg printed is_mapping is_iterable
dbg-text active l name text elements entries = refl
