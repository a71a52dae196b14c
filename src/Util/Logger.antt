-- ===== src/Util/Logger.antt =====
-- core/core/util/logger: how the logger writes the name of a function (Logger.cpp) and a map
-- (LogHelper.h), and how it is set up (Logger.h, Logger.cpp).
pub mod Shortening
pub mod Debugging
use cpp_grcp_testground.Prelude.{
  ℕ, zero, suc, ◌+◌, ◌-◌, ◌%◌, ◌^◌, Bool, true, false, ◌&&◌, Option, none, some, List, [], ◌∷◌,
  ◌++◌, map, Str, length, leb, ◌==◌, if◌then◌else◌,
}

abbrev pub take : ℕ → Str → Str
take zero s = []
take (suc n) [] = []
take (suc n) (c ∷ s) = c ∷ take n s

abbrev pub drop : ℕ → Str → Str
drop zero s = s
drop (suc n) [] = []
drop (suc n) (c ∷ s) = drop n s

abbrev pub starts_with : Str → Str → Bool
starts_with [] s = true
starts_with (c ∷ word) [] = false
starts_with (c ∷ word) (d ∷ s) = c == d && starts_with word s

abbrev pub next_index : Option ℕ → Option ℕ
next_index none = none
next_index (some i) = some (suc i)

-- `std::string::find`
unfoldable pub find : Str → Str → Option ℕ
find word [] = if starts_with word [] then some 0 else none
find word (c ∷ s) =
    let later = find word s in if starts_with word (c ∷ s) then some 0 else next_index later

-- `find_first_of` and `find_last_of` of one character.
unfoldable pub find_first_of : ℕ → Str → Option ℕ
find_first_of x [] = none
find_first_of x (c ∷ s) =
    let later = find_first_of x s in if c == x then some 0 else next_index later

abbrev pub later_or_here : Bool → Option ℕ → Option ℕ
later_or_here here (some i) = some (suc i)
later_or_here true none = some 0
later_or_here false none = none

unfoldable pub find_last_of : ℕ → Str → Option ℕ
find_last_of x [] = none
find_last_of x (c ∷ s) = later_or_here (c == x) (find_last_of x s)

-- `std::string::replace(pos, count, text)`, for a position in the text.
abbrev pub replace : ℕ → ℕ → Str → Str → Str
replace pos count text s = take pos s ++ text ++ drop (pos + count) s

-- The texts `<lambda_`, `<lambda>` and `<...>`.
abbrev pub lambda_start : Str
lambda_start = 60 ∷ 108 ∷ 97 ∷ 109 ∷ 98 ∷ 100 ∷ 97 ∷ 95 ∷ []

abbrev pub lambda_name : Str
lambda_name = 60 ∷ 108 ∷ 97 ∷ 109 ∷ 98 ∷ 100 ∷ 97 ∷ 62 ∷ []

abbrev pub ellipsis : Str
ellipsis = 60 ∷ 46 ∷ 46 ∷ 46 ∷ 62 ∷ []

-- The first replacement of `format`, at the place that was found.
abbrev pub cut_lambda : Option ℕ → Str → Str
cut_lambda none func = func
cut_lambda (some pos) func = replace pos (length func) lambda_name func

-- The second one: `end - begin` is a difference of two `size_t`.
abbrev pub cut_arguments : Option ℕ → Option ℕ → Str → Str
cut_arguments none last func = func
cut_arguments (some begin) none func = func
cut_arguments (some begin) (some end) func =
    if leb 20 ((2 ^ 64 + end - begin) % 2 ^ 64) then replace begin end ellipsis func else func

abbrev pub shorten : Str → Str
shorten func = cut_arguments (find_first_of 60 func) (find_last_of 62 func) func

-- What `FunctionFlag::format` appends for the name of a function.
unfoldable pub format : Str → Str
format funcname = shorten (cut_lambda (find lambda_start funcname) funcname)

-- `Logger::Options`
pub data SourceStyle : Type 0 where
  base_file relative_path : SourceStyle

pub record Options : Type 0 where
  pub application_name : Str
  pub log_path : Str
  pub verbose : Bool
  pub source_style : SourceStyle

-- How the source of a line is written: `[%t | %s:%# - %!] `, `[%t | %g:%# - %!] ` or `[%s:%#] `.
abbrev pub source_pattern : Bool → SourceStyle → Str
source_pattern true base_file =
    91 ∷ 37 ∷ 116 ∷ 32 ∷ 124 ∷ 32 ∷ 37 ∷ 115 ∷ 58 ∷ 37 ∷ 35 ∷ 32 ∷ 45 ∷ 32 ∷ 37 ∷ 33 ∷ 93 ∷ 32 ∷ []
source_pattern true relative_path =
    91 ∷ 37 ∷ 116 ∷ 32 ∷ 124 ∷ 32 ∷ 37 ∷ 103 ∷ 58 ∷ 37 ∷ 35 ∷ 32 ∷ 45 ∷ 32 ∷ 37 ∷ 33 ∷ 93 ∷ 32 ∷ []
source_pattern false style = 91 ∷ 37 ∷ 115 ∷ 58 ∷ 37 ∷ 35 ∷ 93 ∷ 32 ∷ []

-- The pattern of a line: the level, the time, the source and the message.
unfoldable pub line_pattern : Options → Str
line_pattern options =
    (91 ∷ 37 ∷ 94 ∷ 37 ∷ 45 ∷ 55 ∷ 108 ∷ 37 ∷ 36 ∷ 93 ∷ 32 ∷ 91 ∷ 37 ∷ 89 ∷ 45 ∷ 37 ∷ 109 ∷ 45 ∷ 37
      ∷ 100 ∷ 32 ∷ 37 ∷ 84 ∷ 46 ∷ 37 ∷ 101 ∷ 93 ∷ 32 ∷ [])
    ++ source_pattern options.verbose options.source_style
    ++ (37 ∷ 118 ∷ [])

-- Where a logger of the logging library writes to.
pub data Sink : Type 0 where
  null_sink stderr_color stdout_color : Sink
  basic_file : Str → Sink

-- A logger of the logging library: its name, its sinks, the pattern if one was set, and its level.
pub record Spdlog : Type 0 where
  pub name : Str
  pub sinks : List Sink
  pub pattern : Option Str
  pub level : ℕ

pub record Logger : Type 0 where
  pub logger : Spdlog
  pub dbg : Spdlog

-- The constructor, with the level that the logging library gives to a new logger; its level `trace`
-- is 0.
unfoldable pub new_logger : ℕ → Logger
new_logger default_level = record {
  logger = record {
    name = 110 ∷ 117 ∷ 108 ∷ 108 ∷ 95 ∷ 108 ∷ 111 ∷ 103 ∷ 103 ∷ 101 ∷ 114 ∷ [];
    sinks = null_sink ∷ [];
    pattern = none;
    level = default_level;
  };
  dbg = record {
    name = 100 ∷ 98 ∷ 103 ∷ [];
    sinks = stderr_color ∷ [];
    pattern = some (
        91 ∷ 37 ∷ 84 ∷ 46 ∷ 37 ∷ 101 ∷ 93 ∷ 32 ∷ 91 ∷ 37 ∷ 115 ∷ 58 ∷ 37 ∷ 35 ∷ 93 ∷ 32 ∷ 37 ∷ 94
        ∷ 37 ∷ 118 ∷ 37 ∷ 36 ∷ []);
    level = 0;
  };
}

unfoldable pub initialize : ℕ → Options → Logger → Logger
initialize default_level options l = record l {
  logger = record {
    name = options.application_name;
    sinks = stdout_color ∷ basic_file options.log_path ∷ [];
    pattern = some (line_pattern options);
    level = default_level;
  };
}

unfoldable pub log : Logger → Spdlog
log l = l.logger

unfoldable pub debug : Logger → Spdlog
debug l = l.dbg

unfoldable pub set_level : ℕ → Logger → Logger
set_level level l = record l { logger = record l.logger { level = level } }

-- `MapPrinter::toString`, for entries whose keys and values are written: `{ k : v }` for each, with
-- `, ` between them. An empty map writes nothing.
unfoldable pub map_to_string : List (Str × Str) → Str
map_to_string [] = []
map_to_string ((k, v) ∷ []) = 123 ∷ 32 ∷ k ++ (32 ∷ 58 ∷ 32 ∷ v ++ (32 ∷ 125 ∷ []))
map_to_string ((k, v) ∷ e ∷ m) =
    123 ∷ 32 ∷ k ++ (32 ∷ 58 ∷ 32 ∷ v ++ (32 ∷ 125 ∷ 44 ∷ 32 ∷ map_to_string (e ∷ m)))
