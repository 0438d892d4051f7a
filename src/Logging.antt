-- ===== src/Logging.antt =====
-- The levels of log/logging.hpp and log/logging.cpp, and the levels that `LogManager` keeps. The sinks
-- belong to boost::log.
use viam_cpp_sdk.Prelude.{
  ℕ, ◌+◌, ◌&&◌, Bytes, Bytes-discrete, codes, map, leb, ite, if◌then◌else◌, ◌≡◌, refl, ℕ_discrete,
}

-- `log_level`.
pub data LogLevel : Type 0 where
  trace debug info warn error fatal : LogLevel

unfoldable pub to_string : LogLevel → Bytes
to_string trace = codes "trace"
to_string debug = codes "debug"
to_string info = codes "info"
to_string warn = codes "warning"
to_string error = codes "error"
to_string fatal = codes "error"

-- `::tolower` on the bytes of ASCII.
abbrev pub to_lower : ℕ → ℕ
to_lower c = if leb b'A' c && leb c b'Z' then c + 32 else c

-- The tests of `level_from_string`, one after the other.
abbrev pub level_of : Bytes → LogLevel
level_of level = ite (Bytes-discrete level (codes "info")) info (
    ite (Bytes-discrete level (codes "warn")) warn (
      ite (Bytes-discrete level (codes "warning")) warn (
        ite (Bytes-discrete level (codes "error")) error (
          ite (Bytes-discrete level (codes "debug")) debug (
            ite (Bytes-discrete level (codes "trace")) trace
              (ite (Bytes-discrete level (codes "fatal")) fatal info))))))

unfoldable pub level_from_string : Bytes → LogLevel
level_from_string level = level_of (map to_lower level)

-- The level that a message carries: there is no `fatal` in it.
abbrev pub sent_level : LogLevel → LogLevel
sent_level fatal = error
sent_level level = level

pub level_from_string-to_string : (l : LogLevel) → level_from_string (to_string l) ≡ sent_level l
unfolding level_from_string to_string Bytes-discrete ℕ_discrete
level_from_string-to_string trace = refl
level_from_string-to_string debug = refl
level_from_string-to_string info = refl
level_from_string-to_string warn = refl
level_from_string-to_string error = refl
level_from_string-to_string fatal = refl
