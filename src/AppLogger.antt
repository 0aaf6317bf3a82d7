-- ===== src/AppLogger.antt =====
-- nebula::LogModule, include/nebula/app_logger.h and src/app_logger.cc: the levels of messages. The
-- children model the file that messages go to, the composition of a line, and the server.
pub mod Masks
pub mod LogFile
pub mod Message
pub mod Server
mod Tests
use Prim.Native.String.{String}
use libnebula.Prelude.{ℕ, ◌+◌, ◌-◌, ◌^◌, Bool, true, false, leb, ◌==◌, if◌then◌else◌}
use libnebula.Prelude.Int.{ℤ, pos, negsuc}

-- `LogLevel::Constants`, from EMERG to DEBUG.
abbrev emerg : ℕ
emerg = 0

abbrev pub err : ℕ
err = 3

abbrev pub notice : ℕ
notice = 5

abbrev pub debug : ℕ
debug = 7

-- The names of a level, in full and abbreviated.
abbrev pub names : ℕ → String × String
names c =
    if c == 0
    then ("emerg", "eme")
    else if c == 1
    then ("alert", "ale")
    else if c == 2
    then ("crit", "cri")
    else if c == 3
    then ("err", "err")
    else if c == 4
    then ("warning", "war")
    else if c == 5
    then ("notice", "not")
    else if c == 6
    then ("info", "inf")
    else if c == 7
    then ("debug", "deb")
    else ("<unknown>", "<?>")

unfoldable pub to_string : ℤ → Bool → String
to_string (pos c) abbr = if abbr then (names c).1 else (names c).0
to_string (negsuc c) abbr = if abbr then "<?>" else "<unknown>"

unfoldable pub log_mask : ℤ → ℕ
log_mask (pos level) = if leb level debug then 2 ^ level else 0
log_mask (negsuc level) = 0

unfoldable pub log_upto : ℤ → ℕ
log_upto (pos level) = if leb level debug then 2 ^ (level + 1) - 1 else 0
log_upto (negsuc level) = 0
