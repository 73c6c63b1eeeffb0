-- ===== src/Logging.antt =====
-- logging.go: which lines the logger of a part of the package prints. The formatting of a line is the
-- caller's: a line is a text.
use trivialt.Prelude.{[], ◌++◌, Option, none, some, Bool, true, false, not, if◌then◌else◌}
use trivialt.Prelude.Bytes.{Bytes, bytes_eq, codes}

-- `debug` and `trace`
pub record Levels : Type 0 where
  pub debugging : Bool
  pub tracing : Bool

-- `init`, on the environment.
pub init : (Bytes → Bytes) → Levels
init getenv =
    let l : Levels = record {
      debugging = not (bytes_eq (getenv (codes "TRIVIALT_DEBUG")) []);
      tracing = false;
    } in
    if not (bytes_eq (getenv (codes "TRIVIALT_TRACE")) [])
    then record { debugging = true; tracing = true }
    else l

-- `logger`
pub record Logger : Type 0 where
  pub prefix : Bytes
  pub d : Bool
  pub t : Bool

-- `newLogger`
pub new_logger : Levels → Bytes → Logger
new_logger l name = record {
  prefix = codes "trivialt|" ++ (if bytes_eq name [] then [] else name ++ codes "|");
  d = l.debugging;
  t = l.tracing;
}

-- The line that a call prints behind the file and the line number, if it prints one.
pub debug : Logger → Bytes → Option Bytes
debug l line = if l.d then some (l.prefix ++ (codes "[DEBUG] " ++ line)) else none

pub trace : Logger → Bytes → Option Bytes
trace l line = if l.t then some (l.prefix ++ (codes "[TRACE] " ++ line)) else none

pub err : Logger → Bytes → Option Bytes
err l line = some (l.prefix ++ (codes "[ERROR] " ++ line))
