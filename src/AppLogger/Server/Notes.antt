-- ===== src/AppLogger/Server/Notes.antt =====
-- What the server writes about itself.
use libnebula.Prelude.{
  ℕ, ◌-◌, ◌≤◌, ◌<◌, ◌≡◌, refl, ap, ◌∙◌, true, some, [], ◌∷◌, ◌++◌, arith, length, take,
  length-append, length-take, Each,
}
use libnebula.Prelude.Int.{pos}
use libnebula.Text.{Bytes}
use libnebula.AppLogger.{to_string}
use libnebula.AppLogger.LogFile.{write_message}
use libnebula.AppLogger.Message.{newline, compose}
use libnebula.AppLogger.Message.Line.{line, compose_lem}
use libnebula.AppLogger.Server.{Note, LogServer, Calls, line_size, write_log_message, noted}

line-length : (size : ℕ) (text : Bytes) → 0 < size → length (line size size text) ≤ size
line-length size text h = ground (
  arith,
  length-append text (newline ∷ []),
  length-append (take (size - 1) text) (newline ∷ []),
  length-take (size - 1) text,
)

module _ {V : Type 0} (calls : Calls V) where
  -- `writeLogMessage`, for a header that is not empty and fits in the array of 4096 bytes, writes
  -- one line of at most 4096 bytes into the log file: the header and the message, with a newline
  -- behind them if the message has none or they are 4095 bytes, and cut to 4095 bytes and a newline
  -- if they are more.
  pub write_log_message_lem :
      (level : ℕ) (note : Note) (self : LogServer) (v : V) (header body : Bytes)
      → length (calls.stack (calls.timestamp v).1) ≡ line_size
      → calls.header (calls.timestamp v).0 (to_string (pos level) true) ≡ some header
      → calls.body note ≡ some body
      → 0 < length header
      → length header < line_size
      → (let (nw, file', v') =
            write_message calls.files self.file
              (line line_size line_size (header ++ body))
              (calls.timestamp v).1 in
          write_log_message calls level note (self, v)
          ≡ some (nw, record self { file = file' }, v'))
        × (length (line line_size line_size (header ++ body)) ≤ line_size)
  unfolding write_log_message
  write_log_message_lem level note self v header body room e b some_text short =
      let composed : compose (calls.stack (calls.timestamp v).1) line_size line_size header
            (calls.body note)
          ≡ some (line line_size line_size (header ++ body)) =
        ap (compose (calls.stack (calls.timestamp v).1) line_size line_size header) b
        ∙ compose_lem (calls.stack (calls.timestamp v).1) line_size line_size header body some_text
            short (omega arith) (omega arith) (omega arith) (omega arith) in
      (
        rw (e, write_log_message) (rw composed refl),
        line-length line_size (header ++ body) (omega arith),
      )

  -- A note changes the file alone.
  pub noted-Keeps :
      (level : ℕ) (note : Note) (w : LogServer × V)
      → Each (noted calls level note w) (λ r. (r.0.ready ≡ w.0.ready) × (r.0.stop ≡ w.0.stop))
  unfolding write_log_message
  noted-Keeps level note (self, v) = ground arith
