-- ===== src/AppLogger/Message/Sent.antt =====
-- What `LogHandle::log` sends.
use libnebula.Prelude.{
  ℕ, ◌≤◌, ◌<◌, ◌≡◌, refl, ap, ◌∙◌, Bool, true, false, not, Option, none, some, [], ◌∷◌, ◌++◌, arith,
  ltb, leb, ◌==◌, if◌then◌else◌, length, take, length-append, Bool-cases, inl, inr,
}
use libnebula.Prelude.Int.{pos, negsuc}
use libnebula.Text.{Bytes}
use libnebula.AppLogger.{to_string}
use libnebula.AppLogger.Message.{
  newline, max_message_lendth, pointer_size, LogHandle, Output, compose, with_buffer, send_line,
  log,
}
use libnebula.AppLogger.Message.Line.{line, is_ended_text, take-append, compose_lem}

if-not : (b : Bool) (x y : Bytes) → (if not b then x else y) ≡ (if b then y else x)
if-not true x y = refl
if-not false x y = refl

line-long :
    (header body : Bytes)
    → pointer_size ≤ length header
    → line max_message_lendth pointer_size (header ++ body) ≡ (
        if leb max_message_lendth (length (header ++ body))
        then take 7 header ++ newline ∷ []
        else if is_ended_text (header ++ body)
        then header ++ body
        else header ++ body ++ newline ∷ [])
line-long header body h =
    let more : (length (header ++ body) == 7) ≡ false = ground (arith, length-append header body) in
    rw (more, take-append header body 7 (omega arith))
      (ap
        (λ l.
          if leb max_message_lendth (length (header ++ body))
          then take 7 header ++ newline ∷ []
          else l)
        (if-not (is_ended_text (header ++ body)) _ _))

module _ {W : Type 0} (out : Output W) (h : LogHandle) (w : W) where
  with_buffer-none :
      (w' : W)
      → h.buffer ≡ none
      → out.malloc w max_message_lendth ≡ (none, w')
      → with_buffer out h w ≡ (none, w')
  unfolding with_buffer
  with_buffer-none w' e m = simp (e, with_buffer) (rw (ap (λ r. r.0) m, ap (λ r. r.1) m) refl)

  with_buffer-some :
      (buffer : Bytes) → h.buffer ≡ some buffer → with_buffer out h w ≡ (some (buffer, h), w)
  unfolding with_buffer
  with_buffer-some buffer e = simp (e, with_buffer) refl

  -- `log` on a handle without a buffer returns -1 if `malloc` fails, whatever the message and its
  -- level; and it neither sends anything nor changes the handle.
  log-no_memory :
      (level : ℕ) (body : Option Bytes) (w' : W)
      → h.buffer ≡ none
      → out.malloc w max_message_lendth ≡ (none, w')
      → log out h level body w ≡ some (negsuc 0, h, w')
  unfolding log
  log-no_memory level body w' e m =
      let b = with_buffer-none w' e m in rw (ap (λ r. r.0) b, ap (λ r. r.1) b, log) refl

  module _ (level : ℕ) (buffer header body : Bytes) where
    send_line_lem :
        h.buffer_size ≡ max_message_lendth
        → length buffer ≡ max_message_lendth
        → out.header (out.timestamp w).0 (to_string (pos level) true) h.identity ≡ some header
        → 0 < length header
        → length header < max_message_lendth
        → send_line out buffer h level (some body) w ≡ (
            if ltb h.log_level level
            then some (pos 0, h, w)
            else (let (sent, w') =
                  out.send
                    (out.timestamp w).1
                    h.conn_fd
                    (line max_message_lendth pointer_size (header ++ body)) in
                some (sent, h, w')))
    unfolding send_line
    send_line_lem size room e some_text short = elim (Bool-cases (ltb h.log_level level)) [
      | inl above ↦ rw (above, send_line) refl
      | inr due ↦
          let sent =
            ap (λ n. compose buffer n pointer_size header (some body)) size
            ∙ compose_lem buffer max_message_lendth pointer_size header body some_text short
                (omega arith) (omega arith) (omega arith) (omega arith) in
          rw (due, send_line) (rw e (rw sent refl))
    ]

    -- `log` on a handle that has its buffer, for a header of at least 8 bytes that fits in it,
    -- sends nothing and returns 0 if the level is above that of the handle; else it sends, in one
    -- call, the header and the message, with a newline if the message does not end in one, or, if
    -- the two do not fit in the buffer with a final NUL, only 7 characters of the header and a
    -- newline; and it returns what `send` returns.
    pub log_lem :
        h.buffer ≡ some buffer
        → h.buffer_size ≡ max_message_lendth
        → length buffer ≡ max_message_lendth
        → out.header (out.timestamp w).0 (to_string (pos level) true) h.identity ≡ some header
        → pointer_size ≤ length header
        → length header < max_message_lendth
        → log out h level (some body) w ≡ (
            if ltb h.log_level level
            then some (pos 0, h, w)
            else (let (sent, w') = out.send (out.timestamp w).1 h.conn_fd (
                  if leb max_message_lendth (length (header ++ body))
                  then take 7 header ++ newline ∷ []
                  else if is_ended_text (header ++ body)
                  then header ++ body
                  else header ++ body ++ newline ∷ []) in
                some (sent, h, w')))
    unfolding log
    log_lem have size room e some_text short =
        let b = with_buffer-some buffer have in
        rw (ap (λ r. r.0) b, ap (λ r. r.1) b, log)
          (send_line_lem size room e (omega arith) short
            ∙ ap
                (λ l.
                  if ltb h.log_level level
                  then some (pos 0, h, w)
                  else (let (sent, w') = out.send (out.timestamp w).1 h.conn_fd l in
                      some (sent, h, w')))
                (line-long header body some_text))
