-- ===== src/AppLogger/Message.antt =====
-- LogHandle, include/nebula/app_logger.h and src/app_logger.cc, and how a line of the log is put
-- together in memory, there and in `LogServer::writeLogMessage`.
pub mod Line
pub mod Sent
use Prim.Native.String.{String}
use libnebula.Prelude.{
  ℕ, zero, suc, ◌+◌, ◌-◌, ◌^◌, Bool, true, false, ◌||◌, not, Option, none, some, [], ◌∷◌, ◌++◌, ltb,
  leb, ◌==◌, if◌then◌else◌, length, get_elem?, take, drop,
}
use libnebula.Prelude.Int.{ℤ, pos, negsuc, to_int}
use libnebula.Text.{Bytes, put, strlcpy}
use libnebula.Text.Print.{print_at}
use libnebula.AppLogger.{debug, to_string}

abbrev pub newline : ℕ
newline = 10

-- `size - len` on `size_t`.
abbrev pub room_after : ℕ → ℕ → ℕ
room_after size len = if leb len size then size - len else 2 ^ 64 + size - len

-- `delta >= static_cast<int> (size - len)`, where `delta` is what `vsnprintf` returns.
abbrev pub is_cut : Option Bytes → ℕ → Bool
is_cut none room = elim (to_int room) [ pos r ↦ false | negsuc r ↦ true ]
is_cut (some body) room = elim (to_int room) [ pos r ↦ leb r (length body) | negsuc r ↦ true ]

-- Whether the byte before the index `len` is a newline; there is none before 0.
abbrev pub is_ended : Bytes → ℕ → Option Bool
is_ended buffer zero = none
is_ended buffer (suc n) = elim (get_elem? buffer n) [ none ↦ none | some c ↦ some (c == newline) ]

abbrev pub end_line : Bytes → ℕ → Option Bytes
end_line buffer len = elim (put buffer len newline) [
  | none ↦ none
  | some buffer' ↦ some (take (len + 1) buffer')
]

-- The tests that add a newline, and the bytes that are sent. `limit` is `sizeof` the buffer.
unfoldable pub finish : Bytes → ℕ → ℕ → Option Bytes
finish buffer limit len = elim (len == limit - 1) [
  | true ↦ end_line buffer len
  | false ↦ elim (is_ended buffer len) [
    | none ↦ none
    | some ended ↦ elim ended [ true ↦ some (take len buffer) | false ↦ end_line buffer len ]
  ]
]

-- A line from the texts of the header and of the body, in a buffer that is said to have `size` bytes;
-- a text is `none` where `snprintf` returns a negative number.
unfoldable pub compose : Bytes → ℕ → ℕ → Bytes → Option Bytes → Option Bytes
unfolding finish
compose buffer size limit header body =
    let len = length header in
    let room = room_after size len in
    elim (print_at buffer 0 size header) [
      | none ↦ none
      | some buffer1 ↦ elim body [
        | none ↦ elim len [
          | zero ↦ none
          | suc n ↦ finish buffer1 limit (if is_cut none room then limit - 1 else n)
        ]
        | some text ↦ elim (print_at buffer1 len room text) [
          | none ↦ none
          | some buffer2 ↦
              finish buffer2 limit
                (if is_cut (some text) room then limit - 1 else len + length text)
        ]
      ]
    ]

-- `MAX_MESSAGE_LENDTH`, and the size of the pointer `buffer_` on a machine of 64 bits.
abbrev pub max_message_lendth : ℕ
max_message_lendth = 65536

abbrev pub pointer_size : ℕ
pointer_size = 8

abbrev identity_size : ℕ
identity_size = 64

-- The buffer is `none` while it is NULL.
pub record LogHandle : Type 0 where
  pub log_level : ℕ
  pub conn_fd : ℤ
  pub identity : Bytes
  pub buffer : Option Bytes
  pub buffer_size : ℕ

-- What the logger asks of the system and of the C library. `header` is the text of the time stamp, the
-- name of the level and the identity, as the format of the header arranges them.
pub record Output (W : Type 0) : Type 0 where
  pub malloc : W → ℕ → Option Bytes × W
  pub timestamp : W → Bytes × W
  pub header : Bytes → String → Bytes → Option Bytes
  pub send : W → ℤ → Bytes → ℤ × W

-- The constructor; `none` if it leaves the memory it is given.
unfoldable pub log_handle : Bytes → Bytes → ℕ → Option LogHandle
log_handle array identity level = elim (strlcpy array identity identity_size) [
  | none ↦ none
  | some (array', n) ↦ some (record {
    log_level = level;
    conn_fd = negsuc 0;
    identity = array';
    buffer = none;
    buffer_size = 0;
  })
]

unfoldable pub set_conn_fd : LogHandle → ℕ → LogHandle
set_conn_fd h fd = record h { conn_fd = pos fd }

unfoldable pub set_log_level : LogHandle → ℕ → LogHandle
set_log_level h level = if leb level debug then record h { log_level = level } else h

module _ {W : Type 0} (out : Output W) where
  -- The part of `log` that allocates the buffer; `none` if that fails.
  unfoldable pub with_buffer : LogHandle → W → Option (Bytes × LogHandle) × W
  with_buffer h w = elim h.buffer [
    | some buffer ↦ (some (buffer, h), w)
    | none ↦
        let (memory, w') = out.malloc w max_message_lendth in
        elim memory [
          | none ↦ (none, w')
          | some buffer ↦ (
            some (buffer, record h { buffer = some buffer; buffer_size = max_message_lendth }),
            w',
          )
        ]
  ]

  -- The part after that: what `log` returns, where `body` is the text of the message.
  unfoldable pub send_line : Bytes → LogHandle → ℕ → Option Bytes → W → Option (ℤ × LogHandle × W)
  unfolding compose
  send_line buffer h level body w =
      let (stamp, w') = out.timestamp w in
      elim (ltb h.log_level level) [
        | true ↦ some (pos 0, h, w)
        | false ↦ elim (out.header stamp (to_string (pos level) true) h.identity) [
          | none ↦ some (negsuc 0, h, w')
          | some header ↦ elim (compose buffer h.buffer_size pointer_size header body) [
            | none ↦ none
            | some line ↦ let (sent, w2) = out.send w' h.conn_fd line in some (sent, h, w2)
          ]
        ]
      ]

  -- `none` stands for an access out of bounds. The bytes that `log` leaves in its buffer are never read
  -- again, and are not kept.
  unfoldable pub log : LogHandle → ℕ → Option Bytes → W → Option (ℤ × LogHandle × W)
  unfolding with_buffer send_line
  log h level body w =
      let (ready, w') = with_buffer h w in
      elim ready [
        | none ↦ some (negsuc 0, h, w')
        | some (buffer, h') ↦ send_line buffer h' level body w'
      ]
