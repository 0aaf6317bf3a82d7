-- ===== src/AppLogger/Tests.antt =====
-- Runs of the logger on small systems.
mod Serving
use libnebula.Prelude.{
  ℕ, ◌+◌, ◌≡◌, refl, Bool, true, false, none, some, List, [], ◌∷◌, ◌++◌, arith, ltb, leb,
  if◌then◌else◌, length, take, drop, replicate, length-replicate, sym, ap, ◌∙◌,
}
use libnebula.Prelude.Int.{ℤ, pos, negsuc}
use libnebula.Text.{Bytes, put, copy_loop, strlcpy, find_end, cat_loop, strlcat}
use libnebula.Text.Chars.{strncmp_eq, ends_with}
use libnebula.Text.Slash.{start_dir}
use libnebula.AppLogger.{debug, to_string}
use libnebula.AppLogger.LogFile.{
  path_max, FileHandle, Files, file_handle, open_file, set_dir, set_format, cleared, set_config,
  fsync_to_disk, close_fd, write_message, switch_file, destroy,
}
use libnebula.AppLogger.LogFile.Count.{write_messages, write_plain, set_config-NeverSyncs}
use libnebula.AppLogger.LogFile.Path.{path, opened, switch_file_lem}
use libnebula.AppLogger.Message.{
  newline, max_message_lendth, LogHandle, Output, log_handle, set_conn_fd, set_log_level, finish,
  compose, log,
}
use libnebula.AppLogger.Message.Line.{is_ended_text}
use libnebula.AppLogger.Message.Sent.{log_lem}

-- The number of an `fsync` and of a `write` that were made.
abbrev World : Type 0
World = ℕ × ℕ

abbrev files : Files World
files = record {
  format_time = λ w f. (98 ∷ 0 ∷ [], w);
  mkstemp = λ w t. (some 5, t, w);
  open_tty = λ w. (some 3, w);
  write = λ w fd m. (some (length m), (w.0, w.1 + 1));
  fsync = λ w fd. (w.0 + 1, w.1);
  close = λ w fd. w;
}

abbrev format_memory : Bytes
format_memory = replicate 29 9

abbrev format_text : Bytes
format_text =
    97 ∷ 95 ∷ 37 ∷ 89 ∷ 46 ∷ 37 ∷ 109 ∷ 46 ∷ 37 ∷ 100 ∷ 46 ∷ 37 ∷ 72 ∷ 46 ∷ 37 ∷ 77 ∷ 46 ∷ 37 ∷ 83
    ∷ 95 ∷ 88 ∷ 88 ∷ 88 ∷ 88 ∷ 88 ∷ 88 ∷ 0 ∷ 9 ∷ 9 ∷ []

-- A log file of "/" with the prefix "a".
abbrev configured : FileHandle
configured = record {
  log_file = 47 ∷ 98 ∷ 0 ∷ 9 ∷ [];
  format = format_text;
  fd = pos 5;
  num_write = 0;
  max_write = 0;
  path_len = 1;
}

set_config_test :
    set_config files
      (file_handle (replicate 4 9) format_memory)
      (some (47 ∷ 0 ∷ []))
      (some (97 ∷ 0 ∷ []))
      1
      (0, 0)
    ≡ some (configured, (0, 0))
unfolding start_dir set_config cleared set_dir set_format open_file file_handle strlcpy copy_loop
    strlcat find_end cat_loop ends_with strncmp_eq
set_config_test = refl

-- The log file was opened to be forced to the disk after every message, and is not.
set_config-NeverSyncs_example :
    (n : ℕ) × (write_messages files configured ((104 ∷ []) ∷ (105 ∷ []) ∷ []) (0, 0) ≡ (
      record configured { num_write = n },
      write_plain files 5 ((104 ∷ []) ∷ (105 ∷ []) ∷ []) (0, 0),
    ))
set_config-NeverSyncs_example =
    set_config-NeverSyncs files (replicate 4 9) format_memory (some (47 ∷ 0 ∷ []))
      (some (97 ∷ 0 ∷ [])) 1 (0, 0) (0, 0) configured 5 ((104 ∷ []) ∷ (105 ∷ []) ∷ [])
      set_config_test refl (omega arith)

-- The file "/old" is left for one of the current time, "/b".
abbrev old_file : FileHandle
old_file = record {
  log_file = (47 ∷ []) ++ 111 ∷ replicate 4094 0;
  format = format_text;
  fd = pos 5;
  num_write = 3;
  max_write = 3;
  path_len = 1;
}

switch_file_lem_example :
    switch_file files old_file (0, 0)
    ≡ some (
        opened files
          (record old_file { num_write = 0 })
          (path (47 ∷ []) (replicate 4094 0) (98 ∷ []))
          (1, 0))
switch_file_lem_example =
    switch_file_lem files old_file (47 ∷ []) (replicate 4094 0) (98 ∷ []) [] 111 (0, 0) (1, 0) refl
      refl (omega arith) (omega (arith, length-replicate {A = ℕ} 4094 0)) (omega arith, tt)
      (omega arith, tt) refl

destroy_test : destroy files old_file (0, 3) ≡ (1, 3)
unfolding destroy
destroy_test = refl

-- A connection that sends into a list.
abbrev output : Output (List Bytes)
output = record {
  malloc = λ w n. (some (replicate n 0), w);
  timestamp = λ w. (116 ∷ [], w);
  header = λ stamp name identity. some (91 ∷ 116 ∷ 32 ∷ 101 ∷ 114 ∷ 114 ∷ 32 ∷ 105 ∷ 93 ∷ []);
  send = λ w fd line. (pos (length line), line ∷ w);
}

abbrev handle : LogHandle
handle = record {
  log_level = 5;
  conn_fd = pos 4;
  identity = 105 ∷ 0 ∷ [];
  buffer = some (replicate 65536 0);
  buffer_size = max_message_lendth;
}

abbrev header_text : Bytes
header_text = 91 ∷ 116 ∷ 32 ∷ 101 ∷ 114 ∷ 114 ∷ 32 ∷ 105 ∷ 93 ∷ []

log_lem_example : log output handle 3 (some (104 ∷ [])) [] ≡ (
    if ltb 5 3
    then some (pos 0, handle, [])
    else (let (sent, w') = output.send [] (pos 4) (
          if leb max_message_lendth (length (header_text ++ 104 ∷ []))
          then take 7 header_text ++ newline ∷ []
          else if is_ended_text (header_text ++ 104 ∷ [])
          then header_text ++ 104 ∷ []
          else header_text ++ 104 ∷ [] ++ newline ∷ []) in
        some (sent, handle, w')))
log_lem_example =
    log_lem output handle [] 3 (replicate 65536 0) header_text (104 ∷ []) refl refl
      (length-replicate {A = ℕ} 65536 0) refl (omega arith) (omega arith)

-- With 12 bytes of room the text "ab" + "cdefghijkl" keeps 7 characters on a pointer of 8 bytes.
compose_test :
    compose
      (replicate 12 0)
      12
      8
      (97 ∷ 98 ∷ [])
      (some (99 ∷ 100 ∷ 101 ∷ 102 ∷ 103 ∷ 104 ∷ 105 ∷ 106 ∷ 107 ∷ 108 ∷ []))
    ≡ some (97 ∷ 98 ∷ 99 ∷ 100 ∷ 101 ∷ 102 ∷ 103 ∷ 10 ∷ [])
unfolding compose finish
compose_test = refl

set_log_level_test : set_log_level (set_log_level handle 8) 7 ≡ record handle { log_level = 7 }
unfolding set_log_level
set_log_level_test = refl

log_handle_test :
    log_handle (9 ∷ 9 ∷ []) (105 ∷ 0 ∷ []) 5
    ≡ some (record {
      log_level = 5;
      conn_fd = negsuc 0;
      identity = 105 ∷ 0 ∷ [];
      buffer = none;
      buffer_size = 0;
    })
unfolding log_handle strlcpy copy_loop
log_handle_test = refl
