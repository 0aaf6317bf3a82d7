-- ===== src/HardwareInfo/Once/Tests.antt =====
-- Accessors called while the files change.
use libnebula.Prelude.{◌≡◌, refl, true, false, some, none, [], ◌∷◌, replicate, ◌++◌}
use libnebula.Text.{strlcpy, copy_loop}
use libnebula.HardwareInfo.{Info}
use libnebula.HardwareInfo.Once.{
  ProcFiles, parse_proc_files, check_and_parse, unknown_text, Accessor, Answer, access_all, access,
  once,
}

abbrev initial : Info
initial = record {
  cpu_model_name = replicate 10 0;
  num_of_processors = 0;
  cpu_cache_size = 0;
  memory_total = 0;
  swap_total = 0;
}

-- No file can be opened at the first call.
abbrev closed : ProcFiles
closed = record { buffer = true; cpuinfo = none; meminfo = none }

abbrev later : ProcFiles
later = record { buffer = true; cpuinfo = none; meminfo = some ([] ∷ []) }

abbrev parsed : Info
parsed = record initial { cpu_model_name = unknown_text ++ 0 ∷ 0 ∷ [] }

check_and_parse_test : check_and_parse closed initial ≡ some parsed
unfolding check_and_parse parse_proc_files strlcpy copy_loop
check_and_parse_test = refl

access_all_test :
    access_all
      ((Accessor.swap_total, closed) ∷ (Accessor.cpu_model_name, later) ∷ [])
      (record { parsed = false; info = initial })
    ≡ some (Answer.number 0 ∷ Answer.text (unknown_text ++ 0 ∷ 0 ∷ []) ∷ [])
unfolding access_all access once check_and_parse parse_proc_files strlcpy copy_loop
access_all_test = refl
