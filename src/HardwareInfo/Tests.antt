-- ===== src/HardwareInfo/Tests.antt =====
-- Runs on lines of /proc.
use libnebula.Prelude.{◌≡◌, refl, some, [], ◌∷◌, ◌++◌, arith, replicate}
use libnebula.Text.{copy_loop, strlcpy}
use libnebula.Text.Number.{read_digits, read_sign, read_number, str_to_u64}
use libnebula.Text.Number.Value.{decimal}
use libnebula.HardwareInfo.{
  Info, trim_loop, right_trim, parse_cpu_line, parse_mem_line, parse_cpuinfo, parse_mem_info,
  mem_total, swap_total_text, cache_size, model_name,
}
use libnebula.HardwareInfo.Memory.{kb_line, parse_mem_info_lem}

abbrev unknown : Info
unknown = record {
  cpu_model_name = replicate 4 0;
  num_of_processors = 0;
  cpu_cache_size = 0;
  memory_total = 0;
  swap_total = 0;
}

-- "MemTotal: 8 kB" and "SwapTotal: 3 KB": the second unit is not seen.
parse_mem_info_test :
    parse_mem_info
      ((mem_total ++ 32 ∷ 56 ∷ 32 ∷ 107 ∷ 66 ∷ 10 ∷ 0 ∷ [])
        ∷ (swap_total_text ++ 32 ∷ 51 ∷ 32 ∷ 75 ∷ 66 ∷ 10 ∷ 0 ∷ [])
        ∷ [])
      unknown
    ≡ record unknown { memory_total = 8192; swap_total = 3 }
unfolding parse_mem_info parse_mem_line str_to_u64 read_number read_sign read_digits
parse_mem_info_test = refl

-- "model name : i7\n" and "cache size : 4 KB\n"
parse_cpuinfo_test :
    parse_cpuinfo
      ((model_name ++ 32 ∷ 58 ∷ 32 ∷ 105 ∷ 55 ∷ 10 ∷ 0 ∷ [])
        ∷ (cache_size ++ 32 ∷ 58 ∷ 32 ∷ 52 ∷ 32 ∷ 75 ∷ 66 ∷ 10 ∷ 0 ∷ [])
        ∷ [])
      unknown
    ≡ some (record unknown {
      cpu_model_name = 105 ∷ 55 ∷ 0 ∷ 0 ∷ [];
      num_of_processors = 1;
      cpu_cache_size = 4096;
    })
unfolding parse_cpuinfo parse_cpu_line right_trim trim_loop strlcpy copy_loop str_to_u64 read_number
    read_sign read_digits
parse_cpuinfo_test = refl

-- "MemTotal: 16 kB", a line between, and "SwapTotal:  20 kB".
parse_mem_info_lem_example :
    parse_mem_info
      (kb_line mem_total 1 (1 ∷ 6 ∷ [])
        ∷ (77 ∷ 58 ∷ 0 ∷ [])
        ∷ kb_line swap_total_text 2 (2 ∷ 0 ∷ [])
        ∷ [])
      unknown
    ≡ record unknown { memory_total = 16384; swap_total = 20480 }
unfolding decimal
parse_mem_info_lem_example =
    parse_mem_info_lem [] ((77 ∷ 58 ∷ 0 ∷ []) ∷ []) [] 1 2 1 2 (6 ∷ []) (0 ∷ []) unknown tt
      ((refl, refl), tt) tt (omega arith) (omega arith) (omega arith) (omega arith)
