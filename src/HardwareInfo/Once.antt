-- ===== src/HardwareInfo/Once.antt =====
-- The static fields and the five accessors of HardwareInfo, which parse the files at the first call.
mod Tests
use libnebula.Prelude.{
  ℕ, zero, suc, ◌≡◌, refl, ap, ◌∙◌, Bool, true, false, Option, none, some, List, [], ◌∷◌, map,
  if◌then◌else◌,
}
use libnebula.Text.{Bytes, strlcpy}
use libnebula.HardwareInfo.{Info, parse_cpuinfo, parse_mem_info}

-- What `parseProcFiles` finds: whether `malloc` gives a buffer, and the lines of the two files, `none`
-- for a file that does not open.
pub record ProcFiles : Type 0 where
  pub buffer : Bool
  pub cpuinfo : Option (List Bytes)
  pub meminfo : Option (List Bytes)

abbrev cpu_part : Option (List Bytes) → Info → Option Info
cpu_part none info = some info
cpu_part (some lines) info = parse_cpuinfo lines info

abbrev mem_part : Option (List Bytes) → Info → Info
mem_part none info = info
mem_part (some lines) info = parse_mem_info lines info

unfoldable pub parse_proc_files : ProcFiles → Info → Option Info
parse_proc_files files info =
    if files.buffer
    then elim (cpu_part files.cpuinfo info) [
      | none ↦ none
      | some info' ↦ some (mem_part files.meminfo info')
    ]
    else some info

-- "unknown"
abbrev pub unknown_text : Bytes
unknown_text = 117 ∷ 110 ∷ 107 ∷ 110 ∷ 111 ∷ 119 ∷ 110 ∷ 0 ∷ []

unfoldable pub check_and_parse : ProcFiles → Info → Option Info
unfolding parse_proc_files
check_and_parse files info = elim (strlcpy info.cpu_model_name unknown_text 1024) [
  | none ↦ none
  | some (name, n) ↦ parse_proc_files files (record info { cpu_model_name = name })
]

-- `parsed_` and the fields.
pub record Statics : Type 0 where
  pub parsed : Bool
  pub info : Info

-- `pthread_once(&parsed_, checkAndParse)`
unfoldable pub once : ProcFiles → Statics → Option Statics
once files s = if s.parsed then some s else elim (check_and_parse files s.info) [
  | none ↦ none
  | some info ↦ some (record { parsed = true; info = info })
]

-- The accessors, and what they return: a text or a number.
pub data Accessor : Type 0 where
  cpu_model_name num_of_processors cpu_cache_size memory_total swap_total : Accessor

pub data Answer : Type 0 where
  text : Bytes → Answer
  number : ℕ → Answer

abbrev pub field : Accessor → Info → Answer
field cpu_model_name info = text info.cpu_model_name
field num_of_processors info = number info.num_of_processors
field cpu_cache_size info = number info.cpu_cache_size
field memory_total info = number info.memory_total
field swap_total info = number info.swap_total

-- A call of an accessor, where the files are as they are at that time.
unfoldable pub access : Accessor → ProcFiles → Statics → Option (Answer × Statics)
access a files s = elim (once files s) [ none ↦ none | some s' ↦ some (field a s'.info, s') ]

-- Calls in a row.
pub access_all : List (Accessor × ProcFiles) → Statics → Option (List Answer)
unfolding access
access_all [] s = some []
access_all ((a, files) ∷ calls) s = elim (access a files s) [
  | none ↦ none
  | some (answer, s') ↦ elim (access_all calls s') [
    | none ↦ none
    | some answers ↦ some (answer ∷ answers)
  ]
]

access_all-parsed :
    (calls : List (Accessor × ProcFiles)) (info : Info)
    → access_all calls (record { parsed = true; info = info })
      ≡ some (map (λ c. field c.0 info) calls)
unfolding access_all once
access_all-parsed [] info = refl
access_all-parsed ((a, files) ∷ calls) info = rw (access_all-parsed calls info, access_all) refl

once-first :
    (files : ProcFiles) (info info' : Info)
    → check_and_parse files info ≡ some info'
    → once files (record { parsed = false; info = info })
      ≡ some (record { parsed = true; info = info' })
unfolding once
once-first files info info' parsed = rw (parsed, once) refl

access-first :
    (a : Accessor) (files : ProcFiles) (info info' : Info)
    → check_and_parse files info ≡ some info'
    → access a files (record { parsed = false; info = info })
      ≡ some (field a info', record { parsed = true; info = info' })
unfolding access
access-first a files info info' parsed = rw (once-first files info info' parsed, access) refl

-- The files are read once: whatever they hold when accessors are called later, every call returns the
-- field that the first call has parsed.
access_all-Once :
    (a : Accessor) (files : ProcFiles) (calls : List (Accessor × ProcFiles)) (info info' : Info)
    → check_and_parse files info ≡ some info'
    → access_all ((a, files) ∷ calls) (record { parsed = false; info = info })
      ≡ some (field a info' ∷ map (λ c. field c.0 info') calls)
unfolding access_all
access_all-Once a files calls info info' parsed =
    rw (access-first a files info info' parsed, access_all)
      (rw (access_all-parsed calls info', access_all) refl)
