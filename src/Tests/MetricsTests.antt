-- ===== src/Tests/MetricsTests.antt =====
-- metrics at concrete inputs.
use llm_server_manager.Base.{
  ◌≡◌, refl, Option, none, some, List, [], ◌∷◌, ℕ, true, codes, length, Float64, float_of,
  if◌then◌else◌, if_cases, ltb_float, String, inr,
}
use llm_server_manager.Fleet.Port.{digits_value}
use llm_server_manager.Metrics.Words.{lines, fields, split_by, has_prefix, parse_uint}
use llm_server_manager.Metrics.Cpu.{parse_proc_stat, totals_of_line, totals, add_fields, Sampler}
use llm_server_manager.Metrics.Memory.{
  read_memory, add_lines, add_value, available_bytes, stats_of, MemoryStats,
}
use llm_server_manager.Metrics.Gpu.{
  GpuStats, parse_nvidia, add_rows, read_row, add_row, parse_mib, trim, trim_front, trim_back,
  clamp_percent, gpu_snapshot,
}
use mathlib.Core.List.{Permᴰ}
use llm_server_manager.Metrics.Rocm.{
  Card, number, text, parse_rocm, add_cards, card_row, find_number, find_string, contains,
  trim_percent,
}
use llm_server_manager.Metrics.RocmOrder.{SameSums, parse_rocm-order}
use llm_server_manager.Metrics.GpuRows.{IsPercent}
use llm_server_manager.Metrics.Ioreg.{
  parse_ioreg, apple_gpu, utilizations, find_numbers, number_at, value_at, behind, behind_equals,
  skip_blanks, take_front, find_quoted, quoted_at, raise_all, add_memories, core_count, atoi,
}
use llm_server_manager.Metrics.Sysctl.{sysctl_load, trim_braces, braces_front, braces_back}
use llm_server_manager.Metrics.Round.{FloatOps}
use llm_server_manager.Metrics.Collect.{read_floats, Tools, Host, Arith, collect_gpu, make_snapshot}
use llm_server_manager.Metrics.Darwin.{
  read_memory_darwin, used_of, add_pages, page_size, find_page_size, cut_colon, trim_suffix,
}
use llm_server_manager.Metrics.Bounds.{
  InRange, Fits, Poll, polled, Monotone, Within, make_snapshot-InRange,
}

with_guest : parse_proc_stat (codes "intr 7\ncpu  1 2 3 4 5 6 7 8 9 9\n") ≡ some (36, 9)
unfolding parse_proc_stat totals_of_line totals add_fields lines fields split_by has_prefix
    parse_uint digits_value
with_guest = refl

abbrev first_only : ℕ → ℕ → ℕ
first_only a b = a

abbrev sampled : Sampler ℕ
sampled = record { prev_total = 100; prev_idle = 40; primed = true; last_at = 7; last_usage = 0 }

abbrev meminfo : List ℕ
meminfo = codes "MemTotal:  100 kB\nMemFree: 30 kB\nMemAvailable: 60 kB\n"

memory_used :
    read_memory 0 first_only (some meminfo)
    ≡ record { used_bytes = 40960; total_bytes = 102400; usage_percent = 40960 }
unfolding read_memory add_lines add_value available_bytes stats_of lines fields split_by parse_uint
    digits_value
memory_used = refl

-- Reads "50" and "8".
abbrev known_float : List ℕ → Option Float64
known_float (c ∷ d ∷ []) = some (float_of 50)
known_float (c ∷ []) = some (float_of 8)
known_float _ = none

abbrev same_float : Float64 → Float64
same_float v = v

abbrev eight : Float64 → ℕ
eight v = 8388608

abbrev two_cards : List ℕ
two_cards = codes "A, 50, 8, 8\nB, 50, N/A, 8\n\n"

cards :
    parse_nvidia known_float same_float eight two_cards
    ≡ some (record {
      usage_percent = float_of 50;
      memory_used_bytes = 8388608;
      memory_total_bytes = 16777216;
      name = codes "A";
      count = 2;
    })
unfolding parse_nvidia add_rows read_row add_row parse_mib trim trim_front trim_back clamp_percent
    lines split_by ltb_float
cards = refl

cached_gpu : ◌≡◌ {A = ℕ} (gpu_snapshot {G = ℕ} 5 30 31 (record { gpu = 4; at = some 20 })).1 4
unfolding gpu_snapshot
cached_gpu = refl

abbrev same_case : List ℕ → List ℕ
same_case s = s

abbrev card_a : Card
card_a =
    (codes "gpu use (%)", number (float_of 50))
    ∷ (codes "vram total memory (b)", text (codes "8"))
    ∷ []

abbrev card_b : Card
card_b = (codes "vram total used memory (b)", text (codes "8")) ∷ []

abbrev found_gpu : GpuStats
found_gpu = record {
  usage_percent = float_of 50;
  memory_used_bytes = 8388608;
  memory_total_bytes = 8388608;
  name = [];
  count = 2;
}

both_cards :
    parse_rocm same_case known_float same_float eight (card_a ∷ card_b ∷ []) ≡ some found_gpu
unfolding parse_rocm add_cards card_row find_number find_string contains trim_percent trim
    trim_front trim_back has_prefix add_row clamp_percent ltb_float
both_cards = refl

parse_rocm-order_example :
    IsPercent found_gpu.usage_percent
    × ((h : GpuStats) × (parse_rocm same_case known_float same_float eight (card_b ∷ card_a ∷ [])
          ≡ some h)
        × SameSums found_gpu h)
parse_rocm-order_example =
    parse_rocm-order same_case known_float same_float eight (λ v p. p) (card_a ∷ card_b ∷ [])
      (card_b ∷ card_a ∷ []) (Permᴰ.swap refl refl) found_gpu both_cards

abbrev ioreg_text : List ℕ
ioreg_text =
    codes
      "\"model\" = \"Apple M2\"\n\"gpu-core-count\" = 10 {\"Device Utilization %\"=8,\"In use system memory\"=77}"

apple_read :
    parse_ioreg known_float same_float ioreg_text
    ≡ some (record {
      stats = record {
        usage_percent = float_of 8;
        memory_used_bytes = 77;
        memory_total_bytes = 0;
        name = codes "Apple M2";
        count = 1;
      };
      core_count = 10;
    })
unfolding parse_ioreg apple_gpu utilizations find_numbers number_at value_at behind behind_equals
    skip_blanks take_front find_quoted quoted_at raise_all add_memories core_count atoi parse_uint
    digits_value clamp_percent ltb_float
apple_read = refl

abbrev to_float : ℕ → ℕ → Float64
to_float a b = float_of 50

abbrev vm_stat_text : List ℕ
vm_stat_text =
    codes
      "Mach Virtual Memory Statistics: (page size of 16384 bytes)\nPages active:  3.\nPages wired down: 2."

pages_read :
    read_memory_darwin (float_of 0) to_float (some (codes "1000000\n")) (some vm_stat_text)
    ≡ record { used_bytes = 81920; total_bytes = 1000000; usage_percent = float_of 50 }
unfolding read_memory_darwin used_of add_pages page_size find_page_size cut_colon trim_suffix lines
    split_by trim trim_front trim_back parse_uint digits_value behind take_front
pages_read = refl

abbrev same_codes : List ℕ → List ℕ
same_codes s = s

-- A coarse arithmetic, in which round1 makes 0 or 100 of a percentage.
abbrev coarse_times : Float64 → Float64 → Float64
coarse_times v w = if ltb_float v (float_of 50) then float_of 0 else float_of 1000

abbrev coarse_divide : Float64 → Float64 → Float64
coarse_divide v w = if ltb_float v (float_of 500) then float_of 0 else float_of 100

abbrev coarse : FloatOps
coarse = record { times = coarse_times; divide = coarse_divide; round = same_float }

coarse-Monotone : Monotone coarse
unfolding ltb_float
coarse-Monotone = record {
  times_ten = λ v h.
      if_cases (Within 0 1000) (ltb_float v (float_of 50)) (λ _. (refl, refl, refl))
        (λ _. (refl, refl, refl));
  rounded = λ v h. h;
  by_ten = λ v h.
      if_cases (Within 0 100) (ltb_float v (float_of 500)) (λ _. (refl, refl, refl))
        (λ _. (refl, refl, refl));
}

abbrev sums : Arith
sums = record {
  parse_float = known_float;
  floats = coarse;
  mib_to_bytes = eight;
  lower = same_codes;
  truncate = eight;
}

abbrev no_path : String → Option String
no_path s = none

abbrev no_output : String → Option (List ℕ)
no_output s = none

abbrev mac_tools : Tools
mac_tools = record {
  look_path = no_path;
  run_nvidia = no_output;
  rocm = none;
  ioreg = some ioreg_text;
}

abbrev mac : Host
mac = record { cores = 8; cpu_model = codes "Apple M2"; hostname = "mac" }

abbrev mac_memory : MemoryStats Float64
mac_memory = read_memory_darwin (float_of 0) to_float (some (codes "1000000\n")) (some vm_stat_text)

abbrev earlier : List Poll
earlier = record { tools = mac_tools; now = 2; later = 3 } ∷ []

make_snapshot-InRange_example :
    let gpu = (gpu_snapshot (collect_gpu sums mac_tools true) 5 6 (polled sums true earlier)).1 in
    let s = make_snapshot coarse mac (float_of 8) mac_memory none gpu 6 in
    IsPercent s.cpu_usage
    × IsPercent s.memory.usage_percent
    × Fits s.memory
    × InRange s.gpu
    × ((vs : List Float64) → s.load ≡ some vs → length vs ≡ 3)
make_snapshot-InRange_example =
    make_snapshot-InRange sums coarse-Monotone to_float true earlier mac_tools mac (float_of 8)
      mac_memory none 5 6 (inr (some (codes "1000000\n"), some vm_stat_text, refl))

-- Reads a word as the number of its characters.
abbrev width : List ℕ → Option Float64
width w = some (float_of (length w))

load_read :
    sysctl_load width same_float (some (codes "{ 1 22 333 }\n"))
    ≡ some (float_of 1 ∷ float_of 2 ∷ float_of 3 ∷ [])
unfolding sysctl_load trim_braces braces_front braces_back read_floats fields split_by trim
    trim_front trim_back
load_read = refl
