-- ===== src/Hardware/Processor.antt =====
-- The processor and the memory: `_cpu_model`, `_ram_gb_total`, `_ram_gb_used`, `_read_stat` and `_cpu_util_pct`.
pub mod Bounds
use minebtx.Prelude.{
  ℕ, zero, suc, ◌*◌, ◌^◌, String, Bool, true, false, not, ◌&&◌, Option, none, some, List, [], ◌∷◌,
  get_elem?, ◌≡◌, refl, str_eq, starts_with, if◌then◌else◌,
}
use minebtx.Prelude.Int.{ℤ, pos, pos_part, neg_part, ◌+ℤ◌, ◌-ℤ◌, ◌*ℤ◌, ltb_ℤ, leb_ℤ}
use minebtx.Py.Result.{Result, ok, err, index_error, ◌>>=◌, or_raise}
use minebtx.Py.Value.{Decimal}
use minebtx.Py.Text.{codes, isdigit, strip_text}
use minebtx.Py.Number.{int_of_text}
use minebtx.Py.Lines.{split, split_once, splitlines, words, text_in}
use minebtx.Py.Round.{round_ratio}

-- The part of a line behind its first colon.
behind_colon : String → Result String
behind_colon line =
    or_raise (elim (split_once b':' line) [ none ↦ none | some (k, v) ↦ some (strip_text v) ])
      index_error

-- The first line that begins with a text.
line_with : String → List String → Option String
line_with s [] = none
line_with s (line ∷ rest) = if starts_with line s then some line else line_with s rest

-- The first line of `wmic` that has a name.
name_line : List String → Option String
name_line [] = none
name_line (line ∷ rest) =
    if not (str_eq (strip_text line) "") && not (text_in "Name" line)
    then some (strip_text line)
    else name_line rest

text_or_none : String → Option String
text_or_none s = if str_eq s "" then none else some s

-- An output that is not empty.
some_output : Option String → Option String
some_output none = none
some_output (some s) = text_or_none s

or_next : Option String → Option String → Option String
or_next (some s) next = some s
or_next none next = next

-- What `platform.system()` says.
pub data System : Type 0 where
  linux darwin windows other_system : System

unfoldable pub is_mac : System → Bool
is_mac System.darwin = true
is_mac system = false

pub command_model : System → Option String → Option String → Option String
command_model System.darwin sysctl wmic = some_output sysctl
command_model System.windows sysctl none = none
command_model System.windows sysctl (some out) = name_line (splitlines out)
command_model system sysctl wmic = none

model_line : Option String → Result (Option String)
model_line none = ok none
model_line (some line) = behind_colon line >>= λ model. ok (some model)

-- The lines of a file that is there.
file_lines : Option String → List String
file_lines none = []
file_lines (some txt) = split b'\n' txt

or_platform : Result (Option String) → Option String → String → Result (Option String)
or_platform (err e) found processor = err e
or_platform (ok (some model)) found processor = ok (some model)
or_platform (ok none) found processor = ok (or_next found (text_or_none processor))

-- `_cpu_model`, on /proc/cpuinfo, the two commands' outputs and `platform.processor()`
pub cpu_model :
    Option String → System → Option String → Option String → String → Result (Option String)
cpu_model cpuinfo system sysctl wmic processor =
    or_platform (model_line (line_with "model name" (file_lines cpuinfo)))
      (command_model system sysctl wmic) processor

-- `int(line.split()[1])`
kilobytes : String → Result ℤ
kilobytes line = or_raise (get_elem? (words line) 1) index_error >>= int_of_text 10

-- A number of kB in GB.
abbrev gigabytes : ℤ → Decimal
gigabytes kb = round_ratio 2 kb (1_024 * 1_024)

sysctl_bytes : Option String → Result (Option Decimal)
sysctl_bytes none = ok none
sysctl_bytes (some out) =
    if isdigit (codes out)
    then (int_of_text 10 out >>= λ n. ok (some (round_ratio 2 n (1_024 ^ 3))))
    else ok none

mac_memory : System → Option String → Result (Option Decimal)
mac_memory System.darwin sysctl = sysctl_bytes sysctl
mac_memory system sysctl = ok none

total_of : Option String → System → Option String → Result (Option Decimal)
total_of none system sysctl = mac_memory system sysctl
total_of (some line) system sysctl = kilobytes line >>= λ kb. ok (some (gigabytes kb))

-- `_ram_gb_total`, on /proc/meminfo and the command's output
pub ram_gb_total : Option String → System → Option String → Result (Option Decimal)
ram_gb_total meminfo system sysctl =
    total_of (line_with "MemTotal:" (file_lines meminfo)) system sysctl

-- What the loop of `_ram_gb_used` has read.
pub record Memory : Type 0 where
  pub total : Option ℤ
  pub available : Option ℤ

memory_line : Memory → String → Result Memory
memory_line m line =
    if starts_with line "MemTotal:"
    then (kilobytes line >>= λ kb. ok (record m { total = some kb }))
    else if starts_with line "MemAvailable:"
    then (kilobytes line >>= λ kb. ok (record m { available = some kb }))
    else ok m

pub memory_lines : Memory → List String → Result Memory
memory_lines m [] = ok m
memory_lines m (line ∷ rest) = memory_line m line >>= λ m'. memory_lines m' rest

used : Option ℤ → Option ℤ → Option Decimal
used (some total) (some available) = some (gigabytes (total -ℤ available))
used total available = none

-- `_ram_gb_used`
pub ram_gb_used : Option String → Result (Option Decimal)
ram_gb_used meminfo =
    memory_lines (record { total = none; available = none }) (file_lines meminfo) >>= λ m.
    ok (used m.total m.available)

-- A machine without /proc/meminfo has no figure.
pub ram_gb_used-none : ram_gb_used none ≡ ok none
unfolding ram_gb_used memory_lines file_lines used
ram_gb_used-none = refl

ints : ℕ → List String → Result (List ℤ)
ints zero ws = ok []
ints (suc n) [] = ok []
ints (suc n) (w ∷ ws) = int_of_text 10 w >>= λ z. ints n ws >>= λ zs. ok (z ∷ zs)

behind_first : List String → List String
behind_first [] = []
behind_first (w ∷ ws) = ws

-- `_read_stat`, on the first line of /proc/stat
pub read_stat : Option String → Result (Option (List ℤ))
read_stat none = ok none
read_stat (some line) =
    if not (starts_with line "cpu ")
    then ok none
    else ints 7 (behind_first (words line)) >>= λ zs. ok (some zs)

unfoldable pub sum_of : List ℤ → ℤ
sum_of [] = pos 0
sum_of (z ∷ zs) = z +ℤ sum_of zs

-- `round(100.0 * (1.0 - idle / total), 1)`
pub busy_share : ℤ → ℤ → Option Decimal
busy_share idle total =
    if leb_ℤ total (pos 0)
    then none
    else some (round_ratio 1 (pos 100 *ℤ (total -ℤ idle)) (pos_part total))

idle_share : Option ℤ → Option ℤ → ℤ → Option Decimal
idle_share (some a) (some b) total = busy_share (b -ℤ a) total
idle_share a b total = none

pub util_of : List ℤ → List ℤ → Option Decimal
util_of a b = idle_share (get_elem? a 3) (get_elem? b 3) (sum_of b -ℤ sum_of a)

both : Result (Option (List ℤ)) → Result (Option (List ℤ)) → Option Decimal
both (ok (some a)) (ok (some b)) = util_of a b
both a b = none

-- `_cpu_util_pct`, on two readings; whatever is raised ends in no figure
pub cpu_util_pct : Option String → Option String → Option Decimal
cpu_util_pct first second = both (read_stat first) (read_stat second)
