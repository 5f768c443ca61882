-- ===== src/Collectors/Cpu.antt =====
-- collectors/linux_cpu.go: the CPU facts from what `lscpu` prints. The decoding of its JSON is a parameter.
use rewsr_maxfields.Base.{◌&&◌, Option, none, some, List, [], ◌∷◌, Str, str, str_eq, if◌then◌else◌}
use rewsr_maxfields.Base.Dict.{Dict, insert, at}
use rewsr_maxfields.Base.Int.{ℤ, pos, ◌*ℤ◌, wrap, is_pos}
use rewsr_maxfields.Text.Cut.{trim_suffix}
use rewsr_maxfields.Facts.Types.{ServerFacts, CpuFacts}
use rewsr_maxfields.Facts.Build.{Result, ok, err}
use rewsr_maxfields.Collectors.Host.{Tools, require_command, atoi_or_zero}

-- `lscpuJSON`: the fields with their data.
unfoldable pub cpu_fields : List (Str × Str) → Dict Str Str → Dict Str Str
cpu_fields [] fields = fields
cpu_fields ((field, text) ∷ entries) fields =
    cpu_fields entries (insert (trim_suffix field (str ":")) text fields)

-- A product of `int`, if both factors are positive.
unfoldable pub total_cores : ℤ → ℤ → ℤ
total_cores sockets per_socket =
    if is_pos sockets && is_pos per_socket then wrap (sockets *ℤ per_socket) else pos 0

unfoldable pub cpu_of_fields : Dict Str Str → CpuFacts
cpu_of_fields fields =
    let get : Str → Str = λ name. at [] name fields in
    let sockets = atoi_or_zero (get (str "Socket(s)")) in
    record {
      vendor = get (str "Vendor ID");
      model = get (str "Model name");
      sockets = sockets;
      cores = total_cores sockets (atoi_or_zero (get (str "Core(s) per socket")));
      threads = atoi_or_zero (get (str "CPU(s)"));
    }

-- The facts with the CPU, or the facts as they were with the error.
unfoldable pub collect_cpu :
    {V : Type 0}
    → (Str → Result (List (Str × Str)))
    → Tools
    → ServerFacts V
    → ServerFacts V × Option Str
collect_cpu decode t f = elim (require_command t (str "lscpu")) [
  | some e ↦ (f, some e)
  | none ↦ elim (t.run (str "lscpu") (str "-J" ∷ [])) [
    | err e ↦ (f, some e)
    | ok out ↦ elim (decode out) [
      | err e ↦ (f, some e)
      | ok entries ↦ (record f { cpu = cpu_of_fields (cpu_fields entries []) }, none)
    ]
  ]
]
