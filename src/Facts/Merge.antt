-- ===== src/Facts/Merge.antt =====
-- facts/merge.go: `mergeInto` and its helpers. The first value that is set wins.
pub mod Source
pub mod Union
pub mod Raw
use rewsr_maxfields.Base.{
  Bool, true, false, not, ◌&&◌, ◌||◌, Option, none, some, List, [], ◌∷◌, ◌++◌, Str, str, ◌==◌,
  str_eq, contains, is_empty, any, if◌then◌else◌,
}
use rewsr_maxfields.Base.Dict.{Dict, has, insert}
use rewsr_maxfields.Base.Int.{is_zero}
use rewsr_maxfields.Text.Split.{split}
use rewsr_maxfields.Facts.Types.{ServerFacts, CpuFacts, is_zero_time}

-- `if dst == zero { dst = src }`
abbrev pub fill_gap {ℓ} : {A : Type ℓ} → (A → Bool) → A → A → A
fill_gap is_unset dst src = if is_unset dst then src else dst

unfoldable pub merge_cpu : CpuFacts → CpuFacts → CpuFacts
merge_cpu dst src = record {
  vendor = fill_gap is_empty dst.vendor src.vendor;
  model = fill_gap is_empty dst.model src.model;
  sockets = fill_gap is_zero dst.sockets src.sockets;
  cores = fill_gap is_zero dst.cores src.cores;
  threads = fill_gap is_zero dst.threads src.threads;
}

-- The loop over the parts returns `dst` at the first that is `src`.
unfoldable pub merge_source : Str → Str → Str
merge_source dst src =
    if is_empty src
    then dst
    else if is_empty dst
    then src
    else if contains src (split b'+' dst)
    then dst
    else dst ++ (str "+" ++ src)

-- The loop over `src`. The map `seen` holds exactly the elements of `out`, and is read off it.
unfoldable pub union_loop : List Str → List Str → List Str
union_loop [] out = out
union_loop (v ∷ src) out =
    union_loop src (if is_empty v || contains v out then out else out ++ v ∷ [])

unfoldable pub union_strings : List Str → List Str → List Str
union_strings dst src = if is_empty src then dst else union_loop src dst

module _ {V : Type 0} where
  -- `if _, exists := dst.Raw[k]; !exists { dst.Raw[k] = v }`, for each entry of `src.Raw`
  unfoldable pub fill_raw : Dict Str V → Dict Str V → Dict Str V
  fill_raw [] dst = dst
  fill_raw ((k, v) ∷ src) dst = fill_raw src (if has k dst then dst else insert k v dst)

  -- A nil map of `dst` is made first; a nil map of `src` changes nothing.
  unfoldable pub merge_raw : Option (Dict Str V) → Option (Dict Str V) → Option (Dict Str V)
  merge_raw dst none = dst
  merge_raw none (some src) = some (fill_raw src [])
  merge_raw (some dst) (some src) = some (fill_raw src dst)

  unfoldable pub merge_into : ServerFacts V → ServerFacts V → ServerFacts V
  merge_into dst src = record {
    server_id = fill_gap is_empty dst.server_id src.server_id;
    observed_at = fill_gap is_zero_time dst.observed_at src.observed_at;
    source = merge_source dst.source src.source;
    power_state = fill_gap is_empty dst.power_state src.power_state;
    provisioning = fill_gap is_empty dst.provisioning src.provisioning;
    health = dst.health;
    cpu = merge_cpu dst.cpu src.cpu;
    memory_gb = fill_gap is_zero dst.memory_gb src.memory_gb;
    disks = if is_empty dst.disks && not (is_empty src.disks) then src.disks else dst.disks;
    nics = if is_empty dst.nics && not (is_empty src.nics) then src.nics else dst.nics;
    capabilities = union_strings dst.capabilities src.capabilities;
    network_modes = union_strings dst.network_modes src.network_modes;
    failure_domain = fill_gap is_empty dst.failure_domain src.failure_domain;
    raw = merge_raw dst.raw src.raw;
  }
