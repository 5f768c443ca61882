-- ===== src/Collectors/LinuxHost/Tests.antt =====
-- The decoders of single values of the host collector at small data.
use rewsr_maxfields.Base.{◌≡◌, refl, true, false, [], ◌∷◌, str, str_eq, nat_eq}
use rewsr_maxfields.Base.Dict
use rewsr_maxfields.Base.Int.{pos, negsuc, wrap, ◌*ℤ◌, quot_ℤ}
use rewsr_maxfields.Text.Cut.{cut, cut_last, has_prefix, trim_left_at, trim_right_at, trim_suffix}
use rewsr_maxfields.Text.Decimal.{atoi, unsigned, scan, positive}
use rewsr_maxfields.Text.Space.{trim_space}
use rewsr_maxfields.Text.Split.{split}
use rewsr_maxfields.Facts.Build.{ok, err}
use rewsr_maxfields.Collectors.Host.{atoi_or_zero}
use rewsr_maxfields.Collectors.Cpu.{cpu_fields, cpu_of_fields, total_cores}
use rewsr_maxfields.Collectors.Disk.{flex_int, flex_bool, trim_quotes}
use rewsr_maxfields.Collectors.Nic.{base_name, feature_line, feature_lines, strip_fixed}

sizes :
    (flex_int (λ s. s) (str "\"512\"") ≡ ok (pos 512))
    × (flex_int (λ s. s) (str "null") ≡ ok (pos 0))
    × (flex_int (λ s. s) (str "12x") ≡ err (str "12x"))
    × (quot_ℤ (negsuc 2500) 1000 ≡ negsuc 1)
unfolding flex_int trim_quotes trim_left_at trim_right_at atoi unsigned scan positive quot_ℤ nat_eq
    str str_eq
sizes = (refl, refl, refl, refl)

rotations :
    (flex_bool (λ s. err s) (str "\"1\"") ≡ ok true)
    × (flex_bool (λ s. err s) (str "false") ≡ ok false)
    × (flex_bool (λ s. err s) (str "2") ≡ err (str "2"))
unfolding flex_bool trim_quotes trim_left_at trim_right_at trim_space nat_eq str str_eq
rotations = (refl, refl, refl)

features :
    feature_lines (split b'\n' (str "Features for e0:\nrx: on\ntx: off\ngso: on [fixed]\n"))
    ≡ str "rx" ∷ str "gso" ∷ []
unfolding feature_lines feature_line strip_fixed has_prefix cut split trim_space nat_eq str str_eq
features = refl

names :
    (base_name (str "../../bus/pci/drivers/mlx5_core") ≡ str "mlx5_core")
    × (base_name [] ≡ str ".")
    × (base_name (str "//") ≡ str "/")
unfolding base_name trim_right_at cut_last nat_eq str
names = (refl, refl, refl)

cores :
    cpu_of_fields (
      cpu_fields
        ((str "Model name:", str "EPYC")
          ∷ (str "Socket(s):", str "2")
          ∷ (str "Core(s) per socket:", str "64")
          ∷ [])
        [])
    ≡ record { vendor = []; model = str "EPYC"; sockets = pos 2; cores = pos 128; threads = pos 0 }
unfolding cpu_of_fields cpu_fields total_cores trim_suffix atoi_or_zero atoi unsigned scan positive
    wrap ◌*ℤ◌ trim_space Dict.lookup Dict.insert nat_eq str str_eq
cores = refl
