-- ===== src/Api/Machine.antt =====
-- The machine type: the fastest disk tier, and a text from which cores and memory are read back.
use rewsr_maxfields.Base.{
  ◌≡◌, ◌≢◌, refl, Bool, true, false, ◌&&◌, ◌||◌, some, List, [], ◌∷◌, ◌++◌, arith, Str, str, ◌==◌,
  str_eq, any, if◌then◌else◌,
}
use rewsr_maxfields.Base.Int.{IsInt, is_zero}
use rewsr_maxfields.Text.Cut.{cut, cut-append}
use rewsr_maxfields.Text.Decimal.{atoi, itoa}
use rewsr_maxfields.Text.Decimal.RoundTrip.{atoi-itoa, itoa-Lacks}
use rewsr_maxfields.Facts.Types.{ServerFacts, DiskFacts}
use rewsr_maxfields.Api.{rank, best_disk, primary_disk_type, disk_suffix, derive_machine_type}

tiers_differ :
    (str "hdd" ≢ str "ssd")
    × (str "hdd" ≢ str "nvme")
    × (str "ssd" ≢ str "nvme")
    × (str "hdd" ≢ [])
    × (str "ssd" ≢ [])
    × (str "nvme" ≢ [])
unfolding str
tiers_differ = ground arith

abbrev pub has_tier : Str → List DiskFacts → Bool
has_tier tier = any (λ d. d.type == tier)

-- The fastest tier of the list, or the one found before if that is as fast.
abbrev pub fastest : List DiskFacts → Str → Str
fastest disks best =
    if has_tier (str "nvme") disks || best == str "nvme"
    then str "nvme"
    else if has_tier (str "ssd") disks || best == str "ssd"
    then str "ssd"
    else if has_tier (str "hdd") disks || best == str "hdd"
    then str "hdd"
    else []

abbrev IsTier : Str → Type 0
IsTier t = (rank t ≡ 0 → t ≡ [])

best_disk-fastest :
    (disks : List DiskFacts) (best : Str) → IsTier best → best_disk disks best ≡ fastest disks best
unfolding best_disk rank
best_disk-fastest [] best h = ground (arith, tiers_differ)
best_disk-fastest (d ∷ disks) best h =
    ground (arith, best_disk-fastest disks best h, best_disk-fastest disks d.type, tiers_differ)

-- `primaryDiskType` answers "nvme" exactly when a disk of that type is there, else "ssd" when one is,
-- else "hdd" when one is, and the empty text when no disk is of a known type.
pub primary_disk_type-fastest :
    (disks : List DiskFacts) → primary_disk_type disks ≡ fastest disks []
unfolding primary_disk_type
primary_disk_type-fastest disks = best_disk-fastest disks [] (λ _. refl)

c_dash_is : str "c-" ≡ b'c' ∷ b'-' ∷ []
unfolding str
c_dash_is = refl

gb_is : str "gb" ≡ b'g' ∷ b'b' ∷ []
unfolding str
gb_is = refl

-- Unless both are zero, the cores stand before the first "c" of the machine type, and the memory
-- between the "-" behind it and the next "g".
pub derive_machine_type-cut :
    {V : Type 0} (f : ServerFacts V)
    → (is_zero f.cpu.cores && is_zero f.memory_gb) ≡ false
    → IsInt f.cpu.cores
    → IsInt f.memory_gb
    → (rest more : Str) × (cut b'c' (derive_machine_type f) ≡ (itoa f.cpu.cores, b'-' ∷ rest, true))
      × (cut b'g' rest ≡ (itoa f.memory_gb, more, true))
      × (atoi (itoa f.cpu.cores) ≡ some f.cpu.cores)
      × (atoi (itoa f.memory_gb) ≡ some f.memory_gb)
unfolding derive_machine_type
derive_machine_type-cut f known hc hm =
    let tail = b'b' ∷ disk_suffix (primary_disk_type f.disks) in
    let rest = itoa f.memory_gb ++ b'g' ∷ tail in
    (
      rest,
      tail,
      ground (
        arith,
        known,
        c_dash_is,
        gb_is,
        cut-append b'c' (itoa f.cpu.cores) (b'-' ∷ rest)
            (itoa-Lacks b'c' f.cpu.cores (omega arith)),
      ),
      cut-append b'g' (itoa f.memory_gb) tail (itoa-Lacks b'g' f.memory_gb (omega arith)),
      atoi-itoa f.cpu.cores hc,
      atoi-itoa f.memory_gb hm,
    )

-- Among facts with known cores or memory that fit an `int`, the machine type determines both: servers
-- with the same machine type have the same number of cores and the same memory.
pub derive_machine_type_injective :
    {V : Type 0} (f g : ServerFacts V)
    → (is_zero f.cpu.cores && is_zero f.memory_gb) ≡ false
    → (is_zero g.cpu.cores && is_zero g.memory_gb) ≡ false
    → IsInt f.cpu.cores × IsInt f.memory_gb
    → IsInt g.cpu.cores × IsInt g.memory_gb
    → derive_machine_type f ≡ derive_machine_type g
    → (f.cpu.cores ≡ g.cpu.cores) × (f.memory_gb ≡ g.memory_gb)
derive_machine_type_injective f g kf kg (fc, fm) (gc, gm) same =
    let (rest, more, cut_f, mem_f, read_cf, read_mf) = derive_machine_type-cut f kf fc fm in
    let (rest', more', cut_g, mem_g, read_cg, read_mg) = derive_machine_type-cut g kg gc gm in
    ground (arith, cut_f, cut_g, mem_f, mem_g, read_cf, read_mf, read_cg, read_mg, same)
