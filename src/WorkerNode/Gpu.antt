-- ===== src/WorkerNode/Gpu.antt =====
-- `ContainerNvidiaManager` of pkg/worker/nvidia.go: which container holds which GPU devices.
pub mod Disjoint
pub mod Runs
use beta.Base.{
  ℕ, zero, suc, ◌+◌, String, Bool, true, false, ◌||◌, Option, none, some, List, [], ◌∷◌, ◌++◌,
  Result, ok, err, ltb, ◌==◌, if◌then◌else◌, length, lookup, put, erase,
}

abbrev pub AllocationMap : Type 0
AllocationMap = List (String × List ℕ)

pub record ContainerNvidiaManager : Type 0 where
  pub gpu_allocation_map : AllocationMap
  pub gpu_count : ℕ  -- uint32

pub data GpuError : Type 0 where
  devices_unknown : GpuError
  not_enough_gpus : ℕ → ℕ → GpuError

abbrev pub holds : List ℕ → ℕ → Bool
holds [] d = false
holds (x ∷ xs) d = x == d || holds xs d

abbrev pub all_devices : AllocationMap → List ℕ
all_devices [] = []
all_devices ((k, ds) ∷ m) = ds ++ all_devices m

-- The keys of the Go map `currentAllocations`: each device once.
abbrev pub distinct : List ℕ → List ℕ
distinct [] = []
distinct (d ∷ ds) = let rest = distinct ds in if holds ds d then rest else d ∷ rest

unfoldable pub not_held : List ℕ → List ℕ → List ℕ
not_held current [] = []
not_held current (d ∷ ds) =
    let rest = not_held current ds in if holds current d then rest else d ∷ rest

-- `devices[:n]` of a slice that is long enough
abbrev pub take : ℕ → List ℕ → List ℕ
take zero ds = []
take (suc n) [] = []
take (suc n) (d ∷ ds) = d ∷ take n ds

-- What can be allocated; nothing where as many devices are held as there are.
unfoldable pub allocable : AllocationMap → List ℕ → List ℕ
unfolding not_held
allocable m devices =
    let current = distinct (all_devices m) in
    if ltb (length current) (length devices) then not_held current devices else []

abbrev pub choose_from : ℕ → List ℕ → List ℕ → Result GpuError (List ℕ)
choose_from requested devices free =
    if ltb (length free) requested
    then err (not_enough_gpus requested (length devices))
    else ok (take requested free)

-- `chooseDevices` up to the write of the map; `available` is what `AvailableGPUDevices` answered.
unfoldable pub choose_devices :
    AllocationMap → Result (Unit {0}) (List ℕ) → ℕ → Result GpuError (List ℕ)
unfolding allocable
choose_devices m (err e) requested = err devices_unknown
choose_devices m (ok devices) requested = choose_from requested devices (allocable m devices)

abbrev pub save :
    String
    → Result GpuError (List ℕ)
    → ContainerNvidiaManager
    → Result GpuError (List ℕ) × ContainerNvidiaManager
save id (err e) c = (err e, c)
save id (ok devices) c =
    (ok devices, record c { gpu_allocation_map = put id devices c.gpu_allocation_map })

unfoldable pub assign_gpu_devices :
    Result (Unit {0}) (List ℕ)
    → String
    → ℕ
    → ContainerNvidiaManager
    → Result GpuError (List ℕ) × ContainerNvidiaManager
unfolding choose_devices
assign_gpu_devices available id requested c =
    save id (choose_devices c.gpu_allocation_map available requested) c

unfoldable pub unassign_gpu_devices : String → ContainerNvidiaManager → ContainerNvidiaManager
unassign_gpu_devices id c = record c { gpu_allocation_map = erase id c.gpu_allocation_map }

abbrev pub or_empty : Option (List ℕ) → List ℕ
or_empty none = []
or_empty (some ds) = ds

unfoldable pub get_container_gpu_devices : String → ContainerNvidiaManager → List ℕ
get_container_gpu_devices id c = or_empty (lookup id c.gpu_allocation_map)
