-- ===== src/WorkerNode/Gpu/Runs.antt =====
-- The GPU manager over time: assignments and releases in any order. The lock keeps assignments
-- apart, but a release takes only the map's own lock, and can fall between the choice of the devices
-- and the write of the map.
use native.Mathlib.Decide.{dec_lt}
use beta.Base.{
  ℕ, ◌+◌, ◌≤◌, ◌≡◌, ◌≢◌, refl, ap, ◌⊎◌, inl, inr, String, List, [], ◌∷◌, Result, ok, err, arith,
  str_eq_iff, lookup, put, erase, lookup-put_self, lookup-put_ne,
}
use beta.WorkerNode.Gpu.{
  AllocationMap, ContainerNvidiaManager, GpuError, choose_devices, save, assign_gpu_devices,
  unassign_gpu_devices, get_container_gpu_devices, or_empty,
}
use beta.WorkerNode.Gpu.Disjoint.{
  count, holders, holders-put, holders-erase, Chosen, choose_devices-Chosen,
}

-- Releases by other goroutines.
pub data Released (m : AllocationMap) : AllocationMap → Type 0 where
  none_yet : Released m m
  one_more : {m' : AllocationMap} (id : String) → Released m m' → Released m (erase id m')

-- The list of the devices has each device once.
abbrev pub IsListing : List ℕ → Type 0
IsListing devices = (d : ℕ) → count d devices ≤ 1

pub data Step (c : ContainerNvidiaManager) : ContainerNvidiaManager → Type 0 where
  assigned :
      (devices : List ℕ) {ds : List ℕ} {m' : AllocationMap} (id : String) (requested : ℕ)
      → IsListing devices
      → choose_devices c.gpu_allocation_map (ok devices) requested ≡ ok ds
      → Released c.gpu_allocation_map m'
      → Step c (record c { gpu_allocation_map = put id ds m' })
  unassigned : (id : String) → Step c (unassign_gpu_devices id c)

abbrev pub new_manager : ℕ → ContainerNvidiaManager
new_manager n = record { gpu_allocation_map = []; gpu_count = n }

pub data Reach (n : ℕ) : ContainerNvidiaManager → Type 0 where
  start : Reach n (new_manager n)
  later : {c c' : ContainerNvidiaManager} → Reach n c → Step c c' → Reach n c'

abbrev pub IsExclusive : ContainerNvidiaManager → Type 0
IsExclusive c = (d : ℕ) → holders d c.gpu_allocation_map ≤ 1

Released-holders : {m m' : AllocationMap} (d : ℕ) → Released m m' → holders d m' ≤ holders d m
Released-holders d none_yet = omega arith
Released-holders d (one_more {m'} id r) = omega (arith, holders-erase d id m', Released-holders d r)

Step-IsExclusive : {c c' : ContainerNvidiaManager} → Step c c' → IsExclusive c → IsExclusive c'
unfolding unassign_gpu_devices
Step-IsExclusive {c} (assigned devices {ds} {m'} id requested listing chosen released) h d =
    let good = choose_devices-Chosen c.gpu_allocation_map devices requested ds chosen in
    let put_bound = holders-put d id ds m' in
    let fewer = Released-holders d released in
    elim (dec_lt 0 (count d ds)) [
      | yes taken ↦ omega (arith, put_bound, fewer, good.free d taken, good.listed d, listing d)
      | no not_taken ↦ omega (arith, put_bound, fewer, h d)
    ]
Step-IsExclusive {c} (unassigned id) h d =
    omega (arith, holders-erase d id c.gpu_allocation_map, h d)

Reach-IsExclusive : {n : ℕ} {c : ContainerNvidiaManager} → Reach n c → IsExclusive c
Reach-IsExclusive start = λ d. omega arith
Reach-IsExclusive (later r s) = Step-IsExclusive s (Reach-IsExclusive r)

lookup-holders :
    (d : ℕ) (i : String) (m : AllocationMap) → count d (or_empty (lookup i m)) ≤ holders d m
lookup-holders d i [] = omega arith
lookup-holders d i ((k, ds) ∷ m) = ground (arith, lookup-holders d i m)

two-holders :
    (d : ℕ) (i j : String) (m : AllocationMap)
    → i ≢ j
    → count d (or_empty (lookup i m)) + count d (or_empty (lookup j m)) ≤ holders d m
two-holders d i j [] ne = omega arith
two-holders d i j ((k, ds) ∷ m) ne = ground (
  arith,
  two-holders d i j m ne,
  lookup-holders d i m,
  lookup-holders d j m,
  str_eq_iff k i,
  str_eq_iff k j,
)

-- In every state that the manager reaches, by assignments out of listings without duplicates and by
-- releases, releases in the middle of an assignment included, no GPU device is held by two
-- containers, or twice by one.
pub get_container_gpu_devices-disjoint :
    {n : ℕ} {c : ContainerNvidiaManager} (i j : String) (d : ℕ)
    → Reach n c
    → i ≢ j
    → count d (get_container_gpu_devices i c) + count d (get_container_gpu_devices j c) ≤ 1
unfolding get_container_gpu_devices
get_container_gpu_devices-disjoint {c} i j d r ne =
    omega (arith, two-holders d i j c.gpu_allocation_map ne, Reach-IsExclusive r d)

-- Exactly the requested devices, each free before, are now the container's; or nothing changed.
abbrev pub Assigned :
    ContainerNvidiaManager
    → List ℕ
    → String
    → ℕ
    → Result GpuError (List ℕ) × ContainerNvidiaManager
    → Type 0
Assigned c devices id requested answer =
    ((e : GpuError) × (answer ≡ (err e, c)))
    ⊎ ((ds : List ℕ) × (answer.0 ≡ ok ds)
        × Chosen c.gpu_allocation_map devices requested ds
        × (get_container_gpu_devices id answer.1 ≡ ds)
        × ((j : String)
            → j ≢ id
            → get_container_gpu_devices j answer.1 ≡ get_container_gpu_devices j c))

-- `AssignGPUDevices` either fails and changes nothing, or answers exactly as many devices as
-- requested, each from the listing and none held by any container before, which are then the
-- container's, with every other container's devices unchanged.
pub assign_gpu_devices-Assigned :
    (c : ContainerNvidiaManager) (devices : List ℕ) (id : String) (requested : ℕ)
    → Assigned c devices id requested (assign_gpu_devices (ok devices) id requested c)
unfolding assign_gpu_devices get_container_gpu_devices
assign_gpu_devices-Assigned c devices id requested =
    go (choose_devices c.gpu_allocation_map (ok devices) requested) refl
  where
    go :
        (x : Result GpuError (List ℕ))
        → choose_devices c.gpu_allocation_map (ok devices) requested ≡ x
        → Assigned c devices id requested (save id x c)
    go (err e) chosen = inl (e, refl)
    go (ok ds) chosen = inr (
      ds,
      refl,
      choose_devices-Chosen c.gpu_allocation_map devices requested ds chosen,
      ap or_empty (lookup-put_self id ds c.gpu_allocation_map),
      λ j ne. ap or_empty (lookup-put_ne id j ds c.gpu_allocation_map ne),
    )
