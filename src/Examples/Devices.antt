-- ===== src/Examples/Devices.antt =====
-- GPU devices: who holds them, and which types the workers have.
use beta.Base.{◌≤◌, ◌+◌, refl, [], ◌∷◌, ok, arith, str_eq-≢}
use beta.WorkerNode.Gpu.{
  ContainerNvidiaManager, choose_devices, assign_gpu_devices, get_container_gpu_devices, allocable,
  not_held,
}
use beta.WorkerNode.Gpu.Disjoint.{count}
use beta.WorkerNode.Gpu.Runs.{
  Reach, start, later, assigned, none_yet, IsListing, Assigned, get_container_gpu_devices-disjoint,
  assign_gpu_devices-Assigned,
}

abbrev pub two_assigned : ContainerNvidiaManager
two_assigned = record { gpu_allocation_map = ("c1", 0 ∷ []) ∷ ("c2", 1 ∷ []) ∷ []; gpu_count = 3 }

three_devices : IsListing (0 ∷ 1 ∷ 2 ∷ [])
three_devices d = ground arith

two_assigned-Reach : Reach 3 two_assigned
unfolding choose_devices allocable not_held
two_assigned-Reach =
    later (later start (assigned (0 ∷ 1 ∷ 2 ∷ []) "c1" 1 three_devices refl none_yet))
      (assigned (0 ∷ 1 ∷ 2 ∷ []) "c2" 1 three_devices refl none_yet)

get_container_gpu_devices-disjoint_example :
    count 0 (get_container_gpu_devices "c1" two_assigned)
      + count 0 (get_container_gpu_devices "c2" two_assigned)
    ≤ 1
get_container_gpu_devices-disjoint_example =
    get_container_gpu_devices-disjoint "c1" "c2" 0 two_assigned-Reach (str_eq-≢ "c1" "c2" refl)

assign_gpu_devices-Assigned_example :
    Assigned two_assigned
      (0 ∷ 1 ∷ 2 ∷ [])
      "c3"
      1
      (assign_gpu_devices (ok (0 ∷ 1 ∷ 2 ∷ [])) "c3" 1 two_assigned)
assign_gpu_devices-Assigned_example =
    assign_gpu_devices-Assigned two_assigned (0 ∷ 1 ∷ 2 ∷ []) "c3" 1
