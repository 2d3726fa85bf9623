-- ===== src/WorkerNode/Lifecycle/Kept.antt =====
-- What `RunContainer` leaves as it is in the request.
use beta.Base.{
  ◌≡◌, refl, ℕ, Bool, true, false, Bool-cases, not, ◌&&◌, none, some, Option, List, [], ◌∷◌, Result,
  ok, err, inl, inr, str_eq, if◌then◌else◌,
}
use beta.Types.{ContainerRequest, requires_gpu}
use beta.Wire.{is_build_request}
use beta.WorkerNode.Requests.{
  ContainerError, Setup, RunAnswers, RunOutcome, refused, failed, abandoned, built, spawned,
  panicked, or_failed, acquire_ports, address_map, with_ports, set_addresses, start, expose,
  with_image, load_image, gated, run_container,
}

-- The request without its ports and its checkpoint.
abbrev pub as_taken : ContainerRequest → ContainerRequest
as_taken r = record r { ports = []; checkpoint_enabled = false; checkpoint = none }

abbrev pub Keeps : ContainerRequest → RunOutcome → Type 0
Keeps r (refused e q) = as_taken q ≡ as_taken r
Keeps r (failed e q) = as_taken q ≡ as_taken r
Keeps r (abandoned q) = as_taken q ≡ as_taken r
Keeps r (built q) = as_taken q ≡ as_taken r
Keeps r (spawned q) = as_taken q ≡ as_taken r
Keeps r panicked = Unit {0}

module _ (r : ContainerRequest) where
  or_failed-Keeps :
      {A : Type 0} (q : ContainerRequest) (x : Result ContainerError A) (f : A → RunOutcome)
      → as_taken q ≡ as_taken r
      → ((a : A) → Keeps r (f a))
      → Keeps r (or_failed q x f)
  or_failed-Keeps q (ok a) f same rest = rest a
  or_failed-Keeps q (err e) f same rest = same

  if-Keeps : (b : Bool) (x y : RunOutcome) → Keeps r x → Keeps r y → Keeps r (if b then x else y)
  if-Keeps true x y h k = h
  if-Keeps false x y h k = k

  module _ (a : RunAnswers) where
    set_addresses-Keeps :
        (q : ContainerRequest) (o : Option (List (ℕ × ℕ)))
        → as_taken q ≡ as_taken r
        → Keeps r (set_addresses a q o)
    set_addresses-Keeps q none same = tt
    set_addresses-Keeps q (some l) same =
        or_failed-Keeps q (a.set_container_address_map l) _ same
          λ _. if-Keeps a.cancelled_at_start _ _ same same

    start-Keeps :
        (q : ContainerRequest) (ports : List ℕ)
        → as_taken q ≡ as_taken r
        → Keeps r (start a q ports)
    start-Keeps q [] same = tt
    start-Keeps q (b ∷ bs) same = or_failed-Keeps q (a.spec_from_request q (b ∷ bs)) _ same λ _.
        or_failed-Keeps q (a.set_container_address b) _ same
          λ _. set_addresses-Keeps q (address_map q.ports (b ∷ bs)) same

    expose-Keeps : (q : ContainerRequest) → as_taken q ≡ as_taken r → Keeps r (expose a q)
    expose-Keeps q same =
        or_failed-Keeps q (acquire_ports a.get_random_free_port q.ports 0) _ same
          λ ports. if-Keeps (str_eq q.image_id "") _ _ same (start-Keeps q ports same)

    module _ (cfg : Setup) (q : ContainerRequest) (same : as_taken q ≡ as_taken r) where
      with_image-Keeps : Keeps r (with_image cfg a q)
      with_image-Keeps =
          if-Keeps (is_build_request q && cfg.is_clip_v2) _ _ same
            (expose-Keeps (with_ports cfg q) same)

      load_image-Keeps : (x : Result ContainerError (Unit {0})) → Keeps r (load_image cfg a q x)
      load_image-Keeps (ok u) = with_image-Keeps
      load_image-Keeps (err e) = if-Keeps (not (is_build_request q)) _ _ same (
          if-Keeps a.cancelled_at_build _ _ same (
            or_failed-Keeps q (a.build_or_pull_base_image q) _ same
              λ _. or_failed-Keeps q a.pull_again _ same λ _. with_image-Keeps))

gated-as_taken : (cfg : Setup) (r : ContainerRequest) → as_taken (gated cfg r) ≡ as_taken r
gated-as_taken cfg r =
    elim (Bool-cases (r.checkpoint_enabled && not cfg.capabilities.checkpoint_restore)) [
      | inl without ↦ rw without refl
      | inr given ↦ rw given refl
    ]

pub run_container-Keeps :
    (cfg : Setup) (a : RunAnswers) (r : ContainerRequest) → Keeps r (run_container cfg a r)
unfolding run_container
run_container-Keeps cfg a r =
    let q = gated cfg r in
    let same = gated-as_taken cfg r in
    if-Keeps r (requires_gpu q && not cfg.capabilities.gpu) _ _ same (
      or_failed-Keeps r q a.set_worker_address _ same
        λ _. load_image-Keeps r a cfg q same a.pull_lazy)
