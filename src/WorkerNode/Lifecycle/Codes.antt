-- ===== src/WorkerNode/Lifecycle/Codes.antt =====
-- The exit codes that containers are reported with.
use beta.Base.{
  ◌≡◌, ◌≢◌, ◌↔◌, refl, ap, ◌⊎◌, inl, inr, Bool, true, false, Option, ◌∷◌, lookup, Bool-cases, arith,
}
use beta.Base.Int.{ℤ, pos, negsuc, ltb_ℤ}
use beta.Base.Machine.{i32}
use beta.Types.{ContainerRequest}
use beta.WorkerNode.Lifecycle.{
  StopReason, scheduler, ttl, user, admin, unknown, Instance, WorkerProcess, SpawnEnd,
  returned_early, exited, same_ℤ, stop_reason_of, unstopped_exit_code, exit_code_for,
  spawn_exit_code, finalized, end_spawn,
}

-- A container that nothing stopped, that did not run out of memory, and whose runtime answers 0, or
-- fails with -1, or with the codes of SIGKILL or SIGTERM.
abbrev pub Succeeds : SpawnEnd → StopReason → Type 0
Succeeds (exited code is_oom_killed) unknown =
    (is_oom_killed ≡ false)
    × ((code ≡ pos 0) ⊎ (code ≡ negsuc 0) ⊎ (code ≡ pos 137) ⊎ (code ≡ pos 143))
Succeeds _ _ = ⊥

same_ℤ-≡ : (m n : ℤ) → same_ℤ m n ≡ true → m ≡ n
same_ℤ-≡ (pos m) (pos n) h = ap pos (ground arith)
same_ℤ-≡ (pos m) (negsuc n) h = ground arith
same_ℤ-≡ (negsuc m) (pos n) h = ground arith
same_ℤ-≡ (negsuc m) (negsuc n) h = ap negsuc (ground arith)

pos_one_zero : pos 1 ≢ pos 0
pos_one_zero h = cc h

finalized-zero : (code : ℤ) → finalized code ≡ pos 0 → (code ≡ pos 0) ⊎ (code ≡ pos 143)
finalized-zero code h = elim (Bool-cases (ltb_ℤ code (pos 0))) [
  | inl negative ↦ absurd (pos_one_zero (rw negative at h))
  | inr natural ↦ elim (Bool-cases (same_ℤ code (pos 143))) [
    | inl sigterm ↦ inr (same_ℤ-≡ code (pos 143) sigterm)
    | inr other ↦ inl (rw (natural, other) at h)
  ]
]

exit_code-zero :
    (code : ℤ) (is_oom_killed : Bool)
    → finalized (unstopped_exit_code code is_oom_killed) ≡ pos 0
    → Succeeds (exited code is_oom_killed) unknown
exit_code-zero code true h = cc h
exit_code-zero code false h = elim (Bool-cases (same_ℤ code (pos 137))) [
  | inl killed ↦ (refl, inr (inr (inl (same_ℤ-≡ code (pos 137) killed))))
  | inr other ↦ elim (Bool-cases (same_ℤ code (negsuc 0))) [
    | inl not_run ↦ (refl, inr (inl (same_ℤ-≡ code (negsuc 0) not_run)))
    | inr its_own ↦ elim (finalized-zero code (rw (other, its_own) at h)) [
      | inl zero_code ↦ (refl, inl zero_code)
      | inr sigterm ↦ (refl, inr (inr (inr sigterm)))
    ]
  ]
]

zero-exit_code :
    (code : ℤ) (is_oom_killed : Bool)
    → Succeeds (exited code is_oom_killed) unknown
    → finalized (unstopped_exit_code code is_oom_killed) ≡ pos 0
zero-exit_code code is_oom_killed (f, inl e) = rw (f, e) refl
zero-exit_code code is_oom_killed (f, inr (inl e)) = rw (f, e) refl
zero-exit_code code is_oom_killed (f, inr (inr (inl e))) = rw (f, e) refl
zero-exit_code code is_oom_killed (f, inr (inr (inr e))) = rw (f, e) refl

reason-zero :
    (code : ℤ) (oom : Bool) (reason : StopReason)
    → (finalized (exit_code_for reason code oom) ≡ pos 0) ↔ Succeeds (exited code oom) reason
reason-zero code oom scheduler = (λ h. cc h, λ h. absurd h)
reason-zero code oom ttl = (λ h. cc h, λ h. absurd h)
reason-zero code oom user = (λ h. cc h, λ h. absurd h)
reason-zero code oom admin = (λ h. cc h, λ h. absurd h)
reason-zero code oom unknown = (exit_code-zero code oom, zero-exit_code code oom)

Succeeds-zero :
    (e : SpawnEnd) (i : Option Instance)
    → (finalized (spawn_exit_code e i) ≡ pos 0) ↔ Succeeds e (stop_reason_of i)
Succeeds-zero returned_early i = (pos_one_zero, λ h. absurd h)
Succeeds-zero (exited code oom) i = reason-zero code oom (stop_reason_of i)

-- The exit code of a container that has ended is reported and kept to be stored, and is 0 exactly if
-- nothing stopped the container, it did not run out of memory, and its runtime answers 0, the code
-- of SIGKILL or of SIGTERM, or -1, with which it fails.
pub end_spawn-exit_code :
    (e : SpawnEnd) (r : ContainerRequest) (w : WorkerProcess)
    → (code : ℤ) × ((end_spawn e r w).exit_codes ≡ (r.container_id, i32 code) ∷ w.exit_codes)
      × ((end_spawn e r w).clearing ≡ (r, code) ∷ w.clearing)
      × ((code ≡ pos 0) ↔ Succeeds e (stop_reason_of (lookup r.container_id w.instances)))
unfolding end_spawn
end_spawn-exit_code e r w = (
  finalized (spawn_exit_code e (lookup r.container_id w.instances)),
  refl,
  refl,
  Succeeds-zero e (lookup r.container_id w.instances),
)
