-- ===== src/Scheduler/Backlog/Readded.antt =====
-- What `addRequestToBacklog` does with one request.
use native.Mathlib.Decide.{dec_lt}
use beta.Base.{
  ℕ, zero, suc, ◌+◌, ◌<◌, ◌≤◌, ◌≡◌, refl, sym, subst, ◌∙◌, ap, ◌⊎◌, inl, inr, Bool-cases, ◌&&◌,
  ◌==◌, arith,
}
use beta.Base.Int.{ℤ, pos, ◌*ℤ◌}
use beta.Base.Machine.{i64}
use beta.Types.{ContainerRequest, requires_gpu}
use beta.Scheduler.Backlog.{
  BacklogAction, push_after, give_up, calculate_backoff_delay, with_gpu_count, retried,
  add_request_to_backlog,
}

-- A request with a GPU but no number of GPUs asks for one.
abbrev pub Counted : ContainerRequest → ℕ → Type 0
Counted r g = (g ≡ r.gpu_count) ⊎ ((r.gpu_count ≡ 0) × (g ≡ 1))

-- At once if it is new, and after two and four seconds if it is not older than ten minutes.
abbrev pub Waits : ℕ → ℕ → ℤ → Type 0
Waits elapsed n delay =
    ((n ≡ 0) × (delay ≡ pos 0))
    ⊎ ((n ≡ 1) × (delay ≡ pos 2000000000) × (elapsed < 600000000000))
    ⊎ ((n ≡ 2) × (delay ≡ pos 4000000000) × (elapsed < 600000000000))

-- The request is pushed, with one push more counted; or it is given up, after three pushes or when
-- it is too old.
abbrev pub Readded : ℕ → ContainerRequest → BacklogAction → Type 0
Readded elapsed r (push_after delay q) =
    Waits elapsed r.retry_count delay
    × ((g : ℕ) × Counted r g × (q ≡ record r { gpu_count = g; retry_count = r.retry_count + 1 }))
Readded elapsed r (give_up q) =
    (0 < r.retry_count)
    × ((3 ≤ r.retry_count) ⊎ (600000000000 ≤ elapsed))
    × ((g : ℕ) × Counted r g × (q ≡ record r { gpu_count = g }))

with_gpu_count-Counted :
    (r : ContainerRequest) → (g : ℕ) × Counted r g × (with_gpu_count r ≡ record r { gpu_count = g })
with_gpu_count-Counted r = elim (Bool-cases (requires_gpu r && r.gpu_count == 0)) [
  | inl lacking ↦ (1, inr (ground arith, refl), rw lacking refl)
  | inr given ↦ (r.gpu_count, inl refl, rw given refl)
]

Waits-again :
    (beyond : ℤ) (elapsed n : ℕ)
    → 0 < n
    → n < 3
    → elapsed < 600000000000
    → Waits elapsed n (calculate_backoff_delay beyond n)
unfolding calculate_backoff_delay i64 ◌*ℤ◌
Waits-again beyond elapsed zero p h early = absurd (omega arith)
Waits-again beyond elapsed (suc zero) p h early = inr (inl (refl, refl, early))
Waits-again beyond elapsed (suc (suc zero)) p h early = inr (inr (refl, refl, early))
Waits-again beyond elapsed (suc (suc (suc n))) p h early = absurd (omega arith)

pushed_first :
    (beyond : ℤ) (elapsed : ℕ) (r : ContainerRequest)
    → (with_gpu_count r).retry_count ≡ 0
    → add_request_to_backlog beyond elapsed r ≡ push_after (pos 0) (retried (with_gpu_count r))
unfolding add_request_to_backlog
pushed_first beyond elapsed r new = ground arith

pushed_again :
    (beyond : ℤ) (elapsed : ℕ) (r : ContainerRequest)
    → 0 < (with_gpu_count r).retry_count
    → (with_gpu_count r).retry_count < 3
    → elapsed < 600000000000
    → add_request_to_backlog beyond elapsed r
      ≡ push_after
          (calculate_backoff_delay beyond (with_gpu_count r).retry_count)
          (retried (with_gpu_count r))
unfolding add_request_to_backlog
pushed_again beyond elapsed r old few early = ground arith

given_up :
    (beyond : ℤ) (elapsed : ℕ) (r : ContainerRequest)
    → 0 < (with_gpu_count r).retry_count
    → (3 ≤ (with_gpu_count r).retry_count) ⊎ (600000000000 ≤ elapsed)
    → add_request_to_backlog beyond elapsed r ≡ give_up (with_gpu_count r)
unfolding add_request_to_backlog
given_up beyond elapsed r old why = ground arith

pub add_request_to_backlog-Readded :
    (beyond : ℤ) (elapsed : ℕ) (r : ContainerRequest)
    → Readded elapsed r (add_request_to_backlog beyond elapsed r)
add_request_to_backlog-Readded beyond elapsed r =
    let (g, counted, changed) = with_gpu_count-Counted r in
    let same : (with_gpu_count r).retry_count ≡ r.retry_count =
      ap (λ (q : ContainerRequest). q.retry_count) changed in
    let push =
      λ (delay : ℤ) (waits : Waits elapsed r.retry_count delay)
          (e : add_request_to_backlog beyond elapsed r
            ≡ push_after delay (retried (with_gpu_count r))).
        subst (Readded elapsed r) (sym e) (waits, (g, counted, ap retried changed)) in
    let give = λ (p : 0 < r.retry_count) (why : (3 ≤ r.retry_count) ⊎ (600000000000 ≤ elapsed)).
      subst (Readded elapsed r)
        (sym (given_up beyond elapsed r (ground (arith, same)) (ground (arith, same, why))))
        (p, why, (g, counted, changed)) in
    elim (dec_lt 0 r.retry_count) [
      | no new ↦
          push (pos 0) (inl (omega (arith, new), refl))
            (pushed_first beyond elapsed r (omega (arith, new, same)))
      | yes old ↦ elim (dec_lt r.retry_count 3) [
        | yes few ↦ elim (dec_lt elapsed 600000000000) [
          | yes early ↦
              push (calculate_backoff_delay beyond r.retry_count)
                (Waits-again beyond elapsed r.retry_count old few early)
                (pushed_again beyond elapsed r (omega (arith, same, old)) (omega (arith, same, few))
                    early
                  ∙ ap
                      (λ n.
                        push_after (calculate_backoff_delay beyond n) (retried (with_gpu_count r)))
                      same)
          | no late ↦ give old (inr (omega (arith, late)))
        ]
        | no many ↦ give old (inl (omega (arith, many)))
      ]
    ]
