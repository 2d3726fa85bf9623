-- ===== src/Scheduler/Backlog/Retries.antt =====
-- How often, and after which delays, a request is pushed.
use native.Mathlib.Decide.{dec_lt}
use native.Mathlib.Nat.{pow-le-pow_right}
use beta.Base.{
  sym, ◌++◌, ℕ, zero, suc, ◌+◌, ◌*◌, ◌^◌, ◌<◌, ◌≤◌, ◌≡◌, refl, ap, ◌∙◌, ◌⊎◌, inl, inr, none, some,
  List, [], ◌∷◌, All, length, arith, min,
}
use beta.Base.Int.{ℤ, pos, ◌*ℤ◌}
use beta.Base.Machine.{i64, i64_id}
use beta.Types.{ContainerRequest}
use beta.Scheduler.Backlog.{
  max_schedule_retry_duration, second, calculate_backoff_delay, push_after, give_up, with_gpu_count,
  retried, add_request_to_backlog, added_again,
}

-- Ten minutes, in nanoseconds.
abbrev pub InTime : ℕ → Type 0
InTime t = t < 600000000000

pub with_gpu_count-retry_count :
    (r : ContainerRequest) → (with_gpu_count r).retry_count ≡ r.retry_count
with_gpu_count-retry_count r = ground arith

-- One more addition of a request that has been pushed before.
add_again :
    (beyond : ℤ) (t : ℕ) (r : ContainerRequest)
    → 0 < r.retry_count
    → ((added : ContainerRequest) × (add_request_to_backlog beyond t r ≡ give_up added)
        × (¬ (InTime t × (r.retry_count < 3))))
      ⊎ ((delay : ℤ) × (r' : ContainerRequest) × (add_request_to_backlog beyond t r
            ≡ push_after delay r')
          × InTime t
          × (r.retry_count < 3)
          × (r'.retry_count ≡ r.retry_count + 1)
          × (delay ≡ calculate_backoff_delay beyond r.retry_count))
unfolding add_request_to_backlog
add_again beyond t r h = elim (dec_lt t max_schedule_retry_duration) [
  | yes early ↦ elim (dec_lt r.retry_count 3) [
    | yes few ↦ inr (
      calculate_backoff_delay beyond (with_gpu_count r).retry_count,
      retried (with_gpu_count r),
      ground (arith, with_gpu_count-retry_count r),
      early,
      few,
      ground (arith, with_gpu_count-retry_count r),
      ap (calculate_backoff_delay beyond) (with_gpu_count-retry_count r),
    )
    | no many ↦ inl (with_gpu_count r, ground (arith, with_gpu_count-retry_count r), λ e. many e.1)
  ]
  | no late ↦ inl (with_gpu_count r, ground (arith, with_gpu_count-retry_count r), λ e. late e.0)
]

delay_small :
    (n : ℕ)
    → n < 5
    → 0 < n
    → (beyond : ℤ) → calculate_backoff_delay beyond n ≡ pos (min (2 ^ n) 30 * second)
unfolding calculate_backoff_delay i64 ◌*ℤ◌
delay_small zero h p beyond = absurd (omega arith)
delay_small (suc zero) h p beyond = refl
delay_small (suc (suc zero)) h p beyond = refl
delay_small (suc (suc (suc zero))) h p beyond = refl
delay_small (suc (suc (suc (suc zero)))) h p beyond = refl
delay_small (suc (suc (suc (suc (suc n))))) h p beyond = absurd (omega arith)

-- The delays of the pushes that are left after `n` pushes.
abbrev pub delays_from : ℕ → List ℤ
delays_from zero = pos 0 ∷ pos 2000000000 ∷ pos 4000000000 ∷ []
delays_from (suc zero) = pos 2000000000 ∷ pos 4000000000 ∷ []
delays_from (suc (suc zero)) = pos 4000000000 ∷ []
delays_from (suc (suc (suc n))) = []

delays_from-next :
    (beyond : ℤ) (n : ℕ)
    → 0 < n
    → n < 3
    → delays_from n ≡ calculate_backoff_delay beyond n ∷ delays_from (n + 1)
delays_from-next beyond zero h k = absurd (omega arith)
delays_from-next beyond (suc zero) h k = rw (delay_small 1 (omega arith) (omega arith) beyond) refl
delays_from-next beyond (suc (suc zero)) h k =
    rw (delay_small 2 (omega arith) (omega arith) beyond) refl
delays_from-next beyond (suc (suc (suc n))) h k = absurd (omega arith)

-- The first of the delays that are left.
abbrev pub Delayed : ℕ → List ℤ → ℕ → Type 0
Delayed n delays count =
    (length delays ≡ count) × ((rest : List ℤ) × (delays ++ rest ≡ delays_from n))

Delayed-cons :
    (beyond : ℤ) (n m : ℕ) (delay : ℤ) (delays : List ℤ) (count : ℕ)
    → 0 < n
    → n < 3
    → m ≡ n + 1
    → delay ≡ calculate_backoff_delay beyond n
    → Delayed m delays count
    → Delayed n (delay ∷ delays) (suc count)
Delayed-cons beyond n m delay delays count h k e f (long, (rest, g)) = (
  ap suc long,
  (
    rest,
    ap (λ x. x ∷ (delays ++ rest)) f
        ∙ ap (λ l. calculate_backoff_delay beyond n ∷ l) (g ∙ ap delays_from e)
        ∙ sym (delays_from-next beyond n h k),
  ),
)

-- A request that has been pushed before goes on while it is in time and below the limit.
later-retries :
    (beyond : ℤ) (ts : List ℕ) (r : ContainerRequest)
    → 0 < r.retry_count
    → r.retry_count ≤ 3
    → ((added_again beyond ts r ≡ none) × (¬ (All InTime ts × (r.retry_count + length ts ≤ 3))))
      ⊎ ((delays : List ℤ) × (r' : ContainerRequest) × (added_again beyond ts r ≡ some (delays, r'))
          × All InTime ts
          × (r'.retry_count ≡ r.retry_count + length ts)
          × (r'.retry_count ≤ 3)
          × Delayed r.retry_count delays (length ts))
unfolding added_again
later-retries beyond [] r h k =
    inr ([], r, refl, tt, omega arith, k, (refl, (delays_from r.retry_count, refl)))
later-retries beyond (t ∷ ts) r h k = elim (add_again beyond t r h) [
  | inl (added, e, stop) ↦ inl (rw e refl, λ f. stop (f.0.0, omega (arith, f.1)))
  | inr (delay, r', e, early, few, next, waits) ↦
      elim (later-retries beyond ts r' (omega (arith, next)) (omega (arith, next, few))) [
        | inl (gone, not_all) ↦
            inl (rw e (rw gone refl), λ f. not_all (f.0.1, omega (arith, f.1, next)))
        | inr (delays, r'', found, all, count, most, delayed) ↦ inr (
          delay ∷ delays,
          r'',
          rw e (rw found refl),
          (early, all),
          omega (arith, count, next),
          most,
          Delayed-cons beyond r.retry_count r'.retry_count delay delays (length ts) h few next waits
              delayed,
        )
      ]
]

-- A new request is pushed at once whatever its age; when it is added again, it is pushed, after two
-- and then after four seconds, as long as each further addition comes within ten minutes and there
-- are at most three pushes in all, and is given up at the first addition beyond that.
pub added_again-three :
    (beyond : ℤ) (t : ℕ) (ts : List ℕ) (r : ContainerRequest)
    → r.retry_count ≡ 0
    → ((added_again beyond (t ∷ ts) r ≡ none) × (¬ (All InTime ts × (length ts ≤ 2))))
      ⊎ ((delays rest : List ℤ) × (r' : ContainerRequest) × (added_again beyond (t ∷ ts) r
            ≡ some (delays, r'))
          × All InTime ts
          × (r'.retry_count ≡ length (t ∷ ts))
          × (length (t ∷ ts) ≤ 3)
          × (length delays ≡ length (t ∷ ts))
          × (delays ++ rest ≡ pos 0 ∷ pos 2000000000 ∷ pos 4000000000 ∷ []))
unfolding added_again add_request_to_backlog
added_again-three beyond t ts r new =
    let r1 = retried (with_gpu_count r) in
    let one : r1.retry_count ≡ 1 = omega (arith, with_gpu_count-retry_count r) in
    let first : add_request_to_backlog beyond t r ≡ push_after (pos 0) r1 =
      ground (arith, with_gpu_count-retry_count r) in
    elim (later-retries beyond ts r1 (omega (arith, one)) (omega (arith, one))) [
      | inl (gone, not_all) ↦
          inl (rw first (rw gone refl), λ f. not_all (f.0, omega (arith, f.1, one)))
      | inr (delays, r', found, all, count, most, (long, (rest, split))) ↦ inr (
        pos 0 ∷ delays,
        rest,
        r',
        rw first (rw found refl),
        all,
        omega (arith, count, one),
        omega (arith, count, one, most),
        ap suc long,
        ap (λ l. pos 0 ∷ l) (split ∙ ap delays_from one),
      )
    ]

delay_large : (p : ℕ) → 32 ≤ p → p ≤ 8589934592 → i64 (pos p *ℤ pos second) ≡ pos (p * second)
unfolding ◌*ℤ◌
delay_large p low high =
    let same : pos p *ℤ pos second ≡ pos (p * second) = ground arith in
    ap i64 same ∙ i64_id (pos (p * second)) (ground arith)

-- The delay before retry `n` is 2^n seconds, and at most thirty: up to the thirty-third retry,
-- where the product still fits an int64.
pub calculate_backoff_delay-capped :
    (beyond : ℤ) (n : ℕ)
    → 0 < n
    → n ≤ 33
    → calculate_backoff_delay beyond n ≡ pos (min (2 ^ n) 30 * second)
unfolding calculate_backoff_delay
calculate_backoff_delay-capped beyond n p h = elim (dec_lt n 5) [
  | yes small ↦ delay_small n small p beyond
  | no large ↦
      let low : 32 ≤ 2 ^ n = pow-le-pow_right (omega arith) {i = 5} {j = n} (omega arith) in
      let high : 2 ^ n ≤ 8589934592 = pow-le-pow_right (omega arith) {i = n} {j = 33} h in
      ground (arith, delay_large (2 ^ n) low high)
]
