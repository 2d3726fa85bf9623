-- ===== src/RingBuffer/Queue.antt =====
-- The ring buffer is a bounded queue.
use native.Mathlib.Nat.{mod-eq_of_lt, add-mod_right}
use native.Mathlib.Decide.{dec_lt}
use beta.Base.{
  ℕ, zero, suc, ◌+◌, ◌-◌, ◌%◌, ◌≤◌, ◌<◌, ◌≡◌, refl, ap, ◌⊎◌, inl, inr, ◌∙◌, Bool, Option, none,
  some, List, [], ◌∷◌, ◌++◌, arith, ◌==◌, leb, if◌then◌else◌, set, get_or, length, length-set,
  length-replicate, get_or-set_ne,
}
use beta.RingBuffer.{RingBuffer, new_ring_buffer, push, pop}

pub record IsRing {T : Type 0} (rb : RingBuffer T) : Type 0 where
  pub allocated : length rb.buffer ≡ rb.size
  pub has_room : 0 < rb.size
  pub head_inside : rb.head < rb.size
  pub tail_inside : rb.tail < rb.size
  pub count_inside : rb.count ≤ rb.size
  -- the tail is `count` places behind the head, modulo the size
  pub tail_follows : (rb.tail ≡ rb.head + rb.count) ⊎ (rb.tail + rb.size ≡ rb.head + rb.count)

-- A step round the ring, forward and back.
pub mod_step :
    (n h : ℕ) → h < n → ((h + 1 < n) × ((h + 1) % n ≡ h + 1)) ⊎ ((h + 1 ≡ n) × ((h + 1) % n ≡ 0))
mod_step n h p = elim (dec_lt (h + 1) n) [
  | yes q ↦ inl (q, mod-eq_of_lt q)
  | no q ↦ inr (omega arith, grind arith)
]

pub mod_back :
    (n h : ℕ)
    → h < n
    → ((0 < h) × ((h + n - 1) % n ≡ h - 1)) ⊎ ((h ≡ 0) × ((h + n - 1) % n ≡ n - 1))
mod_back n zero p = inr (refl, mod-eq_of_lt (omega arith) ∙ omega arith)
mod_back n (suc h) p = inl (omega arith, grind (arith, add-mod_right h n))

-- The places from `h` round to `t`.
abbrev pub distance : ℕ → ℕ → ℕ → ℕ
distance n h t = if leb h t then t - h else t + n - h

module _ {T : Type 0} (z : T) where
  -- `k` entries from place `h` on.
  unfoldable pub window : List T → ℕ → ℕ → ℕ → List T
  window b n h zero = []
  window b n h (suc k) = get_or b h z ∷ window b n ((h + 1) % n) k

  -- A write outside the window does not show.
  pub window-set :
      (b : List T) (n h t k : ℕ) (v : T)
      → h < n
      → t < n
      → k ≤ distance n h t
      → window (set b t v) n h k ≡ window b n h k
  unfolding window
  window-set b n h t zero v p q far = refl
  window-set b n h t (suc k) v p q far =
      let step = mod_step n h p in
      let inside : (h + 1) % n < n = ground (arith, step) in
      let less : k ≤ distance n ((h + 1) % n) t = ground (arith, step) in
      cc (
        get_or-set_ne b t h v z (λ e. absurd (ground arith)),
        window-set b n ((h + 1) % n) t k v inside q less,
      )

  -- The last entry of a window.
  pub window_last :
      (b : List T) (n h k i : ℕ)
      → h < n
      → i < n
      → (i ≡ h + k) ⊎ (i + n ≡ h + k)
      → window b n h (suc k) ≡ window b n h k ++ get_or b i z ∷ []
  unfolding window
  window_last b n h zero i p q e = ap (λ j. get_or b j z ∷ []) (omega arith)
  window_last b n h (suc k) i p q e =
      let step = mod_step n h p in
      ap (◌∷◌ (get_or b h z))
        (window_last b n ((h + 1) % n) k i (ground (arith, step)) q (ground (arith, step)))

-- The requests in the order in which `Pop` returns them.
unfoldable pub contents : {T : Type 0} → RingBuffer T → List T
contents rb = window rb.zero rb.buffer rb.size rb.head rb.count

abbrev pub rest : {T : Type 0} → List T → List T
rest [] = []
rest (x ∷ q) = q

-- A queue that holds at most `size` requests: a push to a full one drops the first request.
unfoldable pub queue_push : {T : Type 0} → ℕ → List T → T → Bool → List T
queue_push size q x priority =
    let kept = if length q == size then rest q else q in
    if priority then x ∷ kept else kept ++ x ∷ []

unfoldable pub queue_pop : {T : Type 0} → List T → Option T × List T
queue_pop [] = (none, [])
queue_pop (x ∷ q) = (some x, q)

pub length-window : {T : Type 0} (z : T) (b : List T) (n h k : ℕ) → length (window z b n h k) ≡ k
unfolding window
length-window z b n h zero = refl
length-window z b n h (suc k) = ap suc (length-window z b n ((h + 1) % n) k)

module _ {T : Type 0} where
  pub new-IsRing : (z : T) (size : ℕ) → 0 < size → IsRing (new_ring_buffer z size)
  unfolding new_ring_buffer
  new-IsRing z size h = record {
    allocated = length-replicate size z;
    has_room = h;
    head_inside = h;
    tail_inside = h;
    count_inside = omega arith;
    tail_follows = inl (omega arith);
  }

  pub push-IsRing :
      (rb : RingBuffer T) (x : T) (priority : Bool) → IsRing rb → IsRing (push rb x priority)
  unfolding push
  push-IsRing rb x priority v = ground (
    arith,
    mod_step rb.size rb.head v.head_inside,
    mod_step rb.size rb.tail v.tail_inside,
    mod_back rb.size rb.head v.head_inside,
    length-set rb.buffer rb.head x,
    length-set rb.buffer rb.tail x,
    length-set rb.buffer ((rb.head + rb.size - 1) % rb.size) x,
  )

  pub pop-IsRing : (rb : RingBuffer T) → IsRing rb → IsRing (pop rb).1
  unfolding pop
  pop-IsRing rb v =
      ground (arith, mod_step rb.size rb.head v.head_inside, length-set rb.buffer rb.head rb.zero)
