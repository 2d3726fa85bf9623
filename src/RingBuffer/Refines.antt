-- ===== src/RingBuffer/Refines.antt =====
-- `Push`, `Pop` and `Len` of the ring buffer answer as those of the bounded queue do.
use native.Mathlib.Numerals.{add-one}
use beta.Base.{
  ℕ, suc, ◌+◌, ◌-◌, ◌%◌, ◌≤◌, ◌<◌, ◌≡◌, sym, ◌⊎◌, Bool, true, false, List, [], ◌∷◌, ◌++◌, arith,
  set, length, get_or-set_self,
}
use beta.RingBuffer.{RingBuffer, push, pop, len}
use beta.RingBuffer.Queue.{
  IsRing, mod_step, mod_back, window, window-set, window_last, contents, rest, queue_push,
  queue_pop, length-window, push-IsRing, pop-IsRing,
}

module _ {T : Type 0} (z : T) (b : List T) (n h : ℕ) (x : T) (h_in : h < n)
    (sized : length b ≡ n) where
  next_inside : (h + 1) % n < n
  next_inside = ground (arith, mod_step n h h_in)

  set_next :
      (m : ℕ) → suc m ≤ n → window z (set b h x) n ((h + 1) % n) m ≡ window z b n ((h + 1) % n) m
  set_next m k =
      window-set z b n ((h + 1) % n) h m x next_inside h_in (ground (arith, mod_step n h h_in))

  front_full :
      (m : ℕ) → suc m ≤ n → window z (set b h x) n h (suc m) ≡ x ∷ rest (window z b n h (suc m))
  unfolding window
  front_full m k = cc (get_or-set_self b h x z (omega arith), set_next m k)

  front_room :
      (c : ℕ)
      → c < n
      → let h' = (h + n - 1) % n in window z (set b h' x) n h' (suc c) ≡ x ∷ window z b n h c
  unfolding window
  front_room c k =
      let h' = (h + n - 1) % n in
      let back = mod_back n h h_in in
      let inside : h' < n = ground (arith, back) in
      let again : (h' + 1) % n ≡ h = ground (arith, back, mod_step n h' inside) in
      rw again (
        cc (
          get_or-set_self b h' x z (omega arith),
          window-set z b n h h' c x h_in inside (ground (arith, back)),
        ))

  back_room :
      (c t : ℕ)
      → c < n
      → t < n
      → (t ≡ h + c) ⊎ (t + n ≡ h + c)
      → window z (set b t x) n h (suc c) ≡ window z b n h c ++ x ∷ []
  back_room c t k t_in follows = cc (
    window_last z (set b t x) n h c t h_in t_in follows,
    window-set z b n h t c x h_in t_in (ground arith),
    get_or-set_self b t x z (omega arith),
  )

  back_full :
      (m : ℕ)
      → suc m ≡ n
      → window z (set b h x) n ((h + 1) % n) (suc m) ≡ rest (window z b n h (suc m)) ++ x ∷ []
  unfolding window
  back_full m e = cc (
    window_last z (set b h x) n ((h + 1) % n) m h next_inside h_in
        (ground (arith, mod_step n h h_in)),
    set_next m (omega arith),
    get_or-set_self b h x z (omega arith),
  )

module _ {T : Type 0} where
  push_front-queue :
      (rb : RingBuffer T) (x : T)
      → IsRing rb
      → contents (push rb x true) ≡ queue_push rb.size (contents rb) x true
  unfolding push contents queue_push
  push_front-queue rb x v =
      let open_ring = front_room rb.zero rb.buffer rb.size rb.head x v.head_inside v.allocated in
      let full_ring = front_full rb.zero rb.buffer rb.size rb.head x v.head_inside v.allocated in
      ground (
        arith,
        length-window rb.zero rb.buffer rb.size rb.head rb.count,
        open_ring rb.count,
        full_ring (rb.size - 1),
        add-one rb.count,
      )

  push_back-queue :
      (rb : RingBuffer T) (x : T)
      → IsRing rb
      → contents (push rb x false) ≡ queue_push rb.size (contents rb) x false
  unfolding push contents queue_push
  push_back-queue rb x v = ground (
    arith,
    length-window rb.zero rb.buffer rb.size rb.head rb.count,
    back_room rb.zero rb.buffer rb.size rb.head x v.head_inside v.allocated rb.count rb.tail,
    back_full rb.zero rb.buffer rb.size rb.head x v.head_inside v.allocated (rb.size - 1),
    add-one rb.count,
  )

  -- `Push` keeps the buffer a ring, and its contents are those of the bounded queue: at the front or
  -- at the back by the priority, the first request dropped if the buffer was full.
  pub push-queue_push :
      (rb : RingBuffer T) (x : T) (priority : Bool)
      → IsRing rb
      → IsRing (push rb x priority)
        × (contents (push rb x priority) ≡ queue_push rb.size (contents rb) x priority)
  push-queue_push rb x priority v = (push-IsRing rb x priority v, same priority)
    where
      same : (p : Bool) → contents (push rb x p) ≡ queue_push rb.size (contents rb) x p
      same true = push_front-queue rb x v
      same false = push_back-queue rb x v

  pop-queue :
      (rb : RingBuffer T)
      → IsRing rb
      → ((pop rb).0 ≡ (queue_pop (contents rb)).0)
        × (contents (pop rb).1 ≡ (queue_pop (contents rb)).1)
  unfolding pop contents queue_pop window
  pop-queue rb v =
      let kept =
        set_next rb.zero rb.buffer rb.size rb.head rb.zero v.head_inside v.allocated
          (rb.count - 1) in
      (ground arith, ground (arith, kept))

  -- `Pop` keeps the buffer a ring, returns the first request of the queue, or none exactly if it is
  -- empty, and leaves the rest; `Len` is the length of the queue.
  pub pop-queue_pop :
      (rb : RingBuffer T)
      → IsRing rb
      → IsRing (pop rb).1
        × ((pop rb).0 ≡ (queue_pop (contents rb)).0)
        × (contents (pop rb).1 ≡ (queue_pop (contents rb)).1)
        × (len rb ≡ length (contents rb))
  unfolding len contents
  pop-queue_pop rb v =
      let (answer, left) = pop-queue rb v in
      (
        pop-IsRing rb v,
        answer,
        left,
        sym (length-window rb.zero rb.buffer rb.size rb.head rb.count),
      )
