-- ===== src/RingBuffer.antt =====
-- pkg/abstractions/common/ring_buffer.go: the bounded request buffer. The mutex makes each method
-- one step.
pub mod Queue
pub mod Refines
use beta.Base.{
  ℕ, ◌+◌, ◌-◌, ◌%◌, Bool, true, false, Option, none, some, List, ◌==◌, if◌then◌else◌, set, get_or,
  replicate,
}

-- `zero` is the zero value of the element type, which `new(T)` makes.
pub record RingBuffer (T : Type 0) : Type 0 where
  pub zero : T
  pub buffer : List T
  pub size : ℕ
  pub head : ℕ
  pub tail : ℕ
  pub count : ℕ

module _ {T : Type 0} where
  unfoldable pub new_ring_buffer : T → ℕ → RingBuffer T
  new_ring_buffer z size = record {
    zero = z;
    buffer = replicate size z;
    size = size;
    head = 0;
    tail = 0;
    count = 0;
  }

  push_front : RingBuffer T → T → RingBuffer T
  push_front rb request =
      if rb.count == rb.size
      then record rb { buffer = set rb.buffer rb.head request }
      else (let head = (rb.head + rb.size - 1) % rb.size in
          record rb { head = head; buffer = set rb.buffer head request; count = rb.count + 1 })

  push_back : RingBuffer T → T → RingBuffer T
  push_back rb request =
      let stored = record rb {
        buffer = set rb.buffer rb.tail request;
        tail = (rb.tail + 1) % rb.size;
      } in
      if rb.count == rb.size
      then record stored { head = (rb.head + 1) % rb.size }
      else record stored { count = rb.count + 1 }

  unfoldable pub push : RingBuffer T → T → Bool → RingBuffer T
  unfolding push_front push_back
  push rb request priority = if priority then push_front rb request else push_back rb request

  unfoldable pub pop : RingBuffer T → Option T × RingBuffer T
  pop rb = if rb.count == 0 then (none, rb) else (
    some (get_or rb.buffer rb.head rb.zero),
    record rb {
      buffer = set rb.buffer rb.head rb.zero;
      head = (rb.head + 1) % rb.size;
      count = rb.count - 1;
    },
  )

  unfoldable pub len : RingBuffer T → ℕ
  len rb = rb.count
