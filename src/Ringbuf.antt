-- ===== src/Ringbuf.antt =====
-- asty/internal/core/util/ringbuf/ringbuf.go: the fixed-capacity ring behind the log buffers, the
-- event buffer and the scaling-event history. The zero value of the item type, with which Go fills
-- a new slice, is an argument `z`. A read or write out of range, which panics in Go, gives `none`.
pub mod Window
pub mod Refine
pub mod Snapshot
use asty.Common.{
  ℕ, zero, suc, ◌+◌, ◌-◌, ◌%◌, Bool, Option, none, some, List, [], ◌∷◌, ◌||◌, ltb, leb,
  if◌then◌else◌, ◌>>=◌, length, get_elem?, set, replicate,
}
use asty.Common.Int.{ℤ, pos, negsuc, leb_ℤ, pos_part}

pub record Ring {ℓ} (A : Type ℓ) : Type ℓ where
  pub buf : List A
  pub head : ℕ  -- index of the oldest element
  pub n : ℕ  -- current count

module _ {ℓ} {A : Type ℓ} where
  -- `New`; a capacity that is not positive panics.
  unfoldable pub new : A → ℤ → Option (Ring A)
  new z capacity =
      if leb_ℤ capacity (pos 0)
      then none
      else some (record { buf = replicate (pos_part capacity) z; head = 0; n = 0 })

  unfoldable pub push : Ring A → A → Ring A
  push r item =
      if ltb r.n (length r.buf)
      then record r { buf = set r.buf ((r.head + r.n) % length r.buf) item; n = r.n + 1 }
      else record r { buf = set r.buf r.head item; head = (r.head + 1) % length r.buf }

  unfoldable pub len : Ring A → ℕ
  len r = r.n

  unfoldable pub cap_of : Ring A → ℕ
  cap_of r = length r.buf

  -- The loops of `Snapshot` and `Last`: `k` reads from logical index `i` on.
  unfoldable pub collect : Ring A → ℕ → ℕ → Option (List A)
  collect r i zero = some []
  collect r i (suc k) = do
    x ← get_elem? r.buf ((r.head + i) % length r.buf)
    xs ← collect r (i + 1) k
    some (x ∷ xs)

  unfoldable pub snapshot : Ring A → Option (List A)
  unfolding collect
  snapshot r = collect r 0 r.n

  unfoldable pub last : Ring A → ℤ → Option (List A)
  unfolding collect snapshot
  last r m =
      if leb_ℤ m (pos 0) || leb_ℤ (pos r.n) m
      then snapshot r
      else collect r (r.n - pos_part m) (pos_part m)
