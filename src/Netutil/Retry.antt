-- ===== src/Netutil/Retry.antt =====
-- asty/internal/core/netutil/kv.go: `retryWithBackoff`. Times are milliseconds.
use asty.Common.{
  ℕ, zero, suc, ◌+◌, ◌*◌, ◌≤◌, ◌<◌, ◌≡◌, Option, none, some, List, [], ◌∷◌, leb, ltb, if◌then◌else◌,
  arith,
}

abbrev pub kv_initial_backoff : ℕ
kv_initial_backoff = 100

abbrev pub kv_max_backoff : ℕ
kv_max_backoff = 3000

abbrev pub kv_total_budget : ℕ
kv_total_budget = 30000

-- The delay after a failure, doubled and capped.
unfoldable pub next_delay : ℕ → ℕ
next_delay d = if ltb kv_max_backoff (d * 2) then kv_max_backoff else d * 2

abbrev pub retry_schedule : List ℕ
retry_schedule =
    100
    ∷ (200
        ∷ (400
            ∷ (800
                ∷ (1600
                    ∷ (3000
                        ∷ (3000
                            ∷ (3000
                                ∷ (3000 ∷ (3000 ∷ (3000 ∷ (3000 ∷ (3000 ∷ (3000 ∷ [])))))))))))))

module _ {A B : Type 0} (op : B → Option A × B) (sleep : ℕ → B → B) where
  -- The loop, with so many rounds at most. The answer `none` is a loop that has not ended; `none` in
  -- the pair is the last error.
  unfoldable pub retry_loop : ℕ → ℕ → ℕ → B → Option (Option A × B)
  unfolding next_delay
  retry_loop zero delay waited b = if leb waited kv_total_budget then none else some (none, b)
  retry_loop (suc n) delay waited b =
      let (v, b₁) = op b in
      let rest = retry_loop n (next_delay delay) (waited + delay) (sleep delay b₁) in
      if leb waited kv_total_budget
      then elim v [ none ↦ rest | some a ↦ some (some a, b₁) ]
      else some (none, b)

  -- `retryWithBackoff`, with more rounds than it can take.
  unfoldable pub retry_with_backoff : B → Option (Option A × B)
  unfolding retry_loop
  retry_with_backoff b = retry_loop 100 kv_initial_backoff 0 b

  -- The attempts with their delays written out: a call and, where it fails, a sleep.
  unfoldable pub tries : List ℕ → B → Option A × B
  tries [] b = (none, b)
  tries (d ∷ ds) b =
      let (v, b₁) = op b in elim v [ none ↦ tries ds (sleep d b₁) | some a ↦ (some a, b₁) ]

  -- Such a list is what the loop goes through from a delay and a time waited on.
  data Fits : ℕ → ℕ → ℕ → List ℕ → Type 0 where
    spent : {n d w : ℕ} → kv_total_budget < w → Fits n d w []
    again :
        {n d w : ℕ} {ds : List ℕ}
        → w ≤ kv_total_budget
        → Fits n (next_delay d) (w + d) ds
        → Fits (suc n) d w (d ∷ ds)

  retry_loop-tries :
      {n d w : ℕ} {ds : List ℕ} (b : B) → Fits n d w ds → retry_loop n d w b ≡ some (tries ds b)
  unfolding retry_loop tries
  retry_loop-tries {n = zero} b (spent h) = ground (arith, h)
  retry_loop-tries {n = suc n} b (spent h) = ground (arith, h)
  retry_loop-tries {d = d} b (again h f) = ground (arith, h, retry_loop-tries (sleep d (op b).1) f)

  schedule-Fits : Fits 100 100 0 retry_schedule
  unfolding next_delay
  schedule-Fits = again (omega arith) (
      again (omega arith) (
        again (omega arith) (
          again (omega arith) (
            again (omega arith) (
              again (omega arith) (
                again (omega arith) (
                  again (omega arith) (
                    again (omega arith) (
                      again (omega arith) (
                        again (omega arith) (
                          again (omega arith) (
                            again (omega arith)
                              (again (omega arith) (spent (omega arith)))))))))))))))

  -- The retries end. They are at most 14 calls with these delays between them, of 30.1 seconds
  -- together, the first success ends them, and the last delay comes after the last failure.
  pub retry_with_backoff-tries : (b : B) → retry_with_backoff b ≡ some (tries retry_schedule b)
  unfolding retry_with_backoff
  retry_with_backoff-tries b = retry_loop-tries b schedule-Fits
