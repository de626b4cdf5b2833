-- ===== src/Workqueue/Tracking.antt =====
-- The `dirty` marks: a key that carries one waits in the queue or is with a worker. So an `Add`
-- that finds the mark and returns early drops nothing.
use asty.Common.{
  ℕ, ◌≡◌, refl, ap, true, false, ◌||◌, List, [], ◌∷◌, Text, arith, same_iff, same_refl, Bool-cases,
  leb, inl, inr,
}
use asty.Common.Map.{has, has-put, has-del, has-append}
use asty.Workqueue.{
  Workqueue, Item, add_locked, get, get_from, done, add_after, add_rate_limited, forget, shut_down,
  release_due, release_from, new_workqueue,
}
use asty.Workqueue.Delivery.{
  Call, adds, gets, dones, adds_after, rate_limits, forgets, shuts_down, releases, step, run,
  IsPending, after_get,
}

abbrev pub IsTracked : Workqueue → Type 0
IsTracked q = (k : Text) → has k q.dirty ≡ true → (has k q.queue || has k q.processing) ≡ true

add-IsTracked : (j : Text) (q : Workqueue) → IsTracked q → IsTracked (add_locked q j)
unfolding add_locked has
add-IsTracked j q t k h =
    ground (arith, t k, has-put j k q.dirty, has-append k q.queue (j ∷ []), same_iff j k)

done-IsTracked : (j : Text) (q : Workqueue) → IsTracked q → IsTracked (done q j)
unfolding done has
done-IsTracked j q t k h = ground (
  arith,
  t k,
  has-del j k q.dirty,
  has-del j k q.processing,
  has-append k q.queue (j ∷ []),
  same_iff j k,
)

get_from-IsTracked :
    (xs : List Text) (q : Workqueue)
    → q.queue ≡ xs
    → IsTracked q
    → IsTracked (after_get q (get_from xs q))
unfolding get_from has
get_from-IsTracked [] q e t k h = ground (arith, t k)
get_from-IsTracked (x ∷ xs) q e t k h =
    ground (arith, t k, ap (has k) e, has-del x k q.dirty, has-put x k q.processing, same_iff x k)

release_from-IsTracked :
    (xs : List Item) (q : Workqueue) (now : ℕ) → IsTracked q → IsTracked (release_from xs q now)
unfolding release_from
release_from-IsTracked [] q now t = t
release_from-IsTracked (it ∷ xs) q now t = elim (Bool-cases (leb it.ready now)) [
  | inl due ↦
      rw due (release_from-IsTracked xs (add_locked q it.key) now (add-IsTracked it.key q t))
  | inr later ↦ rw later t
]

add_after-IsTracked :
    (j : Text) (q : Workqueue) (delay now : ℕ) → IsTracked q → IsTracked (add_after q j delay now)
unfolding add_after
add_after-IsTracked j q delay now t k = ground (arith, add-IsTracked j q t k, t k)

step-IsTracked : (q : Workqueue) (c : Call) → IsTracked q → IsTracked (step q c)
unfolding step get release_due forget shut_down add_rate_limited
step-IsTracked q (adds key) t = add-IsTracked key q t
step-IsTracked q gets t = get_from-IsTracked q.queue q refl t
step-IsTracked q (dones key) t = done-IsTracked key q t
step-IsTracked q (adds_after key delay now) t = add_after-IsTracked key q delay now t
step-IsTracked q (rate_limits key now) t = add_after-IsTracked key _ _ now t
step-IsTracked q (forgets key) t = t
step-IsTracked q shuts_down t = t
step-IsTracked q (releases now) t = release_from-IsTracked q.delayed q now t

run-IsTracked : (q : Workqueue) (cs : List Call) → IsTracked q → IsTracked (run q cs)
unfolding run
run-IsTracked q [] t = t
run-IsTracked q (c ∷ cs) t = run-IsTracked (step q c) cs (step-IsTracked q c t)

-- After any history of a queue that is still open, an added key is pending: the early return of
-- `Add` on a dirty key loses nothing.
pub add-run-IsPending :
    (cs : List Call) (k : Text)
    → (run new_workqueue cs).closed ≡ false
    → IsPending k (add_locked (run new_workqueue cs) k)
unfolding add_locked has
add-run-IsPending cs k opened =
    let q = run new_workqueue cs in
    ground (
      arith,
      has-put k k q.dirty,
      has-append k q.queue (k ∷ []),
      same_refl k,
      run-IsTracked new_workqueue cs (unfold new_workqueue in λ j h. h) k,
    )
