-- ===== src/Workqueue/Delivery.antt =====
-- A key that was added is not lost: it stays pending until a worker is given it.
use asty.Common.{
  ℕ, ◌≡◌, refl, ap, ◌⊎◌, inl, inr, true, ◌&&◌, ◌||◌, List, [], ◌∷◌, Text, arith, same, same_iff,
  same_sound, Bool-cases,
}
use asty.Common.Map.{has, put, del, has-put, has-del, has-append}
use asty.Workqueue.{
  Workqueue, Item, Got, blocks, stopped, got, add_locked, get, get_from, done, add_after,
  add_rate_limited, forget, shut_down, release_due, release_from,
}

-- A call of a method, with the clock's reading where the method reads it.
pub data Call : Type 0 where
  adds : Text → Call
  gets : Call
  dones : Text → Call
  adds_after : Text → ℕ → ℕ → Call
  rate_limits : Text → ℕ → Call
  forgets : Text → Call
  shuts_down : Call
  releases : ℕ → Call

abbrev pub after_get : Workqueue → Got → Workqueue
after_get q blocks = q
after_get q stopped = q
after_get q (got key q') = q'

unfoldable pub step : Workqueue → Call → Workqueue
step q (adds key) = add_locked q key
step q gets = after_get q (get q)
step q (dones key) = done q key
step q (adds_after key delay now) = add_after q key delay now
step q (rate_limits key now) = add_rate_limited q key now
step q (forgets key) = forget q key
step q shuts_down = shut_down q
step q (releases now) = release_due q now

unfoldable pub run : Workqueue → List Call → Workqueue
run q [] = q
run q (c ∷ cs) = run (step q c) cs

-- The key waits in the queue, or will be put there when its worker is done.
abbrev pub IsPending : Text → Workqueue → Type 0
IsPending k q = (has k q.queue || (has k q.dirty && has k q.processing)) ≡ true

-- The call hands the key to a worker.
abbrev pub Gives : Text → Workqueue → Call → Type 0
Gives k q c = (c ≡ gets) × ((q' : Workqueue) × (get q ≡ got k q'))

add-IsPending : (k j : Text) (q : Workqueue) → IsPending k q → IsPending k (add_locked q j)
unfolding add_locked
add-IsPending k j q h =
    ground (arith, has-put j k q.dirty, has-append k q.queue (j ∷ []), same_iff j k)

done-IsPending : (k j : Text) (q : Workqueue) → IsPending k q → IsPending k (done q j)
unfolding done has
done-IsPending k j q h = ground (
  arith,
  has-del j k q.dirty,
  has-del j k q.processing,
  has-append k q.queue (j ∷ []),
  same_iff j k,
)

get_from-IsPending :
    (k : Text) (xs : List Text) (q : Workqueue)
    → q.queue ≡ xs
    → IsPending k q
    → IsPending k (after_get q (get_from xs q)) ⊎ ((q' : Workqueue) × (get_from xs q ≡ got k q'))
unfolding get_from has
get_from-IsPending k [] q e h = elim (Bool-cases q.closed) [
  | inl c ↦ inl (rw c h)
  | inr c ↦ inl (rw c h)
]
get_from-IsPending k (x ∷ xs) q e h = elim (Bool-cases (same x k)) [
  | inl hit ↦
      let q' : Workqueue = record q {
        queue = xs;
        dirty = del x q.dirty;
        processing = put x q.processing;
      } in
      inr (q', ap (λ t. got t q') (same_sound x k hit))
  | inr miss ↦
      inl (ground (arith, ap (has k) e, has-del x k q.dirty, has-put x k q.processing, miss))
]

release_from-IsPending :
    (k : Text) (xs : List Item) (q : Workqueue) (now : ℕ)
    → IsPending k q
    → IsPending k (release_from xs q now)
unfolding release_from
release_from-IsPending k [] q now h = h
release_from-IsPending k (it ∷ xs) q now h =
    ground
      (arith, release_from-IsPending k xs (add_locked q it.key) now (add-IsPending k it.key q h))

add_after-IsPending :
    (k j : Text) (q : Workqueue) (delay now : ℕ)
    → IsPending k q
    → IsPending k (add_after q j delay now)
unfolding add_after
add_after-IsPending k j q delay now h = ground (arith, add-IsPending k j q h)

-- A pending key stays pending under every call, but for the `Get` that returns it.
pub step-IsPending :
    (k : Text) (q : Workqueue) (c : Call) → IsPending k q → IsPending k (step q c) ⊎ Gives k q c
unfolding step get release_due forget shut_down add_rate_limited
step-IsPending k q (adds key) h = inl (add-IsPending k key q h)
step-IsPending k q gets h = elim (get_from-IsPending k q.queue q refl h) [
  | inl p ↦ inl p
  | inr g ↦ inr (refl, g)
]
step-IsPending k q (dones key) h = inl (done-IsPending k key q h)
step-IsPending k q (adds_after key delay now) h = inl (add_after-IsPending k key q delay now h)
step-IsPending k q (rate_limits key now) h = inl (add_after-IsPending k key _ _ now h)
step-IsPending k q (forgets key) h = inl h
step-IsPending k q shuts_down h = inl h
step-IsPending k q (releases now) h = inl (release_from-IsPending k q.delayed q now h)

-- The calls at which the key is handed to a worker along a history.
abbrev pub Given : Text → Workqueue → List Call → Type 0
Given k q [] = ⊥
Given k q (c ∷ cs) = Gives k q c ⊎ Given k (step q c) cs

-- Over any history a pending key is given to a worker or is still pending at its end.
pub run-IsPending :
    (k : Text) (q : Workqueue) (cs : List Call)
    → IsPending k q
    → IsPending k (run q cs) ⊎ Given k q cs
unfolding run
run-IsPending k q [] h = inl h
run-IsPending k q (c ∷ cs) h = elim (step-IsPending k q c h) [
  | inr g ↦ inr (inl g)
  | inl p ↦ elim (run-IsPending k (step q c) cs p) [
    | inl end ↦ inl end
    | inr later ↦ inr (inr later)
  ]
]
