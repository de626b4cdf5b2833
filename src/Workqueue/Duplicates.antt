-- ===== src/Workqueue/Duplicates.antt =====
-- `Done` takes the mark off a key that it puts back into the queue. The next `Add` of that key
-- finds no mark, and the key stands in the queue twice: two workers are given it at once.
use asty.Common.{◌≡◌, refl, ap, ◌∙◌, true, false, List, [], ◌∷◌, ◌++◌, Text, arith, same_refl}
use asty.Common.Map.{has, put, del, has-put, has-del}
use asty.Workqueue.{Workqueue, got, add_locked, get, get_from, done}

-- `Add` of a marked key changes nothing.
pub add-add : (q : Workqueue) (k : Text) → add_locked (add_locked q k) k ≡ add_locked q k
unfolding add_locked
add-add q k = ground (arith, has-put k k q.dirty, same_refl k)

done-add_queue :
    (q : Workqueue) (k : Text)
    → q.closed ≡ false
    → has k q.dirty ≡ true
    → (add_locked (done q k) k).queue ≡ (q.queue ++ k ∷ []) ++ k ∷ []
unfolding add_locked done
done-add_queue q k o d = ground (arith, has-del k k q.dirty, has-del k k q.processing, same_refl k)

-- What `Get` leaves when it returns `k` before the keys `xs`.
abbrev given : Text → List Text → Workqueue → Workqueue
given k xs q = record q { queue = xs; dirty = del k q.dirty; processing = put k q.processing }

-- The worker of a key is done while the key is marked again, and the key is added once more: the
-- next two calls of `Get` both return it, with no `Done` between them.
pub done-add_twice :
    (q : Workqueue) (k : Text)
    → q.closed ≡ false
    → q.queue ≡ []
    → has k q.dirty ≡ true
    → (q₁ : Workqueue) × (q₂ : Workqueue) × (get (add_locked (done q k) k) ≡ got k q₁)
      × (get q₁ ≡ got k q₂)
      × (has k q₁.processing ≡ true)
unfolding get
done-add_twice q k o e d =
    let p = add_locked (done q k) k in
    let q₁ = given k (k ∷ []) p in
    (
      q₁,
      given k [] q₁,
      ap (λ xs. get_from xs p) (done-add_queue q k o d ∙ ap (λ xs. (xs ++ k ∷ []) ++ k ∷ []) e),
      refl,
      has-put k k p.processing ∙ ground (arith, same_refl k),
    )
