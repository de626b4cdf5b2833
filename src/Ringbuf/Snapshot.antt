-- ===== src/Ringbuf/Snapshot.antt =====
-- What `Snapshot` and `Last` return: the newest items that were pushed, oldest first.
use asty.Common.{
  ℕ, zero, suc, ◌+◌, ◌-◌, ◌%◌, ◌≡◌, refl, sym, ap, ◌∙◌, some, List, [], ◌∷◌, ◌++◌, arith, length,
  drop, length-append, length-drop, length-replicate, length-set, false, Bool-cases, if◌then◌else◌,
  inl, inr, subst, replicate,
}
use mathlib.Core.List.{append-nil, append_assoc}
use asty.Common.Int.{ℤ, pos, negsuc, leb_ℤ, pos_part}
use asty.Ringbuf.{Ring, new, push, collect, snapshot, last}
use asty.Ringbuf.Window.{drop-step, drop-drop, drop-append_le, drop_all, get_elem?_of_lt}
use asty.Ringbuf.Refine.{Holds, push_all, enqueue, enqueue_all, push-Holds}

module _ {ℓ} {A : Type ℓ} where
  new-Holds : (z : A) (capacity : ℤ) (r : Ring A) → new z capacity ≡ some r → Holds r []
  unfolding new
  new-Holds z (pos zero) r h = ground arith
  new-Holds z (negsuc n) r h = ground arith
  new-Holds z (pos (suc c)) r h =
      subst (λ q. Holds q []) {x = record { buf = replicate (suc c) z; head = 0; n = 0 }} {y = r}
        (ground arith)
        (record {
          sized = omega arith;
          headed = omega arith;
          bounded = omega arith;
          unmoved = λ _. refl;
          counted = refl;
          slots = λ i lt. elim lt [ ];
        })

  cap-new :
      (z : A) (capacity : ℤ) (r : Ring A)
      → new z capacity ≡ some r
      → length r.buf ≡ pos_part capacity
  unfolding new
  cap-new z (pos zero) r h = ground arith
  cap-new z (negsuc n) r h = ground arith
  cap-new z (pos (suc c)) r h = ground (arith, length-replicate (suc c) z)

  cap-push : (r : Ring A) (x : A) → length (push r x).buf ≡ length r.buf
  unfolding push
  cap-push r x =
      ground (arith, length-set r.buf ((r.head + r.n) % length r.buf) x, length-set r.buf r.head x)

  push_all-Holds :
      (xs : List A) (c : ℕ) (r : Ring A) (s : List A)
      → length r.buf ≡ c
      → Holds r s
      → Holds (push_all r xs) (enqueue_all c s xs)
  push_all-Holds [] c r s e h = h
  push_all-Holds (x ∷ xs) c r s e h =
      push_all-Holds xs c (push r x) (enqueue c s x) (cap-push r x ∙ e)
        (subst (λ k. Holds (push r x) (enqueue k s x)) e (push-Holds r s x h))

  enqueue-drop :
      (c : ℕ) (s : List A) (x : A)
      → enqueue c (drop (length s - c) s) x ≡ drop (length (s ++ x ∷ []) - c) (s ++ x ∷ [])
  enqueue-drop c s x =
      ap (drop (length (drop (length s - c) s) + 1 - c))
        (drop-append_le (length s - c) s (x ∷ []) (omega arith))
      ∙ drop-drop _ (length s - c) (s ++ x ∷ [])
      ∙ ap (λ k. drop k (s ++ x ∷ []))
          (let e : length s - c + (length (drop (length s - c) s) + 1 - c)
                ≡ length (s ++ x ∷ []) - c =
              omega (arith, length-drop (length s - c) s, length-append s (x ∷ [])) in
            e)

  enqueue_all-drop :
      (c : ℕ) (s xs : List A)
      → enqueue_all c (drop (length s - c) s) xs ≡ drop (length (s ++ xs) - c) (s ++ xs)
  enqueue_all-drop c s [] = ap (λ t. drop (length t - c) t) (sym (append-nil s))
  enqueue_all-drop c s (x ∷ xs) =
      ap (λ t. enqueue_all c t xs) (enqueue-drop c s x)
      ∙ enqueue_all-drop c (s ++ x ∷ []) xs
      ∙ ap (λ t. drop (length t - c) t) (append_assoc s (x ∷ []) xs)

  collect_lem :
      (k i : ℕ) (r : Ring A) (s : List A)
      → Holds r s
      → i + k ≡ length s
      → collect r i k ≡ some (drop i s)
  unfolding collect
  collect_lem zero i r s h e = ap some (sym (drop_all i s (omega arith)))
  collect_lem (suc k) i r s h e =
      let (x, at) = get_elem?_of_lt s i (omega arith) in
      rw (h.slots i (omega (arith, h.counted)) ∙ at, collect_lem k (i + 1) r s h (omega arith))
        (ap some (sym (drop-step i s x at)))

  pushed-Holds :
      (z : A) (capacity : ℤ) (r : Ring A) (xs : List A)
      → new z capacity ≡ some r
      → Holds (push_all r xs) (drop (length xs - pos_part capacity) xs)
  pushed-Holds z capacity r xs e =
      subst (Holds (push_all r xs))
        (ap (λ t. enqueue_all (pos_part capacity) t xs)
            (sym (drop_all (0 - pos_part capacity) [] (omega arith)))
          ∙ enqueue_all-drop (pos_part capacity) [] xs)
        (push_all-Holds xs (pos_part capacity) r [] (cap-new z capacity r e)
          (new-Holds z capacity r e))

  -- The newest items of the history, as many as the capacity allows, oldest first.
  pub snapshot-push_all :
      (z : A) (capacity : ℤ) (r : Ring A) (xs : List A)
      → new z capacity ≡ some r
      → snapshot (push_all r xs) ≡ some (drop (length xs - pos_part capacity) xs)
  unfolding snapshot
  snapshot-push_all z capacity r xs e =
      let h = pushed-Holds z capacity r xs e in
      collect_lem (push_all r xs).n 0 (push_all r xs) _ h (omega (arith, h.counted))

  -- `Last m` is the end of the snapshot: all of it if `m` is not positive or at least its length.
  last-snapshot :
      (r : Ring A) (s : List A) (m : ℤ)
      → Holds r s
      → last r m ≡ some (if leb_ℤ m (pos 0) then s else drop (length s - pos_part m) s)
  unfolding last snapshot
  last-snapshot r s (negsuc k) h =
      ground (arith, collect_lem r.n 0 r s h (omega (arith, h.counted)))
  last-snapshot r s (pos zero) h = collect_lem r.n 0 r s h (omega (arith, h.counted))
  last-snapshot r s (pos (suc k)) h =
      rw (positive k) (elim (Bool-cases (leb_ℤ (pos r.n) (pos (suc k)))) [
        | inl whole ↦ rw whole (
            collect_lem r.n 0 r s h (omega (arith, h.counted))
            ∙ ap (λ j. some (drop j s))
                (let e : 0 ≡ length s - suc k = ground (arith, h.counted) in e))
        | inr part ↦ rw (part) (
            collect_lem (suc k) (r.n - suc k) r s h (ground (arith, h.counted))
            ∙ ap (λ j. some (drop (j - suc k) s)) (sym h.counted))
      ])
    where
      positive : (j : ℕ) → leb_ℤ (pos (suc j)) (pos 0) ≡ false
      positive j = ground arith

  -- `Last m` on a ring of some history: the newest `m` items that the ring still holds, oldest
  -- first, and all that it holds if `m` is not positive.
  pub last-push_all :
      (z : A) (capacity : ℤ) (r : Ring A) (xs : List A) (m : ℤ)
      → new z capacity ≡ some r
      → let held = drop (length xs - pos_part capacity) xs in
        last (push_all r xs) m
        ≡ some (if leb_ℤ m (pos 0) then held else drop (length held - pos_part m) held)
  last-push_all z capacity r xs m e =
      last-snapshot (push_all r xs) _ m (pushed-Holds z capacity r xs e)
