-- ===== src/Ringbuf/Refine.antt =====
-- The ring refines a bounded queue: a list from which the oldest items fall out.
use asty.Common.{
  ℕ, ◌+◌, ◌-◌, ◌%◌, ◌≤◌, ◌<◌, ◌≡◌, refl, sym, ap, ◌∙◌, ◌≢◌, inl, inr, subst, List, [], ◌∷◌, ◌++◌,
  arith, length, get_elem?, set, drop, length-append, length-drop, length-set, get_elem?-set_self,
  get_elem?-set_ne, ltb, lt→ltb, Bool-cases, false,
}
use asty.Ringbuf.{Ring, push}
use asty.Ringbuf.Window.{get_elem?-append_left, get_elem?-append_last, get_elem?-drop}
use native.Mathlib.Nat.{mod-eq_of_lt, mod-add-mod, mod-lt}

-- Where the slots of a ring lie. `L` is the capacity.
wrap_small : (a L : ℕ) → a < L → a % L ≡ a
wrap_small a L h = mod-eq_of_lt h

wrap_turn : (h i L : ℕ) → h < L → i + 1 < L → ((h + 1) % L + i) % L ≡ (h + (i + 1)) % L
wrap_turn h i L p q =
    mod-add-mod (h + 1) L i ∙ ap (λ k. k % L) (let e : h + 1 + i ≡ h + (i + 1) = omega arith in e)

wrap_ne : (h i L : ℕ) → h < L → i + 1 < L → h ≢ (h + (i + 1)) % L
wrap_ne h i L p q = grind arith

wrap_last : (h i L : ℕ) → h < L → i + 1 ≡ L → ((h + 1) % L + i) % L ≡ h
wrap_last h i L p q = grind arith

module _ {ℓ} {A : Type ℓ} where
  -- The bounded queue: what is left of `s` after `x`, at most `c` items.
  abbrev pub enqueue : ℕ → List A → A → List A
  enqueue c s x = drop (length s + 1 - c) (s ++ x ∷ [])

  abbrev pub enqueue_all : ℕ → List A → List A → List A
  enqueue_all c s [] = s
  enqueue_all c s (x ∷ xs) = enqueue_all c (enqueue c s x) xs

  abbrev pub push_all : Ring A → List A → Ring A
  push_all r [] = r
  push_all r (x ∷ xs) = push_all (push r x) xs

  -- The ring holds the list `s`, oldest first.
  pub record Holds (r : Ring A) (s : List A) : Type ℓ where
    pub sized : 0 < length r.buf
    pub headed : r.head < length r.buf
    pub bounded : r.n ≤ length r.buf
    pub unmoved : r.n < length r.buf → r.head ≡ 0
    pub counted : length s ≡ r.n
    pub slots : (i : ℕ) → i < r.n → get_elem? r.buf ((r.head + i) % length r.buf) ≡ get_elem? s i

  room_slot :
      (buf s : List A) (x : A) (n : ℕ)
      → n < length buf
      → length s ≡ n
      → ((i : ℕ) → i < n → get_elem? buf i ≡ get_elem? s i)
      → (i : ℕ) → i < n + 1
      → get_elem? (set buf n x) i ≡ get_elem? (s ++ x ∷ []) i
  room_slot buf s x n room len old i h = elim (Bool-cases (ltb i n)) [
    | inl lt ↦
        get_elem?-set_ne buf n i x (λ e. ground arith)
        ∙ old i (ground arith)
        ∙ sym (get_elem?-append_left s (x ∷ []) i (ground arith))
    | inr ge ↦
        let e : i ≡ n = ground arith in
        rw e (get_elem?-set_self buf n x room ∙ sym (get_elem?-append_last s x n (sym len)))
  ]

  -- A write at the head of a full ring, seen from the slot after it.
  full_slot :
      (buf s : List A) (x : A) (h : ℕ)
      → h < length buf
      → length s ≡ length buf
      → ((i : ℕ) → i < length buf → get_elem? buf ((h + i) % length buf) ≡ get_elem? s i)
      → (i : ℕ) → i < length buf
      → get_elem? (set buf h x) (((h + 1) % length buf + i) % length buf)
        ≡ get_elem? (drop 1 s ++ x ∷ []) i
  full_slot buf s x h head len old i lt = elim (Bool-cases (ltb (i + 1) (length buf))) [
    | inl more ↦
        let inside : i + 1 < length buf = ground arith in
        ap (get_elem? (set buf h x)) (wrap_turn h i (length buf) head inside)
        ∙ get_elem?-set_ne buf h _ x (wrap_ne h i (length buf) head inside)
        ∙ old (i + 1) inside
        ∙ ap (get_elem? s) (let e : i + 1 ≡ 1 + i = omega arith in e)
        ∙ sym (get_elem?-drop 1 s i)
        ∙ sym (get_elem?-append_left (drop 1 s) (x ∷ []) i (omega (arith, length-drop 1 s)))
    | inr done ↦
        let at_end : i + 1 ≡ length buf = ground arith in
        ap (get_elem? (set buf h x)) (wrap_last h i (length buf) head at_end)
        ∙ get_elem?-set_self buf h x head
        ∙ sym (get_elem?-append_last (drop 1 s) x i (omega (arith, length-drop 1 s)))
  ]

  push_room-Holds :
      (r : Ring A) (s : List A) (x : A)
      → Holds r s
      → r.n < length r.buf
      → Holds (push r x) (s ++ x ∷ [])
  unfolding push
  push_room-Holds r s x h room =
      let at_n : (r.head + r.n) % length r.buf ≡ r.n =
        wrap_small _ _ (omega (arith, h.unmoved room))
        ∙ (let e : r.head + r.n ≡ r.n = omega (arith, h.unmoved room) in e) in
      rw (lt→ltb _ _ room) (
        rw at_n (record {
          sized = omega (arith, length-set r.buf r.n x, h.sized);
          headed = omega (arith, length-set r.buf r.n x, h.headed);
          bounded = omega (arith, length-set r.buf r.n x);
          unmoved = λ _. h.unmoved room;
          counted = omega (arith, length-append s (x ∷ []), h.counted);
          slots = λ i lt.
              ap (get_elem? (set r.buf r.n x))
                (ap (λ k. (r.head + i) % k) (length-set r.buf r.n x) ∙ home i (omega arith))
              ∙ room_slot r.buf s x r.n room h.counted
                  (λ j lj. sym (ap (get_elem? r.buf) (home j (omega arith))) ∙ h.slots j lj) i lt;
        }))
    where
      home : (j : ℕ) → j < length r.buf → (r.head + j) % length r.buf ≡ j
      home j lj =
          wrap_small _ _ (omega (arith, h.unmoved room))
          ∙ (let e : r.head + j ≡ j = omega (arith, h.unmoved room) in e)

  push_full-Holds :
      (r : Ring A) (s : List A) (x : A)
      → Holds r s
      → r.n ≡ length r.buf
      → Holds (push r x) (drop 1 s ++ x ∷ [])
  unfolding push
  push_full-Holds r s x h full =
      let closed : ltb r.n (length r.buf) ≡ false = ground arith in
      rw closed (record {
        sized = omega (arith, length-set r.buf r.head x, h.sized);
        headed = omega (arith, length-set r.buf r.head x, mod-lt (r.head + 1) h.sized);
        bounded = omega (arith, length-set r.buf r.head x);
        unmoved = λ lt. absurd (omega (arith, length-set r.buf r.head x));
        counted =
            omega (arith, length-append (drop 1 s) (x ∷ []), length-drop 1 s, h.counted, h.sized);
        slots = λ i lt.
            ap (λ k. get_elem? (set r.buf r.head x) (((r.head + 1) % length r.buf + i) % k))
              (length-set r.buf r.head x)
            ∙ full_slot r.buf s x r.head h.headed (h.counted ∙ full)
                (λ j lj. h.slots j (omega arith)) i (omega arith);
      })

  -- Pushing keeps the ring in step with the bounded queue.
  pub push-Holds :
      (r : Ring A) (s : List A) (x : A) → Holds r s → Holds (push r x) (enqueue (length r.buf) s x)
  push-Holds r s x h = elim (Bool-cases (ltb r.n (length r.buf))) [
    | inl room ↦
        let e : length s + 1 - length r.buf ≡ 0 = ground (arith, h.counted) in
        rw e (push_room-Holds r s x h (ground arith))
    | inr full ↦
        let n_full : r.n ≡ length r.buf = ground (arith, h.bounded) in
        let e : length s + 1 - length r.buf ≡ 1 = omega (arith, h.counted, h.sized) in
        rw e (
          subst (Holds (push r x)) (drop-append s (omega (arith, h.counted, h.sized)))
            (push_full-Holds r s x h n_full))
  ]
    where
      drop-append : (t : List A) → 0 < length t → drop 1 t ++ x ∷ [] ≡ drop 1 (t ++ x ∷ [])
      drop-append [] lt = elim lt [ ]
      drop-append (y ∷ ys) lt = refl
