-- ===== src/Gateway/Limiter/Table.antt =====
-- The two halves of an address table agree, and the table keeps its bound.
use asty.Common.{
  subst, ℕ, suc, ◌≤◌, ◌≡◌, refl, ap, ◌∙◌, true, false, List, [], ◌∷◌, ◌++◌, Text, arith,
  if◌then◌else◌, same_iff, same_refl, length, max, inl, inr, Bool-cases, Option-cases,
  length-append,
}
use asty.Common.Int.{ℤ, pos, leb_ℤ, pos_part}
use asty.Common.Map.{
  Map, is_some, lookup, insert, erase, has, del, lookup-insert, lookup-erase, has-del, has-append,
}
use asty.Common.Once.{
  Once, Keyed, Once-del, Once-append, length-del, Keyed-erase, Keyed-insert, length-erase,
  length-insert,
}
use asty.Gateway.Limiter.{IpEntry, IpTable, evict_from, push_front, found, get}

-- The list and the map have the same addresses, each once.
pub record IsSound {L : Type 0} (t : IpTable L) : Type 0 where
  pub agree : (k : Text) → has k t.lst ≡ is_some (lookup k t.m)
  pub once : Once t.lst
  pub keyed : Keyed t.m
  pub sized : length t.m ≡ length t.lst

del_ahead : (ip old : Text) (rest : List Text) → has ip (old ∷ rest) ≡ false → has ip rest ≡ false
unfolding has
del_ahead ip old rest h = ground arith

module _ {L : Type 0} where
  -- What a write to an address that is new, and the newest, leaves.
  push_front-IsSound :
      (ip : Text) (e : IpEntry L) (t : IpTable L)
      → IsSound t
      → has ip t.lst ≡ false
      → IsSound (push_front ip e t)
  unfolding push_front has
  push_front-IsSound ip e t s h = record {
    agree = λ k.
        ground
          (arith, s.agree k, has-append k t.lst (ip ∷ []), lookup-insert ip k e t.m, same_iff ip k);
    once = Once-append ip t.lst h s.once;
    keyed = Keyed-insert ip e t.m s.keyed;
    sized =
        ground (
          arith,
          s.agree ip,
          s.sized,
          h,
          length-insert ip e t.m,
          length-append {0} t.lst (ip ∷ []),
        );
  }

  touch-IsSound :
      (ip : Text) (e : IpEntry L) (t : IpTable L)
      → IsSound t
      → has ip t.lst ≡ true
      → IsSound {L = L} (record { m = insert ip e t.m; lst = del ip t.lst ++ ip ∷ [] })
  unfolding has
  touch-IsSound ip e t s h = record {
    agree = λ k. ground (
      arith,
      s.agree k,
      h,
      has-append k (del ip t.lst) (ip ∷ []),
      has-del ip k t.lst,
      lookup-insert ip k e t.m,
      same_iff ip k,
    );
    once =
        Once-append ip (del ip t.lst) (ground (arith, has-del ip ip t.lst, same_refl ip))
          (Once-del ip t.lst s.once);
    keyed = Keyed-insert ip e t.m s.keyed;
    sized = ground (
      arith,
      s.agree ip,
      s.sized,
      h,
      length-insert ip e t.m,
      length-del ip t.lst s.once,
      length-append {0} (del ip t.lst) (ip ∷ []),
    );
  }

  pub drop-IsSound :
      (old : Text) (rest : List Text) (m : Map (IpEntry L))
      → IsSound {L = L} (record { m = m; lst = old ∷ rest })
      → IsSound {L = L} (record { m = erase old m; lst = rest })
  unfolding has
  drop-IsSound old rest m s = record {
    agree = λ k. ground (arith, s.agree k, s.once.0, lookup-erase old k m, same_iff old k);
    once = s.once.1;
    keyed = Keyed-erase old m s.keyed;
    sized = ground (arith, s.agree old, s.sized, same_refl old, length-erase old m s.keyed);
  }

  -- What `get` does before it adds a new address: room is made in a full table.
  room_lem :
      (max_ips : ℤ) (ip : Text) (l : List Text) (t : IpTable L)
      → t.lst ≡ l
      → IsSound t
      → has ip t.lst ≡ false
      → length t.m ≤ max 1 (pos_part max_ips)
      → let room = if leb_ℤ max_ips (pos (length t.m)) then evict_from l t else t in
        IsSound room × (has ip room.lst ≡ false) × (suc (length room.m) ≤ max 1 (pos_part max_ips))
  unfolding evict_from
  room_lem max_ips ip l t e s h b = elim (Bool-cases (leb_ℤ max_ips (pos (length t.m)))) [
    | inr roomy ↦ rw roomy (s, h, ground arith)
    | inl full ↦ rw full (full_lem l e)
  ]
    where
      full_lem :
          (x : List Text)
          → t.lst ≡ x
          → IsSound (evict_from x t)
            × (has ip (evict_from x t).lst ≡ false)
            × (suc (length (evict_from x t).m) ≤ max 1 (pos_part max_ips))
      full_lem [] p = (s, h, omega (arith, s.sized, ap length p))
      full_lem (old ∷ rest) p =
          let s' : IsSound {L = L} (record { m = t.m; lst = old ∷ rest }) =
            subst (λ x. IsSound {L = L} (record { m = t.m; lst = x })) p s in
          let d = drop-IsSound old rest t.m s' in
          (
            d,
            del_ahead ip old rest (subst (λ x. has ip x ≡ false) p h),
            omega (arith, d.sized, s'.sized, b),
          )

  push_front-length :
      (ip : Text) (e : IpEntry L) (room : IpTable L) (n : ℕ)
      → suc (length room.m) ≤ n
      → length (push_front ip e room).m ≤ n
  unfolding push_front
  push_front-length ip e room n h = ground (arith, length-insert ip e room.m)

  -- A call of `get` keeps the map and the list in step, and a table that is within its bound, which
  -- is `max_ips` but at least 1, stays within it. The address asked for becomes the most recent.
  pub get-IsSound :
      (max_ips : ℤ) (ip : Text) (l : L) (now : ℕ) (t : IpTable L)
      → IsSound t
      → length t.m ≤ max 1 (pos_part max_ips)
      → let t' = (get max_ips ip l now t).1 in
        IsSound t'
        × (length t'.m ≤ max 1 (pos_part max_ips))
        × ((rest : List Text) × (t'.lst ≡ rest ++ ip ∷ []))
  unfolding get found
  get-IsSound max_ips ip l now t s b = elim (Option-cases (lookup ip t.m)) [
    | inr (e, p) ↦
        let t' = touch-IsSound ip (record e { last_seen = now }) t s (s.agree ip ∙ ap is_some p) in
        rw p (
          t',
          ground (arith, b, p, length-insert ip (record e { last_seen = now }) t.m),
          (del ip t.lst, refl),
        )
    | inl p ↦
        let r = room_lem max_ips ip t.lst t refl s (s.agree ip ∙ ap is_some p) b in
        let room = if leb_ℤ max_ips (pos (length t.m)) then evict_from t.lst t else t in
        let e : IpEntry L = record { limiter = l; last_seen = now } in
        rw p (
          push_front-IsSound ip e room r.0 r.1,
          push_front-length ip e room _ r.2,
          (room.lst, unfold push_front in refl),
        )
  ]
