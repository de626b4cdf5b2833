-- ===== src/Gateway/Limiter/Sweep.antt =====
-- The sweep of an address table keeps its two halves in step.
use asty.Common.{
  ℕ, ◌≤◌, ◌≡◌, refl, ap, ◌∙◌, some, List, [], ◌∷◌, Text, arith, ltb, if◌then◌else◌, same_refl,
  length, inl, inr, Bool-cases, Option-cases,
}
use asty.Common.Map.{Map, lookup, erase, has}
use asty.Common.Once.{length-erase}
use asty.Gateway.Limiter.{IpEntry, IpTable, sweep, cleanup_expired}
use asty.Gateway.Limiter.Table.{IsSound, drop-IsSound}

module _ {L : Type 0} where
  -- One turn of the loop, on an entry that the map has.
  sweep_step :
      (cutoff : ℕ) (ip : Text) (rest : List Text) (m : Map (IpEntry L)) (e : IpEntry L)
      → lookup ip m ≡ some e
      → sweep cutoff (ip ∷ rest) m ≡ (
          if ltb e.last_seen cutoff
          then sweep cutoff rest (erase ip m)
          else some (record { m = m; lst = ip ∷ rest }))
  unfolding sweep
  sweep_step cutoff ip rest m e p = ground (arith, p)

  sweep_lem :
      (cutoff : ℕ) (l : List Text) (m : Map (IpEntry L))
      → IsSound {L = L} (record { m = m; lst = l })
      → (t' : IpTable L) × (sweep cutoff l m ≡ some t') × IsSound t' × (length t'.m ≤ length m)
  sweep_lem cutoff [] m s = (record { m = m; lst = [] }, unfold sweep in refl, s, omega arith)
  sweep_lem cutoff (ip ∷ rest) m s = elim (Option-cases (lookup ip m)) [
    | inl p ↦ absurd (unfold has in ground (arith, s.agree ip, same_refl ip, p))
    | inr (e, p) ↦ elim (Bool-cases (ltb e.last_seen cutoff)) [
      | inr fresh ↦ (
        record { m = m; lst = ip ∷ rest },
        sweep_step cutoff ip rest m e p
            ∙ ap
                (λ c.
                  if c
                  then sweep cutoff rest (erase ip m)
                  else some (record { m = m; lst = ip ∷ rest }))
                fresh,
        s,
        omega arith,
      )
      | inl old ↦
          let (t', q, s', b) = sweep_lem cutoff rest (erase ip m) (drop-IsSound ip rest m s) in
          (
            t',
            sweep_step cutoff ip rest m e p
                ∙ ap
                    (λ c.
                      if c
                      then sweep cutoff rest (erase ip m)
                      else some (record { m = m; lst = ip ∷ rest }))
                    old
                ∙ q,
            s',
            omega (arith, b, length-erase ip m s.keyed),
          )
    ]
  ]

  -- A sweep of a table whose halves agree comes to its end without a panic, leaves a table whose
  -- halves agree and adds no entry.
  pub cleanup_expired-IsSound :
      (cutoff : ℕ) (t : IpTable L)
      → IsSound t
      → (t' : IpTable L) × (cleanup_expired cutoff t ≡ some t')
        × IsSound t'
        × (length t'.m ≤ length t.m)
  unfolding cleanup_expired
  cleanup_expired-IsSound cutoff t s = sweep_lem cutoff t.lst t.m s
