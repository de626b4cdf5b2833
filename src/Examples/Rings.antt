-- ===== src/Examples/Rings.antt =====
-- A ring of three slots after five items.
use asty.Common.{ℕ, ◌≡◌, refl, some, List, [], ◌∷◌, replicate}
use asty.Common.Int.{pos}
use asty.Ringbuf.{Ring, new, snapshot}
use asty.Ringbuf.Refine.{push_all}
use asty.Ringbuf.Snapshot.{snapshot-push_all}

abbrev three : Ring ℕ
three = record { buf = replicate 3 0; head = 0; n = 0 }

abbrev items : List ℕ
items = 1 ∷ (2 ∷ (3 ∷ (4 ∷ (5 ∷ []))))

snapshot-push_all_example : snapshot (push_all three items) ≡ some (3 ∷ (4 ∷ (5 ∷ [])))
unfolding new
snapshot-push_all_example = snapshot-push_all 0 (pos 3) three items refl
