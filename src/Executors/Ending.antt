-- ===== src/Executors/Ending.antt =====
-- The end of a transaction of mobile/web/drift_worker.dart.js, `A.kS`, that has its turn.
use bojairu.Prelude.{ℕ, ◌≡◌, ◌≢◌, refl, ap, true, none, some, List, [], ◌∷◌, ◌==◌, ==_iff, arith}
use bojairu.Prelude.Dict.{lookup-remove, nat_Eq}
use bojairu.Executors.{Executors, take_out, release, has_turn, find_executor}

module _ {X : Type 0} where
  -- The transaction on top of the stack is over: it is off the stack and no longer found, and the
  -- other transactions and the next id are as they were.
  abbrev pub IsOver : Executors X → ℕ → Executors X → Type 0
  IsOver e n e' =
      (e.stack ≡ n ∷ e'.stack)
      × (find_executor e' (some n) ≡ none)
      × ((k : ℕ) → k ≢ n → find_executor e' (some k) ≡ find_executor e (some k))
      × (e'.next_id ≡ e.next_id)

  top_of :
      (e : Executors X) (w : List ℕ) (n : ℕ)
      → e.stack ≡ w
      → has_turn e (some n) ≡ true
      → w ≡ n ∷ take_out n w
  unfolding has_turn take_out
  top_of e [] n h t = absurd (ground (arith, h, t))
  top_of e (j ∷ w) n h t =
      let same : (j == n) ≡ true = ground (arith, h, t) in
      let here : j ≡ n = ground (arith, same, ==_iff j n) in rw same (ap (λ i. i ∷ w) here)

  pub release-IsOver :
      (e : Executors X) (n : ℕ) → has_turn e (some n) ≡ true → IsOver e n (release e n)
  unfolding release find_executor
  release-IsOver e n t = (
    top_of e e.stack n refl t,
    ground (arith, lookup-remove n n e.open_ones, ==_iff n n),
    λ k m. ground (arith, lookup-remove n k e.open_ones, ==_iff n k),
    refl,
  )
