-- ===== src/Lock/Order.antt =====
-- The jobs behind the lock of mobile/web/drift_worker.dart.js run one at a time, in the order in which
-- they came, and none is forgotten.
use bojairu.Prelude.{
  ℕ, zero, suc, ◌-◌, ◌≤◌, ◌≡◌, refl, sym, ap, ◌∙◌, ◌⊎◌, inl, inr, true, none, some, List, [], ◌∷◌,
  length, length-append, arith,
}
use bojairu.Prelude.Dict.{lookup, nat_Eq}
use bojairu.Lock.{Lock, Reachable}
use bojairu.Lock.Queue.{upto, IsQueue, idle, busy, ready, Reachable-IsQueue}

length-upto : (k : ℕ) → length (upto k) ≡ k
length-upto zero = refl
length-upto (suc k) = ground (arith, length-append (upto k) (k ∷ []), length-upto k)

-- A lock that nobody has or waits for, one that the last job to start has, or one whose next job waits
-- for a future that is complete.
abbrev pub IsLive : Lock → Type 0
IsLive s =
    ((s.tail ≡ none) × (s.waiting ≡ []) × (s.running ≡ []))
    ⊎ ((s.running ≡ (length s.begun - 1) ∷ [])
        ⊎ ((r : ℕ) × (lookup (length s.begun) s.waiting ≡ some r) × (s.complete r ≡ true)))

IsQueue-IsLive : (s : Lock) → IsQueue s → IsLive s
unfolding lookup
IsQueue-IsLive s (idle k t e w u b c) = inl (t, w, u)
IsQueue-IsLive s (busy k m t e w u b c) = inr (
    inl (
      let l : length s.begun ≡ suc k = rw b (length-upto (suc k)) in
      let j : suc k - 1 ≡ k = omega arith in rw (l, j) u))
IsQueue-IsLive s (ready p m t e w u b c) =
    let l : length s.begun ≡ suc p = rw b (length-upto (suc p)) in
    inr (inr (p, rw (l, w) (ground arith), ground (arith, c p)))

IsQueue-one : (s : Lock) → IsQueue s → length s.running ≤ 1
IsQueue-one s (idle k t e w u b c) = rw u (omega arith)
IsQueue-one s (busy k m t e w u b c) = rw u (omega arith)
IsQueue-one s (ready p m t e w u b c) = rw u (omega arith)

begun_upto : (l : List ℕ) (k : ℕ) → l ≡ upto k → l ≡ upto (length l)
begun_upto l k e = e ∙ ap upto (sym (ap (λ (x : List ℕ). length x) e ∙ length-upto k))

IsQueue-in_turn : (s : Lock) → IsQueue s → s.begun ≡ upto (length s.begun)
IsQueue-in_turn s (idle k t e w u b c) = begun_upto s.begun k b
IsQueue-in_turn s (busy k m t e w u b c) = begun_upto s.begun (suc k) b
IsQueue-in_turn s (ready p m t e w u b c) = begun_upto s.begun (suc p) b

-- In every state that the lock reaches from a new one, by jobs that come, jobs that have waited and
-- start once the one before them has ended, and ends of jobs: at most one job runs, and the jobs
-- that have started are those that came first, in their order. Either the lock is free and nothing
-- runs or waits, or the last job that started runs, or the next one waits for a future that is
-- complete.
pub Reachable_lem :
    (s : Lock) → Reachable s → (length s.running ≤ 1) × (s.begun ≡ upto (length s.begun)) × IsLive s
Reachable_lem s q =
    let i = Reachable-IsQueue s q in (IsQueue-one s i, IsQueue-in_turn s i, IsQueue-IsLive s i)
