-- ===== src/Lock/Queue.antt =====
-- The states that the lock of mobile/web/drift_worker.dart.js can reach.
use mathlib.Core.Path.{subst}
use bojairu.Prelude.{
  ℕ, zero, suc, ◌+◌, ◌≤◌, ◌≡◌, refl, sym, ap, inl, inr, true, Option, none, some, List, [], ◌∷◌,
  ◌++◌, ◌==◌, ltb, arith, Bool-cases, among,
}
use bojairu.Prelude.Dict.{lookup, remove, nat_Eq}
use bojairu.Lock.{
  Lock, begin_job, acquire_after, acquire, resume_job, end_job, Reachable, created, acquired,
  resumed, ended,
}

-- `m` jobs that wait one for the other, the first for `p`.
abbrev pub chain : ℕ → ℕ → List (ℕ × ℕ)
chain p zero = []
chain p (suc m) = (suc p, p) ∷ chain (suc p) m

abbrev pub upto : ℕ → List ℕ
upto zero = []
upto (suc n) = upto n ++ (n ∷ [])

chain-append : (p m : ℕ) → chain p m ++ ((suc (p + m), p + m) ∷ []) ≡ chain p (suc m)
chain-append p zero = let e : p + 0 ≡ p = omega arith in rw e refl
chain-append p (suc m) =
    let e : p + suc m ≡ suc p + m = omega arith in
    rw e (ap (λ l. (suc p, p) ∷ l) (chain-append (suc p) m))

lookup-chain : (p m n r : ℕ) → lookup n (chain p m) ≡ some r → (n ≡ suc r) × (p ≤ r)
unfolding lookup
lookup-chain p zero n r h = absurd (cc h)
lookup-chain p (suc m) n r h = elim (Bool-cases (suc p == n)) [
  | inl e ↦ let q = rw e at h in ground (arith, e, q)
  | inr e ↦ let q = rw e at h in let k = lookup-chain (suc p) m n r q in (k.0, omega (arith, k.1))
]

remove-chain : (p m n : ℕ) → n ≤ p → remove n (chain p m) ≡ chain p m
unfolding remove
remove-chain p zero n h = refl
remove-chain p (suc m) n h = ground (arith, remove-chain (suc p) m n)

remove-chain_first : (p m : ℕ) → remove (suc p) (chain p (suc m)) ≡ chain (suc p) m
unfolding remove
remove-chain_first p m = ground (arith, remove-chain (suc p) m (suc p))

-- No job; one that runs, with `m` behind it; or one that has ended, with `m + 1` behind it.
pub data IsQueue (s : Lock) : Type 0 where
  idle :
      (k : ℕ)
      → s.tail ≡ none
      → s.next ≡ k
      → s.waiting ≡ []
      → s.running ≡ []
      → s.begun ≡ upto k
      → ((i : ℕ) → s.complete i ≡ ltb i k)
      → IsQueue s
  busy :
      (k m : ℕ)
      → s.tail ≡ some (k + m)
      → s.next ≡ suc (k + m)
      → s.waiting ≡ chain k m
      → s.running ≡ k ∷ []
      → s.begun ≡ upto (suc k)
      → ((i : ℕ) → s.complete i ≡ ltb i k)
      → IsQueue s
  ready :
      (p m : ℕ)
      → s.tail ≡ some (suc p + m)
      → s.next ≡ suc (suc p + m)
      → s.waiting ≡ chain p (suc m)
      → s.running ≡ []
      → s.begun ≡ upto (suc p)
      → ((i : ℕ) → s.complete i ≡ ltb i (suc p))
      → IsQueue s

acquire-IsQueue : (s : Lock) → IsQueue s → IsQueue (acquire s)
unfolding acquire begin_job
acquire-IsQueue s (idle k t n w r b c) =
    subst (λ (x : Option ℕ). IsQueue (acquire_after x s)) (sym t)
      (busy k 0 (grind (arith, n)) (omega (arith, n)) w (cc (n, r)) (cc (n, b)) c)
acquire-IsQueue s (busy k m t n w r b c) =
    subst (λ (x : Option ℕ). IsQueue (acquire_after x s)) (sym t)
      (busy k (suc m) (grind (arith, n)) (omega (arith, n)) (rw (w, n) (chain-append k m)) r b c)
acquire-IsQueue s (ready p m t n w r b c) =
    subst (λ (x : Option ℕ). IsQueue (acquire_after x s)) (sym t)
      (ready p (suc m) (grind (arith, n)) (omega (arith, n))
        (let e : suc p + m ≡ p + suc m = omega arith in rw (w, n, e) (chain-append p (suc m))) r b
        c)

resume_job-IsQueue :
    (s : Lock) (n r : ℕ)
    → lookup n s.waiting ≡ some r
    → s.complete r ≡ true
    → IsQueue s
    → IsQueue (resume_job n s)
unfolding resume_job begin_job lookup
resume_job-IsQueue s n r h d (idle k t e w u b c) = absurd (let q = rw w at h in cc q)
resume_job-IsQueue s n r h d (busy k m t e w u b c) =
    let q = lookup-chain k m n r (rw w at h) in absurd (ground (arith, q.1, c r, d))
resume_job-IsQueue s n r h d (ready p m t e w u b c) =
    let q = lookup-chain p (suc m) n r (rw w at h) in
    let l : r ≡ p = ground (arith, q.1, c r, d) in
    let i : n ≡ suc p = cc (l, q.0) in
    subst (λ (x : ℕ). IsQueue (resume_job x s)) (sym i)
      (busy (suc p) m t e (rw w (remove-chain_first p m)) (rw u refl) (rw b refl) c)

among-one : (n k : ℕ) → among n (k ∷ []) ≡ true → n ≡ k
among-one n k h = ground (arith, h)

end_first :
    (s : Lock) (k m : ℕ)
    → s.tail ≡ some (k + m)
    → s.next ≡ suc (k + m)
    → s.waiting ≡ chain k m
    → s.running ≡ k ∷ []
    → s.begun ≡ upto (suc k)
    → ((i : ℕ) → s.complete i ≡ ltb i k)
    → IsQueue (end_job k s)
unfolding end_job
end_first s k zero t e w u b c =
    idle (suc k) (rw t (ground arith)) (omega (arith, e)) w (rw u (ground arith)) b
      (λ i. ground (arith, c i))
end_first s k (suc m) t e w u b c =
    ready k m (rw t (ground arith)) (omega (arith, e)) w (rw u (ground arith)) b
      (λ i. ground (arith, c i))

end_job-IsQueue : (s : Lock) (n : ℕ) → among n s.running ≡ true → IsQueue s → IsQueue (end_job n s)
end_job-IsQueue s n h (idle k t e w u b c) = absurd (let q = rw u at h in cc q)
end_job-IsQueue s n h (busy k m t e w u b c) =
    subst (λ (x : ℕ). IsQueue (end_job x s)) (sym (among-one n k (rw u at h)))
      (end_first s k m t e w u b c)
end_job-IsQueue s n h (ready p m t e w u b c) = absurd (let q = rw u at h in cc q)

pub Reachable-IsQueue : (s : Lock) → Reachable s → IsQueue s
Reachable-IsQueue s created = idle 0 refl refl refl refl refl (λ i. ground arith)
Reachable-IsQueue _ (acquired s q) = acquire-IsQueue s (Reachable-IsQueue s q)
Reachable-IsQueue _ (resumed s n r h d q) = resume_job-IsQueue s n r h d (Reachable-IsQueue s q)
Reachable-IsQueue _ (ended s n h q) = end_job-IsQueue s n h (Reachable-IsQueue s q)
