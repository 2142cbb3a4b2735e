-- ===== src/Cancels/Laws.antt =====
-- Which queries a cancellation in mobile/web/drift_worker.dart.js reaches.
use bojairu.Prelude.{
  ℕ, suc, ◌≡◌, ◌≢◌, ◌<◌, refl, ◌∙◌, true, false, none, some, arith, if◌then◌else◌, ◌==◌,
  Option-cases, inl, inr,
}
use bojairu.Prelude.Dict.{lookup, remove, lookup-insert, lookup-remove, nat_Eq}
use bojairu.Cancels.{
  Cancels, start_query, cancel_query, goes_on, end_query, Possible, initial, came, called_off, went,
}

-- The map has the running queries, each under the id of its request.
record IsExact (s : Cancels) : Type 0 where
  known : (t i : ℕ) → lookup t s.queries ≡ some i → lookup i s.operations ≡ some t
  runs : (t i : ℕ) → lookup i s.operations ≡ some t → lookup t s.queries ≡ some i
  old : (t i : ℕ) → lookup t s.queries ≡ some i → t < s.next

start_query-IsExact :
    (s : Cancels) (i : ℕ)
    → ((t : ℕ) → lookup t s.queries ≢ some i)
    → IsExact s
    → IsExact (start_query i s)
unfolding start_query lookup
start_query-IsExact s i new v = record {
  known = λ t j h. ground (arith, h, lookup-insert i j s.next s.operations, v.known t j, new t);
  runs = λ t j h. ground (arith, h, lookup-insert i j s.next s.operations, v.runs t j, v.old t j);
  old = λ t j h. ground (arith, h, v.old t j);
}

cancel_query-same :
    (s : Cancels) (i : ℕ)
    → ((cancel_query i s).operations ≡ s.operations)
      × ((cancel_query i s).queries ≡ s.queries)
      × ((cancel_query i s).next ≡ s.next)
unfolding cancel_query
cancel_query-same s i = elim (Option-cases (lookup i s.operations)) [
  | inl e ↦ rw (e, cancel_query) (refl, refl, refl)
  | inr (t, e) ↦ rw (e, cancel_query) (refl, refl, refl)
]

cancel_query-IsExact : (s : Cancels) (i : ℕ) → IsExact s → IsExact (cancel_query i s)
cancel_query-IsExact s i v =
    let (a, b, c) = cancel_query-same s i in
    record {
      known = λ t j. rw (a, b) (v.known t j);
      runs = λ t j. rw (a, b) (v.runs t j);
      old = λ t j. rw (b, c) (v.old t j);
    }

end_query-IsExact : (s : Cancels) (t : ℕ) → IsExact s → IsExact (end_query t s)
unfolding end_query
end_query-IsExact s t v = elim (Option-cases (lookup t s.queries)) [
  | inl e ↦ rw (e, end_query) v
  | inr (i, e) ↦
      rw (e, end_query)
        (record {
          known = λ u j h. ground (
            arith,
            h,
            e,
            lookup-remove t u s.queries,
            lookup-remove i j s.operations,
            v.known u j,
            v.known t i,
          );
          runs = λ u j h. ground (
            arith,
            h,
            e,
            lookup-remove t u s.queries,
            lookup-remove i j s.operations,
            v.runs u j,
          );
          old = λ u j h. ground (arith, h, lookup-remove t u s.queries, v.old u j);
        })
]

Possible-IsExact : (s : Cancels) → Possible s → IsExact s
unfolding lookup
Possible-IsExact s initial = record {
  known = λ t i h. cc h;
  runs = λ t i h. cc h;
  old = λ t i h. absurd (cc h);
}
Possible-IsExact _ (came s i new q) = start_query-IsExact s i new (Possible-IsExact s q)
Possible-IsExact _ (called_off s i q) = cancel_query-IsExact s i (Possible-IsExact s q)
Possible-IsExact _ (went s t q) = end_query-IsExact s t (Possible-IsExact s q)

-- Where queries start, are cancelled and end in any order, and none starts under the id of one that
-- runs: a cancellation stops the running query with that id, and for every other running query
-- leaves it as it was whether it goes on.
pub goes_on-cancel_query :
    (s : Cancels) (i t j : ℕ)
    → Possible s
    → lookup t s.queries ≡ some j
    → goes_on (cancel_query i s) t ≡ (if j == i then false else goes_on s t)
unfolding cancel_query
goes_on-cancel_query s i t j q h =
    let v = Possible-IsExact s q in
    elim (Option-cases (lookup i s.operations)) [
      | inl e ↦ rw (e, cancel_query) (ground (arith, e, v.known t j h))
      | inr (u, e) ↦ rw (e, cancel_query) (ground (arith, e, h, v.known t j h, v.runs u i e))
    ]

goes_on-found :
    (s : Cancels) (i t u : ℕ)
    → lookup i s.operations ≡ some t
    → goes_on (cancel_query i s) u ≡ (if u == t then false else goes_on s u)
unfolding cancel_query
goes_on-found s i t u e = rw (e, cancel_query) (ground arith)

cancel_query-missing : (s : Cancels) (i : ℕ) → lookup i s.operations ≡ none → cancel_query i s ≡ s
unfolding cancel_query
cancel_query-missing s i e = rw (e, cancel_query) refl

operations-end_query :
    (s : Cancels) (t i : ℕ)
    → lookup t s.queries ≡ some i
    → (end_query t s).operations ≡ remove i s.operations
unfolding end_query
operations-end_query s t i e = rw (e, end_query) refl

started_lem :
    (s : Cancels) (i : ℕ)
    → (lookup i (start_query i s).operations ≡ some s.next)
      × (lookup s.next (start_query i s).queries ≡ some i)
      × (goes_on (start_query i s) s.next ≡ true)
      × ((start_query i s).next ≡ suc s.next)
unfolding start_query lookup
started_lem s i =
    (ground (arith, lookup-insert i i s.next s.operations), ground arith, ground arith, refl)

goes_on-start_query_other :
    (s : Cancels) (i t : ℕ) → t < s.next → goes_on (start_query i s) t ≡ goes_on s t
unfolding start_query
goes_on-start_query_other s i t h = ground (arith, h)

-- Where two queries with the same id start one after the other, as those of two clients may, a
-- cancellation of that id stops the second one and not the first, and once the second has ended a
-- cancellation of that id changes nothing.
pub goes_on-start_query :
    (s : Cancels) (i : ℕ)
    → (goes_on (cancel_query i (start_query i (start_query i s))) s.next ≡ true)
      × (goes_on (cancel_query i (start_query i (start_query i s))) (suc s.next) ≡ false)
      × (cancel_query i (end_query (suc s.next) (start_query i (start_query i s)))
          ≡ end_query (suc s.next) (start_query i (start_query i s)))
unfolding start_query
goes_on-start_query s i =
    let s₁ = start_query i s in
    let s₂ = start_query i s₁ in
    let (a, b, c, next) = started_lem s i in
    let (a', b', c', next') = started_lem s₁ i in
    let there : lookup i s₂.operations ≡ some (suc s.next) = rw next at a' in
    let runs : lookup (suc s.next) s₂.queries ≡ some i = rw next at b' in
    let gone : lookup i (end_query (suc s.next) s₂).operations ≡ none =
      rw (operations-end_query s₂ (suc s.next) i runs)
        (ground (arith, lookup-remove i i s₂.operations)) in
    (
      goes_on-found s₂ i (suc s.next) s.next there
          ∙ ground (arith, goes_on-start_query_other s₁ i s.next (omega (arith, next)), c),
      goes_on-found s₂ i (suc s.next) (suc s.next) there ∙ ground arith,
      cancel_query-missing (end_query (suc s.next) s₂) i gone,
    )
