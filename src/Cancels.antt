-- ===== src/Cancels.antt =====
-- The cancellation of queries in the database server `A.kS` of mobile/web/drift_worker.dart.js: the map
-- `r` from the ids of requests to the running operations `A.bU`.
pub mod Laws
mod Examples
use bojairu.Prelude.{
  ℕ, suc, ◌≡◌, ◌≢◌, Bool, true, false, not, Option, none, some, List, [], ◌∷◌, if◌then◌else◌, ◌==◌,
}
use bojairu.Prelude.Dict.{lookup, insert, remove, nat_Eq}

-- The field `r`, the queries that run, with the ids of their requests, and the field `c` of each `A.bU`.
-- A query is the number of its `A.bU`.
pub record Cancels : Type 0 where
  pub operations : List (ℕ × ℕ)
  pub next : ℕ
  pub queries : List (ℕ × ℕ)
  pub cancelled : ℕ → Bool

abbrev pub no_queries : Cancels
no_queries = record { operations = []; next = 0; queries = []; cancelled = λ t. false }

-- `A.xe` and `q.r.t(0,b.a,r)`: a query starts.
unfoldable pub start_query : ℕ → Cancels → Cancels
unfolding insert
start_query i s = record s {
  operations = insert i s.next s.operations;
  next = suc s.next;
  queries = (s.next, i) ∷ s.queries;
  cancelled = λ t. if t == s.next then false else s.cancelled t;
}

-- `K` of the operation that a `c2` names.
unfoldable pub cancel_query : ℕ → Cancels → Cancels
unfolding lookup
cancel_query i s = elim (lookup i s.operations) [
  | none ↦ s
  | some t ↦ record s { cancelled = λ u. if u == t then true else s.cancelled u }
]

-- `A.oP`: whether a query goes on.
abbrev pub goes_on : Cancels → ℕ → Bool
goes_on s t = not (s.cancelled t)

-- `A.kU`: a query has ended.
unfoldable pub end_query : ℕ → Cancels → Cancels
unfolding lookup remove
end_query t s = elim (lookup t s.queries) [
  | none ↦ s
  | some i ↦ record s { operations = remove i s.operations; queries = remove t s.queries }
]

-- Queries whose ids are not those of running ones, as those of one client are.
pub data Possible : Cancels → Type 0 where
  initial : Possible no_queries
  came :
      (s : Cancels) (i : ℕ)
      → ((t : ℕ) → lookup t s.queries ≢ some i)
      → Possible s
      → Possible (start_query i s)
  called_off : (s : Cancels) (i : ℕ) → Possible s → Possible (cancel_query i s)
  went : (s : Cancels) (t : ℕ) → Possible s → Possible (end_query t s)
