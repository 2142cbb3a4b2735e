-- ===== src/Cancels/Examples.antt =====
-- Runs of the cancellation of queries.
use bojairu.Prelude.{ℕ, ◌≡◌, ◌≢◌, refl, true, false, some, if◌then◌else◌, ◌==◌}
use bojairu.Prelude.Dict.{lookup, nat_Eq}
use bojairu.Cancels.{
  Cancels, no_queries, start_query, cancel_query, goes_on, end_query, Possible, initial, came,
}
use bojairu.Cancels.Laws.{goes_on-cancel_query, goes_on-start_query}

no_query : (t : ℕ) → lookup t no_queries.queries ≢ some 4
unfolding lookup
no_query t h = cc h

abbrev one_query : Cancels
one_query = start_query 4 no_queries

one_query-Possible : Possible one_query
one_query-Possible = came no_queries 4 no_query initial

it_runs : lookup 0 one_query.queries ≡ some 4
unfolding start_query lookup
it_runs = refl

goes_on-cancel_query_example :
    goes_on (cancel_query 4 one_query) 0 ≡ (if 4 == 4 then false else goes_on one_query 0)
goes_on-cancel_query_example = goes_on-cancel_query one_query 4 0 4 one_query-Possible it_runs

goes_on-start_query_example :
    (goes_on (cancel_query 4 (start_query 4 (start_query 4 no_queries))) 0 ≡ true)
    × (goes_on (cancel_query 4 (start_query 4 (start_query 4 no_queries))) 1 ≡ false)
    × (cancel_query 4 (end_query 1 (start_query 4 (start_query 4 no_queries)))
        ≡ end_query 1 (start_query 4 (start_query 4 no_queries)))
goes_on-start_query_example = goes_on-start_query no_queries 4
