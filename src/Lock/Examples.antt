-- ===== src/Lock/Examples.antt =====
-- Runs of the lock.
use bojairu.Prelude.{◌≡◌, ◌≤◌, refl, [], ◌∷◌, length}
use bojairu.Prelude.Dict.{lookup}
use bojairu.Lock.{
  Lock, new_lock, begin_job, acquire, resume_job, end_job, Reachable, created, acquired, resumed,
  ended,
}
use bojairu.Lock.Queue.{upto}
use bojairu.Lock.Order.{IsLive, Reachable_lem}

-- Three jobs come, and the first ends.
abbrev three_jobs : Lock
three_jobs = end_job 0 (acquire (acquire (acquire new_lock)))

second_job : (resume_job 1 three_jobs).running ≡ 1 ∷ []
unfolding end_job acquire resume_job begin_job
second_job = refl

third_waits : (resume_job 1 three_jobs).waiting ≡ (2, 1) ∷ []
unfolding end_job acquire resume_job begin_job
third_waits = refl

three_jobs-Reachable : Reachable three_jobs
unfolding acquire begin_job
three_jobs-Reachable = ended _ 0 refl (acquired _ (acquired _ (acquired _ created)))

Reachable_lem_example :
    (length (resume_job 1 three_jobs).running ≤ 1)
    × ((resume_job 1 three_jobs).begun ≡ upto (length (resume_job 1 three_jobs).begun))
    × IsLive (resume_job 1 three_jobs)
unfolding end_job acquire resume_job begin_job lookup
Reachable_lem_example =
    Reachable_lem (resume_job 1 three_jobs) (resumed three_jobs 1 0 refl refl three_jobs-Reachable)
