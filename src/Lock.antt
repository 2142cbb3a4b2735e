-- ===== src/Lock.antt =====
-- The lock `A.bo` of mobile/web/drift_worker.dart.js, behind which the executors, the database and the
-- worker run one job after the other.
pub mod Queue
pub mod Order
mod Examples
use bojairu.Prelude.{
  ℕ, zero, suc, ◌≡◌, Bool, true, false, Option, none, some, List, [], ◌∷◌, ◌++◌, if◌then◌else◌,
  ◌==◌, without, among,
}
use bojairu.Prelude.Dict.{lookup, remove, nat_Eq}

-- The field `a`, and the jobs by the numbers of their futures: those that wait with the future they
-- wait for, those that run, the futures that are complete, and the jobs in the order of their start.
pub record Lock : Type 0 where
  pub tail : Option ℕ
  pub next : ℕ
  pub waiting : List (ℕ × ℕ)
  pub running : List ℕ
  pub complete : ℕ → Bool
  pub begun : List ℕ

abbrev pub new_lock : Lock
new_lock = record {
  tail = none;
  next = 0;
  waiting = [];
  running = [];
  complete = λ i. false;
  begun = [];
}

-- `A.kA`: the job starts.
unfoldable pub begin_job : ℕ → Lock → Lock
begin_job n s = record s { running = s.running ++ (n ∷ []); begun = s.begun ++ (n ∷ []) }

-- The rest of `cp` after the field `a` was read: the job starts at once, or when the one before it has
-- ended.
abbrev pub acquire_after : Option ℕ → Lock → Lock
acquire_after none s = begin_job s.next (record s { tail = some s.next; next = suc s.next })
acquire_after (some r) s = record s {
  tail = some s.next;
  next = suc s.next;
  waiting = s.waiting ++ ((s.next, r) ∷ []);
}

-- `cp`: a job comes.
unfoldable pub acquire : Lock → Lock
acquire s = acquire_after s.tail s

-- `A.kC`: a job that has waited starts.
unfoldable pub resume_job : ℕ → Lock → Lock
unfolding begin_job remove
resume_job n s = begin_job n (record s { waiting = remove n s.waiting })

abbrev pub is_tail : ℕ → Option ℕ → Bool
is_tail n none = false
is_tail n (some r) = r == n

-- `A.kB`: a job has ended, by a value or an error.
unfoldable pub end_job : ℕ → Lock → Lock
end_job n s = record s {
  tail = if is_tail n s.tail then none else s.tail;
  running = without n s.running;
  complete = λ i. if i == n then true else s.complete i;
}

-- A new job, the callback of a future that is complete, or the end of a job.
pub data Reachable : Lock → Type 0 where
  created : Reachable new_lock
  acquired : (s : Lock) → Reachable s → Reachable (acquire s)
  resumed :
      (s : Lock) (n r : ℕ)
      → lookup n s.waiting ≡ some r
      → s.complete r ≡ true
      → Reachable s
      → Reachable (resume_job n s)
  ended : (s : Lock) (n : ℕ) → among n s.running ≡ true → Reachable s → Reachable (end_job n s)
