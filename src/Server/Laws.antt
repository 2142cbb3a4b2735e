-- ===== src/Server/Laws.antt =====
-- How the database server of mobile/web/drift_worker.dart.js ends its transactions, and whom it tells
-- of updates.
use mathlib.Core.Path.{subst}
use bojairu.Prelude.{
  ℕ, ◌+◌, ◌≡◌, refl, sym, ap, ◌∙◌, ◌⊎◌, inl, inr, Bool, true, false, none, some, List, [], ◌∷◌,
  if◌then◌else◌, ◌==◌, map, All, arith, Bool-cases, ◌||◌,
}
use bojairu.Prelude.Dict.{lookup-insert_same, nat_Eq}
use bojairu.Prelude.Int.{pos}
use bojairu.Protocol.{
  Request, TableUpdate, tables_updated, begin_transaction, commit, rollback, primitive_int,
}
use bojairu.Channel.{Channel, tell, send, request}
use bojairu.Executors.{has_turn, put_executor, release, take_out, find_executor}
use bojairu.Executors.Ending.{IsOver, release-IsOver}
use bojairu.Server.{
  Completion, returned, thrown, Backend, of_database, Server, Served, ended, with_executor,
  begin_with, release_id, rolled_back, control_transaction, control, notify,
}

module _ {b : Backend} where
  with_executor_lem :
      (s : Server b) (n : ℕ) (x : b.Executor) (f : b.Executor → Served b)
      → find_executor s.executors (some n) ≡ some (some x)
      → with_executor s (some (pos n)) f ≡ f x
  with_executor_lem s n x f h = rw h refl

  -- How a commit of the transaction `n` may end.
  abbrev IsReleased : Server b → ℕ → Served b → Type 0
  IsReleased s n r =
      ((r.1 ≡ returned none) × (r.0.executors ≡ release s.executors n))
      ⊎ ((e : b.Error) × (r.1 ≡ thrown (of_database e)) × (r.0.executors ≡ s.executors))

  committed :
      (s : Server b) (n : ℕ) (c : b.World × Completion b.Error Unit)
      → IsReleased s n (ended s c (λ r u. release_id (some (pos n)) r))
  unfolding release_id
  committed s n (w, returned u) = inl (refl, refl)
  committed s n (w, thrown e) = inr (e, refl, refl)

  rolled_back_lem :
      (s : Server b) (n : ℕ) (c : b.World × Completion b.Error Unit)
      → (rolled_back (some (pos n)) s c).0.executors ≡ release s.executors n
  unfolding rolled_back
  rolled_back_lem s n (w, returned u) = refl
  rolled_back_lem s n (w, thrown e) = refl

  control_eq :
      (client n : ℕ) (s : Server b) (x : b.Executor)
      → find_executor s.executors (some n) ≡ some (some x)
      → b.is_transaction x ≡ true
      → (control client commit (some (pos n)) s
          ≡ ended s (b.commit_executor x s.world) (λ r u. release_id (some (pos n)) r))
        × (control client rollback (some (pos n)) s
            ≡ rolled_back (some (pos n)) s (b.roll_back_executor x s.world))
  unfolding control control_transaction
  control_eq client n s x h k = (rw (h, k) refl, rw (h, k) refl)

  control_releases :
      (client n : ℕ) (s : Server b) (x : b.Executor)
      → find_executor s.executors (some n) ≡ some (some x)
      → b.is_transaction x ≡ true
      → ((control client rollback (some (pos n)) s).0.executors ≡ release s.executors n)
        × IsReleased s n (control client commit (some (pos n)) s)
  control_releases client n s x h k =
      let e = control_eq client n s x h k in
      (
        ap (λ r. r.0.executors) e.1 ∙ rolled_back_lem s n (b.roll_back_executor x s.world),
        rw e.0 (committed s n (b.commit_executor x s.world)),
      )

  -- How a commit of the transaction `n` may end.
  abbrev pub IsCommitted : Server b → ℕ → Served b → Type 0
  IsCommitted s n r =
      ((r.1 ≡ returned none) × IsOver s.executors n r.0.executors)
      ⊎ ((e : b.Error) × (r.1 ≡ thrown (of_database e)) × (r.0.executors ≡ s.executors))

  -- Where a transaction that the server knows and that is one has its turn, it is over once its
  -- rollback was asked for, whatever the database does with it: it is taken off the stack of turns
  -- and is no longer found, and the other transactions and the next id stay. Where its commit is
  -- asked for, either it succeeds and the transaction is over in the same way, or the error is
  -- passed on and all transactions stay as they were.
  pub control_lem :
      (client n : ℕ) (s : Server b) (x : b.Executor)
      → has_turn s.executors (some n) ≡ true
      → find_executor s.executors (some n) ≡ some (some x)
      → b.is_transaction x ≡ true
      → IsOver s.executors n (control client rollback (some (pos n)) s).0.executors
        × IsCommitted s n (control client commit (some (pos n)) s)
  control_lem client n s x t h k =
      let over = release-IsOver s.executors n t in
      let r = control_releases client n s x h k in
      (
        subst (IsOver s.executors n) (sym r.0) over,
        elim r.1 [ inl c ↦ inl (c.0, subst (IsOver s.executors n) (sym c.1) over) | inr c ↦ inr c ],
      )

  -- A transaction that is begun outside of all others: its executor, and the state that it leaves.
  abbrev begun : Server b → b.World → b.Executor → Server b
  begun s w x = record s { world = w; executors = put_executor s.executors x }

  begin_eq :
      (client : ℕ) (s : Server b) (c : Bool)
      → (b.open_executor
          (b.begin b.database s.world).1
          client
          s.version
          (b.begin b.database s.world).0).1
        ≡ returned c
      → (w : b.World) × (control client begin_transaction none s ≡ (
        begun s w (b.begin b.database s.world).1,
        returned (some (primitive_int (pos (s.executors).next_id))),
      ))
  unfolding control begin_with
  begin_eq client s c h =
      let r =
        b.open_executor (b.begin b.database s.world).1 client s.version
          (b.begin b.database s.world).0 in
      opened r h
    where
      x : b.Executor
      x = (b.begin b.database s.world).1

      opened :
          (r : b.World × Completion b.Error Bool)
          → r.1 ≡ returned c
          → (w : b.World) × (ended s r (λ q a. (
            record q { executors = put_executor q.executors x },
            returned (some (primitive_int (pos (q.executors).next_id))),
          ))
              ≡ (begun s w x, returned (some (primitive_int (pos (s.executors).next_id)))))
      opened (w, returned a) h = (w, refl)
      opened (w, thrown e) h = absurd (cc h)

  begun_found :
      (s : Server b) (w : b.World) (x : b.Executor)
      → find_executor (begun s w x).executors (some (s.executors).next_id) ≡ some (some x)
  unfolding find_executor put_executor
  begun_found s w x =
      rw (find_executor, lookup-insert_same (s.executors).next_id x (s.executors).open_ones) refl

  release_begun :
      (s : Server b) (w : b.World) (x : b.Executor)
      → (release (begun s w x).executors (s.executors).next_id).stack ≡ (s.executors).stack
  unfolding release put_executor take_out
  release_begun s w x =
      let e : ((s.executors).next_id == (s.executors).next_id) ≡ true = ground arith in rw e refl

  -- A transaction that is begun outside of all others, and that the database opens, has the next
  -- id; when it is rolled back under that id the turns are as they were, even if the rollback
  -- fails.
  pub control-control :
      (client : ℕ) (s : Server b) (c : Bool)
      → (b.open_executor
          (b.begin b.database s.world).1
          client
          s.version
          (b.begin b.database s.world).0).1
        ≡ returned c
      → b.is_transaction (b.begin b.database s.world).1 ≡ true
      → ((control client begin_transaction none s).1
          ≡ returned (some (primitive_int (pos (s.executors).next_id))))
        × ((control client rollback
              (some (pos (s.executors).next_id))
              (control client begin_transaction none s).0).0.executors.stack
            ≡ (s.executors).stack)
  control-control client s c h k =
      let x = (b.begin b.database s.world).1 in
      let n = (s.executors).next_id in
      let begins = begin_eq client s c h in
      let t = begun s begins.0 x in
      let ends = control_releases client n t x (begun_found s begins.0 x) k in
      (
        ap (λ r. r.1) begins.1,
        ap (λ r. (control client rollback (some (pos n)) r.0).0.executors.stack) begins.1
            ∙ ap (λ r. r.stack) ends.0
            ∙ release_begun s begins.0 x,
      )

-- A channel that takes messages.
abbrev pub IsOpen : {R E : Type 0} → Channel Request R E → Type 0
IsOpen ch = (ch.closing || ch.ended) ≡ false

abbrev pub with_message :
    {R E : Type 0} → ℕ → List TableUpdate → ℕ × Channel Request R E → ℕ × Channel Request R E
with_message i us (j, ch) = if j == i then (j, ch) else (
  j,
  record ch { next_id = ch.next_id + 1; sent = request ch.next_id (tables_updated us) ∷ ch.sent },
)

-- Where all channels take messages, the updates that come from one channel are sent to every other
-- one, each with the channel's next id, and nothing else changes.
pub notify_lem :
    {R E : Type 0} (i : ℕ) (us : List TableUpdate) (cs : List (ℕ × Channel Request R E))
    → All (λ c. IsOpen c.1) cs
    → notify i us cs ≡ (map (with_message i us) cs, true)
unfolding notify tell send
notify_lem i us [] h = refl
notify_lem i us ((j, ch) ∷ cs) h = elim (Bool-cases (j == i)) [
  | inl e ↦ rw (e, notify_lem i us cs h.1) refl
  | inr e ↦ rw (e, h.0, notify_lem i us cs h.1) refl
]
