-- ===== src/Opfs/Life.antt =====
-- How the OPFS worker of mobile/web/drift_worker.dart.js starts (`A.i2`), and the states that it comes
-- to: rounds of its loop, waits, and what the client and the browser do in between.
use Prim.Native.String.{String}
use bojairu.Prelude.{
  ℕ, ◌≡◌, true, false, none, some, List, [], Bool-cases, inl, inr, arith, Option-cases,
}
use bojairu.Prelude.Dict.{lookup, nat_Eq}
use bojairu.Prelude.Int.{ℤ}
use bojairu.Opfs.{Opfs, OpenFile, Worker, Message, answer, Action, ◌>>=◌}
use bojairu.Opfs.Serving.{Operation, idle, walk}
use bojairu.Opfs.Rounds.{round}
use bojairu.Opfs.Invariant.{IsValid, idle-IsValid}
use bojairu.Opfs.Locks.{idle_lem}
use bojairu.Opfs.Steps.{Valid, bind-Keeps, walk-Keeps}
use bojairu.Opfs.Handles.Locking.{round-IsValid}

module _ {o : Opfs} where
  -- What is in the shared memory, and the disk with its top directory.
  abbrev pub initial : o.Disk → o.Directory → List ℕ → Message → ℤ → Worker o
  initial d top bs m n = record {
    disk = d;
    root = top;
    next = 0;
    open_files = [];
    implicit = [];
    memory = bs;
    message = m;
    name_length = n;
    stopped = false;
  }

  -- `A.i2`: the worker's directory, which is created where it is missing.
  unfoldable pub start : String → Action o Unit
  unfolding walk
  start root w =
      (walk (o.split root) true w.root >>= (λ d. λ w. (record w { root = d }, answer tt))) w

  -- The states of a worker that has started. The client writes into the shared memory, and the disk
  -- changes whenever it likes.
  pub data Reachable : Worker o → Type 0 where
    begun :
        (path : String) (d : o.Disk) (top : o.Directory) (bs : List ℕ) (m : Message) (n : ℤ)
        → (start path (initial d top bs m n)).1 ≡ answer tt
        → Reachable (start path (initial d top bs m n)).0
    written :
        (w : Worker o) (bs : List ℕ) (m : Message) (n : ℤ)
        → Reachable w
        → Reachable (record w { memory = bs; message = m; name_length = n })
    changed : (w : Worker o) (d : o.Disk) → Reachable w → Reachable (record w { disk = d })
    requested : (w : Worker o) (a : Operation) → Reachable w → Reachable (round a w).0
    waited : (w : Worker o) → Reachable w → Reachable (idle w)

  start-IsValid : (path : String) (w : Worker o) → IsValid w → IsValid (start path w).0
  unfolding start
  start-IsValid path w v =
      bind-Keeps {o = o} Valid (walk (o.split path) true w.root)
        (λ d. λ w. (record w { root = d }, answer tt)) (walk-Keeps (o.split path) true w.root)
        (λ d w v. v) w v

  initial-IsValid :
      (d : o.Disk) (top : o.Directory) (bs : List ℕ) (m : Message) (n : ℤ)
      → IsValid (initial d top bs m n)
  unfolding lookup
  initial-IsValid d top bs m n = ((λ fd f e. absurd (cc e)), (λ fd f e. absurd (cc e)))

  Reachable-IsValid : (w : Worker o) → Reachable w → IsValid w
  Reachable-IsValid _ (begun path d top bs m n h) =
      start-IsValid path (initial d top bs m n) (initial-IsValid d top bs m n)
  Reachable-IsValid _ (written w bs m n r) = Reachable-IsValid w r
  Reachable-IsValid _ (changed w d r) = Reachable-IsValid w r
  Reachable-IsValid _ (requested w a r) = round-IsValid a w (Reachable-IsValid w r)
  Reachable-IsValid _ (waited w r) = idle-IsValid w (Reachable-IsValid w r)

  next-IsFresh : (w : Worker o) → IsValid w → lookup w.next w.open_files ≡ none
  next-IsFresh w v = elim (Option-cases (lookup w.next w.open_files)) [
    | inl e ↦ e
    | inr e ↦ let q = v.0 w.next e.0 e.1 in absurd (omega (arith, q))
  ]

  -- In every state that the worker reaches from its start, by requests of any kind, waits, and
  -- whatever the client writes into the shared memory and the disk does meanwhile: after a wait of
  -- 150 ms without a request no file has a handle any more, not even one that SQLite has locked;
  -- and the number that the next file gets is not in use.
  pub waiting_lem :
      (w : Worker o) (fd : ℕ) (f : OpenFile o)
      → Reachable w
      → lookup fd (idle w).open_files ≡ some f
      → (f.handle ≡ false) × (lookup w.next w.open_files ≡ none)
  waiting_lem w fd f r e = (
    elim (Bool-cases f.handle) [
      | inl h ↦
          let v : IsValid (idle w) = idle-IsValid w (Reachable-IsValid w r) in
          absurd (cc ((v.1 fd f e).1 h, (idle_lem w fd).0))
      | inr h ↦ h
    ],
    next-IsFresh w (Reachable-IsValid w r),
  )
