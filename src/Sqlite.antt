-- ===== src/Sqlite.antt =====
-- The prepared statements of mobile/web/drift_worker.dart.js: the statements `A.dn` of a database
-- `A.h_`, and the state of the delegate `A.iS`, which keeps some of them for later. SQLite's own
-- functions are a parameter.
pub mod Caching
pub mod Compiling
mod Examples
pub mod Keeping
pub mod Laws
pub mod Owning
pub mod Preparing
pub mod Recency
pub mod Running
pub mod Statements
use Prim.Native.String.{String}
use bojairu.Prelude.{
  ℕ, zero, suc, ◌+◌, ◌-◌, ◌<◌, ◌≤◌, ◌≡◌, ◌≢◌, Bool, true, false, ◌&&◌, ◌||◌, not, Option, none,
  some, List, [], ◌∷◌, map, if◌then◌else◌, ◌==◌, length, ltb,
}
use bojairu.Prelude.Int.{ℤ, pos, negsuc}
use bojairu.Protocol.{
  Value, null_value, bool_value, int_value, double_value, text_value, big_value, bytes_value,
  int_list,
}
use bojairu.Protocol.Casts.{to_byte}
use bojairu.Server.{Completion, returned, thrown}

-- What `sqlite3_prepare_v3` gives: its code, the statement, and how far it has read.
pub record Compiled : Type 0 where
  pub code : ℕ
  pub statement : Option ℕ
  pub tail : ℕ

-- SQLite, over a state of a database connection. A statement is the number of its pointer.
pub record Sqlite : Type 1 where
  pub World : Type 0
  pub Error : Type 0
  -- UTF-8
  pub to_bytes : String → List ℕ
  -- `sqlite3_prepare_v3` from an offset of the text on
  pub compile : List ℕ → ℕ → World → World × Compiled
  pub finalize : ℕ → World → World
  pub reset_statement : ℕ → World → World
  pub is_explain : World → ℕ → ℕ
  pub parameter_count : World → ℕ → ℕ
  pub bind_null : ℕ → ℕ → World → World × ℕ
  pub bind_int64 : ℕ → ℕ → ℤ → World → World × ℕ
  pub bind_double : ℕ → ℕ → ℕ → World → World × ℕ
  pub bind_text : ℕ → ℕ → List ℕ → World → World × ℕ
  pub bind_blob : ℕ → ℕ → List ℕ → World → World × ℕ
  pub step : ℕ → World → World × ℕ
  -- for how many rows a statement is followed, at least as many as it has left if these are finitely
  -- many
  pub rows_left : World → ℕ → ℕ
  pub column_count : World → ℕ → ℕ
  pub column_type : World → ℕ → ℕ → ℕ
  pub column_int64 : World → ℕ → ℕ → ℤ
  pub column_double : World → ℕ → ℕ → ℕ
  pub column_text : World → ℕ → ℕ → String
  pub column_blob : World → ℕ → ℕ → List ℕ
  -- `sqlite3_exec` and `sqlite3_close_v2`
  pub execute_script : String → World → World × ℕ
  pub close_connection : World → World × ℕ
  -- `oR`
  pub error_of : World → ℕ → Error

-- The exceptions. `endless` stands for a loop that does not end.
pub data SqlFault (E : Type 0) : Type 0 where
  of_sqlite : E → SqlFault E
  closed_fault : SqlFault E
  argument_fault : SqlFault E
  big_int_fault : SqlFault E
  range_fault : SqlFault E
  endless : SqlFault E

-- `A.dn`: the object, and its SQLite statement. The fields `r` and `f`, which change, are those of
-- `Flags`.
pub record Statement : Type 0 where
  pub id : ℕ
  pub raw : ℕ

pub record Flags : Type 0 where
  pub closed : Bool
  pub fresh : Bool

-- `A.iS` with its database: the objects that were created, the kept statements in the order of the
-- map, and whether the database is closed.
pub record Delegate (q : Sqlite) : Type 0 where
  pub world : q.World
  pub next : ℕ
  pub flags : ℕ → Flags
  pub kept : List (String × Statement)
  pub shut : Bool

abbrev pub SqlTask : Sqlite → Type 0 → Type 0
SqlTask q A = Delegate q → Delegate q × Completion (SqlFault q.Error) A

abbrev pub update : (ℕ → Flags) → ℕ → Flags → ℕ → Flags
update f i x j = if i == j then x else f j

module _ {q : Sqlite} where
  abbrev pub continue :
      {A B : Type 0}
      → Delegate q × Completion (SqlFault q.Error) A
      → (A → SqlTask q B)
      → Delegate q × Completion (SqlFault q.Error) B
  continue (d, returned a) f = f a d
  continue (d, thrown e) f = (d, thrown e)

  infixl 5 ◌>>=◌
  abbrev pub ◌>>=◌ : {A B : Type 0} → SqlTask q A → (A → SqlTask q B) → SqlTask q B
  m >>= f = λ d. continue (m d) f

  abbrev pub pure : {A : Type 0} → A → SqlTask q A
  pure a d = (d, returned a)

  abbrev pub fail : {A : Type 0} → SqlFault q.Error → SqlTask q A
  fail e d = (d, thrown e)

  -- `try m finally g`, where `g` does not throw.
  abbrev pub finally : {A : Type 0} → SqlTask q A → (Delegate q → Delegate q) → SqlTask q A
  finally m g d = (g (m d).0, (m d).1)

  -- A call of SQLite, with its code.
  abbrev pub call_sqlite : (q.World → q.World × ℕ) → SqlTask q ℕ
  call_sqlite f d = (record d { world = (f d.world).0 }, returned (f d.world).1)

  -- `fF`
  abbrev pub throw_code : {A : Type 0} → ℕ → SqlTask q A
  throw_code c d = (d, thrown (of_sqlite (q.error_of d.world c)))

  abbrev pub check_code : ℕ → SqlTask q Unit
  check_code c = if c == 0 then pure tt else throw_code c

  -- `new A.dn(f, e, ...)`
  unfoldable pub new_statement : ℕ → Delegate q → Delegate q × Statement
  new_statement p d = (
    record d {
      next = suc d.next;
      flags = update d.flags d.next (record { closed = false; fresh = true });
    },
    record { id = d.next; raw = p },
  )

  -- `eI`
  unfoldable pub rewind : Statement → Delegate q → Delegate q
  rewind s d = if (d.flags s.id).fresh then d else record d {
    world = q.reset_statement s.raw d.world;
    flags = update d.flags s.id (record (d.flags s.id) { fresh = true });
  }

  -- The body of `n`, for a statement that is open.
  unfoldable pub finalize_statement : Statement → Delegate q → Delegate q
  unfolding rewind
  finalize_statement s d =
      let e =
        rewind s
          (record d { flags = update d.flags s.id (record (d.flags s.id) { closed = true }) }) in
      record e { world = q.finalize s.raw e.world }

  -- `n` of `A.dn`, and the loops that do the same.
  unfoldable pub dispose : Statement → Delegate q → Delegate q
  unfolding finalize_statement
  dispose s d = if (d.flags s.id).closed then d else finalize_statement s d

  unfoldable pub dispose_all : List Statement → Delegate q → Delegate q
  unfolding dispose
  dispose_all [] d = d
  dispose_all (s ∷ ss) d = dispose_all ss (dispose s d)
