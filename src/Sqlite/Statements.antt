-- ===== src/Sqlite/Statements.antt =====
-- Binding, running and reading the statements `A.dn` of mobile/web/drift_worker.dart.js.
use bojairu.Prelude.{
  ℕ, zero, suc, Bool, false, ◌||◌, Option, none, some, List, [], ◌∷◌, map, if◌then◌else◌, ◌==◌,
  length, ltb,
}
use bojairu.Prelude.Int.{ℤ, pos, negsuc}
use bojairu.Protocol.{
  Value, null_value, bool_value, int_value, double_value, text_value, big_value, bytes_value,
  int_list,
}
use bojairu.Protocol.Casts.{to_byte}
use bojairu.Server.{returned}
use bojairu.Sqlite.{
  Sqlite, closed_fault, argument_fault, big_int_fault, endless, Statement, SqlTask, update, ◌>>=◌,
  pure, fail, call_sqlite, check_code, rewind,
}

-- `pf`: whether a number fits 64 bits.
abbrev pub is_int64 : ℤ → Bool
is_int64 (pos n) = ltb n 9223372036854775808
is_int64 (negsuc n) = ltb n 9223372036854775808

module _ (q : Sqlite) where
  -- `j0`
  abbrev pub read_column : q.World → ℕ → ℕ → Value
  read_column w p i =
      let t = q.column_type w p i in
      if t == 1
      then read_integer (q.column_int64 w p i)
      else if t == 2
      then double_value (q.column_double w p i)
      else if t == 3
      then text_value (q.column_text w p i)
      else if t == 4
      then bytes_value (q.column_blob w p i)
      else null_value
    where
      read_integer : ℤ → Value
      read_integer (pos n) = if ltb n 9007199254740993 then int_value (pos n) else big_value (pos n)
      read_integer (negsuc n) =
          if ltb n 9007199254740992 then int_value (negsuc n) else big_value (negsuc n)

  -- The columns of a row, from the `i`th on.
  abbrev pub read_row : q.World → ℕ → ℕ → ℕ → List Value
  read_row w p i zero = []
  read_row w p i (suc n) = read_column w p i ∷ read_row w p (suc i) n

module _ {q : Sqlite} where
  -- `fb`
  abbrev pub check_open : Statement → SqlTask q Unit
  check_open s d = if (d.flags s.id).closed || d.shut then fail closed_fault d else pure tt d

  -- `i1`
  unfoldable pub bind_value : Statement → ℕ → Value → SqlTask q Unit
  bind_value s i null_value = call_sqlite (q.bind_null s.raw i) >>= check_code
  bind_value s i (int_value z) = call_sqlite (q.bind_int64 s.raw i z) >>= check_code
  bind_value s i (big_value z) =
      if is_int64 z then call_sqlite (q.bind_int64 s.raw i z) >>= check_code else fail big_int_fault
  bind_value s i (bool_value b) =
      call_sqlite (q.bind_int64 s.raw i (pos (if b then 1 else 0))) >>= check_code
  bind_value s i (double_value x) = call_sqlite (q.bind_double s.raw i x) >>= check_code
  bind_value s i (text_value t) = call_sqlite (q.bind_text s.raw i (q.to_bytes t)) >>= check_code
  bind_value s i (bytes_value bs) = call_sqlite (q.bind_blob s.raw i bs) >>= check_code
  bind_value s i (int_list zs) = call_sqlite (q.bind_blob s.raw i (map to_byte zs)) >>= check_code

  unfoldable pub bind_values : Statement → ℕ → List Value → SqlTask q Unit
  unfolding bind_value
  bind_values s i [] = pure tt
  bind_values s i (v ∷ vs) = bind_value s i v >>= (λ u. bind_values s (suc i) vs)

  -- `dt` and `i0`
  unfoldable pub bind_all : Statement → List Value → SqlTask q Unit
  unfolding bind_values
  bind_all s vs d =
      if length vs == q.parameter_count d.world s.raw
      then bind_values s 1 vs d
      else fail argument_fault d

  abbrev pub mark_used : Statement → SqlTask q Unit
  mark_used s d = (
    record d { flags = update d.flags s.id (record (d.flags s.id) { fresh = false }) },
    returned tt,
  )

  -- The loop of `fe`: steps while there are rows.
  unfoldable pub step_through : ℕ → Statement → SqlTask q Unit
  step_through zero s = fail endless
  step_through (suc fuel) s = λ d.
      let r = q.step s.raw d.world in
      let e = record d { world = r.0 } in
      let rest = step_through fuel s e in
      if r.1 == 100 then rest else if r.1 == 101 then pure tt e else check_code r.1 e

  -- `fe`
  unfoldable pub run_statement : Statement → SqlTask q Unit
  unfolding step_through
  run_statement s d = (mark_used s >>= (λ u. step_through (suc (q.rows_left d.world s.raw)) s)) d

  -- `h5`
  unfoldable pub execute : Statement → List Value → SqlTask q Unit
  unfolding rewind bind_all run_statement
  execute s vs =
      check_open s >>= (λ u. λ d. (bind_all s vs >>= (λ u. run_statement s)) (rewind s d))

  -- The loop of `je`: the rows, with the number of columns once it is known (`q`).
  unfoldable pub collect : ℕ → Statement → Option ℕ → SqlTask q (List (List Value))
  collect zero s columns = fail endless
  collect (suc fuel) s columns = λ d.
      let r = q.step s.raw d.world in
      let e = record d { world = r.0 } in
      let n : ℕ = elim columns [ none ↦ q.column_count r.0 s.raw | some n ↦ n ] in
      let rest = (collect fuel s (some n) >>= (λ rows. pure (read_row q r.0 s.raw 0 n ∷ rows))) e in
      if r.1 == 100
      then rest
      else if r.1 == 101
      then pure [] e
      else (check_code r.1 >>= (λ u. pure [])) e

  -- `eP`, with `je`
  unfoldable pub select_rows : Statement → List Value → SqlTask q (List (List Value))
  unfolding rewind bind_all collect
  select_rows s vs = check_open s >>= (λ u. λ d.
      (bind_all s vs
          >>= (λ u. mark_used s >>= (λ u. λ e. collect (suc (q.rows_left e.world s.raw)) s none e)))
        (rewind s d))
