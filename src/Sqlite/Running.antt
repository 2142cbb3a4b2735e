-- ===== src/Sqlite/Running.antt =====
-- Running a prepared statement of mobile/web/drift_worker.dart.js opens and closes no statement.
use bojairu.Prelude.{
  ℕ, zero, suc, ◌≡◌, refl, Bool, true, false, ◌||◌, Option, none, some, List, [], ◌∷◌,
  if◌then◌else◌, ◌==◌, length, Bool-cases, inl, inr, map,
}
use bojairu.Protocol.{
  Value, null_value, bool_value, int_value, double_value, text_value, big_value, bytes_value,
  int_list,
}
use bojairu.Prelude.Int.{ℤ, pos}
use bojairu.Protocol.Casts.{to_byte}
use bojairu.Server.{Completion, returned, thrown}
use bojairu.Sqlite.{
  Sqlite, SqlFault, closed_fault, Statement, Delegate, SqlTask, continue, ◌>>=◌, pure, fail,
  call_sqlite, check_code, rewind,
}
use bojairu.Sqlite.Statements.{
  check_open, is_int64, bind_value, bind_values, bind_all, mark_used, step_through, run_statement,
  execute, read_row, collect, select_rows,
}
use bojairu.Sqlite.Owning.{SqliteLaws, Calm, Calm-refl, Calm-trans, mark_fresh-Calm, rewind-Calm}

module _ {q : Sqlite} (l : SqliteLaws q) where
  abbrev pub QuietAt : {A : Type 0} → SqlTask q A → Delegate q → Type 0
  QuietAt m d = Calm l d (m d).0

  abbrev pub Quiet : {A : Type 0} → SqlTask q A → Type 0
  Quiet m = (d : Delegate q) → QuietAt m d

  continue-Quiet :
      {A B : Type 0} (d : Delegate q) (r : Delegate q × Completion (SqlFault q.Error) A)
      (f : A → SqlTask q B)
      → Calm l d r.0
      → ((a : A) → QuietAt (f a) r.0)
      → Calm l d (continue r f).0
  continue-Quiet d (e, returned a) f h k = Calm-trans l d e (f a e).0 h (k a)
  continue-Quiet d (e, thrown x) f h k = h

  pub chosen-Quiet :
      {A : Type 0} (d : Delegate q) (c : Bool) (r t : Delegate q × Completion (SqlFault q.Error) A)
      → (c ≡ true → Calm l d r.0)
      → (c ≡ false → Calm l d t.0)
      → Calm l d (if c then r else t).0
  chosen-Quiet d true r t h k = h refl
  chosen-Quiet d false r t h k = k refl

  pub bind-Quiet :
      {A B : Type 0} (m : SqlTask q A) (f : A → SqlTask q B)
      → Quiet m
      → ((a : A) → Quiet (f a))
      → Quiet (m >>= f)
  bind-Quiet m f h k d = continue-Quiet d (m d) f (h d) (λ a. k a (m d).0)

  pub check_code-Quiet : (c : ℕ) → Quiet (check_code {q = q} c)
  check_code-Quiet c d = elim (Bool-cases (c == 0)) [
    | inl e ↦ rw e (Calm-refl l d)
    | inr e ↦ rw e (Calm-refl l d)
  ]

  -- A call of SQLite that opens and closes no statement.
  same_live-Calm :
      (d : Delegate q) (w : q.World)
      → ((p : ℕ) → l.live w p ≡ l.live d.world p)
      → Calm l d (record d { world = w })
  same_live-Calm d w h = record {
    alive = h;
    same_next = refl;
    same_kept = refl;
    same_closed = λ i. refl;
  }

  pub checked-Quiet :
      (f : q.World → q.World × ℕ)
      → ((w : q.World) (p : ℕ) → l.live (f w).0 p ≡ l.live w p)
      → Quiet (call_sqlite f >>= check_code)
  checked-Quiet f h =
      bind-Quiet (call_sqlite f) check_code (λ d. same_live-Calm d (f d.world).0 (h d.world))
        check_code-Quiet

  bind_value-Quiet : (s : Statement) (i : ℕ) (v : Value) → Quiet (bind_value {q = q} s i v)
  unfolding bind_value
  bind_value-Quiet s i null_value = checked-Quiet (q.bind_null s.raw i) (l.bind_null_live s.raw i)
  bind_value-Quiet s i (int_value z) =
      checked-Quiet (q.bind_int64 s.raw i z) (l.bind_int64_live s.raw i z)
  bind_value-Quiet s i (big_value z) = λ d. elim (Bool-cases (is_int64 z)) [
    | inl e ↦ rw e (checked-Quiet (q.bind_int64 s.raw i z) (l.bind_int64_live s.raw i z) d)
    | inr e ↦ rw e (Calm-refl l d)
  ]
  bind_value-Quiet s i (bool_value b) =
      let z : ℤ = pos (if b then 1 else 0) in
      checked-Quiet (q.bind_int64 s.raw i z) (l.bind_int64_live s.raw i z)
  bind_value-Quiet s i (double_value x) =
      checked-Quiet (q.bind_double s.raw i x) (l.bind_double_live s.raw i x)
  bind_value-Quiet s i (text_value t) =
      checked-Quiet (q.bind_text s.raw i (q.to_bytes t)) (l.bind_text_live s.raw i (q.to_bytes t))
  bind_value-Quiet s i (bytes_value bs) =
      checked-Quiet (q.bind_blob s.raw i bs) (l.bind_blob_live s.raw i bs)
  bind_value-Quiet s i (int_list zs) =
      let bs = map to_byte zs in
      checked-Quiet (q.bind_blob s.raw i bs) (l.bind_blob_live s.raw i bs)

  bind_values-Quiet : (s : Statement) (i : ℕ) (vs : List Value) → Quiet (bind_values {q = q} s i vs)
  unfolding bind_values
  bind_values-Quiet s i [] = λ d. Calm-refl l d
  bind_values-Quiet s i (v ∷ vs) =
      bind-Quiet (bind_value s i v) (λ u. bind_values s (suc i) vs) (bind_value-Quiet s i v)
        (λ u. bind_values-Quiet s (suc i) vs)

  bind_all-Quiet : (s : Statement) (vs : List Value) → Quiet (bind_all {q = q} s vs)
  unfolding bind_all
  bind_all-Quiet s vs d = elim (Bool-cases (length vs == q.parameter_count d.world s.raw)) [
    | inl e ↦ rw e (bind_values-Quiet s 1 vs d)
    | inr e ↦ rw e (Calm-refl l d)
  ]

  mark_used-Quiet : (s : Statement) → Quiet (mark_used {q = q} s)
  mark_used-Quiet s d = mark_fresh-Calm l d d.world s.id false (λ p. refl)

  step_through-Quiet : (fuel : ℕ) (s : Statement) → Quiet (step_through fuel s)
  unfolding step_through
  step_through-Quiet zero s d = Calm-refl l d
  step_through-Quiet (suc fuel) s d =
      let e : Delegate q = record d { world = (q.step s.raw d.world).0 } in
      let c : Calm l d e = same_live-Calm d (q.step s.raw d.world).0 (l.step_live s.raw d.world) in
      elim (Bool-cases ((q.step s.raw d.world).1 == 100)) [
        | inl b ↦ rw b (Calm-trans l d e (step_through fuel s e).0 c (step_through-Quiet fuel s e))
        | inr b ↦ elim (Bool-cases ((q.step s.raw d.world).1 == 101)) [
          | inl k ↦ rw (b, k) c
          | inr k ↦
              let r = check_code-Quiet (q.step s.raw d.world).1 e in
              rw (b, k) (Calm-trans l d e (check_code (q.step s.raw d.world).1 e).0 c r)
        ]
      ]

  run_statement-Quiet : (s : Statement) → Quiet (run_statement {q = q} s)
  unfolding run_statement
  run_statement-Quiet s d =
      continue-Quiet d (mark_used s d) (λ u. step_through (suc (q.rows_left d.world s.raw)) s)
        (mark_used-Quiet s d)
        (λ u. step_through-Quiet (suc (q.rows_left d.world s.raw)) s (mark_used s d).0)

  check_open-Quiet : (s : Statement) → Quiet (check_open {q = q} s)
  check_open-Quiet s d =
      chosen-Quiet d ((d.flags s.id).closed || d.shut) (fail closed_fault d) (pure tt d)
        (λ b. Calm-refl l d) (λ b. Calm-refl l d)

  -- After `fb` and `eI`.
  rewound-Quiet :
      {A : Type 0} (s : Statement) (m : SqlTask q A) → Quiet m → Quiet (λ d. m (rewind s d))
  rewound-Quiet s m h d =
      let c = rewind-Calm l s d in Calm-trans l d (rewind s d) (m (rewind s d)).0 c (h (rewind s d))

  pub execute-Quiet : (s : Statement) (vs : List Value) → Quiet (execute {q = q} s vs)
  unfolding execute
  execute-Quiet s vs =
      bind-Quiet (check_open s) (λ u d. (bind_all s vs >>= (λ u. run_statement s)) (rewind s d))
        (check_open-Quiet s)
        (λ u. rewound-Quiet s (bind_all s vs >>= (λ u. run_statement s)) (
          bind-Quiet (bind_all s vs) (λ u. run_statement s) (bind_all-Quiet s vs)
            (λ u. run_statement-Quiet s)))

  collect-Quiet : (fuel : ℕ) (s : Statement) (columns : Option ℕ) → Quiet (collect fuel s columns)
  unfolding collect
  collect-Quiet zero s columns d = Calm-refl l d
  collect-Quiet (suc fuel) s columns d =
      let e : Delegate q = record d { world = (q.step s.raw d.world).0 } in
      let c : Calm l d e = same_live-Calm d (q.step s.raw d.world).0 (l.step_live s.raw d.world) in
      let n : ℕ = elim columns [ none ↦ q.column_count e.world s.raw | some n ↦ n ] in
      let row : List Value = read_row q e.world s.raw 0 n in
      chosen-Quiet d ((q.step s.raw d.world).1 == 100)
        (continue (collect fuel s (some n) e) (λ rows. pure (row ∷ rows)))
        (if (q.step s.raw d.world).1 == 101
          then pure [] e
          else continue (check_code (q.step s.raw d.world).1 e) (λ u. pure []))
        (λ b.
          continue-Quiet d (collect fuel s (some n) e) (λ rows. pure (row ∷ rows))
            (Calm-trans l d e (collect fuel s (some n) e).0 c (collect-Quiet fuel s (some n) e))
            (λ rows. Calm-refl l (collect fuel s (some n) e).0))
        (λ b.
          chosen-Quiet d ((q.step s.raw d.world).1 == 101) (pure [] e)
            (continue (check_code (q.step s.raw d.world).1 e) (λ u. pure [])) (λ k. c)
            (λ k.
              let r = check_code-Quiet (q.step s.raw d.world).1 e in
              continue-Quiet d (check_code (q.step s.raw d.world).1 e) (λ u. pure [])
                (Calm-trans l d e (check_code (q.step s.raw d.world).1 e).0 c r)
                (λ u. Calm-refl l (check_code (q.step s.raw d.world).1 e).0)))

  pub select_rows-Quiet : (s : Statement) (vs : List Value) → Quiet (select_rows {q = q} s vs)
  unfolding select_rows
  select_rows-Quiet s vs =
      let rows : SqlTask q (List (List Value)) =
        λ e. collect (suc (q.rows_left e.world s.raw)) s none e in
      bind-Quiet (check_open s)
        (λ u d. (bind_all s vs >>= (λ u. mark_used s >>= (λ u. rows))) (rewind s d))
        (check_open-Quiet s)
        (λ u. rewound-Quiet s (bind_all s vs >>= (λ u. mark_used s >>= (λ u. rows))) (
          bind-Quiet (bind_all s vs) (λ u. mark_used s >>= (λ u. rows)) (bind_all-Quiet s vs)
            (λ u.
              bind-Quiet (mark_used s) (λ u. rows) (mark_used-Quiet s)
                (λ u e. collect-Quiet (suc (q.rows_left e.world s.raw)) s none e))))
