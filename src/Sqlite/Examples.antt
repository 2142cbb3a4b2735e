-- ===== src/Sqlite/Examples.antt =====
-- Runs of the delegate of mobile/web/drift_worker.dart.js, over an SQLite whose statements have no rows.
use bojairu.Prelude.{
  ℕ, zero, suc, ◌+◌, ◌<◌, ◌≤◌, ◌≡◌, ◌≢◌, refl, sym, ap, ◌∙◌, Bool, true, false, none, some, List,
  [], ◌∷◌, if◌then◌else◌, ◌==◌, length, arith, Bool-cases, inl, inr,
}
use bojairu.Prelude.Dict.{string_Eq}
use bojairu.Prelude.Int.{pos}
use bojairu.Protocol.{int_value}
use bojairu.Sqlite.{Compiled, Sqlite, Delegate}
use bojairu.Sqlite.Caching.{
  find_statement, opened_delegate, SqlCommand, run_text, select_text, run_texts, perform_all,
  close_delegate,
}
use bojairu.Sqlite.Owning.{SqliteLaws, IsPlain, opened_by, total, has_raw}
use bojairu.Sqlite.Keeping.{statements}
use bojairu.Sqlite.Recency.{IsRecent, find_statement_lem}
use bojairu.Sqlite.Laws.{perform_all_lem, opened_delegate-Holds}

-- The next pointer, and which are open.
abbrev Memory : Type 0
Memory = ℕ × (ℕ → Bool)

abbrev compile_text : List ℕ → ℕ → Memory → Memory × Compiled
compile_text bs j (n, open_ones) =
    if open_ones n then ((n, open_ones), record { code = 7; statement = none; tail = 0 }) else (
      (suc n, λ p. if n == p then true else open_ones p),
      record { code = 0; statement = some n; tail = suc j + length bs },
    )

abbrev rowless : Sqlite
rowless = record {
  World = Memory;
  Error = ℕ;
  to_bytes = λ a. 1 ∷ [];
  compile = compile_text;
  finalize = λ r w. (w.0, λ p. if r == p then false else w.1 p);
  reset_statement = λ r w. w;
  is_explain = λ w r. 0;
  parameter_count = λ w r. 1;
  bind_null = λ r i w. (w, 0);
  bind_int64 = λ r i z w. (w, 0);
  bind_double = λ r i x w. (w, 0);
  bind_text = λ r i bs w. (w, 0);
  bind_blob = λ r i bs w. (w, 0);
  step = λ r w. (w, 101);
  rows_left = λ w r. 0;
  column_count = λ w r. 0;
  column_type = λ w r i. 5;
  column_int64 = λ w r i. pos 0;
  column_double = λ w r i. 0;
  column_text = λ w r i. "";
  column_blob = λ w r i. [];
  execute_script = λ a w. (w, 0);
  close_connection = λ w. (w, 0);
  error_of = λ w c. c;
}

compile_text_live :
    (bs : List ℕ) (j n p : ℕ) (open_ones : ℕ → Bool)
    → (if (compile_text bs j (n, open_ones)).0.1 p then 1 else 0)
      ≡ (if open_ones p then 1 else 0) + opened_by (compile_text bs j (n, open_ones)).1.statement p
compile_text_live bs j n p open_ones = elim (Bool-cases (open_ones n)) [
  | inl b ↦ rw b (ground arith)
  | inr b ↦ elim (Bool-cases (n == p)) [
    | inl e ↦
        let k : n ≡ p = ground (arith, e) in
        let c : open_ones p ≡ false = ap open_ones (sym k) ∙ b in rw (b, c, e) refl
    | inr e ↦ rw (b, e) (omega arith)
  ]
]

compile_text_error :
    (bs : List ℕ) (j : ℕ) (w : Memory)
    → (compile_text bs j w).1.code ≢ 0
    → (compile_text bs j w).1.statement ≡ none
compile_text_error bs j w h = elim (Bool-cases (w.1 w.0)) [
  | inl b ↦ rw b refl
  | inr b ↦ absurd (h (rw b refl))
]

compile_text_tail :
    (bs : List ℕ) (j : ℕ) (w : Memory)
    → (compile_text bs j w).1.code ≡ 0
    → j < (compile_text bs j w).1.tail
compile_text_tail bs j w h = elim (Bool-cases (w.1 w.0)) [
  | inl b ↦ let r = rw b at h in absurd (omega (arith, r))
  | inr b ↦ rw b (omega arith)
]

rowless_laws : SqliteLaws rowless
rowless_laws = record {
  live = λ w p. if w.1 p then 1 else 0;
  live_le = λ w p. ground arith;
  compile_live = λ bs j w p. compile_text_live bs j w.0 p w.1;
  compile_error = compile_text_error;
  compile_tail = λ bs j w h k n. compile_text_tail bs j w h;
  finalize_live = λ r w p h. ground arith;
  finalize_explain = λ r w p n. refl;
  reset_explain = λ r w p. refl;
  reset_live = λ r w p. refl;
  bind_null_live = λ r i w p. refl;
  bind_int64_live = λ r i z w p. refl;
  bind_double_live = λ r i x w p. refl;
  bind_text_live = λ r i bs w p. refl;
  bind_blob_live = λ r i bs w p. refl;
  step_live = λ r w p. refl;
  script_live = λ a w p. refl;
  close_live = λ w p. omega arith;
}

abbrev empty_memory : Memory
empty_memory = (5, λ p. false)

nothing_open : (p : ℕ) → rowless_laws.live empty_memory p ≡ 0
unfolding rowless_laws
nothing_open p = refl

-- A statement that is kept, a query of the same text, and a batch.
abbrev commands : List SqlCommand
commands =
    run_text "INSERT" (int_value (pos 1) ∷ [])
    ∷ (select_text "INSERT" (int_value (pos 2) ∷ []) ∷ (run_texts ("A" ∷ ("B" ∷ [])) [] ∷ []))

plain : IsPlain (1 ∷ [])
plain zero h e = omega (arith, e)
plain (suc j) h e = absurd (omega (arith, h))

abbrev afterwards : Delegate rowless
afterwards = perform_all commands (opened_delegate empty_memory)

perform_all_lem_example :
    (rowless_laws.live afterwards.world 5 ≡ total (has_raw 5) (statements afterwards.kept))
    × (length afterwards.kept ≤ 64)
    × (rowless_laws.live (close_delegate afterwards).0.world 5 ≡ 0)
perform_all_lem_example =
    perform_all_lem rowless_laws empty_memory commands 5
      (plain, (plain, ((plain, (plain, tt)), tt))) nothing_open

find_statement_lem_example :
    IsRecent rowless_laws "INSERT"
      (opened_delegate empty_memory)
      (find_statement "INSERT" (opened_delegate empty_memory))
find_statement_lem_example =
    find_statement_lem rowless_laws "INSERT" (opened_delegate empty_memory)
      (opened_delegate-Holds rowless_laws empty_memory nothing_open)
