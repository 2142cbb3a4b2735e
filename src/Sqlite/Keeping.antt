-- ===== src/Sqlite/Keeping.antt =====
-- The statements that the delegate of mobile/web/drift_worker.dart.js keeps: at most 64, each under its
-- own text, and the only ones that are open.
use mathlib.Core.Path.{subst}
use Prim.Native.String.{String}
use text.Mathlib.TextEquality.{eq_iff}
use bojairu.Prelude.{
  ℕ, ◌+◌, ◌<◌, ◌≤◌, ◌≡◌, ◌≢◌, refl, sym, ap, ◌∙◌, Bool, true, false, none, some, List, [], ◌∷◌,
  ◌++◌, ◌==◌, length, arith, Option-cases, inl, inr, map, if_elim,
}
use bojairu.Prelude.Dict.{lookup, insert, remove, string_Eq, lookup-remove, lookup-insert_other}
use bojairu.Server.{Completion, returned, thrown}
use bojairu.Sqlite.{
  Sqlite, SqlFault, Statement, update, Delegate, continue, rewind, finalize_statement, dispose,
}
use bojairu.Sqlite.Compiling.{prepare}
use bojairu.Sqlite.Caching.{make_room, keep_statement, take_or_prepare, find_statement}
use bojairu.Sqlite.Owning.{SqliteLaws, IsPlain, Owns, Owns-reorder, total, dispose-Owns}
use bojairu.Sqlite.Preparing.{Leaves, prepare-Leaves, dispose-kept}

abbrev pub Kept : Type 0
Kept = List (String × Statement)

abbrev pub statements : Kept → List Statement
statements = map (λ e. e.1)

-- No text stands twice.
abbrev pub Keyed : Kept → Type 0
Keyed [] = Unit
Keyed ((a, s) ∷ m) = (lookup a m ≡ none) × Keyed m

pub remove_absent : (a : String) (m : Kept) → lookup a m ≡ none → remove a m ≡ m
unfolding lookup remove
remove_absent a [] h = refl
remove_absent a ((b, s) ∷ m) h = ground (arith, remove_absent a m)

remove-Keyed : (a : String) (m : Kept) → Keyed m → Keyed (remove a m)
unfolding remove
remove-Keyed a [] k = tt
remove-Keyed a ((b, s) ∷ m) k = ground (arith, lookup-remove a b m, remove-Keyed a m k.1)

pub total-remove :
    (f : Statement → ℕ) (a : String) (s : Statement) (m : Kept)
    → Keyed m
    → lookup a m ≡ some s
    → f s + total f (statements (remove a m)) ≡ total f (statements m)
unfolding lookup remove
total-remove f a s [] k h = absurd (cc h)
total-remove f a s ((b, t) ∷ m) k h =
    ground (arith, eq_iff b a, remove_absent a m, total-remove f a s m k.1)

insert-Keyed : (a : String) (s : Statement) (m : Kept) → Keyed m → Keyed (insert a s m)
unfolding insert lookup
insert-Keyed a s [] k = (refl, tt)
insert-Keyed a s ((b, t) ∷ m) k =
    ground (arith, eq_iff b a, lookup-insert_other a b s m, insert-Keyed a s m k.1)

total-insert :
    (f : Statement → ℕ) (a : String) (s : Statement) (m : Kept)
    → lookup a m ≡ none
    → total f (statements (insert a s m)) ≡ f s + total f (statements m)
unfolding lookup insert
total-insert f a s [] h = refl
total-insert f a s ((b, t) ∷ m) h = ground (arith, total-insert f a s m)

pub length-statements : (m : Kept) → length m ≡ total (λ s. 1) (statements m)
length-statements [] = refl
length-statements (e ∷ m) = omega (arith, length-statements m)

module _ {q : Sqlite} (l : SqliteLaws q) where
  -- A statement may be disposed of without a change of what SQLite says of the others.
  dispose-explain :
      (s : Statement) (p : ℕ) (d : Delegate q)
      → s.raw ≢ p
      → q.is_explain (dispose s d).world p ≡ q.is_explain d.world p
  unfolding dispose finalize_statement rewind
  dispose-explain s p d n =
      if_elim (λ (e : Delegate q). q.is_explain e.world p ≡ q.is_explain d.world p)
        (d.flags s.id).closed d (finalize_statement s d) (λ b. refl)
        (λ b. l.finalize_explain s.raw (rewind s (marked s d)).world p n ∙ rewound s (marked s d))
    where
      marked : Statement → Delegate q → Delegate q
      marked s d = record d {
        flags = update d.flags s.id (record (d.flags s.id) { closed = true });
      }

      rewound :
          (s : Statement) (d : Delegate q)
          → q.is_explain (rewind s d).world p ≡ q.is_explain d.world p
      rewound s d =
          if_elim (λ (e : Delegate q). q.is_explain e.world p ≡ q.is_explain d.world p)
            (d.flags s.id).fresh d _ (λ b. refl) (λ b. l.reset_explain s.raw d.world p)

  -- Only the kept statements and those in `ss` are open, and at most 64 are kept.
  abbrev pub Holds : List Statement → Delegate q → Type 0
  Holds ss d = Owns l d (ss ++ statements d.kept) × Keyed d.kept × (length d.kept ≤ 64)

  -- There is room for one more.
  abbrev pub HasRoom : String → Statement → Delegate q → Type 0
  HasRoom a t e =
      Owns l e (t ∷ statements e.kept)
      × Keyed e.kept
      × (length e.kept < 64)
      × (lookup a e.kept ≡ none)

  Owns-kept :
      (m : Kept) (d : Delegate q) (ss : List Statement)
      → Owns l d ss
      → Owns l (record d { kept = m }) ss
  Owns-kept m d ss o = record {
    counted = o.counted;
    single = o.single;
    below = o.below;
    still_open = o.still_open;
  }

  kept-HasRoom :
      (a : String) (t : Statement) (m : Kept) (e : Delegate q)
      → e.kept ≡ m
      → Owns l e (t ∷ statements m)
      → Keyed m
      → length m < 64
      → lookup a m ≡ none
      → HasRoom a t e
  kept-HasRoom a t m e c o k h n =
      subst (λ x. Owns l e (t ∷ statements x) × Keyed x × (length x < 64) × (lookup a x ≡ none))
        (sym c) (o, k, h, n)

  pub make_room-HasRoom :
      (a : String) (t : Statement) (m : Kept) (d : Delegate q)
      → d.kept ≡ m
      → lookup a m ≡ none
      → Owns l d (t ∷ statements m)
      → Keyed m
      → length m ≤ 64
      → HasRoom a t (make_room m d)
        × (q.is_explain (make_room m d).world t.raw ≡ q.is_explain d.world t.raw)
  unfolding make_room lookup
  make_room-HasRoom a t [] d c n o k h = (kept-HasRoom a t [] d c o tt (omega arith) refl, refl)
  make_room-HasRoom a t ((b, s) ∷ m) d c n o k h =
      let rest : lookup a m ≡ none = ground arith in
      let apart : s.raw ≢ t.raw =
        λ e. ground (arith, e, o.counted t.raw, l.live_le d.world t.raw) in
      let there : Delegate q = record d { kept = m } in
      if_elim (λ e. HasRoom a t e × (q.is_explain e.world t.raw ≡ q.is_explain d.world t.raw))
        (length ((b, s) ∷ m) == 64) (dispose s there) d
        (λ i. (
          kept-HasRoom a t m (dispose s there) (dispose-kept s there)
              (dispose-Owns l s (t ∷ statements m) there (
                Owns-kept m d (s ∷ (t ∷ statements m)) (
                  Owns-reorder l d (t ∷ (s ∷ statements m)) (s ∷ (t ∷ statements m))
                    (λ f. omega arith) o)))
              k.1 (ground (arith, i)) rest,
          dispose-explain s t.raw there apart,
        ))
        (λ i. (kept-HasRoom a t ((b, s) ∷ m) d c o k (ground (arith, i, h)) n, refl))

  abbrev pub extra : Bool → Statement → List Statement
  extra true s = []
  extra false s = s ∷ []

  -- What is found is kept, or the caller's own.
  abbrev pub IsFound : Delegate q × Completion (SqlFault q.Error) (Statement × Bool) → Type 0
  IsFound (e, returned r) = Holds (extra r.1 r.0) e
  IsFound (e, thrown x) = Holds [] e

  keep_statement-IsFound :
      (a : String) (t : Statement) (d : Delegate q)
      → lookup a d.kept ≡ none
      → Holds (t ∷ []) d
      → IsFound (keep_statement a t d)
  unfolding keep_statement
  keep_statement-IsFound a t d n h =
      let e : Delegate q = make_room d.kept d in
      if_elim IsFound (q.is_explain d.world t.raw == 0)
        (record e { kept = insert a t e.kept }, returned (t, q.is_explain e.world t.raw == 0))
        (d, returned (t, q.is_explain d.world t.raw == 0))
        (λ b.
          let r = make_room-HasRoom a t d.kept d refl n h.0 h.1 h.2 in
          let c : (q.is_explain e.world t.raw == 0) ≡ true = ap (λ x. x == 0) r.1 ∙ b in
          let (o, k, less, new) = r.0 in
          subst (λ x. Holds (extra x t) (record e { kept = insert a t e.kept })) (sym c)
            (
              Owns-kept (insert a t e.kept) e (statements (insert a t e.kept)) (
                  Owns-reorder l e (t ∷ statements e.kept) (statements (insert a t e.kept))
                    (λ f. sym (total-insert f a t e.kept new)) o),
              insert-Keyed a t e.kept k,
              omega (
                arith,
                length-statements (insert a t e.kept),
                total-insert (λ x. 1) a t e.kept new,
                length-statements e.kept,
                less,
              ),
            ))
        (λ b. subst (λ x. Holds (extra x t) d) (sym b) h)

  pub find_statement-IsFound :
      (a : String) (d : Delegate q)
      → IsPlain (q.to_bytes a)
      → Holds [] d
      → IsFound (find_statement a d)
  unfolding find_statement
  find_statement-IsFound a d plain h = elim (Option-cases (lookup a d.kept)) [
    | inl n ↦
        subst (λ x. IsFound (take_or_prepare x a d)) (sym n)
          (found (prepare a d) (prepare-Leaves l a d (statements d.kept) h.0) n)
    | inr n ↦ subst (λ x. IsFound (take_or_prepare x a d)) (sym n.1) (moved n.0 n.1)
  ]
    where
      found :
          (r : Delegate q × Completion (SqlFault q.Error) Statement)
          → Leaves l (IsPlain (q.to_bytes a)) d (statements d.kept) (λ s. s ∷ []) r
          → lookup a d.kept ≡ none
          → IsFound (continue r (keep_statement a))
      found (e, returned s) p n = keep_statement-IsFound a s e (ap (lookup a) p.0 ∙ n) (
          subst (λ m. Owns l e (s ∷ statements m) × Keyed m × (length m ≤ 64)) (sym p.0)
            (p.1, h.1, h.2))
      found (e, thrown x) p n =
          subst (λ m. Owns l e (statements m) × Keyed m × (length m ≤ 64)) (sym p.0)
            (p.1 plain, h.1, h.2)

      moved :
          (s : Statement)
          → lookup a d.kept ≡ some s
          → Holds [] (record d { kept = insert a s (remove a d.kept) })
      moved s n =
          let m : Kept = remove a d.kept in
          let new : lookup a m ≡ none = ground (arith, lookup-remove a a d.kept, eq_iff a a) in
          let same =
            λ (f : Statement → ℕ). total-insert f a s m new ∙ total-remove f a s d.kept h.1 n in
          (
            Owns-kept (insert a s m) d (statements (insert a s m)) (
                Owns-reorder l d (statements d.kept) (statements (insert a s m)) (λ f. sym (same f))
                  h.0),
            insert-Keyed a s m (remove-Keyed a d.kept h.1),
            omega (
              arith,
              length-statements (insert a s m),
              same (λ x. 1),
              length-statements d.kept,
              h.2,
            ),
          )
