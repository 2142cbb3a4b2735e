-- ===== src/Sqlite/Recency.antt =====
-- Which statements the delegate of mobile/web/drift_worker.dart.js keeps: those that were used last.
use mathlib.Core.Path.{subst}
use Prim.Native.String.{String}
use text.Mathlib.TextEquality.{eq_iff}
use bojairu.Prelude.{
  ℕ, zero, suc, ◌-◌, ◌≤◌, ◌≡◌, refl, sym, ap, ◌∙◌, Bool, true, false, none, some, [], ◌∷◌, ◌++◌,
  ◌==◌, length, drop, arith, Option-cases, inl, inr, if_elim, length-append,
}
use bojairu.Prelude.Dict.{lookup, insert, remove, string_Eq, lookup-remove, insert_fresh}
use bojairu.Server.{Completion, returned, thrown}
use bojairu.Sqlite.{Sqlite, SqlFault, Statement, Delegate, continue, dispose}
use bojairu.Sqlite.Compiling.{prepare}
use bojairu.Sqlite.Caching.{make_room, keep_statement, take_or_prepare, find_statement}
use bojairu.Sqlite.Owning.{SqliteLaws, IsPlain, Owns}
use bojairu.Sqlite.Preparing.{Leaves, prepare-Leaves, dispose-kept}
use bojairu.Sqlite.Keeping.{
  Kept, statements, Keyed, Holds, make_room-HasRoom, remove_absent, total-remove, length-statements,
}

-- The last 64.
abbrev pub last_64 : Kept → Kept
last_64 m = drop (length m - 64) m

drop-append_short : (n : ℕ) (m ys : Kept) → n ≤ length m → drop n (m ++ ys) ≡ drop n m ++ ys
drop-append_short zero m ys h = refl
drop-append_short (suc n) [] ys h = absurd (omega arith)
drop-append_short (suc n) (e ∷ m) ys h = drop-append_short n m ys (omega arith)

last_64-append :
    (m : Kept) (e : String × Statement)
    → last_64 (m ++ (e ∷ [])) ≡ drop (length m - 63) m ++ (e ∷ [])
last_64-append m e =
    ap (λ n. drop n (m ++ (e ∷ []))) (omega (arith, length-append m (e ∷ [])))
    ∙ drop-append_short (length m - 63) m (e ∷ []) (omega arith)

module _ {q : Sqlite} (l : SqliteLaws q) where
  make_room-kept :
      (m : Kept) (d : Delegate q)
      → d.kept ≡ m
      → length m ≤ 64
      → (make_room m d).kept ≡ drop (length m - 63) m
  unfolding make_room
  make_room-kept [] d c h = c
  make_room-kept ((b, s) ∷ m) d c h =
      if_elim (λ (e : Delegate q). e.kept ≡ drop (suc (length m) - 63) ((b, s) ∷ m))
        (length ((b, s) ∷ m) == 64) (dispose s (record d { kept = m })) d
        (λ i.
          let one : 1 ≡ suc (length m) - 63 = ground (arith, i) in
          dispose-kept s (record d { kept = m }) ∙ ap (λ n. drop n ((b, s) ∷ m)) one)
        (λ i.
          let none_left : 0 ≡ suc (length m) - 63 = ground (arith, i, h) in
          c ∙ ap (λ n. drop n ((b, s) ∷ m)) none_left)

  -- What is kept once the statement of the text `a` was looked for: without it what was kept before,
  -- and otherwise the last 64 of the others and it.
  abbrev pub IsRecent :
      String → Delegate q → Delegate q × Completion (SqlFault q.Error) (Statement × Bool) → Type 0
  IsRecent a d (e, returned (s, true)) = e.kept ≡ last_64 (remove a d.kept ++ ((a, s) ∷ []))
  IsRecent a d (e, returned (s, false)) = e.kept ≡ d.kept
  IsRecent a d (e, thrown x) = e.kept ≡ d.kept

  keep_statement-IsRecent :
      (a : String) (t : Statement) (d : Delegate q)
      → lookup a d.kept ≡ none
      → Holds l (t ∷ []) d
      → IsRecent a d (keep_statement a t d)
  unfolding keep_statement
  keep_statement-IsRecent a t d n h =
      let e : Delegate q = make_room d.kept d in
      if_elim (IsRecent a d) (q.is_explain d.world t.raw == 0)
        (record e { kept = insert a t e.kept }, returned (t, q.is_explain e.world t.raw == 0))
        (d, returned (t, q.is_explain d.world t.raw == 0))
        (λ b.
          let r = make_room-HasRoom l a t d.kept d refl n h.0 h.1 h.2 in
          let c : (q.is_explain e.world t.raw == 0) ≡ true = ap (λ x. x == 0) r.1 ∙ b in
          subst (λ x. IsRecent a d (record e { kept = insert a t e.kept }, returned (t, x))) (sym c)
            (insert_fresh a t e.kept (r.0).3
              ∙ ap (λ m. m ++ ((a, t) ∷ [])) (make_room-kept d.kept d refl h.2)
              ∙ sym (last_64-append d.kept (a, t))
              ∙ ap (λ m. last_64 (m ++ ((a, t) ∷ []))) (sym (remove_absent a d.kept n))))
        (λ b. subst (λ x. IsRecent a d (d, returned (t, x))) (sym b) refl)

  -- If only the kept statements are open, they are at most 64 and no text stands twice, then
  -- looking for the statement of a text keeps the last 64 of the others, in their order, and it;
  -- where the statement explains or cannot be prepared, what was kept before is kept.
  pub find_statement_lem :
      (a : String) (d : Delegate q) → Holds l [] d → IsRecent a d (find_statement a d)
  unfolding find_statement
  find_statement_lem a d h = elim (Option-cases (lookup a d.kept)) [
    | inl n ↦
        subst (λ x. IsRecent a d (take_or_prepare x a d)) (sym n)
          (found (prepare a d) (prepare-Leaves l a d (statements d.kept) h.0) n)
    | inr n ↦ subst (λ x. IsRecent a d (take_or_prepare x a d)) (sym n.1) (moved n.0 n.1)
  ]
    where
      found :
          (r : Delegate q × Completion (SqlFault q.Error) Statement)
          → Leaves l (IsPlain (q.to_bytes a)) d (statements d.kept) (λ s. s ∷ []) r
          → lookup a d.kept ≡ none
          → IsRecent a d (continue r (keep_statement a))
      found (e, returned s) p n = back e (keep_statement a s e) p.0 (
          keep_statement-IsRecent a s e (ap (lookup a) p.0 ∙ n) (
            subst (λ m. Owns l e (s ∷ statements m) × Keyed m × (length m ≤ 64)) (sym p.0)
              (p.1, h.1, h.2)))
        where
          back :
              (e : Delegate q) (r : Delegate q × Completion (SqlFault q.Error) (Statement × Bool))
              → e.kept ≡ d.kept
              → IsRecent a e r
              → IsRecent a d r
          back e (f, returned (s, true)) p k = k ∙ ap (λ m. last_64 (remove a m ++ ((a, s) ∷ []))) p
          back e (f, returned (s, false)) p k = k ∙ p
          back e (f, thrown x) p k = k ∙ p
      found (e, thrown x) p n = p.0

      moved :
          (s : Statement)
          → lookup a d.kept ≡ some s
          → insert a s (remove a d.kept) ≡ last_64 (remove a d.kept ++ ((a, s) ∷ []))
      moved s n =
          let m : Kept = remove a d.kept in
          let new : lookup a m ≡ none = ground (arith, lookup-remove a a d.kept, eq_iff a a) in
          let short : 0 ≡ length (m ++ ((a, s) ∷ [])) - 64 = omega (
            arith,
            total-remove (λ x. 1) a s d.kept h.1 n,
            length-statements m,
            length-statements d.kept,
            length-append m ((a, s) ∷ []),
            h.2,
          ) in
          insert_fresh a s m new ∙ ap (λ k. drop k (m ++ ((a, s) ∷ []))) short
