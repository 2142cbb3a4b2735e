-- ===== src/Sqlite/Preparing.antt =====
-- Preparing a statement of mobile/web/drift_worker.dart.js leaves no statement open but the one that
-- it gives.
use Prim.Native.String.{String}
use mathlib.Core.Path.{subst}
use bojairu.Prelude.{
  ℕ, zero, suc, ◌+◌, ◌-◌, ◌<◌, ◌≡◌, refl, sym, ap, ◌∙◌, true, not, Option, none, some, List, [],
  ◌∷◌, ◌++◌, if◌then◌else◌, ◌==◌, length, arith, Option-cases, inl, inr, ltb, ltb→lt, if_elim,
}
use bojairu.Server.{Completion, returned, thrown}
use bojairu.Sqlite.{
  Sqlite, SqlFault, closed_fault, argument_fault, Compiled, Statement, update, Delegate, SqlTask,
  continue, ◌>>=◌, pure, fail, throw_code, rewind, new_statement, finalize_statement, dispose,
  dispose_all,
}
use bojairu.Sqlite.Compiling.{
  compile_from, throw_after, take_statement, refuse_statement, first_statement, check_rest,
  prepare_one, as_list, only_statement, prepare,
}
use bojairu.Sqlite.Owning.{SqliteLaws, IsPlain, Owns, opened_by, dispose-Owns, new_statement-Owns}

module _ {q : Sqlite} where
  rewind-kept : (s : Statement) (d : Delegate q) → (rewind s d).kept ≡ d.kept
  unfolding rewind
  rewind-kept s d =
      if_elim (λ (e : Delegate q). e.kept ≡ d.kept) (d.flags s.id).fresh d _ (λ b. refl) (λ b. refl)

  pub dispose-kept : (s : Statement) (d : Delegate q) → (dispose s d).kept ≡ d.kept
  unfolding dispose finalize_statement
  dispose-kept s d =
      if_elim (λ (e : Delegate q). e.kept ≡ d.kept) (d.flags s.id).closed d (finalize_statement s d)
        (λ b. refl)
        (λ b.
          rewind-kept s
            (record d { flags = update d.flags s.id (record (d.flags s.id) { closed = true }) }))

  pub dispose_all-kept : (ss : List Statement) (d : Delegate q) → (dispose_all ss d).kept ≡ d.kept
  unfolding dispose_all
  dispose_all-kept [] d = refl
  dispose_all-kept (s ∷ ss) d = dispose_all-kept ss (dispose s d) ∙ dispose-kept s d

module _ {q : Sqlite} (l : SqliteLaws q) where
  pub dispose_all-Owns :
      (ts ss : List Statement) (d : Delegate q) → Owns l d (ts ++ ss) → Owns l (dispose_all ts d) ss
  unfolding dispose_all
  dispose_all-Owns [] ss d v = v
  dispose_all-Owns (t ∷ ts) ss d v =
      dispose_all-Owns ts ss (dispose t d) (dispose-Owns l t (ts ++ ss) d v)

  -- A call that gives what it has opened, and under the condition `P` has opened nothing if it fails.
  abbrev pub Leaves :
      {A : Type 0}
      → Type 0
      → Delegate q
      → List Statement
      → (A → List Statement)
      → Delegate q × Completion (SqlFault q.Error) A
      → Type 0
  Leaves P d ss held (e, returned a) = (e.kept ≡ d.kept) × Owns l e (held a ++ ss)
  Leaves P d ss held (e, thrown x) = (e.kept ≡ d.kept) × (P → Owns l e ss)

  continue-Leaves :
      {A B : Type 0} (P : Type 0) (d : Delegate q) (ss : List Statement) (held : A → List Statement)
      (kept : B → List Statement) (r : Delegate q × Completion (SqlFault q.Error) A)
      (f : A → SqlTask q B)
      → Leaves P d ss held r
      → ((a : A) (e : Delegate q)
          → e.kept ≡ d.kept
          → Owns l e (held a ++ ss)
          → Leaves P d ss kept (f a e))
      → Leaves P d ss kept (continue r f)
  continue-Leaves P d ss held kept (e, returned a) f h k = k a e h.0 h.1
  continue-Leaves P d ss held kept (e, thrown x) f h k = h

  abbrev told : List ℕ → ℕ → Delegate q → Delegate q
  told bs j e = record e { world = (q.compile bs j e.world).0 }

  -- SQLite's world after a call that gave no statement.
  told-Owns :
      (bs : List ℕ) (j : ℕ) (e : Delegate q) (ss : List Statement)
      → (q.compile bs j e.world).1.statement ≡ none
      → Owns l e ss
      → Owns l (told bs j e) ss
  told-Owns bs j e ss n v = record {
    counted = λ p.
        let c = l.compile_live bs j e.world p in
        let o : opened_by (q.compile bs j e.world).1.statement p ≡ 0 = ap (λ x. opened_by x p) n in
        omega (arith, c, o, v.counted p);
    single = v.single;
    below = v.below;
    still_open = v.still_open;
  }

  pushed-Owns :
      (bs : List ℕ) (j r : ℕ) (e : Delegate q) (ss : List Statement)
      → (q.compile bs j e.world).1.statement ≡ some r
      → Owns l e ss
      → Owns l (new_statement r (told bs j e)).0 ((new_statement r (told bs j e)).1 ∷ ss)
  pushed-Owns bs j r e ss n v =
      new_statement-Owns l r (q.compile bs j e.world).0 ss e
        (λ p. l.compile_live bs j e.world p ∙ ap (λ x. l.live e.world p + opened_by x p) n) v

  first_statement-Leaves :
      (fuel : ℕ) (bs : List ℕ) (j : ℕ) (d e : Delegate q) (ss : List Statement)
      → e.kept ≡ d.kept
      → Owns l e ss
      → Leaves
          (IsPlain bs)
          d
          ss
          (λ (r : Option Statement × ℕ). as_list r.0)
          (first_statement fuel bs j e)
  unfolding first_statement new_statement
  first_statement-Leaves zero bs j d e ss k v = (k, λ z. v)
  first_statement-Leaves (suc fuel) bs j d e ss k v =
      let c : Compiled = (q.compile bs j e.world).1 in
      let next : SqlTask q (Option Statement × ℕ) = first_statement fuel bs c.tail in
      let held = λ (r : Option Statement × ℕ). as_list r.0 in
      if_elim (λ (m : SqlTask q (Option Statement × ℕ)). Leaves (IsPlain bs) d ss held (m e))
        (ltb j (length bs))
        (compile_from bs j >>= (λ c.
          if not (c.code == 0)
          then throw_code c.code
          else take_statement c.statement c.tail (first_statement fuel bs c.tail)))
        (pure (none, j))
        (λ b.
          if_elim
            (λ (m : SqlTask q (Option Statement × ℕ)).
              Leaves (IsPlain bs) d ss held (m (told bs j e)))
            (not (c.code == 0)) (throw_code c.code) (take_statement c.statement c.tail next)
            (λ n.
              (k, λ z. told-Owns bs j e ss (l.compile_error bs j e.world (ground (arith, n))) v))
            (λ n. elim (Option-cases c.statement) [
              | inl o ↦
                  subst
                    (λ x.
                      Leaves (IsPlain bs) d ss held (take_statement x c.tail next (told bs j e)))
                    (sym o)
                    (first_statement-Leaves fuel bs c.tail d (told bs j e) ss k
                      (told-Owns bs j e ss o v))
              | inr o ↦
                  subst
                    (λ x.
                      Leaves (IsPlain bs) d ss held (take_statement x c.tail next (told bs j e)))
                    (sym o.1) (k, pushed-Owns bs j o.0 e ss o.1 v)
            ]))
        (λ b. (k, v))

  check_rest-Leaves :
      (fuel : ℕ) (bs : List ℕ) (j : ℕ) (ts : List Statement) (d e : Delegate q)
      (ss : List Statement)
      → (IsPlain bs → length bs - j < fuel)
      → e.kept ≡ d.kept
      → Owns l e (ts ++ ss)
      → Leaves (IsPlain bs) d ss (λ (u : Unit). ts) (check_rest fuel bs j ts e)
  unfolding check_rest new_statement dispose_all
  check_rest-Leaves zero bs j ts d e ss h k v = (k, λ z. absurd (omega (arith, h z)))
  check_rest-Leaves (suc fuel) bs j ts d e ss h k v =
      let c : Compiled = (q.compile bs j e.world).1 in
      let next : SqlTask q Unit = check_rest fuel bs c.tail ts in
      let held = λ (u : Unit). ts in
      if_elim (λ (m : SqlTask q Unit). Leaves (IsPlain bs) d ss held (m e)) (ltb j (length bs))
        (compile_from bs j
          >>= (λ c. refuse_statement c.statement c.code ts (check_rest fuel bs c.tail ts)))
        (pure tt)
        (λ b.
          let u = ltb→lt j (length bs) b in
          elim (Option-cases c.statement) [
            | inl o ↦
                subst
                  (λ x.
                    Leaves (IsPlain bs) d ss held (refuse_statement x c.code ts next (told bs j e)))
                  (sym o)
                  (if_elim (λ (m : SqlTask q Unit). Leaves (IsPlain bs) d ss held (m (told bs j e)))
                    (not (c.code == 0)) (throw_after ts (fail argument_fault)) next
                    (λ n. (
                      dispose_all-kept ts (told bs j e) ∙ k,
                      λ z. dispose_all-Owns ts ss (told bs j e) (told-Owns bs j e (ts ++ ss) o v),
                    ))
                    (λ n.
                      check_rest-Leaves fuel bs c.tail ts d (told bs j e) ss
                        (λ z.
                          let t = l.compile_tail bs j e.world (ground (arith, n)) u (z j u) in
                          omega (arith, t, h z, u))
                        k (told-Owns bs j e (ts ++ ss) o v)))
            | inr o ↦
                let f = new_statement o.0 (told bs j e) in
                subst
                  (λ x.
                    Leaves (IsPlain bs) d ss held (refuse_statement x c.code ts next (told bs j e)))
                  (sym o.1)
                  (
                    dispose_all-kept (f.1 ∷ ts) f.0 ∙ k,
                    λ z.
                        dispose_all-Owns (f.1 ∷ ts) ss f.0
                          (pushed-Owns bs j o.0 e (ts ++ ss) o.1 v),
                  )
          ])
        (λ b. (k, v))

  pub prepare-Leaves :
      (a : String) (d : Delegate q) (ss : List Statement)
      → Owns l d ss
      → Leaves (IsPlain (q.to_bytes a)) d ss (λ s. s ∷ []) (prepare a d)
  unfolding prepare prepare_one
  prepare-Leaves a d ss v =
      let bs = q.to_bytes a in
      let fuel = suc (length bs) in
      continue-Leaves (IsPlain (q.to_bytes a)) d ss as_list (λ s. s ∷ []) (prepare_one a d)
        only_statement
        (if_elim (Leaves (IsPlain (q.to_bytes a)) d ss as_list) d.shut (fail closed_fault d)
          ((first_statement fuel bs 0
              >>= (λ r. check_rest fuel bs r.1 (as_list r.0) >>= (λ u. pure r.0)))
            d)
          (λ b. (refl, λ z. v))
          (λ b.
            continue-Leaves (IsPlain (q.to_bytes a)) d ss
              (λ (r : Option Statement × ℕ). as_list r.0) as_list (first_statement fuel bs 0 d)
              (λ r. check_rest fuel bs r.1 (as_list r.0) >>= (λ u. pure r.0))
              (first_statement-Leaves fuel bs 0 d d ss refl v)
              (λ r e k o.
                continue-Leaves (IsPlain (q.to_bytes a)) d ss (λ (u : Unit). as_list r.0) as_list
                  (check_rest fuel bs r.1 (as_list r.0) e) (λ u. pure r.0)
                  (check_rest-Leaves fuel bs r.1 (as_list r.0) d e ss (λ z. omega arith) k o)
                  (λ u f k o. (k, o)))))
        chosen
    where
      chosen :
          (x : Option Statement) (e : Delegate q)
          → e.kept ≡ d.kept
          → Owns l e (as_list x ++ ss)
          → Leaves (IsPlain (q.to_bytes a)) d ss (λ s. s ∷ []) (only_statement x e)
      chosen none e k o = (k, λ z. o)
      chosen (some s) e k o = (k, o)
