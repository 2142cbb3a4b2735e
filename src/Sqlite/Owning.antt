-- ===== src/Sqlite/Owning.antt =====
-- Who holds the prepared statements of mobile/web/drift_worker.dart.js: the documented behaviour of
-- SQLite, and the lists of statements that are all that SQLite has open.
use mathlib.Core.Path.{subst}
use bojairu.Prelude.{
  ℕ, ◌+◌, ◌<◌, ◌≤◌, ◌≡◌, ◌≢◌, refl, sym, ap, ◌∙◌, Bool, true, false, Option, none, some, List, [],
  ◌∷◌, ◌++◌, if◌then◌else◌, ◌==◌, length, get_or, arith, Bool-cases, inl, inr,
}
use bojairu.Sqlite.{
  Sqlite, Statement, Delegate, update, new_statement, rewind, finalize_statement, dispose,
}

abbrev pub is_equal : ℕ → ℕ → ℕ
is_equal p r = if p == r then 1 else 0

abbrev pub opened_by : Option ℕ → ℕ → ℕ
opened_by none p = 0
opened_by (some r) p = is_equal r p

-- No byte is zero.
abbrev pub IsPlain : List ℕ → Type 0
IsPlain bs = (j : ℕ) → j < length bs → get_or bs j 0 ≢ 0

-- What SQLite documents: `live` counts the statements with a pointer that are not finalized.
pub record SqliteLaws (q : Sqlite) : Type 1 where
  pub live : q.World → ℕ → ℕ
  pub live_le : (w : q.World) (p : ℕ) → live w p ≤ 1
  pub compile_live :
      (bs : List ℕ) (j : ℕ) (w : q.World) (p : ℕ)
      → live (q.compile bs j w).0 p ≡ live w p + opened_by (q.compile bs j w).1.statement p
  -- With an error there is no statement; without one some of the text has been read, but at a byte
  -- zero, where SQLite takes the text to end.
  pub compile_error :
      (bs : List ℕ) (j : ℕ) (w : q.World)
      → (q.compile bs j w).1.code ≢ 0
      → (q.compile bs j w).1.statement ≡ none
  pub compile_tail :
      (bs : List ℕ) (j : ℕ) (w : q.World)
      → (q.compile bs j w).1.code ≡ 0
      → j < length bs
      → get_or bs j 0 ≢ 0
      → j < (q.compile bs j w).1.tail
  pub finalize_live :
      (r : ℕ) (w : q.World) (p : ℕ)
      → live w r ≡ 1
      → live (q.finalize r w) p ≡ (if r == p then 0 else live w p)
  pub finalize_explain :
      (r : ℕ) (w : q.World) (p : ℕ) → r ≢ p → q.is_explain (q.finalize r w) p ≡ q.is_explain w p
  pub reset_explain :
      (r : ℕ) (w : q.World) (p : ℕ) → q.is_explain (q.reset_statement r w) p ≡ q.is_explain w p
  pub reset_live : (r : ℕ) (w : q.World) (p : ℕ) → live (q.reset_statement r w) p ≡ live w p
  pub bind_null_live : (r i : ℕ) (w : q.World) (p : ℕ) → live (q.bind_null r i w).0 p ≡ live w p
  pub bind_int64_live :
      (r i : ℕ) (z : _) (w : q.World) (p : ℕ) → live (q.bind_int64 r i z w).0 p ≡ live w p
  pub bind_double_live :
      (r i x : ℕ) (w : q.World) (p : ℕ) → live (q.bind_double r i x w).0 p ≡ live w p
  pub bind_text_live :
      (r i : ℕ) (bs : List ℕ) (w : q.World) (p : ℕ) → live (q.bind_text r i bs w).0 p ≡ live w p
  pub bind_blob_live :
      (r i : ℕ) (bs : List ℕ) (w : q.World) (p : ℕ) → live (q.bind_blob r i bs w).0 p ≡ live w p
  pub step_live : (r : ℕ) (w : q.World) (p : ℕ) → live (q.step r w).0 p ≡ live w p
  pub script_live : (a : _) (w : q.World) (p : ℕ) → live (q.execute_script a w).0 p ≡ live w p
  pub close_live : (w : q.World) (p : ℕ) → live (q.close_connection w).0 p ≤ live w p

-- The sum over a list.
abbrev pub total : (Statement → ℕ) → List Statement → ℕ
total f [] = 0
total f (s ∷ ss) = f s + total f ss

pub total-append :
    (f : Statement → ℕ) (ss ts : List Statement) → total f (ss ++ ts) ≡ total f ss + total f ts
total-append f [] ts = omega arith
total-append f (s ∷ ss) ts = omega (arith, total-append f ss ts)

abbrev pub has_raw : ℕ → Statement → ℕ
has_raw p s = is_equal s.raw p

abbrev pub has_id : ℕ → Statement → ℕ
has_id i s = is_equal s.id i

module _ {q : Sqlite} (l : SqliteLaws q) where
  -- The statements `ss` are different objects, none is closed, and they are all that SQLite has open.
  pub record Owns (d : Delegate q) (ss : List Statement) : Type 0 where
    pub counted : (p : ℕ) → l.live d.world p ≡ total (has_raw p) ss
    pub single : (i : ℕ) → total (has_id i) ss ≤ 1
    pub below : (i : ℕ) → d.next ≤ i → total (has_id i) ss ≡ 0
    pub still_open : (i : ℕ) → total (has_id i) ss ≡ 1 → (d.flags i).closed ≡ false

  -- The order does not matter.
  pub Owns-reorder :
      (d : Delegate q) (ss ts : List Statement)
      → ((f : Statement → ℕ) → total f ss ≡ total f ts)
      → Owns d ss
      → Owns d ts
  Owns-reorder d ss ts e v = record {
    counted = λ p. v.counted p ∙ e (has_raw p);
    single = λ i. omega (arith, v.single i, e (has_id i));
    below = λ i h. sym (e (has_id i)) ∙ v.below i h;
    still_open = λ i h. v.still_open i (e (has_id i) ∙ h);
  }

  -- What changes neither the open statements nor what is kept.
  pub record Calm (d e : Delegate q) : Type 0 where
    pub alive : (p : ℕ) → l.live e.world p ≡ l.live d.world p
    pub same_next : e.next ≡ d.next
    pub same_kept : e.kept ≡ d.kept
    pub same_closed : (i : ℕ) → (e.flags i).closed ≡ (d.flags i).closed

  pub Calm-refl : (d : Delegate q) → Calm d d
  Calm-refl d = record {
    alive = λ p. refl;
    same_next = refl;
    same_kept = refl;
    same_closed = λ i. refl;
  }

  pub Calm-trans : (d e f : Delegate q) → Calm d e → Calm e f → Calm d f
  Calm-trans d e f a b = record {
    alive = λ p. b.alive p ∙ a.alive p;
    same_next = b.same_next ∙ a.same_next;
    same_kept = b.same_kept ∙ a.same_kept;
    same_closed = λ i. b.same_closed i ∙ a.same_closed i;
  }

  pub Calm-Owns : (d e : Delegate q) (ss : List Statement) → Calm d e → Owns d ss → Owns e ss
  Calm-Owns d e ss c v = record {
    counted = λ p. c.alive p ∙ v.counted p;
    single = v.single;
    below = λ i h. v.below i (omega (arith, c.same_next));
    still_open = λ i h. c.same_closed i ∙ v.still_open i h;
  }

  -- Another flag of a statement.
  pub mark_fresh-Calm :
      (d : Delegate q) (w : q.World) (i : ℕ) (b : Bool)
      → ((p : ℕ) → l.live w p ≡ l.live d.world p)
      → Calm d (record d { world = w; flags = update d.flags i (record (d.flags i) { fresh = b }) })
  mark_fresh-Calm d w i b h = record {
    alive = h;
    same_next = refl;
    same_kept = refl;
    same_closed = λ j. elim (Bool-cases (i == j)) [
      | inl e ↦ let k : i ≡ j = ground (arith, e) in rw e (ap (λ n. (d.flags n).closed) k)
      | inr e ↦ rw e refl
    ];
  }

  pub rewind-Calm : (s : Statement) (d : Delegate q) → Calm d (rewind s d)
  unfolding rewind
  rewind-Calm s d = elim (Bool-cases (d.flags s.id).fresh) [
    | inl b ↦ rw b (Calm-refl d)
    | inr b ↦
        rw b (
          mark_fresh-Calm d (q.reset_statement s.raw d.world) s.id true
            (l.reset_live s.raw d.world))
  ]

  finalize_statement-Owns :
      (s : Statement) (ss : List Statement) (d : Delegate q)
      → Owns d (s ∷ ss)
      → Owns (finalize_statement s d) ss
  unfolding finalize_statement
  finalize_statement-Owns s ss d v = finalized (rewind-Calm s there)
    where
      there : Delegate q
      there = record d { flags = update d.flags s.id (record (d.flags s.id) { closed = true }) }

      finalized :
          Calm there (rewind s there)
          → Owns (record (rewind s there) { world = q.finalize s.raw (rewind s there).world }) ss
      finalized k =
          let w : q.World = (rewind s there).world in
          let one : l.live w s.raw ≡ 1 =
            ground (arith, k.alive s.raw, v.counted s.raw, l.live_le d.world s.raw) in
          record {
            counted = λ p.
                l.finalize_live s.raw w p one
                ∙ ground (arith, k.alive p, v.counted p, l.live_le d.world p);
            single = λ i. omega (arith, v.single i);
            below = λ i h. let e = v.below i (omega (arith, k.same_next)) in omega (arith, e);
            still_open = λ i h. k.same_closed i ∙ elim (Bool-cases (s.id == i)) [
              | inl e ↦ absurd (ground (arith, e, h, v.single i))
              | inr e ↦ rw e (v.still_open i (ground (arith, e, h)))
            ];
          }

  -- A statement that is disposed of is no longer held.
  pub dispose-Owns :
      (s : Statement) (ss : List Statement) (d : Delegate q)
      → Owns d (s ∷ ss)
      → Owns (dispose s d) ss
  unfolding dispose
  dispose-Owns s ss d v =
      let c : (d.flags s.id).closed ≡ false = v.still_open s.id (ground (arith, v.single s.id)) in
      subst (λ b. Owns (if b then d else finalize_statement s d) ss) (sym c)
        (finalize_statement-Owns s ss d v)

  pub new_statement-Owns :
      (r : ℕ) (w : q.World) (ss : List Statement) (d : Delegate q)
      → ((p : ℕ) → l.live w p ≡ l.live d.world p + is_equal r p)
      → Owns d ss
      → Owns
          (new_statement r (record d { world = w })).0
          ((new_statement r (record d { world = w })).1 ∷ ss)
  unfolding new_statement
  new_statement-Owns r w ss d h v = record {
    counted = λ p. h p ∙ omega (arith, v.counted p);
    single = λ i. elim (Bool-cases (d.next == i)) [
      | inl e ↦ ground (arith, v.below i, e)
      | inr e ↦ ground (arith, v.single i, e)
    ];
    below = λ i k. ground (arith, v.below i);
    still_open = λ i k. elim (Bool-cases (d.next == i)) [
      | inl e ↦ rw e refl
      | inr e ↦ rw e (v.still_open i (ground (arith, e, k)))
    ];
  }
