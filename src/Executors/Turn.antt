-- ===== src/Executors/Turn.antt =====
-- The steps of the transactions of mobile/web/drift_worker.dart.js, `A.kS`, and who has its turn.
use mathlib.Core.Path.{subst}
use bojairu.Prelude.{
  ℕ, suc, ◌+◌, ◌-◌, ◌≤◌, ◌<◌, ◌≡◌, ◌≢◌, ◌⊎◌, ◌∙◌, Bool-cases, refl, sym, ap, true, Option, none,
  some, List, [], ◌∷◌, ◌==◌, ==_iff, ==_refl, if◌then◌else◌, arith, Option-cases, inl, inr,
}
use bojairu.Prelude.Dict.{lookup, lookup-insert, lookup-remove, nat_Eq}
use bojairu.Executors.{
  Executors, take_out, no_executors, put_executor, release, has_turn, find_executor,
}

-- How often an id stands on the stack.
unfoldable pub copies : ℕ → List ℕ → ℕ
copies k [] = 0
copies k (j ∷ w) = let rest = copies k w in if j == k then suc rest else rest

copies-take_out :
    (a k : ℕ) (w : List ℕ)
    → copies k (take_out a w) ≡ (if a == k then copies k w - 1 else copies k w)
unfolding copies take_out
copies-take_out a k [] = ground arith
copies-take_out a k (b ∷ w) = ground (arith, copies-take_out a k w)

-- The ids on the stack are below a number, and fall from the top on.
abbrev AllBelow : ℕ → List ℕ → Type 0
AllBelow b [] = Unit
AllBelow b (j ∷ w) = (j < b) × AllBelow b w

abbrev Falls : List ℕ → Type 0
Falls [] = Unit
Falls (j ∷ w) = AllBelow j w × Falls w

AllBelow-weaken : (b c : ℕ) (w : List ℕ) → b ≤ c → AllBelow b w → AllBelow c w
AllBelow-weaken b c [] h a = tt
AllBelow-weaken b c (j ∷ w) h a = (omega (arith, h, a.0), AllBelow-weaken b c w h a.1)

AllBelow-take_out : (b a : ℕ) (w : List ℕ) → AllBelow b w → AllBelow b (take_out a w)
unfolding take_out
AllBelow-take_out b a [] h = tt
AllBelow-take_out b a (j ∷ w) h = elim (Bool-cases (j == a)) [
  | inl e ↦ rw e h.1
  | inr e ↦ rw e (h.0, AllBelow-take_out b a w h.1)
]

Falls-take_out : (a : ℕ) (w : List ℕ) → Falls w → Falls (take_out a w)
unfolding take_out
Falls-take_out a [] h = tt
Falls-take_out a (j ∷ w) h = elim (Bool-cases (j == a)) [
  | inl e ↦ rw e h.1
  | inr e ↦ rw e (AllBelow-take_out j a w h.0, Falls-take_out a w h.1)
]

-- An id on the stack is below what all of them are below.
copies_below : (k b : ℕ) (w : List ℕ) → AllBelow b w → copies k w ≢ 0 → k < b
unfolding copies
copies_below k b [] h n = absurd (n refl)
copies_below k b (j ∷ w) h n = elim (Bool-cases (j == k)) [
  | inl e ↦ ground (arith, e, h.0)
  | inr e ↦ copies_below k b w h.1 (λ c. n (rw (copies, e) c))
]

-- Whether there is an executor, as a number.
abbrev found : {X : Type 0} → Option X → ℕ
found none = 0
found (some x) = 1

module _ {X : Type 0} where
  -- The ids on the stack are those of the open transactions, each once, in falling order, and all
  -- were given.
  pub record IsMatched (s : Executors X) : Type 0 where
    pub matches : (k : ℕ) → copies k s.stack ≡ found (lookup k s.open_ones)
    pub falls : Falls s.stack
    pub above : AllBelow s.next_id s.stack
    pub given : (k : ℕ) → s.next_id ≤ k → lookup k s.open_ones ≡ none

  pub data Step : Executors X → Executors X → Type 0 where
    put : {s : Executors X} (a : X) → Step s (put_executor s a)
    released : {s : Executors X} (a : ℕ) → Step s (release s a)

  pub data Reach : Executors X → Executors X → Type 0 where
    here : {s : Executors X} → Reach s s
    next : {s t u : Executors X} → Reach s t → Step t u → Reach s u

  put_executor-IsMatched : (s : Executors X) (a : X) → IsMatched s → IsMatched (put_executor s a)
  unfolding put_executor copies
  put_executor-IsMatched s a v = record {
    falls = (v.above, v.falls);
    above = (omega arith, AllBelow-weaken s.next_id (s.next_id + 1) s.stack (omega arith) v.above);
    matches = λ k. ground (
      arith,
      lookup-insert s.next_id k a s.open_ones,
      v.matches k,
      v.given k,
      ==_iff s.next_id k,
    );
    given = λ k h.
        ground (arith, lookup-insert s.next_id k a s.open_ones, v.given k, ==_iff s.next_id k);
  }

  release-IsMatched : (s : Executors X) (a : ℕ) → IsMatched s → IsMatched (release s a)
  unfolding release
  release-IsMatched s a v = record {
    falls = Falls-take_out a s.stack v.falls;
    above = AllBelow-take_out s.next_id a s.stack v.above;
    matches = λ k. elim (Option-cases (lookup k s.open_ones)) [
      | inl e ↦
          ground (arith, lookup-remove a k s.open_ones, copies-take_out a k s.stack, v.matches k)
      | inr (x, e) ↦
          ground (arith, lookup-remove a k s.open_ones, copies-take_out a k s.stack, v.matches k)
    ];
    given = λ k h. ground (arith, lookup-remove a k s.open_ones, v.given k);
  }

  Reach-IsMatched : {s t : Executors X} → Reach s t → IsMatched s → IsMatched t
  Reach-IsMatched here v = v
  Reach-IsMatched (next {t = t} r (put a)) v = put_executor-IsMatched t a (Reach-IsMatched r v)
  Reach-IsMatched (next {t = t} r (released a)) v = release-IsMatched t a (Reach-IsMatched r v)

  empty-IsMatched : (s : Executors X) → s.stack ≡ [] → s.open_ones ≡ [] → IsMatched s
  unfolding copies lookup
  empty-IsMatched s e f = record {
    matches = λ k. rw (e, f, copies, lookup) refl;
    falls = rw e tt;
    above = rw e tt;
    given = λ k h. rw (f, lookup) refl;
  }

  top_found :
      (b : ℕ) (w : List ℕ) (o : Option X) → copies b (b ∷ w) ≡ found o → (x : X) × (o ≡ some x)
  unfolding copies
  top_found b w none h = absurd (ground (arith, ==_refl b))
  top_found b w (some x) h = (x, refl)

  turn_empty : (s : Executors X) (q : Option ℕ) → s.stack ≡ [] → has_turn s q ≡ true → q ≡ none
  unfolding has_turn
  turn_empty s none e h = refl
  turn_empty s (some r) e h = absurd (ground (arith, e, h))

  turn_top :
      (s : Executors X) (q : Option ℕ) (b : ℕ) (w : List ℕ)
      → s.stack ≡ b ∷ w
      → has_turn s q ≡ true
      → q ≡ some b
  unfolding has_turn
  turn_top s none b w e h = absurd (ground (arith, e, h))
  turn_top s (some r) b w e h =
      let same : b ≡ r = ground (arith, e, h, ==_iff b r) in ap some (sym same)

  -- Who has its turn: what is in no transaction, where none is open, and otherwise the open
  -- transaction that was begun last.
  abbrev pub IsInTurn : Executors X → Option ℕ → Type 0
  IsInTurn s r =
      ((r ≡ none) × ((k : ℕ) → lookup k s.open_ones ≡ none))
      ⊎ ((n : ℕ) × (x : X) × (r ≡ some n)
          × (lookup n s.open_ones ≡ some x)
          × ((k : ℕ) → lookup k s.open_ones ≢ none → k ≤ n))

  nobody : (o : Option X) → 0 ≡ found o → o ≡ none
  nobody none h = refl
  nobody (some x) h = absurd (omega (arith, h))

  somebody : (o : Option X) → o ≢ none → found o ≡ 1
  somebody none h = absurd (h refl)
  somebody (some x) h = refl

  top_last :
      (s : Executors X) (b : ℕ) (w : List ℕ)
      → s.stack ≡ b ∷ w
      → IsMatched s
      → (k : ℕ) → lookup k s.open_ones ≢ none
      → k ≤ b
  top_last s b w e v k n =
      let here : copies k (b ∷ w) ≡ 1 =
        ap (copies k) (sym e) ∙ v.matches k ∙ somebody (lookup k s.open_ones) n in
      let low : AllBelow (b + 1) (b ∷ w) =
        let f : Falls (b ∷ w) = subst Falls e v.falls in
        (omega arith, AllBelow-weaken b (b + 1) w (omega arith) f.0) in
      let less = copies_below k (b + 1) (b ∷ w) low (λ z. omega (arith, z, here)) in
      omega (arith, less)

  turn_of :
      (s : Executors X) (w : List ℕ)
      → s.stack ≡ w
      → IsMatched s
      → (r : Option ℕ) × (x : Option X) × (has_turn s r ≡ true)
        × (find_executor s r ≡ some x)
        × ((q : Option ℕ) → has_turn s q ≡ true → q ≡ r)
        × IsInTurn s r
  unfolding has_turn find_executor copies
  turn_of s [] e v = (
    none,
    none,
    rw (e, has_turn) refl,
    refl,
    λ q h. turn_empty s q e h,
    inl (
      refl,
      λ k.
          let m : copies k [] ≡ found (lookup k s.open_ones) =
            ap (copies k) (sym e) ∙ v.matches k in
          nobody (lookup k s.open_ones) m,
    ),
  )
  turn_of s (b ∷ w) e v =
      let m : copies b (b ∷ w) ≡ found (lookup b s.open_ones) =
        ap (copies b) (sym e) ∙ v.matches b in
      let (x, there) = top_found b w (lookup b s.open_ones) m in
      (
        some b,
        some x,
        rw (e, has_turn) (==_refl b),
        rw (there, find_executor) refl,
        λ q h. turn_top s q b w e h,
        inr (b, x, refl, there, top_last s b w e v),
      )

  -- Whatever transactions have been opened and ended, in any order, exactly one has its turn, and
  -- its executor is found: the requests outside of all transactions where no transaction is open,
  -- and otherwise an open transaction that no open one was opened after.
  pub turn_lem :
      (s : Executors X)
      → Reach no_executors s
      → (r : Option ℕ) × (x : Option X) × (has_turn s r ≡ true)
        × (find_executor s r ≡ some x)
        × ((q : Option ℕ) → has_turn s q ≡ true → q ≡ r)
        × IsInTurn s r
  turn_lem s reached =
      turn_of s s.stack refl (Reach-IsMatched reached (empty-IsMatched no_executors refl refl))
