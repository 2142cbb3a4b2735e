-- ===== src/Channel/Answers.antt =====
-- The steps of a channel of mobile/web/drift_worker.dart.js, `A.ek`, and the futures of each request.
use bojairu.Prelude.{
  ℕ, suc, ◌+◌, ◌≤◌, ◌≡◌, refl, ap, ◌∙◌, some, List, [], ◌∷◌, ◌++◌, map, ltb, ◌==◌, ==_iff,
  if◌then◌else◌, arith, Option-cases, inl, inr,
}
use bojairu.Prelude.Dict.{lookup, insert, remove, nat_Eq}
use bojairu.Channel.{
  Channel, Message, Outcome, request, success, failure, cancelled, answered, failed, was_cancelled,
  channel_closed, new_channel, send, ask, tell, resolve, receive, start_closing, end_connection,
}

-- How many entries have a key.
unfoldable pub count {ℓ} : {A : Type ℓ} → ℕ → List (ℕ × A) → ℕ
count k [] = 0
count k ((j, a) ∷ m) = let rest = count k m in if j == k then suc rest else rest

count-remove :
    {A : Type 0} (j k : ℕ) (m : List (ℕ × A))
    → count k (remove j m) ≡ (if j == k then 0 else count k m)
unfolding count remove
count-remove j k [] = ground arith
count-remove j k ((i, a) ∷ m) = ground (arith, count-remove j k m)

count-insert :
    {A : Type 0} (j k : ℕ) (a : A) (m : List (ℕ × A))
    → count j m ≡ 0
    → count k (insert j a m) ≡ (if j == k then suc (count k m) else count k m)
unfolding count insert
count-insert j k a [] h = ground arith
count-insert j k a ((i, b) ∷ m) h = ground (arith, count-insert j k a m)

count-append : {A : Type 0} (k : ℕ) (m n : List (ℕ × A)) → count k (m ++ n) ≡ count k m + count k n
unfolding count
count-append k [] n = omega arith
count-append k ((i, a) ∷ m) n = ground (arith, count-append k m n)

count-map :
    {A B : Type 0} (k : ℕ) (b : B) (m : List (ℕ × A))
    → count k (map (λ (p : ℕ × A). (p.0, b)) m) ≡ count k m
unfolding count
count-map k b [] = refl
count-map k b ((i, a) ∷ m) = ground (arith, count-map k b m)

count_found : {A : Type 0} (k : ℕ) (a : A) (m : List (ℕ × A)) → lookup k m ≡ some a → 1 ≤ count k m
unfolding count lookup
count_found k a [] h = cc h
count_found k a ((i, b) ∷ m) h = ground (arith, count_found k a m)

module _ {P R E : Type 0} where
  -- The futures of an id that are open or completed.
  unfoldable pub futures : ℕ → Channel P R E → ℕ
  futures k ch = count k ch.pending + count k ch.outcomes

  pub data Step : Channel P R E → Channel P R E → Type 0 where
    asked : {ch : Channel P R E} (p : P) → Step ch (ask ch p).0
    told : {ch : Channel P R E} (p : P) → Step ch (tell ch p).0
    received : {ch : Channel P R E} (m : Message P R E) → Step ch (receive ch m)
    closes : {ch : Channel P R E} → Step ch (start_closing ch)
    ends : {ch : Channel P R E} → Step ch (end_connection ch)

  pub data Reach : Channel P R E → Channel P R E → Type 0 where
    here : {ch : Channel P R E} → Reach ch ch
    next : {ch mid end : Channel P R E} → Reach ch mid → Step mid end → Reach ch end

  -- An id has one future at most, and an id that was not given yet has none.
  abbrev pub IsOrderly : Channel P R E → Type 0
  IsOrderly ch = (k : ℕ) → futures k ch ≤ (if ltb k ch.next_id then 1 else 0)

  -- A step that keeps the ids keeps the futures.
  resolve_lem :
      (ch : Channel P R E) (i k : ℕ) (o : Outcome R E)
      → IsOrderly ch
      → (futures k (resolve ch i o) ≡ futures k ch) × ((resolve ch i o).next_id ≡ ch.next_id)
  unfolding resolve futures count
  resolve_lem ch i k o v = elim (Option-cases (lookup i ch.pending)) [
    | inl e ↦ (ground arith, ground arith)
    | inr (u, e) ↦
        let bound : futures k ch ≤ 1 = ground (arith, v k) in
        (
          ground
              (arith, count-remove i k ch.pending, count_found i u ch.pending e, ==_iff i k, bound),
          ground arith,
        )
  ]

  -- What a step does to the futures of an id.
  abbrev Keeps : Channel P R E → Channel P R E → Type 0
  Keeps ch ch' = IsOrderly ch' × ((k : ℕ) → futures k ch ≤ futures k ch')

  keeping :
      (ch ch' : Channel P R E)
      → IsOrderly ch
      → ((k : ℕ) → (futures k ch' ≡ futures k ch) × (ch.next_id ≤ ch'.next_id))
      → Keeps ch ch'
  keeping ch ch' v h = (λ k. ground (arith, v k, h k), λ k. omega (arith, h k))

  futures-ask :
      (ch : Channel P R E) (p : P) (k : ℕ)
      → IsOrderly ch
      → (futures k (ask ch p).0 ≡ (if ch.next_id == k then suc (futures k ch) else futures k ch))
        × ((ask ch p).0.next_id ≡ ch.next_id + 1)
  unfolding ask send futures
  futures-ask ch p k v =
      let unused : count ch.next_id ch.pending ≡ 0 = ground (arith, v ch.next_id) in
      (ground (arith, count-insert ch.next_id k tt ch.pending unused), ground arith)

  futures-tell :
      (ch : Channel P R E) (p : P) (k : ℕ)
      → (futures k (tell ch p).0 ≡ futures k ch) × (ch.next_id ≤ (tell ch p).0.next_id)
  unfolding tell send futures
  futures-tell ch p k = (ground arith, ground arith)

  futures-start_closing :
      (ch : Channel P R E) (k : ℕ)
      → (futures k (start_closing ch) ≡ futures k ch) × (ch.next_id ≤ (start_closing ch).next_id)
  unfolding start_closing futures
  futures-start_closing ch k = (ground arith, ground arith)

  count-end_connection :
      (ch : Channel P R E) (k : ℕ) → count k (end_connection ch).outcomes ≡ futures k ch
  unfolding end_connection futures
  count-end_connection ch k =
      count-append k (map (λ (p : ℕ × Unit {0}). (p.0, channel_closed)) ch.pending) ch.outcomes
      ∙ ap (λ n. n + count k ch.outcomes) (count-map k channel_closed ch.pending)

  futures-end_connection :
      (ch : Channel P R E) (k : ℕ)
      → (futures k (end_connection ch) ≡ futures k ch) × (ch.next_id ≤ (end_connection ch).next_id)
  unfolding end_connection futures count
  futures-end_connection ch k = (omega (arith, count-end_connection ch k), omega arith)

  futures-receive :
      (ch : Channel P R E) (m : Message P R E) (k : ℕ)
      → IsOrderly ch
      → (futures k (receive ch m) ≡ futures k ch) × (ch.next_id ≤ (receive ch m).next_id)
  unfolding receive
  futures-receive ch (request i p) k v = (unfold futures in refl, omega arith)
  futures-receive ch (success i r) k v =
      let (a, b) = resolve_lem ch i k (answered r) v in (a, omega (arith, b))
  futures-receive ch (failure i e) k v =
      let (a, b) = resolve_lem ch i k (failed e) v in (a, omega (arith, b))
  futures-receive ch (cancelled i) k v =
      let (a, b) = resolve_lem ch i k was_cancelled v in (a, omega (arith, b))

  Step-Keeps : {ch ch' : Channel P R E} → Step ch ch' → IsOrderly ch → Keeps ch ch'
  Step-Keeps (asked {ch} p) v =
      (λ k. ground (arith, futures-ask ch p k v, v k), λ k. ground (arith, futures-ask ch p k v))
  Step-Keeps (told {ch} p) v = keeping ch (tell ch p).0 v (λ k. futures-tell ch p k)
  Step-Keeps (received {ch} m) v = keeping ch (receive ch m) v (λ k. futures-receive ch m k v)
  Step-Keeps (closes {ch}) v = keeping ch (start_closing ch) v (λ k. futures-start_closing ch k)
  Step-Keeps (ends {ch}) v = keeping ch (end_connection ch) v (λ k. futures-end_connection ch k)

  Reach-Keeps : {ch ch' : Channel P R E} → Reach ch ch' → IsOrderly ch → Keeps ch ch'
  Reach-Keeps here v = (v, λ k. omega arith)
  Reach-Keeps (next r s) v =
      let (w, more) = Reach-Keeps r v in
      let (w', more') = Step-Keeps s w in (w', λ k. omega (arith, more k, more' k))

  empty-IsOrderly : (ch : Channel P R E) → ch.pending ≡ [] → ch.outcomes ≡ [] → IsOrderly ch
  unfolding futures count
  empty-IsOrderly ch p o k = rw (p, o, futures, count) (omega arith)

  -- A request that is made over a channel (one that requests, messages, answers, closing and the
  -- end of the connection have led to from a new one) has exactly one future, open or completed,
  -- whatever of these follows, also answers to unknown ids or a second answer; and where the
  -- connection then ends, exactly one outcome.
  pub ask_lem :
      (ch ch' : Channel P R E) (p : P)
      → Reach new_channel ch
      → Reach (ask ch p).0 ch'
      → (futures ch.next_id ch' ≡ 1) × (count ch.next_id (end_connection ch').outcomes ≡ 1)
  ask_lem ch ch' p r s =
      let i = ch.next_id in
      let v = (Reach-Keeps r (empty-IsOrderly new_channel refl refl)).0 in
      let w = (Step-Keeps (asked {ch = ch} p) v).0 in
      let (w', more) = Reach-Keeps s w in
      let one : futures i ch' ≡ 1 = ground (arith, futures-ask ch p i v, more i, w' i) in
      (one, count-end_connection ch' i ∙ one)
