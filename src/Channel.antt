-- ===== src/Channel.antt =====
-- The channel of the Drift protocol in mobile/web/drift_worker.dart.js, `A.ek`: requests with their
-- ids, and the answers to them. `P`, `R` and `E` stand for the contents of requests, of responses and
-- of errors; messages are taken after their decoding.
pub mod Answers
mod Examples
use bojairu.Prelude.{
  ℕ, ◌+◌, Bool, true, false, ◌||◌, Option, none, some, List, [], ◌∷◌, ◌++◌, map, if◌then◌else◌,
}
use bojairu.Prelude.Dict.{lookup, insert, remove, nat_Eq}

-- `A.ap`, `A.bf`, `A.bm` and `A.bw`.
pub data Message (P R E : Type 0) : Type 0 where
  request : ℕ → P → Message P R E
  success : ℕ → R → Message P R E
  failure : ℕ → E → Message P R E
  cancelled : ℕ → Message P R E

-- How the future of a request ends. `was_cancelled` is `B.M`, `channel_closed` is `B.am`.
pub data Outcome (R E : Type 0) : Type 0 where
  answered : R → Outcome R E
  failed : E → Outcome R E
  was_cancelled : Outcome R E
  channel_closed : Outcome R E

-- The fields `d`, `e` and `r`, and whether the future `w` is completed; what was sent, the requests
-- that were passed on (`f`), and the futures that were completed, by their ids.
pub record Channel (P R E : Type 0) : Type 0 where
  pub next_id : ℕ
  pub pending : List (ℕ × Unit {0})
  pub closing : Bool
  pub ended : Bool
  pub sent : List (Message P R E)
  pub passed_on : List (Message P R E)
  pub outcomes : List (ℕ × Outcome R E)

module _ {P R E : Type 0} where
  -- `A.tF`, a new channel.
  abbrev pub new_channel : Channel P R E
  new_channel = record {
    next_id = 0;
    pending = [];
    closing = false;
    ended = false;
    sent = [];
    passed_on = [];
    outcomes = [];
  }

  -- `br`; with it, whether it did not throw.
  unfoldable pub send : Channel P R E → Message P R E → Channel P R E × Bool
  send ch m =
      if ch.closing || ch.ended then (ch, false) else (record ch { sent = m ∷ ch.sent }, true)

  -- The request of `A.fj.cM`: a new id, a future for it, and the message.
  unfoldable pub ask : Channel P R E → P → Channel P R E × Bool
  unfolding send insert
  ask ch p =
      let l = ch.next_id in
      send (record ch { next_id = l + 1; pending = insert l tt ch.pending }) (request l p)

  -- The message of `A.kS.hB`, to which no answer is expected.
  unfoldable pub tell : Channel P R E → P → Channel P R E × Bool
  unfolding send
  tell ch p = send (record ch { next_id = ch.next_id + 1 }) (request ch.next_id p)

  -- An answer: the future of its id, if there is one, is taken out and completed.
  unfoldable pub resolve : Channel P R E → ℕ → Outcome R E → Channel P R E
  unfolding lookup remove
  resolve ch i o = elim (lookup i ch.pending) [
    | none ↦ ch
    | some _ ↦ record ch { pending = remove i ch.pending; outcomes = (i, o) ∷ ch.outcomes }
  ]

  -- `iA`
  unfoldable pub receive : Channel P R E → Message P R E → Channel P R E
  unfolding resolve
  receive ch (request i p) = record ch { passed_on = request i p ∷ ch.passed_on }
  receive ch (success i r) = resolve ch i (answered r)
  receive ch (failure i e) = resolve ch i (failed e)
  receive ch (cancelled i) = resolve ch i was_cancelled

  -- `n`
  unfoldable pub start_closing : Channel P R E → Channel P R E
  start_closing ch = if ch.closing || ch.ended then ch else record ch { closing = true }

  -- `A.jW`, when the connection has ended: the futures that are left fail.
  unfoldable pub end_connection : Channel P R E → Channel P R E
  end_connection ch = record ch {
    pending = [];
    ended = true;
    outcomes = map (λ (p : ℕ × Unit {0}). (p.0, channel_closed)) ch.pending ++ ch.outcomes;
  }
