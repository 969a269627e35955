-- ===== src/Pipe/Honest.antt =====
-- What the errors of the goroutines of channel_pipe/pipe.go tell of the context.
use go_util.Prelude.{◌≡◌, refl, ap, ◌∙◌, none, some, Option, Bool, true, false, ◌||◌}
use go_util.Pipe.Parts.{Error, canceled, Stage, Status, running, returned, closed, sent, is_closed}
use go_util.Pipe.Moves.{cancels, runs, ends}

-- Of a goroutine's error: the context's is sent only where it is cancelled; Wait receives what was
-- sent, and cancels where that is another error.
pub record Honest (status : Status) (received cancelled : Bool) : Type 0 where
  pub canceled_only : sent status ≡ some (some canceled) → cancelled ≡ true
  pub received_sent : received ≡ true → (e : Option Error) × (sent status ≡ some e)
  pub received_cancels :
      (e : Option Error)
      → received ≡ true
      → sent status ≡ some e
      → cancels e ≡ true
      → cancelled ≡ true

pub running-Honest :
    {status : Status} {received cancelled : Bool}
    → status ≡ running
    → Honest status received cancelled
    → Honest running received cancelled
running-Honest s h = rw s at h

-- A goroutine that runs has not been received from, and may send an error that is allowed.
pub returned-Honest :
    (status : Status) (received cancelled : Bool) (e : Option Error)
    → status ≡ running
    → (e ≡ some canceled → cancelled ≡ true)
    → Honest status received cancelled
    → Honest (returned e) received cancelled
unfolding sent
returned-Honest status received cancelled e s allowed h = record {
  canceled_only = λ x. allowed (cc x);
  received_sent = λ x. (e, refl);
  received_cancels = λ e2 got x c. let (e3, y) = h.received_sent got in absurd (cc (s, y));
}

pub closed-Honest :
    (status : Status) (received cancelled : Bool) (e : Option Error)
    → status ≡ returned e
    → Honest status received cancelled
    → Honest (closed e) received cancelled
unfolding sent
closed-Honest status received cancelled e s h = record {
  canceled_only = λ x. h.canceled_only (rw s x);
  received_sent = λ x. (e, refl);
  received_cancels = λ e2 got x c. h.received_cancels e2 got (rw s x) c;
}

or_true : (b c : Bool) → c ≡ true → (b || c) ≡ true
or_true true c h = refl
or_true false c h = h

-- Cancelling more changes nothing.
pub later-Honest :
    (status : Status) (received cancelled more : Bool)
    → Honest status received cancelled
    → Honest status received (more || cancelled)
later-Honest status received cancelled more h = record {
  canceled_only = λ x. or_true more cancelled (h.canceled_only x);
  received_sent = h.received_sent;
  received_cancels = λ e got x c. or_true more cancelled (h.received_cancels e got x c);
}

pub received-Honest :
    (status : Status) (received cancelled : Bool) (e : Option Error)
    → sent status ≡ some e
    → Honest status received cancelled
    → Honest status true (cancels e || cancelled)
received-Honest status received cancelled e s h = record {
  canceled_only = λ x. or_true (cancels e) cancelled (h.canceled_only x);
  received_sent = λ x. (e, s);
  received_cancels = λ e2 got x c.
      let same : e ≡ e2 = cc (s, x) in
      let is : cancels e ≡ true = ap cancels same ∙ c in ap (λ t. t || cancelled) is;
}

-- A stage that runs has sent nothing and its channel is open.
pub runs-status : {S : Type 0} {stage : Stage S} {at : S} → stage ≡ runs at → stage.status ≡ running
runs-status s = ap (λ t. t.status) s

pub ends-status :
    {S : Type 0} {stage : Stage S} {at : S} {e : Option Error}
    → stage ≡ ends at e
    → stage.status ≡ returned e
ends-status s = ap (λ t. t.status) s

not_sent : {status : Status} {e : Option Error} → status ≡ running → sent status ≡ some e → ⊥
unfolding sent
not_sent s h = let x : none ≡ some _ = rw s at h in absurd (cc x)

pub not_closed : {status : Status} → status ≡ running → is_closed status ≡ true → ⊥
unfolding is_closed
not_closed s h = let x : false ≡ true = rw s at h in absurd (cc x)

pub not_closed_yet :
    {status : Status} {e : Option Error} → status ≡ returned e → is_closed status ≡ true → ⊥
unfolding is_closed
not_closed_yet s h = let x : false ≡ true = rw s at h in absurd (cc x)
