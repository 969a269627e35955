-- ===== src/WsProxy/Handler/Closing.antt =====
-- The connections are closed when nothing uses them any more.
use go_util.Prelude.{◌≡◌, ◌≢◌, refl, sym, ◌∙◌, true, ◌⊎◌, inl, inr}
use go_util.WsProxy.Handler.{
  left, waiting, returned, Session, opened, ReaderMove, sees_done, goes_on, reads, times_out,
  read_fails, writes, write_fails, reader_cancels, LoopMove, receives, receive_fails, copies,
  returns, continues, loop_cancels, waited, Reach, start, by_reader, by_loop,
}

-- The context is cancelled by the goroutine at its end, or by a loop that then waits for it.
record Closing (s : Session) : Type 0 where
  cause : s.cancelled ≡ true → (s.reader ≡ left) ⊎ (s.loop ≡ waiting)
  end : s.loop ≡ returned → s.reader ≡ left

-- What a goroutine that has not left does before it cancels.
going-Closing :
    (s t : Session)
    → Closing s
    → s.reader ≢ left
    → t.cancelled ≡ s.cancelled
    → t.loop ≡ s.loop
    → Closing t
going-Closing s t c there same same_loop = record {
  cause =
      λ k. elim (c.cause (sym same ∙ k)) [ inl l ↦ absurd (there l) | inr w ↦ inr (same_loop ∙ w) ];
  end = λ k. absurd (there (c.end (sym same_loop ∙ k)));
}

ReaderMove-Closing : {s t : Session} → Closing s → ReaderMove s t → Closing t
ReaderMove-Closing c (sees_done at d) = record { cause = λ k. inl refl; end = λ k. refl }
ReaderMove-Closing c (goes_on at d) = going-Closing _ _ c (λ l. cc (l, at)) refl refl
ReaderMove-Closing c (reads bytes at fits) = going-Closing _ _ c (λ l. cc (l, at)) refl refl
ReaderMove-Closing c (times_out at) = going-Closing _ _ c (λ l. cc (l, at)) refl refl
ReaderMove-Closing c (read_fails at) = going-Closing _ _ c (λ l. cc (l, at)) refl refl
ReaderMove-Closing c (writes bytes at) = going-Closing _ _ c (λ l. cc (l, at)) refl refl
ReaderMove-Closing c (write_fails bytes at) = going-Closing _ _ c (λ l. cc (l, at)) refl refl
ReaderMove-Closing c (reader_cancels at) = record { cause = λ k. inl refl; end = λ k. refl }

-- What the loop does before it waits or returns.
before-Closing :
    (s t : Session)
    → Closing s
    → s.loop ≢ waiting
    → t.loop ≢ returned
    → t.cancelled ≡ s.cancelled
    → t.reader ≡ s.reader
    → Closing t
before-Closing s t c there after same same_reader = record {
  cause = λ k. elim (c.cause (sym same ∙ k)) [
    | inl l ↦ inl (same_reader ∙ l)
    | inr w ↦ absurd (there w)
  ];
  end = λ k. absurd (after k);
}

LoopMove-Closing : {s t : Session} → Closing s → LoopMove s t → Closing t
LoopMove-Closing c (receives message at) =
    before-Closing _ _ c (λ w. cc (w, at)) (λ k. cc k) refl refl
LoopMove-Closing c (receive_fails at) = before-Closing _ _ c (λ w. cc (w, at)) (λ k. cc k) refl refl
LoopMove-Closing c (copies copied lost at) =
    before-Closing _ _ c (λ w. cc (w, at)) (λ k. cc k) refl refl
LoopMove-Closing {s} c (returns at d) = record { cause = λ k. inl gone; end = λ k. gone }
  where
    gone : s.reader ≡ left
    gone = elim (c.cause d) [ inl l ↦ l | inr w ↦ absurd (cc (w, at)) ]
LoopMove-Closing c (continues at d) = before-Closing _ _ c (λ w. cc (w, at)) (λ k. cc k) refl refl
LoopMove-Closing c (loop_cancels at) = record { cause = λ k. inr refl; end = λ k. absurd (cc k) }
LoopMove-Closing c (waited at l) = record { cause = λ k. inl l; end = λ k. l }

Reach-Closing : {s : Session} → Reach s → Closing s
unfolding opened
Reach-Closing start = record { cause = λ k. absurd (cc k); end = λ k. absurd (cc k) }
Reach-Closing (by_reader r m) = ReaderMove-Closing (Reach-Closing r) m
Reach-Closing (by_loop r m) = LoopMove-Closing (Reach-Closing r) m

-- When handler has returned, and its deferred calls close both connections, the goroutine has left
-- its loop: it reads and writes neither any more.
pub returned-left : {s : Session} → Reach s → s.loop ≡ returned → s.reader ≡ left
returned-left r k = let c = Reach-Closing r in c.end k
