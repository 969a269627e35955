-- ===== src/Resolver/Register/Progress.antt =====
-- UnRegister returns, unless there is no server to take out.
use go_util.Prelude.{
  ℕ, zero, suc, ◌+◌, ◌*◌, ◌≤◌, ◌≡◌, refl, ap, ◌∙◌, true, false, ◌⊎◌, inl, inr, List, [], ◌∷◌,
  length, arith,
}
use go_util.Resolver.Watch.{Entry}
use go_util.Resolver.Register.{
  Registry, removed, deletes, Move, request, deletion, reply, reply_taken, request_taken, Reach,
  moved, Moves, none_left, and_move,
}
use go_util.Resolver.Register.Counts.{length-middle, Reach-Counted}

-- How much the goroutines and calls can still do.
unfoldable pub work : Registry → ℕ
work s = 2 * (length s.waiting + length s.deleting) + s.answering + s.asking

Move-work : {s t : Registry} → Move s t → suc (work t) ≤ work s
unfolding work deletes removed
Move-work (request before after e n ask w) =
    let len = ap length w ∙ length-middle before after e in omega (arith, len, ask)
Move-work (deletion before after e true d) =
    let len = ap length d ∙ length-middle before after e in omega (arith, len)
Move-work (deletion before after e false d) =
    let len = ap length d ∙ length-middle before after e in omega (arith, len)
Move-work (reply answers n a q) = omega (arith, a)
Move-work (reply_taken before after e answers a w) =
    let len = ap length w ∙ length-middle before after e in omega (arith, len, a)
Move-work (request_taken n m ask q) = omega (arith, ask)

Moves-work : {n : ℕ} {s t : Registry} → Moves n s t → n + work t ≤ work s
Moves-work none_left = omega arith
Moves-work (and_move ms m) =
    let before = Moves-work ms in let last = Move-work m in omega (arith, before, last)

Moves-Reach : {n : ℕ} {s t : Registry} → Reach s → Moves n s t → Reach t
Moves-Reach r none_left = r
Moves-Reach r (and_move ms m) = moved (Moves-Reach r ms) m

-- No goroutine and no call has anything to do but to wait for another Register or UnRegister.
unfoldable pub Settled : Registry → Type 0
Settled s =
    (s.asked ≡ 0) × (s.deleting ≡ []) × (s.answering ≡ 0) × ((s.asking ≡ 0) ⊎ (s.waiting ≡ []))

progress : {s : Registry} → Reach s → Settled s ⊎ ((t : Registry) × Move s t)
unfolding Settled
progress {s} r = on_deleting s.deleting refl
  where
    owed : s.asked ≡ length s.deleting + s.answering
    owed = (Reach-Counted r).owed

    on_waiting :
        s.asked ≡ 0
        → s.deleting ≡ []
        → s.answering ≡ 0
        → (n : ℕ) → s.asking ≡ n
        → (es : List Entry) → s.waiting ≡ es
        → Settled s ⊎ ((t : Registry) × Move s t)
    on_waiting q d a zero n es w = inl (q, d, a, inl n)
    on_waiting q d a (suc m) n [] w = inl (q, d, a, inr w)
    on_waiting q d a (suc m) n (e ∷ es) w = inr (_, request [] es e m n w)

    on_answering :
        s.deleting ≡ []
        → (n : ℕ) → s.answering ≡ n
        → (m : ℕ) → s.asked ≡ m
        → Settled s ⊎ ((t : Registry) × Move s t)
    on_answering d (suc n) a (suc m) q = inr (_, reply n m a q)
    on_answering d (suc n) a zero q =
        let len : length s.deleting ≡ 0 = ap length d in absurd (omega (arith, owed, a, q, len))
    on_answering d zero a m q =
        let len : length s.deleting ≡ 0 = ap length d in
        on_waiting (omega (arith, owed, a, len)) d a s.asking refl s.waiting refl

    on_deleting : (es : List Entry) → s.deleting ≡ es → Settled s ⊎ ((t : Registry) × Move s t)
    on_deleting [] d = on_answering d s.answering refl s.asked refl
    on_deleting (e ∷ es) d = inr (_, deletion [] es e true d)

-- Register's goroutines and the calls of UnRegister come to rest: from any state that can be reached
-- they make at most as many moves as the work that is left, and after any of them either another
-- is possible, or no call waits for a reply, and none for a goroutine that takes its request as long
-- as one is registered.
pub Moves-settle :
    {n : ℕ} {s t : Registry}
    → Reach s
    → Moves n s t
    → (n + work t ≤ work s) × (Settled t ⊎ ((u : Registry) × Move t u))
Moves-settle r ms = (Moves-work ms, progress (Moves-Reach r ms))
