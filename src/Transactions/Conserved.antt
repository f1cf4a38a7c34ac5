-- ===== src/Transactions/Conserved.antt =====
-- src/bz-transaction-manager.c: no entry that is asked for is lost, doubled or moved.
use mathlib.Core.List.{append_assoc, append-nil}
use spacedbazaar.Common.{
  ℕ, ◌+◌, Bool, true, false, not, ◌&&◌, List, [], ◌∷◌, ◌++◌, Option, none, some, inl, inr,
  if◌then◌else◌, ◌≡◌, refl, sym, ◌∙◌, ap, arith, Bool-cases, Option-cases, subst,
}
use spacedbazaar.Transactions.State.{Transaction, new_full, Running, Manager, new_manager, Output}
use spacedbazaar.Transactions.Manager.{
  dispatch_next, wake, bz_transaction_manager_add, set_paused, cancel, cancel_current,
  clear_finished, finish_current, transaction_finally, then_loop_cb, Event, add, pause, cancelled,
  cleared, ended, looped, add_new, handle, run, is_settled,
}
use spacedbazaar.Transactions.Sound.{IsSane}
use spacedbazaar.Transactions.Steady.{
  handle-Steps, run-cons, new_manager-IsSane, add-enqueue, IsOf, new_full-IsOf, then_loop-free,
  numbered,
}
use spacedbazaar.Transactions.Handed.{
  Kind, entries_of, handed, waiting, asked_by, asked, handed-append, Hands, dispatch_next-Hands,
  new_full-pick, new_full-nothing, enqueue-waiting,
}

Hands-some :
    (k : Kind) (before : List ℕ) (p p' : Manager × List Output)
    → some p ≡ some p'
    → Hands k before p
    → Hands k before p'
Hands-some k before p p' e h =
    let same : p ≡ p' = ground (arith, e) in subst (Hands k before) same h

wake-Hands :
    (k : Kind) (s : Manager) (p : Manager × List Output)
    → IsSane s
    → wake (some s) ≡ some p
    → Hands k (waiting k s.queue) p
wake-Hands k s p ok e = Hands-some k (waiting k s.queue) _ p e (woken (not s.loop && not s.paused))
  where
    woken : (b : Bool) → Hands k (waiting k s.queue) (if b then dispatch_next s else (s, []))
    woken true = dispatch_next-Hands k s ok
    woken false = refl

add-Hands :
    (k : Kind) (s : Manager) (t : Transaction) (p : Manager × List Output)
    → IsSane s
    → IsOf s.next t
    → add_new s (some t) ≡ some p
    → Hands k (waiting k s.queue ++ entries_of k t) p
unfolding bz_transaction_manager_add
add-Hands k s t p ok of e =
    let (s₂, e₂, ok₂) = add-enqueue s t ok of in
    let w =
      enqueue-waiting k (record s { next = s.next + 1 }) s₂ t s.queue (numbered s ok).waits e₂ in
    subst (λ l. Hands k l p) w (wake-Hands k s₂ p ok₂ (sym (ap wake e₂) ∙ e))

set_paused-Hands :
    (k : Kind) (s : Manager) (b : Bool) → IsSane s → Hands k (waiting k s.queue) (set_paused s b)
unfolding set_paused
set_paused-Hands k s true ok = refl
set_paused-Hands k s false ok = elim (Bool-cases s.paused) [
  | inl on ↦ simp on (dispatch_next-Hands k (record s { paused = false }) ok)
  | inr off ↦ simp off refl
]

cancel-Hands :
    (k : Kind) (s : Manager) (current : Option Running)
    → Hands k (waiting k s.queue) (cancel s current)
cancel-Hands k s none = refl
cancel-Hands k s (some r) = refl

finish_current-Hands :
    (k : Kind) (s : Manager) (done : Bool) (current : Option Running)
    → Hands k (waiting k s.queue) (finish_current s done current)
finish_current-Hands k s done none = refl
finish_current-Hands k s done (some r) = elim (Bool-cases r.settled) [
  | inl on ↦ simp on refl
  | inr off ↦ simp off refl
]

then_loop_cb-Hands :
    (k : Kind) (s : Manager) → IsSane s → Hands k (waiting k s.queue) (then_loop_cb s)
unfolding then_loop_cb
then_loop_cb-Hands k s ok = elim (Bool-cases (s.loop && is_settled s.current)) [
  | inl on ↦ simp on (dispatch_next-Hands k (record s { current = none }) (then_loop-free s ok))
  | inr off ↦ simp off refl
]

-- An event that asks for nothing.
Hands-quiet :
    (k : Kind) (l : List ℕ) (p p' : Manager × List Output)
    → some p ≡ some p'
    → Hands k l p
    → Hands k (l ++ []) p'
Hands-quiet k l p p' e h = Hands-some k (l ++ []) p p' e (h ∙ sym (append-nil l))

handle-Hands :
    (k : Kind) (s : Manager) (e : Event) (p : Manager × List Output)
    → IsSane s
    → handle s e ≡ some p
    → Hands k (waiting k s.queue ++ asked_by k e) p
unfolding handle cancel_current clear_finished transaction_finally
handle-Hands k s (add is us rs) p ok e = elim (Option-cases (new_full s.next is us rs)) [
  | inl nothing ↦
      rw (new_full-nothing k s.next is us rs nothing)
        (Hands-quiet k (waiting k s.queue) (s, []) p (sym (ap (add_new s) nothing) ∙ e) refl)
  | inr (t, made) ↦
      subst (λ l. Hands k (waiting k s.queue ++ l) p) (new_full-pick k s.next is us rs t made)
        (add-Hands k s t p ok (new_full-IsOf s.next is us rs t made)
          (sym (ap (add_new s) made) ∙ e))
]
handle-Hands k s (pause b) p ok e =
    Hands-quiet k (waiting k s.queue) (set_paused s b) p e (set_paused-Hands k s b ok)
handle-Hands k s cancelled p ok e =
    Hands-quiet k (waiting k s.queue) (cancel s s.current) p e (cancel-Hands k s s.current)
handle-Hands k s cleared p ok e = Hands-quiet k (waiting k s.queue) (_, []) p e refl
handle-Hands k s (ended done) p ok e =
    Hands-quiet k (waiting k s.queue) (finish_current s done s.current) p e
      (finish_current-Hands k s done s.current)
handle-Hands k s looped p ok e =
    Hands-quiet k (waiting k s.queue) (then_loop_cb s) p e (then_loop_cb-Hands k s ok)

-- What waits at first and what is asked for is what is handed on and what waits at last.
abbrev pub Conserves : Kind → Manager → List Event → Type 0
Conserves k s es =
    (s' : Manager) × (out : List Output) × (run s es ≡ some (s', out))
    × (handed k out ++ waiting k s'.queue ≡ waiting k s.queue ++ asked k es)

pub run-Conserves : (k : Kind) (s : Manager) (es : List Event) → IsSane s → Conserves k s es
run-Conserves k s [] ok = (s, [], refl, sym (append-nil (waiting k s.queue)))
run-Conserves k s (e ∷ es) ok =
    let (s₁, out₁, e₁, ok₁) = handle-Steps s e ok in
    let (s₂, out₂, e₂, h₂) = run-Conserves k s₁ es ok₁ in
    let h₁ = handle-Hands k s e (s₁, out₁) ok e₁ in
    (
      s₂,
      out₁ ++ out₂,
      run-cons s s₁ s₂ e es out₁ out₂ e₁ e₂,
      ap (λ l. l ++ waiting k s₂.queue) (handed-append k out₁ out₂)
          ∙ append_assoc (handed k out₁) (handed k out₂) (waiting k s₂.queue)
          ∙ ap (λ l. handed k out₁ ++ l) h₂
          ∙ sym (append_assoc (handed k out₁) (waiting k s₁.queue) (asked k es))
          ∙ ap (λ l. l ++ asked k es) h₁
          ∙ append_assoc (waiting k s.queue) (asked_by k e) (asked k es),
    )

-- Whatever is called on a new manager, and however its transactions end or are cancelled: the
-- entries to install that were handed to the backend, in order, followed by those that wait, are
-- exactly the entries that were asked for, in the order of the calls; and so for the updates and the
-- removals.
pub run-conserves :
    (k : Kind) (es : List Event)
    → (s : Manager) × (out : List Output) × (run new_manager es ≡ some (s, out))
      × (handed k out ++ waiting k s.queue ≡ asked k es)
run-conserves k es = run-Conserves k new_manager es new_manager-IsSane
