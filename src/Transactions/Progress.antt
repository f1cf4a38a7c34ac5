-- ===== src/Transactions/Progress.antt =====
-- src/bz-transaction-manager.c: a manager that is not paused and whose transactions are not cancelled.
use spacedbazaar.Common.{
  ◌+◌, Bool, true, false, not, ◌&&◌, List, [], ◌∷◌, Option, none, some, inl, inr, if◌then◌else◌,
  ◌≡◌, refl, sym, ◌∙◌, ap, arith, Bool-cases, Option-cases, subst,
}
use spacedbazaar.Transactions.State.{
  Transaction, new_full, new_merged, Schedule, Running, Manager, Output,
}
use spacedbazaar.Transactions.Manager.{
  dispatch_next, serve, put_merged, enqueue, wake, bz_transaction_manager_add, clear_finished,
  finish_current, transaction_finally, then_loop_cb, Event, add, pause, cancelled, cleared, ended,
  looped, add_new, handle, is_settled,
}
use spacedbazaar.Transactions.Sound.{IsSane, enqueue-merged}
use spacedbazaar.Transactions.Steady.{add-enqueue, IsOf, new_full-IsOf}

-- The loop is held exactly while a transaction runs, and nothing waits unless one runs.
abbrev pub Lives : Bool → Option Running → Bool → List Schedule → Type 0
Lives paused none loop queue = (paused ≡ false) × (queue ≡ []) × (loop ≡ false)
Lives paused (some r) loop queue = (paused ≡ false) × (loop ≡ true)

abbrev pub IsAlive : Manager → Type 0
IsAlive s = Lives s.paused s.current s.loop s.queue

pub Lives-unpaused :
    (paused : Bool) (current : Option Running) (loop : Bool) (queue : List Schedule)
    → Lives paused current loop queue
    → paused ≡ false
Lives-unpaused paused none loop queue l = l.0
Lives-unpaused paused (some r) loop queue l = l.0

serve-IsAlive :
    (s : Manager) (queue : List Schedule)
    → s.paused ≡ false
    → s.current ≡ none
    → s.queue ≡ queue
    → IsAlive (serve s none queue).0
serve-IsAlive s [] p c q = subst (λ x. Lives s.paused x false s.queue) (sym c) (p, q, refl)
serve-IsAlive s (d ∷ ds) p c q = (p, refl)

dispatch_next-IsAlive :
    (s : Manager) → s.paused ≡ false → s.current ≡ none → IsAlive (dispatch_next s).0
unfolding dispatch_next
dispatch_next-IsAlive s p c = simp (p, c) (serve-IsAlive s s.queue p c refl)

abbrev pub SameStand : Manager → Manager → Type 0
SameStand s s' = (s'.paused ≡ s.paused) × (s'.current ≡ s.current) × (s'.loop ≡ s.loop)

SameStand-some : (s t t' : Manager) → some t ≡ some t' → SameStand s t → SameStand s t'
SameStand-some s t t' e h = let same : t ≡ t' = ground (arith, e) in subst (SameStand s) same h

pub enqueue-SameStand :
    (s s' : Manager) (t : Transaction) (queue : List Schedule)
    → enqueue s t queue ≡ some s'
    → SameStand s s'
enqueue-SameStand s s' t [] e = SameStand-some s _ s' e (refl, refl, refl)
enqueue-SameStand s s' t (d ∷ ds) e = elim (Option-cases (new_merged s.next d.transaction t)) [
  | inl nothing ↦ absurd (ground (arith, e, nothing))
  | inr (merged, made) ↦
      elim (Option-cases (put_merged d.transaction.number merged s.transactions)) [
        | inl nowhere ↦ absurd (ground (arith, e, made, nowhere))
        | inr (ts, put) ↦
            SameStand-some s _ s' (sym (enqueue-merged s t merged d ds ts made put) ∙ e)
              (refl, refl, refl)
      ]
]

abbrev Enlivens : Option (Manager × List Output) → Type 0
Enlivens o = (p : Manager × List Output) → o ≡ some p → IsAlive p.0

Enlivens-some : (p : Manager × List Output) → IsAlive p.0 → Enlivens (some p)
Enlivens-some p a p' e = let same : p ≡ p' = ground (arith, e) in subst (λ x. IsAlive x.0) same a

abbrev is_running : Option Running → Bool
is_running none = false
is_running (some r) = true

Lives-loop :
    (paused : Bool) (current : Option Running) (loop : Bool) (queue : List Schedule)
    → Lives paused current loop queue
    → loop ≡ is_running current
Lives-loop paused none loop queue l = l.2
Lives-loop paused (some r) loop queue l = l.1

woken-IsAlive :
    (s : Manager) (current : Option Running)
    → s.current ≡ current
    → s.paused ≡ false
    → s.loop ≡ is_running current
    → IsAlive (if not s.loop && not s.paused then dispatch_next s else (s, [])).0
woken-IsAlive s none c p l = simp (l, p) (dispatch_next-IsAlive s p c)
woken-IsAlive s (some r) c p l =
    simp (l, p) (subst (λ x. Lives false x true s.queue) (sym c) (refl, refl))

add-Enlivens :
    (s : Manager) (t : Transaction)
    → IsSane s
    → IsAlive s
    → IsOf s.next t
    → Enlivens (add_new s (some t))
unfolding bz_transaction_manager_add
add-Enlivens s t ok alive of p e =
    let (s₂, e₂, ok₂) = add-enqueue s t ok of in
    let (p₂, c₂, l₂) = enqueue-SameStand (record s { next = s.next + 1 }) s₂ t s.queue e₂ in
    let a =
      woken-IsAlive s₂ s.current c₂ (p₂ ∙ Lives-unpaused s.paused s.current s.loop s.queue alive)
        (l₂ ∙ Lives-loop s.paused s.current s.loop s.queue alive) in
    Enlivens-some _ a p (sym (ap wake e₂) ∙ e)

finish_current-IsAlive :
    (s : Manager) (done : Bool) (current : Option Running)
    → s.current ≡ current
    → IsAlive s
    → IsAlive (finish_current s done current).0
finish_current-IsAlive s done none c a = a
finish_current-IsAlive s done (some r) c a = elim (Bool-cases r.settled) [
  | inl on ↦ simp on a
  | inr off ↦ simp off (subst (λ x. Lives s.paused x s.loop s.queue) c a)
]

then_loop_cb-IsAlive : (s : Manager) → IsAlive s → IsAlive (then_loop_cb s).0
unfolding then_loop_cb
then_loop_cb-IsAlive s a = elim (Bool-cases (s.loop && is_settled s.current)) [
  | inl on ↦ simp on (
      dispatch_next-IsAlive (record s { current = none })
        (Lives-unpaused s.paused s.current s.loop s.queue a) refl)
  | inr off ↦ simp off a
]

-- Neither a pause nor a cancellation.
abbrev pub is_calm : Event → Bool
is_calm (add is us rs) = true
is_calm (pause b) = false
is_calm cancelled = false
is_calm cleared = true
is_calm (ended b) = true
is_calm looped = true

abbrev pub all_calm : List Event → Bool
all_calm [] = true
all_calm (e ∷ es) = is_calm e && all_calm es

pub handle-Enlivens :
    (s : Manager) (e : Event) → IsSane s → IsAlive s → is_calm e ≡ true → Enlivens (handle s e)
unfolding handle clear_finished transaction_finally
handle-Enlivens s (add is us rs) ok a calm = elim (Option-cases (new_full s.next is us rs)) [
  | inl nothing ↦ λ p e. Enlivens-some (s, []) a p (sym (ap (add_new s) nothing) ∙ e)
  | inr (t, made) ↦ λ p e.
      add-Enlivens s t ok a (new_full-IsOf s.next is us rs t made) p (sym (ap (add_new s) made) ∙ e)
]
handle-Enlivens s (pause b) ok a calm = absurd (ground (arith, calm))
handle-Enlivens s cancelled ok a calm = absurd (ground (arith, calm))
handle-Enlivens s cleared ok a calm = Enlivens-some (_, []) a
handle-Enlivens s (ended done) ok a calm =
    Enlivens-some (finish_current s done s.current) (finish_current-IsAlive s done s.current refl a)
handle-Enlivens s looped ok a calm = Enlivens-some (then_loop_cb s) (then_loop_cb-IsAlive s a)
