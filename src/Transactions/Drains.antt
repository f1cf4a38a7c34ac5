-- ===== src/Transactions/Drains.antt =====
-- src/bz-transaction-manager.c: an undisturbed manager comes to rest.
use mathlib.Core.List.{append-nil}
use spacedbazaar.Common.{
  Bool, true, false, List, [], ◌∷◌, ◌++◌, Option, none, some, inl, inr, ◌⊎◌, ◌≡◌, refl, sym, ◌∙◌,
  ap, arith, Bool-cases, subst,
}
use spacedbazaar.Transactions.State.{Schedule, Running, Manager, new_manager, Output}
use spacedbazaar.Transactions.Manager.{
  dispatch_next, serve, finish_current, transaction_finally, then_loop_cb, Event, ended, looped,
  handle, run, is_settled,
}
use spacedbazaar.Transactions.Sound.{Waits, IsSane}
use spacedbazaar.Transactions.Steady.{then_loop-free, handle-Steps, run-cons, new_manager-IsSane}
use spacedbazaar.Transactions.Handed.{Kind, handed, waiting, asked_by, asked}
use spacedbazaar.Transactions.Conserved.{run-Conserves}
use spacedbazaar.Transactions.Progress.{
  Lives, IsAlive, Lives-unpaused, handle-Enlivens, is_calm, all_calm,
}

-- Nothing runs and nothing waits.
abbrev pub IsIdle : Manager → Type 0
IsIdle s = (s.current ≡ none) × (s.loop ≡ false) × (s.queue ≡ [])

then_loop_cb-serve :
    (s : Manager)
    → s.paused ≡ false
    → s.loop ≡ true
    → is_settled s.current ≡ true
    → then_loop_cb s ≡ serve (record s { current = none }) none s.queue
unfolding then_loop_cb dispatch_next
then_loop_cb-serve s p l c = simp (p, l, c) refl

-- What waits is served, and then nothing waits.
served :
    (s : Manager) (queue : List Schedule)
    → Waits s.transactions s.finished s.current s.next queue
    → s.current ≡ none
    → s.queue ≡ queue
    → ((serve s none queue).0.queue ≡ []) × (queue ≡ [] → IsIdle (serve s none queue).0)
served s [] w c q = (q, λ e. (c, refl, q))
served s (d ∷ []) w c q = (refl, λ e. absurd (ground (arith, e)))
served s (d ∷ x ∷ ds) w c q = absurd (ground (arith, w.0))

looped-Idle :
    (s : Manager)
    → IsSane s
    → s.paused ≡ false
    → s.loop ≡ true
    → is_settled s.current ≡ true
    → ((then_loop_cb s).0.queue ≡ []) × (s.queue ≡ [] → IsIdle (then_loop_cb s).0)
looped-Idle s ok p l c =
    subst (λ r. (r.0.queue ≡ []) × (s.queue ≡ [] → IsIdle r.0)) (sym (then_loop_cb-serve s p l c))
      (served (record s { current = none }) s.queue (then_loop-free s ok).waits refl refl)

finish_current-stand :
    (s : Manager) (done : Bool) (current : Option Running)
    → s.current ≡ current
    → Lives s.paused current s.loop s.queue
    → ((finish_current s done current).0.queue ≡ s.queue)
      × ((finish_current s done current).0.paused ≡ s.paused)
      × (IsIdle (finish_current s done current).0
          ⊎ (((finish_current s done current).0.loop ≡ true)
              × (is_settled (finish_current s done current).0.current ≡ true)))
finish_current-stand s done none c (p, q, l) = (refl, refl, inl (c, l, q))
finish_current-stand s done (some r) c (p, l) = elim (Bool-cases r.settled) [
  | inl on ↦ simp on (refl, refl, inr (l, ap is_settled c ∙ on))
  | inr off ↦ simp off (refl, refl, inr (l, refl))
]

then_loop_cb-Idle : (s : Manager) → IsIdle s → IsIdle (then_loop_cb s).0
unfolding then_loop_cb
then_loop_cb-Idle s (c, l, q) = simp l (c, refl, q)

abbrev go_on : Manager → Bool → Manager
go_on s done = (then_loop_cb (transaction_finally s done).0).0

-- The end of a transaction starts the one that waits, or brings the manager to rest.
go_on-Idle :
    (s : Manager) (done : Bool)
    → IsSane (transaction_finally s done).0
    → IsAlive s
    → ((go_on s done).queue ≡ []) × (s.queue ≡ [] → IsIdle (go_on s done))
unfolding transaction_finally
go_on-Idle s done ok alive =
    let (q, p, stand) = finish_current-stand s done s.current refl alive in
    elim stand [
      | inl idle ↦
          let i = then_loop_cb-Idle (finish_current s done s.current).0 idle in (i.2, λ _. i)
      | inr (l, c) ↦
          let (q', i) =
            looped-Idle (finish_current s done s.current).0 ok
              (p ∙ Lives-unpaused s.paused s.current s.loop s.queue alive) l c in
          (q', λ e. i (q ∙ e))
    ]

abbrev pub two_ends : Bool → Bool → List Event
two_ends a b = ended a ∷ looped ∷ ended b ∷ looped ∷ []

-- A step of a manager that is sane and alive.
abbrev Good : Manager → Type 0
Good s = IsSane s × IsAlive s

calm-Good :
    (s s' : Manager) (e : Event) (out : List Output)
    → Good s
    → is_calm e ≡ true
    → handle s e ≡ some (s', out)
    → IsAlive s'
calm-Good s s' e out (ok, alive) calm h = handle-Enlivens s e ok alive calm (s', out) h

go_on-Good :
    (s : Manager) (done : Bool)
    → Good s
    → Good (go_on s done) × IsSane (transaction_finally s done).0
unfolding handle
go_on-Good s done (ok, alive) =
    let s₁ = (transaction_finally s done).0 in
    let (t₁, out₁, e₁, ok₁) = handle-Steps s (ended done) ok in
    let same₁ : t₁ ≡ s₁ = ground (arith, e₁) in
    let ok₁' : IsSane s₁ = subst IsSane same₁ ok₁ in
    let alive₁ = handle-Enlivens s (ended done) ok alive refl (transaction_finally s done) refl in
    let (t₂, out₂, e₂, ok₂) = handle-Steps s₁ looped ok₁' in
    let same₂ : t₂ ≡ go_on s done = ground (arith, e₂) in
    (
      (subst IsSane same₂ ok₂, handle-Enlivens s₁ looped ok₁' alive₁ refl (then_loop_cb s₁) refl),
      ok₁',
    )

two_ends-Idle :
    (s : Manager) (a b : Bool)
    → Good s
    → (s' : Manager) × (out : List Output) × (run s (two_ends a b) ≡ some (s', out)) × IsIdle s'
unfolding handle
two_ends-Idle s a b good =
    let (good₁, mid₁) = go_on-Good s a good in
    let (good₂, mid₂) = go_on-Good (go_on s a) b good₁ in
    let (q, _) = go_on-Idle s a mid₁ good.1 in
    let (_, idle) = go_on-Idle (go_on s a) b mid₂ good₁.1 in (_, _, refl, idle q)

all_calm-cons :
    (e : Event) (es : List Event)
    → all_calm (e ∷ es) ≡ true
    → (is_calm e ≡ true) × (all_calm es ≡ true)
all_calm-cons e es h = elim (Bool-cases (is_calm e)) [
  | inl on ↦ (on, ground (arith, on, h))
  | inr off ↦ absurd (ground (arith, off, h))
]

calm-Idle :
    (s : Manager) (es : List Event) (a b : Bool)
    → Good s
    → all_calm es ≡ true
    → (s' : Manager) × (out : List Output) × (run s (es ++ two_ends a b) ≡ some (s', out))
      × IsIdle s'
calm-Idle s [] a b good calm = two_ends-Idle s a b good
calm-Idle s (e ∷ es) a b (ok, alive) calm =
    let (c, cs) = all_calm-cons e es calm in
    let (s₁, out₁, e₁, ok₁) = handle-Steps s e ok in
    let alive₁ = calm-Good s s₁ e out₁ (ok, alive) c e₁ in
    let (s₂, out₂, e₂, idle) = calm-Idle s₁ es a b (ok₁, alive₁) cs in
    (s₂, out₁ ++ out₂, run-cons s s₁ s₂ e (es ++ two_ends a b) out₁ out₂ e₁ e₂, idle)

asked-two_ends :
    (k : Kind) (es : List Event) (a b : Bool) → asked k (es ++ two_ends a b) ≡ asked k es
asked-two_ends k [] a b = refl
asked-two_ends k (e ∷ es) a b = ap (λ l. asked_by k e ++ l) (asked-two_ends k es a b)

-- On a new manager that is never paused and whose transactions are never cancelled: whatever was
-- added, once two more transactions have ended and the loop has gone on after each, nothing runs,
-- the loop is over, nothing waits, and all that was asked for was handed to the backend, in order.
pub calm-drains :
    (k : Kind) (es : List Event) (a b : Bool)
    → all_calm es ≡ true
    → (s : Manager) × (out : List Output) × (run new_manager (es ++ two_ends a b) ≡ some (s, out))
      × IsIdle s
      × (handed k out ≡ asked k es)
calm-drains k es a b calm =
    let (s, out, e, idle) =
      calm-Idle new_manager es a b (new_manager-IsSane, (refl, refl, refl)) calm in
    let (s', out', e', all) = run-Conserves k new_manager (es ++ two_ends a b) new_manager-IsSane in
    let out≡ : out' ≡ out = ground (arith, e, e') in
    let s≡ : s' ≡ s = ground (arith, e, e') in
    let nothing : waiting k s'.queue ≡ [] =
      ap (λ m. waiting k m.queue) s≡ ∙ ap (waiting k) idle.2 in
    (
      s,
      out,
      e,
      idle,
      ap (handed k) (sym out≡)
          ∙ sym (append-nil (handed k out'))
          ∙ ap (λ l. handed k out' ++ l) (sym nothing)
          ∙ all
          ∙ asked-two_ends k es a b,
    )
