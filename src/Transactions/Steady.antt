-- ===== src/Transactions/Steady.antt =====
-- src/bz-transaction-manager.c: every call keeps the invariant, and none runs into the assertion of
-- bz_transaction_manager_add.
use spacedbazaar.Common.{
  ℕ, ◌+◌, Bool, true, false, ◌&&◌, List, [], ◌∷◌, ◌++◌, Option, none, some, inl, inr, ◌≡◌, refl,
  sym, ◌∙◌, ap, arith, Bool-cases, Option-cases, subst,
}
use spacedbazaar.Transactions.State.{Transaction, new_full, Running, Manager, new_manager, Output}
use spacedbazaar.Transactions.Manager.{
  enqueue, bz_transaction_manager_add, set_paused, mark, cancel, cancel_current, clear_finished,
  finish_current, transaction_finally, then_loop_cb, Event, add, pause, cancelled, cleared, ended,
  looped, add_new, handle, run, after, is_settled,
}
use spacedbazaar.Transactions.Sound.{
  IsApart, IsFull, Waits, Runs, IsSane, dispatch_next-IsSane, Steps, wake-Steps, Runs-later,
  IsApart-fresh, IsMade, enqueue-IsSane,
}
use spacedbazaar.Transactions.Waiting.{
  Waits-next, Waits-free, Waits-mark, fresh-mark, Waits-unfinished,
}

abbrev pub IsOf : ℕ → Transaction → Type 0
IsOf n t = (t.number ≡ n) × IsFull t

IsOf-some : (n : ℕ) (t t' : Transaction) → some t ≡ some t' → IsOf n t → IsOf n t'
IsOf-some n t t' e of = let same : t ≡ t' = ground (arith, e) in subst (IsOf n) same of

pub new_full-IsOf :
    (n : ℕ) (is us rs : List ℕ) (t : Transaction) → new_full n is us rs ≡ some t → IsOf n t
new_full-IsOf n [] [] [] t e = absurd (ground (arith, e))
new_full-IsOf n [] [] (r ∷ rs) t e = IsOf-some n _ t e (refl, refl)
new_full-IsOf n [] (u ∷ us) rs t e = IsOf-some n _ t e (refl, refl)
new_full-IsOf n (i ∷ is) us rs t e = IsOf-some n _ t e (refl, refl)

pub numbered : (s : Manager) → IsSane s → IsSane (record s { next = s.next + 1 })
numbered s ok = record {
  waits = Waits-next s.transactions s.finished s.current s.next s.queue ok.waits;
  runs = Runs-later s.current s.next ok.runs;
  fresh = λ n le. ok.fresh n (omega (arith, le));
}

pub add-enqueue :
    (s : Manager) (t : Transaction)
    → IsSane s
    → IsOf s.next t
    → (s₂ : Manager) × (enqueue (record s { next = s.next + 1 }) t s.queue ≡ some s₂) × IsSane s₂
add-enqueue s t ok (number, full) =
    let s₁ = record s { next = s.next + 1 } in
    let ok₁ : IsSane s₁ = numbered s ok in
    let made : IsMade s₁ t = record {
      sane = ok₁;
      new_is_full = full;
      below = omega (arith, number);
      unused = ok.fresh t.number (omega (arith, number));
      apart = subst (IsApart s.current) (sym number) (IsApart-fresh s.current s.next ok.runs);
    } in
    enqueue-IsSane s₁ t s.queue made ok₁.waits

add-Steps : (s : Manager) (t : Transaction) → IsSane s → IsOf s.next t → Steps (add_new s (some t))
unfolding bz_transaction_manager_add
add-Steps s t ok of =
    let (s₂, e, ok₂) = add-enqueue s t ok of in
    wake-Steps (enqueue (record s { next = s.next + 1 }) t s.queue) s₂ e ok₂

set_paused-IsSane : (s : Manager) (b : Bool) → IsSane s → IsSane (set_paused s b).0
unfolding set_paused
set_paused-IsSane s true ok = ok
set_paused-IsSane s false ok = elim (Bool-cases s.paused) [
  | inl on ↦ simp on (dispatch_next-IsSane (record s { paused = false }) ok)
  | inr off ↦ simp off ok
]

cancel-IsSane :
    (s : Manager) (current : Option Running)
    → IsSane s
    → s.current ≡ current
    → IsSane (cancel s current).0
cancel-IsSane s none ok e = ok
cancel-IsSane s (some r) ok e =
    let b : Runs s.next (some r) = subst (Runs s.next) e ok.runs in
    let w : Waits s.transactions s.finished (some r) s.next s.queue =
      subst (λ c. Waits s.transactions s.finished c s.next s.queue) e ok.waits in
    record {
      waits =
          Waits-free s.transactions (mark r.job.transaction.number s.finished)
            (some (record r { settled = true })) s.next s.queue
            (Waits-mark s.transactions s.finished r s.next s.queue w);
      runs = tt;
      fresh = fresh-mark s.finished r.job.transaction.number s.next b ok.fresh;
    }

finish_current-IsSane :
    (s : Manager) (done : Bool) (current : Option Running)
    → IsSane s
    → s.current ≡ current
    → IsSane (finish_current s done current).0
finish_current-IsSane s done none ok e = ok
finish_current-IsSane s done (some r) ok e =
    let b : Runs s.next (some r) = subst (Runs s.next) e ok.runs in
    let w : Waits s.transactions s.finished (some r) s.next s.queue =
      subst (λ c. Waits s.transactions s.finished c s.next s.queue) e ok.waits in
    elim (Bool-cases r.settled) [
      | inl on ↦ simp on ok
      | inr off ↦ simp off record {
        waits = Waits-mark s.transactions s.finished r s.next s.queue w;
        runs = b;
        fresh = fresh-mark s.finished r.job.transaction.number s.next b ok.fresh;
      }
    ]

pub then_loop-free : (s : Manager) → IsSane s → IsSane (record s { current = none })
then_loop-free s ok = record {
  waits = Waits-free s.transactions s.finished s.current s.next s.queue ok.waits;
  runs = tt;
  fresh = ok.fresh;
}

then_loop_cb-IsSane : (s : Manager) → IsSane s → IsSane (then_loop_cb s).0
unfolding then_loop_cb
then_loop_cb-IsSane s ok = elim (Bool-cases (s.loop && is_settled s.current)) [
  | inl on ↦ simp on (dispatch_next-IsSane (record s { current = none }) (then_loop-free s ok))
  | inr off ↦ simp off ok
]

pub handle-Steps : (s : Manager) (e : Event) → IsSane s → Steps (handle s e)
unfolding handle cancel_current clear_finished transaction_finally
handle-Steps s (add is us rs) ok = elim (Option-cases (new_full s.next is us rs)) [
  | inl nothing ↦ (s, [], rw nothing refl, ok)
  | inr (t, e) ↦ rw e (add-Steps s t ok (new_full-IsOf s.next is us rs t e))
]
handle-Steps s (pause b) ok = (_, _, refl, set_paused-IsSane s b ok)
handle-Steps s cancelled ok = (_, _, refl, cancel-IsSane s s.current ok refl)
handle-Steps s cleared ok = (
  _,
  _,
  refl,
  record {
    waits = Waits-unfinished s.transactions s.finished s.current s.next s.queue ok.waits;
    runs = ok.runs;
    fresh = ok.fresh;
  },
)
handle-Steps s (ended done) ok = (_, _, refl, finish_current-IsSane s done s.current ok refl)
handle-Steps s looped ok = (_, _, refl, then_loop_cb-IsSane s ok)

pub run-cons :
    (s s₁ s₂ : Manager) (e : Event) (es : List Event) (out₁ out₂ : List Output)
    → handle s e ≡ some (s₁, out₁)
    → run s₁ es ≡ some (s₂, out₂)
    → run s (e ∷ es) ≡ some (s₂, out₁ ++ out₂)
run-cons s s₁ s₂ e es out₁ out₂ first rest =
    ap (λ o. elim o [ none ↦ none | some p ↦ after p.1 (run p.0 es) ]) first ∙ ap (after out₁) rest

run-Steps : (s : Manager) (es : List Event) → IsSane s → Steps (run s es)
run-Steps s [] ok = (s, [], refl, ok)
run-Steps s (e ∷ es) ok =
    let (s₁, out₁, e₁, ok₁) = handle-Steps s e ok in
    let (s₂, out₂, e₂, ok₂) = run-Steps s₁ es ok₁ in
    (s₂, out₁ ++ out₂, run-cons s s₁ s₂ e es out₁ out₂ e₁ e₂, ok₂)

pub new_manager-IsSane : IsSane new_manager
new_manager-IsSane = record { waits = tt; runs = tt; fresh = λ n le. refl }

-- Whatever is called on a new manager, and however its transactions end, the assertion that the
-- waiting transaction is in the list never fails; at most one transaction waits at any time, and it
-- is in the list, not finished, not the one that runs and not empty.
pub run-IsSane :
    (es : List Event)
    → (s : Manager) × (out : List Output) × (run new_manager es ≡ some (s, out)) × IsSane s
run-IsSane es = run-Steps new_manager es new_manager-IsSane
