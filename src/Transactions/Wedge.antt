-- ===== src/Transactions/Wedge.antt =====
-- src/bz-transaction-manager.c: a pause that is lifted while a transaction runs and nothing waits.
use spacedbazaar.Common.{
  ◌+◌, Bool, true, false, not, ◌&&◌, ◌||◌, List, [], ◌∷◌, ◌++◌, Option, none, some, inl, inr,
  if◌then◌else◌, ◌≡◌, refl, sym, ◌∙◌, ap, arith, Bool-cases, Option-cases, subst,
}
use spacedbazaar.Transactions.State.{
  Transaction, new_full, Schedule, Running, Manager, Output, resolved, rejected, started,
  new_manager,
}
use spacedbazaar.Transactions.Manager.{
  dispatch_next, serve, wake, bz_transaction_manager_add, set_paused, clear_finished,
  finish_current, transaction_finally, then_loop_cb, Event, add, pause, cancelled, cleared, ended,
  looped, add_new, handle, run, after,
}
use spacedbazaar.Transactions.Sound.{IsSane}
use spacedbazaar.Transactions.Steady.{
  handle-Steps, run-cons, add-enqueue, IsOf, new_full-IsOf, run-IsSane,
}
use spacedbazaar.Transactions.Progress.{enqueue-SameStand}

-- A transaction is current and no loop is held that would take it away.
abbrev pub IsStuck : Manager → Type 0
IsStuck s = (s.loop ≡ false) × (r : Running) × (s.current ≡ some r)

abbrev pub never_starts : List Output → Bool
never_starts [] = true
never_starts (started t ∷ out) = false
never_starts (resolved n b ∷ out) = never_starts out
never_starts (rejected n ∷ out) = never_starts out

abbrev Stays : Manager × List Output → Type 0
Stays (s, out) = IsStuck s × (never_starts out ≡ true)

serve-Stays :
    (s : Manager) (current : Option Running) (queue : List Schedule)
    → s.current ≡ current
    → IsStuck s
    → Stays (serve s current queue)
serve-Stays s current [] c stuck = ((refl, stuck.1, stuck.2), refl)
serve-Stays s (some r) (d ∷ ds) c stuck = (stuck, refl)
serve-Stays s none (d ∷ ds) c (l, r, e) = absurd (ground (arith, c, e))

dispatch_next-Stays : (s : Manager) → IsStuck s → Stays (dispatch_next s)
unfolding dispatch_next
dispatch_next-Stays s stuck = elim (Bool-cases s.paused) [
  | inl on ↦ simp on ((refl, stuck.1, stuck.2), refl)
  | inr off ↦ simp off (serve-Stays s s.current s.queue refl stuck)
]

Stays-some : (p p' : Manager × List Output) → some p ≡ some p' → Stays p → Stays p'
Stays-some p p' e h = let same : p ≡ p' = ground (arith, e) in subst Stays same h

add-Stays :
    (s : Manager) (t : Transaction) (p : Manager × List Output)
    → IsSane s
    → IsStuck s
    → IsOf s.next t
    → add_new s (some t) ≡ some p
    → Stays p
unfolding bz_transaction_manager_add
add-Stays s t p ok (l, r, c) of e =
    let (s₂, e₂, ok₂) = add-enqueue s t ok of in
    let (p₂, c₂, l₂) = enqueue-SameStand (record s { next = s.next + 1 }) s₂ t s.queue e₂ in
    let stuck : IsStuck s₂ = (l₂ ∙ l, r, c₂ ∙ c) in
    Stays-some _ p (sym (ap wake e₂) ∙ e) (woken s₂ stuck (not s₂.loop && not s₂.paused))
  where
    woken : (s : Manager) → IsStuck s → (b : Bool) → Stays (if b then dispatch_next s else (s, []))
    woken s stuck true = dispatch_next-Stays s stuck
    woken s stuck false = (stuck, refl)

set_paused-Stays : (s : Manager) (b : Bool) → IsStuck s → Stays (set_paused s b)
unfolding set_paused
set_paused-Stays s true stuck = (stuck, refl)
set_paused-Stays s false stuck = elim (Bool-cases s.paused) [
  | inl on ↦ simp on (dispatch_next-Stays (record s { paused = false }) stuck)
  | inr off ↦ simp off (stuck, refl)
]

finish_current-Stays :
    (s : Manager) (done : Bool) (current : Option Running)
    → s.current ≡ current
    → IsStuck s
    → Stays (finish_current s done current)
finish_current-Stays s done none c stuck = (stuck, refl)
finish_current-Stays s done (some r) c (l, r', e) = elim (Bool-cases r.settled) [
  | inl on ↦ simp on ((l, r', e), refl)
  | inr off ↦ simp off ((l, _, refl), refl)
]

then_loop_cb-Stays : (s : Manager) → IsStuck s → Stays (then_loop_cb s)
unfolding then_loop_cb
then_loop_cb-Stays s stuck = simp (stuck.0) ((refl, stuck.1, stuck.2), refl)

abbrev pub is_cancelled : Event → Bool
is_cancelled (add is us rs) = false
is_cancelled (pause b) = false
is_cancelled cancelled = true
is_cancelled cleared = false
is_cancelled (ended b) = false
is_cancelled looped = false

abbrev pub any_cancelled : List Event → Bool
any_cancelled [] = false
any_cancelled (e ∷ es) = is_cancelled e || any_cancelled es

handle-Stays :
    (s : Manager) (e : Event) (p : Manager × List Output)
    → IsSane s
    → IsStuck s
    → is_cancelled e ≡ false
    → handle s e ≡ some p
    → Stays p
unfolding handle clear_finished transaction_finally
handle-Stays s (add is us rs) p ok stuck un e = elim (Option-cases (new_full s.next is us rs)) [
  | inl nothing ↦ Stays-some (s, []) p (sym (ap (add_new s) nothing) ∙ e) (stuck, refl)
  | inr (t, made) ↦
      add-Stays s t p ok stuck (new_full-IsOf s.next is us rs t made)
        (sym (ap (add_new s) made) ∙ e)
]
handle-Stays s (pause b) p ok stuck un e = Stays-some _ p e (set_paused-Stays s b stuck)
handle-Stays s cancelled p ok stuck un e = absurd (ground (arith, un))
handle-Stays s cleared p ok stuck un e = Stays-some _ p e (stuck, refl)
handle-Stays s (ended done) p ok stuck un e =
    Stays-some _ p e (finish_current-Stays s done s.current refl stuck)
handle-Stays s looped p ok stuck un e = Stays-some _ p e (then_loop_cb-Stays s stuck)

never_starts-append :
    (a b : List Output)
    → never_starts a ≡ true
    → never_starts b ≡ true
    → never_starts (a ++ b) ≡ true
never_starts-append [] b h h' = h'
never_starts-append (started t ∷ a) b h h' = absurd (ground (arith, h))
never_starts-append (resolved n x ∷ a) b h h' = never_starts-append a b h h'
never_starts-append (rejected n ∷ a) b h h' = never_starts-append a b h h'

abbrev StaysOn : Manager → List Event → Type 0
StaysOn s es =
    (s' : Manager) × (out : List Output) × (run s es ≡ some (s', out))
    × IsStuck s'
    × (never_starts out ≡ true)

run-StaysOn :
    (s : Manager) (es : List Event) → IsSane s → IsStuck s → any_cancelled es ≡ false → StaysOn s es
run-StaysOn s [] ok stuck un = (s, [], refl, stuck, refl)
run-StaysOn s (e ∷ es) ok stuck un =
    let u : is_cancelled e ≡ false = ground (arith, un) in
    let us : any_cancelled es ≡ false = ground (arith, un, u) in
    let (s₁, out₁, e₁, ok₁) = handle-Steps s e ok in
    let (stuck₁, never₁) = handle-Stays s e (s₁, out₁) ok stuck u e₁ in
    let (s₂, out₂, e₂, stuck₂, never₂) = run-StaysOn s₁ es ok₁ stuck₁ us in
    (
      s₂,
      out₁ ++ out₂,
      run-cons s s₁ s₂ e es out₁ out₂ e₁ e₂,
      stuck₂,
      never_starts-append out₁ out₂ never₁ never₂,
    )

resumed :
    (s : Manager)
    → s.queue ≡ []
    → dispatch_next (record s { paused = false }) ≡ (record s { paused = false; loop = false }, [])
unfolding dispatch_next
resumed s q = ap (serve (record s { paused = false }) s.current) q

reached-IsSane :
    (es : List Event) (s : Manager) (out : List Output)
    → run new_manager es ≡ some (s, out)
    → IsSane s
reached-IsSane es s out reached =
    let (s', out', e, ok) = run-IsSane es in
    let same : s' ≡ s = ground (arith, e, reached) in subst IsSane same ok

-- If the manager is paused and resumed while a transaction runs and none waits, then whatever is
-- added afterwards, and also when the running transaction has ended, no transaction is ever handed
-- to the backend again until the current one is cancelled: it stays current for ever.
pub pause_resume-StaysOn :
    (earlier later : List Event) (s : Manager) (out : List Output) (r : Running)
    → run new_manager earlier ≡ some (s, out)
    → s.current ≡ some r
    → s.queue ≡ []
    → any_cancelled later ≡ false
    → (s' : Manager) × (out' : List Output) × (run s (pause true ∷ pause false ∷ later)
        ≡ some (s', out'))
      × IsStuck s'
      × (never_starts out' ≡ true)
unfolding handle set_paused
pause_resume-StaysOn earlier later s out r reached c q un =
    let s₁ = record s { paused = false; loop = false } in
    let (s₂, out₂, e₂, stuck, never) =
      run-StaysOn s₁ later (reached-IsSane earlier s out reached) (refl, r, c) un in
    (
      s₂,
      out₂,
      ap (λ p. after [] (after p.1 (run p.0 later))) (resumed s q)
          ∙ ap (λ o. after [] (after [] o)) e₂,
      stuck,
      never,
    )
