-- ===== src/Hooks/Termination.antt =====
-- The loop of execute_hook_fiber ends: a hook with n dialogs runs at most 3 n + 3 stages.
use spacedbazaar.Common.{
  ℕ, zero, suc, ◌+◌, ◌*◌, ◌≤◌, ◌<◌, ◌≡◌, refl, List, [], ◌∷◌, Option, none, some, arith, length,
  ◌==◌, if◌then◌else◌, Text, inl, inr, ◌⊎◌,
}
use spacedbazaar.Hooks.Config.{Status, Hook, DialogData}
use spacedbazaar.Hooks.Stages.{
  Host, Request, State, Call, Next, goes, ends, Outcome, spawn_failed, exit_failed, read_failed,
  output, Run, choose, after_reply, after_outcome, first_line, round, stages, start, stage_bound,
  with_call,
}

-- The stages that a dialog on the screen still needs: its teardown, and a catch.
abbrev pending : Option DialogData → ℕ
pending none = 0
pending (some d) = 2

-- How many more stages the loop can run.
pub measure : State → ℕ
measure s =
    if s.finish
    then 1
    else 3 * length s.dialogs
      + pending s.current
      + (if s.aborted then 3 else if s.stage == 0 then 3 else 2)

choice-falls :
    (h : Host) (s : State) (out : Text) {t : State}
    → s.stage + 1 < 4_294_967_296
    → after_reply (choose h s).0 out (choose h s).2 ≡ goes t
    → (measure t < measure s) × (t.stage ≡ s.stage + 1)
unfolding choose after_reply measure
choice-falls h s out small e = ground arith

outcome-falls :
    (h : Host) (s : State) (o : Outcome) {t : State}
    → s.stage + 1 < 4_294_967_296
    → after_outcome (choose h s).0 o (choose h s).2 ≡ goes t
    → (measure t < measure s) × (t.stage ≡ s.stage + 1)
unfolding after_outcome
outcome-falls h s spawn_failed small e = absurd (cc e)
outcome-falls h s exit_failed small e = absurd (cc e)
outcome-falls h s read_failed small e = absurd (cc e)
outcome-falls h s (output bytes) small e = choice-falls h s (first_line bytes) small e

pub round-falls :
    (h : Host) (k : Hook) (r : Request) (s : State) {t : State}
    → s.stage + 1 < 4_294_967_296
    → (round h k r s).1 ≡ goes t
    → (measure t < measure s) × (t.stage ≡ s.stage + 1)
unfolding round
round-falls h k r s small e = outcome-falls h s _ small e

pub Next-cases : (n : Next) → ((s : State) × (n ≡ goes s)) ⊎ ((st : Status) × (n ≡ ends st))
Next-cases (goes s) = inl (s, refl)
Next-cases (ends st) = inr (st, refl)

pub stages-goes :
    (h : Host) (k : Hook) (r : Request) (fuel : ℕ) (s t : State)
    → (round h k r s).1 ≡ goes t
    → stages h k r (suc fuel) s ≡ with_call (round h k r s).0 (stages h k r fuel t)
unfolding stages
stages-goes h k r fuel s t e = rw (e, stages)

pub stages-ends :
    (h : Host) (k : Hook) (r : Request) (fuel : ℕ) (s : State) (st : Status)
    → (round h k r s).1 ≡ ends st
    → stages h k r (suc fuel) s ≡ some ((round h k r s).0 ∷ [], st)
unfolding stages
stages-ends h k r fuel s st e = rw (e, stages)

measure-pos : (s : State) → 0 < measure s
unfolding measure
measure-pos s = ground arith

-- A run that ends within the fuel, after at most that many calls of the shell body.
abbrev pub EndsWithin : ℕ → Option Run → Type 0
EndsWithin n o = (cs : List Call) × (st : Status) × (o ≡ some (cs, st)) × (length cs ≤ n)

with_call-EndsWithin :
    (c : Call) (n : ℕ) (o : Option Run) → EndsWithin n o → EndsWithin (suc n) (with_call c o)
with_call-EndsWithin c n o (cs, st, e, l) = (c ∷ cs, st, rw e, omega arith)

stages-EndsWithin :
    (h : Host) (k : Hook) (r : Request) (fuel : ℕ) (s : State)
    → measure s ≤ fuel
    → s.stage + fuel < 4_294_967_296
    → EndsWithin fuel (stages h k r fuel s)
stages-EndsWithin h k r zero s m small = absurd (omega (arith, measure-pos s))
stages-EndsWithin h k r (suc fuel) s m small = elim (Next-cases (round h k r s).1) [
  | inl (t, e) ↦
      let (less, stage) = round-falls h k r s (omega arith) e in
      rw (stages-goes h k r fuel s t e) (
        with_call-EndsWithin _ fuel _
          (stages-EndsWithin h k r fuel t (omega (arith, less)) (omega (arith, stage))))
  | inr (st, e) ↦ (_ ∷ [], st, stages-ends h k r fuel s st e, omega arith)
]

measure-start : (ds : List DialogData) → measure (start ds) ≡ stage_bound ds
unfolding measure start
measure-start ds = omega arith

-- A hook whose dialogs were built runs to a status, in at most 3 n + 3 stages for n dialogs,
-- whatever the shell body and the user answer, provided that 3 n + 3 does not reach 2^32, where the
-- stage counter wraps.
pub stages-terminates :
    (h : Host) (k : Hook) (r : Request) (ds : List DialogData)
    → stage_bound ds < 4_294_967_296
    → (cs : List Call) × (st : Status) × (stages h k r (stage_bound ds) (start ds) ≡ some (cs, st))
      × (length cs ≤ stage_bound ds)
unfolding start
stages-terminates h k r ds small =
    stages-EndsWithin h k r (stage_bound ds) (start ds) (omega (arith, measure-start ds))
      (omega arith)
