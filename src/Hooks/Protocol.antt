-- ===== src/Hooks/Protocol.antt =====
-- The conversation between the loop of execute_hook_fiber and the shell body, as docs/overview.md
-- describes it: which stage may follow which, on what reply, and what the last reply decides.
use spacedbazaar.Common.{
  ℕ, zero, suc, ◌+◌, ◌<◌, ◌≡◌, refl, true, false, List, [], ◌∷◌, Option, none, some, arith, ◌⊎◌,
  inl, inr, Text, codes, text_eq, text_eq_iff, sym, subst, ◌∙◌,
}
use spacedbazaar.Hooks.Config.{Status, continue, stop, confirm, deny, Hook, DialogData}
use spacedbazaar.Hooks.Stages.{
  HookStage, setup, setup_dialog, teardown_dialog, catch, action, teardown, Host, Request, State,
  Call, goes, ends, Outcome, spawn_failed, exit_failed, read_failed, output, Run, choose,
  after_reply, after_outcome, first_line, round, stages, start, stage_bound, with_call,
}
use spacedbazaar.Hooks.Termination.{Next-cases, stages-goes, stages-ends, round-falls}

-- Where the hook goes on to: the next dialog, or the action.
abbrev pub Proceeds : HookStage → Type 0
Proceeds b = (b ≡ setup_dialog) ⊎ (b ≡ action)

-- The stage that a reply leads to.
abbrev pub Allowed : HookStage → Text → HookStage → Type 0
Allowed setup out b = (out ≡ codes "ok") × Proceeds b
Allowed setup_dialog out b =
    ((out ≡ codes "ok") × (b ≡ teardown_dialog)) ⊎ ((out ≡ codes "pass") × Proceeds b)
Allowed teardown_dialog out b =
    ((out ≡ codes "ok") × Proceeds b) ⊎ ((out ≡ codes "abort") × (b ≡ catch))
Allowed catch out b =
    ((out ≡ codes "recover") × Proceeds b) ⊎ ((out ≡ codes "abort") × (b ≡ teardown))
Allowed action out b = b ≡ teardown
Allowed teardown out b = ⊥

abbrev pub Continues : HookStage → Outcome → HookStage → Type 0
Continues a (output bytes) b = Allowed a (first_line bytes) b
Continues a spawn_failed b = ⊥
Continues a exit_failed b = ⊥
Continues a read_failed b = ⊥

-- What the last call decides: only a teardown that replies so is more than `continue`.
abbrev pub Decides : HookStage → Outcome → Status → Type 0
Decides teardown (output bytes) st =
    ((st ≡ stop) × (first_line bytes ≡ codes "stop"))
    ⊎ (((st ≡ confirm) × (first_line bytes ≡ codes "confirm"))
        ⊎ (((st ≡ deny) × (first_line bytes ≡ codes "deny"))
            ⊎ ((st ≡ continue)
                × (text_eq (first_line bytes) (codes "stop") ≡ false)
                × (text_eq (first_line bytes) (codes "confirm") ≡ false)
                × (text_eq (first_line bytes) (codes "deny") ≡ false))))
Decides _ _ st = st ≡ continue

-- A conversation that starts at stage `a` and ends with the status.
abbrev pub Protocol : HookStage → List Call → Status → Type 0
Protocol a [] st = ⊥
Protocol a (c ∷ []) st = (c.name ≡ a) × Decides c.name c.outcome st
Protocol a (c ∷ d ∷ cs) st =
    (c.name ≡ a) × Continues c.name c.outcome d.name × Protocol d.name (d ∷ cs) st

-- No dialog is on the screen at the first stage, nor while an abort is open.
record Wf (s : State) : Type 0 where
  first : s.stage ≡ 0 → s.current ≡ none
  open_abort : s.aborted ≡ true → s.current ≡ none

reply-Wf :
    (h : Host) (s : State) (out : Text) {t : State}
    → s.stage + 1 < 4_294_967_296
    → Wf s
    → after_reply (choose h s).0 out (choose h s).2 ≡ goes t
    → Wf t
unfolding choose after_reply
reply-Wf h s out small w e = ground arith

reply-Allowed :
    (h : Host) (s : State) (out : Text) {t : State}
    → s.stage + 1 < 4_294_967_296
    → Wf s
    → after_reply (choose h s).0 out (choose h s).2 ≡ goes t
    → Allowed (choose h s).0 out (choose h t).0
unfolding choose after_reply
reply-Allowed h s out small w e = ground (
  arith,
  text_eq_iff out (codes "ok"),
  text_eq_iff out (codes "pass"),
  text_eq_iff out (codes "abort"),
  text_eq_iff out (codes "recover"),
)

reply-Decides :
    (name : HookStage) (bytes : Text) (s : State) {st : Status}
    → after_reply name (first_line bytes) s ≡ ends st
    → Decides name (output bytes) st
unfolding after_reply
reply-Decides teardown bytes s e = ground (
  arith,
  text_eq_iff (first_line bytes) (codes "stop"),
  text_eq_iff (first_line bytes) (codes "confirm"),
  text_eq_iff (first_line bytes) (codes "deny"),
  text_eq_iff (first_line bytes) (codes "continue"),
)
reply-Decides _ bytes s e = ground arith

outcome-goes :
    (h : Host) (s : State) (o : Outcome) {t : State}
    → s.stage + 1 < 4_294_967_296
    → Wf s
    → after_outcome (choose h s).0 o (choose h s).2 ≡ goes t
    → Wf t × Continues (choose h s).0 o (choose h t).0
unfolding after_outcome
outcome-goes h s spawn_failed small w e = absurd (cc e)
outcome-goes h s exit_failed small w e = absurd (cc e)
outcome-goes h s read_failed small w e = absurd (cc e)
outcome-goes h s (output bytes) small w e =
    (reply-Wf h s (first_line bytes) small w e, reply-Allowed h s (first_line bytes) small w e)

outcome-ends :
    (name : HookStage) (o : Outcome) (s : State) {st : Status}
    → after_outcome name o s ≡ ends st
    → Decides name o st
unfolding after_outcome
outcome-ends name (output bytes) s e = reply-Decides name bytes s e
outcome-ends teardown spawn_failed s e = ground arith
outcome-ends teardown exit_failed s e = ground arith
outcome-ends teardown read_failed s e = ground arith
outcome-ends _ spawn_failed s e = ground arith
outcome-ends _ exit_failed s e = ground arith
outcome-ends _ read_failed s e = ground arith

-- What one round hands on: the next stage, or the verdict.
round-goes :
    (h : Host) (k : Hook) (r : Request) (s : State) {t : State}
    → s.stage + 1 < 4_294_967_296
    → Wf s
    → (round h k r s).1 ≡ goes t
    → Wf t × Continues (round h k r s).0.name (round h k r s).0.outcome (choose h t).0
unfolding round
round-goes h k r s small w e = outcome-goes h s _ small w e

round-ends :
    (h : Host) (k : Hook) (r : Request) (s : State) {st : Status}
    → (round h k r s).1 ≡ ends st
    → Decides (round h k r s).0.name (round h k r s).0.outcome st
unfolding round
round-ends h k r s e = outcome-ends (choose h s).0 _ (choose h s).2 e

round-name :
    (h : Host) (k : Hook) (r : Request) (s : State) → (round h k r s).0.name ≡ (choose h s).0
unfolding round
round-name h k r s = refl

cons-Protocol :
    (a b : HookStage) (c : Call) (cs : List Call) (st : Status)
    → c.name ≡ a
    → Continues c.name c.outcome b
    → Protocol b cs st
    → Protocol a (c ∷ cs) st
cons-Protocol a b c [] st e n p = elim p [ ]
cons-Protocol a b c (d ∷ []) st e n p =
    (e, subst (Continues c.name c.outcome) (sym p.0) n, (refl, p.1))
cons-Protocol a b c (d ∷ d' ∷ cs) st e n p =
    (e, subst (Continues c.name c.outcome) (sym p.0) n, (refl, p.1, p.2))

pub with_call-inv :
    (c : Call) (o : Option Run) {cs : List Call} {st : Status}
    → with_call c o ≡ some (cs, st)
    → (cs' : List Call) × (o ≡ some (cs', st)) × (cs ≡ c ∷ cs')
with_call-inv c none e = absurd (cc e)
with_call-inv c (some (cs', st')) e = (cs', ground arith, ground arith)

pub some-Run :
    (cs : List Call) (st : Status) (cs' : List Call) (st' : Status)
    → ◌≡◌ {A = Option Run} (some (cs, st)) (some (cs', st'))
    → (cs' ≡ cs) × (st' ≡ st)
some-Run cs st cs' st' e = ground arith

stages-Protocol :
    (h : Host) (k : Hook) (r : Request) (fuel : ℕ) (s : State) {cs : List Call} {st : Status}
    → s.stage + fuel < 4_294_967_296
    → Wf s
    → stages h k r fuel s ≡ some (cs, st)
    → Protocol (choose h s).0 cs st
stages-Protocol h k r zero s small w e = absurd (unfold stages in cc e)
stages-Protocol h k r (suc fuel) s {cs} {st} small w e = elim (Next-cases (round h k r s).1) [
  | inl (t, g) ↦
      let (cs', e', shape) =
        with_call-inv (round h k r s).0 (stages h k r fuel t)
          (sym (stages-goes h k r fuel s t g) ∙ e) in
      let (w', next) = round-goes h k r s (omega arith) w g in
      let (less, stage) = round-falls h k r s (omega arith) g in
      rw shape (
        cons-Protocol _ _ (round h k r s).0 _ _ (round-name h k r s) next
          (stages-Protocol h k r fuel t (omega (arith, stage)) w' e'))
  | inr (st', g) ↦
      let (shape, same) = some-Run _ _ _ _ (sym (stages-ends h k r fuel s st' g) ∙ e) in
      rw (shape, same) (round-name h k r s, round-ends h k r s g)
]

-- Every run of a hook's stages is a conversation as documented: it starts with setup; setup goes
-- on with "ok" alone; a dialog is torn down after "ok" and left out after "pass"; an "abort" at a
-- teardown of a dialog leads to catch, which alone can recover; the action leads to teardown; and
-- the status is `continue` unless the last stage is a teardown that replied otherwise. The stage
-- counter must not wrap.
pub run-Protocol :
    (h : Host) (k : Hook) (r : Request) (ds : List DialogData) (cs : List Call) (st : Status)
    → stage_bound ds < 4_294_967_296
    → stages h k r (stage_bound ds) (start ds) ≡ some (cs, st)
    → Protocol setup cs st
unfolding start choose
run-Protocol h k r ds cs st small e =
    stages-Protocol h k r (stage_bound ds) (start ds) (omega arith)
      (record { first = λ _. refl; open_abort = λ e'. refl }) e
