-- ===== src/Hooks/Offers.antt =====
-- Which dialogs a hook of src/hooks.c offers: the shell body is asked about each configured dialog
-- in order, by its id in the environment, and the action comes only after the last of them.
use spacedbazaar.Common.{
  ℕ, zero, suc, ◌≡◌, refl, Bool, true, false, List, [], ◌∷◌, ◌++◌, Option, none, some, arith,
  if◌then◌else◌, ◌⊎◌, inl, inr, Text, codes, text_eq, sym, map, ◌∙◌, ◌||◌, ap, Bool-cases,
}
use mathlib.Core.List.{append_assoc}
use spacedbazaar.Hooks.Config.{
  Status, Hook, DialogData, view_app, before_transaction, after_transaction, article_app, Signal,
}
use spacedbazaar.Hooks.Stages.{
  HookStage, setup_dialog, action, Host, Request, State, Call, Env, goes, Outcome, output, choose,
  after_reply, after_outcome, round, stages, start, stage_bound, common_env, dialog_id_key,
  first_line, stage_text,
}
use spacedbazaar.Hooks.Termination.{Next-cases, stages-goes, stages-ends}
use spacedbazaar.Hooks.Protocol.{with_call-inv, some-Run}

-- The value that the launched shell sees: a later setting overrides an earlier one.
unfoldable pub getenv : Text → Env → Option (Option Text)
getenv key [] = none
getenv key ((name, value) ∷ env) = elim (getenv key env) [
  | some v ↦ some v
  | none ↦ if text_eq name key then some value else none
]

abbrev pub is_setup_dialog : HookStage → Bool
is_setup_dialog setup_dialog = true
is_setup_dialog _ = false

abbrev pub is_action : HookStage → Bool
is_action action = true
is_action _ = false

-- The ids under which the shell body was asked about dialogs.
abbrev pub offered : List Call → List (Option (Option Text))
offered [] = []
offered (c ∷ cs) =
    let rest = offered cs in
    if is_setup_dialog c.name then getenv dialog_id_key c.env ∷ rest else rest

abbrev pub ran_action : List Call → Bool
ran_action [] = false
ran_action (c ∷ cs) = is_action c.name || ran_action cs

-- The calls ask about the first dialogs, and about all of them if the action was run.
abbrev pub OffersAll : List DialogData → List Call → Type 0
OffersAll ds cs =
    (rest : List (Option (Option Text))) × (map (λ (d : DialogData). some d.id) ds
      ≡ offered cs ++ rest)
    × (ran_action cs ≡ true → rest ≡ [])

getenv-common :
    (h : Host) (k : Hook) (r : Request) (n : ℕ) (a : Bool) (w : Signal) (id : Option Text)
    → k.when ≡ w
    → getenv dialog_id_key (
        common_env h k r n a
        ++ ((dialog_id_key, id) ∷ (codes "BAZAAR_HOOK_STAGE", some (codes "setup-dialog")) ∷ []))
      ≡ some id
unfolding getenv common_env text_eq
getenv-common h k r n a view_app id e = rw e
getenv-common h k r n a before_transaction id e = rw e
getenv-common h k r n a after_transaction id e = rw e
getenv-common h k r n a article_app id e = rw e

abbrev ids : List DialogData → List (Option (Option Text))
ids ds = map (λ (d : DialogData). some d.id) ds

outcome-dialogs :
    (name : HookStage) (o : Outcome) (s : State) {t : State}
    → after_outcome name o s ≡ goes t
    → t.dialogs ≡ s.dialogs
unfolding after_outcome after_reply
outcome-dialogs name (output bytes) s e = reply-dialogs name (first_line bytes) s e
  where
    reply-dialogs :
        (n : HookStage) (out : Text) (u : State) {v : State}
        → after_reply n out u ≡ goes v
        → v.dialogs ≡ u.dialogs
    reply-dialogs n out u e' = ground arith
outcome-dialogs name _ s e = absurd (cc e)

-- A stage either takes the next dialog and names it, or leaves the dialogs; the action takes none
-- and finds none left.
abbrev Takes : List DialogData → HookStage → Env → List DialogData → Type 0
Takes ds name extra ds' =
    ((d : DialogData) × (ds ≡ d ∷ ds')
      × (name ≡ setup_dialog)
      × (extra ≡ (dialog_id_key, d.id) ∷ []))
    ⊎ ((is_setup_dialog name ≡ false) × (ds ≡ ds') × (is_action name ≡ true → ds ≡ []))

choose-Takes :
    (h : Host) (s : State) → Takes s.dialogs (choose h s).0 (choose h s).1 (choose h s).2.dialogs
unfolding choose
choose-Takes h s = split s.dialogs refl
  where
    split :
        (ds : List DialogData)
        → s.dialogs ≡ ds
        → Takes s.dialogs (choose h s).0 (choose h s).1 (choose h s).2.dialogs
    split [] e = ground arith
    split (d ∷ ds) e = ground arith

-- One round, as the induction uses it.
abbrev Asks : List DialogData → Call → List DialogData → Type 0
Asks ds c ds' = (ids ds ≡ offered (c ∷ []) ++ ids ds') × (is_action c.name ≡ true → ds' ≡ [])

Takes-Asks :
    (h : Host) (k : Hook) (r : Request) (n : ℕ) (a : Bool) (ds : List DialogData) (name : HookStage)
    (extra : Env) (ds' : List DialogData) (o : Outcome)
    → Takes ds name extra ds'
    → Asks ds
        (record {
          name = name;
          env =
              common_env h k r n a
              ++ (extra ++ (codes "BAZAAR_HOOK_STAGE", some (stage_text name)) ∷ []);
          outcome = o;
        })
        ds'
Takes-Asks h k r n a ds name extra ds' o (inl (d, e, f, g)) =
    rw (f, g, e) (rw (getenv-common h k r n a k.when d.id refl) refl, λ b. absurd (cc b))
Takes-Asks h k r n a ds name extra ds' o (inr (f, e, last)) = (rw (f, e) refl, λ b. sym e ∙ last b)

round-Asks :
    (h : Host) (k : Hook) (r : Request) (s : State)
    → Asks s.dialogs (round h k r s).0 (choose h s).2.dialogs
unfolding round
round-Asks h k r s =
    Takes-Asks h k r s.stage s.aborted s.dialogs (choose h s).0 (choose h s).1
      (choose h s).2.dialogs (round h k r s).0.outcome (choose-Takes h s)

round-dialogs :
    (h : Host) (k : Hook) (r : Request) (s : State) {t : State}
    → (round h k r s).1 ≡ goes t
    → t.dialogs ≡ (choose h s).2.dialogs
unfolding round
round-dialogs h k r s e = outcome-dialogs (choose h s).0 _ (choose h s).2 e

offered-cons : (c : Call) (cs : List Call) → offered (c ∷ cs) ≡ offered (c ∷ []) ++ offered cs
offered-cons c cs = ground arith

no_ids :
    (ds : List DialogData) (xs ys : List (Option (Option Text)))
    → ds ≡ []
    → ids ds ≡ xs ++ ys
    → ys ≡ []
no_ids ds [] ys e f = sym f ∙ rw e refl
no_ids ds (x ∷ xs) ys e f = absurd (cc)

cons-OffersAll :
    (ds ds' : List DialogData) (c : Call) (cs : List Call)
    → Asks ds c ds'
    → OffersAll ds' cs
    → OffersAll ds (c ∷ cs)
cons-OffersAll ds ds' c cs (asks, last) (rest, e, all) = (
  rest,
  asks
      ∙ ap (◌++◌ (offered (c ∷ []))) e
      ∙ sym (append_assoc (offered (c ∷ [])) (offered cs) rest)
      ∙ ap (λ xs. xs ++ rest) (sym (offered-cons c cs)),
  λ ran. elim (Bool-cases (is_action c.name)) [
    | inl now ↦ no_ids ds' (offered cs) rest (last now) e
    | inr later ↦ all (ground arith)
  ],
)

stages-OffersAll :
    (h : Host) (k : Hook) (r : Request) (fuel : ℕ) (s : State) {cs : List Call} {st : Status}
    → stages h k r fuel s ≡ some (cs, st)
    → OffersAll s.dialogs cs
stages-OffersAll h k r zero s e = absurd (unfold stages in cc e)
stages-OffersAll h k r (suc fuel) s {cs} {st} e = elim (Next-cases (round h k r s).1) [
  | inl (t, g) ↦
      let (cs', e', shape) =
        with_call-inv (round h k r s).0 (stages h k r fuel t)
          (sym (stages-goes h k r fuel s t g) ∙ e) in
      rw shape (
        cons-OffersAll s.dialogs (choose h s).2.dialogs (round h k r s).0 cs' (round-Asks h k r s)
          (rw (← round-dialogs h k r s g) (stages-OffersAll h k r fuel t e')))
  | inr (st', g) ↦
      let (shape, same) = some-Run _ _ _ _ (sym (stages-ends h k r fuel s st' g) ∙ e) in
      rw shape (only s.dialogs (choose h s).2.dialogs (round h k r s).0 (round-Asks h k r s))
]
  where
    only : (ds ds' : List DialogData) (c : Call) → Asks ds c ds' → OffersAll ds (c ∷ [])
    only ds ds' c (asks, last) = (ids ds', asks, λ ran. ap ids (last (ground arith)))

-- Whatever the shell body and the user answer, the shell body is asked about the hook's dialogs in
-- their configured order, each at most once and by its own id, and the action is run only after it
-- was asked about every one of them.
pub run-OffersAll :
    (h : Host) (k : Hook) (r : Request) (ds : List DialogData) (cs : List Call) (st : Status)
    → stages h k r (stage_bound ds) (start ds) ≡ some (cs, st)
    → OffersAll ds cs
unfolding start
run-OffersAll h k r ds cs st e = stages-OffersAll h k r (stage_bound ds) (start ds) e
