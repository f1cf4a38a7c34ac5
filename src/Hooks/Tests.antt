-- ===== src/Hooks/Tests.antt =====
-- Runs of a configured hook, and the theorems about hooks at them.
use spacedbazaar.Common.{
  ℕ, zero, suc, ◌≤◌, ◌<◌, ◌≡◌, refl, false, List, [], ◌∷◌, none, some, arith, codes, text_eq,
  length,
}
use spacedbazaar.Hooks.Config.{
  before_transaction, Status, continue, deny, install, Hook, HookDialog, DialogData, DialogOption,
  hook_dialogs, build_dialogs, build_dialog, build_options, style_calls,
}
use spacedbazaar.Hooks.Stages.{
  Host, Request, Call, Outcome, spawn_failed, output, response, setup, stages, start, stage_bound,
  returned, execute_hook, is_accepted, round, choose, common_env, after_outcome, after_reply,
  first_line,
}
use spacedbazaar.Hooks.Termination.{stages-terminates}
use spacedbazaar.Hooks.Protocol.{Protocol, run-Protocol}
use spacedbazaar.Hooks.Offers.{OffersAll, run-OffersAll}
use spacedbazaar.Hooks.Emission.{
  Settled, heard, run_emission, run_emission-Settled, is_heard, is_checked, Fits,
}

abbrev yes_option : DialogOption
yes_option = record { id = some (codes "yes"); label = some (codes "Yes"); style = none }

abbrev ask : HookDialog
ask = record {
  id = some (codes "ask");
  title = some (codes "Sure?");
  body = some (codes "Install?");
  body_use_markup = false;
  default_response_id = some (codes "yes");
  options = some (yes_option ∷ []);
}

abbrev ask_data : DialogData
unfolding build_dialog build_options style_calls
ask_data = elim (build_dialog ask) [ none ↦ record { id = none; calls = [] } | some d ↦ d ]

abbrev guard_hook : Hook
guard_hook = record {
  id = some (codes "guard");
  when = before_transaction;
  dialogs = some (ask ∷ []);
  shell = some (codes "exec guard");
  check_appid_regex = none;
}

-- Setup, the dialog, and its abort; then catch gives up, and the teardown denies.
abbrev replies : ℕ → Outcome
replies zero = output (codes "ok\n")
replies (suc zero) = output (codes "ok")
replies (suc (suc zero)) = output (codes "abort")
replies (suc (suc (suc zero))) = output (codes "abort\nnoise")
replies (suc (suc (suc (suc zero)))) = output (codes "deny")
replies _ = spawn_failed

abbrev desk : Host
desk = record {
  timestamp_sec = codes "1700000000";
  timestamp_usec = codes "1700000000000000";
  decimal = λ n. n ∷ [];
  signal_nick = λ _. codes "before-transaction";
  ts_type_nick = λ _. codes "install";
  get_default_response = λ _. some (codes "yes");
  answer = λ _. response (codes "yes");
  run = λ n _. replies n;
}

abbrev order : Request
order = record { ts_type = install; ts_appid = some (codes "org.example.App"); group = none }

stages-terminates_example :
    (cs : List Call) × (st : Status) × (stages desk guard_hook order 6 (start (ask_data ∷ []))
      ≡ some (cs, st))
    × (length cs ≤ 6)
stages-terminates_example = stages-terminates desk guard_hook order (ask_data ∷ []) (omega arith)

abbrev guard_run : List Call × Status
unfolding stages start round choose common_env after_outcome after_reply first_line text_eq
guard_run = elim (stages desk guard_hook order 6 (start (ask_data ∷ []))) [
  | none ↦ ([], continue)
  | some r ↦ r
]

guard_denies : guard_run.1 ≡ deny
unfolding guard_run
guard_denies = refl

guard_run_lem : stages desk guard_hook order 6 (start (ask_data ∷ [])) ≡ some guard_run
unfolding guard_run
guard_run_lem = refl

run-Protocol_example : Protocol setup guard_run.0 guard_run.1
run-Protocol_example =
    run-Protocol desk guard_hook order (ask_data ∷ []) guard_run.0 guard_run.1 (omega arith)
      guard_run_lem

run-OffersAll_example : OffersAll (ask_data ∷ []) guard_run.0
run-OffersAll_example =
    run-OffersAll desk guard_hook order (ask_data ∷ []) guard_run.0 guard_run.1 guard_run_lem

guard-Fits : Fits guard_hook
unfolding hook_dialogs build_dialogs build_dialog build_options style_calls
guard-Fits ds e =
    elim ds as (λ xs. hook_dialogs guard_hook.dialogs ≡ some xs → stage_bound xs < 4_294_967_296) [
      | [] ↦ λ _. omega arith
      | x ∷ [] ↦ λ _. omega arith
      | x ∷ y ∷ xs ↦ λ e'. absurd (cc e')
    ]
      e

run_emission-Settled_example :
    Settled (heard (λ _. none) before_transaction order 0 (guard_hook ∷ guard_hook ∷ [])) (
      run_emission
        (λ _. desk)
        (λ _. none)
        before_transaction
        order
        0
        (guard_hook ∷ guard_hook ∷ []))
run_emission-Settled_example =
    run_emission-Settled (λ _. desk) (λ _. none) before_transaction order 0
      (guard_hook ∷ guard_hook ∷ []) (guard-Fits, (guard-Fits, tt))

-- The second of the two hooks is not executed, and the event is refused.
guard_emission :
    run_emission (λ _. desk) (λ _. none) before_transaction order 0 (guard_hook ∷ guard_hook ∷ [])
    ≡ some ((0, returned guard_run.0 deny) ∷ [], false)
unfolding guard_run run_emission is_heard is_checked execute_hook is_accepted hook_dialogs
    build_dialogs build_dialog build_options ask_data
guard_emission = refl
