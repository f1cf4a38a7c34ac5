-- ===== src/Hooks/Config.antt =====
-- src/hooks.c, first half of execute_hook_fiber: the configured hook (bz-hook.txt,
-- bz-hook-dialog.txt, bz-hook-dialog-option.txt) and the alert dialogs built from it.
-- A libadwaita dialog is the list of the calls that the fiber makes on it.
use spacedbazaar.Common.{
  Bool, List, [], ◌∷◌, ◌++◌, Option, none, some, Text, codes, text_eq, if◌then◌else◌,
}

pub data Signal : Type 0 where
  view_app before_transaction after_transaction article_app : Signal

pub data Status : Type 0 where
  continue stop confirm deny : Status

pub data TransactionType : Type 0 where
  install update removal : TransactionType

pub record DialogOption : Type 0 where
  pub id : Option Text
  pub label : Option Text
  pub style : Option Text

pub record HookDialog : Type 0 where
  pub id : Option Text
  pub title : Option Text
  pub body : Option Text
  pub body_use_markup : Bool
  pub default_response_id : Option Text
  pub options : Option (List DialogOption)

pub record Hook : Type 0 where
  pub id : Option Text
  pub when : Signal
  pub dialogs : Option (List HookDialog)
  pub shell : Option Text
  pub check_appid_regex : Option Text

pub data Appearance : Type 0 where
  default_look suggested destructive : Appearance

pub data AlertCall : Type 0 where
  new_alert : Text → Text → AlertCall
  add_response : Text → Text → AlertCall
  set_appearance : Text → Appearance → AlertCall
  set_body_use_markup : Bool → AlertCall
  set_default_response : Text → AlertCall

-- `DialogData`.
pub record DialogData : Type 0 where
  pub id : Option Text
  pub calls : List AlertCall

-- A style that is neither word is warned of, and the default is set.
unfoldable pub appearance : Text → Appearance
appearance style =
    if text_eq style (codes "suggested")
    then suggested
    else if text_eq style (codes "destructive")
    then destructive
    else default_look

unfoldable pub style_calls : Text → Option Text → List AlertCall
style_calls id none = []
style_calls id (some style) = set_appearance id (appearance style) ∷ []

abbrev option_calls : Option Text → Option Text → Option Text → Option (List AlertCall)
option_calls none _ _ = none
option_calls (some id) none _ = none
option_calls (some id) (some label) style = some (add_response id label ∷ style_calls id style)

abbrev also : Option (List AlertCall) → Option (List AlertCall) → Option (List AlertCall)
also none _ = none
also (some xs) none = none
also (some xs) (some ys) = some (xs ++ ys)

-- The loop over the options; `none` abandons the hook.
unfoldable pub build_options : List DialogOption → Option (List AlertCall)
build_options [] = some []
build_options (o ∷ os) = also (option_calls o.id o.label o.style) (build_options os)

-- `n_opts` is the number of options when the loop is passed, and 0 with no option list.
abbrev option_list : Option (List DialogOption) → List DialogOption
option_list none = []
option_list (some os) = os

abbrev finish_dialog :
    Option Text
    → Text
    → Text
    → Bool
    → Text
    → List DialogOption
    → Option (List AlertCall)
    → Option DialogData
finish_dialog id title body markup response [] _ = none
finish_dialog id title body markup response (o ∷ os) none = none
finish_dialog id title body markup response (o ∷ os) (some calls) = some (record {
  id = id;
  calls =
      (new_alert title body ∷ calls)
      ++ (set_body_use_markup markup ∷ set_default_response response ∷ []);
})

abbrev check_dialog :
    Option Text
    → Option Text
    → Option Text
    → Bool
    → Option Text
    → List DialogOption
    → Option DialogData
check_dialog id none _ _ _ _ = none
check_dialog id (some title) none _ _ _ = none
check_dialog id (some title) (some body) _ none _ = none
check_dialog id (some title) (some body) markup (some response) os =
    finish_dialog id title body markup response os (build_options os)

-- One round of the loop over the dialogs; `none` abandons the hook.
unfoldable pub build_dialog : HookDialog → Option DialogData
build_dialog d =
    check_dialog d.id d.title d.body d.body_use_markup d.default_response_id (option_list d.options)

abbrev push : Option DialogData → Option (List DialogData) → Option (List DialogData)
push none _ = none
push (some d) none = none
push (some d) (some ds) = some (d ∷ ds)

unfoldable pub build_dialogs : List HookDialog → Option (List DialogData)
build_dialogs [] = some []
build_dialogs (d ∷ ds) = push (build_dialog d) (build_dialogs ds)

unfoldable pub hook_dialogs : Option (List HookDialog) → Option (List DialogData)
hook_dialogs none = some []
hook_dialogs (some ds) = build_dialogs ds
