-- ===== src/Safety/Tests.antt =====
-- src/safety-calculator.c: the theorems at concrete applications.
use spacedbazaar.Common.{true, false, [], ◌∷◌, none, some, ◌≡◌, ◌↔◌}
use spacedbazaar.Permissions.Flags.{no_flags, set_flag, x11}
use spacedbazaar.Permissions.Store.{bus_session, talk}
use spacedbazaar.Permissions.Metadata.{bz_app_permissions_new_from_metadata}
use spacedbazaar.Permissions.Invariant.{Gives}
use spacedbazaar.Permissions.Tests.{unsorted, player, player-HasPolicyValues}
use spacedbazaar.Safety.Rows.{important}
use spacedbazaar.Safety.Labels.{Locale}
use spacedbazaar.Safety.Analyze.{Entry}
use spacedbazaar.Safety.Rating.{calculate_rating, get_entry_high_risk_groups, is_risky}
use spacedbazaar.Safety.Services.{analyze_entry}
use spacedbazaar.Safety.Icons.{get_top_icon}
use spacedbazaar.Safety.Order.{first, second, ranked, get_top_icon-ranked}
use spacedbazaar.Safety.Risk.{calculate_rating-warns, metadata-rating}
use spacedbazaar.Common.{codes, arith}

abbrev plain : Locale
plain = record { tr = λ s. s; printf = λ s a. s }

abbrev editor : Entry
editor = record {
  is_verified = true;
  is_foss = false;
  permissions = some record {
    is_sealed = true;
    flags = set_flag x11 no_flags;
    filesystem_read = none;
    filesystem_full = none;
    bus_policies = some (
        record { bus_type = bus_session; bus_name = codes "org.example.Spell"; permission = talk }
        ∷ []);
  };
}

calculate_rating-warns_example :
    Gives
      (λ r. (r ≡ important) ↔ (is_risky (get_entry_high_risk_groups editor) ≡ true))
      (calculate_rating plain editor)
unfolding spacedbazaar.Permissions.Store.permission_code
calculate_rating-warns_example = calculate_rating-warns plain editor (omega arith, _)

metadata-rating_example :
    Gives
      (λ p.
        let e : Entry = record { is_verified = false; is_foss = true; permissions = some p } in
        Gives
          (λ r. (r ≡ important) ↔ (is_risky (get_entry_high_risk_groups e) ≡ true))
          (calculate_rating plain e))
      (bz_app_permissions_new_from_metadata unsorted player)
metadata-rating_example = metadata-rating unsorted player plain false true player-HasPolicyValues

get_top_icon-ranked_example :
    Gives
      (λ rows.
        (get_top_icon plain editor 0 ≡ some (first (ranked rows)))
        × (get_top_icon plain editor 1 ≡ some (second (ranked rows))))
      (analyze_entry plain editor)
unfolding spacedbazaar.Permissions.Store.permission_code
get_top_icon-ranked_example = get_top_icon-ranked plain editor (omega arith, _)
