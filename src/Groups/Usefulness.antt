-- ===== src/Groups/Usefulness.antt =====
-- src/bz-entry.c: what a group asks of a BzEntry, and bz_entry_calc_usefulness.
use spacedbazaar.Common.{
  ℕ, ◌+◌, Bool, true, false, Option, none, some, Text, codes, strcmp0_eq, ℤ, sub_ℕ, if◌then◌else◌,
  ltb,
}
use spacedbazaar.Categories.Table.{CategoryFlags}

-- The fields that are only tested against NULL are Booleans.
pub record BzEntry : Type 0 where
  pub unique_id : Text
  pub id : Option Text
  pub is_addon : Bool
  pub installed_version : Option Text
  pub is_installed : Bool
  pub is_holding : Bool
  pub is_reinstallable : Bool
  pub is_searchable : Bool
  pub eol : Option Text
  pub title : Option Text
  pub description : Option Text
  pub developer : Option Text
  pub mini_icon : Option ℕ
  pub search_tokens : Option Text
  pub is_foss : Bool
  pub is_flathub : Bool
  pub is_verified : Bool
  pub light_accent_color : Option Text
  pub dark_accent_color : Option Text
  pub installed_size : ℕ
  pub n_addons : ℕ
  pub donation_url : Option Text
  pub category_flags : CategoryFlags
  pub minimum_age : Option ℕ
  pub remote_repo_name : Option Text
  pub size : ℕ
  pub has_long_description : Bool
  pub has_url : Bool
  pub has_icon_paintable : Bool
  pub has_remote_repo_icon : Bool
  pub has_metadata_license : Bool
  pub has_project_license : Bool
  pub has_project_group : Bool
  pub has_developer_id : Bool
  pub has_screenshot_paintables : Bool
  pub has_share_urls : Bool

abbrev pub is_set {ℓ} : {A : Type ℓ} → Option A → Bool
is_set none = false
is_set (some _) = true

abbrev points : Bool → ℕ → ℕ
points b n = if b then n else 0

abbrev source_points : BzEntry → ℕ
source_points e =
    if strcmp0_eq e.remote_repo_name (some (codes "spaced-github"))
    then 2000
    else points e.is_flathub 1000

unfoldable pub calc_usefulness : BzEntry → ℤ
calc_usefulness e =
    sub_ℕ
      (source_points e
        + points (is_set e.title) 5
        + points (is_set e.description) 1
        + points e.has_long_description 5
        + points e.has_url 1
        + points (ltb 0 e.size) 1
        + points e.has_icon_paintable 15
        + points e.has_remote_repo_icon 1
        + points e.has_metadata_license 1
        + points e.has_project_license 1
        + points e.has_project_group 1
        + points (is_set e.developer) 1
        + points e.has_developer_id 1
        + points e.has_screenshot_paintables 5
        + points e.has_share_urls 5)
      (points (is_set e.eol) 500)
