-- ===== src/Permissions/Context.antt =====
-- src/bz-app-permissions.c, bz_app_permissions_new_from_metadata: the sockets, devices and shared
-- lists. The GKeyFile is what its accessors return: the lists of the [Context] group, and the two
-- groups of bus policies.
use spacedbazaar.Common.{
  Bool, false, not, ◌&&◌, ◌||◌, ◌≡◌, List, [], ◌∷◌, Option, none, some, Text, codes, text_eq,
  if◌then◌else◌,
}
use spacedbazaar.Permissions.Flags.{
  Flag, Flags, no_flags, set_flags, network, system_bus, session_bus, devices, x11, escape_sandbox,
  audio_devices, input_devices, system_devices,
}

pub record Metadata : Type 0 where
  pub name : Option Text
  pub sockets : Option (List Text)
  pub devices_list : Option (List Text)
  pub shared : Option (List Text)
  pub filesystems : Option (List Text)
  -- The keys of the two groups, each with g_key_file_get_string's answer: `none` is its NULL, for a
  -- value that is no UTF-8.
  pub session_policies : List (Text × Option Text)
  pub system_policies : List (Text × Option Text)

-- Every policy of the metadata has a value.
abbrev pub HasValues : List (Text × Option Text) → Type 0
HasValues [] = Unit
HasValues ((name, word) ∷ keys) = ((s : Text) × (word ≡ some s)) × HasValues keys

abbrev pub HasPolicyValues : Metadata → Type 0
HasPolicyValues m = HasValues m.session_policies × HasValues m.system_policies

-- `strv != NULL && g_strv_contains (strv, value)`.
unfoldable pub strv_has : Text → List Text → Bool
strv_has value [] = false
strv_has value (s ∷ strv) = text_eq s value || strv_has value strv

abbrev pub contains : Text → Option (List Text) → Bool
contains value none = false
contains value (some strv) = strv_has value strv

-- `if (test) flags |= …`.
unfoldable pub when : Bool → List Flag → Flags → Flags
when test ks flags = if test then set_flags ks flags else flags

unfoldable pub socket_flags : Option (List Text) → Flags → Flags
socket_flags strv f₀ =
    let f₁ = when (contains (codes "system-bus") strv) (system_bus ∷ escape_sandbox ∷ []) f₀ in
    let f₂ = when (contains (codes "session-bus") strv) (session_bus ∷ escape_sandbox ∷ []) f₁ in
    let f₃ =
      when (not (contains (codes "fallback-x11") strv) && contains (codes "x11") strv) (x11 ∷ [])
        f₂ in
    let f₄ =
      when (contains (codes "fallback-x11") strv && not (contains (codes "wayland") strv))
        (x11 ∷ []) f₃ in
    let f₅ = when (contains (codes "pulseaudio") strv) (audio_devices ∷ []) f₄ in
    when (contains (codes "gpg-agent") strv) (escape_sandbox ∷ []) f₅

unfoldable pub device_flags : Option (List Text) → Flags → Flags
device_flags strv f₀ =
    let f₁ = when (contains (codes "all") strv) (devices ∷ []) f₀ in
    let f₂ = when (contains (codes "input") strv) (input_devices ∷ []) f₁ in
    when (contains (codes "shm") strv || contains (codes "kvm") strv) (system_devices ∷ []) f₂

unfoldable pub shared_flags : Option (List Text) → Flags → Flags
shared_flags strv f₀ = when (contains (codes "network") strv) (network ∷ []) f₀

unfoldable pub context_flags : Metadata → Flags
context_flags m =
    shared_flags m.shared (device_flags m.devices_list (socket_flags m.sockets no_flags))
