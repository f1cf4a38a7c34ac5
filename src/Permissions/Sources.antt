-- ===== src/Permissions/Sources.antt =====
-- src/bz-app-permissions.c: where bz_app_permissions_new_from_metadata takes the flags from.
use spacedbazaar.Common.{
  ℕ, Bool, true, false, ◌&&◌, ◌||◌, List, [], ◌∷◌, Text, ◌≡◌, refl, inl, inr, arith, All,
  if◌then◌else◌, ◌==◌, Bool-cases,
}
use spacedbazaar.Permissions.Flags.{
  Flag, Flags, set_flag, set_flags, clear_flag, bit, home_full, home_read, filesystem_full,
  filesystem_read, downloads_full, downloads_read,
}
use spacedbazaar.Permissions.Context.{Metadata, strv_has, context_flags}
use spacedbazaar.Permissions.Filesystems.{Access, access_row, access_loop, settle_reads}

-- The bits that the sockets, devices and shared lists alone decide: network, system_bus,
-- session_bus, devices, x11, input_devices, system_devices.
abbrev among : ℕ → List ℕ → Bool
among n [] = false
among n (m ∷ ms) = (n == m) || among n ms

unfoldable pub is_context : Flag → Bool
is_context k = among (bit k) (0 ∷ 1 ∷ 2 ∷ 3 ∷ 11 ∷ 16 ∷ 17 ∷ [])

unfoldable pub is_home : Flag → Bool
is_home k = among (bit k) (4 ∷ 5 ∷ 8 ∷ 9 ∷ [])

abbrev pub Agrees : Metadata → Flags → Type 0
Agrees m f = (k : Flag) → is_context k ≡ true → f k ≡ context_flags m k

-- Read access is not listed beside full access to the same place.
abbrev pub Coherent : Flags → Type 0
Coherent f =
    ((f home_full && f home_read) ≡ false) × ((f downloads_full && f downloads_read) ≡ false)

abbrev pub IsNeutral : Flag → Type 0
IsNeutral k = (is_context k ≡ false) × (is_home k ≡ false)

apart : (j k : Flag) → is_context j ≡ false → is_context k ≡ true → (bit j == bit k) ≡ false
unfolding is_context
apart j k h h' = elim (Bool-cases (bit j == bit k)) [
  | inl same ↦ absurd (ground (arith, h, h', same))
  | inr other ↦ other
]

pub set_flag-Agrees :
    (m : Metadata) (j : Flag) (f : Flags)
    → is_context j ≡ false
    → Agrees m f
    → Agrees m (set_flag j f)
unfolding set_flag
set_flag-Agrees m j f h a k c = ground (arith, apart j k h c, a k c)

pub clear_flag-Agrees :
    (m : Metadata) (j : Flag) (f : Flags)
    → is_context j ≡ false
    → Agrees m f
    → Agrees m (clear_flag j f)
unfolding clear_flag
clear_flag-Agrees m j f h a k c = ground (arith, apart j k h c, a k c)

abbrev Outside : List Flag → Type 0
Outside = All (λ j. is_context j ≡ false)

set_flags-Agrees :
    (m : Metadata) (js : List Flag) (f : Flags)
    → Outside js
    → Agrees m f
    → Agrees m (set_flags js f)
unfolding set_flags
set_flags-Agrees m [] f h a = a
set_flags-Agrees m (j ∷ js) f (h, hs) a =
    set_flags-Agrees m js (set_flag j f) hs (set_flag-Agrees m j f h a)

access_row-Agrees :
    (m : Metadata) (key : Text) (js : List Flag) (a : Access)
    → Outside js
    → Agrees m a.0
    → Agrees m (access_row key js a).0
unfolding access_row
access_row-Agrees m key js (f, hits, strv) h a = elim (Bool-cases (strv_has key strv)) [
  | inl hit ↦ rw hit (set_flags-Agrees m js f h a)
  | inr miss ↦ rw miss a
]

pub access_loop-Agrees :
    (m : Metadata) (rows : List (Text × List Flag)) (a : Access)
    → All (λ r. Outside r.1) rows
    → Agrees m a.0
    → Agrees m (access_loop rows a).0
unfolding access_loop
access_loop-Agrees m [] a h g = g
access_loop-Agrees m ((key, js) ∷ rows) a (h, hs) g =
    access_loop-Agrees m rows (access_row key js a) hs (access_row-Agrees m key js a h g)

clear_if-Agrees :
    (m : Metadata) (b : Bool) (j : Flag) (f : Flags)
    → is_context j ≡ false
    → Agrees m f
    → Agrees m (if b then clear_flag j f else f)
clear_if-Agrees m true j f h a = clear_flag-Agrees m j f h a
clear_if-Agrees m false j f h a = a

pub settle_reads-Agrees : (m : Metadata) (f : Flags) → Agrees m f → Agrees m (settle_reads f)
unfolding settle_reads is_context bit
settle_reads-Agrees m f a =
    let f₁ = if f home_full then clear_flag home_read f else f in
    let f₂ = if f₁ filesystem_full then clear_flag filesystem_read f₁ else f₁ in
    clear_if-Agrees m (f₂ downloads_full) downloads_read f₂ refl (
      clear_if-Agrees m (f₁ filesystem_full) filesystem_read f₁ refl
        (clear_if-Agrees m (f home_full) home_read f refl a))

pub settle_reads-Coherent : (f : Flags) → Coherent (settle_reads f)
unfolding settle_reads clear_flag bit
settle_reads-Coherent f = elim (Bool-cases (f home_full)) [
  | inl home ↦ elim (Bool-cases (f filesystem_full)) [
    | inl all ↦ elim (Bool-cases (f downloads_full)) [
      | inl down ↦ ground (arith, home, all, down)
      | inr none_down ↦ ground (arith, home, all, none_down)
    ]
    | inr some_of ↦ elim (Bool-cases (f downloads_full)) [
      | inl down ↦ ground (arith, home, some_of, down)
      | inr none_down ↦ ground (arith, home, some_of, none_down)
    ]
  ]
  | inr no_home ↦ elim (Bool-cases (f filesystem_full)) [
    | inl all ↦ elim (Bool-cases (f downloads_full)) [
      | inl down ↦ ground (arith, no_home, all, down)
      | inr none_down ↦ ground (arith, no_home, all, none_down)
    ]
    | inr some_of ↦ elim (Bool-cases (f downloads_full)) [
      | inl down ↦ ground (arith, no_home, some_of, down)
      | inr none_down ↦ ground (arith, no_home, some_of, none_down)
    ]
  ]
]

away : (j k : Flag) → is_home j ≡ false → is_home k ≡ true → (bit j == bit k) ≡ false
unfolding is_home
away j k h h' = elim (Bool-cases (bit j == bit k)) [
  | inl same ↦ absurd (ground (arith, h, h', same))
  | inr other ↦ other
]

home_flags :
    All (λ k. is_home k ≡ true) (home_full ∷ home_read ∷ downloads_full ∷ downloads_read ∷ [])
unfolding is_home bit
home_flags = (refl, (refl, (refl, (refl, _))))

pub set_flag-Coherent :
    (j : Flag) (f : Flags) → is_home j ≡ false → Coherent f → Coherent (set_flag j f)
unfolding set_flag
set_flag-Coherent j f h c =
    let a = away j home_full h home_flags.0 in
    let b = away j home_read h home_flags.1.0 in
    let d = away j downloads_full h home_flags.1.1.0 in
    let e = away j downloads_read h home_flags.1.1.1.0 in ground (arith, a, b, c, d, e)
