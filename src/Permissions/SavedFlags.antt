-- ===== src/Permissions/SavedFlags.antt =====
-- src/bz-app-permissions.c: the flags as they are written and read back.
use mathlib.Core.List.{Memᴰ}
use mathlib.Core.Path.{fun_ext}
use spacedbazaar.Common.{
  Text, text_eq, ℕ, zero, suc, Bool, true, false, ◌&&◌, ◌||◌, List, [], ◌∷◌, Option, none, some,
  ◌≡◌, refl, sym, ◌∙◌, ap, inl, inr, arith, Bool-cases, ◌==◌, get_elem?,
}
use spacedbazaar.Permissions.Flags.{
  Flag, Flags, bit, no_flags, set_flag, is_no_flags, any_flag, all_flags, network, system_bus,
  session_bus, devices, home_full, home_read, filesystem_full, filesystem_read, downloads_full,
  downloads_read, settings, x11, escape_sandbox, filesystem_other, bus_policy_other, audio_devices,
  input_devices, system_devices, screen,
}
use spacedbazaar.Permissions.Nicks.{EnumClass, IsFound, find_nick}
use spacedbazaar.Permissions.Saved.{flag_nicks, or_value, load_flags}

flag_at : (k : Flag) → get_elem? all_flags (bit k) ≡ some k
unfolding bit
flag_at network = refl
flag_at system_bus = refl
flag_at session_bus = refl
flag_at devices = refl
flag_at home_full = refl
flag_at home_read = refl
flag_at filesystem_full = refl
flag_at filesystem_read = refl
flag_at downloads_full = refl
flag_at downloads_read = refl
flag_at settings = refl
flag_at x11 = refl
flag_at escape_sandbox = refl
flag_at filesystem_other = refl
flag_at bus_policy_other = refl
flag_at audio_devices = refl
flag_at input_devices = refl
flag_at system_devices = refl
flag_at screen = refl

-- A bit belongs to one flag.
flag_of_bit : (flags : Flags) (j k : Flag) → (bit j == bit k) ≡ true → flags j ≡ flags k
flag_of_bit flags j k e =
    let n : bit j ≡ bit k = ground (arith, e) in
    let h : some j ≡ some k = sym (flag_at j) ∙ ap (get_elem? all_flags) n ∙ flag_at k in
    let same : j ≡ k = ground (arith, h) in ap flags same

abbrev is_value : Flag → Option Flag → Bool
is_value k none = false
is_value k (some j) = bit j == bit k

abbrev is_among : Flag → List (Option Flag) → Bool
is_among k [] = false
is_among k (v ∷ vs) = is_value k v || is_among k vs

is_among-Mem : (k : Flag) (vs : List (Option Flag)) → Memᴰ (some k) vs → is_among k vs ≡ true
is_among-Mem k [] mem = elim mem [ ]
is_among-Mem k (none ∷ vs) (Memᴰ.head e) = absurd (ground (arith, e))
is_among-Mem k (some j ∷ vs) (Memᴰ.head e) =
    let same : k ≡ j = ground (arith, e) in let n : bit k ≡ bit j = ap bit same in ground (arith, n)
is_among-Mem k (v ∷ vs) (Memᴰ.tail mem) = ground (arith, is_among-Mem k vs mem)

found-Mem {ℓ} :
    {A : Type ℓ} (nick : A → Text) (s : Text) (vs : List A) (a : A)
    → find_nick nick s vs ≡ some a
    → Memᴰ a vs
found-Mem nick s [] a e = ground (arith, e)
found-Mem nick s (v ∷ vs) a e = elim (Bool-cases (text_eq s (nick v))) [
  | inl on ↦ Memᴰ.head (let same : a ≡ v = ground (arith, on, e) in same)
  | inr off ↦ Memᴰ.tail (found-Mem nick s vs a (ground (arith, off, e)))
]

add_on : (a b m f : Bool) → (b ≡ true → true ≡ f) → (a || b) || (m && f) ≡ a || ((b || m) && f)
add_on true b m f h = refl
add_on false true m f h = h refl
add_on false false m f h = refl

add_off : (a b m f : Bool) → (b ≡ true → f ≡ false) → a || (m && f) ≡ a || ((b || m) && f)
add_off true b m f h = refl
add_off false true true f h = refl
add_off false true false f h = sym (h refl)
add_off false false m f h = refl

-- What the nicks of some enumerators add.
load_flags-nicks :
    (cls : EnumClass (Option Flag)) (f : IsFound cls) (flags acc : Flags) (vs : List (Option Flag))
    (k : Flag)
    → load_flags cls (flag_nicks cls flags vs) acc k ≡ (acc k || (is_among k vs && flags k))
unfolding set_flag
load_flags-nicks cls f flags acc [] k = ground arith
load_flags-nicks cls f flags acc (none ∷ vs) k = load_flags-nicks cls f flags acc vs k
load_flags-nicks cls f flags acc (some j ∷ vs) k = elim (Bool-cases (flags j)) [
  | inl on ↦ rw on (
      ap (λ o. load_flags cls (flag_nicks cls flags vs) (or_value o acc) k) (f (some j))
      ∙ load_flags-nicks cls f flags (set_flag j acc) vs k
      ∙ add_on (acc k) (bit j == bit k) (is_among k vs) (flags k)
          (λ e. sym on ∙ flag_of_bit flags j k e))
  | inr off ↦ rw off (
      load_flags-nicks cls f flags acc vs k
      ∙ add_off (acc k) (bit j == bit k) (is_among k vs) (flags k)
          (λ e. sym (flag_of_bit flags j k e) ∙ off))
]

any_flag-at :
    (flags : Flags) (ks : List Flag) (i : ℕ) (k : Flag)
    → get_elem? ks i ≡ some k
    → any_flag ks flags ≡ false
    → flags k ≡ false
unfolding any_flag
any_flag-at flags [] i k at e = absurd (ground (arith, at))
any_flag-at flags (j ∷ ks) zero k at e =
    let same : j ≡ k = ground (arith, at) in
    sym (ap flags same)
    ∙ (elim (Bool-cases (flags j)) [ inl on ↦ absurd (ground (arith, e, on)) | inr off ↦ off ])
any_flag-at flags (j ∷ ks) (suc i) k at e =
    any_flag-at flags ks i k at (elim (Bool-cases (flags j)) [
      | inl on ↦ absurd (ground (arith, e, on))
      | inr off ↦ ground (arith, e, off)
    ])

is_no_flags-off : (flags : Flags) (k : Flag) → is_no_flags flags ≡ true → flags k ≡ false
unfolding is_no_flags
is_no_flags-off flags k e = any_flag-at flags all_flags (bit k) k (flag_at k) (ground (arith, e))

pub load_flags-saved :
    (cls : EnumClass (Option Flag)) (f : IsFound cls) (flags : Flags)
    → load_flags cls (flag_nicks cls flags cls.values) no_flags ≡ flags
load_flags-saved cls f flags = fun_ext (λ k.
    load_flags-nicks cls f flags no_flags cls.values k
    ∙ ap (λ m. m && flags k)
        (is_among-Mem k cls.values
          (found-Mem cls.nick (cls.nick (some k)) cls.values (some k) (f (some k)))))

pub no_flags-saved : (flags : Flags) → is_no_flags flags ≡ true → no_flags ≡ flags
no_flags-saved flags e = fun_ext (λ k. sym (is_no_flags-off flags k e))
