-- ===== src/Permissions/Result.antt =====
-- src/bz-app-permissions.c: what bz_app_permissions_new_from_metadata returns.
use mathlib.Core.List.{Perm}
use mathlib.Core.List.Perm
use mathlib.Core.List.Pairwise
use native.Mathlib.Bridge.{le_prop}
use mathlib.Core.Logic.{∥∥₁_elim}
use spacedbazaar.Permissions.Parsing.{IsParsed, add_filesystems-IsParsed, add_buses-IsParsed}
use mathlib.Core.List.{Permᴰ}
use spacedbazaar.Common.{
  Bool, true, false, not, ◌&&◌, ◌||◌, List, [], ◌∷◌, Option, none, some, Text, codes, ◌≡◌, refl,
  sym, ap, subst, ◌∙◌, inl, inr, arith, All, Bool-cases, if◌then◌else◌, ◌==◌,
}
use spacedbazaar.Permissions.Flags.{
  Flag, Flags, no_flags, set_flag, set_flags, bit, system_bus, session_bus, network, x11, devices,
  input_devices, system_devices, escape_sandbox, audio_devices,
}
use spacedbazaar.Permissions.Store.{
  Permissions, new_permissions, Sorting, seal, array, on_array, BusPolicy,
  bz_app_permissions_set_flags, ◌>>=◌,
}
use spacedbazaar.Permissions.Context.{
  HasPolicyValues, Metadata, context_flags, contains, when, socket_flags, device_flags,
  shared_flags,
}
use spacedbazaar.Permissions.Filesystems.{Parsed, add_filesystems}
use spacedbazaar.Permissions.Metadata.{add_buses, bz_app_permissions_new_from_metadata}
use spacedbazaar.Permissions.Invariant.{Known, IsWellFormed, IsFilling, Gives, Gives-bind}
use spacedbazaar.Permissions.Sources.{Agrees, Coherent, is_context, is_home, set_flag-Coherent}

when-Coherent :
    (b : Bool) (js : List Flag) (f : Flags)
    → All (λ j. is_home j ≡ false) js
    → Coherent f
    → Coherent (when b js f)
unfolding set_flags when
when-Coherent false js f h c = c
when-Coherent true js f h c = set_all js f h c
  where
    set_all :
        (ks : List Flag) (g : Flags)
        → All (λ j. is_home j ≡ false) ks
        → Coherent g
        → Coherent (set_flags ks g)
    set_all [] g h c = c
    set_all (k ∷ ks) g (h, hs) c = set_all ks (set_flag k g) hs (set_flag-Coherent k g h c)

socket_flags-Coherent :
    (strv : Option (List Text)) (f₀ : Flags) → Coherent f₀ → Coherent (socket_flags strv f₀)
unfolding socket_flags is_home bit
socket_flags-Coherent strv f₀ c =
    let on_system = contains (codes "system-bus") strv in
    let on_session = contains (codes "session-bus") strv in
    let on_x11 = not (contains (codes "fallback-x11") strv) && contains (codes "x11") strv in
    let falls = contains (codes "fallback-x11") strv && not (contains (codes "wayland") strv) in
    let plays = contains (codes "pulseaudio") strv in
    let f₁ = when on_system (system_bus ∷ escape_sandbox ∷ []) f₀ in
    let f₂ = when on_session (session_bus ∷ escape_sandbox ∷ []) f₁ in
    let f₃ = when on_x11 (x11 ∷ []) f₂ in
    let f₄ = when falls (x11 ∷ []) f₃ in
    let f₅ = when plays (audio_devices ∷ []) f₄ in
    let c₁ = when-Coherent on_system (system_bus ∷ escape_sandbox ∷ []) f₀ (refl, (refl, _)) c in
    let c₂ = when-Coherent on_session (session_bus ∷ escape_sandbox ∷ []) f₁ (refl, (refl, _)) c₁ in
    let c₃ = when-Coherent on_x11 (x11 ∷ []) f₂ (refl, _) c₂ in
    let c₄ = when-Coherent falls (x11 ∷ []) f₃ (refl, _) c₃ in
    let c₅ = when-Coherent plays (audio_devices ∷ []) f₄ (refl, _) c₄ in
    when-Coherent (contains (codes "gpg-agent") strv) (escape_sandbox ∷ []) f₅ (refl, _) c₅

device_flags-Coherent :
    (strv : Option (List Text)) (f₀ : Flags) → Coherent f₀ → Coherent (device_flags strv f₀)
unfolding device_flags is_home bit
device_flags-Coherent strv f₀ c =
    let f₁ = when (contains (codes "all") strv) (devices ∷ []) f₀ in
    let f₂ = when (contains (codes "input") strv) (input_devices ∷ []) f₁ in
    let c₁ = when-Coherent (contains (codes "all") strv) (devices ∷ []) f₀ (refl, _) c in
    let c₂ = when-Coherent (contains (codes "input") strv) (input_devices ∷ []) f₁ (refl, _) c₁ in
    when-Coherent (contains (codes "shm") strv || contains (codes "kvm") strv) (system_devices ∷ [])
      f₂ (refl, _) c₂

shared_flags-Coherent :
    (strv : Option (List Text)) (f₀ : Flags) → Coherent f₀ → Coherent (shared_flags strv f₀)
unfolding shared_flags is_home bit
shared_flags-Coherent strv f₀ c =
    when-Coherent (contains (codes "network") strv) (network ∷ []) f₀ (refl, _) c

context_flags-Coherent : (m : Metadata) → Coherent (context_flags m)
unfolding context_flags
context_flags-Coherent m =
    shared_flags-Coherent m.shared _ (
      device_flags-Coherent m.devices_list _
        (socket_flags-Coherent m.sockets no_flags (refl, refl)))

on_array-perm {ℓ} :
    {A : Type ℓ} (f : List A → List A) (o : Option (List A))
    → ((xs : List A) → Perm (f xs) xs)
    → Perm (array (on_array f o)) (array o)
on_array-perm f none h = Perm.refl []
on_array-perm f (some xs) h = h xs

All-Permᴰ {ℓ κ} : {A : Type ℓ} (P : A → Type κ) {xs ys : List A} → Permᴰ xs ys → All P xs → All P ys
All-Permᴰ P Permᴰ.nil h = h
All-Permᴰ P (Permᴰ.cons e d) (h, hs) = (subst P e h, All-Permᴰ P d hs)
All-Permᴰ P (Permᴰ.swap e e') (h, (k, hs)) = (subst P e' k, (subst P e h, hs))
All-Permᴰ P (Permᴰ.trans d d') h = All-Permᴰ P d' (All-Permᴰ P d h)

All-Known-prop : (qs : List BusPolicy) → IsProp (All Known qs)
All-Known-prop [] = hlevel
All-Known-prop (q ∷ qs) = λ a b i. (le_prop a.0 b.0 i, All-Known-prop qs a.1 b.1 i)

seal-IsWellFormed :
    (s : Sorting) (p : Permissions)
    → p.is_sealed ≡ false
    → IsWellFormed p
    → ((seal s p).is_sealed ≡ true) × IsWellFormed (seal s p)
unfolding seal
seal-IsWellFormed s p unsealed (d, k) =
    let full = on_array-perm s.sort_paths p.filesystem_full s.sort_paths-perm in
    let read = on_array-perm s.sort_paths p.filesystem_read s.sort_paths-perm in
    let kept = on_array-perm s.sort_policies p.bus_policies s.sort_policies-perm in
    rw unsealed (
      refl,
      (
        Perm.nodup (Perm.symm (Perm.append full read)) d,
        ∥∥₁_elim (Perm.symm kept) (All-Known-prop _) (λ e. All-Permᴰ Known e k),
      ),
    )

seal-flags : (s : Sorting) (p : Permissions) → (seal s p).flags ≡ p.flags
unfolding seal
seal-flags s p = elim (Bool-cases p.is_sealed) [
  | inl shut ↦ rw shut refl
  | inr unsealed ↦ rw unsealed refl
]

-- What a caller may rely on.
abbrev IsResult : Metadata → Permissions → Type 0
IsResult m p = (p.is_sealed ≡ true) × IsWellFormed p × Agrees m p.flags × Coherent p.flags

new-IsFilling : IsFilling new_permissions
unfolding new_permissions
new-IsFilling = (refl, (Pairwise.nil, _))

set_flags-IsResult :
    (s : Sorting) (m : Metadata) (b : Parsed)
    → IsParsed m b
    → Gives (IsResult m) (bz_app_permissions_set_flags b.1 b.0 >>= λ q. some (seal s q))
unfolding bz_app_permissions_set_flags
set_flags-IsResult s m (f, p) (a, c, (unsealed, w)) =
    let q = record p { flags = f } in
    let (shut, w') = seal-IsWellFormed s q unsealed w in
    rw (ap (λ x. (if x then none else some q) >>= λ r. some (seal s r)) unsealed) (
      seal s q,
      (
        refl,
        (
          shut,
          w',
          subst (Agrees m) (sym (seal-flags s q)) a,
          subst Coherent (sym (seal-flags s q)) c,
        ),
      ),
    )

new_from_metadata-IsResult :
    (s : Sorting) (m : Metadata)
    → HasPolicyValues m
    → Gives (IsResult m) (bz_app_permissions_new_from_metadata s m)
unfolding bz_app_permissions_new_from_metadata
new_from_metadata-IsResult s m v =
    Gives-bind (add_filesystems m.filesystems (context_flags m, new_permissions)) _
      (add_filesystems-IsParsed m m.filesystems (context_flags m, new_permissions)
        (λ k h. refl, context_flags-Coherent m, new-IsFilling))
      (λ a h. Gives-bind (add_buses m a) _ (add_buses-IsParsed m a v h) (set_flags-IsResult s m))

-- Where every bus policy of the metadata has a value, reading it ends with a sealed object,
-- without an aborted operation, whatever the metadata and the two sorts are otherwise. Its arrays
-- of paths name no path twice, in one of them or over both, and every bus policy that it keeps is
-- at least `see`.
pub new_from_metadata-IsWellFormed :
    (s : Sorting) (m : Metadata)
    → HasPolicyValues m
    → Gives (λ p. (p.is_sealed ≡ true) × IsWellFormed p) (bz_app_permissions_new_from_metadata s m)
new_from_metadata-IsWellFormed s m v =
    let (p, (e, (shut, w, a, c))) = new_from_metadata-IsResult s m v in (p, (e, (shut, w)))

abbrev within : Flag → List Flag → Bool
within k [] = false
within k (j ∷ js) = (bit j == bit k) || within k js

set_flags-bit : (k : Flag) (js : List Flag) (f : Flags) → set_flags js f k ≡ (f k || within k js)
unfolding set_flags set_flag
set_flags-bit k [] f = ground (arith, Bool-cases (f k))
set_flags-bit k (j ∷ js) f = ground (arith, set_flags-bit k js (set_flag j f), Bool-cases (f k))

when-bit :
    (b : Bool) (k : Flag) (js : List Flag) (f : Flags) → when b js f k ≡ (f k || (b && within k js))
unfolding when
when-bit true k js f = set_flags-bit k js f
when-bit false k js f = ground (arith, Bool-cases (f k))

or-false : (b : Bool) → (b || false) ≡ b
or-false true = refl
or-false false = refl

and-false : (b : Bool) → (b && false) ≡ false
and-false true = refl
and-false false = refl

and-true : (b : Bool) → (b && true) ≡ b
and-true true = refl
and-true false = refl

socket_flags-none :
    (strv : Option (List Text))
    → (socket_flags strv no_flags network ≡ false)
      × (socket_flags strv no_flags devices ≡ false)
      × (socket_flags strv no_flags input_devices ≡ false)
unfolding socket_flags bit
socket_flags-none strv = (
  simp (when-bit, or-false, and-false),
  simp (when-bit, or-false, and-false),
  simp (when-bit, or-false, and-false),
)

tests :
    (falls on_x11 wayland : Bool)
    → (((not falls && on_x11) && true) || ((falls && not wayland) && true))
      ≡ (if falls then not wayland else on_x11)
tests true on_x11 true = refl
tests true on_x11 false = refl
tests false true wayland = refl
tests false false wayland = refl

socket_flags-x11 :
    (strv : Option (List Text))
    → socket_flags strv no_flags x11 ≡ (
        if contains (codes "fallback-x11") strv
        then not (contains (codes "wayland") strv)
        else contains (codes "x11") strv)
unfolding socket_flags bit
socket_flags-x11 strv =
    simp (when-bit, or-false, and-false)
      (tests (contains (codes "fallback-x11") strv) (contains (codes "x11") strv)
        (contains (codes "wayland") strv))

-- In the flags that metadata gives in which every bus policy has a value, read access to the home
-- folder or to the downloads is never set beside full access to the same; network, X11, devices
-- and input devices are set exactly by the lists: `network` is shared; `x11` is a socket without
-- `fallback-x11`, or `fallback-x11` is one without `wayland`; `all` and `input` are devices.
pub new_from_metadata-flags :
    (s : Sorting) (m : Metadata)
    → HasPolicyValues m
    → Gives
        (λ p.
          Coherent p.flags
          × (p.flags network ≡ contains (codes "network") m.shared)
          × (p.flags devices ≡ contains (codes "all") m.devices_list)
          × (p.flags input_devices ≡ contains (codes "input") m.devices_list)
          × (p.flags x11 ≡ (
              if contains (codes "fallback-x11") m.sockets
              then not (contains (codes "wayland") m.sockets)
              else contains (codes "x11") m.sockets)))
        (bz_app_permissions_new_from_metadata s m)
unfolding context_flags shared_flags device_flags is_context bit
new_from_metadata-flags s m v =
    let (p, (e, (shut, w, a, c))) = new_from_metadata-IsResult s m v in
    let nothing = socket_flags-none m.sockets in
    (
      p,
      (
        e,
        (
          c,
          a network refl ∙ simp (when-bit, or-false, and-false, nothing.0) (and-true _),
          a devices refl ∙ simp (when-bit, or-false, and-false, nothing.1) (and-true _),
          a input_devices refl ∙ simp (when-bit, or-false, and-false, nothing.2) (and-true _),
          a x11 refl ∙ simp (when-bit, or-false, and-false) (socket_flags-x11 m.sockets),
        ),
      ),
    )
