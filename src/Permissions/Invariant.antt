-- ===== src/Permissions/Invariant.antt =====
-- src/bz-app-permissions.c: what holds of every object that bz_app_permissions_new_from_metadata
-- returns.
use mathlib.Core.List.{
  Mem, mem-append, Nodup, Nodup-cons, Perm, perm_middle, append_assoc, append-nil,
}
use mathlib.Core.List.Perm
use mathlib.Core.Logic.Or
use spacedbazaar.Common.{
  ℕ, ◌≤◌, true, false, List, [], ◌∷◌, ◌++◌, Option, none, some, Text, ◌≡◌, refl, sym, ap, subst,
  ◌∙◌, inl, inr, arith, All, leb, if◌then◌else◌, Bool-cases, Option-cases,
}
use spacedbazaar.Permissions.Store.{
  BusType, BusPermission, unknown, nothing, see, talk, own, raise, max_permission, same_bus,
  add_bus_policy, is_policy, put_policy, bus_none, bus_system, bus_session, FilesystemPath,
  BusPolicy, permission_code, Permissions, index_in, array_index, array, remove_index, or_null,
  ◌>>=◌, add_filesystem_read, add_filesystem_full,
}
use spacedbazaar.Permissions.Paths.{index_in-absent, index_in-remove}

-- The two arrays name every path once between them.
abbrev pub Apart : Permissions → Type 0
Apart p = Nodup (array p.filesystem_full ++ array p.filesystem_read)

-- A policy that is kept says more than `none`.
abbrev pub Known : BusPolicy → Type 0
Known q = 2 ≤ permission_code q.permission

abbrev pub IsWellFormed : Permissions → Type 0
IsWellFormed p = Apart p × All Known (array p.bus_policies)

-- A well-formed object that is still being filled.
abbrev pub IsFilling : Permissions → Type 0
IsFilling p = (p.is_sealed ≡ false) × IsWellFormed p

-- A result with property P.
abbrev pub Gives {ℓ κ} : {A : Type ℓ} → (A → Type κ) → Option A → Type (ℓ ⊔ κ)
Gives {A} P o = (a : A) × ((o ≡ some a) × P a)

pub Gives-bind {ℓ κ μ ν} :
    {A : Type ℓ} {B : Type μ} {P : A → Type κ} {Q : B → Type ν} (o : Option A) (f : A → Option B)
    → Gives P o
    → ((a : A) → P a → Gives Q (f a))
    → Gives Q (o >>= f)
Gives-bind {Q} o f (a, (e, h)) k = rw e (k a h)

not-mem-append :
    (x : FilesystemPath) (ps qs : List FilesystemPath)
    → ¬ Mem x ps
    → ¬ Mem x qs
    → ¬ Mem x (ps ++ qs)
not-mem-append x ps qs h k m = Or.elim (λ a b. elim a [ ]) (mem-append.0 m) h k

Nodup-end :
    (x : FilesystemPath) (ps : List FilesystemPath) → ¬ Mem x ps → Nodup ps → Nodup (ps ++ x ∷ [])
Nodup-end x ps h d =
    Perm.nodup
      (Perm.symm (subst (λ l. Perm (ps ++ x ∷ []) (x ∷ l)) (append-nil ps) (perm_middle ps [])))
      (Nodup-cons.1 (h, d))

array-or_null : (ps : List FilesystemPath) → array (or_null ps) ≡ ps
array-or_null [] = refl
array-or_null (p ∷ ps) = refl

-- A path that neither array names goes to the end of either.
Apart-read :
    (path : FilesystemPath) (full read : List FilesystemPath)
    → ¬ Mem path full
    → ¬ Mem path read
    → Nodup (full ++ read)
    → Nodup (full ++ (read ++ path ∷ []))
Apart-read path full read h k d =
    subst Nodup (append_assoc full read (path ∷ []))
      (Nodup-end path (full ++ read) (not-mem-append path full read h k) d)

Apart-full :
    (path : FilesystemPath) (full read : List FilesystemPath)
    → ¬ Mem path full
    → ¬ Mem path read
    → Nodup (full ++ read)
    → Nodup ((full ++ path ∷ []) ++ read)
Apart-full path full read h k d = subst Nodup (sym (append_assoc full (path ∷ []) read)) (
    Perm.nodup (Perm.symm (perm_middle full read))
      (Nodup-cons.1 (not-mem-append path full read h k, d)))

-- A path moves from the one array to the other.
Apart-move :
    (path : FilesystemPath) (full read : List FilesystemPath) (i : ℕ)
    → index_in path read ≡ some i
    → Nodup (full ++ read)
    → Nodup ((full ++ path ∷ []) ++ array (or_null (remove_index read i)))
Apart-move path full read i e d =
    let moved = Perm.nodup (Perm.append_left full (index_in-remove path read i e)) d in
    subst (λ l. Nodup ((full ++ path ∷ []) ++ l)) (sym (array-or_null (remove_index read i)))
      (subst Nodup (sym (append_assoc full (path ∷ []) (remove_index read i))) moved)

pub add_filesystem_read-IsFilling :
    (path : FilesystemPath) (p : Permissions)
    → IsFilling p
    → Gives IsFilling (add_filesystem_read path p)
unfolding add_filesystem_read array_index
add_filesystem_read-IsFilling path p (unsealed, (d, k)) =
    elim (Option-cases (index_in path (array p.filesystem_read))) [
      | inl unread ↦ elim (Option-cases (index_in path (array p.filesystem_full))) [
        | inl unfull ↦
            let d' =
              Apart-read path (array p.filesystem_full) (array p.filesystem_read)
                (index_in-absent path _ unfull) (index_in-absent path _ unread) d in
            rw (unsealed, unread, unfull) (_, (refl, (refl, (d', k))))
        | inr (i, full) ↦ rw (unsealed, unread, full) (_, (refl, (refl, (d, k))))
      ]
      | inr (i, read) ↦ rw (unsealed, read) (_, (refl, (refl, (d, k))))
    ]

pub add_filesystem_full-IsFilling :
    (path : FilesystemPath) (p : Permissions)
    → IsFilling p
    → Gives IsFilling (add_filesystem_full path p)
unfolding add_filesystem_full array_index
add_filesystem_full-IsFilling path p (unsealed, (d, k)) =
    elim (Option-cases (index_in path (array p.filesystem_full))) [
      | inr (i, full) ↦ rw (unsealed, full) (_, (refl, (refl, (d, k))))
      | inl unfull ↦ elim (Option-cases (index_in path (array p.filesystem_read))) [
        | inl unread ↦
            let d' =
              Apart-full path (array p.filesystem_full) (array p.filesystem_read)
                (index_in-absent path _ unfull) (index_in-absent path _ unread) d in
            rw (unsealed, unfull, unread) (_, (refl, (refl, (d', k))))
        | inr (i, read) ↦
            let d' = Apart-move path (array p.filesystem_full) (array p.filesystem_read) i read d in
            rw (unsealed, unfull, read) (_, (refl, (refl, (d', k))))
      ]
    ]

max_permission_lem :
    (a b : BusPermission) → permission_code a ≤ permission_code (max_permission a b)
unfolding max_permission
max_permission_lem a b = ground (arith, Bool-cases (leb (permission_code a) (permission_code b)))

abbrev KnownIn : Option (List BusPolicy) → Type 0
KnownIn none = Unit
KnownIn (some qs) = All Known qs

raise-Known :
    (t : BusType) (name : Text) (perm : BusPermission) (qs : List BusPolicy)
    → All Known qs
    → KnownIn (raise t name perm qs)
unfolding raise
raise-Known t name perm [] k = _
raise-Known t name perm (q ∷ qs) (k, ks) =
    let rest = raise-Known t name perm qs ks in
    elim (Bool-cases (same_bus t name q)) [
      | inl same ↦ rw same (omega (arith, k, max_permission_lem q.permission perm), ks)
      | inr other ↦ elim (Option-cases (raise t name perm qs)) [
        | inl gone ↦ rw (other, gone) _
        | inr (rs, found) ↦ rw (other, found) (k, subst KnownIn found rest)
      ]
    ]

All-end {ℓ κ} :
    {A : Type ℓ} (P : A → Type κ) (xs : List A) (x : A) → All P xs → P x → All P (xs ++ x ∷ [])
All-end P [] x k h = (h, _)
All-end P (y ∷ xs) x (k, ks) h = (k, All-end P xs x ks h)

-- A new policy, unless it is `none`.
put_policy-Known :
    (t : BusType) (name : Text) (perm : BusPermission) (p : Permissions)
    (o : Option (List BusPolicy))
    → is_policy t name perm ≡ true
    → All Known (array p.bus_policies)
    → KnownIn o
    → All Known (array (put_policy p t name perm o).bus_policies)
unfolding permission_code
put_policy-Known t name perm p (some qs) h k ks = ks
put_policy-Known t name nothing p none h k ks = k
put_policy-Known t name see p none h k ks = All-end Known _ _ k (omega arith)
put_policy-Known t name talk p none h k ks = All-end Known _ _ k (omega arith)
put_policy-Known t name own p none h k ks = All-end Known _ _ k (omega arith)
put_policy-Known bus_none name unknown p none h k ks = absurd (ground (arith, h))
put_policy-Known bus_system [] unknown p none h k ks = absurd (ground (arith, h))
put_policy-Known bus_system (b ∷ name) unknown p none h k ks = absurd (ground (arith, h))
put_policy-Known bus_session [] unknown p none h k ks = absurd (ground (arith, h))
put_policy-Known bus_session (b ∷ name) unknown p none h k ks = absurd (ground (arith, h))

-- The policies are all that changes.
put_policy-paths :
    (t : BusType) (name : Text) (perm : BusPermission) (p : Permissions)
    (o : Option (List BusPolicy))
    → Apart p
    → Apart (put_policy p t name perm o)
put_policy-paths t name unknown p none d = d
put_policy-paths t name nothing p none d = d
put_policy-paths t name see p none d = d
put_policy-paths t name talk p none d = d
put_policy-paths t name own p none d = d
put_policy-paths t name perm p (some qs) d = d

put_policy-sealed :
    (t : BusType) (name : Text) (perm : BusPermission) (p : Permissions)
    (o : Option (List BusPolicy))
    → (put_policy p t name perm o).is_sealed ≡ p.is_sealed
put_policy-sealed t name unknown p none = refl
put_policy-sealed t name nothing p none = refl
put_policy-sealed t name see p none = refl
put_policy-sealed t name talk p none = refl
put_policy-sealed t name own p none = refl
put_policy-sealed t name perm p (some qs) = refl

pub add_bus_policy-IsFilling :
    (t : BusType) (name : Text) (perm : BusPermission) (p : Permissions)
    → IsFilling p
    → Gives IsFilling (add_bus_policy t name perm p)
unfolding add_bus_policy
add_bus_policy-IsFilling t name perm p (unsealed, (d, k)) =
    elim (Bool-cases (is_policy t name perm)) [
      | inr refused ↦ rw refused (p, (refl, (unsealed, (d, k))))
      | inl known ↦
          let o = raise t name perm (array p.bus_policies) in
          rw (known, ap (λ b. if b then none else some (put_policy p t name perm o)) unsealed)
            (
              put_policy p t name perm o,
              (
                refl,
                (
                  put_policy-sealed t name perm p o ∙ unsealed,
                  (
                    put_policy-paths t name perm p o d,
                    put_policy-Known t name perm p o known k
                        (raise-Known t name perm (array p.bus_policies) k),
                  ),
                ),
              ),
            )
    ]
