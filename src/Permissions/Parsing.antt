-- ===== src/Permissions/Parsing.antt =====
-- src/bz-app-permissions.c: what each step of
-- bz_app_permissions_new_from_metadata keeps.
use spacedbazaar.Common.{
  ℕ, false, List, [], ◌∷◌, Option, none, some, Text, codes, ◌≡◌, refl, subst, inl, inr, arith, All,
  Bool-cases, has_suffix, ltb, length,
}
use spacedbazaar.Permissions.Flags.{
  Flag, Flags, set_flag, bit, any_flag, filesystem_other, bus_policy_other, system_bus, session_bus,
}
use spacedbazaar.Permissions.Store.{BusType, BusPermission, Permissions, bus_session, bus_system}
use spacedbazaar.Permissions.Context.{Metadata, HasValues, HasPolicyValues}
use spacedbazaar.Permissions.Filesystems.{
  Parsed, add_unmatched, add_other, add_others, add_filesystems, access_loop, filesystems_access,
  settle_reads,
}
use spacedbazaar.Permissions.Buses.{
  BusRow, bus_policy_permissions, row_fits, find_row, apply_row, apply_word, policy_word, is_exempt,
  add_policies, add_group,
}
use spacedbazaar.Permissions.Metadata.{add_buses}
use spacedbazaar.Permissions.Invariant.{
  IsFilling, Gives, Gives-bind, add_filesystem_read-IsFilling, add_filesystem_full-IsFilling,
  add_bus_policy-IsFilling,
}
use spacedbazaar.Permissions.Sources.{
  Agrees, Coherent, IsNeutral, is_context, is_home, set_flag-Agrees, set_flag-Coherent,
  access_loop-Agrees, settle_reads-Agrees, settle_reads-Coherent,
}

-- What holds between two steps of the parser.
abbrev pub IsParsed : Metadata → Parsed → Type 0
IsParsed m (f, p) = Agrees m f × Coherent f × IsFilling p

set_neutral :
    (m : Metadata) (k : Flag) (f : Flags)
    → IsNeutral k
    → Agrees m f
    → Coherent f
    → Agrees m (set_flag k f) × Coherent (set_flag k f)
set_neutral m k f (h, h') a c = (set_flag-Agrees m k f h a, set_flag-Coherent k f h' c)

add_other-IsFilling :
    (perm : Text) (p : Permissions) → IsFilling p → Gives IsFilling (add_other perm p)
unfolding add_other
add_other-IsFilling perm p h = elim (Bool-cases (has_suffix perm (codes ":ro"))) [
  | inl ro ↦ rw ro (add_filesystem_read-IsFilling _ p h)
  | inr rw_ ↦ rw rw_ (add_filesystem_full-IsFilling _ p h)
]

add_others-IsFilling :
    (strv : List Text) (p : Permissions) → IsFilling p → Gives IsFilling (add_others strv p)
unfolding add_others
add_others-IsFilling [] p h = (p, (refl, h))
add_others-IsFilling ([] ∷ strv) p h = add_others-IsFilling strv p h
add_others-IsFilling ((c ∷ s) ∷ strv) p h =
    Gives-bind (add_other (c ∷ s) p) (add_others strv) (add_other-IsFilling (c ∷ s) p h)
      (add_others-IsFilling strv)

other-IsNeutral : IsNeutral filesystem_other × IsNeutral bus_policy_other
unfolding is_context is_home bit
other-IsNeutral = ((refl, refl), (refl, refl))

rows-Outside : All (λ r. All (λ j. is_context j ≡ false) r.1) filesystems_access
unfolding is_context bit
rows-Outside = (
  (refl, _),
  (
    (refl, _),
    (
      (refl, _),
      (
        (refl, _),
        (
          (refl, _),
          (
            (refl, _),
            (
              (refl, _),
              (
                (refl, _),
                (
                  (refl, _),
                  (
                    _,
                    (
                      (refl, _),
                      (
                        (refl, _),
                        (
                          (refl, _),
                          (
                            (refl, _),
                            (
                              (refl, (refl, _)),
                              ((refl, (refl, _)), ((refl, (refl, _)), ((refl, _), _))),
                            ),
                          ),
                        ),
                      ),
                    ),
                  ),
                ),
              ),
            ),
          ),
        ),
      ),
    ),
  ),
)

rows-IsNeutral : All (λ r. IsNeutral r.flag) bus_policy_permissions
unfolding is_context is_home bit
rows-IsNeutral = ((refl, refl), ((refl, refl), ((refl, refl), ((refl, refl), _))))

add_unmatched-IsParsed :
    (m : Metadata) (n : ℕ) (f : Flags) (hits : ℕ) (left : List Text) (p : Permissions)
    → Agrees m f
    → IsFilling p
    → Gives (IsParsed m) (add_unmatched n (f, hits, left) p)
unfolding add_unmatched
add_unmatched-IsParsed m n f hits left p a h =
    let c = settle_reads-Coherent f in
    let a' = settle_reads-Agrees m f a in
    let (a'', c') = set_neutral m filesystem_other (settle_reads f) other-IsNeutral.0 a' c in
    elim (Bool-cases (ltb hits n)) [
      | inl more ↦ rw more (
          Gives-bind (add_others left p) (λ q. some (set_flag filesystem_other (settle_reads f), q))
            (add_others-IsFilling left p h) (λ q k. (_, (refl, (a'', c', k)))))
      | inr all ↦ rw all (_, (refl, (a', c, h)))
    ]

pub add_filesystems-IsParsed :
    (m : Metadata) (strv : Option (List Text)) (a : Parsed)
    → IsParsed m a
    → Gives (IsParsed m) (add_filesystems strv a)
unfolding add_filesystems
add_filesystems-IsParsed m none (f, p) h = ((f, p), (refl, h))
add_filesystems-IsParsed m (some strv) (f, p) (a, c, h) =
    let (f', hits, left) = access_loop filesystems_access (f, 0, strv) in
    add_unmatched-IsParsed m (length strv) _ _ _ p
      (access_loop-Agrees m filesystems_access (f, 0, strv) rows-Outside a) h

find_row-IsNeutral :
    (rows : List BusRow) (t : BusType) (name : Text) (policy : BusPermission) (k : Flag)
    → All (λ r. IsNeutral r.flag) rows
    → find_row rows t name policy ≡ some k
    → IsNeutral k
unfolding find_row
find_row-IsNeutral [] t name policy k h e = absurd (ground (arith, e))
find_row-IsNeutral (r ∷ rows) t name policy k (h, hs) e =
    elim (Bool-cases (row_fits r t name policy)) [
      | inl fits ↦ subst IsNeutral (ground (arith, e, fits)) h
      | inr no_fit ↦ find_row-IsNeutral rows t name policy k hs (ground (arith, e, no_fit))
    ]

apply_row-IsParsed :
    (m : Metadata) (o : Option Flag) (t : BusType) (name : Text) (policy : BusPermission)
    (a : Parsed)
    → ((k : Flag) → o ≡ some k → IsNeutral k)
    → IsParsed m a
    → Gives (IsParsed m) (apply_row o t name policy a)
apply_row-IsParsed m (some k) t name policy (f, p) n (a, c, h) =
    let (a', c') = set_neutral m k f (n k refl) a c in (_, (refl, (a', c', h)))
apply_row-IsParsed m none t name policy (f, p) n (a, c, h) =
    let (a', c') = set_neutral m bus_policy_other f other-IsNeutral.1 a c in
    Gives-bind _ (λ q. some (set_flag bus_policy_other f, q))
      (add_bus_policy-IsFilling t name policy p h) (λ q k. (_, (refl, (a', c', k))))

apply_word-IsParsed :
    (m : Metadata) (o : Option BusPermission) (app_id : Option Text) (t : BusType) (name : Text)
    (a : Parsed)
    → IsParsed m a
    → Gives (IsParsed m) (apply_word o app_id t name a)
apply_word-IsParsed m none app_id t name a h = (a, (refl, h))
apply_word-IsParsed m (some policy) app_id t name a h =
    elim (Bool-cases (is_exempt app_id t name)) [
      | inl exempt ↦ rw exempt (a, (refl, h))
      | inr subject ↦ rw subject (
          apply_row-IsParsed m (find_row bus_policy_permissions t name policy) t name policy a
            (λ k. find_row-IsNeutral bus_policy_permissions t name policy k rows-IsNeutral) h)
    ]

add_policies-IsParsed :
    (m : Metadata) (app_id : Option Text) (t : BusType) (keys : List (Text × Option Text))
    (a : Parsed)
    → HasValues keys
    → IsParsed m a
    → Gives (IsParsed m) (add_policies app_id t keys a)
unfolding add_policies
add_policies-IsParsed m app_id t [] a v h = (a, (refl, h))
add_policies-IsParsed m app_id t ((name, none) ∷ keys) a v h = ground (arith, v.0.1)
add_policies-IsParsed m app_id t ((name, some word) ∷ keys) a v h =
    Gives-bind (apply_word (policy_word word) app_id t name a) (add_policies app_id t keys)
      (apply_word-IsParsed m (policy_word word) app_id t name a h)
      (λ b k. add_policies-IsParsed m app_id t keys b v.1 k)

add_group-IsParsed :
    (m : Metadata) (app_id : Option Text) (t : BusType) (k : Flag)
    (keys : List (Text × Option Text)) (a : Parsed)
    → HasValues keys
    → IsParsed m a
    → Gives (IsParsed m) (add_group app_id t k keys a)
unfolding add_group
add_group-IsParsed m app_id t k keys (f, p) v h = elim (Bool-cases (f k)) [
  | inl unfiltered ↦ rw unfiltered (_, (refl, h))
  | inr filtered ↦ rw filtered (add_policies-IsParsed m app_id t keys (f, p) v h)
]

pub add_buses-IsParsed :
    (m : Metadata) (a : Parsed)
    → HasPolicyValues m
    → IsParsed m a
    → Gives (IsParsed m) (add_buses m a)
unfolding add_buses
add_buses-IsParsed m (f, p) v h = elim (Bool-cases (any_flag (system_bus ∷ session_bus ∷ []) f)) [
  | inl any ↦ rw any (_, (refl, h))
  | inr neither ↦ rw neither (
      Gives-bind _ (add_group m.name bus_system system_bus m.system_policies)
        (add_group-IsParsed m m.name bus_session session_bus m.session_policies (f, p) v.0 h)
        (λ b k. add_group-IsParsed m m.name bus_system system_bus m.system_policies b v.1 k))
]
