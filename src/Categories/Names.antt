-- ===== src/Categories/Names.antt =====
-- src/bz-category-flags.c: the three operations on names against each other.
use spacedbazaar.Common.{
  ℕ, zero, suc, Bool, true, false, ◌&&◌, ◌||◌, List, [], ◌∷◌, Option, none, some, Text, text_eq,
  text_eq_iff, ◌==◌, ◌≡◌, refl, sym, ap, ◌∙◌, inl, inr, arith, All, Bool-cases, Option-cases,
  ==_iff,
}
use spacedbazaar.Categories.Table.{
  Category, category_bit, CategoryFlags, or_flag, name_flag_map, find_flag, bz_category_flags_add,
  bz_category_flags_has_name, bz_category_flags_from_name,
}

-- The name of the bit in the table.
abbrev name_at : ℕ → List (Text × Category) → Text
name_at n [] = []
name_at zero (r ∷ rows) = r.0
name_at (suc n) (r ∷ rows) = name_at n rows

abbrev name_of : Category → Text
name_of c = name_at (category_bit c) name_flag_map

rows-IsNamed : All (λ r. text_eq (name_of r.1) r.0 ≡ true) name_flag_map
unfolding category_bit text_eq
rows-IsNamed = (
  refl,
  (
    refl,
    (
      refl,
      (
        refl,
        (
          refl,
          (
            refl,
            (
              refl,
              (refl, (refl, (refl, (refl, (refl, (refl, (refl, (refl, (refl, (refl, _)))))))))),
            ),
          ),
        ),
      ),
    ),
  ),
)

find_flag-name :
    (rows : List (Text × Category)) (name : Text) (c : Category)
    → All (λ r. text_eq (name_of r.1) r.0 ≡ true) rows
    → find_flag rows name ≡ some c
    → name_of c ≡ name
unfolding find_flag
find_flag-name [] name c h e = absurd (ground (arith, e))
find_flag-name ((key, k) ∷ rows) name c (h, hs) e = elim (Bool-cases (text_eq key name)) [
  | inl same ↦
      let is : k ≡ c = ground (arith, e, same) in
      ap name_of (sym is) ∙ (text_eq_iff (name_of k) key).0 h ∙ (text_eq_iff key name).0 same
  | inr other ↦ find_flag-name rows name c hs (ground (arith, e, other))
]

abbrev pub is_found : Option Category → Bool
is_found none = false
is_found (some c) = true

-- A name of the table.
abbrev pub is_known : Text → Bool
is_known name = is_found (find_flag name_flag_map name)

-- Two names with the same bit are equal.
same_bit :
    (m n : Text) (c d : Category)
    → find_flag name_flag_map m ≡ some c
    → find_flag name_flag_map n ≡ some d
    → (category_bit c == category_bit d) ≡ text_eq n m
same_bit m n c d e e' =
    let names = find_flag-name name_flag_map m c rows-IsNamed e in
    let names' = find_flag-name name_flag_map n d rows-IsNamed e' in
    elim (Bool-cases (text_eq n m)) [
      | inl same ↦
          let equal : n ≡ m = (text_eq_iff n m).0 same in
          let found : some c ≡ some d = sym e ∙ ap (find_flag name_flag_map) (sym equal) ∙ e' in
          rw same (bits c d found)
      | inr other ↦ elim (Bool-cases (category_bit c == category_bit d)) [
        | inr apart ↦ apart ∙ sym other
        | inl bit ↦
            let i : category_bit c ≡ category_bit d =
              (==_iff (category_bit c) (category_bit d)).0 bit in
            let equal : n ≡ m = sym names' ∙ ap (λ k. name_at k name_flag_map) (sym i) ∙ names in
            absurd (ground (arith, other, (text_eq_iff n m).1 equal))
      ]
    ]
  where
    bits : (a b : Category) → some a ≡ some b → (category_bit a == category_bit b) ≡ true
    bits a b h = ground (arith, h)

unknown_differs :
    (m n : Text) (c : Category)
    → find_flag name_flag_map m ≡ none
    → find_flag name_flag_map n ≡ some c
    → text_eq n m ≡ false
unknown_differs m n c e e' = elim (Bool-cases (text_eq n m)) [
  | inr other ↦ other
  | inl same ↦
      let equal : n ≡ m = (text_eq_iff n m).0 same in
      let found : none ≡ some c = sym e ∙ ap (find_flag name_flag_map) (sym equal) ∙ e' in
      absurd (ground (arith, found))
]

-- A set has a name after another name was added exactly if it had it before, or if it is a name of
-- the table and equals the added one in lower case. Adding a name is the union with the set that
-- bz_category_flags_from_name gives for it.
pub bz_category_flags_add-has :
    (strdown : Text → Text) (flags : CategoryFlags) (name n : Text) (k : Category)
    → (bz_category_flags_has_name (bz_category_flags_add strdown flags (some name)) (some n)
        ≡ (bz_category_flags_has_name flags (some n) || (is_known n && text_eq n (strdown name))))
      × (bz_category_flags_add strdown flags (some name) k
          ≡ (flags k || bz_category_flags_from_name strdown (some name) k))
unfolding bz_category_flags_has_name bz_category_flags_add bz_category_flags_from_name or_flag
bz_category_flags_add-has strdown flags name n k =
    let d = find_flag name_flag_map (strdown name) in
    (
      elim (Option-cases d) [
        | inl unknown ↦ elim (Option-cases (find_flag name_flag_map n)) [
          | inl none_found ↦ rw (unknown, none_found) refl
          | inr (c, found) ↦
              let differs = unknown_differs (strdown name) n c unknown found in
              rw (unknown, found) (ground (arith, differs, Bool-cases (flags c)))
        ]
        | inr (b, known) ↦ elim (Option-cases (find_flag name_flag_map n)) [
          | inl none_found ↦ rw (known, none_found) refl
          | inr (c, found) ↦
              rw (known, found) (ap (λ x. flags c || x) (same_bit (strdown name) n b c known found))
        ]
      ],
      elim (Option-cases d) [
        | inl unknown ↦ rw unknown (ground (arith, Bool-cases (flags k)))
        | inr (b, known) ↦ rw known refl
      ],
    )
