-- ===== src/Storage/Sorting.antt =====
-- `sort_by`: the listings of the stores come in the order of their ids.
use Prim.Native.Nat.{Ordering}
use Prim.Native.String.{compare}
use text.Mathlib.Text.{is_le}
use multi.Prelude.{
  String, Bool, true, false, List, [], ◌∷◌, ◌≡◌, ◌⊎◌, inl, inr, ◌↔◌, In, if◌then◌else◌, Bool-cases,
}

abbrev pub str_le : String → String → Bool
str_le a b = is_le (compare a b)

-- `cmp` of a pair of texts.
abbrev pub pair_le : String × String → String × String → Bool
pair_le (a, b) (c, d) = elim (compare a c) [
  | Ordering.lt ↦ true
  | Ordering.eq ↦ str_le b d
  | Ordering.gt ↦ false
]

module _ {A : Type 0} (le : A → A → Bool) where
  unfoldable pub insert_sorted : A → List A → List A
  insert_sorted a [] = a ∷ []
  insert_sorted a (x ∷ xs) = if le a x then a ∷ x ∷ xs else x ∷ insert_sorted a xs

  unfoldable pub sort_by : List A → List A
  unfolding insert_sorted
  sort_by [] = []
  sort_by (x ∷ xs) = insert_sorted x (sort_by xs)

  insert_sorted_iff : (b a : A) (xs : List A) → In b (insert_sorted a xs) ↔ ((a ≡ b) ⊎ In b xs)
  unfolding insert_sorted
  insert_sorted_iff b a [] = (λ h. h, λ h. h)
  insert_sorted_iff b a (x ∷ xs) = elim (Bool-cases (le a x)) [
    | inl small ↦ rw small (λ h. h, λ h. h)
    | inr large ↦
        let (there, back) = insert_sorted_iff b a xs in
        rw large (
          elim [
            | inl e ↦ inr (inl e)
            | inr m ↦ elim (there m) [ inl e ↦ inl e | inr k ↦ inr (inr k) ]
          ],
          elim [
            | inl e ↦ inr (back (inl e))
            | inr m ↦ elim m [ inl e ↦ inl e | inr k ↦ inr (back (inr k)) ]
          ],
        )
  ]

  -- Sorting keeps what there is.
  pub In-sort_by : (b : A) (xs : List A) → In b (sort_by xs) ↔ In b xs
  unfolding sort_by
  In-sort_by b [] = (λ h. h, λ h. h)
  In-sort_by b (x ∷ xs) =
      let (there, back) = insert_sorted_iff b x (sort_by xs) in
      let (out, into) = In-sort_by b xs in
      (
        λ h. elim (there h) [ inl e ↦ inl e | inr m ↦ inr (out m) ],
        λ h. back (elim h [ inl e ↦ inl e | inr m ↦ inr (into m) ]),
      )
