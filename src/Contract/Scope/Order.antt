-- ===== src/Contract/Scope/Order.antt =====
-- `ResourceScope::is_subset_of` orders scopes by what they reach.
use multi.Prelude.{
  String, Bool, true, Option, none, some, ◌≡◌, refl, In, all-In, all_of_In, lookup, NodupKeys,
  In_of_lookup, lookup-In, ◌==◌, ==_refl, eq_of_==, string_eq, option_eq, arith,
}
use multi.Contract.Claims.{ClaimValue, claim_value_eq}
use multi.Contract.Scope.{ResourceScope, narrows, is_subset_of}

abbrev carries : ResourceScope → String × ClaimValue → Bool
carries scope (key, value) = lookup key scope.attributes == some value

pub narrows-eq :
    (own : Option String) (parent : String) → narrows own (some parent) ≡ true → own ≡ some parent
unfolding narrows
narrows-eq own parent h = ground arith

narrows_refl : (own : Option String) → narrows own own ≡ true
unfolding narrows
narrows_refl none = refl
narrows_refl (some own) = ==_refl {A = Option String} (some own)

narrows_trans :
    (a b c : Option String) → narrows a b ≡ true → narrows b c ≡ true → narrows a c ≡ true
unfolding narrows
narrows_trans a b none h k = refl
narrows_trans a b (some c) h k = ground (arith, narrows_refl b)

-- The three parts of the test.
pub record IsSubset (scope parent : ResourceScope) : Type 0 where
  pub type_narrows : narrows scope.resource_type parent.resource_type ≡ true
  pub id_narrows : narrows scope.resource_id parent.resource_id ≡ true
  pub carried :
      (key : String) (value : ClaimValue)
      → In (key, value) parent.attributes
      → lookup key scope.attributes ≡ some value

pub is_subset_of-IsSubset :
    (scope parent : ResourceScope) → is_subset_of scope parent ≡ true → IsSubset scope parent
unfolding is_subset_of
is_subset_of-IsSubset scope parent h = record {
  type_narrows = ground arith;
  id_narrows = ground arith;
  carried = λ key value m.
      eq_of_== _ _ (all-In (carries scope) parent.attributes (key, value) (ground arith) m);
}

pub of_IsSubset :
    (scope parent : ResourceScope) → IsSubset scope parent → is_subset_of scope parent ≡ true
unfolding is_subset_of
of_IsSubset scope parent s =
    rw (s.type_narrows, s.id_narrows)
      (all_of_In (carries scope) parent.attributes (λ (key, value) m.
        rw (s.carried key value m) (==_refl {A = Option ClaimValue} (some value))))

-- A scope whose attributes have distinct keys, as those of a map have, is a subset of itself.
pub is_subset_of_refl :
    (scope : ResourceScope) → NodupKeys scope.attributes → is_subset_of scope scope ≡ true
is_subset_of_refl scope n = of_IsSubset scope scope (record {
  type_narrows = narrows_refl scope.resource_type;
  id_narrows = narrows_refl scope.resource_id;
  carried = λ key value m. lookup-In key value scope.attributes n m;
})

-- Narrowing a narrowed scope narrows the first one, whatever the length of the chain.
pub is_subset_of_trans :
    (a b c : ResourceScope)
    → is_subset_of a b ≡ true
    → is_subset_of b c ≡ true
    → is_subset_of a c ≡ true
is_subset_of_trans a b c h k =
    let s = is_subset_of-IsSubset a b h in
    let t = is_subset_of-IsSubset b c k in
    of_IsSubset a c (record {
      type_narrows =
          narrows_trans a.resource_type b.resource_type c.resource_type s.type_narrows
            t.type_narrows;
      id_narrows =
          narrows_trans a.resource_id b.resource_id c.resource_id s.id_narrows t.id_narrows;
      carried = λ key value m.
          s.carried key value (In_of_lookup key value b.attributes (t.carried key value m));
    })
