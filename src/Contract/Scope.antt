-- ===== src/Contract/Scope.antt =====
-- crates/contract/src/delegation.rs, `ResourceScope`: which resources an authority reaches.
pub mod Order
use multi.Prelude.{
  String, Bool, true, false, not, ◌&&◌, Option, none, some, List, [], ◌∷◌, all, Dict, lookup,
  insert, ◌==◌, string_eq, option_eq, if◌then◌else◌, is_some,
}
use multi.Contract.Claims.{ClaimValue, claim_value_eq}

pub record ResourceScope : Type 0 where
  pub resource_type : Option String
  pub resource_id : Option String
  pub attributes : Dict String ClaimValue

unfoldable pub any : ResourceScope
any = record { resource_type = none; resource_id = none; attributes = [] }

unfoldable pub resource : String → ResourceScope
resource resource_type = record {
  resource_type = some resource_type;
  resource_id = none;
  attributes = [];
}

unfoldable pub exact : String → String → ResourceScope
exact resource_type resource_id = record {
  resource_type = some resource_type;
  resource_id = some resource_id;
  attributes = [];
}

unfoldable pub with_attribute : ResourceScope → String → ClaimValue → ResourceScope
with_attribute scope key value = record scope { attributes = insert key value scope.attributes }

abbrev pub is_empty {ℓ} : {A : Type ℓ} → List A → Bool
is_empty [] = true
is_empty (x ∷ xs) = false

unfoldable pub is_unconstrained : ResourceScope → Bool
is_unconstrained scope =
    not (is_some scope.resource_type)
    && not (is_some scope.resource_id)
    && is_empty scope.attributes

-- `if let Some(parent) = parent { if own != Some(parent) { return false; } }`
unfoldable pub narrows : Option String → Option String → Bool
narrows own none = true
narrows own (some parent) = own == some parent

unfoldable pub is_subset_of : ResourceScope → ResourceScope → Bool
unfolding narrows
is_subset_of scope parent =
    if not (narrows scope.resource_type parent.resource_type)
    then false
    else if not (narrows scope.resource_id parent.resource_id)
    then false
    else all (λ (key, value). lookup key scope.attributes == some value) parent.attributes
