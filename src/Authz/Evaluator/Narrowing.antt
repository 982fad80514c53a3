-- ===== src/Authz/Evaluator/Narrowing.antt =====
-- A scope that narrows another reaches no request that the other does not reach.
use multi.Prelude.{
  String, Bool, true, Option, none, some, [], ◌∷◌, ◌≡◌, refl, In, all, all-In, all_of_In, Dict,
  lookup, In_of_lookup, string_eq, option_eq, arith, inl,
}
use multi.Contract.Claims.{ClaimValue}
use multi.Contract.Scope.{ResourceScope, narrows, is_subset_of, is_unconstrained, is_empty}
use multi.Contract.Scope.Order.{IsSubset, is_subset_of-IsSubset}
use multi.Authz.Policy.{ResourceRef, ResourceAttributes, AuthorizationRequest}
use multi.Authz.Evaluator.{
  type_fits, id_fits, attribute_fits, resource_fits, delegation_scope_matches,
}

type_fits-narrows :
    (own parent : Option String) (t : String)
    → narrows own parent ≡ true
    → type_fits own t ≡ true
    → type_fits parent t ≡ true
unfolding narrows type_fits
type_fits-narrows own none t h k = refl
type_fits-narrows none (some p) t h k = ground arith
type_fits-narrows (some o) (some p) t h k = ground arith

id_fits-narrows :
    (own parent : Option String) (t : String)
    → narrows own parent ≡ true
    → id_fits own t ≡ true
    → id_fits parent t ≡ true
unfolding narrows id_fits
id_fits-narrows own none t h k = refl
id_fits-narrows none (some p) t h k = ground arith
id_fits-narrows (some o) (some p) t h k = ground arith

abbrev fits : ResourceRef → Option ResourceAttributes → String × ClaimValue → Bool
fits resource attributes (key, expected) = attribute_fits resource attributes key expected

resource_fits-narrows :
    (scope parent : ResourceScope) (r : Option ResourceRef) (a : Option ResourceAttributes)
    → IsSubset scope parent
    → resource_fits scope r a ≡ true
    → resource_fits parent r a ≡ true
unfolding resource_fits
resource_fits-narrows scope parent none a s h = h
resource_fits-narrows scope parent (some r) a s h =
    let kind : type_fits scope.resource_type r.resource_type ≡ true = ground arith in
    let name : id_fits scope.resource_id r.resource_id ≡ true = ground arith in
    let every : all (fits r a) scope.attributes ≡ true = ground arith in
    rw
      (
        type_fits-narrows scope.resource_type parent.resource_type r.resource_type s.type_narrows
            kind,
        id_fits-narrows scope.resource_id parent.resource_id r.resource_id s.id_narrows name,
      )
      (all_of_In (fits r a) parent.attributes (λ (key, value) m.
        all-In (fits r a) scope.attributes (key, value) every
          (In_of_lookup key value scope.attributes (s.carried key value m))))

empty-carried :
    (own parent : Dict String ClaimValue)
    → ((key : String) (value : ClaimValue) → In (key, value) parent → lookup key own ≡ some value)
    → is_empty own ≡ true
    → is_empty parent ≡ true
unfolding lookup
empty-carried own [] h e = refl
empty-carried [] ((k, v) ∷ rest) h e = cc (h k v (inl refl))
empty-carried (x ∷ own) ((k, v) ∷ rest) h e = cc

-- Only the unconstrained scope has the unconstrained scope as a subset.
unconstrained-narrows :
    (scope parent : ResourceScope)
    → IsSubset scope parent
    → is_unconstrained scope ≡ true
    → is_unconstrained parent ≡ true
unfolding is_unconstrained narrows
unconstrained-narrows scope parent s h = ground (
  arith,
  s.type_narrows,
  s.id_narrows,
  empty-carried scope.attributes parent.attributes s.carried,
)

-- Whatever the request and the attributes, a scope that is a subset of another matches only
-- what the other matches.
pub delegation_scope_matches-narrows :
    (scope parent : ResourceScope) (request : AuthorizationRequest)
    (attributes : Option ResourceAttributes)
    → is_subset_of scope parent ≡ true
    → delegation_scope_matches scope request attributes ≡ true
    → delegation_scope_matches parent request attributes ≡ true
unfolding delegation_scope_matches
delegation_scope_matches-narrows scope parent request attributes h k =
    let s = is_subset_of-IsSubset scope parent h in
    ground (
      arith,
      unconstrained-narrows scope parent s,
      resource_fits-narrows scope parent request.resource attributes s,
    )
