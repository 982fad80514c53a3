-- ===== src/Runtime/Claims.antt =====
-- crates/runtime/src/claims.rs: the claims that an application declares, read from what is provided.
use multi.Prelude.{
  String, ◌<>◌, true, false, not, Option, none, some, List, [], ◌∷◌, any, map, Dict, lookup, insert,
  ◌==◌, string_eq, is_some, if◌then◌else◌, Result, ok, err, ◌>>=◌, ◌>>◌, ok_or,
}
use multi.Prelude.Blank.{trim, is_empty}
use multi.Prelude.Parsing.{parse_i64}
use multi.Contract.Claims.{Claims, ClaimValue}
use multi.Authz.Evaluator.{return_if}
use multi.Authz.Reason.{claim_mismatch, missing_claim}
use multi.Dsl.Model.{AuthConfig, ClaimDef, ClaimKind, claim, enum, string, integer, boolean}
use multi.Storage.Sorting.{str_le, sort_by}
use multi.Runtime.Errors.{AuthError, auth_error, claims_resolution}

unfoldable pub claim_error : String → AuthError
unfolding auth_error
claim_error = auth_error claims_resolution claim_mismatch

missing_error : String → AuthError
unfolding auth_error
missing_error name =
    auth_error claims_resolution missing_claim ("missing required claim `" <> name <> "`")

-- `map(ClaimValue::Integer).map_err(..)`
integer_claim : Option ClaimValue → Result AuthError ClaimValue
unfolding claim_error
integer_claim found = ok_or found (claim_error "claim value is not an integer")

abbrev as_integer : String → Option ClaimValue
as_integer raw = elim (parse_i64 raw) [ none ↦ none | some n ↦ some (ClaimValue.integer n) ]

unfoldable pub parse_claim_value : ClaimKind → String → Result AuthError ClaimValue
unfolding claim_error integer_claim
parse_claim_value (enum allowed) raw =
    if any (λ value. value == raw) allowed
    then ok (ClaimValue.enum raw)
    else err (claim_error "claim value is not allowed")
parse_claim_value string raw = ok (ClaimValue.string raw)
parse_claim_value integer raw = integer_claim (as_integer raw)
parse_claim_value boolean raw =
    if raw == "true"
    then ok (ClaimValue.boolean true)
    else if raw == "false"
    then ok (ClaimValue.boolean false)
    else err (claim_error "claim value is not a boolean")

-- `map(|value| value.trim()).filter(|value| !value.is_empty())`
not_blank : Option String → Option String
not_blank none = none
not_blank (some value) = if is_empty (trim value) then none else some (trim value)

-- The loop over the declared claims.
read_claims :
    Dict String String
    → List ClaimDef
    → Dict String ClaimValue
    → Result AuthError (Dict String ClaimValue)
unfolding not_blank missing_error parse_claim_value
read_claims provided [] values = ok values
read_claims provided (c ∷ cs) values =
    ok_or (not_blank (lookup c.name provided)) (missing_error c.name) >>= λ raw.
    parse_claim_value c.kind raw >>= λ value. read_claims provided cs (insert c.name value values)

-- The loop over the provided names, in their order.
check_declared : AuthConfig → List String → Result AuthError (Unit {0})
unfolding claim claim_error
check_declared config [] = ok tt
check_declared config (name ∷ names) =
    return_if (not (is_some (claim config name)))
      (claim_error ("undeclared claim `" <> name <> "`"))
    >>= λ _. check_declared config names

unfoldable pub resolve_claims : AuthConfig → Dict String String → Result AuthError Claims
unfolding read_claims check_declared
resolve_claims config provided = do
  values ← read_claims provided config.claims []
  check_declared config (sort_by str_le (map (λ (name, value). name) provided))
  ok (record { values = values })
