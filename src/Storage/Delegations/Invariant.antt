-- ===== src/Storage/Delegations/Invariant.antt =====
-- What every history of the delegation store keeps, and what a listing holds.
use multi.Prelude.{
  Bool, false, ◌&&◌, Option, none, some, List, [], ◌∷◌, ◌≡◌, refl, ◌∙◌, ap, ◌↔◌, inl, inr, In,
  In-filter, In-filter_of, and-eq-true, map, filter, lookup, insert, lookup-insert, Bool-cases,
  NodupKeys, contains_key, insert-NodupKeys, In_of_lookup, lookup-In, In-values, In-values_of, ◌==◌,
  eq_of_==, ==_refl, string_eq, ℤ, ok, err,
}
use mathlib.Core.Option.{some-injective}
use multi.Contract.Ids.{DelegationId, PrincipalId}
use multi.Contract.Scope.{is_empty}
use multi.Contract.Delegation.{Delegation}
use multi.Contract.Tenant.{TenantContext}
use multi.Storage.Sorting.{str_le, In-sort_by}
use multi.Storage.Delegations.{
  Store, expires_early, create_delegation, list_delegations_for_delegate, revoke_found,
  revoke_delegation,
}

-- The calls that change the store.
pub data Call : Type 0 where
  create : Delegation → Call
  revoke : TenantContext → DelegationId → ℤ → Call

unfoldable pub step : Store → Call → Store
step s (create d) = (create_delegation s d).0
step s (revoke tenant id at) = (revoke_delegation s tenant id at).0

unfoldable pub run : Store → List Call → Store
run s [] = s
run s (c ∷ cs) = run (step s c) cs

-- An entry is filed under its id, lists capabilities, is not issued expired, and joins two principals.
pub record IsProper (id : DelegationId) (d : Delegation) : Type 0 where
  pub filed : d.id ≡ id
  pub scoped : is_empty d.capabilities ≡ false
  pub lasting : expires_early d.expires_at d.issued_at ≡ false
  pub two_principals : (d.delegator == d.delegate) ≡ false

pub record IsWellFormed (s : Store) : Type 0 where
  pub distinct : NodupKeys s
  pub proper : (id : DelegationId) (d : Delegation) → lookup id s ≡ some d → IsProper id d

insert-IsWellFormed :
    (s : Store) (id : DelegationId) (d : Delegation)
    → IsWellFormed s
    → IsProper id d
    → IsWellFormed (insert id d s)
insert-IsWellFormed s id d w p = record {
  distinct = insert-NodupKeys id d s w.distinct;
  proper = λ j e h. elim (Bool-cases (id == j)) [
    | inl same ↦
        let found : some d ≡ some e = rw (lookup-insert id j d s, same) at h in
        rw (← eq_of_== id j same, ← some-injective d e found) p
    | inr other ↦ w.proper j e (rw (lookup-insert id j d s, other) at h)
  ];
}

create-IsWellFormed :
    (s : Store) (d : Delegation) → IsWellFormed s → IsWellFormed (create_delegation s d).0
unfolding create_delegation
create-IsWellFormed s d w = elim (Bool-cases (is_empty d.capabilities)) [
  | inl a ↦ rw a w
  | inr a ↦ elim (Bool-cases (expires_early d.expires_at d.issued_at)) [
    | inl b ↦ rw (a, b) w
    | inr b ↦ elim (Bool-cases (d.delegator == d.delegate)) [
      | inl c ↦ rw (a, b, c) w
      | inr c ↦ elim (Bool-cases (contains_key d.id s)) [
        | inl e ↦ rw (a, b, c, e) w
        | inr e ↦
            rw (a, b, c, e)
              (insert-IsWellFormed s d.id d w
                (record { filed = refl; scoped = a; lasting = b; two_principals = c }))
      ]
    ]
  ]
]

revoke_found-IsWellFormed :
    (s : Store) (tenant : TenantContext) (id : DelegationId) (at : ℤ) (o : Option Delegation)
    → lookup id s ≡ o
    → IsWellFormed s
    → IsWellFormed (revoke_found s tenant id at o).0
unfolding revoke_found
revoke_found-IsWellFormed s tenant id at none h w = w
revoke_found-IsWellFormed s tenant id at (some d) h w =
    elim (Bool-cases (d.tenant_id == tenant.tenant_id)) [
      | inl own ↦
          let p = w.proper id d h in
          rw own (
            insert-IsWellFormed s id (record d { revoked_at = some at }) w
              (record {
                filed = p.filed;
                scoped = p.scoped;
                lasting = p.lasting;
                two_principals = p.two_principals;
              }))
      | inr other ↦ rw other w
    ]

step-IsWellFormed : (s : Store) (c : Call) → IsWellFormed s → IsWellFormed (step s c)
unfolding step revoke_delegation
step-IsWellFormed s (create d) w = create-IsWellFormed s d w
step-IsWellFormed s (revoke tenant id at) w =
    revoke_found-IsWellFormed s tenant id at (lookup id s) refl w

-- From a well-formed store, as the empty one is, every sequence of calls, failing ones included,
-- leaves one: entries under their own distinct ids, with capabilities, an expiry after the issue,
-- and two different principals.
pub run-IsWellFormed : (s : Store) (cs : List Call) → IsWellFormed s → IsWellFormed (run s cs)
unfolding run
run-IsWellFormed s [] w = w
run-IsWellFormed s (c ∷ cs) w = run-IsWellFormed (step s c) cs (step-IsWellFormed s c w)

pub empty-IsWellFormed : IsWellFormed []
unfolding lookup
empty-IsWellFormed = record { distinct = tt; proper = λ id d h. cc }

-- The listing of a delegate in a tenant.
abbrev pub listed : Store → TenantContext → PrincipalId → List Delegation
listed s tenant delegate = elim (list_delegations_for_delegate s tenant delegate) [
  | ok ds ↦ ds
  | err e ↦ []
]

-- In a well-formed store a listing holds exactly the delegations that are stored under their id, of
-- the tenant and to the delegate: none of another tenant, and none is left out.
pub list_delegations_for_delegate_iff :
    (s : Store) (tenant : TenantContext) (delegate : PrincipalId) (d : Delegation)
    → IsWellFormed s
    → In d (listed s tenant delegate)
      ↔ ((lookup d.id s ≡ some d) × (d.tenant_id ≡ tenant.tenant_id) × (d.delegate ≡ delegate))
unfolding list_delegations_for_delegate
list_delegations_for_delegate_iff s tenant delegate d w =
    let test : Delegation → Bool = λ d. d.tenant_id == tenant.tenant_id && d.delegate == delegate in
    let all = map (λ (id, d). d) s in
    let (out, into) = In-sort_by (λ d e. str_le d.id e.id) d (filter test all) in
    (
      λ m.
          let (member, same) = In-filter test all d (out m) in
          let (id, entry) = In-values s d member in
          let found = lookup-In id d s w.distinct entry in
          let (own, to) = and-eq-true _ _ same in
          (
            ap (λ k. lookup k s) (w.proper id d found).filed ∙ found,
            eq_of_== _ _ own,
            eq_of_== _ _ to,
          ),
      λ (found, own, to). into (
          In-filter_of test all d (In-values_of s d.id d (In_of_lookup d.id d s found))
            (rw (own, to, ==_refl tenant.tenant_id, ==_refl delegate))),
    )
