-- ===== src/Storage/Audit/Trail.antt =====
-- What a reader of the audit log sees of what was recorded.
use multi.Prelude.{
  ℕ, Bool, true, false, Option, none, some, List, [], ◌∷◌, ◌++◌, ◌≡◌, ◌≢◌, ne_of_==, ◌↔◌, refl, ◌⊎◌,
  inl, inr, ap, sym, ◌∙◌, In, In-append, In-append_left, In-append_right, In-filter, In-filter_of,
  filter, ◌==◌, eq_of_==, ==_refl, string_eq, ℤ, ◌≤ℤ◌, ok, err, arith, Bool-cases,
}
use multi.Contract.Tenant.{TenantContext}
use multi.Storage.Sorting.{In-sort_by}
use multi.Storage.Audit.{AuditEvent, Store, record_event, is_since, event_le, limited, events}

-- The events that are recorded one after the other, each for a tenant.
pub record_all : Store → List (TenantContext × AuditEvent) → Store
record_all s [] = s
record_all s ((tenant, e) ∷ rest) = record_all (record_event s tenant e).0 rest

abbrev pub trail : Store → TenantContext → Option ℤ → ℕ → List AuditEvent
trail s tenant since limit = elim (events s tenant since limit) [ ok es ↦ es | err e ↦ [] ]

foreign :
    (tenant t : TenantContext) (x e : AuditEvent)
    → (x.tenant_id == tenant.tenant_id) ≡ false
    → tenant ≡ t
    → x ≡ e
    → e.tenant_id ≢ t.tenant_id
foreign tenant t x e other one same own =
    ne_of_== x.tenant_id tenant.tenant_id other
      (ap (λ v. v.tenant_id) same ∙ own ∙ ap (λ v. v.tenant_id) (sym one))

In-record_all :
    (s : Store) (entries : List (TenantContext × AuditEvent)) (e : AuditEvent)
    → In e (record_all s entries)
      ↔ (In e s ⊎ ((t : TenantContext) × In (t, e) entries × (e.tenant_id ≡ t.tenant_id)))
unfolding record_all record_event
In-record_all s [] e = (λ m. inl m, λ m. elim m [ inl n ↦ n | inr (t, n, own) ↦ absurd n ])
In-record_all s ((tenant, x) ∷ rest) e = elim (Bool-cases (x.tenant_id == tenant.tenant_id)) [
  | inr other ↦
      let (out, into) = In-record_all s rest e in
      rw other (
        λ m. elim (out m) [ inl n ↦ inl n | inr (t, n, own) ↦ inr (t, inr n, own) ],
        λ m. into (elim m [
          | inl n ↦ inl n
          | inr (t, inr n, own) ↦ inr (t, n, own)
          | inr (t, inl same, own) ↦
              absurd (foreign tenant t x e other (ap (λ p. p.0) same) (ap (λ p. p.1) same) own)
        ]),
      )
  | inl mine ↦
      let (out, into) = In-record_all (s ++ x ∷ []) rest e in
      rw mine (
        λ m. elim (out m) [
          | inr (t, n, own) ↦ inr (t, inr n, own)
          | inl n ↦ elim (In-append e s (x ∷ []) n) [
            | inl k ↦ inl k
            | inr (inl same) ↦ inr (
              tenant,
              inl (λ i. (tenant, same i)),
              rw (← same) (eq_of_== x.tenant_id tenant.tenant_id mine),
            )
            | inr (inr k) ↦ absurd k
          ]
        ],
        λ m. into (elim m [
          | inl n ↦ inl (In-append_left e s (x ∷ []) n)
          | inr (t, inr n, own) ↦ inr (t, n, own)
          | inr (t, inl same, own) ↦ inl (In-append_right e s (x ∷ []) (inl (ap (λ p. p.1) same)))
        ]),
      )
]

abbrev pub Since : Option ℤ → ℤ → Type 0
Since none t = Unit
Since (some since) t = since ≤ℤ t

is_since_iff : (since : Option ℤ) (t : ℤ) → (is_since since t ≡ true) ↔ Since since t
unfolding is_since
is_since_iff none t = (λ h. tt, λ h. refl)
is_since_iff (some since) t = (λ h. ground arith, λ h. ground arith)

-- A reader without a limit gets the events of the log of its tenant since a time.
events_iff :
    (s : Store) (tenant : TenantContext) (since : Option ℤ) (e : AuditEvent)
    → In e (trail s tenant since 0)
      ↔ (In e s × (e.tenant_id ≡ tenant.tenant_id) × Since since e.timestamp)
unfolding events limited
events_iff s tenant since e =
    let own : AuditEvent → Bool = λ e. e.tenant_id == tenant.tenant_id in
    let late : AuditEvent → Bool = λ e. is_since since e.timestamp in
    let (out, into) = In-sort_by event_le e (filter late (filter own s)) in
    (
      λ m.
          let (n, is_late) = In-filter late (filter own s) e (out m) in
          let (stored, is_own) = In-filter own s e n in
          (
            stored,
            eq_of_== e.tenant_id tenant.tenant_id is_own,
            (is_since_iff since e.timestamp).0 is_late,
          ),
      λ (stored, is_own, is_late). into (
          In-filter_of late (filter own s) e
            (In-filter_of own s e stored (rw is_own (==_refl tenant.tenant_id)))
            ((is_since_iff since e.timestamp).1 is_late)),
    )

-- After any sequence of recordings, a reader of a tenant who sets no limit gets exactly the events that
-- are of the tenant and not before the time that it names, and that were in the log or were
-- recorded for their own tenant: a recording for another tenant leaves no trace, and none is lost.
pub events-record_all :
    (s : Store) (entries : List (TenantContext × AuditEvent)) (tenant : TenantContext)
    (since : Option ℤ) (e : AuditEvent)
    → In e (trail (record_all s entries) tenant since 0) ↔ (
        (In e s ⊎ ((t : TenantContext) × In (t, e) entries × (e.tenant_id ≡ t.tenant_id)))
        × (e.tenant_id ≡ tenant.tenant_id)
        × Since since e.timestamp)
events-record_all s entries tenant since e =
    let (out, into) = events_iff (record_all s entries) tenant since e in
    let (left, right) = In-record_all s entries e in
    (
      λ m. let (n, own, late) = out m in (left n, own, late),
      λ (n, own, late). into (right n, own, late),
    )
