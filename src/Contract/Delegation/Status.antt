-- ===== src/Contract/Delegation/Status.antt =====
-- When a delegation is valid.
use multi.Prelude.{true, false, Option, none, some, ◌≡◌, refl, ◌↔◌, ℤ, ◌≤ℤ◌, ◌<ℤ◌, arith}
use multi.Contract.Delegation.{Delegation, has_expired, is_valid_at}

-- The instant is before the expiry, if there is one.
abbrev pub Before : ℤ → Option ℤ → Type 0
Before now none = Unit
Before now (some expires_at) = now <ℤ expires_at

pub record IsLive (d : Delegation) (now : ℤ) : Type 0 where
  pub unrevoked : d.revoked_at ≡ none
  pub issued : d.issued_at ≤ℤ now
  pub unexpired : Before now d.expires_at

not_expired : (e : Option ℤ) (now : ℤ) → has_expired e now ≡ false → Before now e
unfolding has_expired
not_expired none now h = tt
not_expired (some e) now h = ground arith

not_expired_of : (e : Option ℤ) (now : ℤ) → Before now e → has_expired e now ≡ false
unfolding has_expired
not_expired_of none now h = refl
not_expired_of (some e) now h = ground arith

-- A delegation is valid at exactly the instants from its issue up to, and without, its expiry,
-- and at none once a revocation is recorded.
pub is_valid_at_iff : (d : Delegation) (now : ℤ) → (is_valid_at d now ≡ true) ↔ IsLive d now
unfolding is_valid_at
is_valid_at_iff d now = (
  λ h. record {
    unrevoked = ground arith;
    issued = ground arith;
    unexpired = not_expired d.expires_at now (ground arith);
  },
  λ l. ground (arith, l.unrevoked, l.issued, not_expired_of d.expires_at now l.unexpired),
)

Before-mono : (e : Option ℤ) (s t : ℤ) → s ≤ℤ t → Before t e → Before s e
Before-mono none s t h k = tt
Before-mono (some e) s t h k = omega arith

-- The instants at which a delegation is valid form an interval: between two of them it is valid.
pub is_valid_at_between :
    (d : Delegation) (r s t : ℤ)
    → r ≤ℤ s
    → s ≤ℤ t
    → is_valid_at d r ≡ true
    → is_valid_at d t ≡ true
    → is_valid_at d s ≡ true
is_valid_at_between d r s t h k first last =
    let l = (is_valid_at_iff d r).0 first in
    let m = (is_valid_at_iff d t).0 last in
    (is_valid_at_iff d s).1 (record {
      unrevoked = l.unrevoked;
      issued = omega (arith, l.issued);
      unexpired = Before-mono d.expires_at s t k m.unexpired;
    })
