-- ===== src/Liveness/Laws.antt =====
-- What `liveness` of packages/manifest/src/liveness.ts takes as evidence.
use corridor_in_a_box.Base.{
  ℕ, ◌-◌, ◌*◌, ◌≤◌, ◌≡◌, ◌↔◌, refl, Bool, true, false, Option, none, some, arith, present, ◌&&◌,
}
use corridor_in_a_box.Corridor.{Corridor, Proof}
use corridor_in_a_box.Liveness.{
  proven, liveness, required_endpoint, weigh, read_proof, is_runnable, day_ms,
}

-- A proof that counts at the time `now`.
abbrev pub IsFresh : ℕ → Proof → Type 0
IsFresh now p =
    (completed : ℕ) × (p.canary_completed_at ≡ some completed)
    × (completed ≤ now)
    × (now - completed ≤ p.max_age_days * day_ms)

fresh_of_proven :
    (now max_age : ℕ) (t : Option ℕ)
    → (read_proof now t max_age).0 ≡ proven
    → (completed : ℕ) × (t ≡ some completed)
      × (completed ≤ now)
      × (now - completed ≤ max_age * day_ms)
unfolding read_proof
fresh_of_proven now max_age none h = cc
fresh_of_proven now max_age (some t) h = (t, refl, ground arith, ground arith)

proven_of_fresh :
    (now max_age completed : ℕ)
    → completed ≤ now
    → now - completed ≤ max_age * day_ms
    → (read_proof now (some completed) max_age).0 ≡ proven
unfolding read_proof
proven_of_fresh now max_age completed h k = ground arith

weigh-proven :
    (now : ℕ) (has checked : Bool) (proof : Option Proof)
    → (weigh now has checked proof).0 ≡ proven
    → (has ≡ true) × (checked ≡ true) × ((p : Proof) × (proof ≡ some p) × IsFresh now p)
unfolding weigh
weigh-proven now false checked proof h = cc
weigh-proven now true false proof h = cc
weigh-proven now true true none h = cc
weigh-proven now true true (some p) h =
    (refl, refl, (p, refl, fresh_of_proven now p.max_age_days p.canary_completed_at h))

read_proof-runnable :
    (now max_age : ℕ) (t : Option ℕ) → is_runnable (read_proof now t max_age).0 ≡ true
unfolding read_proof
read_proof-runnable now max_age none = refl
read_proof-runnable now max_age (some t) = ground arith

weigh-runnable :
    (now : ℕ) (has checked : Bool) (proof : Option Proof)
    → is_runnable (weigh now has checked proof).0 ≡ (has && checked)
unfolding weigh
weigh-runnable now false checked proof = refl
weigh-runnable now true false proof = refl
weigh-runnable now true true none = refl
weigh-runnable now true true (some p) = read_proof-runnable now p.max_age_days p.canary_completed_at

-- What has been looked at before a lane counts as runnable.
abbrev pub IsChecked : Corridor → Type 0
IsChecked c =
    (present (required_endpoint c.dest.protocol c.dest.endpoints) ≡ true)
    × (present c.dest.endpoints.endpoints_verified_at ≡ true)

-- A lane is proven exactly when its protocol's required endpoint is named, its endpoints have a
-- verification date, and it has a proof whose date is a date, not in the future and not older than
-- its `max_age_days`.
pub proven_iff :
    (c : Corridor) (now : ℕ)
    → ((liveness c now).state ≡ proven)
      ↔ (IsChecked c × ((p : Proof) × (c.proof ≡ some p) × IsFresh now p))
unfolding liveness
proven_iff c now = (
  λ h. let (has, checked, fresh) = weigh-proven now _ _ c.proof h in ((has, checked), fresh),
  λ (checked, (p, e, (t, at, past, young))).
      rw (checked.0, checked.1, e, at, weigh) (proven_of_fresh now p.max_age_days t past young),
)

-- A lane is runnable exactly when its required endpoint is named and its endpoints have a
-- verification date: the mere presence of an endpoint is not enough, and a stale proof takes nothing
-- away.
pub runnable_iff : (c : Corridor) (now : ℕ) → ((liveness c now).runnable ≡ true) ↔ IsChecked c
unfolding liveness
runnable_iff c now = ground (
  arith,
  weigh-runnable now (present (required_endpoint c.dest.protocol c.dest.endpoints))
      (present c.dest.endpoints.endpoints_verified_at) c.proof,
)
