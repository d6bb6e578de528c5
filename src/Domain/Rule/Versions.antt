-- ===== src/Domain/Rule/Versions.antt =====
-- The versions that `UnmarshalSmartRule` and `UpgradeSmartRule` accept, and the round trip.
use hummtube.Base.{◌≡◌, refl, ℤ, pos, String, some, ◌⊎◌, inl, inr, arith, Option-cases}
use hummtube.Domain.Rule.{
  SmartRule, Json, Result, ok, err, RuleError, current_smart_rule_version, validate, marshal,
  unmarshal, upgrade,
}

-- A version that is missing or the current one.
abbrev pub IsKnown : ℤ → Type 0
IsKnown v = (v ≡ pos 0) ⊎ (v ≡ current_smart_rule_version)

-- The rule with the current version.
abbrev pub current : SmartRule → SmartRule
current r = record r { version = current_smart_rule_version }

Result-cases :
    (x : Result SmartRule) → ((r : SmartRule) × (x ≡ ok r)) ⊎ ((e : RuleError) × (x ≡ err e))
Result-cases (ok r) = inl (r, refl)
Result-cases (err e) = inr (e, refl)

module _ (json : Json) where
  unmarshal-marshal :
      (r : SmartRule)
      → json.decode (json.encode (current r)) ≡ some (current r)
      → unmarshal json (marshal json r) ≡ ok (current r)
  unfolding unmarshal marshal validate
  unmarshal-marshal r h = ground arith

  -- A rule that `MarshalSmartRule` wrote is read back as it was, with the current version, also
  -- through the upgrade from a column that has no version or the current one. The premise is that
  -- `encoding/json` decodes what it encoded of that rule.
  pub upgrade-marshal :
      (r : SmartRule) (v : ℤ)
      → json.decode (json.encode (current r)) ≡ some (current r)
      → IsKnown v
      → (unmarshal json (marshal json r) ≡ ok (current r))
        × (upgrade json (marshal json r) v ≡ ok (current r))
  unfolding upgrade
  upgrade-marshal r v back (inl e) =
      rw e (unmarshal-marshal r back, ground (arith, unmarshal-marshal r back))
  upgrade-marshal r v back (inr e) =
      rw e (unmarshal-marshal r back, ground (arith, unmarshal-marshal r back))

  unmarshal-ok :
      (text : String) {r : SmartRule}
      → unmarshal json text ≡ ok r
      → (r₀ : SmartRule) × (json.decode text ≡ some r₀) × IsKnown r₀.version × (r ≡ current r₀)
  unfolding unmarshal validate
  unmarshal-ok text h = elim (Option-cases (json.decode text)) [
    | inl e ↦ absurd (ground arith)
    | inr (r₀, e) ↦ (r₀, e, ground arith, ground arith)
  ]

  -- An upgrade succeeds only where the column's version and the rule's are both missing or
  -- current, and then gives the decoded rule with the current version: a later version, a negative
  -- one and a column that disagrees with the rule are all refused.
  pub upgrade-ok :
      (text : String) (v : ℤ) {r : SmartRule}
      → upgrade json text v ≡ ok r
      → (r₀ : SmartRule) × (json.decode text ≡ some r₀)
        × IsKnown r₀.version
        × IsKnown v
        × (r ≡ current r₀)
  unfolding upgrade
  upgrade-ok text v {r} h = elim (Result-cases (unmarshal json text)) [
    | inl (q, e) ↦ let (r₀, d, k, c) = unmarshal-ok text e in (r₀, d, k, ground arith, ground arith)
    | inr (x, e) ↦ absurd (ground arith)
  ]
