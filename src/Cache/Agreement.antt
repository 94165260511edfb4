-- ===== src/Cache/Agreement.antt =====
-- When a cache can stand for the table behind it.
use slurpee.Prelude.{
  Bool, true, false, ◌≡◌, Option, none, some, inl, inr, subst, Bool-cases, if◌then◌else◌,
}
use slurpee.Prelude.Keys.{Eq, ◌==◌, ==_iff, lookup-insert}
use slurpee.Cache.{Cache, CacheEntry, get, set}

-- An entry that the table bears out; no entry is always right.
abbrev pub Agrees : {V : Type 0} → Option (CacheEntry V) → Option V → Type 0
Agrees none row = Unit
Agrees (some entry) none = entry.found ≡ false
Agrees (some entry) (some v) = (entry.found ≡ true) × (entry.value ≡ v)

module _ {K V : Type 0} ⦃e : Eq K⦄ where
  pub get-set :
      (k j : K) (value : V) (found : Bool) (c : Cache K V)
      → get j (set k value found c)
        ≡ (if k == j then some (record { value = value; found = found }) else get j c)
  unfolding get set
  get-set k j value found c = lookup-insert k j (record { value = value; found = found }) c.items

  -- An entry that agrees with its row leaves every entry in agreement.
  pub set-Agrees :
      (k j : K) (value : V) (found : Bool) (c : Cache K V) (row : K → Option V)
      → Agrees (some (record { value = value; found = found })) (row k)
      → Agrees (get j c) (row j)
      → Agrees (get j (set k value found c)) (row j)
  set-Agrees k j value found c row new old = elim (Bool-cases (k == j)) [
    | inl same ↦
        rw (get-set, same)
          (subst (λ i. Agrees (some (record { value = value; found = found })) (row i))
            ((==_iff k j).0 same) new)
    | inr other ↦ rw (get-set, other) old
  ]
