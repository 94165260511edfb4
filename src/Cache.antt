-- ===== src/Cache.antt =====
-- app/cache.go: a map that also remembers lookups that found nothing. Each method holds the lock
-- for its whole length, so it is one step.
pub mod Agreement
use slurpee.Prelude.{Bool, Option, List, []}
use slurpee.Prelude.Keys.{Eq, lookup, insert}

pub record CacheEntry (V : Type 0) : Type 0 where
  pub value : V
  -- Distinguishes a cached miss from a cached value.
  pub found : Bool

pub record Cache (K V : Type 0) : Type 0 where
  pub items : List (K × CacheEntry V)

module _ {K V : Type 0} where
  unfoldable pub new_cache : Cache K V
  new_cache = record { items = [] }

  -- `Flush`
  unfoldable pub flush : Cache K V → Cache K V
  unfolding new_cache
  flush c = new_cache

module _ {K V : Type 0} ⦃e : Eq K⦄ where
  -- `Get`; `none` is `inCache == false`.
  unfoldable pub get : K → Cache K V → Option (CacheEntry V)
  get key c = lookup key c.items

  -- `Set`
  unfoldable pub set : K → V → Bool → Cache K V → Cache K V
  set key value found c = record {
    items = insert key (record { value = value; found = found }) c.items;
  }
