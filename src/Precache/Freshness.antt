-- ===== src/Precache/Freshness.antt =====
-- `get_pairs_needing_refresh` and `_safety_margin`: what the cache of TTLs keeps back.
use mathlib.Core.Path.{subst}
use power_blockade.Base.{
  Option-cases, sym, ap, ◌∙◌, ℕ, ◌+◌, ◌*◌, ◌<◌, ◌≡◌, ◌↔◌, inl, inr, true, false, ◌&&◌, Option, none,
  some, List, arith, contains, contains-select, nat_eq, string_eq, pair_eq, select, lookup,
}
use power_blockade.Precache.{
  Pair, PairTtl, Cache, seconds, minutes, stale_at, cached_stale, needs_refresh,
  get_pairs_needing_refresh,
}

-- The instant of warming is known, and more than 30 seconds and more than a fifth of the TTL are
-- still to go before the TTL has passed.
pub data IsFresh (now : ℕ) : Option PairTtl → Type 0 where
  fresh :
      (ttl last : ℕ)
      → now + 30_000_000 < last + seconds ttl
      → 5 * now + seconds ttl < 5 * (last + seconds ttl)
      → IsFresh now (some (record { ttl = ttl; last_warmed = some last }))

fresh-kept :
    (now custom : ℕ) (o : Option PairTtl) → IsFresh now o → cached_stale now false custom o ≡ false
fresh-kept now custom o (fresh ttl last a b) = ground arith

in_time :
    (now ttl last : ℕ)
    → stale_at now false 0 ttl (some last) ≡ false
    → (now + 30_000_000 < last + seconds ttl) × (5 * now + seconds ttl < 5 * (last + seconds ttl))
in_time now ttl last h = ground arith

kept-IsFresh :
    (now custom : ℕ) (o : Option PairTtl) → cached_stale now false custom o ≡ false → IsFresh now o
kept-IsFresh now custom none h = cc
kept-IsFresh now custom (some c) h = elim (Option-cases c.last_warmed) [
  | inl e ↦ cc (rw e at h)
  | inr (last, e) ↦
      subst (λ o. IsFresh now (some (record { ttl = c.ttl; last_warmed = o }))) (sym e)
        (fresh c.ttl last (in_time now c.ttl last (rw e at h)).0
          (in_time now c.ttl last (rw e at h)).1)
]

-- Unless TTLs are ignored, a pair of the ranking is kept back exactly when its entry is fresh: the
-- instant of its warming is known, and more than 30 seconds and more than a fifth of its TTL are
-- still to go before its TTL has passed.
pub refresh-IsFresh :
    (now custom : ℕ) (cache : Cache) (pairs : List Pair) (pair : Pair)
    → contains pairs pair ≡ true
    → (contains (get_pairs_needing_refresh now cache pairs false custom) pair ≡ false)
      ↔ IsFresh now (lookup pair cache)
unfolding get_pairs_needing_refresh needs_refresh
refresh-IsFresh now custom cache pairs pair h =
    let found : contains (select (needs_refresh now false custom cache) pairs) pair
        ≡ cached_stale now false custom (lookup pair cache) =
      contains-select (needs_refresh now false custom cache) pairs pair
      ∙ ap (λ b. b && cached_stale now false custom (lookup pair cache)) h in
    (
      λ kept. kept-IsFresh now custom (lookup pair cache) (sym found ∙ kept),
      λ is_fresh. found ∙ fresh-kept now custom (lookup pair cache) is_fresh,
    )

-- The instant of warming is known and less than the chosen number of minutes ago.
pub data IsRecent (now custom : ℕ) : Option PairTtl → Type 0 where
  recent :
      (ttl last : ℕ)
      → now < last + minutes custom
      → IsRecent now custom (some (record { ttl = ttl; last_warmed = some last }))

recent-kept :
    (now custom : ℕ) (o : Option PairTtl)
    → IsRecent now custom o
    → cached_stale now true custom o ≡ false
recent-kept now custom o (recent ttl last a) = ground arith

not_before :
    (now custom ttl last : ℕ)
    → stale_at now true custom ttl (some last) ≡ false
    → now < last + minutes custom
not_before now custom ttl last h = ground arith

kept-IsRecent :
    (now custom : ℕ) (o : Option PairTtl)
    → cached_stale now true custom o ≡ false
    → IsRecent now custom o
kept-IsRecent now custom none h = cc
kept-IsRecent now custom (some c) h = elim (Option-cases c.last_warmed) [
  | inl e ↦ cc (rw e at h)
  | inr (last, e) ↦
      subst (λ o. IsRecent now custom (some (record { ttl = c.ttl; last_warmed = o }))) (sym e)
        (recent c.ttl last (not_before now custom c.ttl last (rw e at h)))
]

-- With TTLs ignored, a pair of the ranking is kept back exactly when it was warmed less than the
-- chosen number of minutes ago.
pub refresh-ignoring_ttl :
    (now custom : ℕ) (cache : Cache) (pairs : List Pair) (pair : Pair)
    → contains pairs pair ≡ true
    → (contains (get_pairs_needing_refresh now cache pairs true custom) pair ≡ false)
      ↔ IsRecent now custom (lookup pair cache)
unfolding get_pairs_needing_refresh needs_refresh
refresh-ignoring_ttl now custom cache pairs pair h =
    let found : contains (select (needs_refresh now true custom cache) pairs) pair
        ≡ cached_stale now true custom (lookup pair cache) =
      contains-select (needs_refresh now true custom cache) pairs pair
      ∙ ap (λ b. b && cached_stale now true custom (lookup pair cache)) h in
    (
      λ kept. kept-IsRecent now custom (lookup pair cache) (sym found ∙ kept),
      λ is_recent. found ∙ recent-kept now custom (lookup pair cache) is_recent,
    )
