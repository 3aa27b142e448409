-- ===== src/Precache/Recorded.antt =====
-- `record_warmed_pair` over time: what the cache holds of a pair.
use power_blockade.Base.{
  ℕ, ◌≤◌, ◌≡◌, refl, Option, some, List, [], ◌∷◌, arith, ◌==◌, nat_eq, string_eq, pair_eq, lookup,
  lookup-update, ap, ◌∙◌, if◌then◌else◌, Bool-cases, inl, inr,
}
use power_blockade.Precache.{Pair, PairTtl, Cache, warmed, record_warmed_pair}

-- A warm at an instant with a TTL.
pub record Warm : Type 0 where
  pub at : ℕ
  pub pair : Pair
  pub ttl : ℕ

unfoldable pub record_all : List Warm → Cache → Cache
unfolding record_warmed_pair
record_all [] cache = cache
record_all (w ∷ ws) cache = record_all ws (record_warmed_pair w.at w.pair w.ttl cache)

-- The entry that a pair should have: the least TTL ever seen of it, and the instant of its last warm.
abbrev pub seen : Pair → List Warm → Option PairTtl → Option PairTtl
seen pair [] o = o
seen pair (w ∷ ws) o = seen pair ws (if w.pair == pair then some (warmed w.at w.ttl o) else o)

lookup-record :
    (now : ℕ) (key other : Pair) (ttl : ℕ) (cache : Cache)
    → lookup other (record_warmed_pair now key ttl cache)
      ≡ (if key == other then some (warmed now ttl (lookup other cache)) else lookup other cache)
unfolding record_warmed_pair
lookup-record now key other ttl cache = lookup-update (warmed now ttl) key other cache

-- After any sequence of warms, of any pairs, the cache holds for each pair the least of the TTL that
-- it held before and of those seen since, with the instant of the pair's last warm; a pair that was
-- not warmed keeps its entry.
pub lookup-record_all :
    (pair : Pair) (ws : List Warm) (cache : Cache)
    → lookup pair (record_all ws cache) ≡ seen pair ws (lookup pair cache)
unfolding record_all
lookup-record_all pair [] cache = refl
lookup-record_all pair (w ∷ ws) cache =
    lookup-record_all pair ws (record_warmed_pair w.at w.pair w.ttl cache)
    ∙ ap (seen pair ws) (lookup-record w.at w.pair pair w.ttl cache)

-- The TTL that an entry stands for is never above any that was seen.
seen_le :
    (pair : Pair) (ws : List Warm) (c : PairTtl)
    → (d : PairTtl) × (seen pair ws (some c) ≡ some d) × (d.ttl ≤ c.ttl)
seen_le pair [] c = (c, refl, omega arith)
seen_le pair (w ∷ ws) c = elim (Bool-cases (w.pair == pair)) [
  | inl e ↦
      let (d, found, le) = seen_le pair ws (warmed w.at w.ttl (some c)) in
      (d, rw e found, omega (arith, le))
  | inr e ↦ let (d, found, le) = seen_le pair ws c in (d, rw e found, le)
]
