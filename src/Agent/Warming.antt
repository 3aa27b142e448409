-- ===== src/Agent/Warming.antt =====
-- Cache warming on a secondary: warm_cache, fetch_precache_domains and run_precache_warming of
-- sync-agent/agent.py. The resolution of a name is a parameter: the TTL of its answer, if it has one.
use power_blockade.Base.{
  ℕ, ◌+◌, ◌/◌, ◌%◌, ◌≡◌, refl, suc, Bool, false, ◌&&◌, Option, none, some, List, [], ◌∷◌, arith,
  ltb, ◌==◌, nat_eq, list_eq, if◌then◌else◌, length, lookup, Bool-cases, inl, inr,
}
use power_blockade.Base.Texts.{Text, codes, lower}
use power_blockade.Base.Int.{ℤ, int}

-- The successes, the failures and the pauses of a pass.
pub record Warmed : Type 0 where
  pub success : ℕ
  pub failed : ℕ
  pub pauses : ℕ

abbrev pub succeeded : Option ℕ → Warmed → Warmed
succeeded none w = record w { failed = w.failed + 1 }
succeeded (some ttl) w = record w { success = w.success + 1 }

-- A pause after every 50 names, but not after the last one.
abbrev pub pauses_after : ℕ → ℕ → Bool
pauses_after i total = (i + 1) % 50 == 0 && ltb (i + 1) total

abbrev pub paused : Bool → Warmed → Warmed
paused b w = record w { pauses = w.pauses + (if b then 1 else 0) }

-- The names from the i-th on.
unfoldable pub warm_from : (Text → Option ℕ) → ℕ → ℕ → List Text → Warmed
warm_from warm_domain i total [] = record { success = 0; failed = 0; pauses = 0 }
warm_from warm_domain i total (domain ∷ domains) =
    paused (pauses_after i total)
      (succeeded (warm_domain domain) (warm_from warm_domain (i + 1) total domains))

unfoldable pub warm_cache : (Text → Option ℕ) → List Text → Warmed
unfolding warm_from
warm_cache warm_domain domains = warm_from warm_domain 0 (length domains) domains

-- The answer of the primary: an exception, or a status with the names, if there are any.
pub data Response : Type 0 where
  failed_request : Response
  answered : ℕ → Option (List Text) → Response

abbrev pub or_empty : Option (List Text) → List Text
or_empty none = []
or_empty (some domains) = domains

unfoldable pub fetch_precache_domains : Response → List Text
fetch_precache_domains failed_request = []
fetch_precache_domains (answered status domains) = if status == 200 then or_empty domains else []

-- What came of it: switched off, no number in the settings (a ValueError), no names, or a pass.
pub data Warming : Type 0 where
  disabled no_number no_domains : Warming
  passed : Warmed → Warming

abbrev pub get_or : Text → Text → List (Text × Text) → Text
get_or key fallback settings = found (lookup key settings)
  where
    found : Option Text → Text
    found none = fallback
    found (some value) = value

abbrev pub warm_fetched : (Text → Option ℕ) → List Text → Warming
warm_fetched warm_domain [] = no_domains
warm_fetched warm_domain (domain ∷ domains) = passed (warm_cache warm_domain (domain ∷ domains))

abbrev pub warm_limited : (Text → Option ℕ) → (ℤ → Response) → Option ℤ → Warming
warm_limited warm_domain primary none = no_number
warm_limited warm_domain primary (some limit) =
    warm_fetched warm_domain (fetch_precache_domains (primary limit))

unfoldable pub run_precache_warming :
    (Text → Option ℕ) → (ℤ → Response) → List (Text × Text) → Warming
unfolding lower int fetch_precache_domains warm_cache
run_precache_warming warm_domain primary settings =
    if lower (get_or (codes "precache_enabled") (codes "true") settings) == codes "true"
    then warm_limited warm_domain primary
        (int (get_or (codes "precache_domain_count") (codes "1000") settings))
    else disabled

-- One more name, of whichever outcome.
one_more :
    (o : Option ℕ) (w : Warmed)
    → (succeeded o w).success + (succeeded o w).failed ≡ w.success + w.failed + 1
one_more none w = omega arith
one_more (some ttl) w = omega arith

same_pauses : (o : Option ℕ) (w : Warmed) → (succeeded o w).pauses ≡ w.pauses
same_pauses none w = refl
same_pauses (some ttl) w = refl

module _ (warm_domain : Text → Option ℕ) where
  warm_from-counts :
      (i total : ℕ) (domains : List Text)
      → (warm_from warm_domain i total domains).success
          + (warm_from warm_domain i total domains).failed
        ≡ length domains
  unfolding warm_from
  warm_from-counts i total [] = omega arith
  warm_from-counts i total (domain ∷ domains) =
      let rest = warm_from warm_domain (i + 1) total domains in
      omega (arith, one_more (warm_domain domain) rest, warm_from-counts (i + 1) total domains)

  -- With `i` names behind and one ahead at least, the pauses left are those at the multiples of 50
  -- that are still to come before the last name.
  warm_from-pauses :
      (i total : ℕ) (domain : Text) (domains : List Text)
      → total ≡ i + 1 + length domains
      → (warm_from warm_domain i total (domain ∷ domains)).pauses + i / 50
        ≡ (i + length domains) / 50
  unfolding warm_from
  warm_from-pauses i total domain [] h =
      let last : pauses_after i total ≡ false = ground arith in
      rw last
        (omega (arith, same_pauses (warm_domain domain) (warm_from warm_domain (i + 1) total [])))
  warm_from-pauses i total domain (next ∷ domains) h =
      let rest = warm_from warm_domain (i + 1) total (next ∷ domains) in
      let later = warm_from-pauses (i + 1) total next domains (omega (arith, h)) in
      elim (Bool-cases (pauses_after i total)) [
        | inl e ↦
            let whole : (i + 1) / 50 ≡ i / 50 + 1 = ground arith in
            rw e (omega (arith, same_pauses (warm_domain domain) rest, later, whole))
        | inr n ↦
            let part : (i + 1) / 50 ≡ i / 50 = ground arith in
            rw n (omega (arith, same_pauses (warm_domain domain) rest, later, part))
      ]

  -- A pass counts every name once, as a success or a failure, and pauses once for every full batch
  -- of 50 names that another name follows.
  pub warm_cache-counts :
      (domain : Text) (domains : List Text)
      → ((warm_cache warm_domain (domain ∷ domains)).success
            + (warm_cache warm_domain (domain ∷ domains)).failed
          ≡ suc (length domains))
        × ((warm_cache warm_domain (domain ∷ domains)).pauses ≡ length domains / 50)
  unfolding warm_cache
  warm_cache-counts domain domains = (
    warm_from-counts 0 (suc (length domains)) (domain ∷ domains),
    omega (arith, warm_from-pauses 0 (suc (length domains)) domain domains (omega arith)),
  )
