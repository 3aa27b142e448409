-- ===== src/Bundle/Served.antt =====
-- What a secondary gets, and what its files hold once it has taken the configuration over.
use power_blockade.Base.{
  ℕ, ◌≡◌, refl, ◌∙◌, sym, ap, Bool, true, false, ◌&&◌, ◌||◌, Option, none, some, List, [], ◌∷◌,
  ◌++◌, arith, Eq, ◌==◌, nat_eq, list_eq, option_eq, pair_eq, map, select, insert, lookup, contains,
  IsDistinct, All, Bool-cases, inl, inr,
}
use mathlib.Core.List.{append_assoc, append-nil}
use power_blockade.Base.Texts.{Text, codes}
use power_blockade.Blocklists.{Blocklist}
use power_blockade.Settings.{Rows}
use power_blockade.Filter.{Files}
use power_blockade.Admin.{ForwardZone}
use power_blockade.Admin.Zones.{is_global}
use power_blockade.Admin.Tables.{contains-map-select, IsDistinct-map-select}
use power_blockade.Bundle.{Bundle, Digest, is_of_node, put_zones, zone_map, rpz_files_of, bundle}
use power_blockade.Agent
use power_blockade.Agent.{fetched, named, sync_config, forward_zones_text}
use power_blockade.Agent.Sync.{wanted, sum, sync-sums}

module _ {ℓ κ} {A : Type ℓ} {K : Type κ} ⦃e : Eq K⦄ (f : A → K) where
  -- Rows as a dictionary by a column.
  abbrev by_column : List A → List (K × A)
  by_column = map (λ a. (f a, a))

  insert-new :
      (a : A) (rows : List A)
      → contains (map f rows) (f a) ≡ false
      → insert (f a) a (by_column rows) ≡ by_column (rows ++ (a ∷ []))
  unfolding insert
  insert-new a [] h = refl
  insert-new a (r ∷ rows) h = ground (arith, insert-new a rows)

  values : (rows : List A) → map (λ (k, a). a) (by_column rows) ≡ rows
  values [] = refl
  values (r ∷ rows) = ap (λ l. r ∷ l) (values rows)

  apart-select :
      (k : K) (q : A → Bool) (rows : List A)
      → contains (map f rows) k ≡ false
      → All (λ a. (k == f a) ≡ false) (select q rows)
  apart-select k q [] h = tt
  apart-select k q (r ∷ rows) h =
      ground (arith, apart-select k q rows, e.beq_iff k (f r), e.beq_iff (f r) k)

  All-add :
      (k : K) (seen : List A) (rows : List A)
      → All (λ a. (k == f a) ≡ false) rows
      → All (λ a. contains (map f seen) (f a) ≡ false) rows
      → All (λ a. ((k == f a) || contains (map f seen) (f a)) ≡ false) rows
  All-add k seen [] h g = tt
  All-add k seen (r ∷ rows) h g = (ground arith, All-add k seen rows h.1 g.1)

  -- Rows of two kinds do not share a unique column.
  apart :
      (p q : A → Bool) (rows : List A)
      → ((a : A) → p a ≡ true → q a ≡ false)
      → IsDistinct (map f rows)
      → All (λ a. contains (map f (select p rows)) (f a) ≡ false) (select q rows)
  apart p q [] h d = tt
  apart p q (r ∷ rows) h d =
      let rest = apart p q rows h d.1 in
      elim (Bool-cases (p r)) [
        | inl e ↦
            rw (e, h r e)
              (All-add (f r) (select p rows) (select q rows) (apart-select (f r) q rows d.0) rest)
        | inr e ↦ rw e (elim (Bool-cases (q r)) [
          | inl g ↦ rw g ((contains-map-select f p rows (f r) d.0, rest))
          | inr g ↦ rw g rest
        ])
      ]

  contains-snoc :
      (a : A) (seen : List A) (k : K)
      → contains (map f (seen ++ (a ∷ []))) k ≡ (contains (map f seen) k || f a == k)
  contains-snoc a [] k = ground arith
  contains-snoc a (s ∷ seen) k = ground (arith, contains-snoc a seen k)

  All-snoc :
      (a : A) (seen rows : List A)
      → contains (map f rows) (f a) ≡ false
      → All (λ r. contains (map f seen) (f r) ≡ false) rows
      → All (λ r. contains (map f (seen ++ (a ∷ []))) (f r) ≡ false) rows
  All-snoc a seen [] n h = tt
  All-snoc a seen (r ∷ rows) n h = (
    ground
        (arith, contains-snoc a seen (f r), n, h.0, e.beq_iff (f a) (f r), e.beq_iff (f r) (f a)),
    All-snoc a seen rows (ground (arith, n)) h.1,
  )

  any : (rows : List A) → All (λ a. contains (map f []) (f a) ≡ false) rows
  any [] = tt
  any (r ∷ rows) = (refl, any rows)

put_zones-new :
    (zones seen : List ForwardZone)
    → IsDistinct (map (λ z. z.domain) zones)
    → All (λ z. contains (map (λ y. y.domain) seen) z.domain ≡ false) zones
    → put_zones zones (by_column (λ z. z.domain) seen) ≡ by_column (λ z. z.domain) (seen ++ zones)
unfolding put_zones
put_zones-new [] seen d a = ap (by_column (λ (z : ForwardZone). z.domain)) (sym (append-nil seen))
put_zones-new (z ∷ zones) seen d a =
    ap (put_zones zones) (insert-new (λ (y : ForwardZone). y.domain) z seen a.0)
    ∙ put_zones-new zones (seen ++ (z ∷ [])) d.1
        (All-snoc (λ (y : ForwardZone). y.domain) z seen zones d.0 a.1)
    ∙ ap (by_column (λ (y : ForwardZone). y.domain)) (append_assoc seen (z ∷ []) zones)

not_both :
    (on : Bool) (own : Option ℕ) (node : ℕ)
    → (on && own == none) ≡ true
    → (on && own == some node) ≡ false
not_both on none node h = ground arith
not_both on (some id) node h = ground arith

-- If no two forward zones share a domain, a node gets exactly the enabled zones of all nodes and
-- then its own enabled ones, none in the place of another.
pub zones-exact :
    (node : ℕ) (zones : List ForwardZone)
    → IsDistinct (map (λ z. z.domain) zones)
    → map (λ (domain, z). z) (zone_map node zones)
      ≡ select is_global zones ++ select (is_of_node node) zones
unfolding zone_map
zones-exact node zones d =
    let dom = λ (z : ForwardZone). z.domain in
    let globals = select is_global zones in
    let own = select (is_of_node node) zones in
    let put_globals =
      put_zones-new globals [] (IsDistinct-map-select dom is_global zones d) (any dom globals) in
    let put_own = put_zones-new own globals (IsDistinct-map-select dom (is_of_node node) zones d) (
      apart dom is_global (is_of_node node) zones (λ z g. not_both z.enabled z.node_id node g) d) in
    ap (λ m. map (λ (domain, z). z) (put_zones own m)) put_globals
    ∙ ap (map (λ (domain, z). z)) put_own
    ∙ values dom (globals ++ own)

-- The fields of the bundle that sync-agent reads.
abbrev pub received : Bundle → Agent.Config
received b = record {
  rpz_files =
      map (λ f. record { filename = some f.filename; content = some f.content }) b.rpz_files;
  forward_zones = map (λ z. (z.domain, z.servers)) b.forward_zones;
  settings = b.settings;
}

-- The text of a file of the primary, unless it is empty or missing.
abbrev pub filled : Option Text → Option Text → Option Text
filled none old = old
filled (some []) old = old
filled (some (c ∷ s)) old = some (c ∷ s)

wanted-files :
    (checksum : Text → Text) (combined whitelist : Option Text) (a b : Option Text)
    → let files = named (
        map
          (λ f. record { filename = some f.filename; content = some f.content })
          (rpz_files_of checksum (record { combined = combined; whitelist = whitelist }))) in
      (wanted checksum (codes "blocklist-combined.rpz") files a ≡ filled combined a)
      × (wanted checksum (codes "whitelist.rpz") files b ≡ filled whitelist b)
wanted-files checksum none none a b = (refl, refl)
wanted-files checksum none (some []) a b = (refl, refl)
wanted-files checksum none (some (c ∷ s)) a b = (refl, refl)
wanted-files checksum (some []) none a b = (refl, refl)
wanted-files checksum (some []) (some []) a b = (refl, refl)
wanted-files checksum (some []) (some (c ∷ s)) a b = (refl, refl)
wanted-files checksum (some (d ∷ t)) none a b = (refl, refl)
wanted-files checksum (some (d ∷ t)) (some []) a b = (refl, refl)
wanted-files checksum (some (d ∷ t)) (some (c ∷ s)) a b = (refl, refl)

-- Once a secondary has taken over what the primary serves it, each of its two zone files has the
-- checksum of the primary's, or of what it held if the primary's is missing or empty.
pub sync-served :
    (checksum : Text → Text) (digest : Digest) (node : ℕ) (files : Files) (zones : List ForwardZone)
    (settings : Rows) (blocklists : List Blocklist) (old : Agent.Files)
    → let taken =
        sync_config checksum
          (fetched (received (bundle checksum digest node files zones settings blocklists)))
          old in
      (sum checksum (lookup (codes "blocklist-combined.rpz") taken.files.rpz)
        ≡ sum checksum (filled files.combined (lookup (codes "blocklist-combined.rpz") old.rpz)))
      × (sum checksum (lookup (codes "whitelist.rpz") taken.files.rpz)
          ≡ sum checksum (filled files.whitelist (lookup (codes "whitelist.rpz") old.rpz)))
unfolding bundle
sync-served checksum digest node files zones settings blocklists old =
    let config = received (bundle checksum digest node files zones settings blocklists) in
    let sums = (sync-sums checksum config old).0 in
    let two =
      wanted-files checksum files.combined files.whitelist
        (lookup (codes "blocklist-combined.rpz") old.rpz)
        (lookup (codes "whitelist.rpz") old.rpz) in
    (
      sums (codes "blocklist-combined.rpz") ∙ ap (sum checksum) two.0,
      sums (codes "whitelist.rpz") ∙ ap (sum checksum) two.1,
    )
