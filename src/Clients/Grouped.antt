-- ===== src/Clients/Grouped.antt =====
-- What the requests on groups keep of the table of groups and of the clients in them.
use power_blockade.Base.{
  ℕ, ◌≡◌, refl, Bool, true, false, not, Option, none, some, List, [], ◌∷◌, ◌++◌, arith, ◌==◌,
  nat_eq, list_eq, option_eq, if◌then◌else◌, map, select, contains, contains-append, IsDistinct,
  Bool-cases, inl, inr, All,
}
use power_blockade.Base.Texts.{Text}
use power_blockade.Base.Addresses.{Ipv6, ip_network}
use power_blockade.Admin.{get_row, save_row, drop_row}
use power_blockade.Admin.Tables.{IsTable, map-snoc}
use power_blockade.Admin.Zones.{or_none}
use power_blockade.Clients.{Client, ClientGroup, Store, group_id_of, group_name}
use power_blockade.Clients.Groups.{
  is_none, takes, assign_by, auto_assign_by_cidr, assign_all, invalid_cidr, known_group, leave,
}

-- A group's network is NULL or can be read.
abbrev pub cidr_valid : Ipv6 → Option Text → Bool
cidr_valid ipv6 none = true
cidr_valid ipv6 (some cidr) = not (is_none (ip_network ipv6 cidr))

abbrev pub IsMember : List ClientGroup → List Client → Type 0
IsMember groups = All (λ c. known_group groups c.group_id ≡ true)

-- Groups have their own ids and names and networks that can be read, and the group of a client
-- exists.
abbrev pub IsGrouped : Ipv6 → Store → Type 0
IsGrouped ipv6 s =
    IsTable group_id_of s.next_group s.groups
    × (IsDistinct (map group_name s.groups)
        × (All (λ g. cidr_valid ipv6 g.cidr ≡ true) s.groups × IsMember s.groups s.clients))

module _ {ℓ} {A : Type ℓ} (key : A → ℕ) where
  pub All-save {κ} :
      (P : A → Type κ) (a : A) (rows : List A) → P a → All P rows → All P (save_row key a rows)
  All-save P a [] p all = tt
  All-save P a (b ∷ rows) p all = elim (Bool-cases (key b == key a)) [
    | inl e ↦ rw e (p, All-save P a rows p all.1)
    | inr n ↦ rw n (all.0, All-save P a rows p all.1)
  ]

  abbrev OfSome {κ} : (A → Type κ) → Option A → Type κ
  OfSome P none = Unit
  OfSome P (some a) = P a

  found_row {κ} :
      (P : A → Type κ) (id : ℕ) (rows : List A) → All P rows → OfSome P (get_row key id rows)
  unfolding get_row
  found_row P id [] all = tt
  found_row P id (b ∷ rows) all = elim (Bool-cases (key b == id)) [
    | inl e ↦ rw e all.0
    | inr n ↦ rw n (found_row P id rows all.1)
  ]

  pub All-get_row {κ} :
      (P : A → Type κ) (id : ℕ) (rows : List A) (a : A)
      → get_row key id rows ≡ some a
      → All P rows
      → P a
  All-get_row P id rows a h all =
      let there : OfSome P (get_row key id rows) = found_row P id rows all in rw h at there

  pub All-drop {κ} :
      (P : A → Type κ) (p : A → Bool) (rows : List A) → All P rows → All P (select p rows)
  All-drop P p [] all = tt
  All-drop P p (a ∷ rows) all = elim (Bool-cases (p a)) [
    | inl e ↦ rw e (all.0, All-drop P p rows all.1)
    | inr n ↦ rw n (All-drop P p rows all.1)
  ]

pub or_none-valid :
    (ipv6 : Ipv6) (cidr : Text)
    → invalid_cidr ipv6 cidr ≡ false
    → cidr_valid ipv6 (or_none cidr) ≡ true
unfolding invalid_cidr
or_none-valid ipv6 [] h = refl
or_none-valid ipv6 (c ∷ s) h = ground arith

pub known_group-ids :
    (groups others : List ClientGroup) (o : Option ℕ)
    → map group_id_of others ≡ map group_id_of groups
    → known_group groups o ≡ true
    → known_group others o ≡ true
known_group-ids groups others none h k = refl
known_group-ids groups others (some id) h k = rw h k

pub known_group-snoc :
    (groups : List ClientGroup) (g : ClientGroup) (o : Option ℕ)
    → known_group groups o ≡ true
    → known_group (groups ++ (g ∷ [])) o ≡ true
known_group-snoc groups g none k = refl
known_group-snoc groups g (some id) k =
    ground (
      arith,
      map-snoc group_id_of groups g,
      contains-append (map group_id_of groups) (g.id ∷ []) id,
    )

contains-drop :
    (id k : ℕ) (groups : List ClientGroup)
    → contains (map group_id_of groups) k ≡ true
    → (id == k) ≡ false
    → contains (map group_id_of (drop_row group_id_of id groups)) k ≡ true
contains-drop id k [] h n = h
contains-drop id k (g ∷ groups) h n = ground (arith, contains-drop id k groups)

pub IsMember-map :
    (groups others : List ClientGroup) (f : Client → Client) (clients : List Client)
    → ((c : Client)
        → known_group groups c.group_id ≡ true
        → known_group others (f c).group_id ≡ true)
    → IsMember groups clients
    → IsMember others (map f clients)
IsMember-map groups others f [] keeps all = tt
IsMember-map groups others f (c ∷ clients) keeps all =
    (keeps c all.0, IsMember-map groups others f clients keeps all.1)

module _ (groups : List ClientGroup) where
  joined :
      (id : ℕ) (b : Bool) (c : Client)
      → known_group groups (some id) ≡ true
      → known_group groups c.group_id ≡ true
      → known_group groups (if b then record c { group_id = some id } else c).group_id ≡ true
  joined id true c k h = k
  joined id false c k h = h

  assign-IsMember :
      (ipv6 : Ipv6) (id : ℕ) (o : Option Text) (clients : List Client)
      → known_group groups (some id) ≡ true
      → IsMember groups clients
      → IsMember groups (assign_by ipv6 id clients o).0
  assign-IsMember ipv6 id none clients k all = all
  assign-IsMember ipv6 id (some []) clients k all = all
  assign-IsMember ipv6 id (some (d ∷ cidr)) clients k all =
      IsMember-map groups groups _ clients (λ c h. joined id (takes ipv6 (d ∷ cidr) c) c k h) all

  pub auto_assign-IsMember :
      (ipv6 : Ipv6) (g : ClientGroup) (clients : List Client)
      → known_group groups (some g.id) ≡ true
      → IsMember groups clients
      → IsMember groups (auto_assign_by_cidr ipv6 g clients).0
  unfolding auto_assign_by_cidr
  auto_assign-IsMember ipv6 g clients k all = assign-IsMember ipv6 g.id g.cidr clients k all

  pub assign_all-IsMember :
      (ipv6 : Ipv6) (some_groups : List ClientGroup) (clients : List Client)
      → All (λ g. known_group groups (some g.id) ≡ true) some_groups
      → IsMember groups clients
      → IsMember groups (assign_all ipv6 some_groups clients).0
  unfolding assign_all
  assign_all-IsMember ipv6 [] clients known all = all
  assign_all-IsMember ipv6 (g ∷ rest) clients known all =
      assign_all-IsMember ipv6 rest (auto_assign_by_cidr ipv6 g clients).0 known.1
        (auto_assign-IsMember ipv6 g clients known.0 all)

  pub leave-IsMember :
      (id : ℕ) (clients : List Client)
      → IsMember groups clients
      → IsMember (drop_row group_id_of id groups) (leave id clients)
  leave-IsMember id clients all =
      IsMember-map groups (drop_row group_id_of id groups) _ clients
        (λ c h. left id (c.group_id == some id) c h refl) all
    where
      left :
          (id : ℕ) (b : Bool) (c : Client)
          → known_group groups c.group_id ≡ true
          → (c.group_id == some id) ≡ b
          → known_group
              (drop_row group_id_of id groups)
              (if b then record c { group_id = none } else c).group_id
            ≡ true
      left id true c h e = refl
      left id false c h e = stays c.group_id id h e
        where
          stays :
              (o : Option ℕ) (id : ℕ)
              → known_group groups o ≡ true
              → (o == some id) ≡ false
              → known_group (drop_row group_id_of id groups) o ≡ true
          stays none id h e = refl
          stays (some j) id h e = contains-drop id j groups h (ground arith)
