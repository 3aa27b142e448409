-- ===== src/Clients/Invariant.antt =====
-- What holds of groups and clients whatever is requested, in whatever order.
use power_blockade.Base.{
  ℕ, ◌≡◌, refl, Bool, true, false, ◌||◌, Option, none, some, List, [], ◌∷◌, ◌++◌, arith, ◌==◌,
  nat_eq, list_eq, option_eq, if◌then◌else◌, map, select, contains, contains-append, contains-head,
  Bool-cases, inl, inr, All, All-append,
}
use power_blockade.Base.Texts.{Text}
use power_blockade.Base.Addresses.{Ipv6}
use power_blockade.Admin.{get_row, save_row}
use power_blockade.Admin.Tables.{
  IsTable-snoc, IsTable-save, IsTable-select, IsDistinct-map-select, IsDistinct-map-snoc, map-snoc,
}
use power_blockade.Admin.Rows.{map-save, contains-get_row}
use power_blockade.Clients.{Client, ClientGroup, Store, client_id_of, group_id_of, group_name}
use power_blockade.Clients.Groups.{
  auto_assign_by_cidr, invalid_cidr, known_group, new_group, has_cidr, group_fits, others_names,
  create_group, delete_found, update_found, auto_assign_groups, set_found,
}
use power_blockade.Admin.Tables.{IsDistinct-map-save}
use power_blockade.Clients.Grouped.{
  or_none-valid, IsMember, IsGrouped, All-save, All-drop, known_group-ids, known_group-snoc,
  auto_assign-IsMember, assign_all-IsMember, leave-IsMember,
}
use power_blockade.Clients.Requests.{or_kept}

both_false : (a b : Bool) → (a || b) ≡ false → (a ≡ false) × (b ≡ false)
both_false a b h = ground arith

module _ (ipv6 : Ipv6) where
  pub create-IsGrouped :
      (name description cidr color : Text) (s : Store)
      → IsGrouped ipv6 s
      → IsGrouped ipv6 (or_kept (create_group ipv6 name description cidr color s) s)
  unfolding create_group
  create-IsGrouped name description cidr color s w =
      let g : ClientGroup = new_group s.next_group name description cidr color in
      elim (Bool-cases (contains (map group_name s.groups) name || invalid_cidr ipv6 cidr)) [
        | inl e ↦ rw e w
        | inr n ↦
            let (free, valid) = both_false _ _ n in
            elim (Bool-cases (group_fits g)) [
              | inr wide ↦ rw (n, wide) w
              | inl fits ↦
                  rw (n, fits)
                    (
                      IsTable-snoc group_id_of s.next_group s.groups g refl w.0,
                      (
                        IsDistinct-map-snoc group_name s.groups g w.1.0 free,
                        (
                          All-append _ s.groups (g ∷ []) w.1.1.0
                              (or_none-valid ipv6 cidr valid, tt),
                          auto_assign-IsMember (s.groups ++ (g ∷ [])) ipv6 g s.clients
                              (known_new s.groups g) (kept_members s.groups g s.clients w.1.1.1),
                        ),
                      ),
                    )
            ]
      ]
    where
      known_new :
          (groups : List ClientGroup) (g : ClientGroup)
          → known_group (groups ++ (g ∷ [])) (some g.id) ≡ true
      known_new groups g = ground (
        arith,
        map-snoc group_id_of groups g,
        contains-append (map group_id_of groups) (g.id ∷ []) g.id,
      )

      kept_members :
          (groups : List ClientGroup) (g : ClientGroup) (clients : List Client)
          → IsMember groups clients
          → IsMember (groups ++ (g ∷ [])) clients
      kept_members groups g [] all = tt
      kept_members groups g (c ∷ clients) all =
          (known_group-snoc groups g c.group_id all.0, kept_members groups g clients all.1)

  pub deleted-IsGrouped :
      (id : ℕ) (s : Store) (o : Option ClientGroup)
      → IsGrouped ipv6 s
      → IsGrouped ipv6 (delete_found id s o)
  deleted-IsGrouped id s none w = w
  deleted-IsGrouped id s (some g) w = (
    IsTable-select group_id_of s.next_group s.groups _ w.0,
    (
      IsDistinct-map-select group_name _ s.groups w.1.0,
      (All-drop group_id_of _ _ s.groups w.1.1.0, leave-IsMember s.groups id s.clients w.1.1.1),
    ),
  )

  ids_kept :
      (groups others : List ClientGroup) (clients : List Client)
      → map group_id_of others ≡ map group_id_of groups
      → IsMember groups clients
      → IsMember others clients
  ids_kept groups others [] same all = tt
  ids_kept groups others (c ∷ clients) same all = (
    known_group-ids groups others c.group_id same all.0,
    ids_kept groups others clients same all.1,
  )

  joined_or_not :
      (g : ClientGroup) (groups : List ClientGroup) (clients : List Client)
      → known_group groups (some g.id) ≡ true
      → (b : Bool) → IsMember groups clients
      → IsMember groups (if b then clients else (auto_assign_by_cidr ipv6 g clients).0)
  joined_or_not g groups clients known true all = all
  joined_or_not g groups clients known false all =
      auto_assign-IsMember groups ipv6 g clients known all

  pub updated-IsGrouped :
      (id : ℕ) (name description cidr color : Text) (s : Store) (o : Option ClientGroup)
      → get_row group_id_of id s.groups ≡ o
      → IsGrouped ipv6 s
      → IsGrouped ipv6 (or_kept (update_found ipv6 id name description cidr color s o) s)
  updated-IsGrouped id name description cidr color s none found w = w
  updated-IsGrouped id name description cidr color s (some old) found w =
      let g : ClientGroup = new_group id name description cidr color in
      let saved = save_row group_id_of g s.groups in
      let same : map group_id_of saved ≡ map group_id_of s.groups =
        map-save group_id_of g s.groups in
      let there : known_group saved (some g.id) ≡ true =
        rw same (contains-get_row group_id_of id s.groups old found) in
      let moved : (b : Bool)
          → IsMember saved s.clients
          → IsMember saved (if b then s.clients else (auto_assign_by_cidr ipv6 g s.clients).0) =
        joined_or_not g saved s.clients there in
      elim (Bool-cases (contains (others_names id s.groups) name || invalid_cidr ipv6 cidr)) [
        | inl e ↦ rw e w
        | inr n ↦
            let (free, valid) = both_false _ _ n in
            elim (Bool-cases (group_fits g)) [
              | inr wide ↦ rw (n, wide) w
              | inl fits ↦
                  rw (n, fits)
                    (
                      IsTable-save group_id_of s.next_group s.groups g w.0,
                      (
                        IsDistinct-map-save group_id_of group_name g s.groups w.0.0 w.1.0 free,
                        (
                          All-save group_id_of _ g s.groups (or_none-valid ipv6 cidr valid) w.1.1.0,
                          moved (g.cidr == old.cidr)
                              (ids_kept s.groups saved s.clients same w.1.1.1),
                        ),
                      ),
                    )
            ]
      ]

  pub assigned-IsGrouped :
      (s : Store) → IsGrouped ipv6 s → IsGrouped ipv6 (auto_assign_groups ipv6 s).0
  unfolding auto_assign_groups
  assigned-IsGrouped s w = (
    w.0,
    (
      w.1.0,
      (
        w.1.1.0,
        assign_all-IsMember s.groups ipv6 (select has_cidr s.groups) s.clients
            (All-drop group_id_of _ has_cidr s.groups (each_known s.groups s.groups (λ id h. h)))
            w.1.1.1,
      ),
    ),
  )
    where
      each_known :
          (groups rest : List ClientGroup)
          → ((id : ℕ)
              → contains (map group_id_of rest) id ≡ true
              → contains (map group_id_of groups) id ≡ true)
          → All (λ g. known_group groups (some g.id) ≡ true) rest
      each_known groups [] among = tt
      each_known groups (g ∷ rest) among = (
        among g.id (contains-head g.id (map group_id_of rest)),
        each_known groups rest (λ id h. among id (ground arith)),
      )

  pub set-IsGrouped :
      (group : Option ℕ) (s : Store) (o : Option Client)
      → IsGrouped ipv6 s
      → IsGrouped ipv6 (or_kept (set_found group s o) s)
  set-IsGrouped group s none w = w
  set-IsGrouped group s (some c) w = elim (Bool-cases (known_group s.groups group)) [
    | inl e ↦ rw e (
      w.0,
      (
        w.1.0,
        (w.1.1.0, All-save client_id_of _ (record c { group_id = group }) s.clients e w.1.1.1),
      ),
    )
    | inr n ↦ rw n w
  ]
