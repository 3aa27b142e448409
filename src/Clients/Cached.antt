-- ===== src/Clients/Cached.antt =====
-- A lookup is not made again while its result is recent.
use power_blockade.Base.{
  ℕ, ◌-◌, ◌≡◌, ◌≢◌, refl, ◌∙◌, ap, Bool, true, false, Option, none, some, arith, ltb, nat_eq,
  list_eq, if◌then◌else◌, map, IsDistinct, Option-cases, Bool-cases, inl, inr,
}
use power_blockade.Base.Texts.{Text}
use power_blockade.Base.Addresses.{Ipv6}
use power_blockade.Admin.Tables.{IsTable, IsTable-snoc}
use power_blockade.Clients.{Client, ClientResolverRule, by_ip, new_client, client_id_of}
use power_blockade.Clients.Found.{by_ip-save, by_ip-snoc}
use power_blockade.Clients.Rules.{get_matching_rule}
use power_blockade.Clients.Names.{
  Session, truthy, seconds, cached, looked_up, ask, ask_rule, named_or_ask, cached_or, row_of,
  resolve_client_hostname,
}

module _ (now later : ℕ) (nameserver : Text) (c : Client) where
  looked_up-id : (hostname : Option Text) → (looked_up now nameserver hostname c).id ≡ c.id
  unfolding looked_up
  looked_up-id hostname = ground arith

  looked_up-ip : (hostname : Option Text) → (looked_up now nameserver hostname c).ip ≡ c.ip
  unfolding looked_up
  looked_up-ip hostname = ground arith

  cached-looked_up_name :
      (hostname : Option Text)
      → truthy hostname ≡ true
      → ltb (later - now) (seconds 3600) ≡ true
      → cached later false (looked_up now nameserver hostname c) ≡ some hostname
  unfolding cached looked_up
  cached-looked_up_name hostname h soon = rw (h, h, soon) refl

  cached-looked_up :
      (hostname : Option Text)
      → ltb (later - now) (seconds 300) ≡ true
      → (answer : Option Text) × (cached later false (looked_up now nameserver hostname c)
          ≡ some answer)
  unfolding cached looked_up
  cached-looked_up hostname soon = elim (Bool-cases (truthy hostname)) [
    | inl h ↦ (hostname, rw (h, h) (ground arith))
    | inr h ↦ elim (Bool-cases (truthy c.rdns_name)) [
      | inl k ↦ (c.rdns_name, rw h (ground arith))
      | inr k ↦ (c.display_name, rw h (ground arith))
    ]
  ]

-- What a second call finds after the first has left the session `s` with the row `c`.
module _ (ipv6 : Ipv6) (ptr_lookup : Text → Text → Option Text) (later : ℕ) where
  resolve_cached :
      (ip : Text) (s : Session) (c : Client) (answer : Option Text)
      → by_ip ip s.current.clients ≡ some c
      → cached later false c ≡ some answer
      → resolve_client_hostname ipv6 ptr_lookup later false ip s ≡ (s, answer)
  unfolding resolve_client_hostname
  resolve_cached ip s c answer found hit =
      let named : row_of ip s (by_ip ip s.current.clients) ≡ (s, c) = ap (row_of ip s) found in
      ap
        (λ (r : Session × Client). cached_or ipv6 ptr_lookup later r.1 r.0 (cached later false r.1))
        named
      ∙ ap (cached_or ipv6 ptr_lookup later c s) hit

-- The row that a call works on is found at its address, and ids stay distinct.
row_of-found :
    (ip : Text) (s : Session)
    → IsTable client_id_of s.current.next_client s.current.clients
    → let row : Session × Client = row_of ip s (by_ip ip s.current.clients) in
      (by_ip ip row.0.current.clients ≡ some row.1)
      × (IsDistinct (map client_id_of row.0.current.clients) × (row.0.asked ≡ s.asked))
row_of-found ip s table = elim (Option-cases (by_ip ip s.current.clients)) [
  | inl absent ↦
      let c = new_client s.current.next_client ip in
      rw absent (
        by_ip-snoc ip s.current.clients c absent refl,
        ((IsTable-snoc client_id_of s.current.next_client s.current.clients c refl table).0, refl),
      )
  | inr (c, found) ↦ rw found (found, (table.0, refl))
]

-- What a call that asked a name server leaves: until 300 s later nothing is asked again, and a name
-- that was found is the answer for 3600 s.
abbrev IsSettled : Ipv6 → ℕ → Text → Session × Option Text → Type 0
IsSettled ipv6 now ip first =
    (ptr_lookup : Text → Text → Option Text) (later : ℕ)
    → (ltb (later - now) (seconds 300) ≡ true
        → (resolve_client_hostname ipv6 ptr_lookup later false ip first.0).0 ≡ first.0)
      × (truthy first.1 ≡ true
          → ltb (later - now) (seconds 3600) ≡ true
          → resolve_client_hostname ipv6 ptr_lookup later false ip first.0 ≡ first)

-- A name that counts as false is no name.
answer-truthy :
    (hostname given : Option Text)
    → truthy given ≡ false
    → truthy (if truthy hostname then hostname else given) ≡ true
    → truthy hostname ≡ true
answer-truthy hostname given h k = elim (Bool-cases (truthy hostname)) [
  | inl e ↦ e
  | inr n ↦ absurd (ground arith)
]

module _ (ipv6 : Ipv6) (ptr : Text → Text → Option Text) (now : ℕ) (ip : Text) where
  ask-IsSettled :
      (c : Client) (nameserver : Text) (s : Session)
      → by_ip ip s.current.clients ≡ some c
      → IsDistinct (map client_id_of s.current.clients)
      → truthy c.display_name ≡ false
      → IsSettled ipv6 now ip (ask ptr now c nameserver s)
  unfolding ask
  ask-IsSettled c nameserver s found distinct unnamed ptr_lookup later =
      let hostname = ptr c.ip nameserver in
      let d = looked_up now nameserver hostname c in
      let first : Session × Option Text = ask ptr now c nameserver s in
      let saved : by_ip ip first.0.current.clients ≡ some d =
        by_ip-save ip s.current.clients c d found distinct
          (looked_up-id now later nameserver c hostname)
          (looked_up-ip now later nameserver c hostname) in
      (
        λ soon.
            let (answer, hit) = cached-looked_up now later nameserver c hostname soon in
            ap (λ (r : Session × Option Text). r.0)
              (resolve_cached ipv6 ptr_lookup later ip first.0 d answer saved hit),
        λ named soon.
            let true_name = answer-truthy hostname c.display_name unnamed named in
            resolve_cached ipv6 ptr_lookup later ip first.0 d hostname saved
              (cached-looked_up_name now later nameserver c hostname true_name soon)
            ∙ rw true_name refl,
      )

  rule-IsSettled :
      (c : Client) (o : Option ClientResolverRule) (s : Session)
      → by_ip ip s.current.clients ≡ some c
      → IsDistinct (map client_id_of s.current.clients)
      → truthy c.display_name ≡ false
      → (ask_rule ptr now c s o).0.asked ≢ s.asked
      → IsSettled ipv6 now ip (ask_rule ptr now c s o)
  rule-IsSettled c none s found distinct unnamed asked = absurd (asked refl)
  rule-IsSettled c (some r) s found distinct unnamed asked =
      ask-IsSettled c r.nameserver s found distinct unnamed

  named-IsSettled :
      (c : Client) (s : Session)
      → by_ip ip s.current.clients ≡ some c
      → IsDistinct (map client_id_of s.current.clients)
      → (named_or_ask ipv6 ptr now c s).0.asked ≢ s.asked
      → IsSettled ipv6 now ip (named_or_ask ipv6 ptr now c s)
  unfolding named_or_ask
  named-IsSettled c s found distinct asked = elim (Bool-cases (truthy c.display_name)) [
    | inl e ↦ absurd (asked (rw e refl))
    | inr n ↦ rw n (
        rule-IsSettled c (get_matching_rule ipv6 c.ip s.current.rules) s found distinct n
          (rw n at asked))
  ]

  cached-IsSettled :
      (c : Client) (hit : Option (Option Text)) (s : Session)
      → by_ip ip s.current.clients ≡ some c
      → IsDistinct (map client_id_of s.current.clients)
      → (cached_or ipv6 ptr now c s hit).0.asked ≢ s.asked
      → IsSettled ipv6 now ip (cached_or ipv6 ptr now c s hit)
  cached-IsSettled c (some answer) s found distinct asked = absurd (asked refl)
  cached-IsSettled c none s found distinct asked = named-IsSettled c s found distinct asked

  resolve_client_hostname-IsSettled :
      (force : Bool) (s : Session)
      → IsTable client_id_of s.current.next_client s.current.clients
      → (resolve_client_hostname ipv6 ptr now force ip s).0.asked ≢ s.asked
      → IsSettled ipv6 now ip (resolve_client_hostname ipv6 ptr now force ip s)
  unfolding resolve_client_hostname
  resolve_client_hostname-IsSettled force s table asked =
      let row : Session × Client = row_of ip s (by_ip ip s.current.clients) in
      let (found, (distinct, same)) = row_of-found ip s table in
      cached-IsSettled row.1 (cached now force row.1) row.0 found distinct (λ e. asked (e ∙ same))

module _ (ipv6 : Ipv6) (ptr again : Text → Text → Option Text) (now later : ℕ) (force : Bool)
    (ip : Text) (s : Session) where
  -- Where clients have distinct ids behind their sequence: if a call, forced or not, asks a name
  -- server, then an unforced call for the same address that is less than 300 s later asks nothing
  -- and changes nothing, whatever a lookup would give then.
  pub resolve_again :
      IsTable client_id_of s.current.next_client s.current.clients
      → (resolve_client_hostname ipv6 ptr now force ip s).0.asked ≢ s.asked
      → ltb (later - now) (seconds 300) ≡ true
      → let first : Session × Option Text = resolve_client_hostname ipv6 ptr now force ip s in
        (resolve_client_hostname ipv6 again later false ip first.0).0 ≡ first.0
  resolve_again table asked =
      (resolve_client_hostname-IsSettled ipv6 ptr now ip force s table asked again later).0

  -- Where clients have distinct ids behind their sequence: if a call, forced or not, asks a name
  -- server and returns a name, then an unforced call for the same address that is less than 3600 s
  -- later returns that name, asks nothing and changes nothing.
  pub resolve_named :
      IsTable client_id_of s.current.next_client s.current.clients
      → (resolve_client_hostname ipv6 ptr now force ip s).0.asked ≢ s.asked
      → truthy (resolve_client_hostname ipv6 ptr now force ip s).1 ≡ true
      → ltb (later - now) (seconds 3600) ≡ true
      → let first : Session × Option Text = resolve_client_hostname ipv6 ptr now force ip s in
        resolve_client_hostname ipv6 again later false ip first.0 ≡ first
  resolve_named table asked =
      (resolve_client_hostname-IsSettled ipv6 ptr now ip force s table asked again later).1
