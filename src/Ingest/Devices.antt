-- ===== src/Ingest/Devices.antt =====
-- The rows of clients under a batch: made once for each address, and only their time changes.
use power_blockade.Base.{
  ℕ, ◌≡◌, refl, ◌∙◌, true, false, ◌||◌, none, some, List, [], ◌∷◌, ◌++◌, arith, ◌==◌, nat_eq,
  list_eq, option_eq, map, contains, contains-append, IsDistinct, Bool-cases, inl, inr,
}
use power_blockade.Base.Texts.{Text, text_eq}
use power_blockade.Admin.Tables.{IsTable, IsTable-snoc, IsDistinct-map-snoc, map-snoc}
use power_blockade.Clients.{client_id_of, client_ip_of, new_client, Client, by_ip}
use power_blockade.Ingest.{Tables, ensure_client, ensure_clients, seen_at, client_key}

-- Ids are unique and behind the sequence, and no address has two rows.
abbrev pub IsDevices : Tables → Type 0
IsDevices t = IsTable client_id_of t.next_client t.clients × IsDistinct (map client_ip_of t.clients)

pub by_ip-absent :
    (ip : Text) (clients : List Client)
    → contains (map client_ip_of clients) ip ≡ false
    → by_ip ip clients ≡ none
unfolding by_ip
by_ip-absent ip [] h = refl
by_ip-absent ip (c ∷ clients) h = ground (arith, by_ip-absent ip clients)

pub by_ip-present :
    (ip : Text) (clients : List Client)
    → contains (map client_ip_of clients) ip ≡ true
    → (c : Client) × (by_ip ip clients ≡ some c)
unfolding by_ip
by_ip-present ip [] h = absurd (ground arith)
by_ip-present ip (c ∷ clients) h = elim (Bool-cases (c.ip == ip)) [
  | inl e ↦ (c, rw e refl)
  | inr n ↦
      let rest : (d : Client) × (by_ip ip clients ≡ some d) =
        by_ip-present ip clients (ground arith) in
      (rest.0, rw n rest.1)
]

-- The id of an address stays when rows are added behind it.
pub client_key-snoc :
    (ip : Text) (clients : List Client) (c : Client)
    → contains (map client_ip_of clients) ip ≡ true
    → client_key (by_ip ip (clients ++ (c ∷ []))) ≡ client_key (by_ip ip clients)
unfolding by_ip
client_key-snoc ip [] c h = absurd (ground arith)
client_key-snoc ip (d ∷ clients) c h = ground (arith, client_key-snoc ip clients c)

pub contains-ensure_client :
    (ip a : Text) (t : Tables)
    → contains (map client_ip_of (ensure_client ip t).clients) a
      ≡ (contains (map client_ip_of t.clients) a || (ip == a))
unfolding ensure_client
contains-ensure_client ip a t = ground (
  arith,
  map-snoc client_ip_of t.clients (new_client t.next_client ip),
  contains-append (map client_ip_of t.clients) (ip ∷ []) a,
  text_eq.beq_iff ip a,
)

ensure_client-IsDevices : (ip : Text) (t : Tables) → IsDevices t → IsDevices (ensure_client ip t)
unfolding ensure_client
ensure_client-IsDevices ip t d = elim (Bool-cases (contains (map client_ip_of t.clients) ip)) [
  | inl e ↦ rw e d
  | inr n ↦ rw n (
    IsTable-snoc client_id_of t.next_client t.clients (new_client t.next_client ip) refl d.0,
    IsDistinct-map-snoc client_ip_of t.clients (new_client t.next_client ip) d.1 n,
  )
]

client_key-ensure_client :
    (ip a : Text) (t : Tables)
    → contains (map client_ip_of t.clients) a ≡ true
    → client_key (by_ip a (ensure_client ip t).clients) ≡ client_key (by_ip a t.clients)
unfolding ensure_client
client_key-ensure_client ip a t h =
    ground (arith, client_key-snoc a t.clients (new_client t.next_client ip) h)

ensure_client-events : (ip : Text) (t : Tables) → (ensure_client ip t).events ≡ t.events
unfolding ensure_client
ensure_client-events ip t = ground arith

pub ensure_clients-IsDevices :
    (ips : List Text) (t : Tables) → IsDevices t → IsDevices (ensure_clients ips t)
unfolding ensure_clients
ensure_clients-IsDevices [] t d = d
ensure_clients-IsDevices (ip ∷ ips) t d =
    ensure_clients-IsDevices ips (ensure_client ip t) (ensure_client-IsDevices ip t d)

pub ensure_clients-events :
    (ips : List Text) (t : Tables) → (ensure_clients ips t).events ≡ t.events
unfolding ensure_clients
ensure_clients-events [] t = refl
ensure_clients-events (ip ∷ ips) t =
    ensure_clients-events ips (ensure_client ip t) ∙ ensure_client-events ip t

pub contains-ensure_clients :
    (ips : List Text) (a : Text) (t : Tables)
    → contains (map client_ip_of (ensure_clients ips t).clients) a
      ≡ (contains (map client_ip_of t.clients) a || contains ips a)
unfolding ensure_clients
contains-ensure_clients [] a t = ground arith
contains-ensure_clients (ip ∷ ips) a t =
    ground
      (arith, contains-ensure_clients ips a (ensure_client ip t), contains-ensure_client ip a t)

pub client_key-ensure_clients :
    (ips : List Text) (a : Text) (t : Tables)
    → contains (map client_ip_of t.clients) a ≡ true
    → client_key (by_ip a (ensure_clients ips t).clients) ≡ client_key (by_ip a t.clients)
unfolding ensure_clients
client_key-ensure_clients [] a t h = refl
client_key-ensure_clients (ip ∷ ips) a t h =
    client_key-ensure_clients ips a (ensure_client ip t) (contains-ensure_client ip a t ∙ rw h refl)
    ∙ client_key-ensure_client ip a t h

-- Addresses that all have a row: nothing is made.
pub ensure_clients_present :
    (ips : List Text) (t : Tables)
    → ((a : Text) → contains ips a ≡ true → contains (map client_ip_of t.clients) a ≡ true)
    → ensure_clients ips t ≡ t
unfolding ensure_clients ensure_client
ensure_clients_present [] t h = refl
ensure_clients_present (ip ∷ ips) t h =
    let here : contains (map client_ip_of t.clients) ip ≡ true =
      h ip (ground (arith, text_eq.beq_iff ip ip)) in
    rw here (ensure_clients_present ips t (λ a c. h a (ground arith)))

pub seen_at-ips :
    (ip : Text) (ts : ℕ) (clients : List Client)
    → map client_ip_of (seen_at ip ts clients) ≡ map client_ip_of clients
seen_at-ips ip ts [] = refl
seen_at-ips ip ts (c ∷ clients) = ground (arith, seen_at-ips ip ts clients)

pub seen_at-ids :
    (ip : Text) (ts : ℕ) (clients : List Client)
    → map client_id_of (seen_at ip ts clients) ≡ map client_id_of clients
seen_at-ids ip ts [] = refl
seen_at-ids ip ts (c ∷ clients) = ground (arith, seen_at-ids ip ts clients)

pub client_key-seen_at :
    (ip a : Text) (ts : ℕ) (clients : List Client)
    → client_key (by_ip a (seen_at ip ts clients)) ≡ client_key (by_ip a clients)
unfolding by_ip
client_key-seen_at ip a ts [] = refl
client_key-seen_at ip a ts (c ∷ clients) = ground (arith, client_key-seen_at ip a ts clients)
