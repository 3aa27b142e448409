-- ===== src/Clients/Found.antt =====
-- The row of an address, after another one is added or it is saved itself.
use power_blockade.Base.{
  ◌≡◌, true, none, some, List, [], ◌∷◌, ◌++◌, arith, nat_eq, list_eq, map, contains, IsDistinct,
}
use power_blockade.Base.Texts.{Text, text_eq}
use power_blockade.Admin.{save_row}
use power_blockade.Clients.{Client, by_ip, client_id_of}

pub by_ip-ip :
    (ip : Text) (clients : List Client) (c : Client) → by_ip ip clients ≡ some c → c.ip ≡ ip
unfolding by_ip
by_ip-ip ip [] c h = ground arith
by_ip-ip ip (d ∷ clients) c h = ground (arith, by_ip-ip ip clients c, text_eq.beq_iff d.ip ip)

pub contains-by_ip :
    (ip : Text) (clients : List Client) (c : Client)
    → by_ip ip clients ≡ some c
    → contains (map client_id_of clients) c.id ≡ true
unfolding by_ip
contains-by_ip ip [] c h = ground arith
contains-by_ip ip (d ∷ clients) c h = ground (arith, contains-by_ip ip clients c)

-- The row that is saved is found at its address.
pub by_ip-save :
    (ip : Text) (clients : List Client) (c d : Client)
    → by_ip ip clients ≡ some c
    → IsDistinct (map client_id_of clients)
    → d.id ≡ c.id
    → d.ip ≡ c.ip
    → by_ip ip (save_row client_id_of d clients) ≡ some d
unfolding by_ip
by_ip-save ip [] c d h distinct i a = ground arith
by_ip-save ip (e ∷ clients) c d h distinct i a = ground (
  arith,
  by_ip-save ip clients c d,
  by_ip-ip ip (e ∷ clients) c h,
  contains-by_ip ip clients c,
  distinct.0,
  distinct.1,
  text_eq.beq_iff d.ip ip,
)

pub by_ip-snoc :
    (ip : Text) (clients : List Client) (c : Client)
    → by_ip ip clients ≡ none
    → c.ip ≡ ip
    → by_ip ip (clients ++ (c ∷ [])) ≡ some c
unfolding by_ip
by_ip-snoc ip [] c h i = ground (arith, text_eq.beq_iff c.ip ip)
by_ip-snoc ip (d ∷ clients) c h i = ground (arith, by_ip-snoc ip clients c)
