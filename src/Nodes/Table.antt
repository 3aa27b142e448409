-- ===== src/Nodes/Table.antt =====
-- The table of nodes and the requests that look a row up first: get_node_from_api_key of
-- admin-ui/app/node_auth.py, and the handlers and the badge of admin-ui/app/routers/nodes.py.
use power_blockade.Base.{
  ℕ, ◌+◌, ◌≡◌, refl, String, Bool, true, false, not, ◌||◌, Option, none, some, List, [], ◌∷◌, map,
  arith, ltb, ◌==◌, nat_eq, string_eq, if◌then◌else◌, select, Bool-cases, inl, inr,
}
use power_blockade.Nodes.{
  Node, error, status_eq, instant, DateTime, present, minutes, clear_error, force_sync,
}

-- `query.one_or_none()`
pub data Rows : Type 0 where
  no_row many_rows : Rows
  one_row : Node → Rows

abbrev pub one_or_none : List Node → Rows
one_or_none [] = no_row
one_or_none (n ∷ []) = one_row n
one_or_none (n ∷ m ∷ ns) = many_rows

-- The two 401 answers, the row, or the exception of a query that finds several.
pub data Authorised : Type 0 where
  missing_key invalid_key multiple_results : Authorised
  node_found : Node → Authorised

abbrev pub authorise : Rows → Authorised
authorise no_row = invalid_key
authorise many_rows = multiple_results
authorise (one_row n) = node_found n

unfoldable pub get_node_from_api_key : Option String → List Node → Authorised
get_node_from_api_key none nodes = missing_key
get_node_from_api_key (some key) nodes =
    if key == ""
    then missing_key
    else authorise (one_or_none (select (λ n. n.api_key == key) nodes))

pub data Answer : Type 0 where
  to_login to_nodes cannot_delete_primary query_error : Answer

-- `db.query(Node).filter(Node.id == node_id)`: the id is the primary key.
abbrev pub has_id : ℕ → Node → Bool
has_id node_id n = n.id == node_id

abbrev pub delete_found : ℕ → List Node → Rows → List Node × Answer
delete_found node_id nodes no_row = (nodes, to_nodes)
delete_found node_id nodes many_rows = (nodes, query_error)
delete_found node_id nodes (one_row n) =
    if n.name == "primary"
    then (nodes, cannot_delete_primary)
    else (select (λ m. not (has_id node_id m)) nodes, to_nodes)

-- `user` says whether the session has one.
unfoldable pub nodes_delete : Bool → ℕ → List Node → List Node × Answer
nodes_delete user node_id nodes =
    if user
    then delete_found node_id nodes (one_or_none (select (has_id node_id) nodes))
    else (nodes, to_login)

-- A handler that changes the row with this id, if there is one.
abbrev pub on_row : (Node → Node) → ℕ → Node → Node
on_row f node_id n = if has_id node_id n then f n else n

unfoldable pub nodes_force_sync : Bool → ℕ → List Node → List Node × Answer
nodes_force_sync user node_id nodes =
    if user then (map (on_row force_sync node_id) nodes, to_nodes) else (nodes, to_login)

unfoldable pub nodes_clear_error : Bool → ℕ → List Node → List Node × Answer
nodes_clear_error user node_id nodes =
    if user then (map (on_row clear_error node_id) nodes, to_nodes) else (nodes, to_login)

pub data Badge : Type 0 where
  badge_error badge_pending badge_stale badge_active : Badge

abbrev pub seen_badge : ℕ → Option DateTime → Badge
seen_badge now none = badge_pending
seen_badge now (some seen) =
    if ltb (instant seen + minutes 5) now then badge_stale else badge_active

-- The badge does not look at the status but for "error". STALE_THRESHOLD_MINUTES is 5.
unfoldable pub get_node_status_badge : ℕ → Node → Badge
get_node_status_badge now node =
    if node.status == error || present node.last_error
    then badge_error
    else seen_badge now node.last_seen

-- Some row has this name.
abbrev pub has_name : String → List Node → Bool
has_name name [] = false
has_name name (n ∷ ns) = (n.name == name) || has_name name ns

has_name-remove_none :
    (name : String) (node_id : ℕ) (nodes : List Node)
    → select (has_id node_id) nodes ≡ []
    → has_name name (select (λ m. not (has_id node_id m)) nodes) ≡ has_name name nodes
has_name-remove_none name node_id [] h = refl
has_name-remove_none name node_id (n ∷ ns) h = ground (arith, has_name-remove_none name node_id ns)

has_name-remove_one :
    (name : String) (node_id : ℕ) (nodes : List Node) (m : Node)
    → select (has_id node_id) nodes ≡ m ∷ []
    → (m.name == name) ≡ false
    → has_name name (select (λ n. not (has_id node_id n)) nodes) ≡ has_name name nodes
has_name-remove_one name node_id [] m h k = refl
has_name-remove_one name node_id (n ∷ ns) m h k =
    ground (arith, has_name-remove_one name node_id ns m, has_name-remove_none name node_id ns)

one_or_none_cases : (nodes : List Node) (m : Node) → one_or_none nodes ≡ one_row m → nodes ≡ m ∷ []
one_or_none_cases [] m h = cc
one_or_none_cases (n ∷ []) m h = cc
one_or_none_cases (n ∷ k ∷ nodes) m h = cc

delete_found-keeps :
    (node_id : ℕ) (nodes : List Node) (rows : Rows)
    → one_or_none (select (has_id node_id) nodes) ≡ rows
    → has_name "primary" (delete_found node_id nodes rows).0 ≡ has_name "primary" nodes
delete_found-keeps node_id nodes no_row h = refl
delete_found-keeps node_id nodes many_rows h = refl
delete_found-keeps node_id nodes (one_row m) h = elim (Bool-cases (m.name == "primary")) [
  | inl primary ↦ rw primary refl
  | inr other ↦ rw other (
      has_name-remove_one "primary" node_id nodes m
        (one_or_none_cases (select (has_id node_id) nodes) m h) other)
]

-- No request to delete a node, by whomever and for whatever id, removes the primary: a table with a
-- row named "primary" has one afterwards, and a table without one gets none.
pub nodes_delete-keeps_primary :
    (user : Bool) (node_id : ℕ) (nodes : List Node)
    → has_name "primary" (nodes_delete user node_id nodes).0 ≡ has_name "primary" nodes
unfolding nodes_delete
nodes_delete-keeps_primary false node_id nodes = refl
nodes_delete-keeps_primary true node_id nodes = delete_found-keeps node_id nodes _ refl
