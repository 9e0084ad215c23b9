-- ===== src/Monitor/Best.antt =====
-- `update_server_stats` and `get_best_server` of services/mon_service.py.
pub mod Choice
use gsm_sv.Prelude.{
  ℕ, ◌-◌, ◌*◌, ◌/◌, ◌==◌, Bool, true, false, not, ◌&&◌, ◌||◌, Option, none, some, String, str_eq,
  List, [], ◌∷◌, any, leb, ltb, is_some, if◌then◌else◌,
}
use gsm_sv.Exec.{
  Exec, Result, ok, err, raise, pure, http, gets, ◌>>=◌, ◌>>◌, no_requested_server,
  no_active_server, no_capable_server,
}
use gsm_sv.Table.{select, set_where}
use gsm_sv.Models.{Server, Db}
use gsm_sv.Platform.{Platform, NodeStatus}
use gsm_sv.Platform.World.{World, call}

abbrev pub with_free : ℕ → Server → Server
with_free mb server = record server { last_free_ram_mb = mb }

abbrev pub has_server_id : ℕ → Server → Bool
has_server_id id server = server.id == id

abbrev pub store_free : {E : Type 0} → ℕ → ℕ → World E → World E
store_free id mb w = record w {
  db = record w.db { servers = set_where (has_server_id id) (with_free mb) w.db.servers };
}

-- The free memory in MB, or none after an exception.
abbrev pub free_of : Result NodeStatus → Option ℕ
free_of (ok status) = some ((status.memory_total - status.memory_used) / (1024 * 1024))
free_of (err x) = none

abbrev pub or_zero : Option ℕ → ℕ
or_zero none = 0
or_zero (some n) = n

-- `{node for node in nodes if node is not None}`
abbrev pub given_nodes : List (Option String) → List String
given_nodes [] = []
given_nodes (none ∷ nodes) = given_nodes nodes
given_nodes (some node ∷ nodes) = node ∷ given_nodes nodes

abbrev pub is_in : List String → String → Bool
is_in nodes name = any (str_eq name) nodes

-- `Server.name.in_(allowed_set)`; with an empty set no server has the id -1.
abbrev pub is_allowed : Option (List (Option String)) → String → Bool
is_allowed none name = true
is_allowed (some nodes) name = is_in (given_nodes nodes) name

-- `~Server.name.in_(excluded_set)`, where the set is not empty.
abbrev pub is_excluded : Option (List (Option String)) → String → Bool
is_excluded none name = false
is_excluded (some nodes) name = is_in (given_nodes nodes) name

abbrev pub is_asked : (allowed excluded : Option (List (Option String))) → Server → Bool
is_asked allowed excluded server =
    server.is_active && (is_allowed allowed server.name && not (is_excluded excluded server.name))

abbrev pub is_capable : ℕ → Server → Bool
is_capable required_ram_mb server = leb required_ram_mb server.last_free_ram_mb

-- `max(servers, key=lambda s: s.last_free_ram_mb)`: the first of those with the most.
abbrev pub freer : Server → Server → Server
freer best server = if ltb best.last_free_ram_mb server.last_free_ram_mb then server else best

unfoldable pub freest : Server → List Server → Server
freest best [] = best
freest best (server ∷ servers) = freest (freer best server) servers

module _ {E : Type 0} (p : Platform E) where
  abbrev pub ask_node : Server → Exec (World E) NodeStatus
  ask_node server = do call (p.connect server); call (p.node_status server.name)

  unfoldable pub update_server_stats : Server → World E → Option ℕ × World E
  update_server_stats server w =
      let (reply, w') = ask_node server w in
      (free_of reply, store_free server.id (or_zero (free_of reply)) w')

  -- The loop over the servers, whose objects have the new numbers afterwards.
  unfoldable pub update_all : List Server → World E → List Server × World E
  update_all [] w = ([], w)
  update_all (server ∷ servers) w =
      let (mb, w₁) = update_server_stats server w in
      let (rest, w₂) = update_all servers w₁ in (with_free (or_zero mb) server ∷ rest, w₂)

  abbrev pub pick_best : List Server → Exec (World E) Server
  pick_best [] = http 507 no_capable_server
  pick_best (server ∷ servers) = pure (freest server servers)

  abbrev pub best_of :
      ℕ → (allowed excluded : Option (List (Option String))) → List Server → Exec (World E) Server
  best_of required_ram_mb allowed excluded [] =
      if is_some allowed || is_some excluded
      then http 503 no_requested_server
      else http 500 no_active_server
  best_of required_ram_mb allowed excluded (server ∷ servers) = λ w.
      let (fresh, w') = update_all (server ∷ servers) w in
      pick_best (select (is_capable required_ram_mb) fresh) w'

  unfoldable pub get_best_server :
      ℕ → (allowed excluded : Option (List (Option String))) → Exec (World E) Server
  get_best_server required_ram_mb allowed excluded = do
    servers ← gets (λ (w : World E). w.db.servers.rows)
    best_of required_ram_mb allowed excluded (select (is_asked allowed excluded) servers)
