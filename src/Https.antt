-- ===== src/Https.antt =====
-- HTTPS subdomains of VMs (api/routes/https_gateway.py, schemas/https_schema.py).
pub mod Added
pub mod Sound
pub mod Agree
use gsm_sv.Prelude.{
  ℕ, ◌==◌, Bool, true, false, not, ◌&&◌, Option, none, some, String, str_eq, List, any, leb,
  if◌then◌else◌,
}
use gsm_sv.Exec.{
  Exec, Result, ok, http_exception, pure, gets, modify, or_raise, reject_if, ◌>>=◌, ◌>>◌,
  no_internal_ip, too_many_routes, subdomain_taken, route_not_found,
}
use gsm_sv.Table.{find_first, select, count_where, insert, delete_where, set_where}
use gsm_sv.Models.{User, Vm, HttpsRoute, Db, Ip, Settings}
use gsm_sv.Platform.World.{World, on_db}
use gsm_sv.Auth.{get_vm_with_owner_check}
use gsm_sv.Vm.Delete.{route_of}
use gsm_sv.Caddy.{CaddyApi, add_route, delete_route}

-- A validated request.
pub record HttpsRouteCreate : Type 0 where
  pub subdomain : String
  pub internal_port : ℕ

abbrev pub has_subdomain : String → HttpsRoute → Bool
has_subdomain name r = str_eq r.subdomain name

abbrev pub has_route_key : ℕ → HttpsRoute → Bool
has_route_key id r = r.id == id

abbrev pub route_row : Vm → HttpsRouteCreate → ℕ → HttpsRoute
route_row vm body id = record {
  id = id;
  vm_id = vm.id;
  subdomain = body.subdomain;
  internal_port = body.internal_port;
  caddy_synced = false;
}

abbrev pub with_synced : Bool → HttpsRoute → HttpsRoute
with_synced synced r = record r { caddy_synced = synced }

-- `get_https_routes`: the rows; the full domain adds the domain of the settings to the subdomain.
unfoldable pub get_https_routes : String → ℕ → User → Exec Db (ℕ × List HttpsRoute)
get_https_routes node vmid u = do
  vm ← get_vm_with_owner_check vmid u (some node)
  routes ← gets (λ (db : Db). db.https_routes.rows)
  pure (vmid, select (route_of vm.id) routes)

module _ {E : Type 0} (api : CaddyApi E) (cfg : Settings) where
  abbrev pub save_route : Vm → HttpsRouteCreate → World E → World E
  save_route vm body w = record w {
    db = record w.db { https_routes = insert (route_row vm body) w.db.https_routes };
  }

  -- A call of the service, which answers and never raises.
  abbrev pub ask_caddy : (E → Bool × E) → Exec (World E) Bool
  ask_caddy f w = let (b, e) = f w.env in (ok b, record w { env = e })

  abbrev pub mark_synced : ℕ → Bool → World E → World E
  mark_synced id false w = w
  mark_synced id true w = record w {
    db = record w.db {
      https_routes = set_where (has_route_key id) (with_synced true) w.db.https_routes;
    };
  }

  -- `add_https_route`: the saved row. The commit refuses a subdomain that is in use, and Caddy hears
  -- of the route after it.
  unfoldable pub add_https_route : String → ℕ → HttpsRouteCreate → User → Exec (World E) HttpsRoute
  add_https_route node vmid body u = do
    vm ← on_db (get_vm_with_owner_check vmid u (some node))
    ip ← or_raise vm.internal_ip (http_exception 400 no_internal_ip)
    routes ← gets (λ (w : World E). w.db.https_routes)
    reject_if (leb cfg.max_https_routes_per_vm (count_where (route_of vm.id) routes.rows)) 409
        too_many_routes
    reject_if (any (has_subdomain body.subdomain) routes.rows) 409 subdomain_taken
    modify (save_route vm body)
    synced ← ask_caddy (add_route api body.subdomain ip body.internal_port)
    modify (mark_synced routes.next_id synced)
    pure (with_synced synced (route_row vm body routes.next_id))

  abbrev pub remove_route : ℕ → World E → World E
  remove_route id w = record w {
    db = record w.db { https_routes = delete_where (has_route_key id) w.db.https_routes };
  }

  -- `delete_https_route`: the row goes whatever Caddy answers.
  unfoldable pub delete_https_route : String → ℕ → ℕ → User → Exec (World E) (Unit {0})
  delete_https_route node vmid route_id u = do
    vm ← on_db (get_vm_with_owner_check vmid u (some node))
    routes ← gets (λ (w : World E). w.db.https_routes)
    route ←
        or_raise (find_first (λ (r : HttpsRoute). r.id == route_id && r.vm_id == vm.id) routes.rows)
          (http_exception 404 route_not_found)
    answer ← ask_caddy (delete_route api route.subdomain)
    modify (remove_route route.id)
