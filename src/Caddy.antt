-- ===== src/Caddy.antt =====
-- services/caddy_service.py: the list of routes of the reverse proxy, kept through its admin API.
pub mod Admin
pub mod Routing
pub mod RoundTrip
pub mod Subdomain
use gsm_sv.Prelude.{
  ℕ, ◌==◌, Bool, true, false, not, ◌&&◌, ◌||◌, Option, String, str_eq, List, [], ◌∷◌, leb, ltb,
  if◌then◌else◌,
}
use gsm_sv.Exec.{Result, ok, err}
use gsm_sv.Table.{find_first}
use gsm_sv.Models.{Ip}
use gsm_sv.Vm.Delete.{Caddy}

-- One entry of `/config/apps/http/servers/srv0/routes`. A `proxy` is what `add_route` writes: its
-- "@id" is "route-<subdomain>", it matches the host of the subdomain, and it is terminal. A `foreign`
-- one is the operator's, told apart by a number: the catch-all of the domain is one.
pub data CaddyRoute : Type 0 where
  proxy : String → Ip → ℕ → CaddyRoute
  foreign : ℕ → CaddyRoute

-- The requests to the admin API, the answers with an error status of the last two as exceptions.
pub record CaddyApi (E : Type 0) : Type 0 where
  -- DELETE /id/route-<subdomain>: the status code.
  pub delete_id : String → E → Result ℕ × E
  pub get_routes : E → Result (List CaddyRoute) × E
  pub patch_routes : List CaddyRoute → E → Result (Unit {0}) × E

-- `_route_id(subdomain)` is the entry's "@id".
abbrev pub has_route_id : String → CaddyRoute → Bool
has_route_id name (proxy s ip port) = str_eq s name
has_route_id name (foreign n) = false

module _ {E : Type 0} (api : CaddyApi E) where
  -- 400 says that there is no such route; another status from 400 to 599 raises.
  abbrev pub delete_answer : Result ℕ → Bool
  delete_answer (ok status) = status == 400 || not (leb 400 status && ltb status 600)
  delete_answer (err x) = false

  -- `delete_route`
  unfoldable pub delete_route : String → E → Bool × E
  delete_route name e = let (r, e') = api.delete_id name e in (delete_answer r, e')

  abbrev pub patch_answer : Result (Unit {0}) × E → Bool × E
  patch_answer (ok x, e) = (true, e)
  patch_answer (err x, e) = (false, e)

  -- The new route goes in front, so that no catch-all hides it.
  abbrev pub put_first : CaddyRoute → Result (List CaddyRoute) × E → Bool × E
  put_first route (ok routes, e) = patch_answer (api.patch_routes (route ∷ routes) e)
  put_first route (err x, e) = (false, e)

  -- `add_route`
  unfoldable pub add_route : String → Ip → ℕ → E → Bool × E
  unfolding delete_route
  add_route name ip port e = put_first (proxy name ip port) (api.get_routes (delete_route name e).1)

  -- What the deletion of a VM uses of this service.
  abbrev pub caddy_service : Caddy E
  unfolding delete_route
  caddy_service = record { delete_route = delete_route }

-- Which foreign routes match the host of a subdomain.
module _ (matches : ℕ → String → Bool) where
  abbrev pub handles : String → CaddyRoute → Bool
  handles name (proxy s ip port) = str_eq s name
  handles name (foreign n) = matches n name

  -- The route that answers for a subdomain: the first that matches.
  abbrev pub serve : List CaddyRoute → String → Option CaddyRoute
  serve routes name = find_first (handles name) routes
