-- ===== src/Tests/OnRoutes.antt =====
-- Subdomains of the VM of the small installation, on a reverse proxy that has a catch-all.
use gsm_sv.Prelude.{ℕ, Bool, true, false, String, List, [], ◌∷◌, ◌≡◌, ◌↔◌, refl, arith}
use gsm_sv.Exec.{ok}
use gsm_sv.Table.{drop_where}
use gsm_sv.Models.{Ip}
use gsm_sv.Platform.World.{World}
use gsm_sv.Caddy.{CaddyRoute, foreign, CaddyApi, has_route_id, add_route, delete_route}
use gsm_sv.Caddy.Admin.{IsCaddy}
use gsm_sv.Caddy.Routing.{Assigned, add_route-Assigned}
use gsm_sv.Caddy.RoundTrip.{delete_route-add_route}
use gsm_sv.Caddy.Subdomain.{
  IsHost, chomp, is_reserved, validate_subdomain, validate_subdomain-exact,
}
use gsm_sv.Https.{HttpsRouteCreate, add_https_route, delete_https_route}
use gsm_sv.Https.Added.{AddedBy, add_https_route-AddedBy}
use gsm_sv.Https.Sound.{IsSound}
use gsm_sv.Https.Agree.{start, after_add, after_delete, reachable-IsSound}
use gsm_sv.Tests.{settings, student, tables}

-- An admin API that never fails.
abbrev list_api : CaddyApi (List CaddyRoute)
list_api = record {
  delete_id = λ name e. (ok 200, drop_where (has_route_id name) e);
  get_routes = λ e. (ok e, e);
  patch_routes = λ sent e. (ok tt, sent);
}

abbrev same_list : List CaddyRoute → List CaddyRoute
same_list e = e

list_api-IsCaddy : IsCaddy list_api same_list
list_api-IsCaddy = record {
  deleted = λ name e. refl;
  got = λ e. refl;
  got_only = λ e. refl;
  patched = λ sent e. refl;
}

-- The catch-all matches every subdomain.
abbrev catch_all : ℕ → String → Bool
catch_all n name = true

abbrev proxied : World (List CaddyRoute)
proxied = record { db = tables; queue = []; env = foreign 0 ∷ [] }

abbrev host : Ip
host = record { a = 10; b = 0; c = 0; d = 10 }

abbrev blog : HttpsRouteCreate
blog = record { subdomain = "blog"; internal_port = 8080 }

add_route-Assigned_example :
    Assigned catch_all list_api same_list list_api-IsCaddy "blog" host 8080
      (foreign 0 ∷ [])
      (add_route list_api "blog" host 8080 (foreign 0 ∷ [])).0
      (add_route list_api "blog" host 8080 (foreign 0 ∷ [])).1
add_route-Assigned_example =
    add_route-Assigned catch_all list_api same_list list_api-IsCaddy "blog" host 8080
      (foreign 0 ∷ [])

delete_route-add_route_example :
    same_list
      (delete_route list_api "blog" (add_route list_api "blog" host 8080 (foreign 0 ∷ [])).1).1
    ≡ foreign 0 ∷ []
unfolding add_route delete_route
delete_route-add_route_example =
    delete_route-add_route list_api same_list list_api-IsCaddy "blog" host 8080 (foreign 0 ∷ [])
      refl refl refl

add_https_route-AddedBy_example :
    AddedBy list_api settings "node1" 100 blog student proxied
      (add_https_route list_api settings "node1" 100 blog student proxied)
add_https_route-AddedBy_example =
    add_https_route-AddedBy list_api settings "node1" 100 blog student proxied

proxied-IsSound : IsSound catch_all list_api same_list list_api-IsCaddy settings proxied
proxied-IsSound = record {
  one = λ name. omega arith;
  few = λ id. omega arith;
  keys = tt;
  served = tt;
}

abbrev with_blog : World (List CaddyRoute)
with_blog = (add_https_route list_api settings "node1" 100 blog student proxied).1

reachable-IsSound_example :
    IsSound catch_all list_api same_list list_api-IsCaddy settings
      (delete_https_route list_api settings "node1" 100 1 student with_blog).1
reachable-IsSound_example =
    reachable-IsSound catch_all list_api same_list list_api-IsCaddy settings proxied-IsSound
      (after_delete "node1" 100 1 student (after_add "node1" 100 blog student start))

-- A newline at the end is let through.
validate_subdomain-exact_example :
    (validate_subdomain (98 ∷ 10 ∷ []) ≡ ok (98 ∷ 10 ∷ []))
    ↔ (IsHost (chomp (98 ∷ 10 ∷ [])) × (is_reserved (98 ∷ 10 ∷ []) ≡ false))
validate_subdomain-exact_example = validate_subdomain-exact (98 ∷ 10 ∷ [])
