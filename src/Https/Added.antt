-- ===== src/Https/Added.antt =====
-- What adding and deleting an HTTPS route do.
use gsm_sv.Prelude.{
  ℕ, ◌<◌, Bool, false, Bool-cases, inl, inr, Option, none, some, String, ◌≡◌, refl, ap, ◌∙◌, any,
  leb, leb_false→lt,
}
use gsm_sv.Exec.{Result, ok, err}
use gsm_sv.Table.{count_where}
use gsm_sv.Models.{User, Vm, HttpsRoute, Db, Ip, Settings}
use gsm_sv.Platform.World.{World}
use gsm_sv.Auth.{get_vm_with_owner_check}
use gsm_sv.Auth.Access.{Own, OwnBy, owner_check-OwnBy}
use gsm_sv.Vm.Delete.{route_of}
use gsm_sv.Caddy.{CaddyApi, add_route}
use gsm_sv.Https.{
  HttpsRouteCreate, has_subdomain, route_row, with_synced, save_route, mark_synced, add_https_route,
}

module _ {E : Type 0} (api : CaddyApi E) (cfg : Settings) (node : String) (vmid : ℕ)
    (body : HttpsRouteCreate) (u : User) (w : World E) where
  -- An accepted request.
  pub record Added (row : HttpsRoute) (w' : World E) : Type 0 where
    pub vm : Vm
    pub own : Own vmid u (some node) w.db vm
    pub ip : Ip
    pub has_ip : vm.internal_ip ≡ some ip
    pub room : count_where (route_of vm.id) w.db.https_routes.rows < cfg.max_https_routes_per_vm
    pub unused : any (has_subdomain body.subdomain) w.db.https_routes.rows ≡ false
    pub synced : Bool
    pub answered : (add_route api body.subdomain ip body.internal_port w.env).0 ≡ synced
    pub is_its : row ≡ with_synced synced (route_row vm body w.db.https_routes.next_id)
    pub stored :
        w'
        ≡ mark_synced api cfg w.db.https_routes.next_id synced
            (record (save_route api cfg vm body w) {
              env = (add_route api body.subdomain ip body.internal_port w.env).1;
            })

  abbrev pub AddedBy : Result HttpsRoute × World E → Type 0
  AddedBy (ok row, w') = Added row w'
  AddedBy (err x, w') = w' ≡ w

  -- `add_https_route` saves a row only for a VM of the user's own (an administrator: any VM) that has
  -- an address and fewer routes than the limit, and only if no row has the subdomain. The row is marked
  -- as synced exactly if Caddy answered so. A refused request changes nothing, and Caddy hears nothing.
  pub add_https_route-AddedBy : AddedBy (add_https_route api cfg node vmid body u w)
  unfolding add_https_route
  add_https_route-AddedBy =
      found (get_vm_with_owner_check vmid u (some node) w.db) refl
        (owner_check-OwnBy vmid u (some node) w.db)
    where
      saved :
          (vm : Vm) (ip : Ip)
          → get_vm_with_owner_check vmid u (some node) w.db ≡ (ok vm, w.db)
          → Own vmid u (some node) w.db vm
          → vm.internal_ip ≡ some ip
          → leb cfg.max_https_routes_per_vm (count_where (route_of vm.id) w.db.https_routes.rows)
            ≡ false
          → any (has_subdomain body.subdomain) w.db.https_routes.rows ≡ false
          → AddedBy (add_https_route api cfg node vmid body u w)
      saved vm ip h own has_ip room unused =
          rw (h, has_ip, room, unused)
            (record {
              vm = vm;
              own = own;
              ip = ip;
              has_ip = has_ip;
              room = leb_false→lt cfg.max_https_routes_per_vm _ room;
              unused = unused;
              synced = (add_route api body.subdomain ip body.internal_port w.env).0;
              answered = refl;
              is_its = refl;
              stored = refl;
            })

      addressed :
          (vm : Vm)
          → get_vm_with_owner_check vmid u (some node) w.db ≡ (ok vm, w.db)
          → Own vmid u (some node) w.db vm
          → (o : Option Ip) → vm.internal_ip ≡ o
          → AddedBy (add_https_route api cfg node vmid body u w)
      addressed vm h own none e = rw (h, e) refl
      addressed vm h own (some ip) e =
          elim (Bool-cases (
            leb cfg.max_https_routes_per_vm
              (count_where (route_of vm.id) w.db.https_routes.rows))) [
                | inl full ↦ rw (h, e, full) refl
                | inr room ↦
                    elim (Bool-cases (any (has_subdomain body.subdomain) w.db.https_routes.rows)) [
                      | inl taken ↦ rw (h, e, room, taken) refl
                      | inr unused ↦ saved vm ip h own e room unused
                    ]
              ]

      found :
          (t : Result Vm × Db)
          → get_vm_with_owner_check vmid u (some node) w.db ≡ t
          → OwnBy vmid u (some node) w.db t
          → AddedBy (add_https_route api cfg node vmid body u w)
      found (err x, db') h same = rw (h, same) refl
      found (ok vm, db') h (own, same) =
          addressed vm (h ∙ ap (λ d. (ok vm, d)) same) own vm.internal_ip refl
