-- ===== src/Https/Sound.antt =====
-- The table of routes beside the list of the reverse proxy, under the two handlers.
use gsm_sv.Prelude.{
  ℕ, suc, ◌<◌, ◌≤◌, ◌==◌, ==_refl, ==_iff, Bool, true, false, Bool-cases, inl, inr, some, String,
  str_eq, eq_iff, List, [], ◌∷◌, ◌++◌, ◌≡◌, ◌≢◌, refl, ap, ◌∙◌, subst, any, arith, All, All-append,
  All-map, All-zip,
}
use gsm_sv.Table.{count_where, update_where}
use gsm_sv.Table.Laws.{count_where-append, count_where-new}
use gsm_sv.Models.{User, Vm, HttpsRoute, Ip, Settings}
use gsm_sv.Platform.World.{World}
use gsm_sv.Vm.Delete.{route_of}
use gsm_sv.Caddy.{CaddyRoute, proxy, CaddyApi, add_route, serve}
use gsm_sv.Caddy.Admin.{IsCaddy}
use gsm_sv.Caddy.Routing.{Assigned, SameFor, add_route-Assigned, same_of, served_of}
use gsm_sv.Https.{
  HttpsRouteCreate, has_subdomain, has_route_key, route_row, with_synced, save_route, mark_synced,
}
use gsm_sv.Https.Added.{Added}

-- Every row with a smaller key is left alone, and the new row is marked.
mark_new :
    (vm : Vm) (body : HttpsRouteCreate) (id : ℕ) (rows : List HttpsRoute)
    → All (λ (r : HttpsRoute). r.id < id) rows
    → update_where (has_route_key id) (with_synced true) (rows ++ route_row vm body id ∷ [])
      ≡ rows ++ with_synced true (route_row vm body id) ∷ []
mark_new vm body id [] h = rw (==_refl id) refl
mark_new vm body id (r ∷ rows) h =
    let other : (r.id == id) ≡ false = ground (arith, h.0) in
    rw other (ap (λ rs. r ∷ rs) (mark_new vm body id rows h.1))

pub others_differ :
    (name : String) (rows : List HttpsRoute)
    → any (has_subdomain name) rows ≡ false
    → All (λ (r : HttpsRoute). r.subdomain ≢ name) rows
others_differ name [] h = tt
others_differ name (r ∷ rows) h = elim (Bool-cases (str_eq r.subdomain name)) [
  | inl e ↦ absurd (cc (rw e at h))
  | inr e ↦
      (λ same. absurd (cc ((eq_iff r.subdomain name).1 same)), others_differ name rows (rw e at h))
]

module _ (matches : ℕ → String → Bool) {E : Type 0} (api : CaddyApi E)
    (routes : E → List CaddyRoute) (caddy : IsCaddy api routes) (cfg : Settings) where
  -- A row marked as synced is served by its own route.
  abbrev pub IsServed : List CaddyRoute → HttpsRoute → Type 0
  IsServed entries r =
      r.caddy_synced ≡ true
      → (ip : Ip) × (serve matches entries r.subdomain
          ≡ some (proxy r.subdomain ip r.internal_port))

  pub record IsSound (w : World E) : Type 0 where
    pub one : (name : String) → count_where (has_subdomain name) w.db.https_routes.rows ≤ 1
    pub few :
        (id : ℕ) → count_where (route_of id) w.db.https_routes.rows ≤ cfg.max_https_routes_per_vm
    pub keys : All (λ (r : HttpsRoute). r.id < w.db.https_routes.next_id) w.db.https_routes.rows
    pub served : All (IsServed (routes w.env)) w.db.https_routes.rows

  module _ (w : World E) (s : IsSound w) where
    -- A row of another subdomain does not notice.
    pub kept :
        (name : String) (after : List CaddyRoute)
        → SameFor matches name (routes w.env) after
        → (rows : List HttpsRoute) → All (λ (r : HttpsRoute). r.subdomain ≢ name) rows
        → All (IsServed (routes w.env)) rows
        → All (IsServed after) rows
    kept name after same = All-zip (λ r other is_served synced.
        let (ip, at) = is_served synced in (ip, same r.subdomain other ∙ at))

    module _ (vm : Vm) (body : HttpsRouteCreate) (ip : Ip) (synced : Bool)
        (room : count_where (route_of vm.id) w.db.https_routes.rows < cfg.max_https_routes_per_vm)
        (unused : any (has_subdomain body.subdomain) w.db.https_routes.rows ≡ false) where
      one_new :
          (name : String)
          → count_where (has_subdomain name) (
              w.db.https_routes.rows
              ++ with_synced synced (route_row vm body w.db.https_routes.next_id) ∷ [])
            ≤ 1
      one_new name =
          count_where-new (has_subdomain name) (λ id. with_synced synced (route_row vm body id))
            w.db.https_routes (s.one name)
            (λ e.
              subst (λ n. any (has_subdomain n) w.db.https_routes.rows ≡ false)
                ((eq_iff body.subdomain name).0 e) unused)

      few_new :
          (id : ℕ)
          → count_where (route_of id) (
              w.db.https_routes.rows
              ++ with_synced synced (route_row vm body w.db.https_routes.next_id) ∷ [])
            ≤ cfg.max_https_routes_per_vm
      few_new id =
          let appended =
            count_where-append (route_of id) w.db.https_routes.rows
              (with_synced synced (route_row vm body w.db.https_routes.next_id) ∷ []) in
          elim (Bool-cases (vm.id == id)) [
            | inl e ↦
                let same =
                  subst
                    (λ n.
                      count_where (route_of n) w.db.https_routes.rows < cfg.max_https_routes_per_vm)
                    ((==_iff vm.id id).0 e) room in
                omega (arith, rw e at appended, same)
            | inr e ↦ omega (arith, rw e at appended, s.few id)
          ]

      keys_new :
          All
            (λ (r : HttpsRoute). r.id < suc w.db.https_routes.next_id)
            (w.db.https_routes.rows
              ++ with_synced synced (route_row vm body w.db.https_routes.next_id) ∷ [])
      keys_new =
          All-append (λ (r : HttpsRoute). r.id < suc w.db.https_routes.next_id)
            w.db.https_routes.rows _
            (All-map (λ r h. omega (arith, h)) w.db.https_routes.rows s.keys) (omega arith, tt)

      IsServed-new :
          (after : List CaddyRoute)
          → Assigned matches api routes caddy body.subdomain ip body.internal_port
              (routes w.env)
              synced
              after
          → All (IsServed after) (
              w.db.https_routes.rows
              ++ with_synced synced (route_row vm body w.db.https_routes.next_id) ∷ [])
      IsServed-new after a =
          All-append (IsServed after) w.db.https_routes.rows _
            (kept body.subdomain after
              (same_of matches api routes caddy body.subdomain ip body.internal_port (routes w.env)
                after synced a)
              w.db.https_routes.rows (others_differ body.subdomain w.db.https_routes.rows unused)
              s.served)
            (
              λ h. (
                ip,
                served_of matches api routes caddy body.subdomain ip body.internal_port
                    (routes w.env) after synced a h,
              ),
              tt,
            )

    -- The state after a saved request.
    pub saved-IsSound :
        (node : String) (vmid : ℕ) (body : HttpsRouteCreate) (u : User) (row : HttpsRoute)
        (w' : World E)
        → Added api cfg node vmid body u w row w'
        → IsSound w'
    saved-IsSound node vmid body u row w' a = rw a.stored (
        go a.synced (
          subst
            (λ b.
              Assigned matches api routes caddy body.subdomain a.ip body.internal_port
                (routes w.env) b
                (routes (add_route api body.subdomain a.ip body.internal_port w.env).1))
            a.answered
            (add_route-Assigned matches api routes caddy body.subdomain a.ip body.internal_port
              w.env)))
      where
        after : World E
        after = record (save_route api cfg a.vm body w) {
          env = (add_route api body.subdomain a.ip body.internal_port w.env).1;
        }

        go :
            (b : Bool)
            → Assigned matches api routes caddy body.subdomain a.ip body.internal_port
                (routes w.env)
                b
                (routes (add_route api body.subdomain a.ip body.internal_port w.env).1)
            → IsSound (mark_synced api cfg w.db.https_routes.next_id b after)
        go false assigned = record {
          one = one_new a.vm body a.ip false a.room a.unused;
          few = few_new a.vm body a.ip false a.room a.unused;
          keys = keys_new a.vm body a.ip false a.room a.unused;
          served = IsServed-new a.vm body a.ip false a.room a.unused _ assigned;
        }
        go true assigned =
            let marked =
              mark_new a.vm body w.db.https_routes.next_id w.db.https_routes.rows s.keys in
            record {
              one = rw marked (one_new a.vm body a.ip true a.room a.unused);
              few = rw marked (few_new a.vm body a.ip true a.room a.unused);
              keys = rw marked (keys_new a.vm body a.ip true a.room a.unused);
              served = rw marked (IsServed-new a.vm body a.ip true a.room a.unused _ assigned);
            }
