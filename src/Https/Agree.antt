-- ===== src/Https/Agree.antt =====
-- Sequences of requests to the two handlers of HTTPS routes.
use gsm_sv.Prelude.{
  ℕ, ◌<◌, ◌≤◌, ◌==◌, ◌&&◌, Bool, true, false, Bool-cases, inl, inr, Option, none, some, String,
  str_eq, eq_refl, eq_iff, ==_refl, List, [], ◌∷◌, ◌≡◌, ◌≢◌, refl, ap, ◌∙◌, any, arith, All,
}
use gsm_sv.Exec.{Result, ok, err}
use gsm_sv.Table.{find_first, count_where, drop_where}
use gsm_sv.Table.Laws.{count_where-drop_where-le, All-drop_where}
use gsm_sv.Models.{User, Vm, HttpsRoute, Db, Settings}
use gsm_sv.Platform.World.{World}
use gsm_sv.Auth.{get_vm_with_owner_check}
use gsm_sv.Auth.Access.{OwnBy, owner_check-OwnBy}
use gsm_sv.Vm.Delete.{route_of}
use gsm_sv.Caddy.{CaddyRoute, CaddyApi, delete_route}
use gsm_sv.Caddy.Admin.{IsCaddy}
use gsm_sv.Caddy.Routing.{delete_route-SameFor}
use gsm_sv.Https.{
  HttpsRouteCreate, has_subdomain, has_route_key, add_https_route, remove_route, delete_https_route,
}
use gsm_sv.Https.Added.{AddedBy, add_https_route-AddedBy}
use gsm_sv.Https.Sound.{IsServed, IsSound, saved-IsSound, kept, others_differ}

none_differ :
    (name : String) (rows : List HttpsRoute)
    → count_where (has_subdomain name) rows ≡ 0
    → any (has_subdomain name) rows ≡ false
none_differ name [] h = refl
none_differ name (r ∷ rows) h = ground (arith, none_differ name rows)

found_counts :
    {A : Type 0} (p q : A → Bool) (xs : List A) (a : A)
    → find_first p xs ≡ some a
    → q a ≡ true
    → 1 ≤ count_where q xs
found_counts p q [] a h t = absurd cc
found_counts p q (x ∷ xs) a h t = elim (Bool-cases (p x)) [
  | inl e ↦
      let same : some x ≡ some a = rw e at h in
      let passes : q x ≡ true = cc in rw passes (omega arith)
  | inr e ↦ let rest = found_counts p q xs a (rw e at h) t in omega (arith, rest)
]

-- The deleted row was the only one of its subdomain.
rest_differs :
    (p : HttpsRoute → Bool) (rows : List HttpsRoute) (r : HttpsRoute)
    → find_first p rows ≡ some r
    → count_where (has_subdomain r.subdomain) rows ≤ 1
    → All (λ (x : HttpsRoute). x.subdomain ≢ r.subdomain) (drop_where (has_route_key r.id) rows)
rest_differs p [] r h one = tt
rest_differs p (x ∷ rows) r h one = elim (Bool-cases (p x)) [
  | inl e ↦
      let same : some x ≡ some r = rw e at h in
      let is : x ≡ r = cc in
      let passes : str_eq x.subdomain r.subdomain ≡ true = rw is (eq_refl r.subdomain) in
      let no_more : count_where (has_subdomain r.subdomain) rows ≡ 0 =
        omega (arith, rw passes at one) in
      let others = others_differ r.subdomain rows (none_differ r.subdomain rows no_more) in
      let kept_others =
        All-drop_where (λ (x : HttpsRoute). x.subdomain ≢ r.subdomain) (has_route_key r.id) rows
          others in
      elim (Bool-cases (x.id == r.id)) [
        | inl same_key ↦ rw same_key kept_others
        | inr other_key ↦ absurd (cc (ap (λ (r : HttpsRoute). r.id) is, other_key, ==_refl r.id))
      ]
  | inr e ↦
      let found : find_first p rows ≡ some r = rw e at h in
      let counted = found_counts p (has_subdomain r.subdomain) rows r found (eq_refl r.subdomain) in
      let few : count_where (has_subdomain r.subdomain) rows ≤ 1 = omega (arith, one) in
      let rest = rest_differs p rows r found few in
      elim (Bool-cases (str_eq x.subdomain r.subdomain)) [
        | inl same ↦ absurd (omega (arith, rw same at one, counted))
        | inr other ↦ elim (Bool-cases (x.id == r.id)) [
          | inl same_key ↦ rw same_key rest
          | inr other_key ↦
              rw other_key (λ same. absurd (cc ((eq_iff x.subdomain r.subdomain).1 same)), rest)
        ]
      ]
]

module _ (matches : ℕ → String → Bool) {E : Type 0} (api : CaddyApi E)
    (routes : E → List CaddyRoute) (caddy : IsCaddy api routes) (cfg : Settings) where
  -- The state after the row and its route are gone.
  removed-IsSound :
      (w : World E) (p : HttpsRoute → Bool) (r : HttpsRoute)
      → IsSound matches api routes caddy cfg w
      → find_first p w.db.https_routes.rows ≡ some r
      → IsSound matches api routes caddy cfg
          (remove_route api cfg r.id (record w { env = (delete_route api r.subdomain w.env).1 }))
  removed-IsSound w p r s found = record {
    one = λ name.
        let fewer =
          count_where-drop_where-le (has_route_key r.id) (has_subdomain name)
            w.db.https_routes.rows in
        omega (arith, fewer, s.one name);
    few = λ id.
        let fewer =
          count_where-drop_where-le (has_route_key r.id) (route_of id) w.db.https_routes.rows in
        omega (arith, fewer, s.few id);
    keys =
        All-drop_where (λ (x : HttpsRoute). x.id < w.db.https_routes.next_id) (has_route_key r.id)
          w.db.https_routes.rows s.keys;
    served =
        kept matches api routes caddy cfg w s r.subdomain
          (routes (delete_route api r.subdomain w.env).1)
          (delete_route-SameFor matches api routes caddy r.subdomain w.env)
          (drop_where (has_route_key r.id) w.db.https_routes.rows)
          (rest_differs p w.db.https_routes.rows r found (s.one r.subdomain))
          (All-drop_where (IsServed matches api routes caddy cfg (routes w.env))
            (has_route_key r.id) w.db.https_routes.rows s.served);
  }

  delete-IsSound :
      (node : String) (vmid route_id : ℕ) (u : User) (w : World E)
      → IsSound matches api routes caddy cfg w
      → IsSound matches api routes caddy cfg (delete_https_route api cfg node vmid route_id u w).1
  unfolding delete_https_route
  delete-IsSound node vmid route_id u w s =
      found (get_vm_with_owner_check vmid u (some node) w.db) refl
        (owner_check-OwnBy vmid u (some node) w.db)
    where
      routed :
          (vm : Vm)
          → get_vm_with_owner_check vmid u (some node) w.db ≡ (ok vm, w.db)
          → (o : Option HttpsRoute)
          → find_first
              (λ (r : HttpsRoute). r.id == route_id && r.vm_id == vm.id)
              w.db.https_routes.rows
            ≡ o
          → IsSound matches api routes caddy cfg
              (delete_https_route api cfg node vmid route_id u w).1
      routed vm h none e = rw (h, e) s
      routed vm h (some r) e =
          rw (h, e)
            (removed-IsSound w (λ (r : HttpsRoute). r.id == route_id && r.vm_id == vm.id) r s e)

      found :
          (t : Result Vm × Db)
          → get_vm_with_owner_check vmid u (some node) w.db ≡ t
          → OwnBy vmid u (some node) w.db t
          → IsSound matches api routes caddy cfg
              (delete_https_route api cfg node vmid route_id u w).1
      found (err x, db') h same = rw (h, same) s
      found (ok vm, db') h (own, same) =
          routed vm (h ∙ ap (λ d. (ok vm, d)) same)
            (find_first (λ (r : HttpsRoute). r.id == route_id && r.vm_id == vm.id)
              w.db.https_routes.rows)
            refl

  add-IsSound :
      (node : String) (vmid : ℕ) (body : HttpsRouteCreate) (u : User) (w : World E)
      → IsSound matches api routes caddy cfg w
      → IsSound matches api routes caddy cfg (add_https_route api cfg node vmid body u w).1
  add-IsSound node vmid body u w s =
      go (add_https_route api cfg node vmid body u w)
        (add_https_route-AddedBy api cfg node vmid body u w)
    where
      go :
          (t : Result HttpsRoute × World E)
          → AddedBy api cfg node vmid body u w t
          → IsSound matches api routes caddy cfg t.1
      go (ok row, w') a = saved-IsSound matches api routes caddy cfg w s node vmid body u row w' a
      go (err x, w') same = rw same s

-- The states that the two handlers can reach.
pub data Reachable {E : Type 0} (api : CaddyApi E) (cfg : Settings) (w₀ : World E)
    : World E → Type 0 where
  start : Reachable api cfg w₀ w₀
  after_add :
      {w : World E} (node : String) (vmid : ℕ) (body : HttpsRouteCreate) (u : User)
      → Reachable api cfg w₀ w
      → Reachable api cfg w₀ (add_https_route api cfg node vmid body u w).1
  after_delete :
      {w : World E} (node : String) (vmid route_id : ℕ) (u : User)
      → Reachable api cfg w₀ w
      → Reachable api cfg w₀ (delete_https_route api cfg node vmid route_id u w).1

module _ (matches : ℕ → String → Bool) {E : Type 0} (api : CaddyApi E)
    (routes : E → List CaddyRoute) (caddy : IsCaddy api routes) (cfg : Settings) where
  -- From a sound state, as one without routes is, and with an admin API as `IsCaddy` says, every
  -- sequence of requests to `add_https_route` and `delete_https_route` leads to a sound state: a
  -- subdomain has one row at most, a VM has no more rows than the limit, keys are below the sequence,
  -- and each row marked as synced is served by Caddy through its own route.
  pub reachable-IsSound :
      {w₀ w : World E}
      → IsSound matches api routes caddy cfg w₀
      → Reachable api cfg w₀ w
      → IsSound matches api routes caddy cfg w
  reachable-IsSound s start = s
  reachable-IsSound s (after_add {w = w} node vmid body u reached) =
      add-IsSound matches api routes caddy cfg node vmid body u w (reachable-IsSound s reached)
  reachable-IsSound s (after_delete {w = w} node vmid route_id u reached) =
      delete-IsSound matches api routes caddy cfg node vmid route_id u w
        (reachable-IsSound s reached)
