-- ===== src/Caddy/RoundTrip.antt =====
-- Adding a route and deleting it again.
use gsm_sv.Prelude.{ℕ, Bool, true, false, ◌≡◌, ap, ◌∙◌, subst, inl, inr, String, eq_refl, List, ◌∷◌}
use gsm_sv.Exec.{Result, ok, err}
use gsm_sv.Table.{count_where, drop_where}
use gsm_sv.Table.Laws.{drop_where_none}
use gsm_sv.Models.{Ip}
use gsm_sv.Caddy.{
  CaddyRoute, proxy, CaddyApi, has_route_id, delete_answer, delete_route, patch_answer, put_first,
  add_route,
}
use gsm_sv.Caddy.Admin.{DeletedBy, PatchedBy, ReadBy, IsCaddy}

module _ {E : Type 0} (api : CaddyApi E) (routes : E → List CaddyRoute)
    (caddy : IsCaddy api routes) where
  nothing_deleted :
      (name : String) (before after : List CaddyRoute) (b : Bool)
      → count_where (has_route_id name) before ≡ 0
      → DeletedBy name before after b
      → after ≡ before
  nothing_deleted name before after true absent e =
      e ∙ drop_where_none (has_route_id name) before absent
  nothing_deleted name before after false absent (inl e) = e
  nothing_deleted name before after false absent (inr e) =
      e ∙ drop_where_none (has_route_id name) before absent

  -- The list after an addition that answers True.
  in_front :
      (name : String) (ip : Ip) (port : ℕ) (e : E)
      → (t : Result (List CaddyRoute) × E) → ReadBy (routes e) t.0
      → (put_first api (proxy name ip port) t).0 ≡ true
      → routes (put_first api (proxy name ip port) t).1 ≡ proxy name ip port ∷ routes e
  in_front name ip port e (err x, e') read h = absurd cc
  in_front name ip port e (ok found, e') read h =
      sent (api.patch_routes (proxy name ip port ∷ found) e')
        (caddy.patched (proxy name ip port ∷ found) e') h
      ∙ ap (λ rs. proxy name ip port ∷ rs) read
    where
      sent :
          (t : Result (Unit {0}) × E)
          → PatchedBy (proxy name ip port ∷ found) (routes e') (routes t.1) t.0
          → (patch_answer api t).0 ≡ true
          → routes (patch_answer api t).1 ≡ proxy name ip port ∷ found
      sent (ok x, e'') p h = p
      sent (err x, e'') p h = absurd cc

  -- Of a subdomain that has no route, where both calls answer True, `delete_route` after `add_route`
  -- gives back the list of routes as it was, in its order.
  pub delete_route-add_route :
      (name : String) (ip : Ip) (port : ℕ) (e : E)
      → count_where (has_route_id name) (routes e) ≡ 0
      → (add_route api name ip port e).0 ≡ true
      → (delete_route api name (add_route api name ip port e).1).0 ≡ true
      → routes (delete_route api name (add_route api name ip port e).1).1 ≡ routes e
  unfolding add_route delete_route
  delete_route-add_route name ip port e absent added removed =
      let e₁ = (delete_route api name e).1 in
      let e₂ = (add_route api name ip port e).1 in
      let front = in_front name ip port e₁ (api.get_routes e₁) (caddy.got e₁) added in
      let before : routes e₁ ≡ routes e =
        nothing_deleted name (routes e) (routes e₁) (delete_answer api (api.delete_id name e).0)
          absent (caddy.deleted name e) in
      let gone : routes (api.delete_id name e₂).1 ≡ drop_where (has_route_id name) (routes e₂) =
        subst (DeletedBy name (routes e₂) (routes (api.delete_id name e₂).1)) removed
          (caddy.deleted name e₂) in
      let dropped : drop_where (has_route_id name) (proxy name ip port ∷ routes e) ≡ routes e =
        rw (eq_refl name) (drop_where_none (has_route_id name) (routes e) absent) in
      gone
      ∙ ap (drop_where (has_route_id name)) (front ∙ ap (λ rs. proxy name ip port ∷ rs) before)
      ∙ dropped
