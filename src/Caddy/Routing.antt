-- ===== src/Caddy/Routing.antt =====
-- The list of routes as a table from subdomains to routes.
use gsm_sv.Prelude.{
  ℕ, Bool, true, false, Bool-cases, ◌≡◌, ◌≢◌, refl, sym, ap, ◌∙◌, inl, inr, some, String, str_eq,
  eq_iff, eq_refl, List, [], ◌∷◌, if◌then◌else◌,
}
use gsm_sv.Exec.{Result, ok, err}
use gsm_sv.Table.{drop_where}
use gsm_sv.Models.{Ip}
use gsm_sv.Caddy.{
  CaddyRoute, proxy, foreign, CaddyApi, has_route_id, delete_answer, delete_route, patch_answer,
  put_first, add_route, serve,
}
use gsm_sv.Caddy.Admin.{DeletedBy, PatchedBy, ReadBy, IsCaddy}

module _ (matches : ℕ → String → Bool) where
  -- The other subdomains are answered for as before.
  abbrev pub SameFor : String → List CaddyRoute → List CaddyRoute → Type 0
  SameFor name before after =
      (other : String) → other ≢ name → serve matches after other ≡ serve matches before other

  differs : (s t : String) → s ≢ t → str_eq s t ≡ false
  differs s t h = elim (Bool-cases (str_eq s t)) [
    | inl e ↦ absurd (h ((eq_iff s t).0 e))
    | inr e ↦ e
  ]

  serve-drop :
      (name : String) (routes : List CaddyRoute)
      → SameFor name routes (drop_where (has_route_id name) routes)
  serve-drop name [] other h = refl
  serve-drop name (foreign n ∷ routes) other h =
      ap (λ r. if matches n other then some (foreign n) else r) (serve-drop name routes other h)
  serve-drop name (proxy s ip port ∷ routes) other h = elim (Bool-cases (str_eq s name)) [
    | inl e ↦
        rw (e, differs s other (λ t. h (sym t ∙ (eq_iff s name).0 e)))
          (serve-drop name routes other h)
    | inr e ↦ rw e (
        ap (λ r. if str_eq s other then some (proxy s ip port) else r)
          (serve-drop name routes other h))
  ]

  serve-first :
      (name : String) (ip : Ip) (port : ℕ) (routes : List CaddyRoute)
      → serve matches (proxy name ip port ∷ routes) name ≡ some (proxy name ip port)
  serve-first name ip port routes = rw (eq_refl name) refl

  SameFor-first :
      (name : String) (ip : Ip) (port : ℕ) (routes : List CaddyRoute)
      → SameFor name routes (proxy name ip port ∷ routes)
  SameFor-first name ip port routes other h = rw (differs name other (λ e. h (sym e))) refl

  after_deletion :
      (name : String) (before after : List CaddyRoute) (b : Bool)
      → DeletedBy name before after b
      → SameFor name before after
  after_deletion name before after true e other h = rw e (serve-drop name before other h)
  after_deletion name before after false (inl e) other h = rw e refl
  after_deletion name before after false (inr e) other h = rw e (serve-drop name before other h)

  module _ {E : Type 0} (api : CaddyApi E) (routes : E → List CaddyRoute)
      (caddy : IsCaddy api routes) where
    pub delete_route-SameFor :
        (name : String) (e : E) → SameFor name (routes e) (routes (delete_route api name e).1)
    unfolding delete_route
    delete_route-SameFor name e =
        after_deletion name (routes e) (routes (api.delete_id name e).1)
          (delete_answer api (api.delete_id name e).0) (caddy.deleted name e)

    -- The subdomain is assigned its route, and nothing else changes.
    abbrev pub Assigned : String → Ip → ℕ → List CaddyRoute → Bool → List CaddyRoute → Type 0
    Assigned name ip port before true after =
        (serve matches after name ≡ some (proxy name ip port)) × SameFor name before after
    Assigned name ip port before false after = SameFor name before after

    pub same_of :
        (name : String) (ip : Ip) (port : ℕ) (before after : List CaddyRoute) (b : Bool)
        → Assigned name ip port before b after
        → SameFor name before after
    same_of name ip port before after true a = a.1
    same_of name ip port before after false a = a

    pub served_of :
        (name : String) (ip : Ip) (port : ℕ) (before after : List CaddyRoute) (b : Bool)
        → Assigned name ip port before b after
        → b ≡ true
        → serve matches after name ≡ some (proxy name ip port)
    served_of name ip port before after true a h = a.0
    served_of name ip port before after false a h = absurd cc

    patched :
        (name : String) (ip : Ip) (port : ℕ) (before found : List CaddyRoute) (e : E)
        → SameFor name before found
        → routes e ≡ found
        → (t : Result (Unit {0}) × E)
        → PatchedBy (proxy name ip port ∷ found) (routes e) (routes t.1) t.0
        → Assigned name ip port before (patch_answer api t).0 (routes (patch_answer api t).1)
    patched name ip port before found e same r (ok x, e') h = rw h (
      serve-first name ip port found,
      λ other d. SameFor-first name ip port found other d ∙ same other d,
    )
    patched name ip port before found e same r (err x, e') (inl h) = rw (h, r) same
    patched name ip port before found e same r (err x, e') (inr h) =
        rw h (λ other d. SameFor-first name ip port found other d ∙ same other d)

    put :
        (name : String) (ip : Ip) (port : ℕ) (before : List CaddyRoute) (e : E)
        → SameFor name before (routes e)
        → (t : Result (List CaddyRoute) × E) → routes t.1 ≡ routes e
        → ReadBy (routes e) t.0
        → Assigned name ip port before
            (put_first api (proxy name ip port) t).0
            (routes (put_first api (proxy name ip port) t).1)
    put name ip port before e same (err x, e') only read = rw only same
    put name ip port before e same (ok found, e') only read =
        patched name ip port before found e' (rw read same) (only ∙ sym read)
          (api.patch_routes (proxy name ip port ∷ found) e')
          (caddy.patched (proxy name ip port ∷ found) e')

    -- `add_route`, for an admin API as `IsCaddy` says: when it answers True, the subdomain is served by
    -- the new route, whatever catch-all the operator has, and every other subdomain as before. When it
    -- answers False, every other subdomain is still served as before.
    pub add_route-Assigned :
        (name : String) (ip : Ip) (port : ℕ) (e : E)
        → Assigned name ip port
            (routes e)
            (add_route api name ip port e).0
            (routes (add_route api name ip port e).1)
    unfolding add_route
    add_route-Assigned name ip port e =
        let e₁ = (delete_route api name e).1 in
        put name ip port (routes e) e₁ (delete_route-SameFor name e) (api.get_routes e₁)
          (caddy.got_only e₁) (caddy.got e₁)
