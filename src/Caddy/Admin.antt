-- ===== src/Caddy/Admin.antt =====
-- What the reverse proxy's admin API is relied on for.
use gsm_sv.Prelude.{Bool, true, false, ◌≡◌, ◌⊎◌, String, List}
use gsm_sv.Exec.{Result, ok, err}
use gsm_sv.Table.{drop_where}
use gsm_sv.Caddy.{CaddyRoute, CaddyApi, has_route_id, delete_answer}

-- The entries after a DELETE of an id: a good answer says that the id is gone, in the answer 400
-- because it was not there. After any other answer it may be gone or not.
abbrev pub DeletedBy : String → List CaddyRoute → List CaddyRoute → Bool → Type 0
DeletedBy name before after true = after ≡ drop_where (has_route_id name) before
DeletedBy name before after false =
    (after ≡ before) ⊎ (after ≡ drop_where (has_route_id name) before)

abbrev pub PatchedBy :
    List CaddyRoute → List CaddyRoute → List CaddyRoute → Result (Unit {0}) → Type 0
PatchedBy sent before after (ok x) = after ≡ sent
PatchedBy sent before after (err x) = (after ≡ before) ⊎ (after ≡ sent)

abbrev pub ReadBy : List CaddyRoute → Result (List CaddyRoute) → Type 0
ReadBy before (ok answer) = answer ≡ before
ReadBy before (err x) = Unit

-- `routes` are the entries that the server has; a request that fails may still have been served.
pub record IsCaddy {E : Type 0} (api : CaddyApi E) (routes : E → List CaddyRoute) : Type 0 where
  pub deleted :
      (name : String) (e : E)
      → DeletedBy name
          (routes e)
          (routes (api.delete_id name e).1)
          (delete_answer api (api.delete_id name e).0)
  pub got : (e : E) → ReadBy (routes e) (api.get_routes e).0
  pub got_only : (e : E) → routes (api.get_routes e).1 ≡ routes e
  pub patched :
      (sent : List CaddyRoute) (e : E)
      → PatchedBy sent (routes e) (routes (api.patch_routes sent e).1) (api.patch_routes sent e).0
