-- ===== src/Vm/Request/Bounds.antt =====
-- What an accepted request satisfies.
use gsm_sv.Prelude.{
  true, ◌≤◌, ◌<◌, Option, none, some, ◌≡◌, ◌≢◌, arith, String, str_eq, eq_iff, and_true, Memᴰ, ap,
  sym, refl, Bool-cases, inl, inr,
}
use gsm_sv.Exec.{Result, ok, err, http_exception, or_raise, node_not_found}
use gsm_sv.Table.{find_first}
use gsm_sv.Table.Laws.{find_first_sound, find_first_member}
use gsm_sv.Models.{user, project_custom, User, Server, Db, VmCreate, Settings, Specs}
use gsm_sv.Vm.Request.{check_request, customize, choose_server, vm_count, active_named}

-- The resources of the tier, or the custom ones within the limits of project_custom.
pub record Accepted (cfg : Settings) (u : User) (req : VmCreate) (db : Db) (specs : Specs)
    : Type 0 where
  pub quota : u.role ≡ user → vm_count db u.id < cfg.max_vms_per_user
  pub tier : req.tier ≡ project_custom → u.role ≢ user
  pub memory : (2048 ≤ specs.memory) × (specs.memory ≤ 16384)
  pub cores : (1 ≤ specs.cores) × (specs.cores ≤ 4)
  pub disk : (20 ≤ specs.disk) × (specs.disk ≤ 40)

-- The server of the request: a row of the table, active, of the name asked for.
pub record IsNamed (asked : Option String) (db : Db) (server : Server) : Type 0 where
  pub row : Memᴰ server db.servers.rows
  pub name : asked ≡ some server.name
  pub active : server.is_active ≡ true

abbrev pub AcceptedBy : Settings → User → VmCreate → Db → Result (Specs × Server) × Db → Type 0
AcceptedBy cfg u req db (ok (specs, server), db') =
    Accepted cfg u req db specs × IsNamed req.node_name db server × (db' ≡ db)
AcceptedBy cfg u req db (err e, db') = db' ≡ db

module _ (cfg : Settings) (u : User) (req : VmCreate) (db : Db) where
  abbrev Bounded : Specs → Type 0
  Bounded specs =
      ((2048 ≤ specs.memory) × (specs.memory ≤ 16384))
      × ((1 ≤ specs.cores) × (specs.cores ≤ 4))
      × ((20 ≤ specs.disk) × (specs.disk ≤ 40))

  abbrev BoundedBy : Result Specs × Db → Type 0
  BoundedBy (ok specs, db') = Bounded specs × (db' ≡ db)
  BoundedBy (err e, db') = db' ≡ db

  customize-BoundedBy :
      BoundedBy (customize req (record { memory = 16384; cores = 4; disk = 40 }) db)
  unfolding customize
  customize-BoundedBy = ground arith

abbrev NamedBy : Option String → Db → Result Server × Db → Type 0
NamedBy asked db (ok server, db') = IsNamed asked db server × (db' ≡ db)
NamedBy asked db (err e, db') = db' ≡ db

choose_server-NamedBy : (name : Option String) (db : Db) → NamedBy name db (choose_server name db)
unfolding choose_server
choose_server-NamedBy none db = refl
choose_server-NamedBy (some name) db = elim (Bool-cases (str_eq name "")) [
  | inl e ↦ rw e refl
  | inr e ↦ rw e (found (find_first (active_named name) db.servers.rows) refl)
]
  where
    found :
        (o : Option Server)
        → find_first (active_named name) db.servers.rows ≡ o
        → NamedBy (some name) db (or_raise o (http_exception 404 node_not_found) db)
    found none h = refl
    found (some server) h =
        let both =
          and_true (str_eq server.name name) server.is_active
            (find_first_sound (active_named name) db.servers.rows h) in
        (
          record {
            row = find_first_member (active_named name) db.servers.rows h;
            name = ap some (sym ((eq_iff server.name name).0 both.0));
            active = both.1;
          },
          refl,
        )

-- A request that passes the checks of `create_vm` is within the quota of a plain user, is of the
-- project tier only for a project owner or an administrator, asks for 2 to 16 GiB of memory, 1 to 4
-- cores and 20 to 40 GB of disk whatever its custom values are, and names an active server of
-- the table, which is the one answered. The
-- checks write nothing, whether they pass or raise.
pub check_request-AcceptedBy :
    (cfg : Settings) (u : User) (req : VmCreate) (db : Db)
    → AcceptedBy cfg u req db (check_request cfg u req db)
unfolding check_request
check_request-AcceptedBy cfg u req db =
    ground (arith, customize-BoundedBy cfg u req db, choose_server-NamedBy req.node_name db)
