-- ===== src/Network/Backup.antt =====
-- The backups of the gateways' rules: `_backup_iptables` (services/network_service.py) and a round of
-- `_iptables_weekly_backup_loop` (main.py).
pub mod Young
use gsm_sv.Prelude.{
  ℕ, ◌-◌, ◌/◌, ◌==◌, Bool, true, false, not, ◌&&◌, Option, none, some, String, str_eq, List, [],
  ◌∷◌, ◌++◌, any, ltb, if◌then◌else◌,
}
use gsm_sv.Exec.{Exec, Result, ok, err, pure, modify, ◌>>=◌, ◌>>◌, catch}
use gsm_sv.Table.{drop_where}
use gsm_sv.Models.{Server, Ip, eq_ip, seconds_per_day}
use gsm_sv.Network.Link.{Gateway}

-- A file of BACKUP_DIR: the gateway and the day in its name, its time and its text.
pub record BackupFile : Type 0 where
  pub gateway_ip : Ip
  pub day : ℕ
  pub modified : ℕ
  pub rules : String

-- `sudo iptables-save`: what it prints.
pub record Saver (E : Type 0) : Type 0 where
  pub save : E → Result String × E

-- The outside world and BACKUP_DIR.
pub record Backups (E : Type 0) : Type 0 where
  pub env : E
  pub files : List BackupFile

abbrev pub on_world : {E A : Type 0} → (E → Result A × E) → Exec (Backups E) A
on_world f s = let (r, e) = f s.env in (r, record s { env = e })

abbrev pub is_of : Ip → ℕ → BackupFile → Bool
is_of ip day f = eq_ip f.gateway_ip ip && f.day == day

abbrev pub age_days : ℕ → BackupFile → ℕ
age_days now f = (now - f.modified) / seconds_per_day

-- A file of the gateway, not of this day, older than 30 days.
abbrev pub is_outdated : ℕ → Ip → ℕ → BackupFile → Bool
is_outdated now ip day f =
    eq_ip f.gateway_ip ip && (not (is_of ip day f) && ltb 30 (age_days now f))

-- `write_text`, and the clean-up after it.
abbrev pub keep_file : ℕ → ℕ → Ip → String → List BackupFile → List BackupFile
keep_file now day ip output files = drop_where (is_outdated now ip day) (
    drop_where (is_of ip day) files
    ++ (record { gateway_ip = ip; day = day; modified = now; rules = output }) ∷ [])

abbrev pub store_rules : {E : Type 0} → ℕ → ℕ → Ip → String → Backups E → Backups E
store_rules now day ip output s =
    if str_eq output "" then s else record s { files = keep_file now day ip output s.files }

module _ {E : Type 0} (g : Gateway E) (v : Saver E) (now day : ℕ) where
  abbrev pub save_rules : Ip → Exec (Backups E) (Unit {0})
  save_rules ip = do output ← on_world v.save; modify (store_rules now day ip output)

  unfoldable pub backup_iptables : Ip → Backups E → Backups E
  backup_iptables ip s = (catch (save_rules ip) (λ x. pure tt) s).1

  -- The connection and the backup of one gateway.
  abbrev pub backup_one : Server → Ip → Exec (Backups E) (Unit {0})
  backup_one server ip = do on_world (g.connect server); modify (backup_iptables ip)

  abbrev pub attempt : Server → Ip → Backups E → Backups E
  attempt server ip s = (catch (backup_one server ip) (λ x. pure tt) s).1

  -- `seen_gateways` goes along; a server without a gateway is passed over.
  unfoldable pub backup_round : (seen : List Ip) → List Server → Backups E → Backups E
  backup_round seen [] s = s
  backup_round seen (server ∷ servers) s = elim server.gateway_ip [
    | none ↦ backup_round seen servers s
    | some ip ↦
        let passed = backup_round seen servers s in
        let done = backup_round (ip ∷ seen) servers (attempt server ip s) in
        if any (eq_ip ip) seen then passed else done
  ]
