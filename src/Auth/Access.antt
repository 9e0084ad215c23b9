-- ===== src/Auth/Access.antt =====
-- Who gets in: login, the current user, and the owner check of VMs.
use gsm_sv.Prelude.{
  ℕ, ◌==◌, ==_iff, Bool, true, false, Bool-cases, inl, inr, ◌&&◌, Option, none, some, String, ◌≡◌,
  ◌≢◌, refl, ap, ◌∙◌, and_true, Memᴰ,
}
use gsm_sv.Exec.{Exec, Exc, Result, ok, err, continue, ◌>>=◌}
use gsm_sv.Table.{find_first}
use gsm_sv.Table.Laws.{find_first_sound, find_first_member}
use gsm_sv.Models.{admin, eq_role, eq_role_iff, User, Vm, Db, eq_opt_nat}
use gsm_sv.Network.Manage.{has_text}
use gsm_sv.Auth.{Services, verify_password, on_node, may_use, get_vm_with_owner_check}
use gsm_sv.Auth.Accounts.{LoginRole, login_user, text_of, login}

module _ (sv : Services) (email password : String) (role : LoginRole) (db : Db) where
  -- The account that a login lets in.
  pub record LoggedIn (id : ℕ) : Type 0 where
    pub account : User
    pub found : login_user db email role ≡ some account
    pub has_password : has_text account.hashed_password ≡ true
    pub checked : verify_password sv password (text_of account.hashed_password) ≡ ok true
    pub active : account.is_active ≡ true
    pub is_its : id ≡ account.id

  abbrev pub LoggedInBy : Result ℕ × Db → Type 0
  LoggedInBy (ok id, db') = LoggedIn id × (db' ≡ db)
  LoggedInBy (err x, db') = db' ≡ db

  -- `login` issues tokens only for the account that the e-mail and the asked role select, if it is
  -- approved, has a password, and bcrypt accepts the one given. It never writes.
  pub login-LoggedInBy : LoggedInBy (login sv email password role db)
  unfolding login
  login-LoggedInBy = go (login_user db email role) refl
    where
      go :
          (o : Option User)
          → login_user db email role ≡ o
          → LoggedInBy (login sv email password role db)
      go none h = rw h refl
      go (some u) h = elim (Bool-cases (has_text u.hashed_password)) [
        | inr no_password ↦ rw (h, no_password) refl
        | inl has ↦ checked has (verify_password sv password (text_of u.hashed_password)) refl
      ]
        where
          checked :
              has_text u.hashed_password ≡ true
              → (r : Result Bool) → verify_password sv password (text_of u.hashed_password) ≡ r
              → LoggedInBy (login sv email password role db)
          checked has (err x) c = rw (h, has, c) refl
          checked has (ok false) c = rw (h, has, c) refl
          checked has (ok true) c = elim (Bool-cases u.is_active) [
            | inr waits ↦ rw (h, has, c, waits) refl
            | inl active ↦
                rw (h, has, c, active)
                  (
                    record {
                      account = u;
                      found = h;
                      has_password = has;
                      checked = c;
                      active = active;
                      is_its = refl;
                    },
                    refl,
                  )
          ]

owner_of : (u : User) (vm : Vm) → may_use u vm ≡ true → u.role ≢ admin → vm.owner_id ≡ some u.id
owner_of u vm h other = elim (Bool-cases (eq_role u.role admin)) [
  | inl same ↦ absurd (other ((eq_role_iff u.role admin).0 same))
  | inr no_admin ↦ of_owner vm.owner_id refl (rw no_admin at h)
]
  where
    of_owner :
        (o : Option ℕ)
        → vm.owner_id ≡ o
        → eq_opt_nat vm.owner_id u.id ≡ true
        → vm.owner_id ≡ some u.id
    of_owner none e t = absurd (cc (rw e at t))
    of_owner (some i) e t = e ∙ ap some ((==_iff i u.id).0 (rw e at t))

module _ (vmid : ℕ) (u : User) (node : Option String) (db : Db) where
  -- A row of the database with the number asked for, on the node asked for, and nobody else's unless
  -- an administrator asks.
  pub record Own (vm : Vm) : Type 0 where
    pub row : Memᴰ vm db.vms.rows
    pub number : vm.hypervisor_vmid ≡ vmid
    pub at_node : on_node db.servers.rows node vm ≡ true
    pub mine : u.role ≢ admin → vm.owner_id ≡ some u.id

  abbrev pub OwnBy : Result Vm × Db → Type 0
  OwnBy (ok vm, db') = Own vm × (db' ≡ db)
  OwnBy (err x, db') = db' ≡ db

  -- `get_vm_with_owner_check` answers with a row of the VM table that has the number asked for and is on
  -- the node asked for, and with nobody else's unless an administrator asks. It writes nothing.
  pub owner_check-OwnBy : OwnBy (get_vm_with_owner_check vmid u node db)
  unfolding get_vm_with_owner_check
  owner_check-OwnBy = go (find_first test db.vms.rows) refl
    where
      test : Vm → Bool
      test vm = vm.hypervisor_vmid == vmid && (on_node db.servers.rows node vm && may_use u vm)

      go :
          (o : Option Vm)
          → find_first test db.vms.rows ≡ o
          → OwnBy (get_vm_with_owner_check vmid u node db)
      go none h = rw h refl
      go (some vm) h =
          let passes : test vm ≡ true = find_first_sound test db.vms.rows h in
          let both =
            and_true (vm.hypervisor_vmid == vmid) (on_node db.servers.rows node vm && may_use u vm)
              passes in
          let mine = and_true (on_node db.servers.rows node vm) (may_use u vm) both.1 in
          rw h (
            record {
              row = find_first_member test db.vms.rows h;
              number = (==_iff vm.hypervisor_vmid vmid).0 both.0;
              at_node = mine.0;
              mine = owner_of u vm mine.1;
            },
            refl,
          )

  -- Walking on from the owner check.
  pub owner_step :
      {A : Type 0} (Q : Result A × Db → Type 0) (k : Vm → Exec Db A)
      → ((vm : Vm) → Own vm → Q (k vm db))
      → ((x : Exc) → Q (err x, db))
      → Q ((get_vm_with_owner_check vmid u node >>= k) db)
  owner_step Q k served raised = go (get_vm_with_owner_check vmid u node db) owner_check-OwnBy
    where
      go : (t : Result Vm × Db) → OwnBy t → Q (continue k t.0 t.1)
      go (ok vm, db') (own, same) = rw same (served vm own)
      go (err x, db') same = rw same (raised x)
