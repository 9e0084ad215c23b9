-- ===== src/Ports/Stored.antt =====
-- What adding a custom port stores.
use gsm_sv.Prelude.{
  ℕ, ◌<◌, ◌==◌, ==_refl, Bool, false, Bool-cases, inl, inr, Option, none, some, String, List, [],
  ◌∷◌, ◌≡◌, ◌∙◌, any, leb, leb_false→lt, refl, arith, subst, ap,
}
use gsm_sv.Exec.{Result, ok, err, continue, pure}
use gsm_sv.Table.{Table, find_first, count_where, insert, delete_where}
use gsm_sv.Table.Laws.{drop_where-insert, drop_where_none}
use gsm_sv.Models.{User, Server, Vm, VmPort, Db, Ip, add, Settings}
use gsm_sv.Network.{Gateway}
use gsm_sv.Network.Manage.{manage_custom_iptables}
use gsm_sv.Platform.World.{World}
use gsm_sv.Auth.{get_vm_with_owner_check}
use gsm_sv.Auth.Access.{Own, OwnBy, owner_check-OwnBy}
use gsm_sv.Ports.{
  VmPortCreate, has_external, has_port_id, is_custom_of, allocate_random_port, port_row, server_of,
  keep_port_if, open_port, add_port, add_custom_port,
}

-- A port that no record has.
abbrev pub IsNew : {S : Type 0} → List VmPort → S → Result ℕ × S → Type 0
IsNew rows s (ok port, s') = (any (has_external port) rows ≡ false) × (s' ≡ s)
IsNew rows s (err x, s') = s' ≡ s

allocate-IsNew :
    {S : Type 0} (rows : List VmPort) (draws : List ℕ) (s : S)
    → IsNew rows s (allocate_random_port rows draws s)
unfolding allocate_random_port
allocate-IsNew rows [] s = refl
allocate-IsNew rows (port ∷ ports) s = elim (Bool-cases (any (has_external port) rows)) [
  | inl e ↦ rw e (allocate-IsNew rows ports s)
  | inr e ↦ rw e (e, refl)
]

module _ {E : Type 0} (g : Gateway E) (is_network : String → Bool) (cfg : Settings) where
  -- The gateway's part writes only by taking the new record out again.
  abbrev OpenBy : ℕ → World E → Result (Unit {0}) × World E → Type 0
  OpenBy id w (ok x, w') = w'.db.vm_ports ≡ w.db.vm_ports
  OpenBy id w (err x, w') = w'.db.vm_ports ≡ delete_where (has_port_id id) w.db.vm_ports

  keep_port_if-OpenBy :
      (id : ℕ) (r : Result Bool) (w : World E) → OpenBy id w (keep_port_if g is_network cfg id r w)
  keep_port_if-OpenBy id r w = ground arith

  open_port-OpenBy :
      (id : ℕ) (server : Server) (ip : Option Ip) (body : VmPortCreate) (port : ℕ) (w : World E)
      → OpenBy id w (open_port g is_network cfg server ip body port id w)
  open_port-OpenBy id server none body port w = refl
  open_port-OpenBy id server (some ip) body port w =
      keep_port_if-OpenBy id
        (manage_custom_iptables g is_network cfg server ip body.internal_port port body.protocol add
          body.source w.env).0
        (record w {
          env =
              (manage_custom_iptables g is_network cfg server ip body.internal_port port
                body.protocol add body.source w.env).1;
        })

  module _ (draws : List ℕ) (node : Option String) (vmid : ℕ) (body : VmPortCreate) (u : User)
      (w : World E)
      (fresh : count_where (has_port_id w.db.vm_ports.next_id) w.db.vm_ports.rows ≡ 0) where
    -- The record of an accepted request.
    pub record Added (answer : ℕ × ℕ) (w' : World E) : Type 0 where
      pub vm : Vm
      pub own : Own vmid u node w.db vm
      pub room : count_where (is_custom_of vm.id) w.db.vm_ports.rows < 30
      pub unused : any (has_external answer.1) w.db.vm_ports.rows ≡ false
      pub key : answer.0 ≡ w.db.vm_ports.next_id
      pub stored : w'.db.vm_ports ≡ insert (port_row vm body answer.1) w.db.vm_ports

    abbrev pub AddedBy : Result (ℕ × ℕ) × World E → Type 0
    AddedBy (ok answer, w') = Added answer w'
    AddedBy (err x, w') = w'.db.vm_ports.rows ≡ w.db.vm_ports.rows

    drop_new :
        (vm : Vm) (port : ℕ)
        → (delete_where
            (has_port_id w.db.vm_ports.next_id)
            (insert (port_row vm body port) w.db.vm_ports)).rows
          ≡ w.db.vm_ports.rows
    drop_new vm port =
        drop_where-insert (has_port_id w.db.vm_ports.next_id) (port_row vm body port) w.db.vm_ports
          (==_refl _)
        ∙ drop_where_none (has_port_id w.db.vm_ports.next_id) w.db.vm_ports.rows fresh

    after_open :
        (vm : Vm) (port : ℕ) (w' : World E)
        → Own vmid u node w.db vm
        → count_where (is_custom_of vm.id) w.db.vm_ports.rows < 30
        → any (has_external port) w.db.vm_ports.rows ≡ false
        → w'.db.vm_ports ≡ insert (port_row vm body port) w.db.vm_ports
        → (t : Result (Unit {0}) × World E) → OpenBy w.db.vm_ports.next_id w' t
        → AddedBy (continue (λ x. pure (w.db.vm_ports.next_id, port)) t.0 t.1)
    after_open vm port w' own room unused stored (ok x, w'') o = record {
      vm = vm;
      own = own;
      room = room;
      unused = unused;
      key = refl;
      stored = o ∙ stored;
    }
    after_open vm port w' own room unused stored (err x, w'') o =
        ap (λ (t : Table VmPort). t.rows) o
        ∙ ap (λ (t : Table VmPort). (delete_where (has_port_id w.db.vm_ports.next_id) t).rows)
            stored
        ∙ drop_new vm port

    -- `add_custom_port`, run where the next key of the port table is not in use. An accepted request
    -- is from the owner of the VM or an administrator, the VM had fewer than thirty custom ports, no
    -- record had the external port, and one record is added for it. A refused request, the gateway's
    -- refusal included, leaves the rows of the port table as they were.
    pub add_custom_port-AddedBy :
        AddedBy (add_custom_port g is_network cfg draws node vmid body u w)
    unfolding add_custom_port
    add_custom_port-AddedBy =
        found (get_vm_with_owner_check vmid u node w.db) refl (owner_check-OwnBy vmid u node w.db)
      where
        opened :
            (vm : Vm) (server : Server)
            → get_vm_with_owner_check vmid u node w.db ≡ (ok vm, w.db)
            → server_of vm w.db ≡ (ok server, w.db)
            → Own vmid u node w.db vm
            → leb 30 (count_where (is_custom_of vm.id) w.db.vm_ports.rows) ≡ false
            → (t : Result ℕ × World E) → allocate_random_port w.db.vm_ports.rows draws w ≡ t
            → IsNew w.db.vm_ports.rows w t
            → AddedBy (add_custom_port g is_network cfg draws node vmid body u w)
        opened vm server h hs own room (err x, w') ha n =
            rw (h, hs, room, ha) (ap (λ (w : World E). w.db.vm_ports.rows) n)
        opened vm server h hs own room (ok port, w') ha (unused, same) =
            rw (h, hs, room, ha, same)
              (after_open vm port (add_port g is_network cfg vm body port w) own
                (leb_false→lt 30 _ room) unused refl
                (open_port g is_network cfg server vm.internal_ip body port w.db.vm_ports.next_id
                  (add_port g is_network cfg vm body port w))
                (open_port-OpenBy w.db.vm_ports.next_id server vm.internal_ip body port
                  (add_port g is_network cfg vm body port w)))

        served :
            (vm : Vm)
            → get_vm_with_owner_check vmid u node w.db ≡ (ok vm, w.db)
            → Own vmid u node w.db vm
            → (o : Option Server)
            → find_first (λ (s : Server). s.id == vm.server_id) w.db.servers.rows ≡ o
            → AddedBy (add_custom_port g is_network cfg draws node vmid body u w)
        served vm h own none hs = rw (h, hs) refl
        served vm h own (some server) hs =
            elim (Bool-cases (leb 30 (count_where (is_custom_of vm.id) w.db.vm_ports.rows))) [
              | inl full ↦ rw (h, hs, full) refl
              | inr room ↦
                  opened vm server h (rw hs refl) own room
                    (allocate_random_port w.db.vm_ports.rows draws w) refl
                    (allocate-IsNew w.db.vm_ports.rows draws w)
            ]

        found :
            (t : Result Vm × Db)
            → get_vm_with_owner_check vmid u node w.db ≡ t
            → OwnBy vmid u node w.db t
            → AddedBy (add_custom_port g is_network cfg draws node vmid body u w)
        found (err x, db') h same = rw (h, same) refl
        found (ok vm, db') h (own, same) =
            served vm (subst (λ d. get_vm_with_owner_check vmid u node w.db ≡ (ok vm, d)) same h)
              own (find_first (λ (s : Server). s.id == vm.server_id) w.db.servers.rows) refl
