-- ===== src/Control/Resize.antt =====
-- `resize_vm`
use gsm_sv.Prelude.{
  ℕ, ◌≤◌, true, false, ◌⊎◌, not, ◌&&◌, Option, none, some, String, ◌≡◌, ◌≢◌, refl, arith, ap, ◌∙◌,
  subst, not-false,
}
use gsm_sv.Exec.{Result, ok, err, catch, recover}
use gsm_sv.Exec.Steps.{bind_step, reject_step}
use gsm_sv.Models.{user, User, Server, Vm}
use gsm_sv.Platform.{Platform}
use gsm_sv.Platform.World.{World, call, on_db}
use gsm_sv.Auth.{get_vm_with_owner_check}
use gsm_sv.Auth.Access.{Own}
use gsm_sv.Vm.Request.{is_plain}
use gsm_sv.Ports.{server_of}
use gsm_sv.Control.{
  Guest, set_vm, as_proxmox, is_unset, cores_ok, memory_ok, resized, apply_resize, resize_on,
  resize_vm,
}
use gsm_sv.Control.Power.{Mine, owner_check-Mine, SameDb, server_of-SameDb, call-SameDb, same_step}

module _ {E : Type 0} (p : Platform E) (k : Guest E) where
  catch-SameDb :
      {A : Type 0} (f : E → Result A × E) (w : World E)
      → SameDb w.db (catch (call f) (as_proxmox p k) w)
  catch-SameDb {A = A} f w = go (f w.env)
    where
      go : (t : Result A × E) → SameDb w.db (recover (as_proxmox p k) t.0 (record w { env = t.1 }))
      go (ok a, e) = refl
      go (err x, e) = ground arith

  module _ (node : Option String) (vmid : ℕ) (cores memory : Option ℕ) (u : User)
      (w : World E) where
    -- A resize that was carried out.
    pub record Resized (w' : World E) : Type 0 where
      pub vm : Vm
      pub own : Own vmid u node w.db vm
      pub privileged : u.role ≢ user
      pub cores_of_two : (n : ℕ) → cores ≡ some n → (n ≡ 2) ⊎ (n ≡ 4)
      pub memory_range : (m : ℕ) → memory ≡ some m → (4096 ≤ m) × (m ≤ 16384)
      pub stored : w'.db ≡ set_vm vm.id (resized p k cores memory) w.db

    abbrev pub ResizedBy : Result (Unit {0}) × World E → Type 0
    ResizedBy (ok x, w') = Resized w'
    ResizedBy (err x, w') = w'.db ≡ w.db

    cores_of : (o : Option ℕ) → cores_ok p k o ≡ true → (n : ℕ) → o ≡ some n → (n ≡ 2) ⊎ (n ≡ 4)
    cores_of none h n e = absurd cc
    cores_of (some m) h n e = ground arith

    memory_of :
        (o : Option ℕ) → memory_ok p k o ≡ true → (m : ℕ) → o ≡ some m → (4096 ≤ m) × (m ≤ 16384)
    memory_of none h m e = absurd cc
    memory_of (some n) h m e = ground arith

    privileged_of : is_plain u.role ≡ false → u.role ≢ user
    privileged_of h same = cc (rw same at h)

    module _ (role : is_plain u.role ≡ false) (vm : Vm) (server : Server)
        (own : Own vmid u node w.db vm) where
      apply_resize-ResizedBy :
          (w' : World E) → w'.db ≡ w.db → ResizedBy (apply_resize p k vm server cores memory w')
      apply_resize-ResizedBy w' same =
          reject_step ResizedBy (is_unset p k cores && is_unset p k memory) 400 _ _ w'
            (λ some_value.
              reject_step ResizedBy (not (cores_ok p k cores)) 400 _ _ w'
                (λ two_or_four.
                  reject_step ResizedBy (not (memory_ok p k memory)) 400 _ _ w'
                    (λ in_range.
                      same_step ResizedBy
                        (catch (call (k.resize server.name vm.hypervisor_vmid cores memory))
                          (as_proxmox p k))
                        _ w'
                        (catch-SameDb (k.resize server.name vm.hypervisor_vmid cores memory) w')
                        (λ x w'' s. record {
                          vm = vm;
                          own = own;
                          privileged = privileged_of role;
                          cores_of_two = cores_of cores (not-false two_or_four);
                          memory_range = memory_of memory (not-false in_range);
                          stored = ap (set_vm vm.id (resized p k cores memory)) (s ∙ same);
                        })
                        (λ x w'' s. s ∙ same))
                    (λ out_of_range. same))
                (λ other. same))
            (λ nothing. same)

      resize_on-ResizedBy :
          (w' : World E) → w'.db ≡ w.db → ResizedBy (resize_on p k vm server cores memory w')
      resize_on-ResizedBy w' same =
          same_step ResizedBy (call (p.connect server)) _ w' (call-SameDb (p.connect server) w')
            (λ x w₁ s₁.
              same_step ResizedBy (call (k.hotplug server.name vm.hypervisor_vmid)) _ w₁
                (call-SameDb (k.hotplug server.name vm.hypervisor_vmid) w₁)
                (λ hot w₂ s₂.
                  reject_step ResizedBy (not hot) 400 _ _ w₂
                    (λ is_hot. apply_resize-ResizedBy w₂ (s₂ ∙ s₁ ∙ same)) (λ cold. s₂ ∙ s₁ ∙ same))
                (λ x w₂ s₂. s₂ ∙ s₁ ∙ same))
            (λ x w₁ s₁. s₁ ∙ same)

    -- `resize_vm` changes a VM of the user's own (an administrator: any VM), for a project owner or an
    -- administrator only, to 2 or 4 cores and to 4 to 16 GiB of memory where it changes them, and
    -- records just that. A refusal or a failure of Proxmox writes nothing.
    pub resize_vm-ResizedBy : ResizedBy (resize_vm p k node vmid cores memory u w)
    unfolding resize_vm
    resize_vm-ResizedBy =
        reject_step ResizedBy (is_plain u.role) 403 _ _ w
          (λ role.
            bind_step ResizedBy (on_db (get_vm_with_owner_check vmid u node)) _ w
              (λ vm w₁ e.
                let m : Mine vmid u node w (ok vm, w₁) =
                  subst (Mine vmid u node w) e (owner_check-Mine vmid u node w) in
                same_step ResizedBy (on_db (server_of vm)) _ w₁ (server_of-SameDb vm w₁)
                  (λ server w₂ s₂. resize_on-ResizedBy role vm server m.0 w₂ (s₂ ∙ m.1))
                  (λ x w₂ s₂. s₂ ∙ m.1))
              (λ x w₁ e. subst (Mine vmid u node w) e (owner_check-Mine vmid u node w)))
          (λ plain. refl)
