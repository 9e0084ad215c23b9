-- ===== src/Tests/OnGateway.antt =====
-- The network functions on the counting gateway, which follows the laws of iptables.
use gsm_sv.Prelude.{ℕ, zero, suc, ◌<◌, ◌⊎◌, inl, true, inr, none, ◌≡◌, refl, arith}
use gsm_sv.Exec.{ok}
use gsm_sv.Models.{Ip, add, tcp}
use gsm_sv.Network.{IptablesLaws, RollbackReplies, Rule, forward, eq_rule, eq_rule_iff}
use gsm_sv.Network.Manage.{vm_rules, manage_iptables}
use gsm_sv.Network.Manage.Effects.{InstallsAll, manage_iptables_add_atomic}
use gsm_sv.Tests.{Lab, empty_lab, counting_gateway, is_there, settings, node}

abbrev standing_of : Lab → Rule → ℕ
standing_of e q = e.standing q

eq_rule_same : (r : Rule) → eq_rule r r ≡ true
eq_rule_same r = (eq_rule_iff r r).1 refl

is_there_zero : (n : ℕ) → is_there n ≡ 0 → 0 < n
is_there_zero zero h = absurd (omega (arith, h))
is_there_zero (suc n) h = omega arith

is_there_one : (n : ℕ) → is_there n ≡ 1 → n ≡ 0
is_there_one zero h = refl
is_there_one (suc n) h = absurd (omega (arith, h))

is_there_exit : (n : ℕ) → (ok (is_there n) ≡ ok 0) ⊎ (ok (is_there n) ≡ ok 1)
is_there_exit zero = inr refl
is_there_exit (suc n) = inl refl

status_of : {a b : ℕ} → ok a ≡ ok b → a ≡ b
status_of h = cc

-- What the gateway is taken to do is possible.
counting-IptablesLaws : IptablesLaws counting_gateway standing_of
counting-IptablesLaws = record {
  connect_keeps = λ s q e. refl;
  check_keeps = λ r q e. refl;
  check_zero = λ r e h. is_there_zero (e.standing r) (status_of h);
  check_one = λ r e h. is_there_one (e.standing r) (status_of h);
  append_others = λ r q e h. rw h refl;
  append_grows = λ r e. inr (rw (eq_rule_same r) refl);
  append_zero = λ r e h. rw (eq_rule_same r) refl;
  remove_others = λ r q e h. rw h refl;
  remove_shrinks = λ r e. inr (rw (eq_rule_same r) refl);
  remove_zero = λ r e h.
      let some_left = is_there_zero (e.standing r) (status_of h) in
      rw (eq_rule_same r) (omega (arith, some_left));
  remove_one = λ r e h. is_there_one (e.standing r) (status_of h);
}

counting-replies : RollbackReplies counting_gateway
counting-replies r e = is_there_exit (e.standing r)

abbrev vm_ip : Ip
vm_ip = record { a = 10; b = 0; c = 0; d = 11 }

abbrev one_rule : Rule
one_rule = forward none tcp vm_ip 22

manage_iptables_add_atomic_example :
    InstallsAll counting_gateway standing_of counting-IptablesLaws counting-replies
      (vm_rules settings node 101 vm_ip)
      empty_lab
      (manage_iptables counting_gateway settings node 101 vm_ip add empty_lab)
manage_iptables_add_atomic_example =
    manage_iptables_add_atomic counting_gateway standing_of counting-IptablesLaws counting-replies
      settings node 101 vm_ip empty_lab
