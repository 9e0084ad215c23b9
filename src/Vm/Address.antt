-- ===== src/Vm/Address.antt =====
-- `_allocate_internal_ip`: the lowest free address. The lock around it and the commit of the new row
-- are one step here.
use gsm_sv.Prelude.{
  ℕ, zero, suc, ◌+◌, ◌-◌, ◌≤◌, ◌<◌, Bool, true, false, Option, none, some, List, ◌≡◌, arith, any,
  if◌then◌else◌, Bool-cases, inl, inr, refl, ◌==◌, ==_iff, subst,
}
use gsm_sv.Exec.{Exec, http_exception, ip_exhausted, or_raise}
use gsm_sv.Models.{Ip, Vm, Settings, eq_opt_ip}

abbrev pub holds_ip : Ip → Vm → Bool
holds_ip ip vm = eq_opt_ip vm.internal_ip ip

-- f"{prefix}.{octet}"
abbrev pub address : Settings → ℕ → Ip
address cfg octet = record {
  a = cfg.internal_subnet.a;
  b = cfg.internal_subnet.b;
  c = cfg.internal_subnet.c;
  d = octet;
}

-- The `for` over range(start, end + 1), by the rounds left.
unfoldable pub first_free : Settings → List Vm → ℕ → ℕ → Option Ip
first_free cfg vms zero octet = none
first_free cfg vms (suc rounds) octet =
    let rest = first_free cfg vms rounds (octet + 1) in
    if any (holds_ip (address cfg octet)) vms then rest else some (address cfg octet)

unfoldable pub allocate_internal_ip : {S : Type 0} → Settings → List Vm → Exec S Ip
unfolding first_free
allocate_internal_ip cfg vms =
    or_raise
      (first_free cfg vms (cfg.internal_ip_end + 1 - cfg.internal_ip_start) cfg.internal_ip_start)
      (http_exception 507 ip_exhausted)

-- The address is free, in the range, and every lower one of the range is taken.
pub record IsLowest (cfg : Settings) (vms : List Vm) (start stop : ℕ) (ip : Ip) : Type 0 where
  pub octet : ip ≡ address cfg ip.d
  pub low : start ≤ ip.d
  pub high : ip.d < stop
  pub free : any (holds_ip ip) vms ≡ false
  pub lower : (o : ℕ) → start ≤ o → o < ip.d → any (holds_ip (address cfg o)) vms ≡ true

abbrev pub LowestOrNone : Settings → List Vm → ℕ → ℕ → Option Ip → Type 0
LowestOrNone cfg vms start stop (some ip) = IsLowest cfg vms start stop ip
LowestOrNone cfg vms start stop none =
    (o : ℕ) → start ≤ o → o < stop → any (holds_ip (address cfg o)) vms ≡ true

-- The search ends with the lowest free address of the range, and with none only if all are taken.
pub first_free-LowestOrNone :
    (cfg : Settings) (vms : List Vm) (rounds start : ℕ)
    → LowestOrNone cfg vms start (start + rounds) (first_free cfg vms rounds start)
unfolding first_free
first_free-LowestOrNone cfg vms zero start = λ o low high. absurd (omega arith)
first_free-LowestOrNone cfg vms (suc rounds) start =
    elim (Bool-cases (any (holds_ip (address cfg start)) vms)) [
      | inl taken ↦ rw taken (
          later taken (first_free cfg vms rounds (start + 1))
            (first_free-LowestOrNone cfg vms rounds (start + 1)))
      | inr free ↦ rw free (record {
        octet = refl;
        low = omega arith;
        high = omega arith;
        free = free;
        lower = λ o low high. absurd (omega arith);
      })
    ]
  where
    at_start :
        (o : ℕ)
        → any (holds_ip (address cfg start)) vms ≡ true
        → start ≤ o
        → (start + 1 ≤ o → any (holds_ip (address cfg o)) vms ≡ true)
        → any (holds_ip (address cfg o)) vms ≡ true
    at_start o taken low up = elim (Bool-cases (start == o)) [
      | inl e ↦ subst (λ x. any (holds_ip (address cfg x)) vms ≡ true) ((==_iff start o).0 e) taken
      | inr e ↦ up (ground arith)
    ]

    later :
        any (holds_ip (address cfg start)) vms ≡ true
        → (r : Option Ip) → LowestOrNone cfg vms (start + 1) (start + 1 + rounds) r
        → LowestOrNone cfg vms start (start + suc rounds) r
    later taken none h = λ o low high. at_start o taken low (λ up. h o up (omega arith))
    later taken (some ip) h = record {
      octet = h.octet;
      low = omega arith;
      high = omega arith;
      free = h.free;
      lower = λ o low high. at_start o taken low (λ up. h.lower o up high);
    }
