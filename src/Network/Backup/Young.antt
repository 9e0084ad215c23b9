-- ===== src/Network/Backup/Young.antt =====
-- The files that a round of the weekly backup leaves.
use gsm_sv.Prelude.{
  ℕ, ◌==◌, ==_refl, and_true, Bool, true, false, not, ◌&&◌, Bool-cases, inl, inr, Option, none,
  some, String, str_eq, List, [], ◌∷◌, ◌++◌, ◌≡◌, refl, ap, ◌∙◌, arith, any, ltb, leb,
  if◌then◌else◌,
}
use gsm_sv.Exec.{pure}
use gsm_sv.Exec.Keeps.{Keeps-bind, Keeps-catch, Keeps-pure}
use gsm_sv.Table.{select, drop_where}
use gsm_sv.Models.{Server, Ip, eq_ip}
use gsm_sv.Network.Link.{Gateway}
use gsm_sv.Network.Backup.{
  BackupFile, Saver, Backups, on_world, is_of, age_days, is_outdated, keep_file, store_rules,
  save_rules, backup_iptables, backup_one, attempt, backup_round,
}

module _ {A : Type 0} (p q : A → Bool) (apart : (x : A) → p x ≡ true → q x ≡ false) where
  select-drop_apart : (xs : List A) → select q (drop_where p xs) ≡ select q xs
  select-drop_apart [] = refl
  select-drop_apart (x ∷ xs) = elim (Bool-cases (p x)) [
    | inl e ↦ rw (e, apart x e) (select-drop_apart xs)
    | inr e ↦ rw e (ap (λ rest. if q x then x ∷ rest else rest) (select-drop_apart xs))
  ]

select_last :
    {A : Type 0} (q : A → Bool) (xs : List A) (x : A)
    → q x ≡ false
    → select q (xs ++ x ∷ []) ≡ select q xs
select_last q [] x h = rw h refl
select_last q (y ∷ ys) x h = ap (λ rest. if q y then y ∷ rest else rest) (select_last q ys x h)

too_old : (b : Bool) (n : ℕ) → ltb 30 n ≡ true → (b && leb n 30) ≡ false
too_old b n h = ground arith

module _ {E : Type 0} (g : Gateway E) (v : Saver E) (now day : ℕ) where
  -- A file of another day that is at most 30 days old.
  abbrev pub is_young : BackupFile → Bool
  is_young f = not (f.day == day) && leb (age_days now f) 30

  keep_file-young :
      (ip : Ip) (output : String) (files : List BackupFile)
      → select is_young (keep_file now day ip output files) ≡ select is_young files
  keep_file-young ip output files =
      select-drop_apart (is_outdated now ip day) is_young outdated _
      ∙ select_last is_young (drop_where (is_of ip day) files) _ (rw (==_refl day) refl)
      ∙ select-drop_apart (is_of ip day) is_young today files
    where
      outdated : (f : BackupFile) → is_outdated now ip day f ≡ true → is_young f ≡ false
      outdated f h =
          let a = and_true (eq_ip f.gateway_ip ip) _ h in
          let b = and_true (not (is_of ip day f)) (ltb 30 (age_days now f)) a.1 in
          too_old (not (f.day == day)) (age_days now f) b.1

      today : (f : BackupFile) → is_of ip day f ≡ true → is_young f ≡ false
      today f h = rw (and_true (eq_ip f.gateway_ip ip) (f.day == day) h).1 refl

  module _ (young : List BackupFile) where
    abbrev Same : Backups E → Type 0
    Same s = select is_young s.files ≡ young

    store_rules-Same :
        (ip : Ip) (output : String) (s : Backups E)
        → Same s
        → Same (store_rules now day ip output s)
    store_rules-Same ip output s h = elim (Bool-cases (str_eq output "")) [
      | inl e ↦ rw e h
      | inr e ↦ rw e (keep_file-young ip output s.files ∙ h)
    ]

    backup_iptables-Same :
        (ip : Ip) (s : Backups E) → Same s → Same (backup_iptables g v now day ip s)
    unfolding backup_iptables
    backup_iptables-Same ip s h =
        (Keeps-catch (save_rules g v now day ip) (λ x. pure tt)
            (Keeps-bind (on_world v.save) _ (record { at = λ s h. h })
              (λ output. record { at = λ s h. store_rules-Same ip output s h }))
            (λ x. Keeps-pure tt)).at
          s h

    attempt-Same :
        (server : Server) (ip : Ip) (s : Backups E)
        → Same s
        → Same (attempt g v now day server ip s)
    attempt-Same server ip s h =
        (Keeps-catch (backup_one g v now day server ip) (λ x. pure tt)
            (Keeps-bind (on_world (g.connect server)) _ (record { at = λ s h. h })
              (λ x. record { at = λ s h. backup_iptables-Same ip s h }))
            (λ x. Keeps-pure tt)).at
          s h

    backup_round-Same :
        (servers : List Server) (seen : List Ip) (s : Backups E)
        → Same s
        → Same (backup_round g v now day seen servers s)
    unfolding backup_round
    backup_round-Same [] seen s h = h
    backup_round-Same (server ∷ servers) seen s h = go server.gateway_ip (backup_round-Same servers)
      where
        go :
            (o : Option Ip)
            → ((seen : List Ip) (s : Backups E)
                → Same s
                → Same (backup_round g v now day seen servers s))
            → Same (elim o [
              | none ↦ backup_round g v now day seen servers s
              | some ip ↦
                  let passed = backup_round g v now day seen servers s in
                  let done =
                    backup_round g v now day
                      (ip ∷ seen)
                      servers
                      (attempt g v now day server ip s) in
                  if any (eq_ip ip) seen then passed else done
            ])
        go none later = later seen s h
        go (some ip) later = elim (Bool-cases (any (eq_ip ip) seen)) [
          | inl e ↦ rw e (later seen s h)
          | inr e ↦ rw e (later (ip ∷ seen) _ (attempt-Same server ip s h))
        ]

  -- A round of the weekly backup, whatever fails, leaves of the files of other days those that are at
  -- most 30 days old as they are, in their order.
  pub backup_round-young :
      (servers : List Server) (s : Backups E)
      → select is_young (backup_round g v now day [] servers s).files ≡ select is_young s.files
  backup_round-young servers s = backup_round-Same (select is_young s.files) servers [] s refl
