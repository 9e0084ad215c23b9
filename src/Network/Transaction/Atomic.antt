-- ===== src/Network/Transaction/Atomic.antt =====
-- `_run_iptables_commands` with ADD as a whole.
use gsm_sv.Prelude.{
  ℕ, zero, suc, ◌+◌, ◌-◌, ◌==◌, ==_iff, ◌∙◌, ◌≤◌, ◌<◌, Bool, true, false, Option, none, some, List,
  [], ◌≡◌, arith, refl, Bool-cases, inl, inr,
}
use gsm_sv.Models.{add}
use gsm_sv.Network.Rules.{Rule}
use gsm_sv.Network.Link.{Gateway, IptablesLaws, RollbackReplies}
use gsm_sv.Network.Transaction.{inspect, append_all, add_pending, finish_add, run_iptables_commands}
use gsm_sv.Network.Transaction.Inspect.{
  occurrences, IsAbsent, Covers, inspect-keeps, inspect-IsAbsent, inspect-Covers,
}
use gsm_sv.Network.Transaction.Append.{append_all-bounds, append_all-tried, append_all_complete}
use gsm_sv.Network.Transaction.Rollback.{roll_back-untried, roll_back-exact}

-- Taking back `tried` appends of a rule that was absent if any was tried.
settle :
    (n c tried pending : ℕ)
    → n ≤ c
    → c ≤ n + tried
    → (0 < tried → 0 < pending)
    → (0 < pending → n ≡ 0)
    → c - tried ≡ n
settle n c zero pending low high t a = omega arith
settle n c (suc k) pending low high t a = omega (arith, a (t (omega arith)))

module _ {E : Type 0} (g : Gateway E) (count : E → Rule → ℕ) (laws : IptablesLaws g count) where
  -- The three facts about the appending loop from a state in which `q` stands `n` times.
  loop_facts :
      (n : ℕ) (q : Rule) (pending : List Rule) (e : E)
      → count e q ≡ n
      → let (done, tried, e') = append_all g pending [] e in
        (n ≤ count e' q)
        × (count e' q ≤ n + occurrences q tried)
        × (0 < occurrences q tried → 0 < occurrences q pending)
        × (done ≡ true → count e' q ≡ n + occurrences q pending)
  loop_facts n q pending e h = (
    (append_all-bounds g count laws q n pending [] e (omega arith) (omega arith)).0,
    (append_all-bounds g count laws q n pending [] e (omega arith) (omega arith)).1,
    λ t. omega (arith, append_all-tried g count laws q pending [] e t),
    λ t. omega (arith, append_all_complete g count laws q pending [] e t),
  )

  finish_add-safe :
      (n : ℕ) (q : Rule) (pending : List Rule) (t : Bool × List Rule × E)
      → n ≤ count t.2 q
      → count t.2 q ≤ n + occurrences q t.1
      → (0 < occurrences q t.1 → 0 < occurrences q pending)
      → (0 < occurrences q pending → n ≡ 0)
      → n ≤ count (finish_add g t).1 q
  finish_add-safe n q pending (true, tried, e) low high t a = low
  finish_add-safe n q pending (false, tried, e) low high t a =
      elim (Bool-cases (occurrences q tried == 0)) [
        | inl z ↦ omega (arith, roll_back-untried g count laws q tried e ((==_iff _ _).0 z))
        | inr pos ↦ omega (arith, a (t (ground arith)))
      ]

  finish_add-restores :
      RollbackReplies g
      → (n : ℕ) (q : Rule) (pending : List Rule) (t : Bool × List Rule × E) → n ≤ count t.2 q
      → count t.2 q ≤ n + occurrences q t.1
      → (0 < occurrences q t.1 → 0 < occurrences q pending)
      → (0 < occurrences q pending → n ≡ 0)
      → (finish_add g t).0 ≡ false
      → count (finish_add g t).1 q ≡ n
  finish_add-restores replies n q pending (true, tried, e) low high t a h = cc
  finish_add-restores replies n q pending (false, tried, e) low high t a h =
      roll_back-exact g count laws q replies tried e
      ∙ settle n (count e q) (occurrences q tried) (occurrences q pending) low high t a

  finish_add_complete :
      (n m : ℕ) (q : Rule) (t : Bool × List Rule × E)
      → (t.0 ≡ true → count t.2 q ≡ n + m)
      → (finish_add g t).0 ≡ true
      → count (finish_add g t).1 q ≡ n + m
  finish_add_complete n m q (true, tried, e) all h = all refl
  finish_add_complete n m q (false, tried, e) all h = cc

  add_pending-safe :
      (n : ℕ) (q : Rule) (o : Option (List Rule) × E)
      → count o.1 q ≡ n
      → IsAbsent n q o.0
      → n ≤ count (add_pending g o).1 q
  add_pending-safe n q (none, e) h a = omega arith
  add_pending-safe n q (some pending, e) h a =
      let f = loop_facts n q pending e h in
      finish_add-safe n q pending (append_all g pending [] e) f.0 f.1 f.2 a

  add_pending-restores :
      RollbackReplies g
      → (n : ℕ) (q : Rule) (o : Option (List Rule) × E) → count o.1 q ≡ n
      → IsAbsent n q o.0
      → (add_pending g o).0 ≡ false
      → count (add_pending g o).1 q ≡ n
  add_pending-restores replies n q (none, e) h a failed = h
  add_pending-restores replies n q (some pending, e) h a failed =
      let f = loop_facts n q pending e h in
      finish_add-restores replies n q pending (append_all g pending [] e) f.0 f.1 f.2 a failed

  add_pending_complete :
      (n wanted : ℕ) (q : Rule) (o : Option (List Rule) × E)
      → count o.1 q ≡ n
      → Covers n q wanted o.0
      → (add_pending g o).0 ≡ true
      → 0 < wanted
      → 0 < count (add_pending g o).1 q
  add_pending_complete n wanted q (none, e) h c done w = cc
  add_pending_complete n wanted q (some pending, e) h c done w =
      let f = loop_facts n q pending e h in
      omega (
        arith,
        c w,
        finish_add_complete n (occurrences q pending) q (append_all g pending [] e) f.3 done,
      )

  -- An ADD loses no rule, whatever fails on the way: each rule stands at least as often after the
  -- call as before it, whether the call returns true or false.
  pub run_add_keeps :
      (rules : List Rule) (e : E) (q : Rule)
      → count e q ≤ count (run_iptables_commands g rules add e).1 q
  unfolding run_iptables_commands
  run_add_keeps rules e q =
      add_pending-safe (count e q) q (inspect g rules e) (inspect-keeps g count laws rules e q)
        (inspect-IsAbsent g count laws (count e q) q rules e refl)

  -- Where no rollback command fails, an ADD that returns false leaves every rule standing exactly
  -- as often as before.
  pub run_add_restores :
      RollbackReplies g
      → (rules : List Rule) (e : E) (q : Rule) → (run_iptables_commands g rules add e).0 ≡ false
      → count (run_iptables_commands g rules add e).1 q ≡ count e q
  unfolding run_iptables_commands
  run_add_restores replies rules e q =
      add_pending-restores replies (count e q) q (inspect g rules e)
        (inspect-keeps g count laws rules e q)
        (inspect-IsAbsent g count laws (count e q) q rules e refl)

  -- An ADD that returns true leaves every rule that it was given in place.
  pub run_add_complete :
      (rules : List Rule) (e : E) (q : Rule)
      → (run_iptables_commands g rules add e).0 ≡ true
      → 0 < occurrences q rules
      → 0 < count (run_iptables_commands g rules add e).1 q
  unfolding run_iptables_commands
  run_add_complete rules e q =
      add_pending_complete (count e q) (occurrences q rules) q (inspect g rules e)
        (inspect-keeps g count laws rules e q)
        (inspect-Covers g count laws (count e q) q rules e refl)
