-- ===== src/Monitor/Best/Choice.antt =====
-- Which server `get_best_server` chooses.
use gsm_sv.Prelude.{
  ℕ, ◌≤◌, ◌<◌, Bool, true, false, Bool-cases, Option, is_some, ◌||◌, String, List, [], ◌∷◌, ◌≡◌,
  inl, inr, refl, arith, All, ltb, leb→le, leb_false→lt, sym, subst,
}
use gsm_sv.Exec.{Result, ok, err}
use gsm_sv.Table.{select}
use gsm_sv.Table.Laws.{All-select}
use gsm_sv.Models.{Server}
use gsm_sv.Platform.{Platform}
use gsm_sv.Platform.World.{World}
use gsm_sv.Monitor.Best.{
  is_asked, is_capable, freer, freest, update_server_stats, update_all, pick_best, best_of,
  get_best_server,
}

-- Both properties of a server at once, for a list in which every server is asked for.
freest_max :
    (best : Server) (servers : List Server)
    → (best.last_free_ram_mb ≤ (freest best servers).last_free_ram_mb)
      × All (λ (s : Server). s.last_free_ram_mb ≤ (freest best servers).last_free_ram_mb) servers
unfolding freest
freest_max best [] = (omega arith, tt)
freest_max best (s ∷ ss) =
    let rest = freest_max (freer best s) ss in
    (ground (arith, rest.0), (ground (arith, rest.0), rest.1))

freest_all :
    (P : Server → Type 0) (best : Server) (servers : List Server)
    → P best
    → All P servers
    → P (freest best servers)
unfolding freest
freest_all P best [] h hs = h
freest_all P best (s ∷ ss) h hs = elim (Bool-cases (ltb best.last_free_ram_mb s.last_free_ram_mb)) [
  | inl e ↦ rw e (freest_all P s ss hs.0 hs.1)
  | inr e ↦ rw e (freest_all P best ss h hs.1)
]

module _ {E : Type 0} (p : Platform E) where
  update_all-asked :
      (allowed excluded : Option (List (Option String))) (servers : List Server) (w : World E)
      → All (λ s. is_asked allowed excluded s ≡ true) servers
      → All (λ s. is_asked allowed excluded s ≡ true) (update_all p servers w).0
  unfolding update_all
  update_all-asked allowed excluded [] w h = tt
  update_all-asked allowed excluded (s ∷ ss) w h =
      (h.0, update_all-asked allowed excluded ss (update_server_stats p s w).1 h.1)

module _ {A : Type 0} (q : A → Bool) (P : A → Type 0) where
  select-All : (xs : List A) → All P xs → All P (select q xs)
  select-All [] h = tt
  select-All (x ∷ xs) h = elim (Bool-cases (q x)) [
    | inl e ↦ rw e (h.0, select-All xs h.1)
    | inr e ↦ rw e (select-All xs h.1)
  ]

  -- What holds of the selected and of those left out holds of all.
  All-rest : (xs : List A) → ((x : A) → q x ≡ false → P x) → All P (select q xs) → All P xs
  All-rest [] out h = tt
  All-rest (x ∷ xs) out h = elim (Bool-cases (q x)) [
    | inl e ↦ let both : P x × All P (select q xs) = rw e at h in (both.0, All-rest xs out both.1)
    | inr e ↦ (out x e, All-rest xs out (rw e at h))
  ]

module _ {E : Type 0} (p : Platform E) (required_ram_mb : ℕ)
    (allowed excluded : Option (List (Option String))) where
  abbrev candidates : World E → List Server
  candidates w = select (is_asked allowed excluded) w.db.servers.rows

  -- The measured servers, and what is left of the choice among them.
  abbrev pub ChosenFrom : List Server → Result Server → Type 0
  ChosenFrom measured (ok best) =
      (is_asked allowed excluded best ≡ true)
      × (required_ram_mb ≤ best.last_free_ram_mb)
      × All (λ (s : Server). s.last_free_ram_mb ≤ best.last_free_ram_mb) measured
  ChosenFrom measured (err x) = All (λ (s : Server). s.last_free_ram_mb < required_ram_mb) measured

  abbrev pub BestBy : World E → Result Server × World E → Type 0
  BestBy w (t, w') =
      let measured = update_all p (candidates w) w in ChosenFrom measured.0 t × (w' ≡ measured.1)

  small : (s : Server) → is_capable required_ram_mb s ≡ false → s.last_free_ram_mb < required_ram_mb
  small s h = leb_false→lt required_ram_mb s.last_free_ram_mb h

  pick_best-ChosenFrom :
      (measured capable : List Server) (w : World E)
      → select (is_capable required_ram_mb) measured ≡ capable
      → All (λ s. is_asked allowed excluded s ≡ true) measured
      → ChosenFrom measured (pick_best p capable w).0
  pick_best-ChosenFrom measured [] w h asked =
      All-rest (is_capable required_ram_mb) _ measured small (rw h tt)
  pick_best-ChosenFrom measured (s ∷ ss) w h asked =
      let asked' : All (λ s. is_asked allowed excluded s ≡ true) (s ∷ ss) =
        subst (All (λ s. is_asked allowed excluded s ≡ true)) h
          (select-All (is_capable required_ram_mb) _ measured asked) in
      let enough : All (λ s. is_capable required_ram_mb s ≡ true) (s ∷ ss) =
        subst (All (λ s. is_capable required_ram_mb s ≡ true)) h
          (All-select (is_capable required_ram_mb) measured) in
      let best_enough =
        leb→le required_ram_mb (freest s ss).last_free_ram_mb
          (freest_all (λ s. is_capable required_ram_mb s ≡ true) s ss enough.0 enough.1) in
      (
        freest_all (λ s. is_asked allowed excluded s ≡ true) s ss asked'.0 asked'.1,
        best_enough,
        All-rest (is_capable required_ram_mb) _ measured
            (λ x out. omega (arith, small x out, best_enough))
            (subst (All (λ (x : Server). x.last_free_ram_mb ≤ (freest s ss).last_free_ram_mb))
              (sym h) (freest_max s ss)),
      )

  pick_best_keeps : (capable : List Server) (w : World E) → (pick_best p capable w).1 ≡ w
  pick_best_keeps [] w = refl
  pick_best_keeps (s ∷ ss) w = refl

  -- `get_best_server` measures every active server that is allowed and not excluded, and writes the
  -- numbers to the database. It answers with one of them that has the memory asked for, and none of
  -- them has more; it raises only if none of them has the memory asked for.
  pub get_best_server-BestBy :
      (w : World E) → BestBy w (get_best_server p required_ram_mb allowed excluded w)
  unfolding get_best_server update_all
  get_best_server-BestBy w = go (candidates w) refl
    where
      go :
          (servers : List Server)
          → candidates w ≡ servers
          → (let t = best_of p required_ram_mb allowed excluded servers w in
              let measured = update_all p servers w in
              ChosenFrom measured.0 t.0 × (t.1 ≡ measured.1))
      go [] h = elim (Bool-cases (is_some allowed || is_some excluded)) [
        | inl e ↦ rw e (tt, refl)
        | inr e ↦ rw e (tt, refl)
      ]
      go (s ∷ ss) h =
          let measured = update_all p (s ∷ ss) w in
          let capable = select (is_capable required_ram_mb) measured.0 in
          let asked : All (λ s. is_asked allowed excluded s ≡ true) (s ∷ ss) =
            subst (All (λ s. is_asked allowed excluded s ≡ true)) h
              (All-select (is_asked allowed excluded) w.db.servers.rows) in
          (
            pick_best-ChosenFrom measured.0 capable measured.1 refl
                (update_all-asked p allowed excluded (s ∷ ss) w asked),
            pick_best_keeps capable measured.1,
          )
