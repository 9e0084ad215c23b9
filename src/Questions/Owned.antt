-- ===== src/Questions/Owned.antt =====
-- The requests of a user and the questions of others.
use gsm_sv.Prelude.{
  ℕ, ◌≤◌, ◌==◌, false, Bool-cases, inl, inr, Option, none, some, List, [], ◌∷◌, ◌++◌, ◌≡◌, ◌≢◌,
  refl, sym, subst, arith, All-map,
}
use gsm_sv.Table.{find_first, select, count_where}
use gsm_sv.Table.Keys.{keyed, only_found, select-drop_where}
use gsm_sv.Models.{admin, eq_role, User, FaqQuestion, Db}
use gsm_sv.Auth.{get_current_active_admin}
use gsm_sv.Questions.{
  key_of, asked_by, question_row, create_faq_question, answer_faq_question, delete_faq_question,
  FaqRequest, to_ask, to_answer, to_delete, serve_faq,
}

module _ (u : User) (other : ℕ) (someone_else : other ≢ u.id)
    (plain : eq_role u.role admin ≡ false) where
  select-new :
      (rows : List FaqQuestion) (q : FaqQuestion)
      → asked_by other q ≡ false
      → select (asked_by other) (rows ++ q ∷ []) ≡ select (asked_by other) rows
  select-new [] q h = rw h refl
  select-new (r ∷ rows) q h = ground (arith, select-new rows q h)

  -- Where keys of questions are unique, a request of a user who is no administrator to ask, to answer
  -- or to delete leaves the questions of every other user, with their answers, as they were, in their
  -- order.
  pub serve_faq_spares :
      (r : FaqRequest) (db : Db)
      → ((k : ℕ) → count_where (keyed key_of k) db.faq_questions.rows ≤ 1)
      → select (asked_by other) (serve_faq r u db).1.faq_questions.rows
        ≡ select (asked_by other) db.faq_questions.rows
  unfolding serve_faq create_faq_question answer_faq_question delete_faq_question
      get_current_active_admin
  serve_faq_spares (to_ask now question) db one =
      select-new db.faq_questions.rows (question_row u question now db.faq_questions.next_id)
        (ground (arith, someone_else))
  serve_faq_spares (to_answer now id answer) db one = rw plain refl
  serve_faq_spares (to_delete id) db one =
      go (find_first (keyed key_of id) db.faq_questions.rows) refl
    where
      go :
          (o : Option FaqQuestion)
          → find_first (keyed key_of id) db.faq_questions.rows ≡ o
          → select (asked_by other) (delete_faq_question id u db).1.faq_questions.rows
            ≡ select (asked_by other) db.faq_questions.rows
      go none e = rw e refl
      go (some q) e = elim (Bool-cases (q.user_id == u.id)) [
        | inr foreign ↦ rw (e, plain, foreign) refl
        | inl mine ↦
            rw (e, plain, mine)
              (select-drop_where key_of (asked_by other) q.id db.faq_questions.rows (
                All-map
                  (λ x is t.
                    subst (λ y. asked_by other y ≡ false) (sym (is t))
                      (ground (arith, mine, someone_else)))
                  db.faq_questions.rows
                  (only_found key_of (keyed key_of id) q db.faq_questions.rows e (one q.id))))
      ]
