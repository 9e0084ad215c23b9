-- ===== src/Questions.antt =====
-- Questions and their answers (api/routes/faq.py).
pub mod Owned
use gsm_sv.Prelude.{
  ℕ, suc, ◌==◌, Bool, true, false, not, ◌&&◌, Option, none, some, String, str_eq, List, [], ◌∷◌,
  leb, if◌then◌else◌,
}
use gsm_sv.Exec.{
  Exec, Result, ok, err, value_error, http_exception, pure, gets, modify, or_raise, reject_if,
  ◌>>=◌, ◌>>◌, question_not_found, delete_forbidden,
}
use gsm_sv.Table.{find_first, select, insert, delete_where, set_where}
use gsm_sv.Table.Keys.{keyed}
use gsm_sv.Models.{admin, eq_role, User, FaqQuestion, Db}
use gsm_sv.Auth.{get_current_active_admin}

abbrev pub key_of : FaqQuestion → ℕ
key_of q = q.id

abbrev pub asked_by : ℕ → FaqQuestion → Bool
asked_by user_id q = q.user_id == user_id

-- `question_not_empty`, on what `strip` leaves and its length.
unfoldable pub question_not_empty :
    (strip : String → String) (len : String → ℕ) → String → Result String
question_not_empty strip len v =
    if str_eq (strip v) ""
    then err value_error
    else if leb (len (strip v)) 500
    then ok (strip v)
    else err value_error

-- `.order_by(FaqQuestion.created_at.desc())`, rows of one time in the table's order.
abbrev pub put_newest : FaqQuestion → List FaqQuestion → List FaqQuestion
put_newest q [] = q ∷ []
put_newest q (r ∷ rs) =
    let rest = put_newest q rs in if leb r.created_at q.created_at then q ∷ r ∷ rs else r ∷ rest

abbrev pub newest_first : List FaqQuestion → List FaqQuestion
newest_first [] = []
newest_first (q ∷ qs) = put_newest q (newest_first qs)

abbrev pub visible : User → List FaqQuestion → List FaqQuestion
visible u rows = if eq_role u.role admin then rows else select (asked_by u.id) rows

unfoldable pub get_faq_questions : User → Exec Db (List FaqQuestion)
get_faq_questions u = do
  rows ← gets (λ (db : Db). db.faq_questions.rows)
  pure (newest_first (visible u rows))

abbrev pub question_row : User → String → ℕ → ℕ → FaqQuestion
question_row u question now id = record {
  id = id;
  user_id = u.id;
  question = question;
  answer = none;
  answered_at = none;
  created_at = now;
}

abbrev pub ask : User → String → ℕ → Db → Db
ask u question now db = record db {
  faq_questions = insert (question_row u question now) db.faq_questions;
}

-- The key of the new question.
unfoldable pub create_faq_question : (now : ℕ) → String → User → Exec Db ℕ
create_faq_question now question u = do
  table ← gets (λ (db : Db). db.faq_questions)
  modify (ask u question now)
  pure table.next_id

abbrev pub answered : String → ℕ → FaqQuestion → FaqQuestion
answered answer now q = record q { answer = some answer; answered_at = some now }

abbrev pub set_answer : String → ℕ → ℕ → Db → Db
set_answer answer now id db = record db {
  faq_questions = set_where (keyed key_of id) (answered answer now) db.faq_questions;
}

unfoldable pub answer_faq_question : (now : ℕ) → ℕ → String → User → Exec Db (Unit {0})
answer_faq_question now id answer u = do
  me ← get_current_active_admin u
  rows ← gets (λ (db : Db). db.faq_questions.rows)
  q ← or_raise (find_first (keyed key_of id) rows) (http_exception 404 question_not_found)
  modify (set_answer answer now q.id)

abbrev pub drop_question : ℕ → Db → Db
drop_question id db = record db { faq_questions = delete_where (keyed key_of id) db.faq_questions }

unfoldable pub delete_faq_question : ℕ → User → Exec Db (Unit {0})
delete_faq_question id u = do
  rows ← gets (λ (db : Db). db.faq_questions.rows)
  q ← or_raise (find_first (keyed key_of id) rows) (http_exception 404 question_not_found)
  reject_if (not (eq_role u.role admin) && not (q.user_id == u.id)) 403 delete_forbidden
  modify (drop_question q.id)

-- The requests of one user that write.
pub data FaqRequest : Type 0 where
  to_ask : (now : ℕ) → String → FaqRequest
  to_answer : (now : ℕ) → ℕ → String → FaqRequest
  to_delete : ℕ → FaqRequest

abbrev pub forget_key : Exec Db ℕ → Exec Db (Unit {0})
forget_key m = do key ← m; pure tt

abbrev pub serve_faq : FaqRequest → User → Exec Db (Unit {0})
unfolding create_faq_question answer_faq_question delete_faq_question
serve_faq (to_ask now question) u = forget_key (create_faq_question now question u)
serve_faq (to_answer now id answer) u = answer_faq_question now id answer u
serve_faq (to_delete id) u = delete_faq_question id u
