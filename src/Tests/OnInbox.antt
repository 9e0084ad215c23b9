-- ===== src/Tests/OnInbox.antt =====
-- Notifications and questions on the small installation.
use gsm_sv.Prelude.{ℕ, ◌≤◌, false, none, [], ◌∷◌, ◌≡◌, ◌≢◌, refl, arith}
use gsm_sv.Table.{select, count_where}
use gsm_sv.Table.Keys.{keyed}
use gsm_sv.Models.{Notification, error, vm_grace, Db}
use gsm_sv.Questions.{asked_by, serve_faq, to_delete}
use gsm_sv.Questions.Owned.{serve_faq_spares}
use gsm_sv.Tests.{student, tables}

abbrev note : Notification
note = record {
  id = 1;
  user_id = 1;
  kind = error;
  message = vm_grace [];
  is_read = false;
  created_at = 5;
}

abbrev others_note : Notification
others_note = record note { id = 2; user_id = 2 }

abbrev full : Db
full = record tables {
  notifications = record { rows = note ∷ others_note ∷ []; next_id = 3 };
  faq_questions = record {
    rows =
        record {
          id = 1;
          user_id = 2;
          question = "How?";
          answer = none;
          answered_at = none;
          created_at = 5;
        }
        ∷ [];
    next_id = 2;
  };
}

two_is_not_one : 2 ≢ student.id
two_is_not_one h = absurd (omega (arith, h))

unique_questions :
    (k : ℕ) → count_where (keyed gsm_sv.Questions.key_of k) full.faq_questions.rows ≤ 1
unique_questions k = ground arith

serve_faq_spares_example :
    select (asked_by 2) (serve_faq (to_delete 1) student full).1.faq_questions.rows
    ≡ select (asked_by 2) full.faq_questions.rows
serve_faq_spares_example =
    serve_faq_spares student 2 two_is_not_one refl (to_delete 1) full unique_questions
