-- ===== src/Session/FetchTests.antt =====
-- FETCH of two mails, one of whose bodies has to be loaded, and of a number without a mail.
use tutabridge.Prelude.{
  ℕ, ◌≡◌, refl, Bool, true, false, Option, none, some, List, [], ◌∷◌, All, keep, length,
}
use tutabridge.Prelude.Text.{Text, codes}
use tutabridge.Session.State.{CachedMail}
use tutabridge.Session.Fetch.{Outside, Progress, Answer, answered, refused, fetch_each}
use tutabridge.Session.Answers.{loaded_at, fetch_each_lem}
use tutabridge.Mime.Tests.{ascii}

abbrev listed : Bool → ℕ → CachedMail
listed body_loaded uid = record {
  mail = record {
    id = none;
    subject = "hello";
    sender_name = "Ada";
    sender_address = "ada@example.org";
    received_ms = 1024;
    unread = true;
    attachments = [];
    first_recipient = none;
  };
  body_loaded = body_loaded;
  uid = uid;
  deleted = false;
}

-- It knows every body and no file.
abbrev server : Outside
server = record {
  get_body = λ eid. none;
  cached = λ eid. none;
  on_cooldown = λ eid. false;
  load_mail_details = λ mail. some none;
  load_attachments = λ mail. some [];
}

abbrev start : Progress
start = record {
  mails = listed true 3 ∷ listed false 7 ∷ [];
  loaded = [];
  requested = [];
  failed = [];
}

abbrev fetched : Answer
fetched = fetch_each ascii server none (0 ∷ 1 ∷ 5 ∷ []) (codes "(BODY[])") true start

abbrev lines_of : Answer → List Text
lines_of (answered ts p) = ts
lines_of (refused reason p) = []

abbrev left_by : Answer → Progress
left_by (answered ts p) = p
left_by (refused reason p) = start

fetch_each_lem_example :
    (length (lines_of fetched) ≡ 2)
    × All (λ j. loaded_at (left_by fetched).mails j ≡ true) (0 ∷ 1 ∷ 5 ∷ [])
unfolding tutabridge.Prelude.Text.contains fetch_each
fetch_each_lem_example =
    fetch_each_lem ascii server none (codes "(BODY[])") true refl (0 ∷ 1 ∷ 5 ∷ []) start
      (left_by fetched) (lines_of fetched) refl
