-- ===== src/Tests/Comments.antt =====
-- The comment service over the in-memory store, with an observer that does nothing.
use open_trove.Base.{true, none, some, ◌≡◌, refl}
use open_trove.Base.Dict.{get, put}
use open_trove.Base.Text.{trim_space, trim_prefix}
use open_trove.Comments.{Comment, CreateInput}
use open_trove.Comments.Service.{Service, create, reply, edit, delete, resolve, emit, emit_to}
use open_trove.Comments.Validate.{
  validate_create, validate_body, check_anchor, normalize_anchor, clean_resource,
}
use open_trove.Comments.Service.Effects.{Effect}
use open_trove.Comments.Service.Laws.{
  Edits, Deletes, Resolves, IsSettled, Creates, Replies, comment_for_mutation-Effect,
  resolve-Effect, new_comment-Effect,
}
use open_trove.Comments.Service.Invariant.{IsConsistent}
use open_trove.Comments.Service.Steps.{Reach, here, next, creates, edits, Reach-IsConsistent}
use open_trove.Comments.Service.History.{Evolves, Reach-Evolves}
use open_trove.Fake.{Store, new_store}
use open_trove.Fake.CommentStore.{repository, create_comment, view, fake_Contract, stored, find}
use open_trove.Tests.Data.{caseless, anchor, root, store}

abbrev service : Service Store
service = record { repository = repository; observer = none }

comment_for_mutation-Effect_example :
    Effect caseless service fake_Contract
      (Edits caseless service fake_Contract tt "doc" "r1" "ada@x" 9 " new " store)
      (λ _. ⊥)
      store
      (edit caseless service 9 "doc" "r1" "ada@x" " new " store).0
      (edit caseless service 9 "doc" "r1" "ada@x" " new " store).1
    × Effect caseless service fake_Contract
        (Deletes caseless service fake_Contract tt "doc" "r1" "ada@x" 9 store)
        (λ _. ⊥)
        store
        (delete caseless service 9 "doc" "r1" "ada@x" store).0
        (delete caseless service 9 "doc" "r1" "ada@x" store).1
comment_for_mutation-Effect_example =
    comment_for_mutation-Effect caseless service fake_Contract tt 9 "doc" "r1" "ada@x" " new " store

resolve-Effect_example :
    Effect caseless service fake_Contract
      (Resolves caseless service fake_Contract tt "doc" "r1" "bob@x" true 9 store)
      (IsSettled caseless service fake_Contract tt "doc" "r1" true store)
      store
      (resolve caseless service 9 "doc" "r1" "bob@x" true store).0
      (resolve caseless service 9 "doc" "r1" "bob@x" true store).1
resolve-Effect_example =
    resolve-Effect caseless service fake_Contract tt 9 "doc" "r1" "bob@x" true store

abbrev input : CreateInput
input = record { body = " hello "; anchor = anchor }

new_comment-Effect_example :
    Effect caseless service fake_Contract
      (Creates caseless service fake_Contract tt "n1" 9 "doc" "bob@x" "v2" input)
      (λ _. ⊥)
      store
      (create caseless service "n1" 9 "doc" "bob@x" "v2" input store).0
      (create caseless service "n1" 9 "doc" "bob@x" "v2" input store).1
    × Effect caseless service fake_Contract
        (Replies caseless service fake_Contract tt "n1" 9 "doc" "r1" "bob@x" "v2" "yes" store)
        (λ _. ⊥)
        store
        (reply caseless service "n1" 9 "doc" "r1" "bob@x" "v2" "yes" store).0
        (reply caseless service "n1" 9 "doc" "r1" "bob@x" "v2" "yes" store).1
unfolding fake_Contract view stored find get
new_comment-Effect_example =
    new_comment-Effect caseless service fake_Contract tt "n1" 9 "doc" "r1" "bob@x" "v2" "yes" input
      store refl

empty-IsConsistent : IsConsistent (fake_Contract.view new_store)
unfolding fake_Contract view stored find get
empty-IsConsistent = record {
  filed = λ slug id c e. cc e;
  sound = λ slug id c e. cc e;
  rooted = λ slug id c e n. cc e;
}

abbrev created : Store
created = (create caseless service "n1" 9 "doc" "bob@x" "v2" input new_store).1

created_reached : Reach caseless service fake_Contract tt new_store created
unfolding fake_Contract view stored find get
created_reached = next here (creates "n1" 9 "doc" "bob@x" "v2" input refl)

Reach-IsConsistent_example : IsConsistent (fake_Contract.view created)
Reach-IsConsistent_example =
    Reach-IsConsistent caseless service fake_Contract tt empty-IsConsistent created_reached

abbrev first : Comment
first = record root {
  id = "n1";
  thread_id = "n1";
  author_email = "bob@x";
  body = "hello";
  created_at = 9;
  artifact_version = "v2";
}

Reach-Evolves_example :
    (new : Comment) × (fake_Contract.view
        (edit caseless service 11 "doc" "n1" "bob@x" "bye" created).1
        "doc"
        "n1"
      ≡ some new)
    × Evolves first new
unfolding fake_Contract view stored find get put create emit emit_to create_comment validate_create
    validate_body check_anchor normalize_anchor clean_resource trim_space trim_prefix
Reach-Evolves_example =
    Reach-Evolves caseless service fake_Contract tt "doc" "n1" first Reach-IsConsistent_example refl
      (next here (edits 11 "doc" "n1" "bob@x" "bye"))
