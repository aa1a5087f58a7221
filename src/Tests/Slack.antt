-- ===== src/Tests/Slack.antt =====
-- A workspace with a guest, a link to an artifact, and answers to a prompt.
use open_trove.Base.{
  ℕ, String, Bool, true, false, Option, none, some, List, [], ◌∷◌, ◌==◌, ◌≡◌, refl, length,
  if◌then◌else◌, ok, err, plain, arith,
}
use open_trove.Base.Text.{equal_fold, split, trim_prefix}
use open_trove.Base.Dict.{Dict, get}
use open_trove.Base.Exec.{Exec}
use open_trove.Comments.{reply_created}
use open_trove.Notify.{Notification}
use open_trove.Preview.Summary.{html}
use open_trove.Slack.{User, Attachment, Api}
use open_trove.Slack.Guests.{new_directory, has_guests}
use open_trove.Slack.Guests.Laws.{IsShown, IsSound, IsRight, has_guests-IsSound}
use open_trove.Slack.CardFiles.{new_card_files}
use open_trove.Slack.Attachments.{Preview}
use open_trove.Slack.Unfurl.{
  Unfurler, ConsentRequest, ConsentJson, Url, State, title_only, send_previews, kept_links,
  audience,
}
use open_trove.Slack.Unfurl.Laws.{quiet, send_previews-title_only}
use open_trove.Slack.Consent.{LinkShared, Callback, handle_link_shared, handle_consent}
use open_trove.Slack.Consent.Answers.{Decides, handle_consent-Decides}
use open_trove.Slack.Notifier.{notify}
use open_trove.Slack.Notifier.Laws as NotifierLaws
use open_trove.Slack.Notifier.Laws.{Posts, notify-Posts}
use open_trove.Tests.Data.{caseless}

abbrev member : User
member = record {
  id = "U1";
  deleted = false;
  is_bot = false;
  is_restricted = false;
  is_ultra_restricted = false;
}

abbrev guest : User
guest = record member { id = "G1"; is_restricted = true }

abbrev everyone : List User
everyone = member ∷ guest ∷ []

-- The guest comes on the second page of the members of each conversation but the first.
abbrev page : String → String → List String × String
page channel cursor =
    if channel == "C1"
    then ("U1" ∷ [], "")
    else if cursor == "next"
    then ("G1" ∷ [], "")
    else ("U1" ∷ [], "next")

-- The world is what has been sent, the attachments by link.
abbrev World : Type 0
World = List (Dict Attachment)

abbrev api : Api World
api = record {
  get_user_by_email = λ email s. (if email == "ada@x" then ok member else err (plain "offline"), s);
  post_message = λ channel text blocks s. (ok tt, [] ∷ s);
  get_conversation_info =
      λ channel s. (ok (record { is_ext_shared = false; is_pending_ext_shared = false }), s);
  unfurl_message = λ channel ts attachments blocks s. (ok tt, attachments ∷ s);
  get_users = λ s. (ok everyone, s);
  get_users_in_conversation = λ channel cursor s. (ok (page channel cursor), s);
  upload_file = λ card name s. (ok "F1", s);
}

abbrev clock : World → ℕ
clock s = length s

all_shown : IsShown api everyone page
all_shown = record { users = λ s us e. cc e; members = λ channel cursor s p e. cc e }

new_directory-IsSound : IsSound api everyone page new_directory
unfolding new_directory get
new_directory-IsSound = record { guests = λ ids e. cc e; channels = λ channel c e clear. cc e }

finds_guest : (has_guests api 5 "C2" new_directory []).0 ≡ (true, none)
unfolding has_guests new_directory get
finds_guest = refl

finds_none : (has_guests api 5 "C1" new_directory []).0 ≡ (false, none)
unfolding has_guests new_directory get
finds_none = refl

has_guests-IsSound_example :
    IsSound api everyone page (has_guests api 5 "C1" new_directory []).1
    × IsRight api everyone page all_shown "C1" (has_guests api 5 "C1" new_directory []).0
has_guests-IsSound_example =
    has_guests-IsSound api everyone page all_shown 5 "C1" new_directory [] new_directory-IsSound

abbrev link : String
link = "https://trove.example/doc"

abbrev parse_url : String → Option Url
parse_url raw =
    if raw == link then some (record { host = "trove.example"; path = "/doc" }) else none

abbrev shown : Preview
shown = record {
  summary = record {
    kind = html;
    title = "Report";
    description = "Secret";
    sections = [];
    stats = [];
    facts = [];
    snippet = "";
  };
  owner_email = "ada@x";
  open_threads = 1;
  latest_comment = none;
  hidden_reason = "";
  card = none;
  card_file_id = "";
}

abbrev preview : String → Exec World Preview
preview slug s = if slug == "doc" then (ok shown, s) else (err (plain "no such artifact"), s)

abbrev sleep : Exec World (Unit {0})
sleep s = (ok tt, s)

abbrev start : State World
start = record { guests = new_directory; cards = new_card_files; world = [] }

abbrev request : ConsentRequest
request = record { channel = "C2"; ts = "17.5"; user = "U1"; links = link ∷ [] }

abbrev json : ConsentJson
json = record { marshal = λ req. ok "{}"; unmarshal = λ text. ok request }

abbrev parses_float : String → Bool
parses_float ts = ts == "17.5"

abbrev respond : String → Exec World (Unit {0})
respond url s = (ok tt, s)

abbrev app : Unfurler World
app = record {
  host = "trove.example";
  api = api;
  preview = preview;
  sleep = sleep;
  respond = respond;
  unicode = caseless;
  parse_url = parse_url;
  parses_float = parses_float;
  json = json;
  visited = λ d. d;
  clock = clock;
}

send_previews-title_only_example :
    send_previews (quiet app) "C1" "17.5" (link ∷ []) title_only start
    ≡ send_previews app "C1" "17.5" (link ∷ []) title_only start
send_previews-title_only_example =
    send_previews-title_only app (λ d. refl) "C1" "17.5" (link ∷ []) start

abbrev message : LinkShared
message = record {
  channel = "C2";
  ts = "17.5";
  user = "U1";
  links = link ∷ "https://other" ∷ link ∷ [];
}

-- A channel with a guest gets a prompt, without any attachment.
prompts : (handle_link_shared app message start).world ≡ [] ∷ []
unfolding handle_link_shared audience has_guests new_directory get kept_links equal_fold split
    trim_prefix
prompts = refl

abbrev answered : Callback
answered = record {
  user = "U1";
  block_actions =
      record { action_id = "other"; value = "" }
      ∷ record { action_id = "trove_unfurl_title"; value = "{}" }
      ∷ [];
  response_url = "https://hooks.slack.com/x";
}

handle_consent-Decides_example : Decides app answered start (handle_consent app answered start)
handle_consent-Decides_example = handle_consent-Decides app answered start

abbrev notification : Notification
notification = record {
  kind = reply_created;
  recipient_email = "ada@x";
  actor_email = "bob@x";
  recipient_is_owner = true;
  artifact_title = "Report";
  artifact_url = link;
  excerpt = "yes";
}

abbrev Names : String → String → Type 0
Names email id = id ≡ "U1"

named :
    (email : String) (s : World) (user : User)
    → (api.get_user_by_email email s).0 ≡ ok user
    → user.deleted ≡ false
    → user.is_bot ≡ false
    → Names email user.id
named email s user h live person = ground (arith, h)

nobody : NotifierLaws.IsSound api clock Names named []
unfolding get
nobody email c e given = cc e

notify-Posts_example :
    NotifierLaws.IsSound api clock Names named (notify api clock notification [] []).1
    × Posts api clock Names named notification [] [] (notify api clock notification [] [])
notify-Posts_example = notify-Posts api clock Names named notification [] [] nobody
